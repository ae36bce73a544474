-- ===== src/Util.antt =====
-- Helpers of the program: util.
pub mod CircLog
