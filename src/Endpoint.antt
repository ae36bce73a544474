-- ===== src/Endpoint.antt =====
-- The directory endpoint.
pub mod Guarantees
