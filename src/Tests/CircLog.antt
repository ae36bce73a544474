-- ===== src/Tests/CircLog.antt =====
-- A log of at most four bytes, whose buffer has three at first.
use zrepl.Prelude.{◌≡◌, refl, some, [], ◌∷◌, length, pos, arith}
use zrepl.Util.CircLog.{CircularLog, new_circular_log, truncate, write, len, bytes, reset}
use zrepl.Util.CircLog.History.{Written, fresh, then_write, Written-bytes}

abbrev new_log : CircularLog
new_log = record { buf = 0 ∷ 0 ∷ 0 ∷ []; size = 3; max = 4; written = 0; write_cursor = 0 }

abbrev two_written : CircularLog
two_written = record { buf = 1 ∷ 2 ∷ 0 ∷ []; size = 3; max = 4; written = 2; write_cursor = 2 }

-- The buffer has grown, and has wrapped.
abbrev five_written : CircularLog
five_written = record { buf = 5 ∷ 2 ∷ 3 ∷ 4 ∷ []; size = 4; max = 4; written = 5; write_cursor = 1 }

writes : write (3 ∷ 4 ∷ 5 ∷ []) two_written ≡ some (five_written, 3)
unfolding write
writes = refl

wrote : Written 3 five_written (1 ∷ 2 ∷ 3 ∷ 4 ∷ 5 ∷ [])
unfolding new_circular_log write truncate
wrote =
    then_write (3 ∷ 4 ∷ 5 ∷ []) 3
      (then_write (1 ∷ 2 ∷ []) 2 (fresh (pos 4) (omega arith) refl) (omega arith) refl)
      (omega arith) writes

reads : bytes five_written ≡ 2 ∷ 3 ∷ 4 ∷ 5 ∷ []
unfolding bytes
reads = refl

-- Of eight bytes, a write to the full log takes four, and returns so.
cuts : truncate 4 (1 ∷ 2 ∷ 3 ∷ 4 ∷ 5 ∷ 6 ∷ 7 ∷ 8 ∷ []) ≡ 40 ∷ 46 ∷ 46 ∷ 46 ∷ []
unfolding truncate
cuts = refl

Written-bytes_example :
    (bytes five_written ≡ 2 ∷ 3 ∷ 4 ∷ 5 ∷ []) × (len five_written ≡ length (bytes five_written))
Written-bytes_example = Written-bytes wrote

-- After Reset, the log is not empty: its bytes are the zeros of the new buffer.
reads_zeros : bytes (reset 3 five_written) ≡ 0 ∷ 0 ∷ 0 ∷ []
unfolding bytes
reads_zeros = refl
