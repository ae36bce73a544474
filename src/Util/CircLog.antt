-- ===== src/Util/CircLog.antt =====
-- util/circlog/circlog.go: a log that keeps the last bytes that were written. A byte is a number. The
-- constant CIRCULARLOG_INIT_SIZE is an argument, and `none` a panic.

pub mod Rounding
pub mod Copies
pub mod Ring
pub mod Refinement
pub mod Writes
pub mod Taken
pub mod Growth
pub mod History
use zrepl.Prelude.{
  ℕ, zero, suc, ◌+◌, ◌-◌, ◌*◌, ◌/◌, ◌%◌, ◌^◌, Bool, true, false, ◌&&◌, if◌then◌else◌, Option, none,
  some, List, [], ◌∷◌, ◌++◌, length, take, drop, replicate, ltb, leb, ◌==◌, min, ℤ, pos, negsuc,
}

pub record CircularLog : Type 0 where
  pub buf : List ℕ
  pub size : ℕ
  pub max : ℕ
  pub written : ℕ
  pub write_cursor : ℕ

-- NewCircularLog
unfoldable pub new_circular_log : (init_size : ℕ) → ℤ → Option CircularLog
new_circular_log init (negsuc n) = none
new_circular_log init (pos n) =
    if n == 0
    then none
    else some
        (record { buf = replicate init 0; size = init; max = n; written = 0; write_cursor = 0 })

-- a | b on the lowest `w` bits
unfoldable pub bit_or : (w : ℕ) → ℕ → ℕ → ℕ
bit_or zero a b = 0
bit_or (suc w) a b = (if a % 2 + b % 2 == 0 then 0 else 1) + 2 * bit_or w (a / 2) (b / 2)

-- r |= r >> k
abbrev pub smear : ℕ → ℕ → ℕ
smear k r = bit_or 64 r (r / 2 ^ k)

-- r--, and the smearing of its highest bit.
unfoldable pub smeared : ℕ → ℕ
unfolding bit_or
smeared n = smear 32 (smear 16 (smear 8 (smear 4 (smear 2 (smear 1 (n - 1))))))

-- r++, on 64 bits, and the check that it is an int.
unfoldable pub rounded : ℕ → Option ℕ
rounded r = if ltb (2 ^ 63 - 1) ((r + 1) % 2 ^ 64) then none else some ((r + 1) % 2 ^ 64)

-- nextPow2Int
unfoldable pub next_pow2_int : ℕ → Option ℕ
unfolding smeared rounded
next_pow2_int n = if n == 0 then none else rounded (smeared n)

-- copy(dst, src): the new content of dst
abbrev pub copy : List ℕ → List ℕ → List ℕ
copy dst src = take (length dst) src ++ drop (length src) dst

-- Whether the last write filled the buffer up to its end.
abbrev pub is_full : CircularLog → Bool
is_full cl = cl.write_cursor == 0 && ltb 0 cl.written

abbrev pub buf_avail : CircularLog → ℕ
buf_avail cl = if is_full cl then 0 else cl.size - cl.write_cursor

-- The buffer grows to the given size.
unfoldable pub resize : CircularLog → ℕ → CircularLog
resize cl new_size =
    let cursor = if is_full cl then cl.size else cl.write_cursor in
    record cl {
      buf = copy (replicate new_size 0) (take cursor cl.buf);
      size = new_size;
      write_cursor = cursor;
    }

abbrev pub resize_to : CircularLog → Option ℕ → Option CircularLog
resize_to cl none = none
resize_to cl (some p) = some (resize cl (if ltb cl.max p then cl.max else p))

-- Before a write of `n` bytes.
unfoldable pub grow : CircularLog → ℕ → Option CircularLog
unfolding resize next_pow2_int
grow cl n =
    if ltb (buf_avail cl) n && ltb cl.size cl.max
    then resize_to cl (next_pow2_int (cl.size + n))
    else some cl

-- "(...)"
abbrev pub truncation_mark : List ℕ
truncation_mark = 40 ∷ 46 ∷ 46 ∷ 46 ∷ 41 ∷ []

-- The data that a buffer of the given size takes.
unfoldable pub truncate : ℕ → List ℕ → List ℕ
truncate size bs =
    if ltb size (length bs) then copy (drop (length bs - size) bs) truncation_mark else bs

-- The second copy, from the beginning of the buffer.
abbrev pub put_rest : Bool → List ℕ → ℕ → List ℕ → List ℕ × ℕ
put_rest true first copied bs =
    (copy first (drop copied bs), copied + min (length first) (length bs - copied))
put_rest false first copied bs = (first, copied)

-- The two copies, of `bs` for a write of `n` bytes: the buffer, and how much was copied.
unfoldable pub put_data : List ℕ → ℕ → ℕ → List ℕ → List ℕ × ℕ
put_data buf cursor n bs =
    let copied = min (length (drop cursor buf)) (length bs) in
    put_rest (ltb copied n) (take cursor buf ++ copy (drop cursor buf) bs) copied bs

-- The rest of Write once the buffer has grown.
unfoldable pub write_grown : List ℕ → CircularLog → CircularLog × ℕ
unfolding truncate put_data
write_grown bs cl =
    let out = put_data cl.buf cl.write_cursor (length bs) (truncate cl.size bs) in
    (
      record cl {
        buf = out.0;
        write_cursor = (cl.write_cursor + out.1) % cl.size;
        written = cl.written + out.1;
      },
      out.1,
    )

abbrev pub write_after : List ℕ → Option CircularLog → Option (CircularLog × ℕ)
write_after bs none = none
write_after bs (some cl) = some (write_grown bs cl)

-- Write: the log after it, and the number that it returns.
unfoldable pub write : List ℕ → CircularLog → Option (CircularLog × ℕ)
unfolding grow write_grown
write bs cl = write_after bs (grow cl (length bs))

-- Len
unfoldable pub len : CircularLog → ℕ
len cl = if leb cl.size cl.written then cl.size else cl.write_cursor

-- The second case of Bytes, where the buffer has wrapped.
unfoldable pub wrapped_bytes : List ℕ → ℕ → ℕ → List ℕ
wrapped_bytes buf size cursor =
    let ret = copy (replicate size 0) (drop cursor buf) in
    take (size - cursor) ret ++ copy (drop (size - cursor) ret) (take cursor buf)

-- Bytes
unfoldable pub bytes : CircularLog → List ℕ
unfolding wrapped_bytes
bytes cl =
    if leb cl.size cl.written && cl.write_cursor == 0
    then cl.buf
    else if ltb cl.size cl.written
    then wrapped_bytes cl.buf cl.size cl.write_cursor
    else take cl.write_cursor cl.buf

-- Reset: `written` stays.
abbrev pub reset : (init_size : ℕ) → CircularLog → CircularLog
reset init cl = record cl { write_cursor = 0; buf = replicate init 0; size = init }
