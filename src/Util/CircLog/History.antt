-- ===== src/Util/CircLog/History.antt =====
-- The log after any writes.
use mathlib.Core.Option.{some-injective}
use zrepl.Prelude.{
  ℕ, ◌+◌, ◌-◌, ◌^◌, ◌<◌, ◌≡◌, refl, ap, ◌∙◌, subst, inl, inr, true, false, some, List, [], ◌++◌,
  length, length-drop, length-replicate, drop, leb, ◌==◌, ℤ, pos, negsuc, arith, Bool-cases,
}
use zrepl.Util.CircLog.{CircularLog, new_circular_log, truncate, write, len, bytes}
use zrepl.Util.CircLog.Refinement.{Holds, bytes-last}
use zrepl.Util.CircLog.Growth.{write-Holds}

-- A new log, after writes that have taken the bytes `hist`.
pub data Written (init_size : ℕ) : CircularLog → List ℕ → Type 0 where
  fresh :
      {cl : CircularLog} (max : ℤ)
      → 0 < init_size
      → new_circular_log init_size max ≡ some cl
      → Written init_size cl []
  then_write :
      {cl cl' : CircularLog} {hist : List ℕ} (bs : List ℕ) (n : ℕ)
      → Written init_size cl hist
      → cl.size + length bs < 2 ^ 63
      → write bs cl ≡ some (cl', n)
      → Written init_size cl' (hist ++ truncate cl'.size bs)

fresh-Holds :
    (init : ℕ) (max : ℤ) (cl : CircularLog)
    → 0 < init
    → new_circular_log init max ≡ some cl
    → Holds cl []
unfolding new_circular_log
fresh-Holds init (negsuc n) cl lt h = cc
fresh-Holds init (pos n) cl lt h = elim (Bool-cases (n == 0)) [
  | inl z ↦ let k = (rw (z, new_circular_log) at h) in cc
  | inr z ↦
      subst (λ x. Holds x []) (some-injective _ _ (rw (z, new_circular_log) at h))
        (record {
          sized = length-replicate {A = ℕ} init 0;
          positive = lt;
          counted = refl;
          content = inl (lt, refl, refl);
        })
]

Written-Holds : {init : ℕ} {cl : CircularLog} {hist : List ℕ} → Written init cl hist → Holds cl hist
Written-Holds (fresh max lt h) = fresh-Holds _ max _ lt h
Written-Holds (then_write bs n before int h) =
    (write-Holds _ _ _ bs n (Written-Holds before) int h).0

len-bytes : (cl : CircularLog) (hist : List ℕ) → Holds cl hist → len cl ≡ length (bytes cl)
unfolding len
len-bytes cl hist h =
    let last : length (bytes cl) ≡ length hist - (length hist - cl.size) =
      ap length (bytes-last cl hist h) ∙ length-drop (length hist - cl.size) hist in
    elim h.content [
      | inl (lt, c, e) ↦
          let b : leb cl.size cl.written ≡ false = ground (arith, lt) in
          rw (b, len) (omega (arith, last, lt, c, h.counted))
      | inr (le, lt, start, grown, e) ↦
          let b : leb cl.size cl.written ≡ true = ground (arith, le) in
          rw (b, len) (omega (arith, last, le, h.counted))
    ]

-- After any writes to a new log, Bytes returns the end of the sequence of all bytes that the writes
-- have taken: all of them, or the last ones, as many as the log's size is. Len is their number. A
-- write takes its data, or, if the buffer is smaller after its growth, their end, marked as cut.
pub Written-bytes :
    {init : ℕ} {cl : CircularLog} {hist : List ℕ}
    → Written init cl hist
    → (bytes cl ≡ drop (length hist - cl.size) hist) × (len cl ≡ length (bytes cl))
Written-bytes {init} {cl} {hist} w =
    let h = Written-Holds w in (bytes-last cl hist h, len-bytes cl hist h)
