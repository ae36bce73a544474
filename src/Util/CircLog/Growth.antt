-- ===== src/Util/CircLog/Growth.antt =====
-- Write, with the growth of the buffer, against the bytes that the log has taken.
use mathlib.Core.Option.{some-injective}
use mathlib.Core.List.{append-nil}
use zrepl.Prelude.{
  ℕ, ◌+◌, ◌-◌, ◌^◌, ◌<◌, ◌≤◌, ◌≡◌, refl, sym, ap, ◌∙◌, subst, inl, inr, true, false, ◌&&◌,
  if◌then◌else◌, Option, none, some, List, ◌++◌, length, length-append, length-take, length-drop,
  length-replicate, take, drop, replicate, ltb, ltb→lt, ltb→ge, arith, Bool-cases, &&-true,
}
use zrepl.Util.CircLog.{
  CircularLog, copy, is_full, buf_avail, resize, resize_to, grow, truncate, write_grown,
  write_after, write, next_pow2_int,
}
use zrepl.Util.CircLog.Rounding.{next_pow2_int-ge}
use zrepl.Util.CircLog.Copies.{take-whole, take-front}
use zrepl.Util.CircLog.Ring.{ring}
use zrepl.Util.CircLog.Refinement.{Holds}
use zrepl.Util.CircLog.Writes.{HasRoom}
use zrepl.Util.CircLog.Taken.{write_grown-Holds}

-- A buffer that can still grow starts with all the bytes.
record IsWhole (cl : CircularLog) (hist : List ℕ) : Type 0 where
  at_end : (if is_full cl then cl.size else cl.write_cursor) ≡ cl.written
  starts : take cl.written cl.buf ≡ hist
  within : cl.written ≤ cl.size

Holds-IsWhole :
    (cl : CircularLog) (hist : List ℕ) → Holds cl hist → cl.size < cl.max → IsWhole cl hist
Holds-IsWhole cl hist h growable = elim h.content [
  | inl (lt, c, e) ↦
      let unfilled : is_full cl ≡ false = ground (arith, lt, c) in
      record {
        at_end = rw unfilled c;
        starts = ap (λ k. take k cl.buf) (sym c) ∙ e;
        within = omega (arith, lt);
      }
  | inr (le, lt, start, grown, e) ↦
      let full = grown growable in
      let zero_cursor = start full in
      let closed : is_full cl ≡ true = ground (arith, zero_cursor, full, h.positive) in
      let none_gone : cl.written - cl.size ≡ 0 = omega (arith, full) in
      record {
        at_end = rw closed (sym full);
        starts =
            take-whole cl.written cl.buf (omega (arith, h.sized, full))
            ∙ sym (append-nil cl.buf)
            ∙ ap (ring cl.buf) (sym zero_cursor)
            ∙ e
            ∙ ap (λ k. drop k hist) none_gone;
        within = omega (arith, full);
      }
]

module _ (cl : CircularLog) (hist : List ℕ) (h : Holds cl hist) (growable : cl.size < cl.max)
    (new_size : ℕ) (larger : cl.size < new_size) where
  -- The log with a larger buffer.
  abbrev resized : CircularLog
  resized = record cl {
    buf = copy (replicate new_size 0) (take cl.written cl.buf);
    size = new_size;
    write_cursor = cl.written;
  }

  resized-Holds : Holds resized hist
  resized-Holds =
      let w = Holds-IsWhole cl hist h growable in
      let zeros : List ℕ = replicate new_size 0 in
      let t : List ℕ = take cl.written cl.buf in
      let size_t : length t ≡ cl.written =
        omega (arith, length-take cl.written cl.buf, h.sized, w.within) in
      let whole : take (length zeros) t ≡ t =
        take-whole (length zeros) t
          (omega (arith, size_t, length-replicate {A = ℕ} new_size 0, w.within, larger)) in
      record {
        sized = omega (
          arith,
          length-append (take (length zeros) t) (drop (length t) zeros),
          ap length whole,
          length-drop (length t) zeros,
          length-replicate {A = ℕ} new_size 0,
          size_t,
          w.within,
          larger,
        );
        positive = omega (arith, larger);
        counted = h.counted;
        content = inl (
          omega (arith, larger, w.within),
          refl,
          ap (λ l. take cl.written (l ++ drop (length t) zeros)) whole
              ∙ take-front cl.written t (drop (length t) zeros) (sym size_t)
              ∙ w.starts,
        );
      }

  resize-Holds : Holds (resize cl new_size) hist
  unfolding resize
  resize-Holds =
      let w = Holds-IsWhole cl hist h growable in
      subst
        (λ k.
          Holds
            (record cl {
              buf = copy (replicate new_size 0) (take k cl.buf);
              size = new_size;
              write_cursor = k;
            })
            hist)
        (sym w.at_end) resized-Holds

  resize-HasRoom :
      (n : ℕ) → (new_size < cl.max → cl.size + n ≤ new_size) → HasRoom (resize cl new_size) n
  unfolding resize
  resize-HasRoom n room more =
      let w = Holds-IsWhole cl hist h growable in
      let unfilled : is_full resized ≡ false = ground arith in
      let k : n ≤ buf_avail resized = rw unfilled (omega (arith, room more, w.within)) in
      subst
        (λ c.
          n
          ≤ buf_avail (record cl {
            buf = copy (replicate new_size 0) (take c cl.buf);
            size = new_size;
            write_cursor = c;
          }))
        (sym w.at_end) k

  -- The next power of two is enough for the write, or the buffer has its largest size.
  grown_enough :
      (n p : ℕ)
      → cl.size + n ≤ p
      → new_size ≡ (if ltb cl.max p then cl.max else p)
      → new_size < cl.max
      → cl.size + n ≤ new_size
  grown_enough n p le e more = elim (Bool-cases (ltb cl.max p)) [
    | inl b ↦ let same : new_size ≡ cl.max = (rw b at e) in absurd (omega (arith, same, more))
    | inr b ↦ let same : new_size ≡ p = (rw b at e) in omega (arith, same, le)
  ]

grows_to :
    (size max n p : ℕ) → size < max → size + n ≤ p → 0 < n → size < (if ltb max p then max else p)
grows_to size max n p lt le some_data = elim (Bool-cases (ltb max p)) [
  | inl b ↦ rw b lt
  | inr b ↦ rw b (omega (arith, le, some_data))
]

-- After the growth, the log holds the same bytes, and there is room or no more growth.
grow-Holds :
    (cl g : CircularLog) (hist : List ℕ) (n : ℕ)
    → Holds cl hist
    → cl.size + n < 2 ^ 63
    → grow cl n ≡ some g
    → Holds g hist × HasRoom g n
unfolding grow
grow-Holds cl g hist n h int e = elim (Bool-cases (ltb (buf_avail cl) n && ltb cl.size cl.max)) [
  | inr b ↦
      let same : cl ≡ g = some-injective _ _ (rw (b, grow) at e) in
      subst (λ x. Holds x hist × HasRoom x n) same (h, stays b)
  | inl b ↦
      let (tight, less) = &&-true (ltb (buf_avail cl) n) _ b in
      resized_by (next_pow2_int (cl.size + n)) refl (ltb→lt _ _ less) (rw (b, grow) at e)
        (ltb→lt _ _ tight)
]
  where
    stays : ltb (buf_avail cl) n && ltb cl.size cl.max ≡ false → HasRoom cl n
    stays b growable = elim (Bool-cases (ltb (buf_avail cl) n)) [
      | inr f ↦ ltb→ge _ _ f
      | inl t ↦
          let no : ltb cl.size cl.max ≡ false = (rw t at b) in
          absurd (omega (arith, ltb→ge _ _ no, growable))
    ]

    resized_by :
        (o : Option ℕ)
        → next_pow2_int (cl.size + n) ≡ o
        → cl.size < cl.max
        → resize_to cl o ≡ some g
        → buf_avail cl < n
        → Holds g hist × HasRoom g n
    resized_by none k growable l tight = cc
    resized_by (some p) k growable l tight =
        let le = next_pow2_int-ge (cl.size + n) p int k in
        let larger : cl.size < (if ltb cl.max p then cl.max else p) =
          grows_to cl.size cl.max n p growable le (omega (arith, tight)) in
        let same : resize cl (if ltb cl.max p then cl.max else p) ≡ g = some-injective _ _ l in
        subst (λ x. Holds x hist × HasRoom x n) same
          (
            resize-Holds cl hist h growable _ larger,
            resize-HasRoom cl hist h growable _ larger n
                (grown_enough cl hist h growable _ larger n p le refl),
          )

-- A write takes the data after all the bytes before, cut to what the buffer takes after its growth,
-- and returns how much that is.
pub write-Holds :
    (cl out : CircularLog) (hist bs : List ℕ) (n : ℕ)
    → Holds cl hist
    → cl.size + length bs < 2 ^ 63
    → write bs cl ≡ some (out, n)
    → Holds out (hist ++ truncate out.size bs) × (n ≡ length (truncate out.size bs))
unfolding write
write-Holds cl out hist bs n h int e = go (grow cl (length bs)) refl e
  where
    go :
        (o : Option CircularLog)
        → grow cl (length bs) ≡ o
        → write_after bs o ≡ some (out, n)
        → Holds out (hist ++ truncate out.size bs) × (n ≡ length (truncate out.size bs))
    go none k l = cc
    go (some g) k l =
        let (held, room) = grow-Holds cl g hist (length bs) h int k in
        let done : write_grown bs g ≡ (out, n) = some-injective _ _ l in
        subst
          (λ (o : CircularLog × ℕ).
            Holds o.0 (hist ++ truncate o.0.size bs) × (o.1 ≡ length (truncate o.0.size bs)))
          done (write_grown-Holds g hist bs held room)
