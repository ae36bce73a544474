-- ===== src/Util/CircLog/Writes.antt =====
-- What a write does to the bytes that the log has taken.
use native.Mathlib.Nat.{mod-eq_of_lt, mod_self, mod-lt}
use zrepl.Prelude.{
  ℕ, ◌+◌, ◌-◌, ◌%◌, ◌<◌, ◌≤◌, ◌≡◌, ◌⊎◌, refl, sym, ap, ◌∙◌, inl, inr, true, List, ◌++◌, length,
  length-append, length-take, length-drop, take, drop, ltb, ltb→lt, ltb→ge, arith, Bool-cases,
}
use zrepl.Util.CircLog.{CircularLog, is_full, buf_avail, truncation_mark, truncate}
use zrepl.Util.CircLog.Copies.{drop_add, drop-append_le}
use zrepl.Util.CircLog.Ring.{drop-append_ge, IsPut}
use zrepl.Util.CircLog.Refinement.{IsOpen, IsFull, Holds}

pub length-truncate :
    (size : ℕ) (bs : List ℕ)
    → ((length bs ≤ size) × (truncate size bs ≡ bs))
      ⊎ ((size < length bs) × (length (truncate size bs) ≡ size))
unfolding truncate
length-truncate size bs = elim (Bool-cases (ltb size (length bs))) [
  | inr b ↦ inl (ltb→ge _ _ b, rw (b, truncate) refl)
  | inl b ↦
      let lt = ltb→lt _ _ b in
      let kept = drop (length bs - size) bs in
      inr (
        lt,
        rw (b, truncate)
            (omega (
              arith,
              length-append (take (length kept) truncation_mark) (drop 5 kept),
              length-take (length kept) truncation_mark,
              length-drop 5 kept,
              length-drop (length bs - size) bs,
              lt,
            )),
      )
]

-- Room for a write, or a buffer that cannot grow.
abbrev pub HasRoom : CircularLog → ℕ → Type 0
HasRoom cl n = cl.size < cl.max → n ≤ buf_avail cl

room_in : (cl : CircularLog) (m : ℕ) → m ≤ buf_avail cl → m ≤ cl.size - cl.write_cursor
room_in cl m h = elim (Bool-cases (is_full cl)) [
  | inl b ↦ let k : m ≤ 0 = (rw b at h) in omega (arith, k)
  | inr b ↦ rw b at h
]

no_room :
    (cl : CircularLog) (m : ℕ) → m ≤ buf_avail cl → cl.write_cursor ≡ 0 → 0 < cl.written → m ≡ 0
no_room cl m h z lt =
    let full : is_full cl ≡ true = ground (arith, z, lt) in
    let k : m ≤ 0 = (rw full at h) in omega (arith, k)

-- The log after `d` has been put into its buffer.
abbrev pub put_log : CircularLog → List ℕ → List ℕ → CircularLog
put_log cl b d = record cl {
  buf = b;
  write_cursor = (cl.write_cursor + length d) % cl.size;
  written = cl.written + length d;
}

module _ (cl : CircularLog) (hist d b : List ℕ) (h : Holds cl hist)
    (p : IsPut cl.buf cl.size cl.write_cursor d (b, length d)) (short : length d ≤ cl.size)
    (room : HasRoom cl (length d)) where
  -- The last bytes after the write.
  last_bytes :
      (k : ℕ)
      → cl.size ≤ cl.written + length d
      → k ≡ cl.written + length d - cl.size
      → drop k hist ++ d ≡ drop (cl.written + length d - cl.size) (hist ++ d)
  last_bytes k le e =
      ap (λ j. drop j hist ++ d) e
      ∙ sym (
          drop-append_le (cl.written + length d - cl.size) hist d
            (omega (arith, h.counted, short, le)))

  put-IsOpen :
      IsOpen cl hist → IsOpen (put_log cl b d) (hist ++ d) ⊎ IsFull (put_log cl b d) (hist ++ d)
  put-IsOpen (lt, c, e) = elim (Bool-cases (ltb (cl.write_cursor + length d) cl.size)) [
    | inl x ↦
        let inside = ltb→lt _ _ x in
        let m : (cl.write_cursor + length d) % cl.size ≡ cl.write_cursor + length d =
          mod-eq_of_lt inside in
        inl (
          omega (arith, inside, c),
          m ∙ ap (λ k. k + length d) c,
          ap (λ k. take k b) m ∙ p.front (omega (arith, inside)) ∙ ap (λ l. l ++ d) e,
        )
    | inr x ↦
        let over = ltb→ge _ _ x in
        inr (
          omega (arith, over, c),
          mod-lt (cl.write_cursor + length d) h.positive,
          λ full.
              ap (λ k. (k + length d) % cl.size) c ∙ ap (λ k. k % cl.size) full ∙ mod_self cl.size,
          λ growable. omega (arith, over, c, room_in cl (length d) (room growable), lt),
          p.turned
              ∙ ap (λ l. drop (length d) (drop cl.write_cursor cl.buf ++ l) ++ d) e
              ∙ ap (λ l. l ++ d)
                  (drop-append_ge (length d) (drop cl.write_cursor cl.buf) hist
                    (omega (arith, length-drop cl.write_cursor cl.buf, h.sized, over)))
              ∙ last_bytes _ (omega (arith, over, c))
                  (omega (arith, length-drop cl.write_cursor cl.buf, h.sized, over, c, lt)),
        )
  ]

  put-IsFull :
      IsFull cl hist → IsOpen (put_log cl b d) (hist ++ d) ⊎ IsFull (put_log cl b d) (hist ++ d)
  put-IsFull (le, lt, start, grown, e) = inr (
    omega (arith, le),
    mod-lt (cl.write_cursor + length d) h.positive,
    λ full.
        let nothing : length d ≡ 0 = omega (arith, full, le) in
        let zero_cursor : cl.write_cursor ≡ 0 = start (omega (arith, full, le)) in
        mod-eq_of_lt (omega (arith, nothing, lt)) ∙ omega (arith, nothing, zero_cursor),
    λ growable.
        let full = grown growable in
        omega (
          arith,
          full,
          no_room cl (length d) (room growable) (start full) (omega (arith, full, h.positive)),
        ),
    p.turned
        ∙ ap (λ l. drop (length d) l ++ d) e
        ∙ ap (λ l. l ++ d) (sym (drop_add (cl.written - cl.size) (length d) hist))
        ∙ last_bytes _ (omega (arith, le)) (omega (arith, le)),
  )

  pub put-Holds : Holds (put_log cl b d) (hist ++ d)
  put-Holds = record {
    sized = p.kept;
    positive = h.positive;
    counted = omega (arith, h.counted, length-append hist d);
    content = elim h.content [ inl o ↦ put-IsOpen o | inr f ↦ put-IsFull f ];
  }
