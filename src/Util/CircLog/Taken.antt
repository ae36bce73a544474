-- ===== src/Util/CircLog/Taken.antt =====
-- What a write puts into a buffer that has its final size.
use zrepl.Prelude.{
  ℕ, ◌+◌, ◌-◌, ◌%◌, ◌<◌, ◌≤◌, ◌≡◌, sym, ap, subst, inl, inr, List, ◌++◌, length, ltb, ltb→lt,
  ltb→ge, arith, Bool-cases,
}
use zrepl.Util.CircLog.{CircularLog, truncate, put_data, write_grown}
use zrepl.Util.CircLog.Ring.{IsPut, fits-IsPut, wraps-IsPut}
use zrepl.Util.CircLog.Refinement.{Holds}
use zrepl.Util.CircLog.Writes.{length-truncate, HasRoom, put-Holds}

cursor_inside : (cl : CircularLog) (hist : List ℕ) → Holds cl hist → cl.write_cursor < cl.size
cursor_inside cl hist h = elim h.content [
  | inl (lt, c, e) ↦ omega (arith, lt, c)
  | inr (le, lt, start, grown, e) ↦ lt
]

pair_of : (out : List ℕ × ℕ) (n : ℕ) → out.1 ≡ n → ◌≡◌ {A = List ℕ × ℕ} out (out.0, n)
pair_of (b, k) n e = ap (λ j. (b, j)) e

module _ (cl : CircularLog) (hist bs : List ℕ) (h : Holds cl hist)
    (room : HasRoom cl (length bs)) where
  abbrev pub taken : List ℕ
  taken = truncate cl.size bs

  taken_short : (length taken ≤ cl.size) × (length taken ≤ length bs)
  taken_short = elim (length-truncate cl.size bs) [
    | inl (le, e) ↦ (omega (arith, le, ap length e), omega (arith, ap length e))
    | inr (lt, e) ↦ (omega (arith, e), omega (arith, e, lt))
  ]

  taken-IsPut :
      IsPut cl.buf cl.size cl.write_cursor taken (put_data cl.buf cl.write_cursor (length bs) taken)
  taken-IsPut =
      let inside = cursor_inside cl hist h in
      elim (Bool-cases (ltb (cl.size - cl.write_cursor) (length taken))) [
        | inr b ↦
            fits-IsPut cl.buf taken cl.size cl.write_cursor h.sized inside (ltb→ge _ _ b)
              (length bs)
        | inl b ↦
            let wraps = ltb→lt _ _ b in
            wraps-IsPut cl.buf taken cl.size cl.write_cursor h.sized inside wraps taken_short.0
              (length bs) (omega (arith, wraps, taken_short.1))
      ]

  pub write_grown-Holds :
      Holds (write_grown bs cl).0 (hist ++ taken) × ((write_grown bs cl).1 ≡ length taken)
  unfolding write_grown
  write_grown-Holds =
      let out = put_data cl.buf cl.write_cursor (length bs) taken in
      let same = pair_of out (length taken) taken-IsPut.count in
      (
        subst
            (λ (o : List ℕ × ℕ).
              Holds
                (record cl {
                  buf = o.0;
                  write_cursor = (cl.write_cursor + o.1) % cl.size;
                  written = cl.written + o.1;
                })
                (hist ++ taken))
            (sym same)
            (put-Holds cl hist taken out.0 h
              (subst (IsPut cl.buf cl.size cl.write_cursor taken) same taken-IsPut) taken_short.0
              (λ growable. omega (arith, room growable, taken_short.1))),
        taken-IsPut.count,
      )
