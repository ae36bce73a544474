-- ===== src/Util/CircLog/Refinement.antt =====
-- The log against the sequence of all bytes that it has taken.
use mathlib.Core.List.{append-nil}
use zrepl.Prelude.{
  ℕ, ◌-◌, ◌<◌, ◌≤◌, ◌≡◌, ◌⊎◌, sym, ap, ◌∙◌, inl, inr, true, false, List, [], ◌++◌, length,
  length-take, length-drop, length-replicate, take, drop, replicate, take-append-drop, ltb, leb,
  ltb→ge, ◌==◌, ==→eq, arith, Bool-cases,
}
use zrepl.Util.CircLog.{CircularLog, copy, wrapped_bytes, bytes}
use zrepl.Util.CircLog.Copies.{take-front, drop-front, copy-fits}
use zrepl.Util.CircLog.Ring.{ring}

-- The buffer is not full: it starts with all the bytes.
abbrev pub IsOpen : CircularLog → List ℕ → Type 0
IsOpen cl hist =
    (cl.written < cl.size) × (cl.write_cursor ≡ cl.written) × (take cl.write_cursor cl.buf ≡ hist)

-- The buffer is full: read from the cursor on, it is the last bytes.
abbrev pub IsFull : CircularLog → List ℕ → Type 0
IsFull cl hist =
    (cl.size ≤ cl.written)
    × (cl.write_cursor < cl.size)
    × (cl.written ≡ cl.size → cl.write_cursor ≡ 0)
    × (cl.size < cl.max → cl.written ≡ cl.size)
    × (ring cl.buf cl.write_cursor ≡ drop (cl.written - cl.size) hist)

-- The log has taken the bytes `hist`.
pub record Holds (cl : CircularLog) (hist : List ℕ) : Type 0 where
  pub sized : length cl.buf ≡ cl.size
  pub positive : 0 < cl.size
  pub counted : cl.written ≡ length hist
  pub content : IsOpen cl hist ⊎ IsFull cl hist

wrapped_bytes-ring :
    (buf : List ℕ) (s c : ℕ) → length buf ≡ s → c < s → wrapped_bytes buf s c ≡ ring buf c
unfolding wrapped_bytes
wrapped_bytes-ring buf s c sized lt =
    let zeros : List ℕ = replicate s 0 in
    let front : List ℕ = take (s - c) zeros in
    let back : List ℕ = drop (s - c) zeros in
    let d : List ℕ = drop c buf in
    let t : List ℕ = take c buf in
    let ret : copy zeros d ≡ d ++ back =
      ap (λ z. copy z d) (sym (take-append-drop (s - c) zeros))
      ∙ copy-fits front back d (
          omega (
            arith,
            length-take (s - c) zeros,
            length-replicate {A = ℕ} s 0,
            length-drop c buf,
            sized,
          )) in
    let n : s - c ≡ length d = omega (arith, length-drop c buf, sized) in
    let m : length back ≡ length t = omega (
      arith,
      length-drop (s - c) zeros,
      length-replicate {A = ℕ} s 0,
      length-take c buf,
      sized,
      lt,
    ) in
    let fill : copy back t ≡ t =
      ap (λ z. copy z t) (sym (append-nil back)) ∙ copy-fits back [] t m ∙ append-nil t in
    ap (λ r. take (s - c) r ++ copy (drop (s - c) r) t) ret
    ∙ ap (λ l. l ++ copy (drop (s - c) (d ++ back)) t) (take-front (s - c) d back n)
    ∙ ap (λ l. d ++ copy l t) (drop-front (s - c) d back n)
    ∙ ap (λ l. d ++ l) fill

-- Bytes returns the last bytes that the log has taken, as many as its size is, or all of them.
pub bytes-last :
    (cl : CircularLog) (hist : List ℕ)
    → Holds cl hist
    → bytes cl ≡ drop (length hist - cl.size) hist
unfolding bytes
bytes-last cl hist h = ap (λ w. w) (go h.content) ∙ ap (λ w. drop (w - cl.size) hist) h.counted
  where
    go : IsOpen cl hist ⊎ IsFull cl hist → bytes cl ≡ drop (cl.written - cl.size) hist
    go (inl (lt, c, e)) =
        let a : leb cl.size cl.written ≡ false = ground (arith, lt) in
        let b : ltb cl.size cl.written ≡ false = ground (arith, lt) in
        let none_gone : cl.written - cl.size ≡ 0 = omega (arith, lt) in
        rw (a, b, none_gone, bytes) e
    go (inr (le, lt, start, grown, e)) =
        let a : leb cl.size cl.written ≡ true = ground (arith, le) in
        elim (Bool-cases (cl.write_cursor == 0)) [
          | inl z ↦
              rw (a, z, bytes)
                (sym (append-nil cl.buf) ∙ ap (ring cl.buf) (sym (==→eq cl.write_cursor 0 z)) ∙ e)
          | inr z ↦ elim (Bool-cases (ltb cl.size cl.written)) [
            | inl b ↦
                rw (a, z, b, bytes)
                  (wrapped_bytes-ring cl.buf cl.size cl.write_cursor h.sized lt ∙ e)
            | inr b ↦
                let zero_cursor : cl.write_cursor ≡ 0 = start (omega (arith, le, ltb→ge _ _ b)) in
                absurd (ground (arith, z, zero_cursor))
          ]
        ]
