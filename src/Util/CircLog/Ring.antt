-- ===== src/Util/CircLog/Ring.antt =====
-- The buffer read from the cursor on, as a ring, and what a write does to it.
use mathlib.Core.List.{append_assoc, append-nil}
use native.Mathlib.Nat.{mod-eq_of_lt, mod_self, mod-eq-sub-mod}
use zrepl.Prelude.{
  ℕ, zero, suc, ◌+◌, ◌-◌, ◌%◌, ◌<◌, ◌≤◌, ◌≡◌, refl, sym, ap, ◌∙◌, subst, inl, inr, List, [], ◌∷◌,
  ◌++◌, length, length-append, length-take, length-drop, take, drop, take-append-drop, ltb, ltb→lt,
  ltb→ge, arith, Bool-cases,
}
use zrepl.Util.CircLog.{put_data}
use zrepl.Util.CircLog.Copies.{
  take-whole, drop-whole, take-front, drop-front, drop-append_le, put_data-fits, put_data-wraps,
}

-- The oldest byte first.
abbrev pub ring : List ℕ → ℕ → List ℕ
ring buf c = drop c buf ++ take c buf

pub drop-append_ge :
    (n : ℕ) (xs ys : List ℕ) → length xs ≤ n → drop n (xs ++ ys) ≡ drop (n - length xs) ys
drop-append_ge n [] ys h = let e : n - 0 ≡ n = omega arith in rw e refl
drop-append_ge zero (x ∷ xs) ys h = absurd (omega (arith, h))
drop-append_ge (suc n) (x ∷ xs) ys h =
    let e : suc n - suc (length xs) ≡ n - length xs = omega arith in
    rw e (drop-append_ge n xs ys (omega (arith, h)))

-- The buffer after the data have been put at the cursor.
pub record IsPut (buf : List ℕ) (s c : ℕ) (bs : List ℕ) (out : List ℕ × ℕ) : Type 0 where
  pub count : out.1 ≡ length bs
  pub kept : length out.0 ≡ s
  pub turned : ring out.0 ((c + length bs) % s) ≡ drop (length bs) (ring buf c) ++ bs
  pub front : c + length bs ≤ s → take (c + length bs) out.0 ≡ take c buf ++ bs

module _ (buf bs : List ℕ) (s c : ℕ) (sized : length buf ≡ s) (inside : c < s) where
  head-length : length (take c buf) ≡ c
  head-length = omega (arith, length-take c buf, sized, inside)

  tail-length : length (drop c buf) ≡ s - c
  tail-length = omega (arith, length-drop c buf, sized)

  module _ (fits : length bs ≤ s - c) where
    fitted : List ℕ
    fitted = take c buf ++ (bs ++ drop (length bs) (drop c buf))

    fitted-front : take (c + length bs) fitted ≡ take c buf ++ bs
    unfolding fitted
    fitted-front =
        ap (take (c + length bs)) (sym (append_assoc (take c buf) bs _))
        ∙ take-front (c + length bs) (take c buf ++ bs) _
            (omega (arith, head-length, length-append (take c buf) bs))

    fitted-back : drop (c + length bs) fitted ≡ drop (length bs) (drop c buf)
    unfolding fitted
    fitted-back =
        ap (drop (c + length bs)) (sym (append_assoc (take c buf) bs _))
        ∙ drop-front (c + length bs) (take c buf ++ bs) _
            (omega (arith, head-length, length-append (take c buf) bs))

    turned_goal :
        drop (length bs) (ring buf c) ++ bs ≡ drop (length bs) (drop c buf) ++ (take c buf ++ bs)
    turned_goal =
        ap (λ l. l ++ bs)
          (drop-append_le (length bs) (drop c buf) (take c buf) (omega (arith, fits, tail-length)))
        ∙ append_assoc (drop (length bs) (drop c buf)) (take c buf) bs

    fitted-ring : ring fitted (c + length bs) ≡ drop (length bs) (ring buf c) ++ bs
    fitted-ring =
        ap (λ l. l ++ take (c + length bs) fitted) fitted-back
        ∙ ap (λ l. drop (length bs) (drop c buf) ++ l) fitted-front
        ∙ sym turned_goal

    fitted-length : length fitted ≡ s
    unfolding fitted
    fitted-length = omega (
      arith,
      length-append (take c buf) (bs ++ drop (length bs) (drop c buf)),
      length-append bs (drop (length bs) (drop c buf)),
      length-drop (length bs) (drop c buf),
      head-length,
      tail-length,
      fits,
      inside,
    )

    -- At the end of the buffer, the cursor goes back to its start.
    ring_start : c + length bs ≡ s → ring fitted 0 ≡ ring fitted (c + length bs)
    ring_start e =
        append-nil fitted
        ∙ sym (
            ap (λ l. l ++ take (c + length bs) fitted)
              (drop-whole (c + length bs) fitted (omega (arith, e, fitted-length)))
            ∙ take-whole (c + length bs) fitted (omega (arith, e, fitted-length)))

    fitted-turned : ring fitted ((c + length bs) % s) ≡ drop (length bs) (ring buf c) ++ bs
    fitted-turned = elim (Bool-cases (ltb (c + length bs) s)) [
      | inl b ↦
          let m : (c + length bs) % s ≡ c + length bs = mod-eq_of_lt (ltb→lt _ _ b) in
          ap (ring fitted) m ∙ fitted-ring
      | inr b ↦
          let full : c + length bs ≡ s = omega (arith, ltb→ge _ _ b, fits, inside) in
          let m : (c + length bs) % s ≡ 0 = ap (λ k. k % s) full ∙ mod_self s in
          ap (ring fitted) m ∙ ring_start full ∙ fitted-ring
    ]

    pub fits-IsPut : (n : ℕ) → IsPut buf s c bs (put_data buf c n bs)
    unfolding fitted
    fits-IsPut n =
        let whole : take c buf ++ (take (length bs) (drop c buf) ++ drop (length bs) (drop c buf))
            ≡ buf =
          ap (λ l. take c buf ++ l) (take-append-drop (length bs) (drop c buf))
          ∙ take-append-drop c buf in
        let out : put_data buf c n bs ≡ (fitted, length bs) =
          subst (λ x. ◌≡◌ {A = List ℕ × ℕ} (put_data x c n bs) (fitted, length bs)) whole
            (put_data-fits (take c buf) (take (length bs) (drop c buf))
              (drop (length bs) (drop c buf)) bs c n (sym head-length)
              (omega (arith, length-take (length bs) (drop c buf), tail-length, fits))) in
        subst (IsPut buf s c bs) (sym out) (record {
          count = refl;
          kept = fitted-length;
          turned = fitted-turned;
          front = λ _. fitted-front;
        })

  module _ (wraps : s - c < length bs) (short : length bs ≤ s) where
    -- What of the data goes to the start of the buffer.
    over : ℕ
    over = length bs - (s - c)

    ls : List ℕ
    ls = take over (take c buf)

    ms : List ℕ
    ms = drop over (take c buf)

    ends : List ℕ
    ends = take (s - c) bs

    starts : List ℕ
    starts = drop (s - c) bs

    starts-length : length starts ≡ over
    unfolding starts over
    starts-length = omega (arith, length-drop (s - c) bs)

    ls-length : length ls ≡ over
    unfolding ls over
    ls-length =
        omega (arith, length-take (length bs - (s - c)) (take c buf), head-length, short, inside)

    ends-length : length ends ≡ s - c
    unfolding ends
    ends-length = omega (arith, length-take (s - c) bs, wraps)

    head_parts : ls ++ ms ≡ take c buf
    unfolding ls ms
    head_parts = take-append-drop over (take c buf)

    bs_parts : ends ++ starts ≡ bs
    unfolding ends starts
    bs_parts = take-append-drop (s - c) bs

    wrapped : List ℕ
    wrapped = starts ++ (ms ++ ends)

    wrapped-turned : ring wrapped ((c + length bs) % s) ≡ drop (length bs) (ring buf c) ++ bs
    unfolding wrapped over ms
    wrapped-turned =
        let m : (c + length bs) % s ≡ over =
          mod-eq-sub-mod (omega (arith, wraps, inside))
          ∙ mod-eq_of_lt (omega (arith, short, inside, wraps))
          ∙ omega (arith, wraps, inside) in
        let back : drop over wrapped ≡ ms ++ ends =
          drop-front over starts (ms ++ ends) (sym starts-length) in
        let front : take over wrapped ≡ starts =
          take-front over starts (ms ++ ends) (sym starts-length) in
        let goal : drop (length bs) (ring buf c) ≡ ms =
          drop-append_ge (length bs) (drop c buf) (take c buf) (omega (arith, wraps, tail-length))
          ∙ ap (λ k. drop k (take c buf)) (omega (arith, tail-length)) in
        ap (ring wrapped) m
        ∙ ap (λ l. l ++ take over wrapped) back
        ∙ ap (λ l. (ms ++ ends) ++ l) front
        ∙ append_assoc ms ends starts
        ∙ ap (λ l. ms ++ l) bs_parts
        ∙ sym (ap (λ l. l ++ bs) goal)

    pub wraps-IsPut : (n : ℕ) → s - c < n → IsPut buf s c bs (put_data buf c n bs)
    unfolding wrapped
    wraps-IsPut n lt =
        let whole : (ls ++ ms) ++ drop c buf ≡ buf =
          ap (λ l. l ++ drop c buf) head_parts ∙ take-append-drop c buf in
        let out : put_data buf c n bs ≡ (wrapped, length bs) =
          subst (λ x. ◌≡◌ {A = List ℕ × ℕ} (put_data x c n bs) (wrapped, length bs)) whole
            (subst
              (λ d.
                ◌≡◌ {A = List ℕ × ℕ} (put_data ((ls ++ ms) ++ drop c buf) c n d)
                  (wrapped, length d))
              bs_parts
              (put_data-wraps ls ms (drop c buf) ends starts c n
                (sym (ap length head_parts ∙ head-length)) (ends-length ∙ sym tail-length)
                (starts-length ∙ sym ls-length) (omega (arith, ends-length, lt)))) in
        subst (IsPut buf s c bs) (sym out) (record {
          count = refl;
          kept = omega (
            arith,
            length-append starts (ms ++ ends),
            length-append ms ends,
            starts-length,
            ls-length,
            ends-length,
            ap length head_parts,
            length-append ls ms,
            head-length,
            inside,
          );
          turned = wrapped-turned;
          front = λ le. absurd (omega (arith, le, wraps, inside));
        })
