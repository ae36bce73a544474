-- ===== src/Prelude/Counts.antt =====
-- How many elements of a list pass a test.
use Prim.Native.Nat.{ℕ, zero, suc, ◌+◌, ◌≤◌}
use mathlib.Core.Path.{◌≡◌, refl, ap, sym, ◌∙◌}
use mathlib.Core.Logic.{∥∥₁_elim, inl, inr}
use mathlib.Core.Bool.{Bool, true, not}
use mathlib.Core.List.{List, [], ◌∷◌, ◌++◌, Perm, Permᴰ}
use native.Mathlib.Nat.{ℕ_set}
use native.Mathlib.Omega.{arith}
use zrepl.Prelude.Tests.{if◌then◌else◌, Bool-cases}
use zrepl.Prelude.Lists.{keep_if, drop, length}

module _ {ℓ} {A : Type ℓ} where
  abbrev pub one : (A → Bool) → A → ℕ
  one p x = if p x then 1 else 0

  abbrev pub count_if : (A → Bool) → List A → ℕ
  count_if p [] = 0
  count_if p (x ∷ xs) = one p x + count_if p xs

  pub count_if-append :
      (p : A → Bool) (xs ys : List A) → count_if p (xs ++ ys) ≡ count_if p xs + count_if p ys
  count_if-append p [] ys = omega arith
  count_if-append p (x ∷ xs) ys = omega (arith, count_if-append p xs ys)

  count_if-permᴰ : (p : A → Bool) {xs ys : List A} → Permᴰ xs ys → count_if p xs ≡ count_if p ys
  count_if-permᴰ p Permᴰ.nil = refl
  count_if-permᴰ p (Permᴰ.cons e q) = omega (arith, ap (one p) e, count_if-permᴰ p q)
  count_if-permᴰ p (Permᴰ.swap e f) = omega (arith, ap (one p) e, ap (one p) f)
  count_if-permᴰ p (Permᴰ.trans q r) = count_if-permᴰ p q ∙ count_if-permᴰ p r

  pub count_if-perm : (p : A → Bool) (xs ys : List A) → Perm xs ys → count_if p xs ≡ count_if p ys
  count_if-perm p xs ys q = ∥∥₁_elim q (ℕ_set _ _) (count_if-permᴰ p)

  pub count_if-keep_if :
      (p q : A → Bool) (xs : List A)
      → count_if p (keep_if q xs) + count_if p (keep_if (λ x. not (q x)) xs) ≡ count_if p xs
  count_if-keep_if p q [] = omega arith
  count_if-keep_if p q (x ∷ xs) = elim (Bool-cases (q x)) [
    | inl e ↦ rw e (omega (arith, count_if-keep_if p q xs))
    | inr e ↦ rw e (omega (arith, count_if-keep_if p q xs))
  ]

  pub count_if-drop-le :
      (p : A → Bool) (n : ℕ) (xs : List A) → count_if p (drop n xs) ≤ count_if p xs
  count_if-drop-le p zero xs = omega arith
  count_if-drop-le p (suc n) [] = omega arith
  count_if-drop-le p (suc n) (x ∷ xs) = omega (arith, count_if-drop-le p n xs)

  count_if-all : (xs : List A) → count_if (λ x. true) xs ≡ length xs
  count_if-all [] = refl
  count_if-all (x ∷ xs) = omega (arith, count_if-all xs)

  pub length-perm : (xs ys : List A) → Perm xs ys → length xs ≡ length ys
  length-perm xs ys q = sym (count_if-all xs) ∙ count_if-perm (λ x. true) xs ys q ∙ count_if-all ys
