-- ===== src/Prelude/Sort.antt =====
-- Go's `sort.SliceStable` as the stable insertion sort, whose result a stable sort determines, and
-- `sort.Slice`, which may order ties in any way, as an interface.
use mathlib.Core.Path.{◌≡◌, refl, ap, ◌∙◌}
use mathlib.Core.Logic.{inl, inr}
use mathlib.Core.Bool.{Bool, true, false, not, ◌&&◌}
use mathlib.Core.List.{List, [], ◌∷◌, Perm}
use mathlib.Core.List.Perm
use native.Mathlib.Omega.{arith}
use zrepl.Prelude.Tests.{if◌then◌else◌, Bool-cases}
use Prim.Native.Nat.{ℕ, zero, suc}
use zrepl.Prelude.Lists.{All, All-map, All-drop, take, drop, length}

module _ {ℓ} {A : Type ℓ} where
  -- What Go asks of the function `less`.
  pub record IsOrder (less : A → A → Bool) : Type ℓ where
    pub asymm : (a b : A) → less a b ≡ true → less b a ≡ false
    pub trans : (a b c : A) → less b a ≡ false → less c b ≡ false → less c a ≡ false

  -- No later element is less than an earlier one.
  abbrev pub IsSorted : (A → A → Bool) → List A → Type 0
  IsSorted less [] = Unit
  IsSorted less (x ∷ xs) = All (λ y. less y x ≡ false) xs × IsSorted less xs

  pub insert_by : (A → A → Bool) → A → List A → List A
  insert_by less x [] = x ∷ []
  insert_by less x (y ∷ ys) =
      let rest = insert_by less x ys in if less y x then y ∷ rest else x ∷ y ∷ ys

  unfoldable pub slice_stable : (A → A → Bool) → List A → List A
  unfolding insert_by
  slice_stable less [] = []
  slice_stable less (x ∷ xs) = insert_by less x (slice_stable less xs)

  insert_by-perm : (less : A → A → Bool) (x : A) (ys : List A) → Perm (insert_by less x ys) (x ∷ ys)
  unfolding insert_by
  insert_by-perm less x [] = Perm.refl (x ∷ [])
  insert_by-perm less x (y ∷ ys) = elim (Bool-cases (less y x)) [
    | inl e ↦ rw e (Perm.trans (Perm.cons y (insert_by-perm less x ys)) (Perm.swap x y ys))
    | inr e ↦ rw e (Perm.refl (x ∷ y ∷ ys))
  ]

  pub slice_stable-perm : (less : A → A → Bool) (xs : List A) → Perm (slice_stable less xs) xs
  unfolding slice_stable
  slice_stable-perm less [] = Perm.nil
  slice_stable-perm less (x ∷ xs) =
      Perm.trans (insert_by-perm less x (slice_stable less xs))
        (Perm.cons x (slice_stable-perm less xs))

  length-insert_by :
      (less : A → A → Bool) (x : A) (ys : List A) → length (insert_by less x ys) ≡ suc (length ys)
  unfolding insert_by
  length-insert_by less x [] = refl
  length-insert_by less x (y ∷ ys) = ground (arith, length-insert_by less x ys)

  pub length-slice_stable :
      (less : A → A → Bool) (xs : List A) → length (slice_stable less xs) ≡ length xs
  unfolding slice_stable
  length-slice_stable less [] = refl
  length-slice_stable less (x ∷ xs) =
      length-insert_by less x (slice_stable less xs) ∙ ap suc (length-slice_stable less xs)

  insert_by-All {κ} :
      (P : A → Type κ) (less : A → A → Bool) (x : A) (ys : List A)
      → P x
      → All P ys
      → All P (insert_by less x ys)
  unfolding insert_by
  insert_by-All P less x [] p h = (p, tt)
  insert_by-All P less x (y ∷ ys) p h = elim (Bool-cases (less y x)) [
    | inl e ↦ rw e (h.0, insert_by-All P less x ys p h.1)
    | inr e ↦ rw e (p, h)
  ]

  pub slice_stable-All {κ} :
      (P : A → Type κ) (less : A → A → Bool) (xs : List A) → All P xs → All P (slice_stable less xs)
  unfolding slice_stable
  slice_stable-All P less [] h = tt
  slice_stable-All P less (x ∷ xs) h =
      insert_by-All P less x (slice_stable less xs) h.0 (slice_stable-All P less xs h.1)

  insert_by-IsSorted :
      (less : A → A → Bool) (o : IsOrder less) (x : A) (ys : List A)
      → IsSorted less ys
      → IsSorted less (insert_by less x ys)
  unfolding insert_by
  insert_by-IsSorted less o x [] s = (tt, tt)
  insert_by-IsSorted less o x (y ∷ ys) s = elim (Bool-cases (less y x)) [
    | inl e ↦
        rw e (insert_by-All _ less x ys (o.asymm y x e) s.0, insert_by-IsSorted less o x ys s.1)
    | inr e ↦ rw e ((e, All-map (λ z h. o.trans x y z e h) ys s.0), s)
  ]

  pub slice_stable-IsSorted :
      (less : A → A → Bool) (o : IsOrder less) (xs : List A) → IsSorted less (slice_stable less xs)
  unfolding slice_stable
  slice_stable-IsSorted less o [] = tt
  slice_stable-IsSorted less o (x ∷ xs) =
      insert_by-IsSorted less o x (slice_stable less xs) (slice_stable-IsSorted less o xs)

  -- What stands in front is not above what stands behind.
  pub IsSorted-split :
      (less : A → A → Bool) (n : ℕ) (xs : List A)
      → IsSorted less xs
      → All (λ x. All (λ y. less y x ≡ false) (drop n xs)) (take n xs)
  IsSorted-split less zero xs s = tt
  IsSorted-split less (suc n) [] s = tt
  IsSorted-split less (suc n) (x ∷ xs) s = (All-drop _ n xs s.0, IsSorted-split less n xs s.1)

  -- `sort.SliceIsSorted` compares neighbours.
  unfoldable pub slice_is_sorted : (A → A → Bool) → List A → Bool
  slice_is_sorted less [] = true
  slice_is_sorted less (x ∷ []) = true
  slice_is_sorted less (x ∷ y ∷ ys) = not (less y x) && slice_is_sorted less (y ∷ ys)

  pub slice_is_sorted-IsSorted :
      (less : A → A → Bool) (o : IsOrder less) (xs : List A)
      → slice_is_sorted less xs ≡ true
      → IsSorted less xs
  unfolding slice_is_sorted
  slice_is_sorted-IsSorted less o [] h = tt
  slice_is_sorted-IsSorted less o (x ∷ []) h = (tt, tt)
  slice_is_sorted-IsSorted less o (x ∷ y ∷ ys) h =
      let first : less y x ≡ false = ground arith in
      let rest = slice_is_sorted-IsSorted less o (y ∷ ys) (ground arith) in
      ((first, All-map (λ z k. o.trans x y z first k) ys rest.0), rest)

  -- `sort.Slice(xs, less)`: some sorted permutation of the slice.
  pub record SliceSort (less : A → A → Bool) : Type ℓ where
    pub sort : List A → List A
    pub sort-perm : (xs : List A) → Perm (sort xs) xs
    pub sort-IsSorted : (xs : List A) → IsSorted less (sort xs)

  abbrev pub stable_SliceSort : (less : A → A → Bool) → IsOrder less → SliceSort less
  unfolding slice_stable
  stable_SliceSort less o = record {
    sort = slice_stable less;
    sort-perm = slice_stable-perm less;
    sort-IsSorted = slice_stable-IsSorted less o;
  }
