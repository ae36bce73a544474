-- ===== src/Pruning/Grid/Buckets.antt =====
-- What a bucket removes.
use mathlib.Core.List.Perm
use zrepl.Prelude.{
  ℕ, zero, suc, ◌-◌, ◌≡◌, refl, sym, false, List, [], ◌++◌, Perm, All, All-map, length, length-drop,
  take, drop, take-append-drop, IsSorted-split, slice_stable, slice_stable-perm,
  slice_stable-IsSorted, length-slice_stable, IsOrder, arith, ℤ, ◌≤ℤ◌, min,
}
use zrepl.Pruning.Grid.{
  KeepCount, keep_all, at_most, Bucket, younger, trim_excess, trim, remove_younger,
}

module _ {ℓ} {A : Type ℓ} (date : A → ℤ) where
  pub younger-IsOrder : IsOrder (younger date)
  unfolding younger
  younger-IsOrder = record { asymm = λ a b h. ground arith; trans = λ a b c h k. ground arith }

  not_younger : (r s : A) → younger date s r ≡ false → date s ≤ℤ date r
  unfolding younger
  not_younger r s h = ground arith

-- How many entries a bucket may keep, of `n`.
abbrev pub allowed : KeepCount → ℕ → ℕ
allowed keep_all n = n
allowed (at_most k) n = min k n

module _ {ℓ} {A : Type ℓ} (date : A → ℤ) where
  -- The entries are split in two: none that is removed is older than one that is spared, and
  -- exactly as many are spared as the keep count allows.
  pub record Trims (b : Bucket A) (removed : List A) (b' : Bucket A) : Type ℓ where
    pub spared : List A
    pub split : b'.entries ≡ removed ++ spared
    pub same : Perm b'.entries b.entries
    pub exact : length spared ≡ allowed b.keep_count (length b.entries)
    pub oldest_spared : All (λ r. All (λ s. date s ≤ℤ date r) spared) removed

  Trims-none :
      (b : Bucket A) → length b.entries ≡ allowed b.keep_count (length b.entries) → Trims b [] b
  Trims-none b h = record {
    spared = b.entries;
    split = refl;
    same = Perm.refl b.entries;
    exact = h;
    oldest_spared = tt;
  }

  Trims-some :
      (b : Bucket A) (k n : ℕ)
      → b.keep_count ≡ at_most k
      → length b.entries - k ≡ n
      → let sorted = slice_stable (younger date) b.entries in
        Trims b (take n sorted) (record b { entries = sorted })
  Trims-some b k n e h =
      let sorted = slice_stable (younger date) b.entries in
      record {
        spared = drop n sorted;
        split = sym (take-append-drop n sorted);
        same = slice_stable-perm (younger date) b.entries;
        exact =
            rw e
              (omega (arith, length-drop n sorted, length-slice_stable (younger date) b.entries));
        oldest_spared =
            All-map (λ r. All-map (λ s. not_younger date r s) (drop n sorted)) (take n sorted)
              (IsSorted-split (younger date) n sorted
                (slice_stable-IsSorted (younger date) (younger-IsOrder date) b.entries));
      }

  abbrev TrimsPair : Bucket A → List A × Bucket A → Type ℓ
  TrimsPair b (removed, b') = Trims b removed b'

  trim_excess-Trims :
      (b : Bucket A) (k n : ℕ)
      → b.keep_count ≡ at_most k
      → length b.entries - k ≡ n
      → TrimsPair b (trim_excess date b n)
  unfolding trim_excess
  trim_excess-Trims b k zero e h = Trims-none b (simp e (omega arith))
  trim_excess-Trims b k (suc n) e h = Trims-some b k (suc n) e h

  trim-Trims : (b : Bucket A) (kc : KeepCount) → b.keep_count ≡ kc → TrimsPair b (trim date b kc)
  unfolding trim
  trim-Trims b keep_all e = Trims-none b (simp e)
  trim-Trims b (at_most k) e = trim_excess-Trims b k (length b.entries - k) e refl

  -- A bucket with more entries than its keep count removes the youngest of them, until exactly the
  -- count is left; any other bucket removes none.
  pub remove_younger-Trims :
      (b : Bucket A) → Trims b (remove_younger date b).0 (remove_younger date b).1
  unfolding remove_younger
  remove_younger-Trims b = trim-Trims b b.keep_count refl
