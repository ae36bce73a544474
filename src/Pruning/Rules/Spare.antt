-- ===== src/Pruning/Rules/Spare.antt =====
-- What the keep rules destroy and spare.
use Prim.Native.String.{String}
use mathlib.Core.Bool.{Bool-set}
use mathlib.Core.List.{perm_append_comm, append_assoc}
use mathlib.Core.List.Perm
use zrepl.Prelude.{
  ℕ, ◌+◌, ◌≤◌, ◌≡◌, refl, sym, inl, inr, Bool, true, false, not, if◌then◌else◌, some, List, [], ◌∷◌,
  ◌++◌, Perm, All, All-map, All-take, All-perm, All-append, keep_if-All, length-perm, subst, length,
  length-take, take, drop, take-append-drop, keep_if, keep_if-perm, ltb, min, ◌≤ℤ◌,
  string_less_asymm, string_less_trans, IsOrder, IsSorted, IsSorted-split, SliceSort, count_if,
  count_if-append, count_if-perm, count_if-keep_if, count_if-drop-le, arith, Option-cases,
}
use zrepl.Pruning.Grid.{Interval, fit_entries}
use zrepl.Pruning.Grid.Fit.{fit_entries-Divides}
use zrepl.Pruning.Rules.{
  Snapshot, last_n_less, KeepRule, keep_not_replicated, keep_regex, keep_last_n, keep_grid,
  last_n_destroy, grid_destroy, apply_rule,
}

pub last_n_less-IsOrder : IsOrder last_n_less
unfolding last_n_less
last_n_less-IsOrder = record {
  asymm = λ a b h. ground (arith, string_less_asymm b.name a.name);
  trans = λ a b c h k. ground (arith, string_less_trans c.name b.name a.name);
}

not_less : (r s : Snapshot) → last_n_less r s ≡ false → r.date ≤ℤ s.date
unfolding last_n_less
not_less r s h = ground arith

module _ (slice : SliceSort last_n_less) where
  module _ (p : Snapshot → Bool) where
    last_n-count :
        (n : ℕ) (others matching : List Snapshot)
        → count_if p (last_n_destroy slice n others matching)
          ≤ count_if p others + count_if p matching
    unfolding last_n_destroy
    last_n-count n others [] = omega arith
    last_n-count n others (m ∷ ms) =
        let sorted = slice.sort (m ∷ ms) in
        let k = if ltb (length sorted) n then length sorted else n in
        omega (
          arith,
          count_if-append p others (drop k sorted),
          count_if-drop-le p k sorted,
          count_if-perm p sorted (m ∷ ms) (slice.sort-perm (m ∷ ms)),
        )

    part-count : (xs ys zs : List Snapshot) → Perm (xs ++ ys) zs → count_if p xs ≤ count_if p zs
    part-count xs ys zs h = omega (arith, count_if-append p xs ys, count_if-perm p _ zs h)

    grid-count :
        (is : List Interval) (others matching out : List Snapshot)
        → grid_destroy is others matching ≡ some out
        → count_if p out ≤ count_if p others + count_if p matching
    unfolding grid_destroy
    grid-count is others [] out h = let e : out ≡ others = ground arith in rw e (omega arith)
    grid-count is others (m ∷ ms) out h =
        elim (Option-cases (fit_entries (λ (s : Snapshot). s.date) is (m ∷ ms))) [
          | inl e ↦ absurd (ground arith)
          | inr ((keep, remove), e) ↦
              let d = fit_entries-Divides (λ s. s.date) is (m ∷ ms) keep remove e in
              let shape : out ≡ others ++ remove = ground arith in
              rw shape (
                omega
                  (arith, count_if-append p others remove, part-count remove _ (m ∷ ms) d.divides))
        ]

    -- No rule destroys what is not there, nor anything twice: whatever test is counted, it passes
    -- no more often among the destroyed snapshots than among those that the rule was given.
    pub apply_rule-count :
        (r : KeepRule) (snaps out : List Snapshot)
        → apply_rule slice r snaps ≡ some out
        → count_if p out ≤ count_if p snaps
    unfolding apply_rule
    apply_rule-count keep_not_replicated snaps out h =
        let e : out ≡ keep_if (λ s. s.replicated) snaps = ground arith in
        rw e (omega (arith, count_if-keep_if p (λ s. s.replicated) snaps))
    apply_rule-count (keep_regex matches negate) snaps out h =
        let test = λ (s : Snapshot). if negate then matches s.name else not (matches s.name) in
        let e : out ≡ keep_if test snaps = ground arith in
        rw e (omega (arith, count_if-keep_if p test snaps))
    apply_rule-count (keep_last_n n matches) snaps out h =
        let ms = keep_if (λ (s : Snapshot). matches s.name) snaps in
        let others = keep_if (λ (s : Snapshot). not (matches s.name)) snaps in
        let e : out ≡ last_n_destroy slice n others ms = ground arith in
        rw e (
          omega (
            arith,
            last_n-count n others ms,
            count_if-keep_if p (λ (s : Snapshot). matches s.name) snaps,
          ))
    apply_rule-count (keep_grid is matches) snaps out h =
        let ms = keep_if (λ (s : Snapshot). matches s.name) snaps in
        let others = keep_if (λ (s : Snapshot). not (matches s.name)) snaps in
        omega (
          arith,
          grid-count is others ms out h,
          count_if-keep_if p (λ (s : Snapshot). matches s.name) snaps,
        )

-- What KeepLastN spares: as many matching snapshots as it can, up to `n`, and no matching snapshot
-- that it destroys is younger than one of them.
pub record SparesLast (n : ℕ) (matches : String → Bool) (snaps out : List Snapshot) : Type 0 where
  pub spared : List Snapshot
  pub divides : Perm (spared ++ out) snaps
  pub exact : length spared ≡ min n (length (keep_if (λ s. matches s.name) snaps))
  pub matching : All (λ s. matches s.name ≡ true) spared
  pub youngest : All (λ s. All (λ r. matches r.name ≡ true → r.date ≤ℤ s.date) out) spared

rearrange : (xs ys zs : List Snapshot) → Perm (xs ++ (ys ++ zs)) ((xs ++ zs) ++ ys)
rearrange xs ys zs =
    rw (append_assoc xs zs ys) (Perm.append (Perm.refl xs) (perm_append_comm ys zs))

name_clash : (b : Bool) → not b ≡ true → b ≡ true → ⊥
name_clash b h k = ground arith

module _ (slice : SliceSort last_n_less) (n : ℕ) (matches : String → Bool) where
  -- From the parts that the snapshots fall into.
  spares_cut :
      (k : ℕ) (snaps others matching sorted : List Snapshot)
      → Perm (matching ++ others) snaps
      → All (λ s. not (matches s.name) ≡ true) others
      → All (λ s. matches s.name ≡ true) matching
      → matching ≡ keep_if (λ s. matches s.name) snaps
      → Perm sorted matching
      → IsSorted last_n_less sorted
      → k ≡ min n (length matching)
      → SparesLast n matches snaps (others ++ drop k sorted)
  spares_cut k snaps others matching sorted p ho hm e q s hk = record {
    spared = take k sorted;
    divides =
        Perm.trans (rearrange (take k sorted) others (drop k sorted))
          (Perm.trans (Perm.append (rw (take-append-drop k sorted) q) (Perm.refl others)) p);
    exact = rw (← e) (omega (arith, length-take k sorted, length-perm sorted matching q));
    matching = All-take _ k sorted (All-perm (λ x. Bool-set _ _) matching sorted (Perm.symm q) hm);
    youngest =
        All-map
          (λ x h.
            All-append _ others (drop k sorted)
              (All-map (λ r c d. absurd (name_clash (matches r.name) c d)) others ho)
              (All-map (λ r l _. not_less r x l) (drop k sorted) h))
          (take k sorted) (IsSorted-split last_n_less k sorted s);
  }

  last_n-SparesLast :
      (snaps ms : List Snapshot)
      → keep_if (λ s. matches s.name) snaps ≡ ms
      → SparesLast n matches snaps
          (last_n_destroy slice n (keep_if (λ s. not (matches s.name)) snaps) ms)
  unfolding last_n_destroy
  last_n-SparesLast snaps [] e = record {
    spared = [];
    divides =
        subst (λ l. Perm (l ++ keep_if (λ s. not (matches s.name)) snaps) snaps) e
          (keep_if-perm (λ (s : Snapshot). matches s.name) snaps);
    exact = rw e (omega arith);
    matching = tt;
    youngest = tt;
  }
  last_n-SparesLast snaps (m ∷ ms) e =
      let sorted = slice.sort (m ∷ ms) in
      spares_cut _ snaps _ (m ∷ ms) sorted
        (subst (λ l. Perm (l ++ keep_if (λ s. not (matches s.name)) snaps) snaps) e
          (keep_if-perm (λ (s : Snapshot). matches s.name) snaps))
        (keep_if-All (λ (s : Snapshot). not (matches s.name)) snaps)
        (subst (All (λ s. matches s.name ≡ true)) e
          (keep_if-All (λ (s : Snapshot). matches s.name) snaps))
        (sym e) (slice.sort-perm (m ∷ ms)) (slice.sort-IsSorted (m ∷ ms))
        (ground (arith, length-perm sorted (m ∷ ms) (slice.sort-perm (m ∷ ms))))

  -- KeepLastN spares exactly min(n, number of matching snapshots) snapshots, all of them matching,
  -- and destroys the others; no matching snapshot that it destroys is younger than a spared one.
  pub keep_last_n-SparesLast :
      (snaps out : List Snapshot)
      → apply_rule slice (keep_last_n n matches) snaps ≡ some out
      → SparesLast n matches snaps out
  unfolding apply_rule
  keep_last_n-SparesLast snaps out h =
      let e : last_n_destroy slice n (keep_if (λ s. not (matches s.name)) snaps)
            (keep_if (λ s. matches s.name) snaps)
          ≡ out =
        ground arith in
      subst (SparesLast n matches snaps) e (last_n-SparesLast snaps _ refl)
