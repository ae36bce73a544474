-- ===== src/Pruning/Grid.antt =====
-- pruning/retentiongrid/retentiongrid.go. A point in time is an integer, so is a duration; `none`
-- stands for a panic. Entries are of any type with a date.
pub mod Buckets
pub mod Spans
pub mod Fill
pub mod Total
pub mod Fit
use zrepl.Prelude.{
  ℕ, zero, suc, ◌-◌, ◌==◌, Bool, true, false, not, ◌&&◌, ◌||◌, if◌then◌else◌, Option, none, some,
  List, [], ◌∷◌, ◌++◌, length, take, ℤ, pos, negsuc, ◌-ℤ◌, ltb_ℤ, slice_stable,
}

-- Interval; RetentionGridKeepCountAll is -1.
pub record Interval : Type 0 where
  pub interval_length : ℤ
  pub keep_count : ℤ

-- A valid keep count.
pub data KeepCount : Type 0 where
  keep_all : KeepCount
  at_most : ℕ → KeepCount

-- makeBucketFromInterval panics at 0 and below -1.
unfoldable pub check_keep_count : ℤ → Option KeepCount
check_keep_count (pos zero) = none
check_keep_count (pos (suc n)) = some (at_most (suc n))
check_keep_count (negsuc zero) = some keep_all
check_keep_count (negsuc (suc n)) = none

module _ {ℓ} (A : Type ℓ) where
  pub record Bucket : Type ℓ where
    pub keep_count : KeepCount
    pub younger_than : ℤ
    pub older_than_or_eq : ℤ
    pub entries : List A

  -- keep, remove and buckets in fitEntriesWithNow.
  pub record State : Type ℓ where
    pub keep : List A
    pub remove : List A
    pub buckets : List (Bucket)

module _ {ℓ} {A : Type ℓ} where
  unfoldable pub make_bucket : ℤ → Interval → Option (Bucket A)
  unfolding check_keep_count ◌-ℤ◌
  make_bucket older_than_or_eq i = elim (check_keep_count i.keep_count) [
    | none ↦ none
    | some kc ↦ some (record {
      keep_count = kc;
      younger_than = older_than_or_eq -ℤ i.interval_length;
      older_than_or_eq = older_than_or_eq;
      entries = [];
    })
  ]

  -- The loop over g.intervals: each bucket begins where the one before it ends.
  unfoldable pub make_buckets : ℤ → List Interval → Option (List (Bucket A))
  unfolding make_bucket
  make_buckets older_than_or_eq [] = some []
  make_buckets older_than_or_eq (i ∷ is) =
      elim (make_buckets (older_than_or_eq -ℤ i.interval_length) is) [
        | none ↦ none
        | some bs ↦ elim (make_bucket older_than_or_eq i) [ none ↦ none | some b ↦ some (b ∷ bs) ]
      ]

module _ {ℓ} {A : Type ℓ} (date : A → ℤ) where
  -- d.Before(t) || d.Equal(t), and d.After(t')
  unfoldable pub contains : Bucket A → A → Bool
  contains b e = not (ltb_ℤ b.older_than_or_eq (date e)) && ltb_ℤ b.younger_than (date e)

  -- Youngest to oldest.
  unfoldable pub younger : A → A → Bool
  younger a b = ltb_ℤ (date b) (date a)

  -- AddIfContains on the first bucket that contains the entry.
  unfoldable pub add_to_first : List (Bucket A) → A → Option (List (Bucket A))
  unfolding contains
  add_to_first [] e = none
  add_to_first (b ∷ bs) e =
      let rest = add_to_first bs e in
      if contains b e
      then some (record b { entries = b.entries ++ e ∷ [] } ∷ bs)
      else elim rest [ none ↦ none | some bs' ↦ some (b ∷ bs') ]

  -- One round of the loop assignEntriesToBuckets.
  unfoldable pub place : ℤ → State A → A → State A
  unfolding add_to_first
  place now s e =
      if ltb_ℤ now (date e)
      then record s { keep = s.keep ++ e ∷ [] }
      else elim (add_to_first s.buckets e) [
        | none ↦ record s { remove = s.remove ++ e ∷ [] }
        | some bs ↦ record s { buckets = bs }
      ]

  unfoldable pub assign : ℤ → State A → List A → State A
  unfolding place
  assign now s [] = s
  assign now s (e ∷ es) = assign now (place now s e) es

  -- From the computation of removeCount on.
  unfoldable pub trim_excess : Bucket A → ℕ → List A × Bucket A
  unfolding younger
  trim_excess b zero = ([], b)
  trim_excess b (suc n) =
      let sorted = slice_stable younger b.entries in
      (take (suc n) sorted, record b { entries = sorted })

  unfoldable pub trim : Bucket A → KeepCount → List A × Bucket A
  unfolding trim_excess
  trim b keep_all = ([], b)
  trim b (at_most k) = trim_excess b (length b.entries - k)

  -- RemoveYoungerSnapsExceedingKeepCount: what to remove, and the bucket, sorted on the way.
  unfoldable pub remove_younger : Bucket A → List A × Bucket A
  unfolding trim
  remove_younger b = trim b b.keep_count

  -- The last loop: what is removed is not taken off what is kept.
  unfoldable pub apply_keep_counts : List A → List A → List (Bucket A) → List A × List A
  unfolding remove_younger
  apply_keep_counts keep remove [] = (keep, remove)
  apply_keep_counts keep remove (b ∷ bs) =
      let (destroy, b') = remove_younger b in
      apply_keep_counts (keep ++ b'.entries) (remove ++ destroy) bs

  -- fitEntriesWithNow; indexing `g.intervals[0]` panics on a grid without intervals.
  unfoldable pub fit_entries_with_now : List Interval → ℤ → List A → Option (List A × List A)
  unfolding assign apply_keep_counts
  fit_entries_with_now [] now entries = none
  fit_entries_with_now (i ∷ is) now entries = elim (make_buckets {A = A} now (i ∷ is)) [
    | none ↦ none
    | some bs ↦
        let s = assign now (record { keep = []; remove = []; buckets = bs }) entries in
        some (apply_keep_counts s.keep s.remove s.buckets)
  ]

  -- After the sort of FitEntries: `now` is the date of the youngest entry.
  unfoldable pub fit_sorted : List Interval → List A → Option (List A × List A)
  fit_sorted intervals [] = some ([], [])
  fit_sorted intervals (e ∷ es) = fit_entries_with_now intervals (date e) (e ∷ es)

  -- FitEntries: keep and remove.
  unfoldable pub fit_entries : List Interval → List A → Option (List A × List A)
  unfolding fit_sorted fit_entries_with_now
  fit_entries intervals entries = fit_sorted intervals (slice_stable younger entries)
