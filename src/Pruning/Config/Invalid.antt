-- ===== src/Pruning/Config/Invalid.antt =====
-- Keep counts that the configuration lets through and the grid does not.
use zrepl.Prelude.{
  ◌≡◌, ◌≢◌, refl, sym, ap, ◌∙◌, inl, inr, none, List, [], ◌∷◌, ◌++◌, length, ℤ, pos, negsuc, ◌-ℤ◌,
  zero, suc, ◌<◌, Option-cases, slice_stable, length-slice_stable, arith,
}
use zrepl.Pruning.Grid.{
  Interval, check_keep_count, make_bucket, make_buckets, fit_entries_with_now, fit_sorted,
  fit_entries, younger,
}

-- A keep count of 0 or below -1.
abbrev pub IsInvalid : ℤ → Type 0
IsInvalid (pos n) = n ≡ 0
IsInvalid (negsuc n) = 0 < n

check_keep_count-none : (k : ℤ) → IsInvalid k → check_keep_count k ≡ none
unfolding check_keep_count
check_keep_count-none (pos zero) h = refl
check_keep_count-none (pos (suc n)) h = absurd (omega (arith, h))
check_keep_count-none (negsuc zero) h = absurd (omega (arith, h))
check_keep_count-none (negsuc (suc n)) h = refl

module _ {ℓ} {A : Type ℓ} where
  make_buckets-none :
      (t : ℤ) (before : List Interval) (i : Interval) (after : List Interval)
      → check_keep_count i.keep_count ≡ none
      → make_buckets {A = A} t (before ++ i ∷ after) ≡ none
  unfolding make_buckets make_bucket
  make_buckets-none t [] i after h =
      elim (Option-cases (make_buckets {A = A} (t -ℤ i.interval_length) after)) [
        | inl e ↦ rw (e, make_buckets) refl
        | inr (bs, e) ↦ cc
      ]
  make_buckets-none t (b ∷ before) i after h =
      rw (make_buckets-none (t -ℤ b.interval_length) before i after h, make_buckets) refl

  module _ (date : A → ℤ) where
    sorted_panics :
        (intervals : List Interval) (es : List A)
        → ((t : ℤ) → make_buckets {A = A} t intervals ≡ none)
        → es ≢ []
        → fit_sorted date intervals es ≡ none
    unfolding fit_sorted fit_entries_with_now
    sorted_panics intervals [] bad some_entry = absurd (some_entry refl)
    sorted_panics [] (e ∷ es) bad some_entry = refl
    sorted_panics (i ∷ is) (e ∷ es) bad some_entry = rw (bad (date e), fit_entries_with_now) refl

    -- FitEntries panics on every list of entries but the empty one if the keep count of some
    -- interval is 0 or below -1, wherever in the grid the interval is.
    pub fit_entries-panics :
        (before : List Interval) (i : Interval) (after : List Interval) (entries : List A)
        → IsInvalid i.keep_count
        → entries ≢ []
        → fit_entries date (before ++ i ∷ after) entries ≡ none
    unfolding fit_entries
    fit_entries-panics before i after entries bad some_entry =
        sorted_panics (before ++ i ∷ after) (slice_stable (younger date) entries)
          (λ t. make_buckets-none t before i after (check_keep_count-none i.keep_count bad))
          (λ none_left. some_entry (
            none_before entries
              (sym (length-slice_stable (younger date) entries) ∙ ap length none_left)))
      where
        none_before : (es : List A) → length es ≡ 0 → es ≡ []
        none_before [] e = refl
        none_before (x ∷ es) e = absurd (omega arith)
