-- ===== src/Pruning/Config/Ascending.antt =====
-- Which grids newKeepGrid accepts, and what the parser makes of a configuration.
use zrepl.Prelude.{
  ◌≡◌, ◌≢◌, refl, inl, inr, Bool, true, false, not, ◌&&◌, if◌then◌else◌, List, [], ◌∷◌, ◌↔◌, ℤ, pos,
  ltb_ℤ, ok, arith, Bool-cases,
}
use zrepl.Pruning.Grid.{Interval}
use zrepl.Pruning.Config.{is_keep_all, all_keep_all, check_increasing, new_keep_grid}

-- Neighbours do not get shorter.
abbrev pub Ascending : List Interval → Type 0
Ascending [] = Unit
Ascending (i ∷ []) = Unit
Ascending (i ∷ j ∷ is) = (ltb_ℤ j.interval_length i.interval_length ≡ false) × Ascending (j ∷ is)

-- The grid from its first interval on that has a keep count.
abbrev pub from_first_limited : List Interval → List Interval
from_first_limited [] = []
from_first_limited (i ∷ is) =
    let rest = from_first_limited is in if is_keep_all i then rest else i ∷ is

-- What follows an interval, the last of some that are not all kept.
limited_rest :
    (before : List Interval) (i : Interval) (is : List Interval)
    → all_keep_all (i ∷ before) ≡ false
    → (check_increasing (i ∷ before) i.interval_length is ≡ true) ↔ Ascending (i ∷ is)
unfolding check_increasing all_keep_all
limited_rest before i [] h = (λ k. tt, λ k. refl)
limited_rest before i (j ∷ is) h =
    let still : all_keep_all (j ∷ i ∷ before) ≡ false = more h in
    let (there, back) = limited_rest (i ∷ before) j is still in
    elim (Bool-cases (ltb_ℤ j.interval_length i.interval_length)) [
      | inl e ↦ (λ k. cc, λ k. cc)
      | inr e ↦ (
        λ k. (e, there (rw (e, check_increasing) at k)),
        λ k. rw (e, check_increasing) (back k.1),
      )
    ]
  where
    more : all_keep_all (i ∷ before) ≡ false → all_keep_all (j ∷ i ∷ before) ≡ false
    more k = ground arith

kept_rest :
    (before : List Interval) (last : ℤ) (is : List Interval)
    → all_keep_all before ≡ true
    → (check_increasing before last is ≡ true) ↔ Ascending (from_first_limited is)
unfolding check_increasing all_keep_all
kept_rest before last [] h = (λ k. tt, λ k. refl)
kept_rest before last (i ∷ is) h =
    let passes : (ltb_ℤ i.interval_length last && not (all_keep_all before)) ≡ false =
      rw h (skipped (ltb_ℤ i.interval_length last)) in
    elim (Bool-cases (is_keep_all i)) [
      | inl e ↦
          rw (e, passes, check_increasing) (kept_rest (i ∷ before) i.interval_length is (both e h))
      | inr e ↦ rw (e, passes, check_increasing) (limited_rest before i is (neither e))
    ]
  where
    skipped : (b : Bool) → (b && false) ≡ false
    skipped true = refl
    skipped false = refl

    both : is_keep_all i ≡ true → all_keep_all before ≡ true → all_keep_all (i ∷ before) ≡ true
    both a b = ground arith

    neither : is_keep_all i ≡ false → all_keep_all (i ∷ before) ≡ false
    neither a = ground arith

-- newKeepGrid accepts a grid exactly if it has an interval and, from the first one on that does not
-- keep all, no interval is shorter than the one before it.
pub new_keep_grid-Ascending :
    (intervals : List Interval)
    → (new_keep_grid intervals ≡ ok intervals)
      ↔ ((intervals ≢ []) × Ascending (from_first_limited intervals))
unfolding new_keep_grid all_keep_all
new_keep_grid-Ascending [] = (λ h. cc, λ h. absurd (h.0 refl))
new_keep_grid-Ascending (i ∷ is) =
    let (there, back) = kept_rest [] (pos 0) (i ∷ is) refl in
    elim (Bool-cases (check_increasing [] (pos 0) (i ∷ is))) [
      | inl e ↦ (λ h. (λ k. cc, there e), λ h. rw (e, new_keep_grid) refl)
      | inr e ↦ (λ h. cc, λ h. let good = back h.1 in cc)
    ]
