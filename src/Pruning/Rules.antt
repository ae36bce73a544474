-- ===== src/Pruning/Rules.antt =====
-- pruning/pruning.go and the four keep rules. A compiled regular expression is a test on names;
-- `none` stands for a panic.
pub mod Spare
pub mod Prune
use Prim.Native.String.{String}
use zrepl.Prelude.{
  ℕ, zero, suc, ◌+◌, ◌<◌, ◌==◌, ◌≡◌, Bool, true, false, not, ◌&&◌, if◌then◌else◌, Option, none,
  some, List, [], ◌∷◌, ◌++◌, length, drop, keep_if, ltb, ℤ, ltb_ℤ, string_less, SliceSort, min,
}
use zrepl.Pruning.Grid.{Interval, fit_entries}

-- The interface Snapshot. `id` is what makes two snapshots the same key of a map.
pub record Snapshot : Type 0 where
  pub id : ℕ
  pub name : String
  pub replicated : Bool
  pub date : ℤ

-- keep_last_n.go: by date, youngest first, then by name, descending.
unfoldable pub last_n_less : Snapshot → Snapshot → Bool
last_n_less a b =
    if ltb_ℤ a.date b.date
    then false
    else if ltb_ℤ b.date a.date
    then true
    else string_less b.name a.name

pub data KeepRule : Type 0 where
  keep_not_replicated : KeepRule
  keep_regex : (matches : String → Bool) (negate : Bool) → KeepRule
  keep_last_n : (n : ℕ) (matches : String → Bool) → KeepRule
  keep_grid : (intervals : List Interval) (matches : String → Bool) → KeepRule

module _ (slice : SliceSort last_n_less) where
  -- KeepLastN.KeepRule after the partition.
  unfoldable pub last_n_destroy : ℕ → List Snapshot → List Snapshot → List Snapshot
  last_n_destroy n not_matching [] = not_matching
  last_n_destroy n not_matching (m ∷ ms) =
      let sorted = slice.sort (m ∷ ms) in
      not_matching ++ drop (if ltb (length sorted) n then length sorted else n) sorted

-- KeepGrid.KeepRule after the partition.
unfoldable pub grid_destroy : List Interval → List Snapshot → List Snapshot → Option (List Snapshot)
grid_destroy intervals not_matching [] = some not_matching
grid_destroy intervals not_matching (m ∷ ms) =
    elim (fit_entries (λ (s : Snapshot). s.date) intervals (m ∷ ms)) [
      | none ↦ none
      | some (keep, remove) ↦ some (not_matching ++ remove)
    ]

-- KeepNotReplicated.KeepRule
abbrev pub not_replicated_destroy : List Snapshot → List Snapshot
not_replicated_destroy snaps = keep_if (λ s. s.replicated) snaps

-- KeepRegex.KeepRule
abbrev pub regex_destroy : (String → Bool) → Bool → List Snapshot → List Snapshot
regex_destroy matches negate snaps =
    keep_if (λ s. if negate then matches s.name else not (matches s.name)) snaps

module _ (slice : SliceSort last_n_less) where
  -- The method KeepRule of each rule: the snapshots that it would destroy.
  unfoldable pub apply_rule : KeepRule → List Snapshot → Option (List Snapshot)
  unfolding last_n_destroy grid_destroy
  apply_rule keep_not_replicated snaps = some (not_replicated_destroy snaps)
  apply_rule (keep_regex matches negate) snaps = some (regex_destroy matches negate snaps)
  apply_rule (keep_last_n n matches) snaps = some (
      last_n_destroy slice n (keep_if (λ s. not (matches s.name)) snaps)
        (keep_if (λ s. matches s.name) snaps))
  apply_rule (keep_grid intervals matches) snaps =
      grid_destroy intervals (keep_if (λ s. not (matches s.name)) snaps)
        (keep_if (λ s. matches s.name) snaps)

-- remCount[ruleRem]++
unfoldable pub bump : Snapshot → List (Snapshot × ℕ) → List (Snapshot × ℕ)
bump s [] = (s, 1) ∷ []
bump s ((t, n) ∷ m) = if t.id == s.id then (t, n + 1) ∷ m else (t, n) ∷ bump s m

unfoldable pub bump_all : List Snapshot → List (Snapshot × ℕ) → List (Snapshot × ℕ)
unfolding bump
bump_all [] m = m
bump_all (s ∷ ss) m = bump_all ss (bump s m)

-- The last loop; the order in which Go walks a map is not specified.
unfoldable pub select : ℕ → List (Snapshot × ℕ) → List Snapshot
select wanted [] = []
select wanted ((s, rc) ∷ m) = let rest = select wanted m in if rc == wanted then s ∷ rest else rest

module _ (slice : SliceSort last_n_less) where
  unfoldable pub count_removals :
      List KeepRule → List Snapshot → List (Snapshot × ℕ) → Option (List (Snapshot × ℕ))
  unfolding apply_rule bump_all
  count_removals [] snaps m = some m
  count_removals (r ∷ rs) snaps m = elim (apply_rule slice r snaps) [
    | none ↦ none
    | some rems ↦ count_removals rs snaps (bump_all rems m)
  ]

  -- PruneSnapshots
  unfoldable pub prune_snapshots : List Snapshot → List KeepRule → Option (List Snapshot)
  unfolding count_removals select
  prune_snapshots snaps [] = some []
  prune_snapshots snaps (r ∷ rs) = elim (count_removals (r ∷ rs) snaps []) [
    | none ↦ none
    | some m ↦ some (select (length (r ∷ rs)) m)
  ]
