-- ===== src/Tests/Pruning.antt =====
-- A grid of two hourly buckets, and five snapshots.
use Prim.Native.String.{String}
use zrepl.Prelude.{
  ℕ, ◌≡◌, ◌<◌, ◌≤◌, ◌↔◌, ◌⊎◌, refl, Bool, true, some, List, [], ◌∷◌, ℤ, pos, ◌≤ℤ◌, arith, SliceSort,
  stable_SliceSort, slice_stable,
}
use zrepl.Pruning.Grid.{Interval, Bucket, at_most, younger, make_buckets, fit_entries}
use zrepl.Pruning.Grid.Spans.{Disjoint, SomeContains, make_buckets-Disjoint}
use zrepl.Pruning.Grid.Fit.{Divides, fit_entries-Divides}
use zrepl.Pruning.Rules.{
  Snapshot, keep_not_replicated, keep_last_n, last_n_less, apply_rule, prune_snapshots,
}
use zrepl.Pruning.Rules.Spare.{last_n_less-IsOrder, SparesLast, keep_last_n-SparesLast}
use zrepl.Pruning.Rules.Prune.{count_id, AllDestroy, prune_snapshots-AllDestroy}

abbrev instant : ℤ → ℤ
instant t = t

-- Two buckets of one hour, of which the older one keeps a single entry.
abbrev hourly : List Interval
hourly =
    record { interval_length = pos 60; keep_count = pos 2 }
    ∷ record { interval_length = pos 60; keep_count = pos 1 }
    ∷ []

abbrev times : List ℤ
times = pos 500 ∷ pos 490 ∷ pos 430 ∷ pos 425 ∷ pos 100 ∷ []

grid_runs :
    fit_entries instant hourly times
    ≡ some (pos 500 ∷ pos 490 ∷ pos 430 ∷ pos 425 ∷ [], pos 100 ∷ pos 430 ∷ [])
unfolding fit_entries slice_stable make_buckets
grid_runs = refl

fit_entries-Divides_example :
    Divides instant hourly times times
      (pos 500 ∷ pos 490 ∷ pos 430 ∷ pos 425 ∷ [])
      (pos 100 ∷ pos 430 ∷ [])
unfolding slice_stable younger
fit_entries-Divides_example = fit_entries-Divides instant hourly times _ _ grid_runs

abbrev crowded : Bucket ℤ
crowded = record {
  keep_count = at_most 1;
  younger_than = pos 0;
  older_than_or_eq = pos 60;
  entries = pos 20 ∷ pos 50 ∷ [];
}

abbrev laid : List (Bucket ℤ)
laid =
    record {
      keep_count = at_most 2;
      younger_than = pos 440;
      older_than_or_eq = pos 500;
      entries = [];
    }
    ∷ record {
      keep_count = at_most 1;
      younger_than = pos 380;
      older_than_or_eq = pos 440;
      entries = [];
    }
    ∷ []

laid_runs : make_buckets (pos 500) hourly ≡ some laid
unfolding make_buckets
laid_runs = refl

make_buckets-Disjoint_example :
    Disjoint instant laid × ((e : ℤ) → e ≤ℤ pos 500 → SomeContains instant laid e ⊎ (e ≤ℤ pos 380))
make_buckets-Disjoint_example =
    make_buckets-Disjoint instant (pos 500) hourly laid (omega arith) laid_runs

abbrev snap : ℕ → ℕ → Bool → Snapshot
snap id date replicated = record { id = id; name = "s"; replicated = replicated; date = pos date }

abbrev snaps : List Snapshot
snaps = snap 1 10 true ∷ snap 2 20 true ∷ snap 3 30 true ∷ []

abbrev pub stable_last : SliceSort last_n_less
stable_last = stable_SliceSort last_n_less last_n_less-IsOrder

abbrev pub any_name : String → Bool
any_name s = true

last_n_runs :
    apply_rule stable_last (keep_last_n 1 any_name) snaps
    ≡ some (snap 2 20 true ∷ snap 1 10 true ∷ [])
unfolding apply_rule slice_stable last_n_less
last_n_runs = refl

keep_last_n-SparesLast_example : SparesLast 1 any_name snaps (snap 2 20 true ∷ snap 1 10 true ∷ [])
keep_last_n-SparesLast_example = keep_last_n-SparesLast stable_last 1 any_name snaps _ last_n_runs

prune_runs :
    prune_snapshots stable_last snaps (keep_not_replicated ∷ keep_last_n 1 any_name ∷ [])
    ≡ some (snap 1 10 true ∷ snap 2 20 true ∷ [])
unfolding prune_snapshots apply_rule slice_stable last_n_less
prune_runs = refl

prune_snapshots-AllDestroy_example :
    (0 < count_id 2 (snap 1 10 true ∷ snap 2 20 true ∷ [])
      ↔ AllDestroy stable_last snaps 2 (keep_not_replicated ∷ keep_last_n 1 any_name ∷ []))
    × (count_id 2 (snap 1 10 true ∷ snap 2 20 true ∷ []) ≤ 1)
prune_snapshots-AllDestroy_example =
    prune_snapshots-AllDestroy stable_last snaps 2 (omega arith) keep_not_replicated
      (keep_last_n 1 any_name ∷ []) _ prune_runs
