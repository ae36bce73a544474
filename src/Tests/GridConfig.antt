-- ===== src/Tests/GridConfig.antt =====
-- Grids of a configuration.
use zrepl.Prelude.{◌≡◌, ◌≢◌, ◌↔◌, refl, Option, none, some, List, [], ◌∷◌, ℤ, pos, negsuc, ok, err}
use zrepl.Pruning.Grid.{Interval, check_keep_count, fit_entries}
use zrepl.Pruning.Config.{
  Submatch, keep_parameter, keep_all_parameter, parse_intervals, new_keep_grid, not_increasing,
}
use zrepl.Pruning.Config.Ascending.{Ascending, from_first_limited, new_keep_grid-Ascending}
use zrepl.Pruning.Config.Invalid.{fit_entries-panics}

abbrev interval : ℤ → ℤ → Interval
interval d n = record { interval_length = d; keep_count = n }

-- `1x1h(keep=all) | 2x30s(keep=0)`
abbrev configured : List (Option Submatch)
configured =
    some
      (record { times = some (pos 1); duration = some (pos 3600); parameter = keep_all_parameter })
    ∷ some (record {
      times = some (pos 2);
      duration = some (pos 30);
      parameter = keep_parameter (some (pos 0));
    })
    ∷ []

abbrev parsed : List Interval
parsed = interval (pos 3600) (negsuc 0) ∷ interval (pos 30) (pos 0) ∷ interval (pos 30) (pos 0) ∷ []

parses : parse_intervals configured ≡ ok parsed
unfolding parse_intervals
parses = refl

-- A keep count of 0 passes the constructor.
accepted : new_keep_grid parsed ≡ ok parsed
unfolding new_keep_grid
accepted = refl

refused :
    new_keep_grid (interval (pos 30) (pos 1) ∷ interval (pos 20) (pos 1) ∷ []) ≡ err not_increasing
unfolding new_keep_grid
refused = refl

new_keep_grid-Ascending_example :
    (new_keep_grid parsed ≡ ok parsed) ↔ ((parsed ≢ []) × Ascending (from_first_limited parsed))
new_keep_grid-Ascending_example = new_keep_grid-Ascending parsed

abbrev no_date : ℤ → ℤ
no_date d = d

fit_entries-panics_example :
    fit_entries no_date
      (interval (pos 3600) (negsuc 0) ∷ interval (pos 30) (pos 0) ∷ interval (pos 30) (pos 0) ∷ [])
      (pos 5 ∷ [])
    ≡ none
unfolding check_keep_count
fit_entries-panics_example =
    fit_entries-panics no_date (interval (pos 3600) (negsuc 0) ∷ []) (interval (pos 30) (pos 0))
      (interval (pos 30) (pos 0) ∷ []) (pos 5 ∷ []) refl (λ h. cc)
