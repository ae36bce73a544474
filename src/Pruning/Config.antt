-- ===== src/Pruning/Config.antt =====
-- config/retentiongrid.go and the constructor in pruning/keep_grid.go: the grid of a
-- configuration. Regular expressions and number parsers are not modelled: what they find is data.
pub mod Ascending
pub mod Invalid
use zrepl.Prelude.{
  ℕ, zero, suc, ◌==◌, Bool, true, false, not, ◌&&◌, if◌then◌else◌, Option, none, some, List, [],
  ◌∷◌, ◌++◌, replicate, ℤ, pos, negsuc, ltb_ℤ, Result, ok, err, ◌>>=◌,
}
use zrepl.Pruning.Grid.{Interval}

pub data GridError : Type 0 where
  format_mismatch not_a_number factor_not_positive bad_duration unknown_parameters : GridError
  bad_keep_count no_interval not_increasing : GridError

-- The part in parentheses: none, `keep=all`, `keep=` and a number (`none` if strconv.Atoi fails), or
-- anything else.
pub data KeepParameter : Type 0 where
  no_parameter keep_all_parameter unknown_parameter : KeepParameter
  keep_parameter : Option ℤ → KeepParameter

-- What retentionStringIntervalRegex finds, with its groups read by strconv.Atoi and
-- parsePositiveDuration.
pub record Submatch : Type 0 where
  pub times : Option ℤ
  pub duration : Option ℤ
  pub parameter : KeepParameter

abbrev check_times : Option ℤ → Result GridError ℕ
check_times none = err not_a_number
check_times (some (pos zero)) = err factor_not_positive
check_times (some (pos (suc n))) = ok (suc n)
check_times (some (negsuc n)) = err factor_not_positive

abbrev check_duration : Option ℤ → Result GridError ℤ
check_duration none = err bad_duration
check_duration (some d) = ok d

abbrev pub keep_count_of : KeepParameter → Result GridError ℤ
keep_count_of no_parameter = ok (pos 1)
keep_count_of keep_all_parameter = ok (negsuc 0)
keep_count_of unknown_parameter = err unknown_parameters
keep_count_of (keep_parameter none) = err bad_keep_count
keep_count_of (keep_parameter (some n)) = ok n

abbrev pub found : Option Submatch → Result GridError Submatch
found none = err format_mismatch
found (some m) = ok m

-- parseRetentionGridIntervalString
unfoldable pub parse_interval : Option Submatch → Result GridError (List Interval)
parse_interval comps = do
  m ← found comps
  times ← check_times m.times
  duration ← check_duration m.duration
  count ← keep_count_of m.parameter
  ok (replicate times (record { interval_length = duration; keep_count = count }))

-- ParseRetentionIntervalSpec, on what the expression finds in each part between two `|`.
unfoldable pub parse_intervals : List (Option Submatch) → Result GridError (List Interval)
unfolding parse_interval
parse_intervals [] = ok []
parse_intervals (e ∷ es) = do here ← parse_interval e; rest ← parse_intervals es; ok (here ++ rest)

abbrev pub is_keep_all : Interval → Bool
is_keep_all i = elim i.keep_count [
  | pos n ↦ false
  | negsuc n ↦ elim n [ zero ↦ true | suc m ↦ false ]
]

-- allPrevKeepCountAll; the intervals before, the latest first.
unfoldable pub all_keep_all : List Interval → Bool
all_keep_all [] = true
all_keep_all (i ∷ is) = is_keep_all i && all_keep_all is

-- The loop of newKeepGrid.
unfoldable pub check_increasing : List Interval → ℤ → List Interval → Bool
unfolding all_keep_all
check_increasing before last_duration [] = true
check_increasing before last_duration (i ∷ is) =
    let rest = check_increasing (i ∷ before) i.interval_length is in
    if ltb_ℤ i.interval_length last_duration && not (all_keep_all before) then false else rest

-- newKeepGrid
unfoldable pub new_keep_grid : List Interval → Result GridError (List Interval)
unfolding check_increasing
new_keep_grid [] = err no_interval
new_keep_grid (i ∷ is) =
    if check_increasing [] (pos 0) (i ∷ is) then ok (i ∷ is) else err not_increasing
