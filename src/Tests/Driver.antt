-- ===== src/Tests/Driver.antt =====
-- An attempt on a filesystem and its child, and a run of two attempts.
use zrepl.Prelude.{
  ℕ, ◌≡◌, ◌≤◌, refl, inl, if◌then◌else◌, Bool, true, false, Option, none, some, List, [], ◌∷◌, ltb,
  All, ◌==◌, pos, SliceSort, IsOrder, stable_SliceSort, slice_stable, arith, scan_down,
}
use zrepl.Zfs.DatasetPath.{DatasetPath, has_prefix, equal}
use zrepl.Replication.Driver.{
  TimedError, StepOps, Fs, new_fs, after_plan, correlate, inspect_parent, State, parents_below,
  parents, settle, wake_children, Phase, checking, stepping, returned,
}
use zrepl.Replication.Driver.Turns.{
  plan_failed, plan_made, inspected, decided, stepped, Reachable, started, then_turn,
}
use zrepl.Replication.Driver.Passed.{IsPassed}
use zrepl.Replication.Driver.Safety.{Reachable-AllReady}
use zrepl.Replication.Driver.Deadlock.{Moves, Reachable-Moves}
use zrepl.Replication.Driver.Correlation.{
  IsLatest, correlate-IsLatest, after_plan-drops, after_plan-refuses,
}
use zrepl.Replication.Driver.Report.{
  Attempt, attempt_fan_out_error, state_of, fs_errors, after, most_recent,
}
use zrepl.Replication.Driver.Attempts.{World, Run, do_run}
use zrepl.Replication.Driver.Retry.{IsTrail, do_run-IsTrail}
use zrepl.Replication.Driver.Recent.{IsMostRecent, most_recent-IsMostRecent}
use zrepl.Replication.Driver.Ended.{Reachable-unreported}

abbrev ops : StepOps ℕ
ops = record { target_equals = λ s t. s == t; is_incremental = λ s. ltb 10 s }

abbrev path : ℕ → DatasetPath
path j = if j == 0 then "a" ∷ [] else "a" ∷ "b" ∷ []

abbrev first_attempt : ℕ → Option (Fs ℕ)
first_attempt j = none

abbrev timed : ℕ → Bool → TimedError
timed t timeout = record { error = t; is_timeout = timeout; is_unavailable = false; time = t }

abbrev fs_at : List ℕ → ℕ → Phase → Fs ℕ
fs_at steps step phase = record {
  planning_done = true;
  planning_err = none;
  steps = steps;
  step = step;
  step_err = none;
  did_update = false;
  phase = phase;
}

abbrev at_start : State ℕ
at_start j = new_fs

-- The parent is planned, and has nothing to wait for.
abbrev parent_planned : State ℕ
parent_planned = settle path 2 0 (fs_at (1 ∷ []) 0 (checking [] true [])) false at_start

abbrev parent_steps : State ℕ
parent_steps = settle path 2 0 (fs_at (1 ∷ []) 0 stepping) false parent_planned

abbrev parent_stepped : State ℕ
parent_stepped = settle path 2 0 (fs_at (1 ∷ []) 1 stepping) true parent_steps

reached : Reachable ops path 2 first_attempt parent_stepped
unfolding settle wake_children after_plan parents_below has_prefix equal
reached =
    then_turn 0 (omega arith)
      (then_turn 0 (omega arith)
        (then_turn 0 (omega arith) started (plan_made (timed 1 false) (1 ∷ []) refl))
        (decided (timed 1 false) true [] refl))
      (stepped refl (omega arith))

abbrev child : List ℕ → Phase → Fs ℕ
child steps phase = record (fs_at steps 0 phase) { did_update = true }

abbrev child_planned : State ℕ
child_planned = settle path 2 1 (child (2 ∷ []) (checking (0 ∷ []) true [])) false parent_stepped

abbrev child_checked : State ℕ
child_checked = settle path 2 1 (child (2 ∷ []) (checking [] true [])) false child_planned

abbrev child_steps : State ℕ
child_steps = settle path 2 1 (child (2 ∷ []) stepping) false child_checked

child_reached : Reachable ops path 2 first_attempt child_steps
unfolding settle wake_children after_plan parents_below has_prefix equal inspect_parent
child_reached =
    then_turn 1 (omega arith)
      (then_turn 1 (omega arith)
        (then_turn 1 (omega arith) reached (plan_made (timed 2 false) (2 ∷ []) refl))
        (inspected 0 [] true [] refl))
      (decided (timed 2 false) true [] refl)

Reachable-AllReady_example : All (λ k. IsPassed ops (child_steps k)) (parents path 2 1)
unfolding settle
Reachable-AllReady_example = Reachable-AllReady ops path 2 first_attempt child_reached 1 (inl refl)

Reachable-Moves_example : Moves ops path 2 first_attempt child_steps
unfolding settle
Reachable-Moves_example =
    Reachable-Moves ops path 2 first_attempt child_reached 1 (omega arith) refl

abbrev failed : State ℕ
failed =
    settle path 2 0 (record new_fs { planning_err = some (timed 1 false); phase = returned }) true
      at_start

failed_reached : Reachable ops path 2 first_attempt failed
failed_reached = then_turn 0 (omega arith) started (plan_failed (timed 1 false) refl)

Reachable-unreported_example :
    (state_of none (some (failed 1 ∷ failed 0 ∷ [])) true ≡ some attempt_fan_out_error)
    × (fs_errors (failed 1 ∷ failed 0 ∷ []) ≡ fs_errors {S = ℕ} (failed 1 ∷ []))
unfolding settle wake_children parents_below has_prefix equal
Reachable-unreported_example =
    Reachable-unreported ops path 2 first_attempt failed_reached (1 ∷ []) 0 [] refl

correlates : correlate ops (5 ∷ 6 ∷ []) (4 ∷ 5 ∷ []) ≡ some 1
unfolding correlate scan_down
correlates = refl

correlate-IsLatest_example : IsLatest ops (5 ∷ 6 ∷ []) (4 ∷ 5 ∷ []) 1
correlate-IsLatest_example = correlate-IsLatest ops (5 ∷ 6 ∷ []) (4 ∷ 5 ∷ []) 1 correlates

-- The attempt before took one of two steps; the plan has the other one.
after_plan-drops_example :
    (after_plan ops
      (some (fs_at (5 ∷ 6 ∷ []) 1 returned))
      []
      (timed 1 false)
      (6 ∷ [])
      new_fs).0.steps
    ≡ []
after_plan-drops_example =
    after_plan-drops ops (fs_at (5 ∷ 6 ∷ []) 1 returned) new_fs [] (timed 1 false) [] [] 6 6 refl
      refl refl refl

after_plan-refuses_example :
    (after_plan ops (some (fs_at (5 ∷ []) 1 returned)) [] (timed 1 false) [] new_fs).0.planning_err
    ≡ some (timed 1 false)
after_plan-refuses_example =
    after_plan-refuses ops (fs_at (5 ∷ []) 1 returned) new_fs [] (timed 1 false) [] refl refl refl

after-IsOrder : IsOrder after
unfolding after
after-IsOrder = record { asymm = λ a b h. ground arith; trans = λ a b c h k. ground arith }

abbrev by_time : SliceSort after
by_time = stable_SliceSort after after-IsOrder

most_recent-IsMostRecent_example :
    IsMostRecent by_time
      (timed 1 false ∷ timed 3 true ∷ [])
      (most_recent by_time true (timed 1 false ∷ timed 3 true ∷ []))
most_recent-IsMostRecent_example =
    most_recent-IsMostRecent by_time (timed 1 false ∷ timed 3 true ∷ []) true

abbrev unplanned : Bool → Attempt ℕ
unplanned timeout = record { plan_err = some (timed 1 timeout); fss = none; finished = true }

-- The first attempt times out, the second one fails for good.
abbrev world : World ℕ
world = record {
  run_attempt = λ ano prev. unplanned (ano == 0);
  context_error = λ ano. false;
  wait_for_connectivity = λ ano. none;
  temporary_first = λ ano. true;
}

abbrev two_attempts : Run ℕ
two_attempts = record {
  attempts = unplanned true ∷ unplanned false ∷ [];
  wait_reconnect_error = none;
}

runs : do_run by_time world (pos 3) ≡ some two_attempts
unfolding do_run most_recent slice_stable after fs_errors
runs = refl

do_run-IsTrail_example : IsTrail by_time world 0 none two_attempts.attempts × (2 ≤ 3)
do_run-IsTrail_example = do_run-IsTrail by_time world 3 two_attempts runs
