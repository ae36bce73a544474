-- ===== src/Replication/Driver/Attempts.antt =====
-- The loop of Do over the attempts of a run. What an attempt comes to, whether the context has an
-- error after it, and what WaitForConnectivity returns, are arguments by the number of the attempt.
use zrepl.Prelude.{
  ℕ, zero, suc, Bool, true, false, if◌then◌else◌, Option, none, some, List, [], ◌∷◌, ℤ, pos, negsuc,
  SliceSort,
}
use zrepl.Replication.Driver.{TimedError}
use zrepl.Replication.Driver.Report.{
  AttemptState, attempt_planning, attempt_planning_error, attempt_fan_out_fss,
  attempt_fan_out_error, attempt_done, Attempt, state_of, flattened, ErrorClass, is_temporary,
  after, most_recent,
}

pub record World (S : Type 0) : Type 0 where
  pub run_attempt : ℕ → Option (Attempt S) → Attempt S
  pub context_error : ℕ → Bool
  pub wait_for_connectivity : ℕ → Option TimedError
  pub temporary_first : ℕ → Bool

-- run, after the loop: the attempts and waitReconnectError.
pub record Run (S : Type 0) : Type 0 where
  pub attempts : List (Attempt S)
  pub wait_reconnect_error : Option TimedError

-- What follows an attempt.
pub data Verdict : Type 0 where
  over : (wait_reconnect_error : Option TimedError) → Verdict
  retry : Verdict
  report_panic : Verdict

abbrev pub is_done : AttemptState → Bool
is_done attempt_planning = false
is_done attempt_planning_error = false
is_done attempt_fan_out_fss = false
is_done attempt_fan_out_error = false
is_done attempt_done = true

-- After the most recent error has been found.
abbrev pub reconnect : Option TimedError → Option (TimedError × ErrorClass) → Verdict
reconnect connect none = over none
reconnect none (some (e, class)) = if is_temporary class then retry else over none
reconnect (some c) (some (e, class)) = if is_temporary class then over (some c) else over none

abbrev pub judge_state :
    Option TimedError → Option AttemptState → Option (TimedError × ErrorClass) → Verdict
judge_state connect none recent = report_panic
judge_state connect (some s) recent = if is_done s then over none else reconnect connect recent

module _ {S : Type 0} (slice : SliceSort after) (world : World S) where
  -- The rest of the loop's body, after the attempt with the given number.
  unfoldable pub judge : ℕ → Attempt S → Verdict
  unfolding most_recent state_of
  judge ano cur =
      if world.context_error ano
      then over none
      else judge_state (world.wait_for_connectivity ano)
          (state_of cur.plan_err cur.fss cur.finished)
          (most_recent slice (world.temporary_first ano) (flattened cur))

  abbrev pub add_attempt : Attempt S → Option (Run S) → Option (Run S)
  add_attempt cur none = none
  add_attempt cur (some r) = some (record r { attempts = cur ∷ r.attempts })

  -- What an attempt leads to, with the run that a retry leads to.
  abbrev pub after_attempt : Attempt S → Option (Run S) → Verdict → Option (Run S)
  after_attempt cur rest (over e) = some (record { attempts = cur ∷ []; wait_reconnect_error = e })
  after_attempt cur rest report_panic = none
  after_attempt cur rest retry = add_attempt cur rest

  -- The loop, with `left` attempts to go; `none` is a panic.
  unfoldable pub attempts_loop : (left : ℕ) → ℕ → Option (Attempt S) → Option (Run S)
  unfolding judge
  attempts_loop zero ano prev = some (record { attempts = []; wait_reconnect_error = none })
  attempts_loop (suc left) ano prev =
      let cur = world.run_attempt ano prev in
      let rest = attempts_loop left (suc ano) (some cur) in after_attempt cur rest (judge ano cur)

  -- The goroutine in Do: `ano < int(config.MaxAttempts)` is false at once for a negative number.
  unfoldable pub do_run : ℤ → Option (Run S)
  unfolding attempts_loop
  do_run (pos n) = attempts_loop n 0 none
  do_run (negsuc n) = attempts_loop 0 0 none
