-- ===== src/Replication/Driver/Retry.antt =====
-- When a run makes another attempt.
use mathlib.Core.Option.{some-injective}
use zrepl.Prelude.{
  ℕ, zero, suc, ◌≤◌, ◌≡◌, refl, ◌⊎◌, subst, inl, inr, true, false, Option, none, some, List, [],
  ◌∷◌, length, pos, SliceSort, arith, Bool-cases, Option-cases,
}
use zrepl.Replication.Driver.{TimedError}
use zrepl.Replication.Driver.Report.{
  AttemptState, Attempt, state_of, flattened, ErrorClass, is_temporary, after, most_recent,
}
use zrepl.Replication.Driver.Attempts.{
  World, Run, Verdict, over, retry, report_panic, is_done, reconnect, judge_state, judge,
  after_attempt, attempts_loop, do_run,
}

module _ {S : Type 0} (slice : SliceSort after) (world : World S) where
  -- An attempt did not end the run: it failed, and its most recent error is a temporary one of
  -- connectivity, after which the endpoints could be reached.
  pub record IsRetried (ano : ℕ) (cur : Attempt S) : Type 0 where
    pub no_context_error : world.context_error ano ≡ false
    pub state : AttemptState
    pub reported : state_of cur.plan_err cur.fss cur.finished ≡ some state
    pub not_done : is_done state ≡ false
    pub error : TimedError
    pub class : ErrorClass
    pub recent : most_recent slice (world.temporary_first ano) (flattened cur) ≡ some (error, class)
    pub temporary : is_temporary class ≡ true
    pub connected : world.wait_for_connectivity ano ≡ none

  reconnect-retry :
      (c : Option TimedError) (o : Option (TimedError × ErrorClass))
      → reconnect c o ≡ retry
      → (e : TimedError) × (class : ErrorClass) × (o ≡ some (e, class))
        × (is_temporary class ≡ true)
        × (c ≡ none)
  reconnect-retry c none h = cc
  reconnect-retry none (some (e, class)) h = elim (Bool-cases (is_temporary class)) [
    | inl t ↦ (e, class, refl, t, refl)
    | inr t ↦ let k = (rw t at h) in cc
  ]
  reconnect-retry (some c) (some (e, class)) h = elim (Bool-cases (is_temporary class)) [
    | inl t ↦ let k = (rw t at h) in cc
    | inr t ↦ let k = (rw t at h) in cc
  ]

  judge_state-retry :
      (c : Option TimedError) (s : Option AttemptState) (o : Option (TimedError × ErrorClass))
      → judge_state c s o ≡ retry
      → (state : AttemptState) × (s ≡ some state)
        × (is_done state ≡ false)
        × (reconnect c o ≡ retry)
  judge_state-retry c none o h = cc
  judge_state-retry c (some s) o h = elim (Bool-cases (is_done s)) [
    | inl d ↦ let k = (rw d at h) in cc
    | inr d ↦ (s, refl, d, (rw d at h))
  ]

  judge-IsRetried :
      (ano : ℕ) (cur : Attempt S) → judge slice world ano cur ≡ retry → IsRetried ano cur
  unfolding judge
  judge-IsRetried ano cur h = elim (Bool-cases (world.context_error ano)) [
    | inl c ↦ let k = (rw (c, judge) at h) in cc
    | inr c ↦
        let (state, reported, not_done, k) = judge_state-retry _ _ _ (rw (c, judge) at h) in
        let (error, class, recent, temporary, connected) = reconnect-retry _ _ k in
        record {
          no_context_error = c;
          state = state;
          reported = reported;
          not_done = not_done;
          error = error;
          class = class;
          recent = recent;
          temporary = temporary;
          connected = connected;
        }
  ]

  -- Each attempt is made with regard to the one before it, which had to be retried.
  abbrev pub IsTrail : ℕ → Option (Attempt S) → List (Attempt S) → Type 0
  IsTrail ano prev [] = Unit
  IsTrail ano prev (a ∷ []) = a ≡ world.run_attempt ano prev
  IsTrail ano prev (a ∷ b ∷ more) =
      (a ≡ world.run_attempt ano prev) × IsRetried ano a × IsTrail (suc ano) (some a) (b ∷ more)

  IsTrail-cons :
      (ano : ℕ) (prev : Option (Attempt S)) (more : List (Attempt S))
      → IsRetried ano (world.run_attempt ano prev)
      → IsTrail (suc ano) (some (world.run_attempt ano prev)) more
      → IsTrail ano prev (world.run_attempt ano prev ∷ more)
  IsTrail-cons ano prev [] r t = refl
  IsTrail-cons ano prev (a ∷ more) r t = (refl, r, t)

  attempts_loop-IsTrail :
      (left ano : ℕ) (prev : Option (Attempt S)) (r : Run S)
      → attempts_loop slice world left ano prev ≡ some r
      → IsTrail ano prev r.attempts × (length r.attempts ≤ left)
  unfolding attempts_loop
  attempts_loop-IsTrail zero ano prev r h =
      subst (λ (x : Run S). IsTrail ano prev x.attempts × (length x.attempts ≤ 0))
        (some-injective _ _ h) (tt, omega arith)
  attempts_loop-IsTrail (suc left) ano prev r h =
      go (judge slice world ano cur) refl h
        (Option-cases (attempts_loop slice world left (suc ano) (some cur)))
        (attempts_loop-IsTrail left (suc ano) (some cur))
    where
      cur : Attempt S
      cur = world.run_attempt ano prev

      go :
          (v : Verdict)
          → judge slice world ano cur ≡ v
          → after_attempt slice world cur (attempts_loop slice world left (suc ano) (some cur)) v
            ≡ some r
          → (attempts_loop slice world left (suc ano) (some cur) ≡ none)
            ⊎ ((x : Run S) × (attempts_loop slice world left (suc ano) (some cur) ≡ some x))
          → ((x : Run S)
              → attempts_loop slice world left (suc ano) (some cur) ≡ some x
              → IsTrail (suc ano) (some cur) x.attempts × (length x.attempts ≤ left))
          → IsTrail ano prev r.attempts × (length r.attempts ≤ suc left)
      go (over e) v k o rest =
          subst (λ (x : Run S). IsTrail ano prev x.attempts × (length x.attempts ≤ suc left))
            (some-injective _ _ k) (refl, omega arith)
      go report_panic v k o rest = cc
      go retry v k (inl e) rest = let bad = (rw e at k) in cc
      go retry v k (inr (x, e)) rest =
          let (trail, few) = rest x e in
          subst (λ (y : Run S). IsTrail ano prev y.attempts × (length y.attempts ≤ suc left))
            (some-injective _ _ (rw e at k))
            (IsTrail-cons ano prev x.attempts (judge-IsRetried ano _ v) trail, omega (arith, few))

  -- The attempts of a run are at most MaxAttempts. Each is made with regard to the one before it, and
  -- that one failed with a temporary error of connectivity as its most recent error, after which the
  -- endpoints could be reached.
  pub do_run-IsTrail :
      (max : ℕ) (r : Run S)
      → do_run slice world (pos max) ≡ some r
      → IsTrail 0 none r.attempts × (length r.attempts ≤ max)
  unfolding do_run
  do_run-IsTrail max r h = attempts_loop-IsTrail max 0 none r h
