-- ===== src/Replication/Driver/Attempt.antt =====
-- What holds of all filesystems of an attempt after any turns.
use zrepl.Prelude.{
  ℕ, suc, ◌<◌, ◌≡◌, refl, subst, inl, inr, Bool, true, false, not, ◌&&◌, ◌||◌, Option, none, some,
  List, [], ◌∷◌, length, leb, arith, Bool-cases, &&-true,
}
use zrepl.Replication.Driver.{
  TimedError, StepOps, Phase, planning, checking, sleeping, stepping, returned, is_returned, Fs,
  is_some, after_plan, cut_plan, first_is_incremental, has_no_steps, has_planning_done,
  inspect_parent, after_parents, State,
}
use zrepl.Replication.Driver.Turns.{
  Turn, plan_failed, plan_made, inspected, decided, awoken, cancelled, stepped, step_failed,
  finished,
}
use zrepl.Replication.Driver.Sound.{
  Outcome, planning_errored, stepping_errored, completed, IsReady, IsSound,
}
use zrepl.Replication.Driver.Turned.{
  start-IsChecking, after_plan-IsSoundOut, inspect_parent-IsSound, after_parents-IsSoundOut,
}

module _ {S : Type 0} (ops : StepOps S) (prev : Option (Fs S)) (ps : List ℕ) (st : State S) where
  step_done :
      (f : Fs S) (ph : Phase)
      → ph ≡ stepping
      → f.step < length f.steps
      → IsSound ops ps st f ph
      → IsSound ops ps st (record f { step = suc f.step }) ph
  step_done f stepping e lt (p, a) = (
    record {
      done = p.done;
      no_planning_err = p.no_planning_err;
      no_step_err = p.no_step_err;
      within = omega (arith, lt);
    },
    a,
  )
  step_done f planning e lt s = cc
  step_done f (checking l a b) e lt s = cc
  step_done f sleeping e lt s = cc
  step_done f returned e lt s = cc

  pub Turn-IsSound :
      (f f' : Fs S) (w : Bool)
      → Turn ops prev ps st f f' w
      → ((k : ℕ) → is_returned (st k).phase ≡ true → Outcome (st k))
      → IsSound ops ps st f f.phase
      → IsSound ops ps st f' f'.phase
  Turn-IsSound f _ _ (plan_failed e ph) o s =
      let (nd, np, ns, z) = (subst (IsSound ops ps st f) ph s) in
      (planning_errored nd refl, λ lt. absurd (omega (arith, lt, z)))
  Turn-IsSound f _ _ (plan_made e steps ph) o s =
      after_plan-IsSoundOut ops ps st prev f e steps (subst (IsSound ops ps st f) ph s)
  Turn-IsSound f _ _ (inspected k left all_present failed ph) o s =
      inspect_parent-IsSound ops ps st f k left all_present failed (o k)
        (subst (IsSound ops ps st f) ph s)
  Turn-IsSound f _ _ (decided e all_present failed ph) o s =
      after_parents-IsSoundOut ops ps st f e all_present failed (subst (IsSound ops ps st f) ph s)
  Turn-IsSound f _ _ (awoken ph d) o s =
      let (p, z, h) = (subst (IsSound ops ps st f) ph s) in
      start-IsChecking ops ps st _
        (record {
          done = p.done;
          no_planning_err = p.no_planning_err;
          no_step_err = p.no_step_err;
          within = p.within;
        })
        z
  Turn-IsSound f _ _ (cancelled e ph) o s =
      let (p, z, h) = (subst (IsSound ops ps st f) ph s) in
      (stepping_errored p.done p.no_planning_err refl p.within, λ lt. absurd (omega (arith, lt, z)))
  Turn-IsSound f _ _ (stepped ph lt) o s = step_done f f.phase ph lt s
  Turn-IsSound f _ _ (step_failed e ph lt) o s =
      let (p, a) = (subst (IsSound ops ps st f) ph s) in
      (stepping_errored p.done p.no_planning_err refl p.within, λ _. a)
  Turn-IsSound f _ _ (finished ph le) o s =
      let (p, a) = (subst (IsSound ops ps st f) ph s) in
      (
        completed
            (record {
              done = p.done;
              no_planning_err = p.no_planning_err;
              no_step_err = p.no_step_err;
              within = p.within;
            })
            (omega (arith, le, p.within)),
        λ _. a,
      )

  after_plan-wakes :
      (q : Option (Fs S)) (f : Fs S) (e : TimedError) (steps : List S)
      → is_returned (after_plan ops q ps e steps f).0.phase ≡ true
      → (after_plan ops q ps e steps f).1 ≡ true
  unfolding after_plan
  after_plan-wakes none f e steps h = cc
  after_plan-wakes (some q) f e steps h =
      elim (Bool-cases (q.planning_done && not (is_some q.planning_err))) [
        | inl b ↦ rw (b, after_plan) (cut _ (rw (b, after_plan) at h))
        | inr b ↦ let k = (rw (b, after_plan) at h) in cc
      ]
    where
      cut :
          (o : Option ℕ)
          → is_returned (cut_plan ops ps e steps f o).0.phase ≡ true
          → (cut_plan ops ps e steps f o).1 ≡ true
      cut none k = refl
      cut (some cur) k = cc

  after_parents-wakes :
      (f : Fs S) (e : TimedError) (all_present : Bool) (failed : List ℕ)
      → is_returned (after_parents ops e f all_present failed).0.phase ≡ true
      → (after_parents ops e f all_present failed).1 ≡ true
  after_parents-wakes f e all_present (k ∷ failed) h = refl
  after_parents-wakes f e true [] h = cc
  after_parents-wakes f e false [] h = cc

  inspect_parent-runs :
      (p : Fs S) (k : ℕ) (left : List ℕ) (all_present : Bool) (failed : List ℕ)
      → is_returned (inspect_parent ops p k left all_present failed) ≡ false
  unfolding inspect_parent
  inspect_parent-runs p k left all_present failed = elim (Bool-cases (has_planning_done ops p)) [
    | inl b ↦ rw (b, inspect_parent) refl
    | inr b ↦ rw (b, inspect_parent) refl
  ]

  -- A goroutine that returns wakes the children.
  pub Turn-wakes :
      (f f' : Fs S) (w : Bool) → Turn ops prev ps st f f' w → is_returned f'.phase ≡ true → w ≡ true
  Turn-wakes f _ _ (plan_failed e ph) h = refl
  Turn-wakes f _ _ (plan_made e steps ph) h = after_plan-wakes prev f e steps h
  Turn-wakes f _ _ (inspected k left all_present failed ph) h =
      let no = inspect_parent-runs (st k) k left all_present failed in cc
  Turn-wakes f _ _ (decided e all_present failed ph) h =
      after_parents-wakes f e all_present failed h
  Turn-wakes f _ _ (awoken ph d) h = cc
  Turn-wakes f _ _ (cancelled e ph) h = refl
  Turn-wakes f _ _ (stepped ph lt) h = refl
  Turn-wakes f _ _ (step_failed e ph lt) h = refl
  Turn-wakes f _ _ (finished ph le) h = refl

  more_steps :
      (steps : List S) (step : ℕ)
      → has_no_steps ops steps
          || first_is_incremental ops steps
          || (not (has_no_steps ops steps) && leb 1 step)
        ≡ true
      → has_no_steps ops steps
          || first_is_incremental ops steps
          || (not (has_no_steps ops steps) && leb 1 (suc step))
        ≡ true
  more_steps [] step h = refl
  more_steps (s ∷ ss) step h = ground arith

  unplanned : (f : Fs S) → IsSound ops ps st f planning → IsReady ops f → 0 < 0
  unplanned f (nd, np, ns, z) r = let d = (&&-true f.planning_done _ r.0).0 in cc

  -- What is on the receiver stays there.
  pub Turn-IsReady :
      (f f' : Fs S) (w : Bool)
      → Turn ops prev ps st f f' w
      → IsSound ops ps st f f.phase
      → IsReady ops f
      → IsReady ops f'
  Turn-IsReady f _ _ (plan_failed e ph) s r =
      absurd (omega (arith, unplanned f (subst (IsSound ops ps st f) ph s) r))
  Turn-IsReady f _ _ (plan_made e steps ph) s r =
      absurd (omega (arith, unplanned f (subst (IsSound ops ps st f) ph s) r))
  Turn-IsReady f _ _ (inspected k left all_present failed ph) s r = r
  Turn-IsReady f _ _ (decided e all_present (k ∷ failed) ph) s r = r
  Turn-IsReady f _ _ (decided e true [] ph) s r = r
  Turn-IsReady f _ _ (decided e false [] ph) s r = r
  Turn-IsReady f _ _ (awoken ph d) s r = r
  Turn-IsReady f _ _ (cancelled e ph) s r = r
  Turn-IsReady f _ _ (stepped ph lt) s r = (r.0, more_steps f.steps f.step r.1)
  Turn-IsReady f _ _ (step_failed e ph lt) s r = r
  Turn-IsReady f _ _ (finished ph le) s r = r
