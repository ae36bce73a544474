-- ===== src/Replication/Driver/Turns.antt =====
-- The turns of the goroutines of an attempt.
use zrepl.Prelude.{ℕ, suc, ◌<◌, ◌≤◌, ◌≡◌, Bool, true, false, Option, some, List, [], ◌∷◌, length}
use zrepl.Zfs.DatasetPath.{DatasetPath}
use zrepl.Replication.Driver.{
  TimedError, StepOps, planning, checking, sleeping, stepping, returned, Fs, new_fs, after_plan,
  inspect_parent, after_parents, State, parents, settle,
}

-- A turn in fs.do, and whether the filesystem's children are woken at its end. `prev` is its
-- counterpart in the previous attempt.
pub data Turn {S : Type 0} (ops : StepOps S) (prev : Option (Fs S)) (ps : List ℕ) (st : State S)
    : Fs S → Fs S → Bool → Type 0 where
  plan_failed :
      {f : Fs S} (e : TimedError)
      → f.phase ≡ planning
      → Turn ops prev ps st f (record f { planning_err = some e; phase = returned }) true
  plan_made :
      {f : Fs S} (e : TimedError) (steps : List S)
      → f.phase ≡ planning
      → Turn ops prev ps st f
          (after_plan ops prev ps e steps f).0
          (after_plan ops prev ps e steps f).1
  inspected :
      {f : Fs S} (k : ℕ) (left : List ℕ) (all_present : Bool) (failed : List ℕ)
      → f.phase ≡ checking (k ∷ left) all_present failed
      → Turn ops prev ps st f
          (record f { phase = inspect_parent ops (st k) k left all_present failed })
          false
  decided :
      {f : Fs S} (e : TimedError) (all_present : Bool) (failed : List ℕ)
      → f.phase ≡ checking [] all_present failed
      → Turn ops prev ps st f
          (after_parents ops e f all_present failed).0
          (after_parents ops e f all_present failed).1
  awoken :
      {f : Fs S}
      → f.phase ≡ sleeping
      → f.did_update ≡ true
      → Turn ops prev ps st f (record f { did_update = false; phase = checking ps true [] }) false
  cancelled :
      {f : Fs S} (e : TimedError)
      → f.phase ≡ sleeping
      → Turn ops prev ps st f (record f { step_err = some e; phase = returned }) true
  stepped :
      {f : Fs S}
      → f.phase ≡ stepping
      → f.step < length f.steps
      → Turn ops prev ps st f (record f { step = suc f.step }) true
  step_failed :
      {f : Fs S} (e : TimedError)
      → f.phase ≡ stepping
      → f.step < length f.steps
      → Turn ops prev ps st f (record f { step_err = some e; phase = returned }) true
  finished :
      {f : Fs S}
      → f.phase ≡ stepping
      → length f.steps ≤ f.step
      → Turn ops prev ps st f (record f { phase = returned }) true

-- An attempt on `n` filesystems after any turns of their goroutines.
pub data Reachable {S : Type 0} (ops : StepOps S) (path : ℕ → DatasetPath) (n : ℕ)
    (prevs : ℕ → Option (Fs S)) : State S → Type 0 where
  started : Reachable ops path n prevs (λ j. new_fs)
  then_turn :
      {st : State S} (i : ℕ) {f : Fs S} {wakes : Bool}
      → i < n
      → Reachable ops path n prevs st
      → Turn ops (prevs i) (parents path n i) st (st i) f wakes
      → Reachable ops path n prevs (settle path n i f wakes st)
