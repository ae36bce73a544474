-- ===== src/Replication/Driver/Ended.antt =====
-- The reports on filesystems whose goroutines have returned.
use zrepl.Prelude.{
  ℕ, ◌≡◌, ◌⊎◌, refl, inl, inr, true, false, Option, none, some, List, [], ◌∷◌, ◌++◌, map, length,
  Bool, ◌||◌, ltb, ge→ltb, arith, Bool-cases,
}
use zrepl.Zfs.DatasetPath.{DatasetPath}
use zrepl.Replication.Driver.{
  StepOps, Phase, planning, checking, sleeping, stepping, returned, is_returned, Fs, is_some, State,
  parents,
}
use zrepl.Replication.Driver.Turns.{Reachable}
use zrepl.Replication.Driver.Sound.{Outcome, planning_errored, stepping_errored, completed, IsSound}
use zrepl.Replication.Driver.Safety.{Reachable-IsSound, Reachable-no_planning_err}
use zrepl.Replication.Driver.Report.{
  fs_done, fs_planning_errored, fs_stepping_errored, attempt_fan_out_error, fs_state, fs_report,
  report_error, fs_with_error, state_of, fs_errors,
}

module _ {S : Type 0} where
  -- The filesystem is done, and has taken all its steps; or it has failed, and reports an error.
  abbrev pub IsReported : Fs S → Type 0
  IsReported f =
      ((fs_state f ≡ fs_done) × (f.step ≡ length f.steps))
      ⊎ (((fs_state f ≡ fs_planning_errored) ⊎ (fs_state f ≡ fs_stepping_errored))
          × (is_some (report_error (fs_report f)) ≡ true))

  Outcome-IsReported : (f : Fs S) → Outcome f → IsReported f
  unfolding fs_state
  Outcome-IsReported f (planning_errored nd e) =
      inr (inl (rw (e, fs_state) refl), rw (e, fs_state) e)
  Outcome-IsReported f (stepping_errored d np e w) =
      inr (inr (rw (np, d, e, fs_state) refl), rw (np, d, e, fs_state) e)
  Outcome-IsReported f (completed c e) =
      let stop : ltb f.step (length f.steps) ≡ false = ge→ltb _ _ (omega (arith, e)) in
      inl (rw (c.no_planning_err, c.done, c.no_step_err, stop, fs_state) refl, e)

module _ {S : Type 0} (ops : StepOps S) (path : ℕ → DatasetPath) (n : ℕ)
    (prevs : ℕ → Option (Fs S)) where
  -- After any turns, a filesystem whose goroutine has returned is reported as done, with all its steps
  -- taken, or as failed, with an error.
  pub Reachable-IsReported :
      {st : State S}
      → Reachable ops path n prevs st
      → (j : ℕ) → is_returned (st j).phase ≡ true
      → IsReported (st j)
  Reachable-IsReported {st} r j h = go (st j).phase h (Reachable-IsSound ops path n prevs r j)
    where
      go :
          (ph : Phase)
          → is_returned ph ≡ true
          → IsSound ops (parents path n j) st (st j) ph
          → IsReported (st j)
      go planning e s = cc
      go (checking l a b) e s = cc
      go sleeping e s = cc
      go stepping e s = cc
      go returned e s = Outcome-IsReported (st j) s.0

  fs_errors-skips :
      (before after : List (Fs S)) (f : Fs S)
      → f.planning_done ≡ false
      → fs_errors (before ++ f ∷ after) ≡ fs_errors (before ++ after)
  unfolding fs_errors
  fs_errors-skips [] after f h = rw (h, fs_errors) refl
  fs_errors-skips (g ∷ before) after f h = rw (fs_errors-skips before after f h, fs_errors) refl

  fs_with_error-finds :
      (before after : List (Fs S)) (f : Fs S)
      → is_some f.planning_err ≡ true
      → fs_with_error (before ++ f ∷ after) ≡ true
  unfolding fs_with_error fs_state
  fs_with_error-finds [] after f h = rw (h, h, fs_with_error, fs_state) refl
  fs_with_error-finds (g ∷ before) after f h =
      rw (fs_with_error-finds before after f h, fs_with_error)
        (||-true (is_some (report_error (fs_report g))))
    where
      ||-true : (b : Bool) → (b || true) ≡ true
      ||-true true = refl
      ||-true false = refl

  -- After any turns: the planning error of a filesystem of the attempt, wherever in its list, makes
  -- the attempt a failed one, but it is not among the errors that decide on another attempt, which
  -- are those of the filesystems before and after it.
  pub Reachable-unreported :
      {st : State S}
      → Reachable ops path n prevs st
      → (before : List ℕ) (j : ℕ) (after : List ℕ) → is_some (st j).planning_err ≡ true
      → (state_of none (some (map st before ++ st j ∷ map st after)) true
          ≡ some attempt_fan_out_error)
        × (fs_errors (map st before ++ st j ∷ map st after)
            ≡ fs_errors (map st before ++ map st after))
  unfolding state_of
  Reachable-unreported {st} r before j after h = elim (Bool-cases (st j).planning_done) [
    | inl d ↦
        let never = Reachable-no_planning_err ops path n prevs r j d in
        let bad : is_some (st j).planning_err ≡ false = rw never refl in cc
    | inr d ↦ (
      rw (fs_with_error-finds (map st before) (map st after) (st j) h, state_of) refl,
      fs_errors-skips (map st before) (map st after) (st j) d,
    )
  ]
