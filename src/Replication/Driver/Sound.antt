-- ===== src/Replication/Driver/Sound.antt =====
-- What holds of every filesystem of an attempt, whatever turns have been taken.
use zrepl.Prelude.{
  ℕ, ◌<◌, ◌≤◌, ◌≡◌, ◌⊎◌, refl, inl, inr, Bool, true, false, none, some, List, ◌++◌, length,
  get_elem?, All, All-map,
}
use zrepl.Replication.Driver.{
  StepOps, Phase, planning, checking, sleeping, stepping, returned, is_returned, Fs, is_some,
  has_planning_done, present_on_receiver, State,
}

-- A list of errors is not empty.
abbrev pub Any : List ℕ → Type 0
Any ks = 0 < length ks

-- Planned without an error, and nothing done yet.
pub record IsPlanned {S : Type 0} (f : Fs S) : Type 0 where
  pub done : f.planning_done ≡ true
  pub no_planning_err : f.planning_err ≡ none
  pub no_step_err : f.step_err ≡ none
  pub within : f.step ≤ length f.steps

-- One of the parents has not returned.
pub record Unreturned {S : Type 0} (ps : List ℕ) (st : State S) : Type 0 where
  pub place : ℕ
  pub parent : ℕ
  pub found : get_elem? ps place ≡ some parent
  pub runs : is_returned (st parent).phase ≡ false

-- A filesystem that has returned has one of three outcomes.
pub data Outcome {S : Type 0} (f : Fs S) : Type 0 where
  planning_errored : f.planning_done ≡ false → is_some f.planning_err ≡ true → Outcome f
  stepping_errored :
      f.planning_done ≡ true
      → f.planning_err ≡ none
      → is_some f.step_err ≡ true
      → f.step ≤ length f.steps
      → Outcome f
  completed : IsPlanned f → f.step ≡ length f.steps → Outcome f

IsPlanned-raised :
    {S : Type 0} (f : Fs S) → IsPlanned f → IsPlanned (record f { did_update = true })
IsPlanned-raised f p = record {
  done = p.done;
  no_planning_err = p.no_planning_err;
  no_step_err = p.no_step_err;
  within = p.within;
}

Outcome-raised : {S : Type 0} (f : Fs S) → Outcome f → Outcome (record f { did_update = true })
Outcome-raised f (planning_errored a b) = planning_errored a b
Outcome-raised f (stepping_errored a b c d) = stepping_errored a b c d
Outcome-raised f (completed p e) = completed (IsPlanned-raised f p) e

module _ {S : Type 0} (ops : StepOps S) where
  -- What the children take as the sign that the filesystem exists on the receiver.
  abbrev pub IsReady : Fs S → Type 0
  IsReady p = (has_planning_done ops p ≡ true) × (present_on_receiver ops p ≡ true)

  abbrev pub AllReady : List ℕ → State S → Type 0
  AllReady ps st = All (λ k. IsReady (st k)) ps

  -- There is a reason to look at the parents again: a wakeup, now or to come.
  abbrev pub Hopes : List ℕ → State S → Fs S → Type 0
  Hopes ps st f = (f.did_update ≡ true) ⊎ Unreturned ps st

  pub record IsChecking (ps : List ℕ) (st : State S) (f : Fs S) (left : List ℕ) (all_present : Bool)
      (failed : List ℕ) : Type 0 where
    pub plan : IsPlanned f
    pub fresh : f.step ≡ 0
    pub seen : List ℕ
    pub parts : seen ++ left ≡ ps
    pub ready : all_present ≡ true → AllReady seen st
    pub hopes : all_present ≡ false → Any failed ⊎ Hopes ps st f

  -- What holds of a filesystem in each phase.
  abbrev pub IsSound : List ℕ → State S → Fs S → Phase → Type 0
  IsSound ps st f planning =
      (f.planning_done ≡ false) × (f.planning_err ≡ none) × (f.step_err ≡ none) × (f.step ≡ 0)
  IsSound ps st f (checking left all_present failed) = IsChecking ps st f left all_present failed
  IsSound ps st f sleeping = IsPlanned f × (f.step ≡ 0) × Hopes ps st f
  IsSound ps st f stepping = IsPlanned f × AllReady ps st
  IsSound ps st f returned = Outcome f × (0 < f.step → AllReady ps st)

  -- A filesystem whose channel may have got a wakeup.
  pub data Raised (f : Fs S) : Fs S → Type 0 where
    same : Raised f f
    raised : Raised f (record f { did_update = true })

  -- The state goes on: what was ready stays so.
  abbrev pub Goes : State S → State S → Type 0
  Goes st st' = (k : ℕ) → IsReady (st k) → IsReady (st' k)

  AllReady-Goes : (ps : List ℕ) (st st' : State S) → Goes st st' → AllReady ps st → AllReady ps st'
  AllReady-Goes ps st st' g h = All-map (λ k r. g k r) ps h

  pub IsSound-Goes :
      (ps : List ℕ) (st st' : State S) (f f' : Fs S) (ph : Phase)
      → Goes st st'
      → (Hopes ps st f → Hopes ps st' f')
      → Raised f f'
      → IsSound ps st f ph
      → IsSound ps st' f' ph
  IsSound-Goes ps st st' f f' planning g u same s = s
  IsSound-Goes ps st st' f f' planning g u raised s = s
  IsSound-Goes ps st st' f f' (checking left all_present failed) g u same s = record {
    plan = s.plan;
    fresh = s.fresh;
    seen = s.seen;
    parts = s.parts;
    ready = λ e. AllReady-Goes s.seen st st' g (s.ready e);
    hopes = λ e. elim (s.hopes e) [ inl a ↦ inl a | inr h ↦ inr (u h) ];
  }
  IsSound-Goes ps st st' f f' (checking left all_present failed) g u raised s = record {
    plan = IsPlanned-raised f s.plan;
    fresh = s.fresh;
    seen = s.seen;
    parts = s.parts;
    ready = λ e. AllReady-Goes s.seen st st' g (s.ready e);
    hopes = λ e. inr (inl refl);
  }
  IsSound-Goes ps st st' f f' sleeping g u same s = (s.0, s.1, u s.2)
  IsSound-Goes ps st st' f f' sleeping g u raised s = (IsPlanned-raised f s.0, s.1, inl refl)
  IsSound-Goes ps st st' f f' stepping g u same s = (s.0, AllReady-Goes ps st st' g s.1)
  IsSound-Goes ps st st' f f' stepping g u raised s =
      (IsPlanned-raised f s.0, AllReady-Goes ps st st' g s.1)
  IsSound-Goes ps st st' f f' returned g u same s = (s.0, λ e. AllReady-Goes ps st st' g (s.1 e))
  IsSound-Goes ps st st' f f' returned g u raised s =
      (Outcome-raised f s.0, λ e. AllReady-Goes ps st st' g (s.1 e))
