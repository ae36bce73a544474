-- ===== src/Replication/Driver/Turned.antt =====
-- A turn keeps what holds of its filesystem, against the state in which it starts.
use mathlib.Core.List.{append_assoc, append-nil}
use zrepl.Prelude.{
  ℕ, ◌≡◌, ◌⊎◌, refl, sym, ◌∙◌, subst, inl, inr, Bool, true, false, not, ◌&&◌, ◌||◌, if◌then◌else◌,
  Option, none, some, List, [], ◌∷◌, ◌++◌, take, length, get_elem?, All-append, leb, arith,
  Bool-cases, &&-true,
}
use zrepl.Replication.Driver.{
  TimedError, StepOps, Phase, planning, is_returned, Fs, is_some, await_parents, after_plan,
  cut_plan, first_is_incremental, has_no_steps, has_planning_done, present_on_receiver,
  inspect_parent, after_parents, State,
}
use zrepl.Replication.Driver.Sound.{
  Any, IsPlanned, Outcome, planning_errored, stepping_errored, completed, IsReady, AllReady, Hopes,
  IsChecking, IsSound,
}

get_elem?-middle :
    (xs : List ℕ) (k : ℕ) (ys : List ℕ) → get_elem? (xs ++ (k ∷ ys)) (length xs) ≡ some k
get_elem?-middle [] k ys = refl
get_elem?-middle (x ∷ xs) k ys = get_elem?-middle xs k ys

IsPlanned-phase :
    {S : Type 0} {f : Fs S} {ph : Phase} → IsPlanned f → IsPlanned (record f { phase = ph })
IsPlanned-phase p = record {
  done = p.done;
  no_planning_err = p.no_planning_err;
  no_step_err = p.no_step_err;
  within = p.within;
}

module _ {S : Type 0} (ops : StepOps S) (ps : List ℕ) (st : State S) where
  abbrev pub IsSoundOut : Fs S × Bool → Type 0
  IsSoundOut out = IsSound ops ps st out.0 out.0.phase

  pub start-IsChecking : (f : Fs S) → IsPlanned f → f.step ≡ 0 → IsChecking ops ps st f ps true []
  start-IsChecking f p e = record {
    plan = p;
    fresh = e;
    seen = [];
    parts = refl;
    ready = λ _. tt;
    hopes = λ h. cc;
  }

  await_parents-IsSoundOut :
      (f : Fs S) (steps : List S)
      → IsSound ops ps st f planning
      → IsSoundOut (await_parents ops ps (record f { steps = steps }))
  await_parents-IsSoundOut f steps (nd, np, ns, z) =
      start-IsChecking (await_parents ops ps (record f { steps = steps })).0
        (record { done = refl; no_planning_err = np; no_step_err = ns; within = omega (arith, z) })
        z

  cut_plan-IsSoundOut :
      (f : Fs S) (e : TimedError) (steps : List S) (o : Option ℕ)
      → IsSound ops ps st f planning
      → IsSoundOut (cut_plan ops ps e steps f o)
  cut_plan-IsSoundOut f e steps none (nd, np, ns, z) =
      (planning_errored nd refl, λ lt. absurd (omega (arith, lt, z)))
  cut_plan-IsSoundOut f e steps (some cur) s = await_parents-IsSoundOut f (take cur steps) s

  -- The plan that a filesystem starts with.
  pub after_plan-IsSoundOut :
      (prev : Option (Fs S)) (f : Fs S) (e : TimedError) (steps : List S)
      → IsSound ops ps st f planning
      → IsSoundOut (after_plan ops prev ps e steps f)
  unfolding after_plan
  after_plan-IsSoundOut none f e steps s = await_parents-IsSoundOut f steps s
  after_plan-IsSoundOut (some prev) f e steps s =
      elim (Bool-cases (prev.planning_done && not (is_some prev.planning_err))) [
        | inl b ↦ rw (b, after_plan) (cut_plan-IsSoundOut f e steps _ s)
        | inr b ↦ rw (b, after_plan) (await_parents-IsSoundOut f steps s)
      ]

  -- A parent that has returned and is not ready has an error.
  Outcome-error :
      (p : Fs S) → Outcome p → has_planning_done ops p ≡ false → is_some p.planning_err ≡ true
  Outcome-error p (planning_errored nd e) h = e
  Outcome-error p (stepping_errored d np e w) h = ground arith
  Outcome-error p (completed c e) h = ground (arith, c.done, c.no_planning_err)

  present_at_end :
      (steps : List S) (step : ℕ)
      → step ≡ length steps
      → has_no_steps ops steps
          || first_is_incremental ops steps
          || (not (has_no_steps ops steps) && leb 1 step)
        ≡ true
  present_at_end [] step e = refl
  present_at_end (s ∷ ss) step e = ground arith

  Outcome-step_error :
      (p : Fs S)
      → Outcome p
      → has_planning_done ops p ≡ true
      → present_on_receiver ops p ≡ false
      → is_some p.step_err ≡ true
  Outcome-step_error p (planning_errored nd e) h a = cc
  Outcome-step_error p (stepping_errored d np e w) h a = e
  Outcome-step_error p (completed c e) h a = let here = present_at_end p.steps p.step e in cc

  -- An inspected parent that is not ready has failed, or it still runs.
  Hopes-of_parent :
      (f : Fs S) (seen : List ℕ) (k : ℕ) (left failed : List ℕ) (errored : Bool)
      → seen ++ (k ∷ left) ≡ ps
      → (is_returned (st k).phase ≡ true → Outcome (st k))
      → (Outcome (st k) → errored ≡ true)
      → Any (if errored then k ∷ failed else failed) ⊎ Hopes ops ps st f
  Hopes-of_parent f seen k left failed errored parts o h =
      elim (Bool-cases (is_returned (st k).phase)) [
        | inl b ↦ let e = h (o b) in inl (rw e (omega arith))
        | inr b ↦ inr (
            inr (record {
              place = length seen;
              parent = k;
              found =
                  subst (λ l. get_elem? l (length seen) ≡ some k) parts
                    (get_elem?-middle seen k left);
              runs = b;
            }))
      ]

  more_failed :
      (k : ℕ) (failed : List ℕ) (b : Bool) → Any failed → Any (if b then k ∷ failed else failed)
  more_failed k failed true a = omega arith
  more_failed k failed false a = a

  parts_next :
      (seen : List ℕ) (k : ℕ) (left : List ℕ)
      → seen ++ (k ∷ left) ≡ ps
      → (seen ++ (k ∷ [])) ++ left ≡ ps
  parts_next seen k left parts = append_assoc seen (k ∷ []) left ∙ parts

  pub inspect_parent-IsSound :
      (f : Fs S) (k : ℕ) (left : List ℕ) (all_present : Bool) (failed : List ℕ)
      → (is_returned (st k).phase ≡ true → Outcome (st k))
      → IsChecking ops ps st f (k ∷ left) all_present failed
      → IsSound ops ps st
          (record f { phase = inspect_parent ops (st k) k left all_present failed })
          (inspect_parent ops (st k) k left all_present failed)
  unfolding inspect_parent
  inspect_parent-IsSound f k left all_present failed o c =
      elim (Bool-cases (has_planning_done ops (st k))) [
        | inr b ↦
            rw (b, inspect_parent)
              (record {
                plan = IsPlanned-phase c.plan;
                fresh = c.fresh;
                seen = c.seen ++ (k ∷ []);
                parts = parts_next c.seen k left c.parts;
                ready = λ h. cc;
                hopes = λ h.
                    Hopes-of_parent f c.seen k left failed _ c.parts o
                      (λ out. Outcome-error (st k) out b);
              })
        | inl b ↦
            rw (b, inspect_parent)
              (record {
                plan = IsPlanned-phase c.plan;
                fresh = c.fresh;
                seen = c.seen ++ (k ∷ []);
                parts = parts_next c.seen k left c.parts;
                ready = λ h.
                    let (before, here) = &&-true all_present _ h in
                    All-append (λ j. IsReady ops (st j)) c.seen (k ∷ []) (c.ready before)
                      ((b, here), tt);
                hopes = λ h. elim (Bool-cases all_present) [
                  | inr a ↦ elim (c.hopes a) [
                    | inl any ↦ inl (more_failed k failed _ any)
                    | inr hope ↦ inr hope
                  ]
                  | inl a ↦
                      let absent : present_on_receiver ops (st k) ≡ false = ground arith in
                      Hopes-of_parent f c.seen k left failed _ c.parts o (λ out.
                        let e = Outcome-step_error (st k) out b absent in rw (absent, e) refl)
                ];
              })
      ]

  pub after_parents-IsSoundOut :
      (f : Fs S) (e : TimedError) (all_present : Bool) (failed : List ℕ)
      → IsChecking ops ps st f [] all_present failed
      → IsSoundOut (after_parents ops e f all_present failed)
  after_parents-IsSoundOut f e all_present (k ∷ failed) c = (
    stepping_errored c.plan.done c.plan.no_planning_err refl c.plan.within,
    λ lt. absurd (omega (arith, lt, c.fresh)),
  )
  after_parents-IsSoundOut f e true [] c = (
    IsPlanned-phase c.plan,
    subst (λ l. AllReady ops l st) (sym (append-nil c.seen) ∙ c.parts) (c.ready refl),
  )
  after_parents-IsSoundOut f e false [] c = (
    IsPlanned-phase c.plan,
    c.fresh,
    elim (c.hopes refl) [ inl any ↦ absurd (omega (arith, any)) | inr h ↦ h ],
  )
