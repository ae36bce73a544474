-- ===== src/Replication/Planner/Planning/Outcome.antt =====
-- When planning succeeds, and what it then returns.
use Prim.Native.String.{String}
use mathlib.Core.HLevel.{⊥_prop, Unit-prop}
use zrepl.Prelude.{
  ℕ, ◌≡◌, ◌≢◌, refl, subst, inl, inr, Option, none, some, List, [], ◌∷◌, ◌++◌, All, All-perm, ok,
  >>=-eq-ok, arith, SliceSort, Bool-cases, Option-cases,
}
use zrepl.Replication.Version.{FilesystemVersion, version_less}
use zrepl.Replication.Planner.{InitialReplicationAutoResolution, ResumeToken, Step, PlanError}
use zrepl.Replication.Planner.Steps.{IsChain}
use zrepl.Replication.Planner.Initial.{plan_incremental-IsChain}
use zrepl.Replication.Planner.Resume.{plan_resumed-IsResumption}
use zrepl.Replication.Planner.Planning.{
  Estimate, not_acquired, nil_result, dry_failed, size, Answers, Arrival, update_size_estimate,
  estimate_all, significant_error, is_canceled, with_estimates, require_versions, received_versions,
  resume_token_of, choose_steps, planned_steps, do_planning,
}

abbrev IsNone : Option PlanError → Type 0
IsNone none = Unit
IsNone (some e) = ⊥

-- No order of arrival hides an error.
keeps_error : (e : PlanError) (es : List (Option PlanError)) → significant_error (some e) es ≢ none
unfolding significant_error
keeps_error e [] h = cc
keeps_error e (none ∷ es) h = keeps_error e es h
keeps_error e (some x ∷ es) h = elim (Bool-cases (is_canceled (some e))) [
  | inl c ↦ keeps_error x es (rw c at h)
  | inr c ↦ keeps_error e es (rw c at h)
]

no_error : (es : List (Option PlanError)) → significant_error none es ≡ none → All IsNone es
unfolding significant_error
no_error [] h = tt
no_error (none ∷ es) h = (tt, no_error es h)
no_error (some e ∷ es) h = absurd (keeps_error e es h)

-- The expected size after a dry run: the size that it has found, if any.
abbrev pub expected : Estimate → ℕ → ℕ
expected not_acquired n = n
expected nil_result n = n
expected (dry_failed e) n = n
expected (size m) n = m

abbrev pub IsEstimated : Estimate → Step → Step → Type 0
IsEstimated o s t =
    (s.from ≡ t.from)
    × (s.to ≡ t.to)
    × (s.resume_token ≡ t.resume_token)
    × (t.expected_size ≡ expected o s.expected_size)

-- Two lists of steps differ only in the expected sizes, which are those of the dry runs.
abbrev pub SameSteps : (Step → Estimate) → List Step → List Step → Type 0
SameSteps dry [] [] = Unit
SameSteps dry [] (t ∷ ts) = ⊥
SameSteps dry (s ∷ ss) [] = ⊥
SameSteps dry (s ∷ ss) (t ∷ ts) = IsEstimated (dry s) s t × SameSteps dry ss ts

-- A dry run that gave no error.
abbrev IsHarmless : Estimate → Type 0
IsHarmless not_acquired = Unit
IsHarmless nil_result = ⊥
IsHarmless (dry_failed e) = ⊥
IsHarmless (size n) = Unit

update-SameStep : (o : Estimate) (s : Step) → IsEstimated o s (update_size_estimate o s).0
unfolding update_size_estimate
update-SameStep not_acquired s = (refl, refl, refl, refl)
update-SameStep nil_result s = (refl, refl, refl, refl)
update-SameStep (dry_failed e) s = (refl, refl, refl, refl)
update-SameStep (size n) s = (refl, refl, refl, refl)

estimate_all-SameSteps :
    (dry : Step → Estimate) (steps : List Step) → SameSteps dry steps (estimate_all dry steps).0
unfolding estimate_all
estimate_all-SameSteps dry [] = tt
estimate_all-SameSteps dry (s ∷ rest) = (update-SameStep (dry s) s, estimate_all-SameSteps dry rest)

IsHarmless-update :
    (o : Estimate) (s : Step) (es : List (Option PlanError))
    → All IsNone ((update_size_estimate o s).1 ++ es)
    → IsHarmless o × All IsNone es
unfolding update_size_estimate
IsHarmless-update not_acquired s es h = (tt, h)
IsHarmless-update nil_result s es h = absurd h.0
IsHarmless-update (dry_failed e) s es h = absurd h.0
IsHarmless-update (size n) s es h = (tt, h.1)

estimate_all-IsHarmless :
    (dry : Step → Estimate) (steps : List Step)
    → All IsNone (estimate_all dry steps).1
    → All (λ s. IsHarmless (dry s)) steps
unfolding estimate_all
estimate_all-IsHarmless dry [] h = tt
estimate_all-IsHarmless dry (s ∷ rest) h =
    let (first, later) = IsHarmless-update (dry s) s (estimate_all dry rest).1 h in
    (first, estimate_all-IsHarmless dry rest later)

IsNone-prop : (o : Option PlanError) → IsProp (IsNone o)
IsNone-prop none = Unit-prop
IsNone-prop (some e) = ⊥_prop

-- Planning succeeds only if no dry run reported an error, in whatever order they finished. It then
-- returns the planned steps, with the expected size that the dry run of each has found, or the one
-- before where the wait for the dry run was cancelled, and with nothing else changed.
pub with_estimates-SameSteps :
    (arrival : Arrival) (dry : Step → Estimate) (planned steps : List Step)
    → with_estimates arrival dry planned ≡ ok steps
    → SameSteps dry planned steps × All (λ s. IsHarmless (dry s)) planned
unfolding with_estimates
with_estimates-SameSteps arrival dry planned steps h =
    let errs = (estimate_all dry planned).1 in
    elim (Option-cases (significant_error none (arrival.arrive errs))) [
      | inl quiet ↦ (
        subst (SameSteps dry planned) (ground arith) (estimate_all-SameSteps dry planned),
        estimate_all-IsHarmless dry planned
            (All-perm IsNone-prop _ errs (arrival.arrive-perm errs) (no_error _ quiet)),
      )
      | inr (e, found) ↦ absurd (ground arith)
    ]

IsChain-same :
    (dry : Step → Estimate) (ss ts : List Step) → SameSteps dry ss ts → IsChain ss → IsChain ts
IsChain-same dry [] [] h c = tt
IsChain-same dry [] (t ∷ ts) h c = absurd h
IsChain-same dry (s ∷ ss) [] h c = absurd h
IsChain-same dry (s ∷ []) (t ∷ []) h c = tt
IsChain-same dry (s ∷ []) (t ∷ t' ∷ ts) h c = absurd h.1
IsChain-same dry (s ∷ s' ∷ ss) (t ∷ []) h c = absurd h.1
IsChain-same dry (s ∷ s' ∷ ss) (t ∷ t' ∷ ts) h c =
    (cc, cc, IsChain-same dry (s' ∷ ss) (t' ∷ ts) h.1 c.2)

module _ (slice : SliceSort version_less) (policy : InitialReplicationAutoResolution) where
  choose_steps-IsChain :
      (token : Option (String × ResumeToken)) (rfsvs sfsvs : List FilesystemVersion)
      (steps : List Step)
      → choose_steps slice policy token rfsvs sfsvs ≡ ok steps
      → IsChain steps
  unfolding choose_steps
  choose_steps-IsChain none rfsvs sfsvs steps h =
      plan_incremental-IsChain slice policy rfsvs sfsvs steps h
  choose_steps-IsChain (some (raw, token)) rfsvs sfsvs steps h =
      (plan_resumed-IsResumption slice raw token sfsvs steps h).chain

  planned_steps-IsChain :
      (a : Answers) (steps : List Step) → planned_steps slice policy a ≡ ok steps → IsChain steps
  unfolding planned_steps
  planned_steps-IsChain a steps h =
      let (listed, _, h₁) = >>=-eq-ok a.sender_versions _ h in
      let (sfsvs, _, h₂) = >>=-eq-ok (require_versions listed) _ h₁ in
      let (rfsvs, _, h₃) = >>=-eq-ok (received_versions a) _ h₂ in
      let (token, _, h₄) = >>=-eq-ok (resume_token_of a) _ h₃ in
      choose_steps-IsChain token rfsvs sfsvs steps h₄

  -- Every plan for a filesystem is a chain, with or without a resume token and whatever the dry
  -- runs say: each step but the first starts where the one before it ends, and has no token.
  pub do_planning-IsChain :
      (arrival : Arrival) (a : Answers) (steps : List Step)
      → do_planning slice policy arrival a ≡ ok steps
      → IsChain steps
  unfolding do_planning
  do_planning-IsChain arrival a steps h =
      let (planned, e, h') = >>=-eq-ok (planned_steps slice policy a) _ h in
      let (same, _) = with_estimates-SameSteps arrival a.send_dry planned steps h' in
      IsChain-same a.send_dry planned steps same (planned_steps-IsChain a planned e)
