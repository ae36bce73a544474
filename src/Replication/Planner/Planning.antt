-- ===== src/Replication/Planner/Planning.antt =====
-- Filesystem.doPlanning: the queries, the choice of the branch and the size estimates. Which
-- estimate finishes first is left open: the order in which errors arrive is a parameter.
pub mod Outcome
use Prim.Native.String.{String}
use mathlib.Core.List.Perm
use text.Mathlib.Text.{◌==◌ as str_eq}
use zrepl.Prelude.{
  ℕ, ◌≡◌, ◌≢◌, refl, sym, ap, subst, ◌∙◌, ◌⊎◌, inl, inr, Bool, true, false, if◌then◌else◌, Option,
  none, some, List, [], ◌∷◌, ◌++◌, map, Perm, All, All-perm, Mem, ok, err, ◌>>=◌, arith, SliceSort,
  Bool-cases,
}
use zrepl.Replication.Version.{FilesystemVersion, version_less}
use zrepl.Replication.Planner.{
  InitialReplicationAutoResolution, ResumeToken, Filesystem, Step, Plan, PlanError, failed,
  sender_has_no_versions, nil_send_result, canceled, plan_resumed, plan_incremental,
}
use zrepl.Replication.Planner.Steps.{IsChain}

-- What one call of SendDry gives; `not_acquired` if the semaphore's wait was cancelled.
pub data Estimate : Type 0 where
  not_acquired nil_result : Estimate
  dry_failed : PlanError → Estimate
  size : ℕ → Estimate

-- The answers of the endpoints to the queries of doPlanning.
pub record Answers : Type 0 where
  pub sender_versions : Plan (List FilesystemVersion)
  pub receiver_fs : Option Filesystem
  pub receiver_versions : Plan (List FilesystemVersion)
  pub parse_resume_token : String → Plan ResumeToken
  pub send_dry : Step → Estimate

-- Errors arrive on the channel in some order.
pub record Arrival : Type 0 where
  pub arrive : List (Option PlanError) → List (Option PlanError)
  pub arrive-perm : (es : List (Option PlanError)) → Perm (arrive es) es

-- updateSizeEstimate: the step after it, and what is sent on `errs`, if anything is.
unfoldable pub update_size_estimate : Estimate → Step → Step × List (Option PlanError)
update_size_estimate not_acquired s = (s, [])
update_size_estimate nil_result s = (s, some nil_send_result ∷ [])
update_size_estimate (dry_failed e) s = (s, some e ∷ [])
update_size_estimate (size n) s = (record s { expected_size = n }, none ∷ [])

unfoldable pub estimate_all : (Step → Estimate) → List Step → List Step × List (Option PlanError)
unfolding update_size_estimate
estimate_all dry [] = ([], [])
estimate_all dry (s ∷ rest) =
    let (s', sent) = update_size_estimate (dry s) s in
    let (rest', sent') = estimate_all dry rest in (s' ∷ rest', sent ++ sent')

abbrev pub is_canceled : Option PlanError → Bool
is_canceled none = true
is_canceled (some canceled) = true
is_canceled (some _) = false

-- The loop over `errs`: an error replaces none, or a cancellation.
unfoldable pub significant_error : Option PlanError → List (Option PlanError) → Option PlanError
significant_error best [] = best
significant_error best (none ∷ es) = significant_error best es
significant_error best (some e ∷ es) =
    significant_error (if is_canceled best then some e else best) es

-- After the steps are chosen.
unfoldable pub with_estimates : Arrival → (Step → Estimate) → List Step → Plan (List Step)
unfolding estimate_all significant_error
with_estimates arrival dry steps =
    let (steps', errs) = estimate_all dry steps in
    elim (significant_error none (arrival.arrive errs)) [ none ↦ ok steps' | some e ↦ err e ]

abbrev require_versions : List FilesystemVersion → Plan (List FilesystemVersion)
require_versions [] = err sender_has_no_versions
require_versions (v ∷ vs) = ok (v ∷ vs)

-- The receiver's versions are asked for only if the filesystem is there and no placeholder.
unfoldable pub received_versions : Answers → Plan (List FilesystemVersion)
received_versions a = elim a.receiver_fs [
  | none ↦ ok []
  | some fs ↦ if fs.is_placeholder then ok [] else a.receiver_versions
]

-- The raw token and what it says, if there is one.
unfoldable pub resume_token_of : Answers → Plan (Option (String × ResumeToken))
resume_token_of a = elim a.receiver_fs [
  | none ↦ ok none
  | some fs ↦
      if str_eq fs.resume_token ""
      then ok none
      else (a.parse_resume_token fs.resume_token >>= λ t. ok (some (fs.resume_token, t)))
]

module _ (slice : SliceSort version_less) (policy : InitialReplicationAutoResolution) where
  unfoldable pub choose_steps :
      Option (String × ResumeToken)
      → List FilesystemVersion
      → List FilesystemVersion
      → Plan (List Step)
  choose_steps none rfsvs sfsvs = plan_incremental slice policy rfsvs sfsvs
  choose_steps (some (raw, token)) rfsvs sfsvs = plan_resumed slice raw token sfsvs

  -- The steps before their sizes are estimated.
  unfoldable pub planned_steps : Answers → Plan (List Step)
  unfolding received_versions resume_token_of choose_steps
  planned_steps a = do
    listed ← a.sender_versions
    sfsvs ← require_versions listed
    rfsvs ← received_versions a
    token ← resume_token_of a
    choose_steps token rfsvs sfsvs

  unfoldable pub do_planning : Arrival → Answers → Plan (List Step)
  unfolding planned_steps with_estimates
  do_planning arrival a = do steps ← planned_steps a; with_estimates arrival a.send_dry steps
