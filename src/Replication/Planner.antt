-- ===== src/Replication/Planner.antt =====
-- replication/logic/replication_logic.go: the steps that replicate one filesystem. What the two
-- endpoints answer, and what `zfs send` says of a resume token, are arguments.
pub mod Steps
pub mod Resume
pub mod Initial
pub mod Planning
pub mod Replicate
pub mod Filesystems
use Prim.Native.String.{String}
use zrepl.Prelude.{
  ℕ, ◌+◌, ◌==◌, Bool, false, ◌&&◌, if◌then◌else◌, Option, none, some, List, [], ◌∷◌, map, length,
  get_elem?, drop, keep_if, scan_down, Result, ok, err, ◌>>=◌, SliceSort,
}
use zrepl.Replication.Version.{FilesystemVersion, version_less, is_snapshot}
use zrepl.Replication.Diff.{
  Conflict, no_common_ancestor, most_recent_snapshot_already_present, sort_version_list,
  incremental_path,
}

-- replication_logic_policy.go
pub data InitialReplicationAutoResolution : Type 0 where
  most_recent all_snapshots fail : InitialReplicationAutoResolution

-- The fields of zfs.ResumeToken that planning reads.
pub record ResumeToken : Type 0 where
  pub has_from_guid : Bool
  pub has_to_guid : Bool
  pub from_guid : ℕ
  pub to_guid : ℕ

-- pdu.Filesystem
pub record Filesystem : Type 0 where
  pub path : String
  pub resume_token : String
  pub is_placeholder : Bool

-- A nil pointer is `none`; an empty token means that none is used.
pub record Step : Type 0 where
  pub from : Option FilesystemVersion
  pub to : Option FilesystemVersion
  pub resume_token : String
  pub expected_size : ℕ

-- `panicked` stands for a call of `panic`, `failed` for an error of an endpoint or of `zfs`.
pub data PlanError : Type 0 where
  failed : String → PlanError
  sender_has_no_versions no_snapshots_on_sender initial_replication_disabled : PlanError
  to_guid_not_found from_and_to_same nil_send_result canceled panicked : PlanError
  unresolved : Conflict → PlanError

abbrev pub Plan : Type 0 → Type 0
Plan = Result PlanError

-- The loop in the case InitialReplicationAutoResolutionMostRecent.
unfoldable pub most_recent_snap : List FilesystemVersion → Option FilesystemVersion
most_recent_snap versions = scan_down (length versions) (λ n. elim (get_elem? versions n) [
  | none ↦ none
  | some v ↦ if is_snapshot v then some v else none
])

-- The switch over policy.InitialReplication.
unfoldable pub initial_path :
    InitialReplicationAutoResolution
    → List FilesystemVersion
    → Plan (List (Option FilesystemVersion))
initial_path most_recent sender = ok (none ∷ most_recent_snap sender ∷ [])
initial_path all_snapshots sender = ok (none ∷ map some (keep_if is_snapshot sender))
initial_path fail sender = err initial_replication_disabled

-- tryAutoresolveConflict
unfoldable pub try_autoresolve_conflict :
    Conflict → InitialReplicationAutoResolution → Plan (List (Option FilesystemVersion))
unfolding initial_path
try_autoresolve_conflict (most_recent_snapshot_already_present s r a) policy = ok []
try_autoresolve_conflict (no_common_ancestor [] []) policy = err no_snapshots_on_sender
try_autoresolve_conflict (no_common_ancestor (v ∷ vs) []) policy = initial_path policy (v ∷ vs)
try_autoresolve_conflict c policy = err (unresolved c)

abbrev pub new_step : Option FilesystemVersion → Option FilesystemVersion → String → Step
new_step from to token = record { from = from; to = to; resume_token = token; expected_size = 0 }

-- `for i := 0; i < len(path)-1; i++`
unfoldable pub steps_of_path : List (Option FilesystemVersion) → List Step
steps_of_path [] = []
steps_of_path (a ∷ []) = []
steps_of_path (a ∷ b ∷ rest) = new_step a b "" ∷ steps_of_path (b ∷ rest)

-- The checks of len(path) before that loop.
unfoldable pub checked_steps : List (Option FilesystemVersion) → Plan (List Step)
unfolding steps_of_path
checked_steps [] = ok []
checked_steps (a ∷ []) = err panicked
checked_steps (a ∷ b ∷ rest) = ok (steps_of_path (a ∷ b ∷ rest))

-- fromVersion, toVersion and their positions; a pointer is a position in the sorted list.
pub record ResumeMatch : Type 0 where
  pub from_version : Option (ℕ × FilesystemVersion)
  pub to_version : Option (ℕ × FilesystemVersion)

-- `fromVersion` after the version `v` at `idx`: a snapshot that was found is kept.
abbrev pub next_from :
    Option (ℕ × FilesystemVersion) → ℕ → FilesystemVersion → Option (ℕ × FilesystemVersion)
next_from none idx v = some (idx, v)
next_from (some (i, w)) idx v = if is_snapshot w then some (i, w) else some (idx, v)

-- The body of the loop over the sorted versions.
unfoldable pub match_version : ResumeToken → ResumeMatch → ℕ → FilesystemVersion → ResumeMatch
match_version token m idx v = record {
  from_version =
      if token.has_from_guid && v.guid == token.from_guid
      then next_from m.from_version idx v
      else m.from_version;
  to_version =
      if token.has_to_guid && (v.guid == token.to_guid && is_snapshot v)
      then some (idx, v)
      else m.to_version;
}

unfoldable pub match_token : ResumeToken → ResumeMatch → ℕ → List FilesystemVersion → ResumeMatch
unfolding match_version
match_token token m idx [] = m
match_token token m idx (v ∷ vs) = match_token token (match_version token m idx v) (idx + 1) vs

abbrev pub version_of : Option (ℕ × FilesystemVersion) → Option FilesystemVersion
version_of none = none
version_of (some (i, v)) = some v

-- `fromVersion == toVersion` compares pointers.
abbrev pub same_pointer : Option (ℕ × FilesystemVersion) → ℕ → Bool
same_pointer none idx = false
same_pointer (some (i, v)) idx = i == idx

-- The rest of the branch for a resume token.
unfoldable pub resume_steps : String → List FilesystemVersion → ResumeMatch → Plan (List Step)
unfolding steps_of_path
resume_steps raw sorted m = elim m.to_version [
  | none ↦ err to_guid_not_found
  | some (idx, to) ↦
      if same_pointer m.from_version idx
      then err from_and_to_same
      else ok (
          new_step (version_of m.from_version) (some to) raw
          ∷ steps_of_path (map some (keep_if is_snapshot (drop idx sorted))))
]

-- The path after conflict resolution.
unfoldable pub resolved_path :
    InitialReplicationAutoResolution
    → Result Conflict (List FilesystemVersion)
    → Plan (List (Option FilesystemVersion))
resolved_path policy (ok path) = ok (map some path)
resolved_path policy (err c) = try_autoresolve_conflict c policy

module _ (slice : SliceSort version_less) where
  -- The branch `resumeToken != nil`.
  unfoldable pub plan_resumed : String → ResumeToken → List FilesystemVersion → Plan (List Step)
  unfolding match_token resume_steps
  plan_resumed raw token sfsvs =
      let sorted = sort_version_list slice sfsvs in
      resume_steps raw sorted
        (match_token token (record { from_version = none; to_version = none }) 0 sorted)

  -- The branch `resumeToken == nil`.
  unfoldable pub plan_incremental :
      InitialReplicationAutoResolution
      → List FilesystemVersion
      → List FilesystemVersion
      → Plan (List Step)
  unfolding resolved_path checked_steps
  plan_incremental policy rfsvs sfsvs = do
    path ← resolved_path policy (incremental_path slice rfsvs sfsvs)
    checked_steps path
