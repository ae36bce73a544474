-- ===== src/Replication/Diff.antt =====
-- replication/logic/diff/diff.go: the incremental path between two lists of versions. How
-- `sort.Slice` orders ties is left open: the result of a sort is a parameter.
pub mod Search
pub mod Path
pub mod Conflicts
use zrepl.Prelude.{
  ℕ, zero, suc, ◌-◌, ◌==◌, ◌≡◌, Bool, true, not, ◌&&◌, if◌then◌else◌, Option, none, some, List, [],
  ◌∷◌, length, get_elem?, drop, scan_down, Result, ok, err, SliceSort, slice_is_sorted,
}
use zrepl.Replication.Version.{FilesystemVersion, version_less, is_snapshot, strip_bookmarks}

pub data Conflict : Type 0 where
  no_common_ancestor : (sender receiver : List FilesystemVersion) → Conflict
  diverged :
      (sender receiver : List FilesystemVersion) (common_ancestor : FilesystemVersion)
      (sender_only receiver_only : List FilesystemVersion)
      → Conflict
  no_sender_snapshots : Conflict
  most_recent_snapshot_already_present :
      (sender receiver : List FilesystemVersion) (common_ancestor : FilesystemVersion) → Conflict

-- mrcaCandidate
pub record Candidate : Type 0 where
  pub ancestor : FilesystemVersion
  pub r : ℕ
  pub s : ℕ

-- The comparison in the inner loop, at sender[s] and receiver[r].
unfoldable pub match_at : List FilesystemVersion → List FilesystemVersion → ℕ → ℕ → Option Candidate
match_at receiver sender r s = elim (get_elem? sender s) [
  | none ↦ none
  | some x ↦ elim (get_elem? receiver r) [
    | none ↦ none
    | some y ↦ if x.guid == y.guid then some (record { ancestor = x; r = r; s = s }) else none
  ]
]

-- The loops labelled findCandidate.
unfoldable pub find_candidate : List FilesystemVersion → List FilesystemVersion → Option Candidate
find_candidate receiver sender =
    scan_down (length receiver) (λ r. scan_down (length sender) (λ s. match_at receiver sender r s))

-- The loop that extends incPath; `newest` is its last element so far.
unfoldable pub extend_path : FilesystemVersion → List FilesystemVersion → List FilesystemVersion
extend_path newest [] = []
extend_path newest (v ∷ vs) =
    let taken = is_snapshot v && not (newest.guid == v.guid) in
    let rest = extend_path (if taken then v else newest) vs in if taken then v ∷ rest else rest

-- What follows the loops, on lists that are stripped and sorted.
unfoldable pub path_from :
    List FilesystemVersion
    → List FilesystemVersion
    → Option Candidate
    → Result Conflict (List FilesystemVersion)
path_from receiver sender none = elim sender [
  | [] ↦ err no_sender_snapshots
  | v ∷ vs ↦ err (no_common_ancestor (v ∷ vs) receiver)
]
path_from receiver sender (some c) =
    if not (c.r == length receiver - 1)
    then err (diverged sender receiver c.ancestor (drop (suc c.s) sender) (drop (suc c.r) receiver))
    else elim (extend_path c.ancestor (drop (suc c.s) sender)) [
      | [] ↦ err (most_recent_snapshot_already_present sender receiver c.ancestor)
      | v ∷ vs ↦ ok (c.ancestor ∷ v ∷ vs)
    ]

module _ (slice : SliceSort version_less) where
  -- SortVersionListByCreateTXGThenBookmarkLTSnapshot
  unfoldable pub sort_version_list : List FilesystemVersion → List FilesystemVersion
  sort_version_list versions =
      if slice_is_sorted version_less versions then versions else slice.sort versions

  -- IncrementalPath
  unfoldable pub incremental_path :
      List FilesystemVersion → List FilesystemVersion → Result Conflict (List FilesystemVersion)
  incremental_path receiver sender =
      let receiver' = sort_version_list (strip_bookmarks receiver) in
      let sender' = sort_version_list sender in
      path_from receiver' sender' (find_candidate receiver' sender')
