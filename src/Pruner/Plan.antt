-- ===== src/Pruner/Plan.antt =====
-- The loop over the target's filesystems in doOneAttempt: which snapshots count as replicated, and
-- which are to be destroyed.
use Prim.Native.String.{String}
use zrepl.Prelude.{
  ℕ, suc, Bool, true, false, not, ◌&&◌, ◌||◌, if◌then◌else◌, Option, none, some, List, [], ◌∷◌,
  ◌++◌, map, ℤ, ltb, ◌==◌, str_eq, SliceSort, Result, err, ok,
}
use zrepl.Replication.Version.{FilesystemVersion, is_snapshot}
use zrepl.Pruning.Rules.{Snapshot, last_n_less, KeepRule, prune_snapshots}
use zrepl.Pruner.{
  skip_placeholder, skip_no_correspondence_on_sender, Snap, Fs, new_fs, Filesystem, CursorRes,
  Sides,
}

-- `less` of the sort.Slice
unfoldable pub txg_less : FilesystemVersion → FilesystemVersion → Bool
txg_less a b = ltb a.create_txg b.create_txg

-- haveCursorSnapshot after the first loop
unfoldable pub have_cursor_snapshot : ℕ → List FilesystemVersion → Bool
have_cursor_snapshot guid [] = false
have_cursor_snapshot guid (v ∷ vs) =
    let rest = have_cursor_snapshot guid vs in
    if not (is_snapshot v) then rest else if v.guid == guid then true else rest

-- How the second loop ends.
pub data Scan : Type 0 where
  scanned : (snaps : List Snap) (pre_cursor : Bool) → Scan
  scan_panic : Scan

abbrev pub prepend : Snap → Scan → Scan
prepend s (scanned snaps pre) = scanned (s ∷ snaps) pre
prepend s scan_panic = scan_panic

module _ (parse : String → Option ℤ) where
  -- The second loop from the version at `i` on. On an invalid date, the error message needs RelName,
  -- which parses the date again and panics.
  unfoldable pub scan_snapshots :
      (consider : Bool) (guid i : ℕ) (pre_cursor : Bool) → List FilesystemVersion → Scan
  scan_snapshots consider guid i pre [] = scanned [] pre
  scan_snapshots consider guid i pre (v ∷ vs) = elim (is_snapshot v) [
    | false ↦ scan_snapshots consider guid (suc i) pre vs
    | true ↦ elim (parse v.creation) [
      | none ↦ scan_panic
      | some creation ↦
          let at_cursor = v.guid == guid in
          let pre' = pre && not at_cursor in
          prepend
            (record {
              position = i;
              replicated = pre' || (consider && at_cursor);
              date = creation;
              fsv = v;
            })
            (scan_snapshots consider guid (suc i) pre' vs)
    ]
  ]

-- What PruneSnapshots sees of a snapshot; it returns some of the snapshots that it was given.
abbrev pub as_rule_snapshot : Snap → Snapshot
as_rule_snapshot s = record {
  id = s.position;
  name = s.fsv.name;
  replicated = s.replicated;
  date = s.date;
}

unfoldable pub at_position : ℕ → List Snap → List Snap
at_position i [] = []
at_position i (s ∷ ss) = if s.position == i then s ∷ [] else at_position i ss

abbrev pub from_rule_snapshots : List Snap → List Snapshot → List Snap
from_rule_snapshots snaps [] = []
from_rule_snapshots snaps (s ∷ ss) = at_position s.id snaps ++ from_rule_snapshots snaps ss

-- sfss[path] != nil
unfoldable pub has_path : String → List Filesystem → Bool
has_path path [] = false
has_path path (f ∷ fs) = if str_eq f.path path then true else has_path path fs

abbrev pub plan_failed : String → String → Fs → Fs
plan_failed e context pfs = record pfs { plan_err = some e; plan_err_context = context }

-- After PruneSnapshots.
unfoldable pub plan_pruned : Fs → List Snap → Option (List Snapshot) → Option Fs
plan_pruned pfs snaps none = none
plan_pruned pfs snaps (some out) =
    some (record pfs { snaps = snaps; destroy_list = from_rule_snapshots snaps out })

-- After the scan.
unfoldable pub plan_scanned : SliceSort last_n_less → List KeepRule → Fs → Scan → Option Fs
unfolding plan_pruned
plan_scanned slice rules pfs scan_panic = none
plan_scanned slice rules pfs (scanned snaps true) = some (
    plan_failed
      "prune target has no snapshot that corresponds to sender replication cursor bookmark" ""
      (record pfs { snaps = snaps }))
plan_scanned slice rules pfs (scanned snaps false) =
    plan_pruned pfs snaps (prune_snapshots slice (map as_rule_snapshot snaps) rules)

module _ (slice_versions : SliceSort txg_less) (slice : SliceSort last_n_less)
    (parse : String → Option ℤ) (rules : List KeepRule) (consider : Bool) where
  -- From the sort of the versions on.
  unfoldable pub plan_snapshots : Fs → ℕ → List FilesystemVersion → Option Fs
  unfolding plan_scanned scan_snapshots have_cursor_snapshot
  plan_snapshots pfs guid versions =
      let sorted = slice_versions.sort versions in
      plan_scanned slice rules pfs
        (scan_snapshots parse consider guid 0 (have_cursor_snapshot guid sorted) sorted)

  -- From the query for the replication cursor on.
  unfoldable pub plan_cursor : Fs → List FilesystemVersion → Result String CursorRes → Option Fs
  unfolding plan_snapshots
  plan_cursor pfs versions (err e) =
      some (plan_failed e "cannot get replication cursor bookmark" pfs)
  plan_cursor pfs versions (ok rc) =
      if rc.notexist
      then some (
          plan_failed
            "replication cursor bookmark does not exist (one successful replication is required before pruning works)"
            "" pfs)
      else plan_snapshots pfs rc.guid versions

  unfoldable pub plan_versions : Sides → Fs → Result String (List FilesystemVersion) → Option Fs
  unfolding plan_cursor
  plan_versions sides pfs (err e) = some (plan_failed e "cannot list filesystem versions" pfs)
  plan_versions sides pfs (ok versions) =
      plan_cursor pfs versions (sides.replication_cursor pfs.path)

  -- The body of the loop; `sfss` are the sender's filesystems.
  unfoldable pub plan_fs : Sides → List Filesystem → Filesystem → Option Fs
  unfolding plan_versions has_path
  plan_fs sides sfss tfs =
      if tfs.is_placeholder
      then some (record (new_fs tfs.path) { skip_reason = skip_placeholder })
      else if not (has_path tfs.path sfss)
      then some (record (new_fs tfs.path) { skip_reason = skip_no_correspondence_on_sender })
      else plan_versions sides (new_fs tfs.path) (sides.target_versions tfs.path)

  unfoldable pub plan_all : Sides → List Filesystem → List Filesystem → Option (List Fs)
  unfolding plan_fs
  plan_all sides sfss [] = some []
  plan_all sides sfss (t ∷ ts) = elim (plan_fs sides sfss t) [
    | none ↦ none
    | some pfs ↦ elim (plan_all sides sfss ts) [ none ↦ none | some rest ↦ some (pfs ∷ rest) ]
  ]
