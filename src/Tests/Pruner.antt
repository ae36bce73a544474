-- ===== src/Tests/Pruner.antt =====
-- A prune of two filesystems: of one, the oldest snapshot is destroyed; the other is a placeholder.
use Prim.Native.String.{String}
use zrepl.Prelude.{
  ℕ, ◌≡◌, refl, Bool, true, false, if◌then◌else◌, Option, none, some, List, [], ◌∷◌, All, ℤ, pos,
  ◌==◌, str_eq, string_less, ok, SliceSort, IsOrder, stable_SliceSort, slice_stable, arith,
}
use zrepl.Replication.Version.{FilesystemVersion, snapshot}
use zrepl.Pruning.Rules.{
  KeepRule, keep_not_replicated, keep_last_n, last_n_less, apply_rule, prune_snapshots,
}
use zrepl.Pruner.{
  Snap, Fs, Filesystem, DestroyReq, DestroyRes, Sides, new_fs, last_error, skip_placeholder,
}
use zrepl.Pruner.Plan.{
  txg_less, scanned, scan_panic, scan_snapshots, at_position, plan_snapshots, plan_all,
}
use zrepl.Pruner.Exec.{Pruner, done, do_one_attempt}
use zrepl.Pruner.Queue.{Queue}
use zrepl.Pruner.Older.{IsOlder, scan_snapshots-replicated, scan_snapshots-panics}
use zrepl.Pruner.Requests.{IsJustified}
use zrepl.Pruner.Verdict.{do_one_attempt-IsJustified}
use zrepl.Tests.Pruning.{stable_last, any_name}

txg_less-IsOrder : IsOrder txg_less
unfolding txg_less
txg_less-IsOrder = record { asymm = λ a b h. ground arith; trans = λ a b c h k. ground arith }

abbrev by_txg : SliceSort txg_less
by_txg = stable_SliceSort txg_less txg_less-IsOrder

abbrev parse : String → Option ℤ
parse s = if str_eq s "never" then none else if str_eq s "late" then some (pos 9) else some (pos 5)

abbrev version : ℕ → String → FilesystemVersion
version n date = record { type = snapshot; name = "s"; guid = n; create_txg = n; creation = date }

abbrev versions : List FilesystemVersion
versions = version 3 "late" ∷ version 1 "now" ∷ version 2 "now" ∷ []

abbrev rules : List KeepRule
rules = keep_not_replicated ∷ keep_last_n 1 any_name ∷ []

abbrev listed : List Filesystem
listed =
    record { path = "p"; is_placeholder = true }
    ∷ record { path = "d"; is_placeholder = false }
    ∷ []

abbrev all_destroyed : List FilesystemVersion → List DestroyRes
all_destroyed [] = []
all_destroyed (v ∷ vs) = record { snapshot = version 1 "now"; error = "" } ∷ all_destroyed vs

abbrev sides : Sides
sides = record {
  sender_filesystems = ok listed;
  target_filesystems = ok listed;
  target_versions = λ path. ok versions;
  replication_cursor = λ path. ok (record { guid = 2; notexist = false });
  destroy_snapshots = λ log r. ok (all_destroyed r.snapshots);
}

abbrev snap : ℕ → ℕ → ℤ → Bool → Snap
snap i n date replicated = record {
  position = i;
  replicated = replicated;
  date = date;
  fsv = version n (if n == 3 then "late" else "now");
}

abbrev placeholder_fs : Fs
placeholder_fs = record (new_fs "p") { skip_reason = skip_placeholder }

abbrev planned_fs : Fs
planned_fs = record (new_fs "d") {
  snaps = snap 0 1 (pos 5) true ∷ snap 1 2 (pos 5) false ∷ snap 2 3 (pos 9) false ∷ [];
  destroy_list = snap 0 1 (pos 5) true ∷ [];
}

abbrev asked : DestroyReq
asked = record { filesystem = "d"; snapshots = version 1 "now" ∷ [] }

abbrev completed : Queue
completed = record { pending = []; completed = planned_fs ∷ placeholder_fs ∷ [] }

-- "d" is executed before "p", and only its oldest snapshot is requested.
abbrev pruned : Pruner
pruned = record {
  state = done;
  error = none;
  exec_queue = some completed;
  requests = record { filesystem = "p"; snapshots = [] } ∷ asked ∷ [];
}

prunes : do_one_attempt by_txg stable_last parse rules false sides ≡ some pruned
unfolding do_one_attempt plan_all plan_snapshots slice_stable prune_snapshots apply_rule last_n_less
    txg_less string_less at_position last_error
prunes = refl

do_one_attempt-IsJustified_example : All (IsJustified parse sides rules) pruned.requests
do_one_attempt-IsJustified_example =
    do_one_attempt-IsJustified by_txg stable_last parse rules false sides pruned prunes

scan_runs :
    scan_snapshots parse false 2 0 true (version 1 "now" ∷ version 2 "now" ∷ [])
    ≡ scanned (snap 0 1 (pos 5) true ∷ snap 1 2 (pos 5) false ∷ []) false
unfolding scan_snapshots
scan_runs = refl

scan_snapshots-replicated_example :
    All
      (λ (s : Snap).
        IsOlder parse false 2 (version 1 "now" ∷ version 2 "now" ∷ []) s.fsv → s.replicated ≡ true)
      (snap 0 1 (pos 5) true ∷ snap 1 2 (pos 5) false ∷ [])
unfolding txg_less
scan_snapshots-replicated_example =
    scan_snapshots-replicated parse false 2 0 (version 1 "now" ∷ version 2 "now" ∷ []) _ false
      ((refl, tt), (tt, tt)) scan_runs

scan_snapshots-panics_example :
    scan_snapshots parse false 2 0 true (version 1 "now" ∷ version 2 "never" ∷ []) ≡ scan_panic
scan_snapshots-panics_example =
    scan_snapshots-panics parse false 2 0 true (version 1 "now" ∷ version 2 "never" ∷ []) 1
      (version 2 "never") refl refl refl
