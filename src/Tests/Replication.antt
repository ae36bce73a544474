-- ===== src/Tests/Replication.antt =====
-- Planning for a sender with three snapshots.
use mathlib.Core.List.Perm
use zrepl.Prelude.{
  ℕ, ◌≡◌, ◌↔◌, refl, true, false, none, some, List, [], ◌∷◌, ok, err, SliceSort, stable_SliceSort,
  slice_stable, slice_is_sorted, scan_down, ◌⊎◌, keep_if,
}
use zrepl.Replication.Version.{
  FilesystemVersion, snapshot, bookmark, version_less, strip_bookmarks, is_snapshot,
}
use zrepl.Replication.Version.Order.{version_less-IsOrder}
use zrepl.Replication.Diff.{
  diverged, most_recent_snapshot_already_present, match_at, find_candidate, extend_path, path_from,
  sort_version_list, incremental_path,
}
use zrepl.Replication.Diff.Path.{IsIncrementalPath, incremental_path-IsIncrementalPath}
use zrepl.Replication.Diff.Conflicts.{
  Justifies, incremental_path-Justifies, incremental_path_possible,
}
use zrepl.Replication.Planner.{
  ResumeToken, Step, new_step, most_recent, all_snapshots, panicked, plan_resumed, plan_incremental,
}
use zrepl.Replication.Planner.Steps.{IsChain}
use zrepl.Replication.Planner.Resume.{IsResumption, plan_resumed-IsResumption}
use zrepl.Replication.Planner.Initial.{
  IsInitial, IsInitialPlan, plan_incremental-all, plan_incremental-only_bookmarks,
}
use zrepl.Replication.Planner.Planning.{Answers, Arrival, size, do_planning, with_estimates}
use zrepl.Replication.Planner.Planning.Outcome.{
  SameSteps, do_planning-IsChain, with_estimates-SameSteps,
}
use zrepl.Replication.Planner.Replicate.{
  Endpoints, sent, do_replication, IsComplete, do_replication-IsComplete,
}

abbrev version : ℕ → FilesystemVersion
version n = record { type = snapshot; name = "s"; guid = n; create_txg = n; creation = "" }

abbrev mark : ℕ → FilesystemVersion
mark n = record { type = bookmark; name = "b"; guid = n; create_txg = n; creation = "" }

abbrev stable : SliceSort version_less
stable = stable_SliceSort version_less version_less-IsOrder

-- The receiver has the first snapshot; the sender's list is not sorted.
abbrev sender : List FilesystemVersion
sender = version 3 ∷ version 1 ∷ mark 2 ∷ version 2 ∷ []

abbrev receiver : List FilesystemVersion
receiver = version 1 ∷ mark 1 ∷ []

path_runs : incremental_path stable receiver sender ≡ ok (version 1 ∷ version 2 ∷ version 3 ∷ [])
unfolding incremental_path sort_version_list slice_is_sorted slice_stable version_less
    strip_bookmarks find_candidate scan_down match_at path_from extend_path
path_runs = refl

incremental_path-IsIncrementalPath_example :
    IsIncrementalPath
      (sort_version_list stable (strip_bookmarks receiver))
      (sort_version_list stable sender)
      (version 1 ∷ version 2 ∷ version 3 ∷ [])
incremental_path-IsIncrementalPath_example =
    incremental_path-IsIncrementalPath stable receiver sender _ path_runs

-- The receiver has a snapshot that the sender does not know.
abbrev stray : List FilesystemVersion
stray = version 1 ∷ version 7 ∷ []

diverged_runs :
    incremental_path stable stray (version 1 ∷ version 2 ∷ [])
    ≡ err
        (diverged (version 1 ∷ version 2 ∷ []) stray (version 1) (version 2 ∷ []) (version 7 ∷ []))
unfolding incremental_path sort_version_list slice_is_sorted slice_stable version_less
    strip_bookmarks find_candidate scan_down match_at path_from extend_path
diverged_runs = refl

incremental_path-Justifies_example :
    Justifies
      (sort_version_list stable (strip_bookmarks stray))
      (sort_version_list stable (version 1 ∷ version 2 ∷ []))
      (diverged (version 1 ∷ version 2 ∷ []) stray (version 1) (version 2 ∷ []) (version 7 ∷ []))
incremental_path-Justifies_example =
    incremental_path-Justifies stable stray (version 1 ∷ version 2 ∷ []) _ diverged_runs

incremental_path_possible_example :
    ((path : List FilesystemVersion) × (incremental_path stable receiver sender ≡ ok path))
    ⊎ ((a : FilesystemVersion) × (incremental_path stable receiver sender
          ≡ err (
              most_recent_snapshot_already_present
                (sort_version_list stable sender)
                (sort_version_list stable (strip_bookmarks receiver))
                a)))
unfolding sort_version_list slice_is_sorted slice_stable version_less strip_bookmarks
incremental_path_possible_example =
    incremental_path_possible stable receiver sender 0 (version 1) (version 1) refl refl refl

abbrev token : ResumeToken
token = record { has_from_guid = true; has_to_guid = true; from_guid = 1; to_guid = 2 }

abbrev resumed : List Step
resumed =
    new_step (some (version 1)) (some (version 2)) "tok"
    ∷ new_step (some (version 2)) (some (version 3)) ""
    ∷ []

resumed_runs : plan_resumed stable "tok" token sender ≡ ok resumed
unfolding plan_resumed sort_version_list slice_is_sorted slice_stable version_less
resumed_runs = refl

plan_resumed-IsResumption_example :
    IsResumption "tok" token (sort_version_list stable sender) resumed
plan_resumed-IsResumption_example =
    plan_resumed-IsResumption stable "tok" token sender resumed resumed_runs

initial : IsInitial [] sender
unfolding strip_bookmarks
initial = record { nothing_received = refl; something_to_send = λ e. cc }

only_marks : IsInitial (mark 4 ∷ []) (mark 2 ∷ [])
unfolding strip_bookmarks
only_marks = record { nothing_received = refl; something_to_send = λ e. cc }

plan_incremental-all_example :
    (steps : List Step) × (plan_incremental stable all_snapshots [] sender ≡ ok steps)
    × IsInitialPlan steps (keep_if is_snapshot (sort_version_list stable sender))
unfolding sort_version_list slice_is_sorted slice_stable version_less
plan_incremental-all_example = plan_incremental-all stable [] sender initial (λ e. cc)

plan_incremental-only_bookmarks_example :
    (plan_incremental stable all_snapshots (mark 4 ∷ []) (mark 2 ∷ []) ≡ err panicked)
    × (plan_incremental stable most_recent (mark 4 ∷ []) (mark 2 ∷ [])
        ≡ ok (new_step none none "" ∷ []))
unfolding sort_version_list slice_is_sorted
plan_incremental-only_bookmarks_example =
    plan_incremental-only_bookmarks stable (mark 4 ∷ []) (mark 2 ∷ []) only_marks refl

-- The sizes are known, and errors arrive in the order of the steps.
abbrev answers : Answers
answers = record {
  sender_versions = ok sender;
  receiver_fs = some (record { path = "tank/a"; resume_token = "tok"; is_placeholder = false });
  receiver_versions = ok receiver;
  parse_resume_token = λ raw. ok token;
  send_dry = λ s. size 9;
}

abbrev in_order : Arrival
in_order = record { arrive = λ es. es; arrive-perm = λ es. Perm.refl es }

abbrev sized : List Step
sized =
    record {
      from = some (version 1);
      to = some (version 2);
      resume_token = "tok";
      expected_size = 9;
    }
    ∷ record {
      from = some (version 2);
      to = some (version 3);
      resume_token = "";
      expected_size = 9;
    }
    ∷ []

planning_runs : do_planning stable most_recent in_order answers ≡ ok sized
unfolding do_planning plan_resumed sort_version_list slice_is_sorted slice_stable version_less
planning_runs = refl

do_planning-IsChain_example : IsChain sized
do_planning-IsChain_example =
    do_planning-IsChain stable most_recent in_order answers sized planning_runs

estimates_run : with_estimates in_order (λ s. size 9) resumed ≡ ok sized
unfolding with_estimates
estimates_run = refl

with_estimates-SameSteps_example : SameSteps (λ s. size 9) resumed sized
with_estimates-SameSteps_example =
    (with_estimates-SameSteps in_order (λ s. size 9) resumed sized estimates_run).0

-- The replication config and the stream are numbers here.
abbrev willing : Endpoints ℕ ℕ
willing = record {
  on_send = λ r. sent (record { used_resume_token = false; stream = some 3 });
  on_receive = λ r stream. true;
  on_send_completed = λ r. true;
}

abbrev first_step : Step
first_step = new_step none (some (version 1)) ""

do_replication-IsComplete_example :
    ((do_replication willing "tank/a" 7 first_step).error ≡ none)
    ↔ IsComplete willing "tank/a" 7 first_step (do_replication willing "tank/a" 7 first_step)
do_replication-IsComplete_example = do_replication-IsComplete willing "tank/a" 7 first_step

replication_runs : (do_replication willing "tank/a" 7 first_step).error ≡ none
unfolding do_replication
replication_runs = refl
