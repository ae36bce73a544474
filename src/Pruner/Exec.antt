-- ===== src/Pruner/Exec.antt =====
-- doOneAttemptExec and doOneAttempt in daemon/pruner/pruner.go. `none` is a panic.
use Prim.Native.String.{String, ◌++◌ as cat}
use zrepl.Prelude.{
  ℕ, zero, suc, Bool, true, false, not, ◌&&◌, ◌||◌, if◌then◌else◌, Option, none, some, List, [],
  ◌∷◌, map, length, ℤ, str_eq, SliceSort, Result, err, ok,
}
use zrepl.Replication.Version.{FilesystemVersion}
use zrepl.Pruning.Rules.{last_n_less, KeepRule}
use zrepl.Pruner.{
  Snap, Fs, Filesystem, DestroyReq, DestroyRes, Sides, is_not_skipped, rel_name, last_error,
}
use zrepl.Pruner.Plan.{txg_less, plan_all}
use zrepl.Pruner.Queue.{Queue, new_exec_queue, pop, put, is_some}

-- State
pub data State : Type 0 where
  plan plan_err exec exec_err done : State

abbrev pub is_terminal : State → Bool
is_terminal plan = false
is_terminal plan_err = true
is_terminal exec = false
is_terminal exec_err = true
is_terminal done = true

-- Pruner, with the requests that DestroySnapshots has got, the latest first.
pub record Pruner : Type 0 where
  pub state : State
  pub error : Option String
  pub exec_queue : Option Queue
  pub requests : List DestroyReq

abbrev pub new_pruner : Pruner
new_pruner = record { state = plan; error = none; exec_queue = none; requests = [] }

-- destroyResults[name]: of the results with the name, the last one.
unfoldable pub result_of : String → List DestroyRes → Option DestroyRes
result_of name [] = none
result_of name (r ∷ rs) = elim (result_of name rs) [
  | some later ↦ some later
  | none ↦ if str_eq r.snapshot.name name then some r else none
]

-- How the loop over the destroy list ends.
pub data Checked : Type 0 where
  all_found : (fails : List DestroyRes) → Checked
  missing : (v : FilesystemVersion) → Checked

abbrev pub add_fail : DestroyRes → Checked → Checked
add_fail r (all_found fails) = all_found (r ∷ fails)
add_fail r (missing v) = missing v

unfoldable pub check_results : List DestroyRes → List FilesystemVersion → Checked
unfolding result_of
check_results results [] = all_found []
check_results results (v ∷ vs) = elim (result_of v.name results) [
  | none ↦ missing v
  | some r ↦
      let rest = check_results results vs in if str_eq r.error "" then rest else add_fail r rest
]

-- strings.Join
abbrev pub join : String → List String → String
join sep [] = ""
join sep (s ∷ []) = s
join sep (s ∷ t ∷ ts) = cat s (cat sep (join sep (t ∷ ts)))

abbrev pub all_same : String → List DestroyRes → Bool
all_same msg [] = true
all_same msg (r ∷ rs) = str_eq r.error msg && all_same msg rs

module _ (parse : String → Option ℤ) where
  -- `names` of the failed destroys
  unfoldable pub fail_names : List DestroyRes → Option (List String)
  unfolding rel_name
  fail_names [] = some []
  fail_names (r ∷ rs) = elim (rel_name parse r.snapshot) [
    | none ↦ none
    | some n ↦ elim (fail_names rs) [ none ↦ none | some ns ↦ some (n ∷ ns) ]
  ]

  -- `pairs`
  abbrev pub fail_pairs : List DestroyRes → List String → List String
  fail_pairs [] ns = []
  fail_pairs (r ∷ rs) [] = []
  fail_pairs (r ∷ rs) (n ∷ ns) = cat "(" (cat n (cat ": " (cat r.error ")"))) ∷ fail_pairs rs ns

  abbrev pub fail_message : DestroyRes → List DestroyRes → List String → String
  fail_message r rs names =
      if all_same r.error (r ∷ rs)
      then cat "destroys failed " (cat (join ", " names) (cat ": " r.error))
      else cat "destroys failed: " (join ", " (fail_pairs (r ∷ rs) names))

  -- The error after the loop; the outer `none` is a panic.
  unfoldable pub exec_error : Checked → Option (Option String)
  unfolding fail_names
  exec_error (missing v) = elim (rel_name parse v) [
    | none ↦ none
    | some n ↦ some (some (cat "missing destroy-result for " n))
  ]
  exec_error (all_found []) = some none
  exec_error (all_found (r ∷ rs)) = elim (fail_names (r ∷ rs)) [
    | none ↦ none
    | some names ↦ some (some (fail_message r rs names))
  ]

  abbrev pub request : Fs → DestroyReq
  request f = record { filesystem = f.path; snapshots = map (λ (s : Snap). s.fsv) f.destroy_list }

  -- doOneAttemptExec on a filesystem taken from the queue: the queue after it.
  unfoldable pub exec_result : Fs → Queue → Result String (List DestroyRes) → Option Queue
  unfolding put check_results exec_error
  exec_result f q (err e) = some (put f (some e) false q)
  exec_result f q (ok results) = elim (exec_error (check_results results (request f).snapshots)) [
    | none ↦ none
    | some e ↦ some (put f e (not (is_some e)) q)
  ]

  -- The loop that executes the queue, at most `fuel` times; it has run out when `exec` is left.
  unfoldable pub exec_loop :
      (List DestroyReq → DestroyReq → Result String (List DestroyRes))
      → (fuel : ℕ) → List DestroyReq
      → Queue
      → Option (List DestroyReq × Queue)
  unfolding pop exec_result
  exec_loop destroy zero log q = none
  exec_loop destroy (suc fuel) log q = elim (pop q) [
    | none ↦ some (log, q)
    | some (f, q') ↦ elim (exec_result f q' (destroy log (request f))) [
      | none ↦ none
      | some q'' ↦ exec_loop destroy fuel (request f ∷ log) q''
    ]
  ]

-- The loop that fills the queue.
abbrev pub put_all : List Fs → Queue → Queue
put_all [] q = q
put_all (f ∷ fs) q = put_all fs (put f none false q)

-- hadErr, over the reports of the completed filesystems
abbrev pub had_err : List Fs → Bool
had_err [] = false
had_err (f ∷ fs) = (is_not_skipped f.skip_reason && not (str_eq (last_error f) "")) || had_err fs

-- The final state; filesystems that are still pending are a panic.
unfoldable pub finish_queue : List DestroyReq → Queue → List Fs → Option Pruner
finish_queue log q (f ∷ fs) = none
finish_queue log q [] = some (record {
  state = if had_err q.completed then exec_err else done;
  error = none;
  exec_queue = some q;
  requests = log;
})

abbrev pub finish : List DestroyReq × Queue → Option Pruner
finish (log, q) = finish_queue log q q.pending

abbrev pub attempt_ran : Option (List DestroyReq × Queue) → Option Pruner
attempt_ran none = none
attempt_ran (some out) = finish out

-- From the queue on, after the planning. One round of the loop for each filesystem, and one to see
-- that the queue is empty, are enough.
unfoldable pub attempt_planned : (String → Option ℤ) → Sides → Option (List Fs) → Option Pruner
unfolding put exec_loop finish_queue
attempt_planned parse sides none = none
attempt_planned parse sides (some pfss) =
    attempt_ran
      (exec_loop parse sides.destroy_snapshots (suc (length pfss)) [] (put_all pfss new_exec_queue))

module _ (slice_versions : SliceSort txg_less) (slice : SliceSort last_n_less)
    (parse : String → Option ℤ) (rules : List KeepRule) (consider : Bool) (sides : Sides) where
  -- From the target's list of filesystems on.
  unfoldable pub attempt_target : List Filesystem → Result String (List Filesystem) → Option Pruner
  unfolding plan_all attempt_planned
  attempt_target sfss (err e) = some (record new_pruner { state = plan_err; error = some e })
  attempt_target sfss (ok tfss) =
      attempt_planned parse sides
        (plan_all slice_versions slice parse rules consider sides sfss tfss)

  -- From the sender's list of filesystems on.
  unfoldable pub attempt_sender : Result String (List Filesystem) → Option Pruner
  unfolding attempt_target
  attempt_sender (err e) = some (record new_pruner { state = plan_err; error = some e })
  attempt_sender (ok sfss) = attempt_target sfss sides.target_filesystems

  -- doOneAttempt on a new pruner
  unfoldable pub do_one_attempt : Option Pruner
  unfolding attempt_sender
  do_one_attempt = attempt_sender sides.sender_filesystems
