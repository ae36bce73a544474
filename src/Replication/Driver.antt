-- ===== src/Replication/Driver.antt =====
-- replication/driver/replication_driver.go: one attempt. Each filesystem has a goroutine (fs.do), and
-- what it does while it holds the lock is one turn. Left out are the names of what it is blocked on,
-- which only reports show, and its waits for the step queue (StepQueue).
pub mod Turns
pub mod Sound
pub mod Turned
pub mod Attempt
pub mod Passed
pub mod Safety
pub mod Deadlock
pub mod Correlation
pub mod Report
pub mod Attempts
pub mod Retry
pub mod Recent
pub mod Ended
pub mod Global
use zrepl.Prelude.{
  ℕ, zero, suc, ◌+◌, ◌-◌, ◌<◌, ◌≡◌, Bool, true, false, not, ◌&&◌, ◌||◌, if◌then◌else◌, Option, none,
  some, List, [], ◌∷◌, length, take, drop, get_elem?, ltb, leb, ◌==◌, scan_down,
}
use zrepl.Zfs.DatasetPath.{DatasetPath, has_prefix, equal}

-- timedError; what net.Error and the gRPC library say of the error are its two tests.
pub record TimedError : Type 0 where
  pub error : ℕ
  pub is_timeout : Bool
  pub is_unavailable : Bool
  pub time : ℕ

-- The interface Step, as far as the driver decides by it.
pub record StepOps (S : Type 0) : Type 0 where
  pub target_equals : S → S → Bool
  pub is_incremental : S → Bool

-- Where the goroutine of a filesystem stands. `checking` is the loop over the parents: those that are
-- left, whether all so far are on the receiver, and those that failed. `sleeping` is the `select`.
pub data Phase : Type 0 where
  planning : Phase
  checking : (left : List ℕ) (all_present : Bool) (failed : List ℕ) → Phase
  sleeping : Phase
  stepping : Phase
  returned : Phase

abbrev pub is_returned : Phase → Bool
is_returned planning = false
is_returned (checking left all_present failed) = false
is_returned sleeping = false
is_returned stepping = false
is_returned returned = true

-- The type fs; `did_update` says whether the channel parentDidUpdate holds a wakeup.
pub record Fs (S : Type 0) : Type 0 where
  pub planning_done : Bool
  pub planning_err : Option TimedError
  pub steps : List S
  pub step : ℕ
  pub step_err : Option TimedError
  pub did_update : Bool
  pub phase : Phase

abbrev pub new_fs : {S : Type 0} → Fs S
new_fs = record {
  planning_done = false;
  planning_err = none;
  steps = [];
  step = 0;
  step_err = none;
  did_update = false;
  phase = planning;
}

abbrev pub is_some : {A : Type 0} → Option A → Bool
is_some none = false
is_some (some a) = true

module _ {S : Type 0} (ops : StepOps S) where
  abbrev pub hit_of : S → ℕ → Option S → Option ℕ
  hit_of p q none = none
  hit_of p q (some s) = if ops.target_equals p s then some q else none

  -- The inner loop over the current steps: the last one with the target of `p`.
  unfoldable pub match_current : List S → S → Option ℕ
  match_current steps p = scan_down (length steps) (λ q. hit_of p q (get_elem? steps q))

  abbrev pub match_of : List S → Option S → Option ℕ
  match_of steps none = none
  match_of steps (some p) = match_current steps p

  -- The outer loop over the uncompleted steps of the previous attempt.
  unfoldable pub correlate : List S → List S → Option ℕ
  unfolding match_current
  correlate uncompleted steps =
      scan_down (length uncompleted) (λ i. match_of steps (get_elem? uncompleted i))

  abbrev pub fail_planning : TimedError → Fs S → Fs S × Bool
  fail_planning e f = (record f { planning_err = some e; phase = returned }, true)

  -- planning.done is set, and the loop over the parents begins.
  abbrev pub await_parents : List ℕ → Fs S → Fs S × Bool
  await_parents parents f =
      (record f { planning_done = true; phase = checking parents true [] }, false)

  abbrev pub cut_plan : List ℕ → TimedError → List S → Fs S → Option ℕ → Fs S × Bool
  cut_plan parents e steps f none = fail_planning e (record f { steps = steps })
  cut_plan parents e steps f (some cur) =
      await_parents parents (record f { steps = take cur steps })

  -- After PlanFS has returned steps: the filesystem, and whether the goroutine leaves. `e` is the
  -- error for a plan that cannot be correlated.
  unfoldable pub after_plan : Option (Fs S) → List ℕ → TimedError → List S → Fs S → Fs S × Bool
  unfolding correlate
  after_plan none parents e steps f = await_parents parents (record f { steps = steps })
  after_plan (some prev) parents e steps f =
      if prev.planning_done && not (is_some prev.planning_err)
      then cut_plan parents e steps f (correlate (drop prev.step prev.steps) steps)
      else await_parents parents (record f { steps = steps })

  abbrev pub first_is_incremental : List S → Bool
  first_is_incremental [] = false
  first_is_incremental (s ∷ ss) = ops.is_incremental s

  abbrev pub has_no_steps : List S → Bool
  has_no_steps [] = true
  has_no_steps (s ∷ ss) = false

  -- parentHasPlanningDone
  abbrev pub has_planning_done : Fs S → Bool
  has_planning_done p = p.planning_done && not (is_some p.planning_err)

  -- parentPresentOnReceiver
  abbrev pub present_on_receiver : Fs S → Bool
  present_on_receiver p =
      has_no_steps p.steps
      || first_is_incremental p.steps
      || (not (has_no_steps p.steps) && leb 1 p.step)

  -- The parent `k`, as it is now, is inspected.
  unfoldable pub inspect_parent : Fs S → ℕ → List ℕ → Bool → List ℕ → Phase
  inspect_parent p k left all_present failed =
      if not (has_planning_done p)
      then checking left false (if is_some p.planning_err then k ∷ failed else failed)
      else checking left (all_present && present_on_receiver p)
          (if not (present_on_receiver p) && is_some p.step_err then k ∷ failed else failed)

  -- After all the parents have been inspected.
  abbrev pub after_parents : TimedError → Fs S → Bool → List ℕ → Fs S × Bool
  after_parents e f all_present (k ∷ failed) =
      (record f { step_err = some e; phase = returned }, true)
  after_parents e f true [] = (record f { phase = stepping }, false)
  after_parents e f false [] = (record f { phase = sleeping }, false)

-- The parents of the filesystem at `j` among those below `n`.
unfoldable pub parents_below : (ℕ → DatasetPath) → ℕ → ℕ → List ℕ
parents_below path j zero = []
parents_below path j (suc n) =
    let rest = parents_below path j n in
    if has_prefix (path j) (path n) && not (equal (path j) (path n)) then n ∷ rest else rest

abbrev pub among : ℕ → List ℕ → Bool
among i [] = false
among i (k ∷ ks) = if k == i then true else among i ks

-- The filesystems of an attempt, by their position in a.fss.
abbrev pub State : Type 0 → Type 0
State S = ℕ → Fs S

-- initialRepOrd.parents
abbrev pub parents : (ℕ → DatasetPath) → ℕ → ℕ → List ℕ
parents path n j = parents_below path j n

module _ {S : Type 0} (path : ℕ → DatasetPath) (n : ℕ) where
  -- initialRepOrdWakeupChildren
  unfoldable pub wake_children : ℕ → State S → State S
  wake_children i st j =
      if among i (parents path n j) then record (st j) { did_update = true } else st j

  abbrev pub set : ℕ → Fs S → State S → State S
  set i f st j = if j == i then f else st j

  -- The end of a turn of the filesystem at `i`, which may wake its children.
  unfoldable pub settle : ℕ → Fs S → Bool → State S → State S
  unfolding wake_children
  settle i f false st = set i f st
  settle i f true st = wake_children i (set i f st)
