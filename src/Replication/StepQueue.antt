-- ===== src/Replication/StepQueue.antt =====
-- replication/driver/replication_stepqueue.go: at most `concurrency` steps run at a time, the ones
-- with the earliest date first. The goroutines take turns under one lock, so what each does while
-- it holds the lock is one step. container/heap is a parameter.
pub mod Invariant
pub mod Progress
use zrepl.Prelude.{
  ℕ, zero, suc, ◌-◌, ◌≤◌, ◌≡◌, Bool, true, false, not, ◌&&◌, if◌then◌else◌, Option, none, some,
  List, [], ◌∷◌, map, get_elem?, keep_if, Perm, All, ltb, ◌==◌,
}

-- stepQueueRec; a date is a number, and 0 the zero date.
pub record Req : Type 0 where
  pub ident : ℕ
  pub target_date : ℕ

-- `waiting` are the keys of queueItems; `running` are the requests whose StepCompletedFunc has not
-- been called yet. While `asleep`, the "wake" goroutine is in pendingCond.Wait; after a Broadcast it
-- runs on as soon as it has the lock again.
pub record Queue : Type 0 where
  pub pending : List Req
  pub waiting : List ℕ
  pub stopped : Bool
  pub asleep : Bool
  pub active : ℕ
  pub running : List Req

abbrev pub empty_queue : Queue
empty_queue = record {
  pending = [];
  waiting = [];
  stopped = false;
  asleep = false;
  active = 0;
  running = [];
}

-- heap.Pop takes out a least element.
pub record Heap : Type 0 where
  pub pop : List Req → Option (Req × List Req)
  pub pop-none : (rs : List Req) → pop rs ≡ none → rs ≡ []
  pub pop-perm :
      (rs : List Req) (r : Req) (rest : List Req) → pop rs ≡ some (r, rest) → Perm (r ∷ rest) rs
  pub pop-least :
      (rs : List Req) (r : Req) (rest : List Req)
      → pop rs ≡ some (r, rest)
      → All (λ (q : Req). r.target_date ≤ q.target_date) rest

unfoldable pub is_waiting : ℕ → List ℕ → Bool
is_waiting i [] = false
is_waiting i (k ∷ ks) = if k == i then true else is_waiting i ks

-- WaitReady, up to the point where the request is queued; `none` is a panic.
unfoldable pub submit : Req → Queue → Option Queue
unfolding is_waiting
submit r q =
    if r.target_date == 0
    then none
    else if is_waiting r.ident q.waiting
    then none
    else some (record q { pending = r ∷ q.pending; waiting = r.ident ∷ q.waiting; asleep = false })

-- delete(queueItems, ident)
abbrev pub delete : ℕ → List ℕ → List ℕ
delete i ks = keep_if (λ k. not (k == i)) ks

abbrev pub is_empty : List Req → Bool
is_empty [] = true
is_empty (r ∷ rs) = false

-- The "wake" goroutine goes to sleep in pendingCond.Wait; `none` if it does not.
unfoldable pub wait : ℕ → Queue → Option Queue
wait concurrency q =
    if q.asleep
    then none
    else if q.stopped
    then none
    else if ltb q.active concurrency && not (is_empty q.pending)
    then none
    else some (record q { asleep = true })

-- One round of the "wake" goroutine; `none` while it sleeps, or goes to sleep, or has returned.
unfoldable pub wake : Heap → ℕ → Queue → Option Queue
wake heap concurrency q =
    if q.asleep
    then none
    else if q.stopped
    then none
    else if not (ltb q.active concurrency)
    then none
    else elim (heap.pop q.pending) [
      | none ↦ none
      | some (next, rest) ↦ some (record {
        pending = rest;
        waiting = delete next.ident q.waiting;
        stopped = q.stopped;
        asleep = false;
        active = suc q.active;
        running = next ∷ q.running;
      })
    ]

abbrev pub remove_at : ℕ → List Req → List Req
remove_at i [] = []
remove_at zero (r ∷ rs) = rs
remove_at (suc i) (r ∷ rs) = r ∷ remove_at i rs

-- The StepCompletedFunc of the running request at `i`.
unfoldable pub complete : ℕ → Queue → Option Queue
complete i q = elim (get_elem? q.running i) [
  | none ↦ none
  | some r ↦
      some (record q { active = q.active - 1; running = remove_at i q.running; asleep = false })
]

-- The "stopper" goroutine.
abbrev pub stop : Queue → Queue
stop q = record q { stopped = true; asleep = false }

-- A step of any of the goroutines; no request comes after the queue has been stopped.
pub data Step (heap : Heap) (concurrency : ℕ) : Queue → Queue → Type 0 where
  submitted :
      {q q' : Queue} (r : Req)
      → q.stopped ≡ false
      → submit r q ≡ some q'
      → Step heap concurrency q q'
  woken : {q q' : Queue} → wake heap concurrency q ≡ some q' → Step heap concurrency q q'
  waited : {q q' : Queue} → wait concurrency q ≡ some q' → Step heap concurrency q q'
  completed : {q q' : Queue} (i : ℕ) → complete i q ≡ some q' → Step heap concurrency q q'
  halted : (q : Queue) → Step heap concurrency q (stop q)

pub data Reachable (heap : Heap) (concurrency : ℕ) : Queue → Type 0 where
  started : Reachable heap concurrency empty_queue
  then_step :
      {q q' : Queue}
      → Reachable heap concurrency q
      → Step heap concurrency q q'
      → Reachable heap concurrency q'
