-- ===== src/Tests/StepQueue.antt =====
-- A queue of three steps of which two may run at a time; the heap is a sorted list.
use zrepl.Prelude.{
  ℕ, ◌≤◌, ◌<◌, ◌≡◌, ◌⊎◌, refl, subst, Bool, true, false, Option, none, some, List, [], ◌∷◌, Perm,
  All, All-map, ltb, arith, SliceSort, stable_SliceSort, IsOrder, IsSorted, length, length-perm,
  slice_stable,
}
use zrepl.Replication.StepQueue.{
  Req, Queue, Heap, submit, wait, wake, complete, submitted, woken, Reachable, started, then_step,
}
use zrepl.Replication.StepQueue.Invariant.{IsQueue, Reachable-IsQueue}
use zrepl.Replication.StepQueue.Progress.{Reachable-progress}

abbrev earlier : Req → Req → Bool
earlier a b = ltb a.target_date b.target_date

earlier-IsOrder : IsOrder earlier
earlier-IsOrder = record { asymm = λ a b h. ground arith; trans = λ a b c h k. ground arith }

abbrev by_date : SliceSort earlier
by_date = stable_SliceSort earlier earlier-IsOrder

abbrev first_of : List Req → Option (Req × List Req)
first_of [] = none
first_of (r ∷ rs) = some (r, rs)

first_of-none : (rs ss : List Req) → Perm ss rs → first_of ss ≡ none → rs ≡ []
first_of-none [] ss p h = refl
first_of-none (r ∷ rs) [] p h = absurd (omega (arith, length-perm [] (r ∷ rs) p))
first_of-none (r ∷ rs) (s ∷ ss) p h = cc

first_of-perm :
    (rs ss : List Req) (r : Req) (rest : List Req)
    → Perm ss rs
    → first_of ss ≡ some (r, rest)
    → Perm (r ∷ rest) rs
first_of-perm rs [] r rest p h = cc
first_of-perm rs (s ∷ ss) r rest p h =
    let same : s ∷ ss ≡ r ∷ rest = cc in subst (λ xs. Perm xs rs) same p

first_of-least :
    (ss : List Req) (r : Req) (rest : List Req)
    → IsSorted earlier ss
    → first_of ss ≡ some (r, rest)
    → All (λ (q : Req). r.target_date ≤ q.target_date) rest
first_of-least [] r rest s h = cc
first_of-least (x ∷ ss) r rest s h =
    let same : x ∷ ss ≡ r ∷ rest = cc in
    let sorted : IsSorted earlier (r ∷ rest) = subst (IsSorted earlier) same s in
    All-map (λ q e. ground arith) rest sorted.0

abbrev heap : Heap
heap = record {
  pop = λ rs. first_of (by_date.sort rs);
  pop-none = λ rs. first_of-none rs (by_date.sort rs) (by_date.sort-perm rs);
  pop-perm = λ rs r rest. first_of-perm rs (by_date.sort rs) r rest (by_date.sort-perm rs);
  pop-least = λ rs r rest. first_of-least (by_date.sort rs) r rest (by_date.sort-IsSorted rs);
}

abbrev req : ℕ → ℕ → Req
req i d = record { ident = i; target_date = d }

abbrev two_waiting : Queue
two_waiting = record {
  pending = req 2 20 ∷ req 1 30 ∷ [];
  waiting = 2 ∷ 1 ∷ [];
  stopped = false;
  asleep = false;
  active = 0;
  running = [];
}

abbrev one_running : Queue
one_running = record {
  pending = req 1 30 ∷ [];
  waiting = 1 ∷ [];
  stopped = false;
  asleep = false;
  active = 1;
  running = req 2 20 ∷ [];
}

wakes_earliest : wake heap 2 two_waiting ≡ some one_running
unfolding wake slice_stable
wakes_earliest = refl

reached_two : Reachable heap 2 two_waiting
unfolding submit
reached_two =
    then_step (then_step started (submitted (req 1 30) refl refl)) (submitted (req 2 20) refl refl)

reached_one : Reachable heap 2 one_running
reached_one = then_step reached_two (woken wakes_earliest)

Reachable-IsQueue_example : IsQueue 2 one_running
Reachable-IsQueue_example = Reachable-IsQueue heap 2 reached_one

Reachable-progress_example :
    ((q' : Queue) × (wake heap 2 one_running ≡ some q'))
    ⊎ ((0 < length one_running.running)
        × ((i : ℕ)
            → i < length one_running.running
            → (q' : Queue) × (complete i one_running ≡ some q')
              × ((q'' : Queue) × (wake heap 2 q' ≡ some q''))))
Reachable-progress_example =
    Reachable-progress heap 2 one_running (omega arith) reached_one refl (λ h. cc)

-- With one slot, the goroutine sleeps until the running step ends.
abbrev sleeping : Queue
sleeping = record one_running { asleep = true }

falls_asleep : wait 1 one_running ≡ some sleeping
unfolding wait
falls_asleep = refl

sleeps : wake heap 1 sleeping ≡ none
unfolding wake
sleeps = refl

wakes_up :
    complete 0 sleeping ≡ some (record one_running { active = 0; running = []; asleep = false })
unfolding complete
wakes_up = refl
