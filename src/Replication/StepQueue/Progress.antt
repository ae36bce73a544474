-- ===== src/Replication/StepQueue/Progress.antt =====
-- The queue cannot get stuck.
use zrepl.Prelude.{
  ℕ, zero, suc, ◌-◌, ◌≤◌, ◌<◌, ◌≡◌, ◌≢◌, refl, subst, ◌⊎◌, inl, inr, true, false, none, some, List,
  [], ◌∷◌, get_elem?, length, ltb, ltb→ge, lt→ltb, ◌==◌, arith, Bool-cases, Option-cases,
}
use zrepl.Replication.StepQueue.{
  Req, Queue, Heap, is_waiting, is_empty, submit, wait, wake, complete, submitted, woken, waited,
  completed, halted, Reachable, started, then_step, delete, remove_at,
}
use zrepl.Replication.StepQueue.Invariant.{IsQueue, Reachable-IsQueue}

module _ (heap : Heap) (concurrency : ℕ) where
  -- While the "wake" goroutine sleeps, it has nothing to do.
  IsAlert : Queue → Type 0
  IsAlert q = q.asleep ≡ true → (concurrency ≤ q.active) ⊎ (q.pending ≡ [])

  awake : (q : Queue) → q.asleep ≡ false → IsAlert q
  unfolding IsAlert
  awake q h s = cc

  submit-awake : (r : Req) (q q' : Queue) → submit r q ≡ some q' → q'.asleep ≡ false
  unfolding submit
  submit-awake r q q' h = elim (Bool-cases (r.target_date == 0)) [
    | inl e ↦ cc
    | inr e ↦ elim (Bool-cases (is_waiting r.ident q.waiting)) [
      | inl w ↦ cc
      | inr w ↦
          let made : record q {
            pending = r ∷ q.pending;
            waiting = r.ident ∷ q.waiting;
            asleep = false;
          }
              ≡ q' =
            cc in
          subst (λ x. x.asleep ≡ false) made refl
    ]
  ]

  wake-awake : (q q' : Queue) → wake heap concurrency q ≡ some q' → q'.asleep ≡ false
  unfolding wake
  wake-awake q q' h = elim (Option-cases (heap.pop q.pending)) [
    | inl e ↦ ground arith
    | inr ((next, rest), e) ↦ ground arith
  ]

  complete-awake : (i : ℕ) (q q' : Queue) → complete i q ≡ some q' → q'.asleep ≡ false
  unfolding complete
  complete-awake i q q' h = elim (Option-cases (get_elem? q.running i)) [
    | inl e ↦ cc
    | inr (r, e) ↦ ground arith
  ]

  no_request : (rs : List Req) → is_empty rs ≡ true → rs ≡ []
  no_request [] h = refl
  no_request (r ∷ rs) h = cc

  wait-IsAlert : (q q' : Queue) → wait concurrency q ≡ some q' → IsAlert q'
  unfolding wait IsAlert
  wait-IsAlert q q' h s = subst (λ x. (concurrency ≤ x.active) ⊎ (x.pending ≡ [])) made idle
    where
      made : record q { asleep = true } ≡ q'
      made = ground arith

      idle : (concurrency ≤ q.active) ⊎ (q.pending ≡ [])
      idle = elim (Bool-cases (ltb q.active concurrency)) [
        | inr full ↦ inl (ltb→ge _ _ full)
        | inl free ↦ elim (Bool-cases (is_empty q.pending)) [
          | inl e ↦ inr (no_request q.pending e)
          | inr e ↦ absurd (ground arith)
        ]
      ]

  Reachable-IsAlert : {q : Queue} → Reachable heap concurrency q → IsAlert q
  Reachable-IsAlert started = awake _ refl
  Reachable-IsAlert (then_step before (submitted r on h)) = awake _ (submit-awake r _ _ h)
  Reachable-IsAlert (then_step before (woken h)) = awake _ (wake-awake _ _ h)
  Reachable-IsAlert (then_step before (waited h)) = wait-IsAlert _ _ h
  Reachable-IsAlert (then_step before (completed i h)) = awake _ (complete-awake i _ _ h)
  Reachable-IsAlert (then_step before (halted q)) = awake _ refl

  CanWake : Queue → Type 0
  CanWake q = (q' : Queue) × (wake heap concurrency q ≡ some q')

  wakes :
      (q : Queue)
      → q.asleep ≡ false
      → q.stopped ≡ false
      → ltb q.active concurrency ≡ true
      → q.pending ≢ []
      → CanWake q
  unfolding wake CanWake
  wakes q up on free waits = elim (Option-cases (heap.pop q.pending)) [
    | inl e ↦ absurd (waits (heap.pop-none q.pending e))
    | inr ((next, rest), e) ↦ (
      record {
        pending = rest;
        waiting = delete next.ident q.waiting;
        stopped = q.stopped;
        asleep = false;
        active = suc q.active;
        running = next ∷ q.running;
      },
      cc,
    )
  ]

  in_range : (i : ℕ) (rs : List Req) → i < length rs → get_elem? rs i ≢ none
  in_range i [] lt e = omega (arith, lt)
  in_range zero (r ∷ rs) lt e = cc
  in_range (suc i) (r ∷ rs) lt e = in_range i rs (omega (arith, lt)) e

  -- The end of any running step wakes the next one.
  Frees : Queue → Type 0
  Frees q = (i : ℕ) → i < length q.running → (q' : Queue) × (complete i q ≡ some q') × CanWake q'

  frees :
      (q : Queue)
      → 0 < concurrency
      → q.active ≤ concurrency
      → q.stopped ≡ false
      → q.pending ≢ []
      → Frees q
  unfolding complete Frees
  frees q pos bound on waits i lt = elim (Option-cases (get_elem? q.running i)) [
    | inl e ↦ absurd (in_range i q.running lt e)
    | inr (r, e) ↦ (
      record q { active = q.active - 1; running = remove_at i q.running; asleep = false },
      rw (e, complete) refl,
      wakes _ refl on (lt→ltb _ _ (omega (arith, pos, bound))) waits,
    )
  ]

  -- While requests wait in a queue that has not been stopped, after any sequence of steps: the "wake"
  -- goroutine does not sleep and can wake the next one; or some step is running, and after the end
  -- of whichever of the running steps, the "wake" goroutine can wake the next one.
  pub Reachable-progress :
      (q : Queue)
      → 0 < concurrency
      → Reachable heap concurrency q
      → q.stopped ≡ false
      → q.pending ≢ []
      → ((q' : Queue) × (wake heap concurrency q ≡ some q'))
        ⊎ ((0 < length q.running)
            × ((i : ℕ)
                → i < length q.running
                → (q' : Queue) × (complete i q ≡ some q')
                  × ((q'' : Queue) × (wake heap concurrency q' ≡ some q''))))
  unfolding CanWake Frees IsAlert
  Reachable-progress q pos reached on waits = elim (Bool-cases (ltb q.active concurrency)) [
    | inr full ↦ inr (busy (ltb→ge _ _ full), frees q pos v.bounded on waits)
    | inl free ↦ elim (Bool-cases q.asleep) [
      | inr up ↦ inl (wakes q up on free waits)
      | inl down ↦ elim (Reachable-IsAlert reached down) [
        | inl full ↦ inr (busy full, frees q pos v.bounded on waits)
        | inr idle ↦ absurd (waits idle)
      ]
    ]
  ]
    where
      v : IsQueue concurrency q
      v = Reachable-IsQueue heap concurrency reached

      busy : concurrency ≤ q.active → 0 < length q.running
      busy full = omega (arith, pos, full, v.counted)
