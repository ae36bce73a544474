-- ===== src/Replication/StepQueue/Invariant.antt =====
-- What holds of the queue after any sequence of steps.
use zrepl.Prelude.{
  ℕ, zero, suc, ◌+◌, ◌-◌, ◌≤◌, ◌<◌, ◌≡◌, refl, ap, subst, ◌⊎◌, inl, inr, true, false, if◌then◌else◌,
  Option, none, some, List, [], ◌∷◌, get_elem?, length, Perm, All, ltb, ◌==◌, ==→eq, count_if,
  count_if-perm, one, arith, Bool-cases, Option-cases,
}
use zrepl.Replication.StepQueue.{
  Req, Queue, empty_queue, Heap, is_waiting, submit, delete, wait, wake, remove_at, complete,
  submitted, woken, waited, completed, halted, Reachable, started, then_step,
}

abbrev pub with_ident : ℕ → List Req → ℕ
with_ident i rs = count_if (λ (r : Req). r.ident == i) rs

-- No more steps run than allowed, and `active` counts them; queueItems holds exactly the
-- identities of the requests that wait, each of them once.
pub record IsQueue (concurrency : ℕ) (q : Queue) : Type 0 where
  pub bounded : q.active ≤ concurrency
  pub counted : q.active ≡ length q.running
  pub indexed : (i : ℕ) → count_if (λ k. k == i) q.waiting ≡ with_ident i q.pending
  pub distinct : (i : ℕ) → with_ident i q.pending ≤ 1

not_waiting : (i : ℕ) (ks : List ℕ) → is_waiting i ks ≡ false → count_if (λ k. k == i) ks ≡ 0
unfolding is_waiting
not_waiting i [] h = refl
not_waiting i (k ∷ ks) h = elim (Bool-cases (k == i)) [
  | inl e ↦ cc
  | inr e ↦ rw e (omega (arith, not_waiting i ks (rw e at h)))
]

delete_other :
    (d i : ℕ) (ks : List ℕ)
    → (d == i) ≡ false
    → count_if (λ k. k == i) (delete d ks) ≡ count_if (λ k. k == i) ks
delete_other d i [] h = refl
delete_other d i (k ∷ ks) h = elim (Bool-cases (k == d)) [
  | inl e ↦
      let same : k ≡ d = ==→eq k d e in
      let off : (k == i) ≡ false = rw same h in rw (e, off) (omega (arith, delete_other d i ks h))
  | inr e ↦ rw e (omega (arith, delete_other d i ks h))
]

delete_same : (d : ℕ) (ks : List ℕ) → count_if (λ k. k == d) (delete d ks) ≡ 0
delete_same d [] = refl
delete_same d (k ∷ ks) = elim (Bool-cases (k == d)) [
  | inl e ↦ rw e (delete_same d ks)
  | inr e ↦ rw (e, e) (omega (arith, delete_same d ks))
]

length-remove_at :
    (i : ℕ) (rs : List Req) (r : Req)
    → get_elem? rs i ≡ some r
    → length (remove_at i rs) ≡ length rs - 1
length-remove_at i [] r h = cc
length-remove_at zero (q ∷ rs) r h = omega arith
length-remove_at (suc i) (q ∷ rs) r h = omega (arith, length-remove_at i rs r h, some_left i rs r h)
  where
    some_left : (j : ℕ) (xs : List Req) (x : Req) → get_elem? xs j ≡ some x → 0 < length xs
    some_left j [] x e = cc
    some_left j (y ∷ ys) x e = omega arith

module _ (heap : Heap) (concurrency : ℕ) where
  empty-IsQueue : IsQueue concurrency empty_queue
  empty-IsQueue = record {
    bounded = omega arith;
    counted = refl;
    indexed = λ i. refl;
    distinct = λ i. omega arith;
  }

  submit-IsQueue :
      (r : Req) (q q' : Queue)
      → IsQueue concurrency q
      → submit r q ≡ some q'
      → IsQueue concurrency q'
  unfolding submit
  submit-IsQueue r q q' v h = elim (Bool-cases (r.target_date == 0)) [
    | inl z ↦ cc
    | inr z ↦ elim (Bool-cases (is_waiting r.ident q.waiting)) [
      | inl w ↦ cc
      | inr w ↦
          let made : record q {
            pending = r ∷ q.pending;
            waiting = r.ident ∷ q.waiting;
            asleep = false;
          }
              ≡ q' =
            cc in
          let fresh = not_waiting r.ident q.waiting w in
          subst (IsQueue concurrency) made (record {
            bounded = v.bounded;
            counted = v.counted;
            indexed = λ i. ap (◌+◌ (if r.ident == i then 1 else 0)) (v.indexed i);
            distinct = λ i. once v i fresh (Bool-cases (r.ident == i));
          })
    ]
  ]
    where
      once :
          IsQueue concurrency q
          → (i : ℕ) → count_if (λ k. k == r.ident) q.waiting ≡ 0
          → ((r.ident == i) ≡ true) ⊎ ((r.ident == i) ≡ false)
          → with_ident i (r ∷ q.pending) ≤ 1
      once w i fresh (inl e) =
          let same : r.ident ≡ i = ==→eq r.ident i e in
          let none_there : count_if (λ k. k == i) q.waiting ≡ 0 =
            subst (λ j. count_if (λ k. k == j) q.waiting ≡ 0) same fresh in
          rw e (omega (arith, w.indexed i, none_there))
      once w i fresh (inr e) = rw e (omega (arith, w.distinct i))

  -- A round of the "wake" goroutine has taken out a request with the earliest date.
  pub record IsWoken (q q' : Queue) : Type 0 where
    pub next : Req
    pub takes : Perm (next ∷ q'.pending) q.pending
    pub earliest : All (λ (r : Req). next.target_date ≤ r.target_date) q'.pending
    pub runs : q'.running ≡ next ∷ q.running
    pub unlisted : q'.waiting ≡ delete next.ident q.waiting
    pub allowed : (q.stopped ≡ false) × (q.active < concurrency) × (q'.active ≡ suc q.active)

  -- The step that is woken has the earliest date of all that wait; it is woken only while the queue
  -- is not stopped and fewer steps run than allowed.
  pub wake-IsWoken : (q q' : Queue) → wake heap concurrency q ≡ some q' → IsWoken q q'
  unfolding wake
  wake-IsWoken q q' h = elim (Bool-cases q.asleep) [
    | inl e ↦ cc
    | inr up ↦ elim (Bool-cases q.stopped) [
      | inl e ↦ cc
      | inr on ↦ elim (Bool-cases (ltb q.active concurrency)) [
        | inr e ↦ cc
        | inl free ↦ popped up on free (heap.pop q.pending) refl
      ]
    ]
  ]
    where
      popped :
          q.asleep ≡ false
          → q.stopped ≡ false
          → ltb q.active concurrency ≡ true
          → (o : Option (Req × List Req)) → heap.pop q.pending ≡ o
          → IsWoken q q'
      popped up on free none e = cc
      popped up on free (some (next, rest)) e =
          let made : record {
            pending = rest;
            waiting = delete next.ident q.waiting;
            stopped = q.stopped;
            asleep = false;
            active = suc q.active;
            running = next ∷ q.running;
          }
              ≡ q' =
            cc in
          subst (IsWoken q) made (record {
            next = next;
            takes = heap.pop-perm q.pending next rest e;
            earliest = heap.pop-least q.pending next rest e;
            runs = refl;
            unlisted = refl;
            allowed = (on, ground arith, refl);
          })

  wake-IsQueue :
      (q q' : Queue)
      → IsQueue concurrency q
      → wake heap concurrency q ≡ some q'
      → IsQueue concurrency q'
  wake-IsQueue q q' v h =
      let w = wake-IsWoken q q' h in
      let (on, free, more) = w.allowed in
      record {
        bounded = omega (arith, free, more);
        counted = omega (arith, v.counted, more, ap length w.runs);
        indexed = λ i. rw w.unlisted (listed w i (Bool-cases (w.next.ident == i)));
        distinct = λ i. omega (arith, v.distinct i, fewer w i);
      }
    where
      fewer :
          (w : IsWoken q q') (i : ℕ)
          → one (λ (r : Req). r.ident == i) w.next + with_ident i q'.pending
            ≡ with_ident i q.pending
      fewer w i = count_if-perm (λ (r : Req). r.ident == i) (w.next ∷ q'.pending) q.pending w.takes

      listed :
          (w : IsWoken q q') (i : ℕ)
          → ((w.next.ident == i) ≡ true) ⊎ ((w.next.ident == i) ≡ false)
          → count_if (λ k. k == i) (delete w.next.ident q.waiting) ≡ with_ident i q'.pending
      listed w i (inl e) =
          let same : w.next.ident ≡ i = ==→eq w.next.ident i e in
          let gone : count_if (λ k. k == i) (delete w.next.ident q.waiting) ≡ 0 =
            subst (λ j. count_if (λ k. k == j) (delete w.next.ident q.waiting) ≡ 0) same
              (delete_same w.next.ident q.waiting) in
          let here : one (λ (r : Req). r.ident == i) w.next ≡ 1 = rw e refl in
          omega (arith, gone, here, fewer w i, v.distinct i)
      listed w i (inr e) =
          let here : one (λ (r : Req). r.ident == i) w.next ≡ 0 = rw e refl in
          omega (arith, delete_other w.next.ident i q.waiting e, v.indexed i, fewer w i, here)

  wait-IsQueue :
      (q q' : Queue) → IsQueue concurrency q → wait concurrency q ≡ some q' → IsQueue concurrency q'
  unfolding wait
  wait-IsQueue q q' v h = subst (IsQueue concurrency) (ground arith) same
    where
      same : IsQueue concurrency (record q { asleep = true })
      same = record {
        bounded = v.bounded;
        counted = v.counted;
        indexed = v.indexed;
        distinct = v.distinct;
      }

  complete-IsQueue :
      (i : ℕ) (q q' : Queue)
      → IsQueue concurrency q
      → complete i q ≡ some q'
      → IsQueue concurrency q'
  unfolding complete
  complete-IsQueue i q q' v h = elim (Option-cases (get_elem? q.running i)) [
    | inl e ↦ cc
    | inr (r, e) ↦
        let made : record q {
          active = q.active - 1;
          running = remove_at i q.running;
          asleep = false;
        }
            ≡ q' =
          cc in
        subst (IsQueue concurrency) made (record {
          bounded = omega (arith, v.bounded);
          counted = omega (arith, v.counted, length-remove_at i q.running r e);
          indexed = v.indexed;
          distinct = v.distinct;
        })
  ]

  -- After any sequence of steps, no more than `concurrency` steps run, `active` is their number, and
  -- the index of waiting requests agrees with the heap and has no identity twice.
  pub Reachable-IsQueue : {q : Queue} → Reachable heap concurrency q → IsQueue concurrency q
  Reachable-IsQueue started = empty-IsQueue
  Reachable-IsQueue (then_step before (submitted r on h)) =
      submit-IsQueue r _ _ (Reachable-IsQueue before) h
  Reachable-IsQueue (then_step before (woken h)) = wake-IsQueue _ _ (Reachable-IsQueue before) h
  Reachable-IsQueue (then_step before (waited h)) = wait-IsQueue _ _ (Reachable-IsQueue before) h
  Reachable-IsQueue (then_step before (completed i h)) =
      complete-IsQueue i _ _ (Reachable-IsQueue before) h
  Reachable-IsQueue (then_step before (halted q)) =
      let v = Reachable-IsQueue before in
      record {
        bounded = v.bounded;
        counted = v.counted;
        indexed = v.indexed;
        distinct = v.distinct;
      }
