-- ===== src/Zfs/Destroy/Complete.antt =====
-- doDestroy never panics, and it writes every error exactly once.
use Prim.Native.String.{String}
use zrepl.Prelude.{
  ℕ, zero, suc, ◌+◌, ◌/◌, ◌<◌, ◌≡◌, refl, sym, ap, ◌∙◌, inl, inr, Bool, true, false, not, Option,
  none, some, List, [], ◌∷◌, map, length, take, drop, keep_if, leb, str_eq, str_eq_refl, All,
  All-map, All-take, All-drop, All-keep_if, arith, Bool-cases, count_if, count_if-append,
  count_if-perm, count_if-keep_if, take-append-drop, length-take, length-drop, Result, ok, err,
  subst,
}
use zrepl.Zfs.Destroy.{
  DestroySnapOp, DestroyError, OpError, Write, Run, Destroyer, write_of, set_errors, call_destroy,
  destroy_one, destroy_seq, all_on, try_batch, is_among, destroy_stripped, destroy_batch,
  destroy_batches, validate, destroy_validated, do_destroy, build_batches, argument_list_too_long,
  failed, undestroyable, empty_filesystem, empty_name,
}
use zrepl.Zfs.Destroy.Batches.{IsBatch, concat, build_batches-IsBatch}

module _ (p : DestroySnapOp → Bool) where
  -- How often the error of a request that passes the test `p` has been written.
  abbrev pub writes_of : Run → ℕ
  writes_of s = count_if (λ (w : Write). p w.op) s.writes

  abbrev Wrote : List DestroySnapOp → Run → Run → Type 0
  Wrote ops s s' = writes_of s' ≡ count_if p ops + writes_of s

  set_errors-Wrote :
      (os : List DestroySnapOp) (e : Option OpError) (s : Run) → Wrote os s (set_errors os e s)
  unfolding set_errors
  set_errors-Wrote [] e s = omega arith
  set_errors-Wrote (o ∷ os) e s =
      omega (
        arith,
        set_errors-Wrote os e (record s { writes = record { op = o; error = e } ∷ s.writes }),
      )

  call_destroy-Wrote :
      (d : Destroyer) (fs : String) (names : List String) (s : Run)
      → writes_of (call_destroy d fs names s).1 ≡ writes_of s
  unfolding call_destroy
  call_destroy-Wrote d fs names s = refl

  destroy_seq-Wrote :
      (d : Destroyer) (os : List DestroySnapOp) (s : Run) → Wrote os s (destroy_seq d os s)
  unfolding destroy_seq destroy_one
  destroy_seq-Wrote d [] s = omega arith
  destroy_seq-Wrote d (o ∷ os) s =
      let call = call_destroy d o.filesystem (o.name ∷ []) s in
      let first = set_errors-Wrote (o ∷ []) (write_of call.0) call.1 in
      let silent = call_destroy-Wrote d o.filesystem (o.name ∷ []) s in
      omega (arith, destroy_seq-Wrote d os (destroy_one d o s), first, silent)

  all_on-true :
      (fs : String) (os : List DestroySnapOp)
      → All (λ o. o.filesystem ≡ fs) os
      → all_on fs os ≡ true
  unfolding all_on
  all_on-true fs [] h = refl
  all_on-true fs (o ∷ os) h =
      let same : str_eq fs o.filesystem ≡ true =
        subst (λ g. str_eq fs g ≡ true) (sym h.0) (str_eq_refl fs) in
      rw (same, all_on-true fs os h.1) refl

  -- A batch on one filesystem does not panic, and writes nothing yet.
  try_batch-Wrote :
      (d : Destroyer) (fs : String) (ops : List DestroySnapOp) (s : Run)
      → All (λ o. o.filesystem ≡ fs) ops
      → (answer : Option DestroyError) × (s' : Run) × (try_batch d ops s ≡ some (answer, s'))
        × (writes_of s' ≡ writes_of s)
  unfolding try_batch
  try_batch-Wrote d fs [] s same = (none, s, refl, refl)
  try_batch-Wrote d fs (o ∷ os) s same =
      let call = call_destroy d o.filesystem (map (λ q. q.name) (o ∷ os)) s in
      let here =
        all_on-true o.filesystem (o ∷ os) (All-map (λ q e. e ∙ sym same.0) (o ∷ os) same) in
      (
        call.0,
        call.1,
        rw here refl,
        call_destroy-Wrote d o.filesystem (map (λ q. q.name) (o ∷ os)) s,
      )

  -- It returns, and has written the error of each request once more.
  abbrev Completes : List DestroySnapOp → Run → Option Run → Type 0
  Completes ops s r = (s' : Run) × (r ≡ some s') × Wrote ops s s'

  seq-Completes :
      (d : Destroyer) (ops : List DestroySnapOp) (s s' : Run)
      → writes_of s' ≡ writes_of s
      → Completes ops s (some (destroy_seq d ops s'))
  seq-Completes d ops s s' silent =
      (destroy_seq d ops s', refl, omega (arith, destroy_seq-Wrote d ops s', silent))

  after_strip :
      (d : Destroyer) (names : List String) (ops : List DestroySnapOp) (s : Run)
      (answer : Option DestroyError) (s' : Run)
      → try_batch d (keep_if (λ o. not (is_among names o)) ops) s ≡ some (answer, s')
      → writes_of s' ≡ writes_of s
      → Completes ops s (destroy_stripped d names ops s)
  unfolding destroy_stripped
  after_strip d names ops s (some e) s' r silent =
      rw (r, destroy_stripped) (seq-Completes d ops s s' silent)
  after_strip d names ops s none s' r silent =
      let stripped = keep_if (λ o. not (is_among names o)) ops in
      let remaining = keep_if (is_among names) ops in
      let parts = count_if-keep_if p (is_among names) ops in
      let told = set_errors-Wrote stripped none s' in
      let rest = destroy_seq-Wrote d remaining (set_errors stripped none s') in
      rw (r, destroy_stripped)
        (
          destroy_seq d remaining (set_errors stripped none s'),
          refl,
          omega (arith, parts, told, rest, silent),
        )

  destroy_stripped-Completes :
      (d : Destroyer) (names : List String) (fs : String) (ops : List DestroySnapOp) (s : Run)
      → All (λ o. o.filesystem ≡ fs) ops
      → Completes ops s (destroy_stripped d names ops s)
  destroy_stripped-Completes d names fs ops s same =
      let stripped = keep_if (λ o. not (is_among names o)) ops in
      let (answer, s', r, silent) = try_batch-Wrote d fs stripped s (All-keep_if _ _ ops same) in
      after_strip d names ops s answer s' r silent

  count_if-split :
      (n : ℕ) (ops : List DestroySnapOp)
      → count_if p ops ≡ count_if p (take n ops) + count_if p (drop n ops)
  count_if-split n ops =
      ap (count_if p) (sym (take-append-drop n ops)) ∙ count_if-append p (take n ops) (drop n ops)

  -- What a batch of several requests leads to, once it has been tried.
  after_try :
      (fuel : ℕ) (d : Destroyer) (fs : String) (ops : List DestroySnapOp) (s : Run)
      (answer : Option DestroyError) (s' : Run)
      → leb (length ops) 1 ≡ false
      → All (λ o. o.filesystem ≡ fs) ops
      → try_batch d ops s ≡ some (answer, s')
      → writes_of s' ≡ writes_of s
      → ((half : List DestroySnapOp) (r : Run)
          → length half < length ops
          → All (λ o. o.filesystem ≡ fs) half
          → Completes half r (destroy_batch fuel d half r))
      → Completes ops s (destroy_batch (suc fuel) d ops s)
  unfolding destroy_batch
  after_try fuel d fs ops s none s' many same r silent halves =
      rw (many, r, destroy_batch)
        (set_errors ops none s', refl, omega (arith, set_errors-Wrote ops none s', silent))
  after_try fuel d fs ops s (some argument_list_too_long) s' many same r silent halves =
      let two : 1 < length ops = ground arith in
      let h = length ops / 2 in
      let (s1, e1, w1) =
        halves (take h ops) s' (omega (arith, length-take h ops)) (All-take _ h ops same) in
      let (s2, e2, w2) =
        halves (drop h ops) s1 (omega (arith, length-drop h ops)) (All-drop _ h ops same) in
      rw (many, r, e1, destroy_batch) (s2, e2, omega (arith, w1, w2, silent, count_if-split h ops))
  after_try fuel d fs ops s (some (undestroyable names)) s' many same r silent halves =
      let (s1, e1, w1) = destroy_stripped-Completes d names fs ops s' same in
      rw (many, r, destroy_batch) (s1, e1, omega (arith, w1, silent))
  after_try fuel d fs ops s (some failed) s' many same r silent halves =
      rw (many, r, destroy_batch) (seq-Completes d ops s s' silent)

  destroy_batch-Completes :
      (fuel : ℕ) (d : Destroyer) (fs : String) (ops : List DestroySnapOp) (s : Run)
      → length ops < fuel
      → All (λ o. o.filesystem ≡ fs) ops
      → Completes ops s (destroy_batch fuel d ops s)
  unfolding destroy_batch
  destroy_batch-Completes zero d fs ops s lt same = absurd (omega arith)
  destroy_batch-Completes (suc fuel) d fs ops s lt same = elim (Bool-cases (leb (length ops) 1)) [
    | inl e ↦ rw (e, destroy_batch) (seq-Completes d ops s s refl)
    | inr e ↦
        let (answer, s', r, silent) = try_batch-Wrote d fs ops s same in
        after_try fuel d fs ops s answer s' e same r silent
          (λ half r shorter. destroy_batch-Completes fuel d fs half r (omega arith))
  ]

  destroy_batches-Completes :
      (d : Destroyer) (max : ℕ) (bs : List (List DestroySnapOp)) (s : Run)
      → All (IsBatch max) bs
      → Completes (concat bs) s (destroy_batches d bs s)
  unfolding destroy_batches
  destroy_batches-Completes d max [] s h = (s, refl, omega arith)
  destroy_batches-Completes d max (b ∷ bs) s h =
      let (s1, e1, w1) =
        destroy_batch-Completes (suc (length b)) d h.0.filesystem b s (omega arith) h.0.same in
      let (s2, e2, w2) = destroy_batches-Completes d max bs s1 h.1 in
      rw (e1, destroy_batches) (s2, e2, omega (arith, w1, w2, count_if-append p b (concat bs)))

  destroy_validated-Completes :
      (max : ℕ) (d : Destroyer) (supported : Result OpError Bool) (reqs : List DestroySnapOp)
      (s : Run)
      → Completes reqs s (destroy_validated max d supported reqs s)
  unfolding destroy_validated
  destroy_validated-Completes max d (err e) reqs s =
      (set_errors reqs (some e) s, refl, set_errors-Wrote reqs (some e) s)
  destroy_validated-Completes max d (ok false) reqs s = seq-Completes d reqs s s refl
  destroy_validated-Completes max d (ok true) reqs s =
      let (same, batches) = build_batches-IsBatch max reqs in
      let (s', e, w) = destroy_batches-Completes d max (build_batches max reqs) s batches in
      (s', e, omega (arith, w, count_if-perm p _ _ same))

  rejected :
      (os : List DestroySnapOp) (o : DestroySnapOp) (e : OpError) (s : Run)
      → let s' = set_errors (o ∷ []) (some e) s in
        count_if p (validate os s').0 + writes_of (validate os s').1 ≡ count_if p os + writes_of s'
        → count_if p (validate os s').0 + writes_of (validate os s').1
          ≡ count_if p (o ∷ os) + writes_of s
  rejected os o e s h = omega (arith, h, set_errors-Wrote (o ∷ []) (some e) s)

  validate-Wrote :
      (os : List DestroySnapOp) (s : Run)
      → count_if p (validate os s).0 + writes_of (validate os s).1 ≡ count_if p os + writes_of s
  unfolding validate
  validate-Wrote [] s = omega arith
  validate-Wrote (o ∷ os) s = elim (Bool-cases (str_eq o.filesystem "")) [
    | inl e ↦ rw (e, validate) (rejected os o empty_filesystem s (validate-Wrote os _))
    | inr e ↦ elim (Bool-cases (str_eq o.name "")) [
      | inl f ↦ rw (e, f, validate) (rejected os o empty_name s (validate-Wrote os _))
      | inr f ↦ rw (e, f, validate) (omega (arith, validate-Wrote os s))
    ]
  ]

  -- doDestroy returns, however the destroyer answers: it does not panic on a batch and halves a
  -- batch only finitely often. It then has set the error of every request exactly once.
  pub do_destroy-Completes :
      (max : ℕ) (d : Destroyer) (reqs : List DestroySnapOp)
      → (s : Run) × (do_destroy max d reqs ≡ some s) × (writes_of s ≡ count_if p reqs)
  unfolding do_destroy
  do_destroy-Completes max d reqs =
      let start : Run = record { calls = []; writes = [] } in
      let (s, e, w) =
        destroy_validated-Completes max d d.comma_supported (validate reqs start).0
          (validate reqs start).1 in
      (s, e, omega (arith, w, validate-Wrote reqs start))
