-- ===== src/Replication/Driver/Correlation.antt =====
-- How a plan is cut to what an earlier attempt has left.
use mathlib.Core.Option.{some-injective}
use zrepl.Prelude.{
  ℕ, suc, ◌<◌, ◌≡◌, refl, ap, subst, inl, inr, true, false, Option, none, some, List, [], ◌∷◌, ◌++◌,
  length, take, drop, get_elem?, get_elem?-lt, scan_down, Hit, scan_down-Hit, scan_down-none, arith,
  Bool-cases, Option-cases,
}
use zrepl.Replication.Driver.{
  TimedError, StepOps, Fs, hit_of, match_of, match_current, correlate, after_plan,
}

module _ {S : Type 0} where
  length-snoc : (xs : List S) (s : S) → length (xs ++ (s ∷ [])) ≡ suc (length xs)
  length-snoc [] s = refl
  length-snoc (x ∷ xs) s = ap suc (length-snoc xs s)

  get_elem?-snoc : (xs : List S) (s : S) → get_elem? (xs ++ (s ∷ [])) (length xs) ≡ some s
  get_elem?-snoc [] s = refl
  get_elem?-snoc (x ∷ xs) s = get_elem?-snoc xs s

  take-snoc : (xs : List S) (s : S) → take (length xs) (xs ++ (s ∷ [])) ≡ xs
  take-snoc [] s = refl
  take-snoc (x ∷ xs) s = ap (◌∷◌ x) (take-snoc xs s)

scan_down-top : (n : ℕ) (f : ℕ → Option ℕ) (b : ℕ) → f n ≡ some b → scan_down (suc n) f ≡ some b
unfolding scan_down
scan_down-top n f b h = rw (h, scan_down) refl

module _ {S : Type 0} (ops : StepOps S) where
  match_current-last :
      (xs : List S) (s p : S)
      → ops.target_equals p s ≡ true
      → match_current ops (xs ++ (s ∷ [])) p ≡ some (length xs)
  unfolding match_current
  match_current-last xs s p h =
      rw (length-snoc xs s)
        (scan_down-top (length xs) _ (length xs) (rw (get_elem?-snoc xs s, h) refl))

  correlate-last :
      (ys xs : List S) (p s : S)
      → ops.target_equals p s ≡ true
      → correlate ops (ys ++ (p ∷ [])) (xs ++ (s ∷ [])) ≡ some (length xs)
  unfolding correlate
  correlate-last ys xs p s h = rw (length-snoc ys p) (
      scan_down-top (length ys) _ (length xs)
        (rw (get_elem?-snoc ys p) (match_current-last xs s p h)))

  -- After an attempt that planned a filesystem and left steps undone: if the last of those has the
  -- target of the last step of the current plan, the current plan loses that step.
  pub after_plan-drops :
      (prev f : Fs S) (ps : List ℕ) (e : TimedError) (ys xs : List S) (p s : S)
      → prev.planning_done ≡ true
      → prev.planning_err ≡ none
      → drop prev.step prev.steps ≡ ys ++ (p ∷ [])
      → ops.target_equals p s ≡ true
      → (after_plan ops (some prev) ps e (xs ++ (s ∷ [])) f).0.steps ≡ xs
  unfolding after_plan
  after_plan-drops prev f ps e ys xs p s d n left h =
      rw (d, n, left, correlate-last ys xs p s h, after_plan) (take-snoc xs s)

  -- After an attempt that completed all steps of a filesystem, its plan is refused, whatever it is.
  pub after_plan-refuses :
      (prev f : Fs S) (ps : List ℕ) (e : TimedError) (steps : List S)
      → prev.planning_done ≡ true
      → prev.planning_err ≡ none
      → drop prev.step prev.steps ≡ []
      → (after_plan ops (some prev) ps e steps f).0.planning_err ≡ some e
  unfolding after_plan correlate scan_down
  after_plan-refuses prev f ps e steps d n left = rw (d, n, left, after_plan) refl

  -- The match that the loops find: the latest uncompleted step whose target is in the current plan,
  -- and the latest step of the current plan that has this target.
  pub record IsLatest (uncompleted steps : List S) (cur : ℕ) : Type 0 where
    pub place : ℕ
    pub was : S
    pub now : S
    pub left : get_elem? uncompleted place ≡ some was
    pub found : get_elem? steps cur ≡ some now
    pub equal : ops.target_equals was now ≡ true
    pub none_later :
        (i j : ℕ) (x y : S)
        → place < i
        → get_elem? uncompleted i ≡ some x
        → get_elem? steps j ≡ some y
        → ops.target_equals x y ≡ false
    pub last_now :
        (j : ℕ) (y : S) → cur < j → get_elem? steps j ≡ some y → ops.target_equals was y ≡ false

  not_hit :
      (steps : List S) (p y : S) (j : ℕ)
      → hit_of ops p j (get_elem? steps j) ≡ none
      → get_elem? steps j ≡ some y
      → ops.target_equals p y ≡ false
  not_hit steps p y j h e = elim (Bool-cases (ops.target_equals p y)) [
    | inr b ↦ b
    | inl b ↦ let k = (rw (e, b) at h) in cc
  ]

  hit :
      (steps : List S) (p : S) (q cur : ℕ)
      → hit_of ops p q (get_elem? steps q) ≡ some cur
      → (y : S) × (get_elem? steps cur ≡ some y) × (ops.target_equals p y ≡ true) × (q ≡ cur)
  hit steps p q cur h = elim (Option-cases (get_elem? steps q)) [
    | inl e ↦ let k = (rw e at h) in cc
    | inr (y, e) ↦ elim (Bool-cases (ops.target_equals p y)) [
      | inr b ↦ let k = (rw (e, b) at h) in cc
      | inl b ↦
          let same : q ≡ cur = some-injective _ _ (rw (e, b) at h) in
          (y, subst (λ x. get_elem? steps x ≡ some y) same e, b, same)
    ]
  ]

  match_current-none :
      (steps : List S) (x y : S) (j : ℕ)
      → match_current ops steps x ≡ none
      → get_elem? steps j ≡ some y
      → ops.target_equals x y ≡ false
  unfolding match_current
  match_current-none steps x y j h e =
      not_hit steps x y j
        (scan_down-none (length steps) (λ q. hit_of ops x q (get_elem? steps q)) h j
          (get_elem?-lt steps j y e))
        e

  -- The step of the current plan that a previous attempt's uncompleted steps are correlated to is
  -- the latest one with the target of the latest uncompleted step whose target is in the plan.
  pub correlate-IsLatest :
      (uncompleted steps : List S) (cur : ℕ)
      → correlate ops uncompleted steps ≡ some cur
      → IsLatest uncompleted steps cur
  unfolding correlate match_current
  correlate-IsLatest uncompleted steps cur h =
      found (
        scan_down-Hit (length uncompleted) (λ i. match_of ops steps (get_elem? uncompleted i)) cur
          h)
    where
      found :
          Hit (length uncompleted) (λ i. match_of ops steps (get_elem? uncompleted i)) cur
          → IsLatest uncompleted steps cur
      found outer = elim (Option-cases (get_elem? uncompleted outer.index)) [
        | inl e ↦ let k = (rw e at outer.found) in cc
        | inr (was, e) ↦
            let inner =
              scan_down-Hit (length steps) (λ q. hit_of ops was q (get_elem? steps q)) cur
                (rw e at outer.found) in
            let (now, at, equal, same) = hit steps was inner.index cur inner.found in
            record {
              place = outer.index;
              was = was;
              now = now;
              left = e;
              found = at;
              equal = equal;
              none_later = λ i j x y lt l r.
                  match_current-none steps x y j
                    (rw l at (outer.later i lt (get_elem?-lt uncompleted i x l))) r;
              last_now = λ j y lt r.
                  not_hit steps was y j
                    (inner.later j (omega (arith, lt, same)) (get_elem?-lt steps j y r)) r;
            }
      ]
