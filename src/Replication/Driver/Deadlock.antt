-- ===== src/Replication/Driver/Deadlock.antt =====
-- The goroutines of an attempt do not block each other for good.
use zrepl.Prelude.{
  ℕ, zero, suc, ◌<◌, ◌≡◌, ◌⊎◌, refl, subst, inl, inr, Bool, true, false, not, ◌&&◌, Option, some,
  List, [], ◌∷◌, length, get_elem?, ltb, arith, Bool-cases, &&-true, not-true, str_eq, str_eq→eq,
  str_eq_refl, ltb→lt, ltb→ge,
}
use zrepl.Zfs.DatasetPath.{DatasetPath, has_prefix, equal}
use zrepl.Replication.Driver.{
  TimedError, StepOps, Phase, planning, checking, sleeping, stepping, returned, is_returned, Fs,
  State, parents_below, parents,
}
use zrepl.Replication.Driver.Turns.{
  Turn, plan_failed, plan_made, inspected, decided, awoken, cancelled, stepped, step_failed,
  finished, Reachable,
}
use zrepl.Replication.Driver.Sound.{Unreturned, IsSound}
use zrepl.Replication.Driver.Safety.{Reachable-IsSound}

longer : (p q : DatasetPath) → has_prefix p q ≡ true → equal p q ≡ false → length q < length p
unfolding has_prefix equal
longer [] [] h e = cc
longer (x ∷ p) [] h e = omega arith
longer [] (y ∷ q) h e = cc
longer (x ∷ p) (y ∷ q) h e =
    let (head, tail) = &&-true (str_eq y x) (has_prefix p q) h in
    let same : y ≡ x = str_eq→eq y x head in
    let reflexive : str_eq x y ≡ true = rw same (str_eq_refl x) in
    let differ : equal p q ≡ false = (rw (reflexive, equal) at e) in
    omega (arith, longer p q tail differ)

-- The parents of a filesystem are some of those that are planned, with shorter paths.
parents_below-shorter :
    (path : ℕ → DatasetPath) (j n place p : ℕ)
    → get_elem? (parents_below path j n) place ≡ some p
    → (p < n) × (length (path p) < length (path j))
unfolding parents_below
parents_below-shorter path j zero place p h = cc
parents_below-shorter path j (suc n) place p h =
    elim (Bool-cases (has_prefix (path j) (path n) && not (equal (path j) (path n)))) [
      | inr b ↦
          let r = parents_below-shorter path j n place p (rw (b, parents_below) at h) in
          (omega (arith, r.0), r.1)
      | inl b ↦ first place (rw (b, parents_below) at h) b (parents_below-shorter path j n)
    ]
  where
    first :
        (k : ℕ)
        → get_elem? (n ∷ parents_below path j n) k ≡ some p
        → has_prefix (path j) (path n) && not (equal (path j) (path n)) ≡ true
        → ((l q : ℕ)
            → get_elem? (parents_below path j n) l ≡ some q
            → (q < n) × (length (path q) < length (path j)))
        → (p < suc n) × (length (path p) < length (path j))
    first zero e b rest =
        let same : n ≡ p = cc in
        let (prefix, differ) = &&-true (has_prefix (path j) (path n)) _ b in
        (
          omega (arith, same),
          subst (λ x. length (path x) < length (path j)) same
              (longer (path j) (path n) prefix (not-true _ differ)),
        )
    first (suc k) e b rest = let r = rest k p e in (omega (arith, r.0), r.1)

module _ {S : Type 0} (ops : StepOps S) (path : ℕ → DatasetPath) (n : ℕ)
    (prevs : ℕ → Option (Fs S)) where
  abbrev pub is_cancel :
      {prev : Option (Fs S)} {ps : List ℕ} {st : State S} {f f' : Fs S} {w : Bool}
      → Turn ops prev ps st f f' w
      → Bool
  is_cancel (cancelled e ph) = true
  is_cancel (plan_failed e ph) = false
  is_cancel (plan_made e s ph) = false
  is_cancel (inspected k l a b ph) = false
  is_cancel (decided e a b ph) = false
  is_cancel (awoken ph d) = false
  is_cancel (stepped ph lt) = false
  is_cancel (step_failed e ph lt) = false
  is_cancel (finished ph le) = false

  -- Some filesystem has a turn, without a cancellation.
  pub record Moves (st : State S) : Type 0 where
    pub who : ℕ
    pub below : who < n
    pub after : Fs S
    pub wakes : Bool
    pub turn : Turn ops (prevs who) (parents path n who) st (st who) after wakes
    pub unforced : is_cancel turn ≡ false

  some_error : TimedError
  some_error = record { error = 0; is_timeout = false; is_unavailable = false; time = 0 }

  -- Either the filesystem itself has a turn, or one of its parents has not returned.
  move_or_wait :
      (st : State S) (j : ℕ)
      → j < n
      → (ph : Phase) → (st j).phase ≡ ph
      → is_returned ph ≡ false
      → IsSound ops (parents path n j) st (st j) ph
      → Moves st ⊎ Unreturned (parents path n j) st
  move_or_wait st j lt planning e r s = inl (record {
    who = j;
    below = lt;
    after = _;
    wakes = true;
    turn = plan_failed some_error e;
    unforced = refl;
  })
  move_or_wait st j lt (checking [] a b) e r s = inl (record {
    who = j;
    below = lt;
    after = _;
    wakes = _;
    turn = decided some_error a b e;
    unforced = refl;
  })
  move_or_wait st j lt (checking (k ∷ left) a b) e r s = inl (record {
    who = j;
    below = lt;
    after = _;
    wakes = false;
    turn = inspected k left a b e;
    unforced = refl;
  })
  move_or_wait st j lt sleeping e r (p, z, inl d) =
      inl (record {
        who = j;
        below = lt;
        after = _;
        wakes = false;
        turn = awoken e d;
        unforced = refl;
      })
  move_or_wait st j lt sleeping e r (p, z, inr u) = inr u
  move_or_wait st j lt stepping e r s = elim (Bool-cases (ltb (st j).step (length (st j).steps))) [
    | inl b ↦ inl (record {
      who = j;
      below = lt;
      after = _;
      wakes = true;
      turn = stepped e (ltb→lt _ _ b);
      unforced = refl;
    })
    | inr b ↦ inl (record {
      who = j;
      below = lt;
      after = _;
      wakes = true;
      turn = finished e (ltb→ge _ _ b);
      unforced = refl;
    })
  ]
  move_or_wait st j lt returned e r s = cc

  Moves-above :
      (st : State S)
      → Reachable ops path n prevs st
      → (bound j : ℕ) → length (path j) < bound
      → j < n
      → is_returned (st j).phase ≡ false
      → Moves st
  Moves-above st r zero j short lt runs = absurd (omega (arith, short))
  Moves-above st r (suc bound) j short lt runs =
      elim (move_or_wait st j lt (st j).phase refl runs (Reachable-IsSound ops path n prevs r j)) [
        | inl m ↦ m
        | inr u ↦
            let (below, shorter) = parents_below-shorter path j n u.place u.parent u.found in
            Moves-above st r bound u.parent (omega (arith, shorter, short)) below u.runs
      ]

  -- After any turns of an attempt's goroutines, while one of them has not returned, one of them can
  -- take a turn, even if nothing is cancelled: no wakeup is lost, and filesystems do not wait for each
  -- other in a circle.
  pub Reachable-Moves :
      {st : State S}
      → Reachable ops path n prevs st
      → (j : ℕ) → j < n
      → is_returned (st j).phase ≡ false
      → Moves st
  Reachable-Moves {st} r j lt runs =
      Moves-above st r (suc (length (path j))) j (omega arith) lt runs
