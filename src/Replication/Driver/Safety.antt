-- ===== src/Replication/Driver/Safety.antt =====
-- What holds after any turns: by induction on them.
use zrepl.Prelude.{
  ℕ, zero, suc, ◌<◌, ◌≡◌, ◌⊎◌, refl, sym, ap, ◌∙◌, subst, inl, inr, Bool, true, false, Option, none,
  some, List, [], ◌∷◌, All, All-map, get_elem?, ◌==◌, ==_refl, ==→eq, arith, Bool-cases,
}
use zrepl.Zfs.DatasetPath.{DatasetPath}
use zrepl.Replication.Driver.{
  StepOps, Phase, planning, checking, sleeping, stepping, returned, is_returned, Fs, among, State,
  parents, wake_children, set, settle,
}
use zrepl.Replication.Driver.Passed.{IsPassed, IsReady-IsPassed}
use zrepl.Replication.Driver.Turns.{Turn, Reachable, started, then_turn}
use zrepl.Replication.Driver.Sound.{
  Outcome, planning_errored, stepping_errored, completed, IsReady, AllReady, Hopes, IsSound, Raised,
  same, raised, Goes, IsSound-Goes,
}
use zrepl.Replication.Driver.Attempt.{Turn-IsSound, Turn-wakes, Turn-IsReady}

among-get_elem? : (i : ℕ) (ks : List ℕ) (k : ℕ) → get_elem? ks k ≡ some i → among i ks ≡ true
among-get_elem? i [] k h = cc
among-get_elem? i (x ∷ xs) zero h = let e : x ≡ i = cc in rw (e, ==_refl i) refl
among-get_elem? i (x ∷ xs) (suc k) h = elim (Bool-cases (x == i)) [
  | inl e ↦ rw e refl
  | inr e ↦ rw e (among-get_elem? i xs k h)
]

module _ {S : Type 0} (ops : StepOps S) where
  Raised-phase : (f g : Fs S) → Raised ops f g → g.phase ≡ f.phase
  Raised-phase f _ same = refl
  Raised-phase f _ raised = refl

  Raised-did_update : (f g : Fs S) → Raised ops f g → f.did_update ≡ true → g.did_update ≡ true
  Raised-did_update f _ same h = h
  Raised-did_update f _ raised h = refl

  Raised-IsReady : (f g : Fs S) → Raised ops f g → IsReady ops f → IsReady ops g
  Raised-IsReady f _ same h = h
  Raised-IsReady f _ raised h = h

module _ {S : Type 0} (ops : StepOps S) (path : ℕ → DatasetPath) (n : ℕ) where
  settle-Raised :
      (i : ℕ) (f : Fs S) (w : Bool) (st : State S) (k : ℕ)
      → Raised ops (set path n i f st k) (settle path n i f w st k)
  unfolding settle wake_children
  settle-Raised i f false st k = same
  settle-Raised i f true st k = elim (Bool-cases (among i (parents path n k))) [
    | inl e ↦ rw (e, settle, wake_children) raised
    | inr e ↦ rw (e, settle, wake_children) same
  ]

  settle-woken :
      (i : ℕ) (f : Fs S) (w : Bool) (st : State S) (k : ℕ)
      → w ≡ true
      → among i (parents path n k) ≡ true
      → (settle path n i f w st k).did_update ≡ true
  unfolding settle wake_children
  settle-woken i f true st k h e = rw (e, settle, wake_children) refl
  settle-woken i f false st k h e = cc

  set-elim {κ} :
      (P : Fs S → Type κ) (i : ℕ) (f : Fs S) (st : State S) (k : ℕ)
      → (k ≡ i → P f)
      → ((k == i) ≡ false → P (st k))
      → P (set path n i f st k)
  set-elim P i f st k a b = elim (Bool-cases (k == i)) [
    | inl e ↦ rw e (a (==→eq k i e))
    | inr e ↦ rw e (b e)
  ]

  -- The turn of one filesystem keeps what holds of each.
  module _ (prevs : ℕ → Option (Fs S)) (i : ℕ) (f : Fs S) (w : Bool) (st : State S)
      (turn : Turn ops (prevs i) (parents path n i) st (st i) f w)
      (sound : (j : ℕ) → IsSound ops (parents path n j) st (st j) (st j).phase) where
    outcome_of : (k : ℕ) → is_returned (st k).phase ≡ true → Outcome (st k)
    outcome_of k h = go (st k).phase h (sound k)
      where
        go :
            (ph : Phase)
            → is_returned ph ≡ true
            → IsSound ops (parents path n k) st (st k) ph
            → Outcome (st k)
        go planning e s = cc
        go (checking l a b) e s = cc
        go sleeping e s = cc
        go stepping e s = cc
        go returned e s = s.0

    settle-Goes : Goes ops st (settle path n i f w st)
    settle-Goes k r = Raised-IsReady ops _ _ (settle-Raised i f w st k) (
        set-elim (IsReady ops) i f st k
          (λ e.
            Turn-IsReady ops (prevs i) (parents path n i) st (st i) f w turn (sound i)
              (subst (λ j. IsReady ops (st j)) e r))
          (λ e. r))

    -- Whoever waits for a parent that returns is woken.
    settle-Hopes :
        (j : ℕ)
        → Hopes ops (parents path n j) st (set path n i f st j)
        → Hopes ops (parents path n j) (settle path n i f w st) (settle path n i f w st j)
    settle-Hopes j (inl d) = inl (Raised-did_update ops _ _ (settle-Raised i f w st j) d)
    settle-Hopes j (inr u) = elim (Bool-cases (u.parent == i)) [
      | inr off ↦ inr (record {
        place = u.place;
        parent = u.parent;
        found = u.found;
        runs = rw (Raised-phase ops _ _ (settle-Raised i f w st u.parent)) (
            set-elim (λ x. is_returned x.phase ≡ false) i f st u.parent
              (λ e. absurd (ground (arith, off, e))) (λ e. u.runs));
      })
      | inl at ↦ elim (Bool-cases (is_returned f.phase)) [
        | inl gone ↦ inl (
            settle-woken i f w st j
              (Turn-wakes ops (prevs i) (parents path n i) st (st i) f w turn gone)
              (among-get_elem? i (parents path n j) u.place
                (u.found ∙ ap some (==→eq u.parent i at))))
        | inr runs ↦ inr (record {
          place = u.place;
          parent = u.parent;
          found = u.found;
          runs = rw (Raised-phase ops _ _ (settle-Raised i f w st u.parent)) (
              set-elim (λ x. is_returned x.phase ≡ false) i f st u.parent (λ e. runs)
                (λ off. absurd (ground (arith, at, off))));
        })
      ]
    ]

    settle-IsSound :
        (j : ℕ)
        → IsSound ops
            (parents path n j)
            (settle path n i f w st)
            (settle path n i f w st j)
            (settle path n i f w st j).phase
    settle-IsSound j =
        subst (IsSound ops (parents path n j) (settle path n i f w st) (settle path n i f w st j))
          (sym (Raised-phase ops _ _ (settle-Raised i f w st j)))
          (IsSound-Goes ops (parents path n j) st (settle path n i f w st) (set path n i f st j)
            (settle path n i f w st j) (set path n i f st j).phase settle-Goes (settle-Hopes j)
            (settle-Raised i f w st j)
            (set-elim (λ x. IsSound ops (parents path n j) st x x.phase) i f st j
              (λ e.
                subst (λ k. IsSound ops (parents path n k) st f f.phase) (sym e)
                  (Turn-IsSound ops (prevs i) (parents path n i) st (st i) f w turn outcome_of
                    (sound i)))
              (λ e. sound j)))

  pub Reachable-IsSound :
      (prevs : ℕ → Option (Fs S)) {st : State S}
      → Reachable ops path n prevs st
      → (j : ℕ) → IsSound ops (parents path n j) st (st j) (st j).phase
  Reachable-IsSound prevs started j = (refl, refl, refl, refl)
  Reachable-IsSound prevs (then_turn {st} i {f} {wakes} lt before turn) j =
      settle-IsSound prevs i f wakes st turn (Reachable-IsSound prevs before) j

  Reachable-ready :
      (prevs : ℕ → Option (Fs S)) {st : State S}
      → Reachable ops path n prevs st
      → (j : ℕ) → ((st j).phase ≡ stepping) ⊎ (0 < (st j).step)
      → AllReady ops (parents path n j) st
  Reachable-ready prevs {st} r j h = go (st j).phase (Reachable-IsSound prevs r j) h
    where
      go :
          (ph : Phase)
          → IsSound ops (parents path n j) st (st j) ph
          → (ph ≡ stepping) ⊎ (0 < (st j).step)
          → AllReady ops (parents path n j) st
      go planning s (inl e) = cc
      go planning s (inr lt) = absurd (omega (arith, lt, s.3))
      go (checking l a b) s (inl e) = cc
      go (checking l a b) s (inr lt) = absurd (omega (arith, lt, s.fresh))
      go sleeping s (inl e) = cc
      go sleeping s (inr lt) = absurd (omega (arith, lt, s.1))
      go stepping s k = s.1
      go returned s (inl e) = cc
      go returned s (inr lt) = s.1 lt

  -- After any turns of an attempt's goroutines: if a filesystem takes steps, or has taken one, then
  -- each of its parents has been planned without an error. The parent has no step in this attempt, or
  -- an incremental step first, or it has completed a step of this attempt.
  pub Reachable-AllReady :
      (prevs : ℕ → Option (Fs S)) {st : State S}
      → Reachable ops path n prevs st
      → (j : ℕ) → ((st j).phase ≡ stepping) ⊎ (0 < (st j).step)
      → All (λ k. IsPassed ops (st k)) (parents path n j)
  Reachable-AllReady prevs {st} r j h =
      All-map (λ k. IsReady-IsPassed ops (st k)) (parents path n j) (Reachable-ready prevs r j h)

  -- After any turns, a filesystem whose planning is done has no planning error, so the branch of
  -- errorReport that collects planning errors is never taken.
  pub Reachable-no_planning_err :
      (prevs : ℕ → Option (Fs S)) {st : State S}
      → Reachable ops path n prevs st
      → (j : ℕ) → (st j).planning_done ≡ true
      → (st j).planning_err ≡ none
  Reachable-no_planning_err prevs {st} r j h = go (st j).phase (Reachable-IsSound prevs r j)
    where
      from_outcome : Outcome (st j) → (st j).planning_err ≡ none
      from_outcome (planning_errored nd e) = cc
      from_outcome (stepping_errored d np e w) = np
      from_outcome (completed c e) = c.no_planning_err

      go : (ph : Phase) → IsSound ops (parents path n j) st (st j) ph → (st j).planning_err ≡ none
      go planning s = s.1
      go (checking l a b) s = s.plan.no_planning_err
      go sleeping s = s.0.no_planning_err
      go stepping s = s.0.no_planning_err
      go returned s = from_outcome s.0
