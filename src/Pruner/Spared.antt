-- ===== src/Pruner/Spared.antt =====
-- What the rule that keeps what is not replicated spares.
use mathlib.Core.Logic.Or
use mathlib.Core.List.{mem-cons, not-mem-nil}
use native.Mathlib.Bridge.{le_prop}
use zrepl.Prelude.{
  ℕ, zero, suc, ◌≤◌, ◌<◌, ◌≡◌, ◌⊎◌, refl, sym, ap, subst, inl, inr, true, false, some, List, [],
  ◌∷◌, map, Mem, All, All-of_mem, All-append, get_elem?, ◌==◌, ==_refl, count_if, count_if-keep_if,
  SliceSort, arith, Bool-cases,
}
use zrepl.Pruning.Rules.{
  Snapshot, last_n_less, KeepRule, keep_not_replicated, apply_rule, prune_snapshots,
  not_replicated_destroy,
}
use zrepl.Pruning.Rules.Prune.{count_id, AllDestroy, prune_snapshots-AllDestroy}
use zrepl.Pruner.{Snap}
use zrepl.Pruner.Plan.{as_rule_snapshot, at_position, from_rule_snapshots}

at_position-All {κ} :
    (P : Snap → Type κ) (i : ℕ) (snaps : List Snap) → All P snaps → All P (at_position i snaps)
unfolding at_position
at_position-All P i [] h = tt
at_position-All P i (s ∷ ss) h = elim (Bool-cases (s.position == i)) [
  | inl e ↦ rw (e, at_position) (h.0, tt)
  | inr e ↦ rw (e, at_position) (at_position-All P i ss h.1)
]

pub from_rule_snapshots-All {κ} :
    (P : Snap → Type κ) (snaps : List Snap) (out : List Snapshot)
    → All P snaps
    → All P (from_rule_snapshots snaps out)
from_rule_snapshots-All P snaps [] h = tt
from_rule_snapshots-All P snaps (o ∷ os) h =
    All-append P (at_position o.id snaps) _ (at_position-All P o.id snaps h)
      (from_rule_snapshots-All P snaps os h)

-- The rule snapshots have the positions as identities.
count_id-map :
    (i : ℕ) (snaps : List Snap)
    → count_id i (map as_rule_snapshot snaps) ≡ count_if (λ (s : Snap). s.position == i) snaps
count_id-map i [] = refl
count_id-map i (s ∷ ss) = omega (arith, count_id-map i ss)

count_id-mem : (o : Snapshot) (out : List Snapshot) → Mem o out → 0 < count_id o.id out
count_id-mem o [] m = absurd (not-mem-nil m)
count_id-mem o (x ∷ xs) m =
    Or.elim le_prop (mem-cons.0 m)
      (λ e.
        let same : x.id ≡ o.id = ap (λ (s : Snapshot). s.id) (sym e) in
        let here : (x.id == o.id) ≡ true = rw same (==_refl o.id) in rw here (omega arith))
      (λ k. omega (arith, count_id-mem o xs k))

AllDestroy-at :
    (slice : SliceSort last_n_less) (snaps : List Snapshot) (id k : ℕ) (rules : List KeepRule)
    (r : KeepRule)
    → AllDestroy slice snaps id rules
    → get_elem? rules k ≡ some r
    → (out : List Snapshot) × (apply_rule slice r snaps ≡ some out) × (0 < count_id id out)
AllDestroy-at slice snaps id k [] r a h = cc
AllDestroy-at slice snaps id zero (x ∷ xs) r a h =
    let same : x ≡ r = cc in
    subst
      (λ q. (out : List Snapshot) × (apply_rule slice q snaps ≡ some out) × (0 < count_id id out))
      same a.0
AllDestroy-at slice snaps id (suc k) (x ∷ xs) r a h = AllDestroy-at slice snaps id k xs r a.1 h

abbrev pub IsReplicated : Snap → Type 0
IsReplicated s = s.replicated ≡ true

-- The only snapshot at a position is replicated, if the rule for replicated ones finds it.
at_position-IsReplicated :
    (i : ℕ) (snaps : List Snap)
    → count_id i (map as_rule_snapshot snaps) ≤ 1
    → 0 < count_id i (not_replicated_destroy (map as_rule_snapshot snaps))
    → All IsReplicated (at_position i snaps)
unfolding at_position
at_position-IsReplicated i [] d p = tt
at_position-IsReplicated i (s ∷ ss) d p = elim (Bool-cases (s.position == i)) [
  | inl e ↦ elim (Bool-cases s.replicated) [
    | inl r ↦ rw (e, at_position) (r, tt)
    | inr r ↦
        let split =
          count_if-keep_if (λ (x : Snapshot). x.id == i) (λ x. x.replicated)
            (map as_rule_snapshot ss) in
        let none_else : 0 < count_id i (not_replicated_destroy (map as_rule_snapshot ss)) =
          rw r at p in
        absurd (omega (arith, split, (rw e at d), none_else))
  ]
  | inr e ↦
      let rest : count_id i (map as_rule_snapshot ss) ≤ 1 = omega (arith, (rw e at d)) in
      rw (e, at_position) (at_position-IsReplicated i ss rest (found (Bool-cases s.replicated) e))
]
  where
    found :
        (s.replicated ≡ true) ⊎ (s.replicated ≡ false)
        → (s.position == i) ≡ false
        → 0 < count_id i (not_replicated_destroy (map as_rule_snapshot ss))
    found (inl r) e = omega (arith, (rw (r, e) at p))
    found (inr r) e = rw r at p

module _ (slice : SliceSort last_n_less) (snaps : List Snap)
    (distinct : (i : ℕ) → count_if (λ (s : Snap). s.position == i) snaps ≤ 1) where
  -- What all the rules destroy is replicated, if one of them keeps what is not.
  AllDestroy-IsReplicated :
      (id k : ℕ) (rules : List KeepRule)
      → get_elem? rules k ≡ some keep_not_replicated
      → AllDestroy slice (map as_rule_snapshot snaps) id rules
      → All IsReplicated (at_position id snaps)
  unfolding apply_rule
  AllDestroy-IsReplicated id k rules r a =
      let (out, e, present) =
        AllDestroy-at slice (map as_rule_snapshot snaps) id k rules keep_not_replicated a r in
      let same : out ≡ not_replicated_destroy (map as_rule_snapshot snaps) = cc in
      at_position-IsReplicated id snaps (omega (arith, count_id-map id snaps, distinct id))
        (subst (λ l. 0 < count_id id l) same present)

  from_rule_snapshots-IsReplicated :
      (out : List Snapshot)
      → All (λ (o : Snapshot). All IsReplicated (at_position o.id snaps)) out
      → All IsReplicated (from_rule_snapshots snaps out)
  from_rule_snapshots-IsReplicated [] h = tt
  from_rule_snapshots-IsReplicated (o ∷ os) h =
      All-append IsReplicated (at_position o.id snaps) _ h.0
        (from_rule_snapshots-IsReplicated os h.1)

  -- With the rule that keeps what is not replicated, only replicated snapshots are destroyed.
  pub prune_snapshots-IsReplicated :
      (k : ℕ) (rules : List KeepRule) (out : List Snapshot)
      → get_elem? rules k ≡ some keep_not_replicated
      → prune_snapshots slice (map as_rule_snapshot snaps) rules ≡ some out
      → All IsReplicated (from_rule_snapshots snaps out)
  prune_snapshots-IsReplicated k [] out r h = cc
  prune_snapshots-IsReplicated k (q ∷ rules) out r h = from_rule_snapshots-IsReplicated out (
      All-of_mem out (λ o m.
        let d =
          prune_snapshots-AllDestroy slice (map as_rule_snapshot snaps) o.id
            (omega (arith, count_id-map o.id snaps, distinct o.id)) q rules out h in
        AllDestroy-IsReplicated o.id k (q ∷ rules) r (d.0.0 (count_id-mem o out m))))
