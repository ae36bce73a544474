-- ===== src/Pruning/Rules/Prune.antt =====
-- PruneSnapshots destroys what every rule agrees on.
use zrepl.Prelude.{
  ℕ, suc, ◌+◌, ◌≤◌, ◌<◌, ◌==◌, ◌≡◌, ◌↔◌, refl, subst, inl, inr, false, if◌then◌else◌, some, List,
  [], ◌∷◌, length, SliceSort, count_if, arith, Bool-cases, Option-cases, ==→eq,
}
use zrepl.Pruning.Rules.{
  Snapshot, last_n_less, KeepRule, apply_rule, bump, bump_all, select, count_removals,
  prune_snapshots,
}
use zrepl.Pruning.Rules.Spare.{apply_rule-count}

-- How many snapshots of a list are the one with the given identity.
abbrev pub count_id : ℕ → List Snapshot → ℕ
count_id id = count_if (λ s. s.id == id)

abbrev Counts : Type 0
Counts = List (Snapshot × ℕ)

lookup_count : ℕ → Counts → ℕ
lookup_count id [] = 0
lookup_count id ((t, n) ∷ m) = if t.id == id then n else lookup_count id m

abbrev IsAbsent : ℕ → Counts → Type 0
IsAbsent id [] = Unit
IsAbsent id ((t, n) ∷ m) = ((t.id == id) ≡ false) × IsAbsent id m

abbrev KeysDistinct : Counts → Type 0
KeysDistinct [] = Unit
KeysDistinct ((t, n) ∷ m) = IsAbsent t.id m × KeysDistinct m

lookup_count-bump :
    (id : ℕ) (s : Snapshot) (m : Counts)
    → lookup_count id (bump s m) ≡ lookup_count id m + (if s.id == id then 1 else 0)
unfolding lookup_count bump
lookup_count-bump id s [] = ground arith
lookup_count-bump id s ((t, n) ∷ m) = ground (arith, lookup_count-bump id s m)

lookup_count-bump_all :
    (id : ℕ) (ss : List Snapshot) (m : Counts)
    → lookup_count id (bump_all ss m) ≡ lookup_count id m + count_id id ss
unfolding bump_all
lookup_count-bump_all id [] m = omega arith
lookup_count-bump_all id (s ∷ ss) m =
    omega (arith, lookup_count-bump_all id ss (bump s m), lookup_count-bump id s m)

bump-IsAbsent :
    (id : ℕ) (s : Snapshot) (m : Counts)
    → (s.id == id) ≡ false
    → IsAbsent id m
    → IsAbsent id (bump s m)
unfolding bump
bump-IsAbsent id s [] h a = (h, tt)
bump-IsAbsent id s ((t, n) ∷ m) h a = ground (arith, bump-IsAbsent id s m)

bump-KeysDistinct : (s : Snapshot) (m : Counts) → KeysDistinct m → KeysDistinct (bump s m)
unfolding bump
bump-KeysDistinct s [] d = (tt, tt)
bump-KeysDistinct s ((t, n) ∷ m) d = ground (arith, bump-KeysDistinct s m, bump-IsAbsent t.id s m)

bump_all-KeysDistinct :
    (ss : List Snapshot) (m : Counts) → KeysDistinct m → KeysDistinct (bump_all ss m)
unfolding bump_all
bump_all-KeysDistinct [] m d = d
bump_all-KeysDistinct (s ∷ ss) m d = bump_all-KeysDistinct ss (bump s m) (bump-KeysDistinct s m d)

select-absent : (id wanted : ℕ) (m : Counts) → IsAbsent id m → count_id id (select wanted m) ≡ 0
unfolding select
select-absent id wanted [] a = refl
select-absent id wanted ((t, n) ∷ m) a = ground (arith, select-absent id wanted m)

count_id-select :
    (id wanted : ℕ) (m : Counts)
    → 0 < wanted
    → KeysDistinct m
    → count_id id (select wanted m) ≡ (if lookup_count id m == wanted then 1 else 0)
unfolding select lookup_count
count_id-select id wanted [] h d = ground arith
count_id-select id wanted ((t, n) ∷ m) h d = elim (Bool-cases (t.id == id)) [
  | inl e ↦ let same = ==→eq t.id id e in ground (arith, select-absent id wanted m (rw same at d.0))
  | inr e ↦ ground (arith, count_id-select id wanted m h d.1)
]

-- Every rule of a list gives a list of snapshots that has the given identity.
abbrev pub AllDestroy : SliceSort last_n_less → List Snapshot → ℕ → List KeepRule → Type 0
AllDestroy slice snaps id [] = Unit
AllDestroy slice snaps id (r ∷ rs) =
    ((out : List Snapshot) × (apply_rule slice r snaps ≡ some out) × (0 < count_id id out))
    × AllDestroy slice snaps id rs

module _ (slice : SliceSort last_n_less) (snaps : List Snapshot) (id : ℕ)
    (distinct : count_id id snaps ≤ 1) where
  -- The count of an identity after the rules, and whether each rule added to it.
  record Tally (rs : List KeepRule) (m m' : Counts) : Type 0 where
    added : ℕ
    sum : lookup_count id m' ≡ lookup_count id m + added
    bounded : added ≤ length rs
    full : added ≡ length rs ↔ AllDestroy slice snaps id rs
    keys : KeysDistinct m → KeysDistinct m'

  Tally-first :
      (r : KeepRule) (rs : List KeepRule) (m m' : Counts) (out : List Snapshot)
      → apply_rule slice r snaps ≡ some out
      → Tally rs (bump_all out m) m'
      → Tally (r ∷ rs) m m'
  Tally-first r rs m m' out e t =
      let few = apply_rule-count slice (λ s. s.id == id) r snaps out e in
      record {
        added = count_id id out + t.added;
        sum = omega (arith, t.sum, lookup_count-bump_all id out m);
        bounded = omega (arith, t.bounded, few);
        full = (
          λ all. (
            (out, e, omega (arith, t.bounded, few, all)),
            t.full.0 (omega (arith, t.bounded, few, all)),
          ),
          λ a.
              let (x, ex, present) = a.0 in
              let same : x ≡ out = ground arith in
              let here : 0 < count_id id out = subst (λ l. 0 < count_id id l) same present in
              omega (arith, t.full.1 a.1, here, few),
        );
        keys = λ d. t.keys (bump_all-KeysDistinct out m d);
      }

  count_removals-Tally :
      (rs : List KeepRule) (m m' : Counts)
      → count_removals slice rs snaps m ≡ some m'
      → Tally rs m m'
  unfolding count_removals
  count_removals-Tally [] m m' h =
      let e : m ≡ m' = ground arith in
      rw (← e) (record {
        added = 0;
        sum = omega arith;
        bounded = omega arith;
        full = ((λ _. tt), λ _. refl);
        keys = λ d. d;
      })
  count_removals-Tally (r ∷ rs) m m' h = elim (Option-cases (apply_rule slice r snaps)) [
    | inl e ↦ absurd (ground arith)
    | inr (out, e) ↦
        Tally-first r rs m m' out e (count_removals-Tally rs (bump_all out m) m' (ground arith))
  ]

  -- Of snapshots with distinct identities, PruneSnapshots returns exactly those that every rule
  -- would destroy, each of them once.
  pub prune_snapshots-AllDestroy :
      (r : KeepRule) (rs : List KeepRule) (out : List Snapshot)
      → prune_snapshots slice snaps (r ∷ rs) ≡ some out
      → (0 < count_id id out ↔ AllDestroy slice snaps id (r ∷ rs)) × (count_id id out ≤ 1)
  unfolding prune_snapshots
  prune_snapshots-AllDestroy r rs out h =
      elim (Option-cases (count_removals slice (r ∷ rs) snaps [])) [
        | inl e ↦ absurd (ground arith)
        | inr (m, e) ↦
            let t = count_removals-Tally (r ∷ rs) [] m e in
            let shape : out ≡ select (length (r ∷ rs)) m = ground arith in
            let c = count_id-select id (suc (length rs)) m (omega arith) (t.keys tt) in
            let s : lookup_count id m ≡ t.added = unfold lookup_count in omega (arith, t.sum) in
            rw shape (
              (
                (λ present. t.full.0 (ground (arith, c, s))),
                λ all. ground (arith, c, s, t.full.1 all),
              ),
              ground (arith, c),
            )
      ]
