-- ===== src/Pruner/Policy.antt =====
-- What planning a filesystem decides to destroy.
use Prim.Native.String.{String}
use mathlib.Core.List.Perm
use zrepl.Prelude.{
  ℕ, ◌≤◌, ◌≡◌, refl, subst, Bool, true, false, Option, none, some, List, [], ◌∷◌, map, Mem, Perm,
  All, All-of_mem, get_elem?, ℤ, ◌==◌, count_if, SliceSort,
}
use zrepl.Replication.Version.{FilesystemVersion, is_snapshot}
use zrepl.Pruning.Rules.{Snapshot, last_n_less, KeepRule, keep_not_replicated, prune_snapshots}
use zrepl.Pruner.{Snap, Fs}
use zrepl.Pruner.Plan.{
  txg_less, have_cursor_snapshot, Scan, scanned, scan_panic, scan_snapshots, as_rule_snapshot,
  from_rule_snapshots, plan_pruned, plan_scanned, plan_snapshots,
}
use zrepl.Pruner.Cursor.{IsCovered, Claimed, scan_snapshots-Claimed, scan_snapshots-end}
use zrepl.Pruner.Older.{Parses, scan_snapshots-positions, scan_snapshots-All, scan_snapshots-parsed}
use zrepl.Pruner.Spared.{from_rule_snapshots-All, IsReplicated, prune_snapshots-IsReplicated}

-- A version may be destroyed: it is one of the listed snapshots, and with the rule that keeps what is
-- not replicated, a snapshot that the cursor names is not older.
pub record MayDestroy (parse : String → Option ℤ) (guid : ℕ) (rules : List KeepRule)
    (versions : List FilesystemVersion) (v : FilesystemVersion) : Type 0 where
  pub listed : Mem v versions
  pub is_snap : is_snapshot v ≡ true
  pub parsed : Parses parse v
  pub covered : (k : ℕ) → get_elem? rules k ≡ some keep_not_replicated → IsCovered guid versions v

IsCovered-perm :
    (guid : ℕ) (vs ws : List FilesystemVersion) (v : FilesystemVersion)
    → Perm vs ws
    → IsCovered guid vs v
    → IsCovered guid ws v
IsCovered-perm guid vs ws v p c = record {
  cursor = c.cursor;
  listed = (Perm.mem_iff p).0 c.listed;
  is_snap = c.is_snap;
  named = c.named;
  older = c.older;
}

All-zip {ℓ κ μ ν} :
    {A : Type ℓ} {P : A → Type κ} {Q : A → Type μ} {R : A → Type ν} (f : (a : A) → P a → Q a → R a)
    (xs : List A)
    → All P xs
    → All Q xs
    → All R xs
All-zip f [] p q = tt
All-zip f (x ∷ xs) p q = (f x p.0 q.0, All-zip f xs p.1 q.1)

All-swap {ℓ κ μ} :
    {A : Type ℓ} (P : ℕ → Type κ) (Q : A → Type μ) (xs : List A)
    → ((k : ℕ) → P k → All Q xs)
    → All (λ a. (k : ℕ) → P k → Q a) xs
All-swap P Q [] h = tt
All-swap P Q (x ∷ xs) h = (λ k p. (h k p).0, All-swap P Q xs (λ k p. (h k p).1))

module _ (slice_versions : SliceSort txg_less) (slice : SliceSort last_n_less)
    (parse : String → Option ℤ) (rules : List KeepRule) (consider : Bool) where
  scanned-MayDestroy :
      (guid : ℕ) (versions : List FilesystemVersion) (snaps : List Snap) (end : Bool)
      (out : List Snapshot)
      → scan_snapshots parse consider guid 0
          (have_cursor_snapshot guid (slice_versions.sort versions))
          (slice_versions.sort versions)
        ≡ scanned snaps end
      → prune_snapshots slice (map as_rule_snapshot snaps) rules ≡ some out
      → All
          (λ (s : Snap). MayDestroy parse guid rules versions s.fsv)
          (from_rule_snapshots snaps out)
  scanned-MayDestroy guid versions snaps end out h k' =
      let sorted = slice_versions.sort versions in
      let perm = slice_versions.sort-perm versions in
      let pre = have_cursor_snapshot guid sorted in
      let distinct : (j : ℕ) → count_if (λ (s : Snap). s.position == j) snaps ≤ 1 =
        λ j. (scan_snapshots-positions parse consider guid 0 pre sorted snaps end h j).0 in
      let claimed =
        scan_snapshots-Claimed parse consider guid 0 pre sorted snaps end
          (slice_versions.sort-IsSorted versions) (λ e. e) h in
      let members =
        scan_snapshots-All parse consider guid (λ v. Mem v versions × (is_snapshot v ≡ true)) 0 pre
          sorted snaps end (All-of_mem sorted (λ v m e. ((Perm.mem_iff perm).0 m, e))) h in
      let facts =
        All-zip
          {R = λ (s : Snap).
            (Mem s.fsv versions × (is_snapshot s.fsv ≡ true) × Parses parse s.fsv)
            × Claimed guid sorted s}
          (λ s m c. (m, c)) snaps
          (All-zip {P = λ (s : Snap). Mem s.fsv versions × (is_snapshot s.fsv ≡ true)}
            {R = λ (s : Snap). Mem s.fsv versions × (is_snapshot s.fsv ≡ true) × Parses parse s.fsv}
            (λ s m d. (m.0, m.1, d)) snaps members
            (scan_snapshots-parsed parse consider guid 0 pre sorted snaps end h))
          claimed in
      All-zip
        {P = λ (s : Snap).
          (Mem s.fsv versions × (is_snapshot s.fsv ≡ true) × Parses parse s.fsv)
          × Claimed guid sorted s}
        (λ s m r. record {
          listed = m.0.0;
          is_snap = m.0.1;
          parsed = m.0.2;
          covered = λ k e. IsCovered-perm guid sorted versions s.fsv perm (m.1 (r k e));
        })
        (from_rule_snapshots snaps out) (from_rule_snapshots-All _ snaps out facts)
        (All-swap (λ k. get_elem? rules k ≡ some keep_not_replicated) IsReplicated
          (from_rule_snapshots snaps out)
          (λ k e. prune_snapshots-IsReplicated slice snaps distinct k rules out e k'))

  -- What planning the snapshots of a filesystem gives.
  abbrev pub IsDecided : ℕ → List FilesystemVersion → String → Fs → Type 0
  IsDecided guid versions path f =
      All (λ (s : Snap). MayDestroy parse guid rules versions s.fsv) f.destroy_list
      × (f.plan_err ≡ none)
      × (f.path ≡ path)

  -- A filesystem that planning the snapshots gives has no plan error, and what it is to destroy may
  -- be destroyed.
  pub plan_snapshots-MayDestroy :
      (pfs : Fs) (guid : ℕ) (versions : List FilesystemVersion) (planned : Fs)
      → pfs.plan_err ≡ none
      → plan_snapshots slice_versions slice parse rules consider pfs guid versions ≡ some planned
      → IsDecided guid versions pfs.path planned
  unfolding plan_snapshots
  plan_snapshots-MayDestroy pfs guid versions planned fresh h =
      go (scan_snapshots parse consider guid 0 (have_cursor_snapshot guid sorted) sorted) refl h
    where
      sorted : List FilesystemVersion
      sorted = slice_versions.sort versions

      pruned :
          (snaps : List Snap)
          → scan_snapshots parse consider guid 0 (have_cursor_snapshot guid sorted) sorted
            ≡ scanned snaps false
          → (o : Option (List Snapshot))
          → prune_snapshots slice (map as_rule_snapshot snaps) rules ≡ o
          → plan_pruned pfs snaps o ≡ some planned
          → IsDecided guid versions pfs.path planned
      pruned snaps e none p h = cc
      pruned snaps e (some out) p h =
          let shape : record pfs { snaps = snaps; destroy_list = from_rule_snapshots snaps out }
              ≡ planned =
            cc in
          subst (IsDecided guid versions pfs.path) shape
            (scanned-MayDestroy guid versions snaps false out e p, fresh, refl)

      go :
          (x : Scan)
          → scan_snapshots parse consider guid 0 (have_cursor_snapshot guid sorted) sorted ≡ x
          → plan_scanned slice rules pfs x ≡ some planned
          → IsDecided guid versions pfs.path planned
      go scan_panic e h = cc
      go (scanned snaps true) e h =
          let never = scan_snapshots-end parse consider guid 0 _ sorted snaps true (λ e. e) e in cc
      go (scanned snaps false) e h =
          pruned snaps e (prune_snapshots slice (map as_rule_snapshot snaps) rules) refl h
