-- ===== src/Pruner/Cursor.antt =====
-- Which snapshots the planning takes to be replicated, by their age against the cursor's.
use Prim.Native.String.{String}
use mathlib.Core.List.{mem-cons_self, mem-cons_of_mem}
use zrepl.Prelude.{
  ℕ, suc, ◌≤◌, ◌≡◌, refl, subst, ◌⊎◌, inl, inr, Bool, true, false, not, ◌&&◌, ◌||◌, Option, none,
  some, List, [], ◌∷◌, Mem, All, All-map, ℤ, ◌==◌, ==→eq, IsSorted, arith, Bool-cases, Option-cases,
  &&-true, ||-true, not-true,
}
use zrepl.Replication.Version.{FilesystemVersion, is_snapshot}
use zrepl.Pruner.{Snap}
use zrepl.Pruner.Plan.{txg_less, have_cursor_snapshot, Scan, scanned, prepend, scan_snapshots}

prepend-eq-scanned :
    (s : Snap) (x : Scan) (snaps : List Snap) (e : Bool)
    → prepend s x ≡ scanned snaps e
    → (rest : List Snap) × (x ≡ scanned rest e) × (s ∷ rest ≡ snaps)
prepend-eq-scanned s (scanned rest e') snaps e h = (rest, cc, cc)
prepend-eq-scanned s Scan.scan_panic snaps e h = cc

module _ (parse : String → Option ℤ) (consider : Bool) (guid : ℕ) where
  -- The snapshot that the scan makes of a version.
  abbrev pub snap_of : ℕ → Bool → FilesystemVersion → ℤ → Snap
  snap_of i pre v creation = record {
    position = i;
    replicated = (pre && not (v.guid == guid)) || (consider && (v.guid == guid));
    date = creation;
    fsv = v;
  }

  -- A version that the scan has taken as a snapshot.
  pub record Taken (i : ℕ) (pre : Bool) (v : FilesystemVersion) (vs : List FilesystemVersion)
      (snaps : List Snap) (end : Bool) : Type 0 where
    pub creation : ℤ
    pub parsed : parse v.creation ≡ some creation
    pub snapshot : is_snapshot v ≡ true
    pub rest : List Snap
    pub goes_on :
        scan_snapshots parse consider guid (suc i) (pre && not (v.guid == guid)) vs
        ≡ scanned rest end
    pub shape : snap_of i pre v creation ∷ rest ≡ snaps

  pub scan_snapshots-cons :
      (i : ℕ) (pre : Bool) (v : FilesystemVersion) (vs : List FilesystemVersion) (snaps : List Snap)
      (end : Bool)
      → scan_snapshots parse consider guid i pre (v ∷ vs) ≡ scanned snaps end
      → ((is_snapshot v ≡ false)
          × (scan_snapshots parse consider guid (suc i) pre vs ≡ scanned snaps end))
        ⊎ Taken i pre v vs snaps end
  unfolding scan_snapshots
  scan_snapshots-cons i pre v vs snaps end h = elim (Bool-cases (is_snapshot v)) [
    | inr e ↦ inl (e, (rw (e, scan_snapshots) at h))
    | inl e ↦ elim (Option-cases (parse v.creation)) [
      | inl p ↦ let k = (rw (e, p, scan_snapshots) at h) in cc
      | inr (creation, p) ↦
          let (rest, goes_on, shape) =
            prepend-eq-scanned (snap_of i pre v creation) _ snaps end
              (rw (e, p, scan_snapshots) at h) in
          inr (record {
            creation = creation;
            parsed = p;
            snapshot = e;
            rest = rest;
            goes_on = goes_on;
            shape = shape;
          })
    ]
  ]

-- Among the versions there is a snapshot that the cursor names and that is not older than `v`.
pub record IsCovered (guid : ℕ) (versions : List FilesystemVersion) (v : FilesystemVersion)
    : Type 0 where
  pub cursor : FilesystemVersion
  pub listed : Mem cursor versions
  pub is_snap : is_snapshot cursor ≡ true
  pub named : cursor.guid ≡ guid
  pub older : v.create_txg ≤ cursor.create_txg

IsCovered-cons :
    (guid : ℕ) (w : FilesystemVersion) (vs : List FilesystemVersion) (v : FilesystemVersion)
    → IsCovered guid vs v
    → IsCovered guid (w ∷ vs) v
IsCovered-cons guid w vs v c = record {
  cursor = c.cursor;
  listed = mem-cons_of_mem w c.listed;
  is_snap = c.is_snap;
  named = c.named;
  older = c.older;
}

-- In a sorted list, a snapshot that the cursor names covers all that stand before it.
have_cursor_snapshot-IsCovered :
    (guid : ℕ) (v : FilesystemVersion) (vs : List FilesystemVersion)
    → All (λ w. txg_less w v ≡ false) vs
    → have_cursor_snapshot guid vs ≡ true
    → IsCovered guid vs v
unfolding have_cursor_snapshot txg_less
have_cursor_snapshot-IsCovered guid v [] s h = cc
have_cursor_snapshot-IsCovered guid v (w ∷ vs) s h = elim (Bool-cases (is_snapshot w)) [
  | inr e ↦
      IsCovered-cons guid w vs v
        (have_cursor_snapshot-IsCovered guid v vs s.1 (rw (e, have_cursor_snapshot) at h))
  | inl e ↦ elim (Bool-cases (w.guid == guid)) [
    | inl at ↦ record {
      cursor = w;
      listed = mem-cons_self;
      is_snap = e;
      named = ==→eq w.guid guid at;
      older = ground (arith, s.0);
    }
    | inr off ↦
        IsCovered-cons guid w vs v
          (have_cursor_snapshot-IsCovered guid v vs s.1 (rw (e, off, have_cursor_snapshot) at h))
  ]
]

-- What the second loop keeps to: while it has not come to the cursor, the cursor is still ahead.
abbrev pub Ahead : ℕ → Bool → List FilesystemVersion → Type 0
Ahead guid pre vs = pre ≡ true → have_cursor_snapshot guid vs ≡ true

Ahead-snapshot :
    (guid : ℕ) (pre : Bool) (v : FilesystemVersion) (vs : List FilesystemVersion)
    → is_snapshot v ≡ true
    → Ahead guid pre (v ∷ vs)
    → Ahead guid (pre && not (v.guid == guid)) vs
unfolding have_cursor_snapshot
Ahead-snapshot guid pre v vs e a h =
    let (before, not_at) = &&-true pre _ h in
    rw (e, not-true _ not_at, have_cursor_snapshot) at (a before)

Ahead-other :
    (guid : ℕ) (pre : Bool) (v : FilesystemVersion) (vs : List FilesystemVersion)
    → is_snapshot v ≡ false
    → Ahead guid pre (v ∷ vs)
    → Ahead guid pre vs
unfolding have_cursor_snapshot
Ahead-other guid pre v vs e a h = rw (e, have_cursor_snapshot) at (a h)

-- The error for a target without the cursor's snapshot is never reported: `preCursor` is false after
-- the loop, whatever the versions are.
pub scan_snapshots-end :
    (parse : String → Option ℤ) (consider : Bool) (guid i : ℕ) (pre : Bool)
    (vs : List FilesystemVersion) (snaps : List Snap) (end : Bool)
    → Ahead guid pre vs
    → scan_snapshots parse consider guid i pre vs ≡ scanned snaps end
    → end ≡ false
unfolding have_cursor_snapshot scan_snapshots
scan_snapshots-end parse consider guid i true [] snaps end a h = let k = a refl in cc
scan_snapshots-end parse consider guid i false [] snaps end a h = cc
scan_snapshots-end parse consider guid i pre (v ∷ vs) snaps end a h =
    elim (scan_snapshots-cons parse consider guid i pre v vs snaps end h) [
      | inl (e, k) ↦
          scan_snapshots-end parse consider guid (suc i) pre vs snaps end
            (Ahead-other guid pre v vs e a) k
      | inr t ↦
          scan_snapshots-end parse consider guid (suc i) (pre && not (v.guid == guid)) vs t.rest end
            (Ahead-snapshot guid pre v vs t.snapshot a) t.goes_on
    ]

-- A snapshot that is taken to be replicated.
abbrev pub Claimed : ℕ → List FilesystemVersion → Snap → Type 0
Claimed guid versions s = s.replicated ≡ true → IsCovered guid versions s.fsv

-- The snapshot that is scanned first, where it is taken to be replicated.
Claimed-head :
    (consider : Bool) (guid i : ℕ) (pre : Bool) (v : FilesystemVersion)
    (vs : List FilesystemVersion) (creation : ℤ)
    → is_snapshot v ≡ true
    → IsSorted txg_less (v ∷ vs)
    → Ahead guid pre (v ∷ vs)
    → Claimed guid (v ∷ vs) (snap_of (λ _. none) consider guid i pre v creation)
Claimed-head consider guid i pre v vs creation e s a h =
    elim (||-true (pre && not (v.guid == guid)) _ h) [
      | inl before ↦
          IsCovered-cons guid v vs v
            (have_cursor_snapshot-IsCovered guid v vs s.0 (Ahead-snapshot guid pre v vs e a before))
      | inr at ↦ record {
        cursor = v;
        listed = mem-cons_self;
        is_snap = e;
        named = ==→eq v.guid guid (&&-true consider _ at).1;
        older = omega arith;
      }
    ]

pub scan_snapshots-Claimed :
    (parse : String → Option ℤ) (consider : Bool) (guid i : ℕ) (pre : Bool)
    (vs : List FilesystemVersion) (snaps : List Snap) (end : Bool)
    → IsSorted txg_less vs
    → Ahead guid pre vs
    → scan_snapshots parse consider guid i pre vs ≡ scanned snaps end
    → All (Claimed guid vs) snaps
unfolding scan_snapshots
scan_snapshots-Claimed parse consider guid i pre [] snaps end s a h =
    let e : [] ≡ snaps = cc in rw (← e) tt
scan_snapshots-Claimed parse consider guid i pre (v ∷ vs) snaps end s a h =
    elim (scan_snapshots-cons parse consider guid i pre v vs snaps end h) [
      | inl (e, k) ↦
          All-map (λ x c r. IsCovered-cons guid v vs x.fsv (c r)) snaps
            (scan_snapshots-Claimed parse consider guid (suc i) pre vs snaps end s.1
              (Ahead-other guid pre v vs e a) k)
      | inr t ↦ subst (All (Claimed guid (v ∷ vs))) t.shape (
        Claimed-head consider guid i pre v vs t.creation t.snapshot s a,
        All-map (λ x c r. IsCovered-cons guid v vs x.fsv (c r)) t.rest
            (scan_snapshots-Claimed parse consider guid (suc i) (pre && not (v.guid == guid)) vs
              t.rest end s.1 (Ahead-snapshot guid pre v vs t.snapshot a) t.goes_on),
      )
    ]
