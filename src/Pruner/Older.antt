-- ===== src/Pruner/Older.antt =====
-- What the scan of the versions collects, and that it takes every snapshot to be replicated that is
-- older than the cursor's.
use Prim.Native.String.{String}
use zrepl.Prelude.{
  ℕ, zero, suc, ◌≤◌, ◌<◌, ◌≡◌, refl, sym, ap, subst, inl, inr, Bool, true, not, ◌&&◌, Option, none,
  some, Option-cases, get_elem?, List, [], ◌∷◌, All, All-map, ℤ, ◌==◌, ==→eq, count_if, IsSorted,
  arith, Bool-cases,
}
use zrepl.Replication.Version.{FilesystemVersion, is_snapshot}
use zrepl.Pruner.{Snap}
use zrepl.Pruner.Plan.{txg_less, scanned, scan_panic, prepend, scan_snapshots}
use zrepl.Pruner.Cursor.{scan_snapshots-cons, snap_of}

abbrev pub Parses : (String → Option ℤ) → FilesystemVersion → Type 0
Parses parse v = (t : ℤ) × (parse v.creation ≡ some t)

module _ (parse : String → Option ℤ) (consider : Bool) (guid : ℕ) where
  -- What holds of every snapshot among the versions holds of what is collected.
  pub scan_snapshots-All {κ} :
      (P : FilesystemVersion → Type κ) (i : ℕ) (pre : Bool) (vs : List FilesystemVersion)
      (snaps : List Snap) (end : Bool)
      → All (λ v. is_snapshot v ≡ true → P v) vs
      → scan_snapshots parse consider guid i pre vs ≡ scanned snaps end
      → All (λ (s : Snap). P s.fsv) snaps
  unfolding scan_snapshots
  scan_snapshots-All P i pre [] snaps end a h = let e : [] ≡ snaps = cc in rw (← e) tt
  scan_snapshots-All P i pre (v ∷ vs) snaps end a h =
      elim (scan_snapshots-cons parse consider guid i pre v vs snaps end h) [
        | inl (e, k) ↦ scan_snapshots-All P (suc i) pre vs snaps end a.1 k
        | inr t ↦ subst (All (λ (s : Snap). P s.fsv)) t.shape (
          a.0 t.snapshot,
          scan_snapshots-All P (suc i) (pre && not (v.guid == guid)) vs t.rest end a.1 t.goes_on,
        )
      ]

  -- The date of every collected snapshot can be parsed.
  pub scan_snapshots-parsed :
      (i : ℕ) (pre : Bool) (vs : List FilesystemVersion) (snaps : List Snap) (end : Bool)
      → scan_snapshots parse consider guid i pre vs ≡ scanned snaps end
      → All (λ (s : Snap). Parses parse s.fsv) snaps
  unfolding scan_snapshots
  scan_snapshots-parsed i pre [] snaps end h = let e : [] ≡ snaps = cc in rw (← e) tt
  scan_snapshots-parsed i pre (v ∷ vs) snaps end h =
      elim (scan_snapshots-cons parse consider guid i pre v vs snaps end h) [
        | inl (e, k) ↦ scan_snapshots-parsed (suc i) pre vs snaps end k
        | inr t ↦ subst (All (λ (s : Snap). Parses parse s.fsv)) t.shape (
          (t.creation, t.parsed),
          scan_snapshots-parsed (suc i) (pre && not (v.guid == guid)) vs t.rest end t.goes_on,
        )
      ]

  -- No two of the collected snapshots have the same position.
  pub scan_snapshots-positions :
      (i : ℕ) (pre : Bool) (vs : List FilesystemVersion) (snaps : List Snap) (end : Bool)
      → scan_snapshots parse consider guid i pre vs ≡ scanned snaps end
      → (j : ℕ)
      → (count_if (λ (s : Snap). s.position == j) snaps ≤ 1)
        × (j < i → count_if (λ (s : Snap). s.position == j) snaps ≡ 0)
  unfolding scan_snapshots
  scan_snapshots-positions i pre [] snaps end h j =
      let e : [] ≡ snaps = cc in rw (← e) (omega arith, λ _. refl)
  scan_snapshots-positions i pre (v ∷ vs) snaps end h j =
      elim (scan_snapshots-cons parse consider guid i pre v vs snaps end h) [
        | inl (e, k) ↦
            let r = scan_snapshots-positions (suc i) pre vs snaps end k j in
            (r.0, λ lt. r.1 (omega arith))
        | inr t ↦
            let r =
              scan_snapshots-positions (suc i) (pre && not (v.guid == guid)) vs t.rest end t.goes_on
                j in
            subst
              (λ l.
                (count_if (λ (s : Snap). s.position == j) l ≤ 1)
                × (j < i → count_if (λ (s : Snap). s.position == j) l ≡ 0))
              t.shape (ground (arith, r), λ lt. ground (arith, r))
      ]

  -- Older than every snapshot that the cursor names.
  abbrev pub IsOlder : List FilesystemVersion → FilesystemVersion → Type 0
  IsOlder versions v =
      All (λ c. is_snapshot c ≡ true → c.guid ≡ guid → v.create_txg < c.create_txg) versions

  -- Of versions in the order of their transaction groups, scanned with the cursor's snapshot still to
  -- come, every snapshot that is older than all snapshots with the cursor's guid counts as replicated.
  pub scan_snapshots-replicated :
      (i : ℕ) (vs : List FilesystemVersion) (snaps : List Snap) (end : Bool)
      → IsSorted txg_less vs
      → scan_snapshots parse consider guid i true vs ≡ scanned snaps end
      → All (λ (s : Snap). IsOlder vs s.fsv → s.replicated ≡ true) snaps
  unfolding scan_snapshots txg_less
  scan_snapshots-replicated i [] snaps end s h = let e : [] ≡ snaps = cc in rw (← e) tt
  scan_snapshots-replicated i (v ∷ vs) snaps end s h =
      elim (scan_snapshots-cons parse consider guid i true v vs snaps end h) [
        | inl (e, k) ↦
            All-map (λ x f older. f older.1) snaps
              (scan_snapshots-replicated (suc i) vs snaps end s.1 k)
        | inr t ↦
            subst (All (λ (x : Snap). IsOlder (v ∷ vs) x.fsv → x.replicated ≡ true)) t.shape
              (elim (Bool-cases (v.guid == guid)) [
                | inl at ↦
                    let named = ==→eq v.guid guid at in
                    let later : All (λ (x : Snap). v.create_txg ≤ x.fsv.create_txg) t.rest =
                      scan_snapshots-All (λ w. v.create_txg ≤ w.create_txg) (suc i) _ vs t.rest end
                        (All-map (λ w n _. ground arith) vs s.0) t.goes_on in
                    (
                      λ older. absurd (omega (arith, older.0 t.snapshot named)),
                      All-map (λ x le older. absurd (omega (arith, older.0 t.snapshot named)))
                          t.rest later,
                    )
                | inr off ↦ (
                  λ older. rw off refl,
                  All-map (λ x f older. f older.1) t.rest
                      (scan_snapshots-replicated (suc i) vs t.rest end s.1 (rw off at t.goes_on)),
                )
              ])
      ]

-- The scan panics on a snapshot whose date cannot be parsed, wherever it stands: the message of the
-- planning error that is meant for it needs the name that RelName gives, which parses the date again.
pub scan_snapshots-panics :
    (parse : String → Option ℤ) (consider : Bool) (guid i : ℕ) (pre : Bool)
    (vs : List FilesystemVersion) (k : ℕ) (v : FilesystemVersion)
    → get_elem? vs k ≡ some v
    → is_snapshot v ≡ true
    → parse v.creation ≡ none
    → scan_snapshots parse consider guid i pre vs ≡ scan_panic
unfolding scan_snapshots
scan_snapshots-panics parse consider guid i pre [] k v h s p = cc
scan_snapshots-panics parse consider guid i pre (w ∷ vs) zero v h s p =
    let same : w ≡ v = cc in
    let is_snap : is_snapshot w ≡ true = subst (λ x. is_snapshot x ≡ true) (sym same) s in
    let unparsed : parse w.creation ≡ none =
      subst (λ (x : FilesystemVersion). parse x.creation ≡ none) (sym same) p in
    rw (is_snap, unparsed, scan_snapshots) refl
scan_snapshots-panics parse consider guid i pre (w ∷ vs) (suc k) v h s p =
    elim (Bool-cases (is_snapshot w)) [
      | inr e ↦
          rw (e, scan_snapshots)
            (scan_snapshots-panics parse consider guid (suc i) pre vs k v h s p)
      | inl e ↦ elim (Option-cases (parse w.creation)) [
        | inl q ↦ rw (e, q, scan_snapshots) refl
        | inr (creation, q) ↦
            rw (e, q, scan_snapshots)
              (ap (prepend (snap_of parse consider guid i pre w creation)) (
                scan_snapshots-panics parse consider guid (suc i) (pre && not (w.guid == guid)) vs k
                  v h s p))
      ]
    ]
