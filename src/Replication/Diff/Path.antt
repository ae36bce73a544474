-- ===== src/Replication/Diff/Path.antt =====
-- The path that IncrementalPath returns.
use mathlib.Core.List.{Sublist}
use mathlib.Core.List.Sublist
use zrepl.Prelude.{
  ℕ, suc, ◌-◌, ◌==◌, ◌≡◌, ◌≢◌, refl, sym, subst, Bool, true, false, not, ◌&&◌, ◌⊎◌, inl, inr,
  Option, none, some, List, [], ◌∷◌, All, All-map, length, get_elem?, drop, arith, ok, SliceSort,
  Bool-cases,
}
use zrepl.Replication.Version.{FilesystemVersion, version_less, is_snapshot, strip_bookmarks}
use zrepl.Replication.Diff.{
  Candidate, find_candidate, extend_path, path_from, sort_version_list, incremental_path,
}
use zrepl.Replication.Diff.Search.{MostRecentCommon, find_candidate-some}

-- Some version of the list has the guid.
abbrev pub HasGuid : ℕ → List FilesystemVersion → Type 0
HasGuid g [] = ⊥
HasGuid g (v ∷ vs) = (v.guid ≡ g) ⊎ HasGuid g vs

-- No two neighbours share a guid.
abbrev pub NoRepeat : FilesystemVersion → List FilesystemVersion → Type 0
NoRepeat newest [] = Unit
NoRepeat newest (v ∷ vs) = (newest.guid ≢ v.guid) × NoRepeat v vs

-- A snapshot is on the list, by its guid.
abbrev pub IsCovered : List FilesystemVersion → FilesystemVersion → Type 0
IsCovered path v = is_snapshot v ≡ true → HasGuid v.guid path

abbrev takes : FilesystemVersion → FilesystemVersion → Bool
takes newest v = is_snapshot v && not (newest.guid == v.guid)

extend_path-taken :
    (newest v : FilesystemVersion) (vs : List FilesystemVersion)
    → takes newest v ≡ true
    → extend_path newest (v ∷ vs) ≡ v ∷ extend_path v vs
unfolding extend_path
extend_path-taken newest v vs e = rw e

extend_path-skipped :
    (newest v : FilesystemVersion) (vs : List FilesystemVersion)
    → takes newest v ≡ false
    → extend_path newest (v ∷ vs) ≡ extend_path newest vs
unfolding extend_path
extend_path-skipped newest v vs e = rw e

pub extend_path-sublist :
    (newest : FilesystemVersion) (vs : List FilesystemVersion) → Sublist (extend_path newest vs) vs
unfolding extend_path
extend_path-sublist newest [] = Sublist.refl []
extend_path-sublist newest (v ∷ vs) = elim (Bool-cases (takes newest v)) [
  | inl e ↦ rw e (Sublist.cons-cons v (extend_path-sublist v vs))
  | inr e ↦ rw e (Sublist.cons v (extend_path-sublist newest vs))
]

pub extend_path-snapshots :
    (newest : FilesystemVersion) (vs : List FilesystemVersion)
    → All (λ v. is_snapshot v ≡ true) (extend_path newest vs)
unfolding extend_path
extend_path-snapshots newest [] = tt
extend_path-snapshots newest (v ∷ vs) = elim (Bool-cases (takes newest v)) [
  | inl e ↦ rw e (ground arith, extend_path-snapshots v vs)
  | inr e ↦ rw e (extend_path-snapshots newest vs)
]

pub extend_path-NoRepeat :
    (newest : FilesystemVersion) (vs : List FilesystemVersion)
    → NoRepeat newest (extend_path newest vs)
unfolding extend_path
extend_path-NoRepeat newest [] = tt
extend_path-NoRepeat newest (v ∷ vs) = elim (Bool-cases (takes newest v)) [
  | inl e ↦ rw e ((λ same. ground arith), extend_path-NoRepeat v vs)
  | inr e ↦ rw e (extend_path-NoRepeat newest vs)
]

-- A snapshot that is passed over has the guid of the version before it on the path.
pub extend_path-covers :
    (newest : FilesystemVersion) (vs : List FilesystemVersion)
    → All (IsCovered (newest ∷ extend_path newest vs)) vs
unfolding extend_path
extend_path-covers newest [] = tt
extend_path-covers newest (v ∷ vs) = elim (Bool-cases (takes newest v)) [
  | inl e ↦
      subst (λ q. All (IsCovered (newest ∷ q)) (v ∷ vs)) (sym (extend_path-taken newest v vs e))
        ((λ s. inr (inl refl)), All-map (λ w k s. inr (k s)) vs (extend_path-covers v vs))
  | inr e ↦
      subst (λ q. All (IsCovered (newest ∷ q)) (v ∷ vs)) (sym (extend_path-skipped newest v vs e))
        ((λ s. inl (ground arith)), extend_path-covers newest vs)
]

-- What a path promises, for the sorted lists of both sides: it leads from the sender's version of
-- the receiver's latest snapshot, over snapshots of the sender in order, past every newer one.
pub record IsIncrementalPath (receiver sender path : List FilesystemVersion) : Type 0 where
  pub latest : FilesystemVersion
  pub from : FilesystemVersion
  pub position : ℕ
  pub first : FilesystemVersion
  pub rest : List FilesystemVersion
  pub shape : path ≡ from ∷ first ∷ rest
  pub latest_at : get_elem? receiver (length receiver - 1) ≡ some latest
  pub from_at : get_elem? sender position ≡ some from
  pub same_guid : from.guid ≡ latest.guid
  pub in_order : Sublist (first ∷ rest) (drop (suc position) sender)
  pub snapshots : All (λ v. is_snapshot v ≡ true) (first ∷ rest)
  pub no_repeat : NoRepeat from (first ∷ rest)
  pub complete : All (IsCovered path) (drop (suc position) sender)

module _ (receiver sender : List FilesystemVersion) where
  path_of_extension :
      (c : Candidate) (e path : List FilesystemVersion)
      → MostRecentCommon receiver sender c
      → c.r ≡ length receiver - 1
      → e ≡ extend_path c.ancestor (drop (suc c.s) sender)
      → e ≢ []
      → path ≡ c.ancestor ∷ e
      → IsIncrementalPath receiver sender path
  path_of_extension c [] path m last he ne hp = absurd (ne refl)
  path_of_extension c (v ∷ vs) path m last he ne hp = record {
    latest = m.on_receiver;
    from = c.ancestor;
    position = c.s;
    first = v;
    rest = vs;
    shape = hp;
    latest_at = rw (← last) m.receiver_at;
    from_at = m.sender_at;
    same_guid = m.same_guid;
    in_order = rw he (extend_path-sublist c.ancestor _);
    snapshots =
        subst (All (λ w. is_snapshot w ≡ true)) (sym he) (extend_path-snapshots c.ancestor _);
    no_repeat = subst (NoRepeat c.ancestor) (sym he) (extend_path-NoRepeat c.ancestor _);
    complete = rw (hp, he) (extend_path-covers c.ancestor _);
  }

  path_from-ok :
      (c : Candidate) (path : List FilesystemVersion)
      → path_from receiver sender (some c) ≡ ok path
      → (c.r ≡ length receiver - 1)
        × (extend_path c.ancestor (drop (suc c.s) sender) ≢ [])
        × (path ≡ c.ancestor ∷ extend_path c.ancestor (drop (suc c.s) sender))
  unfolding path_from
  path_from-ok c path h = (ground arith, (λ e. ground arith), ground arith)

  found_path :
      (o : Option Candidate) (path : List FilesystemVersion)
      → find_candidate receiver sender ≡ o
      → path_from receiver sender o ≡ ok path
      → IsIncrementalPath receiver sender path
  unfolding path_from
  found_path none path e h = absurd (ground arith)
  found_path (some c) path e h =
      let (last, ne, hp) = path_from-ok c path h in
      path_of_extension c _ path (find_candidate-some receiver sender c e) last refl ne hp

-- Whatever order a sort gives to ties, a path that IncrementalPath returns starts at the sender's
-- version with the guid of the receiver's most recent snapshot. It goes on over at least one
-- snapshot of the sender, in the sender's order, with no guid repeated by a neighbour, and every
-- newer snapshot of the sender is on it by its guid.
pub incremental_path-IsIncrementalPath :
    (slice : SliceSort version_less) (receiver sender path : List FilesystemVersion)
    → incremental_path slice receiver sender ≡ ok path
    → IsIncrementalPath
        (sort_version_list slice (strip_bookmarks receiver))
        (sort_version_list slice sender)
        path
unfolding incremental_path
incremental_path-IsIncrementalPath slice receiver sender path h = found_path _ _ _ path refl h
