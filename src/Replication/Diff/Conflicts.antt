-- ===== src/Replication/Diff/Conflicts.antt =====
-- Why IncrementalPath refuses.
use zrepl.Prelude.{
  ℕ, suc, ◌-◌, ◌==◌, ◌≡◌, ◌≢◌, refl, sym, subst, ◌⊎◌, inl, inr, true, Option, none, some, List, [],
  ◌∷◌, All, length, get_elem?, get_elem?-lt, drop, arith, Result, ok, err, SliceSort, Bool-cases,
}
use zrepl.Replication.Version.{FilesystemVersion, version_less, strip_bookmarks}
use zrepl.Replication.Diff.{
  Candidate, Conflict, no_common_ancestor, diverged, no_sender_snapshots,
  most_recent_snapshot_already_present, find_candidate, extend_path, path_from, sort_version_list,
  incremental_path,
}
use zrepl.Replication.Diff.Search.{
  MostRecentCommon, NoneCommon, find_candidate-some, find_candidate-none,
}
use zrepl.Replication.Diff.Path.{IsCovered, extend_path-covers}

-- The sender has nothing new: all its snapshots after `position` have the guid of `ancestor`, which
-- is the receiver's latest.
pub record IsUpToDate (receiver sender : List FilesystemVersion) (ancestor : FilesystemVersion)
    : Type 0 where
  pub latest : FilesystemVersion
  pub position : ℕ
  pub latest_at : get_elem? receiver (length receiver - 1) ≡ some latest
  pub ancestor_at : get_elem? sender position ≡ some ancestor
  pub same_guid : ancestor.guid ≡ latest.guid
  pub nothing_new : All (IsCovered (ancestor ∷ [])) (drop (suc position) sender)

-- The receiver has snapshots after the most recent common ancestor.
pub record IsDiverged (receiver sender : List FilesystemVersion) (ancestor : FilesystemVersion)
    (sender_only receiver_only : List FilesystemVersion) : Type 0 where
  pub candidate : Candidate
  pub common : MostRecentCommon receiver sender candidate
  pub ancestor_eq : candidate.ancestor ≡ ancestor
  pub behind : candidate.r ≢ length receiver - 1
  pub sender_rest : sender_only ≡ drop (suc candidate.s) sender
  pub receiver_rest : receiver_only ≡ drop (suc candidate.r) receiver

-- What a conflict says of the two sorted lists.
abbrev pub Justifies : List FilesystemVersion → List FilesystemVersion → Conflict → Type 0
Justifies receiver sender (no_common_ancestor s r) =
    (s ≡ sender) × (r ≡ receiver) × (sender ≢ []) × NoneCommon receiver sender
Justifies receiver sender (diverged s r a s_only r_only) =
    (s ≡ sender) × (r ≡ receiver) × IsDiverged receiver sender a s_only r_only
Justifies receiver sender no_sender_snapshots = sender ≡ []
Justifies receiver sender (most_recent_snapshot_already_present s r a) =
    (s ≡ sender) × (r ≡ receiver) × IsUpToDate receiver sender a

-- What the code returns once the candidate is known, case by case.
abbrev ErrorOf :
    List FilesystemVersion
    → List FilesystemVersion
    → Result Conflict (List FilesystemVersion)
    → Type 0
ErrorOf receiver sender (ok path) = Unit
ErrorOf receiver sender (err c) = Justifies receiver sender c

get_elem?-nil : (i : ℕ) (x : FilesystemVersion) → get_elem? [] i ≡ some x → ⊥
get_elem?-nil i x e = cc

module _ (receiver sender : List FilesystemVersion) where
  none_Justifies :
      (s : List FilesystemVersion)
      → sender ≡ s
      → NoneCommon receiver sender
      → ErrorOf receiver sender (path_from receiver s none)
  unfolding path_from
  none_Justifies [] e n = e
  none_Justifies (v ∷ vs) e n = (sym e, refl, (λ empty. ground arith), n)

  up_to_date :
      (c : Candidate)
      → MostRecentCommon receiver sender c
      → c.r ≡ length receiver - 1
      → extend_path c.ancestor (drop (suc c.s) sender) ≡ []
      → IsUpToDate receiver sender c.ancestor
  up_to_date c m last e = record {
    latest = m.on_receiver;
    position = c.s;
    latest_at = rw (← last) m.receiver_at;
    ancestor_at = m.sender_at;
    same_guid = m.same_guid;
    nothing_new =
        subst (λ q. All (IsCovered (c.ancestor ∷ q)) (drop (suc c.s) sender)) e
          (extend_path-covers c.ancestor (drop (suc c.s) sender));
  }

  last_Justifies :
      (c : Candidate) (e : List FilesystemVersion)
      → MostRecentCommon receiver sender c
      → (c.r == length receiver - 1) ≡ true
      → extend_path c.ancestor (drop (suc c.s) sender) ≡ e
      → ErrorOf receiver sender (path_from receiver sender (some c))
  unfolding path_from
  last_Justifies c [] m last e = rw (last, e) (refl, refl, up_to_date c m (ground arith) e)
  last_Justifies c (v ∷ vs) m last e = rw (last, e) tt

  some_Justifies :
      (c : Candidate)
      → MostRecentCommon receiver sender c
      → ErrorOf receiver sender (path_from receiver sender (some c))
  some_Justifies c m = elim (Bool-cases (c.r == length receiver - 1)) [
    | inl last ↦ last_Justifies c _ m last refl
    | inr behind ↦
        unfold path_from in
        rw behind (
          refl,
          refl,
          record {
            candidate = c;
            common = m;
            ancestor_eq = refl;
            behind = λ e. ground arith;
            sender_rest = refl;
            receiver_rest = refl;
          },
        )
  ]

  path_from_Justifies :
      (o : Option Candidate)
      → find_candidate receiver sender ≡ o
      → ErrorOf receiver sender (path_from receiver sender o)
  path_from_Justifies none e = none_Justifies sender refl (find_candidate-none receiver sender e)
  path_from_Justifies (some c) e = some_Justifies c (find_candidate-some receiver sender c e)

  abbrev IsPossible : Result Conflict (List FilesystemVersion) → Type 0
  IsPossible res =
      ((path : List FilesystemVersion) × (res ≡ ok path))
      ⊎ ((a : FilesystemVersion) × (res
            ≡ err (most_recent_snapshot_already_present sender receiver a)))

  possible :
      (s : ℕ) (latest x : FilesystemVersion) (res : Result Conflict (List FilesystemVersion))
      → get_elem? receiver (length receiver - 1) ≡ some latest
      → get_elem? sender s ≡ some x
      → x.guid ≡ latest.guid
      → ErrorOf receiver sender res
      → IsPossible res
  possible s latest x (ok path) hl hx hg j = inl (path, refl)
  possible s latest x (err (no_common_ancestor _ _)) hl hx hg j = absurd (j.3 _ s x latest hx hl hg)
  possible s latest x (err (diverged _ _ _ _ _)) hl hx hg (_, _, d) =
      let lt = get_elem?-lt receiver d.candidate.r d.common.on_receiver d.common.receiver_at in
      let ne = d.behind in
      absurd (d.common.newer_receiver (length receiver - 1) s x latest (omega arith) hx hl hg)
  possible s latest x (err no_sender_snapshots) hl hx hg j = absurd (get_elem?-nil s x (rw j at hx))
  possible s latest x (err (most_recent_snapshot_already_present _ _ a)) hl hx hg (es, er, _) =
      inr (a, rw (es, er))

-- Each conflict that IncrementalPath returns is justified by the sorted lists: no sender versions at
-- all; no guid in common; a most recent common ancestor that is not the receiver's latest snapshot,
-- with exactly the versions after it on both sides; or a sender that has nothing newer.
pub incremental_path-Justifies :
    (slice : SliceSort version_less) (receiver sender : List FilesystemVersion) (c : Conflict)
    → incremental_path slice receiver sender ≡ err c
    → Justifies
        (sort_version_list slice (strip_bookmarks receiver))
        (sort_version_list slice sender)
        c
unfolding incremental_path
incremental_path-Justifies slice receiver sender c h =
    subst (ErrorOf _ _) h (path_from_Justifies _ _ _ refl)

-- When the sender still has a version with the guid of the receiver's latest snapshot, planning
-- does not fail: there is a path, or the receiver is up to date.
pub incremental_path_possible :
    (slice : SliceSort version_less) (receiver sender : List FilesystemVersion) (s : ℕ)
    (latest x : FilesystemVersion)
    → let r' = sort_version_list slice (strip_bookmarks receiver) in
      let s' = sort_version_list slice sender in
      get_elem? r' (length r' - 1) ≡ some latest
      → get_elem? s' s ≡ some x
      → x.guid ≡ latest.guid
      → ((path : List FilesystemVersion) × (incremental_path slice receiver sender ≡ ok path))
        ⊎ ((a : FilesystemVersion) × (incremental_path slice receiver sender
              ≡ err (most_recent_snapshot_already_present s' r' a)))
unfolding incremental_path
incremental_path_possible slice receiver sender s latest x hl hx hg =
    possible _ _ s latest x _ hl hx hg (path_from_Justifies _ _ _ refl)
