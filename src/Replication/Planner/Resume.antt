-- ===== src/Replication/Planner/Resume.antt =====
-- Planning with a resume token.
use Prim.Native.String.{String}
use zrepl.Prelude.{
  ℕ, zero, suc, ◌+◌, ◌≡◌, ◌≢◌, inl, inr, refl, sym, ap, subst, ◌∙◌, Bool-cases, ==_refl, ◌==◌, ◌&&◌,
  true, false, Option, none, some, List, [], ◌∷◌, map, get_elem?, drop, keep_if, arith, ok,
  SliceSort, Option-cases,
}
use zrepl.Replication.Version.{FilesystemVersion, version_less, is_snapshot}
use zrepl.Replication.Diff.{sort_version_list}
use zrepl.Replication.Planner.{
  ResumeToken, ResumeMatch, Step, new_step, version_of, same_pointer, next_from, match_version,
  match_token, resume_steps, steps_of_path, plan_resumed,
}
use zrepl.Replication.Planner.Steps.{IsChain, targets, step-IsChain, targets-steps_of_path}

-- The version that a token's `toguid` names: a snapshot at its place in the sorted list.
abbrev pub IsTarget : ResumeToken → List FilesystemVersion → ℕ → FilesystemVersion → Type 0
IsTarget token sorted idx to =
    (get_elem? sorted idx ≡ some to)
    × (is_snapshot to ≡ true)
    × (token.has_to_guid ≡ true)
    × (to.guid ≡ token.to_guid)

abbrev pub IsSource : ResumeToken → List FilesystemVersion → ℕ → FilesystemVersion → Type 0
IsSource token sorted idx from =
    (get_elem? sorted idx ≡ some from)
    × (token.has_from_guid ≡ true)
    × (from.guid ≡ token.from_guid)

-- Both positions that are known so far are right.
record IsMatch (token : ResumeToken) (sorted : List FilesystemVersion) (m : ResumeMatch)
    : Type 0 where
  to_right :
      (i : ℕ) (v : FilesystemVersion) → m.to_version ≡ some (i, v) → IsTarget token sorted i v
  from_right :
      (i : ℕ) (v : FilesystemVersion) → m.from_version ≡ some (i, v) → IsSource token sorted i v

module _ (token : ResumeToken) (sorted : List FilesystemVersion) where
  match_version-IsMatch :
      (m : ResumeMatch) (idx : ℕ) (v : FilesystemVersion)
      → get_elem? sorted idx ≡ some v
      → IsMatch token sorted m
      → IsMatch token sorted (match_version token m idx v)
  unfolding match_version
  match_version-IsMatch m idx v here h = record {
    to_right = λ i w e. ground (arith, h.to_right i w);
    from_right = λ i w e. ground (arith, h.from_right i w);
  }

  match_token-IsMatch :
      (m : ResumeMatch) (idx : ℕ) (vs : List FilesystemVersion)
      → ((j : ℕ) → get_elem? vs j ≡ get_elem? sorted (idx + j))
      → IsMatch token sorted m
      → IsMatch token sorted (match_token token m idx vs)
  unfolding match_token
  match_token-IsMatch m idx [] at h = h
  match_token-IsMatch m idx (v ∷ vs) at h =
      match_token-IsMatch (match_version token m idx v) (idx + 1) vs
        (λ j. at (suc j) ∙ ap (get_elem? sorted) {x = idx + suc j} (omega arith))
        (match_version-IsMatch m idx v here h)
    where
      here : get_elem? sorted idx ≡ some v
      here = ap (get_elem? sorted) {x = idx} (omega arith) ∙ sym (at 0)

  -- A version with the token's `fromguid` was found; a snapshot is found if `v` is one.
  abbrev IsFound : Option (ℕ × FilesystemVersion) → FilesystemVersion → Type 0
  IsFound found v =
      (i : ℕ) × (w : FilesystemVersion) × (found ≡ some (i, w))
      × (is_snapshot v ≡ true → is_snapshot w ≡ true)

  next_from-IsFound :
      (o : Option (ℕ × FilesystemVersion)) (idx : ℕ) (v : FilesystemVersion)
      → IsFound (next_from o idx v) v
  next_from-IsFound none idx v = (idx, v, refl, λ e. e)
  next_from-IsFound (some (i, w)) idx v = elim (Bool-cases (is_snapshot w)) [
    | inl e ↦ rw e (i, w, refl, λ s. e)
    | inr e ↦ rw e (idx, v, refl, λ s. s)
  ]

  next_from-keeps :
      (o : Option (ℕ × FilesystemVersion)) (idx : ℕ) (u v : FilesystemVersion)
      → IsFound o v
      → IsFound (next_from o idx u) v
  next_from-keeps none idx u v (i, w, e, s) = cc
  next_from-keeps (some (j, x)) idx u v (i, w, e, s) =
      let same : x ≡ w = cc in
      elim (Bool-cases (is_snapshot x)) [
        | inl k ↦ rw k (j, x, refl, λ t. k)
        | inr k ↦ rw k (idx, u, refl, λ t. let yes : is_snapshot x ≡ true = rw same (s t) in cc)
      ]

  match_version-finds :
      (m : ResumeMatch) (idx : ℕ) (v : FilesystemVersion)
      → token.has_from_guid ≡ true
      → v.guid ≡ token.from_guid
      → IsFound (match_version token m idx v).from_version v
  unfolding match_version
  match_version-finds m idx v has e =
      let hit : v.guid == token.from_guid ≡ true = rw e (==_refl token.from_guid) in
      rw (has, hit) (next_from-IsFound m.from_version idx v)

  match_version-keeps :
      (m : ResumeMatch) (idx : ℕ) (u v : FilesystemVersion)
      → IsFound m.from_version v
      → IsFound (match_version token m idx u).from_version v
  unfolding match_version
  match_version-keeps m idx u v h =
      elim (Bool-cases (token.has_from_guid && u.guid == token.from_guid)) [
        | inl e ↦ rw e (next_from-keeps m.from_version idx u v h)
        | inr e ↦ rw e h
      ]

  match_token-keeps :
      (m : ResumeMatch) (idx : ℕ) (us : List FilesystemVersion) (v : FilesystemVersion)
      → IsFound m.from_version v
      → IsFound (match_token token m idx us).from_version v
  unfolding match_token
  match_token-keeps m idx [] v h = h
  match_token-keeps m idx (u ∷ us) v h =
      match_token-keeps (match_version token m idx u) (idx + 1) us v
        (match_version-keeps m idx u v h)

  match_token-finds :
      (m : ResumeMatch) (idx : ℕ) (us : List FilesystemVersion) (j : ℕ) (v : FilesystemVersion)
      → get_elem? us j ≡ some v
      → token.has_from_guid ≡ true
      → v.guid ≡ token.from_guid
      → IsFound (match_token token m idx us).from_version v
  unfolding match_token
  match_token-finds m idx [] j v at has e = cc
  match_token-finds m idx (u ∷ us) zero v at has e =
      let same : u ≡ v = cc in
      match_token-keeps (match_version token m idx u) (idx + 1) us v (
        subst (λ x. IsFound (match_version token m idx u).from_version x) same
          (match_version-finds m idx u has (ap (λ x. x.guid) same ∙ e)))
  match_token-finds m idx (u ∷ us) (suc j) v at has e =
      match_token-finds (match_version token m idx u) (idx + 1) us j v at has e

  -- Nothing is known at the start.
  start-IsMatch : IsMatch token sorted (record { from_version = none; to_version = none })
  start-IsMatch = record { to_right = λ i v e. cc; from_right = λ i v e. cc }

-- From the first of the remaining snapshots on, there is one step to each.
drop_at :
    (sorted : List FilesystemVersion) (idx : ℕ) (to : FilesystemVersion)
    → get_elem? sorted idx ≡ some to
    → drop idx sorted ≡ to ∷ drop (suc idx) sorted
drop_at [] idx to e = cc
drop_at (v ∷ vs) zero to e = cc
drop_at (v ∷ vs) (suc idx) to e = drop_at vs idx to e

-- What a resumed plan promises.
pub record IsResumption (raw : String) (token : ResumeToken) (sorted : List FilesystemVersion)
    (steps : List Step) : Type 0 where
  pub index : ℕ
  pub to : FilesystemVersion
  pub from : Option FilesystemVersion
  pub later : List Step
  pub is_target : IsTarget token sorted index to
  pub is_source :
      (v : FilesystemVersion) → from ≡ some v → (i : ℕ) × (i ≢ index) × IsSource token sorted i v
  -- Whenever some version has the token's `fromguid`, the first step starts at such a version, and at
  -- a snapshot if one of them is a snapshot.
  pub finds_source :
      (j : ℕ) (v : FilesystemVersion)
      → IsSource token sorted j v
      → (w : FilesystemVersion) × (from ≡ some w) × (is_snapshot v ≡ true → is_snapshot w ≡ true)
  pub shape : steps ≡ new_step from (some to) raw ∷ later
  pub chain : IsChain steps
  pub covers : targets steps ≡ map some (keep_if is_snapshot (drop index sorted))

version_of-some :
    (o : Option (ℕ × FilesystemVersion)) (v : FilesystemVersion)
    → version_of o ≡ some v
    → (i : ℕ) × (o ≡ some (i, v))
version_of-some none v e = cc
version_of-some (some (i, w)) v e = (i, cc)

module _ (raw : String) (token : ResumeToken) (sorted : List FilesystemVersion) where
  resumed :
      (m : ResumeMatch) (idx : ℕ) (to : FilesystemVersion) (steps : List Step)
      → IsMatch token sorted m
      → ((j : ℕ) (v : FilesystemVersion)
          → IsSource token sorted j v
          → IsFound token sorted m.from_version v)
      → m.to_version ≡ some (idx, to)
      → same_pointer m.from_version idx ≡ false
      → steps
        ≡ new_step (version_of m.from_version) (some to) raw
          ∷ steps_of_path (map some (keep_if is_snapshot (drop idx sorted)))
      → IsResumption raw token sorted steps
  resumed m idx to steps h finds e apart shape = record {
    index = idx;
    to = to;
    from = version_of m.from_version;
    later = steps_of_path (map some (keep_if is_snapshot (drop idx sorted)));
    is_target = target;
    is_source = λ v ev.
        let (i, em) = version_of-some m.from_version v ev in
        (i, (λ same. ground arith), h.from_right i v em);
    finds_source = λ j v s. let (i, w, em, snap) = finds j v s in (w, rw em refl, snap);
    shape = shape;
    chain = rw (shape, remaining) (step-IsChain (version_of m.from_version) (some to) raw _);
    covers = rw (shape, remaining) (ap (◌∷◌ (some to)) (targets-steps_of_path (some to) _));
  }
    where
      target : IsTarget token sorted idx to
      target = h.to_right idx to e

      remaining :
          keep_if is_snapshot (drop idx sorted) ≡ to ∷ keep_if is_snapshot (drop (suc idx) sorted)
      remaining = rw (drop_at sorted idx to target.0, target.1)

  resume_steps-IsResumption :
      (m : ResumeMatch) (steps : List Step)
      → IsMatch token sorted m
      → ((j : ℕ) (v : FilesystemVersion)
          → IsSource token sorted j v
          → IsFound token sorted m.from_version v)
      → resume_steps raw sorted m ≡ ok steps
      → IsResumption raw token sorted steps
  unfolding resume_steps
  resume_steps-IsResumption m steps h finds e = elim (Option-cases m.to_version) [
    | inl no_target ↦ absurd (ground arith)
    | inr ((idx, to), found) ↦ resumed m idx to steps h finds found (ground arith) (ground arith)
  ]

-- A plan made from a resume token first continues the interrupted step: to the sender's snapshot
-- that the token's `toguid` names, with the token. It starts from another version that has the
-- token's `fromguid`, and from a snapshot if one has it; it is a full send only if the token has no
-- `fromguid` or no version of the sender has it. The plan then has one incremental step without a token to each later snapshot of the sender.
pub plan_resumed-IsResumption :
    (slice : SliceSort version_less) (raw : String) (token : ResumeToken)
    (sfsvs : List FilesystemVersion) (steps : List Step)
    → plan_resumed slice raw token sfsvs ≡ ok steps
    → IsResumption raw token (sort_version_list slice sfsvs) steps
unfolding plan_resumed
plan_resumed-IsResumption slice raw token sfsvs steps e =
    let sorted = sort_version_list slice sfsvs in
    resume_steps-IsResumption raw token sorted _ steps
      (match_token-IsMatch token sorted _ 0 sorted
        (λ j. ap (get_elem? sorted) {x = j} {y = 0 + j} (omega arith)) (start-IsMatch token sorted))
      (λ j v (at, has, same). match_token-finds token sorted _ 0 sorted j v at has same) e
