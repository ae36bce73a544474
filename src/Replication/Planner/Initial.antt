-- ===== src/Replication/Planner/Initial.antt =====
-- Planning without a resume token.
use mathlib.Core.List.Perm
use zrepl.Prelude.{
  ℕ, ◌≡◌, ◌≢◌, refl, sym, subst, ◌∙◌, ◌<◌, true, false, Option, none, some, List, [], ◌∷◌, map, inl,
  inr, length, get_elem?, keep_if, scan_down, Hit, scan_down-Hit, scan_down-none, get_elem?-lt,
  All-get_elem?, All-at, keep_if-nil, keep_if-of_none, if◌then◌else◌, arith, ok, err, ◌>>=◌,
  SliceSort, Option-cases, slice_is_sorted, Perm,
}
use zrepl.Replication.Version.{FilesystemVersion, version_less, is_snapshot, strip_bookmarks}
use zrepl.Replication.Diff.{
  no_common_ancestor, find_candidate, path_from, sort_version_list, incremental_path,
}
use zrepl.Replication.Diff.Search.{sort_version_list-perm}
use zrepl.Replication.Planner.{
  InitialReplicationAutoResolution, most_recent, all_snapshots, Step, Plan, panicked, new_step,
  most_recent_snap, initial_path, try_autoresolve_conflict, steps_of_path, checked_steps,
  resolved_path, plan_incremental,
}
use zrepl.Replication.Planner.Steps.{
  IsChain, targets, steps_of_path-IsChain, targets-steps_of_path, checked_steps-ok,
}

-- The last snapshot of a list, with nothing but bookmarks after it.
pub record IsLastSnapshot (vs : List FilesystemVersion) (v : FilesystemVersion) : Type 0 where
  pub position : ℕ
  pub found : get_elem? vs position ≡ some v
  pub snapshot : is_snapshot v ≡ true
  pub last :
      (j : ℕ) (w : FilesystemVersion)
      → position < j
      → get_elem? vs j ≡ some w
      → is_snapshot w ≡ false

abbrev snapshot_at : List FilesystemVersion → ℕ → Option FilesystemVersion
snapshot_at vs n = elim (get_elem? vs n) [
  | none ↦ none
  | some v ↦ if is_snapshot v then some v else none
]

snapshot_at-none :
    (vs : List FilesystemVersion) (n : ℕ) (w : FilesystemVersion)
    → snapshot_at vs n ≡ none
    → get_elem? vs n ≡ some w
    → is_snapshot w ≡ false
snapshot_at-none vs n w h e = ground arith

snapshot_at-some :
    (vs : List FilesystemVersion) (n : ℕ) (v : FilesystemVersion)
    → snapshot_at vs n ≡ some v
    → (get_elem? vs n ≡ some v) × (is_snapshot v ≡ true)
snapshot_at-some vs n v h = ground arith

most_recent_snap-some :
    (vs : List FilesystemVersion) (v : FilesystemVersion)
    → most_recent_snap vs ≡ some v
    → IsLastSnapshot vs v
unfolding most_recent_snap
most_recent_snap-some vs v h =
    let hit : Hit (length vs) (snapshot_at vs) v = scan_down-Hit (length vs) (snapshot_at vs) v h in
    let (at, snap) = snapshot_at-some vs hit.index v hit.found in
    record {
      position = hit.index;
      found = at;
      snapshot = snap;
      last = λ j w lt e. snapshot_at-none vs j w (hit.later j lt (get_elem?-lt vs j w e)) e;
    }

most_recent_snap-ne-none :
    (vs : List FilesystemVersion) → most_recent_snap vs ≡ none → keep_if is_snapshot vs ≡ []
unfolding most_recent_snap
most_recent_snap-ne-none vs h = keep_if-of_none is_snapshot vs (
    All-get_elem? _ vs (λ j w e.
      snapshot_at-none vs j w
        (scan_down-none (length vs) (snapshot_at vs) h j (get_elem?-lt vs j w e)) e))

snapshot-clash : (v : FilesystemVersion) → is_snapshot v ≡ true → is_snapshot v ≡ false → ⊥
snapshot-clash v p q = ground arith

most_recent_snap-none :
    (vs : List FilesystemVersion) → keep_if is_snapshot vs ≡ [] → most_recent_snap vs ≡ none
most_recent_snap-none vs e = elim (Option-cases (most_recent_snap vs)) [
  | inl nothing ↦ nothing
  | inr (v, found) ↦
      let l = most_recent_snap-some vs v found in
      absurd (
        snapshot-clash v l.snapshot
          (All-at _ vs l.position v (keep_if-nil is_snapshot vs e) l.found))
]

-- A plan without a resume token is a chain: each step but the first starts where the one before it
-- ends, and no later step uses a token.
pub plan_incremental-IsChain :
    (slice : SliceSort version_less) (policy : InitialReplicationAutoResolution)
    (rfsvs sfsvs : List FilesystemVersion) (steps : List Step)
    → plan_incremental slice policy rfsvs sfsvs ≡ ok steps
    → IsChain steps
unfolding plan_incremental
plan_incremental-IsChain slice policy rfsvs sfsvs steps h =
    from_path (resolved_path policy (incremental_path slice rfsvs sfsvs)) h
  where
    from_path :
        (p : Plan (List (Option FilesystemVersion)))
        → (p >>= checked_steps) ≡ ok steps
        → IsChain steps
    from_path (ok path) e =
        subst IsChain (sym (checked_steps-ok path steps e)) (steps_of_path-IsChain path)
    from_path (err x) e = cc

-- What follows if the two sides have nothing in common and the receiver has no snapshots.
abbrev AutoResolves : List FilesystemVersion → Type 0
AutoResolves sender =
    (path_from [] sender none ≡ err (no_common_ancestor sender []))
    × ((policy : InitialReplicationAutoResolution)
        → try_autoresolve_conflict (no_common_ancestor sender []) policy
          ≡ initial_path policy sender)

autoresolves : (sender : List FilesystemVersion) → sender ≢ [] → AutoResolves sender
unfolding path_from try_autoresolve_conflict
autoresolves [] ne = absurd (ne refl)
autoresolves (v ∷ vs) ne = (refl, λ policy. refl)

-- There are versions on the sender, and no snapshots on the receiver.
pub record IsInitial (rfsvs sfsvs : List FilesystemVersion) : Type 0 where
  pub nothing_received : strip_bookmarks rfsvs ≡ []
  pub something_to_send : sfsvs ≢ []

module _ (slice : SliceSort version_less) (policy : InitialReplicationAutoResolution)
    (rfsvs sfsvs : List FilesystemVersion) (initial : IsInitial rfsvs sfsvs) where
  sorted_sender : sort_version_list slice sfsvs ≢ []
  sorted_sender e =
      initial.something_to_send
        (sym (Perm.nil-eq (subst (λ l. Perm l sfsvs) e (sort_version_list-perm slice sfsvs))))

  no_ancestor :
      incremental_path slice rfsvs sfsvs
      ≡ err (no_common_ancestor (sort_version_list slice sfsvs) [])
  unfolding incremental_path sort_version_list slice_is_sorted find_candidate scan_down
  no_ancestor =
      rw initial.nothing_received (autoresolves (sort_version_list slice sfsvs) sorted_sender).0

  plan_initial :
      plan_incremental slice policy rfsvs sfsvs
      ≡ (initial_path policy (sort_version_list slice sfsvs) >>= checked_steps)
  unfolding plan_incremental resolved_path
  plan_initial =
      rw (no_ancestor, (autoresolves (sort_version_list slice sfsvs) sorted_sender).1 policy)

-- The steps of an initial replication: the first one sends a whole snapshot.
pub record IsInitialPlan (steps : List Step) (wanted : List FilesystemVersion) : Type 0 where
  pub full : Step
  pub later : List Step
  pub shape : steps ≡ full ∷ later
  pub from_scratch : full.from ≡ none
  pub chain : IsChain steps
  pub covers : targets steps ≡ map some wanted

all_steps :
    (snaps : List FilesystemVersion)
    → snaps ≢ []
    → (steps : List Step) × (checked_steps (none ∷ map some snaps) ≡ ok steps)
      × IsInitialPlan steps snaps
unfolding checked_steps
all_steps [] ne = absurd (ne refl)
all_steps (v ∷ vs) ne =
    let path = none ∷ some v ∷ map some vs in
    (
      steps_of_path path,
      refl,
      record {
        full = new_step none (some v) "";
        later = steps_of_path (some v ∷ map some vs);
        shape = unfold steps_of_path in refl;
        from_scratch = refl;
        chain = steps_of_path-IsChain path;
        covers = targets-steps_of_path none (some v ∷ map some vs);
      },
    )

-- An initial replication of all snapshots, where the sender has any, sends the first one whole and
-- then one increment to each later one, in the sorted order.
pub plan_incremental-all :
    (slice : SliceSort version_less) (rfsvs sfsvs : List FilesystemVersion)
    → IsInitial rfsvs sfsvs
    → keep_if is_snapshot (sort_version_list slice sfsvs) ≢ []
    → (steps : List Step) × (plan_incremental slice all_snapshots rfsvs sfsvs ≡ ok steps)
      × IsInitialPlan steps (keep_if is_snapshot (sort_version_list slice sfsvs))
unfolding initial_path
plan_incremental-all slice rfsvs sfsvs i ne =
    let (steps, e, p) = all_steps _ ne in
    (steps, plan_initial slice all_snapshots rfsvs sfsvs i ∙ e, p)

-- Where the sender has only bookmarks, planning an initial replication of all snapshots panics, and
-- planning one of the most recent snapshot yields one step that has neither a source nor a target.
pub plan_incremental-only_bookmarks :
    (slice : SliceSort version_less) (rfsvs sfsvs : List FilesystemVersion)
    → IsInitial rfsvs sfsvs
    → keep_if is_snapshot (sort_version_list slice sfsvs) ≡ []
    → (plan_incremental slice all_snapshots rfsvs sfsvs ≡ err panicked)
      × (plan_incremental slice most_recent rfsvs sfsvs ≡ ok (new_step none none "" ∷ []))
unfolding initial_path checked_steps steps_of_path
plan_incremental-only_bookmarks slice rfsvs sfsvs i e = (
  plan_initial slice all_snapshots rfsvs sfsvs i ∙ rw e,
  plan_initial slice most_recent rfsvs sfsvs i ∙ rw (most_recent_snap-none _ e),
)

-- An initial replication of the most recent snapshot, where the sender has any, is one full send of
-- the last snapshot in the sorted order.
pub plan_incremental-most_recent :
    (slice : SliceSort version_less) (rfsvs sfsvs : List FilesystemVersion)
    → IsInitial rfsvs sfsvs
    → keep_if is_snapshot (sort_version_list slice sfsvs) ≢ []
    → (v : FilesystemVersion) × (plan_incremental slice most_recent rfsvs sfsvs
        ≡ ok (new_step none (some v) "" ∷ []))
      × IsLastSnapshot (sort_version_list slice sfsvs) v
unfolding initial_path checked_steps steps_of_path
plan_incremental-most_recent slice rfsvs sfsvs i ne =
    elim (Option-cases (most_recent_snap (sort_version_list slice sfsvs))) [
      | inl nothing ↦ absurd (ne (most_recent_snap-ne-none _ nothing))
      | inr (v, found) ↦ (
        v,
        plan_initial slice most_recent rfsvs sfsvs i ∙ rw found,
        most_recent_snap-some _ v found,
      )
    ]
