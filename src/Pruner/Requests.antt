-- ===== src/Pruner/Requests.antt =====
-- What a prune asks the target to destroy.
use Prim.Native.String.{String}
use mathlib.Core.Option.{some-injective}
use zrepl.Prelude.{
  ◌≡◌, refl, subst, ◌⊎◌, inl, inr, Bool, false, Option, some, List, [], ◌∷◌, map, All, ℤ, SliceSort,
  Result, err, ok, Bool-cases, Option-cases,
}
use zrepl.Replication.Version.{FilesystemVersion}
use zrepl.Pruning.Rules.{last_n_less, KeepRule}
use zrepl.Pruner.{Snap, Fs, new_fs, Filesystem, CursorRes, DestroyReq, Sides}
use zrepl.Pruner.Plan.{txg_less, plan_cursor, plan_versions, plan_fs, plan_all, has_path}
use zrepl.Pruner.Policy.{MayDestroy, plan_snapshots-MayDestroy}

-- The list of snapshots is empty, or the target and the sender have answered for the filesystem, and
-- each of the snapshots may be destroyed.
pub record IsBacked (parse : String → Option ℤ) (sides : Sides) (rules : List KeepRule)
    (path : String) (vs : List FilesystemVersion) : Type 0 where
  pub versions : List FilesystemVersion
  pub cursor : CursorRes
  pub listed : sides.target_versions path ≡ ok versions
  pub found : sides.replication_cursor path ≡ ok cursor
  pub exists : cursor.notexist ≡ false
  pub each : All (MayDestroy parse cursor.guid rules versions) vs

abbrev pub IsJustified : (String → Option ℤ) → Sides → List KeepRule → DestroyReq → Type 0
IsJustified parse sides rules r =
    (r.snapshots ≡ []) ⊎ IsBacked parse sides rules r.filesystem r.snapshots

abbrev versions_of : List Snap → List FilesystemVersion
versions_of ss = map (λ (s : Snap). s.fsv) ss

-- The filesystem's own request is justified.
abbrev pub FsJustified : (String → Option ℤ) → Sides → List KeepRule → Fs → Type 0
FsJustified parse sides rules f =
    (versions_of f.destroy_list ≡ [])
    ⊎ IsBacked parse sides rules f.path (versions_of f.destroy_list)

All-versions_of {κ} :
    (P : FilesystemVersion → Type κ) (ss : List Snap)
    → All (λ (s : Snap). P s.fsv) ss
    → All P (versions_of ss)
All-versions_of P [] h = tt
All-versions_of P (s ∷ ss) h = (h.0, All-versions_of P ss h.1)

module _ (slice_versions : SliceSort txg_less) (slice : SliceSort last_n_less)
    (parse : String → Option ℤ) (rules : List KeepRule) (consider : Bool) (sides : Sides) where
  plan_cursor-FsJustified :
      (path : String) (versions : List FilesystemVersion) (res : Result String CursorRes) (f : Fs)
      → sides.target_versions path ≡ ok versions
      → sides.replication_cursor path ≡ res
      → plan_cursor slice_versions slice parse rules consider (new_fs path) versions res ≡ some f
      → FsJustified parse sides rules f
  unfolding plan_cursor
  plan_cursor-FsJustified path versions (err e) f l r h =
      subst (λ g. FsJustified parse sides rules g) (some-injective _ _ h) (inl refl)
  plan_cursor-FsJustified path versions (ok rc) f l r h = elim (Bool-cases rc.notexist) [
    | inl e ↦
        subst (λ g. FsJustified parse sides rules g) (some-injective _ _ (rw e at h)) (inl refl)
    | inr e ↦
        let (each, fine, at) =
          plan_snapshots-MayDestroy slice_versions slice parse rules consider (new_fs path) rc.guid
            versions f refl (rw e at h) in
        inr (record {
          versions = versions;
          cursor = rc;
          listed = rw at l;
          found = rw at r;
          exists = e;
          each = All-versions_of _ f.destroy_list each;
        })
  ]

  plan_versions-FsJustified :
      (path : String) (res : Result String (List FilesystemVersion)) (f : Fs)
      → sides.target_versions path ≡ res
      → plan_versions slice_versions slice parse rules consider sides (new_fs path) res ≡ some f
      → FsJustified parse sides rules f
  unfolding plan_versions
  plan_versions-FsJustified path (err e) f l h =
      subst (λ g. FsJustified parse sides rules g) (some-injective _ _ h) (inl refl)
  plan_versions-FsJustified path (ok versions) f l h =
      plan_cursor-FsJustified path versions (sides.replication_cursor path) f l refl h

  plan_fs-FsJustified :
      (sfss : List Filesystem) (t : Filesystem) (f : Fs)
      → plan_fs slice_versions slice parse rules consider sides sfss t ≡ some f
      → FsJustified parse sides rules f
  unfolding plan_fs
  plan_fs-FsJustified sfss t f h = elim (Bool-cases t.is_placeholder) [
    | inl e ↦
        subst (λ g. FsJustified parse sides rules g) (some-injective _ _ (rw e at h)) (inl refl)
    | inr e ↦ elim (Bool-cases (has_path t.path sfss)) [
      | inr p ↦
          subst (λ g. FsJustified parse sides rules g) (some-injective _ _ (rw (e, p) at h))
            (inl refl)
      | inl p ↦
          plan_versions-FsJustified t.path (sides.target_versions t.path) f refl (rw (e, p) at h)
    ]
  ]

  pub plan_all-FsJustified :
      (sfss ts : List Filesystem) (fs : List Fs)
      → plan_all slice_versions slice parse rules consider sides sfss ts ≡ some fs
      → All (FsJustified parse sides rules) fs
  unfolding plan_all
  plan_all-FsJustified sfss [] fs h = let e : [] ≡ fs = cc in rw (← e) tt
  plan_all-FsJustified sfss (t ∷ ts) fs h =
      elim (Option-cases (plan_fs slice_versions slice parse rules consider sides sfss t)) [
        | inl e ↦ cc
        | inr (f, e) ↦
            elim (Option-cases (plan_all slice_versions slice parse rules consider sides sfss ts)) [
              | inl e' ↦ cc
              | inr (rest, e') ↦
                  let shape : f ∷ rest ≡ fs = cc in
                  subst (All (FsJustified parse sides rules)) shape
                    (plan_fs-FsJustified sfss t f e, plan_all-FsJustified sfss ts rest e')
            ]
      ]
