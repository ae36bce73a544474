-- ===== src/Replication/Driver/Global.antt =====
-- attempt.doGlobalPlanning: the filesystems of an attempt, their counterparts in the attempt before,
-- and their paths. What Plan answers is an argument.
use Prim.Native.String.{String}
use mathlib.Core.List.{mem-cons_self, mem-cons_of_mem}
use zrepl.Prelude.{
  ◌<◌, ◌≤◌, ◌≡◌, refl, sym, ap, ◌∙◌, subst, inl, inr, Bool, if◌then◌else◌, Option, none, some, List,
  [], ◌∷◌, length, map, keep_if, Mem, Perm, All, ltb, ltb→ge, string_less, SliceSort, Result, err,
  ok, arith, Bool-cases, length-perm,
}
use zrepl.Zfs.DatasetPath.{DatasetPath, PathError, new_dataset_path}

-- The interface FS, as far as the global planning decides by it.
pub record FsOps (F : Type 0) : Type 0 where
  pub name : F → String
  pub equal_to_previous_attempt : F → F → Bool

-- How the planning fails. `inconsistent` are the filesystems with several counterparts.
pub data GlobalError (E F : Type 0) : Type 0 where
  plan_error : (e : E) → GlobalError E F
  inconsistent : (found : List (F × List F)) → GlobalError E F
  bad_name : (name : String) (e : PathError) → GlobalError E F

-- A filesystem with its counterpart and its path.
pub record Placed (F : Type 0) : Type 0 where
  pub fs : F
  pub prev : Option F
  pub path : DatasetPath

module _ {F : Type 0} (ops : FsOps F) where
  -- prevFSs[fs]
  abbrev pub counterparts : List F → F → List F
  counterparts prevs cur = keep_if (λ p. ops.equal_to_previous_attempt cur p) prevs

  unfoldable pub inconsistencies : List F → List F → List (F × List F)
  inconsistencies prevs [] = []
  inconsistencies prevs (f ∷ fs) =
      let rest = inconsistencies prevs fs in
      let found = counterparts prevs f in if ltb 1 (length found) then (f, found) ∷ rest else rest

  -- `less` of the sort.SliceStable, whose input is in the order of a map.
  unfoldable pub name_less : F × List F → F × List F → Bool
  name_less a b = string_less (ops.name a.0) (ops.name b.0)

  -- prevs[cur]
  abbrev pub first_of : List F → Option F
  first_of [] = none
  first_of (f ∷ fs) = some f

  abbrev pub place :
      {E : Type 0}
      → List F
      → F
      → Result PathError DatasetPath
      → Result (GlobalError E F) (List (Placed F))
      → Result (GlobalError E F) (List (Placed F))
  place prevs f (err e) rest = err (bad_name (ops.name f) e)
  place prevs f (ok path) (err e) = err e
  place prevs f (ok path) (ok ps) =
      ok (record { fs = f; prev = first_of (counterparts prevs f); path = path } ∷ ps)

  -- The outer loop that makes a path of each name.
  unfoldable pub place_all :
      {E : Type 0} → List F → List F → Result (GlobalError E F) (List (Placed F))
  place_all prevs [] = ok []
  place_all prevs (f ∷ fs) = place prevs f (new_dataset_path (ops.name f)) (place_all prevs fs)

  module _ {E : Type 0} (slice : SliceSort name_less) where
    abbrev pub check_consistent :
        List F → List F → List (F × List F) → Result (GlobalError E F) (List (Placed F))
    check_consistent prevs fss [] = place_all prevs fss
    check_consistent prevs fss (i ∷ is) = err (inconsistent (slice.sort (i ∷ is)))

    -- doGlobalPlanning; `prevs` is empty in the first attempt.
    unfoldable pub do_global_planning :
        List F → Result E (List F) → Result (GlobalError E F) (List (Placed F))
    unfolding place_all inconsistencies
    do_global_planning prevs (err e) = err (plan_error e)
    do_global_planning prevs (ok fss) = check_consistent prevs fss (inconsistencies prevs fss)

  -- The counterpart of a filesystem is the only filesystem of the attempt before that is the same.
  pub record IsPlaced (prevs : List F) (f : F) (p : Placed F) : Type 0 where
    pub same : p.fs ≡ f
    pub named : new_dataset_path (ops.name f) ≡ ok p.path
    pub found : p.prev ≡ first_of (counterparts prevs f)
    pub unique : length (counterparts prevs f) ≤ 1

  -- The list goes along with another one.
  abbrev pub AllPlaced : List F → List F → List (Placed F) → Type 0
  AllPlaced prevs [] [] = Unit
  AllPlaced prevs [] (p ∷ ps) = 0 < 0
  AllPlaced prevs (f ∷ fs) [] = 0 < 0
  AllPlaced prevs (f ∷ fs) (p ∷ ps) = IsPlaced prevs f p × AllPlaced prevs fs ps

  -- The filesystems with several counterparts, each with all of them.
  abbrev pub ambiguities : List F → List F → List (F × List F)
  ambiguities prevs fs =
      map (λ f. (f, counterparts prevs f)) (keep_if (λ f. ltb 1 (length (counterparts prevs f))) fs)

  inconsistencies-all : (prevs fs : List F) → inconsistencies prevs fs ≡ ambiguities prevs fs
  unfolding inconsistencies
  inconsistencies-all prevs [] = refl
  inconsistencies-all prevs (f ∷ fs) = elim (Bool-cases (ltb 1 (length (counterparts prevs f)))) [
    | inl b ↦
        rw (b, inconsistencies) (ap (◌∷◌ (f, counterparts prevs f)) (inconsistencies-all prevs fs))
    | inr b ↦ rw (b, inconsistencies) (inconsistencies-all prevs fs)
  ]

  inconsistencies-none :
      (prevs fs : List F)
      → inconsistencies prevs fs ≡ []
      → All (λ f. length (counterparts prevs f) ≤ 1) fs
  unfolding inconsistencies
  inconsistencies-none prevs [] h = tt
  inconsistencies-none prevs (f ∷ fs) h =
      elim (Bool-cases (ltb 1 (length (counterparts prevs f)))) [
        | inl b ↦ let k = (rw (b, inconsistencies) at h) in cc
        | inr b ↦ (ltb→ge _ _ b, inconsistencies-none prevs fs (rw (b, inconsistencies) at h))
      ]

  place_all-AllPlaced :
      {E : Type 0} (prevs fs : List F) (out : List (Placed F))
      → All (λ f. length (counterparts prevs f) ≤ 1) fs
      → place_all {E = E} prevs fs ≡ ok out
      → AllPlaced prevs fs out
  unfolding place_all
  place_all-AllPlaced prevs [] out u h = let e : [] ≡ out = cc in rw (← e) tt
  place_all-AllPlaced {E} prevs (f ∷ fs) out u h =
      go (new_dataset_path (ops.name f)) refl (place_all {E = E} prevs fs) refl h
        (place_all-AllPlaced {E = E} prevs fs)
    where
      go :
          (r : Result PathError DatasetPath)
          → new_dataset_path (ops.name f) ≡ r
          → (rest : Result (GlobalError E F) (List (Placed F))) → place_all {E = E} prevs fs ≡ rest
          → place prevs f r rest ≡ ok out
          → ((ps : List (Placed F))
              → All (λ g. length (counterparts prevs g) ≤ 1) fs
              → place_all {E = E} prevs fs ≡ ok ps
              → AllPlaced prevs fs ps)
          → AllPlaced prevs (f ∷ fs) out
      go (err e) k rest l m ih = cc
      go (ok path) k (err e) l m ih = cc
      go (ok path) k (ok ps) l m ih =
          let shape : record { fs = f; prev = first_of (counterparts prevs f); path = path } ∷ ps
              ≡ out =
            cc in
          subst (AllPlaced prevs (f ∷ fs)) shape
            (record { same = refl; named = k; found = refl; unique = u.0 }, ih ps u.1 l)

  -- What the global planning returns, when Plan has listed filesystems.
  pub data IsGlobal {E : Type 0} (prevs fss : List F)
      : Result (GlobalError E F) (List (Placed F)) → Type 0 where
    placed : (out : List (Placed F)) → AllPlaced prevs fss out → IsGlobal prevs fss (ok out)
    ambiguous :
        (found : List (F × List F))
        → 0 < length found
        → Perm found (ambiguities prevs fss)
        → IsGlobal prevs fss (err (inconsistent found))
    unnamed :
        (f : F) (e : PathError)
        → Mem f fss
        → new_dataset_path (ops.name f) ≡ err e
        → IsGlobal prevs fss (err (bad_name (ops.name f) e))

  -- The loop over the names fails only for a name that is not a path.
  place_all-unnamed :
      {E : Type 0} (prevs all fs : List F) (e : GlobalError E F)
      → ((f : F) → Mem f fs → Mem f all)
      → place_all {E = E} prevs fs ≡ err e
      → IsGlobal prevs all (err e)
  unfolding place_all
  place_all-unnamed prevs all [] e within h = cc
  place_all-unnamed {E} prevs all (f ∷ fs) e within h =
      go (new_dataset_path (ops.name f)) refl (place_all {E = E} prevs fs) refl h
        (λ d. place_all-unnamed {E = E} prevs all fs d (λ g m. within g (mem-cons_of_mem f m)))
    where
      go :
          (r : Result PathError DatasetPath)
          → new_dataset_path (ops.name f) ≡ r
          → (rest : Result (GlobalError E F) (List (Placed F))) → place_all {E = E} prevs fs ≡ rest
          → place prevs f r rest ≡ err e
          → ((d : GlobalError E F)
              → place_all {E = E} prevs fs ≡ err d
              → IsGlobal prevs all (err d))
          → IsGlobal prevs all (err e)
      go (err bad) k rest l m ih =
          let shape : bad_name (ops.name f) bad ≡ e = cc in
          subst (λ d. IsGlobal prevs all (err d)) shape (unnamed f bad (within f mem-cons_self) k)
      go (ok path) k (err d) l m ih =
          let shape : d ≡ e = cc in subst (λ x. IsGlobal prevs all (err x)) shape (ih d l)
      go (ok path) k (ok ps) l m ih = cc

  -- When Plan has listed filesystems, the global planning gives each of them its path and its only
  -- counterpart in the attempt before, if it has one. Otherwise it fails: with all filesystems that
  -- have several counterparts, each with all of these, or with the name of one of the filesystems,
  -- which is not a path.
  pub do_global_planning-IsGlobal :
      {E : Type 0} (slice : SliceSort name_less) (prevs fss : List F)
      → IsGlobal {E = E} prevs fss (do_global_planning slice prevs (ok fss))
  unfolding do_global_planning
  do_global_planning-IsGlobal {E} slice prevs fss =
      go (inconsistencies prevs fss) refl (place_all {E = E} prevs fss) refl
    where
      go :
          (i : List (F × List F))
          → inconsistencies prevs fss ≡ i
          → (r : Result (GlobalError E F) (List (Placed F))) → place_all {E = E} prevs fss ≡ r
          → IsGlobal {E = E} prevs fss (check_consistent slice prevs fss i)
      go [] k (ok out) l = rw l (
          placed out
            (place_all-AllPlaced {E = E} prevs fss out (inconsistencies-none prevs fss k) l))
      go [] k (err e) l = rw l (place_all-unnamed {E = E} prevs fss fss e (λ g m. m) l)
      go (x ∷ xs) k r l =
          let perm = slice.sort-perm (x ∷ xs) in
          ambiguous (slice.sort (x ∷ xs)) (omega (arith, length-perm _ _ perm))
            (subst (Perm (slice.sort (x ∷ xs))) (sym k ∙ inconsistencies-all prevs fss) perm)
