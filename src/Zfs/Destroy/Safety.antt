-- ===== src/Zfs/Destroy/Safety.antt =====
-- The whole of doDestroy: what it asks the destroyer for, and what it reports.
use Prim.Native.String.{String}
use mathlib.Core.List.{mem-cons_self, mem-cons_of_mem}
use mathlib.Core.List.Perm
use zrepl.Prelude.{
  ℕ, suc, ◌≡◌, ◌≢◌, subst, inl, inr, Bool, true, false, some, List, [], ◌∷◌, ◌++◌, length, str_eq,
  str_eq_refl, Mem, All, All-perm, Bool-cases, Option-cases, Result, ok, err,
}
use zrepl.Zfs.Destroy.{
  DestroySnapOp, OpError, Run, Destroyer, set_errors, destroy_batch, destroy_batches, validate,
  destroy_validated, do_destroy, build_batches, empty_filesystem, empty_name,
}
use zrepl.Zfs.Destroy.Batches.{concat, build_batches-IsBatch}
use zrepl.Zfs.Destroy.Sound.{destroy_batch-IsSound}
use zrepl.Zfs.Destroy.Confirmed.{IsSound, set_errors-IsSound, destroy_seq-IsSound, some_told}

module _ (P : DestroySnapOp → Type 0) where
  All-prefix : (xs ys : List DestroySnapOp) → All P (xs ++ ys) → All P xs × All P ys
  All-prefix [] ys h = (tt, h)
  All-prefix (x ∷ xs) ys h = let (l, r) = All-prefix xs ys h.1 in ((h.0, l), r)

  destroy_batches-IsSound :
      (d : Destroyer) (bs : List (List DestroySnapOp)) (s s' : Run)
      → All P (concat bs)
      → IsSound P s
      → destroy_batches d bs s ≡ some s'
      → IsSound P s'
  unfolding destroy_batches
  destroy_batches-IsSound d [] s s' h sound e =
      let same : s ≡ s' = cc in subst (IsSound P) same sound
  destroy_batches-IsSound d (b ∷ bs) s s' h sound e =
      let (here, later) = All-prefix b (concat bs) h in
      elim (Option-cases (destroy_batch (suc (length b)) d b s)) [
        | inl f ↦ cc
        | inr (s1, f) ↦
            destroy_batches-IsSound d bs s1 s' later
              (destroy_batch-IsSound P (suc (length b)) d b s s1 here sound f) (cc)
      ]

  destroy_validated-IsSound :
      (prop : (o : DestroySnapOp) → IsProp (P o)) (max : ℕ) (d : Destroyer)
      (supported : Result OpError Bool) (reqs : List DestroySnapOp) (s s' : Run)
      → All P reqs
      → IsSound P s
      → destroy_validated max d supported reqs s ≡ some s'
      → IsSound P s'
  unfolding destroy_validated
  destroy_validated-IsSound prop max d (err x) reqs s s' h sound e =
      let same : set_errors reqs (some x) s ≡ s' = cc in
      subst (IsSound P) same
        (set_errors-IsSound P reqs (some x) s (some_told P s.calls x reqs) sound)
  destroy_validated-IsSound prop max d (ok false) reqs s s' h sound e =
      subst (IsSound P) (cc) (destroy_seq-IsSound P d reqs s h sound)
  destroy_validated-IsSound prop max d (ok true) reqs s s' h sound e =
      let (same, batches) = build_batches-IsBatch max reqs in
      destroy_batches-IsSound d (build_batches max reqs) s s'
        (All-perm prop reqs _ (Perm.symm same) h) sound e

  not_empty : (s t : String) → str_eq s t ≡ false → s ≢ t
  not_empty s t h e =
      let yes : str_eq s t ≡ true = subst (λ u. str_eq s u ≡ true) e (str_eq_refl s) in cc

  validate-IsSound :
      (os : List DestroySnapOp) (s : Run)
      → ((o : DestroySnapOp) → Mem o os → o.filesystem ≢ "" → o.name ≢ "" → P o)
      → IsSound P s
      → All P (validate os s).0 × IsSound P (validate os s).1
  unfolding validate
  validate-IsSound [] s h sound = (tt, sound)
  validate-IsSound (o ∷ os) s h sound =
      let h' : (q : DestroySnapOp) → Mem q os → q.filesystem ≢ "" → q.name ≢ "" → P q =
        λ q m. h q (mem-cons_of_mem o m) in
      let reject : (x : OpError) → IsSound P (set_errors (o ∷ []) (some x) s) =
        λ x. set_errors-IsSound P (o ∷ []) (some x) s (some_told P s.calls x (o ∷ [])) sound in
      elim (Bool-cases (str_eq o.filesystem "")) [
        | inl e ↦ rw (e, validate) (validate-IsSound os _ h' (reject empty_filesystem))
        | inr e ↦ elim (Bool-cases (str_eq o.name "")) [
          | inl f ↦ rw (e, f, validate) (validate-IsSound os _ h' (reject empty_name))
          | inr f ↦
              let (valid, fine) = validate-IsSound os s h' sound in
              rw (e, f, validate)
                (
                  (h o mem-cons_self (not_empty o.filesystem "" e) (not_empty o.name "" f), valid),
                  fine,
                )
        ]
      ]

-- A request whose filesystem and name are not empty.
abbrev pub IsValidRequest : List DestroySnapOp → DestroySnapOp → Type 0
IsValidRequest reqs o = Mem o reqs × (o.filesystem ≢ "") × (o.name ≢ "")

-- However the destroyer answers and wherever it fails: each argument that doDestroy passes to it is
-- the text of one filesystem and of the names of one or more requests on it, with a filesystem and
-- a name each, joined by commas. An error is set to nil only for a request whose name is among those
-- that the argument of a call without an error was made of.
pub do_destroy-IsSound :
    (max : ℕ) (d : Destroyer) (reqs : List DestroySnapOp) (s : Run)
    → do_destroy max d reqs ≡ some s
    → IsSound (IsValidRequest reqs) s
unfolding do_destroy
do_destroy-IsSound max d reqs s e =
    let start : Run = record { calls = []; writes = [] } in
    let (valid, fine) =
      validate-IsSound (IsValidRequest reqs) reqs start (λ o m f n. (m, f, n))
        (record { asked = tt; told = tt }) in
    destroy_validated-IsSound (IsValidRequest reqs) (λ o. hlevel) max d d.comma_supported
      (validate reqs start).0 (validate reqs start).1 s valid fine e
