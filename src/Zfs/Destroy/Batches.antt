-- ===== src/Zfs/Destroy/Batches.antt =====
-- What buildBatches makes of the requests.
use Prim.Native.String.{String}
use zrepl.Prelude.{
  ℕ, zero, suc, ◌+◌, ◌≤◌, ◌≡◌, refl, sym, ap, ◌∙◌, subst, inl, inr, true, ◌&&◌, ◌||◌, List, [], ◌∷◌,
  ◌++◌, length, ltb, str_eq, str_eq→eq, str_eq_refl, Perm, All, arith, Bool-cases,
  slice_stable-perm, slice_stable, length-append, ◌<◌,
}
use zrepl.Zfs.Destroy.{DestroySnapOp, take_batch, group_batches, build_batches, op_less}

abbrev pub concat : List (List DestroySnapOp) → List DestroySnapOp
concat [] = []
concat (b ∷ bs) = b ++ concat bs

-- At least one request, all on one filesystem, and no more than the limit, unless that is 0.
pub record IsBatch (max : ℕ) (b : List DestroySnapOp) : Type 0 where
  pub filesystem : String
  pub same : All (λ o. o.filesystem ≡ filesystem) b
  pub non_empty : 0 < length b
  pub limited : 0 < max → length b ≤ max

take_batch-append :
    (max : ℕ) (fs : String) (n : ℕ) (os : List DestroySnapOp)
    → (take_batch max fs n os).0 ++ (take_batch max fs n os).1 ≡ os
unfolding take_batch
take_batch-append max fs n [] = refl
take_batch-append max fs n (o ∷ os) =
    elim (Bool-cases ((ltb max 1 || ltb n max) && str_eq o.filesystem fs)) [
      | inl e ↦ rw e (ap (◌∷◌ o) (take_batch-append max fs (suc n) os))
      | inr e ↦ rw e refl
    ]

take_batch-All :
    (max : ℕ) (fs : String) (n : ℕ) (os : List DestroySnapOp)
    → All (λ o. o.filesystem ≡ fs) (take_batch max fs n os).0
unfolding take_batch
take_batch-All max fs n [] = tt
take_batch-All max fs n (o ∷ os) =
    elim (Bool-cases ((ltb max 1 || ltb n max) && str_eq o.filesystem fs)) [
      | inl e ↦
          let same : str_eq o.filesystem fs ≡ true = ground arith in
          rw e (str_eq→eq o.filesystem fs same, take_batch-All max fs (suc n) os)
      | inr e ↦ rw e tt
    ]

take_batch-le :
    (max : ℕ) (fs : String) (n : ℕ) (os : List DestroySnapOp)
    → 0 < max
    → n ≤ max
    → n + length (take_batch max fs n os).0 ≤ max
unfolding take_batch
take_batch-le max fs n [] pos le = omega arith
take_batch-le max fs n (o ∷ os) pos le =
    elim (Bool-cases ((ltb max 1 || ltb n max) && str_eq o.filesystem fs)) [
      | inl e ↦
          let below : n < max = ground arith in
          rw e (omega (arith, take_batch-le max fs (suc n) os pos (omega arith)))
      | inr e ↦ rw e (omega arith)
    ]

take_batch-first :
    (max : ℕ) (o : DestroySnapOp) (os : List DestroySnapOp)
    → 0 < length (take_batch max o.filesystem 0 (o ∷ os)).0
unfolding take_batch
take_batch-first max o os =
    let same = str_eq_refl o.filesystem in
    let fits : (ltb max 1 || ltb 0 max) ≡ true = ground arith in rw (fits, same) (omega arith)

group_batches-IsBatch :
    (fuel max : ℕ) (os : List DestroySnapOp) → All (IsBatch max) (group_batches fuel max os)
unfolding group_batches
group_batches-IsBatch zero max os = tt
group_batches-IsBatch (suc fuel) max [] = tt
group_batches-IsBatch (suc fuel) max (o ∷ os) = (
  record {
    filesystem = o.filesystem;
    same = take_batch-All max o.filesystem 0 (o ∷ os);
    non_empty = take_batch-first max o os;
    limited = λ pos. omega (arith, take_batch-le max o.filesystem 0 (o ∷ os) pos (omega arith));
  },
  group_batches-IsBatch fuel max (take_batch max o.filesystem 0 (o ∷ os)).1,
)

concat-group_batches :
    (fuel max : ℕ) (os : List DestroySnapOp)
    → length os ≤ fuel
    → concat (group_batches fuel max os) ≡ os
unfolding group_batches
concat-group_batches zero max [] le = refl
concat-group_batches zero max (o ∷ os) le = absurd (omega arith)
concat-group_batches (suc fuel) max [] le = refl
concat-group_batches (suc fuel) max (o ∷ os) le =
    let whole = take_batch-append max o.filesystem 0 (o ∷ os) in
    let batch = (take_batch max o.filesystem 0 (o ∷ os)).0 in
    let rest = (take_batch max o.filesystem 0 (o ∷ os)).1 in
    let shorter : length rest ≤ fuel =
      omega (arith, take_batch-first max o os, sym (length-append batch rest) ∙ ap length whole) in
    ap (◌++◌ batch) (concat-group_batches fuel max rest shorter) ∙ whole

-- The batches hold every request exactly once; each has at least one request and no more than the
-- limit (where there is one), all of them on one filesystem.
pub build_batches-IsBatch :
    (max : ℕ) (reqs : List DestroySnapOp)
    → Perm (concat (build_batches max reqs)) reqs × All (IsBatch max) (build_batches max reqs)
unfolding build_batches
build_batches-IsBatch max reqs =
    let sorted = slice_stable op_less reqs in
    (
      subst (λ os. Perm os reqs)
          (sym (concat-group_batches (length sorted) max sorted (omega arith)))
          (slice_stable-perm op_less reqs),
      group_batches-IsBatch (length sorted) max sorted,
    )
