-- ===== src/Pruning/Grid/Total.antt =====
-- The loop over the entries of a grid loses none of them.
use mathlib.Core.List.{append_assoc, perm_middle, perm_append_comm}
use mathlib.Core.List.Perm
use zrepl.Prelude.{
  ◌≡◌, refl, inl, inr, some, List, [], ◌∷◌, ◌++◌, Perm, All, arith, ℤ, ltb_ℤ, Option-cases,
  Bool-cases,
}
use zrepl.Pruning.Grid.{Bucket, State, contains, add_to_first, place, assign}
use zrepl.Pruning.Grid.Fill.{too_old}

module _ {ℓ} {A : Type ℓ} where
  abbrev pub entries_of : List (Bucket A) → List A
  entries_of [] = []
  entries_of (b ∷ bs) = b.entries ++ entries_of bs

  -- Everything that a state holds.
  abbrev pub total : State A → List A
  total s = s.keep ++ (s.remove ++ entries_of s.buckets)

  pub append_left : (xs : List A) {ys zs : List A} → Perm ys zs → Perm (xs ++ ys) (xs ++ zs)
  append_left xs p = Perm.append (Perm.refl xs) p

  deep_middle : (xs ys zs : List A) (e : A) → Perm (xs ++ (ys ++ e ∷ zs)) (e ∷ (xs ++ (ys ++ zs)))
  deep_middle xs ys zs e =
      Perm.trans (append_left xs (perm_middle ys zs)) (perm_middle xs (ys ++ zs))

  pub regroup : (xs ys zs : List A) → Perm (xs ++ (ys ++ zs)) (ys ++ (xs ++ zs))
  regroup xs ys zs =
      rw (← append_assoc xs ys zs, ← append_assoc ys xs zs)
        (Perm.append (perm_append_comm xs ys) (Perm.refl zs))

  pub interchange :
      (xs ys zs ws : List A) → Perm ((xs ++ ys) ++ (zs ++ ws)) ((xs ++ zs) ++ (ys ++ ws))
  interchange xs ys zs ws = simp append_assoc (append_left xs (regroup ys zs ws))

  pub keeps_step :
      (keep held gone spared ts ss : List A)
      → held ≡ gone ++ spared
      → Perm ((keep ++ held) ++ (ts ++ ss)) (keep ++ ((gone ++ ts) ++ (spared ++ ss)))
  keeps_step keep held gone spared ts ss e =
      rw (append_assoc keep, e) (append_left keep (interchange gone spared ts ss))

  pub entries_of-empty : (bs : List (Bucket A)) → All (λ b. b.entries ≡ []) bs → entries_of bs ≡ []
  entries_of-empty [] h = refl
  entries_of-empty (b ∷ bs) h = rw (h.0, entries_of-empty bs h.1)

module _ {ℓ} {A : Type ℓ} (date : A → ℤ) where
  add_to_first-perm :
      (bs bs' : List (Bucket A)) (e : A)
      → add_to_first date bs e ≡ some bs'
      → Perm (entries_of bs') (e ∷ entries_of bs)
  unfolding add_to_first
  add_to_first-perm [] bs' e h = cc
  add_to_first-perm (b ∷ bs) bs' e h = elim (Bool-cases (contains date b e)) [
    | inl here ↦
        let shape : bs' ≡ record b { entries = b.entries ++ e ∷ [] } ∷ bs = ground arith in
        rw shape (rw append_assoc (perm_middle b.entries (entries_of bs)))
    | inr elsewhere ↦ elim (Option-cases (add_to_first date bs e)) [
      | inl none_fits ↦ absurd (ground arith)
      | inr (rest, found) ↦
          let shape : bs' ≡ b ∷ rest = ground arith in
          rw shape (
            Perm.trans (append_left b.entries (add_to_first-perm bs rest e found))
              (perm_middle b.entries (entries_of bs)))
    ]
  ]

  place-perm : (now : ℤ) (s : State A) (e : A) → Perm (total (place date now s e)) (e ∷ total s)
  unfolding place
  place-perm now s e = elim (Bool-cases (ltb_ℤ now (date e))) [
    | inl future ↦ rw (future, append_assoc) (perm_middle s.keep (s.remove ++ entries_of s.buckets))
    | inr past ↦ elim (Option-cases (add_to_first date s.buckets e)) [
      | inl too_old ↦
          rw (past, too_old)
            (rw append_assoc (deep_middle s.keep s.remove (entries_of s.buckets) e))
      | inr (bs, fits) ↦
          rw (past, fits)
            (Perm.trans
              (append_left s.keep (append_left s.remove (add_to_first-perm s.buckets bs e fits)))
              (deep_middle s.keep s.remove (entries_of s.buckets) e))
    ]
  ]

  pub assign-perm :
      (now : ℤ) (s : State A) (es : List A) → Perm (total (assign date now s es)) (es ++ total s)
  unfolding assign
  assign-perm now s [] = Perm.refl (total s)
  assign-perm now s (e ∷ es) =
      Perm.trans (assign-perm now (place date now s e) es)
        (Perm.trans (append_left es (place-perm now s e)) (perm_middle es (total s)))
