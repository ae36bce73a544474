-- ===== src/Filters/Inversion.antt =====
-- The inversion of a mapping of one subtree.
use Prim.Native.String.{String}
use zrepl.Prelude.{
  ℕ, zero, suc, ◌≤◌, ◌⊎◌, length, All, ◌≡◌, ◌≢◌, refl, sym, ap, ◌∙◌, subst, inl, inr, true, false,
  none, some, [], ◌∷◌, get_elem?, arith, Bool-cases, Option-cases, str_eq, str_eq→eq, Result, ok,
  err,
}
use zrepl.Zfs.DatasetPath.{
  DatasetPath, PathError, new_dataset_path, to_string, has_prefix, trim_prefix, extend,
}
use zrepl.Zfs.DatasetPath.Parse.{to_string-new_dataset_path}
use zrepl.Zfs.DatasetPath.Prefix.{has_prefix-append, trim_prefix-append, extend-trim_prefix}
use zrepl.Filters.{Entry, DatasetMapFilter, chosen, map_by, map_path, invert}
use zrepl.Filters.Best.{IsMostSpecific, ChosenAs, chosen-IsMostSpecific, is_direct, is_subtree}

module _ (e : Entry) (tree : e.subtree_match ≡ true) where
  only_entry : (i : ℕ) (f : Entry) → get_elem? (e ∷ []) i ≡ some f → e ≡ f
  only_entry zero f h = cc
  only_entry (suc i) f h = cc

  -- The only entry is picked for the paths below its own, and for no others.
  chosen_only :
      (p : DatasetPath) (f : Entry)
      → chosen (e ∷ []) p ≡ some f
      → (e ≡ f) × (has_prefix p e.path ≡ true)
  chosen_only p f h =
      let best : IsMostSpecific p (e ∷ []) f =
        subst (ChosenAs p (e ∷ [])) h (chosen-IsMostSpecific p (e ∷ [])) in
      let same = only_entry best.index f best.at_index in (same, below same best.best)
    where
      below :
          e ≡ f
          → (is_direct p f ≡ true)
            ⊎ ((is_subtree p f ≡ true)
                × All (λ g. is_direct p g ≡ false) (e ∷ [])
                × All (λ g. is_subtree p g ≡ true → length g.path ≤ length f.path) (e ∷ []))
          → has_prefix p e.path ≡ true
      below same (inl direct) =
          let here : is_direct p e ≡ true = subst (λ g. is_direct p g ≡ true) (sym same) direct in
          absurd (ground arith)
      below same (inr (sub, others, rest)) =
          let here : is_subtree p e ≡ true = subst (λ g. is_subtree p g ≡ true) (sym same) sub in
          ground arith

  only_chosen : (p : DatasetPath) → has_prefix p e.path ≡ true → chosen (e ∷ []) p ≡ some e
  only_chosen p below = elim (Option-cases (chosen (e ∷ []) p)) [
    | inl h ↦
        let never : ChosenAs p (e ∷ []) none =
          subst (ChosenAs p (e ∷ [])) h (chosen-IsMostSpecific p (e ∷ [])) in
        let off : is_subtree p e ≡ false = never.0.1 in absurd (ground arith)
    | inr (f, h) ↦ h ∙ ap some (sym (chosen_only p f h).0)
  ]

  -- Below a subtree, the target is the path of the mapping, extended by what is left of the source.
  map_by-target :
      (p t : DatasetPath) (target : Result PathError DatasetPath)
      → new_dataset_path e.mapping ≡ target
      → map_by e p ≡ ok (some t)
      → (q : DatasetPath) × (new_dataset_path e.mapping ≡ ok q)
        × (t ≡ extend q (trim_prefix p e.path))
  unfolding map_by
  map_by-target p t (err x) k h = elim (Bool-cases (str_eq e.mapping "!")) [
    | inl mark ↦ elim (Bool-cases (str_eq e.mapping "")) [ inl z ↦ cc | inr z ↦ cc ]
    | inr text ↦ elim (Bool-cases (str_eq e.mapping "")) [ inl z ↦ cc | inr z ↦ cc ]
  ]
  map_by-target p t (ok q) k h = elim (Bool-cases (str_eq e.mapping "!")) [
    | inl mark ↦ elim (Bool-cases (str_eq e.mapping "")) [ inl z ↦ cc | inr z ↦ cc ]
    | inr text ↦ (q, k, elim (Bool-cases (str_eq e.mapping "")) [ inl z ↦ cc | inr z ↦ cc ])
  ]

  target-map_by :
      (p q : DatasetPath)
      → str_eq e.mapping "!" ≡ false
      → new_dataset_path e.mapping ≡ ok q
      → map_by e p ≡ ok (some (extend q (trim_prefix p e.path)))
  unfolding map_by
  target-map_by p q text k = elim (Bool-cases (str_eq e.mapping "")) [ inl z ↦ cc | inr z ↦ cc ]

abbrev pub only : Entry → DatasetMapFilter
only e = record { entries = e ∷ []; filter_mode = false }

module _ (e : Entry) (tree : e.subtree_match ≡ true) where
  map_path-only :
      (p t : DatasetPath)
      → map_path (only e) p ≡ ok (some t)
      → (has_prefix p e.path ≡ true) × (map_by e p ≡ ok (some t))
  unfolding map_path
  map_path-only p t h = elim (Option-cases (chosen (e ∷ []) p)) [
    | inl k ↦ cc
    | inr (f, k) ↦
        let (same, below) = chosen_only e tree p f k in
        let here : map_by f p ≡ ok (some t) = cc in
        (below, subst (λ g. map_by g p ≡ ok (some t)) (sym same) here)
  ]

  only-map_path : (p : DatasetPath) → has_prefix p e.path ≡ true → map_path (only e) p ≡ map_by e p
  unfolding map_path
  only-map_path p below = rw (only_chosen e tree p below, map_path) refl

not_mark : (s : String) → s ≢ "!" → str_eq s "!" ≡ false
not_mark s other = elim (Bool-cases (str_eq s "!")) [
  | inl h ↦ absurd (other (str_eq→eq s "!" h))
  | inr h ↦ h
]

-- A mapping of one subtree, whose path was read from a text other than "!", can be undone: what
-- the mapping sends somewhere, the inverted mapping sends back.
pub map_path-invert :
    (e : Entry) (text : String) (inverted : DatasetMapFilter) (p t : DatasetPath)
    → e.subtree_match ≡ true
    → new_dataset_path text ≡ ok e.path
    → text ≢ "!"
    → invert (only e) ≡ ok inverted
    → map_path (only e) p ≡ ok (some t)
    → map_path inverted t ≡ ok (some p)
unfolding invert
map_path-invert e text inverted p t tree read other inv h =
    let (below, by) = map_path-only e tree p t h in
    let (q, k, same) = map_by-target e tree p t _ refl by in
    let (printed, plain) = to_string-new_dataset_path text e.path read in
    let back : Entry = record { path = q; mapping = to_string e.path; subtree_match = true } in
    let made : only back ≡ inverted = cc in
    let reread : new_dataset_path (to_string e.path) ≡ ok e.path =
      ap new_dataset_path printed ∙ read in
    let unmarked = not_mark (to_string e.path) (λ m. other (sym printed ∙ m)) in
    let rest = trim_prefix p e.path in
    let prefixed : has_prefix t q ≡ true =
      subst (λ z. has_prefix z q ≡ true) (sym same) (has_prefix-append q rest) in
    let left : trim_prefix t q ≡ rest =
      ap (λ z. trim_prefix z q) same ∙ trim_prefix-append q rest in
    subst (λ m. map_path m t ≡ ok (some p)) made
      (only-map_path back refl t prefixed
        ∙ target-map_by back refl t e.path unmarked reread
        ∙ ap (λ z. ok (some (extend e.path z))) left
        ∙ ap (λ z. ok (some z)) (extend-trim_prefix p e.path below))
