-- ===== src/Zfs/DatasetPath/Parse.antt =====
-- Reading a path and writing it.
use Prim.Native.Char.{Char, code}
use Prim.Native.String.{String}
use text.Mathlib.TextEquality.{Char-path}
use zrepl.Prelude.{
  ◌≡◌, refl, sym, ap, ◌∙◌, subst, inl, inr, false, List, [], ◌∷◌, ◌==◌, ==→eq, All, str_eq,
  str_eq→eq, ok, Bool-cases, arith,
}
use zrepl.Zfs.DatasetPath.{DatasetPath, slash, prepend, split, to_string, new_dataset_path}

abbrev bar : Char
bar = "/"

-- No slash in it.
abbrev pub IsComponent : String → Type 0
IsComponent String.[] = Unit
IsComponent (String.◌∷◌ c s) = ((code c == slash) ≡ false) × IsComponent s

split_some : (s : String) → (w : String) × (ws : List String) × (split s ≡ w ∷ ws)
unfolding split
split_some String.[] = (String.[], [], refl)
split_some (String.◌∷◌ c s) = elim (Bool-cases (code c == slash)) [
  | inl e ↦ (String.[], split s, rw e refl)
  | inr e ↦ let (w, ws, h) = split_some s in (String.◌∷◌ c w, ws, rw (e, h) refl)
]

to_string-prepend :
    (c : Char) (w : String) (ws : List String)
    → to_string (prepend c (w ∷ ws)) ≡ String.◌∷◌ c (to_string (w ∷ ws))
unfolding to_string
to_string-prepend c w [] = refl
to_string-prepend c w (v ∷ ws) = refl

to_string-split : (s : String) → to_string (split s) ≡ s
unfolding split to_string
to_string-split String.[] = refl
to_string-split (String.◌∷◌ c s) =
    let (w, ws, h) = split_some s in
    let rest : to_string (w ∷ ws) ≡ s = ap to_string (sym h) ∙ to_string-split s in
    elim (Bool-cases (code c == slash)) [
      | inl e ↦
          let same = Char-path bar c (sym (==→eq (code c) slash e)) in
          rw (e, h) (ap (String.◌∷◌ bar) rest ∙ ap (λ d. String.◌∷◌ d s) same)
      | inr e ↦ rw (e, h) (to_string-prepend c w ws ∙ ap (String.◌∷◌ c) rest)
    ]

split-IsComponent : (s : String) → All IsComponent (split s)
unfolding split
split-IsComponent String.[] = (tt, tt)
split-IsComponent (String.◌∷◌ c s) =
    let (w, ws, h) = split_some s in
    let rest : All IsComponent (w ∷ ws) = subst (All IsComponent) h (split-IsComponent s) in
    elim (Bool-cases (code c == slash)) [
      | inl e ↦ rw (e, h) (tt, rest)
      | inr e ↦ rw (e, h) ((e, rest.0), rest.1)
    ]

-- A path that NewDatasetPath reads prints as the text that was read, and none of its components
-- holds a slash.
pub to_string-new_dataset_path :
    (s : String) (p : DatasetPath)
    → new_dataset_path s ≡ ok p
    → (to_string p ≡ s) × All IsComponent p
unfolding new_dataset_path to_string
to_string-new_dataset_path s p h = elim (Bool-cases (str_eq s "")) [
  | inl e ↦
      let same : [] ≡ p = ground arith in
      (ap to_string (sym same) ∙ sym (str_eq→eq s "" e), subst (All IsComponent) same tt)
  | inr e ↦
      let same : split s ≡ p = ground arith in
      (
        ap to_string (sym same) ∙ to_string-split s,
        subst (All IsComponent) same (split-IsComponent s),
      )
]
