-- ===== src/Zfs/Namecheck/Valid.antt =====
-- The names of filesystems and volumes that EntityNamecheck accepts.
use zrepl.Prelude.{
  ℕ, ◌+◌, ◌≤◌, ◌<◌, ◌≡◌, subst, inl, inr, true, false, none, List, [], ◌∷◌, length, All, ◌==◌, ltb,
  arith, Option-cases,
}
use zrepl.Zfs.Namecheck.{
  EntityType, valid, invalid, component_namecheck, contains_byte, count_byte, split_slashes,
  is_valid_char, all_valid_chars, is_ascii, check_components, check_slash_comps, is_snapshot_type,
  is_bookmark_type, check_whole, entity_namecheck,
}
use zrepl.Zfs.Namecheck.Panics.{split-absent}

-- Between 1 and 255 bytes, each of them a letter, a digit or one of `-_.: `.
pub record IsValidComponent (c : List ℕ) : Type 0 where
  pub non_empty : 0 < length c
  pub short : length c ≤ 255
  pub characters : All (λ b. is_valid_char b ≡ true) c

all_valid-All : (c : List ℕ) → all_valid_chars c ≡ true → All (λ b. is_valid_char b ≡ true) c
unfolding all_valid_chars
all_valid-All [] h = tt
all_valid-All (b ∷ c) h =
    let here : is_valid_char b ≡ true = ground arith in
    let rest : all_valid_chars c ≡ true = ground arith in (here, all_valid-All c rest)

component-IsValidComponent : (c : List ℕ) → component_namecheck c ≡ none → IsValidComponent c
unfolding component_namecheck
component-IsValidComponent c h =
    let some_byte : (length c == 0) ≡ false = ground arith in
    let few : ltb 255 (length c) ≡ false = ground arith in
    let ascii : is_ascii c ≡ true = ground arith in
    let good : all_valid_chars c ≡ true = ground arith in
    record { non_empty = ground arith; short = ground arith; characters = all_valid-All c good }

slash_comps-All :
    (cs : List (List ℕ))
    → All (λ c. count_byte 64 c ≡ 0) cs
    → All (λ c. count_byte 35 c ≡ 0) cs
    → check_slash_comps 0 cs ≡ valid
    → All IsValidComponent cs
unfolding check_slash_comps check_components
slash_comps-All [] a b h = tt
slash_comps-All (c ∷ cs) a b h =
    let at = a.0 in
    let hash = b.0 in
    elim (Option-cases (component_namecheck c)) [
      | inl e ↦
          let no_delims : 0 + (count_byte 64 c + count_byte 35 c) ≡ 0 = omega (arith, at, hash) in
          let goes_on : check_slash_comps (0 + (count_byte 64 c + count_byte 35 c)) cs ≡ valid =
            rw (at, hash, e, check_slash_comps, check_components) at h in
          let rest = subst (λ n. check_slash_comps n cs ≡ valid) no_delims goes_on in
          (component-IsValidComponent c e, slash_comps-All cs a.1 b.1 rest)
      | inr (x, e) ↦
          let bad : invalid _ ≡ valid =
            rw (at, hash, e, check_slash_comps, check_components) at h in
          cc
    ]

-- A name that EntityNamecheck accepts for a filesystem or a volume has at most 255 bytes, and each
-- part between two slashes is between 1 and 255 letters, digits and characters of `-_.: `.
pub entity_namecheck-IsValidComponent :
    (path : List ℕ) (t : EntityType)
    → is_snapshot_type t ≡ false
    → is_bookmark_type t ≡ false
    → entity_namecheck path t ≡ valid
    → (length path ≤ 255) × All IsValidComponent (split_slashes path)
unfolding entity_namecheck check_whole
entity_namecheck-IsValidComponent path t snap mark h = elim (Option-cases (check_whole path t)) [
  | inr (x, e) ↦ cc
  | inl e ↦
      let loop : check_slash_comps 0 (split_slashes path) ≡ valid = cc in
      let at : contains_byte 64 path ≡ false = ground arith in
      let hash : contains_byte 35 path ≡ false = ground arith in
      let few : ltb 255 (length path) ≡ false = ground arith in
      (
        ground arith,
        slash_comps-All (split_slashes path) (split-absent 64 path at) (split-absent 35 path hash)
            loop,
      )
]
