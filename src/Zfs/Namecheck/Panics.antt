-- ===== src/Zfs/Namecheck/Panics.antt =====
-- EntityNamecheck: its panics are unreachable, and a filesystem's name is checked part by part.
use zrepl.Prelude.{
  ℕ, ◌+◌, ◌*◌, ◌≤◌, ◌≡◌, ◌≢◌, refl, subst, ◌⊎◌, inl, inr, Bool, true, false, not, ◌&&◌, ◌||◌,
  if◌then◌else◌, none, List, [], ◌∷◌, ◌++◌, length, length-append, All, All-map, ◌==◌, ltb, arith,
  Bool-cases, Option-cases,
}
use zrepl.Zfs.Namecheck.{
  EntityType, filesystem, volume, snapshot, bookmark, Check, panicked, component_namecheck,
  contains_byte, count_byte, split_slashes, flush, fields, check_components, check_delimited,
  is_last, check_slash_comps, check_whole, entity_namecheck,
}

abbrev is_panicked : Check → Bool
is_panicked c = elim c [ panicked ↦ true | _ ↦ false ]

split_some : (bs : List ℕ) → (c : List ℕ) × (cs : List (List ℕ)) × (split_slashes bs ≡ c ∷ cs)
unfolding split_slashes
split_some [] = ([], [], refl)
split_some (b ∷ bs) = elim (Bool-cases (b == 47)) [
  | inl e ↦ ([], split_slashes bs, rw (e, split_slashes) refl)
  | inr e ↦ let (c, cs, h) = split_some bs in (b ∷ c, cs, rw (e, h, split_slashes) refl)
]

-- A byte that is not in the path is in none of its parts.
pub split-absent :
    (k : ℕ) (bs : List ℕ)
    → contains_byte k bs ≡ false
    → All (λ c. count_byte k c ≡ 0) (split_slashes bs)
unfolding split_slashes contains_byte count_byte
split-absent k [] h = (refl, tt)
split-absent k (b ∷ bs) h =
    let other : (b == k) ≡ false = ground arith in
    let (c, cs, e) = split_some bs in
    let rest : All (λ x. count_byte k x ≡ 0) (c ∷ cs) =
      subst (All (λ x. count_byte k x ≡ 0)) e (split-absent k bs (ground arith)) in
    elim (Bool-cases (b == 47)) [
      | inl s ↦ rw (s, e, split_slashes) (refl, rest)
      | inr s ↦ rw (s, e, split_slashes) (rw other (omega (arith, rest.0)), rest.1)
    ]

length-flush : (f : List ℕ) → length (flush f) ≤ 1
length-flush [] = omega arith
length-flush (b ∷ bs) = omega arith

length-fields : (f bs : List ℕ) → length (fields f bs) ≤ 1 + (count_byte 64 bs + count_byte 35 bs)
unfolding fields count_byte
length-fields f [] = omega (arith, length-flush f)
length-fields f (b ∷ bs) = elim (Bool-cases (b == 35 || b == 64)) [
  | inl e ↦
      let more : 1 ≤ (if b == 64 then 1 else 0) + (if b == 35 then 1 else 0) = ground arith in
      rw (e, fields)
        (omega (
          arith,
          more,
          length-append (flush f) (fields [] bs),
          length-flush f,
          length-fields [] bs,
        ))
  | inr e ↦ rw (e, fields) (omega (arith, length-fields (f ++ b ∷ []) bs))
]

components_calm :
    (cs : List (List ℕ)) (rest : Check)
    → is_panicked rest ≡ false
    → is_panicked (check_components cs rest) ≡ false
unfolding check_components
components_calm [] rest h = h
components_calm (c ∷ cs) rest h = elim (Option-cases (component_namecheck c)) [
  | inl e ↦ rw (e, check_components) (components_calm cs rest h)
  | inr (x, e) ↦ rw (e, check_components) refl
]

delimited_calm :
    (parts : List (List ℕ)) (rest : Check)
    → length parts ≤ 2
    → is_panicked rest ≡ false
    → is_panicked (check_delimited parts rest) ≡ false
unfolding check_delimited
delimited_calm parts rest few h =
    let fits : ltb 2 (length parts) ≡ false = ground arith in
    elim (Bool-cases (length parts == 2)) [
      | inl e ↦ rw (fits, e, check_delimited) (components_calm parts rest h)
      | inr e ↦ rw (fits, e, check_delimited) refl
    ]

slash_comps_calm :
    (delims : ℕ) (cs : List (List ℕ))
    → All (λ c. (count_byte 64 c * count_byte 35 c == 0) ≡ true) cs
    → is_panicked (check_slash_comps delims cs) ≡ false
unfolding check_slash_comps
slash_comps_calm delims [] h = refl
slash_comps_calm delims (c ∷ cs) h =
    let now = delims + (count_byte 64 c + count_byte 35 c) in
    let rest = slash_comps_calm now cs h.1 in
    elim (Bool-cases (ltb 1 now)) [
      | inl e ↦ rw (h.0, e, check_slash_comps) refl
      | inr few ↦ elim (Bool-cases (now == 1 && not (is_last cs))) [
        | inl e ↦ rw (h.0, few, e, check_slash_comps) refl
        | inr here ↦ elim (Bool-cases (now == 0)) [
          | inl e ↦ rw (h.0, few, here, e, check_slash_comps) (components_calm (c ∷ []) _ rest)
          | inr e ↦
              let low : now ≤ 1 = ground arith in
              rw (h.0, few, here, e, check_slash_comps)
                (delimited_calm (fields [] c) _ (omega (arith, low, length-fields [] c)) rest)
        ]
      ]
    ]

one_absent :
    (path : List ℕ) (t : EntityType)
    → check_whole path t ≡ none
    → (contains_byte 64 path ≡ false) ⊎ (contains_byte 35 path ≡ false)
unfolding check_whole
one_absent path filesystem h = inl (ground arith)
one_absent path volume h = inl (ground arith)
one_absent path bookmark h = inl (ground arith)
one_absent path snapshot h = inr (ground arith)

zero_left : (c : List ℕ) → count_byte 64 c ≡ 0 → (count_byte 64 c * count_byte 35 c == 0) ≡ true
zero_left c h = rw h (ground arith)

zero_right : (c : List ℕ) → count_byte 35 c ≡ 0 → (count_byte 64 c * count_byte 35 c == 0) ≡ true
zero_right c h = rw h (ground arith)

-- EntityNamecheck panics on no path and for no type of entity: the delimiter checks rule out what
-- its two panics guard against.
pub entity_namecheck_calm : (path : List ℕ) (t : EntityType) → entity_namecheck path t ≢ panicked
unfolding entity_namecheck
entity_namecheck_calm path t h = elim (Option-cases (check_whole path t)) [
  | inr (x, e) ↦ cc
  | inl e ↦
      let same : check_slash_comps 0 (split_slashes path) ≡ panicked = cc in
      let products = by_absence (one_absent path t e) in
      let calm = slash_comps_calm 0 (split_slashes path) products in
      let loud : is_panicked (check_slash_comps 0 (split_slashes path)) ≡ true = rw same refl in cc
]
  where
    by_absence :
        (contains_byte 64 path ≡ false) ⊎ (contains_byte 35 path ≡ false)
        → All (λ c. (count_byte 64 c * count_byte 35 c == 0) ≡ true) (split_slashes path)
    by_absence (inl a) = All-map zero_left (split_slashes path) (split-absent 64 path a)
    by_absence (inr a) = All-map zero_right (split_slashes path) (split-absent 35 path a)
