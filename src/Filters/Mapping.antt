-- ===== src/Filters/Mapping.antt =====
-- Mappings, the filters made of them, and their inversion.
use zrepl.Prelude.{
  ℕ, zero, suc, ◌+◌, ◌≡◌, refl, ap, ◌∙◌, subst, inl, inr, Bool, true, false, not, ◌&&◌,
  if◌then◌else◌, Option, none, some, List, [], ◌∷◌, map, get_elem?, All, All-at, Bool-cases, str_eq,
  str_eq→eq, Result, ok, err,
}
use zrepl.Zfs.DatasetPath.{DatasetPath, PathError, new_dataset_path, trim_prefix, extend}
use zrepl.Filters.{
  Entry, DatasetMapFilter, Candidates, consider, consider_all, choose, most_specific_prefix_mapping,
  chosen, map_by, map_path, filter, parse_filter_result, starts_with_mark, as_filter_entry,
  as_filter,
}
use zrepl.Filters.Best.{IsMostSpecific, ChosenAs, chosen-IsMostSpecific}

abbrev pub is_some {ℓ} : {A : Type ℓ} → Option A → Bool
is_some none = false
is_some (some a) = true

abbrev through : (Entry → Entry) → Option Entry → Option Entry
through f none = none
through f (some e) = some (f e)

get_elem?-map :
    (f : Entry → Entry) (es : List Entry) (i : ℕ)
    → get_elem? (map f es) i ≡ through f (get_elem? es i)
get_elem?-map f [] i = refl
get_elem?-map f (e ∷ es) zero = refl
get_elem?-map f (e ∷ es) (suc i) = get_elem?-map f es i

consider_all-map :
    (p : DatasetPath) (i : ℕ) (es : List Entry) (c : Candidates)
    → consider_all p i (map as_filter_entry es) c ≡ consider_all p i es c
unfolding consider_all consider
consider_all-map p i [] c = refl
consider_all-map p i (e ∷ es) c = consider_all-map p (i + 1) es (consider p i e c)

chosen-map :
    (p : DatasetPath) (es : List Entry)
    → chosen (map as_filter_entry es) p ≡ through as_filter_entry (chosen es p)
unfolding chosen most_specific_prefix_mapping
chosen-map p es =
    let start : Candidates = record { direct = none; longest = none } in
    at (choose (consider_all p 0 (map as_filter_entry es) start))
      (choose (consider_all p 0 es start)) (ap choose (consider_all-map p 0 es start))
  where
    at :
        (o q : Option ℕ)
        → o ≡ q
        → elim o [ none ↦ none | some i ↦ get_elem? (map as_filter_entry es) i ]
          ≡ through as_filter_entry (elim q [ none ↦ none | some i ↦ get_elem? es i ])
    at none none h = refl
    at none (some j) h = cc
    at (some i) none h = cc
    at (some i) (some j) h =
        let same : i ≡ j = cc in
        ap (get_elem? (map as_filter_entry es)) same ∙ get_elem?-map as_filter_entry es j

-- Only the mapping "!" itself begins with a mark.
abbrev pub IsPlain : Entry → Type 0
IsPlain e = starts_with_mark e.mapping ≡ true → e.mapping ≡ "!"

parse_ok : parse_filter_result "ok" ≡ ok true
unfolding parse_filter_result
parse_ok = refl

parse_omit : parse_filter_result "!" ≡ ok false
unfolding parse_filter_result
parse_omit = refl

map_by-parse :
    (e : Entry) (p : DatasetPath) (o : Option DatasetPath) (target : Result PathError DatasetPath)
    → IsPlain e
    → new_dataset_path e.mapping ≡ target
    → map_by e p ≡ ok o
    → parse_filter_result (as_filter_entry e).mapping ≡ ok (is_some o)
unfolding map_by
map_by-parse e p o target plain t h =
    elim (Bool-cases (str_eq e.mapping "" && not e.subtree_match)) [
      | inl bad ↦ cc
      | inr fine ↦ elim (Bool-cases (str_eq e.mapping "!")) [
        | inl mark ↦
            let same = str_eq→eq e.mapping "!" mark in
            let marked : starts_with_mark e.mapping ≡ true = rw same refl in
            let nothing : o ≡ none = cc in rw (marked, nothing) parse_omit
        | inr plain_text ↦ elim (Bool-cases (starts_with_mark e.mapping)) [
          | inl marked ↦ let same : str_eq e.mapping "!" ≡ true = rw (plain marked) refl in cc
          | inr unmarked ↦ rw (unmarked, somewhere fine plain_text target t) parse_ok
        ]
      ]
    ]
  where
    somewhere :
        (str_eq e.mapping "" && not e.subtree_match) ≡ false
        → str_eq e.mapping "!" ≡ false
        → (r : Result PathError DatasetPath) → new_dataset_path e.mapping ≡ r
        → is_some o ≡ true
    somewhere fine text (err x) k = cc
    somewhere fine text (ok q) k =
        let found : some (if e.subtree_match then extend q (trim_prefix p e.path) else q) ≡ o =
          cc in
        subst (λ z. is_some z ≡ true) found refl

-- For a mapping where only "!" itself begins with a mark, and a filesystem for which Map returns no
-- error: the filter made of the mapping passes the filesystem exactly if Map returns a target.
pub filter-as_filter :
    (m : DatasetMapFilter) (p : DatasetPath) (o : Option DatasetPath)
    → All IsPlain m.entries
    → map_path m p ≡ ok o
    → filter (as_filter m) p ≡ ok (is_some o)
unfolding map_path filter as_filter
filter-as_filter m p o plain h = elim (Bool-cases m.filter_mode) [
  | inl wrong ↦ cc
  | inr mapping ↦ by_choice mapping (chosen m.entries p) refl
]
  where
    by_choice :
        m.filter_mode ≡ false
        → (c : Option Entry) → chosen m.entries p ≡ c
        → filter (as_filter m) p ≡ ok (is_some o)
    by_choice mapping none k =
        let nothing : o ≡ none = cc in
        let same : chosen (map as_filter_entry m.entries) p ≡ none =
          chosen-map p m.entries ∙ ap (through as_filter_entry) k in
        rw (same, filter, nothing) refl
    by_choice mapping (some e) k =
        let same : chosen (map as_filter_entry m.entries) p ≡ some (as_filter_entry e) =
          chosen-map p m.entries ∙ ap (through as_filter_entry) k in
        let best : IsMostSpecific p m.entries e =
          subst (ChosenAs p m.entries) k (chosen-IsMostSpecific p m.entries) in
        let harmless = All-at IsPlain m.entries best.index e plain best.at_index in
        let reached : map_by e p ≡ ok o = cc in
        rw (same, filter) (map_by-parse e p o _ harmless refl reached)
