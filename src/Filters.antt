-- ===== src/Filters.antt =====
-- daemon/filters/fsmapfilter.go: which filesystems a job takes, and where it maps them.
pub mod Best
pub mod Mapping
pub mod Inversion
use Prim.Native.Char.{code}
use Prim.Native.String.{String}
use zrepl.Prelude.{
  ℕ, zero, suc, ◌+◌, Bool, true, false, not, ◌&&◌, ◌||◌, if◌then◌else◌, Option, none, some, List,
  [], ◌∷◌, ◌++◌, map, get_elem?, ◌==◌, ltb, length, str_eq, Result, ok, err, ◌>>=◌,
}
use zrepl.Zfs.DatasetPath.{
  DatasetPath, new_dataset_path, to_string, has_prefix, trim_prefix, extend, equal,
}

-- datasetMapFilterEntry
pub record Entry : Type 0 where
  pub path : DatasetPath
  pub mapping : String
  pub subtree_match : Bool

-- DatasetMapFilter
pub record DatasetMapFilter : Type 0 where
  pub entries : List Entry
  pub filter_mode : Bool

pub data FilterError : Type 0 where
  invalid_filter_result invalid_pattern pattern_not_a_path target_not_a_path : FilterError
  filter_used_for_mapping mapping_used_as_filter empty_mapping_needs_subtree : FilterError
  only_mappings_invert complicated_inversion : FilterError

-- strings.ToLower, as far as it decides the equality with "ok" and "!": the letters A to Z, and the
-- Kelvin sign.
abbrev pub lower : ℕ → ℕ
lower k = if ltb 64 k && ltb k 91 then k + 32 else if k == 8490 then 107 else k

abbrev pub lowers_to : String → List ℕ → Bool
lowers_to String.[] [] = true
lowers_to String.[] (k ∷ ks) = false
lowers_to (String.◌∷◌ c s) [] = false
lowers_to (String.◌∷◌ c s) (k ∷ ks) = lower (code c) == k && lowers_to s ks

-- parseDatasetFilterResult
unfoldable pub parse_filter_result : String → Result FilterError Bool
parse_filter_result s =
    if lowers_to s (111 ∷ 107 ∷ [])
    then ok true
    else if lowers_to s (33 ∷ [])
    then ok false
    else err invalid_filter_result

-- strings.Count, strings.HasSuffix and strings.TrimSuffix with the pattern "<".
abbrev pub count_code : ℕ → String → ℕ
count_code k String.[] = 0
count_code k (String.◌∷◌ c s) = (if code c == k then 1 else 0) + count_code k s

abbrev pub ends_with_code : ℕ → String → Bool
ends_with_code k String.[] = false
ends_with_code k (String.◌∷◌ c String.[]) = code c == k
ends_with_code k (String.◌∷◌ c (String.◌∷◌ d s)) = ends_with_code k (String.◌∷◌ d s)

abbrev pub trim_code : ℕ → String → String
trim_code k String.[] = String.[]
trim_code k (String.◌∷◌ c String.[]) = if code c == k then String.[] else String.◌∷◌ c String.[]
trim_code k (String.◌∷◌ c (String.◌∷◌ d s)) = String.◌∷◌ c (trim_code k (String.◌∷◌ d s))

abbrev path_or : FilterError → String → Result FilterError DatasetPath
path_or e s = elim (new_dataset_path s) [ err x ↦ err e | ok p ↦ ok p ]

abbrev check_mapping : Bool → String → Result FilterError Bool
check_mapping filter_mode mapping = if filter_mode then parse_filter_result mapping else ok true

abbrev check_pattern : ℕ → Bool → Result FilterError Bool
check_pattern count at_end = if count == 1 && not at_end then err invalid_pattern else ok true

-- Add
unfoldable pub add : DatasetMapFilter → String → String → Result FilterError DatasetMapFilter
unfolding parse_filter_result
add m pattern mapping = do
  checked ← check_mapping m.filter_mode mapping
  placed ← check_pattern (count_code 60 pattern) (ends_with_code 60 pattern)
  path ← path_or pattern_not_a_path (trim_code 60 pattern)
  ok (record m {
    entries =
        m.entries
        ++ record { path = path; mapping = mapping; subtree_match = ltb 0 (count_code 60 pattern) }
          ∷ [];
  })

-- direct_idx, and lcp with lcp_entry_idx; `none` is -1.
pub record Candidates : Type 0 where
  pub direct : Option ℕ
  pub longest : Option (ℕ × ℕ)

abbrev pub is_longer : ℕ → Option (ℕ × ℕ) → Bool
is_longer n none = true
is_longer n (some (lcp, idx)) = ltb lcp n

-- The switch in the loop, at the entry `e` with the index `i`.
unfoldable pub consider : DatasetPath → ℕ → Entry → Candidates → Candidates
consider p i e c =
    if not e.subtree_match && equal e.path p
    then record c { direct = some i }
    else if e.subtree_match && (has_prefix p e.path && is_longer (length e.path) c.longest)
    then record c { longest = some (length e.path, i) }
    else c

unfoldable pub consider_all : DatasetPath → ℕ → List Entry → Candidates → Candidates
unfolding consider
consider_all p i [] c = c
consider_all p i (e ∷ es) c = consider_all p (i + 1) es (consider p i e c)

abbrev pub choose : Candidates → Option ℕ
choose c = elim c.direct [
  | some i ↦ some i
  | none ↦ elim c.longest [ none ↦ none | some (n, i) ↦ some i ]
]

-- mostSpecificPrefixMapping
unfoldable pub most_specific_prefix_mapping : List Entry → DatasetPath → Option ℕ
unfolding consider_all
most_specific_prefix_mapping entries p =
    choose (consider_all p 0 entries (record { direct = none; longest = none }))

-- m.entries[mi], if there is one.
unfoldable pub chosen : List Entry → DatasetPath → Option Entry
unfolding most_specific_prefix_mapping
chosen entries p = elim (most_specific_prefix_mapping entries p) [
  | none ↦ none
  | some i ↦ get_elem? entries i
]

-- What follows in Map.
unfoldable pub map_by : Entry → DatasetPath → Result FilterError (Option DatasetPath)
map_by e source =
    if str_eq e.mapping "" && not e.subtree_match
    then err empty_mapping_needs_subtree
    else if str_eq e.mapping "!"
    then ok none
    else elim (new_dataset_path e.mapping) [
      | err x ↦ err target_not_a_path
      | ok target ↦
          ok (some (if e.subtree_match then extend target (trim_prefix source e.path) else target))
    ]

-- Map
unfoldable pub map_path : DatasetMapFilter → DatasetPath → Result FilterError (Option DatasetPath)
unfolding chosen map_by
map_path m source = elim m.filter_mode [
  | true ↦ err filter_used_for_mapping
  | false ↦ elim (chosen m.entries source) [ none ↦ ok none | some e ↦ map_by e source ]
]

-- Filter
unfoldable pub filter : DatasetMapFilter → DatasetPath → Result FilterError Bool
unfolding chosen parse_filter_result
filter m p = elim m.filter_mode [
  | false ↦ err mapping_used_as_filter
  | true ↦ elim (chosen m.entries p) [ none ↦ ok false | some e ↦ parse_filter_result e.mapping ]
]

-- strings.HasPrefix(s, "!")
abbrev pub starts_with_mark : String → Bool
starts_with_mark String.[] = false
starts_with_mark (String.◌∷◌ c s) = code c == 33

abbrev pub as_filter_entry : Entry → Entry
as_filter_entry e = record e { mapping = if starts_with_mark e.mapping then "!" else "ok" }

-- AsFilter
unfoldable pub as_filter : DatasetMapFilter → DatasetMapFilter
as_filter m = record { entries = map as_filter_entry m.entries; filter_mode = true }

abbrev pub invert_entry : Entry → Result FilterError DatasetMapFilter
invert_entry e = do
  path ← path_or target_not_a_path e.mapping
  ok (record {
    entries =
        record { path = path; mapping = to_string e.path; subtree_match = e.subtree_match } ∷ [];
    filter_mode = false;
  })

-- Invert
unfoldable pub invert : DatasetMapFilter → Result FilterError DatasetMapFilter
invert m = if m.filter_mode then err only_mappings_invert else invert_single m.entries
  where
    invert_single : List Entry → Result FilterError DatasetMapFilter
    invert_single [] = err complicated_inversion
    invert_single (e ∷ []) = invert_entry e
    invert_single (e ∷ f ∷ es) = err complicated_inversion

-- The loop of InvertedFilter.
unfoldable pub inverted_entries : List Entry → Result FilterError (List Entry)
inverted_entries [] = ok []
inverted_entries (e ∷ es) = do
  path ← path_or target_not_a_path e.mapping
  rest ← inverted_entries es
  ok (record { path = path; mapping = "ok"; subtree_match = e.subtree_match } ∷ rest)

-- InvertedFilter
unfoldable pub inverted_filter : DatasetMapFilter → Result FilterError DatasetMapFilter
unfolding inverted_entries
inverted_filter m =
    if m.filter_mode
    then err only_mappings_invert
    else inverted_entries m.entries >>= λ es. ok (record { entries = es; filter_mode = true })

unfoldable pub add_all :
    List (String × Bool) → DatasetMapFilter → Result FilterError DatasetMapFilter
unfolding add
add_all [] m = ok m
add_all ((pattern, accept) ∷ rest) m = do
  m' ← add m pattern (if accept then "ok" else "!")
  add_all rest m'

-- DatasetMapFilterFromConfig, on the entries of the map in the order in which Go walks it.
unfoldable pub from_config : List (String × Bool) → Result FilterError DatasetMapFilter
unfolding add_all
from_config config = add_all config (record { entries = []; filter_mode = true })
