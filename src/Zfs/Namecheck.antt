-- ===== src/Zfs/Namecheck.antt =====
-- zfs/namecheck.go: which names of filesystems, snapshots and bookmarks are valid. A Go string is
-- its list of bytes.
pub mod Panics
pub mod Valid
use zrepl.Prelude.{
  ℕ, zero, suc, ◌+◌, ◌*◌, Bool, true, false, not, ◌&&◌, ◌||◌, if◌then◌else◌, Option, none, some,
  List, [], ◌∷◌, ◌++◌, length, ◌==◌, ltb, leb,
}

pub data EntityType : Type 0 where
  filesystem volume snapshot bookmark : EntityType

pub data ComponentError : Type 0 where
  component_empty component_too_long component_not_ascii component_invalid_character
        component_dots :
      ComponentError

pub data NameError : Type 0 where
  unexpected_at missing_at unexpected_hash missing_hash percent too_long empty not_ascii : NameError
  multiple_delimiters slash_after_delimiter empty_part : NameError
  component : ComponentError → NameError

pub data Check : Type 0 where
  valid panicked : Check
  invalid : NameError → Check

abbrev pub max_dataset_name_len : ℕ
max_dataset_name_len = 255

-- isASCII
unfoldable pub is_ascii : List ℕ → Bool
is_ascii [] = true
is_ascii (b ∷ bs) = if ltb 127 b then false else is_ascii bs

-- 0-9 a-z A-Z - _ . : and the space
unfoldable pub is_valid_char : ℕ → Bool
is_valid_char b =
    (leb 48 b && leb b 57)
    || (leb 97 b && leb b 122)
    || (leb 65 b && leb b 90)
    || (b == 45 || b == 95 || b == 46 || b == 58 || b == 32)

-- componentValidChar
unfoldable pub all_valid_chars : List ℕ → Bool
unfolding is_valid_char
all_valid_chars [] = true
all_valid_chars (b ∷ bs) = is_valid_char b && all_valid_chars bs

abbrev is_dots : List ℕ → Bool
is_dots [] = false
is_dots (b ∷ []) = b == 46
is_dots (b ∷ c ∷ []) = b == 46 && c == 46
is_dots (b ∷ c ∷ d ∷ bs) = false

-- ComponentNamecheck
unfoldable pub component_namecheck : List ℕ → Option ComponentError
unfolding is_ascii all_valid_chars
component_namecheck bs =
    if length bs == 0
    then some component_empty
    else if ltb max_dataset_name_len (length bs)
    then some component_too_long
    else if not (is_ascii bs)
    then some component_not_ascii
    else if not (all_valid_chars bs)
    then some component_invalid_character
    else if is_dots bs
    then some component_dots
    else none

-- strings.Contains and bytes.Count with one byte.
unfoldable pub contains_byte : ℕ → List ℕ → Bool
contains_byte k [] = false
contains_byte k (b ∷ bs) = b == k || contains_byte k bs

unfoldable pub count_byte : ℕ → List ℕ → ℕ
count_byte k [] = 0
count_byte k (b ∷ bs) = (if b == k then 1 else 0) + count_byte k bs

abbrev cons_first : ℕ → List (List ℕ) → List (List ℕ)
cons_first b [] = (b ∷ []) ∷ []
cons_first b (c ∷ cs) = (b ∷ c) ∷ cs

-- bytes.Split(path, "/")
unfoldable pub split_slashes : List ℕ → List (List ℕ)
split_slashes [] = [] ∷ []
split_slashes (b ∷ bs) =
    let rest = split_slashes bs in if b == 47 then [] ∷ rest else cons_first b rest

abbrev pub flush : List ℕ → List (List ℕ)
flush [] = []
flush (b ∷ bs) = (b ∷ bs) ∷ []

-- bytes.FieldsFunc, which drops empty fields; `field` is the one that has begun.
unfoldable pub fields : List ℕ → List ℕ → List (List ℕ)
fields field [] = flush field
fields field (b ∷ bs) =
    if b == 35 || b == 64 then flush field ++ fields [] bs else fields (field ++ b ∷ []) bs

-- The inner loop over subComps, and then what follows it.
unfoldable pub check_components : List (List ℕ) → Check → Check
unfolding component_namecheck
check_components [] rest = rest
check_components (c ∷ cs) rest = elim (component_namecheck c) [
  | none ↦ check_components cs rest
  | some e ↦ invalid (component e)
]

-- The end of the loop's body, for a component with a delimiter.
unfoldable pub check_delimited : List (List ℕ) → Check → Check
unfolding check_components
check_delimited parts rest =
    if ltb 2 (length parts)
    then panicked
    else if not (length parts == 2)
    then invalid empty_part
    else check_components parts rest

abbrev pub is_last : List (List ℕ) → Bool
is_last [] = true
is_last (c ∷ cs) = false

-- The loop over slashComps; `delims` is bookmarkOrSnapshotDelims.
unfoldable pub check_slash_comps : ℕ → List (List ℕ) → Check
unfolding count_byte fields check_delimited
check_slash_comps delims [] = valid
check_slash_comps delims (c ∷ cs) =
    let delims' = delims + (count_byte 64 c + count_byte 35 c) in
    let rest = check_slash_comps delims' cs in
    if not (count_byte 64 c * count_byte 35 c == 0)
    then panicked
    else if ltb 1 delims'
    then invalid multiple_delimiters
    else if delims' == 1 && not (is_last cs)
    then invalid slash_after_delimiter
    else if delims' == 0
    then check_components (c ∷ []) rest
    else check_delimited (fields [] c) rest

abbrev pub is_snapshot_type : EntityType → Bool
is_snapshot_type t = elim t [ snapshot ↦ true | _ ↦ false ]

abbrev pub is_bookmark_type : EntityType → Bool
is_bookmark_type t = elim t [ bookmark ↦ true | _ ↦ false ]

-- The checks of EntityNamecheck before the loop.
unfoldable pub check_whole : List ℕ → EntityType → Option NameError
unfolding contains_byte is_ascii
check_whole path t =
    if not (is_snapshot_type t) && contains_byte 64 path
    then some unexpected_at
    else if is_snapshot_type t && not (contains_byte 64 path)
    then some missing_at
    else if not (is_bookmark_type t) && contains_byte 35 path
    then some unexpected_hash
    else if is_bookmark_type t && not (contains_byte 35 path)
    then some missing_hash
    else if contains_byte 37 path
    then some percent
    else if ltb max_dataset_name_len (length path)
    then some too_long
    else if length path == 0
    then some empty
    else if not (is_ascii path)
    then some not_ascii
    else none

-- EntityNamecheck
unfoldable pub entity_namecheck : List ℕ → EntityType → Check
unfolding check_whole split_slashes check_slash_comps
entity_namecheck path t = elim (check_whole path t) [
  | some e ↦ invalid e
  | none ↦ check_slash_comps 0 (split_slashes path)
]
