-- ===== src/Zfs/DatasetPath.antt =====
-- The type DatasetPath of zfs/zfs.go. A method that changes its receiver returns the changed path.
pub mod Parse
pub mod Prefix
use Prim.Native.Char.{Char, code}
use Prim.Native.String.{String}
use zrepl.Prelude.{
  ℕ, Bool, true, false, ◌&&◌, ◌||◌, if◌then◌else◌, Option, none, some, List, [], ◌∷◌, ◌++◌, length,
  drop, ◌==◌, str_eq, Result, ok, err,
}

-- The field comps.
abbrev pub DatasetPath : Type 0
DatasetPath = List String

pub data PathError : Type 0 where
  forbidden_characters ends_with_slash : PathError

abbrev pub slash : ℕ
slash = 47

abbrev pub prepend : Char → List String → List String
prepend c [] = String.◌∷◌ c String.[] ∷ []
prepend c (w ∷ ws) = String.◌∷◌ c w ∷ ws

-- strings.Split(s, "/")
unfoldable pub split : String → List String
split String.[] = String.[] ∷ []
split (String.◌∷◌ c s) =
    let rest = split s in if code c == slash then String.[] ∷ rest else prepend c rest

abbrev pub append_text : String → String → String
append_text String.[] t = t
append_text (String.◌∷◌ c s) t = String.◌∷◌ c (append_text s t)

-- ToString
unfoldable pub to_string : DatasetPath → String
to_string [] = ""
to_string (w ∷ []) = w
to_string (w ∷ v ∷ ws) = append_text w (append_text "/" (to_string (v ∷ ws)))

-- @ # | \t < > *
unfoldable pub is_forbidden : ℕ → Bool
is_forbidden k = k == 64 || k == 35 || k == 124 || k == 9 || k == 60 || k == 62 || k == 42

-- strings.ContainsAny(s, FORBIDDEN)
unfoldable pub contains_forbidden : String → Bool
unfolding is_forbidden
contains_forbidden String.[] = false
contains_forbidden (String.◌∷◌ c s) = is_forbidden (code c) || contains_forbidden s

unfoldable pub last_is_empty : List String → Bool
last_is_empty [] = false
last_is_empty (w ∷ []) = str_eq w ""
last_is_empty (w ∷ v ∷ ws) = last_is_empty (v ∷ ws)

-- NewDatasetPath
unfoldable pub new_dataset_path : String → Result PathError DatasetPath
unfolding split contains_forbidden last_is_empty
new_dataset_path s =
    if str_eq s ""
    then ok []
    else if contains_forbidden s
    then err forbidden_characters
    else if last_is_empty (split s)
    then err ends_with_slash
    else ok (split s)

-- HasPrefix
unfoldable pub has_prefix : DatasetPath → DatasetPath → Bool
has_prefix p [] = true
has_prefix [] (y ∷ ys) = false
has_prefix (x ∷ xs) (y ∷ ys) = str_eq y x && has_prefix xs ys

-- TrimPrefix
unfoldable pub trim_prefix : DatasetPath → DatasetPath → DatasetPath
unfolding has_prefix
trim_prefix p prefix = if has_prefix p prefix then drop (length prefix) p else p

-- Extend
abbrev pub extend : DatasetPath → DatasetPath → DatasetPath
extend p q = p ++ q

-- Equal
unfoldable pub equal : DatasetPath → DatasetPath → Bool
equal [] [] = true
equal [] (y ∷ ys) = false
equal (x ∷ xs) [] = false
equal (x ∷ xs) (y ∷ ys) = str_eq x y && equal xs ys
