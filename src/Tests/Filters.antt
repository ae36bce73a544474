-- ===== src/Tests/Filters.antt =====
-- Paths, filters and mappings on concrete filesystems.
use Prim.Native.String.{String}
use zrepl.Prelude.{◌≡◌, refl, Bool, true, false, some, List, [], ◌∷◌, ok, err, All}
use zrepl.Zfs.DatasetPath.{DatasetPath, new_dataset_path, to_string, has_prefix, trim_prefix, equal}
use zrepl.Zfs.DatasetPath.Parse.{IsComponent, to_string-new_dataset_path}
use zrepl.Filters.{
  Entry, DatasetMapFilter, map_path, filter, as_filter, invert, from_config, chosen,
}
use zrepl.Filters.Best.{ChosenAs, chosen-IsMostSpecific}
use zrepl.Filters.Mapping.{filter-as_filter}
use zrepl.Filters.Inversion.{map_path-invert}

abbrev home : DatasetPath
home = "tank" ∷ "home" ∷ []

abbrev alice : DatasetPath
alice = "tank" ∷ "home" ∷ "alice" ∷ []

to_string-new_dataset_path_example : (to_string alice ≡ "tank/home/alice") × All IsComponent alice
unfolding new_dataset_path
to_string-new_dataset_path_example = to_string-new_dataset_path "tank/home/alice" alice refl

abbrev entry : DatasetPath → String → Bool → Entry
entry p target tree = record { path = p; mapping = target; subtree_match = tree }

abbrev homes : List Entry
homes =
    entry ("tank" ∷ []) "pool/all" true
    ∷ entry home "pool/homes" true
    ∷ entry ("tank" ∷ "tmp" ∷ []) "!" true
    ∷ []

chosen-IsMostSpecific_example : ChosenAs alice homes (chosen homes alice)
chosen-IsMostSpecific_example = chosen-IsMostSpecific alice homes

abbrev mapping : DatasetMapFilter
mapping = record { entries = homes; filter_mode = false }

maps_alice : map_path mapping alice ≡ ok (some ("pool" ∷ "homes" ∷ "alice" ∷ []))
unfolding map_path has_prefix new_dataset_path trim_prefix equal
maps_alice = refl

filter-as_filter_example : filter (as_filter mapping) alice ≡ ok true
unfolding map_path has_prefix new_dataset_path trim_prefix equal
filter-as_filter_example =
    filter-as_filter mapping alice (some ("pool" ∷ "homes" ∷ "alice" ∷ []))
      (λ h. cc, (λ h. cc, (λ h. refl, tt))) refl

abbrev single : Entry
single = entry home "pool/homes" true

map_path-invert_example :
    map_path
      (record {
        entries = entry ("pool" ∷ "homes" ∷ []) "tank/home" true ∷ [];
        filter_mode = false;
      })
      ("pool" ∷ "homes" ∷ "alice" ∷ [])
    ≡ ok (some alice)
unfolding map_path invert new_dataset_path to_string has_prefix trim_prefix equal
map_path-invert_example =
    map_path-invert single "tank/home" _ alice ("pool" ∷ "homes" ∷ "alice" ∷ []) refl refl (λ h. cc)
      refl refl

-- A mapping to "!x" is read as a path, while the filter made of it omits the filesystem.
abbrev marked : DatasetMapFilter
marked = record { entries = entry home "!x" true ∷ []; filter_mode = false }

marked_maps : map_path marked home ≡ ok (some ("!x" ∷ []))
unfolding map_path has_prefix new_dataset_path trim_prefix equal
marked_maps = refl

marked_omits : filter (as_filter marked) home ≡ ok false
unfolding filter as_filter has_prefix new_dataset_path trim_prefix equal
marked_omits = refl

abbrev is_ok_true : DatasetPath → Bool
unfolding from_config filter has_prefix new_dataset_path trim_prefix equal
is_ok_true p =
    elim (from_config (("tank<", true) ∷ ("tank/tmp<", false) ∷ ("tank/tmp/keep", true) ∷ [])) [
      | err e ↦ false
      | ok m ↦ elim (filter m p) [ err e ↦ false | ok b ↦ b ]
    ]

direct_wins : is_ok_true ("tank" ∷ "tmp" ∷ "keep" ∷ []) ≡ true
unfolding is_ok_true from_config filter has_prefix new_dataset_path trim_prefix equal
direct_wins = refl

longer_wins : is_ok_true ("tank" ∷ "tmp" ∷ "x" ∷ []) ≡ false
unfolding is_ok_true from_config filter has_prefix new_dataset_path trim_prefix equal
longer_wins = refl
