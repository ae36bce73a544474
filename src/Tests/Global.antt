-- ===== src/Tests/Global.antt =====
-- The global planning of an attempt after another one.
use Prim.Native.String.{String}
use zrepl.Prelude.{
  ℕ, ◌≡◌, refl, none, some, List, [], ◌∷◌, str_eq, string_less_asymm, string_less_trans, SliceSort,
  IsOrder, stable_SliceSort, ok,
}
use zrepl.Zfs.DatasetPath.{new_dataset_path}
use zrepl.Replication.Driver.Global.{
  FsOps, Placed, name_less, do_global_planning, IsGlobal, do_global_planning-IsGlobal,
}

abbrev by_name : FsOps String
by_name = record { name = λ s. s; equal_to_previous_attempt = λ s t. str_eq s t }

name_less-IsOrder : IsOrder (name_less by_name)
unfolding name_less
name_less-IsOrder = record {
  asymm = λ a b h. string_less_asymm a.0 b.0 h;
  trans = λ a b c h k. string_less_trans a.0 b.0 c.0 h k;
}

abbrev sorts_names : SliceSort (name_less by_name)
sorts_names = stable_SliceSort (name_less by_name) name_less-IsOrder

abbrev counterpart_found : List (Placed String)
counterpart_found =
    record { fs = "a"; prev = some "a"; path = "a" ∷ [] }
    ∷ record { fs = "b"; prev = none; path = "b" ∷ [] }
    ∷ []

places :
    do_global_planning by_name {E = ℕ} sorts_names ("a" ∷ "c" ∷ []) (ok ("a" ∷ "b" ∷ []))
    ≡ ok counterpart_found
unfolding do_global_planning new_dataset_path
places = refl

do_global_planning-IsGlobal_example :
    IsGlobal by_name {E = ℕ}
      ("a" ∷ "a" ∷ [])
      ("a" ∷ [])
      (do_global_planning by_name {E = ℕ} sorts_names ("a" ∷ "a" ∷ []) (ok ("a" ∷ [])))
do_global_planning-IsGlobal_example =
    do_global_planning-IsGlobal by_name {E = ℕ} sorts_names ("a" ∷ "a" ∷ []) ("a" ∷ [])
