-- ===== src/Tests/Namecheck.antt =====
-- Names of ZFS entities.
use zrepl.Prelude.{ℕ, ◌≡◌, ◌≢◌, refl, List, [], ◌∷◌}
use zrepl.Zfs.Namecheck.{
  filesystem, snapshot, valid, panicked, invalid, multiple_delimiters, empty_part, entity_namecheck,
}
use zrepl.Zfs.Namecheck.Panics.{entity_namecheck_calm}

-- "a/b"
abbrev path : List ℕ
path = 97 ∷ 47 ∷ 98 ∷ []

-- "a/b@c@d"
abbrev twice : List ℕ
twice = 97 ∷ 47 ∷ 98 ∷ 64 ∷ 99 ∷ 64 ∷ 100 ∷ []

accepts : entity_namecheck path filesystem ≡ valid
unfolding entity_namecheck
accepts = refl

accepts_snapshot : entity_namecheck (97 ∷ 47 ∷ 98 ∷ 64 ∷ 99 ∷ []) snapshot ≡ valid
unfolding entity_namecheck
accepts_snapshot = refl

refuses_twice : entity_namecheck twice snapshot ≡ invalid multiple_delimiters
unfolding entity_namecheck
refuses_twice = refl

refuses_empty : entity_namecheck (97 ∷ 64 ∷ []) snapshot ≡ invalid empty_part
unfolding entity_namecheck
refuses_empty = refl

entity_namecheck_calm_example : entity_namecheck twice snapshot ≢ panicked
entity_namecheck_calm_example = entity_namecheck_calm twice snapshot
