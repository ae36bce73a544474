-- ===== src/Replication/Version/Order.antt =====
-- The order of versions is one that `sort.Slice` accepts.
use zrepl.Prelude.{◌≡◌, true, arith, IsOrder}
use zrepl.Replication.Version.{FilesystemVersion, VersionType, is_snapshot, version_less}

pub is_snapshot-eq : (v : FilesystemVersion) → is_snapshot v ≡ true → v.type ≡ VersionType.snapshot
is_snapshot-eq v h = ground arith

pub version_less-IsOrder : IsOrder version_less
unfolding version_less
version_less-IsOrder = record { asymm = λ a b h. ground arith; trans = λ a b c h k. ground arith }
