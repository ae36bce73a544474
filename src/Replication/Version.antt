-- ===== src/Replication/Version.antt =====
-- The messages of replication/logic/pdu: versions of a filesystem, and their order by the
-- transaction group that created them, replication/logic/diff/diff.go.
pub mod Order
use Prim.Native.String.{String}
use zrepl.Prelude.{ℕ, Bool, true, false, List, ◌&&◌, ltb, ◌==◌, if◌then◌else◌, keep_if, not}

pub data VersionType : Type 0 where
  snapshot bookmark : VersionType

pub record FilesystemVersion : Type 0 where
  pub type : VersionType
  pub name : String
  pub guid : ℕ
  pub create_txg : ℕ
  pub creation : String

abbrev pub is_snapshot : FilesystemVersion → Bool
is_snapshot v = elim v.type [ snapshot ↦ true | bookmark ↦ false ]

abbrev pub is_bookmark : FilesystemVersion → Bool
is_bookmark v = elim v.type [ snapshot ↦ false | bookmark ↦ true ]

-- `lesser` of SortVersionListByCreateTXGThenBookmarkLTSnapshot
unfoldable pub version_less : FilesystemVersion → FilesystemVersion → Bool
version_less a b =
    if ltb a.create_txg b.create_txg
    then true
    else if a.create_txg == b.create_txg
    then is_bookmark a && is_snapshot b
    else false

-- StripBookmarksFromVersionList
unfoldable pub strip_bookmarks : List FilesystemVersion → List FilesystemVersion
strip_bookmarks = keep_if (λ v. not (is_bookmark v))
