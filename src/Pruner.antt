-- ===== src/Pruner.antt =====
-- daemon/pruner/pruner.go: the filesystems that a prune visits, and what it asks of the two sides. The
-- calls, the parser of dates and the keep rules are arguments. Errors are their messages.
pub mod Plan
pub mod Queue
pub mod Exec
pub mod Cursor
pub mod Older
pub mod Spared
pub mod Policy
pub mod Requests
pub mod Outcome
pub mod Ends
pub mod Finish
pub mod Verdict
use Prim.Native.String.{String, ◌++◌ as cat}
use zrepl.Prelude.{
  ℕ, Bool, true, false, not, Option, none, some, List, ℤ, Result, string_less, str_eq,
}
use zrepl.Replication.Version.{FilesystemVersion, is_bookmark}

-- FSSkipReason
pub data SkipReason : Type 0 where
  not_skipped skip_placeholder skip_no_correspondence_on_sender : SkipReason

abbrev pub is_not_skipped : SkipReason → Bool
is_not_skipped not_skipped = true
is_not_skipped skip_placeholder = false
is_not_skipped skip_no_correspondence_on_sender = false

-- The type snapshot; `position` is where the version stands in the list that was scanned, and stands
-- for the pointer `fsv`.
pub record Snap : Type 0 where
  pub position : ℕ
  pub replicated : Bool
  pub date : ℤ
  pub fsv : FilesystemVersion

pub record Fs : Type 0 where
  pub path : String
  pub plan_err : Option String
  pub plan_err_context : String
  pub skip_reason : SkipReason
  pub snaps : List Snap
  pub destroy_list : List Snap
  pub exec_err_last : Option String

abbrev pub new_fs : String → Fs
new_fs path = record {
  path = path;
  plan_err = none;
  plan_err_context = "";
  skip_reason = not_skipped;
  snaps = List.[];
  destroy_list = List.[];
  exec_err_last = none;
}

-- pdu.Filesystem
pub record Filesystem : Type 0 where
  pub path : String
  pub is_placeholder : Bool

-- pdu.ReplicationCursorRes, by its getters
pub record CursorRes : Type 0 where
  pub guid : ℕ
  pub notexist : Bool

-- pdu.DestroySnapshotsReq and pdu.DestroySnapshotRes
pub record DestroyReq : Type 0 where
  pub filesystem : String
  pub snapshots : List FilesystemVersion

pub record DestroyRes : Type 0 where
  pub snapshot : FilesystemVersion
  pub error : String

-- What the two sides answer: to `destroy_snapshots` with regard to all requests before, the latest
-- first.
pub record Sides : Type 0 where
  pub sender_filesystems : Result String (List Filesystem)
  pub target_filesystems : Result String (List Filesystem)
  pub target_versions : String → Result String (List FilesystemVersion)
  pub replication_cursor : String → Result String CursorRes
  pub destroy_snapshots : List DestroyReq → DestroyReq → Result String (List DestroyRes)

-- FilesystemVersion.RelName; `none` is the panic on a date that cannot be parsed.
unfoldable pub rel_name : (String → Option ℤ) → FilesystemVersion → Option String
rel_name parse v = elim (parse v.creation) [
  | none ↦ none
  | some t ↦ some (cat (elim (is_bookmark v) [ true ↦ "#" | false ↦ "@" ]) v.name)
]

-- The LastError of fs.Report, where the filesystem is not skipped; "" where there is none.
unfoldable pub last_error : Fs → String
last_error f = elim f.plan_err [
  | some e ↦ e
  | none ↦ elim f.exec_err_last [ some e ↦ e | none ↦ "" ]
]
