-- ===== src/Endpoint/Guarantees.antt =====
-- endpoint/endpoint_guarantees.go: what the endpoints create so that a replication can go on later.
-- Whether a bookmark or a hold can be created is an argument.
pub mod Protection
pub mod Confirmation
use Prim.Native.String.{String}
use zrepl.Prelude.{
  ℕ, Bool, true, false, if◌then◌else◌, Option, none, some, List, [], ◌∷◌, ◌++◌, Result, ok, err,
  ◌>>=◌,
}
use zrepl.Replication.Version.{VersionType, snapshot, bookmark}

-- zfs.FilesystemVersion, the fields that name it.
pub record Version : Type 0 where
  pub type : VersionType
  pub name : String
  pub guid : ℕ
  pub create_txg : ℕ

-- pdu.ReplicationGuaranteeKind
pub data PduKind : Type 0 where
  guarantee_invalid guarantee_resumability guarantee_incremental guarantee_nothing : PduKind

pub data ReplicationGuaranteeKind : Type 0 where
  resumability incremental no_guarantee : ReplicationGuaranteeKind

pub record ReplicationGuaranteeOptions : Type 0 where
  pub initial_kind : ReplicationGuaranteeKind
  pub incremental_kind : ReplicationGuaranteeKind

pub data OptionsError : Type 0 where
  missing invalid_initial invalid_incremental : OptionsError

-- replicationGuaranteeKindFromPDU
unfoldable pub kind_from_pdu : OptionsError → PduKind → Result OptionsError ReplicationGuaranteeKind
kind_from_pdu e guarantee_nothing = ok no_guarantee
kind_from_pdu e guarantee_incremental = ok incremental
kind_from_pdu e guarantee_resumability = ok resumability
kind_from_pdu e guarantee_invalid = err e

-- replicationGuaranteeOptionsFromPDU; the message has the fields Initial and Incremental.
unfoldable pub options_from_pdu :
    Option (PduKind × PduKind) → Result OptionsError ReplicationGuaranteeOptions
unfolding kind_from_pdu
options_from_pdu none = err missing
options_from_pdu (some (i, n)) = do
  initial ← kind_from_pdu invalid_initial i
  inc ← kind_from_pdu invalid_incremental n
  ok (record { initial_kind = initial; incremental_kind = inc })

-- Strategy, named by its kind.
unfoldable pub strategy : ReplicationGuaranteeOptions → Bool → ReplicationGuaranteeKind
strategy o is_incremental = if is_incremental then o.incremental_kind else o.initial_kind

-- What CreateTentativeReplicationCursor, HoldStep, CreateReplicationCursor and
-- CreateLastReceivedHold create.
pub data Abstraction : Type 0 where
  tentative_cursor step_hold replication_cursor last_received_hold : Version → Abstraction

pub data CreateError : Type 0 where
  bookmark_cloning_not_supported : CreateError
  other_error : String → CreateError

-- What has been created, the latest first, decides the outcome.
abbrev pub Creator : Type 0
Creator = List Abstraction → Abstraction → Option CreateError

-- A result, and what has been created until then. A nil abstraction is `none`.
abbrev pub Kept : Type 0
Kept = Result CreateError (List (Option Abstraction)) × List Abstraction

unfoldable pub create :
    Creator → Abstraction → List Abstraction → Option CreateError × List Abstraction
create c a log = elim (c log a) [ none ↦ (none, a ∷ log) | some e ↦ (some e, log) ]

-- The end of the two methods SenderPreSend: create `a` and keep it.
unfoldable pub keep_last :
    Creator → List (Option Abstraction) → Abstraction → List Abstraction → Kept
unfolding create
keep_last c keep a log =
    let (failure, log') = create c a log in
    elim failure [ none ↦ (ok (keep ++ some a ∷ []), log') | some e ↦ (err e, log') ]

-- SenderPreSend of ReplicationGuaranteeIncremental; when cloning is not supported, `from` is nil.
unfoldable pub pre_send_incremental : Creator → Option Version → Version → List Abstraction → Kept
unfolding keep_last
pre_send_incremental c none to log = keep_last c [] (tentative_cursor to) log
pre_send_incremental c (some from) to log =
    let (failure, log') = create c (tentative_cursor from) log in
    elim failure [
      | none ↦ keep_last c (some (tentative_cursor from) ∷ []) (tentative_cursor to) log'
      | some bookmark_cloning_not_supported ↦ keep_last c (none ∷ []) (tentative_cursor to) log'
      | some (other_error m) ↦ (err (other_error m), log')
    ]

-- SenderPreSend of ReplicationGuaranteeResumability; a bookmark cannot be held.
unfoldable pub pre_send_resumability : Creator → Option Version → Version → List Abstraction → Kept
unfolding keep_last
pre_send_resumability c none to log = keep_last c [] (step_hold to) log
pre_send_resumability c (some from) to log = elim from.type [
  | bookmark ↦ keep_last c [] (step_hold to) log
  | snapshot ↦
      let (failure, log') = create c (step_hold from) log in
      elim failure [
        | none ↦ keep_last c (some (step_hold from) ∷ []) (step_hold to) log'
        | some e ↦ (err e, log')
      ]
]

-- SenderPreSend
unfoldable pub sender_pre_send :
    ReplicationGuaranteeKind → Creator → Option Version → Version → List Abstraction → Kept
unfolding pre_send_incremental pre_send_resumability
sender_pre_send no_guarantee c from to log = (ok [], log)
sender_pre_send incremental c from to log = pre_send_incremental c from to log
sender_pre_send resumability c from to log = pre_send_resumability c from to log

-- receiverPostRecvCommon
unfoldable pub receiver_post_recv_common : Creator → Version → List Abstraction → Kept
unfolding keep_last
receiver_post_recv_common c received log = keep_last c [] (last_received_hold received) log

-- ReceiverPostRecv
unfoldable pub receiver_post_recv :
    ReplicationGuaranteeKind → Creator → Version → List Abstraction → Kept
unfolding receiver_post_recv_common
receiver_post_recv no_guarantee c received log = (ok [], log)
receiver_post_recv incremental c received log = receiver_post_recv_common c received log
receiver_post_recv resumability c received log = receiver_post_recv_common c received log

-- senderPostRecvConfirmedCommon
unfoldable pub post_recv_confirmed_common : Creator → Version → List Abstraction → Kept
unfolding create
post_recv_confirmed_common c to log =
    let (failure, log') = create c (replication_cursor to) log in
    elim failure [
      | none ↦ (ok (some (replication_cursor to) ∷ []), log')
      | some bookmark_cloning_not_supported ↦ (ok (none ∷ []), log')
      | some (other_error m) ↦ (err (other_error m), log')
    ]

-- SenderPostRecvConfirmed
unfoldable pub sender_post_recv_confirmed :
    ReplicationGuaranteeKind → Creator → Version → List Abstraction → Kept
unfolding post_recv_confirmed_common
sender_post_recv_confirmed no_guarantee c to log = (ok [], log)
sender_post_recv_confirmed incremental c to log = post_recv_confirmed_common c to log
sender_post_recv_confirmed resumability c to log = post_recv_confirmed_common c to log
