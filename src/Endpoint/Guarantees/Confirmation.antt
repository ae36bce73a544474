-- ===== src/Endpoint/Guarantees/Confirmation.antt =====
-- What ReceiverPostRecv and SenderPostRecvConfirmed have protected.
use mathlib.Core.List.{mem-cons_self}
use zrepl.Prelude.{◌≡◌, refl, sym, ◌⊎◌, inl, inr, Option, none, some, List, [], ◌∷◌, Mem, ok}
use zrepl.Endpoint.Guarantees.{
  Version, ReplicationGuaranteeKind, resumability, incremental, no_guarantee, Abstraction,
  replication_cursor, last_received_hold, CreateError, bookmark_cloning_not_supported, other_error,
  Creator, create, receiver_post_recv_common, receiver_post_recv, post_recv_confirmed_common,
  sender_post_recv_confirmed,
}
use zrepl.Endpoint.Guarantees.Protection.{IsAccounted, only_last}

module _ (c : Creator) where
  nothing_kept :
      (log log' : List Abstraction) (keep : List (Option Abstraction))
      → [] ≡ keep
      → log ≡ log'
      → IsAccounted keep log log'
  nothing_kept log log' keep k l =
      rw (sym k, sym l) (record { created = []; extends_log = refl; kept = tt; exist = tt })

  abbrev pub Received : ReplicationGuaranteeKind → Version → List (Option Abstraction) → Type 0
  Received no_guarantee v keep = keep ≡ []
  Received incremental v keep = Mem (some (last_received_hold v)) keep
  Received resumability v keep = Mem (some (last_received_hold v)) keep

  -- When ReceiverPostRecv returns no error, every guarantee but none has a hold on what was
  -- received, and it is kept; what is kept exists, and what the call created is kept.
  pub receiver_post_recv-Received :
      (kind : ReplicationGuaranteeKind) (v : Version) (log log' : List Abstraction)
      (keep : List (Option Abstraction))
      → receiver_post_recv kind c v log ≡ (ok keep, log')
      → Received kind v keep × IsAccounted keep log log'
  unfolding receiver_post_recv receiver_post_recv_common
  receiver_post_recv-Received no_guarantee v log log' keep h =
      let nothing : [] ≡ keep = cc in (sym nothing, nothing_kept log log' keep nothing (cc))
  receiver_post_recv-Received incremental v log log' keep h =
      only_last c (last_received_hold v) log log' keep h
  receiver_post_recv-Received resumability v log log' keep h =
      only_last c (last_received_hold v) log log' keep h

  abbrev pub CursorMoved : Version → List Abstraction → List (Option Abstraction) → Type 0
  CursorMoved to log keep =
      Mem (some (replication_cursor to)) keep
      ⊎ (c log (replication_cursor to) ≡ some bookmark_cloning_not_supported)

  abbrev pub ConfirmedAs :
      ReplicationGuaranteeKind → Version → List Abstraction → List (Option Abstraction) → Type 0
  ConfirmedAs no_guarantee to log keep = keep ≡ []
  ConfirmedAs incremental to log keep = CursorMoved to log keep
  ConfirmedAs resumability to log keep = CursorMoved to log keep

  common-CursorMoved :
      (to : Version) (log log' : List Abstraction) (keep : List (Option Abstraction))
      (answer : Option CreateError)
      → c log (replication_cursor to) ≡ answer
      → post_recv_confirmed_common c to log ≡ (ok keep, log')
      → CursorMoved to log keep × IsAccounted keep log log'
  unfolding post_recv_confirmed_common create
  common-CursorMoved to log log' keep none e h =
      let k : some (replication_cursor to) ∷ [] ≡ keep = cc in
      let l : replication_cursor to ∷ log ≡ log' = cc in
      rw (sym k, sym l)
        (
          inl mem-cons_self,
          record {
            created = replication_cursor to ∷ [];
            extends_log = refl;
            kept = (mem-cons_self, tt);
            exist = (mem-cons_self, tt);
          },
        )
  common-CursorMoved to log log' keep (some bookmark_cloning_not_supported) e h =
      let k : none ∷ [] ≡ keep = cc in
      let l : log ≡ log' = cc in
      (
        inr e,
        rw (sym k, sym l)
            (record { created = []; extends_log = refl; kept = tt; exist = (tt, tt) }),
      )
  common-CursorMoved to log log' keep (some (other_error m)) e h = cc

  -- When SenderPostRecvConfirmed returns no error, every guarantee but none has moved the
  -- replication cursor to the confirmed version and keeps it, unless ZFS cannot clone bookmarks;
  -- what is kept exists, and what the call created is kept.
  pub sender_post_recv_confirmed-CursorMoved :
      (kind : ReplicationGuaranteeKind) (to : Version) (log log' : List Abstraction)
      (keep : List (Option Abstraction))
      → sender_post_recv_confirmed kind c to log ≡ (ok keep, log')
      → ConfirmedAs kind to log keep × IsAccounted keep log log'
  unfolding sender_post_recv_confirmed
  sender_post_recv_confirmed-CursorMoved no_guarantee to log log' keep h =
      let nothing : [] ≡ keep = cc in (sym nothing, nothing_kept log log' keep nothing (cc))
  sender_post_recv_confirmed-CursorMoved incremental to log log' keep h =
      common-CursorMoved to log log' keep _ refl h
  sender_post_recv_confirmed-CursorMoved resumability to log log' keep h =
      common-CursorMoved to log log' keep _ refl h
