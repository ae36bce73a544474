-- ===== src/Tests/Endpoint.antt =====
-- The guarantees for one incremental send.
use zrepl.Prelude.{refl, none, some, [], ◌∷◌}
use zrepl.Replication.Version.{snapshot, bookmark}
use zrepl.Endpoint.Guarantees.{
  Version, resumability, incremental, tentative_cursor, step_hold, replication_cursor,
  last_received_hold, bookmark_cloning_not_supported, Creator, sender_pre_send,
  sender_post_recv_confirmed,
}
use zrepl.Endpoint.Guarantees.Protection.{Protects, sender_pre_send-Protects, IsAccounted}
use zrepl.Endpoint.Guarantees.Confirmation.{ConfirmedAs, sender_post_recv_confirmed-CursorMoved}

abbrev source : Version
source = record { type = bookmark; name = "a"; guid = 1; create_txg = 1 }

abbrev target : Version
target = record { type = snapshot; name = "b"; guid = 2; create_txg = 2 }

-- Bookmarks of bookmarks cannot be made.
abbrev creator : Creator
creator log (tentative_cursor v) = elim v.type [
  | snapshot ↦ none
  | bookmark ↦ some bookmark_cloning_not_supported
]
creator log (step_hold v) = none
creator log (replication_cursor v) = none
creator log (last_received_hold v) = none

sender_pre_send-Protects_example :
    Protects creator incremental
      (some source)
      target
      []
      (none ∷ some (tentative_cursor target) ∷ [])
      (tentative_cursor target ∷ [])
unfolding sender_pre_send
sender_pre_send-Protects_example =
    sender_pre_send-Protects creator incremental (some source) target []
      (tentative_cursor target ∷ []) (none ∷ some (tentative_cursor target) ∷ []) refl

sender_post_recv_confirmed-CursorMoved_example :
    ConfirmedAs creator resumability target [] (some (replication_cursor target) ∷ [])
    × IsAccounted (some (replication_cursor target) ∷ []) [] (replication_cursor target ∷ [])
unfolding sender_post_recv_confirmed
sender_post_recv_confirmed-CursorMoved_example =
    sender_post_recv_confirmed-CursorMoved creator resumability target []
      (replication_cursor target ∷ []) (some (replication_cursor target) ∷ []) refl
