-- ===== src/Tests/Filesystems.antt =====
-- The filesystems of two endpoints.
use Prim.Native.String.{String}
use zrepl.Prelude.{◌≡◌, refl, false, none, some, List, [], ◌∷◌, ok}
use zrepl.Replication.Planner.{Filesystem, Plan, new_step}
use zrepl.Replication.Planner.Filesystems.{PlannedFilesystem, plan_filesystems, target_equals}

abbrev fs : String → Filesystem
fs path = record { path = path; resume_token = ""; is_placeholder = false }

abbrev senders : Plan (List Filesystem)
senders = ok (fs "a" ∷ fs "b" ∷ [])

abbrev receivers : Plan (List Filesystem)
receivers = ok (fs "c" ∷ fs "a" ∷ [])

abbrev planned : List PlannedFilesystem
planned =
    record { sender_fs = fs "a"; receiver_fs = some (fs "a") }
    ∷ record { sender_fs = fs "b"; receiver_fs = none }
    ∷ []

other_parent :
    target_equals
      (record { sender_fs = fs "a"; receiver_fs = none })
      (new_step none none "")
      (record { sender_fs = fs "b"; receiver_fs = none })
      (new_step none none "")
    ≡ none
unfolding target_equals
other_parent = refl

plans : plan_filesystems senders receivers ≡ ok planned
unfolding plan_filesystems
plans = refl
