-- ===== src/Endpoint/Guarantees/Protection.antt =====
-- What a successful call of a guarantee's methods has protected.
use mathlib.Core.List.{mem-cons_self, mem-cons_of_mem}
use zrepl.Prelude.{
  ◌≡◌, refl, sym, ◌⊎◌, inl, inr, Option, none, some, List, [], ◌∷◌, ◌++◌, Mem, All, Option-cases,
  ok,
}
use zrepl.Replication.Version.{VersionType, snapshot, bookmark}
use zrepl.Endpoint.Guarantees.{
  Version, ReplicationGuaranteeKind, resumability, incremental, no_guarantee, Abstraction,
  tentative_cursor, step_hold, CreateError, bookmark_cloning_not_supported, other_error, Creator,
  create, keep_last, pre_send_incremental, pre_send_resumability, sender_pre_send,
}

-- The kept abstractions exist.
abbrev pub Exist : List (Option Abstraction) → List Abstraction → Type 0
Exist keep log = All (λ a. elim a [ none ↦ Unit | some x ↦ Mem x log ]) keep

-- A call that went from `log` to `log'` keeps what exists, and forgets nothing that it created.
pub record IsAccounted (keep : List (Option Abstraction)) (log log' : List Abstraction)
    : Type 0 where
  pub created : List Abstraction
  pub extends_log : log' ≡ created ++ log
  pub kept : All (λ a. Mem (some a) keep) created
  pub exist : Exist keep log'

abbrev pub ToIsKept : ReplicationGuaranteeKind → Version → List (Option Abstraction) → Type 0
ToIsKept no_guarantee to keep = keep ≡ []
ToIsKept incremental to keep = Mem (some (tentative_cursor to)) keep
ToIsKept resumability to keep = Mem (some (step_hold to)) keep

-- `from` is kept too, unless ZFS has no way to.
abbrev pub FromIsKept :
    ReplicationGuaranteeKind
    → Creator
    → Option Version
    → List Abstraction
    → List (Option Abstraction)
    → Type 0
FromIsKept kind c none log keep = Unit
FromIsKept no_guarantee c (some from) log keep = Unit
FromIsKept incremental c (some from) log keep =
    Mem (some (tentative_cursor from)) keep
    ⊎ (c log (tentative_cursor from) ≡ some bookmark_cloning_not_supported)
FromIsKept resumability c (some from) log keep =
    Mem (some (step_hold from)) keep ⊎ (from.type ≡ bookmark)

module _ (c : Creator) where
  keep_last-ok :
      (keep out : List (Option Abstraction)) (a : Abstraction) (log log' : List Abstraction)
      → keep_last c keep a log ≡ (ok out, log')
      → (out ≡ keep ++ some a ∷ []) × (log' ≡ a ∷ log)
  unfolding keep_last create
  keep_last-ok keep out a log log' h = elim (Option-cases (c log a)) [
    | inl e ↦ (cc, cc)
    | inr (x, e) ↦ cc
  ]

  -- The last thing kept is the only one.
  pub only_last :
      (a : Abstraction) (log log' : List Abstraction) (keep : List (Option Abstraction))
      → keep_last c [] a log ≡ (ok keep, log')
      → Mem (some a) keep × IsAccounted keep log log'
  only_last a log log' keep h =
      let (k, l) = keep_last-ok [] keep a log log' h in
      rw (k, l)
        (
          mem-cons_self,
          record {
            created = a ∷ [];
            extends_log = refl;
            kept = (mem-cons_self, tt);
            exist = (mem-cons_self, tt);
          },
        )

  -- Two things are kept, the earlier one created just before.
  both_kept :
      (a b : Abstraction) (log log' : List Abstraction) (keep : List (Option Abstraction))
      → keep_last c (some a ∷ []) b (a ∷ log) ≡ (ok keep, log')
      → Mem (some a) keep × Mem (some b) keep × IsAccounted keep log log'
  both_kept a b log log' keep h =
      let (k, l) = keep_last-ok (some a ∷ []) keep b (a ∷ log) log' h in
      rw (k, l)
        (
          mem-cons_self,
          mem-cons_of_mem (some a) mem-cons_self,
          record {
            created = b ∷ a ∷ [];
            extends_log = refl;
            kept = (mem-cons_of_mem (some a) mem-cons_self, (mem-cons_self, tt));
            exist = (mem-cons_of_mem b mem-cons_self, (mem-cons_self, tt));
          },
        )

  after_nil :
      (b : Abstraction) (log log' : List Abstraction) (keep : List (Option Abstraction))
      → keep_last c (none ∷ []) b log ≡ (ok keep, log')
      → Mem (some b) keep × IsAccounted keep log log'
  after_nil b log log' keep h =
      let (k, l) = keep_last-ok (none ∷ []) keep b log log' h in
      rw (k, l)
        (
          mem-cons_of_mem none mem-cons_self,
          record {
            created = b ∷ [];
            extends_log = refl;
            kept = (mem-cons_of_mem none mem-cons_self, tt);
            exist = (tt, (mem-cons_self, tt));
          },
        )

  abbrev pub Protects :
      ReplicationGuaranteeKind
      → Option Version
      → Version
      → List Abstraction
      → List (Option Abstraction)
      → List Abstraction
      → Type 0
  Protects kind from to log keep log' =
      ToIsKept kind to keep × FromIsKept kind c from log keep × IsAccounted keep log log'

  incremental-Protects :
      (from to : Version) (log log' : List Abstraction) (keep : List (Option Abstraction))
      (answer : Option CreateError)
      → c log (tentative_cursor from) ≡ answer
      → pre_send_incremental c (some from) to log ≡ (ok keep, log')
      → Protects incremental (some from) to log keep log'
  unfolding pre_send_incremental create
  incremental-Protects from to log log' keep none e h =
      let (a, b, acc) =
        both_kept (tentative_cursor from) (tentative_cursor to) log log' keep (cc) in
      (b, inl a, acc)
  incremental-Protects from to log log' keep (some bookmark_cloning_not_supported) e h =
      let (b, acc) = after_nil (tentative_cursor to) log log' keep (cc) in (b, inr e, acc)
  incremental-Protects from to log log' keep (some (other_error m)) e h = cc

  held-Protects :
      (from to : Version) (log log' : List Abstraction) (keep : List (Option Abstraction))
      (answer : Option CreateError)
      → from.type ≡ snapshot
      → c log (step_hold from) ≡ answer
      → pre_send_resumability c (some from) to log ≡ (ok keep, log')
      → Protects resumability (some from) to log keep log'
  unfolding pre_send_resumability create
  held-Protects from to log log' keep none t e h =
      let (a, b, acc) = both_kept (step_hold from) (step_hold to) log log' keep (cc) in
      (b, inl a, acc)
  held-Protects from to log log' keep (some x) t e h = cc

  unheld-Protects :
      (from to : Version) (log log' : List Abstraction) (keep : List (Option Abstraction))
      → from.type ≡ bookmark
      → pre_send_resumability c (some from) to log ≡ (ok keep, log')
      → Protects resumability (some from) to log keep log'
  unfolding pre_send_resumability
  unheld-Protects from to log log' keep t h =
      let (b, acc) = only_last (step_hold to) log log' keep (cc) in (b, inr t, acc)

  -- When SenderPreSend returns no error, the guarantee's hold or cursor for the target is kept, and
  -- one for the source, unless it is a bookmark that would have to be held or ZFS cannot clone
  -- bookmarks. What is kept exists, and what the call created is kept.
  pub sender_pre_send-Protects :
      (kind : ReplicationGuaranteeKind) (from : Option Version) (to : Version)
      (log log' : List Abstraction) (keep : List (Option Abstraction))
      → sender_pre_send kind c from to log ≡ (ok keep, log')
      → Protects kind from to log keep log'
  unfolding sender_pre_send pre_send_incremental pre_send_resumability
  sender_pre_send-Protects no_guarantee from to log log' keep h =
      let nothing : [] ≡ keep = cc in
      let same : log ≡ log' = cc in
      (
        sym nothing,
        unneeded from,
        rw (sym nothing, sym same)
            (record { created = []; extends_log = refl; kept = tt; exist = tt }),
      )
    where
      unneeded : (v : Option Version) → FromIsKept no_guarantee c v log keep
      unneeded none = tt
      unneeded (some v) = tt
  sender_pre_send-Protects incremental none to log log' keep h =
      let (b, acc) = only_last (tentative_cursor to) log log' keep h in (b, tt, acc)
  sender_pre_send-Protects incremental (some from) to log log' keep h =
      incremental-Protects from to log log' keep _ refl h
  sender_pre_send-Protects resumability none to log log' keep h =
      let (b, acc) = only_last (step_hold to) log log' keep h in (b, tt, acc)
  sender_pre_send-Protects resumability (some from) to log log' keep h = by_type (from.type) refl
    where
      by_type :
          (t : VersionType) → from.type ≡ t → Protects resumability (some from) to log keep log'
      by_type snapshot t = held-Protects from to log log' keep _ t refl h
      by_type bookmark t = unheld-Protects from to log log' keep t h
