-- ===== src/Replication/Planner/Filesystems.antt =====
-- Planner.doPlanning: the filesystems to plan, each with its counterpart on the receiver; and the
-- comparison of steps and filesystems with those of an earlier attempt.
use Prim.Native.String.{String}
use zrepl.Prelude.{
  ℕ, ◌≡◌, refl, sym, ap, ◌∙◌, subst, ◌⊎◌, inl, inr, Bool, false, not, ◌&&◌, if◌then◌else◌, Option,
  none, some, List, [], ◌∷◌, ◌==◌, map, All, Mem, str_eq, str_eq→eq, ok, err, ◌>>=◌, Bool-cases,
}
use mathlib.Core.List.{mem-cons_self, mem-cons_of_mem}
use zrepl.Replication.Version.{FilesystemVersion}
use zrepl.Replication.Planner.{Filesystem, Step, Plan}

-- The fields of the type Filesystem that planning reads.
pub record PlannedFilesystem : Type 0 where
  pub sender_fs : Filesystem
  pub receiver_fs : Option Filesystem

-- The inner loop: a later match replaces an earlier one.
unfoldable pub find_receiver_fs : Option Filesystem → String → List Filesystem → Option Filesystem
find_receiver_fs found path [] = found
find_receiver_fs found path (rfs ∷ rest) =
    find_receiver_fs (if str_eq rfs.path path then some rfs else found) path rest

unfoldable pub plan_filesystem : List Filesystem → Filesystem → PlannedFilesystem
unfolding find_receiver_fs
plan_filesystem rfss fs = record {
  sender_fs = fs;
  receiver_fs = find_receiver_fs none fs.path rfss;
}

-- doPlanning, on the answers of the two endpoints to ListFilesystems.
unfoldable pub plan_filesystems :
    Plan (List Filesystem) → Plan (List Filesystem) → Plan (List PlannedFilesystem)
unfolding plan_filesystem
plan_filesystems sender receiver = do
  sfss ← sender
  rfss ← receiver
  ok (map (plan_filesystem rfss) sfss)

-- EqualToPreviousAttempt
unfoldable pub equal_to_previous_attempt : PlannedFilesystem → PlannedFilesystem → Bool
equal_to_previous_attempt f g = str_eq f.sender_fs.path g.sender_fs.path

-- GetGuid of a nil pointer is 0.
abbrev pub guid_of : Option FilesystemVersion → ℕ
guid_of none = 0
guid_of (some v) = v.guid

-- TargetEquals, with the parents of the two steps; `none` is a panic.
unfoldable pub target_equals : PlannedFilesystem → Step → PlannedFilesystem → Step → Option Bool
unfolding equal_to_previous_attempt
target_equals f s g t =
    if not (equal_to_previous_attempt f g)
    then none
    else some (guid_of s.from == guid_of t.from && guid_of s.to == guid_of t.to)

-- The receiver's filesystem is one of those that it listed, with the same path; if there is none,
-- the receiver listed no such filesystem.
abbrev pub IsCounterpart : List Filesystem → String → Option Filesystem → Type 0
IsCounterpart rfss path none = All (λ (r : Filesystem). str_eq r.path path ≡ false) rfss
IsCounterpart rfss path (some r) = Mem r rfss × (r.path ≡ path)

first_or_later :
    (r f : Filesystem) (rfss : List Filesystem) → (r ≡ f) ⊎ Mem r rfss → Mem r (f ∷ rfss)
first_or_later r f rfss (inl same) = subst (λ x. Mem x (f ∷ rfss)) (sym same) mem-cons_self
first_or_later r f rfss (inr m) = mem-cons_of_mem f m

find_receiver_fs-some :
    (f : Filesystem) (path : String) (rfss : List Filesystem)
    → f.path ≡ path
    → (r : Filesystem) × (find_receiver_fs (some f) path rfss ≡ some r)
      × ((r ≡ f) ⊎ Mem r rfss)
      × (r.path ≡ path)
unfolding find_receiver_fs
find_receiver_fs-some f path [] h = (f, refl, inl refl, h)
find_receiver_fs-some f path (g ∷ rfss) h = elim (Bool-cases (str_eq g.path path)) [
  | inl e ↦
      let (r, k, m, p) = find_receiver_fs-some g path rfss (str_eq→eq g.path path e) in
      (r, rw (e, find_receiver_fs) k, inr (first_or_later r g rfss m), p)
  | inr e ↦
      let (r, k, m, p) = find_receiver_fs-some f path rfss h in
      (r, rw (e, find_receiver_fs) k, later r m, p)
]
  where
    later : (r : Filesystem) → (r ≡ f) ⊎ Mem r rfss → (r ≡ f) ⊎ Mem r (g ∷ rfss)
    later r (inl same) = inl same
    later r (inr m) = inr (mem-cons_of_mem g m)

find_receiver_fs-IsCounterpart :
    (path : String) (rfss : List Filesystem)
    → IsCounterpart rfss path (find_receiver_fs none path rfss)
unfolding find_receiver_fs
find_receiver_fs-IsCounterpart path [] = tt
find_receiver_fs-IsCounterpart path (g ∷ rfss) = elim (Bool-cases (str_eq g.path path)) [
  | inl e ↦
      let (r, k, m, p) = find_receiver_fs-some g path rfss (str_eq→eq g.path path e) in
      rw (e, k, find_receiver_fs) (first_or_later r g rfss m, p)
  | inr e ↦
      rw (e, find_receiver_fs)
        (wider g rfss e (find_receiver_fs none path rfss)
          (find_receiver_fs-IsCounterpart path rfss))
]
  where
    wider :
        (x : Filesystem) (zs : List Filesystem)
        → str_eq x.path path ≡ false
        → (o : Option Filesystem) → IsCounterpart zs path o
        → IsCounterpart (x ∷ zs) path o
    wider x zs e none h = (e, h)
    wider x zs e (some r) h = (mem-cons_of_mem x h.0, h.1)

-- Planning starts with the sender's filesystems, each once and in the order listed; each has its
-- counterpart on the receiver, if the receiver listed one.
pub plan_filesystems-IsCounterpart :
    (sender receiver : Plan (List Filesystem)) (planned : List PlannedFilesystem)
    → plan_filesystems sender receiver ≡ ok planned
    → (sfss : List Filesystem) × (rfss : List Filesystem) × (sender ≡ ok sfss)
      × (receiver ≡ ok rfss)
      × (map (λ (f : PlannedFilesystem). f.sender_fs) planned ≡ sfss)
      × All (λ (f : PlannedFilesystem). IsCounterpart rfss f.sender_fs.path f.receiver_fs) planned
unfolding plan_filesystems
plan_filesystems-IsCounterpart (err x) receiver planned h = cc
plan_filesystems-IsCounterpart (ok sfss) (err x) planned h = cc
plan_filesystems-IsCounterpart (ok sfss) (ok rfss) planned h =
    let same : map (plan_filesystem rfss) sfss ≡ planned = cc in
    (
      sfss,
      rfss,
      refl,
      refl,
      ap (map (λ (f : PlannedFilesystem). f.sender_fs)) (sym same) ∙ senders sfss,
      subst (All (λ (f : PlannedFilesystem). IsCounterpart rfss f.sender_fs.path f.receiver_fs))
          same (counterparts sfss),
    )
  where
    senders :
        (fs : List Filesystem)
        → map (λ (f : PlannedFilesystem). f.sender_fs) (map (plan_filesystem rfss) fs) ≡ fs
    senders [] = refl
    senders (f ∷ fs) = ap (◌∷◌ f) (senders fs)

    counterparts :
        (fs : List Filesystem)
        → All
            (λ (f : PlannedFilesystem). IsCounterpart rfss f.sender_fs.path f.receiver_fs)
            (map (plan_filesystem rfss) fs)
    counterparts [] = tt
    counterparts (f ∷ fs) = (find_receiver_fs-IsCounterpart f.path rfss, counterparts fs)
