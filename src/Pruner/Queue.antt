-- ===== src/Pruner/Queue.antt =====
-- daemon/pruner/pruner_queue.go.
use zrepl.Prelude.{
  Bool, true, false, ◌||◌, if◌then◌else◌, Option, none, some, List, [], ◌∷◌, ◌++◌, string_less,
  slice_stable,
}
use Prim.Native.String.{String}
use zrepl.Pruner.{Fs}

-- execQueue
pub record Queue : Type 0 where
  pub pending : List Fs
  pub completed : List Fs

abbrev pub new_exec_queue : Queue
new_exec_queue = record { pending = []; completed = [] }

-- `less` of the sort.SliceStable
unfoldable pub path_less : Fs → Fs → Bool
path_less a b = string_less a.path b.path

unfoldable pub pop : Queue → Option (Fs × Queue)
pop q = elim q.pending [ [] ↦ none | f ∷ rest ↦ some (f, record q { pending = rest }) ]

abbrev pub is_some : Option String → Bool
is_some none = false
is_some (some e) = true

unfoldable pub put : Fs → Option String → Bool → Queue → Queue
unfolding path_less
put f e done q =
    let f' = record f { exec_err_last = e } in
    if done || is_some e
    then record q { completed = q.completed ++ (f' ∷ []) }
    else record q { pending = slice_stable path_less (q.pending ++ (f' ∷ [])) }
