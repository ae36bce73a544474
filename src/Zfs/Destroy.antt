-- ===== src/Zfs/Destroy.antt =====
-- zfs/versions_destroy.go: the destruction of snapshots in batches. `none` stands for a panic; the
-- destroyer is an argument, whose answers may depend on the calls before.
pub mod Batches
pub mod Complete
pub mod Confirmed
pub mod Sound
pub mod Safety
use Prim.Native.String.{String, ◌++◌}
use zrepl.Prelude.{
  ℕ, zero, suc, ◌/◌, Bool, true, false, not, ◌&&◌, ◌||◌, if◌then◌else◌, Option, none, some, List,
  [], ◌∷◌, map, length, take, drop, keep_if, ltb, leb, str_eq, string_less, slice_stable, Result,
  ok, err,
}

-- A request; its ErrOut is written at most once in a list of writes, so it needs no address.
pub record DestroySnapOp : Type 0 where
  pub filesystem : String
  pub name : String

pub data DestroyError : Type 0 where
  argument_list_too_long failed : DestroyError
  undestroyable : List String → DestroyError

-- What is written to ErrOut.
pub data OpError : Type 0 where
  empty_filesystem empty_name detection_failed : OpError
  not_destroyed : DestroyError → OpError

-- A call of Destroy with its argument, and what it returned.
pub record Call : Type 0 where
  pub argument : String
  pub answer : Option DestroyError

-- *op.ErrOut = error
pub record Write : Type 0 where
  pub op : DestroySnapOp
  pub error : Option OpError

-- The latest comes first.
pub record Run : Type 0 where
  pub calls : List Call
  pub writes : List Write

-- The interface destroyer.
pub record Destroyer : Type 0 where
  pub destroy : List Call → String → Option DestroyError
  pub comma_supported : Result OpError Bool

abbrev pub write_of : Option DestroyError → Option OpError
write_of none = none
write_of (some e) = some (not_destroyed e)

-- setDestroySnapOpErr
unfoldable pub set_errors : List DestroySnapOp → Option OpError → Run → Run
set_errors [] e s = s
set_errors (o ∷ os) e s =
    set_errors os e (record s { writes = record { op = o; error = e } ∷ s.writes })

-- strings.Join(names, ",")
unfoldable pub join : List String → String
join [] = ""
join (n ∷ []) = n
join (n ∷ m ∷ ns) = n ++ "," ++ join (m ∷ ns)

-- The argument `filesystem@name,name`, a text.
unfoldable pub batch_arg : String → List String → String
unfolding join
batch_arg fs names = fs ++ "@" ++ join names

-- A call, recorded.
unfoldable pub call_destroy : Destroyer → String → List String → Run → Option DestroyError × Run
unfolding batch_arg
call_destroy d fs names s =
    let arg = batch_arg fs names in
    let answer = d.destroy s.calls arg in
    (answer, record s { calls = record { argument = arg; answer = answer } ∷ s.calls })

unfoldable pub destroy_one : Destroyer → DestroySnapOp → Run → Run
unfolding call_destroy set_errors
destroy_one d o s =
    let (answer, s') = call_destroy d o.filesystem (o.name ∷ []) s in
    set_errors (o ∷ []) (write_of answer) s'

-- doDestroySeq
unfoldable pub destroy_seq : Destroyer → List DestroySnapOp → Run → Run
unfolding destroy_one
destroy_seq d [] s = s
destroy_seq d (o ∷ os) s = destroy_seq d os (destroy_one d o s)

unfoldable pub op_less : DestroySnapOp → DestroySnapOp → Bool
unfolding string_less
op_less a b =
    if not (str_eq a.filesystem b.filesystem)
    then string_less a.filesystem b.filesystem
    else string_less a.name b.name

-- The inner loop: `n` requests are in the batch already.
unfoldable pub take_batch :
    ℕ → String → ℕ → List DestroySnapOp → List DestroySnapOp × List DestroySnapOp
take_batch max fs n [] = ([], [])
take_batch max fs n (o ∷ os) =
    let (batch, rest) = take_batch max fs (suc n) os in
    if (ltb max 1 || ltb n max) && str_eq o.filesystem fs then (o ∷ batch, rest) else ([], o ∷ os)

-- The outer loop, on fuel.
unfoldable pub group_batches : ℕ → ℕ → List DestroySnapOp → List (List DestroySnapOp)
unfolding take_batch
group_batches zero max ops = []
group_batches (suc fuel) max [] = []
group_batches (suc fuel) max (o ∷ os) =
    let (batch, rest) = take_batch max o.filesystem 0 (o ∷ os) in
    batch ∷ group_batches fuel max rest

-- buildBatches; a negative ZREPL_DESTROY_MAX_BATCH_SIZE acts as 0 does.
unfoldable pub build_batches : ℕ → List DestroySnapOp → List (List DestroySnapOp)
unfolding group_batches
build_batches max reqs =
    let sorted = slice_stable op_less reqs in group_batches (length sorted) max sorted

unfoldable pub all_on : String → List DestroySnapOp → Bool
all_on fs [] = true
all_on fs (o ∷ os) = str_eq fs o.filesystem && all_on fs os

-- tryBatch
unfoldable pub try_batch : Destroyer → List DestroySnapOp → Run → Option (Option DestroyError × Run)
unfolding all_on call_destroy
try_batch d [] s = some (none, s)
try_batch d (o ∷ os) s =
    if all_on o.filesystem (o ∷ os)
    then some (call_destroy d o.filesystem (map (λ p. p.name) (o ∷ os)) s)
    else none

unfoldable pub is_among : List String → DestroySnapOp → Bool
is_among [] o = false
is_among (n ∷ ns) o = str_eq n o.name || is_among ns o

-- The handling of a DestroySnapshotsError.
unfoldable pub destroy_stripped : Destroyer → List String → List DestroySnapOp → Run → Option Run
unfolding is_among try_batch destroy_seq set_errors
destroy_stripped d names ops s =
    let stripped = keep_if (λ o. not (is_among names o)) ops in
    elim (try_batch d stripped s) [
      | none ↦ none
      | some (some e, s') ↦ some (destroy_seq d ops s')
      | some (none, s') ↦
          some (destroy_seq d (keep_if (is_among names) ops) (set_errors stripped none s'))
    ]

-- doDestroyBatchedRec, on fuel: each call halves the batch. Running out of fuel is `none` as well.
unfoldable pub destroy_batch : ℕ → Destroyer → List DestroySnapOp → Run → Option Run
unfolding destroy_stripped
destroy_batch zero d ops s = none
destroy_batch (suc fuel) d ops s = elim (leb (length ops) 1) [
  | true ↦ some (destroy_seq d ops s)
  | false ↦ elim (try_batch d ops s) [
    | none ↦ none
    | some (none, s') ↦ some (set_errors ops none s')
    | some (some argument_list_too_long, s') ↦
        elim (destroy_batch fuel d (take (length ops / 2) ops) s') [
          | none ↦ none
          | some s'' ↦ destroy_batch fuel d (drop (length ops / 2) ops) s''
        ]
    | some (some (undestroyable names), s') ↦ destroy_stripped d names ops s'
    | some (some failed, s') ↦ some (destroy_seq d ops s')
  ]
]

-- The loop of doDestroyBatched; the length of a batch is enough fuel for it.
unfoldable pub destroy_batches : Destroyer → List (List DestroySnapOp) → Run → Option Run
unfolding destroy_batch
destroy_batches d [] s = some s
destroy_batches d (b ∷ bs) s = elim (destroy_batch (suc (length b)) d b s) [
  | none ↦ none
  | some s' ↦ destroy_batches d bs s'
]

-- The first loop of doDestroy.
unfoldable pub validate : List DestroySnapOp → Run → List DestroySnapOp × Run
unfolding set_errors
validate [] s = ([], s)
validate (o ∷ os) s = elim (str_eq o.filesystem "") [
  | true ↦ validate os (set_errors (o ∷ []) (some empty_filesystem) s)
  | false ↦ elim (str_eq o.name "") [
    | true ↦ validate os (set_errors (o ∷ []) (some empty_name) s)
    | false ↦ let (valid, s') = validate os s in (o ∷ valid, s')
  ]
]

-- What follows the question whether the comma syntax is supported.
unfoldable pub destroy_validated :
    ℕ → Destroyer → Result OpError Bool → List DestroySnapOp → Run → Option Run
unfolding destroy_seq build_batches destroy_batches
destroy_validated max d (err e) reqs s = some (set_errors reqs (some e) s)
destroy_validated max d (ok false) reqs s = some (destroy_seq d reqs s)
destroy_validated max d (ok true) reqs s = destroy_batches d (build_batches max reqs) s

-- doDestroy
unfoldable pub do_destroy : ℕ → Destroyer → List DestroySnapOp → Option Run
unfolding validate destroy_validated
do_destroy max d reqs =
    let (valid, s) = validate reqs (record { calls = []; writes = [] }) in
    destroy_validated max d d.comma_supported valid s
