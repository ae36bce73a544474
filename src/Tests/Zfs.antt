-- ===== src/Tests/Zfs.antt =====
-- The destruction of snapshots on concrete requests.
use Prim.Native.String.{String}
use zrepl.Prelude.{
  slice_stable, ◌≡◌, refl, true, Option, none, some, [], ◌∷◌, List, ◌||◌, if◌then◌else◌, ok, length,
  count_if, str_eq,
}
use zrepl.Zfs.Destroy.{
  DestroySnapOp, DestroyError, Destroyer, Run, batch_arg, do_destroy, undestroyable, op_less,
}
use zrepl.Zfs.Destroy.Complete.{writes_of, do_destroy-Completes}
use zrepl.Zfs.Destroy.Confirmed.{IsSound}
use zrepl.Zfs.Destroy.Safety.{IsValidRequest, do_destroy-IsSound}

abbrev op : String → String → DestroySnapOp
op fs name = record { filesystem = fs; name = name }

-- "z@b" is held.
abbrev answer : String → Option DestroyError
answer arg =
    if str_eq arg "z@a,b,c" || str_eq arg "z@b" then some (undestroyable ("b" ∷ [])) else none

abbrev holding : Destroyer
holding = record { destroy = λ calls arg. answer arg; comma_supported = ok true }

abbrev requests : List DestroySnapOp
requests = op "z" "a" ∷ op "z" "b" ∷ op "y" "a" ∷ op "z" "c" ∷ op "" "d" ∷ []

abbrev result : Option Run
result = do_destroy 0 holding requests

abbrev run : Run
run = elim result [ none ↦ record { calls = []; writes = [] } | some s ↦ s ]

four_calls : length run.calls ≡ 4
unfolding do_destroy slice_stable op_less
four_calls = refl

-- A name with a comma is passed on as two names.
two_names : batch_arg "z" ("a,b" ∷ []) ≡ batch_arg "z" ("a" ∷ "b" ∷ [])
unfolding batch_arg
two_names = refl

do_destroy-Completes_example :
    (s : Run) × (do_destroy 0 holding requests ≡ some s)
    × (writes_of (λ o. str_eq o.name "a") s
        ≡ count_if (λ (o : DestroySnapOp). str_eq o.name "a") requests)
do_destroy-Completes_example = do_destroy-Completes (λ o. str_eq o.name "a") 0 holding requests

do_destroy-IsSound_example : IsSound (IsValidRequest requests) run
unfolding do_destroy slice_stable op_less
do_destroy-IsSound_example = do_destroy-IsSound 0 holding requests run refl
