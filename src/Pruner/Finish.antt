-- ===== src/Pruner/Finish.antt =====
-- How a prune of the planned filesystems ends.
use Prim.Native.String.{String}
use mathlib.Core.List.{mem-cons_self, mem-cons_of_mem}
use zrepl.Prelude.{
  suc, ◌+◌, ◌≡◌, ◌⊎◌, refl, ap, inl, inr, Bool, true, false, not, ◌&&◌, if◌then◌else◌, Option, none,
  some, List, [], ◌∷◌, map, length, Mem, Perm, All, str_eq, ℤ, arith, &&-true, ||-true, not-true,
}
use zrepl.Pruner.{Fs, DestroyReq, is_not_skipped, last_error}
use zrepl.Pruner.Queue.{Queue}
use zrepl.Pruner.Exec.{is_terminal, exec_err, done, Pruner, request, had_err, finish, finish_queue}
use zrepl.Pruner.Outcome.{planned_part, requests_onto}

-- The filesystem was skipped, or its report has no error.
abbrev pub IsClean : Fs → Type 0
IsClean f = is_not_skipped f.skip_reason ≡ true → str_eq (last_error f) "" ≡ true

pub record Failed (fs : List Fs) : Type 0 where
  pub culprit : Fs
  pub among : Mem culprit fs
  pub planned : is_not_skipped culprit.skip_reason ≡ true
  pub reported : str_eq (last_error culprit) "" ≡ false

had_err-false : (fs : List Fs) → had_err fs ≡ false → All IsClean fs
had_err-false [] h = tt
had_err-false (f ∷ fs) h = (λ planned. ground arith, had_err-false fs (ground arith))

had_err-true : (fs : List Fs) → had_err fs ≡ true → Failed fs
had_err-true [] h = cc
had_err-true (f ∷ fs) h =
    elim (||-true (is_not_skipped f.skip_reason && not (str_eq (last_error f) "")) _ h) [
      | inl k ↦
          let (planned, bad) = &&-true (is_not_skipped f.skip_reason) _ k in
          record {
            culprit = f;
            among = mem-cons_self;
            planned = planned;
            reported = not-true _ bad;
          }
      | inr k ↦
          let r = had_err-true fs k in
          record {
            culprit = r.culprit;
            among = mem-cons_of_mem f r.among;
            planned = r.planned;
            reported = r.reported;
          }
    ]

-- How a prune of the planned filesystems ends.
pub record IsFinished (pfss : List Fs) (p : Pruner) : Type 0 where
  pub left : Queue
  pub held : p.exec_queue ≡ some left
  pub drained : left.pending ≡ []
  pub every : Perm (map planned_part left.completed) (map planned_part pfss)
  pub asked : length p.requests ≡ length pfss
  pub ended : is_terminal p.state ≡ true
  pub verdict :
      ((p.state ≡ done) × All IsClean left.completed)
      ⊎ ((p.state ≡ exec_err) × Failed left.completed)

pub length-map {ℓ κ} :
    {A : Type ℓ} {B : Type κ} (f : A → B) (xs : List A) → length (map f xs) ≡ length xs
length-map f [] = refl
length-map f (x ∷ xs) = ap suc (length-map f xs)

pub length-requests_onto :
    (parse : String → Option ℤ) (fs : List Fs) (log : List DestroyReq)
    → length (requests_onto parse fs log) ≡ length fs + length log
length-requests_onto parse [] log = omega arith
length-requests_onto parse (f ∷ fs) log =
    omega (arith, length-requests_onto parse fs (request parse f ∷ log))

verdict_of :
    (q : Queue) (b : Bool)
    → had_err q.completed ≡ b
    → (((if b then exec_err else done) ≡ done) × All IsClean q.completed)
      ⊎ (((if b then exec_err else done) ≡ exec_err) × Failed q.completed)
verdict_of q true e = inr (refl, had_err-true q.completed e)
verdict_of q false e = inl (refl, had_err-false q.completed e)

ended_of : (b : Bool) → is_terminal (if b then exec_err else done) ≡ true
ended_of true = refl
ended_of false = refl

finish_queue_drained :
    (log : List DestroyReq) (q : Queue) (ps : List Fs)
    → ps ≡ []
    → finish_queue log q ps
      ≡ some (record {
        state = if had_err q.completed then exec_err else done;
        error = none;
        exec_queue = some q;
        requests = log;
      })
unfolding finish_queue
finish_queue_drained log q [] d = refl
finish_queue_drained log q (p ∷ ps) d = cc

pub finish-IsFinished :
    (pfss : List Fs) (log : List DestroyReq) (q : Queue)
    → q.pending ≡ []
    → Perm (map planned_part q.completed) (map planned_part pfss)
    → length log ≡ length pfss
    → (p : Pruner) × (finish (log, q) ≡ some p) × IsFinished pfss p
finish-IsFinished pfss log q d every asked = (
  record {
    state = if had_err q.completed then exec_err else done;
    error = none;
    exec_queue = some q;
    requests = log;
  },
  finish_queue_drained log q q.pending d,
  record {
    left = q;
    held = refl;
    drained = d;
    every = every;
    asked = asked;
    ended = ended_of (had_err q.completed);
    verdict = verdict_of q (had_err q.completed) refl;
  },
)
