-- ===== src/Pruner/Outcome.antt =====
-- How a prune goes through its queue, and how it ends.
use Prim.Native.String.{String}
use mathlib.Core.Option.{some-injective}
use mathlib.Core.List.{append_assoc, append-nil}
use zrepl.Prelude.{
  ℕ, zero, suc, ◌≡◌, refl, sym, ap, ◌∙◌, subst, inl, inr, not, Option, none, some, List, [], ◌∷◌,
  ◌++◌, map, All, ℤ, Result, err, ok, Option-cases,
}
use zrepl.Pruner.{Fs, DestroyReq, DestroyRes}
use zrepl.Pruner.Queue.{Queue, pop, put, is_some}
use zrepl.Pruner.Exec.{check_results, exec_error, request, exec_result, exec_loop}

-- A filesystem without its last error.
abbrev pub planned_part : Fs → Fs
planned_part f = record f { exec_err_last = none }

abbrev pub with_error : Fs → Option String → Fs
with_error f e = record f { exec_err_last = e }

abbrev pub queue : List Fs → List Fs → Queue
queue ps cs = record { pending = ps; completed = cs }

put-done :
    (f : Fs) (e : Option String) (ps cs : List Fs)
    → put f e (not (is_some e)) (queue ps cs) ≡ queue ps (cs ++ (with_error f e ∷ []))
unfolding put
put-done f none ps cs = refl
put-done f (some e) ps cs = refl

module _ (parse : String → Option ℤ) where
  -- An execution completes the filesystem, with or without an error.
  pub exec_result-completes :
      (f : Fs) (ps cs : List Fs) (res : Result String (List DestroyRes)) (q : Queue)
      → exec_result parse f (queue ps cs) res ≡ some q
      → (e : Option String) × (queue ps (cs ++ (with_error f e ∷ [])) ≡ q)
  unfolding exec_result put
  exec_result-completes f ps cs (err e) q h = (some e, some-injective _ _ h)
  exec_result-completes f ps cs (ok results) q h =
      elim (Option-cases (exec_error parse (check_results results (request parse f).snapshots))) [
        | inl e ↦ cc
        | inr (e, x) ↦ (e, sym (put-done f e ps cs) ∙ some-injective _ _ (rw (x, exec_result) at h))
      ]

  -- The requests for the filesystems of a list, the latest first, on top of earlier ones.
  abbrev pub requests_onto : List Fs → List DestroyReq → List DestroyReq
  requests_onto [] log = log
  requests_onto (f ∷ fs) log = requests_onto fs (request parse f ∷ log)

  pub All-requests_onto :
      (P : DestroyReq → Type 0) (fs : List Fs) (log : List DestroyReq)
      → All P log
      → All (λ f. P (request parse f)) fs
      → All P (requests_onto fs log)
  All-requests_onto P [] log h k = h
  All-requests_onto P (f ∷ fs) log h k = All-requests_onto P fs (request parse f ∷ log) (k.0, h) k.1

  -- What the loop over the queue comes to, from what is pending and completed.
  pub record Ran (log : List DestroyReq) (ps cs : List Fs) (log' : List DestroyReq) (q : Queue)
      : Type 0 where
    pub drained : q.pending ≡ []
    pub once : map planned_part q.completed ≡ map planned_part cs ++ map planned_part ps
    pub asked : log' ≡ requests_onto ps log

  map-planned_part-append :
      (cs : List Fs) (f : Fs) (e : Option String)
      → map planned_part (cs ++ (with_error f e ∷ []))
        ≡ map planned_part cs ++ (planned_part f ∷ [])
  map-planned_part-append [] f e = refl
  map-planned_part-append (c ∷ cs) f e = ap (◌∷◌ (planned_part c)) (map-planned_part-append cs f e)

  pub exec_loop-Ran :
      (destroy : List DestroyReq → DestroyReq → Result String (List DestroyRes)) (fuel : ℕ)
      (log : List DestroyReq) (ps cs : List Fs) (log' : List DestroyReq) (q : Queue)
      → exec_loop parse destroy fuel log (queue ps cs) ≡ some (log', q)
      → Ran log ps cs log' q
  unfolding exec_loop pop
  exec_loop-Ran destroy zero log ps cs log' q h = cc
  exec_loop-Ran destroy (suc fuel) log [] cs log' q h =
      let shape : (log, queue [] cs) ≡ (log', q) = some-injective _ _ h in
      subst (λ out. Ran log [] cs out.0 out.1) shape
        (record { drained = refl; once = sym (append-nil (map planned_part cs)); asked = refl })
  exec_loop-Ran destroy (suc fuel) log (f ∷ ps) cs log' q h =
      elim (Option-cases (exec_result parse f (queue ps cs) (destroy log (request parse f)))) [
        | inl e ↦ cc
        | inr (q', e) ↦
            let (failure, shape) = exec_result-completes f ps cs _ q' e in
            let r =
              exec_loop-Ran destroy fuel (request parse f ∷ log) ps
                (cs ++ (with_error f failure ∷ [])) log' q (rw (e, ← shape, exec_loop) at h) in
            record {
              drained = r.drained;
              once =
                  r.once
                  ∙ ap (λ l. l ++ map planned_part ps) (map-planned_part-append cs f failure)
                  ∙ append_assoc (map planned_part cs) (planned_part f ∷ []) (map planned_part ps);
              asked = r.asked;
            }
      ]
