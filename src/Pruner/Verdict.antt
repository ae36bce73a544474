-- ===== src/Pruner/Verdict.antt =====
-- The whole attempt: what it requests, and the state in which it ends.
use Prim.Native.String.{String}
use mathlib.Core.Option.{some-injective}
use mathlib.Core.List.Perm
use zrepl.Prelude.{
  suc, ◌≡◌, refl, sym, ap, subst, Bool, Option, none, some, List, [], ◌∷◌, length, Perm, All, ℤ,
  SliceSort, Result, err, ok,
}
use zrepl.Pruning.Rules.{last_n_less, KeepRule}
use zrepl.Pruner.{Fs, Filesystem, DestroyReq, Sides}
use zrepl.Pruner.Plan.{txg_less, plan_all}
use zrepl.Pruner.Queue.{Queue, new_exec_queue}
use zrepl.Pruner.Exec.{
  Pruner, exec_loop, put_all, finish_queue, attempt_ran, attempt_planned, attempt_target,
  attempt_sender, do_one_attempt,
}
use zrepl.Pruner.Outcome.{All-requests_onto, exec_loop-Ran}
use zrepl.Pruner.Ends.{put_all-perm, put_all-All}
use zrepl.Pruner.Requests.{IsJustified, FsJustified, plan_all-FsJustified}

finish-requests :
    (log : List DestroyReq) (q : Queue) (ps : List Fs) (p : Pruner)
    → finish_queue log q ps ≡ some p
    → p.requests ≡ log
unfolding finish_queue
finish-requests log q [] p h = ap (λ (x : Pruner). x.requests) (sym (some-injective _ _ h))
finish-requests log q (f ∷ fs) p h = cc

module _ (slice_versions : SliceSort txg_less) (slice : SliceSort last_n_less)
    (parse : String → Option ℤ) (rules : List KeepRule) (consider : Bool) (sides : Sides) where
  -- Whatever the two sides answer, and wherever the prune fails: each request of a prune is for no
  -- snapshots, or is for a filesystem whose versions the target has listed and whose cursor the
  -- sender has found. Then it names only snapshots among those versions; and if one of the rules
  -- keeps what is not replicated, the versions have a snapshot with the cursor's guid that is not
  -- older than any of them.
  pub do_one_attempt-IsJustified :
      (p : Pruner)
      → do_one_attempt slice_versions slice parse rules consider sides ≡ some p
      → All (IsJustified parse sides rules) p.requests
  unfolding do_one_attempt attempt_sender attempt_target attempt_planned
  do_one_attempt-IsJustified p h = sent sides.sender_filesystems h
    where
      ran :
          (sfss tfss : List Filesystem) (pfss : List Fs) (out : Option (List DestroyReq × Queue))
          → plan_all slice_versions slice parse rules consider sides sfss tfss ≡ some pfss
          → exec_loop parse sides.destroy_snapshots
              (suc (length pfss))
              []
              (put_all pfss new_exec_queue)
            ≡ out
          → attempt_ran out ≡ some p
          → All (IsJustified parse sides rules) p.requests
      ran sfss tfss pfss none e k g = cc
      ran sfss tfss pfss (some (log, q)) e k g =
          let (ps, filled, perm) = put_all-perm pfss [] [] in
          let r =
            exec_loop-Ran parse sides.destroy_snapshots (suc (length pfss)) [] ps [] log q
              (rw filled at k) in
          let waiting : All (FsJustified parse sides rules) ps =
            subst (λ (x : Queue). All (FsJustified parse sides rules) x.pending) filled
              (put_all-All (FsJustified parse sides rules) pfss [] [] tt (
                plan_all-FsJustified slice_versions slice parse rules consider sides sfss tfss pfss
                  e)) in
          rw (finish-requests log q q.pending p g, r.asked)
            (All-requests_onto parse (IsJustified parse sides rules) ps [] tt waiting)

      planned :
          (sfss tfss : List Filesystem) (o : Option (List Fs))
          → plan_all slice_versions slice parse rules consider sides sfss tfss ≡ o
          → attempt_planned parse sides o ≡ some p
          → All (IsJustified parse sides rules) p.requests
      planned sfss tfss none e k = cc
      planned sfss tfss (some pfss) e k = ran sfss tfss pfss _ e refl k

      targets :
          (sfss : List Filesystem) (r : Result String (List Filesystem))
          → attempt_target slice_versions slice parse rules consider sides sfss r ≡ some p
          → All (IsJustified parse sides rules) p.requests
      targets sfss (err e) k = rw (← some-injective _ _ k) tt
      targets sfss (ok tfss) k = planned sfss tfss _ refl k

      sent :
          (r : Result String (List Filesystem))
          → attempt_sender slice_versions slice parse rules consider sides r ≡ some p
          → All (IsJustified parse sides rules) p.requests
      sent (err e) k = rw (← some-injective _ _ k) tt
      sent (ok sfss) k = targets sfss sides.target_filesystems k
