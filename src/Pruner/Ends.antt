-- ===== src/Pruner/Ends.antt =====
-- A prune that has been planned comes to an end.
use Prim.Native.String.{String, ◌++◌ as cat}
use mathlib.Core.Option.{some-injective}
use mathlib.Core.List.{append_assoc, append-nil}
use mathlib.Core.List.Perm
use mathlib.Core.List.{perm-append_right_iff}
use zrepl.Prelude.{
  ℕ, zero, suc, ◌<◌, ◌≡◌, refl, sym, ap, ◌∙◌, subst, inl, inr, false, not, Option, none, some, List,
  [], ◌∷◌, ◌++◌, map, length, Perm, All, str_eq, ℤ, slice_stable, slice_stable-perm,
  slice_stable-All, All-append, Result, err, ok, arith, Bool-cases, Option-cases,
}
use zrepl.Replication.Version.{FilesystemVersion}
use zrepl.Pruner.{Fs, DestroyReq, DestroyRes, rel_name}
use zrepl.Pruner.Queue.{Queue, path_less, pop, put, is_some}
use zrepl.Pruner.Exec.{
  Checked, all_found, missing, check_results, add_fail, result_of, fail_names, fail_message,
  exec_error, request, exec_result, exec_loop, put_all,
}
use zrepl.Pruner.Older.{Parses}
use zrepl.Pruner.Outcome.{queue, planned_part, with_error, exec_result-completes}

-- Filling the queue sorts the filesystems and loses none.
pub put_all-perm :
    (fs ps cs : List Fs)
    → (ps' : List Fs) × (put_all fs (queue ps cs) ≡ queue ps' cs)
      × Perm ps' (ps ++ map planned_part fs)
unfolding put
put_all-perm [] ps cs = (ps, refl, subst (Perm ps) (sym (append-nil ps)) (Perm.refl ps))
put_all-perm (f ∷ fs) ps cs =
    let (ps', e, p) = put_all-perm fs (slice_stable path_less (ps ++ (planned_part f ∷ []))) cs in
    (
      ps',
      e,
      Perm.trans p (
          subst (Perm (slice_stable path_less (ps ++ (planned_part f ∷ [])) ++ map planned_part fs))
            (append_assoc ps (planned_part f ∷ []) (map planned_part fs))
            ((perm-append_right_iff (map planned_part fs)).1 (slice_stable-perm path_less _))),
    )

-- What holds of the filesystems without their errors holds of all that wait.
pub put_all-All {κ} :
    (P : Fs → Type κ) (fs ps cs : List Fs)
    → All P ps
    → All (λ f. P (planned_part f)) fs
    → All P (put_all fs (queue ps cs)).pending
unfolding put
put_all-All P [] ps cs h k = h
put_all-All P (f ∷ fs) ps cs h k =
    put_all-All P fs (slice_stable path_less (ps ++ (planned_part f ∷ []))) cs
      (slice_stable-All P path_less _ (All-append P ps (planned_part f ∷ []) h (k.0, tt))) k.1

pub map-planned_part : (fs : List Fs) → map planned_part (map planned_part fs) ≡ map planned_part fs
map-planned_part [] = refl
map-planned_part (f ∷ fs) = ap (◌∷◌ (planned_part f)) (map-planned_part fs)

module _ (parse : String → Option ℤ) where
  rel_name_given :
      (v : FilesystemVersion) → Parses parse v → (n : String) × (rel_name parse v ≡ some n)
  unfolding rel_name
  rel_name_given v (t, e) = rw (e, rel_name) (_, refl)

  abbrev ResParses : DestroyRes → Type 0
  ResParses r = Parses parse r.snapshot

  fail_names_given :
      (rs : List DestroyRes)
      → All ResParses rs
      → (ns : List String) × (fail_names parse rs ≡ some ns)
  unfolding fail_names
  fail_names_given [] h = ([], refl)
  fail_names_given (r ∷ rs) h =
      let (n, e) = rel_name_given r.snapshot h.0 in
      let (ns, e') = fail_names_given rs h.1 in (n ∷ ns, rw (e, e', fail_names) refl)

  result_of-ResParses :
      (name : String) (rs : List DestroyRes) (r : DestroyRes)
      → All ResParses rs
      → result_of name rs ≡ some r
      → ResParses r
  unfolding result_of
  result_of-ResParses name [] r h e = cc
  result_of-ResParses name (x ∷ xs) r h e = elim (Option-cases (result_of name xs)) [
    | inr (later, k) ↦
        let same : later ≡ r = some-injective _ _ (rw (k, result_of) at e) in
        result_of-ResParses name xs r h.1 (k ∙ ap some same)
    | inl k ↦ elim (Bool-cases (str_eq x.snapshot.name name)) [
      | inl s ↦ subst ResParses (some-injective _ _ (rw (k, s, result_of) at e)) h.0
      | inr s ↦ let bad = (rw (k, s, result_of) at e) in cc
    ]
  ]

  -- The names that the error message needs.
  abbrev CheckedParses : Checked → Type 0
  CheckedParses (all_found fails) = All ResParses fails
  CheckedParses (missing v) = Parses parse v

  add_fail-CheckedParses :
      (r : DestroyRes) (c : Checked) → ResParses r → CheckedParses c → CheckedParses (add_fail r c)
  add_fail-CheckedParses r (all_found fails) h k = (h, k)
  add_fail-CheckedParses r (missing v) h k = k

  check_results-CheckedParses :
      (rs : List DestroyRes) (vs : List FilesystemVersion)
      → All ResParses rs
      → All (Parses parse) vs
      → CheckedParses (check_results rs vs)
  unfolding check_results
  check_results-CheckedParses rs [] h k = tt
  check_results-CheckedParses rs (v ∷ vs) h k = elim (Option-cases (result_of v.name rs)) [
    | inl e ↦ rw (e, check_results) k.0
    | inr (r, e) ↦
        let rest = check_results-CheckedParses rs vs h k.1 in
        elim (Bool-cases (str_eq r.error "")) [
          | inl s ↦ rw (e, s, check_results) rest
          | inr s ↦
              rw (e, s, check_results)
                (add_fail-CheckedParses r (check_results rs vs)
                  (result_of-ResParses v.name rs r h e) rest)
        ]
  ]

  exec_error_given :
      (c : Checked) → CheckedParses c → (e : Option String) × (exec_error parse c ≡ some e)
  unfolding exec_error
  exec_error_given (missing v) h =
      let (n, e) = rel_name_given v h in
      (some (cat "missing destroy-result for " n), rw (e, exec_error) refl)
  exec_error_given (all_found []) h = (none, refl)
  exec_error_given (all_found (r ∷ rs)) h =
      let (ns, e) = fail_names_given (r ∷ rs) h in
      (some (fail_message parse r rs ns), rw (e, exec_error) refl)

  -- The dates of the snapshots in every answer of the target can be parsed.
  abbrev pub AnswersParse :
      (List DestroyReq → DestroyReq → Result String (List DestroyRes)) → Type 0
  AnswersParse destroy =
      (log : List DestroyReq) (r : DestroyReq) (rs : List DestroyRes)
      → destroy log r ≡ ok rs
      → All (λ (x : DestroyRes). Parses parse x.snapshot) rs

  exec_result_given :
      (f : Fs) (q : Queue) (res : Result String (List DestroyRes))
      → ((rs : List DestroyRes) → res ≡ ok rs → All ResParses rs)
      → All (Parses parse) (request parse f).snapshots
      → (q' : Queue) × (exec_result parse f q res ≡ some q')
  unfolding exec_result
  exec_result_given f q (err e) h k = (put f (some e) false q, refl)
  exec_result_given f q (ok rs) h k =
      let (e, x) =
        exec_error_given (check_results rs (request parse f).snapshots)
          (check_results-CheckedParses rs (request parse f).snapshots (h rs refl) k) in
      (put f e (not (is_some e)) q, rw (x, exec_result) refl)

  -- One round for each pending filesystem, and one more, are enough.
  pub exec_loop_given :
      (destroy : List DestroyReq → DestroyReq → Result String (List DestroyRes))
      (answers : AnswersParse destroy) (fuel : ℕ) (log : List DestroyReq) (ps cs : List Fs)
      → length ps < fuel
      → All (λ f. All (Parses parse) (request parse f).snapshots) ps
      → (out : List DestroyReq × Queue) × (exec_loop parse destroy fuel log (queue ps cs)
          ≡ some out)
  unfolding exec_loop pop
  exec_loop_given destroy answers zero log ps cs lt h = absurd (omega arith)
  exec_loop_given destroy answers (suc fuel) log [] cs lt h = ((log, queue [] cs), refl)
  exec_loop_given destroy answers (suc fuel) log (f ∷ ps) cs lt h =
      let (q', e) =
        exec_result_given f (queue ps cs) (destroy log (request parse f))
          (answers log (request parse f)) h.0 in
      let (failure, shape) = exec_result-completes parse f ps cs _ q' e in
      let (out, k) =
        exec_loop_given destroy answers fuel (request parse f ∷ log) ps
          (cs ++ (with_error f failure ∷ [])) (omega arith) h.1 in
      (out, rw (e, ← shape, exec_loop) k)
