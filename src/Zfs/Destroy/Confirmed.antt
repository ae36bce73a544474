-- ===== src/Zfs/Destroy/Confirmed.antt =====
-- What doDestroy passes to the destroyer, and what it reports as destroyed.
use Prim.Native.String.{String}
use mathlib.Core.List.{mem-cons_self, mem-cons_of_mem}
use zrepl.Prelude.{
  ◌<◌, length, ap, ◌≡◌, refl, sym, ◌∙◌, inl, inr, true, Option, none, some, List, [], ◌∷◌, map,
  str_eq, Mem, All, All-map, All-of_mem, arith, Bool-cases, subst, str_eq→eq,
}
use zrepl.Zfs.Destroy.{
  DestroySnapOp, DestroyError, OpError, Call, Write, Run, Destroyer, write_of, set_errors,
  batch_arg, call_destroy, destroy_one, destroy_seq, all_on, try_batch,
}

module _ (P : DestroySnapOp → Type 0) where
  -- The snapshot `name` of `fs` is that of a request with the property `P`.
  pub record IsAsked (fs name : String) : Type 0 where
    pub op : DestroySnapOp
    pub holds : P op
    pub on_filesystem : op.filesystem ≡ fs
    pub named : op.name ≡ name

  -- The text is the argument for the snapshots of some such requests on one filesystem.
  pub record IsArgument (arg : String) : Type 0 where
    pub filesystem : String
    pub names : List String
    pub text : arg ≡ batch_arg filesystem names
    pub some_name : 0 < length names
    pub asked : All (IsAsked filesystem) names

  -- A call without an error whose argument was made for the request, and for others with `P`.
  pub record IsConfirmed (calls : List Call) (o : DestroySnapOp) : Type 0 where
    pub call : Call
    pub made : Mem call calls
    pub succeeded : call.answer ≡ none
    pub names : List String
    pub text : call.argument ≡ batch_arg o.filesystem names
    pub named : Mem o.name names
    pub asked : All (IsAsked o.filesystem) names

  pub record IsSound (s : Run) : Type 0 where
    pub asked : All (λ (c : Call). IsArgument c.argument) s.calls
    pub told : All (λ (w : Write). w.error ≡ none → IsConfirmed s.calls w.op) s.writes

  IsConfirmed-cons :
      (c : Call) (calls : List Call) (o : DestroySnapOp)
      → IsConfirmed calls o
      → IsConfirmed (c ∷ calls) o
  IsConfirmed-cons c calls o h = record {
    call = h.call;
    made = mem-cons_of_mem c h.made;
    succeeded = h.succeeded;
    names = h.names;
    text = h.text;
    named = h.named;
    asked = h.asked;
  }

  pub set_errors-IsSound :
      (os : List DestroySnapOp) (e : Option OpError) (s : Run)
      → All (λ o. e ≡ none → IsConfirmed s.calls o) os
      → IsSound s
      → IsSound (set_errors os e s)
  unfolding set_errors
  set_errors-IsSound [] e s h sound = sound
  set_errors-IsSound (o ∷ os) e s h sound =
      set_errors-IsSound os e (record s { writes = record { op = o; error = e } ∷ s.writes }) h.1
        (record { asked = sound.asked; told = (h.0, sound.told) })

  pub some_told :
      (calls : List Call) (e : OpError) (os : List DestroySnapOp)
      → All (λ o. some e ≡ none → IsConfirmed calls o) os
  some_told calls e os = All-of_mem os (λ o m k. cc)

  call_destroy-IsSound :
      (d : Destroyer) (fs : String) (names : List String) (s : Run)
      → 0 < length names
      → All (IsAsked fs) names
      → IsSound s
      → IsSound (call_destroy d fs names s).1
  unfolding call_destroy
  call_destroy-IsSound d fs names s pos h sound = record {
    asked = (
      record { filesystem = fs; names = names; text = refl; some_name = pos; asked = h },
      sound.asked,
    );
    told = All-map (λ w k e. IsConfirmed-cons _ s.calls w.op (k e)) s.writes sound.told;
  }

  -- What a call without an error destroys is confirmed after it.
  call_destroy-IsConfirmed :
      (d : Destroyer) (fs : String) (names : List String) (s : Run) (o : DestroySnapOp)
      → (call_destroy d fs names s).0 ≡ none
      → fs ≡ o.filesystem
      → Mem o.name names
      → All (IsAsked o.filesystem) names
      → IsConfirmed (call_destroy d fs names s).1.calls o
  unfolding call_destroy
  call_destroy-IsConfirmed d fs names s o e on m h = record {
    call = record {
      argument = batch_arg fs names;
      answer = d.destroy s.calls (batch_arg fs names);
    };
    made = mem-cons_self;
    succeeded = e;
    names = names;
    text = ap (λ x. batch_arg x names) on;
    named = m;
    asked = h;
  }

  write_of-none : (a : Option DestroyError) → write_of a ≡ none → a ≡ none
  write_of-none none h = refl
  write_of-none (some e) h = cc

  destroy_one-IsSound :
      (d : Destroyer) (o : DestroySnapOp) (s : Run) → P o → IsSound s → IsSound (destroy_one d o s)
  unfolding destroy_one
  destroy_one-IsSound d o s p sound =
      let call = call_destroy d o.filesystem (o.name ∷ []) s in
      let named : IsAsked o.filesystem o.name = record {
        op = o;
        holds = p;
        on_filesystem = refl;
        named = refl;
      } in
      set_errors-IsSound (o ∷ []) (write_of call.0) call.1
        (
          λ e.
              call_destroy-IsConfirmed d o.filesystem (o.name ∷ []) s o (write_of-none call.0 e)
                refl mem-cons_self (named, tt),
          tt,
        )
        (call_destroy-IsSound d o.filesystem (o.name ∷ []) s (omega arith) (named, tt) sound)

  pub destroy_seq-IsSound :
      (d : Destroyer) (os : List DestroySnapOp) (s : Run)
      → All P os
      → IsSound s
      → IsSound (destroy_seq d os s)
  unfolding destroy_seq
  destroy_seq-IsSound d [] s h sound = sound
  destroy_seq-IsSound d (o ∷ os) s h sound =
      destroy_seq-IsSound d os (destroy_one d o s) h.1 (destroy_one-IsSound d o s h.0 sound)

  names-IsAsked :
      (fs : String) (os : List DestroySnapOp)
      → all_on fs os ≡ true
      → All P os
      → All (IsAsked fs) (map (λ q. q.name) os)
  unfolding all_on
  names-IsAsked fs [] e h = tt
  names-IsAsked fs (o ∷ os) e h =
      let same : str_eq fs o.filesystem ≡ true = ground arith in
      (
        record {
          op = o;
          holds = h.0;
          on_filesystem = sym (str_eq→eq fs o.filesystem same);
          named = refl;
        },
        names-IsAsked fs os (ground arith) h.1,
      )

  -- If a successful call was made for the names of a batch, the batch is confirmed.
  batch-IsConfirmed :
      (calls : List Call) (c : Call) (fs : String) (names : List String) (os : List DestroySnapOp)
      → Mem c calls
      → c.answer ≡ none
      → c.argument ≡ batch_arg fs names
      → All (IsAsked fs) names
      → all_on fs os ≡ true
      → ((n : String) → Mem n (map (λ q. q.name) os) → Mem n names)
      → All (IsConfirmed calls) os
  unfolding all_on
  batch-IsConfirmed calls c fs names [] m e text asked on h = tt
  batch-IsConfirmed calls c fs names (o ∷ os) m e text asked on h =
      let same : str_eq fs o.filesystem ≡ true = ground arith in
      let there : fs ≡ o.filesystem = str_eq→eq fs o.filesystem same in
      (
        record {
          call = c;
          made = m;
          succeeded = e;
          names = names;
          text = text ∙ ap (λ x. batch_arg x names) there;
          named = h o.name mem-cons_self;
          asked = subst (λ x. All (IsAsked x) names) there asked;
        },
        batch-IsConfirmed calls c fs names os m e text asked (ground arith)
            (λ n k. h n (mem-cons_of_mem o.name k)),
      )

  -- A batch that was tried: sound, and confirmed if there was no error.
  abbrev pub Tried : List DestroySnapOp → Option DestroyError → Run → Type 0
  Tried ops answer s = IsSound s × (answer ≡ none → All (IsConfirmed s.calls) ops)

  pub try_batch-Tried :
      (d : Destroyer) (ops : List DestroySnapOp) (s : Run) (answer : Option DestroyError) (s' : Run)
      → All P ops
      → IsSound s
      → try_batch d ops s ≡ some (answer, s')
      → Tried ops answer s'
  unfolding try_batch call_destroy
  try_batch-Tried d [] s answer s' h sound e =
      let same : s ≡ s' = cc in (subst IsSound same sound, λ k. tt)
  try_batch-Tried d (o ∷ os) s answer s' h sound e =
      elim (Bool-cases (all_on o.filesystem (o ∷ os))) [
        | inr off ↦ cc
        | inl on ↦
            let names = map (λ q. q.name) (o ∷ os) in
            let call = call_destroy d o.filesystem names s in
            let answered : call.0 ≡ answer = cc in
            let reached : call.1 ≡ s' = cc in
            let asked = names-IsAsked o.filesystem (o ∷ os) on h in
            let fine = call_destroy-IsSound d o.filesystem names s (omega arith) asked sound in
            (
              subst IsSound reached fine,
              λ k.
                  subst (λ r. All (IsConfirmed r.calls) (o ∷ os)) reached
                    (batch-IsConfirmed call.1.calls
                      (record { argument = batch_arg o.filesystem names; answer = call.0 })
                      o.filesystem names (o ∷ os) mem-cons_self (answered ∙ k) refl asked on
                      (λ n m. m)),
            )
      ]
