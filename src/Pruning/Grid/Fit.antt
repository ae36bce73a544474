-- ===== src/Pruning/Grid/Fit.antt =====
-- Where the entries of a grid go.
use mathlib.Core.List.{append-nil, append_assoc}
use mathlib.Core.List.Perm
use zrepl.Prelude.{
  ◌≡◌, refl, sym, ap, subst, ◌∙◌, inl, inr, some, keep_if, List, [], ◌∷◌, ◌++◌, Perm, arith, ℤ, pos,
  ltb_ℤ, Option-cases, slice_stable-perm, slice_stable,
}
use zrepl.Pruning.Grid.{
  Interval, Bucket, State, make_buckets, younger, assign, remove_younger, apply_keep_counts,
  fit_entries_with_now, fit_sorted, fit_entries,
}
use zrepl.Pruning.Grid.Buckets.{Trims, remove_younger-Trims}
use zrepl.Pruning.Grid.Fill.{fill, is_past, too_old, IsAssigned, assign-IsAssigned}
use zrepl.Pruning.Grid.Spans.{make_buckets-Spans}
use zrepl.Pruning.Grid.Total.{
  entries_of, total, append_left, regroup, interchange, keeps_step, entries_of-empty, assign-perm,
}

module _ {ℓ} {A : Type ℓ} (date : A → ℤ) where
  -- What the buckets hold in the end, and what is trimmed off them: the youngest entries of a bucket
  -- that exceed its keep count, and they stay in it all the same.
  pub data AllTrims : List (Bucket A) → List A → List A → Type ℓ where
    no_bucket : AllTrims [] [] []
    then_bucket :
        {bs : List (Bucket A)} {held trimmed : List A} (b b' : Bucket A) (gone : List A)
        → Trims date b gone b'
        → AllTrims bs held trimmed
        → AllTrims (b ∷ bs) (b'.entries ++ held) (gone ++ trimmed)

  -- The last loop, on buckets that hold the given entries.
  pub record Settles (keep remove : List A) (bs : List (Bucket A)) (result : List A × List A)
      : Type ℓ where
    pub trimmed : List A
    pub spared : List A
    pub held : List A
    pub holds : result.0 ≡ keep ++ held
    pub trims : AllTrims bs held trimmed
    pub keeps : Perm result.0 (keep ++ (trimmed ++ spared))
    pub removes : result.1 ≡ remove ++ trimmed
    pub divides : Perm (trimmed ++ spared) (entries_of bs)

  apply_keep_counts-Settles :
      (keep remove : List A) (bs : List (Bucket A))
      → Settles keep remove bs (apply_keep_counts date keep remove bs)
  unfolding apply_keep_counts
  apply_keep_counts-Settles keep remove [] = record {
    trimmed = [];
    spared = [];
    held = [];
    holds = sym (append-nil keep);
    trims = no_bucket;
    keeps = rw append-nil (Perm.refl keep);
    removes = rw append-nil;
    divides = Perm.nil;
  }
  apply_keep_counts-Settles keep remove (b ∷ bs) =
      let t = remove_younger-Trims date b in
      let (gone, b') = remove_younger date b in
      let r = apply_keep_counts-Settles (keep ++ b'.entries) (remove ++ gone) bs in
      record {
        trimmed = gone ++ r.trimmed;
        spared = t.spared ++ r.spared;
        held = b'.entries ++ r.held;
        holds = r.holds ∙ append_assoc keep b'.entries r.held;
        trims = then_bucket b b' gone t r.trims;
        keeps =
            Perm.trans r.keeps
              (keeps_step keep b'.entries gone t.spared r.trimmed r.spared t.split);
        removes = r.removes ∙ append_assoc remove gone r.trimmed;
        divides =
            Perm.trans (interchange gone r.trimmed t.spared r.spared)
              (Perm.append (subst (λ l. Perm l b.entries) t.split t.same) r.divides);
      }

  -- How a grid divides entries that are sorted from youngest to oldest, which are the given ones.
  -- Those in the future are kept, those of the past that no bucket contains are removed, and the
  -- others go to the first bucket that contains them. The buckets begin at the youngest entry.
  pub record Divides (is : List Interval) (sorted entries keep remove : List A) : Type ℓ where
    pub now : ℤ
    pub buckets : List (Bucket A)
    pub starts :
        (e : A) (es : List A)
        → sorted ≡ e ∷ es
        → (now ≡ date e) × (make_buckets now is ≡ some buckets)
    pub held : List A
    pub trimmed : List A
    pub spared : List A
    pub trims : AllTrims (fill date buckets (keep_if (is_past date now) sorted)) held trimmed
    pub keeps : keep ≡ keep_if (λ e. ltb_ℤ now (date e)) sorted ++ held
    pub removes : remove ≡ too_old date now buckets sorted ++ trimmed
    pub holds : Perm keep (keep_if (λ e. ltb_ℤ now (date e)) sorted ++ (trimmed ++ spared))
    pub divides : Perm (remove ++ (keep_if (λ e. ltb_ℤ now (date e)) sorted ++ spared)) entries

  settled :
      (is : List Interval) (e : A) (es : List A) (bs : List (Bucket A)) (s : State A)
      (result : List A × List A)
      → make_buckets (date e) is ≡ some bs
      → IsAssigned date (date e) (record { keep = []; remove = []; buckets = bs }) (e ∷ es) s
      → Perm (total s) (e ∷ es)
      → Settles s.keep s.remove s.buckets result
      → Divides is (e ∷ es) (e ∷ es) result.0 result.1
  settled is e es bs s result made a p r = record {
    now = date e;
    buckets = bs;
    starts = λ x xs same. let k : e ≡ x = cc in (ap date k, made);
    held = r.held;
    trimmed = r.trimmed;
    spared = r.spared;
    trims = subst (λ b. AllTrims b r.held r.trimmed) a.fills r.trims;
    keeps = r.holds ∙ ap (λ l. l ++ r.held) a.keeps;
    removes = r.removes ∙ ap (λ l. l ++ r.trimmed) a.removes;
    holds = subst (λ l. Perm result.0 (l ++ (r.trimmed ++ r.spared))) a.keeps r.keeps;
    divides =
        subst (λ l. Perm (result.1 ++ (l ++ r.spared)) (e ∷ es)) a.keeps
          (rw r.removes (
            Perm.trans (interchange s.remove r.trimmed s.keep r.spared) (
              Perm.trans (rw append_assoc (append_left s.remove (append_left s.keep r.divides)))
                (Perm.trans (regroup s.remove s.keep (entries_of s.buckets)) p))));
  }

  fit_sorted-Divides :
      (is : List Interval) (es : List A) (result : List A × List A)
      → fit_sorted date is es ≡ some result
      → Divides is es es result.0 result.1
  unfolding fit_sorted fit_entries_with_now fill
  fit_sorted-Divides is [] result h =
      let shape : result ≡ ([], []) = ground arith in
      rw shape (record {
        now = pos 0;
        buckets = [];
        starts = λ x xs same. cc;
        held = [];
        trimmed = [];
        spared = [];
        trims = no_bucket;
        keeps = refl;
        removes = refl;
        holds = Perm.nil;
        divides = Perm.nil;
      })
  fit_sorted-Divides [] (e ∷ es) result h = cc
  fit_sorted-Divides (i ∷ is) (e ∷ es) result h =
      elim (Option-cases (make_buckets {A = A} (date e) (i ∷ is))) [
        | inl k ↦ absurd (ground arith)
        | inr (bs, k) ↦
            let start : State A = record { keep = []; remove = []; buckets = bs } in
            let s = assign date (date e) start (e ∷ es) in
            let empty = entries_of-empty bs (make_buckets-Spans (date e) (i ∷ is) bs k).1 in
            let shape : apply_keep_counts date s.keep s.remove s.buckets ≡ result = ground arith in
            settled (i ∷ is) e es bs s result k (assign-IsAssigned date (date e) start (e ∷ es))
              (subst (Perm (total s)) (rw empty (append-nil (e ∷ es)))
                (assign-perm date (date e) start (e ∷ es)))
              (subst (Settles s.keep s.remove s.buckets) shape
                (apply_keep_counts-Settles s.keep s.remove s.buckets))
      ]

  Divides-perm :
      (is : List Interval) (sorted es es' keep remove : List A)
      → Perm es es'
      → Divides is sorted es keep remove
      → Divides is sorted es' keep remove
  Divides-perm is sorted es es' keep remove p d = record {
    now = d.now;
    buckets = d.buckets;
    starts = d.starts;
    held = d.held;
    trimmed = d.trimmed;
    spared = d.spared;
    trims = d.trims;
    keeps = d.keeps;
    removes = d.removes;
    holds = d.holds;
    divides = Perm.trans d.divides p;
  }

  -- FitEntries removes the entries that no bucket contains, and of each bucket the youngest entries
  -- that exceed its keep count, exactly as many as exceed it. An entry is in the first bucket that
  -- contains it. All entries that are in a bucket are listed as kept, also those that are removed.
  -- What is removed, and what is kept for good, are together the entries of the input, each as often
  -- as it occurs there.
  pub fit_entries-Divides :
      (is : List Interval) (entries keep remove : List A)
      → fit_entries date is entries ≡ some (keep, remove)
      → Divides is (slice_stable (younger date) entries) entries keep remove
  unfolding fit_entries
  fit_entries-Divides is entries keep remove h =
      let sorted = slice_stable (younger date) entries in
      Divides-perm is sorted sorted entries keep remove (slice_stable-perm (younger date) entries)
        (fit_sorted-Divides is sorted (keep, remove) h)
