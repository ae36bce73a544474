-- ===== src/Pruning/Grid/Fill.antt =====
-- Which entries the buckets of a grid get, without the loop.
use mathlib.Core.List.{append-nil, append_assoc}
use zrepl.Prelude.{
  ◌≡◌, refl, sym, ap, ◌∙◌, inl, inr, Bool, true, false, not, ◌&&◌, none, some, List, [], ◌∷◌, ◌++◌,
  keep_if, ℤ, ltb_ℤ, arith, Bool-cases, Option-cases,
}
use zrepl.Pruning.Grid.{Bucket, State, contains, add_to_first, place, assign}

module _ {ℓ} {A : Type ℓ} (date : A → ℤ) where
  -- The buckets with the entries that they get: each goes to the first bucket that contains it.
  unfoldable pub fill : List (Bucket A) → List A → List (Bucket A)
  fill [] es = []
  fill (b ∷ bs) es =
      record b { entries = b.entries ++ keep_if (contains date b) es }
      ∷ fill bs (keep_if (λ e. not (contains date b e)) es)

  -- No bucket contains the entry.
  unfoldable pub is_left : List (Bucket A) → A → Bool
  is_left [] e = true
  is_left (b ∷ bs) e = not (contains date b e) && is_left bs e

  abbrev pub is_past : ℤ → A → Bool
  is_past now e = not (ltb_ℤ now (date e))

  fill-put :
      (bs bs' : List (Bucket A)) (e : A) (es : List A)
      → add_to_first date bs e ≡ some bs'
      → fill bs' es ≡ fill bs (e ∷ es)
  unfolding add_to_first fill contains
  fill-put [] bs' e es h = cc
  fill-put (b ∷ bs) bs' e es h = elim (Bool-cases (contains date b e)) [
    | inl here ↦
        let shape : record b { entries = b.entries ++ e ∷ [] } ∷ bs ≡ bs' = ground arith in
        rw (← shape, fill, here, append_assoc b.entries) refl
    | inr elsewhere ↦ elim (Option-cases (add_to_first date bs e)) [
      | inl none_fits ↦ absurd (ground arith)
      | inr (rest, found) ↦
          let shape : b ∷ rest ≡ bs' = ground arith in
          let there = fill-put bs rest e (keep_if (λ x. not (contains date b x)) es) found in
          rw (← shape, fill, elsewhere)
            (ap (◌∷◌ (record b { entries = b.entries ++ keep_if (contains date b) es })) there)
    ]
  ]

  put-is_left :
      (bs bs' : List (Bucket A)) (e : A) → add_to_first date bs e ≡ some bs' → is_left bs e ≡ false
  unfolding add_to_first is_left contains
  put-is_left [] bs' e h = cc
  put-is_left (b ∷ bs) bs' e h = elim (Bool-cases (contains date b e)) [
    | inl here ↦ rw here refl
    | inr elsewhere ↦ elim (Option-cases (add_to_first date bs e)) [
      | inl none_fits ↦ absurd (ground arith)
      | inr (rest, found) ↦ rw (elsewhere, put-is_left bs rest e found) refl
    ]
  ]

  skip-is_left :
      (bs : List (Bucket A)) (e : A) → add_to_first date bs e ≡ none → is_left bs e ≡ true
  unfolding add_to_first is_left contains
  skip-is_left [] e h = refl
  skip-is_left (b ∷ bs) e h = elim (Bool-cases (contains date b e)) [
    | inl here ↦ absurd (ground arith)
    | inr elsewhere ↦ elim (Option-cases (add_to_first date bs e)) [
      | inr (rest, found) ↦ absurd (ground arith)
      | inl none_fits ↦ rw (elsewhere, skip-is_left bs e none_fits) refl
    ]
  ]

  -- An entry that no bucket contains changes none.
  fill-skip :
      (bs : List (Bucket A)) (e : A) (es : List A)
      → is_left bs e ≡ true
      → fill bs (e ∷ es) ≡ fill bs es
  unfolding fill is_left contains
  fill-skip [] e es h = refl
  fill-skip (b ∷ bs) e es h = elim (Bool-cases (contains date b e)) [
    | inl here ↦ absurd (ground arith)
    | inr elsewhere ↦
        let there = fill-skip bs e (keep_if (λ x. not (contains date b x)) es) (ground arith) in
        rw elsewhere
          (ap (◌∷◌ (record b { entries = b.entries ++ keep_if (contains date b) es })) there)
  ]

  fill-nothing : (bs : List (Bucket A)) → fill bs [] ≡ bs
  unfolding fill
  fill-nothing [] = refl
  fill-nothing (b ∷ bs) = rw (append-nil b.entries, fill-nothing bs) refl

  -- Whatever the buckets hold already, the later entries are judged by their bounds only.
  is_left-put :
      (bs bs' : List (Bucket A)) (e x : A)
      → add_to_first date bs e ≡ some bs'
      → is_left bs' x ≡ is_left bs x
  unfolding add_to_first is_left contains
  is_left-put [] bs' e x h = cc
  is_left-put (b ∷ bs) bs' e x h = elim (Bool-cases (contains date b e)) [
    | inl here ↦
        let shape : record b { entries = b.entries ++ e ∷ [] } ∷ bs ≡ bs' = ground arith in
        rw (← shape, is_left) refl
    | inr elsewhere ↦ elim (Option-cases (add_to_first date bs e)) [
      | inl none_fits ↦ absurd (ground arith)
      | inr (rest, found) ↦
          let shape : b ∷ rest ≡ bs' = ground arith in
          rw (← shape, is_left, is_left-put bs rest e x found) refl
    ]
  ]

  keep_if-same :
      (p q : A → Bool) (es : List A) → ((x : A) → p x ≡ q x) → keep_if p es ≡ keep_if q es
  keep_if-same p q [] h = refl
  keep_if-same p q (e ∷ es) h = rw (h e, keep_if-same p q es h) refl

  -- The entries of the past that no bucket contains.
  abbrev pub too_old : ℤ → List (Bucket A) → List A → List A
  too_old now bs es = keep_if (is_left bs) (keep_if (is_past now) es)

  -- What the loop over the entries has done in the end.
  pub record IsAssigned (now : ℤ) (s : State A) (es : List A) (s' : State A) : Type ℓ where
    pub keeps : s'.keep ≡ s.keep ++ keep_if (λ e. ltb_ℤ now (date e)) es
    pub removes : s'.remove ≡ s.remove ++ too_old now s.buckets es
    pub fills : s'.buckets ≡ fill s.buckets (keep_if (is_past now) es)

  -- One round does what the whole says of the first entry.
  place-future :
      (now : ℤ) (s : State A) (e : A)
      → ltb_ℤ now (date e) ≡ true
      → place date now s e ≡ record s { keep = s.keep ++ e ∷ [] }
  unfolding place
  place-future now s e h = rw h refl

  place-left :
      (now : ℤ) (s : State A) (e : A)
      → ltb_ℤ now (date e) ≡ false
      → add_to_first date s.buckets e ≡ none
      → place date now s e ≡ record s { remove = s.remove ++ e ∷ [] }
  unfolding place
  place-left now s e h k = rw (h, k) refl

  place-put :
      (now : ℤ) (s : State A) (e : A) (bs : List (Bucket A))
      → ltb_ℤ now (date e) ≡ false
      → add_to_first date s.buckets e ≡ some bs
      → place date now s e ≡ record s { buckets = bs }
  unfolding place
  place-put now s e bs h k = rw (h, k) refl

  pub assign-IsAssigned :
      (now : ℤ) (s : State A) (es : List A) → IsAssigned now s es (assign date now s es)
  unfolding assign
  assign-IsAssigned now s [] = record {
    keeps = sym (append-nil s.keep);
    removes = sym (append-nil s.remove);
    fills = sym (fill-nothing s.buckets);
  }
  assign-IsAssigned now s (e ∷ es) = elim (Bool-cases (ltb_ℤ now (date e))) [
    | inl future ↦
        let r = assign-IsAssigned now (record s { keep = s.keep ++ e ∷ [] }) es in
        rw (place-future now s e future) (record {
          keeps = rw future (r.keeps ∙ append_assoc s.keep (e ∷ []) _);
          removes = rw future r.removes;
          fills = rw future r.fills;
        })
    | inr past ↦ elim (Option-cases (add_to_first date s.buckets e)) [
      | inl none_fits ↦
          let left = skip-is_left s.buckets e none_fits in
          let r = assign-IsAssigned now (record s { remove = s.remove ++ e ∷ [] }) es in
          rw (place-left now s e past none_fits) (record {
            keeps = rw past r.keeps;
            removes = rw (past, left) (r.removes ∙ append_assoc s.remove (e ∷ []) _);
            fills = rw past (r.fills ∙ sym (fill-skip s.buckets e (keep_if (is_past now) es) left));
          })
      | inr (bs, fits) ↦
          let taken = put-is_left s.buckets bs e fits in
          let r = assign-IsAssigned now (record s { buckets = bs }) es in
          rw (place-put now s e bs past fits) (record {
            keeps = rw past r.keeps;
            removes =
                rw (past, taken)
                  (r.removes
                    ∙ ap (◌++◌ s.remove) (
                        keep_if-same (is_left bs) (is_left s.buckets) (keep_if (is_past now) es)
                          (λ x. is_left-put s.buckets bs e x fits)));
            fills = rw past (r.fills ∙ fill-put s.buckets bs e (keep_if (is_past now) es) fits);
          })
    ]
  ]
