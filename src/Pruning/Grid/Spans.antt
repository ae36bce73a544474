-- ===== src/Pruning/Grid/Spans.antt =====
-- How the buckets of a grid lie in time.
use zrepl.Prelude.{
  ◌≡◌, ◌⊎◌, inl, inr, true, false, some, List, [], ◌∷◌, All, arith, ℤ, pos, ◌-ℤ◌, -ℤ_parts, ◌≤ℤ◌,
  ◌<ℤ◌, Option-cases, Bool-cases,
}
use zrepl.Pruning.Grid.{Interval, Bucket, check_keep_count, make_bucket, make_buckets, contains}

module _ {ℓ} {A : Type ℓ} where
  -- A bucket of the grid is a half-open span of time that ends in `hi`.
  abbrev pub Spans : ℤ → List (Bucket A) → Type 0
  Spans hi [] = Unit
  Spans hi (b ∷ bs) = (b.older_than_or_eq ≡ hi) × Spans b.younger_than bs

  -- Durations are not negative.
  abbrev pub Forward : List (Bucket A) → Type 0
  Forward = All (λ b. b.younger_than ≤ℤ b.older_than_or_eq)

  make_bucket-some :
      (hi : ℤ) (i : Interval) (b : Bucket A)
      → make_bucket hi i ≡ some b
      → (b.older_than_or_eq ≡ hi) × (b.younger_than ≡ hi -ℤ i.interval_length) × (b.entries ≡ [])
  unfolding make_bucket
  make_bucket-some hi i b h = elim (Option-cases (check_keep_count i.keep_count)) [
    | inl e ↦ absurd (ground arith)
    | inr (kc, e) ↦ (ground arith, ground arith, ground arith)
  ]

  pub make_buckets-Spans :
      (hi : ℤ) (is : List Interval) (bs : List (Bucket A))
      → make_buckets hi is ≡ some bs
      → Spans hi bs
        × All (λ b. b.entries ≡ []) bs
        × (All (λ (i : Interval). pos 0 ≤ℤ i.interval_length) is → Forward bs)
  unfolding make_buckets
  make_buckets-Spans hi [] bs h = nothing bs (ground arith)
    where
      nothing :
          (bs : List (Bucket A))
          → bs ≡ []
          → Spans hi bs × All (λ b. b.entries ≡ []) bs × (Unit {0} → Forward bs)
      nothing [] e = (tt, tt, λ _. tt)
      nothing (b ∷ bs) e = cc
  make_buckets-Spans hi (i ∷ is) bs h =
      elim (Option-cases (make_buckets {A = A} (hi -ℤ i.interval_length) is)) [
        | inl e ↦ absurd (ground arith)
        | inr (rest, e) ↦ elim (Option-cases (make_bucket {A = A} hi i)) [
          | inl f ↦ absurd (ground arith)
          | inr (b, f) ↦
              let (spans, empty, forward) =
                make_buckets-Spans (hi -ℤ i.interval_length) is rest e in
              let (top, bottom, none_in) = make_bucket-some hi i b f in
              let shape : bs ≡ b ∷ rest = ground arith in
              rw shape (
                (top, rw bottom spans),
                (none_in, empty),
                λ nonneg. (
                  rw (top, bottom) (omega (arith, nonneg.0, -ℤ_parts hi i.interval_length)),
                  forward nonneg.1,
                ),
              )
        ]
      ]

module _ {ℓ} {A : Type ℓ} (date : A → ℤ) where
  -- No entry is in two buckets.
  abbrev pub Disjoint : List (Bucket A) → Type ℓ
  Disjoint [] = Unit
  Disjoint (b ∷ bs) =
      ((e : A) → contains date b e ≡ true → All (λ c. contains date c e ≡ false) bs) × Disjoint bs

  -- Where the last bucket begins.
  abbrev pub horizon : ℤ → List (Bucket A) → ℤ
  horizon hi [] = hi
  horizon hi (b ∷ bs) = horizon b.younger_than bs

  abbrev pub SomeContains : List (Bucket A) → A → Type 0
  SomeContains [] e = ⊥
  SomeContains (b ∷ bs) e = (contains date b e ≡ true) ⊎ SomeContains bs e

  above-All :
      (hi : ℤ) (bs : List (Bucket A)) (e : A)
      → Spans hi bs
      → Forward bs
      → hi <ℤ date e
      → All (λ c. contains date c e ≡ false) bs
  unfolding contains
  above-All hi [] e s f h = tt
  above-All hi (b ∷ bs) e s f h =
      let top : b.older_than_or_eq ≡ hi = s.0 in
      (ground arith, above-All b.younger_than bs e s.1 f.1 lower)
    where
      lower : b.younger_than <ℤ date e
      lower = ground arith

  contains_once : (hi : ℤ) (bs : List (Bucket A)) → Spans hi bs → Forward bs → Disjoint bs
  unfolding contains
  contains_once hi [] s f = tt
  contains_once hi (b ∷ bs) s f = (
    (λ e h. above-All b.younger_than bs e s.1 f.1 (ground arith)),
    contains_once b.younger_than bs s.1 f.1,
  )

  below :
      (hi : ℤ) (b : Bucket A) (e : A)
      → b.older_than_or_eq ≡ hi
      → date e ≤ℤ hi
      → contains date b e ≡ false
      → date e ≤ℤ b.younger_than
  unfolding contains
  below hi b e top le h = ground arith

  covered :
      (hi : ℤ) (bs : List (Bucket A)) (e : A)
      → Spans hi bs
      → date e ≤ℤ hi
      → SomeContains bs e ⊎ (date e ≤ℤ horizon hi bs)
  covered hi [] e s h = inr h
  covered hi (b ∷ bs) e s h = elim (Bool-cases (contains date b e)) [
    | inl here ↦ inl (inl here)
    | inr elsewhere ↦ later (covered b.younger_than bs e s.1 (below hi b e s.0 h elsewhere))
  ]
    where
      later :
          SomeContains bs e ⊎ (date e ≤ℤ horizon b.younger_than bs)
          → SomeContains (b ∷ bs) e ⊎ (date e ≤ℤ horizon b.younger_than bs)
      later (inl m) = inl (inr m)
      later (inr m) = inr m

  -- The grid that is laid from `now` on, with intervals of no negative length: no entry is in two
  -- buckets, and an entry that is not in the future is in a bucket or older than all of them.
  pub make_buckets-Disjoint :
      (now : ℤ) (intervals : List Interval) (bs : List (Bucket A))
      → All (λ (i : Interval). pos 0 ≤ℤ i.interval_length) intervals
      → make_buckets now intervals ≡ some bs
      → Disjoint bs × ((e : A) → date e ≤ℤ now → SomeContains bs e ⊎ (date e ≤ℤ horizon now bs))
  make_buckets-Disjoint now intervals bs nonneg h =
      let (spans, _, forward) = make_buckets-Spans now intervals bs h in
      (contains_once now bs spans (forward nonneg), λ e le. covered now bs e spans le)
