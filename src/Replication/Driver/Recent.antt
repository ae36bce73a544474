-- ===== src/Replication/Driver/Recent.antt =====
-- Which error of an attempt is its most recent one, and which errors count.
use mathlib.Core.Bool.{Bool-set}
use mathlib.Core.List.{Mem-prop}
use mathlib.Core.List.Perm
use native.Mathlib.Bridge.{le_prop}
use zrepl.Prelude.{
  ◌<◌, ◌≤◌, ◌≡◌, refl, inl, inr, Bool, true, false, not, Option, none, some, List, [], ◌∷◌, keep_if,
  keep_if-All, Mem, All, All-map, All-of_mem, All-perm, All-keep_if, ltb, SliceSort, IsSorted,
  arith, Bool-cases, ltb→lt, ltb→ge, not-true,
}
use zrepl.Replication.Driver.{TimedError}
use zrepl.Replication.Driver.Report.{
  ErrorClass, permanent, temporary_connectivity_related, is_temporary, class_of, after, in_class,
  newer, most_recent,
}

-- An error is not later than the one that was found.
abbrev NotAfter : Option (TimedError × ErrorClass) → TimedError → Type 0
NotAfter none e = 0 < 0
NotAfter (some (f, c)) e = e.time ≤ f.time

NotAfter-prop : (o : Option (TimedError × ErrorClass)) (e : TimedError) → IsProp (NotAfter o e)
NotAfter-prop none e = le_prop
NotAfter-prop (some (f, c)) e = le_prop

newer-keeps :
    (found : Option (TimedError × ErrorClass)) (class : ErrorClass) (l : List TimedError)
    (x : TimedError)
    → NotAfter found x
    → NotAfter (newer found class l) x
unfolding newer
newer-keeps found class [] x h = h
newer-keeps none class (e ∷ es) x h = absurd (omega (arith, h))
newer-keeps (some (f, c)) class (e ∷ es) x h = elim (Bool-cases (ltb f.time e.time)) [
  | inl b ↦ rw (b, newer) (omega (arith, h, ltb→lt _ _ b))
  | inr b ↦ rw (b, newer) h
]

newer-first :
    (found : Option (TimedError × ErrorClass)) (class : ErrorClass) (e : TimedError)
    (es : List TimedError)
    → NotAfter (newer found class (e ∷ es)) e
unfolding newer
newer-first none class e es = omega arith
newer-first (some (f, c)) class e es = elim (Bool-cases (ltb f.time e.time)) [
  | inl b ↦ rw (b, newer) (omega arith)
  | inr b ↦ rw (b, newer) (ltb→ge _ _ b)
]

NotAfter-trans :
    (o : Option (TimedError × ErrorClass)) (e x : TimedError)
    → NotAfter o e
    → x.time ≤ e.time
    → NotAfter o x
NotAfter-trans none e x h le = h
NotAfter-trans (some (f, c)) e x h le = omega (arith, h, le)

-- The first of a sorted list is enough.
newer-All :
    (found : Option (TimedError × ErrorClass)) (class : ErrorClass) (l : List TimedError)
    → IsSorted after l
    → All (NotAfter (newer found class l)) l
unfolding after
newer-All found class [] s = tt
newer-All found class (e ∷ es) s = (
  newer-first found class e es,
  All-map
      (λ x k.
        NotAfter-trans (newer found class (e ∷ es)) e x (newer-first found class e es)
          (ltb→ge _ _ k))
      es s.0,
)

-- An error of the list, with its class.
abbrev IsPick : List TimedError → Option (TimedError × ErrorClass) → Type 0
IsPick es none = Unit
IsPick es (some (e, c)) = Mem e es × (is_temporary (class_of e) ≡ is_temporary c)

newer-IsPick :
    (es : List TimedError) (found : Option (TimedError × ErrorClass)) (class : ErrorClass)
    (l : List TimedError)
    → IsPick es found
    → All (λ x. Mem x es × (is_temporary (class_of x) ≡ is_temporary class)) l
    → IsPick es (newer found class l)
unfolding newer
newer-IsPick es found class [] p h = p
newer-IsPick es none class (e ∷ l) p h = h.0
newer-IsPick es (some (f, c)) class (e ∷ l) p h = elim (Bool-cases (ltb f.time e.time)) [
  | inl b ↦ rw (b, newer) h.0
  | inr b ↦ rw (b, newer) p
]

All-rejoin {κ} :
    (P : TimedError → Type κ) (p : TimedError → Bool) (xs : List TimedError)
    → All P (keep_if p xs)
    → All P (keep_if (λ x. not (p x)) xs)
    → All P xs
All-rejoin P p [] h k = tt
All-rejoin P p (x ∷ xs) h k = elim (Bool-cases (p x)) [
  | inl b ↦
      let a : All P (x ∷ keep_if p xs) = (rw b at h) in (a.0, All-rejoin P p xs a.1 (rw b at k))
  | inr b ↦
      let a : All P (x ∷ keep_if (λ y. not (p y)) xs) = (rw b at k) in
      (a.0, All-rejoin P p xs (rw b at h) a.1)
]

All-zip_fit :
    (es l : List TimedError) (b : Bool)
    → All (λ x. Mem x es) l
    → All (λ x. is_temporary (class_of x) ≡ b) l
    → All (λ x. Mem x es × (is_temporary (class_of x) ≡ b)) l
All-zip_fit es [] b h k = tt
All-zip_fit es (x ∷ l) b h k = ((h.0, k.0), All-zip_fit es l b h.1 k.1)

module _ (slice : SliceSort after) (es : List TimedError) where
  class_fits :
      (b : Bool)
      → All (λ x. is_temporary (class_of x) ≡ b) (in_class b es)
      → All (λ x. Mem x es × (is_temporary (class_of x) ≡ b)) (slice.sort (in_class b es))
  class_fits b h =
      let back = Perm.symm (slice.sort-perm (in_class b es)) in
      All-zip_fit es _ b
        (All-perm (λ x. Mem-prop) (in_class b es) _ back
          (All-keep_if (λ x. Mem x es) _ es (All-of_mem es (λ x m. m))))
        (All-perm (λ x. Bool-set _ _) (in_class b es) _ back h)

  temporary_fit : All (λ x. is_temporary (class_of x) ≡ true) (in_class true es)
  temporary_fit = keep_if-All (λ x. is_temporary (class_of x)) es

  permanent_fit : All (λ x. is_temporary (class_of x) ≡ false) (in_class false es)
  permanent_fit =
      All-map (λ x h. not-true _ h) (in_class false es)
        (keep_if-All (λ x. not (is_temporary (class_of x))) es)

  -- What bounds both sorted classes bounds all errors.
  bound_all :
      (o : Option (TimedError × ErrorClass))
      → All (NotAfter o) (slice.sort (in_class true es))
      → All (NotAfter o) (slice.sort (in_class false es))
      → All (NotAfter o) es
  bound_all o h k =
      All-rejoin (NotAfter o) (λ x. is_temporary (class_of x)) es
        (All-perm (NotAfter-prop o) _ _ (slice.sort-perm (in_class true es)) h)
        (All-perm (NotAfter-prop o) _ _ (slice.sort-perm (in_class false es)) k)

  most_recent-bounds :
      (first : Bool)
      → All (NotAfter (most_recent slice first es)) es × IsPick es (most_recent slice first es)
  unfolding most_recent
  most_recent-bounds true =
      let ts = slice.sort (in_class true es) in
      let qs = slice.sort (in_class false es) in
      let found = newer none temporary_connectivity_related ts in
      (
        bound_all (newer found permanent qs)
            (All-map (λ x. newer-keeps found permanent qs x) ts
              (newer-All none temporary_connectivity_related ts
                (slice.sort-IsSorted (in_class true es))))
            (newer-All found permanent qs (slice.sort-IsSorted (in_class false es))),
        newer-IsPick es found permanent qs
            (newer-IsPick es none temporary_connectivity_related ts tt
              (class_fits true temporary_fit))
            (class_fits false permanent_fit),
      )
  most_recent-bounds false =
      let ts = slice.sort (in_class true es) in
      let qs = slice.sort (in_class false es) in
      let found = newer none permanent qs in
      (
        bound_all (newer found temporary_connectivity_related ts)
            (newer-All found temporary_connectivity_related ts
              (slice.sort-IsSorted (in_class true es)))
            (All-map (λ x. newer-keeps found temporary_connectivity_related ts x) qs
              (newer-All none permanent qs (slice.sort-IsSorted (in_class false es)))),
        newer-IsPick es found temporary_connectivity_related ts
            (newer-IsPick es none permanent qs tt (class_fits false permanent_fit))
            (class_fits true temporary_fit),
      )

  -- What MostRecent says: no errors at all, or an error that none of the others is after.
  pub data IsMostRecent : Option (TimedError × ErrorClass) → Type 0 where
    no_errors : es ≡ [] → IsMostRecent none
    latest :
        (e : TimedError) (class : ErrorClass)
        → Mem e es
        → is_temporary (class_of e) ≡ is_temporary class
        → All (λ (x : TimedError). x.time ≤ e.time) es
        → IsMostRecent (some (e, class))

  -- In whatever order the map of classes is walked, and however errors of the same time are sorted:
  -- MostRecent returns one of the errors of the report, with its class, and none is later; it returns
  -- nil only if there are none.
  pub most_recent-IsMostRecent : (first : Bool) → IsMostRecent (most_recent slice first es)
  most_recent-IsMostRecent first = go (most_recent slice first es) (most_recent-bounds first)
    where
      empty : (xs : List TimedError) → All (NotAfter none) xs → xs ≡ []
      empty [] h = refl
      empty (x ∷ xs) h = absurd (omega (arith, h.0))

      go :
          (o : Option (TimedError × ErrorClass))
          → All (NotAfter o) es × IsPick es o
          → IsMostRecent o
      go none h = no_errors (empty es h.0)
      go (some (e, c)) h = latest e c h.1.0 h.1.1 h.0
