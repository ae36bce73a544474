-- ===== src/Filters/Best.antt =====
-- The loop of mostSpecificPrefixMapping finds the most specific entry.
use zrepl.Prelude.{
  ℕ, zero, suc, ◌+◌, ◌≤◌, ◌<◌, ◌≡◌, refl, sym, ap, subst, ◌⊎◌, inl, inr, Bool, true, false, not,
  ◌&&◌, Option, none, some, List, [], ◌∷◌, ◌++◌, get_elem?, length, All, All-map, All-append, arith,
  Bool-cases,
}
use zrepl.Zfs.DatasetPath.{DatasetPath, has_prefix, equal}
use zrepl.Filters.{
  Entry, Candidates, is_longer, consider, consider_all, choose, most_specific_prefix_mapping,
  chosen,
}

abbrev pub is_direct : DatasetPath → Entry → Bool
is_direct p e = not e.subtree_match && equal e.path p

abbrev pub is_subtree : DatasetPath → Entry → Bool
is_subtree p e = e.subtree_match && has_prefix p e.path

module _ {ℓ} {A : Type ℓ} where
  get_elem?-front :
      (xs ys : List A) (i : ℕ) (x : A) → get_elem? xs i ≡ some x → get_elem? (xs ++ ys) i ≡ some x
  get_elem?-front [] ys i x h = cc
  get_elem?-front (z ∷ xs) ys zero x h = h
  get_elem?-front (z ∷ xs) ys (suc i) x h = get_elem?-front xs ys i x h

  get_elem?-last : (xs : List A) (x : A) → get_elem? (xs ++ x ∷ []) (length xs) ≡ some x
  get_elem?-last [] x = refl
  get_elem?-last (z ∷ xs) x = get_elem?-last xs x

  append-cons : (xs : List A) (x : A) (ys : List A) → (xs ++ x ∷ []) ++ ys ≡ xs ++ x ∷ ys
  append-cons [] x ys = refl
  append-cons (z ∷ xs) x ys = ap (◌∷◌ z) (append-cons xs x ys)

  length-snoc : (xs : List A) (x : A) → length (xs ++ x ∷ []) ≡ length xs + 1
  length-snoc [] x = refl
  length-snoc (z ∷ xs) x = omega (arith, length-snoc xs x)

module _ (p : DatasetPath) where
  -- What direct_idx says of the entries so far.
  abbrev DirectAt : List Entry → Option ℕ → Type 0
  DirectAt es none = All (λ e. is_direct p e ≡ false) es
  DirectAt es (some i) = (e : Entry) × (get_elem? es i ≡ some e) × (is_direct p e ≡ true)

  -- What lcp and lcp_entry_idx say of them.
  abbrev LongestAt : List Entry → Option (ℕ × ℕ) → Type 0
  LongestAt es none = All (λ e. is_subtree p e ≡ false) es
  LongestAt es (some (n, i)) =
      ((e : Entry) × (get_elem? es i ≡ some e) × (is_subtree p e ≡ true) × (length e.path ≡ n))
      × All (λ f. is_subtree p f ≡ true → length f.path ≤ n) es

  direct_kept :
      (es : List Entry) (e : Entry) (o : Option ℕ)
      → is_direct p e ≡ false
      → DirectAt es o
      → DirectAt (es ++ e ∷ []) o
  direct_kept es e none off h = All-append _ es (e ∷ []) h (off, tt)
  direct_kept es e (some i) off (f, at, on) = (f, get_elem?-front es (e ∷ []) i f at, on)

  longest_kept :
      (es : List Entry) (e : Entry) (o : Option (ℕ × ℕ))
      → is_subtree p e ≡ false ⊎ ((is_subtree p e ≡ true) × (is_longer (length e.path) o ≡ false))
      → LongestAt es o
      → LongestAt (es ++ e ∷ []) o
  longest_kept es e none (inl off) h = All-append _ es (e ∷ []) h (off, tt)
  longest_kept es e none (inr (on, short)) h = cc
  longest_kept es e (some (n, i)) why ((f, at, on, same), most) = (
    (f, get_elem?-front es (e ∷ []) i f at, on, same),
    All-append _ es (e ∷ []) most (λ k. shorter why k, tt),
  )
    where
      shorter :
          is_subtree p e ≡ false
            ⊎ ((is_subtree p e ≡ true) × (is_longer (length e.path) (some (n, i)) ≡ false))
          → is_subtree p e ≡ true
          → length e.path ≤ n
      shorter (inl off) k = cc
      shorter (inr (sure, short)) k = ground arith

  longer-All :
      (es : List Entry) (n : ℕ) (o : Option (ℕ × ℕ))
      → is_longer n o ≡ true
      → LongestAt es o
      → All (λ f. is_subtree p f ≡ true → length f.path ≤ n) es
  longer-All es n none long h = All-map (λ f off k. cc) es h
  longer-All es n (some (m, i)) long (found, most) =
      let more : m < n = ground arith in All-map (λ f k sure. omega (arith, k sure, more)) es most

  longest_taken :
      (es : List Entry) (e : Entry) (o : Option (ℕ × ℕ))
      → is_subtree p e ≡ true
      → is_longer (length e.path) o ≡ true
      → LongestAt es o
      → LongestAt (es ++ e ∷ []) (some (length e.path, length es))
  longest_taken es e o on long h = (
    (e, get_elem?-last es e, on, refl),
    All-append _ es (e ∷ []) (longer-All es (length e.path) o long h) (λ k. omega arith, tt),
  )

  abbrev Found : List Entry → Candidates → Type 0
  Found es c = DirectAt es c.direct × LongestAt es c.longest

  consider-Found :
      (es : List Entry) (e : Entry) (c : Candidates)
      → Found es c
      → Found (es ++ e ∷ []) (consider p (length es) e c)
  unfolding consider
  consider-Found es e c (d, l) = elim (Bool-cases (is_direct p e)) [
    | inl on ↦
        let off : is_subtree p e ≡ false = ground arith in
        rw on ((e, get_elem?-last es e, on), longest_kept es e c.longest (inl off) l)
    | inr single ↦
        elim (Bool-cases
          (e.subtree_match && (has_prefix p e.path && is_longer (length e.path) c.longest))) [
            | inl on ↦
                let sub : is_subtree p e ≡ true = ground arith in
                let long : is_longer (length e.path) c.longest ≡ true = ground arith in
                rw (single, on)
                  (direct_kept es e c.direct single d, longest_taken es e c.longest sub long l)
            | inr off ↦
                rw (single, off)
                  (
                    direct_kept es e c.direct single d,
                    longest_kept es e c.longest (short off (Bool-cases (is_subtree p e))) l,
                  )
          ]
  ]
    where
      short :
          (e.subtree_match && (has_prefix p e.path && is_longer (length e.path) c.longest)) ≡ false
          → (is_subtree p e ≡ true) ⊎ (is_subtree p e ≡ false)
          → is_subtree p e ≡ false
            ⊎ ((is_subtree p e ≡ true) × (is_longer (length e.path) c.longest ≡ false))
      short off (inl on) = inr (on, ground arith)
      short off (inr none_here) = inl none_here

  consider_all-Found :
      (done es : List Entry) (i : ℕ) (c : Candidates)
      → i ≡ length done
      → Found done c
      → Found (done ++ es) (consider_all p i es c)
  unfolding consider_all
  consider_all-Found done [] i c at h = subst (λ xs. Found xs c) (sym (append-nil done)) h
    where
      append-nil : (xs : List Entry) → xs ++ [] ≡ xs
      append-nil [] = refl
      append-nil (x ∷ xs) = ap (◌∷◌ x) (append-nil xs)
  consider_all-Found done (e ∷ es) i c at h =
      let here : Found (done ++ e ∷ []) (consider p i e c) =
        subst (λ j. Found (done ++ e ∷ []) (consider p j e c)) (sym at)
          (consider-Found done e c h) in
      subst (λ xs. Found xs (consider_all p (i + 1) es (consider p i e c))) (append-cons done e es)
        (consider_all-Found (done ++ e ∷ []) es (i + 1) (consider p i e c)
          (omega (arith, at, length-snoc done e)) here)

  -- An entry for exactly this filesystem; or else, if there is none, one for a subtree that holds
  -- it, and no entry for such a subtree has a longer path.
  pub record IsMostSpecific (es : List Entry) (e : Entry) : Type 0 where
    pub index : ℕ
    pub at_index : get_elem? es index ≡ some e
    pub best :
        (is_direct p e ≡ true)
        ⊎ ((is_subtree p e ≡ true)
            × All (λ f. is_direct p f ≡ false) es
            × All (λ f. is_subtree p f ≡ true → length f.path ≤ length e.path) es)

  abbrev pub ChosenAs : List Entry → Option Entry → Type 0
  ChosenAs es none = All (λ e. (is_direct p e ≡ false) × (is_subtree p e ≡ false)) es
  ChosenAs es (some e) = IsMostSpecific es e

  both_none :
      (es : List Entry)
      → All (λ e. is_direct p e ≡ false) es
      → All (λ e. is_subtree p e ≡ false) es
      → All (λ e. (is_direct p e ≡ false) × (is_subtree p e ≡ false)) es
  both_none [] d l = tt
  both_none (e ∷ es) d l = ((d.0, l.0), both_none es d.1 l.1)

  at_choice : List Entry → Option ℕ → Option Entry
  at_choice es none = none
  at_choice es (some i) = get_elem? es i

  choose-ChosenAs :
      (es : List Entry) (d : Option ℕ) (l : Option (ℕ × ℕ))
      → DirectAt es d
      → LongestAt es l
      → ChosenAs es (at_choice es (choose (record { direct = d; longest = l })))
  unfolding at_choice
  choose-ChosenAs es none none dir sub = both_none es dir sub
  choose-ChosenAs es (some i) l (e, at, on) sub =
      rw at (record { index = i; at_index = at; best = inl on })
  choose-ChosenAs es none (some (n, i)) dir ((e, at, on, same), most) = rw at (record {
    index = i;
    at_index = at;
    best = inr (on, dir, All-map (λ f k sure. omega (arith, k sure, same)) es most);
  })

  chosen_at :
      (es : List Entry) (o : Option ℕ)
      → most_specific_prefix_mapping es p ≡ o
      → chosen es p ≡ at_choice es o
  unfolding chosen at_choice
  chosen_at es none h = rw (h, chosen) refl
  chosen_at es (some i) h = rw (h, chosen) refl

  -- The entry that the code picks is the most specific one: an entry for exactly this filesystem
  -- wins, then the subtree with the longest path. If it picks none, no entry matches.
  pub chosen-IsMostSpecific : (es : List Entry) → ChosenAs es (chosen es p)
  unfolding most_specific_prefix_mapping
  chosen-IsMostSpecific es =
      let c = consider_all p 0 es (record { direct = none; longest = none }) in
      let (d, l) =
        consider_all-Found [] es 0 (record { direct = none; longest = none }) refl (tt, tt) in
      subst (ChosenAs es) (sym (chosen_at es (choose c) refl))
        (choose-ChosenAs es c.direct c.longest d l)
