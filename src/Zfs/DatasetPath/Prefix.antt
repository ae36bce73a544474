-- ===== src/Zfs/DatasetPath/Prefix.antt =====
-- Prefixes of a path.
use zrepl.Prelude.{
  ◌≡◌, refl, ap, ◌∙◌, true, [], ◌∷◌, ◌++◌, length, drop, str_eq, str_eq→eq, str_eq_refl, arith,
}
use zrepl.Zfs.DatasetPath.{DatasetPath, has_prefix, trim_prefix, extend, equal}

pub has_prefix-append : (p q : DatasetPath) → has_prefix (p ++ q) p ≡ true
unfolding has_prefix
has_prefix-append [] q = refl
has_prefix-append (x ∷ p) q = rw (str_eq_refl x, has_prefix-append p q) refl

drop-append : (p q : DatasetPath) → drop (length p) (p ++ q) ≡ q
drop-append [] q = refl
drop-append (x ∷ p) q = drop-append p q

pub trim_prefix-append : (p q : DatasetPath) → trim_prefix (p ++ q) p ≡ q
unfolding trim_prefix
trim_prefix-append p q = rw (has_prefix-append p q) (drop-append p q)

prefix_drop :
    (p prefix : DatasetPath) → has_prefix p prefix ≡ true → prefix ++ drop (length prefix) p ≡ p
unfolding has_prefix
prefix_drop p [] h = refl
prefix_drop [] (y ∷ ys) h = cc
prefix_drop (x ∷ xs) (y ∷ ys) h =
    let same : str_eq y x ≡ true = ground arith in
    let rest : has_prefix xs ys ≡ true = ground arith in
    ap (λ z. z ∷ (ys ++ drop (length ys) xs)) (str_eq→eq y x same)
    ∙ ap (◌∷◌ x) (prefix_drop xs ys rest)

-- Trimming a prefix off a path and extending the prefix by what is left gives the path back.
pub extend-trim_prefix :
    (p prefix : DatasetPath) → has_prefix p prefix ≡ true → extend prefix (trim_prefix p prefix) ≡ p
unfolding trim_prefix
extend-trim_prefix p prefix h = rw h (prefix_drop p prefix h)

pub equal-eq : (p q : DatasetPath) → equal p q ≡ true → p ≡ q
unfolding equal
equal-eq [] [] h = refl
equal-eq [] (y ∷ ys) h = cc
equal-eq (x ∷ xs) [] h = cc
equal-eq (x ∷ xs) (y ∷ ys) h =
    let same : str_eq x y ≡ true = ground arith in
    let rest : equal xs ys ≡ true = ground arith in
    ap (λ z. z ∷ xs) (str_eq→eq x y same) ∙ ap (◌∷◌ y) (equal-eq xs ys rest)

pub equal_refl : (p : DatasetPath) → equal p p ≡ true
unfolding equal
equal_refl [] = refl
equal_refl (x ∷ p) = rw (str_eq_refl x, equal_refl p) refl
