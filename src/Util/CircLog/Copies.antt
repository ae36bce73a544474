-- ===== src/Util/CircLog/Copies.antt =====
-- Copies into parts of a buffer.
use mathlib.Core.List.{append_assoc, append-nil}
use zrepl.Prelude.{
  ℕ, zero, suc, ◌+◌, ◌<◌, ◌≤◌, ◌≡◌, refl, sym, ap, ◌∙◌, Bool, true, false, List, [], ◌∷◌, ◌++◌,
  length, length-append, take, drop, ltb, lt→ltb, min, arith,
}
use zrepl.Util.CircLog.{copy, put_rest, put_data}

pub take-whole : (n : ℕ) (xs : List ℕ) → length xs ≤ n → take n xs ≡ xs
take-whole zero [] h = refl
take-whole zero (x ∷ xs) h = absurd (omega (arith, h))
take-whole (suc n) [] h = refl
take-whole (suc n) (x ∷ xs) h = ap (◌∷◌ x) (take-whole n xs (omega (arith, h)))

pub drop-whole : (n : ℕ) (xs : List ℕ) → length xs ≤ n → drop n xs ≡ []
drop-whole zero [] h = refl
drop-whole zero (x ∷ xs) h = absurd (omega (arith, h))
drop-whole (suc n) [] h = refl
drop-whole (suc n) (x ∷ xs) h = drop-whole n xs (omega (arith, h))

pub take-front : (n : ℕ) (xs ys : List ℕ) → n ≡ length xs → take n (xs ++ ys) ≡ xs
take-front zero [] ys h = refl
take-front zero (x ∷ xs) ys h = absurd (omega (arith, h))
take-front (suc n) [] ys h = absurd (omega (arith, h))
take-front (suc n) (x ∷ xs) ys h = ap (◌∷◌ x) (take-front n xs ys (omega (arith, h)))

pub drop-front : (n : ℕ) (xs ys : List ℕ) → n ≡ length xs → drop n (xs ++ ys) ≡ ys
drop-front zero [] ys h = refl
drop-front zero (x ∷ xs) ys h = absurd (omega (arith, h))
drop-front (suc n) [] ys h = absurd (omega (arith, h))
drop-front (suc n) (x ∷ xs) ys h = drop-front n xs ys (omega (arith, h))

pub drop_add : (m n : ℕ) (xs : List ℕ) → drop (m + n) xs ≡ drop n (drop m xs)
drop_add zero n xs = let e : zero + n ≡ n = omega arith in rw e refl
drop_add (suc m) n [] =
    drop-whole (suc m + n) [] (omega arith) ∙ sym (drop-whole n [] (omega arith))
drop_add (suc m) n (x ∷ xs) =
    let e : suc m + n ≡ suc (m + n) = omega arith in rw e (drop_add m n xs)

pub drop-append_le : (n : ℕ) (xs ys : List ℕ) → n ≤ length xs → drop n (xs ++ ys) ≡ drop n xs ++ ys
drop-append_le zero xs ys h = refl
drop-append_le (suc n) [] ys h = absurd (omega (arith, h))
drop-append_le (suc n) (x ∷ xs) ys h = drop-append_le n xs ys (omega (arith, h))

-- A copy that fits replaces the front.
pub copy-fits :
    (ms rest src : List ℕ) → length ms ≡ length src → copy (ms ++ rest) src ≡ src ++ rest
copy-fits ms rest src h =
    rw
      (
        take-whole (length (ms ++ rest)) src (omega (arith, h, length-append ms rest)),
        drop-front (length src) ms rest (sym h),
      )
      refl

-- A copy that does not fit is cut off.
pub copy-cut : (dst src more : List ℕ) → length dst ≡ length src → copy dst (src ++ more) ≡ src
copy-cut dst src more h =
    rw
      (
        take-front (length dst) src more h,
        drop-whole (length (src ++ more)) dst (omega (arith, h, length-append src more)),
      )
      (append-nil src)

copy-nothing : (dst : List ℕ) → copy dst [] ≡ dst
copy-nothing dst = rw (take-whole (length dst) [] (omega arith)) refl

pair_eq : {a b : List ℕ} {m n : ℕ} → a ≡ b → m ≡ n → ◌≡◌ {A = List ℕ × ℕ} (a, m) (b, n)
pair_eq e f = rw (e, f) refl

put_rest-nothing :
    (b : Bool) (first bs : List ℕ) → put_rest b first (length bs) bs ≡ (first, length bs)
put_rest-nothing true first bs =
    pair_eq (ap (copy first) (drop-whole (length bs) bs (omega arith)) ∙ copy-nothing first)
      (omega arith)
put_rest-nothing false first bs = refl

-- Data that ends before the buffer does.
pub put_data-fits :
    (ls ms rest bs : List ℕ) (c n : ℕ)
    → c ≡ length ls
    → length ms ≡ length bs
    → put_data (ls ++ (ms ++ rest)) c n bs ≡ (ls ++ (bs ++ rest), length bs)
unfolding put_data
put_data-fits ls ms rest bs c n h k =
    let tail : drop c (ls ++ (ms ++ rest)) ≡ ms ++ rest = drop-front c ls (ms ++ rest) h in
    let head : take c (ls ++ (ms ++ rest)) ≡ ls = take-front c ls (ms ++ rest) h in
    let whole : min (length (ms ++ rest)) (length bs) ≡ length bs =
      omega (arith, k, length-append ms rest) in
    rw (tail, head, whole, copy-fits ms rest bs k)
      (put_rest-nothing (ltb (length bs) n) (ls ++ (bs ++ rest)) bs)

-- Data that goes on at the beginning of the buffer.
pub put_data-wraps :
    (ls ms rest front back : List ℕ) (c n : ℕ)
    → c ≡ length (ls ++ ms)
    → length front ≡ length rest
    → length back ≡ length ls
    → length front < n
    → put_data ((ls ++ ms) ++ rest) c n (front ++ back)
      ≡ (back ++ (ms ++ front), length (front ++ back))
unfolding put_data
put_data-wraps ls ms rest front back c n h k l lt =
    let tail : drop c ((ls ++ ms) ++ rest) ≡ rest = drop-front c (ls ++ ms) rest h in
    let head : take c ((ls ++ ms) ++ rest) ≡ ls ++ ms = take-front c (ls ++ ms) rest h in
    let part : min (length rest) (length (front ++ back)) ≡ length front =
      omega (arith, k, length-append front back) in
    let more : ltb (length front) n ≡ true = lt→ltb _ _ lt in
    let left : drop (length front) (front ++ back) ≡ back =
      drop-front (length front) front back refl in
    rw (tail, head, part, copy-cut rest front back (sym k), more)
      (pair_eq
        (ap (copy ((ls ++ ms) ++ front)) left
          ∙ ap (λ x. copy x back) (append_assoc ls ms front)
          ∙ copy-fits ls (ms ++ front) back (sym l))
        (omega (
          arith,
          k,
          l,
          length-append front back,
          length-append (ls ++ ms) front,
          length-append ls ms,
        )))
