-- ===== src/Util/CircLog/Rounding.antt =====
-- nextPow2Int does not round down.
use zrepl.Prelude.{
  ℕ, zero, suc, ◌+◌, ◌-◌, ◌*◌, ◌/◌, ◌%◌, ◌^◌, ◌<◌, ◌≤◌, ◌≡◌, refl, inl, inr, some, ltb, ◌==◌, arith,
  Bool-cases,
}
use native.Mathlib.Nat.{div-le_self}
use mathlib.Core.Option.{some-injective}
use zrepl.Util.CircLog.{bit_or, smear, smeared, rounded, next_pow2_int}

power_suc : (k : ℕ) → 2 ^ suc k ≡ 2 * 2 ^ k
power_suc k = omega arith

bit_or-zero : (w : ℕ) → bit_or w 0 0 ≡ 0
unfolding bit_or
bit_or-zero zero = refl
bit_or-zero (suc w) = let e = bit_or-zero w in ground (arith, e)

bit_or-bound : (w k a b : ℕ) → a < 2 ^ k → b < 2 ^ k → bit_or w a b < 2 ^ k
unfolding bit_or
bit_or-bound zero k a b h l = omega (arith, h)
bit_or-bound (suc w) zero a b h l =
    let ea : a ≡ 0 = omega (arith, h) in
    let eb : b ≡ 0 = omega (arith, l) in rw (ea, eb) (omega (arith, bit_or-zero (suc w)))
bit_or-bound (suc w) (suc k) a b h l =
    let ih =
      bit_or-bound w k (a / 2) (b / 2) (omega (arith, h, power_suc k))
        (omega (arith, l, power_suc k)) in
    elim (Bool-cases (a % 2 + b % 2 == 0)) [
      | inl e ↦ rw (e, bit_or) (omega (arith, ih, power_suc k))
      | inr e ↦ rw (e, bit_or) (omega (arith, ih, power_suc k))
    ]

bit_or-ge : (w a b : ℕ) → a < 2 ^ w → a ≤ bit_or w a b
unfolding bit_or
bit_or-ge zero a b h = omega (arith, h)
bit_or-ge (suc w) a b h =
    let ih = bit_or-ge w (a / 2) (b / 2) (omega (arith, h, power_suc w)) in
    elim (Bool-cases (a % 2 + b % 2 == 0)) [
      | inl e ↦
          let even : a % 2 + b % 2 ≡ 0 = ground (arith, e) in
          rw (e, bit_or) (omega (arith, ih, even))
      | inr e ↦ rw (e, bit_or) (omega (arith, ih))
    ]

-- A word with its highest bit clear keeps it clear, and its other bits.
record Grows (r s : ℕ) : Type 0 where
  small : s < 2 ^ 63
  grown : r ≤ s

smear-Grows : (k r : ℕ) → r < 2 ^ 63 → Grows r (smear k r)
smear-Grows k r h = record {
  small = bit_or-bound 64 63 r (r / 2 ^ k) h (shift k r h);
  grown = bit_or-ge 64 r (r / 2 ^ k) (omega (arith, h));
}
  where
    shift : (j q : ℕ) → q < 2 ^ 63 → q / 2 ^ j < 2 ^ 63
    shift j q l = omega (arith, l, div-le_self q (2 ^ j))

Grows-then : {r s : ℕ} (k : ℕ) → Grows r s → Grows r (smear k s)
Grows-then {r} {s} k g =
    let n = smear-Grows k s g.small in
    record { small = n.small; grown = omega (arith, g.grown, n.grown) }

smeared-Grows : (n : ℕ) → n < 2 ^ 63 → Grows (n - 1) (smeared n)
unfolding smeared
smeared-Grows n h = Grows-then 32 (
    Grows-then 16
      (Grows-then 8 (Grows-then 4 (Grows-then 2 (smear-Grows 1 (n - 1) (omega (arith, h)))))))

rounded-eq : (r p : ℕ) → r < 2 ^ 63 → rounded r ≡ some p → p ≡ r + 1
unfolding rounded
rounded-eq r p h e = elim (Bool-cases (ltb (2 ^ 63 - 1) ((r + 1) % 2 ^ 64))) [
  | inl b ↦ let k = (rw (b, rounded) at e) in cc
  | inr b ↦
      let same : (r + 1) % 2 ^ 64 ≡ p = some-injective _ _ (rw (b, rounded) at e) in
      omega (arith, same, h)
]

-- What nextPow2Int returns for a positive int is not less.
pub next_pow2_int-ge : (n p : ℕ) → n < 2 ^ 63 → next_pow2_int n ≡ some p → n ≤ p
unfolding next_pow2_int
next_pow2_int-ge n p h e = elim (Bool-cases (n == 0)) [
  | inl z ↦ let k = (rw (z, next_pow2_int) at e) in cc
  | inr z ↦
      let g = smeared-Grows n h in
      omega (arith, g.grown, rounded-eq (smeared n) p g.small (rw (z, next_pow2_int) at e))
]
