-- ===== src/Prelude/Results.antt =====
-- A value or an error, and the loop `for i := n - 1; i >= 0; i--` that stops at its first hit.
use Prim.Native.Nat.{ℕ, zero, suc, ◌<◌}
use mathlib.Core.Path.{◌≡◌, refl}
use mathlib.Core.Logic.{inl, inr}
use mathlib.Core.Option.{Option, none, some}
use native.Mathlib.Decide.{ℕ_discrete}
use native.Mathlib.Omega.{arith}
use zrepl.Prelude.Tests.{Option-cases}

pub data Result {ℓ} (E A : Type ℓ) : Type ℓ where
  err : (reason : E) → Result E A
  ok : (value : A) → Result E A

-- What follows a call, unless the call fails.
infixl 5 ◌>>=◌
abbrev pub ◌>>=◌ {ℓ} : {E A B : Type ℓ} (m : Result E A) (next : A → Result E B) → Result E B
err reason >>= next = err reason
ok value >>= next = next value

-- A chain that succeeds has a first call that succeeds.
pub >>=-eq-ok {ℓ} :
    {E A B : Type ℓ} {out : B} (call : Result E A) (next : A → Result E B)
    → (call >>= next) ≡ ok out
    → (value : A) × (call ≡ ok value) × (next value ≡ ok out)
>>=-eq-ok (err reason) next h = cc
>>=-eq-ok (ok value) next h = (value, refl, h)

module _ {ℓ} {B : Type ℓ} where
  unfoldable pub scan_down : ℕ → (ℕ → Option B) → Option B
  scan_down zero f = none
  scan_down (suc n) f = elim (f n) [ none ↦ scan_down n f | some b ↦ some b ]

  at_or_below :
      (f : ℕ → Option B) (n j : ℕ) → f n ≡ none → j < suc n → (j < n → f j ≡ none) → f j ≡ none
  at_or_below f n j e lt below = elim (ℕ_discrete j n) [
    | yes same ↦ rw same e
    | no other ↦ below (omega arith)
  ]

  -- The hit is at the greatest index that has one.
  pub record Hit (n : ℕ) (f : ℕ → Option B) (b : B) : Type ℓ where
    pub index : ℕ
    pub below : index < n
    pub found : f index ≡ some b
    pub later : (j : ℕ) → index < j → j < n → f j ≡ none

  pub scan_down-Hit : (n : ℕ) (f : ℕ → Option B) (b : B) → scan_down n f ≡ some b → Hit n f b
  unfolding scan_down
  scan_down-Hit zero f b h = elim (Option-cases (f 0)) [ inl e ↦ cc | inr e ↦ cc ]
  scan_down-Hit (suc n) f b h = elim (Option-cases (f n)) [
    | inl e ↦
        let r : Hit n f b = scan_down-Hit n f b (ground arith) in
        record {
          index = r.index;
          below = omega (arith, r.below);
          found = r.found;
          later = λ j lo hi. at_or_below f n j e hi (r.later j lo);
        }
    | inr (b', e) ↦ record {
      index = n;
      below = omega arith;
      found = ground arith;
      later = λ j lo hi. absurd (omega arith);
    }
  ]

  pub scan_down-none :
      (n : ℕ) (f : ℕ → Option B) → scan_down n f ≡ none → (j : ℕ) → j < n → f j ≡ none
  unfolding scan_down
  scan_down-none zero f h j lt = absurd (omega arith)
  scan_down-none (suc n) f h j lt = elim (Option-cases (f n)) [
    | inl e ↦ at_or_below f n j e lt (scan_down-none n f (ground arith) j)
    | inr (b, e) ↦ cc
  ]
