-- ===== src/Base/Bits/Step.antt =====
-- The lowest binary digit of `|` and `&`. The native operations are defined by a recursion on digits
-- that is cut off after as many rounds as the first number has units: more rounds change nothing.
use Prim.Native.Nat.{
  ℕ, zero, suc, ◌+◌, ◌*◌, ◌/◌, ◌%◌, ◌≤◌, min, max, bit_and, bit_or, digits, bit_and-bitwise,
  bit_or-bitwise,
}
use mathlib.Core.Path.{◌≡◌, refl, sym, ap, ◌∙◌}
use native.Mathlib.Decide.{dec_lt}
use native.Mathlib.Omega.{arith}

module _ (last : ℕ → ℕ) (op : ℕ → ℕ → ℕ) where
  abbrev rounds : ℕ → ℕ → ℕ → ℕ
  rounds = digits last op

  one_more : (n a b : ℕ) → a ≤ n → rounds (suc n) a b ≡ rounds n a b
  one_more n zero b h = at_zero n
    where
      at_zero : (k : ℕ) → rounds (suc k) zero b ≡ rounds k zero b
      at_zero zero = refl
      at_zero (suc k) = refl
  one_more zero (suc a) b h = absurd (omega arith)
  one_more (suc n) (suc a) b h =
      ap (λ (d : ℕ). d * 2 + op (suc a % 2) (b % 2)) (one_more n (suc a / 2) (b / 2) (omega arith))

  settled : (n a b : ℕ) → a ≤ n → rounds n a b ≡ rounds a a b
  settled zero zero b h = refl
  settled zero (suc a) b h = absurd (omega arith)
  settled (suc n) a b h = elim (dec_lt n a) [
    | yes top ↦ ap (λ (k : ℕ). rounds k a b) {x = suc n} {y = a} (omega arith)
    | no low ↦ one_more n a b (omega arith) ∙ settled n a b (omega arith)
  ]

  lowest :
      (a b : ℕ)
      → rounds (suc a) (suc a) b
        ≡ rounds (suc a / 2) (suc a / 2) (b / 2) * 2 + op (suc a % 2) (b % 2)
  lowest a b =
      ap (λ (d : ℕ). d * 2 + op (suc a % 2) (b % 2)) (settled a (suc a / 2) (b / 2) (omega arith))

pub bit_or_step : (a b : ℕ) → bit_or a b ≡ bit_or (a / 2) (b / 2) * 2 + max (a % 2) (b % 2)
bit_or_step zero b = bit_or-bitwise zero b ∙ omega (arith, bit_or-bitwise zero (b / 2))
bit_or_step (suc a) b =
    bit_or-bitwise (suc a) b
    ∙ lowest (λ y. y) max a b
    ∙ ap (λ (d : ℕ). d * 2 + max (suc a % 2) (b % 2)) (sym (bit_or-bitwise (suc a / 2) (b / 2)))

pub bit_and_step : (a b : ℕ) → bit_and a b ≡ bit_and (a / 2) (b / 2) * 2 + min (a % 2) (b % 2)
bit_and_step zero b = bit_and-bitwise zero b ∙ omega (arith, bit_and-bitwise zero (b / 2))
bit_and_step (suc a) b =
    bit_and-bitwise (suc a) b
    ∙ lowest (λ y. zero) min a b
    ∙ ap (λ (d : ℕ). d * 2 + min (suc a % 2) (b % 2)) (sym (bit_and-bitwise (suc a / 2) (b / 2)))
