-- ===== src/Base/Bits.antt =====
-- Words as rows of bits: what `|`, `&`, `~` and a shifted one do to each bit, at every width.
mod Step
use Step.{bit_or_step, bit_and_step}
use Prim.Native.Nat.{
  ℕ, zero, suc, ◌+◌, ◌-◌, ◌*◌, ◌/◌, ◌%◌, ◌^◌, ◌≤◌, ◌<◌, min, max, bit_and, bit_or, bit_and-bitwise,
}
use mathlib.Core.Path.{◌≡◌, refl, sym, ap, ap₂, ◌∙◌}
use mathlib.Core.Logic.{◌≢◌, ◌↔◌, ◌⊎◌, inl, inr}
use mathlib.Core.Bool.{Bool, true, false}
use native.Mathlib.Nat.{pow-suc, one-le-pow}
use native.Mathlib.Omega.{arith}
use hos.Base.Tests.{◌==◌, if◌then◌else◌}

-- Bit `i` of `a`, as 0 or 1.
pub bit : ℕ → ℕ → ℕ
bit a zero = a % 2
bit a (suc i) = bit (a / 2) i

pub bit-le-one : (a i : ℕ) → bit a i ≤ 1
unfolding bit
bit-le-one a zero = omega arith
bit-le-one a (suc i) = bit-le-one (a / 2) i

pub bit-zero : (i : ℕ) → bit 0 i ≡ 0
unfolding bit
bit-zero zero = refl
bit-zero (suc i) = bit-zero i

half-bit_or : (a b : ℕ) → bit_or a b / 2 ≡ bit_or (a / 2) (b / 2)
half-bit_or a b = omega (arith, bit_or_step a b)

half-bit_and : (a b : ℕ) → bit_and a b / 2 ≡ bit_and (a / 2) (b / 2)
half-bit_and a b = omega (arith, bit_and_step a b)

zero-bit_and : (b : ℕ) → bit_and 0 b ≡ 0
zero-bit_and b = bit_and-bitwise 0 b

pub bit-bit_or : (a b i : ℕ) → bit (bit_or a b) i ≡ max (bit a i) (bit b i)
unfolding bit
bit-bit_or a b zero = omega (arith, bit_or_step a b)
bit-bit_or a b (suc i) = rw half-bit_or (bit-bit_or (a / 2) (b / 2) i)

pub bit-bit_and : (a b i : ℕ) → bit (bit_and a b) i ≡ min (bit a i) (bit b i)
unfolding bit
bit-bit_and a b zero = omega (arith, bit_and_step a b)
bit-bit_and a b (suc i) = rw half-bit_and (bit-bit_and (a / 2) (b / 2) i)

half-pow : (j : ℕ) → 2 ^ suc j / 2 ≡ 2 ^ j
half-pow j = omega (arith, pow-suc 2 j)

pub bit-pow : (j i : ℕ) → bit (2 ^ j) i ≡ (if i == j then 1 else 0)
unfolding bit
bit-pow zero zero = refl
bit-pow zero (suc i) = ground (arith, bit-zero i)
bit-pow (suc j) zero = ground (arith, pow-suc 2 j)
bit-pow (suc j) (suc i) = rw half-pow (bit-pow j i ∙ ground arith)

-- `~x` in `k` bits.
half-complement : (k x : ℕ) → x < 2 ^ suc k → (2 ^ suc k - 1 - x) / 2 ≡ 2 ^ k - 1 - x / 2
half-complement k x h = omega (arith, pow-suc 2 k)

pub bit-complement : (k x i : ℕ) → x < 2 ^ k → i < k → bit (2 ^ k - 1 - x) i ≡ 1 - bit x i
unfolding bit
bit-complement zero x i h p = absurd (omega arith)
bit-complement (suc k) x zero h p = omega (arith, pow-suc 2 k)
bit-complement (suc k) x (suc i) h p =
    rw (half-complement k x h)
      (bit-complement k (x / 2) i (omega (arith, pow-suc 2 k)) (omega arith))

pub bit_or-lt : (k a b : ℕ) → a < 2 ^ k → b < 2 ^ k → bit_or a b < 2 ^ k
bit_or-lt zero zero zero p q = omega arith
bit_or-lt zero zero (suc b) p q = absurd (omega arith)
bit_or-lt zero (suc a) b p q = absurd (omega arith)
bit_or-lt (suc k) a b p q = omega (
  arith,
  pow-suc 2 k,
  bit_or_step a b,
  bit_or-lt k (a / 2) (b / 2) (omega (arith, pow-suc 2 k)) (omega (arith, pow-suc 2 k)),
)

pub bit_and-lt : (k a b : ℕ) → a < 2 ^ k → bit_and a b < 2 ^ k
bit_and-lt zero zero b p = omega (arith, zero-bit_and b)
bit_and-lt zero (suc a) b p = absurd (omega arith)
bit_and-lt (suc k) a b p = omega (
  arith,
  pow-suc 2 k,
  bit_and_step a b,
  bit_and-lt k (a / 2) (b / 2) (omega (arith, pow-suc 2 k)),
)

zero_mask : (k w : ℕ) → w ≤ k → bit_and w 0 ≡ 0
zero_mask k zero le = zero-bit_and 0
zero_mask zero (suc w) le = absurd (omega arith)
zero_mask (suc k) (suc w) le =
    bit_and_step (suc w) 0 ∙ omega (arith, zero_mask k (suc w / 2) (omega arith))

-- `w & (1 << j)` is bit `j` in its place, so the C test of it is the test of that bit.
pub bit_and-pow : (w j : ℕ) → bit_and w (2 ^ j) ≡ bit w j * 2 ^ j
unfolding bit
bit_and-pow w zero = omega (arith, bit_and_step w 1, zero_mask (w / 2) (w / 2) (omega arith))
bit_and-pow w (suc j) =
    rw (bit_and_step w (2 ^ suc j), half-pow j, bit_and-pow (w / 2) j)
      (omega (arith, pow-suc 2 j, ap (λ (t : ℕ). bit (w / 2) j * t) (pow-suc 2 j)))

pub bit-ones : (k i : ℕ) → i < k → bit (2 ^ k - 1) i ≡ 1
bit-ones k i h =
    ap (λ (t : ℕ). bit t i) {x = 2 ^ k - 1} {y = 2 ^ k - 1 - 0} (omega arith)
    ∙ bit-complement k 0 i (one-le-pow k 2 (omega arith)) h
    ∙ omega (arith, bit-zero i)

pub ones-of_bits : (k w : ℕ) → w < 2 ^ k → ((i : ℕ) → i < k → bit w i ≡ 1) → w ≡ 2 ^ k - 1
unfolding bit
ones-of_bits zero w h all = omega arith
ones-of_bits (suc k) w h all = omega (
  arith,
  pow-suc 2 k,
  all 0 (omega arith),
  ones-of_bits k (w / 2) (omega (arith, pow-suc 2 k)) (λ i p. all (suc i) (omega arith)),
)

-- Two words are equal when all their bits are.
pub eq_of_bits : (k a b : ℕ) → a < 2 ^ k → b < 2 ^ k → ((i : ℕ) → i < k → bit a i ≡ bit b i) → a ≡ b
unfolding bit
eq_of_bits zero a b p q all = omega arith
eq_of_bits (suc k) a b p q all = omega (
  arith,
  pow-suc 2 k,
  all 0 (omega arith),
  eq_of_bits k (a / 2) (b / 2) (omega (arith, pow-suc 2 k)) (omega (arith, pow-suc 2 k))
      (λ i r. all (suc i) (omega arith)),
)

-- A right shift by the page width goes through `&`.
halve : ℕ → ℕ → ℕ
halve zero a = a
halve (suc k) a = halve k (a / 2)

halve-bit_and : (k a b : ℕ) → halve k (bit_and a b) ≡ bit_and (halve k a) (halve k b)
unfolding halve
halve-bit_and zero a b = refl
halve-bit_and (suc k) a b = rw half-bit_and (halve-bit_and k (a / 2) (b / 2))

halve_twelve : (a : ℕ) → halve 12 a ≡ a / 2 ^ 12
unfolding halve
halve_twelve a = omega arith

pub bit_and-div_page : (a b : ℕ) → bit_and a b / 2 ^ 12 ≡ bit_and (a / 2 ^ 12) (b / 2 ^ 12)
bit_and-div_page a b =
    sym (halve_twelve (bit_and a b))
    ∙ halve-bit_and 12 a b
    ∙ ap₂ bit_and (halve_twelve a) (halve_twelve b)

-- A mask of ones keeps a number that fits.
pub bit_and-ones : (k a : ℕ) → a < 2 ^ k → bit_and a (2 ^ k - 1) ≡ a
bit_and-ones k a h =
    eq_of_bits k (bit_and a (2 ^ k - 1)) a (bit_and-lt k a (2 ^ k - 1) h) h
      (λ i p. omega (arith, bit-bit_and a (2 ^ k - 1) i, bit-ones k i p, bit-le-one a i))

-- A mask that ends in `k` zeros keeps the digits above them.
double-half : (m k : ℕ) → m * 2 ^ suc k / 2 ≡ m * 2 ^ k
double-half m k = omega (arith, ap (λ (t : ℕ). m * t) (pow-suc 2 k))

bit_and-halve : (k x m : ℕ) → bit_and x (m * 2 ^ k) ≡ bit_and (halve k x) m * 2 ^ k
unfolding halve
bit_and-halve zero x m = ap (bit_and x) {x = m * 2 ^ 0} {y = m} (omega arith) ∙ omega arith
bit_and-halve (suc k) x m =
    rw (bit_and_step x (m * 2 ^ suc k), double-half m k, bit_and-halve k (x / 2) m)
      (omega (
        arith,
        ap (λ (t : ℕ). m * t) (pow-suc 2 k),
        ap (λ (t : ℕ). bit_and (halve k (x / 2)) m * t) (pow-suc 2 k),
      ))

-- `x & 0xFFFFF000`.
pub bit_and_page : (x : ℕ) → x < 2 ^ 32 → bit_and x (2 ^ 32 - 4096) ≡ x / 2 ^ 12 * 2 ^ 12
bit_and_page x h =
    bit_and-halve 12 x (2 ^ 20 - 1)
    ∙ ap (λ (t : ℕ). t * 2 ^ 12)
        (ap (λ (t : ℕ). bit_and t (2 ^ 20 - 1)) (halve_twelve x)
          ∙ bit_and-ones 20 (x / 2 ^ 12) (omega arith))

halve-bit_or : (k a b : ℕ) → halve k (bit_or a b) ≡ bit_or (halve k a) (halve k b)
unfolding halve
halve-bit_or zero a b = refl
halve-bit_or (suc k) a b = rw half-bit_or (halve-bit_or k (a / 2) (b / 2))

below_pow : (a : ℕ) → a < 2 ^ a
below_pow zero = omega arith
below_pow (suc a) = omega (arith, pow-suc 2 a, below_pow a)

bit_or-zero : (a : ℕ) → bit_or a 0 ≡ a
bit_or-zero a =
    let small = below_pow a in
    eq_of_bits a (bit_or a 0) a (bit_or-lt a a 0 small (one-le-pow a 2 (omega arith))) small
      (λ i lt. omega (arith, bit-bit_or a 0 i, bit-zero i))

-- A number below a page is or-ed into the low bits.
pub bit_or-div_page : (a b : ℕ) → b < 2 ^ 12 → bit_or a b / 2 ^ 12 ≡ a / 2 ^ 12
bit_or-div_page a b small =
    let high : bit_or a b / 2 ^ 12 ≡ bit_or (a / 2 ^ 12) (b / 2 ^ 12) =
      sym (halve_twelve (bit_or a b))
      ∙ halve-bit_or 12 a b
      ∙ ap₂ bit_or (halve_twelve a) (halve_twelve b) in
    let none : b / 2 ^ 12 ≡ 0 = omega arith in
    high ∙ ap (bit_or (a / 2 ^ 12)) none ∙ bit_or-zero (a / 2 ^ 12)

pub bit_first : (a : ℕ) → bit a 0 ≡ a % 2
unfolding bit
bit_first a = refl

pub bit_seventh : (a : ℕ) → bit a 7 ≡ a / 2 ^ 7 % 2
unfolding bit
bit_seventh a = omega arith
