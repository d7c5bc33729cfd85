-- ===== src/Signal/Sets.antt =====
-- Signal sets of src/kernel/system/signal.c: what adding and removing a signal does to every signal.
use native.Mathlib.Nat.{one-le-pow, pow-le-pow_right}
use hos.Base.{
  all_ones, ℕ, ◌-◌, ◌*◌, ◌^◌, ◌<◌, ◌≤◌, ◌≡◌, true, false, leb, ◌||◌, ◌==◌, if◌then◌else◌, arith,
}
use hos.Base.Bits.{
  bit, bit-le-one, bit-bit_or, bit-bit_and, bit-pow, bit-complement, bit-zero, bit-ones,
  bit_and-pow, bit_or-lt, bit_and-lt,
}
use hos.Signal.{
  SigSet, word_of, bit_of, bit_check, sigaddset, sigdelset, sigismember, sigemptyset, sigfillset,
}

pub bit_check-bit : (v b : ℕ) → bit_check v b ≡ (bit v b == 1)
bit_check-bit v b = ground (arith, bit_and-pow v b, bit-le-one v b, one-le-pow b 2, cases)
  where
    cases : (bit v b ≡ 0) → bit v b * 2 ^ b ≡ 0
    cases e = rw e (omega arith)

pow-lt : (n : ℕ) → 2 ^ bit_of n < 2 ^ 32
pow-lt n =
    omega (arith, pow-le-pow_right {n = 2} (omega arith) {i = bit_of n} {j = 31} (omega arith))

pub sigismember-bit :
    (s : SigSet) (n : ℕ) → sigismember s n ≡ (bit (s.sig (word_of n)) (bit_of n) == 1)
unfolding sigismember
sigismember-bit s n = bit_check-bit (s.sig (word_of n)) (bit_of n)

position-injective : (n k : ℕ) → 1 ≤ n → 1 ≤ k → word_of n ≡ word_of k → bit_of n ≡ bit_of k → n ≡ k
position-injective n k p q w b = ground arith

-- Adding a signal makes that signal a member and changes no other.
pub sigismember-sigaddset :
    (s : SigSet) (n k : ℕ)
    → 1 ≤ n
    → 1 ≤ k
    → sigismember (sigaddset s n) k ≡ ((n == k) || sigismember s k)
unfolding sigaddset
sigismember-sigaddset s n k p q = ground (
  arith,
  sigismember-bit s k,
  sigismember-bit (sigaddset s n) k,
  bit-bit_or (s.sig (word_of n)) (2 ^ bit_of n) (bit_of k),
  bit-pow (bit_of n) (bit_of k),
  bit-le-one (s.sig (word_of n)) (bit_of k),
  position-injective n k p q,
)

pub sigismember-sigdelset :
    (s : SigSet) (n k : ℕ)
    → 1 ≤ n
    → 1 ≤ k
    → sigismember (sigdelset s n) k ≡ (if n == k then false else sigismember s k)
unfolding sigdelset
sigismember-sigdelset s n k p q = ground (
  arith,
  sigismember-bit s k,
  sigismember-bit (sigdelset s n) k,
  bit-bit_and (s.sig (word_of n)) (all_ones - 2 ^ bit_of n) (bit_of k),
  bit-complement 32 (2 ^ bit_of n) (bit_of k) (pow-lt n) (omega arith),
  bit-pow (bit_of n) (bit_of k),
  bit-le-one (s.sig (word_of n)) (bit_of k),
  position-injective n k p q,
)

-- The words of a set are 32 bits wide.
abbrev pub IsWords : SigSet → Type 0
IsWords s = (i : ℕ) → s.sig i < 2 ^ 32

pub sigaddset-IsWords : (s : SigSet) (n : ℕ) → IsWords s → IsWords (sigaddset s n)
unfolding sigaddset
sigaddset-IsWords s n h i =
    ground (arith, h i, bit_or-lt 32 (s.sig (word_of n)) (2 ^ bit_of n) (h (word_of n)) (pow-lt n))

pub sigdelset-IsWords : (s : SigSet) (n : ℕ) → IsWords s → IsWords (sigdelset s n)
unfolding sigdelset
sigdelset-IsWords s n h i =
    ground (arith, h i, bit_and-lt 32 (s.sig (word_of n)) (all_ones - 2 ^ bit_of n) (h (word_of n)))

pub sigismember-sigemptyset :
    (s : SigSet) (k : ℕ)
    → 1 ≤ k
    → sigismember (sigemptyset s) k ≡ (if leb k 32 then false else sigismember s k)
unfolding sigemptyset
sigismember-sigemptyset s k p =
    ground (arith, sigismember-bit s k, sigismember-bit (sigemptyset s) k, bit-zero (bit_of k))

sigismember-sigfillset :
    (s : SigSet) (k : ℕ)
    → 1 ≤ k
    → sigismember (sigfillset s) k ≡ (if leb k 32 then true else sigismember s k)
unfolding sigfillset
sigismember-sigfillset s k p = ground (
  arith,
  sigismember-bit s k,
  sigismember-bit (sigfillset s) k,
  bit-ones 32 (bit_of k) (omega arith),
)
