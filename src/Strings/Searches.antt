-- ===== src/Strings/Searches.antt =====
-- `strchr` and `memchr` of src/kernel/misc/string.c.
use hos.Base.{
  ℕ, zero, suc, ◌+◌, ◌-◌, ◌%◌, ◌<◌, ◌≡◌, ◌≢◌, refl, sym, ap, ◌∙◌, true, false, ◌||◌, ◌==◌, arith,
  Nat-cases, inl, inr, some,
}
use hos.Strings.{Bytes, strchr}
use hos.Strings.{memchr}
use hos.Strings.Terminated.{IsString, IsString-head, IsString-end, IsString-tail}

-- The first of the addresses from `s` on, `k` of them, with the byte `c`, or 0 where none has it.
pub data FirstByte (m : Bytes) (s k c : ℕ) (r : ℕ) : Type 0 where
  found :
      (i : ℕ)
      → i < k
      → r ≡ s + i
      → m (s + i) ≡ c
      → ((j : ℕ) → j < i → m (s + j) ≢ c)
      → FirstByte m s k c r
  not_found : r ≡ 0 → ((j : ℕ) → j < k → m (s + j) ≢ c) → FirstByte m s k c r

FirstByte-here : (m : Bytes) (s k c : ℕ) → m s ≡ c → FirstByte m s (suc k) c s
FirstByte-here m s k c e =
    let at : s + 0 ≡ s = omega arith in
    found 0 (omega arith) (sym at) (ap m at ∙ e) (λ j lt. absurd (omega arith))

-- A byte in front that is another one.
not_in_front :
    (m : Bytes) (s i c : ℕ)
    → m s ≢ c
    → ((j : ℕ) → j < i → m (s + 1 + j) ≢ c)
    → (j : ℕ) → j < suc i
    → m (s + j) ≢ c
not_in_front m s i c ne rest j lt e = elim (Nat-cases j 0) [
  | inl z ↦ let at : s ≡ s + j = omega (arith, z) in ne (ap m at ∙ e)
  | inr nz ↦
      let at : s + 1 + (j - 1) ≡ s + j = omega (arith, nz) in
      rest (j - 1) (omega (arith, nz)) (ap m at ∙ e)
]

FirstByte-later :
    (m : Bytes) (s k c r : ℕ) → m s ≢ c → FirstByte m (s + 1) k c r → FirstByte m s (suc k) c r
FirstByte-later m s k c r ne (found i lt at e before) =
    let place : s + 1 + i ≡ s + suc i = omega arith in
    found (suc i) (omega arith) (at ∙ place) (sym (ap m place) ∙ e) (not_in_front m s i c ne before)
FirstByte-later m s k c r ne (not_found nil before) = not_found nil (not_in_front m s k c ne before)

-- `memchr` gives the first of the `n` addresses with the byte, and NULL where none has it.
pub memchr-FirstByte : (n ptr ch : ℕ) (m : Bytes) → FirstByte m ptr n (ch % 256) (memchr ptr ch n m)
unfolding memchr
memchr-FirstByte zero ptr ch m = not_found refl (λ j lt. absurd (omega arith))
memchr-FirstByte (suc n) ptr ch m = elim (Nat-cases (m ptr) (ch % 256)) [
  | inl e ↦
      let here : (m ptr == ch % 256) ≡ true = ground (arith, e) in
      rw here (FirstByte-here m ptr n (ch % 256) e)
  | inr ne ↦
      let other : (m ptr == ch % 256) ≡ false = ground (arith, ne) in
      rw other (
        FirstByte-later m ptr n (ch % 256) (memchr (ptr + 1) ch n m) ne
          (memchr-FirstByte n (ptr + 1) ch m))
]

-- With fuel for a string of `k` bytes `strchr` ends, with the first place of the byte in the string
-- and its terminator, and NULL where it is not there.
pub strchr-FirstByte :
    (fuel s k ch : ℕ) (m : Bytes)
    → k < fuel
    → IsString m s k
    → (r : ℕ) × (strchr fuel s ch m ≡ some r) × FirstByte m s (suc k) (ch % 256) r
unfolding strchr
strchr-FirstByte zero s k ch m enough str = absurd (omega arith)
strchr-FirstByte (suc fuel) s zero ch m enough str = elim (Nat-cases (m s) (ch % 256)) [
  | inl e ↦
      let here : (m s == ch % 256) ≡ true = ground (arith, e) in
      let stop : ((m s == 0) || (m s == ch % 256)) ≡ true = ground (arith, e) in
      (s, rw stop (rw here refl), FirstByte-here m s 0 (ch % 256) e)
  | inr ne ↦
      let other : (m s == ch % 256) ≡ false = ground (arith, ne) in
      let stop : ((m s == 0) || (m s == ch % 256)) ≡ true = ground (arith, IsString-end m s str) in
      (
        0,
        rw stop (rw other refl),
        not_found refl (not_in_front m s 0 (ch % 256) ne (λ j lt. absurd (omega arith))),
      )
]
strchr-FirstByte (suc fuel) s (suc k) ch m enough str = elim (Nat-cases (m s) (ch % 256)) [
  | inl e ↦
      let here : (m s == ch % 256) ≡ true = ground (arith, e) in
      let stop : ((m s == 0) || (m s == ch % 256)) ≡ true = ground (arith, e) in
      (s, rw stop (rw here refl), FirstByte-here m s (suc k) (ch % 256) e)
  | inr ne ↦
      let go_on : ((m s == 0) || (m s == ch % 256)) ≡ false =
        ground (arith, ne, IsString-head m s k str) in
      let (r, runs, first) =
        strchr-FirstByte fuel (s + 1) k ch m (omega arith) (IsString-tail m s k str) in
      (r, rw go_on runs, FirstByte-later m s (suc k) (ch % 256) r ne first)
]
