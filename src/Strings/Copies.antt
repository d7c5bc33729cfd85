-- ===== src/Strings/Copies.antt =====
-- Comparing blocks of bytes, and copies of strings of at most a number of bytes, in
-- src/kernel/misc/string.c.
use mathlib.Core.Path.{subst}
use hos.Base.{
  ℕ, zero, suc, ◌+◌, ◌-◌, ◌^◌, ◌<◌, ◌≤◌, ◌≡◌, refl, sym, ap, ◌∙◌, u32, true, false, not, ◌||◌, ◌⊎◌,
  ◌==◌, arith, Nat-cases, Bool-cases, inl, inr, ◌↔◌,
}
use hos.Strings.{Bytes, copy_up, memcpy, memcmp_loop, memcmp}
use hos.Strings.Bytes.{is_within, moved, copy_up-moved}

abbrev pub SameBytes : ℕ → ℕ → ℕ → Bytes → Type 0
SameBytes dst src n m = (i : ℕ) → i < n → m (dst + i) ≡ m (src + i)

-- The first bytes and the rest.
SameBytes-cons :
    (dst src n : ℕ) (m : Bytes)
    → m dst ≡ m src
    → SameBytes (dst + 1) (src + 1) n m
    → SameBytes dst src (suc n) m
SameBytes-cons dst src n m first rest i lt = elim (Nat-cases i 0) [
  | inl e ↦
      let d : dst + i ≡ dst = omega (arith, e) in
      let s : src + i ≡ src = omega (arith, e) in ap m d ∙ first ∙ sym (ap m s)
  | inr ne ↦
      let d : dst + i ≡ dst + 1 + (i - 1) = omega (arith, ne) in
      let s : src + i ≡ src + 1 + (i - 1) = omega (arith, ne) in
      ap m d ∙ rest (i - 1) (omega (arith, ne)) ∙ sym (ap m s)
]

SameBytes-tail :
    (dst src n : ℕ) (m : Bytes) → SameBytes dst src (suc n) m → SameBytes (dst + 1) (src + 1) n m
SameBytes-tail dst src n m same i lt =
    let d : dst + 1 + i ≡ dst + (i + 1) = omega arith in
    let s : src + 1 + i ≡ src + (i + 1) = omega arith in
    ap m d ∙ same (i + 1) (omega arith) ∙ sym (ap m s)

SameBytes-head : (dst src n : ℕ) (m : Bytes) → SameBytes dst src (suc n) m → m dst ≡ m src
SameBytes-head dst src n m same =
    let d : dst + 0 ≡ dst = omega arith in
    let s : src + 0 ≡ src = omega arith in sym (ap m d) ∙ same 0 (omega arith) ∙ ap m s

no_difference : (a b : ℕ) → a < 256 → b < 256 → u32 (a + (2 ^ 32 - b)) ≡ 0 → a ≡ b
no_difference a b x y e = omega arith

memcmp_loop-SameBytes :
    (n dst src : ℕ) (m : Bytes)
    → ((x : ℕ) → m x < 256)
    → memcmp_loop n dst src m ≡ 0
    → SameBytes dst src n m
unfolding memcmp_loop
memcmp_loop-SameBytes zero dst src m bytes e = λ i lt. absurd (omega arith)
memcmp_loop-SameBytes (suc n) dst src m bytes e =
    elim (Bool-cases ((n == 0) || not (m dst == m src))) [
      | inl t ↦
          let same : m dst ≡ m src =
            no_difference (m dst) (m src) (bytes dst) (bytes src) (sym (rw t refl) ∙ e) in
          SameBytes-cons dst src n m same (λ i lt. absurd (ground (arith, t, same, lt)))
      | inr f ↦
          SameBytes-cons dst src n m (ground (arith, f))
            (memcmp_loop-SameBytes n (dst + 1) (src + 1) m bytes (sym (rw f refl) ∙ e))
    ]

SameBytes-memcmp_loop :
    (n dst src : ℕ) (m : Bytes)
    → ((x : ℕ) → m x < 256)
    → SameBytes dst src n m
    → memcmp_loop n dst src m ≡ 0
unfolding memcmp_loop
SameBytes-memcmp_loop zero dst src m bytes same = refl
SameBytes-memcmp_loop (suc n) dst src m bytes same =
    let first = SameBytes-head dst src n m same in
    let zero_diff : u32 (m dst + (2 ^ 32 - m src)) ≡ 0 = omega (arith, first, bytes src) in
    elim (Bool-cases ((n == 0) || not (m dst == m src))) [
      | inl t ↦ rw t zero_diff
      | inr f ↦
          rw f
            (SameBytes-memcmp_loop n (dst + 1) (src + 1) m bytes (SameBytes-tail dst src n m same))
    ]

-- `memcmp` gives 0 for just those blocks that have the same bytes.
pub memcmp_iff :
    (dst src n : ℕ) (m : Bytes)
    → ((x : ℕ) → m x < 256)
    → (memcmp dst src n m ≡ 0) ↔ SameBytes dst src n m
unfolding memcmp
memcmp_iff dst src n m bytes = elim (Bool-cases (n == 0)) [
  | inl t ↦ rw t (λ e i lt. absurd (ground (arith, t, lt)), λ same. refl)
  | inr f ↦ rw f (memcmp_loop-SameBytes n dst src m bytes, SameBytes-memcmp_loop n dst src m bytes)
]

-- After a `memcpy` between blocks that do not meet, `memcmp` finds the two equal.
pub memcmp-memcpy :
    (dst src n : ℕ) (m : Bytes)
    → ((x : ℕ) → m x < 256)
    → (dst + n ≤ src) ⊎ (src + n ≤ dst)
    → memcmp dst src n (memcpy dst src n m).1 ≡ 0
unfolding memcpy
memcmp-memcpy dst src n m bytes apart =
    let copied = λ (x : ℕ). copy_up-moved n dst src m x (weaken apart) in
    (memcmp_iff dst src n (copy_up n dst src m)
        (λ x. subst (λ b. b < 256) (sym (copied x)) (moved_byte dst src n m x bytes))).1
      (λ i lt. copied (dst + i) ∙ moved_source dst src n i m lt apart ∙ sym (copied (src + i)))
  where
    weaken : (dst + n ≤ src) ⊎ (src + n ≤ dst) → (dst ≤ src) ⊎ (src + n ≤ dst)
    weaken (inl e) = inl (omega arith)
    weaken (inr e) = inr e

    moved_byte :
        (dst src n : ℕ) (m : Bytes) (x : ℕ) → ((x : ℕ) → m x < 256) → moved dst src n m x < 256
    moved_byte dst src n m x bytes = elim (Bool-cases (is_within dst n x)) [
      | inl t ↦ rw t (bytes (src + (x - dst)))
      | inr f ↦ rw f (bytes x)
    ]

    moved_source :
        (dst src n i : ℕ) (m : Bytes)
        → i < n
        → (dst + n ≤ src) ⊎ (src + n ≤ dst)
        → moved dst src n m (dst + i) ≡ moved dst src n m (src + i)
    moved_source dst src n i m lt apart =
        let here : is_within dst n (dst + i) ≡ true = ground (arith, lt) in
        let out : is_within dst n (src + i) ≡ false = ground (arith, lt, apart) in
        let same : src + (dst + i - dst) ≡ src + i = omega arith in rw here (rw out (ap m same))
