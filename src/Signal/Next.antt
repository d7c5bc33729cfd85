-- ===== src/Signal/Next.antt =====
-- `__next_signal` of src/kernel/system/signal.c: which signal it picks.
use hos.Base.{
  all_ones, ℕ, zero, suc, ◌+◌, ◌-◌, ◌*◌, ◌^◌, ◌<◌, ◌≤◌, ◌≡◌, refl, ap, ◌∙◌, true, false, arith,
  Bool-cases, Nat-cases, leb, inl, inr, ◌⊎◌, ◌↔◌, ◌≢◌, sym,
}
use hos.Base.Bits.{bit, bit-le-one, bit-bit_and, bit-complement, bit-zero, eq_of_bits, bit_and-lt}
use hos.Signal.{
  SigSet, Pending, word_of, bit_of, bit_check, bitmask_clear, sigismember, find_from,
  find_first_non_zero, next_signal,
}
use hos.Signal.Sets.{bit_check-bit, sigismember-bit, IsWords}

-- `find_first_non_zero` from bit `i` on: the first set bit of `left` bits, or 0 and none is set.
find_from-first :
    (left i v : ℕ)
    → (((j : ℕ) → i ≤ j → j < i + left → bit v j ≡ 0))
      ⊎ ((i ≤ find_from left i v)
          × (find_from left i v < i + left)
          × (bit v (find_from left i v) ≡ 1)
          × ((j : ℕ) → i ≤ j → j < find_from left i v → bit v j ≡ 0))
unfolding find_from
find_from-first zero i v = inl (λ j p q. omega arith)
find_from-first (suc left) i v = elim (Bool-cases (bit_check v i)) [
  | inl set ↦
      rw set
        (inr (omega arith, omega arith, ground (arith, bit_check-bit v i), λ j p q. omega arith))
  | inr clear ↦ rw clear (elim (find_from-first left (i + 1) v) [
    | inl none ↦ inl (λ j p q. ground (arith, none j, bit_check-bit v i, bit-le-one v i))
    | inr (low, high, set, first) ↦ inr (
      omega arith,
      omega arith,
      set,
      λ j p q. ground (arith, first j, bit_check-bit v i, bit-le-one v i),
    )
  ])
]

-- The signal `k` is pending and not blocked.
abbrev pub IsDeliverable : Pending → SigSet → ℕ → Type 0
IsDeliverable p mask k = (sigismember p.signal k ≡ true) × (sigismember mask k ≡ false)

-- The bits of a word without those of a mask.
bit-bitmask_clear :
    (v m j : ℕ)
    → m < 2 ^ 32
    → j < 32
    → (bit (bitmask_clear v m) j ≡ 1) ↔ ((bit v j ≡ 1) × (bit m j ≡ 0))
bit-bitmask_clear v m j h p = ground (
  arith,
  bit-bit_and v (all_ones - m) j,
  bit-complement 32 m j h p,
  bit-le-one v j,
  bit-le-one m j,
)

nonzero_first :
    (x : ℕ)
    → x < 2 ^ 32
    → x ≢ 0
    → (find_first_non_zero x < 32)
      × (bit x (find_first_non_zero x) ≡ 1)
      × ((j : ℕ) → j < find_first_non_zero x → bit x j ≡ 0)
unfolding find_first_non_zero
nonzero_first x h ne = elim (find_from-first 32 0 x) [
  | inl none ↦ absurd (
      ne (
        eq_of_bits 32 x 0 h (omega arith)
          (λ j p. none j (omega arith) (omega arith) ∙ sym (bit-zero j))))
  | inr (low, high, set, first) ↦ (omega arith, set, λ j p. first j (omega arith) p)
]

not_both : (v : ℕ) → v ≡ 0 → v ≢ 1
not_both v e e' = omega arith

-- In the word `w` with the bit of the signal `k`, deliverable means set and not masked.
IsDeliverable-bit :
    (p : Pending) (mask : SigSet) (k w j : ℕ)
    → IsWords mask
    → word_of k ≡ w
    → bit_of k ≡ j
    → IsDeliverable p mask k ↔ (bit (bitmask_clear (p.signal.sig w) (mask.sig w)) j ≡ 1)
IsDeliverable-bit p mask k w j h at_word at_bit = rw (sym at_word) (
    rw (sym at_bit) (
      ground (
        arith,
        sigismember-bit p.signal k,
        sigismember-bit mask k,
        bit-bitmask_clear (p.signal.sig (word_of k)) (mask.sig (word_of k)) (bit_of k)
            (h (word_of k)) (omega arith),
        bit-le-one (mask.sig (word_of k)) (bit_of k),
      )))

-- The lowest of the signals 1 to 64 that are deliverable, or 0 and there is none.
abbrev pub NextSpec : Pending → SigSet → ℕ → Type 0
NextSpec p mask r =
    ((r ≡ 0) × ((k : ℕ) → 1 ≤ k → k ≤ 64 → ¬ IsDeliverable p mask k))
    ⊎ ((1 ≤ r)
        × (r ≤ 64)
        × IsDeliverable p mask r
        × ((k : ℕ) → 1 ≤ k → k < r → ¬ IsDeliverable p mask k))

abbrev leftover : Pending → SigSet → ℕ → ℕ
leftover p mask w = bitmask_clear (p.signal.sig w) (mask.sig w)

-- A word that is left empty has no deliverable signal.
none_in_word :
    (p : Pending) (mask : SigSet) (w k : ℕ)
    → IsWords mask
    → leftover p mask w ≡ 0
    → 32 * w < k
    → k ≤ 32 * w + 32
    → ¬ IsDeliverable p mask k
none_in_word p mask w k h empty low high d =
    let at_word : word_of k ≡ w = ground arith in
    let set = (IsDeliverable-bit p mask k w (bit_of k) h at_word refl).0 d in
    not_both (bit (leftover p mask w) (bit_of k))
      (ap (λ t. bit t (bit_of k)) empty ∙ bit-zero (bit_of k)) set

-- The first bit of a word that is not empty is its lowest deliverable signal.
first_in_word :
    (p : Pending) (mask : SigSet) (w : ℕ)
    → IsWords p.signal
    → IsWords mask
    → leftover p mask w ≢ 0
    → (find_first_non_zero (leftover p mask w) < 32)
      × IsDeliverable p mask (32 * w + 1 + find_first_non_zero (leftover p mask w))
      × ((k : ℕ)
          → 32 * w < k
          → k < 32 * w + 1 + find_first_non_zero (leftover p mask w)
          → ¬ IsDeliverable p mask k)
first_in_word p mask w hp hm ne =
    let (small, set, first) =
      nonzero_first (leftover p mask w)
        (bit_and-lt 32 (p.signal.sig w) (all_ones - mask.sig w) (hp w)) ne in
    let r : ℕ = 32 * w + 1 + find_first_non_zero (leftover p mask w) in
    (
      small,
      (IsDeliverable-bit p mask r w (find_first_non_zero (leftover p mask w)) hm (ground arith)
            (ground arith)).1
          set,
      λ k low high d.
          not_both (bit (leftover p mask w) (bit_of k)) (first (bit_of k) (ground arith))
            ((IsDeliverable-bit p mask k w (bit_of k) hm (ground arith) refl).0 d),
    )

-- With 32-bit words `__next_signal` returns the lowest of the signals 1 to 64 that is pending and not
-- blocked, and 0 exactly where there is none.
pub next_signal-NextSpec :
    (p : Pending) (mask : SigSet)
    → IsWords p.signal
    → IsWords mask
    → NextSpec p mask (next_signal p mask)
unfolding next_signal
next_signal-NextSpec p mask hp hm = elim (Nat-cases (leftover p mask 0) 0) [
  | inr some_low ↦
      let (small, deliverable, first) = first_in_word p mask 0 hp hm some_low in
      let e : next_signal p mask ≡ 0 + 1 + find_first_non_zero (leftover p mask 0) = ground arith in
      rw e (inr (omega arith, omega arith, deliverable, λ k p q. first k (omega arith) q))
  | inl no_low ↦ elim (Nat-cases (leftover p mask 1) 0) [
    | inr some_high ↦
        let (small, deliverable, first) = first_in_word p mask 1 hp hm some_high in
        let e : next_signal p mask ≡ 32 + 1 + find_first_non_zero (leftover p mask 1) =
          ground arith in
        rw e (
          inr (
            omega arith,
            omega arith,
            deliverable,
            λ k p' q. elim (Bool-cases (leb k 32)) [
              | inl low ↦ none_in_word p mask 0 k hm no_low (omega arith) (ground arith)
              | inr high ↦ first k (ground arith) q
            ],
          ))
    | inl no_high ↦ inl (
      ground arith,
      λ k p' q. elim (Bool-cases (leb k 32)) [
        | inl low ↦ none_in_word p mask 0 k hm no_low (omega arith) (ground arith)
        | inr high ↦ none_in_word p mask 1 k hm no_high (ground arith) (ground arith)
      ],
    )
  ]
]
