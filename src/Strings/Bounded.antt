-- ===== src/Strings/Bounded.antt =====
-- `strncpy` of src/kernel/misc/string.c.
use hos.Base.{
  ℕ, zero, suc, ◌+◌, ◌-◌, ◌<◌, ◌≤◌, ◌≡◌, refl, ap, ◌∙◌, store, true, false, ◌⊎◌, leb, ◌==◌,
  if◌then◌else◌, arith, Bool-cases, inl, inr,
}
use hos.Strings.{Bytes, copy_up, strncpy_copy, strncpy}
use hos.Strings.Bytes.{is_within, moved, copy_up-moved, fill-within}
use hos.Strings.Terminated.{IsString, IsString-head, IsString-end, IsString-store}

-- The first loop takes the whole count.
strncpy_copy-whole :
    (n k dst src : ℕ) (m : Bytes)
    → n ≤ k
    → (dst + n ≤ src) ⊎ (src + k < dst)
    → IsString m src k
    → strncpy_copy n dst src m ≡ (0, dst + n, copy_up n dst src m)
unfolding strncpy_copy copy_up
strncpy_copy-whole zero k dst src m le apart str =
    let at : dst ≡ dst + 0 = omega arith in ap (λ d. (0, d, m)) at
strncpy_copy-whole (suc n) zero dst src m le apart str = absurd (omega arith)
strncpy_copy-whole (suc n) (suc k) dst src m le apart str =
    let go_on : (m src == 0) ≡ false = ground (arith, IsString-head m src k str) in
    let at : dst + 1 + n ≡ dst + suc n = omega arith in
    let rest =
      strncpy_copy-whole n k (dst + 1) (src + 1) (store m dst (m src)) (omega arith)
        (elim apart [ inl e ↦ inl (omega arith) | inr e ↦ inr (omega arith) ])
        (IsString-store m dst src k (m src)
          (elim apart [ inl e ↦ inl (omega arith) | inr e ↦ inr e ]) str) in
    rw go_on (rest ∙ ap (λ d. (0, d, copy_up n (dst + 1) (src + 1) (store m dst (m src)))) at)

-- The first loop meets the terminator.
strncpy_copy-ended :
    (n k dst src : ℕ) (m : Bytes)
    → k < n
    → (dst + k < src) ⊎ (src + k < dst)
    → IsString m src k
    → strncpy_copy n dst src m ≡ (n - k, dst + suc k, copy_up (suc k) dst src m)
unfolding strncpy_copy copy_up
strncpy_copy-ended zero k dst src m lt apart str = absurd (omega arith)
strncpy_copy-ended (suc n) zero dst src m lt apart str =
    let stop : (m src == 0) ≡ true = ground (arith, IsString-end m src str) in
    let left : suc n - 0 ≡ suc n = omega arith in rw stop (rw left refl)
strncpy_copy-ended (suc n) (suc k) dst src m lt apart str =
    let go_on : (m src == 0) ≡ false = ground (arith, IsString-head m src k str) in
    let at : dst + 1 + suc k ≡ dst + suc (suc k) = omega arith in
    let left : suc n - suc k ≡ n - k = omega arith in
    let rest =
      strncpy_copy-ended n k (dst + 1) (src + 1) (store m dst (m src)) (omega arith)
        (elim apart [ inl e ↦ inl (omega arith) | inr e ↦ inr (omega arith) ])
        (IsString-store m dst src k (m src)
          (elim apart [ inl e ↦ inl (omega arith) | inr e ↦ inr e ]) str) in
    rw go_on (rest ∙ rw at (rw left refl))

-- What `strncpy` is to leave at `x` for a string of `k` bytes.
abbrev pub padded : ℕ → ℕ → ℕ → ℕ → Bytes → ℕ → ℕ
padded dst src n k m x =
    if is_within dst n x then (if leb (x - dst) k then m (src + (x - dst)) else 0) else m x

-- With a string of `k` bytes at the source that does not meet the destination, `strncpy` returns
-- the destination and writes just `n` bytes there: those of the string with its terminator, as far as
-- they go, and zeros behind them. No other byte changes.
pub strncpy-padded :
    (dst src n k : ℕ) (m : Bytes) (x : ℕ)
    → (dst + n ≤ src) ⊎ (src + k < dst)
    → IsString m src k
    → ((strncpy dst src n m).0 ≡ dst) × ((strncpy dst src n m).1 x ≡ padded dst src n k m x)
unfolding strncpy
strncpy-padded dst src n k m x apart str = (
  refl,
  elim (Bool-cases (leb n k)) [
    | inl t ↦
        let le : n ≤ k = ground (arith, t) in
        rw (strncpy_copy-whole n k dst src m le apart str) (
          copy_up-moved n dst src m x
            (elim apart [ inl e ↦ inl (omega arith) | inr e ↦ inr (omega arith) ])
          ∙ padded_whole dst src n k m x le)
    | inr f ↦
        let lt : k < n = ground (arith, f) in
        let some_left : (n - k == 0) ≡ false = ground (arith, lt) in
        rw
          (strncpy_copy-ended n k dst src m lt
            (elim apart [ inl e ↦ inl (omega arith) | inr e ↦ inr e ]) str)
          (rw some_left (
            fill-within (n - k - 1) (dst + suc k) 0 (copy_up (suc k) dst src m) x
            ∙ ap (λ b. if is_within (dst + suc k) (n - k - 1) x then 0 else b)
                (copy_up-moved (suc k) dst src m x
                  (elim apart [ inl e ↦ inl (omega arith) | inr e ↦ inr (omega arith) ]))
            ∙ padded_ended dst src n k m x lt))
  ],
)
  where
    padded_whole :
        (dst src n k : ℕ) (m : Bytes) (x : ℕ) → n ≤ k → moved dst src n m x ≡ padded dst src n k m x
    padded_whole dst src n k m x le = elim (Bool-cases (is_within dst n x)) [
      | inl t ↦ let short : leb (x - dst) k ≡ true = ground (arith, t, le) in rw t (rw short refl)
      | inr f ↦ rw f refl
    ]

    padded_ended :
        (dst src n k : ℕ) (m : Bytes) (x : ℕ)
        → k < n
        → (if is_within (dst + suc k) (n - k - 1) x then 0 else moved dst src (suc k) m x)
          ≡ padded dst src n k m x
    padded_ended dst src n k m x lt = elim (Bool-cases (is_within (dst + suc k) (n - k - 1) x)) [
      | inl t ↦
          let here : is_within dst n x ≡ true = ground (arith, t, lt) in
          let long : leb (x - dst) k ≡ false = ground (arith, t) in rw t (rw here (rw long refl))
      | inr f ↦ elim (Bool-cases (is_within dst (suc k) x)) [
        | inl t ↦
            let here : is_within dst n x ≡ true = ground (arith, t, lt) in
            let short : leb (x - dst) k ≡ true = ground (arith, t) in
            rw f (rw t (rw here (rw short refl)))
        | inr g ↦
            let out : is_within dst n x ≡ false = ground (arith, f, g, lt) in
            rw f (rw g (rw out refl))
      ]
    ]
