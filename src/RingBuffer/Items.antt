-- ===== src/RingBuffer/Items.antt =====
-- The entries of a ring buffer as a list, the oldest first.
use hos.Base.{
  store, ℕ, zero, suc, ◌+◌, ◌-◌, ◌<◌, ◌≤◌, ◌≡◌, ◌≢◌, refl, ap, sym, ◌∙◌, false, ltb, ◌==◌,
  if◌then◌else◌, arith, List, [], ◌∷◌, ◌++◌,
}
use hos.RingBuffer.{step}

-- The index `n` steps behind `r`.
abbrev pub at : ℕ → ℕ → ℕ → ℕ
at size r n = if ltb (r + n) size then r + n else r + n - size

step-lt : (size r : ℕ) → r < size → step size r < size
step-lt size r h = ground arith

at-step : (size r n : ℕ) → r < size → n + 1 ≤ size → at size (step size r) n ≡ at size r (suc n)
at-step size r n h k = ground arith

module _ {A : Type 0} where
  -- The `n` entries from index `r` on.
  abbrev pub items : (ℕ → A) → ℕ → ℕ → ℕ → List A
  items buffer size r zero = []
  items buffer size r (suc n) = buffer r ∷ items buffer size (step size r) n

  pub items-snoc :
      (buffer : ℕ → A) (size r n : ℕ)
      → r < size
      → n < size
      → items buffer size r (suc n) ≡ items buffer size r n ++ (buffer (at size r n) ∷ [])
  items-snoc buffer size r zero h k = ap (λ i. buffer i ∷ []) (ground arith)
  items-snoc buffer size r (suc n) h k =
      ap (λ l. buffer r ∷ l)
        (items-snoc buffer size (step size r) n (step-lt size r h) (omega arith)
          ∙ ap (λ i. items buffer size (step size r) n ++ (buffer i ∷ []))
              (at-step size r n h (omega arith)))

  pub items-store :
      (buffer : ℕ → A) (size r n w : ℕ) (v : A)
      → r < size
      → n ≤ size
      → ((i : ℕ) → i < n → at size r i ≢ w)
      → items (store buffer w v) size r n ≡ items buffer size r n
  items-store buffer size r zero w v h k apart = refl
  items-store buffer size r (suc n) w v h k apart =
      let first : at size r 0 ≡ r = ground arith in
      let e : (w == r) ≡ false = ground (arith, apart 0 (omega arith)) in
      rw e (
        ap (λ l. buffer r ∷ l)
          (items-store buffer size (step size r) n w v (step-lt size r h) (omega arith)
            (λ i p e'. apart (suc i) (omega arith) (sym (at-step size r i h (omega arith)) ∙ e'))))
