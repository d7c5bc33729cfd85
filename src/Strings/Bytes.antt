-- ===== src/Strings/Bytes.antt =====
-- What the functions on blocks of bytes of src/kernel/misc/string.c leave in memory.
use hos.Base.{
  ℕ, zero, suc, ◌+◌, ◌-◌, ◌≤◌, ◌≡◌, refl, ap, ◌∙◌, store, Bool, true, false, ◌&&◌, ◌||◌, ◌⊎◌, ltb,
  leb, ◌==◌, if◌then◌else◌, arith, Nat-cases, Bool-cases, inl, inr,
}
use hos.Strings.{Bytes, copy_up, copy_down, memmove, fill}

-- `x` is one of the `n` addresses from `p` on.
abbrev pub is_within : ℕ → ℕ → ℕ → Bool
is_within p n x = leb p x && ltb x (p + n)

-- The bytes at `src` all at once in the place of those at `dst`.
abbrev pub moved : ℕ → ℕ → ℕ → Bytes → Bytes
moved dst src n m x = if is_within dst n x then m (src + (x - dst)) else m x

pub copy_up-moved :
    (n dst src : ℕ) (m : Bytes) (x : ℕ)
    → (dst ≤ src) ⊎ (src + n ≤ dst)
    → copy_up n dst src m x ≡ moved dst src n m x
unfolding copy_up
copy_up-moved zero dst src m x apart =
    let out : is_within dst 0 x ≡ false = ground arith in rw out refl
copy_up-moved (suc n) dst src m x apart =
    let rest =
      copy_up-moved n (dst + 1) (src + 1) (store m dst (m src)) x
        (elim apart [ inl e ↦ inl (omega arith) | inr e ↦ inr (omega arith) ]) in
    elim (Bool-cases (is_within (dst + 1) n x)) [
      | inl t ↦
          let here : is_within dst (suc n) x ≡ true = ground (arith, t) in
          let same : src + 1 + (x - (dst + 1)) ≡ src + (x - dst) = ground (arith, t) in
          let other : (dst == src + (x - dst)) ≡ false = ground (arith, t, apart) in
          rest ∙ rw t (rw here (rw same (rw other refl)))
      | inr f ↦ elim (Nat-cases dst x) [
        | inl e ↦
            let here : is_within dst (suc n) x ≡ true = ground (arith, e) in
            let at : (dst == x) ≡ true = ground (arith, e) in
            let same : src ≡ src + (x - dst) = omega (arith, e) in
            rest ∙ rw f (rw here (rw at (ap m same)))
        | inr ne ↦
            let here : is_within dst (suc n) x ≡ false = ground (arith, f, ne) in
            let at : (dst == x) ≡ false = ground (arith, ne) in rest ∙ rw f (rw here (rw at refl))
      ]
    ]

pub copy_down-moved :
    (n dst src : ℕ) (m : Bytes) (x : ℕ)
    → src ≤ dst
    → copy_down n (dst + n - 1) (src + n - 1) m x ≡ moved dst src n m x
unfolding copy_down
copy_down-moved zero dst src m x le =
    let out : is_within dst 0 x ≡ false = ground arith in rw out refl
copy_down-moved (suc n) dst src m x le =
    let d : dst + suc n - 1 ≡ dst + n = omega arith in
    let s : src + suc n - 1 ≡ src + n = omega arith in
    let rest = copy_down-moved n dst src (store m (dst + n) (m (src + n))) x le in
    rw d (
      rw s (
        rest ∙ (elim (Bool-cases (is_within dst n x)) [
          | inl t ↦
              let here : is_within dst (suc n) x ≡ true = ground (arith, t) in
              let other : (dst + n == src + (x - dst)) ≡ false = ground (arith, t) in
              rw t (rw here (rw other refl))
          | inr f ↦ elim (Nat-cases (dst + n) x) [
            | inl e ↦
                let here : is_within dst (suc n) x ≡ true = ground (arith, e) in
                let at : (dst + n == x) ≡ true = ground (arith, e) in
                let same : src + n ≡ src + (x - dst) = omega (arith, e) in
                rw f (rw here (rw at (ap m same)))
            | inr ne ↦
                let here : is_within dst (suc n) x ≡ false = ground (arith, f, ne) in
                let at : (dst + n == x) ≡ false = ground (arith, ne) in rw f (rw here (rw at refl))
          ]
        ])))

-- `memmove` leaves in memory what a copy of all the bytes at once would, however the two blocks
-- overlap, and returns the destination.
pub memmove-moved :
    (dst src n : ℕ) (m : Bytes) (x : ℕ)
    → ((memmove dst src n m).0 ≡ dst) × ((memmove dst src n m).1 x ≡ moved dst src n m x)
unfolding memmove
memmove-moved dst src n m x = elim (Bool-cases (leb dst src || leb (src + n) dst)) [
  | inl t ↦ (
    refl,
    rw t (
        copy_up-moved n dst src m x (elim (Bool-cases (leb dst src)) [
          | inl e ↦ inl (ground (arith, e))
          | inr e ↦ inr (ground (arith, e, t))
        ])),
  )
  | inr f ↦ (refl, rw f (copy_down-moved n dst src m x (ground (arith, f))))
]

pub fill-within :
    (n dst value : ℕ) (m : Bytes) (x : ℕ)
    → fill n dst value m x ≡ (if is_within dst n x then value else m x)
unfolding fill
fill-within zero dst value m x = let out : is_within dst 0 x ≡ false = ground arith in rw out refl
fill-within (suc n) dst value m x =
    fill-within n (dst + 1) value (store m dst value) x ∙ ground arith
