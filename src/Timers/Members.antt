-- ===== src/Timers/Members.antt =====
-- The timers that a wheel holds, and those that have been called.
use mathlib.Core.Path.{subst}
use hos.Base.{
  ℕ, ◌≡◌, refl, sym, Bool, true, false, ◌&&◌, ◌⊎◌, ◌==◌, arith, Bool-cases, inl, inr, List, [], ◌∷◌,
  ◌++◌,
}
use hos.Timers.{Timer, put}

module _ {ℓ} {A : Type ℓ} where
  abbrev pub Every : (A → Type 0) → List A → Type 0
  Every P [] = Unit
  Every P (x ∷ xs) = P x × Every P xs

  pub Every-snoc :
      (P : A → Type 0) (xs : List A) (x : A) → Every P xs → P x → Every P (xs ++ (x ∷ []))
  Every-snoc P [] x all p = (p, tt)
  Every-snoc P (y ∷ ys) x (q, all) p = (q, Every-snoc P ys x all p)

  pub Every-map : (P Q : A → Type 0) (xs : List A) → ((x : A) → P x → Q x) → Every P xs → Every Q xs
  Every-map P Q [] f all = tt
  Every-map P Q (x ∷ xs) f (p, all) = (f x p, Every-map P Q xs f all)

-- `x` is in the list.
pub data Member {ℓ} {A : Type ℓ} (x : A) : List A → Type ℓ where
  here : (ys : List A) → Member x (x ∷ ys)
  there : (y : A) (ys : List A) → Member x ys → Member x (y ∷ ys)

pub Every-Member {ℓ} :
    {A : Type ℓ} (P : A → Type 0) (x : A) (xs : List A) → Member x xs → Every P xs → P x
Every-Member P x _ (here ys) all = all.0
Every-Member P x _ (there y ys m) all = Every-Member P x ys m all.1

pub Member-left {ℓ} : {A : Type ℓ} (x : A) (xs ys : List A) → Member x xs → Member x (xs ++ ys)
Member-left x xs ys (here zs) = here (zs ++ ys)
Member-left x xs ys (there z zs m) = there z (zs ++ ys) (Member-left x zs ys m)

pub Member-snoc {ℓ} : {A : Type ℓ} (x : A) (xs : List A) → Member x (xs ++ (x ∷ []))
Member-snoc x [] = here []
Member-snoc x (y ∷ ys) = there y (ys ++ (x ∷ [])) (Member-snoc x ys)

-- The place is `tv` and `index`.
abbrev pub is_place : ℕ → ℕ → ℕ → ℕ → Bool
is_place tv index a b = (a == tv) && (b == index)

-- Of the timers in every list but one.
abbrev pub Others : (ℕ → ℕ → Timer → Type 0) → ℕ → ℕ → (ℕ → ℕ → List Timer) → Type 0
Others P tv index vec = (a b : ℕ) → is_place tv index a b ≡ false → Every (P a b) (vec a b)

abbrev pub Everywhere : (ℕ → ℕ → Timer → Type 0) → (ℕ → ℕ → List Timer) → Type 0
Everywhere P vec = (a b : ℕ) → Every (P a b) (vec a b)

-- Where two places are the same.
place_eq : (tv index a b : ℕ) → is_place tv index a b ≡ true → (tv ≡ a) × (index ≡ b)
place_eq tv index a b h = (ground (arith, h), ground (arith, h))

pub Others-put :
    (P : ℕ → ℕ → Timer → Type 0) (l j : ℕ) (vec : ℕ → ℕ → List Timer) (tv index : ℕ)
    (xs : List Timer)
    → Others P l j vec
    → (is_place l j tv index ≡ false → Every (P tv index) xs)
    → Others P l j (put vec tv index xs)
Others-put P l j vec tv index xs others new a b ne = elim (Bool-cases (is_place tv index a b)) [
  | inl t ↦
      let (same, same') = place_eq tv index a b t in
      rw t (
        subst (λ x. Every (P x b) xs) same
          (subst (λ y. Every (P tv y) xs) same'
            (new (
              subst (λ x. is_place l j x index ≡ false) (sym same)
                (subst (λ y. is_place l j a y ≡ false) (sym same') ne)))))
  | inr f ↦ rw f (others a b ne)
]

-- Where all the others are as they should be, and the list that is left out is.
pub Everywhere-Others :
    (P : ℕ → ℕ → Timer → Type 0) (tv index : ℕ) (vec : ℕ → ℕ → List Timer)
    → Others P tv index vec
    → Every (P tv index) (vec tv index)
    → Everywhere P vec
Everywhere-Others P tv index vec others one a b = elim (Bool-cases (is_place tv index a b)) [
  | inl t ↦
      let (same, same') = place_eq tv index a b t in
      subst (λ x. Every (P x b) (vec x b)) same (subst (λ y. Every (P tv y) (vec tv y)) same' one)
  | inr f ↦ others a b f
]

-- The wheel holds the timer.
abbrev pub Held : Timer → (ℕ → ℕ → List Timer) → Type 0
Held t vec = (tv : ℕ) × (index : ℕ) × Member t (vec tv index)

-- A timer put at the end of a list leaves every timer held, and is held.
pub Held-put :
    (t x : Timer) (vec : ℕ → ℕ → List Timer) (tv index : ℕ)
    → Held t vec
    → Held t (put vec tv index (vec tv index ++ (x ∷ [])))
Held-put t x vec tv index (a, b, m) = elim (Bool-cases (is_place tv index a b)) [
  | inl p ↦
      let (same, same') = place_eq tv index a b p in
      let m' : Member t (vec tv index) =
        subst (λ x'. Member t (vec x' index)) (sym same)
          (subst (λ y. Member t (vec a y)) (sym same') m) in
      (a, b, rw p (Member-left t (vec tv index) (x ∷ []) m'))
  | inr f ↦ (a, b, rw f m)
]

pub Held-new :
    (x : Timer) (vec : ℕ → ℕ → List Timer) (tv index : ℕ)
    → Held x (put vec tv index (vec tv index ++ (x ∷ [])))
Held-new x vec tv index =
    let p : is_place tv index tv index ≡ true = ground arith in
    (tv, index, rw p (Member-snoc x (vec tv index)))

-- Of the timers held, the removal of the first of a list takes that one alone.
pub Held-rest :
    (t x : Timer) (rest : List Timer) (vec : ℕ → ℕ → List Timer) (tv index : ℕ)
    → vec tv index ≡ x ∷ rest
    → Held t vec
    → (t ≡ x) ⊎ Held t (put vec tv index rest)
Held-rest t x rest vec tv index list (a, b, m) = elim (Bool-cases (is_place tv index a b)) [
  | inl p ↦
      let (same, same') = place_eq tv index a b p in
      let m' : Member t (vec tv index) =
        subst (λ x'. Member t (vec x' index)) (sym same)
          (subst (λ y. Member t (vec a y)) (sym same') m) in
      elim (first_or_rest t x rest (subst (Member t) list m')) [
        | inl e ↦ inl e
        | inr n ↦ inr (a, b, rw p n)
      ]
  | inr f ↦ inr (a, b, rw f m)
]
  where
    first_or_rest :
        (t x : Timer) (rest : List Timer) → Member t (x ∷ rest) → (t ≡ x) ⊎ Member t rest
    first_or_rest t x rest (here _) = inl refl
    first_or_rest t x rest (there _ _ m) = inr m

-- What is held behind such a step was held before it.
Member-snoc-inv {ℓ} :
    {A : Type ℓ} (t x : A) (xs : List A) → Member t (xs ++ (x ∷ [])) → (t ≡ x) ⊎ Member t xs
Member-snoc-inv t x [] (here _) = inl refl
Member-snoc-inv t x [] (there _ _ m) = elim m [ ]
Member-snoc-inv t x (y ∷ ys) (here _) = inr (here ys)
Member-snoc-inv t x (y ∷ ys) (there _ _ m) = elim (Member-snoc-inv t x ys m) [
  | inl e ↦ inl e
  | inr n ↦ inr (there y ys n)
]

pub Held-put-inv :
    (t x : Timer) (vec : ℕ → ℕ → List Timer) (tv index : ℕ)
    → Held t (put vec tv index (vec tv index ++ (x ∷ [])))
    → (t ≡ x) ⊎ Held t vec
Held-put-inv t x vec tv index (a, b, m) = elim (Bool-cases (is_place tv index a b)) [
  | inl p ↦
      let list : put vec tv index (vec tv index ++ (x ∷ [])) a b ≡ vec tv index ++ (x ∷ []) =
        rw p refl in
      elim (Member-snoc-inv t x (vec tv index) (subst (Member t) list m)) [
        | inl e ↦ inl e
        | inr n ↦ inr (tv, index, n)
      ]
  | inr f ↦
      let list : put vec tv index (vec tv index ++ (x ∷ [])) a b ≡ vec a b = rw f refl in
      inr (a, b, subst (Member t) list m)
]

pub Held-rest-inv :
    (t x : Timer) (rest : List Timer) (vec : ℕ → ℕ → List Timer) (tv index : ℕ)
    → vec tv index ≡ x ∷ rest
    → Held t (put vec tv index rest)
    → Held t vec
Held-rest-inv t x rest vec tv index list (a, b, m) = elim (Bool-cases (is_place tv index a b)) [
  | inl p ↦
      let same : put vec tv index rest a b ≡ rest = rw p refl in
      (tv, index, subst (Member t) (sym list) (there x rest (subst (Member t) same m)))
  | inr f ↦
      let same : put vec tv index rest a b ≡ vec a b = rw f refl in (a, b, subst (Member t) same m)
]

pub Held-first :
    (x : Timer) (rest : List Timer) (vec : ℕ → ℕ → List Timer) (tv index : ℕ)
    → vec tv index ≡ x ∷ rest
    → Held x vec
Held-first x rest vec tv index list = (tv, index, subst (Member x) (sym list) (here rest))

pub Every-tabulate {ℓ} :
    {A : Type ℓ} (P : A → Type 0) (xs : List A) → ((x : A) → Member x xs → P x) → Every P xs
Every-tabulate P [] f = tt
Every-tabulate P (x ∷ xs) f = (f x (here xs), Every-tabulate P xs (λ y m. f y (there x xs m)))
