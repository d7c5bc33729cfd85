-- ===== src/Base/Members.antt =====
-- Lists of numbers as sets: membership, removal and distinctness.
use Prim.Native.Nat.{ℕ}
use mathlib.Core.Path.{◌≡◌, refl, sym, ap, ◌∙◌}
use mathlib.Core.Logic.{inl, inr}
use mathlib.Core.Bool.{Bool, true, false, ◌||◌}
use mathlib.Core.List.{List, [], ◌∷◌}
use native.Mathlib.Omega.{arith}
use hos.Base.Tests.{◌==◌, if◌then◌else◌, Nat-cases, Bool-cases}

abbrev pub is_in : ℕ → List ℕ → Bool
is_in c [] = false
is_in c (x ∷ xs) = (x == c) || is_in c xs

-- The first occurrence goes.
unfoldable pub remove : ℕ → List ℕ → List ℕ
remove a [] = []
remove a (x ∷ xs) = if x == a then xs else x ∷ remove a xs

-- No number is twice in the list.
abbrev pub IsDistinct : List ℕ → Type 0
IsDistinct [] = Unit
IsDistinct (x ∷ xs) = (is_in x xs ≡ false) × IsDistinct xs

pub is_in-remove_self : (a : ℕ) (xs : List ℕ) → IsDistinct xs → is_in a (remove a xs) ≡ false
unfolding remove
is_in-remove_self a [] d = refl
is_in-remove_self a (x ∷ xs) (apart, d) = elim (Nat-cases x a) [
  | inl same ↦
      let e : (x == a) ≡ true = ground arith in rw e (ap (λ n. is_in n xs) (sym same) ∙ apart)
  | inr other ↦
      let e : (x == a) ≡ false = ground arith in rw e (ground (arith, is_in-remove_self a xs d, e))
]

pub is_in-remove :
    (a b : ℕ) (xs : List ℕ)
    → IsDistinct xs
    → is_in b (remove a xs) ≡ (if a == b then false else is_in b xs)
unfolding remove
is_in-remove a b [] d = ground arith
is_in-remove a b (x ∷ xs) (apart, d) = elim (Nat-cases x a) [
  | inl same ↦
      let e : (x == a) ≡ true = ground arith in
      rw e (ground (arith, same, apart, λ (e' : x ≡ b). ap (λ n. is_in n xs) e'))
  | inr other ↦
      let e : (x == a) ≡ false = ground arith in rw e (ground (arith, is_in-remove a b xs d, other))
]

pub IsDistinct-remove : (a : ℕ) (xs : List ℕ) → IsDistinct xs → IsDistinct (remove a xs)
unfolding remove
IsDistinct-remove a [] d = tt
IsDistinct-remove a (x ∷ xs) (apart, d) = elim (Bool-cases (x == a)) [
  | inl same ↦ rw same d
  | inr other ↦ rw other (ground (arith, is_in-remove a x xs d, apart), IsDistinct-remove a xs d)
]
