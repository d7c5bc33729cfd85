-- ===== src/ListHead/Chain.antt =====
-- Rings of include/kernel/list_head.h as sequences of addresses.
use hos.Base.{ℕ, ◌≡◌, ◌∙◌, true, List, [], ◌∷◌, ◌++◌, is_in, IsDistinct, arith}
use hos.ListHead.{Links}

-- `q` is behind `p`.
abbrev pub Link : Links → ℕ → ℕ → Type 0
Link s p q = (s.next p ≡ q) × (s.prev q ≡ p)

-- From `a` by the entries `xs` to `b`.
abbrev pub Chain : Links → ℕ → List ℕ → ℕ → Type 0
Chain s a [] b = Link s a b
Chain s a (x ∷ xs) b = Link s a x × Chain s x xs b

-- The list at `head` has the entries `xs`.
abbrev pub Ring : Links → ℕ → List ℕ → Type 0
Ring s head xs = Chain s head xs head × IsDistinct (head ∷ xs)

-- A chain whose links are not written to.
pub Chain-frame :
    (s s' : Links) (a : ℕ) (xs : List ℕ) (b : ℕ)
    → ((p : ℕ) → is_in p (a ∷ xs) ≡ true → s'.next p ≡ s.next p)
    → ((q : ℕ) → is_in q (b ∷ xs) ≡ true → s'.prev q ≡ s.prev q)
    → Chain s a xs b
    → Chain s' a xs b
Chain-frame s s' a [] b same_next same_prev (n, p) =
    (same_next a (ground arith) ∙ n, same_prev b (ground arith) ∙ p)
Chain-frame s s' a (x ∷ xs) b same_next same_prev ((n, p), rest) = (
  (same_next a (ground arith) ∙ n, same_prev x (ground arith) ∙ p),
  Chain-frame s s' x xs b (λ q m. same_next q (ground (arith, m)))
      (λ q m. same_prev q (ground (arith, m))) rest,
)

-- A chain in two pieces.
pub Chain-split :
    (s : Links) (a : ℕ) (xs : List ℕ) (y : ℕ) (ys : List ℕ) (b : ℕ)
    → Chain s a (xs ++ (y ∷ ys)) b
    → Chain s a xs y × Chain s y ys b
Chain-split s a [] y ys b (l, rest) = (l, rest)
Chain-split s a (x ∷ xs) y ys b (l, rest) =
    let (front, back) = Chain-split s x xs y ys b rest in ((l, front), back)

pub Chain-join :
    (s : Links) (a : ℕ) (xs : List ℕ) (y : ℕ) (ys : List ℕ) (b : ℕ)
    → Chain s a xs y
    → Chain s y ys b
    → Chain s a (xs ++ (y ∷ ys)) b
Chain-join s a [] y ys b l rest = (l, rest)
Chain-join s a (x ∷ xs) y ys b (l, front) back = (l, Chain-join s x xs y ys b front back)
