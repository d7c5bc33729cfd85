-- ===== src/Kheap/Chunks.antt =====
-- The heap as a row of chunks, each right behind the one before it, and the fields of the blocks that
-- stand for such a row.
use mathlib.Core.Path.{subst}
use mathlib.Core.Bool.{false≢true}
use hos.Base.{
  ◌⊎◌, ℕ, ◌+◌, ◌%◌, ◌<◌, ◌≤◌, ◌≡◌, refl, sym, ap, Bool, true, false, ◌&&◌, ◌||◌, ◌==◌, List, [],
  ◌∷◌, ◌++◌, arith, Nat-cases, inl, inr,
}
use hos.Kheap.{overhead}

pub record Chunk : Type 0 where
  pub at : ℕ
  pub room : ℕ
  pub free : Bool

-- The chunks fill the addresses from `a` up to `top`; their sizes are even.
abbrev pub Layout : ℕ → List Chunk → ℕ → Type 0
Layout a [] top = a ≡ top
Layout a (c ∷ cs) top = (c.at ≡ a) × (c.room % 2 ≡ 0) × Layout (a + overhead + c.room) cs top

pub Layout-le : (a : ℕ) (cs : List Chunk) (top : ℕ) → Layout a cs top → a ≤ top
Layout-le a [] top l = omega (arith, l)
Layout-le a (c ∷ cs) top (here, even, l) = omega (arith, Layout-le (a + overhead + c.room) cs top l)

pub Layout-append :
    (a : ℕ) (cs ds : List Chunk) (top : ℕ)
    → Layout a (cs ++ ds) top
    → (m : ℕ) × Layout a cs m × Layout m ds top
Layout-append a [] ds top l = (a, refl, l)
Layout-append a (c ∷ cs) ds top (here, even, l) =
    let (m, l1, l2) = Layout-append (a + overhead + c.room) cs ds top l in (m, (here, even, l1), l2)

pub Layout-join :
    (a : ℕ) (cs ds : List Chunk) (m top : ℕ)
    → Layout a cs m
    → Layout m ds top
    → Layout a (cs ++ ds) top
Layout-join a [] ds m top l1 l2 = subst (λ n. Layout n ds top) (sym l1) l2
Layout-join a (c ∷ cs) ds m top (here, even, l1) l2 =
    (here, even, Layout-join (a + overhead + c.room) cs ds m top l1 l2)

-- A chunk starts at `x`.
abbrev pub is_at : ℕ → List Chunk → Bool
is_at x [] = false
is_at x (c ∷ cs) = (c.at == x) || is_at x cs

abbrev pub is_free_at : ℕ → List Chunk → Bool
is_free_at x [] = false
is_free_at x (c ∷ cs) = ((c.at == x) && c.free) || is_free_at x cs

pub is_at-append : (x : ℕ) (cs ds : List Chunk) → is_at x (cs ++ ds) ≡ (is_at x cs || is_at x ds)
is_at-append x [] ds = refl
is_at-append x (c ∷ cs) ds = ground (arith, is_at-append x cs ds)

pub is_free_at-append :
    (x : ℕ) (cs ds : List Chunk) → is_free_at x (cs ++ ds) ≡ (is_free_at x cs || is_free_at x ds)
is_free_at-append x [] ds = refl
is_free_at-append x (c ∷ cs) ds = ground (arith, is_free_at-append x cs ds)

-- No chunk of a row starts outside it.
pub not_at_outside :
    (a : ℕ) (cs : List Chunk) (top x : ℕ)
    → Layout a cs top
    → (x < a) ⊎ (top ≤ x)
    → is_at x cs ≡ false
not_at_outside a [] top x l out = refl
not_at_outside a (c ∷ cs) top x (here, even, l) out = ground (
  arith,
  Layout-le (a + overhead + c.room) cs top l,
  not_at_outside (a + overhead + c.room) cs top x l,
)

pub is_at-of_free : (x : ℕ) (cs : List Chunk) → is_free_at x cs ≡ true → is_at x cs ≡ true
is_at-of_free x [] h = h
is_at-of_free x (c ∷ cs) h = ground (arith, is_at-of_free x cs)

pub not_free_at_outside :
    (a : ℕ) (cs : List Chunk) (top x : ℕ)
    → Layout a cs top
    → (x < a) ⊎ (top ≤ x)
    → is_free_at x cs ≡ false
not_free_at_outside a cs top x l out =
    ground (arith, not_at_outside a cs top x l out, is_at-of_free x cs)

-- The first chunk's address, `e` if there is none.
abbrev pub first : List Chunk → ℕ → ℕ
first [] e = e
first (c ∷ cs) e = c.at

-- The last chunk's address, `e` if there is none.
abbrev pub last : List Chunk → ℕ → ℕ
last [] e = e
last (c ∷ cs) e = last cs c.at

pub last-append :
    (cs : List Chunk) (c : Chunk) (ds : List Chunk) (e : ℕ) → last (cs ++ (c ∷ ds)) e ≡ last ds c.at
last-append [] c ds e = refl
last-append (d ∷ cs) c ds e = last-append cs c ds d.at

pub first-append : (cs ds : List Chunk) (e : ℕ) → first (cs ++ ds) e ≡ first cs (first ds e)
first-append [] ds e = refl
first-append (c ∷ cs) ds e = refl

-- The last chunk of a row that is not empty starts inside the row.
pub last-bounds :
    (a : ℕ) (c : Chunk) (cs : List Chunk) (top e : ℕ)
    → Layout a (c ∷ cs) top
    → (a ≤ last (c ∷ cs) e) × (last (c ∷ cs) e < top)
last-bounds a c [] top e (here, even, l) = (omega (arith, here), omega (arith, here, l))
last-bounds a c (d ∷ cs) top e (here, even, l) =
    let (low, high) = last-bounds (a + overhead + c.room) d cs top c.at l in (omega arith, high)

-- A chunk and what stands on both sides of it.
pub record Split (x : ℕ) (cs : List Chunk) : Type 0 where
  pub left : List Chunk
  pub chunk : Chunk
  pub right : List Chunk
  pub is_split : cs ≡ left ++ (chunk ∷ right)
  pub is_here : chunk.at ≡ x

pub Split-at : (x : ℕ) (cs : List Chunk) → is_at x cs ≡ true → Split x cs
Split-at x [] h = absurd (false≢true h)
Split-at x (c ∷ cs) h = elim (Nat-cases c.at x) [
  | inl here ↦ record { left = []; chunk = c; right = cs; is_split = refl; is_here = here }
  | inr there ↦
      let s = Split-at x cs (ground (arith, h, there)) in
      record {
        left = c ∷ s.left;
        chunk = s.chunk;
        right = s.right;
        is_split = ap (λ l. c ∷ l) s.is_split;
        is_here = s.is_here;
      }
]
