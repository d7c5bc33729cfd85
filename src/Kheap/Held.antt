-- ===== src/Kheap/Held.antt =====
-- The regions that callers hold, and the chunks in use that they lie in.
use mathlib.Core.Path.{subst}
use hos.Base.{
  ℕ, ◌+◌, ◌≤◌, ◌≡◌, refl, ap, ◌∙◌, false, ◌⊎◌, List, [], ◌∷◌, ◌++◌, arith, Bool-cases, inl, inr,
}
use hos.Kheap.{overhead}
use hos.Kheap.Chunks.{Chunk, Layout, Layout-le}
use hos.Kheap.Pieces.{live}

-- The second list is the first with `a` put in somewhere.
pub data Insert {ℓ} {A : Type ℓ} (a : A) : List A → List A → Type ℓ where
  here : (xs : List A) → Insert a xs (a ∷ xs)
  there : (x : A) (xs ys : List A) → Insert a xs ys → Insert a (x ∷ xs) (x ∷ ys)

-- Two members put in one after the other can be put in the other way round.
swap {ℓ} :
    {A : Type ℓ} (a b : A) (xs ys zs : List A)
    → Insert a xs ys
    → Insert b ys zs
    → (ms : List A) × Insert b xs ms × Insert a ms zs
swap a b xs ys zs i (here _) = (b ∷ xs, here xs, there b xs ys i)
swap a b xs ys zs (here _) (there x xs' ys' j) = (ys', j, here ys')
swap a b xs ys zs (there x us vs i) (there _ _ ws j) =
    let (ms, k, l) = swap a b us vs ws i j in (x ∷ ms, there x us ms k, there x ms ws l)

-- The regions held lie in the rooms of the chunks in use, one in each.
pub data Fills : List (ℕ × ℕ) → List (ℕ × ℕ) → Type 0 where
  none : Fills [] []
  one :
      (held used used' : List (ℕ × ℕ)) (x size room : ℕ)
      → size ≤ room
      → Insert (x, room) used used'
      → Fills held used
      → Fills ((x + overhead, size) ∷ held) used'

-- A region that is given back lies in the room of a chunk.
pub Fills-remove :
    (p size : ℕ) (held held' used' : List (ℕ × ℕ))
    → Insert (p, size) held held'
    → Fills held' used'
    → (used : List (ℕ × ℕ)) × (x : ℕ) × (room : ℕ) × (p ≡ x + overhead)
      × Insert (x, room) used used'
      × Fills held used
Fills-remove p size held held' used' (here _) (one _ used _ x _ room le i f) =
    (used, x, room, refl, i, f)
Fills-remove p size held held' used' (there a xs ys j) (one _ used _ x s room le i f) =
    let (used0, x', room', same, k, g) = Fills-remove p size xs ys used j f in
    let (ms, k', l) = swap (x', room') (x, room) used0 used used' k i in
    (ms, x', room', same, l, one xs used0 ms x s room le k' g)

-- The room of a chunk at `x` meets none of the others.
abbrev Away : ℕ → ℕ → List (ℕ × ℕ) → Type 0
Away x room [] = Unit
Away x room ((y, room') ∷ used) =
    ((x + overhead + room ≤ y) ⊎ (y + overhead + room' ≤ x)) × Away x room used

abbrev pub Spread : List (ℕ × ℕ) → Type 0
Spread [] = Unit
Spread ((x, room) ∷ used) = Away x room used × Spread used

-- The region of `size` bytes at `p` meets none of the others.
abbrev pub Apart : ℕ → ℕ → List (ℕ × ℕ) → Type 0
Apart p size [] = Unit
Apart p size ((q, size') ∷ held) = ((p + size ≤ q) ⊎ (q + size' ≤ p)) × Apart p size held

-- No two regions meet.
abbrev pub Disjoint : List (ℕ × ℕ) → Type 0
Disjoint [] = Unit
Disjoint ((p, size) ∷ held) = Apart p size held × Disjoint held

-- The regions lie between `low` and `high`.
abbrev pub Inside : ℕ → ℕ → List (ℕ × ℕ) → Type 0
Inside low high [] = Unit
Inside low high ((p, size) ∷ held) = (low ≤ p) × (p + size ≤ high) × Inside low high held

Away-Insert :
    (x room : ℕ) (a : ℕ × ℕ) (xs ys : List (ℕ × ℕ))
    → Insert a xs ys
    → Away x room ys
    → Away x room (a ∷ []) × Away x room xs
Away-Insert x room a xs ys (here _) (w, ws) = ((w, tt), ws)
Away-Insert x room a xs ys (there b us vs i) (w, ws) =
    let (v, vs') = Away-Insert x room a us vs i ws in (v, (w, vs'))

Spread-Insert :
    (x room : ℕ) (xs ys : List (ℕ × ℕ))
    → Insert (x, room) xs ys
    → Spread ys
    → Away x room xs × Spread xs
Spread-Insert x room xs ys (here _) (w, ws) = (w, ws)
Spread-Insert x room xs ys (there (y, room') us vs i) (w, ws) =
    let (v, rest) = Away-Insert y room' (x, room) us vs i w in
    let (mine, spread) = Spread-Insert x room us vs i ws in
    ((elim v.0 [ inl e ↦ inr e | inr e ↦ inl e ], mine), (rest, spread))

Fills-Apart :
    (x room size : ℕ) (held used : List (ℕ × ℕ))
    → size ≤ room
    → Fills held used
    → Away x room used
    → Apart (x + overhead) size held
Fills-Apart x room size held used le (none) w = tt
Fills-Apart x room size held used le (one held' used' _ y size' room' le' i f) w =
    let (v, rest) = Away-Insert x room (y, room') used' used i w in
    (
      elim v.0 [ inl e ↦ inl (omega arith) | inr e ↦ inr (omega arith) ],
      Fills-Apart x room size held' used' le f rest,
    )

pub Fills-Disjoint : (held used : List (ℕ × ℕ)) → Fills held used → Spread used → Disjoint held
Fills-Disjoint held used (none) s = tt
Fills-Disjoint held used (one held' used' _ x size room le i f) s =
    let (w, rest) = Spread-Insert x room used' used i s in
    (Fills-Apart x room size held' used' le f w, Fills-Disjoint held' used' f rest)

abbrev pub Within : ℕ → ℕ → List (ℕ × ℕ) → Type 0
Within low high [] = Unit
Within low high ((x, room) ∷ used) = (low ≤ x) × (x + overhead + room ≤ high) × Within low high used

Within-Insert :
    (low high : ℕ) (x room : ℕ) (xs ys : List (ℕ × ℕ))
    → Insert (x, room) xs ys
    → Within low high ys
    → (low ≤ x) × (x + overhead + room ≤ high) × Within low high xs
Within-Insert low high x room xs ys (here _) w = w
Within-Insert low high x room xs ys (there (y, room') us vs i) (l, u, w) =
    let (l', u', w') = Within-Insert low high x room us vs i w in (l', u', (l, u, w'))

pub Fills-Inside :
    (low high : ℕ) (held used : List (ℕ × ℕ))
    → Fills held used
    → Within low high used
    → Inside (low + overhead) high held
Fills-Inside low high held used (none) w = tt
Fills-Inside low high held used (one held' used' _ x size room le i f) w =
    let (l, u, rest) = Within-Insert low high x room used' used i w in
    (omega arith, omega arith, Fills-Inside low high held' used' f rest)

Within-lower :
    (low low' high : ℕ) (used : List (ℕ × ℕ))
    → low ≤ low'
    → Within low' high used
    → Within low high used
Within-lower low low' high [] le w = tt
Within-lower low low' high ((x, room) ∷ used) le (l, u, w) =
    (omega arith, u, Within-lower low low' high used le w)

pub Within-higher :
    (low high high' : ℕ) (used : List (ℕ × ℕ))
    → high ≤ high'
    → Within low high used
    → Within low high' used
Within-higher low high high' [] le w = tt
Within-higher low high high' ((x, room) ∷ used) le (l, u, w) =
    (l, omega arith, Within-higher low high high' used le w)

Away-above :
    (x room low high : ℕ) (used : List (ℕ × ℕ))
    → x + overhead + room ≤ low
    → Within low high used
    → Away x room used
Away-above x room low high [] le w = tt
Away-above x room low high ((y, room') ∷ used) le (l, u, w) =
    (inl (omega arith), Away-above x room low high used le w)

pub live-Within : (a : ℕ) (cs : List Chunk) (top : ℕ) → Layout a cs top → Within a top (live cs)
live-Within a [] top l = tt
live-Within a (c ∷ cs) top (at, even, l) =
    let next = a + overhead + c.room in
    let rest = Within-lower a next top (live cs) (omega arith) (live-Within next cs top l) in
    let le = Layout-le next cs top l in
    elim (Bool-cases c.free) [
      | inl f ↦ rw f rest
      | inr f ↦ rw f (omega (arith, at), omega (arith, at), rest)
    ]

pub live-Spread : (a : ℕ) (cs : List Chunk) (top : ℕ) → Layout a cs top → Spread (live cs)
live-Spread a [] top l = tt
live-Spread a (c ∷ cs) top (at, even, l) =
    let next = a + overhead + c.room in
    let rest = live-Spread next cs top l in
    elim (Bool-cases c.free) [
      | inl f ↦ rw f rest
      | inr f ↦ rw f (
        Away-above c.at c.room next top (live cs) (omega (arith, at)) (live-Within next cs top l),
        rest,
      )
    ]

-- A chunk in use of a row.
pub record InUse (x : ℕ) (used : List (ℕ × ℕ)) (cs : List Chunk) : Type 0 where
  pub left : List Chunk
  pub chunk : Chunk
  pub right : List Chunk
  pub is_split : cs ≡ left ++ (chunk ∷ right)
  pub is_here : chunk.at ≡ x
  pub is_used : chunk.free ≡ false
  pub others : used ≡ live left ++ live right

InUse-nil : (x : ℕ) (a : ℕ × ℕ) (used : List (ℕ × ℕ)) → Insert a used [] → InUse x used []
InUse-nil x a used i = elim i [ ]

InUse-cons :
    (x room : ℕ) (used : List (ℕ × ℕ)) (c : Chunk) (cs : List Chunk)
    → c.free ≡ false
    → ((used' : List (ℕ × ℕ)) → Insert (x, room) used' (live cs) → InUse x used' cs)
    → Insert (x, room) used ((c.at, c.room) ∷ live cs)
    → InUse x used (c ∷ cs)
InUse-cons x room used c cs f rest (here _) = record {
  left = [];
  chunk = c;
  right = cs;
  is_split = refl;
  is_here = refl;
  is_used = f;
  others = refl;
}
InUse-cons x room used c cs f rest (there _ us _ i) =
    let u = rest us i in
    record {
      left = c ∷ u.left;
      chunk = u.chunk;
      right = u.right;
      is_split = ap (λ l. c ∷ l) u.is_split;
      is_here = u.is_here;
      is_used = u.is_used;
      others = ap (λ l. (c.at, c.room) ∷ l) u.others ∙ rw f refl;
    }

pub InUse-live :
    (x room : ℕ) (used : List (ℕ × ℕ)) (cs : List Chunk)
    → Insert (x, room) used (live cs)
    → InUse x used cs
InUse-live x room used [] i = InUse-nil x (x, room) used i
InUse-live x room used (c ∷ cs) i = elim (Bool-cases c.free) [
  | inl f ↦
      let same : live (c ∷ cs) ≡ live cs = rw f refl in
      let u = InUse-live x room used cs (subst (Insert (x, room) used) same i) in
      record {
        left = c ∷ u.left;
        chunk = u.chunk;
        right = u.right;
        is_split = ap (λ l. c ∷ l) u.is_split;
        is_here = u.is_here;
        is_used = u.is_used;
        others = u.others ∙ rw f refl;
      }
  | inr f ↦
      let same : live (c ∷ cs) ≡ (c.at, c.room) ∷ live cs = rw f refl in
      let rest = λ (used' : List (ℕ × ℕ)) (j : Insert (x, room) used' (live cs)).
        InUse-live x room used' cs j in
      InUse-cons x room used c cs f rest (subst (Insert (x, room) used) same i)
]
