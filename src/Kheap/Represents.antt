-- ===== src/Kheap/Represents.antt =====
-- A heap of src/kernel/memory/kheap.c stands for a row of chunks and a list of its free blocks.
use mathlib.Core.Bool.{false≢true}
use hos.Base.{
  sym, ◌∙◌, not, ◌&&◌, ℕ, suc, ◌+◌, ◌^◌, ◌<◌, ◌≤◌, ◌≡◌, refl, Bool, true, false, ◌==◌, List, [],
  ◌∷◌, ◌++◌, length, arith, Bool-cases, inl, inr, is_in, remove, is_in-remove, IsDistinct,
  IsDistinct-remove,
}
use hos.Kheap.{Heap, overhead, block_is_free, get_next_block}
use hos.Kheap.Chunks.{
  Chunk, Layout, Layout-append, is_at, is_free_at, first, last, last-append, last-bounds,
}
use hos.Kheap.Segments.{Segment, Segment-append}
use hos.Kheap.FreeList.{FreeChain}

-- The chunks fill the heap behind its three words, and the blocks are linked in their order.
pub record IsRow (h : Heap) (cs : List Chunk) : Type 0 where
  pub head_eq : h.head ≡ first cs 0
  pub tail_eq : h.tail ≡ last cs 0
  pub layout : Layout (h.vm_start + 12) cs h.heap_top
  pub within : h.heap_top ≤ h.vm_end
  pub bounded : h.vm_end < 2 ^ 32
  pub segment : Segment h.size h.next cs 0

-- The free list holds each of its blocks once.
pub record IsFreeList (h : Heap) (fs : List ℕ) : Type 0 where
  pub chain : FreeChain h.nextfree h.freelist fs
  pub distinct : IsDistinct fs

-- The free bit of the first block of a row that `b` is the free bit behind.
abbrev pub free_next : List Chunk → Bool → Bool
free_next [] b = b
free_next (c ∷ cs) b = c.free

-- No two neighbours of the row, and of the chunk behind it with the free bit `b`, are both free.
abbrev pub merged_to : List Chunk → Bool → Bool
merged_to [] b = true
merged_to (c ∷ cs) b = not (c.free && free_next cs b) && merged_to cs b

-- The free bit of the first block of a row.
abbrev pub is_free_first : List Chunk → Bool
is_free_first cs = free_next cs false

free_next-append :
    (cs : List Chunk) (d : Chunk) (ds : List Chunk) (b : Bool)
    → free_next (cs ++ (d ∷ ds)) b ≡ free_next cs d.free
free_next-append [] d ds b = refl
free_next-append (c ∷ cs) d ds b = refl

pub merged_to-append :
    (cs : List Chunk) (d : Chunk) (ds : List Chunk) (b : Bool)
    → merged_to (cs ++ (d ∷ ds)) b ≡ (merged_to cs d.free && merged_to (d ∷ ds) b)
merged_to-append [] d ds b = refl
merged_to-append (c ∷ cs) d ds b =
    ground (arith, merged_to-append cs d ds b, free_next-append cs d ds b)

pub merged_to-used :
    (cs : List Chunk) (b : Bool) → merged_to cs b ≡ true → merged_to cs false ≡ true
merged_to-used [] b h = refl
merged_to-used (c ∷ []) b h = ground arith
merged_to-used (c ∷ d ∷ ds) b h = ground (arith, h, merged_to-used (d ∷ ds) b)

-- The two sides of a chunk of such a row, and such a row from its two sides.
pub merged_parts :
    (cs : List Chunk) (d : Chunk) (ds : List Chunk)
    → merged_to (cs ++ (d ∷ ds)) false ≡ true
    → (merged_to cs d.free ≡ true) × (merged_to (d ∷ ds) false ≡ true)
merged_parts cs d ds h =
    let both = sym (merged_to-append cs d ds false) ∙ h in
    (ground (arith, both), ground (arith, both))

pub merged_join :
    (cs : List Chunk) (d : Chunk) (ds : List Chunk)
    → merged_to cs d.free ≡ true
    → merged_to (d ∷ ds) false ≡ true
    → merged_to (cs ++ (d ∷ ds)) false ≡ true
merged_join cs d ds left right = merged_to-append cs d ds false ∙ ground (arith, left, right)

pub merged_cons :
    (d : Chunk) (ds : List Chunk)
    → is_free_first ds ≡ false
    → merged_to ds false ≡ true
    → merged_to (d ∷ ds) false ≡ true
merged_cons d ds used h = ground (arith, used, h)

pub merged_tail :
    (d : Chunk) (ds : List Chunk) → merged_to (d ∷ ds) false ≡ true → merged_to ds false ≡ true
merged_tail d ds h = ground (arith, h)

-- What a free chunk of such a row says of its neighbours.
pub merged_free :
    (d : Chunk) (ds : List Chunk)
    → d.free ≡ true
    → merged_to (d ∷ ds) false ≡ true
    → (is_free_first ds ≡ false) × (merged_to ds false ≡ true)
merged_free d ds free h = (ground (arith, h, free), ground (arith, h))

-- The free list holds the free chunks, and no two free chunks are neighbours.
pub record IsHeap (h : Heap) (cs : List Chunk) (fs : List ℕ) : Type 0 where
  pub row : IsRow h cs
  pub list : IsFreeList h fs
  pub free_iff : (x : ℕ) → is_in x fs ≡ is_free_at x cs
  pub merged : merged_to cs false ≡ true

pub length-le-Layout : (a : ℕ) (cs : List Chunk) (top : ℕ) → Layout a cs top → a + length cs ≤ top
length-le-Layout a [] top l = omega (arith, l)
length-le-Layout a (c ∷ cs) top (here, even, l) =
    omega (arith, length-le-Layout (a + overhead + c.room) cs top l)

length-remove_member : (x : ℕ) (xs : List ℕ) → length xs ≤ suc (length (remove x xs))
unfolding remove
length-remove_member x [] = omega arith
length-remove_member x (y ∷ ys) = ground (arith, length-remove_member x ys)

-- Distinct addresses of chunks are no more than the chunks.
length-le-chunks :
    (cs : List Chunk) (fs : List ℕ)
    → IsDistinct fs
    → ((x : ℕ) → is_in x fs ≡ true → is_at x cs ≡ true)
    → length fs ≤ length cs
length-le-chunks [] [] d sub = omega arith
length-le-chunks [] (x ∷ xs) d sub = absurd (false≢true (sub x (ground arith)))
length-le-chunks (c ∷ cs) fs d sub = omega (
  arith,
  length-remove_member c.at fs,
  length-le-chunks cs (remove c.at fs) (IsDistinct-remove c.at fs d)
      (λ x member. ground (arith, sub x, is_in-remove c.at x fs d, member)),
)

pub enough_fuel :
    (h : Heap) (cs : List Chunk) (fs : List ℕ)
    → IsRow h cs
    → IsFreeList h fs
    → ((x : ℕ) → is_in x fs ≡ true → is_at x cs ≡ true)
    → length fs ≤ h.heap_top
enough_fuel h cs fs r l sub = omega (
  arith,
  length-le-Layout (h.vm_start + 12) cs h.heap_top r.layout,
  length-le-chunks cs fs l.distinct sub,
)

-- The block behind a chunk.
pub get_next_block-first :
    (h : Heap) (a top : ℕ) (cs : List Chunk) (c : Chunk) (ds : List Chunk)
    → h.tail ≡ last (cs ++ (c ∷ ds)) 0
    → Layout a (cs ++ (c ∷ ds)) top
    → Segment h.size h.next (cs ++ (c ∷ ds)) 0
    → get_next_block c.at h ≡ first ds 0
get_next_block-first h a top cs c [] t l g =
    let e : (c.at == h.tail) ≡ true = ground (arith, t, last-append cs c [] 0) in rw e refl
get_next_block-first h a top cs c (d ∷ ds) t l g =
    let (m, l1, (here, even, l2)) = Layout-append a cs (c ∷ d ∷ ds) top l in
    let (low, high) = last-bounds (m + overhead + c.room) d ds top c.at l2 in
    let e : (c.at == h.tail) ≡ false = ground (arith, t, last-append cs c (d ∷ ds) 0, low, here) in
    rw e ((Segment-append h.size h.next cs (c ∷ d ∷ ds) 0 g).1).1

pub block_is_free-first :
    (h : Heap) (a top : ℕ) (cs : List Chunk)
    → 0 < a
    → Layout a cs top
    → Segment h.size h.next cs 0
    → block_is_free h (first cs 0) ≡ is_free_first cs
unfolding block_is_free
block_is_free-first h a top [] pos l g = ground arith
block_is_free-first h a top (c ∷ cs) pos (here, even, l) (size, link, g) =
    let e : (c.at == 0) ≡ false = ground (arith, here) in
    rw e (
      rw size (elim (Bool-cases c.free) [
        | inl f ↦ rw f (ground (arith, even))
        | inr f ↦ rw f (ground (arith, even))
      ]))
