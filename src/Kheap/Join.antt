-- ===== src/Kheap/Join.antt =====
-- Neighbouring chunks of the heap of src/kernel/memory/kheap.c become one.
use hos.Base.{
  Bool, true, ◌||◌, is_in, ◌==◌, ℕ, ◌+◌, ◌%◌, ◌<◌, ◌≡◌, refl, sym, ap, ◌∙◌, store, Bool, true,
  false, ◌||◌, ◌==◌, if◌then◌else◌, List, [], ◌∷◌, ◌++◌, arith, Nat-cases, inl, inr, is_in, remove,
  is_in-remove, IsDistinct,
}
use hos.Kheap.{Heap}
use hos.Kheap.Chunks.{
  Chunk, Layout, is_free_at, is_free_at-append, first, last, not_at_outside, last-bounds,
  not_free_at_outside,
}
use hos.Kheap.Segments.{Segment, Segment-size, Segment-next}
use hos.Kheap.Represents.{IsRow}
use hos.Kheap.Pieces.{Around-chunk, rebuild}

abbrev pub free_chunk : ℕ → ℕ → Chunk
free_chunk x room = record { at = x; room = room; free = true }

-- The row after the chunks from `c` up to `rest` became one.
pub IsRow-of_join :
    (h : Heap) (left : List Chunk) (c : Chunk) (right rest : List Chunk) (k tail : ℕ) (f : ℕ → ℕ)
    (a : ℕ)
    → IsRow h (left ++ (c ∷ right))
    → k % 2 ≡ 0
    → Layout (c.at + 12 + k) rest h.heap_top
    → Segment h.size h.next rest 0
    → tail ≡ last rest c.at
    → IsRow
        (record h {
          size = store h.size c.at (k + 1);
          next = store h.next c.at (first rest 0);
          tail = tail;
          nextfree = f;
          freelist = a;
        })
        (left ++ (free_chunk c.at k ∷ rest))
IsRow-of_join h left c right rest k tail f a row even lay seg tail_eq =
    let w = Around-chunk h left c right row in
    let out = not_at_outside (c.at + 12 + k) rest h.heap_top c.at lay (inl (omega arith)) in
    let h' : Heap = record h {
      size = store h.size c.at (k + 1);
      next = store h.next c.at (first rest 0);
      tail = tail;
      nextfree = f;
      freelist = a;
    } in
    rebuild h h' left c right (free_chunk c.at k) rest row refl refl refl refl refl tail_eq
      w.left_layout (refl, even, lay)
      (Segment-next h'.size h.next c.at (first rest 0) left c.at w.outside_left
        (Segment-size h.size h.next c.at (k + 1) left c.at w.outside_left w.left_segment))
      (
        ground arith,
        ground arith,
        Segment-next h'.size h.next c.at (first rest 0) rest 0 out
            (Segment-size h.size h.next c.at (k + 1) rest 0 out seg),
      )

pub tail_moved :
    (x from top tail t : ℕ) (right : List Chunk)
    → x < from
    → Layout from right top
    → tail ≡ last right x
    → (if tail == x then t else tail) ≡ last right t
tail_moved x from top tail t [] lt l e = ground (arith, e)
tail_moved x from top tail t (c ∷ cs) lt l e =
    let (low, high) = last-bounds from c cs top x l in
    let apart : (tail == x) ≡ false = ground (arith, e, low) in rw apart e

-- The addresses of free chunks besides those of one chunk.
abbrev pub free_in : ℕ → List Chunk → List Chunk → Bool
free_in y left right = is_free_at y left || is_free_at y right

pub is_free_at-free :
    (y : ℕ) (left : List Chunk) (x room : ℕ) (right : List Chunk)
    → is_free_at y (left ++ (free_chunk x room ∷ right)) ≡ ((x == y) || free_in y left right)
is_free_at-free y left x room right =
    is_free_at-append y left (free_chunk x room ∷ right) ∙ ground arith

pub is_free_at-used :
    (y : ℕ) (left : List Chunk) (c : Chunk) (right : List Chunk)
    → c.free ≡ false
    → is_free_at y (left ++ (c ∷ right)) ≡ free_in y left right
is_free_at-used y left c right used = is_free_at-append y left (c ∷ right) ∙ ground (arith, used)

pub is_free_at-prev :
    (y : ℕ) (left : List Chunk) (p c : Chunk) (right : List Chunk)
    → p.free ≡ true
    → c.free ≡ false
    → is_free_at y (left ++ (p ∷ c ∷ right)) ≡ ((p.at == y) || free_in y left right)
is_free_at-prev y left p c right free used =
    is_free_at-append y left (p ∷ c ∷ right) ∙ ground (arith, free, used)

pub is_free_at-next :
    (y : ℕ) (left : List Chunk) (c e : Chunk) (right : List Chunk)
    → c.free ≡ false
    → e.free ≡ true
    → is_free_at y (left ++ (c ∷ e ∷ right)) ≡ ((e.at == y) || free_in y left right)
is_free_at-next y left c e right used free =
    is_free_at-append y left (c ∷ e ∷ right) ∙ ground (arith, free, used)

pub is_free_at-both :
    (y : ℕ) (left : List Chunk) (p c e : Chunk) (right : List Chunk)
    → p.free ≡ true
    → c.free ≡ false
    → e.free ≡ true
    → is_free_at y (left ++ (p ∷ c ∷ e ∷ right))
      ≡ ((e.at == y) || ((p.at == y) || free_in y left right))
is_free_at-both y left p c e right free used free' =
    is_free_at-append y left (p ∷ c ∷ e ∷ right) ∙ ground (arith, free, used, free')

-- No free chunk on either side of a chunk's place starts there.
pub not_free_in :
    (a x from top : ℕ) (left right : List Chunk)
    → x < from
    → Layout a left x
    → Layout from right top
    → free_in x left right ≡ false
not_free_in a x from top left right lt l l' = ground (
  arith,
  not_free_at_outside a left x x l (inr (omega arith)),
  not_free_at_outside from right top x l' (inl (omega arith)),
)

pub holds_first : (e : ℕ) (n q : Bool) → n ≡ ((e == e) || q) → n ≡ true
holds_first e n q h = ground (arith, h)

-- A list of free blocks without `e`.
pub is_in-without :
    (q : ℕ → Bool) (e y : ℕ) (fs : List ℕ)
    → IsDistinct fs
    → q e ≡ false
    → is_in y fs ≡ ((e == y) || q y)
    → is_in y (remove e fs) ≡ q y
is_in-without q e y fs d out iff = elim (Nat-cases e y) [
  | inl same ↦
      let out' : q y ≡ false = ap q (sym same) ∙ out in is_in-remove e y fs d ∙ ground arith
  | inr other ↦ is_in-remove e y fs d ∙ ground arith
]
