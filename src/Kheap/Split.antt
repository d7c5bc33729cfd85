-- ===== src/Kheap/Split.antt =====
-- How `__do_malloc` of src/kernel/memory/kheap.c splits a free block, or takes the whole of it.
use mathlib.Core.Path.{subst}
use hos.Base.{
  ℕ, ◌+◌, ◌-◌, ◌/◌, ◌*◌, ◌%◌, ◌^◌, ◌<◌, ◌≤◌, ◌≡◌, refl, sym, ap, ◌∙◌, u32, store, true, false, ◌||◌,
  ltb, ◌==◌, List, ◌∷◌, ◌++◌, arith, Nat-cases, inl, inr, is_in, remove, is_in-remove,
  IsDistinct-remove,
}
use hos.Kheap.{
  Heap, ok, ◌>>=◌, overhead, real_size, remove_from_freelist, get_next_block, split_off,
  malloc_from,
}
use hos.Kheap.Chunks.{Chunk, Layout, is_at, is_at-of_free, is_free_at, first, last, not_at_outside}
use hos.Kheap.Segments.{Segment, Segment-size, Segment-next}
use hos.Kheap.FreeList.{remove_from_freelist-chain}
use hos.Kheap.Represents.{merged_to, IsRow, IsFreeList, IsHeap, enough_fuel}
use hos.Kheap.Pieces.{Around-chunk, rebuild}

-- A block of the row is taken off the free list.
pub take_off :
    (h : Heap) (cs : List Chunk) (fs : List ℕ) (x : ℕ)
    → IsRow h cs
    → IsFreeList h fs
    → is_at x cs ≡ true
    → is_free_at x cs ≡ false
    → ((y : ℕ) → is_in y fs ≡ ((x == y) || is_free_at y cs))
    → merged_to cs false ≡ true
    → (f : ℕ → ℕ) × (a : ℕ) × (remove_from_freelist x h
        ≡ ok (record h { nextfree = f; freelist = a }))
      × IsHeap (record h { nextfree = f; freelist = a }) cs (remove x fs)
take_off h cs fs x r l here used iff merged =
    let sub = λ (y : ℕ) (member : is_in y fs ≡ true). at_of_listed x y cs fs here (iff y) member in
    let (f, a, runs, chain) =
      remove_from_freelist-chain h x fs (enough_fuel h cs fs r l sub) l.chain l.distinct
        (iff x ∙ ground arith) in
    (
      f,
      a,
      runs,
      record {
        row = record {
          head_eq = r.head_eq;
          tail_eq = r.tail_eq;
          layout = r.layout;
          within = r.within;
          bounded = r.bounded;
          segment = r.segment;
        };
        list = record { chain = chain; distinct = IsDistinct-remove x fs l.distinct };
        free_iff = λ y.
            is_in-remove x y fs l.distinct
            ∙ ground (arith, iff y, used, λ (e : x ≡ y). ap (λ n. is_free_at n cs) e);
        merged = merged;
      },
    )
  where
    at_of_listed :
        (x y : ℕ) (cs : List Chunk) (fs : List ℕ)
        → is_at x cs ≡ true
        → is_in y fs ≡ ((x == y) || is_free_at y cs)
        → is_in y fs ≡ true
        → is_at y cs ≡ true
    at_of_listed x y cs fs here e member = elim (Nat-cases x y) [
      | inl same ↦ ap (λ n. is_at n cs) (sym same) ∙ here
      | inr other ↦ is_at-of_free y cs (ground (arith, e, member, other))
    ]

-- `malloc_from` where the rest is too small to be a block.
pub malloc_from-whole :
    (h : Heap) (x room r : ℕ)
    → h.size x ≡ room + 1
    → room % 2 ≡ 0
    → room + 12 < 2 ^ 32
    → r ≤ room
    → room < r + 20
    → malloc_from x (r + 12) h ≡ (
        remove_from_freelist x (record h { size = store h.size x room }) >>= λ h3.
        ok (x + overhead, h3))
unfolding malloc_from
malloc_from-whole h x room r size even bound fit small =
    let chunk : u32 (real_size (h.size x) + 12) ≡ room + 12 = ground (arith, size) in
    let test : ltb (u32 (room + 12 + (2 ^ 32 - (r + 12)))) 20 ≡ true = ground arith in
    let back : (room + 12 - 12) / 2 * 2 ≡ room = omega arith in rw chunk (rw test (rw back refl))

-- `malloc_from` where the rest becomes a block.
pub malloc_from-split :
    (h : Heap) (x room r : ℕ)
    → h.size x ≡ room + 1
    → room % 2 ≡ 0
    → r % 2 ≡ 0
    → room + 12 < 2 ^ 32
    → r + 20 ≤ room
    → malloc_from x (r + 12) h ≡ (
        split_off x
          (x + (r + 12))
          (get_next_block x h)
          (room - r)
          (record h { size = store h.size x r })
        >>= λ h2. remove_from_freelist x h2 >>= λ h3. ok (x + overhead, h3))
unfolding malloc_from
malloc_from-split h x room r size even even_r bound fit =
    let chunk : u32 (real_size (h.size x) + 12) ≡ room + 12 = ground (arith, size) in
    let rest : u32 (room + 12 + (2 ^ 32 - (r + 12))) ≡ room - r = omega arith in
    let test : ltb (room - r) 20 ≡ false = ground arith in
    let back : (r + 12 - 12) / 2 * 2 ≡ r = omega arith in
    rw chunk (rw rest (rw test (rw back refl)))

-- The heap after a write to the size of the block `x`, a new block `t` behind it that is linked to
-- `following`, and the tail `tail`.
abbrev pub with_rest : Heap → ℕ → ℕ → ℕ → ℕ → ℕ → ℕ → Heap
with_rest h x r t room following tail = record h {
  size = store (store h.size x r) t (room + 1);
  next = store (store h.next t following) x t;
  tail = tail;
}

-- The row after a split.
pub IsRow-of_split :
    (h : Heap) (left : List Chunk) (c : Chunk) (right rest : List Chunk) (r room tail : ℕ)
    (f : ℕ → ℕ) (a : ℕ)
    → IsRow h (left ++ (c ∷ right))
    → r % 2 ≡ 0
    → room % 2 ≡ 0
    → Layout (c.at + 12 + r + 12 + room) rest h.heap_top
    → Segment h.size h.next rest 0
    → is_at c.at rest ≡ false
    → tail ≡ last rest (c.at + (r + 12))
    → IsRow
        (record (with_rest h c.at r (c.at + (r + 12)) room (first rest 0) tail) {
          nextfree = f;
          freelist = a;
        })
        (left
          ++ (record { at = c.at; room = r; free = false }
              ∷ record { at = c.at + (r + 12); room = room; free = true }
              ∷ rest))
IsRow-of_split h left c right rest r room tail f a row even_r even lay seg out tail_eq =
    let w = Around-chunk h left c right row in
    let t : ℕ = c.at + (r + 12) in
    let lay' : Layout (t + 12 + room) rest h.heap_top =
      subst (λ n. Layout n rest h.heap_top) (omega arith) lay in
    let t_left = not_at_outside (h.vm_start + 12) left c.at t w.left_layout (inr (omega arith)) in
    let t_rest = not_at_outside (t + 12 + room) rest h.heap_top t lay' (inl (omega arith)) in
    let size' = store h.size c.at r in
    let next' = store h.next t (first rest 0) in
    let apart : (t == c.at) ≡ false = ground arith in
    let h' : Heap = record (with_rest h c.at r t room (first rest 0) tail) {
      nextfree = f;
      freelist = a;
    } in
    rebuild h h' left c right (record { at = c.at; room = r; free = false })
      (record { at = t; room = room; free = true } ∷ rest) row refl refl refl refl refl tail_eq
      w.left_layout (refl, even_r, (omega arith, even, lay))
      (Segment-next h'.size next' c.at t left c.at w.outside_left (
        Segment-next h'.size h.next t (first rest 0) left c.at t_left (
          Segment-size size' h.next t (room + 1) left c.at t_left
            (Segment-size h.size h.next c.at r left c.at w.outside_left w.left_segment))))
      (
        ground (arith, apart),
        ground (arith, apart),
        (
          ground arith,
          ground (arith, apart),
          Segment-next h'.size next' c.at t rest 0 out (
              Segment-next h'.size h.next t (first rest 0) rest 0 t_rest (
                Segment-size size' h.next t (room + 1) rest 0 t_rest
                  (Segment-size h.size h.next c.at r rest 0 out seg))),
        ),
      )
