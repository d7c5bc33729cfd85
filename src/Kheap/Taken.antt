-- ===== src/Kheap/Taken.antt =====
-- What `__do_malloc` of src/kernel/memory/kheap.c makes of the free block it has found.
use hos.Base.{
  ℕ, ◌+◌, ◌^◌, ◌<◌, ◌≤◌, ◌≡◌, refl, ap, ◌∙◌, store, Bool, true, false, ◌||◌, ◌==◌, if◌then◌else◌,
  List, ◌∷◌, ◌++◌, arith, inl, inr, is_in, remove,
}
use hos.Kheap.{Heap, Run, ok, ◌>>=◌, overhead, remove_from_freelist, malloc_from}
use hos.Kheap.Chunks.{
  Chunk, Layout-le, is_at, is_at-append, is_free_at, is_free_at-append, last-append,
  not_free_at_outside,
}
use hos.Kheap.Segments.{Segment-size}
use hos.Kheap.Represents.{
  merged_to, merged_to-used, merged_join, merged_parts, merged_free, is_free_first, IsRow,
  IsFreeList, IsHeap,
}
use hos.Kheap.Pieces.{live, live-append, Around, Around-chunk, rebuild}
use hos.Kheap.Split.{take_off, malloc_from-whole}

-- The run returns the room of a new chunk in use at `p`, of exactly `room` bytes, between the chunks in
-- use `lower` and `upper`.
pub record Given (h : Heap) (lower upper : List (ℕ × ℕ)) (p room : ℕ) (run : Run (ℕ × Heap))
    : Type 0 where
  pub heap : Heap
  pub chunks : List Chunk
  pub frees : List ℕ
  pub runs : run ≡ ok (p + overhead, heap)
  pub is_heap : IsHeap heap chunks frees
  pub live_eq : live chunks ≡ lower ++ ((p, room) ∷ upper)
  pub same_start : heap.vm_start ≡ h.vm_start
  pub same_end : heap.vm_end ≡ h.vm_end
  pub grown : h.heap_top ≤ heap.heap_top

abbrev pub taken_chunk : ℕ → ℕ → Chunk
taken_chunk x room = record { at = x; room = room; free = false }

-- A block of the row that has been marked as taken is taken off the free list.
pub finish :
    (h h2 : Heap) (left : List Chunk) (x room : ℕ) (ds : List Chunk) (fs : List ℕ)
    (upper : List (ℕ × ℕ))
    → IsRow h2 (left ++ (taken_chunk x room ∷ ds))
    → IsFreeList h2 fs
    → is_free_at x left ≡ false
    → is_free_at x ds ≡ false
    → ((y : ℕ) → is_in y fs ≡ ((x == y) || (is_free_at y left || is_free_at y ds)))
    → merged_to left false ≡ true
    → merged_to ds false ≡ true
    → live ds ≡ upper
    → h2.vm_start ≡ h.vm_start
    → h2.vm_end ≡ h.vm_end
    → h2.heap_top ≡ h.heap_top
    → Given h (live left) upper x room (remove_from_freelist x h2 >>= λ h3. ok (x + overhead, h3))
finish h h2 left x room ds fs upper row list out_left out_right iff left_merged ds_merged live_ds
      start end top =
    let d = taken_chunk x room in
    let here : is_at x (left ++ (d ∷ ds)) ≡ true = ground (arith, is_at-append x left (d ∷ ds)) in
    let used : is_free_at x (left ++ (d ∷ ds)) ≡ false =
      ground (arith, is_free_at-append x left (d ∷ ds), out_left, out_right) in
    let (f, a, runs, heap) =
      take_off h2 (left ++ (d ∷ ds)) fs x row list here used
        (λ y. ground (arith, iff y, is_free_at-append y left (d ∷ ds)))
        (merged_join left d ds left_merged ds_merged) in
    record {
      heap = record h2 { nextfree = f; freelist = a };
      chunks = left ++ (d ∷ ds);
      frees = remove x fs;
      runs = rw runs refl;
      is_heap = heap;
      live_eq = live-append left (d ∷ ds) ∙ ap (λ l. live left ++ ((x, room) ∷ l)) live_ds;
      same_start = start;
      same_end = end;
      grown = omega (arith, top);
    }

-- The row after a write to the size of one of its blocks that changes its mark alone.
pub IsRow-of_mark :
    (h : Heap) (left : List Chunk) (c : Chunk) (right : List Chunk) (v : ℕ) (b : Bool) (f : ℕ → ℕ)
    (a : ℕ)
    → IsRow h (left ++ (c ∷ right))
    → v ≡ c.room + (if b then 1 else 0)
    → IsRow
        (record h { size = store h.size c.at v; nextfree = f; freelist = a })
        (left ++ (record { at = c.at; room = c.room; free = b } ∷ right))
IsRow-of_mark h left c right v b f a row value =
    let w = Around-chunk h left c right row in
    rebuild h (record h { size = store h.size c.at v; nextfree = f; freelist = a }) left c right
      (record { at = c.at; room = c.room; free = b }) right row refl refl refl refl refl
      (row.tail_eq ∙ last-append left c right 0) w.left_layout (refl, w.even, w.right_layout)
      (Segment-size h.size h.next c.at v left c.at w.outside_left w.left_segment)
      (
        ground (arith, value),
        w.link,
        Segment-size h.size h.next c.at v right 0 w.outside_right w.right_segment,
      )

-- The parts of a heap around a free block.
pub record FreeBlock (h : Heap) (left : List Chunk) (c : Chunk) (right : List Chunk) (fs : List ℕ)
    : Type 0 where
  pub w : Around h left c right
  pub out_left : is_free_at c.at left ≡ false
  pub out_right : is_free_at c.at right ≡ false
  pub size_eq : h.size c.at ≡ c.room + 1
  pub bound : c.at + 12 + c.room < 2 ^ 32
  pub iff : (y : ℕ) → is_in y fs ≡ ((c.at == y) || (is_free_at y left || is_free_at y right))
  pub left_merged : merged_to left false ≡ true
  pub right_merged : merged_to right false ≡ true
  pub next_used : is_free_first right ≡ false

pub FreeBlock-parts :
    (h : Heap) (left : List Chunk) (c : Chunk) (right : List Chunk) (fs : List ℕ)
    → IsHeap h (left ++ (c ∷ right)) fs
    → c.free ≡ true
    → FreeBlock h left c right fs
FreeBlock-parts h left c right fs heap free =
    let w = Around-chunk h left c right heap.row in
    let le = Layout-le (c.at + overhead + c.room) right h.heap_top w.right_layout in
    let (left_merged, rest_merged) = merged_parts left c right heap.merged in
    let (next_used, right_merged) = merged_free c right free rest_merged in
    record {
      left_merged = merged_to-used left c.free left_merged;
      right_merged = right_merged;
      next_used = next_used;
      w = w;
      out_left =
          not_free_at_outside (h.vm_start + 12) left c.at c.at w.left_layout (inr (omega arith));
      out_right =
          not_free_at_outside (c.at + overhead + c.room) right h.heap_top c.at w.right_layout
            (inl (omega arith));
      size_eq = w.size_eq ∙ ground (arith, free);
      bound = omega (arith, le, heap.row.within, heap.row.bounded);
      iff = λ y. ground (arith, heap.free_iff y, is_free_at-append y left (c ∷ right), free);
    }

pub Given-whole :
    (h : Heap) (left : List Chunk) (c : Chunk) (right : List Chunk) (fs : List ℕ) (r : ℕ)
    → IsHeap h (left ++ (c ∷ right)) fs
    → c.free ≡ true
    → r ≤ c.room
    → c.room < r + 20
    → Given h (live left) (live right) c.at c.room (malloc_from c.at (r + 12) h)
Given-whole h left c right fs r heap free fit small =
    let b = FreeBlock-parts h left c right fs heap free in
    let h2 : Heap = record h { size = store h.size c.at c.room } in
    rw (malloc_from-whole h c.at c.room r b.size_eq b.w.even (omega (arith, b.bound)) fit small) (
      finish h h2 left c.at c.room right fs (live right)
        (IsRow-of_mark h left c right c.room false h.nextfree h.freelist heap.row (ground arith))
        (record { chain = heap.list.chain; distinct = heap.list.distinct }) b.out_left b.out_right
        b.iff b.left_merged b.right_merged refl refl refl refl)
