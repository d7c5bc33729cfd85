-- ===== src/Kheap/FreeCases.antt =====
-- `__do_free` of src/kernel/memory/kheap.c where the block behind is in use.
use mathlib.Core.Path.{subst}
use hos.Base.{
  true, ◌||◌, is_in, ◌==◌, ℕ, ◌+◌, ◌≡◌, refl, sym, ap, ◌∙◌, store, true, false, ◌||◌, ◌==◌,
  if◌then◌else◌, List, ◌∷◌, ◌++◌, arith, is_in,
}
use hos.Kheap.{Heap, Run, ok, overhead, block_is_free, merge_free}
use hos.Kheap.Chunks.{Chunk, Layout, Layout-le, first, last, last-append}
use hos.Kheap.FreeList.{FreeChain-push}
use hos.Kheap.Represents.{
  merged_to, merged_parts, merged_tail, merged_cons, merged_join, is_free_first, IsHeap,
}
use hos.Kheap.Pieces.{live, live-append, Around-chunk}
use hos.Kheap.Merge.{merge_free-none, merge_free-prev}
use hos.Kheap.Taken.{IsRow-of_mark}
use hos.Kheap.Join.{
  free_chunk, IsRow-of_join, tail_moved, is_free_at-free, is_free_at-used, is_free_at-prev,
  not_free_in,
}

-- The run leaves the chunks in use `lower` and `upper`.
pub record Freed (h : Heap) (lower upper : List (ℕ × ℕ)) (run : Run Heap) : Type 0 where
  pub heap : Heap
  pub chunks : List Chunk
  pub frees : List ℕ
  pub runs : run ≡ ok heap
  pub is_heap : IsHeap heap chunks frees
  pub live_eq : live chunks ≡ lower ++ upper
  pub same_start : heap.vm_start ≡ h.vm_start
  pub same_end : heap.vm_end ≡ h.vm_end
  pub same_top : heap.heap_top ≡ h.heap_top

-- Neither neighbour is free.
pub Freed-none :
    (h : Heap) (left : List Chunk) (c : Chunk) (right : List Chunk) (fs : List ℕ) (prev : ℕ)
    → IsHeap h (left ++ (c ∷ right)) fs
    → c.free ≡ false
    → block_is_free h prev ≡ false
    → block_is_free h (first right 0) ≡ false
    → merged_to left true ≡ true
    → is_free_first right ≡ false
    → Freed h (live left) (live right) (merge_free c.at prev (first right 0) h)
Freed-none h left c right fs prev heap used prev_used next_used left_merged next_bit =
    let right_merged : merged_to right false ≡ true =
      merged_tail c right (merged_parts left c right heap.merged).1 in
    let w = Around-chunk h left c right heap.row in
    let size : h.size c.at ≡ c.room = w.size_eq ∙ ground (arith, used) in
    let le = Layout-le (h.vm_start + 12) left c.at w.left_layout in
    let iff = λ (y : ℕ). heap.free_iff y ∙ is_free_at-used y left c right used in
    let out : is_in c.at fs ≡ false =
      iff c.at
      ∙ not_free_in (h.vm_start + 12) c.at (c.at + overhead + c.room) h.heap_top left right
          (omega arith) w.left_layout w.right_layout in
    record {
      heap = record h {
        size = store h.size c.at (c.room + 1);
        nextfree = store h.nextfree c.at h.freelist;
        freelist = c.at;
      };
      chunks = left ++ (free_chunk c.at c.room ∷ right);
      frees = c.at ∷ fs;
      runs = merge_free-none h c.at prev (first right 0) c.room prev_used next_used size w.even;
      is_heap = record {
        row =
            IsRow-of_mark h left c right (c.room + 1) true (store h.nextfree c.at h.freelist) c.at
              heap.row refl;
        list = record {
          chain = FreeChain-push h.nextfree h.freelist c.at fs heap.list.chain out (omega arith);
          distinct = (out, heap.list.distinct);
        };
        free_iff = λ y.
            ap (λ b. (c.at == y) || b) (iff y) ∙ sym (is_free_at-free y left c.at c.room right);
        merged =
            merged_join left (free_chunk c.at c.room) right left_merged
              (merged_cons (free_chunk c.at c.room) right next_bit right_merged);
      };
      live_eq = live-append left (free_chunk c.at c.room ∷ right);
      same_start = refl;
      same_end = refl;
      same_top = refl;
    }

-- The block in front is free.
pub Freed-prev :
    (h : Heap) (left : List Chunk) (p c : Chunk) (right : List Chunk) (fs : List ℕ)
    → IsHeap h (left ++ (p ∷ c ∷ right)) fs
    → p.free ≡ true
    → c.free ≡ false
    → block_is_free h p.at ≡ true
    → block_is_free h (first right 0) ≡ false
    → is_free_first right ≡ false
    → Freed h (live left) (live right) (merge_free c.at p.at (first right 0) h)
Freed-prev h left p c right fs heap free used prev_free next_used next_bit =
    let (left_merged, rest_merged) = merged_parts left p (c ∷ right) heap.merged in
    let right_merged = merged_tail c right (merged_tail p (c ∷ right) rest_merged) in
    let w = Around-chunk h left p (c ∷ right) heap.row in
    let (here, even, lay) = w.right_layout in
    let (c_size, c_link, seg) = w.right_segment in
    let k : ℕ = p.room + 12 + c.room in
    let top = Layout-le (p.at + overhead + p.room + overhead + c.room) right h.heap_top lay in
    let tail' : (if h.tail == c.at then p.at else h.tail) ≡ last right p.at =
      tail_moved c.at (p.at + overhead + p.room + overhead + c.room) h.heap_top h.tail p.at right
        (omega (arith, here)) lay (heap.row.tail_eq ∙ last-append left p (c ∷ right) 0) in
    record {
      heap = record h {
        size = store h.size p.at (k + 1);
        next = store h.next p.at (first right 0);
        tail = if h.tail == c.at then p.at else h.tail;
      };
      chunks = left ++ (free_chunk p.at k ∷ right);
      frees = fs;
      runs =
          merge_free-prev h c.at p.at (first right 0) c.room p.room prev_free next_used
            (c_size ∙ ground (arith, used)) (w.size_eq ∙ ground (arith, free)) even w.even
            (omega (arith, top, heap.row.within, heap.row.bounded));
      is_heap = record {
        row =
            IsRow-of_join h left p (c ∷ right) right k (if h.tail == c.at then p.at else h.tail)
              h.nextfree h.freelist heap.row (omega (arith, even, w.even))
              (subst (λ n. Layout n right h.heap_top) (omega arith) lay) seg tail';
        list = record { chain = heap.list.chain; distinct = heap.list.distinct };
        free_iff = λ y.
            heap.free_iff y
            ∙ is_free_at-prev y left p c right free used
            ∙ sym (is_free_at-free y left p.at k right);
        merged =
            merged_join left (free_chunk p.at k) right
              (subst (λ b. merged_to left b ≡ true) free left_merged)
              (merged_cons (free_chunk p.at k) right next_bit right_merged);
      };
      live_eq = live-append left (free_chunk p.at k ∷ right);
      same_start = refl;
      same_end = refl;
      same_top = refl;
    }
