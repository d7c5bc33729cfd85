-- ===== src/Kheap/FreeNext.antt =====
-- `__do_free` of src/kernel/memory/kheap.c where the block behind is free.
use mathlib.Core.Path.{subst}
use hos.Base.{
  true, ◌||◌, is_in, ◌==◌, ℕ, ◌+◌, ◌<◌, ◌≡◌, refl, sym, ap, ◌∙◌, store, true, false, ◌||◌, ◌==◌,
  if◌then◌else◌, List, ◌∷◌, ◌++◌, arith, inl, inr, is_in, remove, IsDistinct-remove,
}
use hos.Kheap.{Heap, ok, overhead, block_is_free, remove_from_freelist, get_next_block, merge_free}
use hos.Kheap.Chunks.{
  Chunk, Layout, Layout-le, is_at-of_free, first, last, last-append, not_free_at_outside,
}
use hos.Kheap.FreeList.{FreeChain, FreeChain-push, remove_from_freelist-chain}
use hos.Kheap.Represents.{
  merged_to, merged_parts, merged_tail, merged_cons, merged_free, merged_join, IsHeap, enough_fuel,
}
use hos.Kheap.Pieces.{live, live-append, Around-chunk}
use hos.Kheap.Merge.{merge_free-next, merge_free-both}
use hos.Kheap.SplitOff.{next_after}
use hos.Kheap.Join.{
  holds_first, free_chunk, IsRow-of_join, tail_moved, free_in, is_free_at-free, is_free_at-next,
  is_free_at-both, not_free_in, is_in-without,
}
use hos.Kheap.FreeCases.{Freed}

-- The block `e` is taken off the free list of a heap with other sizes and links.
unlisted :
    (h : Heap) (cs : List Chunk) (fs : List ℕ) (size next : ℕ → ℕ) (tail e : ℕ)
    → IsHeap h cs fs
    → is_in e fs ≡ true
    → (f : ℕ → ℕ) × (a : ℕ) × (remove_from_freelist e
          (record h { size = size; next = next; tail = tail })
        ≡ ok (record h { size = size; next = next; tail = tail; nextfree = f; freelist = a }))
      × FreeChain f a (remove e fs)
unlisted h cs fs size next tail e heap member =
    remove_from_freelist-chain (record h { size = size; next = next; tail = tail }) e fs
      (enough_fuel h cs fs heap.row heap.list
        (λ y m. is_at-of_free y cs (sym (heap.free_iff y) ∙ m)))
      heap.list.chain heap.list.distinct member

-- The block behind is free.
pub Freed-next :
    (h : Heap) (left : List Chunk) (c e : Chunk) (rest : List Chunk) (fs : List ℕ) (prev : ℕ)
    → IsHeap h (left ++ (c ∷ e ∷ rest)) fs
    → c.free ≡ false
    → e.free ≡ true
    → block_is_free h prev ≡ false
    → block_is_free h e.at ≡ true
    → merged_to left true ≡ true
    → Freed h (live left) (live rest) (merge_free c.at prev e.at h)
Freed-next h left c e rest fs prev heap used free prev_used next_free left_merged =
    let (next_bit, right_merged) =
      merged_free e rest free
        (merged_tail c (e ∷ rest) (merged_parts left c (e ∷ rest) heap.merged).1) in
    let w = Around-chunk h left c (e ∷ rest) heap.row in
    let (here, even, lay) = w.right_layout in
    let (e_size, e_link, seg) = w.right_segment in
    let k : ℕ = c.room + 12 + e.room in
    let from : ℕ = c.at + overhead + c.room + overhead + e.room in
    let lt : e.at < from = omega (arith, here) in
    let le = Layout-le (h.vm_start + 12) left c.at w.left_layout in
    let top = Layout-le from rest h.heap_top lay in
    let old_tail : h.tail ≡ last rest e.at = heap.row.tail_eq ∙ last-append left c (e ∷ rest) 0 in
    let tail' : (if h.tail == e.at then c.at else h.tail) ≡ last rest c.at =
      tail_moved e.at from h.heap_top h.tail c.at rest lt lay old_tail in
    let behind : get_next_block e.at h ≡ first rest 0 =
      next_after e.at from h.heap_top h.tail (h.next e.at) rest lt lay old_tail e_link in
    let iff = λ (y : ℕ). heap.free_iff y ∙ is_free_at-next y left c e rest used free in
    let e_out : free_in e.at left rest ≡ false = ground (
      arith,
      not_free_at_outside (h.vm_start + 12) left c.at e.at w.left_layout
          (inr (omega (arith, here))),
      not_free_at_outside from rest h.heap_top e.at lay (inl lt),
    ) in
    let c_out : free_in c.at left rest ≡ false =
      not_free_in (h.vm_start + 12) c.at from h.heap_top left rest (omega arith) w.left_layout
        lay in
    let without = λ (y : ℕ).
      is_in-without (λ x. free_in x left rest) e.at y fs heap.list.distinct e_out (iff y) in
    let (f, a, runs, chain) =
      unlisted h (left ++ (c ∷ e ∷ rest)) fs (store h.size c.at (k + 1))
        (store h.next c.at (first rest 0)) (if h.tail == e.at then c.at else h.tail) e.at heap
        (holds_first e.at (is_in e.at fs) (free_in e.at left rest) (iff e.at)) in
    record {
      heap = record h {
        size = store h.size c.at (k + 1);
        next = store h.next c.at (first rest 0);
        tail = if h.tail == e.at then c.at else h.tail;
        nextfree = store f c.at a;
        freelist = c.at;
      };
      chunks = left ++ (free_chunk c.at k ∷ rest);
      frees = c.at ∷ remove e.at fs;
      runs =
          merge_free-next h c.at prev e.at c.room e.room prev_used next_free
            (w.size_eq ∙ ground (arith, used)) (e_size ∙ ground (arith, free)) w.even even
            (omega (arith, top, heap.row.within, heap.row.bounded))
          ∙ rw behind (rw runs refl);
      is_heap = record {
        row =
            IsRow-of_join h left c (e ∷ rest) rest k (if h.tail == e.at then c.at else h.tail)
              (store f c.at a) c.at heap.row (omega (arith, even, w.even))
              (subst (λ n. Layout n rest h.heap_top) (omega arith) lay) seg tail';
        list = record {
          chain =
              FreeChain-push f a c.at (remove e.at fs) chain (without c.at ∙ c_out) (omega arith);
          distinct = (without c.at ∙ c_out, IsDistinct-remove e.at fs heap.list.distinct);
        };
        free_iff =
            λ y. ap (λ b. (c.at == y) || b) (without y) ∙ sym (is_free_at-free y left c.at k rest);
        merged =
            merged_join left (free_chunk c.at k) rest left_merged
              (merged_cons (free_chunk c.at k) rest next_bit right_merged);
      };
      live_eq = live-append left (free_chunk c.at k ∷ rest);
      same_start = refl;
      same_end = refl;
      same_top = refl;
    }

-- Both neighbours are free.
pub Freed-both :
    (h : Heap) (left : List Chunk) (p c e : Chunk) (rest : List Chunk) (fs : List ℕ)
    → IsHeap h (left ++ (p ∷ c ∷ e ∷ rest)) fs
    → p.free ≡ true
    → c.free ≡ false
    → e.free ≡ true
    → block_is_free h p.at ≡ true
    → block_is_free h e.at ≡ true
    → Freed h (live left) (live rest) (merge_free c.at p.at e.at h)
Freed-both h left p c e rest fs heap free used free' prev_free next_free =
    let (left_merged, rest_merged) = merged_parts left p (c ∷ e ∷ rest) heap.merged in
    let (next_bit, right_merged) =
      merged_free e rest free'
        (merged_tail c (e ∷ rest) (merged_tail p (c ∷ e ∷ rest) rest_merged)) in
    let w = Around-chunk h left p (c ∷ e ∷ rest) heap.row in
    let (c_here, c_even, (here, even, lay)) = w.right_layout in
    let (c_size, c_link, (e_size, e_link, seg)) = w.right_segment in
    let k : ℕ = p.room + 24 + c.room + e.room in
    let from : ℕ = p.at + overhead + p.room + overhead + c.room + overhead + e.room in
    let lt : e.at < from = omega (arith, here) in
    let top = Layout-le from rest h.heap_top lay in
    let old_tail : h.tail ≡ last rest e.at =
      heap.row.tail_eq ∙ last-append left p (c ∷ e ∷ rest) 0 in
    let tail' : (if h.tail == e.at then p.at else h.tail) ≡ last rest p.at =
      tail_moved e.at from h.heap_top h.tail p.at rest lt lay old_tail in
    let behind : get_next_block e.at h ≡ first rest 0 =
      next_after e.at from h.heap_top h.tail (h.next e.at) rest lt lay old_tail e_link in
    let iff = λ (y : ℕ). heap.free_iff y ∙ is_free_at-both y left p c e rest free used free' in
    let apart : (p.at == e.at) ≡ false = ground (arith, here) in
    let e_out : ((p.at == e.at) || free_in e.at left rest) ≡ false = ground (
      arith,
      apart,
      not_free_at_outside (h.vm_start + 12) left p.at e.at w.left_layout
          (inr (omega (arith, here))),
      not_free_at_outside from rest h.heap_top e.at lay (inl lt),
    ) in
    let without = λ (y : ℕ).
      is_in-without (λ x. (p.at == x) || free_in x left rest) e.at y fs heap.list.distinct e_out
        (iff y) in
    let (f, a, runs, chain) =
      unlisted h (left ++ (p ∷ c ∷ e ∷ rest)) fs (store h.size p.at (k + 1))
        (store h.next p.at (first rest 0)) (if h.tail == e.at then p.at else h.tail) e.at heap
        (holds_first e.at (is_in e.at fs) ((p.at == e.at) || free_in e.at left rest) (iff e.at)) in
    record {
      heap = record h {
        size = store h.size p.at (k + 1);
        next = store h.next p.at (first rest 0);
        tail = if h.tail == e.at then p.at else h.tail;
        nextfree = f;
        freelist = a;
      };
      chunks = left ++ (free_chunk p.at k ∷ rest);
      frees = remove e.at fs;
      runs =
          merge_free-both h c.at p.at e.at c.room p.room e.room prev_free next_free
            (c_size ∙ ground (arith, used)) (w.size_eq ∙ ground (arith, free))
            (e_size ∙ ground (arith, free')) c_even w.even even
            (omega (arith, top, heap.row.within, heap.row.bounded))
          ∙ rw behind runs;
      is_heap = record {
        row =
            IsRow-of_join h left p (c ∷ e ∷ rest) rest k (if h.tail == e.at then p.at else h.tail) f
              a heap.row (omega (arith, even, c_even, w.even))
              (subst (λ n. Layout n rest h.heap_top) (omega arith) lay) seg tail';
        list = record { chain = chain; distinct = IsDistinct-remove e.at fs heap.list.distinct };
        free_iff = λ y. without y ∙ sym (is_free_at-free y left p.at k rest);
        merged =
            merged_join left (free_chunk p.at k) rest
              (subst (λ b. merged_to left b ≡ true) free left_merged)
              (merged_cons (free_chunk p.at k) rest next_bit right_merged);
      };
      live_eq = live-append left (free_chunk p.at k ∷ rest);
      same_start = refl;
      same_end = refl;
      same_top = refl;
    }
