-- ===== src/Kheap/Free.antt =====
-- What `__do_free` of src/kernel/memory/kheap.c makes of the heap.
use mathlib.Core.Path.{subst}
use hos.Base.{
  ℕ, ◌+◌, ◌-◌, ◌^◌, ◌≡◌, refl, sym, ap, ◌∙◌, u32, true, false, ◌==◌, List, [], ◌∷◌, ◌++◌,
  append_assoc, append-nil, arith, Bool-cases, inl, inr,
}
use hos.Kheap.{Heap, overhead, block_is_free, merge_free, do_free}
use hos.Kheap.Chunks.{Chunk, Layout-le, first, last, last-append}
use hos.Kheap.Represents.{
  merged_to, merged_parts, merged_to-append, IsRow, IsHeap, get_next_block-first, is_free_first,
  block_is_free-first,
}
use hos.Kheap.Pieces.{live, live-append, Around-chunk}
use hos.Kheap.Merge.{get_previous_block-last}
use hos.Kheap.FreeCases.{Freed, Freed-none, Freed-prev}
use hos.Kheap.FreeNext.{Freed-next, Freed-both}

-- The free bit of the first block behind a chunk.
behind_free :
    (h : Heap) (left : List Chunk) (c : Chunk) (right : List Chunk)
    → IsRow h (left ++ (c ∷ right))
    → block_is_free h (first right 0) ≡ is_free_first right
behind_free h left c right row =
    let w = Around-chunk h left c right row in
    block_is_free-first h (c.at + overhead + c.room) h.heap_top right (omega arith) w.right_layout
      w.right_segment

-- The block in front is in use, or there is none.
Freed-behind_used :
    (h : Heap) (left : List Chunk) (c : Chunk) (right : List Chunk) (fs : List ℕ) (prev : ℕ)
    → IsHeap h (left ++ (c ∷ right)) fs
    → c.free ≡ false
    → block_is_free h prev ≡ false
    → merged_to left true ≡ true
    → Freed h (live left) (live right) (merge_free c.at prev (first right 0) h)
Freed-behind_used h left c [] fs prev heap used prev_used left_merged =
    Freed-none h left c [] fs prev heap used prev_used (behind_free h left c [] heap.row)
      left_merged refl
Freed-behind_used h left c (e ∷ rest) fs prev heap used prev_used left_merged =
    elim (Bool-cases e.free) [
      | inl free ↦
          let live_e : live (e ∷ rest) ≡ live rest = rw free refl in
          rw live_e (
            Freed-next h left c e rest fs prev heap used free prev_used
              (behind_free h left c (e ∷ rest) heap.row ∙ free) left_merged)
      | inr e_used ↦
          Freed-none h left c (e ∷ rest) fs prev heap used prev_used
            (behind_free h left c (e ∷ rest) heap.row ∙ e_used) left_merged e_used
    ]

-- The block in front is free.
Freed-behind_free :
    (h : Heap) (left : List Chunk) (p c : Chunk) (right : List Chunk) (fs : List ℕ)
    → IsHeap h (left ++ (p ∷ c ∷ right)) fs
    → p.free ≡ true
    → c.free ≡ false
    → block_is_free h p.at ≡ true
    → block_is_free h (first right 0) ≡ is_free_first right
    → Freed h (live left) (live right) (merge_free c.at p.at (first right 0) h)
Freed-behind_free h left p c [] fs heap free used prev_free next =
    Freed-prev h left p c [] fs heap free used prev_free next refl
Freed-behind_free h left p c (e ∷ rest) fs heap free used prev_free next =
    elim (Bool-cases e.free) [
      | inl free' ↦
          let live_e : live (e ∷ rest) ≡ live rest = rw free' refl in
          rw live_e (Freed-both h left p c e rest fs heap free used free' prev_free (next ∙ free'))
      | inr e_used ↦
          Freed-prev h left p c (e ∷ rest) fs heap free used prev_free (next ∙ e_used) e_used
    ]

-- The last chunk of a row.
snoc :
    (c : Chunk) (cs : List Chunk)
    → (front : List Chunk) × (e : Chunk) × (c ∷ cs ≡ front ++ (e ∷ []))
snoc c [] = ([], c, refl)
snoc c (d ∷ ds) = let (front, e, same) = snoc d ds in (c ∷ front, e, ap (λ l. c ∷ l) same)

block_is_free-null : (h : Heap) → block_is_free h 0 ≡ false
unfolding block_is_free
block_is_free-null h = refl

merged_snoc :
    (cs : List Chunk) (p : Chunk)
    → p.free ≡ false
    → merged_to cs p.free ≡ true
    → merged_to (cs ++ (p ∷ [])) true ≡ true
merged_snoc cs p used h = merged_to-append cs p [] true ∙ ground (arith, used, h)

Freed-behind :
    (h : Heap) (front : List Chunk) (p c : Chunk) (right : List Chunk) (fs : List ℕ)
    → IsHeap h ((front ++ (p ∷ [])) ++ (c ∷ right)) fs
    → c.free ≡ false
    → Freed h
        (live (front ++ (p ∷ [])))
        (live right)
        (merge_free c.at (last (front ++ (p ∷ [])) 0) (first right 0) h)
Freed-behind h front p c right fs heap used =
    let same : (front ++ (p ∷ [])) ++ (c ∷ right) ≡ front ++ (p ∷ c ∷ right) =
      append_assoc front (p ∷ []) (c ∷ right) in
    let heap' : IsHeap h (front ++ (p ∷ c ∷ right)) fs = subst (λ l. IsHeap h l fs) same heap in
    let prev : last (front ++ (p ∷ [])) 0 ≡ p.at = last-append front p [] 0 in
    let w = Around-chunk h front p (c ∷ right) heap'.row in
    let prev_free : block_is_free h p.at ≡ p.free =
      block_is_free-first h p.at h.heap_top (p ∷ c ∷ right)
        (omega (arith, Layout-le (h.vm_start + 12) front p.at w.left_layout))
        (refl, w.even, w.right_layout) (w.size_eq, w.link, w.right_segment) in
    elim (Bool-cases p.free) [
      | inl free ↦
          let live_p : live (front ++ (p ∷ [])) ≡ live front =
            live-append front (p ∷ []) ∙ rw free (append-nil (live front)) in
          rw prev (
            rw live_p (
              Freed-behind_free h front p c right fs heap' free used (prev_free ∙ free)
                (behind_free h (front ++ (p ∷ [])) c right heap.row)))
      | inr p_used ↦ rw prev (
          Freed-behind_used h (front ++ (p ∷ [])) c right fs p.at heap used (prev_free ∙ p_used)
            (merged_snoc front p p_used (merged_parts front p (c ∷ right) heap'.merged).0))
    ]

Freed-merge :
    (h : Heap) (left : List Chunk) (c : Chunk) (right : List Chunk) (fs : List ℕ)
    → IsHeap h (left ++ (c ∷ right)) fs
    → c.free ≡ false
    → Freed h (live left) (live right) (merge_free c.at (last left 0) (first right 0) h)
Freed-merge h [] c right fs heap used =
    Freed-behind_used h [] c right fs 0 heap used (block_is_free-null h) refl
Freed-merge h (d ∷ ds) c right fs heap used =
    let (front, p, same) = snoc d ds in
    subst (λ l. Freed h (live l) (live right) (merge_free c.at (last l 0) (first right 0) h))
      (sym same)
      (Freed-behind h front p c right fs (subst (λ l. IsHeap h (l ++ (c ∷ right)) fs) same heap)
        used)

-- On a heap as it should be, `__do_free` of the room of a chunk in use returns, and the heap is
-- again as it should be, with the other chunks in use where they were and as large, and no two free
-- chunks next to each other.
pub do_free-Freed :
    (h : Heap) (left : List Chunk) (c : Chunk) (right : List Chunk) (fs : List ℕ)
    → IsHeap h (left ++ (c ∷ right)) fs
    → c.free ≡ false
    → Freed h (live left) (live right) (do_free (c.at + 12) h)
unfolding do_free
do_free-Freed h left c right fs heap used =
    let w = Around-chunk h left c right heap.row in
    let top = Layout-le (c.at + overhead + c.room) right h.heap_top w.right_layout in
    let some : (c.at + 12 == 0) ≡ false = ground arith in
    let curr : u32 (c.at + 12 + (2 ^ 32 - overhead)) ≡ c.at =
      omega (arith, top, heap.row.within, heap.row.bounded) in
    let behind =
      get_next_block-first h (h.vm_start + 12) h.heap_top left c right heap.row.tail_eq
        heap.row.layout heap.row.segment in
    rw some (
      rw curr (
        rw (get_previous_block-last h left c right heap.row)
          (rw behind (Freed-merge h left c right fs heap used))))
