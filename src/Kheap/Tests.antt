-- ===== src/Kheap/Tests.antt =====
-- Runs of the block allocator, and its theorems at a heap of two chunks.
use hos.Base.{ℕ, ◌≡◌, refl, store, true, false, List, [], ◌∷◌, arith}
use hos.Kheap.{
  Heap, Run, ok, ◌>>=◌, kheap_init, do_malloc, find_best_fitting, best_loop, block_is_fit,
  block_is_free, malloc_new, brk, malloc_from, split_off, do_free, get_previous_block,
  previous_loop, merge_free, remove_from_freelist, find_prev_free,
}
use hos.Kheap.Chunks.{Chunk}
use hos.Kheap.Represents.{IsHeap}
use hos.Kheap.Outcome.{Malloced}
use hos.Kheap.Malloc.{do_malloc-Malloced}
use hos.Kheap.FreeCases.{Freed}
use hos.Kheap.Free.{do_free-Freed}
use hos.Kheap.Held.{here, there, Disjoint, Inside}
use hos.Kheap.Reach.{Reach, init, mallocs, Reach-Disjoint, do_free-held}

abbrev fresh : Heap
fresh = kheap_init 4096 65536

abbrev pointer : Run (ℕ × Heap) → ℕ
pointer (ok (p, h)) = p
pointer r = 0

-- Blocks of 112 and 32 bytes; the first is freed, and split for 16 bytes.
abbrev run : Run (ℕ × Heap)
run = do_malloc 100 fresh >>= λ (p, h1).
    do_malloc 20 h1 >>= λ (q, h2). do_free p h2 >>= λ h3. do_malloc 10 h3

run_reuses : pointer run ≡ 4120
unfolding kheap_init do_malloc find_best_fitting best_loop block_is_fit block_is_free malloc_new brk
    malloc_from split_off do_free get_previous_block previous_loop merge_free remove_from_freelist
    find_prev_free
run_reuses = refl

-- A free chunk of 112 bytes and one in use of 32.
abbrev two : Heap
two = record {
  size = store (store (λ b. 0) 4108 113) 4232 32;
  nextfree = λ b. 0;
  next = store (λ b. 0) 4108 4232;
  head = 4108;
  tail = 4232;
  freelist = 4108;
  heap_top = 4276;
  vm_start = 4096;
  vm_end = 65536;
}

abbrev unused_chunk : Chunk
unused_chunk = record { at = 4108; room = 112; free = true }

abbrev used_chunk : Chunk
used_chunk = record { at = 4232; room = 32; free = false }

abbrev two_chunks : List Chunk
two_chunks = unused_chunk ∷ used_chunk ∷ []

two-IsHeap : IsHeap two two_chunks (4108 ∷ [])
two-IsHeap = record {
  row = record {
    head_eq = refl;
    tail_eq = refl;
    layout = (refl, refl, (refl, refl, refl));
    within = omega arith;
    bounded = omega arith;
    segment = (refl, refl, (refl, refl, tt));
  };
  list = record { chain = (refl, omega arith, refl); distinct = (refl, tt) };
  free_iff = λ x. ground arith;
  merged = refl;
}

do_malloc-Malloced_example : Malloced two two_chunks 16 (do_malloc 10 two)
do_malloc-Malloced_example =
    do_malloc-Malloced two two_chunks (4108 ∷ []) 10 two-IsHeap (omega arith) (omega arith)
      (omega arith)

do_free-Freed_example : Freed two [] [] (do_free 4244 two)
do_free-Freed_example =
    do_free-Freed two (unused_chunk ∷ []) used_chunk [] (4108 ∷ []) two-IsHeap refl

abbrev heap_of : Run (ℕ × Heap) → Heap
heap_of (ok (p, h)) = h
heap_of r = fresh

abbrev grown_heap : Heap
grown_heap = heap_of (do_malloc 100 fresh)

grown_heap-Reach : Reach 4096 65536 grown_heap ((4120, 100) ∷ [])
unfolding kheap_init do_malloc find_best_fitting best_loop malloc_new brk
grown_heap-Reach =
    mallocs fresh grown_heap [] 100 4120 init (omega arith) (omega arith) (omega arith) refl

abbrev grown_twice : Heap
grown_twice = heap_of (do_malloc 20 grown_heap)

grown_twice-Reach : Reach 4096 65536 grown_twice ((4244, 20) ∷ (4120, 100) ∷ [])
unfolding kheap_init do_malloc find_best_fitting best_loop malloc_new brk
grown_twice-Reach =
    mallocs grown_heap grown_twice ((4120, 100) ∷ []) 20 4244 grown_heap-Reach (omega arith)
      (omega arith) (omega arith) refl

Reach-Disjoint_example :
    Disjoint ((4244, 20) ∷ (4120, 100) ∷ []) × Inside 4120 65536 ((4244, 20) ∷ (4120, 100) ∷ [])
Reach-Disjoint_example =
    Reach-Disjoint 4096 65536 grown_twice ((4244, 20) ∷ (4120, 100) ∷ []) (omega arith)
      (omega arith) grown_twice-Reach

do_free-held_example :
    (h' : Heap) × (do_free 4120 grown_twice ≡ ok h') × Reach 4096 65536 h' ((4244, 20) ∷ [])
do_free-held_example =
    do_free-held 4096 65536 grown_twice ((4244, 20) ∷ []) ((4244, 20) ∷ (4120, 100) ∷ []) 4120 100
      (omega arith) (omega arith) grown_twice-Reach
      (there (4244, 20) [] ((4120, 100) ∷ []) (here []))
