-- ===== src/Kheap/Malloc.antt =====
-- `__do_malloc` of src/kernel/memory/kheap.c: what it returns, and the heap behind it.
use hos.Base.{ℕ, ◌+◌, ◌%◌, ◌^◌, ◌<◌, ◌≤◌, ◌≡◌, sym, ◌∙◌, u32, true, false, ◌==◌, List, arith}
use hos.Kheap.{Heap, overhead, ceil16, do_malloc}
use hos.Kheap.Chunks.{Chunk, is_at-of_free}
use hos.Kheap.Represents.{IsHeap, enough_fuel}
use hos.Kheap.BestFit.{no_fit, smallest, find_best_fitting-BestFit}
use hos.Kheap.Outcome.{Malloced, Malloced-at, Malloced-none, none_fits}

-- On a heap as it should be, `__do_malloc` for a size that is not 0, and that rounds to a size with
-- which the end of the heap is still a 32-bit number, takes the smallest free chunk with room for
-- the size rounded up to 16: whole if it is larger by less than 20 bytes, and else split, so that the
-- chunk taken has exactly the rounded size. Where no free chunk has the room, it makes a chunk of
-- exactly the rounded size at the end, or, where the heap has no room for that either, fails its
-- assertion. Unless it fails, it returns the address of the chunk's room, and the heap is again as it
-- should be, with this one chunk added to those in use.
pub do_malloc-Malloced :
    (h : Heap) (cs : List Chunk) (fs : List ℕ) (size : ℕ)
    → IsHeap h cs fs
    → 0 < size
    → size + 27 < 2 ^ 31
    → h.vm_end + size + 27 < 2 ^ 32
    → Malloced h cs (ceil16 size) (do_malloc size h)
unfolding do_malloc
do_malloc-Malloced h cs fs size heap pos small bound =
    let r = ceil16 size in
    let some : (size == 0) ≡ false = ground arith in
    let even : r % 2 ≡ 0 = omega arith in
    let le : r ≤ size + 15 = omega arith in
    let block : u32 (r + overhead) ≡ r + 12 = omega arith in
    let (best, runs, found) =
      find_best_fitting-BestFit h r fs
        (enough_fuel h cs fs heap.row heap.list
          (λ y member. is_at-of_free y cs (sym (heap.free_iff y) ∙ member)))
        heap.list.chain in
    rw some (
      rw block (
        rw runs (elim found [
          | no_fit nil none ↦
              let e : (best == 0) ≡ true = ground arith in
              rw e (
                Malloced-none h cs fs r heap even (omega arith) (omega arith)
                  (none_fits h cs fs r heap even none))
          | smallest ne member fits all ↦
              let e : (best == 0) ≡ false = ground arith in
              rw e (Malloced-at h cs fs best r heap even member fits all)
        ])))
