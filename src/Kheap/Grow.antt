-- ===== src/Kheap/Grow.antt =====
-- The heap of src/kernel/memory/kheap.c grows by a block at its end, or cannot.
use mathlib.Core.Path.{subst}
use hos.Base.{
  ℕ, ◌+◌, ◌-◌, ◌%◌, ◌^◌, ◌<◌, ◌≤◌, ◌≡◌, refl, sym, ap, ◌∙◌, u32, store, true, false, ◌||◌, leb,
  ◌==◌, if◌then◌else◌, List, [], ◌∷◌, ◌++◌, arith, Bool-cases, inl, inr,
}
use hos.Kheap.{Heap, ok, asserts, overhead, set_free, malloc_new, brk}
use hos.Kheap.Chunks.{
  Chunk, Layout, Layout-le, is_free_at, is_free_at-append, first, last, last-append, not_at_outside,
  last-bounds, Layout-join, first-append, not_free_at_outside,
}
use hos.Kheap.Segments.{Segment, Segment-size, Segment-next}
use hos.Kheap.FreeList.{FreeChain-store}
use hos.Kheap.Represents.{merged_join, IsRow, IsHeap}
use hos.Kheap.Pieces.{live, live-append}
use hos.Kheap.Taken.{Given, taken_chunk}
use hos.Kheap.Segments.{Segment-join}

-- The last block of a row is linked to `v`.
Segment-relink :
    (s n : ℕ → ℕ) (c : Chunk) (cs : List Chunk) (a top e v : ℕ)
    → Layout a (c ∷ cs) top
    → Segment s n (c ∷ cs) e
    → Segment s (store n (last cs c.at) v) (c ∷ cs) v
Segment-relink s n c [] a top e v l (size, link, g) = (size, ground arith, tt)
Segment-relink s n c (d ∷ ds) a top e v (here, even, l) (size, link, g) =
    let (low, high) = last-bounds (a + overhead + c.room) d ds top c.at l in
    let apart : (last ds d.at == c.at) ≡ false = ground (arith, low, here) in
    (size, rw apart link, Segment-relink s n d ds (a + overhead + c.room) top e v l g)

-- The links of a row that grows by a block.
Segment-grown :
    (h : Heap) (cs : List Chunk) (v : ℕ)
    → IsRow h cs
    → Segment h.size (if h.head == 0 then h.next else store h.next h.tail v) cs v
Segment-grown h [] v row = tt
Segment-grown h (c ∷ cs) v row =
    let (here, even, l) = row.layout in
    let some : (h.head == 0) ≡ false = ground (arith, row.head_eq, here) in
    let links : (if h.head == 0 then h.next else store h.next h.tail v)
        ≡ store h.next (last cs c.at) v =
      rw some (ap (λ t. store h.next t v) row.tail_eq) in
    subst (λ n. Segment h.size n (c ∷ cs) v) (sym links)
      (Segment-relink h.size h.next c cs (h.vm_start + 12) h.heap_top 0 v row.layout row.segment)

head_grown :
    (h : Heap) (cs : List Chunk) (v : ℕ)
    → IsRow h cs
    → (if h.head == 0 then v else h.head) ≡ first cs v
head_grown h [] v row = ground (arith, row.head_eq)
head_grown h (c ∷ cs) v row =
    let (here, even, l) = row.layout in
    let some : (h.head == 0) ≡ false = ground (arith, row.head_eq, here) in rw some row.head_eq

malloc_new-runs :
    (h : Heap) (r : ℕ)
    → r % 2 ≡ 0
    → r + 12 < 2 ^ 31
    → h.heap_top + r + 12 < 2 ^ 32
    → h.heap_top + r + 12 ≤ h.vm_end
    → 0 < h.heap_top
    → malloc_new (r + 12) h
      ≡ ok (
        h.heap_top + overhead,
        record h {
          heap_top = h.heap_top + (r + 12);
          head = if h.head == 0 then h.heap_top else h.head;
          next =
              store (if h.head == 0 then h.next else store h.next h.tail h.heap_top) h.heap_top 0;
          nextfree = store h.nextfree h.heap_top 0;
          tail = h.heap_top;
          size = store h.size h.heap_top r;
        },
      )
unfolding malloc_new brk
malloc_new-runs h r even small bound fit pos =
    let same : u32 (h.heap_top + (r + 12)) ≡ h.heap_top + (r + 12) = omega arith in
    let test : ((r + 12 == 0) || leb (2 ^ 31) (r + 12)) ≡ false = ground arith in
    let room : leb (h.heap_top + (r + 12)) h.vm_end ≡ true = ground arith in
    let some : (h.heap_top == 0) ≡ false = ground arith in
    let v : set_free false (r + 12 - overhead) ≡ r = omega arith in
    rw same (rw test (rw room (rw some (rw v refl))))

pub malloc_new-asserts :
    (h : Heap) (r : ℕ)
    → h.heap_top + r + 12 < 2 ^ 32
    → h.vm_end < h.heap_top + r + 12
    → malloc_new (r + 12) h ≡ asserts
unfolding malloc_new brk
malloc_new-asserts h r bound full =
    let same : u32 (h.heap_top + (r + 12)) ≡ h.heap_top + (r + 12) = omega arith in
    let room : leb (h.heap_top + (r + 12)) h.vm_end ≡ false = ground arith in
    elim (Bool-cases ((r + 12 == 0) || leb (2 ^ 31) (r + 12))) [
      | inl t ↦ rw same (rw t refl)
      | inr t ↦ rw same (rw t (rw room refl))
    ]

is_free_at-used :
    (y : ℕ) (cs : List Chunk) (x room : ℕ)
    → is_free_at y (cs ++ (taken_chunk x room ∷ [])) ≡ is_free_at y cs
is_free_at-used y cs x room = is_free_at-append y cs (taken_chunk x room ∷ []) ∙ ground arith

Segment-single :
    (s n : ℕ → ℕ) (x room : ℕ) → Segment (store s x room) (store n x 0) (taken_chunk x room ∷ []) 0
Segment-single s n x room = (ground arith, ground arith, tt)

pub Given-grown :
    (h : Heap) (cs : List Chunk) (fs : List ℕ) (r : ℕ)
    → IsHeap h cs fs
    → r % 2 ≡ 0
    → r + 12 < 2 ^ 31
    → h.heap_top + r + 12 < 2 ^ 32
    → h.heap_top + r + 12 ≤ h.vm_end
    → Given h (live cs) [] h.heap_top r (malloc_new (r + 12) h)
Given-grown h cs fs r heap even small bound fit =
    let top = h.heap_top in
    let row = heap.row in
    let le = Layout-le (h.vm_start + 12) cs top row.layout in
    let out = not_at_outside (h.vm_start + 12) cs top top row.layout (inr (omega arith)) in
    let used = not_free_at_outside (h.vm_start + 12) cs top top row.layout (inr (omega arith)) in
    let c : Chunk = record { at = top; room = r; free = false } in
    let links : ℕ → ℕ = if h.head == 0 then h.next else store h.next h.tail top in
    record {
      heap = record h {
        heap_top = top + (r + 12);
        head = if h.head == 0 then top else h.head;
        next = store links top 0;
        nextfree = store h.nextfree top 0;
        tail = top;
        size = store h.size top r;
      };
      chunks = cs ++ (c ∷ []);
      frees = fs;
      runs = malloc_new-runs h r even small bound fit (omega arith);
      is_heap = record {
        row = record {
          head_eq = head_grown h cs top row ∙ sym (first-append cs (c ∷ []) 0);
          tail_eq = sym (last-append cs c [] 0);
          layout =
              Layout-join (h.vm_start + 12) cs (c ∷ []) top (top + (r + 12)) row.layout
                (refl, even, omega arith);
          within = omega arith;
          bounded = row.bounded;
          segment =
              Segment-join (store h.size top r) (store links top 0) cs (c ∷ []) 0
                (Segment-next (store h.size top r) links top 0 cs top out
                  (Segment-size h.size links top r cs top out (Segment-grown h cs top row)))
                (Segment-single h.size links top r);
        };
        list = record {
          chain =
              FreeChain-store h.nextfree h.freelist top 0 fs (heap.free_iff top ∙ used)
                heap.list.chain;
          distinct = heap.list.distinct;
        };
        free_iff = λ y. heap.free_iff y ∙ sym (is_free_at-used y cs top r);
        merged = merged_join cs c [] heap.merged refl;
      };
      live_eq = live-append cs (c ∷ []);
      same_start = refl;
      same_end = refl;
      grown = omega arith;
    }
