-- ===== src/Kheap/Outcome.antt =====
-- The outcomes of a request to the heap of src/kernel/memory/kheap.c.
use mathlib.Core.Path.{subst}
use mathlib.Core.Bool.{false≢true}
use hos.Base.{
  ℕ, ◌+◌, ◌%◌, ◌^◌, ◌<◌, ◌≤◌, ◌≡◌, ◌≢◌, refl, sym, ◌∙◌, true, false, ltb, leb, ◌==◌, List, [], ◌∷◌,
  ◌++◌, arith, Bool-cases, inl, inr, is_in,
}
use hos.Kheap.{Heap, Run, asserts, overhead, block_is_free, malloc_from, malloc_new, block_is_fit}
use hos.Kheap.Chunks.{
  Chunk, Layout, Layout-append, is_at, is_at-of_free, is_free_at, is_free_at-append, not_at_outside,
  Split-at, not_free_at_outside,
}
use hos.Kheap.Segments.{Segment}
use hos.Kheap.FreeList.{FreeChain-ne-zero}
use hos.Kheap.Represents.{IsHeap}
use hos.Kheap.Pieces.{live, Around-chunk}
use hos.Kheap.Taken.{Given, Given-whole}
use hos.Kheap.SplitOff.{Given-split_alone}
use hos.Kheap.Grow.{Given-grown, malloc_new-asserts}

-- Every free chunk has a room of which `P` holds.
abbrev pub EveryFree : (ℕ → Type 0) → List Chunk → Type 0
EveryFree P [] = Unit
EveryFree P (c ∷ cs) = (c.free ≡ true → P c.room) × EveryFree P cs

every_free :
    (P : ℕ → Type 0) (s n : ℕ → ℕ) (a top : ℕ) (cs : List Chunk)
    → Layout a cs top
    → Segment s n cs 0
    → ((x room : ℕ) → is_free_at x cs ≡ true → room % 2 ≡ 0 → s x ≡ room + 1 → P room)
    → EveryFree P cs
every_free P s n a top [] l g all = tt
every_free P s n a top (c ∷ cs) (here, even, l) (size, link, g) all = (
  λ free. all c.at c.room (ground (arith, free)) even (size ∙ ground (arith, free)),
  every_free P s n (a + overhead + c.room) top cs l g
      (λ x room free even' e. all x room (ground (arith, free)) even' e),
)

-- The outcomes of a request for `r` bytes, a multiple of 16.
pub data Malloced (h : Heap) (cs : List Chunk) (r : ℕ) (run : Run (ℕ × Heap)) : Type 0 where
  exhausted :
      EveryFree (λ room. room < r) cs
      → h.vm_end < h.heap_top + r + 12
      → run ≡ asserts
      → Malloced h cs r run
  grown :
      EveryFree (λ room. room < r) cs → Given h (live cs) [] h.heap_top r run → Malloced h cs r run
  whole :
      (left : List Chunk) (c : Chunk) (right : List Chunk)
      → cs ≡ left ++ (c ∷ right)
      → c.free ≡ true
      → r ≤ c.room
      → c.room < r + 20
      → EveryFree (λ room. r ≤ room → c.room ≤ room) cs
      → Given h (live left) (live right) c.at c.room run
      → Malloced h cs r run
  split :
      (left : List Chunk) (c : Chunk) (right : List Chunk)
      → cs ≡ left ++ (c ∷ right)
      → c.free ≡ true
      → r + 20 ≤ c.room
      → EveryFree (λ room. r ≤ room → c.room ≤ room) cs
      → Given h (live left) (live right) c.at r run
      → Malloced h cs r run

-- A free block that fits is taken whole or split.
Malloced-fit :
    (h : Heap) (left : List Chunk) (c : Chunk) (right : List Chunk) (fs : List ℕ) (r : ℕ)
    → IsHeap h (left ++ (c ∷ right)) fs
    → c.free ≡ true
    → r % 2 ≡ 0
    → r ≤ c.room
    → EveryFree (λ room. r ≤ room → c.room ≤ room) (left ++ (c ∷ right))
    → Malloced h (left ++ (c ∷ right)) r (malloc_from c.at (r + 12) h)
Malloced-fit h left c right fs r heap free even fit best = elim (Bool-cases (ltb c.room (r + 20))) [
  | inl t ↦
      let small : c.room < r + 20 = ground (arith, t) in
      whole left c right refl free fit small best
        (Given-whole h left c right fs r heap free fit small)
  | inr t ↦
      let large : r + 20 ≤ c.room = ground (arith, t) in
      split left c right refl free large best
        (Given-split_alone h left c right fs r heap free even large)
]

-- Whether a free block of a row fits.
fit_of_size :
    (h : Heap) (x room r : ℕ)
    → x ≢ 0
    → room % 2 ≡ 0
    → r % 2 ≡ 0
    → h.size x ≡ room + 1
    → block_is_fit h x r ≡ leb r room
unfolding block_is_fit block_is_free
fit_of_size h x room r ne even even_r size =
    let some : (x == 0) ≡ false = ground arith in rw some (rw size (ground arith))

at_ne_zero : (a top x : ℕ) (cs : List Chunk) → 0 < a → Layout a cs top → is_at x cs ≡ true → x ≢ 0
at_ne_zero a top x cs pos l here e =
    false≢true (sym (not_at_outside a cs top x l (inl (omega arith))) ∙ here)

-- No chunk fits if no entry of the free list does.
pub none_fits :
    (h : Heap) (cs : List Chunk) (fs : List ℕ) (r : ℕ)
    → IsHeap h cs fs
    → r % 2 ≡ 0
    → ((x : ℕ) → is_in x fs ≡ true → block_is_fit h x r ≡ false)
    → EveryFree (λ room. room < r) cs
none_fits h cs fs r heap even none =
    every_free (λ room. room < r) h.size h.next (h.vm_start + 12) h.heap_top cs heap.row.layout
      heap.row.segment
      (λ x room free even' size.
        let ne =
          at_ne_zero (h.vm_start + 12) h.heap_top x cs (omega arith) heap.row.layout
            (is_at-of_free x cs free) in
        let unfit : leb r room ≡ false =
          sym (fit_of_size h x room r ne even' even size) ∙ none x (heap.free_iff x ∙ free) in
        ground (arith, unfit))

-- The block found has the smallest room that fits.
all_larger :
    (h : Heap) (cs : List Chunk) (fs : List ℕ) (k best r : ℕ)
    → IsHeap h cs fs
    → r % 2 ≡ 0
    → h.size best ≡ k + 1
    → ((x : ℕ) → is_in x fs ≡ true → block_is_fit h x r ≡ true → h.size best ≤ h.size x)
    → EveryFree (λ room. r ≤ room → k ≤ room) cs
all_larger h cs fs k best r heap even k_size all =
    every_free (λ room. r ≤ room → k ≤ room) h.size h.next (h.vm_start + 12) h.heap_top cs
      heap.row.layout heap.row.segment
      (λ x room free even' size. λ le.
        let ne =
          at_ne_zero (h.vm_start + 12) h.heap_top x cs (omega arith) heap.row.layout
            (is_at-of_free x cs free) in
        let fits : block_is_fit h x r ≡ true =
          fit_of_size h x room r ne even' even size ∙ ground (arith, le) in
        omega (arith, all x (heap.free_iff x ∙ free) fits, k_size, size))

free_here :
    (a top : ℕ) (left : List Chunk) (c : Chunk) (right : List Chunk)
    → Layout a (left ++ (c ∷ right)) top
    → is_free_at c.at (left ++ (c ∷ right)) ≡ true
    → c.free ≡ true
free_here a top left c right l free =
    let (m, l1, (here, even, l2)) = Layout-append a left (c ∷ right) top l in
    let out = not_free_at_outside a left m c.at l1 (inr (omega arith)) in
    let out' =
      not_free_at_outside (m + overhead + c.room) right top c.at l2 (inl (omega (arith, here))) in
    ground (arith, free, is_free_at-append c.at left (c ∷ right), out, out')

Malloced-found :
    (h : Heap) (left : List Chunk) (c : Chunk) (right : List Chunk) (fs : List ℕ) (r : ℕ)
    → IsHeap h (left ++ (c ∷ right)) fs
    → r % 2 ≡ 0
    → is_in c.at fs ≡ true
    → block_is_fit h c.at r ≡ true
    → ((x : ℕ) → is_in x fs ≡ true → block_is_fit h x r ≡ true → h.size c.at ≤ h.size x)
    → Malloced h (left ++ (c ∷ right)) r (malloc_from c.at (r + 12) h)
Malloced-found h left c right fs r heap even member fits all =
    let w = Around-chunk h left c right heap.row in
    let free =
      free_here (h.vm_start + 12) h.heap_top left c right heap.row.layout
        (sym (heap.free_iff c.at) ∙ member) in
    let size : h.size c.at ≡ c.room + 1 = w.size_eq ∙ ground (arith, free) in
    let le : leb r c.room ≡ true =
      sym (
        fit_of_size h c.at c.room r
          (FreeChain-ne-zero h.nextfree h.freelist c.at fs heap.list.chain member) w.even even size)
      ∙ fits in
    Malloced-fit h left c right fs r heap free even (ground (arith, le))
      (all_larger h (left ++ (c ∷ right)) fs c.room c.at r heap even size all)

pub Malloced-at :
    (h : Heap) (cs : List Chunk) (fs : List ℕ) (best r : ℕ)
    → IsHeap h cs fs
    → r % 2 ≡ 0
    → is_in best fs ≡ true
    → block_is_fit h best r ≡ true
    → ((x : ℕ) → is_in x fs ≡ true → block_is_fit h x r ≡ true → h.size best ≤ h.size x)
    → Malloced h cs r (malloc_from best (r + 12) h)
Malloced-at h cs fs best r heap even member fits all =
    let s = Split-at best cs (is_at-of_free best cs (sym (heap.free_iff best) ∙ member)) in
    let here = sym s.is_here in
    subst (λ l. Malloced h l r (malloc_from best (r + 12) h)) (sym s.is_split)
      (subst (λ x. Malloced h (s.left ++ (s.chunk ∷ s.right)) r (malloc_from x (r + 12) h))
        s.is_here
        (Malloced-found h s.left s.chunk s.right fs r (subst (λ l. IsHeap h l fs) s.is_split heap)
          even (subst (λ x. is_in x fs ≡ true) here member)
          (subst (λ x. block_is_fit h x r ≡ true) here fits)
          (λ x m f. subst (λ x'. h.size x' ≤ h.size x) here (all x m f))))

pub Malloced-none :
    (h : Heap) (cs : List Chunk) (fs : List ℕ) (r : ℕ)
    → IsHeap h cs fs
    → r % 2 ≡ 0
    → r + 12 < 2 ^ 31
    → h.vm_end + r + 12 < 2 ^ 32
    → EveryFree (λ room. room < r) cs
    → Malloced h cs r (malloc_new (r + 12) h)
Malloced-none h cs fs r heap even small bound none =
    let within = heap.row.within in
    elim (Bool-cases (leb (h.heap_top + r + 12) h.vm_end)) [
      | inl t ↦ grown none (Given-grown h cs fs r heap even small (omega arith) (ground (arith, t)))
      | inr t ↦
          let full : h.vm_end < h.heap_top + r + 12 = ground (arith, t) in
          exhausted none full (malloc_new-asserts h r (omega arith) full)
    ]
