-- ===== src/Kheap/SplitOff.antt =====
-- A free block of src/kernel/memory/kheap.c that is split: its rest joins the free list.
use mathlib.Core.Path.{subst}
use hos.Base.{
  ◌&&◌, Bool, true, ◌||◌, is_in, ◌==◌, ℕ, ◌+◌, ◌-◌, ◌%◌, ◌<◌, ◌≤◌, ◌≡◌, refl, ◌∙◌, store, true,
  false, ◌||◌, ◌==◌, if◌then◌else◌, List, [], ◌∷◌, ◌++◌, arith, inl, inr, is_in, IsDistinct,
}
use hos.Kheap.{
  Heap, ok, ◌>>=◌, overhead, set_free, block_is_free, remove_from_freelist, split_off, malloc_from,
}
use hos.Kheap.Chunks.{
  Chunk, Layout, is_free_at, first, last, last-append, not_at_outside, last-bounds,
  not_free_at_outside,
}
use hos.Kheap.Segments.{Segment, Segment-size}
use hos.Kheap.FreeList.{FreeChain, FreeChain-push}
use hos.Kheap.Represents.{
  merged_cons, is_free_first, merged_to, IsHeap, get_next_block-first, is_free_first,
  block_is_free-first,
}
use hos.Kheap.Pieces.{live}
use hos.Kheap.Split.{malloc_from-split, with_rest, IsRow-of_split}
use hos.Kheap.Taken.{Given, finish, FreeBlock-parts}

-- The rest is added to the free list as it is.
split_off-alone :
    (h : Heap) (x t following remaining : ℕ)
    → block_is_free h following ≡ false
    → 12 ≤ remaining
    → remaining % 2 ≡ 0
    → split_off x t following remaining h
      ≡ ok (record h {
        size = store h.size t (remaining - 12 + 1);
        next = store (store h.next t following) x t;
        tail = if x == h.tail then t else h.tail;
        nextfree = store h.nextfree t h.freelist;
        freelist = t;
      })
unfolding split_off
split_off-alone h x t following remaining used enough even =
    let e : set_free true (remaining - overhead) ≡ remaining - 12 + 1 = omega arith in
    rw used (rw e refl)

-- The tail after a split.
tail_after :
    (x from top tail t : ℕ) (right : List Chunk)
    → x < from
    → Layout from right top
    → tail ≡ last right x
    → (if x == tail then t else tail) ≡ last right t
tail_after x from top tail t [] lt l e = ground (arith, e)
tail_after x from top tail t (c ∷ cs) lt l e =
    let (low, high) = last-bounds from c cs top x l in
    let apart : (x == tail) ≡ false = ground (arith, e, low) in rw apart e

-- The block behind a block whose `next` is `n`.
pub next_after :
    (x from top tail n : ℕ) (right : List Chunk)
    → x < from
    → Layout from right top
    → tail ≡ last right x
    → n ≡ first right 0
    → (if x == tail then 0 else n) ≡ first right 0
next_after x from top tail n [] lt l e link =
    let same : (x == tail) ≡ true = ground (arith, e) in rw same refl
next_after x from top tail n (c ∷ cs) lt l e link =
    let (low, high) = last-bounds from c cs top x l in
    let apart : (x == tail) ≡ false = ground (arith, e, low) in rw apart link

not_free_behind :
    (x t room : ℕ) (rest : List Chunk)
    → x < t
    → is_free_at x rest ≡ false
    → is_free_at x (record { at = t; room = room; free = true } ∷ rest) ≡ false
not_free_behind x t room rest lt out = ground (arith, lt, out)

push_iff : (t x l r n : Bool) → n ≡ (x || (l || r)) → (t || n) ≡ (x || (l || ((t && true) || r)))
push_iff t x l r n h = ground (arith, h)

-- A split whose rest `t` has `k` bytes and is followed by `rest`.
Given-rest :
    (h : Heap) (left : List Chunk) (c : Chunk) (right rest : List Chunk) (fs fs' : List ℕ)
    (r k tail : ℕ) (f : ℕ → ℕ) (a : ℕ)
    → IsHeap h (left ++ (c ∷ right)) fs
    → c.free ≡ true
    → r % 2 ≡ 0
    → k % 2 ≡ 0
    → Layout (c.at + 12 + r + 12 + k) rest h.heap_top
    → Segment h.size h.next rest 0
    → tail ≡ last rest (c.at + (r + 12))
    → FreeChain f a fs'
    → IsDistinct fs'
    → ((y : ℕ) → is_in y fs' ≡ ((c.at == y) || (is_free_at y left || is_free_at y rest)))
    → is_free_first rest ≡ false
    → merged_to rest false ≡ true
    → live rest ≡ live right
    → Given h (live left) (live right) c.at r (
        remove_from_freelist c.at
          (record (with_rest h c.at r (c.at + (r + 12)) k (first rest 0) tail) {
            nextfree = store f (c.at + (r + 12)) a;
            freelist = c.at + (r + 12);
          })
        >>= λ h3. ok (c.at + overhead, h3))
Given-rest h left c right rest fs fs' r k tail f a heap free even even' lay seg tail_eq chain
      distinct iff rest_used rest_merged same =
    let b = FreeBlock-parts h left c right fs heap free in
    let t : ℕ = c.at + (r + 12) in
    let from : ℕ = c.at + 12 + r + 12 + k in
    let t_left =
      not_free_at_outside (h.vm_start + 12) left c.at t b.w.left_layout (inr (omega arith)) in
    let t_rest = not_free_at_outside from rest h.heap_top t lay (inl (omega arith)) in
    let t_out : is_in t fs' ≡ false = ground (arith, iff t, t_left, t_rest) in
    let h2 : Heap = record (with_rest h c.at r t k (first rest 0) tail) {
      nextfree = store f t a;
      freelist = t;
    } in
    finish h h2 left c.at r (record { at = t; room = k; free = true } ∷ rest) (t ∷ fs') (live right)
      (IsRow-of_split h left c right rest r k tail (store f t a) t heap.row even even' lay seg
        (not_at_outside from rest h.heap_top c.at lay (inl (omega arith))) tail_eq)
      (record {
        chain = FreeChain-push f a t fs' chain t_out (omega arith);
        distinct = (t_out, distinct);
      })
      b.out_left
      (not_free_behind c.at t k rest (omega arith)
        (not_free_at_outside from rest h.heap_top c.at lay (inl (omega arith))))
      (λ y.
        push_iff (t == y) (c.at == y) (is_free_at y left) (is_free_at y rest) (is_in y fs') (iff y))
      b.left_merged
      (merged_cons (record { at = t; room = k; free = true }) rest rest_used rest_merged) same refl
      refl refl

-- A split whose rest stays alone.
pub Given-split_alone :
    (h : Heap) (left : List Chunk) (c : Chunk) (right : List Chunk) (fs : List ℕ) (r : ℕ)
    → IsHeap h (left ++ (c ∷ right)) fs
    → c.free ≡ true
    → r % 2 ≡ 0
    → r + 20 ≤ c.room
    → Given h (live left) (live right) c.at r (malloc_from c.at (r + 12) h)
Given-split_alone h left c right fs r heap free even fit =
    let b = FreeBlock-parts h left c right fs heap free in
    let t : ℕ = c.at + (r + 12) in
    let tail' : h.tail ≡ last right c.at = heap.row.tail_eq ∙ last-append left c right 0 in
    let behind =
      get_next_block-first h (h.vm_start + 12) h.heap_top left c right heap.row.tail_eq
        heap.row.layout heap.row.segment in
    let h1 : Heap = record h { size = store h.size c.at r } in
    let used1 : block_is_free h1 (first right 0) ≡ false =
      block_is_free-first h1 (c.at + overhead + c.room) h.heap_top right (omega arith)
        b.w.right_layout
        (Segment-size h.size h.next c.at r right 0 b.w.outside_right b.w.right_segment)
      ∙ b.next_used in
    rw (malloc_from-split h c.at c.room r b.size_eq b.w.even even (omega (arith, b.bound)) fit) (
      rw behind (
        rw
          (split_off-alone h1 c.at t (first right 0) (c.room - r) used1 (omega arith)
            (omega (arith, b.w.even)))
          (Given-rest h left c right right fs fs r (c.room - r - 12)
            (if c.at == h.tail then t else h.tail) h.nextfree h.freelist heap free even
            (omega (arith, b.w.even))
            (subst (λ n. Layout n right h.heap_top) (omega arith) b.w.right_layout)
            b.w.right_segment
            (tail_after c.at (c.at + overhead + c.room) h.heap_top h.tail t right (omega arith)
              b.w.right_layout tail')
            heap.list.chain heap.list.distinct b.iff b.next_used b.right_merged refl)))
