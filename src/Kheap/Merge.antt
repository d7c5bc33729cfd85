-- ===== src/Kheap/Merge.antt =====
-- The block in front of another, and `__do_free` of src/kernel/memory/kheap.c in its four cases.
use hos.Base.{
  ℕ, zero, suc, ◌+◌, ◌*◌, ◌%◌, ◌^◌, ◌<◌, ◌≡◌, refl, ap, ◌∙◌, u32, store, true, false, ◌==◌,
  if◌then◌else◌, List, [], ◌∷◌, ◌++◌, length, arith,
}
use hos.Kheap.{
  Heap, ok, ◌>>=◌, overhead, real_size, set_free, block_is_free, remove_from_freelist,
  add_to_freelist, get_next_block, merge_free, get_previous_block, previous_loop,
}
use hos.Kheap.Chunks.{Chunk, Layout, Layout-le, last}
use hos.Kheap.Segments.{Segment}
use hos.Kheap.Represents.{IsRow, length-le-Layout}
use hos.Kheap.Pieces.{Around-chunk}

-- The walk along the links to the block in front of `block`.
previous_loop-last :
    (fuel : ℕ) (h : Heap) (c : Chunk) (cs : List Chunk) (a block : ℕ)
    → length cs < fuel
    → 0 < a
    → Layout a (c ∷ cs) block
    → Segment h.size h.next (c ∷ cs) block
    → previous_loop fuel h block c.at ≡ ok (last cs c.at)
unfolding previous_loop
previous_loop-last zero h c cs a block enough pos l g = absurd (omega arith)
previous_loop-last (suc fuel) h c [] a block enough pos (here, even, l) (size, link, g) =
    let some : (c.at == 0) ≡ false = ground (arith, here) in
    let stop : (h.next c.at == block) ≡ true = ground (arith, link) in rw some (rw stop refl)
previous_loop-last (suc fuel) h c (d ∷ ds) a block enough pos (here, even, l) (size, link, g) =
    let some : (c.at == 0) ≡ false = ground (arith, here) in
    let (here', even', l') = l in
    let le = Layout-le (a + overhead + c.room + overhead + d.room) ds block l' in
    let go_on : (h.next c.at == block) ≡ false = ground (arith, link, here', le) in
    rw some (
      rw go_on (
        rw link (
          previous_loop-last fuel h d ds (a + overhead + c.room) block (omega arith) (omega arith) l
            g)))

-- The block in front of a chunk, NULL for the first one.
pub get_previous_block-last :
    (h : Heap) (left : List Chunk) (c : Chunk) (right : List Chunk)
    → IsRow h (left ++ (c ∷ right))
    → get_previous_block c.at h ≡ ok (last left 0)
unfolding get_previous_block
get_previous_block-last h [] c right row =
    let w = Around-chunk h [] c right row in
    let some : (h.head == 0) ≡ false = ground (arith, row.head_eq, w.left_layout) in
    let same : (c.at == h.head) ≡ true = ground (arith, row.head_eq) in rw some (rw same refl)
get_previous_block-last h (d ∷ ds) c right row =
    let w = Around-chunk h (d ∷ ds) c right row in
    let (here, even, l) = w.left_layout in
    let le = Layout-le (h.vm_start + 12 + overhead + d.room) ds c.at l in
    let le' = Layout-le (c.at + overhead + c.room) right h.heap_top w.right_layout in
    let some : (h.head == 0) ≡ false = ground (arith, row.head_eq, here) in
    let apart : (c.at == h.head) ≡ false = ground (arith, row.head_eq, here, le) in
    rw some (
      rw apart (
        ap (previous_loop (suc h.heap_top) h c.at) row.head_eq
        ∙ previous_loop-last (suc h.heap_top) h d ds (h.vm_start + 12) c.at
            (omega (arith, length-le-Layout (h.vm_start + 12) (d ∷ ds) c.at w.left_layout, le'))
            (omega arith) w.left_layout w.left_segment))

-- `__do_free` where neither neighbour is free.
pub merge_free-none :
    (h : Heap) (curr prev following room : ℕ)
    → block_is_free h prev ≡ false
    → block_is_free h following ≡ false
    → h.size curr ≡ room
    → room % 2 ≡ 0
    → merge_free curr prev following h
      ≡ ok (record h {
        size = store h.size curr (room + 1);
        nextfree = store h.nextfree curr h.freelist;
        freelist = curr;
      })
unfolding merge_free
merge_free-none h curr prev following room used used' size even =
    let v : set_free true (h.size curr) ≡ room + 1 = ground (arith, size) in
    rw used (rw used' (rw v refl))

-- `__do_free` where the block behind is free.
pub merge_free-next :
    (h : Heap) (curr prev following room room' : ℕ)
    → block_is_free h prev ≡ false
    → block_is_free h following ≡ true
    → h.size curr ≡ room
    → h.size following ≡ room' + 1
    → room % 2 ≡ 0
    → room' % 2 ≡ 0
    → room + 12 + room' < 2 ^ 32
    → merge_free curr prev following h ≡ (
        remove_from_freelist following (record h {
          size = store h.size curr (room + 12 + room' + 1);
          next = store h.next curr (get_next_block following h);
          tail = if h.tail == following then curr else h.tail;
        })
        >>= λ h1. ok (add_to_freelist curr h1))
unfolding merge_free
merge_free-next h curr prev following room room' used free size size' even even' bound =
    let v : set_free true (u32 (real_size (h.size curr) + overhead + real_size (h.size following)))
        ≡ room + 12 + room' + 1 =
      ground (arith, size, size') in
    rw used (rw free (rw v refl))

-- `__do_free` where the block in front is free.
pub merge_free-prev :
    (h : Heap) (curr prev following room room' : ℕ)
    → block_is_free h prev ≡ true
    → block_is_free h following ≡ false
    → h.size curr ≡ room
    → h.size prev ≡ room' + 1
    → room % 2 ≡ 0
    → room' % 2 ≡ 0
    → room' + 12 + room < 2 ^ 32
    → merge_free curr prev following h
      ≡ ok (record h {
        size = store h.size prev (room' + 12 + room + 1);
        next = store h.next prev following;
        tail = if h.tail == curr then prev else h.tail;
      })
unfolding merge_free
merge_free-prev h curr prev following room room' free used size size' even even' bound =
    let v : set_free true (u32 (real_size (h.size prev) + overhead + real_size (h.size curr)))
        ≡ room' + 12 + room + 1 =
      ground (arith, size, size') in
    rw free (rw used (rw v refl))

-- `__do_free` where both neighbours are free.
pub merge_free-both :
    (h : Heap) (curr prev following room room' room'' : ℕ)
    → block_is_free h prev ≡ true
    → block_is_free h following ≡ true
    → h.size curr ≡ room
    → h.size prev ≡ room' + 1
    → h.size following ≡ room'' + 1
    → room % 2 ≡ 0
    → room' % 2 ≡ 0
    → room'' % 2 ≡ 0
    → room' + 24 + room + room'' < 2 ^ 32
    → merge_free curr prev following h
      ≡ remove_from_freelist following (record h {
        size = store h.size prev (room' + 24 + room + room'' + 1);
        next = store h.next prev (get_next_block following h);
        tail = if h.tail == following then prev else h.tail;
      })
unfolding merge_free
merge_free-both h curr prev following room room' room'' free free' size size' size'' even even'
      even'' bound =
    let v : set_free true (
          u32 (
            real_size (h.size prev)
            + 2 * overhead
            + real_size (h.size curr)
            + real_size (h.size following)))
        ≡ room' + 24 + room + room'' + 1 =
      ground (arith, size, size', size'') in
    rw free (rw free' (rw v refl))
