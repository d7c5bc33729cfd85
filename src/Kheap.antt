-- ===== src/Kheap.antt =====
-- The block allocator of the heap, src/kernel/memory/kheap.c, on the kernel's heap.
--
-- The heap is one map for each field of `block_t`, from the address of a block; 0 is NULL. `head`,
-- `tail` and `freelist` are the three words at the start of the heap. The loops run on fuel:
-- `heap_top` is more than the number of blocks. `vmm_create_page`, which maps the pages under the
-- new blocks, and `dprintf` leave this state alone.
pub mod Chunks
pub mod FreeList
pub mod BestFit
pub mod Segments
pub mod Represents
pub mod Pieces
pub mod Malloc
pub mod Grow
pub mod Outcome
pub mod Held
pub mod Reach
pub mod Split
pub mod Taken
pub mod SplitOff
pub mod Merge
pub mod Join
pub mod FreeCases
pub mod FreeNext
pub mod Free
mod Tests
use hos.Base.{
  ℕ, zero, suc, ◌+◌, ◌-◌, ◌*◌, ◌/◌, ◌%◌, ◌^◌, u32, store, Bool, true, false, not, ◌&&◌, ◌||◌, ltb,
  leb, ◌==◌, if◌then◌else◌,
}

pub record Heap : Type 0 where
  pub size : ℕ → ℕ
  pub nextfree : ℕ → ℕ
  pub next : ℕ → ℕ
  pub head : ℕ
  pub tail : ℕ
  pub freelist : ℕ
  pub heap_top : ℕ
  pub vm_start : ℕ
  pub vm_end : ℕ

-- A call returns, stops at a failed assertion, reads through NULL, or runs out of fuel.
pub data Run {ℓ} (A : Type ℓ) : Type ℓ where
  ok : A → Run A
  asserts faults endless : Run A

infixl 5 ◌>>=◌
abbrev pub ◌>>=◌ {ℓ κ} : {A : Type ℓ} {B : Type κ} → Run A → (A → Run B) → Run B
ok a >>= f = f a
asserts >>= f = asserts
faults >>= f = faults
endless >>= f = endless

-- sizeof(block_t)
abbrev pub overhead : ℕ
overhead = 12

-- CEIL(size, 16)
abbrev pub ceil16 : ℕ → ℕ
ceil16 size = u32 (size + 15) / 16 * 16

-- The size without the low bit, which is set for a free block.
abbrev pub real_size : ℕ → ℕ
real_size size = size / 2 * 2

-- `block_set_free`
abbrev pub set_free : Bool → ℕ → ℕ
set_free x size = if x then size / 2 * 2 + 1 else size / 2 * 2

pub block_is_free : Heap → ℕ → Bool
block_is_free h block = if block == 0 then false else h.size block % 2 == 1

pub block_is_fit : Heap → ℕ → ℕ → Bool
block_is_fit h block size = leb (real_size size) (h.size block) && block_is_free h block

-- The loop of `block_remove_from_freelist` to the entry in front of `block`, 0 if there is none.
pub find_prev_free : ℕ → (ℕ → ℕ) → ℕ → ℕ → Run ℕ
find_prev_free zero nextfree block prev = endless
find_prev_free (suc fuel) nextfree block prev =
    let rest = find_prev_free fuel nextfree block (nextfree prev) in
    if (prev == 0) || (nextfree prev == block) then ok prev else rest

-- `prev->nextfree = block->nextfree` and `block->nextfree = NULL`.
abbrev pub unlink : ℕ → ℕ → Heap → Heap
unlink block prev h = record h {
  nextfree =
      store (if prev == 0 then h.nextfree else store h.nextfree prev (h.nextfree block)) block 0;
}

pub remove_from_freelist : ℕ → Heap → Run Heap
remove_from_freelist block h =
    if h.freelist == 0
    then asserts
    else if block == h.freelist
    then ok (record h { freelist = h.nextfree block; nextfree = store h.nextfree block 0 })
    else find_prev_free (suc h.heap_top) h.nextfree block h.freelist >>= λ prev.
        ok (unlink block prev h)

abbrev pub add_to_freelist : ℕ → Heap → Heap
add_to_freelist block h = record h {
  nextfree = store h.nextfree block h.freelist;
  freelist = block;
}

-- The loop of `block_find_best_fitting`; `best` is 0 as long as nothing fits.
pub best_loop : ℕ → Heap → ℕ → ℕ → ℕ → Run ℕ
best_loop zero h size best current = endless
best_loop (suc fuel) h size best current =
    let better =
      block_is_fit h current size && ((best == 0) || ltb (h.size current) (h.size best)) in
    let rest = best_loop fuel h size (if better then current else best) (h.nextfree current) in
    if current == 0 then ok best else rest

pub find_best_fitting : ℕ → Heap → Run ℕ
find_best_fitting size h = best_loop (suc h.heap_top) h size 0 h.freelist

-- The loop of `block_get_previous_block` from `prev` on.
pub previous_loop : ℕ → Heap → ℕ → ℕ → Run ℕ
previous_loop zero h block prev = endless
previous_loop (suc fuel) h block prev =
    let rest = previous_loop fuel h block (h.next prev) in
    if prev == 0 then faults else if h.next prev == block then ok prev else rest

pub get_previous_block : ℕ → Heap → Run ℕ
get_previous_block block h =
    if h.head == 0
    then asserts
    else if block == h.head
    then ok 0
    else previous_loop (suc h.heap_top) h block h.head

-- `block_get_next_block`, whose tail is set wherever there is a block.
abbrev pub get_next_block : ℕ → Heap → ℕ
get_next_block block h = if block == h.tail then 0 else h.next block

-- `__do_brk`; 0 where it fails.
pub brk : ℕ → Heap → ℕ × Heap
brk increment h =
    let boundary = u32 (h.heap_top + increment) in
    if (increment == 0) || leb (2 ^ 31) increment
    then (0, h)
    else if leb boundary h.vm_end
    then (h.heap_top, record h { heap_top = boundary })
    else (0, h)

-- The rest `t` of the block `best` becomes a free block. The block behind it, `following`, is merged
-- into it if it is free.
pub split_off : ℕ → ℕ → ℕ → ℕ → Heap → Run Heap
split_off best t following remaining h =
    if block_is_free h following
    then (remove_from_freelist following h >>= λ h1. ok (
        add_to_freelist t (record h1 {
          size = store h1.size t (set_free true (u32 (remaining + real_size (h1.size following))));
          next = store (store h1.next t (get_next_block following h1)) best t;
          tail = if following == h.tail then t else h1.tail;
        })))
    else ok (
        add_to_freelist t (record h {
          size = store h.size t (set_free true (remaining - overhead));
          next = store (store h.next t following) best t;
          tail = if best == h.tail then t else h.tail;
        }))

-- `__do_malloc` where the block `best` fits.
pub malloc_from : ℕ → ℕ → Heap → Run (ℕ × Heap)
malloc_from best block_size h =
    let following = get_next_block best h in
    let chunk_size = u32 (real_size (h.size best) + overhead) in
    let remaining = u32 (chunk_size + (2 ^ 32 - block_size)) in
    let whole = ltb remaining (8 + overhead) in
    let taken = if whole then chunk_size else block_size in
    let h1 = record h { size = store h.size best (set_free false (taken - overhead)) } in
    (if whole then ok h1 else split_off best (best + taken) following remaining h1) >>= λ h2.
    remove_from_freelist best h2 >>= λ h3. ok (best + overhead, h3)

-- `__do_malloc` where no block fits: the heap grows by a block at its end.
pub malloc_new : ℕ → Heap → Run (ℕ × Heap)
malloc_new block_size h =
    let (ret, h1) = brk block_size h in
    if ret == 0
    then asserts
    else ok (
      ret + overhead,
      record h1 {
        head = if h.head == 0 then ret else h1.head;
        next = store (if h.head == 0 then h1.next else store h1.next h.tail ret) ret 0;
        nextfree = store h1.nextfree ret 0;
        tail = ret;
        size = store h1.size ret (set_free false (block_size - overhead));
      },
    )

pub do_malloc : ℕ → Heap → Run (ℕ × Heap)
do_malloc size h =
    let rounded = ceil16 size in
    let block_size = u32 (rounded + overhead) in
    if size == 0
    then ok (0, h)
    else find_best_fitting rounded h >>= λ best.
        if best == 0 then malloc_new block_size h else malloc_from best block_size h

-- The block is merged with its free neighbours: `__do_free` from its tests on.
pub merge_free : ℕ → ℕ → ℕ → Heap → Run Heap
merge_free curr prev following h =
    if block_is_free h prev && block_is_free h following
    then remove_from_freelist following (record h {
      size = store h.size prev (
          set_free true (
            u32 (
              real_size (h.size prev)
              + 2 * overhead
              + real_size (h.size curr)
              + real_size (h.size following))));
      next = store h.next prev (get_next_block following h);
      tail = if h.tail == following then prev else h.tail;
    })
    else if block_is_free h prev
    then ok (record h {
      size =
          store h.size prev
            (set_free true (u32 (real_size (h.size prev) + overhead + real_size (h.size curr))));
      next = store h.next prev following;
      tail = if h.tail == curr then prev else h.tail;
    })
    else if block_is_free h following
    then (remove_from_freelist following (record h {
      size =
          store h.size curr (
            set_free true
              (u32 (real_size (h.size curr) + overhead + real_size (h.size following))));
      next = store h.next curr (get_next_block following h);
      tail = if h.tail == following then curr else h.tail;
    })
        >>= λ h1. ok (add_to_freelist curr h1))
    else ok
        (add_to_freelist curr (record h { size = store h.size curr (set_free true (h.size curr)) }))

pub do_free : ℕ → Heap → Run Heap
do_free ptr h =
    let curr = u32 (ptr + (2 ^ 32 - overhead)) in
    if ptr == 0
    then asserts
    else get_previous_block curr h >>= λ prev. merge_free curr prev (get_next_block curr h) h

-- `krealloc`: `__do_realloc` returns NULL before it does anything.
pub krealloc : ℕ → ℕ → Heap → ℕ × Heap
krealloc ptr size h = (0, h)

-- `kheap_init` at the bounds that the boot loader gives.
pub kheap_init : ℕ → ℕ → Heap
kheap_init heap_start heap_end = record {
  size = λ b. 0;
  nextfree = λ b. 0;
  next = λ b. 0;
  head = 0;
  tail = 0;
  freelist = 0;
  heap_top = heap_start + 12;
  vm_start = heap_start;
  vm_end = heap_end;
}
