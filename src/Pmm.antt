-- ===== src/Pmm.antt =====
-- The physical frame allocator, src/kernel/memory/pmm.c: its state, the bitmap operations, the
-- two searches and the allocation functions. `Pmm/Init` sets the bitmap up.
--
-- `frames_bitmap` is a bare pointer in C: the model maps a word index to the 32-bit word there,
-- also past the end of the bitmap. `asm("" ::: "memory")` and `dprintf` have no effect on the state.
pub mod Bitmap
pub mod Search
pub mod Runs
pub mod Alloc
pub mod Count
pub mod Live
pub mod Init
mod Tests
use hos.Base.{
  u32, all_ones, store, ℕ, zero, suc, ◌+◌, ◌-◌, ◌*◌, ◌/◌, ◌%◌, ◌^◌, bit_and, bit_or, Bool, not, ltb,
  leb, ◌==◌, if◌then◌else◌, Option, none, some,
}

pub record Pmm : Type 0 where
  pub memsize : ℕ
  pub frames_bitmap : ℕ → ℕ
  pub max_frames : ℕ
  pub used_frames : ℕ
  pub frames_bitmap_size : ℕ
  pub lowest_available : ℕ

abbrev pub frame_size : ℕ
frame_size = 4096

-- FRAME_INDEX and FRAME_OFFSET
abbrev pub frame_index : ℕ → ℕ
frame_index b = b / 2 ^ 5

abbrev pub frame_offset : ℕ → ℕ
frame_offset b = b % 2 ^ 5

pub frame_set : Pmm → ℕ → Pmm
frame_set p frame = record p {
  frames_bitmap =
      store p.frames_bitmap (frame_index frame)
        (bit_or (p.frames_bitmap (frame_index frame)) (2 ^ frame_offset frame));
}

pub frame_seta : Pmm → ℕ → Pmm
unfolding frame_set
frame_seta p frame_addr = frame_set p (frame_addr / 2 ^ 12)

pub frame_unset : Pmm → ℕ → Pmm
frame_unset p frame = record p {
  frames_bitmap =
      store p.frames_bitmap (frame_index frame)
        (bit_and (p.frames_bitmap (frame_index frame)) (all_ones - 2 ^ frame_offset frame));
  lowest_available = if ltb frame p.lowest_available then frame else p.lowest_available;
}

pub frame_unseta : Pmm → ℕ → Pmm
frame_unseta p frame_addr = frame_unset p (frame_addr / 2 ^ 12)

unfoldable pub frame_test : Pmm → ℕ → Bool
frame_test p frame =
    not (bit_and (p.frames_bitmap (frame_index frame)) (2 ^ frame_offset frame) == 0)

-- The inner loop of `pmm_first_free_frame` at bit `j` of the word `w`, with `left` rounds to go.
pub free_in_word : (w i left j : ℕ) → Option ℕ
free_in_word w i zero j = none
free_in_word w i (suc left) j =
    if bit_and w (2 ^ j) == 0 then some (u32 (i * 2 ^ 5 + j)) else free_in_word w i left (j + 1)

-- The outer loop at word `i`. A full word is passed over, and so is one with no free bit.
pub first_free_from : (m : ℕ → ℕ) (left i : ℕ) → ℕ
first_free_from m zero i = 0
first_free_from m (suc left) i =
    let rest = first_free_from m left (i + 1) in
    if m i == all_ones
    then rest
    else elim (free_in_word (m i) i 32 0) [ none ↦ rest | some out ↦ out ]

pub first_free_frame : Pmm → ℕ
first_free_frame p =
    first_free_from p.frames_bitmap (frame_index p.max_frames - frame_index p.lowest_available)
      (frame_index p.lowest_available)

-- The `while` loop of `pmm_first_nfree_frames` for `2 ≤ n`; `none` means that the fuel ran out.
pub nfree_loop : Pmm → (n fuel i avail : ℕ) → Option ℕ
nfree_loop p n zero i avail = none
nfree_loop p n (suc fuel) i avail =
    let full = nfree_loop p n fuel (u32 (i + 32)) 0 in
    let used = nfree_loop p n fuel (u32 (i + 1)) 0 in
    let free = nfree_loop p n fuel (u32 (i + 1)) (avail + 1) in
    if ltb i p.max_frames
    then if p.frames_bitmap (frame_index i) == all_ones
      then full
      else if frame_test p i
      then used
      else if avail + 1 == n
      then some ((u32 (i + 1) + 2 ^ 32 - n) % 2 ^ 32)
      else free
    else some 0

-- Every round moves `i` on, so `max_frames + 1` rounds are enough.
pub first_nfree_frames : Pmm → ℕ → Option ℕ
first_nfree_frames p n =
    if n == 0
    then some 0
    else if n == 1
    then some (first_free_frame p)
    else nfree_loop p n (p.max_frames + 1) 0 0

pub mark_frame_used : Pmm → ℕ → Pmm
unfolding frame_set
mark_frame_used p frame = record (frame_set p frame) { used_frames = u32 (p.used_frames + 1) }

-- `fatal` is `arch_fatal()`, which stops the machine.
pub data Outcome : Type 0 where
  ok : ℕ → Pmm → Outcome
  fatal : Outcome
  out_of_fuel : Outcome

pub allocate_frame : Pmm → Outcome
allocate_frame p =
    if leb p.max_frames p.used_frames
    then fatal
    else if first_free_frame p == 0
    then fatal
    else ok (first_free_frame p) (mark_frame_used p (first_free_frame p))

-- `frame << FRAME_SHIFT`
abbrev pub frame_addr_of : ℕ → ℕ
frame_addr_of frame = u32 (frame * 2 ^ 12)

abbrev pub to_addr : Outcome → Outcome
to_addr (ok frame p) = ok (frame_addr_of frame) p
to_addr fatal = fatal
to_addr out_of_fuel = out_of_fuel

pub allocate_frame_addr : Pmm → Outcome
allocate_frame_addr p = to_addr (allocate_frame p)

-- `for (i = 0; i < n; ++i) pmm_mark_frame_used(start + i)`, from `start` on.
pub mark_frames_used : Pmm → (start n : ℕ) → Pmm
mark_frames_used p start zero = p
mark_frames_used p start (suc n) = mark_frames_used (mark_frame_used p start) (u32 (start + 1)) n

-- What is left of `__pmm_allocate_frames` once the search has returned.
abbrev pub take_frames : Pmm → ℕ → Option ℕ → Outcome
take_frames p n none = out_of_fuel
take_frames p n (some start) = if start == 0 then fatal else ok start (mark_frames_used p start n)

pub allocate_frames : Pmm → ℕ → Outcome
allocate_frames p n =
    if n == 0
    then ok 0 p
    else if leb p.max_frames p.used_frames
    then fatal
    else take_frames p n (first_nfree_frames p n)

pub allocate_frames_addr : Pmm → ℕ → Outcome
allocate_frames_addr p n = to_addr (allocate_frames p n)

pub free_frame : Pmm → ℕ → Pmm
free_frame p frame_addr =
    frame_unseta (record p { used_frames = (p.used_frames + 2 ^ 32 - 1) % 2 ^ 32 }) frame_addr
