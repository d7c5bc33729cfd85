-- ===== src/Pmm/Init.antt =====
-- `pmm_init` of pmm.c and the region functions it calls.
--
-- The boot information and the memory map come from the boot loader: they are arguments. The map
-- is the list of the entries that the walk by `entry_size` visits.
pub mod Regions
pub mod Keeps
pub mod Counting
pub mod Summary
pub mod Tail
use hos.Base.{
  u32, all_ones, ℕ, zero, suc, ◌+◌, ◌-◌, ◌*◌, ◌/◌, ◌%◌, ◌^◌, bit_and, Bool, not, ltb, ◌==◌,
  if◌then◌else◌, List, [], ◌∷◌,
}
use hos.Pmm.{Pmm, frame_size, frame_index, frame_set, frame_unset}

-- The fields of `boot_info_t` that `pmm_init` reads.
pub record BootInfo : Type 0 where
  pub bootloader_phy_end : ℕ
  pub kernel_phy_start : ℕ
  pub kernel_phy_end : ℕ
  pub kernel_end : ℕ
  pub kernel_size : ℕ
  pub highest_address : ℕ
  pub video_phy_start : ℕ
  pub video_phy_end : ℕ

-- `multiboot_memory_map_t`: 64-bit address and length.
pub record MmapEntry : Type 0 where
  pub addr : ℕ
  pub len : ℕ
  pub kind : ℕ

-- FRAME_MASK
abbrev pub frame_mask : ℕ
frame_mask = 2 ^ 32 - frame_size

-- PAGE_ALIGN
abbrev pub page_align : ℕ → ℕ
page_align addr = bit_and (u32 (addr + (frame_size - 1))) frame_mask

-- The loops `for (i = 0; i < frames; ++i)` of the two region functions, from frame `start` on.
pub unset_frames : Pmm → (start frames : ℕ) → Pmm
unset_frames p start zero = p
unset_frames p start (suc n) = unset_frames (frame_unset p start) (u32 (start + 1)) n

pub set_frames : Pmm → (start frames : ℕ) → Pmm
set_frames p start zero = p
set_frames p start (suc n) = set_frames (frame_set p start) (u32 (start + 1)) n

pub init_region : Pmm → (addr length : ℕ) → Pmm
init_region p addr length = unset_frames p (addr / frame_size) (bit_and length frame_mask / 2 ^ 12)

pub deinit_region : Pmm → (addr length : ℕ) → Pmm
deinit_region p addr length = set_frames p (addr / frame_size) (bit_and length frame_mask / 2 ^ 12)

-- The walk over the memory map; the arguments of `pmm_init_region` have 32 bits.
pub init_regions : Pmm → List MmapEntry → Pmm
init_regions p [] = p
init_regions p (e ∷ es) =
    init_regions (if e.kind == 1 then init_region p (u32 e.addr) (u32 e.len) else p) es

-- `memset(frames_bitmap, 0xFF, bytes)` for a whole number of words.
pub fill_bitmap : (ℕ → ℕ) → (bytes : ℕ) → ℕ → ℕ
fill_bitmap m bytes i = if ltb i (bytes / 4) then all_ones else m i

-- The two loops that count the used frames: the bits of a word, and the words.
pub count_word : (w left j used : ℕ) → ℕ
count_word w zero j used = used
count_word w (suc left) j used =
    count_word w left (j + 1) (if not (bit_and w (2 ^ j) == 0) then u32 (used + 1) else used)

pub count_words : (m : ℕ → ℕ) (left i used : ℕ) → ℕ
count_words m zero i used = used
count_words m (suc left) i used = count_words m left (i + 1) (count_word (m i) 32 0 used)

-- `a - b` in uint32_t.
abbrev pub sub32 : ℕ → ℕ → ℕ
sub32 a b = (a + 2 ^ 32 - b) % 2 ^ 32

-- The state once `memsize`, `max_frames` and the bitmap are set up and filled with ones.
pub setup : Pmm → BootInfo → Pmm
setup p boot =
    let max = u32 (boot.highest_address / 2 ^ 12 + 1) in
    let size = u32 ((frame_index (sub32 max 1) + 1) * 4) in
    record p {
      memsize = boot.highest_address;
      max_frames = max;
      frames_bitmap_size = size;
      frames_bitmap = fill_bitmap p.frames_bitmap size;
    }

-- The regions that are marked as used, in the order of the code.
pub reserve : Pmm → BootInfo → Pmm
reserve p boot =
    let addressable_phy = u32 (page_align boot.kernel_phy_end + p.frames_bitmap_size) in
    let p1 = deinit_region (frame_set p 0) 0 boot.bootloader_phy_end in
    let p2 = deinit_region p1 boot.kernel_phy_start boot.kernel_size in
    let p3 = deinit_region p2 boot.kernel_phy_end (sub32 addressable_phy boot.kernel_phy_end) in
    deinit_region p3 boot.video_phy_start (sub32 boot.video_phy_end boot.video_phy_start)

-- The count that ends `pmm_init`.
pub count_used : Pmm → Pmm
count_used p = record p {
  used_frames = count_words p.frames_bitmap (frame_index p.max_frames) 0 p.used_frames;
}

pub init : Pmm → BootInfo → List MmapEntry → Pmm
init p boot mmap = count_used (reserve (init_regions (setup p boot) mmap) boot)
