-- ===== src/Pmm/Tests.antt =====
-- Runs of the frame allocator on small bitmaps, and its theorems at such states.
use hos.Base.{
  false, all_ones, ℕ, ◌+◌, ◌<◌, ◌≤◌, ◌≡◌, refl, true, not, ◌||◌, arith, List, [], ◌∷◌, ltb, ◌==◌,
  if◌then◌else◌, ◌↔◌, some,
}
use hos.Pmm.{
  Pmm, frame_test, free_in_word, first_free_from, first_free_frame, nfree_loop, first_nfree_frames,
  mark_frame_used, allocate_frame, allocate_frames, free_frame, frame_addr_of, ok, fatal,
}
use hos.Pmm.Search.{scan_start, scan_end}
use hos.Pmm.Runs.{IsBroken}
use hos.Pmm.Alloc.{
  IsReady, AllocSpec, allocate_frame-AllocSpec, allocate_frames-AllocSpec,
  free_frame-allocate_frame,
}
use hos.Pmm.Live.{Holds, start, allocate, release, Reach-Holds}
use hos.Pmm.Count.{count_taken, IsCounted, allocate_frame-fatal}
use hos.Pmm.Init.{BootInfo, MmapEntry, init}
use hos.Pmm.Init.Regions.{has_page, StartsAtPages}
use hos.Pmm.Init.Summary.{IsBoot, reserved, frame_test-init_pages, init-IsReady}
use hos.Pmm.Init.Tail.{last_bitmap_frame, last_bitmap_frame-free}

-- Frames 0 to 3 and the whole second word are taken; frames 64 to 69 are free and lie behind the
-- last whole word below `max_frames`.
abbrev demo : Pmm
demo = record {
  memsize = 0x45000;
  frames_bitmap = λ i. if i == 0 then 15 else if i == 1 then all_ones else 0;
  max_frames = 70;
  used_frames = 36;
  frames_bitmap_size = 12;
  lowest_available = 0;
}

-- The same with the first word full.
abbrev full : Pmm
full = record demo { frames_bitmap = λ i. if ltb i 2 then all_ones else 0; used_frames = 64 }

-- What `pmm_allocate_frame` makes of `demo`.
abbrev next : Pmm
next = mark_frame_used demo 4

demo-IsReady : IsReady demo
unfolding frame_test
demo-IsReady = record {
  words = λ i. ground arith;
  reserved = refl;
  small = omega arith;
  counts = omega arith;
}

full-IsReady : IsReady full
unfolding frame_test
full-IsReady = record {
  words = λ i. ground arith;
  reserved = refl;
  small = omega arith;
  counts = omega arith;
}

first_free_frame_runs :
    (first_free_frame demo ≡ 4) × (first_free_frame full ≡ 0) × (first_free_frame next ≡ 5)
unfolding first_free_frame first_free_from free_in_word mark_frame_used
first_free_frame_runs = (refl, refl, refl)

-- A run of 28 frames fits the first word, one of 29 does not fit anywhere, and the tail takes 6.
first_nfree_frames_runs :
    (first_nfree_frames demo 28 ≡ some 4)
    × (first_nfree_frames demo 29 ≡ some 0)
    × (first_nfree_frames full 6 ≡ some 64)
unfolding first_nfree_frames nfree_loop frame_test
first_nfree_frames_runs = (refl, refl, refl)

allocate_frame_runs : (allocate_frame demo ≡ ok 4 next) × (allocate_frame full ≡ fatal)
unfolding allocate_frame first_free_frame first_free_from free_in_word
allocate_frame_runs = (refl, refl)

allocate_frames_zero : allocate_frames demo 0 ≡ ok 0 demo
unfolding allocate_frames
allocate_frames_zero = refl

allocate_frame-AllocSpec_example :
    AllocSpec demo 1
      ((g : ℕ) → scan_start demo ≤ g → g < scan_end demo → frame_test demo g ≡ true)
      (allocate_frame demo)
allocate_frame-AllocSpec_example = allocate_frame-AllocSpec demo demo-IsReady

allocate_frames-AllocSpec_example :
    AllocSpec demo 28 ((s : ℕ) → s + 28 ≤ 70 → IsBroken demo 28 s) (allocate_frames demo 28)
allocate_frames-AllocSpec_example = allocate_frames-AllocSpec demo 28 (omega arith) demo-IsReady

free_frame-allocate_frame_example :
    ((g : ℕ) → frame_test (free_frame next (frame_addr_of 4)) g ≡ frame_test demo g)
    × ((free_frame next (frame_addr_of 4)).used_frames ≡ 36)
unfolding allocate_frame first_free_frame first_free_from free_in_word
free_frame-allocate_frame_example =
    free_frame-allocate_frame demo next 4 demo-IsReady (omega arith) refl

Reach-Holds_example :
    IsReady (free_frame next (frame_addr_of 4))
    × ((free_frame next (frame_addr_of 4)).max_frames ≡ 70)
    × Holds (free_frame next (frame_addr_of 4)) []
unfolding allocate_frame first_free_frame first_free_from free_in_word
Reach-Holds_example =
    Reach-Holds {p = demo} {q = free_frame next (frame_addr_of 4)} {held = []}
      (release 4 (allocate {q = demo} {r = next} {f = 4} start refl) refl refl refl) demo-IsReady
      (omega arith)

-- Six frames are free, and `pmm_allocate_frame` stops the machine.
allocate_frame-fatal_example :
    (allocate_frame full ≡ fatal) ↔ ((g : ℕ) → g < 64 → frame_test full g ≡ true)
unfolding count_taken frame_test
allocate_frame-fatal_example = allocate_frame-fatal full full-IsReady refl refl

-- A machine with 128 MiB: the bitmap has 4100 bytes.
abbrev boot : BootInfo
boot = record {
  bootloader_phy_end = 0x10000;
  kernel_phy_start = 0x100000;
  kernel_phy_end = 0x200000;
  kernel_end = 0xc0200000;
  kernel_size = 0x100000;
  highest_address = 0x8000000;
  video_phy_start = 0xfd000000;
  video_phy_end = 0xfd100000;
}

abbrev memory_map : List MmapEntry
memory_map =
    record { addr = 0; len = 0x9f000; kind = 1 }
    ∷ record { addr = 0x9f000; len = 0x61000; kind = 2 }
    ∷ record { addr = 0x100000; len = 0x7f00000; kind = 1 }
    ∷ []

-- The state of the C statics, over memory of zeros.
abbrev statics : Pmm
statics = record {
  memsize = 0;
  frames_bitmap = λ i. 0;
  max_frames = 0;
  used_frames = 0;
  frames_bitmap_size = 0;
  lowest_available = 0;
}

boot-IsBoot : IsBoot boot
boot-IsBoot = omega arith

memory_map-StartsAtPages : StartsAtPages memory_map
memory_map-StartsAtPages = (λ kind. omega arith, (λ kind. omega arith, (λ kind. omega arith, tt)))

frame_test-init_pages_example :
    frame_test (init statics boot memory_map) 0x300
    ≡ (reserved boot 0x300 || not (has_page memory_map 0x300))
frame_test-init_pages_example =
    frame_test-init_pages statics boot memory_map 0x300 boot-IsBoot memory_map-StartsAtPages
      (omega arith)

-- The bitmap has 4100 bytes from 0x200000 on, and frame 0x201 holds the last four.
last_bitmap_frame-free_example :
    frame_test (init statics boot memory_map) (last_bitmap_frame boot) ≡ false
last_bitmap_frame-free_example =
    last_bitmap_frame-free statics boot memory_map boot-IsBoot (omega arith) (omega arith)
      (omega arith) (omega arith) refl refl refl refl (omega arith)

init-IsReady_example :
    IsReady (init statics boot memory_map)
    × IsCounted (init statics boot memory_map)
    × ((init statics boot memory_map).lowest_available ≡ 0)
    × ((init statics boot memory_map).max_frames ≡ 32769)
init-IsReady_example = init-IsReady statics boot memory_map boot-IsBoot (λ i. omega arith) refl refl
