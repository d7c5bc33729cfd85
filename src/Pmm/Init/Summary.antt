-- ===== src/Pmm/Init/Summary.antt =====
-- The state that `pmm_init` leaves: which frames are taken, and the count.
use hos.Base.{
  u32, all_ones, ℕ, ◌+◌, ◌*◌, ◌/◌, ◌%◌, ◌^◌, ◌<◌, ◌≤◌, ◌≡◌, refl, ap, sym, ◌∙◌, Bool, true, false,
  not, ◌==◌, ◌||◌, if◌then◌else◌, arith, List,
}
use mathlib.Core.Bool.{or_assoc}
use hos.Base.Bits.{bit, bit-ones}
use hos.Pmm.{Pmm, frame_test, frame_index}
use hos.Pmm.Bitmap.{frame_test-frame_set, frame_test-bit, IsWords}
use hos.Pmm.Search.{scan_end}
use hos.Pmm.Alloc.{IsReady}
use hos.Pmm.Count.{count_taken, count_taken-le, IsCounted}
use hos.Pmm.Init.{
  BootInfo, MmapEntry, page_align, sub32, init_regions, setup, reserve, count_used, count_words,
  fill_bitmap, init,
}
use hos.Pmm.Init.Keeps.{
  Keeps, Keeps-trans, Keeps-frame_set, Keeps-deinit_region, Keeps-init_regions,
}
use hos.Pmm.Init.Counting.{count_words-exact, count_taken-count_used, frame_test-count_used}
use hos.Pmm.Init.Regions.{
  in_region, available, has_page, StartsAtPages, available-has_page, frame_test-deinit_region,
  frame_test-init_regions,
}

-- The boot loader's numbers have 32 bits.
pub record IsBoot (b : BootInfo) : Type 0 where
  pub loader : b.bootloader_phy_end < 2 ^ 32
  pub start : b.kernel_phy_start < 2 ^ 32
  pub finish : b.kernel_phy_end < 2 ^ 32
  pub size : b.kernel_size < 2 ^ 32
  pub highest : b.highest_address < 2 ^ 32
  pub video : b.video_phy_start < 2 ^ 32

-- The bytes of the bitmap, and the end of what is placed behind the kernel.
abbrev pub bitmap_bytes : BootInfo → ℕ
bitmap_bytes b = (frame_index (b.highest_address / 2 ^ 12) + 1) * 4

abbrev pub addressable_phy : BootInfo → ℕ
addressable_phy b = u32 (page_align b.kernel_phy_end + bitmap_bytes b)

-- The frames that `pmm_init` reserves.
abbrev pub reserved : BootInfo → ℕ → Bool
reserved b g =
    in_region b.video_phy_start (sub32 b.video_phy_end b.video_phy_start) g
    || (in_region b.kernel_phy_end (sub32 (addressable_phy b) b.kernel_phy_end) g
        || (in_region b.kernel_phy_start b.kernel_size g
            || (in_region 0 b.bootloader_phy_end g || (0 == g))))

module _ (p : Pmm) (b : BootInfo) (ok : IsBoot b) where
  setup_sizes :
      ((setup p b).max_frames ≡ b.highest_address / 2 ^ 12 + 1)
      × ((setup p b).frames_bitmap_size ≡ bitmap_bytes b)
  unfolding setup
  setup_sizes = omega (arith, ok.highest)

  bitmap-setup :
      (g : ℕ)
      → g ≤ b.highest_address / 2 ^ 12
      → (setup p b).frames_bitmap (frame_index g) ≡ all_ones
  unfolding setup fill_bitmap
  bitmap-setup g le = ground (arith, ok.highest)

  -- At first every frame below `max_frames` is taken.
  frame_test-setup : (g : ℕ) → g ≤ b.highest_address / 2 ^ 12 → frame_test (setup p b) g ≡ true
  frame_test-setup g le =
      frame_test-bit (setup p b) g
      ∙ ground (
        arith,
        bitmap-setup g le,
        bit-ones 32 (g % 2 ^ 5) (omega arith),
        ap (λ (w : ℕ). bit w (g % 2 ^ 5)) (bitmap-setup g le),
      )

  frame_test-reserve :
      (q : Pmm) (g : ℕ)
      → q.frames_bitmap_size ≡ bitmap_bytes b
      → frame_test (reserve q b) g ≡ (reserved b g || frame_test q g)
  unfolding reserve
  frame_test-reserve q g e = simp e (
      rw
        (
          frame_test-deinit_region _ b.video_phy_start (sub32 b.video_phy_end b.video_phy_start) g
              ok.video (omega arith),
          frame_test-deinit_region _ b.kernel_phy_end (sub32 (addressable_phy b) b.kernel_phy_end) g
              ok.finish (omega arith),
          frame_test-deinit_region _ b.kernel_phy_start b.kernel_size g ok.start ok.size,
          frame_test-deinit_region _ 0 b.bootloader_phy_end g (omega arith) ok.loader,
          frame_test-frame_set _ 0 g,
        )
        (simp or_assoc))

if-not : (t : Bool) → (if t then false else true) ≡ not t
if-not true = refl
if-not false = refl

-- `pmm_init` leaves exactly these frames below `max_frames` taken: those that it reserves, and those
-- that are in no available region, as the code rounds and truncates it.
pub frame_test-init :
    (p : Pmm) (b : BootInfo) (mmap : List MmapEntry) (g : ℕ)
    → IsBoot b
    → g ≤ b.highest_address / 2 ^ 12
    → frame_test (init p b mmap) g ≡ (reserved b g || not (available mmap g))
unfolding init
frame_test-init p b mmap g ok le =
    frame_test-count_used (reserve q b) g
    ∙ frame_test-reserve p b ok q g
        ((Keeps-init_regions (setup p b) mmap).size ∙ (setup_sizes p b ok).1)
    ∙ ap (λ (t : Bool). reserved b g || t) (frame_test-init_regions (setup p b) mmap g ∙ was_taken)
  where
    q : Pmm
    q = init_regions (setup p b) mmap

    was_taken :
        (if available mmap g then false else frame_test (setup p b) g) ≡ not (available mmap g)
    was_taken = rw (frame_test-setup p b ok g le) (if-not (available mmap g))

-- Where every available region of the memory map starts at a page and has its address and its length
-- in 32 bits, `pmm_init` leaves exactly these frames below `max_frames` taken: frame 0; for the boot
-- loader, the kernel, what lies behind it and video, the frames from that of the region's address on,
-- as many as its length has whole pages; and those of which not all bytes lie in one available region.
pub frame_test-init_pages :
    (p : Pmm) (b : BootInfo) (mmap : List MmapEntry) (g : ℕ)
    → IsBoot b
    → StartsAtPages mmap
    → g ≤ b.highest_address / 2 ^ 12
    → frame_test (init p b mmap) g ≡ (reserved b g || not (has_page mmap g))
frame_test-init_pages p b mmap g ok al le =
    frame_test-init p b mmap g ok le
    ∙ ap (λ (t : Bool). reserved b g || not t) (available-has_page mmap g al)

Keeps-reserve : (p : Pmm) (b : BootInfo) → Keeps p (reserve p b)
unfolding reserve
Keeps-reserve p b = Keeps-trans (Keeps-frame_set p 0) (
    Keeps-trans (Keeps-deinit_region _ _ _) (
      Keeps-trans (Keeps-deinit_region _ _ _)
        (Keeps-trans (Keeps-deinit_region _ _ _) (Keeps-deinit_region _ _ _))))

or_true : (s t u v : Bool) → (s || (t || (u || (v || true)))) ≡ true
or_true s t u v = ground arith

reserved_zero : (b : BootInfo) → reserved b 0 ≡ true
reserved_zero b =
    or_true (in_region b.video_phy_start (sub32 b.video_phy_end b.video_phy_start) 0)
      (in_region b.kernel_phy_end (sub32 (addressable_phy b) b.kernel_phy_end) 0)
      (in_region b.kernel_phy_start b.kernel_size 0) (in_region 0 b.bootloader_phy_end 0)

IsWords-setup : (p : Pmm) (b : BootInfo) → IsWords p → IsWords (setup p b)
unfolding setup fill_bitmap
IsWords-setup p b words i = ground (arith, words i)

-- From the zero state of the C statics `pmm_init` leads to a state that is ready, with
-- `lowest_available` 0 and with the exact count of the frames that the search looks at.
pub init-IsReady :
    (p : Pmm) (b : BootInfo) (mmap : List MmapEntry)
    → IsBoot b
    → IsWords p
    → p.used_frames ≡ 0
    → p.lowest_available ≡ 0
    → IsReady (init p b mmap)
      × IsCounted (init p b mmap)
      × ((init p b mmap).lowest_available ≡ 0)
      × ((init p b mmap).max_frames ≡ b.highest_address / 2 ^ 12 + 1)
unfolding init count_used
init-IsReady p b mmap ok words unused low = (
  record {
    words = keeps.words (IsWords-setup p b words);
    reserved = frame_zero;
    small = omega (arith, sizes, ok.highest);
    counts = omega (arith, exact, count_taken-le r (scan_end r), sizes, ok.highest);
  },
  counted,
  keeps.lowest (unfold setup in low),
  sizes,
)
  where
    r : Pmm
    r = reserve (init_regions (setup p b) mmap) b

    keeps : Keeps (setup p b) r
    keeps = Keeps-trans (Keeps-init_regions (setup p b) mmap) (Keeps-reserve _ b)

    sizes : r.max_frames ≡ b.highest_address / 2 ^ 12 + 1
    sizes = keeps.max ∙ (setup_sizes p b ok).0

    started : r.used_frames ≡ 0
    started = keeps.used ∙ unfold setup in unused

    exact :
        count_words r.frames_bitmap (frame_index r.max_frames) 0 r.used_frames
        ≡ count_taken r (scan_end r)
    exact = count_words-exact r started (omega (arith, sizes, ok.highest))

    counted : IsCounted (count_used r)
    counted = exact ∙ sym (count_taken-count_used r (scan_end r))

    frame_zero : frame_test (count_used r) 0 ≡ true
    frame_zero =
        frame_test-init p b mmap 0 ok (omega arith)
        ∙ ap (λ (t : Bool). t || not (available mmap 0)) (reserved_zero b)
