-- ===== src/Pmm/Init/Tail.antt =====
-- The frame that holds the end of the bitmap itself, which `pmm_init` places behind the kernel.
use hos.Base.{
  ℕ, ◌+◌, ◌-◌, ◌/◌, ◌%◌, ◌^◌, ◌<◌, ◌≤◌, ◌≡◌, ◌≢◌, refl, ap, ◌∙◌, true, false, arith, List, ◌==◌,
}
use hos.Base.Bits.{bit_and_page}
use hos.Pmm.{Pmm, frame_test, frame_size}
use hos.Pmm.Init.{BootInfo, MmapEntry, init, page_align, sub32}
use hos.Pmm.Init.Regions.{in_region, available}
use hos.Pmm.Init.Summary.{IsBoot, bitmap_bytes, addressable_phy, frame_test-init}

-- The frame of the last byte of the bitmap, for a kernel that ends at a page boundary.
abbrev pub last_bitmap_frame : BootInfo → ℕ
last_bitmap_frame b = (b.kernel_phy_end + bitmap_bytes b - 1) / frame_size

page_align_aligned : (a : ℕ) → a % frame_size ≡ 0 → a + frame_size < 2 ^ 32 → page_align a ≡ a
page_align_aligned a al small = bit_and_page ((a + 4095) % 2 ^ 32) (omega arith) ∙ omega arith

-- For a kernel that ends at a page boundary above 0, where the size of the bitmap behind it is no whole
-- number of pages and its end and one page more have 32 bits, `pmm_init` leaves the frame of the last
-- byte of the bitmap free, if that is a frame below `max_frames`, in an available region, and in none
-- of the regions of the boot loader, the kernel and video, each as the code rounds and truncates it.
pub last_bitmap_frame-free :
    (p : Pmm) (b : BootInfo) (mmap : List MmapEntry)
    → IsBoot b
    → b.kernel_phy_end % frame_size ≡ 0
    → bitmap_bytes b % frame_size ≢ 0
    → b.kernel_phy_end + bitmap_bytes b + frame_size < 2 ^ 32
    → last_bitmap_frame b ≤ b.highest_address / 2 ^ 12
    → available mmap (last_bitmap_frame b) ≡ true
    → in_region 0 b.bootloader_phy_end (last_bitmap_frame b) ≡ false
    → in_region b.kernel_phy_start b.kernel_size (last_bitmap_frame b) ≡ false
    → in_region b.video_phy_start (sub32 b.video_phy_end b.video_phy_start) (last_bitmap_frame b)
      ≡ false
    → 0 < b.kernel_phy_end
    → frame_test (init p b mmap) (last_bitmap_frame b) ≡ false
last_bitmap_frame-free p b mmap ok al part small range avail loader kernel video pos =
    frame_test-init p b mmap (last_bitmap_frame b) ok range
    ∙ rw (avail, video, kernel, loader, bitmap, zeroth) refl
  where
    zeroth : (0 == last_bitmap_frame b) ≡ false
    zeroth = ground arith

    len : sub32 (addressable_phy b) b.kernel_phy_end ≡ bitmap_bytes b
    len =
        ap (λ (e : ℕ). sub32 ((e + bitmap_bytes b) % 2 ^ 32) b.kernel_phy_end)
          (page_align_aligned b.kernel_phy_end al (omega arith))
        ∙ omega arith

    bitmap :
        in_region b.kernel_phy_end
          (sub32 (addressable_phy b) b.kernel_phy_end)
          (last_bitmap_frame b)
        ≡ false
    bitmap = rw len (ground arith)
