-- ===== src/Pmm/Init/Regions.antt =====
-- The regions of `pmm_init`: which frames a region function changes.
use hos.Base.{
  u32, ℕ, zero, suc, ◌+◌, ◌/◌, ◌^◌, ◌<◌, ◌≡◌, refl, ◌∙◌, Bool, false, ◌==◌, ◌||◌, ◌&&◌, leb, ltb,
  if◌then◌else◌, arith, bit_and, List, [], ◌∷◌, ◌*◌, ◌%◌, Bool-cases, inl, inr,
}
use hos.Base.Bits.{bit_and-div_page, bit_and-ones}
use hos.Pmm.{Pmm, frame_test, frame_set, frame_unset, frame_size}
use hos.Pmm.Bitmap.{frame_test-frame_set, frame_test-frame_unset}
use hos.Pmm.Init.{
  MmapEntry, frame_mask, unset_frames, set_frames, init_region, deinit_region, init_regions,
}

-- The whole pages of a length in bytes.
pub pages_of :
    (length : ℕ) → length < 2 ^ 32 → bit_and length frame_mask / 2 ^ 12 ≡ length / frame_size
pages_of length h =
    bit_and-div_page length frame_mask ∙ bit_and-ones 20 (length / frame_size) (omega arith)

-- Frame `g` is one of the frames from that of `addr` on, as many as `length` has whole pages.
abbrev pub in_region : (addr length g : ℕ) → Bool
in_region addr length g =
    leb (addr / frame_size) g && ltb g (addr / frame_size + length / frame_size)

frame_test-set_frames :
    (p : Pmm) (start n g : ℕ)
    → start + n < 2 ^ 32
    → frame_test (set_frames p start n) g ≡ ((leb start g && ltb g (start + n)) || frame_test p g)
unfolding set_frames
frame_test-set_frames p start zero g small = ground arith
frame_test-set_frames p start (suc n) g small =
    let next : u32 (start + 1) ≡ start + 1 = omega arith in
    rw next (
      ground (
        arith,
        frame_test-set_frames (frame_set p start) (start + 1) n g (omega arith),
        frame_test-frame_set p start g,
      ))

frame_test-unset_frames :
    (p : Pmm) (start n g : ℕ)
    → start + n < 2 ^ 32
    → frame_test (unset_frames p start n) g
      ≡ (if leb start g && ltb g (start + n) then false else frame_test p g)
unfolding unset_frames
frame_test-unset_frames p start zero g small = ground arith
frame_test-unset_frames p start (suc n) g small =
    let next : u32 (start + 1) ≡ start + 1 = omega arith in
    rw next (
      ground (
        arith,
        frame_test-unset_frames (frame_unset p start) (start + 1) n g (omega arith),
        frame_test-frame_unset p start g,
      ))

module _ (p : Pmm) (addr length g : ℕ) (a32 : addr < 2 ^ 32) (l32 : length < 2 ^ 32) where
  -- `pmm_deinit_region` marks the frames of the region, and no other frame.
  pub frame_test-deinit_region :
      frame_test (deinit_region p addr length) g ≡ (in_region addr length g || frame_test p g)
  unfolding deinit_region
  frame_test-deinit_region =
      rw (pages_of length l32)
        (frame_test-set_frames p (addr / frame_size) (length / frame_size) g (omega arith))

  -- `pmm_init_region` frees the frames of the region, and no other frame.
  pub frame_test-init_region :
      frame_test (init_region p addr length) g
      ≡ (if in_region addr length g then false else frame_test p g)
  unfolding init_region
  frame_test-init_region =
      rw (pages_of length l32)
        (frame_test-unset_frames p (addr / frame_size) (length / frame_size) g (omega arith))

-- The frame is in some region of available memory, its address and length taken modulo 2 ^ 32.
abbrev pub available : List MmapEntry → ℕ → Bool
available [] g = false
available (e ∷ es) g = ((e.kind == 1) && in_region (u32 e.addr) (u32 e.len) g) || available es g

-- The bytes of frame `g` lie among the `length` bytes from `addr` on.
abbrev pub holds_page : (addr length g : ℕ) → Bool
holds_page addr length g =
    leb addr (g * frame_size) && leb (g * frame_size + frame_size) (addr + length)

-- Some region of available memory holds all the bytes of the frame.
abbrev pub has_page : List MmapEntry → ℕ → Bool
has_page [] g = false
has_page (e ∷ es) g = ((e.kind == 1) && holds_page e.addr e.len g) || has_page es g

-- Every region of available memory starts at a page, and its address and its length have 32 bits.
abbrev pub StartsAtPages : List MmapEntry → Type 0
StartsAtPages [] = Unit
StartsAtPages (e ∷ es) =
    (e.kind ≡ 1 → (e.addr % frame_size ≡ 0) × (e.addr < 2 ^ 32) × (e.len < 2 ^ 32))
    × StartsAtPages es

in_region-holds_page :
    (addr length g : ℕ)
    → addr % frame_size ≡ 0
    → addr < 2 ^ 32
    → length < 2 ^ 32
    → in_region (u32 addr) (u32 length) g ≡ holds_page addr length g
in_region-holds_page addr length g al a32 l32 =
    let low : u32 addr ≡ addr = omega arith in
    let size : u32 length ≡ length = omega arith in rw low (rw size (ground (arith, al)))

pub available-has_page :
    (es : List MmapEntry) (g : ℕ) → StartsAtPages es → available es g ≡ has_page es g
available-has_page [] g al = refl
available-has_page (e ∷ es) g (here, al) = elim (Bool-cases (e.kind == 1)) [
  | inl t ↦
      let (a, a32, l32) = here (ground (arith, t)) in
      rw t
        (rw (in_region-holds_page e.addr e.len g a a32 l32) (rw (available-has_page es g al) refl))
  | inr f ↦ rw f (available-has_page es g al)
]

pub frame_test-init_regions :
    (p : Pmm) (es : List MmapEntry) (g : ℕ)
    → frame_test (init_regions p es) g ≡ (if available es g then false else frame_test p g)
unfolding init_regions
frame_test-init_regions p [] g = refl
frame_test-init_regions p (e ∷ es) g = ground (
  arith,
  frame_test-init_regions (if e.kind == 1 then init_region p (u32 e.addr) (u32 e.len) else p) es g,
  frame_test-init_region p (u32 e.addr) (u32 e.len) g (omega arith) (omega arith),
)
