-- ===== src/Pmm/Bitmap.antt =====
-- The bitmap of pmm.c as a set of frames: what a write to one frame's bit does to every frame.
use native.Mathlib.Nat.{one-le-pow, pow-le-pow_right}
use hos.Base.{
  all_ones, ℕ, ◌-◌, ◌*◌, ◌^◌, ◌<◌, ◌≡◌, false, not, ◌||◌, ◌==◌, if◌then◌else◌, arith, bit_and,
}
use hos.Base.Bits.{
  bit, bit-le-one, bit-bit_or, bit-bit_and, bit-pow, bit-complement, bit_and-pow, bit_or-lt,
  bit_and-lt,
}
use hos.Pmm.{Pmm, frame_index, frame_offset, frame_set, frame_unset, frame_test}

-- A test of one bit, as the C code makes it.
pub bit_test : (w j : ℕ) → not (bit_and w (2 ^ j) == 0) ≡ (bit w j == 1)
bit_test w j = ground (arith, bit_and-pow w j, bit-le-one w j, one-le-pow j 2, cases)
  where
    cases : (bit w j ≡ 0) → bit w j * 2 ^ j ≡ 0
    cases e = rw e (omega arith)

pow-lt : (f : ℕ) → 2 ^ frame_offset f < 2 ^ 32
pow-lt f =
    omega
      (arith, pow-le-pow_right {n = 2} (omega arith) {i = frame_offset f} {j = 31} (omega arith))

pub frame_test-bit :
    (p : Pmm) (f : ℕ)
    → frame_test p f ≡ (bit (p.frames_bitmap (frame_index f)) (frame_offset f) == 1)
unfolding frame_test
frame_test-bit p f = bit_test (p.frames_bitmap (frame_index f)) (frame_offset f)

-- Setting a frame's bit marks that frame and no other.
pub frame_test-frame_set :
    (p : Pmm) (f g : ℕ) → frame_test (frame_set p f) g ≡ ((f == g) || frame_test p g)
unfolding frame_set
frame_test-frame_set p f g = ground (
  arith,
  frame_test-bit p g,
  frame_test-bit (frame_set p f) g,
  bit-bit_or (p.frames_bitmap (frame_index f)) (2 ^ frame_offset f) (frame_offset g),
  bit-pow (frame_offset f) (frame_offset g),
  bit-le-one (p.frames_bitmap (frame_index f)) (frame_offset g),
)

-- Clearing a frame's bit frees that frame and no other.
pub frame_test-frame_unset :
    (p : Pmm) (f g : ℕ)
    → frame_test (frame_unset p f) g ≡ (if f == g then false else frame_test p g)
unfolding frame_unset
frame_test-frame_unset p f g = ground (
  arith,
  frame_test-bit p g,
  frame_test-bit (frame_unset p f) g,
  bit-bit_and (p.frames_bitmap (frame_index f)) (all_ones - 2 ^ frame_offset f) (frame_offset g),
  bit-complement 32 (2 ^ frame_offset f) (frame_offset g) (pow-lt f) (omega arith),
  bit-pow (frame_offset f) (frame_offset g),
  bit-le-one (p.frames_bitmap (frame_index f)) (frame_offset g),
)

-- Every word of the bitmap is a uint32_t.
abbrev pub IsWords : Pmm → Type 0
IsWords p = (i : ℕ) → p.frames_bitmap i < 2 ^ 32

pub frame_set-IsWords : (p : Pmm) (f : ℕ) → IsWords p → IsWords (frame_set p f)
unfolding frame_set
frame_set-IsWords p f h i = ground (
  arith,
  h i,
  bit_or-lt 32 (p.frames_bitmap (frame_index f)) (2 ^ frame_offset f) (h (frame_index f))
      (pow-lt f),
)

pub frame_unset-IsWords : (p : Pmm) (f : ℕ) → IsWords p → IsWords (frame_unset p f)
unfolding frame_unset
frame_unset-IsWords p f h i = ground (
  arith,
  h i,
  bit_and-lt 32 (p.frames_bitmap (frame_index f)) (all_ones - 2 ^ frame_offset f)
      (h (frame_index f)),
)
