-- ===== src/Vmm/Entries.antt =====
-- The entries of page tables in src/kernel/memory/vmm.c: what a new frame and flags do to their fields.
use hos.Base.{ℕ, ◌%◌, ◌^◌, ◌<◌, ◌≡◌, bit_and, bit_or, arith}
use hos.Base.Bits.{bit-bit_or, bit-bit_and, bit_or-div_page, bit_and-lt, bit_first, bit_seventh}
use hos.Vmm.{present, size_bit, frame_of, set_frame, page_set_flags}

mask-lt : (flags : ℕ) → bit_and 4095 flags < 2 ^ 12
mask-lt flags = bit_and-lt 12 4095 flags (omega arith)

pub frame_of-page_set_flags : (raw flags : ℕ) → frame_of (page_set_flags raw flags) ≡ frame_of raw
unfolding page_set_flags
frame_of-page_set_flags raw flags = bit_or-div_page raw (bit_and 4095 flags) (mask-lt flags)

pub frame_of-set_frame : (raw frame : ℕ) → frame < 2 ^ 20 → frame_of (set_frame raw frame) ≡ frame
unfolding set_frame
frame_of-set_frame raw frame small = omega arith

-- Flags with the present bit make an entry present.
pub present-page_set_flags :
    (raw flags : ℕ) → flags % 2 ≡ 1 → present (page_set_flags raw flags) ≡ 1
unfolding page_set_flags
present-page_set_flags raw flags odd = omega (
  arith,
  bit-bit_or raw (bit_and 4095 flags) 0,
  bit-bit_and 4095 flags 0,
  bit_first (bit_or raw (bit_and 4095 flags)),
  bit_first raw,
  bit_first (bit_and 4095 flags),
  bit_first flags,
  bit_first 4095,
)

-- Flags without the size bit do not set it.
pub size_bit-page_set_flags :
    (raw flags : ℕ)
    → size_bit raw ≡ 0
    → size_bit flags ≡ 0
    → size_bit (page_set_flags raw flags) ≡ 0
unfolding page_set_flags
size_bit-page_set_flags raw flags small few = omega (
  arith,
  bit-bit_or raw (bit_and 4095 flags) 7,
  bit-bit_and 4095 flags 7,
  bit_seventh (bit_or raw (bit_and 4095 flags)),
  bit_seventh raw,
  bit_seventh (bit_and 4095 flags),
  bit_seventh flags,
)

pub size_bit-set_frame : (raw frame : ℕ) → size_bit (set_frame raw frame) ≡ size_bit raw
unfolding set_frame
size_bit-set_frame raw frame = omega arith
