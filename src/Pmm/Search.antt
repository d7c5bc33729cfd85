-- ===== src/Pmm/Search.antt =====
-- `pmm_first_free_frame` of pmm.c: the loop over the words and the loop over the bits of a word,
-- against a search of the frames one by one.
use mathlib.Core.Path.{subst, subst₂}
use native.Mathlib.Decide.{dec_lt}
use hos.Base.{
  u32, all_ones, ℕ, zero, suc, ◌+◌, ◌-◌, ◌*◌, ◌/◌, ◌%◌, ◌^◌, ◌<◌, ◌≤◌, ◌≡◌, ◌≢◌, refl, ap, sym, ◌∙◌,
  ◌⊎◌, inl, inr, Bool, true, false, ◌==◌, arith, bit_and, Bool-cases, Option, none, some, ==_iff,
}
use hos.Base.Bits.{bit, bit-le-one, bit-ones}
use hos.Pmm.{
  Pmm, frame_index, frame_offset, frame_test, free_in_word, first_free_from, first_free_frame,
}
use hos.Pmm.Bitmap.{bit_test, frame_test-bit, IsWords}

-- What the bit loop returns when it looks at `left` bits of `w` from bit `j` on.
abbrev WordScan : (w i left j : ℕ) → Option ℕ → Type 0
WordScan w i left j none = (b : ℕ) → j ≤ b → b < j + left → bit w b ≡ 1
WordScan w i left j (some out) =
    (b : ℕ) × (out ≡ u32 (i * 2 ^ 5 + b))
    × (j ≤ b)
    × (b < j + left)
    × (bit w b ≡ 0)
    × ((c : ℕ) → j ≤ c → c < b → bit w c ≡ 1)

WordScan-cons :
    (w i left j : ℕ) (o : Option ℕ)
    → bit w j ≡ 1
    → WordScan w i left (j + 1) o
    → WordScan w i (suc left) j o
WordScan-cons w i left j none e h = λ b p q. elim (Bool-cases (b == j)) [
  | inl same ↦ ground (arith, e)
  | inr other ↦ h b (ground arith) (omega arith)
]
WordScan-cons w i left j (some out) e (b, is, lo, hi, free, before) = (
  b,
  is,
  omega arith,
  omega arith,
  free,
  λ c p q. elim (Bool-cases (c == j)) [
    | inl same ↦ ground (arith, e)
    | inr other ↦ before c (ground arith) q
  ],
)

free_in_word-WordScan : (w i left j : ℕ) → WordScan w i left j (free_in_word w i left j)
unfolding free_in_word
free_in_word-WordScan w i zero j = λ b p q. absurd (omega arith)
free_in_word-WordScan w i (suc left) j = elim (Bool-cases (bit_and w (2 ^ j) == 0)) [
  | inl clear ↦ rw clear (
    j,
    refl,
    omega arith,
    omega arith,
    ground (arith, bit_test w j, bit-le-one w j),
    λ c p q. absurd (omega arith),
  )
  | inr used ↦ rw used (
      WordScan-cons w i left j (free_in_word w i left (j + 1)) (ground (arith, bit_test w j))
        (free_in_word-WordScan w i left (j + 1)))
]

-- The bit of frame `f` in the bitmap `m`.
abbrev pub taken : (ℕ → ℕ) → ℕ → Bool
taken m f = bit (m (frame_index f)) (frame_offset f) == 1

-- `r` is the first free frame from `lo` up to `hi`, or 0 where there is none.
abbrev pub IsFirst : (m : ℕ → ℕ) (lo hi r : ℕ) → Type 0
IsFirst m lo hi r =
    ((r ≡ 0) × ((g : ℕ) → lo ≤ g → g < hi → taken m g ≡ true))
    ⊎ ((lo ≤ r) × (r < hi) × (taken m r ≡ false) × ((g : ℕ) → lo ≤ g → g < r → taken m g ≡ true))

-- A word whose 32 frames are taken can be passed over.
IsFirst-skip :
    (m : ℕ → ℕ) (lo mid hi r : ℕ)
    → lo ≤ mid
    → ((g : ℕ) → lo ≤ g → g < mid → taken m g ≡ true)
    → IsFirst m mid hi r
    → IsFirst m lo hi r
IsFirst-skip m lo mid hi r le all (inl (e, h)) =
    inl (e, λ g p q. elim (dec_lt g mid) [ yes a ↦ all g p a | no a ↦ h g (omega arith) q ])
IsFirst-skip m lo mid hi r le all (inr (a, b, free, h)) = inr (
  omega arith,
  b,
  free,
  λ g p q. elim (dec_lt g mid) [ yes c ↦ all g p c | no c ↦ h g (omega arith) q ],
)

-- The bit of a frame in word `i`.
taken_in_word :
    (m : ℕ → ℕ) (i g : ℕ) → i * 32 ≤ g → g < i * 32 + 32 → taken m g ≡ (bit (m i) (g - i * 32) == 1)
taken_in_word m i g p q =
    ap (λ (k : ℕ). bit (m k) (g % 2 ^ 5) == 1) {x = g / 2 ^ 5} {y = i} (omega arith)
    ∙ ap (λ (k : ℕ). bit (m i) k == 1) {x = g % 2 ^ 5} {y = g - i * 32} (omega arith)

-- One round of the word loop, by what the bit loop returned.
round-IsFirst :
    (m : ℕ → ℕ) (i hi rest : ℕ) (o : Option ℕ)
    → i * 32 + 32 ≤ hi
    → hi ≤ 2 ^ 32
    → WordScan (m i) i 32 0 o
    → IsFirst m (i * 32 + 32) hi rest
    → IsFirst m (i * 32) hi (elim o [ none ↦ rest | some out ↦ out ])
round-IsFirst m i hi rest none le small scan after =
    IsFirst-skip m (i * 32) (i * 32 + 32) hi rest (omega arith)
      (λ g p q.
        ground (arith, taken_in_word m i g p q, scan (g - i * 32) (omega arith) (omega arith)))
      after
round-IsFirst m i hi rest (some out) le small (b, is, lo, up, free, before) after =
    let out_is : out ≡ i * 32 + b = omega arith in
    inr (
      omega arith,
      omega arith,
      ground (
        arith,
        taken_in_word m i out (omega arith) (omega arith),
        ap (bit (m i)) {x = out - i * 32} {y = b} (omega arith),
      ),
      λ g p q. ground (
        arith,
        taken_in_word m i g p (omega arith),
        before (g - i * 32) (omega arith) (omega arith),
      ),
    )

first_free_from-IsFirst :
    (m : ℕ → ℕ)
    → ((i : ℕ) → m i < 2 ^ 32)
    → (left i : ℕ) → (i + left) * 32 ≤ 2 ^ 32
    → IsFirst m (i * 32) ((i + left) * 32) (first_free_from m left i)
unfolding first_free_from
first_free_from-IsFirst m words zero i le = inl (refl, λ g p q. absurd (omega arith))
first_free_from-IsFirst m words (suc left) i le =
    let rest : IsFirst m (i * 32 + 32) ((i + suc left) * 32) (first_free_from m left (i + 1)) =
      subst₂ (λ (a b : ℕ). IsFirst m a b (first_free_from m left (i + 1))) (omega arith)
        (omega arith) (first_free_from-IsFirst m words left (i + 1) (omega arith)) in
    elim (Bool-cases (m i == all_ones)) [
      | inl full ↦ rw full (
          IsFirst-skip m (i * 32) (i * 32 + 32) ((i + suc left) * 32)
            (first_free_from m left (i + 1)) (omega arith)
            (λ g p q. ground (
              arith,
              taken_in_word m i g p q,
              bit-ones 32 (g - i * 32) (omega arith),
              ap (λ (w : ℕ). bit w (g - i * 32)) ((==_iff (m i) all_ones).0 full),
            ))
            rest)
      | inr part ↦ rw part (
          round-IsFirst m i ((i + suc left) * 32) (first_free_from m left (i + 1))
            (free_in_word (m i) i 32 0) (omega arith) le (free_in_word-WordScan (m i) i 32 0) rest)
    ]

-- The frames that `pmm_first_free_frame` looks at: from the word of `lowest_available` to the
-- last word that is whole below `max_frames`.
abbrev pub scan_start : Pmm → ℕ
scan_start p = frame_index p.lowest_available * 32

abbrev pub scan_end : Pmm → ℕ
scan_end p = frame_index p.max_frames * 32

first_free_frame-IsFirst :
    (p : Pmm)
    → IsWords p
    → p.max_frames < 2 ^ 32
    → IsFirst p.frames_bitmap (scan_start p) (scan_end p) (first_free_frame p)
unfolding first_free_frame first_free_from
first_free_frame-IsFirst p words small =
    elim (dec_lt (frame_index p.max_frames) (frame_index p.lowest_available)) [
      | yes empty ↦
          let none_left : frame_index p.max_frames - frame_index p.lowest_available ≡ 0 =
            omega arith in
          rw none_left (inl (refl, λ g a b. absurd (omega arith)))
      | no some_left ↦
          subst (λ (hi : ℕ). IsFirst p.frames_bitmap (scan_start p) hi (first_free_frame p))
            {x = (frame_index p.lowest_available
                + (frame_index p.max_frames - frame_index p.lowest_available))
              * 32}
            (omega arith)
            (first_free_from-IsFirst p.frames_bitmap words
              (frame_index p.max_frames - frame_index p.lowest_available)
              (frame_index p.lowest_available) (omega arith))
    ]

-- What a search for one free frame returns: 0 where every frame that it looks at is taken, and
-- else the first frame that is free.
pub record FirstFree (p : Pmm) (r : ℕ) : Type 0 where
  pub exhausted : r ≡ 0 → (g : ℕ) → scan_start p ≤ g → g < scan_end p → frame_test p g ≡ true
  pub in_range : r ≢ 0 → (scan_start p ≤ r) × (r < scan_end p)
  pub is_free : r ≢ 0 → frame_test p r ≡ false
  pub is_first : r ≢ 0 → (g : ℕ) → scan_start p ≤ g → g < r → frame_test p g ≡ true

FirstFree-of :
    (p : Pmm) (r : ℕ)
    → frame_test p 0 ≡ true
    → IsFirst p.frames_bitmap (scan_start p) (scan_end p) r
    → FirstFree p r
FirstFree-of p r reserved (inl (e, all)) = record {
  exhausted = λ _ g a b. frame_test-bit p g ∙ all g a b;
  in_range = λ ne. absurd (ne e);
  is_free = λ ne. absurd (ne e);
  is_first = λ ne. absurd (ne e);
}
FirstFree-of p r reserved (inr (lo, hi, free, before)) = record {
  exhausted = λ e. absurd (contradiction e);
  in_range = λ ne. (lo, hi);
  is_free = λ ne. frame_test-bit p r ∙ free;
  is_first = λ ne g a b. frame_test-bit p g ∙ before g a b;
}
  where
    contradiction : r ≡ 0 → ⊥
    contradiction e = cc (sym reserved ∙ ap (frame_test p) (sym e) ∙ frame_test-bit p r ∙ free)

-- With frame 0 reserved, `pmm_first_free_frame` returns the first free frame of the words that it
-- looks at, and 0 exactly where all their frames are taken.
pub first_free_frame-FirstFree :
    (p : Pmm)
    → IsWords p
    → p.max_frames < 2 ^ 32
    → frame_test p 0 ≡ true
    → FirstFree p (first_free_frame p)
first_free_frame-FirstFree p words small reserved =
    FirstFree-of p (first_free_frame p) reserved (first_free_frame-IsFirst p words small)
