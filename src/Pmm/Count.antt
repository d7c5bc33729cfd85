-- ===== src/Pmm/Count.antt =====
-- The count of used frames of pmm.c against the bitmap.
use hos.Base.{
  ℕ, zero, suc, ◌+◌, ◌/◌, ◌^◌, ◌<◌, ◌≤◌, ◌≡◌, ◌≢◌, ap, sym, ◌∙◌, ◌↔◌, inl, inr, true, false, ◌==◌,
  ◌||◌, ltb, if◌then◌else◌, arith, Bool-cases, ==_iff,
}
use mathlib.Core.Path.{subst}
use hos.Pmm.{
  Pmm, frame_test, allocate_frame, ok, fatal, free_frame, frame_addr_of, first_free_frame,
  frame_unset, frame_unseta,
}
use hos.Pmm.Search.{FirstFree, first_free_frame-FirstFree, scan_start, scan_end}
use hos.Pmm.Alloc.{
  IsReady, Allocated, AllocSpec, allocate_frame-AllocSpec, allocate_frame-Allocated,
  frame_test-free_frame,
}

-- How many of the frames below `n` are taken.
unfoldable pub count_taken : Pmm → ℕ → ℕ
count_taken p zero = 0
count_taken p (suc n) = count_taken p n + (if frame_test p n then 1 else 0)

pub count_taken-le : (p : Pmm) (n : ℕ) → count_taken p n ≤ n
unfolding count_taken
count_taken-le p zero = omega arith
count_taken-le p (suc n) = ground (arith, count_taken-le p n)

-- Only a range with no free frame is counted in full.
taken_of_full : (p : Pmm) (n g : ℕ) → count_taken p n ≡ n → g < n → frame_test p g ≡ true
unfolding count_taken
taken_of_full p zero g e lt = absurd (omega arith)
taken_of_full p (suc n) g e lt =
    ground (arith, count_taken-le p n, taken_of_full p n g, ap (frame_test p) {x = g} {y = n})

-- The count after frame `f`, free before, is marked.
count_taken-mark :
    (p q : Pmm) (f n : ℕ)
    → ((g : ℕ) → frame_test q g ≡ ((f == g) || frame_test p g))
    → frame_test p f ≡ false
    → count_taken q n ≡ count_taken p n + (if ltb f n then 1 else 0)
unfolding count_taken
count_taken-mark p q f zero h free = ground arith
count_taken-mark p q f (suc n) h free =
    ground (arith, h n, free, count_taken-mark p q f n h free, ap (frame_test p) {x = f} {y = n})

-- `used_frames` is the number of taken frames in the words that the search looks at.
abbrev pub IsCounted : Pmm → Type 0
IsCounted p = p.used_frames ≡ count_taken p (scan_end p)

first_free_frame_of :
    (p q : Pmm) (f : ℕ) → allocate_frame p ≡ ok f q → (first_free_frame p ≡ f) × (f ≢ 0)
unfolding allocate_frame
first_free_frame_of p q f e = ground (arith, e)

-- Allocating a frame keeps the count exact.
pub allocate_frame-IsCounted :
    (p q : Pmm) (f : ℕ) → IsReady p → IsCounted p → allocate_frame p ≡ ok f q → IsCounted q
allocate_frame-IsCounted p q f ready counted e =
    let is : Allocated p 1 f q = allocate_frame-Allocated p q f ready e in
    let first : FirstFree p (first_free_frame p) =
      first_free_frame-FirstFree p ready.words (omega (arith, ready.small)) ready.reserved in
    let (same, ne) = first_free_frame_of p q f e in
    let up : f < scan_end p = omega (arith, same, first.in_range (λ z. ne (sym same ∙ z))) in
    let step : count_taken q (scan_end p) ≡ count_taken p (scan_end p) + 1 = ground (
      arith,
      up,
      count_taken-mark p q f (scan_end p) (λ g. ground (arith, is.marked g))
          (is.fresh f (omega arith) (omega arith)),
    ) in
    let range : scan_end q ≡ scan_end p = omega (arith, is.shape.0) in
    rw range (omega (arith, is.counted, counted, step, count_taken-le q (scan_end p), ready.small))

-- Freeing a frame that is taken, in the words that the search looks at, keeps the count exact.
pub free_frame-IsCounted :
    (p : Pmm) (f : ℕ)
    → IsReady p
    → IsCounted p
    → f < scan_end p
    → f < 2 ^ 20
    → frame_test p f ≡ true
    → IsCounted (free_frame p (frame_addr_of f))
unfolding free_frame frame_unseta frame_unset
free_frame-IsCounted p f ready counted up small taken =
    let r : Pmm = free_frame p (frame_addr_of f) in
    let back : frame_addr_of f / 2 ^ 12 ≡ f = omega arith in
    let step : count_taken p (scan_end p) ≡ count_taken r (scan_end p) + 1 = ground (
      arith,
      up,
      count_taken-mark r p f (scan_end p)
          (λ g. ground (
            arith,
            back,
            taken,
            frame_test-free_frame p (frame_addr_of f) g,
            ap (frame_test p) {x = f} {y = g},
          ))
          (ground (arith, back, frame_test-free_frame p (frame_addr_of f) f)),
    ) in
    omega (arith, counted, step, ready.counts)

none_free :
    (p : Pmm)
    → IsReady p
    → ((g : ℕ) → g < scan_end p → frame_test p g ≡ true)
    → first_free_frame p ≡ 0
none_free p ready all = elim (Bool-cases (first_free_frame p == 0)) [
  | inl e ↦ (==_iff _ _).0 e
  | inr ne ↦
      let is : FirstFree p (first_free_frame p) =
        first_free_frame-FirstFree p ready.words (omega (arith, ready.small)) ready.reserved in
      let nonzero : first_free_frame p ≢ 0 = λ z. cc (ne, (==_iff _ _).1 z) in
      cc (is.is_free nonzero, all (first_free_frame p) (is.in_range nonzero).1)
]

allocate_frame-stops : (p : Pmm) → first_free_frame p ≡ 0 → allocate_frame p ≡ fatal
unfolding allocate_frame
allocate_frame-stops p e = ground (arith, e)

-- With an exact count and frame 0 reserved, `pmm_allocate_frame` stops the machine exactly when
-- every frame below the last whole word is taken, whatever the frames behind it are.
pub allocate_frame-fatal :
    (p : Pmm)
    → IsReady p
    → IsCounted p
    → p.lowest_available ≡ 0
    → (allocate_frame p ≡ fatal) ↔ ((g : ℕ) → g < scan_end p → frame_test p g ≡ true)
allocate_frame-fatal p ready counted low = (all_taken, stops)
  where
    all_taken : allocate_frame p ≡ fatal → (g : ℕ) → g < scan_end p → frame_test p g ≡ true
    all_taken e g lt =
        elim (subst
          (AllocSpec p 1 ((g : ℕ) → scan_start p ≤ g → g < scan_end p → frame_test p g ≡ true)) e
          (allocate_frame-AllocSpec p ready)) [
            | inl full ↦
                taken_of_full p (scan_end p) g
                  (omega (arith, counted, full, count_taken-le p (scan_end p))) lt
            | inr all ↦ all g (omega (arith, low)) lt
          ]

    stops : ((g : ℕ) → g < scan_end p → frame_test p g ≡ true) → allocate_frame p ≡ fatal
    stops all = allocate_frame-stops p (none_free p ready all)
