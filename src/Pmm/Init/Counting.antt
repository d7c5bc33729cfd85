-- ===== src/Pmm/Init/Counting.antt =====
-- The loops that end `pmm_init`: they count the taken frames.
use hos.Base.{
  u32, ◌<◌, ℕ, zero, suc, ◌+◌, ◌*◌, ◌/◌, ◌%◌, ◌^◌, ◌≤◌, ◌≡◌, refl, ap, ◌∙◌, not, ◌==◌,
  if◌then◌else◌, arith, bit_and,
}
use hos.Pmm.Search.{scan_end}
use hos.Pmm.Count.{count_taken-le}
use hos.Pmm.{frame_index, Pmm, frame_test}
use hos.Pmm.Count.{count_taken}
use hos.Pmm.Init.{count_used, count_word, count_words}

-- The count of the bits of word `i` from bit `j` on.
count_word-count_taken :
    (p : Pmm) (i left j : ℕ)
    → j + left ≤ 32
    → count_word (p.frames_bitmap i) left j (u32 (count_taken p (i * 32 + j)))
      ≡ u32 (count_taken p (i * 32 + j + left))
unfolding count_word
count_word-count_taken p i zero j le =
    ap (λ (n : ℕ). u32 (count_taken p n)) {x = i * 32 + j} {y = i * 32 + j + 0} (omega arith)
count_word-count_taken p i (suc left) j le =
    ap (count_word (p.frames_bitmap i) left (j + 1)) round
    ∙ count_word-count_taken p i left (j + 1) (omega arith)
    ∙ ap (λ (n : ℕ). u32 (count_taken p n)) {x = i * 32 + (j + 1) + left} (omega arith)
  where
    same : frame_test p (i * 32 + j) ≡ not (bit_and (p.frames_bitmap i) (2 ^ j) == 0)
    same =
        unfold frame_test in
        ap (λ (k : ℕ). not (bit_and (p.frames_bitmap k) (2 ^ ((i * 32 + j) % 2 ^ 5)) == 0))
          {x = (i * 32 + j) / 2 ^ 5} {y = i} (omega arith)
        ∙ ap (λ (k : ℕ). not (bit_and (p.frames_bitmap i) (2 ^ k) == 0)) {x = (i * 32 + j) % 2 ^ 5}
            {y = j} (omega arith)

    step :
        count_taken p (suc (i * 32 + j))
        ≡ count_taken p (i * 32 + j) + (if frame_test p (i * 32 + j) then 1 else 0)
    step = unfold count_taken in refl

    next : count_taken p (suc (i * 32 + j)) ≡ count_taken p (i * 32 + (j + 1))
    next = ap (count_taken p) (omega arith)

    round :
        (if not (bit_and (p.frames_bitmap i) (2 ^ j) == 0)
          then u32 (u32 (count_taken p (i * 32 + j)) + 1)
          else u32 (count_taken p (i * 32 + j)))
        ≡ u32 (count_taken p (i * 32 + (j + 1)))
    round = rw (← same) (ground (arith, step, next))

pub count_words-count_taken :
    (p : Pmm) (left i : ℕ)
    → count_words p.frames_bitmap left i (u32 (count_taken p (i * 32)))
      ≡ u32 (count_taken p ((i + left) * 32))
unfolding count_words
count_words-count_taken p zero i =
    ap (λ (n : ℕ). u32 (count_taken p n)) {x = i * 32} {y = (i + 0) * 32} (omega arith)
count_words-count_taken p (suc left) i =
    ap (count_words p.frames_bitmap left (i + 1)) word
    ∙ count_words-count_taken p left (i + 1)
    ∙ ap (λ (n : ℕ). u32 (count_taken p n)) {x = (i + 1 + left) * 32} (omega arith)
  where
    word :
        count_word (p.frames_bitmap i) 32 0 (u32 (count_taken p (i * 32)))
        ≡ u32 (count_taken p ((i + 1) * 32))
    word =
        ap (λ (n : ℕ). count_word (p.frames_bitmap i) 32 0 (u32 (count_taken p n))) {x = i * 32}
          {y = i * 32 + 0} (omega arith)
        ∙ count_word-count_taken p i 32 0 (omega arith)
        ∙ ap (λ (n : ℕ). u32 (count_taken p n)) {x = i * 32 + 0 + 32} (omega arith)

pub frame_test-count_used : (p : Pmm) (g : ℕ) → frame_test (count_used p) g ≡ frame_test p g
unfolding count_used frame_test
frame_test-count_used p g = refl

-- `count_used` leaves the bitmap alone, so it leaves every count of taken frames alone.
pub count_taken-count_used : (p : Pmm) (n : ℕ) → count_taken (count_used p) n ≡ count_taken p n
unfolding count_taken
count_taken-count_used p zero = refl
count_taken-count_used p (suc n) = rw (count_taken-count_used p n, frame_test-count_used p n)

-- From 0 the loops leave the number of taken frames below the last whole word.
pub count_words-exact :
    (r : Pmm)
    → r.used_frames ≡ 0
    → r.max_frames < 2 ^ 32
    → count_words r.frames_bitmap (frame_index r.max_frames) 0 r.used_frames
      ≡ count_taken r (scan_end r)
unfolding count_taken
count_words-exact r started small =
    ap (count_words r.frames_bitmap (frame_index r.max_frames) 0) started
    ∙ count_words-count_taken r (frame_index r.max_frames) 0
    ∙ ap (λ (n : ℕ). u32 (count_taken r n)) {x = (0 + frame_index r.max_frames) * 32}
        {y = scan_end r} (omega arith)
    ∙ omega (arith, count_taken-le r (scan_end r))
