-- ===== src/Pmm/Runs.antt =====
-- `pmm_first_nfree_frames` of pmm.c: the loop that looks for a run of free frames and passes over
-- full words, against the first run of `n` free frames below `max_frames`.
use hos.Base.{
  u32, all_ones, ℕ, zero, suc, ◌+◌, ◌-◌, ◌/◌, ◌%◌, ◌^◌, ◌<◌, ◌≤◌, ◌≡◌, ◌≢◌, refl, ap, sym, ◌∙◌, ◌⊎◌,
  inl, inr, true, false, ◌==◌, ltb, arith, Bool-cases, some, ==_iff, ltb→lt,
}
use hos.Base.Bits.{bit, bit-ones}
use hos.Pmm.{Pmm, frame_index, frame_test, nfree_loop, first_nfree_frames}
use native.Mathlib.Decide.{dec_lt}
use hos.Pmm.Bitmap.{frame_test-bit}

-- Some frame of `s .. s + n - 1` is taken.
abbrev pub IsBroken : Pmm → (n s : ℕ) → Type 0
IsBroken p n s = (g : ℕ) × (s ≤ g) × (g < s + n) × (frame_test p g ≡ true)

-- All of `s .. s + n - 1` are free.
abbrev pub IsFreeRun : Pmm → (n s : ℕ) → Type 0
IsFreeRun p n s = (g : ℕ) → s ≤ g → g < s + n → frame_test p g ≡ false

-- `r` is the start of the first run below `max_frames`, or 0 where there is none.
abbrev IsRun : Pmm → (n r : ℕ) → Type 0
IsRun p n r =
    ((r ≡ 0) × ((s : ℕ) → s + n ≤ p.max_frames → IsBroken p n s))
    ⊎ ((r + n ≤ p.max_frames) × IsFreeRun p n r × ((s : ℕ) → s < r → IsBroken p n s))

-- The loop's invariant at frame `i` with `avail` free frames just behind it.
record Scanned (p : Pmm) (n i avail : ℕ) : Type 0 where
  short : avail < n
  room : avail ≤ i
  run : (g : ℕ) → i ≤ g + avail → g < i → frame_test p g ≡ false
  broken : (s : ℕ) → s + avail < i → IsBroken p n s
  aligned : (i % 32 ≡ 0) ⊎ (p.frames_bitmap (frame_index i) ≢ all_ones)

module _ (p : Pmm) (n : ℕ) where
  -- A full word, met at its first frame, has no free frame.
  full_word :
      (i g : ℕ)
      → i % 32 ≡ 0
      → p.frames_bitmap (frame_index i) ≡ all_ones
      → i ≤ g
      → g < i + 32
      → frame_test p g ≡ true
  full_word i g al full lo hi = ground (
    arith,
    frame_test-bit p g,
    ap (λ (k : ℕ). bit (p.frames_bitmap k) (g % 2 ^ 5)) {x = g / 2 ^ 5} {y = i / 2 ^ 5}
        (omega arith),
    ap (λ (w : ℕ). bit w (g % 2 ^ 5)) full,
    bit-ones 32 (g % 2 ^ 5) (omega arith),
  )

  Scanned-full :
      (i avail : ℕ)
      → Scanned p n i avail
      → p.frames_bitmap (frame_index i) ≡ all_ones
      → Scanned p n (i + 32) 0
  Scanned-full i avail h full =
      let al : i % 32 ≡ 0 = first_word h.aligned in
      record {
        short = omega (arith, h.short);
        room = omega arith;
        run = λ g a b. absurd (omega arith);
        broken = λ s a. elim (dec_lt (s + avail) i) [
          | yes old ↦ h.broken s old
          | no fresh ↦ elim (dec_lt s i) [
            | yes back ↦ (
              i,
              omega arith,
              omega (arith, h.short),
              full_word i i al full (omega arith) (omega arith),
            )
            | no front ↦ (
              s,
              omega arith,
              omega (arith, h.short),
              full_word i s al full (omega arith) (omega arith),
            )
          ]
        ];
        aligned = inl (omega arith);
      }
    where
      first_word : (i % 32 ≡ 0) ⊎ (p.frames_bitmap (frame_index i) ≢ all_ones) → i % 32 ≡ 0
      first_word (inl al) = al
      first_word (inr ne) = absurd (ne full)

  aligned-next :
      (i : ℕ)
      → p.frames_bitmap (frame_index i) ≢ all_ones
      → ((i + 1) % 32 ≡ 0) ⊎ (p.frames_bitmap (frame_index (i + 1)) ≢ all_ones)
  aligned-next i part = elim (dec_lt ((i + 1) % 32) 1) [
    | yes z ↦ inl (omega arith)
    | no nz ↦ inr λ e.
        part (ap p.frames_bitmap {x = frame_index i} {y = frame_index (i + 1)} (omega arith) ∙ e)
  ]

  Scanned-used :
      (i avail : ℕ)
      → Scanned p n i avail
      → p.frames_bitmap (frame_index i) ≢ all_ones
      → frame_test p i ≡ true
      → Scanned p n (i + 1) 0
  Scanned-used i avail h part used = record {
    short = omega (arith, h.short);
    room = omega arith;
    run = λ g a b. absurd (omega arith);
    broken = λ s a. elim (dec_lt (s + avail) i) [
      | yes old ↦ h.broken s old
      | no fresh ↦ (i, omega arith, omega (arith, h.short), used)
    ];
    aligned = aligned-next i part;
  }

  run-next :
      (i avail : ℕ)
      → Scanned p n i avail
      → frame_test p i ≡ false
      → (g : ℕ) → i + 1 ≤ g + (avail + 1)
      → g < i + 1
      → frame_test p g ≡ false
  run-next i avail h free g a b = elim (dec_lt g i) [
    | yes old ↦ h.run g (omega arith) old
    | no fresh ↦ ap (frame_test p) {x = g} {y = i} (omega arith) ∙ free
  ]

  Scanned-free :
      (i avail : ℕ)
      → Scanned p n i avail
      → p.frames_bitmap (frame_index i) ≢ all_ones
      → frame_test p i ≡ false
      → avail + 1 ≢ n
      → Scanned p n (i + 1) (avail + 1)
  Scanned-free i avail h part free more = record {
    short = omega (arith, h.short);
    room = omega (arith, h.room);
    run = run-next i avail h free;
    broken = λ s a. h.broken s (omega arith);
    aligned = aligned-next i part;
  }

  IsRun-found :
      (i avail : ℕ)
      → Scanned p n i avail
      → frame_test p i ≡ false
      → avail + 1 ≡ n
      → i < p.max_frames
      → IsRun p n (i + 1 - n)
  IsRun-found i avail h free e lt = inr (
    omega (arith, h.room),
    λ g a b. run-next i avail h free g (omega (arith, h.room)) (omega (arith, h.room)),
    λ s a. h.broken s (omega (arith, h.room)),
  )

  IsRun-end : (i avail : ℕ) → Scanned p n i avail → p.max_frames ≤ i → IsRun p n 0
  IsRun-end i avail h le = inl (refl, λ s fits. h.broken s (omega (arith, h.short)))

  -- With enough fuel the loop returns, and what it returns is the first run or 0.
  nfree_loop-IsRun :
      (fuel i avail : ℕ)
      → p.max_frames + 32 ≤ 2 ^ 32
      → p.max_frames < i + fuel
      → 0 < fuel
      → Scanned p n i avail
      → (r : ℕ) × (nfree_loop p n fuel i avail ≡ some r) × IsRun p n r
  unfolding nfree_loop
  nfree_loop-IsRun zero i avail small enough pos h = absurd (omega arith)
  nfree_loop-IsRun (suc fuel) i avail small enough pos h = elim (Bool-cases (ltb i p.max_frames)) [
    | inr done ↦ rw done (0, refl, IsRun-end i avail h (ground arith))
    | inl more ↦
        let lt : i < p.max_frames = ltb→lt i p.max_frames more in
        let next : u32 (i + 1) ≡ i + 1 = omega arith in
        let skip : u32 (i + 32) ≡ i + 32 = omega arith in
        elim (Bool-cases (p.frames_bitmap (frame_index i) == all_ones)) [
          | inl full ↦
              rw (more, full, skip)
                (nfree_loop-IsRun fuel (i + 32) 0 small (omega arith) (omega arith)
                  (Scanned-full i avail h ((==_iff _ _).0 full)))
          | inr part ↦
              let ne : p.frames_bitmap (frame_index i) ≢ all_ones =
                λ e. cc (part, (==_iff _ _).1 e) in
              elim (Bool-cases (frame_test p i)) [
                | inl used ↦
                    rw (more, part, used, next)
                      (nfree_loop-IsRun fuel (i + 1) 0 small (omega arith) (omega arith)
                        (Scanned-used i avail h ne used))
                | inr free ↦ elim (Bool-cases (avail + 1 == n)) [
                  | inl hit ↦
                      let e : avail + 1 ≡ n = (==_iff _ _).0 hit in
                      let start : (i + 1 + 2 ^ 32 - n) % 2 ^ 32 ≡ i + 1 - n =
                        omega (arith, h.room) in
                      rw (more, part, free, hit, next, start)
                        (i + 1 - n, refl, IsRun-found i avail h free e lt)
                  | inr short ↦
                      rw (more, part, free, short, next)
                        (nfree_loop-IsRun fuel (i + 1) (avail + 1) small (omega arith) (omega arith)
                          (Scanned-free i avail h ne free λ e. cc (short, (==_iff _ _).1 e)))
                ]
              ]
        ]
  ]

-- What a search for `n` frames returns: 0 where every run of `n` frames below `max_frames` has a
-- frame that is taken, and else the start of the first run that is free.
pub record FirstRun (p : Pmm) (n r : ℕ) : Type 0 where
  pub exhausted : r ≡ 0 → (s : ℕ) → s + n ≤ p.max_frames → IsBroken p n s
  pub in_range : r ≢ 0 → r + n ≤ p.max_frames
  pub is_free : r ≢ 0 → IsFreeRun p n r
  pub is_first : r ≢ 0 → (s : ℕ) → s < r → IsBroken p n s

FirstRun-of : (p : Pmm) (n r : ℕ) → 0 < n → frame_test p 0 ≡ true → IsRun p n r → FirstRun p n r
FirstRun-of p n r pos reserved (inl (e, all)) = record {
  exhausted = λ _. all;
  in_range = λ ne. absurd (ne e);
  is_free = λ ne. absurd (ne e);
  is_first = λ ne. absurd (ne e);
}
FirstRun-of p n r pos reserved (inr (fits, free, first)) = record {
  exhausted = λ e. absurd (contradiction e);
  in_range = λ _. fits;
  is_free = λ _. free;
  is_first = λ _. first;
}
  where
    contradiction : r ≡ 0 → ⊥
    contradiction e = cc (sym reserved ∙ free 0 (omega arith) (omega arith))

-- For `2 ≤ n` and frame 0 reserved, `pmm_first_nfree_frames` returns within its fuel, with the
-- start of the first run of `n` free frames below `max_frames`, or 0 exactly where there is none.
pub first_nfree_frames-FirstRun :
    (p : Pmm) (n : ℕ)
    → 2 ≤ n
    → p.max_frames + 32 ≤ 2 ^ 32
    → frame_test p 0 ≡ true
    → (r : ℕ) × (first_nfree_frames p n ≡ some r) × FirstRun p n r
unfolding first_nfree_frames
first_nfree_frames-FirstRun p n two small reserved =
    let (r, returns, is) =
      nfree_loop-IsRun p n (p.max_frames + 1) 0 0 small (omega arith) (omega arith) start in
    (r, ground (arith, returns), FirstRun-of p n r (omega arith) reserved is)
  where
    start : Scanned p n 0 0
    start = record {
      short = omega arith;
      room = omega arith;
      run = λ g a b. absurd (omega arith);
      broken = λ s a. absurd (omega arith);
      aligned = inl refl;
    }
