-- ===== src/Pmm/Alloc.antt =====
-- `pmm_allocate_frame`, `pmm_allocate_frames` and `pmm_free_frame` of pmm.c: what each does to every
-- frame, on every outcome.
use mathlib.Core.Path.{subst}
use hos.Base.{
  u32, ℕ, zero, suc, ◌+◌, ◌-◌, ◌/◌, ◌%◌, ◌^◌, ◌<◌, ◌≤◌, ◌≡◌, ◌≢◌, refl, ap, ◌∙◌, ◌⊎◌, inl, inr,
  true, false, ◌==◌, ◌||◌, ◌&&◌, leb, ltb, if◌then◌else◌, arith, Bool-cases, some, ==_iff, leb→le,
}
use hos.Pmm.{
  Pmm, frame_test, frame_unset, frame_unseta, mark_frame_used, mark_frames_used, first_free_frame,
  Outcome, ok, fatal, out_of_fuel, allocate_frame, allocate_frames, take_frames, free_frame,
  frame_set, frame_seta, frame_addr_of,
}
use hos.Pmm.Bitmap.{
  frame_test-frame_set, frame_test-frame_unset, IsWords, frame_set-IsWords, frame_unset-IsWords,
}
use hos.Pmm.Search.{FirstFree, first_free_frame-FirstFree, scan_start, scan_end}
use hos.Pmm.Runs.{IsBroken, FirstRun, first_nfree_frames-FirstRun}

pub frame_test-mark_frame_used :
    (p : Pmm) (f g : ℕ) → frame_test (mark_frame_used p f) g ≡ ((f == g) || frame_test p g)
unfolding frame_test mark_frame_used
frame_test-mark_frame_used p f g = frame_test-frame_set p f g

-- Marking `n` frames from `start` on marks those and no others.
pub frame_test-mark_frames_used :
    (p : Pmm) (start n g : ℕ)
    → start + n < 2 ^ 32
    → frame_test (mark_frames_used p start n) g
      ≡ ((leb start g && ltb g (start + n)) || frame_test p g)
unfolding mark_frames_used
frame_test-mark_frames_used p start zero g small = ground arith
frame_test-mark_frames_used p start (suc n) g small =
    let next : u32 (start + 1) ≡ start + 1 = omega arith in
    rw next (
      ground (
        arith,
        frame_test-mark_frames_used (mark_frame_used p start) (start + 1) n g (omega arith),
        frame_test-mark_frame_used p start g,
      ))

pub used_frames-mark_frames_used :
    (p : Pmm) (start n : ℕ)
    → p.used_frames < 2 ^ 32
    → (mark_frames_used p start n).used_frames ≡ u32 (p.used_frames + n)
unfolding mark_frames_used mark_frame_used
used_frames-mark_frames_used p start zero h = omega arith
used_frames-mark_frames_used p start (suc n) h = omega (
  arith,
  used_frames-mark_frames_used (mark_frame_used p start) (u32 (start + 1)) n (omega arith),
)

-- The fields that marking leaves alone.
abbrev pub SameShape : Pmm → Pmm → Type 0
SameShape p q =
    (q.max_frames ≡ p.max_frames)
    × (q.lowest_available ≡ p.lowest_available)
    × (q.frames_bitmap_size ≡ p.frames_bitmap_size)
    × (q.memsize ≡ p.memsize)

SameShape-mark_frames_used : (p : Pmm) (start n : ℕ) → SameShape p (mark_frames_used p start n)
unfolding mark_frames_used mark_frame_used
SameShape-mark_frames_used p start zero = (refl, refl, refl, refl)
SameShape-mark_frames_used p start (suc n) =
    SameShape-mark_frames_used (mark_frame_used p start) (u32 (start + 1)) n

mark_frames_used-IsWords :
    (p : Pmm) (start n : ℕ) → IsWords p → IsWords (mark_frames_used p start n)
unfolding mark_frames_used mark_frame_used
mark_frames_used-IsWords p start zero words = words
mark_frames_used-IsWords p start (suc n) words =
    mark_frames_used-IsWords (mark_frame_used p start) (u32 (start + 1)) n
      (frame_set-IsWords p start words)

-- `n` frames from `frame` on were free in `p` and are handed out in `q`, which differs in nothing else.
pub record Allocated (p : Pmm) (n frame : ℕ) (q : Pmm) : Type 0 where
  pub nonzero : frame ≢ 0
  pub within : frame + n ≤ p.max_frames
  pub fresh : (g : ℕ) → frame ≤ g → g < frame + n → frame_test p g ≡ false
  pub marked : (g : ℕ) → frame_test q g ≡ ((leb frame g && ltb g (frame + n)) || frame_test p g)
  pub counted : q.used_frames ≡ u32 (p.used_frames + n)
  pub shape : SameShape p q
  pub words : IsWords q

-- The outcome of an allocation of `n` frames: frames that were free, or the machine stops, and
-- then the count says that memory is full or there is no such run (`Exhausted`).
abbrev pub AllocSpec : Pmm → ℕ → Type 0 → Outcome → Type 0
AllocSpec p n Exhausted (ok frame q) = Allocated p n frame q
AllocSpec p n Exhausted fatal = (p.max_frames ≤ p.used_frames) ⊎ Exhausted
AllocSpec p n Exhausted out_of_fuel = ⊥

-- What every state of the running allocator has: 32-bit words, frame 0 reserved, and no field near
-- the wrap-around.
pub record IsReady (p : Pmm) : Type 0 where
  pub words : IsWords p
  pub reserved : frame_test p 0 ≡ true
  pub small : p.max_frames + 32 ≤ 2 ^ 32
  pub counts : p.used_frames < 2 ^ 32

mark_frame_used-Allocated :
    (p : Pmm) (frame : ℕ)
    → IsReady p
    → frame ≢ 0
    → FirstFree p frame
    → Allocated p 1 frame (mark_frame_used p frame)
unfolding mark_frame_used
mark_frame_used-Allocated p frame ready ne is = record {
  nonzero = ne;
  within = omega (arith, is.in_range ne);
  fresh = λ g a b. ap (frame_test p) {x = g} {y = frame} (omega arith) ∙ is.is_free ne;
  marked = λ g. ground (arith, frame_test-mark_frame_used p frame g);
  counted = refl;
  shape = (refl, refl, refl, refl);
  words = frame_set-IsWords p frame ready.words;
}

-- `pmm_allocate_frame` hands out a frame that was free, marks it and nothing else, and stops the
-- machine only if the count of used frames has reached `max_frames` or all frames that it looks at
-- are taken.
pub allocate_frame-AllocSpec :
    (p : Pmm)
    → IsReady p
    → AllocSpec p 1
        ((g : ℕ) → scan_start p ≤ g → g < scan_end p → frame_test p g ≡ true)
        (allocate_frame p)
unfolding allocate_frame
allocate_frame-AllocSpec p ready =
    let is : FirstFree p (first_free_frame p) =
      first_free_frame-FirstFree p ready.words (omega (arith, ready.small)) ready.reserved in
    elim (Bool-cases (leb p.max_frames p.used_frames)) [
      | inl full ↦ rw full (inl (leb→le _ _ full))
      | inr room ↦ elim (Bool-cases (first_free_frame p == 0)) [
        | inl none_free ↦ rw (room, none_free) (inr (is.exhausted ((==_iff _ _).0 none_free)))
        | inr found ↦
            rw (room, found)
              (mark_frame_used-Allocated p (first_free_frame p) ready
                (λ e. cc (found, (==_iff _ _).1 e)) is)
      ]
    ]

-- What an allocation that returns has done.
pub allocate_frame-Allocated :
    (p q : Pmm) (frame : ℕ) → IsReady p → allocate_frame p ≡ ok frame q → Allocated p 1 frame q
allocate_frame-Allocated p q frame ready e =
    subst (AllocSpec p 1 ((g : ℕ) → scan_start p ≤ g → g < scan_end p → frame_test p g ≡ true)) e
      (allocate_frame-AllocSpec p ready)

take_frames-AllocSpec :
    (p : Pmm) (n r : ℕ)
    → IsReady p
    → FirstRun p n r
    → AllocSpec p n ((s : ℕ) → s + n ≤ p.max_frames → IsBroken p n s) (take_frames p n (some r))
take_frames-AllocSpec p n r ready is = elim (Bool-cases (r == 0)) [
  | inl zero_r ↦ rw zero_r (inr (is.exhausted ((==_iff _ _).0 zero_r)))
  | inr found ↦
      let ne : r ≢ 0 = λ e. cc (found, (==_iff _ _).1 e) in
      rw found (record {
        nonzero = ne;
        within = is.in_range ne;
        fresh = is.is_free ne;
        marked =
            λ g. frame_test-mark_frames_used p r n g (omega (arith, is.in_range ne, ready.small));
        counted = used_frames-mark_frames_used p r n ready.counts;
        shape = SameShape-mark_frames_used p r n;
        words = mark_frames_used-IsWords p r n ready.words;
      })
]

-- For `2 ≤ n`, `pmm_allocate_frames` returns: it hands out `n` consecutive frames that were all
-- free and below `max_frames`, marks those and nothing else, and stops the machine only if the
-- count has reached `max_frames` or every such run has a taken frame.
pub allocate_frames-AllocSpec :
    (p : Pmm) (n : ℕ)
    → 2 ≤ n
    → IsReady p
    → AllocSpec p n ((s : ℕ) → s + n ≤ p.max_frames → IsBroken p n s) (allocate_frames p n)
unfolding allocate_frames
allocate_frames-AllocSpec p n two ready =
    let (r, returns, is) = first_nfree_frames-FirstRun p n two ready.small ready.reserved in
    let some_n : (n == 0) ≡ false = ground arith in
    elim (Bool-cases (leb p.max_frames p.used_frames)) [
      | inl full ↦ rw (some_n, full) (inl (leb→le _ _ full))
      | inr room ↦ rw (some_n, room, returns) (take_frames-AllocSpec p n r ready is)
    ]

-- `pmm_free_frame` frees the frame of the address and no other.
pub frame_test-free_frame :
    (p : Pmm) (addr g : ℕ)
    → frame_test (free_frame p addr) g ≡ (if addr / 2 ^ 12 == g then false else frame_test p g)
unfolding free_frame frame_unseta frame_test frame_unset
frame_test-free_frame p addr g = frame_test-frame_unset p (addr / 2 ^ 12) g

-- Both operations keep the state ready, as long as frame 0 is not freed.
pub Allocated-IsReady : (p q : Pmm) (n frame : ℕ) → IsReady p → Allocated p n frame q → IsReady q
Allocated-IsReady p q n frame ready is = record {
  words = is.words;
  reserved = ground (arith, is.marked 0, ready.reserved);
  small = omega (arith, is.shape.0, ready.small);
  counts = omega (arith, is.counted);
}

pub free_frame-IsReady :
    (p : Pmm) (addr : ℕ) → IsReady p → addr / 2 ^ 12 ≢ 0 → IsReady (free_frame p addr)
unfolding free_frame frame_unseta
free_frame-IsReady p addr ready ne = record {
  words =
      frame_unset-IsWords (record p { used_frames = (p.used_frames + 2 ^ 32 - 1) % 2 ^ 32 })
        (addr / 2 ^ 12) ready.words;
  reserved = ground (arith, frame_test-free_frame p addr 0, ready.reserved);
  small = unfold frame_unset in ready.small;
  counts = unfold frame_unset in omega arith;
}

-- Freeing the frames that an allocation of one frame handed out gives back the state before it:
-- the same frames are taken and the same number is counted.
pub free_frame-allocate_frame :
    (p q : Pmm) (frame : ℕ)
    → IsReady p
    → p.max_frames ≤ 2 ^ 20
    → allocate_frame p ≡ ok frame q
    → ((g : ℕ) → frame_test (free_frame q (frame_addr_of frame)) g ≡ frame_test p g)
      × ((free_frame q (frame_addr_of frame)).used_frames ≡ p.used_frames)
unfolding free_frame frame_unseta frame_unset
free_frame-allocate_frame p q frame ready small e =
    let is : Allocated p 1 frame q = allocate_frame-Allocated p q frame ready e in
    let back : frame_addr_of frame / 2 ^ 12 ≡ frame = omega (arith, is.within) in
    (
      λ g. ground (
        arith,
        frame_test-free_frame q (frame_addr_of frame) g,
        is.marked g,
        back,
        is.fresh frame (omega arith) (omega arith),
        ap (frame_test p) {x = frame} {y = g},
      ),
      omega (arith, is.counted, ready.counts),
    )

-- `pmm_frame_seta` marks the frame of the address and no other.
pub frame_test-frame_seta :
    (p : Pmm) (addr g : ℕ)
    → frame_test (frame_seta p addr) g ≡ ((addr / 2 ^ 12 == g) || frame_test p g)
unfolding frame_seta
frame_test-frame_seta p addr g = frame_test-frame_set p (addr / 2 ^ 12) g

pub frame_seta-IsReady :
    (p : Pmm) (addr : ℕ)
    → IsReady p
    → IsReady (frame_seta p addr) × ((frame_seta p addr).max_frames ≡ p.max_frames)
unfolding frame_seta frame_set
frame_seta-IsReady p addr ready = (
  record {
    words = frame_set-IsWords p (addr / 2 ^ 12) ready.words;
    reserved = ground (arith, frame_test-frame_set p (addr / 2 ^ 12) 0, ready.reserved);
    small = ready.small;
    counts = ready.counts;
  },
  refl,
)

pub max_frames-free_frame : (p : Pmm) (addr : ℕ) → (free_frame p addr).max_frames ≡ p.max_frames
unfolding free_frame frame_unseta frame_unset
max_frames-free_frame p addr = refl
