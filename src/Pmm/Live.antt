-- ===== src/Pmm/Live.antt =====
-- Clients of pmm.c as sequences of calls: each allocates a frame or frees one that it holds.
use hos.Base.{
  ℕ, ◌/◌, ◌^◌, ◌<◌, ◌≤◌, ◌≡◌, ◌≢◌, refl, ap, ◌∙◌, inl, inr, Bool, true, false, ◌==◌, ◌||◌,
  if◌then◌else◌, arith, Bool-cases, List, [], ◌∷◌, ==_iff,
}
use hos.Pmm.{
  Pmm, frame_test, allocate_frame, ok, free_frame, frame_addr_of, frame_unset, frame_unseta,
}
use hos.Pmm.Alloc.{
  IsReady, Allocated, allocate_frame-Allocated, Allocated-IsReady, free_frame-IsReady,
  frame_test-free_frame,
}

-- The frames that the client holds, newest first.
abbrev pub Held : Type 0
Held = List ℕ

abbrev pub has : ℕ → Held → Bool
has f [] = false
has f (g ∷ held) = (f == g) || has f held

abbrev pub drop_frame : ℕ → Held → Held
drop_frame f [] = []
drop_frame f (g ∷ held) = if f == g then held else g ∷ drop_frame f held

-- The states that calls lead to from `p`, with the frames held.
pub data Reach (p : Pmm) : Pmm → Held → Type 0 where
  start : Reach p p []
  allocate :
      {q r : Pmm} {held : Held} {f : ℕ}
      → Reach p q held
      → allocate_frame q ≡ ok f r
      → Reach p r (f ∷ held)
  release :
      {q r : Pmm} {held left : Held} (f : ℕ)
      → Reach p q held
      → has f held ≡ true
      → r ≡ free_frame q (frame_addr_of f)
      → left ≡ drop_frame f held
      → Reach p r left

-- Every held frame is taken in the bitmap, lies below 2^20 and is held once.
abbrev pub Holds : Pmm → Held → Type 0
Holds p [] = Unit
Holds p (f ∷ held) =
    (frame_test p f ≡ true) × (f ≢ 0) × (f < 2 ^ 20) × (has f held ≡ false) × Holds p held

-- A change that leaves the taken frames taken keeps them held.
Holds-mono :
    (p q : Pmm) (held : Held)
    → ((f : ℕ) → has f held ≡ true → frame_test p f ≡ true → frame_test q f ≡ true)
    → Holds p held
    → Holds q held
Holds-mono p q [] keep h = tt
Holds-mono p q (f ∷ held) keep (taken, ne, small, once, rest) = (
  keep f (ground arith) taken,
  ne,
  small,
  once,
  Holds-mono p q held (λ g i t. keep g (ground (arith, i)) t) rest,
)

has-drop_frame_ne : (f g : ℕ) (held : Held) → has g held ≡ false → has g (drop_frame f held) ≡ false
has-drop_frame_ne f g [] h = refl
has-drop_frame_ne f g (k ∷ held) h = ground (arith, has-drop_frame_ne f g held)

Holds-drop_frame :
    (p : Pmm) (f : ℕ) (held : Held)
    → Holds p held
    → Holds p (drop_frame f held) × (has f (drop_frame f held) ≡ false)
Holds-drop_frame p f [] h = (tt, refl)
Holds-drop_frame p f (g ∷ held) (taken, ne, small, once, rest) = elim (Bool-cases (f == g)) [
  | inl same ↦ rw same (rest, ground (arith, ap (λ (k : ℕ). has k held) {x = f} {y = g}))
  | inr other ↦
      let (keeps, gone) = Holds-drop_frame p f held rest in
      rw other
        ((taken, ne, small, has-drop_frame_ne f g held once, keeps), ground (arith, gone, other))
]

Holds-has :
    (p : Pmm) (f : ℕ) (held : Held)
    → Holds p held
    → has f held ≡ true
    → (frame_test p f ≡ true) × (f ≢ 0) × (f < 2 ^ 20)
Holds-has p f [] h i = cc
Holds-has p f (g ∷ held) (taken, ne, small, once, rest) i = elim (Bool-cases (f == g)) [
  | inl same ↦
      let e : f ≡ g = (==_iff _ _).0 same in (ap (frame_test p) e ∙ taken, rw e ne, omega arith)
  | inr other ↦ Holds-has p f held rest (ground (arith, i, other))
]

not_held :
    (p : Pmm) (f : ℕ) (held : Held) → Holds p held → frame_test p f ≡ false → has f held ≡ false
not_held p f held holds free = elim (Bool-cases (has f held)) [
  | inl i ↦ cc (free, (Holds-has p f held holds i).0)
  | inr o ↦ o
]

max_frames-free_frame : (p : Pmm) (addr : ℕ) → (free_frame p addr).max_frames ≡ p.max_frames
unfolding free_frame frame_unseta frame_unset
max_frames-free_frame p addr = refl

Holds-free_frame :
    (p : Pmm) (f : ℕ) (held : Held)
    → f < 2 ^ 20
    → Holds p held
    → Holds (free_frame p (frame_addr_of f)) (drop_frame f held)
Holds-free_frame p f held small holds =
    let (keeps, gone) = Holds-drop_frame p f held holds in
    let back : frame_addr_of f / 2 ^ 12 ≡ f = omega arith in
    Holds-mono p (free_frame p (frame_addr_of f)) (drop_frame f held)
      (λ g i t. ground (
        arith,
        back,
        t,
        i,
        gone,
        frame_test-free_frame p (frame_addr_of f) g,
        ap (λ (k : ℕ). has k (drop_frame f held)) {x = f} {y = g},
      ))
      keeps

-- Whatever a client does, the frames that it holds are pairwise distinct and taken in the bitmap:
-- no frame is handed out twice.
pub Reach-Holds :
    {p q : Pmm} {held : Held}
    → Reach p q held
    → IsReady p
    → p.max_frames ≤ 2 ^ 20
    → IsReady q × (q.max_frames ≡ p.max_frames) × Holds q held
Reach-Holds start ready small = (ready, refl, tt)
Reach-Holds (allocate {q} {r} {held} {f} before e) ready small =
    let (ready_q, same, holds) = Reach-Holds before ready small in
    let is : Allocated q 1 f r = allocate_frame-Allocated q r f ready_q e in
    (
      Allocated-IsReady q r 1 f ready_q is,
      is.shape.0 ∙ same,
      (
        ground (arith, is.marked f),
        is.nonzero,
        omega (arith, is.within),
        not_held q f held holds (is.fresh f (omega arith) (omega arith)),
        Holds-mono q r held (λ g i t. ground (arith, is.marked g, t)) holds,
      ),
    )
Reach-Holds (release {q} {r} {held} {left} f before i e d) ready small =
    let (ready_q, same, holds) = Reach-Holds before ready small in
    let (taken, ne, low) = Holds-has q f held holds i in
    rw (e, d)
      (
        free_frame-IsReady q (frame_addr_of f) ready_q (λ z. ne (omega arith)),
        max_frames-free_frame q (frame_addr_of f) ∙ same,
        Holds-free_frame q f held low holds,
      )
