-- ===== src/Kheap/BestFit.antt =====
-- The search for a block of src/kernel/memory/kheap.c: it ends, and it finds the smallest that fits.
use mathlib.Core.Path.{subst}
use mathlib.Core.Bool.{false≢true}
use hos.Base.{
  ℕ, zero, suc, ◌<◌, ◌≤◌, ◌≡◌, ◌≢◌, refl, sym, ap, ◌∙◌, Bool, true, false, ◌&&◌, ◌||◌, ◌⊎◌, ltb,
  ◌==◌, if◌then◌else◌, List, [], ◌∷◌, length, arith, Nat-cases, Bool-cases, inl, inr, is_in,
}
use hos.Kheap.{Heap, ok, block_is_fit, best_loop, find_best_fitting}
use hos.Kheap.FreeList.{FreeChain}

-- The loop on the list of free blocks.
pub pick : Heap → ℕ → ℕ → List ℕ → ℕ
pick h size best [] = best
pick h size best (x ∷ xs) =
    pick h size
      (if block_is_fit h x size && ((best == 0) || ltb (h.size x) (h.size best)) then x else best)
      xs

best_loop-pick :
    (fuel : ℕ) (h : Heap) (size best current : ℕ) (fs : List ℕ)
    → length fs < fuel
    → FreeChain h.nextfree current fs
    → best_loop fuel h size best current ≡ ok (pick h size best fs)
unfolding best_loop pick
best_loop-pick zero h size best current fs enough g = absurd (omega arith)
best_loop-pick (suc fuel) h size best current [] enough g =
    let e : (current == 0) ≡ true = ground arith in rw e refl
best_loop-pick (suc fuel) h size best current (x ∷ xs) enough (here, ne, g) =
    let e : (x == 0) ≡ false = ground arith in
    rw here (
      rw e (
        best_loop-pick fuel h size
          (if block_is_fit h x size && ((best == 0) || ltb (h.size x) (h.size best))
            then x
            else best)
          (h.nextfree x) xs (omega arith) g))

-- `r` is as good as `best` and every fitting block of `fs`, and comes from there.
record Picked (h : Heap) (size best : ℕ) (fs : List ℕ) (r : ℕ) : Type 0 where
  from : (r ≡ best) ⊎ ((is_in r fs ≡ true) × (block_is_fit h r size ≡ true))
  below_best : best ≢ 0 → (r ≢ 0) × (h.size r ≤ h.size best)
  below_all :
      (x : ℕ) → is_in x fs ≡ true → block_is_fit h x size ≡ true → (r ≢ 0) × (h.size r ≤ h.size x)

pick-Picked :
    (h : Heap) (size best a : ℕ) (fs : List ℕ)
    → FreeChain h.nextfree a fs
    → Picked h size best fs (pick h size best fs)
unfolding pick
pick-Picked h size best a [] g = record {
  from = inl refl;
  below_best = λ ne. (ne, omega arith);
  below_all = λ x member fit. absurd (false≢true member);
}
pick-Picked h size best a (x ∷ xs) (here, ne, g) =
    elim (Bool-cases (block_is_fit h x size && ((best == 0) || ltb (h.size x) (h.size best)))) [
      | inl better ↦
          let p = pick-Picked h size x (h.nextfree x) xs g in
          let low = p.below_best ne in
          let fits : block_is_fit h x size ≡ true = ground (arith, better) in
          rw better (record {
            from = elim p.from [
              | inl e ↦
                  inr (ground (arith, e), subst (λ n. block_is_fit h n size ≡ true) (sym e) fits)
              | inr (member, fit) ↦ inr (ground (arith, member), fit)
            ];
            below_best = λ ne'. (low.0, ground (arith, better));
            below_all = λ y member fit. elim (Nat-cases x y) [
              | inl same ↦ (low.0, omega (arith, ap h.size same, low.1))
              | inr other ↦ p.below_all y (ground (arith, member)) fit
            ];
          })
      | inr worse ↦
          let p = pick-Picked h size best (h.nextfree x) xs g in
          rw worse (record {
            from = elim p.from [
              | inl e ↦ inl e
              | inr (member, fit) ↦ inr (ground (arith, member), fit)
            ];
            below_best = p.below_best;
            below_all = λ y member fit. elim (Nat-cases x y) [
              | inl same ↦
                  let fits : block_is_fit h x size ≡ true =
                    ap (λ n. block_is_fit h n size) same ∙ fit in
                  let set : best ≢ 0 = ground (arith, worse, fits) in
                  let low = p.below_best set in
                  (low.0, ground (arith, worse, fits, low.1, ap h.size same))
              | inr other ↦ p.below_all y (ground (arith, member)) fit
            ];
          })
    ]

-- The outcome of the search: no free block fits, or the smallest that does.
pub data BestFit (h : Heap) (size : ℕ) (fs : List ℕ) (r : ℕ) : Type 0 where
  no_fit :
      r ≡ 0 → ((x : ℕ) → is_in x fs ≡ true → block_is_fit h x size ≡ false) → BestFit h size fs r
  smallest :
      r ≢ 0
      → is_in r fs ≡ true
      → block_is_fit h r size ≡ true
      → ((x : ℕ) → is_in x fs ≡ true → block_is_fit h x size ≡ true → h.size r ≤ h.size x)
      → BestFit h size fs r

unfit : (b : Bool) → (b ≢ true) → b ≡ false
unfit b ne = ground arith

BestFit-Picked :
    (h : Heap) (size : ℕ) (fs : List ℕ) (r : ℕ)
    → FreeChain h.nextfree h.freelist fs
    → Picked h size 0 fs r
    → BestFit h size fs r
BestFit-Picked h size fs r g p = elim (Nat-cases r 0) [
  | inl nil ↦
      no_fit nil
        (λ x member. unfit (block_is_fit h x size) (λ fit. (p.below_all x member fit).0 nil))
  | inr found ↦ elim p.from [
    | inl e ↦ absurd (found e)
    | inr (member, fit) ↦ smallest found member fit (λ x m f. (p.below_all x m f).1)
  ]
]

-- With fuel for the whole list the search ends, with the smallest free block that fits or NULL.
pub find_best_fitting-BestFit :
    (h : Heap) (size : ℕ) (fs : List ℕ)
    → length fs ≤ h.heap_top
    → FreeChain h.nextfree h.freelist fs
    → (r : ℕ) × (find_best_fitting size h ≡ ok r) × BestFit h size fs r
unfolding find_best_fitting
find_best_fitting-BestFit h size fs enough g = (
  pick h size 0 fs,
  best_loop-pick (suc h.heap_top) h size 0 h.freelist fs (omega arith) g,
  BestFit-Picked h size fs (pick h size 0 fs) g (pick-Picked h size 0 h.freelist fs g),
)
