-- ===== src/Kheap/FreeList.antt =====
-- The free list of src/kernel/memory/kheap.c: what removing a block and the search make of it.
use mathlib.Core.Path.{subst}
use mathlib.Core.Bool.{false≢true}
use hos.Base.{
  ℕ, zero, suc, ◌<◌, ◌≤◌, ◌≡◌, ◌≢◌, refl, sym, ap, ◌∙◌, store, true, false, ◌||◌, ◌==◌, List, [],
  ◌∷◌, length, arith, Nat-cases, inl, inr, is_in, remove, IsDistinct,
}
use hos.Kheap.{Heap, ok, find_prev_free, remove_from_freelist}

-- The links from `a` on lead through the blocks `fs` to NULL.
abbrev pub FreeChain : (ℕ → ℕ) → ℕ → List ℕ → Type 0
FreeChain f a [] = a ≡ 0
FreeChain f a (x ∷ xs) = (a ≡ x) × (x ≢ 0) × FreeChain f (f x) xs

pub FreeChain-store :
    (f : ℕ → ℕ) (a x v : ℕ) (fs : List ℕ)
    → is_in x fs ≡ false
    → FreeChain f a fs
    → FreeChain (store f x v) a fs
FreeChain-store f a x v [] out g = g
FreeChain-store f a x v (y ∷ ys) out (here, ne, g) =
    let apart : (x == y) ≡ false = ground (arith, out) in
    (here, ne, rw apart (FreeChain-store f (f y) x v ys (ground (arith, out)) g))

pub FreeChain-ne-zero :
    (f : ℕ → ℕ) (a x : ℕ) (fs : List ℕ) → FreeChain f a fs → is_in x fs ≡ true → x ≢ 0
FreeChain-ne-zero f a x [] g h = absurd (false≢true h)
FreeChain-ne-zero f a x (y ∷ ys) (here, ne, g) h = elim (Nat-cases y x) [
  | inl same ↦ λ e. ne (same ∙ e)
  | inr other ↦ FreeChain-ne-zero f (f y) x ys g (ground (arith, h))
]

-- The map of links with `block` taken out behind `p`.
abbrev bypassed : (ℕ → ℕ) → ℕ → ℕ → ℕ → ℕ
bypassed f block p = store (store f p (f block)) block 0

FreeChain-bypassed :
    (f : ℕ → ℕ) (a block p : ℕ) (fs : List ℕ)
    → is_in block fs ≡ false
    → is_in p fs ≡ false
    → FreeChain f a fs
    → FreeChain (bypassed f block p) a fs
FreeChain-bypassed f a block p fs out out' g =
    FreeChain-store (store f p (f block)) a block 0 fs out
      (FreeChain-store f a p (f block) fs out' g)

bypassed_cons :
    (f : ℕ → ℕ) (block p x y : ℕ) (zs : List ℕ)
    → x ≢ block
    → p ≢ x
    → f x ≡ y
    → FreeChain (bypassed f block p) y zs
    → FreeChain (bypassed f block p) (bypassed f block p x) zs
bypassed_cons f block p x y zs ne ne' link g =
    let w : bypassed f block p x ≡ y = ground (arith, link) in rw w g

not_member : (p x : ℕ) (xs : List ℕ) → is_in p xs ≡ true → is_in x xs ≡ false → p ≢ x
not_member p x xs h out e = false≢true (sym out ∙ ap (λ n. is_in n xs) (sym e) ∙ h)

-- The loop finds the entry in front of a block that is in the list, but not first.
find_prev_free-bypassed :
    (fuel : ℕ) (f : ℕ → ℕ) (block x : ℕ) (xs : List ℕ)
    → length xs < fuel
    → FreeChain f x (x ∷ xs)
    → IsDistinct (x ∷ xs)
    → x ≢ block
    → is_in block xs ≡ true
    → (p : ℕ) × (find_prev_free fuel f block x ≡ ok p)
      × (p ≢ 0)
      × (is_in p (x ∷ xs) ≡ true)
      × FreeChain (bypassed f block p) x (x ∷ remove block xs)
unfolding find_prev_free remove
find_prev_free-bypassed zero f block x xs enough g d ne h = absurd (omega arith)
find_prev_free-bypassed (suc fuel) f block x [] enough g d ne h = absurd (false≢true h)
find_prev_free-bypassed (suc fuel) f block x (y ∷ ys) enough (here, x_ne, (link, y_ne, g))
      (d, (dy, ds)) ne h =
    elim (Nat-cases y block) [
      | inl same ↦
          let stop : ((x == 0) || (f x == block)) ≡ true = ground arith in
          let e : (y == block) ≡ true = ground arith in
          let w : bypassed f block x x ≡ f y = ground (arith, ap f same) in
          (
            x,
            rw stop refl,
            x_ne,
            ground arith,
            rw e (
              refl,
              x_ne,
              rw w (
                  FreeChain-bypassed f (f y) block x ys (ap (λ n. is_in n ys) (sym same) ∙ dy)
                    (ground (arith, d)) g),
            ),
          )
      | inr other ↦
          let (p, runs, p_ne, member, chain) =
            find_prev_free-bypassed fuel f block y ys (omega arith) (refl, y_ne, g) (dy, ds) other
              (ground (arith, h, other)) in
          let go_on : ((x == 0) || (f x == block)) ≡ false = ground arith in
          (
            p,
            rw go_on (rw link runs),
            p_ne,
            ground (arith, member),
            let e : (y == block) ≡ false = ground arith in
                (
                  refl,
                  x_ne,
                  rw e (
                      bypassed_cons f block p x y (y ∷ remove block ys) ne
                        (not_member p x (y ∷ ys) member d) link chain),
                ),
          )
    ]

-- Taking a block out of the list changes the links and the list's start alone.
pub remove_from_freelist-chain :
    (h : Heap) (block : ℕ) (fs : List ℕ)
    → length fs ≤ h.heap_top
    → FreeChain h.nextfree h.freelist fs
    → IsDistinct fs
    → is_in block fs ≡ true
    → (f : ℕ → ℕ) × (a : ℕ) × (remove_from_freelist block h
        ≡ ok (record h { nextfree = f; freelist = a }))
      × FreeChain f a (remove block fs)
unfolding remove_from_freelist remove
remove_from_freelist-chain h block [] enough g d member = absurd (false≢true member)
remove_from_freelist-chain h block (x ∷ xs) enough (here, x_ne, g) (d, ds) member =
    elim (Nat-cases x block) [
      | inl same ↦
          let some_free : (h.freelist == 0) ≡ false = ground arith in
          let is_first : (block == h.freelist) ≡ true = ground arith in
          let e : (x == block) ≡ true = ground arith in
          (
            store h.nextfree block 0,
            h.nextfree block,
            rw (some_free, is_first) refl,
            rw e (
                FreeChain-store h.nextfree (h.nextfree block) block 0 xs
                  (ap (λ n. is_in n xs) (sym same) ∙ d)
                  (subst (λ n. FreeChain h.nextfree (h.nextfree n) xs) same g)),
          )
      | inr other ↦
          let some_free : (h.freelist == 0) ≡ false = ground arith in
          let not_first : (block == h.freelist) ≡ false = ground arith in
          let e : (x == block) ≡ false = ground arith in
          let (p, runs, p_ne, p_in, chain) =
            find_prev_free-bypassed (suc h.heap_top) h.nextfree block x xs (omega arith)
              (refl, x_ne, g) (d, ds) other (ground (arith, member, other)) in
          let nonzero : (p == 0) ≡ false = ground arith in
          (
            bypassed h.nextfree block p,
            h.freelist,
            rw (some_free, not_first) (rw here (rw runs (rw nonzero refl))),
            rw e (rw here chain),
          )
    ]

-- A block is put in front of the list.
pub FreeChain-push :
    (f : ℕ → ℕ) (a x : ℕ) (fs : List ℕ)
    → FreeChain f a fs
    → is_in x fs ≡ false
    → x ≢ 0
    → FreeChain (store f x a) x (x ∷ fs)
FreeChain-push f a x fs g out ne =
    let here : store f x a x ≡ a = ground arith in
    (refl, ne, rw here (FreeChain-store f a x a fs out g))
