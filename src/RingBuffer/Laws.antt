-- ===== src/RingBuffer/Laws.antt =====
-- The ring buffer of src/include/kernel/ring_buffer.h as a queue that drops its oldest entry when full.
use hos.Base.{
  store, ℕ, suc, ◌+◌, ◌-◌, ◌<◌, ◌≡◌, refl, ap, ◌∙◌, ◌⊎◌, inl, inr, Nat-cases, true, false, leb,
  ◌==◌, if◌then◌else◌, arith, List, [], ◌∷◌, ◌++◌,
}
use hos.RingBuffer.{Ring, step, push_front, empty, pop_back, last, pop_front}
use hos.RingBuffer.Items.{at, items, items-snoc, items-store}

module _ {A : Type 0} where
  -- The indices are in range.
  abbrev pub IsRing : Ring A → Type 0
  IsRing rb = (rb.read < rb.size) × (rb.write < rb.size)

  abbrev pub count : Ring A → ℕ
  count rb = if leb rb.read rb.write then rb.write - rb.read else rb.size + rb.write - rb.read

  abbrev pub contents : Ring A → List A
  contents rb = items rb.buffer rb.size rb.read (count rb)

  abbrev pub drop_first : List A → List A
  drop_first [] = []
  drop_first (x ∷ xs) = xs

  at-count : (rb : Ring A) → IsRing rb → at rb.size rb.read (count rb) ≡ rb.write
  at-count rb (r, w) = ground arith

  -- The entries up to the new one, after the write.
  written :
      (rb : Ring A) (item : A)
      → IsRing rb
      → items (store rb.buffer rb.write item) rb.size rb.read (suc (count rb))
        ≡ contents rb ++ (item ∷ [])
  written rb item (r, w) =
      let own : (rb.write == rb.write) ≡ true = ground arith in
      let here = at-count rb (r, w) in
      let kept =
        items-store rb.buffer rb.size rb.read (count rb) rb.write item r (ground arith)
          (λ i p e. ground arith) in
      items-snoc (store rb.buffer rb.write item) rb.size rb.read (count rb) r (ground arith)
      ∙ rw (here, kept, own) refl

  -- With the indices in range `push_front` keeps them so and puts the item behind the contents, which
  -- are the entries in the order they came in; where these were one less than the size, the oldest goes.
  pub push_front-contents :
      (rb : Ring A) (item : A)
      → IsRing rb
      → IsRing (push_front rb item)
        × (contents (push_front rb item) ≡ (
            if count rb + 1 == rb.size
            then drop_first (contents rb ++ (item ∷ []))
            else contents rb ++ (item ∷ [])))
  unfolding push_front
  push_front-contents rb item (r, w) = (
    (ground arith, ground arith),
    elim (Nat-cases (count rb + 1) rb.size) [
      | inl full ↦
          let f : (count rb + 1 == rb.size) ≡ true = ground arith in
          let f' : (step rb.size rb.write == rb.read) ≡ true = ground arith in
          let n : (if leb (step rb.size rb.read) (step rb.size rb.write)
                then step rb.size rb.write - step rb.size rb.read
                else rb.size + step rb.size rb.write - step rb.size rb.read)
              ≡ count rb =
            ground arith in
          rw (f, f')
            (ap (items (store rb.buffer rb.write item) rb.size (step rb.size rb.read)) n
              ∙ ap drop_first (written rb item (r, w)))
      | inr room ↦
          let f : (count rb + 1 == rb.size) ≡ false = ground arith in
          let f' : (step rb.size rb.write == rb.read) ≡ false = ground arith in
          let n : (if leb rb.read (step rb.size rb.write)
                then step rb.size rb.write - rb.read
                else rb.size + step rb.size rb.write - rb.read)
              ≡ suc (count rb) =
            ground arith in
          rw (f, f')
            (ap (items (store rb.buffer rb.write item) rb.size rb.read) n ∙ written rb item (r, w))
    ],
  )

  -- With the indices in range `pop_back` keeps them so, and takes the oldest entry off the contents, or
  -- gives `init` where there is none and changes nothing.
  pub pop_back-contents :
      (rb : Ring A) (init : A)
      → IsRing rb
      → IsRing (pop_back rb init).1
        × (((contents rb ≡ []) × (pop_back rb init ≡ (init, rb)))
            ⊎ (contents rb ≡ (pop_back rb init).0 ∷ contents (pop_back rb init).1))
  unfolding pop_back empty
  pop_back-contents rb init (r, w) = elim (Nat-cases rb.write rb.read) [
    | inl none_left ↦
        let e : (rb.write == rb.read) ≡ true = ground arith in
        let n : count rb ≡ 0 = ground arith in
        rw e ((r, w), inl (ap (items rb.buffer rb.size rb.read) n, refl))
    | inr some_left ↦
        let e : (rb.write == rb.read) ≡ false = ground arith in
        let n : count rb
            ≡ suc (
                if leb (step rb.size rb.read) rb.write
                then rb.write - step rb.size rb.read
                else rb.size + rb.write - step rb.size rb.read) =
          ground arith in
        rw e ((ground arith, w), inr (ap (items rb.buffer rb.size rb.read) n))
  ]

  -- With the indices in range `pop_front` keeps them so, and takes the newest entry off the contents, or
  -- gives `init` where there is none and changes nothing.
  pub pop_front-contents :
      (rb : Ring A) (init : A)
      → IsRing rb
      → IsRing (pop_front rb init).1
        × (((contents rb ≡ []) × (pop_front rb init ≡ (init, rb)))
            ⊎ (contents rb ≡ contents (pop_front rb init).1 ++ ((pop_front rb init).0 ∷ [])))
  unfolding pop_front empty
  pop_front-contents rb init (r, w) = elim (Nat-cases rb.write rb.read) [
    | inl none_left ↦
        let e : (rb.write == rb.read) ≡ true = ground arith in
        let n : count rb ≡ 0 = ground arith in
        rw e ((r, w), inl (ap (items rb.buffer rb.size rb.read) n, refl))
    | inr some_left ↦
        let e : (rb.write == rb.read) ≡ false = ground arith in
        let m =
          (if leb rb.read (last rb) then last rb - rb.read else rb.size + last rb - rb.read) in
        let n : count rb ≡ suc m = ground arith in
        let k : at rb.size rb.read m ≡ last rb = ground arith in
        rw e (
          (r, ground arith),
          inr (
              ap (items rb.buffer rb.size rb.read) n
              ∙ items-snoc rb.buffer rb.size rb.read m r (ground arith)
              ∙ ap (λ i. items rb.buffer rb.size rb.read m ++ (rb.buffer i ∷ [])) k),
        )
  ]
