-- ===== src/Kheap/Reach.antt =====
-- The heap of src/kernel/memory/kheap.c from `kheap_init` on, under any calls of `__do_malloc` and
-- `__do_free`.
use mathlib.Core.Path.{subst}
use hos.Base.{
  ℕ, ◌+◌, ◌^◌, ◌<◌, ◌≤◌, ◌≡◌, refl, sym, ap, ◌∙◌, Bool, true, false, List, [], ◌∷◌, ◌++◌,
  append-nil, arith,
}
use hos.Kheap.{
  Heap, Run, ok, asserts, faults, endless, overhead, ceil16, do_malloc, do_free, kheap_init,
}
use hos.Kheap.Chunks.{Chunk}
use hos.Kheap.Represents.{IsHeap}
use hos.Kheap.Pieces.{live, live-append}
use hos.Kheap.Taken.{Given}
use hos.Kheap.Outcome.{Malloced, exhausted, grown, whole, split}
use hos.Kheap.Malloc.{do_malloc-Malloced}
use hos.Kheap.Free.{do_free-Freed}
use hos.Kheap.Held.{
  Insert, here, there, Fills, none, one, Fills-remove, Disjoint, Inside, Fills-Disjoint,
  Fills-Inside, live-Within, Within-higher, live-Spread, InUse-live,
}
use mathlib.Core.Bool.{true≢false}

-- The heap after some calls, and what the callers hold: the address and the size of each region.
pub data Reach (start end : ℕ) : Heap → List (ℕ × ℕ) → Type 0 where
  init : Reach start end (kheap_init start end) []
  mallocs :
      (h h' : Heap) (held : List (ℕ × ℕ)) (size p : ℕ)
      → Reach start end h held
      → 0 < size
      → size + 27 < 2 ^ 31
      → end + size + 27 < 2 ^ 32
      → do_malloc size h ≡ ok (p, h')
      → Reach start end h' ((p, size) ∷ held)
  frees :
      (h h' : Heap) (held held' : List (ℕ × ℕ)) (p size : ℕ)
      → Reach start end h held'
      → Insert (p, size) held held'
      → do_free p h ≡ ok h'
      → Reach start end h' held

-- The heap is as it should be, and the regions held lie in its chunks in use.
record IsKept (start end : ℕ) (h : Heap) (held : List (ℕ × ℕ)) : Type 0 where
  chunks : List Chunk
  frees : List ℕ
  is_heap : IsHeap h chunks frees
  fills : Fills held (live chunks)
  start_eq : h.vm_start ≡ start
  end_eq : h.vm_end ≡ end

abbrev from_ok : {A : Type 0} → A → Run A → A
from_ok a (ok b) = b
from_ok a (asserts) = a
from_ok a (faults) = a
from_ok a (endless) = a

abbrev returns : {A : Type 0} → Run A → Bool
returns (ok b) = true
returns (asserts) = false
returns (faults) = false
returns (endless) = false

kheap_init-IsHeap :
    (start end : ℕ) → start + 12 ≤ end → end < 2 ^ 32 → IsHeap (kheap_init start end) [] []
unfolding kheap_init
kheap_init-IsHeap start end le bound = record {
  row = record {
    head_eq = refl;
    tail_eq = refl;
    layout = refl;
    within = le;
    bounded = bound;
    segment = tt;
  };
  list = record { chain = refl; distinct = tt };
  free_iff = λ x. refl;
  merged = refl;
}

Insert-middle : {A : Type 0} → (a : A) (xs ys : List A) → Insert a (xs ++ ys) (xs ++ (a ∷ ys))
Insert-middle a [] ys = here ys
Insert-middle a (x ∷ xs) ys = there x (xs ++ ys) (xs ++ (a ∷ ys)) (Insert-middle a xs ys)

-- A region that has been given out.
IsKept-Given :
    (start end : ℕ) (h h' : Heap) (held lower upper : List (ℕ × ℕ)) (x p size room : ℕ)
    → Fills held (lower ++ upper)
    → h.vm_start ≡ start
    → h.vm_end ≡ end
    → size ≤ room
    → do_malloc size h ≡ ok (p, h')
    → Given h lower upper x room (do_malloc size h)
    → IsKept start end h' ((p, size) ∷ held)
IsKept-Given start end h h' held lower upper x p size room fills s e le runs g =
    let same : (x + overhead, g.heap) ≡ (p, h') = ap (from_ok (p, h')) (sym g.runs ∙ runs) in
    subst (λ (u : ℕ × Heap). IsKept start end u.1 ((u.0, size) ∷ held)) same
      (record {
        chunks = g.chunks;
        frees = g.frees;
        is_heap = g.is_heap;
        fills =
            one held (lower ++ upper) (live g.chunks) x size room le
              (subst (Insert (x, room) (lower ++ upper)) (sym g.live_eq)
                (Insert-middle (x, room) lower upper))
              fills;
        start_eq = g.same_start ∙ s;
        end_eq = g.same_end ∙ e;
      })

live-free :
    {cs : List Chunk} (left : List Chunk) (c : Chunk) (right : List Chunk)
    → cs ≡ left ++ (c ∷ right)
    → c.free ≡ true
    → live cs ≡ live left ++ live right
live-free left c right row free = ap live row ∙ live-append left (c ∷ right) ∙ rw free refl

IsKept-Malloced :
    (start end : ℕ) (h h' : Heap) (held : List (ℕ × ℕ)) (p size : ℕ)
    → (k : IsKept start end h held) → 0 < size
    → size + 27 < 2 ^ 31
    → do_malloc size h ≡ ok (p, h')
    → Malloced h k.chunks (ceil16 size) (do_malloc size h)
    → IsKept start end h' ((p, size) ∷ held)
IsKept-Malloced start end h h' held p size k pos small runs (exhausted unfit full stops) =
    absurd (true≢false (ap returns (sym runs ∙ stops)))
IsKept-Malloced start end h h' held p size k pos small runs (grown unfit g) =
    IsKept-Given start end h h' held (live k.chunks) [] h.heap_top p size (ceil16 size)
      (subst (Fills held) (sym (append-nil (live k.chunks))) k.fills) k.start_eq k.end_eq
      (omega arith) runs g
IsKept-Malloced start end h h' held p size k pos small runs
      (whole left c right row free fit less best g) =
    IsKept-Given start end h h' held (live left) (live right) c.at p size c.room
      (subst (Fills held) (live-free left c right row free) k.fills) k.start_eq k.end_eq
      (omega (arith, fit)) runs g
IsKept-Malloced start end h h' held p size k pos small runs
      (split left c right row free fit best g) =
    IsKept-Given start end h h' held (live left) (live right) c.at p size (ceil16 size)
      (subst (Fills held) (live-free left c right row free) k.fills) k.start_eq k.end_eq
      (omega arith) runs g

-- The free of a region held.
IsKept-freed :
    (start end : ℕ) (h : Heap) (held held' : List (ℕ × ℕ)) (p size : ℕ)
    → IsKept start end h held'
    → Insert (p, size) held held'
    → (h' : Heap) × (do_free p h ≡ ok h') × IsKept start end h' held
IsKept-freed start end h held held' p size k i =
    let (used, x, room, at, j, fills) = Fills-remove p size held held' (live k.chunks) i k.fills in
    let u = InUse-live x room used k.chunks j in
    let g =
      do_free-Freed h u.left u.chunk u.right k.frees
        (subst (λ l. IsHeap h l k.frees) u.is_split k.is_heap) u.is_used in
    let place : u.chunk.at + 12 ≡ p = omega (arith, at, u.is_here) in
    (
      g.heap,
      ap (λ n. do_free n h) (sym place) ∙ g.runs,
      record {
        chunks = g.chunks;
        frees = g.frees;
        is_heap = g.is_heap;
        fills = subst (Fills held) (u.others ∙ sym g.live_eq) fills;
        start_eq = g.same_start ∙ k.start_eq;
        end_eq = g.same_end ∙ k.end_eq;
      },
    )

Reach-IsKept :
    (start end : ℕ) (h : Heap) (held : List (ℕ × ℕ))
    → start + 12 ≤ end
    → end < 2 ^ 32
    → Reach start end h held
    → IsKept start end h held
unfolding kheap_init
Reach-IsKept start end h held le bound (init) = record {
  chunks = [];
  frees = [];
  is_heap = kheap_init-IsHeap start end le bound;
  fills = none;
  start_eq = refl;
  end_eq = refl;
}
Reach-IsKept start end h held le bound (mallocs h0 _ held0 size p r pos small fit runs) =
    let k = Reach-IsKept start end h0 held0 le bound r in
    IsKept-Malloced start end h0 h held0 p size k pos small runs
      (do_malloc-Malloced h0 k.chunks k.frees size k.is_heap pos small (omega (arith, k.end_eq)))
Reach-IsKept start end h held le bound (frees h0 _ _ held' p size r i runs) =
    let k = Reach-IsKept start end h0 held' le bound r in
    let (h1, runs', kept) = IsKept-freed start end h0 held held' p size k i in
    subst (λ u. IsKept start end u held) (ap (from_ok h) (sym runs' ∙ runs)) kept

-- After any calls of `__do_malloc` for sizes in range, and of `__do_free` for regions held, no two of
-- the regions held meet, and each lies inside the heap, behind its three words and a block's header.
pub Reach-Disjoint :
    (start end : ℕ) (h : Heap) (held : List (ℕ × ℕ))
    → start + 12 ≤ end
    → end < 2 ^ 32
    → Reach start end h held
    → Disjoint held × Inside (start + 12 + overhead) end held
Reach-Disjoint start end h held le bound r =
    let k = Reach-IsKept start end h held le bound r in
    let l = k.is_heap.row.layout in
    (
      Fills-Disjoint held (live k.chunks) k.fills
          (live-Spread (h.vm_start + 12) k.chunks h.heap_top l),
      subst (λ n. Inside n end held) (ap (λ n. n + 12 + overhead) k.start_eq)
          (Fills-Inside (h.vm_start + 12) end held (live k.chunks) k.fills (
            Within-higher (h.vm_start + 12) h.heap_top end (live k.chunks)
              (omega (arith, k.is_heap.row.within, k.end_eq))
              (live-Within (h.vm_start + 12) k.chunks h.heap_top l))),
    )

-- After such calls `__do_free` returns for every region held.
pub do_free-held :
    (start end : ℕ) (h : Heap) (held held' : List (ℕ × ℕ)) (p size : ℕ)
    → start + 12 ≤ end
    → end < 2 ^ 32
    → Reach start end h held'
    → Insert (p, size) held held'
    → (h' : Heap) × (do_free p h ≡ ok h') × Reach start end h' held
do_free-held start end h held held' p size le bound r i =
    let (h', runs, kept) =
      IsKept-freed start end h held held' p size (Reach-IsKept start end h held' le bound r) i in
    (h', runs, frees h h' held held' p size r i runs)
