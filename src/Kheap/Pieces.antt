-- ===== src/Kheap/Pieces.antt =====
-- Replacing a part of a row of chunks, and the chunks in use.
use mathlib.Core.Path.{subst}
use hos.Base.{
  ℕ, ◌+◌, ◌%◌, ◌<◌, ◌≡◌, refl, sym, ap, ◌∙◌, false, if◌then◌else◌, List, [], ◌∷◌, ◌++◌, arith,
  Bool-cases, inl, inr,
}
use hos.Kheap.{Heap, overhead}
use hos.Kheap.Chunks.{
  Chunk, Layout, Layout-append, Layout-join, is_at, first, first-append, last, last-append,
  not_at_outside,
}
use hos.Kheap.Segments.{encoded, Segment, Segment-append, Segment-join}
use hos.Kheap.Represents.{IsRow}

-- The chunks in use: where each starts, and its room.
abbrev pub live : List Chunk → List (ℕ × ℕ)
live [] = []
live (c ∷ cs) = if c.free then live cs else (c.at, c.room) ∷ live cs

pub live-append : (cs ds : List Chunk) → live (cs ++ ds) ≡ live cs ++ live ds
live-append [] ds = refl
live-append (c ∷ cs) ds = elim (Bool-cases c.free) [
  | inl f ↦ rw f (live-append cs ds)
  | inr f ↦ rw f (ap (λ l. (c.at, c.room) ∷ l) (live-append cs ds))
]

-- A heap around one of its chunks.
pub record Around (h : Heap) (left : List Chunk) (c : Chunk) (right : List Chunk) : Type 0 where
  pub start_pos : 0 < h.vm_start + 12
  pub left_layout : Layout (h.vm_start + 12) left c.at
  pub even : c.room % 2 ≡ 0
  pub right_layout : Layout (c.at + overhead + c.room) right h.heap_top
  pub left_segment : Segment h.size h.next left c.at
  pub size_eq : h.size c.at ≡ encoded c
  pub link : h.next c.at ≡ first right 0
  pub right_segment : Segment h.size h.next right 0
  pub outside_left : is_at c.at left ≡ false
  pub outside_right : is_at c.at right ≡ false

pub Around-chunk :
    (h : Heap) (left : List Chunk) (c : Chunk) (right : List Chunk)
    → IsRow h (left ++ (c ∷ right))
    → Around h left c right
Around-chunk h left c right r =
    let (m, l1, (here, even, l2)) =
      Layout-append (h.vm_start + 12) left (c ∷ right) h.heap_top r.layout in
    let (g1, (size, link, g2)) = Segment-append h.size h.next left (c ∷ right) 0 r.segment in
    let l1' : Layout (h.vm_start + 12) left c.at =
      subst (Layout (h.vm_start + 12) left) (sym here) l1 in
    let l2' : Layout (c.at + overhead + c.room) right h.heap_top =
      subst (λ n. Layout (n + overhead + c.room) right h.heap_top) (sym here) l2 in
    record {
      start_pos = omega arith;
      left_layout = l1';
      even = even;
      right_layout = l2';
      left_segment = g1;
      size_eq = size;
      link = link;
      right_segment = g2;
      outside_left = not_at_outside (h.vm_start + 12) left c.at c.at l1' (inr (omega arith));
      outside_right =
          not_at_outside (c.at + overhead + c.room) right h.heap_top c.at l2' (inl (omega arith));
    }

-- A heap whose chunks behind `left` are `ds`, the first of them where `c` was.
pub rebuild :
    (h h' : Heap) (left : List Chunk) (c : Chunk) (right : List Chunk) (d : Chunk) (ds : List Chunk)
    → IsRow h (left ++ (c ∷ right))
    → h'.head ≡ h.head
    → h'.vm_start ≡ h.vm_start
    → h'.vm_end ≡ h.vm_end
    → h'.heap_top ≡ h.heap_top
    → d.at ≡ c.at
    → h'.tail ≡ last ds d.at
    → Layout (h.vm_start + 12) left c.at
    → Layout c.at (d ∷ ds) h.heap_top
    → Segment h'.size h'.next left c.at
    → Segment h'.size h'.next (d ∷ ds) 0
    → IsRow h' (left ++ (d ∷ ds))
rebuild h h' left c right d ds r head start end top at tail l1 l2 g1 g2 = record {
  head_eq =
      head
      ∙ r.head_eq
      ∙ first-append left (c ∷ right) 0
      ∙ ap (first left) (sym at)
      ∙ sym (first-append left (d ∷ ds) 0);
  tail_eq = tail ∙ sym (last-append left d ds 0);
  layout =
      subst (λ t. Layout (t + 12) (left ++ (d ∷ ds)) h'.heap_top) (sym start)
        (subst (Layout (h.vm_start + 12) (left ++ (d ∷ ds))) (sym top)
          (Layout-join (h.vm_start + 12) left (d ∷ ds) c.at h.heap_top l1 l2));
  within = omega (arith, top, end, r.within);
  bounded = omega (arith, end, r.bounded);
  segment =
      Segment-join h'.size h'.next left (d ∷ ds) 0
        (subst (Segment h'.size h'.next left) (sym at) g1) g2;
}
