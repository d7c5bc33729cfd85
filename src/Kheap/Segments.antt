-- ===== src/Kheap/Segments.antt =====
-- The `size` and `next` fields of the blocks of a row of chunks.
use hos.Base.{ℕ, ◌+◌, ◌≡◌, sym, ◌∙◌, store, false, ◌==◌, if◌then◌else◌, List, [], ◌∷◌, ◌++◌, arith}
use hos.Kheap.Chunks.{Chunk, is_at, first, first-append}

-- What the field `size` of the chunk's block holds.
abbrev pub encoded : Chunk → ℕ
encoded c = c.room + (if c.free then 1 else 0)

-- The blocks of the row hold their sizes, and each points to the next, the last one to `e`.
abbrev pub Segment : (ℕ → ℕ) → (ℕ → ℕ) → List Chunk → ℕ → Type 0
Segment s n [] e = Unit
Segment s n (c ∷ cs) e = (s c.at ≡ encoded c) × (n c.at ≡ first cs e) × Segment s n cs e

pub Segment-append :
    (s n : ℕ → ℕ) (cs ds : List Chunk) (e : ℕ)
    → Segment s n (cs ++ ds) e
    → Segment s n cs (first ds e) × Segment s n ds e
Segment-append s n [] ds e g = (tt, g)
Segment-append s n (c ∷ cs) ds e (size, link, g) =
    let (g1, g2) = Segment-append s n cs ds e g in ((size, link ∙ first-append cs ds e, g1), g2)

pub Segment-join :
    (s n : ℕ → ℕ) (cs ds : List Chunk) (e : ℕ)
    → Segment s n cs (first ds e)
    → Segment s n ds e
    → Segment s n (cs ++ ds) e
Segment-join s n [] ds e g1 g2 = g2
Segment-join s n (c ∷ cs) ds e (size, link, g1) g2 =
    (size, link ∙ sym (first-append cs ds e), Segment-join s n cs ds e g1 g2)

-- A write to a field of a block outside the row.
pub Segment-size :
    (s n : ℕ → ℕ) (x v : ℕ) (cs : List Chunk) (e : ℕ)
    → is_at x cs ≡ false
    → Segment s n cs e
    → Segment (store s x v) n cs e
Segment-size s n x v [] e out g = tt
Segment-size s n x v (c ∷ cs) e out (size, link, g) =
    let ne : (x == c.at) ≡ false = ground (arith, out) in
    (rw ne size, link, Segment-size s n x v cs e (ground (arith, out)) g)

pub Segment-next :
    (s n : ℕ → ℕ) (x v : ℕ) (cs : List Chunk) (e : ℕ)
    → is_at x cs ≡ false
    → Segment s n cs e
    → Segment s (store n x v) cs e
Segment-next s n x v [] e out g = tt
Segment-next s n x v (c ∷ cs) e out (size, link, g) =
    let ne : (x == c.at) ≡ false = ground (arith, out) in
    (size, rw ne link, Segment-next s n x v cs e (ground (arith, out)) g)
