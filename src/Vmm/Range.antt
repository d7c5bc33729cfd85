-- ===== src/Vmm/Range.antt =====
-- `vmm_map_range` of src/kernel/memory/vmm.c: a range of pages is mapped in one piece.
use mathlib.Core.Path.{subst}
use hos.Base.{
  ℕ, zero, suc, ◌+◌, ◌-◌, ◌*◌, ◌/◌, ◌%◌, ◌^◌, ◌<◌, ◌≤◌, ◌≡◌, refl, sym, ap, ◌∙◌, ◌⊎◌, inl, inr, u32,
  true, false, ltb, arith, Bool-cases, Option, some, none, ◌>>=◌,
}
use hos.Vmm.{Space, present, pde_of, map_page, map_loop, map_range, align_down, align_up}
use hos.Vmm.Translation.{translate, IsSpace, IsBelowTables}
use hos.Vmm.Tables.{IsPageFlags, IsFull}
use hos.Vmm.Pages.{Mapped, MapSpec, map_page-MapSpec}

-- The addresses from `a` to `e` stand for those from `p` on, and all others for what they did.
pub record MappedRange (a e p : ℕ) (s s' : Space) : Type 0 where
  pub space : IsSpace s'
  pub inside : (v : ℕ) → a ≤ v → v < e → translate v s' ≡ some (p + (v - a))
  pub outside : (v : ℕ) → IsBelowTables v → (v < a) ⊎ (e ≤ v) → translate v s' ≡ translate v s

-- What mapping a range does: it is mapped, or a page of it needs a table and no frame is left.
abbrev pub RangeSpec : ℕ → ℕ → ℕ → Space → Option Space → Type 0
RangeSpec a e p s none =
    (v : ℕ) × (s1 : Space) × (a ≤ v) × (v < e) × IsFull s1 × (present (pde_of v s1) ≡ 0)
RangeSpec a e p s (some s') = MappedRange a e p s s'

-- A range with nothing in it.
MappedRange-empty : (a e p : ℕ) (s : Space) → IsSpace s → e ≤ a → MappedRange a e p s s
MappedRange-empty a e p s is le = record {
  space = is;
  inside = λ v low high. absurd (omega arith);
  outside = λ v below out. refl;
}

-- A page in front of a range.
MappedRange-cons :
    (a e p p' : ℕ) (s s1 s' : Space)
    → a % 4096 ≡ 0
    → e % 4096 ≡ 0
    → p % 4096 ≡ 0
    → a < e
    → e ≤ 1023 * 2 ^ 22
    → (a + 4096 < e → p' ≡ p + 4096)
    → Mapped a p s s1
    → MappedRange (a + 4096) e p' s1 s'
    → MappedRange a e p s s'
MappedRange-cons a e p p' s s1 s' ma me mp lt top next page rest = record {
  space = rest.space;
  inside = λ v low high. elim (Bool-cases (ltb v (a + 4096))) [
    | inl first ↦
        let near : v < a + 4096 = ground (arith, first) in
        let at : p / 4096 * 4096 + v % 4096 ≡ p + (v - a) = omega arith in
        rest.outside v (omega arith) (inl near) ∙ page.here v (omega arith) ∙ ap some at
    | inr later ↦
        let far : a + 4096 ≤ v = ground (arith, later) in
        let p_next : p' ≡ p + 4096 = next (omega arith) in
        let at : p' + (v - (a + 4096)) ≡ p + (v - a) = omega arith in
        rest.inside v far high ∙ ap some at
  ];
  outside = λ v below out. elim out [
    | inl low ↦ rest.outside v below (inl (omega arith)) ∙ page.others v below (omega arith)
    | inr high ↦ rest.outside v below (inr high) ∙ page.others v below (omega arith)
  ];
}

RangeSpec-cons :
    (a e p : ℕ) (s s1 : Space) (o : Option Space)
    → a % 4096 ≡ 0
    → e % 4096 ≡ 0
    → p % 4096 ≡ 0
    → e ≤ 1023 * 2 ^ 22
    → p + e ≤ 2 ^ 32 + a
    → a < e
    → Mapped a p s s1
    → RangeSpec (a + 4096) e (u32 (p + 4096)) s1 o
    → RangeSpec a e p s o
RangeSpec-cons a e p s s1 none ma me mp top fits lt page (v, s2, low, high, full, absent) =
    (v, s2, omega arith, high, full, absent)
RangeSpec-cons a e p s s1 (some s') ma me mp top fits lt page rest =
    MappedRange-cons a e p (u32 (p + 4096)) s s1 s' ma me mp lt top (λ more. omega arith) page rest

-- The loop of `vmm_map_range`, with fuel for a round for each page and one more.
map_loop-RangeSpec :
    (fuel a e p flags : ℕ) (s : Space)
    → IsSpace s
    → a % 4096 ≡ 0
    → e % 4096 ≡ 0
    → p % 4096 ≡ 0
    → e ≤ 1023 * 2 ^ 22
    → p < 2 ^ 32
    → p + e ≤ 2 ^ 32 + a
    → a ≤ e
    → e < a + 4096 * fuel
    → IsPageFlags flags
    → RangeSpec a e p s (map_loop fuel a e p flags s)
unfolding map_loop
map_loop-RangeSpec zero a e p flags s is ma me mp top bound fits le enough ok_flags =
    absurd (omega arith)
map_loop-RangeSpec (suc fuel) a e p flags s is ma me mp top bound fits le enough ok_flags =
    elim (Bool-cases (ltb a e)) [
      | inr over ↦
          subst (RangeSpec a e p s) (sym (stops over))
            (MappedRange-empty a e p s is (ground (arith, over)))
      | inl go ↦
          let lt : a < e = ground (arith, go) in
          subst (RangeSpec a e p s) (sym (goes go)) (
            first (map_page a p flags s) lt
              (map_page-MapSpec a p flags s is (omega arith) bound ok_flags)
              (λ s1 is1.
                subst
                  (λ n.
                    RangeSpec n e (u32 (p + 4096)) s1 (map_loop fuel n e (u32 (p + 4096)) flags s1))
                  {x = a + 4096} {y = u32 (a + 4096)} (omega arith)
                  (map_loop-RangeSpec fuel (a + 4096) e (u32 (p + 4096)) flags s1 is1 (omega arith)
                    me (omega arith) top (omega arith) (omega arith) (omega arith) (omega arith)
                    ok_flags)))
    ]
  where
    stops : ltb a e ≡ false → map_loop (suc fuel) a e p flags s ≡ some s
    stops over = rw (over, map_loop) refl

    goes :
        ltb a e ≡ true
        → map_loop (suc fuel) a e p flags s ≡ (
            map_page a p flags s >>= λ (page, s').
            map_loop fuel (u32 (a + 4096)) e (u32 (p + 4096)) flags s')
    goes go = rw (go, map_loop) refl

    step : Option (ℕ × Space) → Option Space
    step o = o >>= λ (page, s'). map_loop fuel (u32 (a + 4096)) e (u32 (p + 4096)) flags s'

    first :
        (o : Option (ℕ × Space))
        → a < e
        → MapSpec a p s o
        → ((s1 : Space)
            → IsSpace s1
            → RangeSpec
                (u32 (a + 4096))
                e
                (u32 (p + 4096))
                s1
                (map_loop fuel (u32 (a + 4096)) e (u32 (p + 4096)) flags s1))
        → RangeSpec a e p s (step o)
    first none lt (full, absent) again = (a, s, omega arith, lt, full, absent)
    first (some (page, s1)) lt (at, mapped) again =
        RangeSpec-cons a e p s s1 (map_loop fuel (u32 (a + 4096)) e (u32 (p + 4096)) flags s1) ma me
          mp top fits lt mapped
          (subst
            (λ n.
              RangeSpec n e (u32 (p + 4096)) s1
                (map_loop fuel (u32 (a + 4096)) e (u32 (p + 4096)) flags s1))
            {x = u32 (a + 4096)} {y = a + 4096} (omega arith) (again s1 mapped.space))

-- Where the tables are in order, for flags of a present page, a range that ends at or below the tables
-- (`v + size ≤ 1023 * 2 ^ 22`), and whose place ends two pages or more below 4 GiB
-- (`p + size + 8192 ≤ 2 ^ 32`), with fuel for its pages, the pages that hold the range are mapped in one
-- piece from the page of `p` on, and no other page below the tables changes; only where a table is
-- needed and no frame is left the machine stops.
pub map_range-RangeSpec :
    (fuel v p size flags : ℕ) (s : Space)
    → IsSpace s
    → v + size ≤ 1023 * 2 ^ 22
    → p + size + 8192 ≤ 2 ^ 32
    → size + 8192 < 4096 * fuel
    → IsPageFlags flags
    → RangeSpec
        (align_down v)
        (align_up (u32 (v + size)))
        (align_down p)
        s
        (map_range fuel v p size flags s)
unfolding map_range
map_range-RangeSpec fuel v p size flags s is top fits enough ok_flags =
    map_loop-RangeSpec fuel (align_down v) (align_up (u32 (v + size))) (align_down p) flags s is
      (omega arith) (omega arith) (omega arith) (omega arith) (omega arith) (omega arith)
      (omega arith) (omega arith) ok_flags
