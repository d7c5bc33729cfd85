-- ===== src/Vmm/Lookup.antt =====
-- `vmm_get_page`, `vmm_r_get_phy_addr` and `vmm_unmap_range` of src/kernel/memory/vmm.c.
use hos.Base.{
  ℕ, zero, suc, ◌+◌, ◌*◌, ◌%◌, ◌^◌, ◌<◌, ◌≤◌, ◌≡◌, refl, ap, ◌∙◌, ◌⊎◌, inl, inr, u32, false, ltb,
  ◌==◌, arith, Bool-cases, Option, some, none,
}
use hos.Vmm.{
  Space, present, size_bit, pd_entry, pde_of, pte_of, pte_addr, get_page, get_phy_addr, unmap_page,
  unmap_loop, unmap_range, align_down, align_up,
}
use hos.Vmm.Translation.{translate, IsSpace, IsBelowTables}
use hos.Vmm.Pages.{Unmapped, unmap_page-Unmapped}

-- What the lookups give for an address that stands for `found`: a page and its address, or no page.
abbrev pub LookupSpec : ℕ → Space → Option ℕ → Type 0
LookupSpec v s none = get_page v s ≡ 0
LookupSpec v s (some a) = (get_page v s ≡ pte_addr v) × (get_phy_addr v s ≡ some a)

-- `vmm_get_page` gives a page exactly where the address stands for something, and there
-- `vmm_r_get_phy_addr` gives what it stands for.
pub get_page-LookupSpec :
    (v : ℕ) (s : Space) → IsSpace s → IsBelowTables v → LookupSpec v s (translate v s)
unfolding get_page get_phy_addr
get_page-LookupSpec v s is low =
    let no_large : size_bit (pde_of v s) ≡ 0 = is.small (pd_entry v) (omega arith) in
    let small : (size_bit (pde_of v s) == 1) ≡ false = ground (arith, no_large) in
    elim (Bool-cases (present (pde_of v s) == 0)) [
      | inl off ↦ rw off (rw off refl)
      | inr on ↦ elim (Bool-cases (present (pte_of v s) == 0)) [
        | inl off ↦ rw on (rw off (rw on (rw small (rw off refl))))
        | inr on' ↦ rw on (rw on' (rw on (rw small (rw on' (refl, refl)))))
      ]
    ]

-- The addresses from `a` to `e` stand for nothing, and all others for what they did.
pub record UnmappedRange (a e : ℕ) (s s' : Space) : Type 0 where
  pub space : IsSpace s'
  pub inside : (v : ℕ) → a ≤ v → v < e → translate v s' ≡ none
  pub outside : (v : ℕ) → IsBelowTables v → (v < a) ⊎ (e ≤ v) → translate v s' ≡ translate v s

UnmappedRange-cons :
    (a e : ℕ) (s s1 s' : Space)
    → a % 4096 ≡ 0
    → a < e
    → e % 4096 ≡ 0
    → e ≤ 1023 * 2 ^ 22
    → Unmapped a s s1
    → UnmappedRange (a + 4096) e s1 s'
    → UnmappedRange a e s s'
UnmappedRange-cons a e s s1 s' ma lt me top page rest = record {
  space = rest.space;
  inside = λ v low high. elim (Bool-cases (ltb v (a + 4096))) [
    | inl first ↦
        let near : v < a + 4096 = ground (arith, first) in
        rest.outside v (omega arith) (inl near) ∙ page.here v (omega arith)
    | inr later ↦ let far : a + 4096 ≤ v = ground (arith, later) in rest.inside v far high
  ];
  outside = λ v below out. elim out [
    | inl low ↦ rest.outside v below (inl (omega arith)) ∙ page.others v below (omega arith)
    | inr high ↦ rest.outside v below (inr high) ∙ page.others v below (omega arith)
  ];
}

unmap_loop-UnmappedRange :
    (fuel a e : ℕ) (s : Space)
    → IsSpace s
    → a % 4096 ≡ 0
    → e % 4096 ≡ 0
    → e ≤ 1023 * 2 ^ 22
    → e < a + 4096 * fuel
    → 0 < fuel
    → (s' : Space) × (unmap_loop fuel a e s ≡ some s') × UnmappedRange a e s s'
unfolding unmap_loop
unmap_loop-UnmappedRange zero a e s is ma me top enough pos = absurd (omega arith)
unmap_loop-UnmappedRange (suc fuel) a e s is ma me top enough pos = elim (Bool-cases (ltb a e)) [
  | inr over ↦
      let le : e ≤ a = ground (arith, over) in
      (
        s,
        rw (over, unmap_loop) refl,
        record {
          space = is;
          inside = λ v low high. absurd (omega arith);
          outside = λ v below out. refl;
        },
      )
  | inl go ↦
      let lt : a < e = ground (arith, go) in
      let page = unmap_page-Unmapped a s is (omega arith) in
      let next : u32 (a + 4096) ≡ a + 4096 = omega arith in
      let (s', runs, rest) =
        unmap_loop-UnmappedRange fuel (a + 4096) e (unmap_page a s) page.space (omega arith) me top
          (omega arith) (omega arith) in
      (
        s',
        (rw (go, unmap_loop) refl ∙ ap (λ n. unmap_loop fuel n e (unmap_page a s)) next ∙ runs),
        UnmappedRange-cons a e s (unmap_page a s) s' ma lt me top page rest,
      )
]

-- The pages inside the range, below the tables, stand for nothing any more, and no other page changes.
pub unmap_range-UnmappedRange :
    (fuel v size : ℕ) (s : Space)
    → IsSpace s
    → v + size ≤ 1023 * 2 ^ 22
    → size + 4096 < 4096 * fuel
    → (s' : Space) × (unmap_range fuel v size s ≡ some s')
      × UnmappedRange (align_up v) (align_down (u32 (v + size))) s s'
unfolding unmap_range
unmap_range-UnmappedRange fuel v size s is top enough =
    unmap_loop-UnmappedRange fuel (align_up v) (align_down (u32 (v + size))) s is (omega arith)
      (omega arith) (omega arith) (omega arith) (omega arith)
