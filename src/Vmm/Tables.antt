-- ===== src/Vmm/Tables.antt =====
-- A table for an address, by `vmm_create_page` and `vmm_map_page` of src/kernel/memory/vmm.c.
use mathlib.Core.Path.{subst}
use hos.Base.{
  ℕ, ◌%◌, ◌^◌, ◌<◌, ◌≤◌, ◌≡◌, ◌≢◌, refl, sym, ap, ◌∙◌, inl, inr, true, false, ◌==◌, arith,
  Bool-cases, Nat-cases, Option, some, none,
}
use hos.Pmm.{Pmm, frame_test, Outcome, ok, fatal, out_of_fuel, allocate_frame}
use hos.Pmm.Search.{scan_start, scan_end}
use hos.Pmm.Alloc.{
  IsReady, AllocSpec, allocate_frame-AllocSpec, allocate_frame-Allocated, Allocated-IsReady,
}
use hos.Vmm.{
  Space, present, size_bit, frame_of, set_frame, page_set_flags, allocated, pde_allocate, pd_entry,
  pt_entry, pde_of, table_of, pte_of, store_word, zero_page, setup_table,
}
use hos.Vmm.Entries.{
  frame_of-page_set_flags, frame_of-set_frame, present-page_set_flags, size_bit-page_set_flags,
  size_bit-set_frame,
}
use hos.Vmm.Translation.{translate, pde, IsSpace, IsBelowTables, translate-same}
use hos.Vmm.Put.{store_word-elsewhere, store_word-here}

-- Flags of a page of 4 KiB that is present.
abbrev pub IsPageFlags : ℕ → Type 0
IsPageFlags flags = (flags % 2 ≡ 1) × (size_bit flags ≡ 0)

-- No frame is left.
abbrev pub IsFull : Space → Type 0
IsFull s = allocate_frame s.pmm ≡ fatal

-- A frame that was free is taken, and no other changes.
pub record Taken (s : Space) (f : ℕ) (pmm : Pmm) : Type 0 where
  pub ready : IsReady pmm
  pub few : pmm.max_frames ≤ 2 ^ 20
  pub fresh : frame_test s.pmm f ≡ false
  pub new : frame_test pmm f ≡ true
  pub small : f < 2 ^ 20
  pub grown : (g : ℕ) → frame_test s.pmm g ≡ true → frame_test pmm g ≡ true

pub allocate_frame-Taken :
    (s : Space) (f : ℕ) (pmm : Pmm) → IsSpace s → allocate_frame s.pmm ≡ ok f pmm → Taken s f pmm
allocate_frame-Taken s f pmm is e =
    let got = allocate_frame-Allocated s.pmm pmm f is.ready e in
    record {
      ready = Allocated-IsReady s.pmm pmm 1 f is.ready got;
      few = omega (arith, got.shape.0, is.few);
      fresh = got.fresh f (omega arith) (omega arith);
      new = ground (arith, got.marked f);
      small = omega (arith, got.within, is.few);
      grown = λ g t. ground (arith, got.marked g, t);
    }

pub never_out_of_fuel : (s : Space) → IsSpace s → allocate_frame s.pmm ≡ out_of_fuel → ⊥
never_out_of_fuel s is e =
    subst
      (AllocSpec s.pmm 1
        ((g : ℕ) → scan_start s.pmm ≤ g → g < scan_end s.pmm → frame_test s.pmm g ≡ true))
      e (allocate_frame-AllocSpec s.pmm is.ready)

-- There is a table for the address, and every address stands for what it did.
pub record Tabled (v : ℕ) (s s' : Space) : Type 0 where
  pub space : IsSpace s'
  pub root : s'.directory ≡ s.directory
  pub there : present (pde_of v s') ≡ 1
  pub same : (v' : ℕ) → IsBelowTables v' → translate v' s' ≡ translate v' s
  pub grown : (g : ℕ) → frame_test s.pmm g ≡ true → frame_test s'.pmm g ≡ true

-- A new table that is empty, for the entry `i` of the directory.
abbrev with_table : ℕ → ℕ → Pmm → Space → Space
with_table i raw pmm s = record s {
  pmm = pmm;
  memory = zero_page (frame_of raw) (store_word s.directory i raw s.memory);
}

pub zero_page-elsewhere : (f a b : ℕ) (m : ℕ → ℕ → ℕ) → a ≢ f → zero_page f m a b ≡ m a b
unfolding zero_page
zero_page-elsewhere f a b m ne = let off : (a == f) ≡ false = ground (arith, ne) in rw off refl

pub zero_page-here : (f b : ℕ) (m : ℕ → ℕ → ℕ) → zero_page f m f b ≡ 0
unfolding zero_page
zero_page-here f b m = let on : (f == f) ≡ true = ground arith in rw on refl

-- A frame that was taken is not the new one.
pub Taken-apart :
    (s : Space) (f g : ℕ) (pmm : Pmm) → Taken s f pmm → frame_test s.pmm g ≡ true → g ≢ f
Taken-apart s f g pmm taken marked e = cc (taken.fresh, marked, ap (frame_test s.pmm) e)

module _ (s : Space) (is : IsSpace s) (i raw : ℕ) (pmm : Pmm) (low : i < 1023)
    (absent : present (pde i s) ≡ 0) (there : present raw ≡ 1) (small : size_bit raw ≡ 0)
    (taken : Taken s (frame_of raw) pmm) where
  pde-new : pde i (with_table i raw pmm s) ≡ raw
  pde-new =
      zero_page-elsewhere (frame_of raw) s.directory i (store_word s.directory i raw s.memory)
        (Taken-apart s (frame_of raw) s.directory pmm taken is.root)
      ∙ store_word-here s.directory i raw s.memory

  pde-old : (j : ℕ) → j ≢ i → pde j (with_table i raw pmm s) ≡ pde j s
  pde-old j ne =
      zero_page-elsewhere (frame_of raw) s.directory j (store_word s.directory i raw s.memory)
        (Taken-apart s (frame_of raw) s.directory pmm taken is.root)
      ∙ store_word-elsewhere s.directory i raw s.directory j s.memory (inr ne)

  -- What holds for the new entry and for the others holds for all.
  each_pde :
      (P : ℕ → ℕ → Type 0)
      → P i raw
      → ((j : ℕ) → j ≢ i → P j (pde j s))
      → (j : ℕ) → P j (pde j (with_table i raw pmm s))
  each_pde P new old j = elim (Nat-cases j i) [
    | inl e ↦
        subst (λ j'. P j' (pde j' (with_table i raw pmm s))) (sym e) (subst (P i) (sym pde-new) new)
    | inr ne ↦ subst (P j) (sym (pde-old j ne)) (old j ne)
  ]

  with_table-IsSpace : IsSpace (with_table i raw pmm s)
  with_table-IsSpace = record {
    ready = taken.ready;
    few = taken.few;
    root = taken.grown s.directory is.root;
    taken =
        each_pde (λ j e. j < 1023 → present e ≡ 1 → frame_test pmm (frame_of e) ≡ true)
          (λ lt p. taken.new) (λ j ne lt p. taken.grown (frame_of (pde j s)) (is.taken j lt p));
    below =
        each_pde (λ j e. j < 1023 → present e ≡ 1 → frame_of e ≢ s.directory)
          (λ lt p same. Taken-apart s (frame_of raw) s.directory pmm taken is.root (sym same))
          (λ j ne lt p. is.below j lt p);
    small = each_pde (λ j e. j < 1023 → size_bit e ≡ 0) (λ lt. small) (λ j ne lt. is.small j lt);
    distinct =
        each_pde
          (λ j e.
            (j' : ℕ)
            → j < 1023
            → j' < 1023
            → j ≢ j'
            → present e ≡ 1
            → present (pde j' (with_table i raw pmm s)) ≡ 1
            → frame_of e ≢ frame_of (pde j' (with_table i raw pmm s)))
          (each_pde
            (λ j' e'.
              i < 1023
              → j' < 1023
              → i ≢ j'
              → present raw ≡ 1
              → present e' ≡ 1
              → frame_of raw ≢ frame_of e')
            (λ lt lt' ne. absurd (ne refl))
            (λ j' ne' lt lt' ne p p' same.
              Taken-apart s (frame_of raw) (frame_of (pde j' s)) pmm taken (is.taken j' lt' p')
                (sym same)))
          (λ j ne.
            each_pde
              (λ j' e'.
                j < 1023
                → j' < 1023
                → j ≢ j'
                → present (pde j s) ≡ 1
                → present e' ≡ 1
                → frame_of (pde j s) ≢ frame_of e')
              (λ lt lt' ne' p p'.
                Taken-apart s (frame_of raw) (frame_of (pde j s)) pmm taken (is.taken j lt p))
              (λ j' ne' lt lt' apart p p'. is.distinct j j' lt lt' apart p p'));
  }

  -- Every address stands for what it did.
  with_table-same : (v : ℕ) → IsBelowTables v → translate v (with_table i raw pmm s) ≡ translate v s
  with_table-same v low' = elim (Nat-cases (pd_entry v) i) [
    | inl e ↦
        let off : (present (pde_of v s) == 0) ≡ true =
          ground (arith, ap (λ j. present (pde j s)) e, absent) in
        let empty : pte_of v (with_table i raw pmm s) ≡ 0 = rw e (
          rw pde-new
            (zero_page-here (frame_of raw) (pt_entry v) (store_word s.directory i raw s.memory))) in
        let on : (present (pde_of v (with_table i raw pmm s)) == 0) ≡ false =
          rw e (rw pde-new (ground (arith, there))) in
        rw off (rw on (rw empty refl))
    | inr ne ↦ translate-same v s (with_table i raw pmm s) (pde-old (pd_entry v) ne) (λ there'.
        rw (pde-old (pd_entry v) ne) (
          zero_page-elsewhere (frame_of raw) (table_of v s) (pt_entry v)
            (store_word s.directory i raw s.memory)
            (Taken-apart s (frame_of raw) (table_of v s) pmm taken
              (is.taken (pd_entry v) (omega arith) there'))
          ∙ store_word-elsewhere s.directory i raw (table_of v s) (pt_entry v) s.memory
              (inl (is.below (pd_entry v) (omega arith) there'))))
  ]

-- What setting up a table does: there is one, or no frame is left for it.
abbrev pub TableSpec : ℕ → Space → Option Space → Type 0
TableSpec v s none = IsFull s × (present (pde_of v s) ≡ 0)
TableSpec v s (some s') = Tabled v s s'

-- The entry that a new frame gives.
abbrev pub IsNewEntry : ℕ → ℕ → ℕ → Type 0
IsNewEntry raw flags f =
    (present (page_set_flags (set_frame raw f) flags) ≡ 1)
    × (frame_of (page_set_flags (set_frame raw f) flags) ≡ f)

pub new_entry : (raw flags f : ℕ) → IsPageFlags flags → f < 2 ^ 20 → IsNewEntry raw flags f
new_entry raw flags f ok_flags bound = (
  present-page_set_flags (set_frame raw f) flags ok_flags.0,
  frame_of-page_set_flags (set_frame raw f) flags ∙ frame_of-set_frame raw f bound,
)

new_table-TableSpec :
    (v flags : ℕ) (s : Space) (o : Outcome)
    → IsSpace s
    → IsBelowTables v
    → IsPageFlags flags
    → present (pde_of v s) ≡ 0
    → allocate_frame s.pmm ≡ o
    → TableSpec v s (setup_table v flags s)
unfolding setup_table pde_allocate allocated
new_table-TableSpec v flags s out_of_fuel is low ok_flags absent e =
    absurd (never_out_of_fuel s is e)
new_table-TableSpec v flags s fatal is low ok_flags absent e =
    let off : (present (pde_of v s) == 0) ≡ true = ground (arith, absent) in
    rw off (rw e (e, absent))
new_table-TableSpec v flags s (ok f pmm) is low ok_flags absent e =
    let off : (present (pde_of v s) == 0) ≡ true = ground (arith, absent) in
    let raw = page_set_flags (set_frame (pde_of v s) f) flags in
    let taken = allocate_frame-Taken s f pmm is e in
    let (there, frame) = new_entry (pde_of v s) flags f ok_flags taken.small in
    let on : (present raw == 0) ≡ false = ground (arith, there) in
    let small : size_bit raw ≡ 0 =
      size_bit-page_set_flags (set_frame (pde_of v s) f) flags
        (size_bit-set_frame (pde_of v s) f ∙ is.small (pd_entry v) (omega arith)) ok_flags.1 in
    let taken' : Taken s (frame_of raw) pmm = subst (λ g. Taken s g pmm) (sym frame) taken in
    let i = pd_entry v in
    let lt : i < 1023 = omega arith in
    rw off (
      rw e (
        rw on (record {
          space = with_table-IsSpace s is i raw pmm lt absent there small taken';
          root = refl;
          there =
              subst (λ x. present x ≡ 1) (sym (pde-new s is i raw pmm lt absent there small taken'))
                there;
          same = λ v' low'. with_table-same s is i raw pmm lt absent there small taken' v' low';
          grown = taken.grown;
        })))

pub setup_table-TableSpec :
    (v flags : ℕ) (s : Space)
    → IsSpace s
    → IsBelowTables v
    → IsPageFlags flags
    → TableSpec v s (setup_table v flags s)
unfolding setup_table
setup_table-TableSpec v flags s is low ok_flags = elim (Bool-cases (present (pde_of v s) == 0)) [
  | inl off ↦
      new_table-TableSpec v flags s (allocate_frame s.pmm) is low ok_flags (ground (arith, off))
        refl
  | inr on ↦ rw on (record {
    space = is;
    root = refl;
    there = ground (arith, on);
    same = λ v' low'. refl;
    grown = λ g t. t;
  })
]
