-- ===== src/Vmm/Pages.antt =====
-- `vmm_map_page`, `vmm_unmap_page` and `vmm_free_page` of src/kernel/memory/vmm.c: what each does to every
-- address.
use mathlib.Core.Path.{subst}
use hos.Base.{
  ℕ, ◌+◌, ◌*◌, ◌/◌, ◌%◌, ◌^◌, ◌<◌, ◌≡◌, ◌≢◌, refl, sym, ap, ◌∙◌, ◌⊎◌, inl, inr, true, false, ◌==◌,
  if◌then◌else◌, arith, Bool-cases, Option, some, none,
}
use hos.Pmm.{frame_test, frame_seta, free_frame}
use hos.Pmm.Alloc.{
  frame_test-frame_seta, frame_seta-IsReady, frame_test-free_frame, free_frame-IsReady,
  max_frames-free_frame,
}
use hos.Vmm.{
  Space, present, size_bit, frame_of, set_frame, page_set_flags, page_map_addr, pd_entry, pt_entry,
  pde_of, table_of, pte_of, pte_addr, store_pte, setup_table, map_entry, map_page, unmap_page,
  free_page,
}
use hos.Vmm.Translation.{translate, entry_address, pde, IsSpace, IsBelowTables}
use hos.Vmm.Put.{Keeps, Keeps-self, Put, store_pte-Put, translate-entry}
use hos.Vmm.Tables.{IsPageFlags, IsFull, Tabled, TableSpec, setup_table-TableSpec, new_entry}

-- The page of `v` is at the frame of `p`, and every other page is where it was.
pub record Mapped (v p : ℕ) (s s' : Space) : Type 0 where
  pub space : IsSpace s'
  pub root : s'.directory ≡ s.directory
  pub here : (v' : ℕ) → v' / 4096 ≡ v / 4096 → translate v' s' ≡ some (p / 4096 * 4096 + v' % 4096)
  pub others : (v' : ℕ) → IsBelowTables v' → v' / 4096 ≢ v / 4096 → translate v' s' ≡ translate v' s
  pub marked : frame_test s'.pmm (p / 4096) ≡ true

-- What mapping a page does: the page is mapped, or no frame is left for a table that it needs.
abbrev pub MapSpec : ℕ → ℕ → Space → Option (ℕ × Space) → Type 0
MapSpec v p s none = IsFull s × (present (pde_of v s) ≡ 0)
MapSpec v p s (some (page, s')) = (page ≡ pte_addr v) × Mapped v p s s'

frame_seta-Keeps : (p : ℕ) (s : Space) → IsSpace s → Keeps s (frame_seta s.pmm p)
frame_seta-Keeps p s is =
    let (ready, same) = frame_seta-IsReady s.pmm p is.ready in
    record {
      ready = ready;
      few = omega (arith, same, is.few);
      root = ground (arith, frame_test-frame_seta s.pmm p s.directory, is.root);
      taken = λ i lt there.
          let marked = is.taken i lt there in
          ground (arith, frame_test-frame_seta s.pmm p (frame_of (pde i s)), marked);
    }

-- An entry that is present stands for the addresses in its frame.
pub entry_address-present :
    (v raw f : ℕ)
    → present raw ≡ 1
    → frame_of raw ≡ f
    → entry_address v raw ≡ some (f * 4096 + v % 4096)
entry_address-present v raw f there frame =
    let on : (present raw == 0) ≡ false = ground (arith, there) in rw on (rw frame refl)

map_entry-Mapped :
    (v p flags : ℕ) (s s1 : Space)
    → Tabled v s s1
    → IsBelowTables v
    → p < 2 ^ 32
    → IsPageFlags flags
    → MapSpec v p s (some (map_entry v p flags s1))
unfolding map_entry page_map_addr store_pte
map_entry-Mapped v p flags s s1 tabled low bound ok_flags =
    let is = tabled.space in
    let no_large : size_bit (pde_of v s1) ≡ 0 = is.small (pd_entry v) (omega arith) in
    let off : (size_bit (pde_of v s1) == 1) ≡ false = ground (arith, no_large) in
    let raw = page_set_flags (set_frame (pte_of v s1) (p / 4096)) flags in
    let (there, frame) = new_entry (pte_of v s1) flags (p / 4096) ok_flags (omega arith) in
    let put : Put v raw s1 (store_pte v raw (frame_seta s1.pmm p) s1) =
      store_pte-Put v raw (frame_seta s1.pmm p) s1 is low tabled.there (frame_seta-Keeps p s1 is) in
    rw off (
      refl,
      record {
        space = put.space;
        root = put.root ∙ tabled.root;
        here = λ v' page. put.here v' page ∙ entry_address-present v' raw (p / 4096) there frame;
        others = λ v' low' ne. put.others v' low' ne ∙ tabled.same v' low';
        marked = ground (arith, frame_test-frame_seta s1.pmm p (p / 4096));
      },
    )

-- A page below the tables is mapped to its frame, and no other page changes; only where the page
-- needs a table and no frame is left the machine stops.
pub map_page-MapSpec :
    (v p flags : ℕ) (s : Space)
    → IsSpace s
    → IsBelowTables v
    → p < 2 ^ 32
    → IsPageFlags flags
    → MapSpec v p s (map_page v p flags s)
unfolding map_page
map_page-MapSpec v p flags s is low bound ok_flags =
    by_table (setup_table v flags s) refl (setup_table-TableSpec v flags s is low ok_flags)
  where
    by_table :
        (o : Option Space)
        → setup_table v flags s ≡ o
        → TableSpec v s o
        → MapSpec v p s (map_page v p flags s)
    by_table none e spec = rw e spec
    by_table (some s1) e tabled = rw e (map_entry-Mapped v p flags s s1 tabled low bound ok_flags)

-- The page of `v` stands for nothing, and every other page is where it was.
pub record Unmapped (v : ℕ) (s s' : Space) : Type 0 where
  pub space : IsSpace s'
  pub root : s'.directory ≡ s.directory
  pub here : (v' : ℕ) → v' / 4096 ≡ v / 4096 → translate v' s' ≡ none
  pub others : (v' : ℕ) → IsBelowTables v' → v' / 4096 ≢ v / 4096 → translate v' s' ≡ translate v' s

-- A page that has no entry is unmapped already.
Unmapped-absent :
    (v : ℕ) (s : Space)
    → IsSpace s
    → (present (pde_of v s) ≡ 0) ⊎ ((present (pde_of v s) ≡ 1) × (present (pte_of v s) ≡ 0))
    → Unmapped v s s
Unmapped-absent v s is absent = record {
  space = is;
  root = refl;
  here = λ v' page.
      let pd : pd_entry v' ≡ pd_entry v = omega arith in
      let pt : pt_entry v' ≡ pt_entry v = omega arith in
      elim absent [
        | inl no_table ↦
            let none' : present (pde_of v' s) ≡ 0 = rw (pd, pde_of) no_table in
            let off : (present (pde_of v' s) == 0) ≡ true = ground (arith, none') in rw off refl
        | inr (table, no_page) ↦
            let table' : present (pde_of v' s) ≡ 1 = rw (pd, pde_of) table in
            let none' : present (pte_of v' s) ≡ 0 =
              rw (pd, pte_of, table_of, pde_of) (rw pt no_page) in
            let off : (present (pte_of v' s) == 0) ≡ true = ground (arith, none') in
            translate-entry v' (pte_of v' s) s table' refl ∙ rw off refl
      ];
  others = λ v' low ne. refl;
}

Put-Unmapped : (v : ℕ) (s s' : Space) → Put v 0 s s' → Unmapped v s s'
Put-Unmapped v s s' put = record {
  space = put.space;
  root = put.root;
  here = put.here;
  others = put.others;
}

-- An unmapped page stands for nothing any more, and no other page changes.
pub unmap_page-Unmapped :
    (v : ℕ) (s : Space) → IsSpace s → IsBelowTables v → Unmapped v s (unmap_page v s)
unfolding unmap_page
unmap_page-Unmapped v s is low = elim (Bool-cases (present (pde_of v s) == 0)) [
  | inl off ↦ rw off (Unmapped-absent v s is (inl (ground (arith, off))))
  | inr on ↦ elim (Bool-cases (present (pte_of v s) == 0)) [
    | inl off ↦
        rw on (rw off (Unmapped-absent v s is (inr (ground (arith, on), ground (arith, off)))))
    | inr on' ↦ rw on (
        rw on' (
          Put-Unmapped v s (store_pte v 0 s.pmm s)
            (store_pte-Put v 0 s.pmm s is low (ground (arith, on)) (Keeps-self s is))))
  ]
]

-- A frame that is neither reserved nor that of the directory or of a table.
pub record IsPageFrame (f : ℕ) (s : Space) : Type 0 where
  pub nonzero : f ≢ 0
  pub root : f ≢ s.directory
  pub tables : (i : ℕ) → i < 1023 → present (pde i s) ≡ 1 → f ≢ frame_of (pde i s)

-- A page that stood for something stands for nothing, and its frame is free.
pub record Freed (v : ℕ) (s s' : Space) : Type 0 where
  pub unmapped : Unmapped v s s'
  pub frames :
      (a : ℕ)
      → translate v s ≡ some a
      → (g : ℕ) → frame_test s'.pmm g ≡ (if a / 4096 == g then false else frame_test s.pmm g)

some_inj : (a b : ℕ) → some a ≡ some b → a ≡ b
some_inj a b e = ap (λ (o : Option ℕ). elim o [ none ↦ a | some c ↦ c ]) e

not_some : (a : ℕ) → none ≡ some a → ⊥
not_some a e = subst is_none e tt
  where
    is_none : Option ℕ → Type 0
    is_none none = Unit
    is_none (some c) = ⊥

free_frame-Keeps :
    (raw : ℕ) (s : Space)
    → IsSpace s
    → IsPageFrame (frame_of raw) s
    → Keeps s (free_frame s.pmm raw)
free_frame-Keeps raw s is own = record {
  ready = free_frame-IsReady s.pmm raw is.ready own.nonzero;
  few = omega (arith, max_frames-free_frame s.pmm raw, is.few);
  root = ground (arith, frame_test-free_frame s.pmm raw s.directory, is.root, own.root);
  taken = λ i lt there.
      let marked = is.taken i lt there in
      let apart = own.tables i lt there in
      ground (arith, frame_test-free_frame s.pmm raw (frame_of (pde i s)), marked, apart);
}

-- A page that is freed stands for nothing any more, its frame, which must not be that of a table, is free,
-- and nothing else changes.
pub free_page-Freed :
    (v : ℕ) (s : Space)
    → IsSpace s
    → IsBelowTables v
    → IsPageFrame (frame_of (pte_of v s)) s
    → Freed v s (free_page v s)
unfolding free_page store_pte
free_page-Freed v s is low own = elim (Bool-cases (present (pde_of v s) == 0)) [
  | inl off ↦ rw off (record {
    unmapped = Unmapped-absent v s is (inl (ground (arith, off)));
    frames = λ a e. absurd (not_some a (sym (absent_pde off) ∙ e));
  })
  | inr on ↦ elim (Bool-cases (present (pte_of v s) == 0)) [
    | inl off ↦ rw on (
        rw off (record {
          unmapped = Unmapped-absent v s is (inr (ground (arith, on), ground (arith, off)));
          frames = λ a e. absurd (not_some a (sym (absent_pte on off) ∙ e));
        }))
    | inr on' ↦
        let keeps = free_frame-Keeps (pte_of v s) s is own in
        rw on (
          rw on' (record {
            unmapped = Put-Unmapped v s (store_pte v 0 (free_frame s.pmm (pte_of v s)) s) (
                store_pte-Put v 0 (free_frame s.pmm (pte_of v s)) s is low (ground (arith, on))
                  keeps);
            frames = λ a e g.
                let same =
                  some_inj (frame_of (pte_of v s) * 4096 + v % 4096) a (sym (there on on') ∙ e) in
                let frame : a / 4096 ≡ frame_of (pte_of v s) = omega (arith, same) in
                rw frame (frame_test-free_frame s.pmm (pte_of v s) g);
          }))
  ]
]
  where
    absent_pde : (present (pde_of v s) == 0) ≡ true → translate v s ≡ none
    absent_pde off = rw off refl

    absent_pte :
        (present (pde_of v s) == 0) ≡ false
        → (present (pte_of v s) == 0) ≡ true
        → translate v s ≡ none
    absent_pte on off = rw on (rw off refl)

    there :
        (present (pde_of v s) == 0) ≡ false
        → (present (pte_of v s) == 0) ≡ false
        → translate v s ≡ some (frame_of (pte_of v s) * 4096 + v % 4096)
    there on on' = rw on (rw on' refl)
