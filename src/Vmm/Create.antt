-- ===== src/Vmm/Create.antt =====
-- `vmm_create_page` of src/kernel/memory/vmm.c: a page that has a frame keeps it, and any other is given a
-- new one.
use mathlib.Core.Path.{subst}
use hos.Base.{
  ℕ, ◌+◌, ◌*◌, ◌/◌, ◌%◌, ◌<◌, ◌≡◌, ◌≢◌, refl, sym, ap, ◌∙◌, ◌⊎◌, inl, inr, true, false, ◌==◌, arith,
  Bool-cases, Nat-cases, Option, some, none,
}
use hos.Pmm.{Pmm, Outcome, ok, fatal, out_of_fuel, allocate_frame, frame_test}
use hos.Vmm.{
  Space, present, size_bit, frame_of, set_frame, page_set_flags, allocated, page_allocate, pd_entry,
  pt_entry, pde_of, table_of, pte_of, pte_addr, store_pte, store_word, zero_page, setup_table,
  create_entry, create_page,
}
use hos.Vmm.Entries.{frame_of-page_set_flags, present-page_set_flags}
use hos.Vmm.Translation.{translate, pde, IsSpace, IsBelowTables, translate-same}
use hos.Vmm.Put.{
  Keeps, Keeps-self, Put, store_pte-Put, translate-entry, IsSpace-same, store_word-elsewhere,
}
use hos.Vmm.Tables.{
  IsPageFlags, IsFull, Taken, Taken-apart, allocate_frame-Taken, never_out_of_fuel, Tabled,
  TableSpec, setup_table-TableSpec, new_entry, zero_page-elsewhere, zero_page-here,
}
use hos.Vmm.Pages.{entry_address-present}

-- The page `v` had a frame and nothing changes, or it is given a frame that was free and is zero.
pub data Created (v : ℕ) (s s' : Space) : Type 0 where
  kept :
      IsSpace s'
      → ((a : ℕ) × (translate v s ≡ some a))
      → ((v' : ℕ) → IsBelowTables v' → translate v' s' ≡ translate v' s)
      → Created v s s'
  new :
      (f : ℕ)
      → IsSpace s'
      → translate v s ≡ none
      → frame_test s.pmm f ≡ false
      → frame_test s'.pmm f ≡ true
      → ((v' : ℕ) → v' / 4096 ≡ v / 4096 → translate v' s' ≡ some (f * 4096 + v' % 4096))
      → ((v' : ℕ) → IsBelowTables v' → v' / 4096 ≢ v / 4096 → translate v' s' ≡ translate v' s)
      → ((j : ℕ) → s'.memory f j ≡ 0)
      → Created v s s'

-- What creating a page does: it is created, or the page has none and no frame is left for it or its
-- table.
abbrev pub CreateSpec : ℕ → Space → Option (ℕ × Space) → Type 0
CreateSpec v s none =
    (translate v s ≡ none) × (IsFull s ⊎ ((s1 : Space) × Tabled v s s1 × IsFull s1))
CreateSpec v s (some (page, s')) = (page ≡ pte_addr v) × Created v s s'

-- A page that is no table is set to zero.
record Zeroed (v : ℕ) (s s' : Space) : Type 0 where
  space : IsSpace s'
  same : (v' : ℕ) → IsBelowTables v' → translate v' s' ≡ translate v' s
  pde_same : pde_of v s' ≡ pde_of v s
  pte_same : pte_of v s' ≡ pte_of v s

abbrev zeroed : ℕ → Space → Space
zeroed f s = record s { memory = zero_page f s.memory }

zeroed-Zeroed :
    (v f : ℕ) (s : Space)
    → IsSpace s
    → IsBelowTables v
    → present (pde_of v s) ≡ 1
    → s.directory ≢ f
    → ((i : ℕ) → i < 1023 → present (pde i s) ≡ 1 → frame_of (pde i s) ≢ f)
    → Zeroed v s (zeroed f s)
zeroed-Zeroed v f s is low there root tables =
    let same : (i : ℕ) → pde i (zeroed f s) ≡ pde i s =
      λ i. zero_page-elsewhere f s.directory i s.memory root in
    let words : (v' : ℕ)
        → IsBelowTables v'
        → present (pde_of v' s) ≡ 1
        → pte_of v' (zeroed f s) ≡ pte_of v' s =
      λ v' low' there'. rw (same (pd_entry v')) (
        zero_page-elsewhere f (table_of v' s) (pt_entry v') s.memory
          (tables (pd_entry v') (omega arith) there')) in
    record {
      space = IsSpace-same s (zeroed f s) is refl same (Keeps-self s is);
      same = λ v' low'. translate-same v' s (zeroed f s) (same (pd_entry v')) (words v' low');
      pde_same = same (pd_entry v);
      pte_same = words v low there;
    }

Taken-Keeps : (f : ℕ) (s : Space) (pmm : Pmm) → IsSpace s → Taken s f pmm → Keeps s pmm
Taken-Keeps f s pmm is taken = record {
  ready = taken.ready;
  few = taken.few;
  root = taken.grown s.directory is.root;
  taken = λ i lt there. taken.grown (frame_of (pde i s)) (is.taken i lt there);
}

-- What is free after a table was set up was free before.
Tabled-fresh :
    (v f : ℕ) (s s1 : Space)
    → Tabled v s s1
    → frame_test s1.pmm f ≡ false
    → frame_test s.pmm f ≡ false
Tabled-fresh v f s s1 tabled fresh = elim (Bool-cases (frame_test s.pmm f)) [
  | inr free ↦ free
  | inl marked ↦ absurd (cc (tabled.grown f marked, fresh))
]

-- The page has a frame: its flags are set.
kept_entry-Created :
    (v flags : ℕ) (s s1 : Space)
    → Tabled v s s1
    → IsBelowTables v
    → IsPageFlags flags
    → present (pte_of v s1) ≡ 1
    → Created v s (store_pte v (page_set_flags (pte_of v s1) flags) s1.pmm s1)
kept_entry-Created v flags s s1 tabled low ok_flags there =
    let is = tabled.space in
    let raw = page_set_flags (pte_of v s1) flags in
    let put : Put v raw s1 (store_pte v raw s1.pmm s1) =
      store_pte-Put v raw s1.pmm s1 is low tabled.there (Keeps-self s1 is) in
    let frame = frame_of (pte_of v s1) in
    let before = λ (v' : ℕ) (page : v' / 4096 ≡ v / 4096).
      let pd : pd_entry v' ≡ pd_entry v = omega arith in
      let pt : pt_entry v' ≡ pt_entry v = omega arith in
      let there' : present (pde_of v' s1) ≡ 1 = rw (pd, pde_of) tabled.there in
      let same : pte_of v' s1 ≡ pte_of v s1 = rw (pd, pte_of, table_of, pde_of) (rw pt refl) in
      translate-entry v' (pte_of v s1) s1 there' same
      ∙ entry_address-present v' (pte_of v s1) frame there refl in
    kept put.space (frame * 4096 + v % 4096, sym (tabled.same v low) ∙ before v refl)
      (λ v' low'. elim (Nat-cases (v' / 4096) (v / 4096)) [
        | inr ne ↦ put.others v' low' ne ∙ tabled.same v' low'
        | inl page ↦
            put.here v' page
            ∙ entry_address-present v' raw frame
                (present-page_set_flags (pte_of v s1) flags ok_flags.0)
                (frame_of-page_set_flags (pte_of v s1) flags)
            ∙ sym (before v' page)
            ∙ tabled.same v' low'
      ])

-- The state behind the steps of `vmm_create_page` for a page that has no frame.
abbrev filled : ℕ → ℕ → ℕ → Pmm → Space → Space
filled v flags raw pmm s =
    let s2 = zeroed (frame_of raw) (store_pte v raw pmm s) in
    store_pte v (page_set_flags (pte_of v s2) flags) s2.pmm s2

filled-Created :
    (v flags f : ℕ) (pmm : Pmm) (s s1 : Space)
    → Tabled v s s1
    → IsBelowTables v
    → IsPageFlags flags
    → present (pte_of v s1) ≡ 0
    → Taken s1 f pmm
    → Created v s (filled v flags (page_set_flags (set_frame (pte_of v s1) f) flags) pmm s1)
unfolding store_pte
filled-Created v flags f pmm s s1 tabled low ok_flags absent taken =
    let is = tabled.space in
    let raw = page_set_flags (set_frame (pte_of v s1) f) flags in
    let (there, frame) = new_entry (pte_of v s1) flags f ok_flags taken.small in
    let put : Put v raw s1 (store_pte v raw pmm s1) =
      store_pte-Put v raw pmm s1 is low tabled.there (Taken-Keeps f s1 pmm is taken) in
    let apart : Taken s1 (frame_of raw) pmm = subst (λ g. Taken s1 g pmm) (sym frame) taken in
    let tables : (i : ℕ) → i < 1023 → present (pde i s1) ≡ 1 → frame_of (pde i s1) ≢ frame_of raw =
      λ i lt p. Taken-apart s1 (frame_of raw) (frame_of (pde i s1)) pmm apart (is.taken i lt p) in
    let there1 : present (pde_of v (store_pte v raw pmm s1)) ≡ 1 =
      subst (λ x. present x ≡ 1) (sym (put.pdes (pd_entry v))) tabled.there in
    let z : Zeroed v (store_pte v raw pmm s1) (zeroed (frame_of raw) (store_pte v raw pmm s1)) =
      zeroed-Zeroed v (frame_of raw) (store_pte v raw pmm s1) put.space low there1
        (Taken-apart s1 (frame_of raw) s1.directory pmm apart is.root)
        (λ i lt p same.
          tables i lt (subst (λ x. present x ≡ 1) (put.pdes i) p)
            (ap frame_of (sym (put.pdes i)) ∙ same)) in
    let s2 = zeroed (frame_of raw) (store_pte v raw pmm s1) in
    let raw2 = page_set_flags (pte_of v s2) flags in
    let frame2 : frame_of raw2 ≡ f =
      frame_of-page_set_flags (pte_of v s2) flags ∙ ap frame_of (z.pte_same ∙ put.entry) ∙ frame in
    let put2 : Put v raw2 s2 (store_pte v raw2 s2.pmm s2) =
      store_pte-Put v raw2 s2.pmm s2 z.space low
        (subst (λ x. present x ≡ 1) (sym z.pde_same) there1) (Keeps-self s2 z.space) in
    let table : table_of v s2 ≡ table_of v s1 = ap frame_of (z.pde_same ∙ put.pdes (pd_entry v)) in
    let off : (present (pte_of v s1) == 0) ≡ true = ground (arith, absent) in
    new f put2.space
      (sym (tabled.same v low) ∙ translate-entry v (pte_of v s1) s1 tabled.there refl ∙ rw off refl)
      (Tabled-fresh v f s s1 tabled taken.fresh) taken.new
      (λ v' page.
        put2.here v' page
        ∙ entry_address-present v' raw2 f (present-page_set_flags (pte_of v s2) flags ok_flags.0)
            frame2)
      (λ v' low' ne.
        put2.others v' low' ne ∙ z.same v' low' ∙ put.others v' low' ne ∙ tabled.same v' low')
      (λ j.
        subst (λ g. store_word (table_of v s2) (pt_entry v) raw2 s2.memory g j ≡ 0) frame
          (store_word-elsewhere (table_of v s2) (pt_entry v) raw2 (frame_of raw) j s2.memory
              (inl (λ same. tables (pd_entry v) (omega arith) tabled.there (sym (same ∙ table))))
            ∙ zero_page-here (frame_of raw) j (store_pte v raw pmm s1).memory))

-- The page has no frame: it is given one, or none is left.
new_entry-CreateSpec :
    (v flags : ℕ) (s s1 : Space) (o : Outcome)
    → Tabled v s s1
    → IsBelowTables v
    → IsPageFlags flags
    → present (pte_of v s1) ≡ 0
    → allocate_frame s1.pmm ≡ o
    → CreateSpec v s (create_entry v flags s1)
unfolding create_entry page_allocate allocated
new_entry-CreateSpec v flags s s1 out_of_fuel tabled low ok_flags absent e =
    absurd (never_out_of_fuel s1 tabled.space e)
new_entry-CreateSpec v flags s s1 fatal tabled low ok_flags absent e =
    let no_large : size_bit (pde_of v s1) ≡ 0 = tabled.space.small (pd_entry v) (omega arith) in
    let small : (size_bit (pde_of v s1) == 1) ≡ false = ground (arith, no_large) in
    let off : (present (pte_of v s1) == 0) ≡ true = ground (arith, absent) in
    let nothing : translate v s ≡ none =
      sym (tabled.same v low)
      ∙ translate-entry v (pte_of v s1) s1 tabled.there refl
      ∙ rw off refl in
    rw small (rw off (rw e (nothing, inr (s1, tabled, e))))
new_entry-CreateSpec v flags s s1 (ok f pmm) tabled low ok_flags absent e =
    let no_large : size_bit (pde_of v s1) ≡ 0 = tabled.space.small (pd_entry v) (omega arith) in
    let small : (size_bit (pde_of v s1) == 1) ≡ false = ground (arith, no_large) in
    let off : (present (pte_of v s1) == 0) ≡ true = ground (arith, absent) in
    let taken = allocate_frame-Taken s1 f pmm tabled.space e in
    let (there, frame) = new_entry (pte_of v s1) flags f ok_flags taken.small in
    let on : (present (page_set_flags (set_frame (pte_of v s1) f) flags) == 0) ≡ false =
      ground (arith, there) in
    rw small (
      rw off
        (rw e (rw on (refl, filled-Created v flags f pmm s s1 tabled low ok_flags absent taken))))

create_entry-CreateSpec :
    (v flags : ℕ) (s s1 : Space)
    → Tabled v s s1
    → IsBelowTables v
    → IsPageFlags flags
    → CreateSpec v s (create_entry v flags s1)
unfolding create_entry
create_entry-CreateSpec v flags s s1 tabled low ok_flags =
    let no_large : size_bit (pde_of v s1) ≡ 0 = tabled.space.small (pd_entry v) (omega arith) in
    let small : (size_bit (pde_of v s1) == 1) ≡ false = ground (arith, no_large) in
    elim (Bool-cases (present (pte_of v s1) == 0)) [
      | inl off ↦
          new_entry-CreateSpec v flags s s1 (allocate_frame s1.pmm) tabled low ok_flags
            (ground (arith, off)) refl
      | inr on ↦
          rw small
            (rw on (refl, kept_entry-Created v flags s s1 tabled low ok_flags (ground (arith, on))))
    ]

-- Where the tables are in order, for an address below the tables and flags of a present page, a page
-- that is present keeps its frame. Any other, also one whose entry has a frame and is not present, is
-- given a frame that was free, which is set to zero. No other page changes, and the machine stops only
-- where a frame is needed and none is left.
pub create_page-CreateSpec :
    (v flags : ℕ) (s : Space)
    → IsSpace s
    → IsBelowTables v
    → IsPageFlags flags
    → CreateSpec v s (create_page v flags s)
unfolding create_page
create_page-CreateSpec v flags s is low ok_flags =
    by_table (setup_table v flags s) refl (setup_table-TableSpec v flags s is low ok_flags)
  where
    no_table : present (pde_of v s) ≡ 0 → translate v s ≡ none
    no_table absent =
        let off : (present (pde_of v s) == 0) ≡ true = ground (arith, absent) in rw off refl

    by_table :
        (o : Option Space)
        → setup_table v flags s ≡ o
        → TableSpec v s o
        → CreateSpec v s (create_page v flags s)
    by_table none e (full, absent) = rw e (no_table absent, inl full)
    by_table (some s1) e tabled = rw e (create_entry-CreateSpec v flags s s1 tabled low ok_flags)
