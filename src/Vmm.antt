-- ===== src/Vmm.antt =====
-- The page tables of src/kernel/memory/vmm.c, on the frames of `Pmm`.
--
-- `memory` maps a frame and the index of a word in it to the word. The directory of the current
-- address space is in the frame `directory`; the code reaches it, and the tables, by addresses that
-- its last entry maps, so the table of an address is in the frame of its directory entry. `none`
-- stands for a machine that has stopped, for a page fault of the kernel, and for fuel that has run
-- out. `invlpg` and `dprintf` have no effect on the state.
pub mod Entries
pub mod Translation
pub mod Tables
pub mod Put
pub mod Pages
pub mod Create
pub mod Range
pub mod Lookup
mod Tests
use hos.Base.{
  ℕ, zero, suc, ◌+◌, ◌-◌, ◌*◌, ◌/◌, ◌%◌, ◌^◌, bit_and, bit_or, u32, Bool, true, false, ◌&&◌, ltb,
  leb, ◌==◌, if◌then◌else◌, Option, some, none, ◌>>=◌,
}
use hos.Pmm.{Pmm, Outcome, ok, fatal, out_of_fuel, allocate_frame, free_frame, frame_seta}

pub record Space : Type 0 where
  pub pmm : Pmm
  pub directory : ℕ
  pub memory : ℕ → ℕ → ℕ

-- The fields of `union PML`.
abbrev pub present : ℕ → ℕ
present raw = raw % 2

abbrev pub size_bit : ℕ → ℕ
size_bit raw = raw / 128 % 2

abbrev pub frame_of : ℕ → ℕ
frame_of raw = raw / 4096

pub set_frame : ℕ → ℕ → ℕ
set_frame raw frame = raw % 4096 + frame % 2 ^ 20 * 4096

-- `vmm_page_set_flags`
pub page_set_flags : ℕ → ℕ → ℕ
page_set_flags raw flags = bit_or raw (bit_and 4095 flags)

-- What `pmm_allocate_frame` gives, unless it stops the machine.
pub allocated : Outcome → Option (ℕ × Pmm)
allocated (ok frame pmm) = some (frame, pmm)
allocated fatal = none
allocated out_of_fuel = none

-- `vmm_page_allocate`
pub page_allocate : ℕ → ℕ → Pmm → Option (ℕ × Pmm)
page_allocate raw flags pmm =
    if present raw == 0
    then (allocated (allocate_frame pmm) >>= λ (index, pmm').
        some (page_set_flags (set_frame raw index) flags, pmm'))
    else some (page_set_flags raw flags, pmm)

-- `vmm_page_map_addr`
pub page_map_addr : ℕ → ℕ → ℕ → Pmm → ℕ × Pmm
page_map_addr raw flags phys_addr pmm =
    (page_set_flags (set_frame raw (phys_addr / 4096)) flags, frame_seta pmm phys_addr)

-- `vmm_pde_allocate`
pub pde_allocate : ℕ → ℕ → Pmm → Option (ℕ × Pmm)
pde_allocate raw flags pmm =
    if present raw == 0
    then (allocated (allocate_frame pmm) >>= λ (index, pmm').
        some (page_set_flags (set_frame raw index) flags, pmm'))
    else some (page_set_flags raw flags, pmm)

-- PDE_INDEX and PTE_INDEX
abbrev pub pd_entry : ℕ → ℕ
pd_entry virt_addr = virt_addr / 2 ^ 22 % 1024

abbrev pub pt_entry : ℕ → ℕ
pt_entry virt_addr = virt_addr / 2 ^ 12 % 1024

-- The directory entry of an address, the frame of its table, and its entry there.
abbrev pub pde_of : ℕ → Space → ℕ
pde_of virt_addr s = s.memory s.directory (pd_entry virt_addr)

abbrev pub table_of : ℕ → Space → ℕ
table_of virt_addr s = frame_of (pde_of virt_addr s)

abbrev pub pte_of : ℕ → Space → ℕ
pte_of virt_addr s = s.memory (table_of virt_addr s) (pt_entry virt_addr)

-- A word is stored; a page is set to 0.
pub store_word : ℕ → ℕ → ℕ → (ℕ → ℕ → ℕ) → ℕ → ℕ → ℕ
store_word frame index value memory f i = if (f == frame) && (i == index) then value else memory f i

pub zero_page : ℕ → (ℕ → ℕ → ℕ) → ℕ → ℕ → ℕ
zero_page frame memory f i = if f == frame then 0 else memory f i

-- The entry of an address is stored, with a new state of the frames.
pub store_pte : ℕ → ℕ → Pmm → Space → Space
store_pte virt_addr raw pmm s = record s {
  pmm = pmm;
  memory = store_word (table_of virt_addr s) (pt_entry virt_addr) raw s.memory;
}

-- The address of an entry, behind `PAGE_TABLE_BASE`.
abbrev pub pte_addr : ℕ → ℕ
pte_addr virt_addr = 2 ^ 32 - 2 ^ 22 + pd_entry virt_addr * 4096 + pt_entry virt_addr * 4

-- "Setup page table" of `vmm_create_page` and `vmm_map_page`.
pub setup_table : ℕ → ℕ → Space → Option Space
setup_table virt_addr flags s =
    if present (pde_of virt_addr s) == 0
    then (pde_allocate (pde_of virt_addr s) flags s.pmm >>= λ (raw, pmm').
        if present raw == 0
        then none
        else some (record s {
          pmm = pmm';
          memory =
              zero_page (frame_of raw) (store_word s.directory (pd_entry virt_addr) raw s.memory);
        }))
    else some s

-- `vmm_create_page` behind its first step: the entry's address, or 0 for NULL.
pub create_entry : ℕ → ℕ → Space → Option (ℕ × Space)
create_entry virt_addr flags s =
    if size_bit (pde_of virt_addr s) == 1
    then some (0, s)
    else if present (pte_of virt_addr s) == 0
    then (page_allocate (pte_of virt_addr s) flags s.pmm >>= λ (raw, pmm').
        if present raw == 0
        then none
        else (let s' = store_pte virt_addr raw pmm' s in
            let s2 : Space = record s' { memory = zero_page (frame_of raw) s'.memory } in
            some (
              pte_addr virt_addr,
              store_pte virt_addr (page_set_flags (pte_of virt_addr s2) flags) s2.pmm s2,
            )))
    else some (
      pte_addr virt_addr,
      store_pte virt_addr (page_set_flags (pte_of virt_addr s) flags) s.pmm s,
    )

-- `vmm_create_page`
pub create_page : ℕ → ℕ → Space → Option (ℕ × Space)
create_page virt_addr flags s =
    setup_table virt_addr flags s >>= λ s1. create_entry virt_addr flags s1

-- `vmm_get_page`
pub get_page : ℕ → Space → ℕ
get_page virt_addr s =
    if present (pde_of virt_addr s) == 0
    then 0
    else if size_bit (pde_of virt_addr s) == 1
    then 0
    else if present (pte_of virt_addr s) == 0
    then 0
    else pte_addr virt_addr

-- `vmm_map_page` behind its first step
pub map_entry : ℕ → ℕ → ℕ → Space → ℕ × Space
map_entry virt_addr phys_addr flags s =
    if size_bit (pde_of virt_addr s) == 1
    then (0, s)
    else (let (raw, pmm') = page_map_addr (pte_of virt_addr s) flags phys_addr s.pmm in
        (pte_addr virt_addr, store_pte virt_addr raw pmm' s))

-- `vmm_map_page`
pub map_page : ℕ → ℕ → ℕ → Space → Option (ℕ × Space)
map_page virt_addr phys_addr flags s =
    setup_table virt_addr flags s >>= λ s1. some (map_entry virt_addr phys_addr flags s1)

-- `vmm_unmap_page`
pub unmap_page : ℕ → Space → Space
unmap_page virt_addr s =
    if present (pde_of virt_addr s) == 0
    then s
    else if present (pte_of virt_addr s) == 0
    then s
    else store_pte virt_addr 0 s.pmm s

-- `vmm_free_page`
pub free_page : ℕ → Space → Space
free_page virt_addr s =
    if present (pde_of virt_addr s) == 0
    then s
    else if present (pte_of virt_addr s) == 0
    then s
    else store_pte virt_addr 0 (free_frame s.pmm (pte_of virt_addr s)) s

-- `vmm_r_get_phy_addr`, with a page fault where there is no table
pub get_phy_addr : ℕ → Space → Option ℕ
get_phy_addr virt_addr s =
    if present (pde_of virt_addr s) == 0
    then none
    else some (pte_of virt_addr s / 4096 * 4096 + virt_addr % 4096)

abbrev pub align_down : ℕ → ℕ
align_down addr = addr / 4096 * 4096

abbrev pub align_up : ℕ → ℕ
align_up addr = u32 (addr + 4095) / 4096 * 4096

-- The loop of `vmm_map_range`, with fuel.
pub map_loop : ℕ → ℕ → ℕ → ℕ → ℕ → Space → Option Space
map_loop zero start_addr end_addr phys_addr flags s = none
map_loop (suc fuel) start_addr end_addr phys_addr flags s = elim (ltb start_addr end_addr) [
  | false ↦ some s
  | true ↦ map_page start_addr phys_addr flags s >>= λ (page, s').
      map_loop fuel (u32 (start_addr + 4096)) end_addr (u32 (phys_addr + 4096)) flags s'
]

-- `vmm_map_range`
pub map_range : ℕ → ℕ → ℕ → ℕ → ℕ → Space → Option Space
map_range fuel virt_addr phys_addr size flags =
    map_loop fuel (align_down virt_addr) (align_up (u32 (virt_addr + size))) (align_down phys_addr)
      flags

-- The loop of `vmm_unmap_range`, with fuel.
pub unmap_loop : ℕ → ℕ → ℕ → Space → Option Space
unmap_loop zero start_addr end_addr s = none
unmap_loop (suc fuel) start_addr end_addr s = elim (ltb start_addr end_addr) [
  | false ↦ some s
  | true ↦ unmap_loop fuel (u32 (start_addr + 4096)) end_addr (unmap_page start_addr s)
]

-- `vmm_unmap_range`
pub unmap_range : ℕ → ℕ → ℕ → Space → Option Space
unmap_range fuel virt_addr size =
    unmap_loop fuel (align_up virt_addr) (align_down (u32 (virt_addr + size)))

-- The loop of `vmm_allocate_range`, with fuel.
pub create_loop : ℕ → ℕ → ℕ → ℕ → Space → Option Space
create_loop zero start_addr end_addr flags s = none
create_loop (suc fuel) start_addr end_addr flags s = elim (ltb start_addr end_addr) [
  | false ↦ some s
  | true ↦ create_page start_addr flags s >>= λ (page, s').
      create_loop fuel (u32 (start_addr + 4096)) end_addr flags s'
]

-- `vmm_allocate_range`
pub allocate_range : ℕ → ℕ → ℕ → ℕ → Space → Option Space
allocate_range fuel virt_addr size =
    create_loop fuel (align_down virt_addr) (align_up (u32 (virt_addr + size)))

-- The first loop of `vmm_deallocate_range`, with fuel.
pub free_loop : ℕ → ℕ → ℕ → Space → Option Space
free_loop zero start_addr end_addr s = none
free_loop (suc fuel) start_addr end_addr s = elim (ltb start_addr end_addr) [
  | false ↦ some s
  | true ↦ free_loop fuel (u32 (start_addr + 4096)) end_addr (free_page start_addr s)
]

-- The second loop of `vmm_deallocate_range`, with `left` rounds to go.
pub free_tables : ℕ → ℕ → Space → Space
free_tables zero pd_i s = s
free_tables (suc left) pd_i s =
    let raw = s.memory s.directory pd_i in
    if present raw == 0
    then free_tables left (pd_i + 1) s
    else free_tables left (pd_i + 1)
        (record s { pmm = free_frame s.pmm raw; memory = store_word s.directory pd_i 0 s.memory })

-- `vmm_deallocate_range`
pub deallocate_range : ℕ → ℕ → ℕ → Space → Option Space
deallocate_range fuel virt_addr size s =
    free_loop fuel (align_up virt_addr) (align_down (u32 (virt_addr + size))) s >>= λ s'.
    some (free_tables (size / 2 ^ 20) (align_up virt_addr / 2 ^ 20 % 1024) s')
