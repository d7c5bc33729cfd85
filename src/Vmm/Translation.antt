-- ===== src/Vmm/Translation.antt =====
-- Which physical address an address stands for, by the page tables of src/kernel/memory/vmm.c, and when the
-- tables are in order.
use hos.Base.{
  ℕ, ◌+◌, ◌*◌, ◌%◌, ◌^◌, ◌<◌, ◌≤◌, ◌≡◌, ◌≢◌, refl, inl, inr, true, ◌==◌, if◌then◌else◌, arith,
  Bool-cases, Option, some, none,
}
use hos.Pmm.{frame_test}
use hos.Pmm.Alloc.{IsReady}
use hos.Vmm.{Space, present, size_bit, frame_of, pde_of, pte_of}

-- The address behind an entry.
abbrev pub entry_address : ℕ → ℕ → Option ℕ
entry_address virt_addr raw =
    if present raw == 0 then none else some (frame_of raw * 4096 + virt_addr % 4096)

-- What the processor makes of an address, with pages of 4 KiB.
abbrev pub translate : ℕ → Space → Option ℕ
translate virt_addr s =
    if present (pde_of virt_addr s) == 0 then none else entry_address virt_addr (pte_of virt_addr s)

-- The directory entry `i`, and that it has a table.
abbrev pub pde : ℕ → Space → ℕ
pde i s = s.memory s.directory i

-- The tables are in frames that are taken, each in its own and none in that of the directory, and no
-- entry but the last has the bit for a page of 4 MiB.
pub record IsSpace (s : Space) : Type 0 where
  pub ready : IsReady s.pmm
  pub few : s.pmm.max_frames ≤ 2 ^ 20
  pub root : frame_test s.pmm s.directory ≡ true
  pub taken :
      (i : ℕ) → i < 1023 → present (pde i s) ≡ 1 → frame_test s.pmm (frame_of (pde i s)) ≡ true
  pub below : (i : ℕ) → i < 1023 → present (pde i s) ≡ 1 → frame_of (pde i s) ≢ s.directory
  pub small : (i : ℕ) → i < 1023 → size_bit (pde i s) ≡ 0
  pub distinct :
      (i j : ℕ)
      → i < 1023
      → j < 1023
      → i ≢ j
      → present (pde i s) ≡ 1
      → present (pde j s) ≡ 1
      → frame_of (pde i s) ≢ frame_of (pde j s)

-- The addresses below those of the tables themselves.
abbrev pub IsBelowTables : ℕ → Type 0
IsBelowTables virt_addr = virt_addr < 1023 * 2 ^ 22

-- The same entries stand for the same address.
pub translate-same :
    (v : ℕ) (s s' : Space)
    → pde_of v s' ≡ pde_of v s
    → ((present (pde_of v s) ≡ 1) → pte_of v s' ≡ pte_of v s)
    → translate v s' ≡ translate v s
translate-same v s s' dir word = elim (Bool-cases (present (pde_of v s) == 0)) [
  | inl absent ↦ rw dir (rw absent refl)
  | inr there ↦ let same = word (ground (arith, there)) in rw dir (rw there (rw same refl))
]
