-- ===== src/Vmm/Tests.antt =====
-- Runs of the page tables of src/kernel/memory/vmm.c at concrete inputs.
use hos.Base.{ℕ, ◌+◌, ◌*◌, ◌^◌, ◌≡◌, refl, ◌==◌, ◌&&◌, if◌then◌else◌, arith, Option, some, none}
use hos.Pmm.{Pmm, frame_test}
use hos.Pmm.Alloc.{IsReady}
use hos.Vmm.{
  Space, present, frame_of, pde_of, pte_of, map_page, unmap_page, create_page, free_page, map_range,
  unmap_range, deallocate_range, align_down, align_up, zero_page, store_word,
}
use hos.Vmm.Translation.{translate, pde, IsSpace}
use hos.Vmm.Pages.{MapSpec, map_page-MapSpec, IsPageFrame, Freed, free_page-Freed}
use hos.Vmm.Create.{CreateSpec, create_page-CreateSpec}
use hos.Vmm.Range.{RangeSpec, map_range-RangeSpec}
use hos.Vmm.Lookup.{LookupSpec, get_page-LookupSpec, UnmappedRange, unmap_range-UnmappedRange}

-- Frames 0 to 3 are taken: frame 1 has the directory, whose entry 5 is for the table in frame 2, which
-- has the page in frame 3 as its entry 7.
abbrev frames : Pmm
frames = record {
  memsize = 0x40000;
  frames_bitmap = λ i. if i == 0 then 15 else 0;
  max_frames = 64;
  used_frames = 4;
  frames_bitmap_size = 8;
  lowest_available = 0;
}

abbrev one_table : Space
one_table = record {
  pmm = frames;
  directory = 1;
  memory = λ f i.
      if (f == 1) && (i == 5)
      then 2 * 4096 + 3
      else if (f == 2) && (i == 7)
      then 3 * 4096 + 3
      else 0;
}

-- The address of the page, and of one that needs a table.
abbrev page : ℕ
page = 5 * 2 ^ 22 + 7 * 4096

abbrev other_page : ℕ
other_page = 9 * 2 ^ 22 + 4096

frames-IsReady : IsReady frames
unfolding frame_test
frames-IsReady = record {
  words = λ i. ground arith;
  reserved = refl;
  small = omega arith;
  counts = omega arith;
}

-- Only the entry 5 has a table.
only_entry : (i : ℕ) → present (pde i one_table) ≡ 1 → i ≡ 5
only_entry i there = ground (arith, there)

one_table-IsSpace : IsSpace one_table
unfolding frame_test
one_table-IsSpace = record {
  ready = frames-IsReady;
  few = omega arith;
  root = refl;
  taken = λ i lt there. rw (only_entry i there) refl;
  below = λ i lt there. rw (only_entry i there) (λ e. absurd (omega (arith, e)));
  small = λ i lt. ground arith;
  distinct = λ i j lt lt' ne there there'.
      absurd (omega (arith, only_entry i there, only_entry j there', ne));
}

map_page-MapSpec_example :
    MapSpec other_page 0x5000 one_table (map_page other_page 0x5000 3 one_table)
map_page-MapSpec_example =
    map_page-MapSpec other_page 0x5000 3 one_table one_table-IsSpace (omega arith) (omega arith)
      (refl, refl)

create_page-CreateSpec_example :
    CreateSpec other_page one_table (create_page other_page 3 one_table)
create_page-CreateSpec_example =
    create_page-CreateSpec other_page 3 one_table one_table-IsSpace (omega arith) (refl, refl)

page_frame : IsPageFrame 3 one_table
page_frame = record {
  nonzero = λ e. absurd (omega (arith, e));
  root = λ e. absurd (omega (arith, e));
  tables = λ i lt there. rw (only_entry i there) (λ e. absurd (omega (arith, e)));
}

free_page-Freed_example : Freed page one_table (free_page page one_table)
free_page-Freed_example = free_page-Freed page one_table one_table-IsSpace (omega arith) page_frame

map_range-RangeSpec_example :
    RangeSpec 0x400000 0x403000 0x8000 one_table (map_range 9 0x400000 0x8010 0x2345 3 one_table)
map_range-RangeSpec_example =
    map_range-RangeSpec 9 0x400000 0x8010 0x2345 3 one_table one_table-IsSpace (omega arith)
      (omega arith) (omega arith) (refl, refl)

get_page-LookupSpec_example : LookupSpec page one_table (translate page one_table)
get_page-LookupSpec_example = get_page-LookupSpec page one_table one_table-IsSpace (omega arith)

unmap_range-UnmappedRange_example :
    (s' : Space) × (unmap_range 9 page 0x2000 one_table ≡ some s')
    × UnmappedRange page (page + 0x2000) one_table s'
unmap_range-UnmappedRange_example =
    unmap_range-UnmappedRange 9 page 0x2000 one_table one_table-IsSpace (omega arith) (omega arith)

-- Freeing 4 MiB from 0x400000 on, which is entry 1, frees the table of entry 5: the loop takes the
-- index of a directory entry to be the address divided by 1 MiB.
abbrev tables_of : Option Space → ℕ
tables_of none = 0
tables_of (some s) = present (pde 5 s)

deallocate_range_wrong_table :
    (tables_of (some one_table) ≡ 1)
    × (tables_of (deallocate_range 1100 0x400000 0x400000 one_table) ≡ 0)
unfolding deallocate_range hos.Vmm.free_loop hos.Vmm.free_tables free_page store_word
deallocate_range_wrong_table = (refl, refl)
