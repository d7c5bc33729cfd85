-- ===== src/ListHead/Tests.antt =====
-- Runs of the lists of include/kernel/list_head.h at concrete inputs.
use hos.Base.{◌≡◌, refl, ◌==◌, if◌then◌else◌, [], ◌∷◌, arith, some}
use hos.ListHead.{Links, list_head_size, remove_entry, list_head_append}
use hos.ListHead.Chain.{Ring}
use hos.ListHead.Remove.{Removed, remove_entry-Removed}
use hos.ListHead.Size.{list_head_size-length}
use hos.ListHead.Append.{AreApart, list_head_append-Ring}

-- The list at 16 has the entries 32 and 48, that at 80 the entry 96.
abbrev two_lists : Links
two_lists = record {
  next = λ q.
      if q == 16
      then 32
      else if q == 32
      then 48
      else if q == 48
      then 16
      else if q == 80
      then 96
      else 80;
  prev = λ q.
      if q == 16
      then 48
      else if q == 32
      then 16
      else if q == 48
      then 32
      else if q == 80
      then 96
      else 80;
}

list_16 : Ring two_lists 16 (32 ∷ 48 ∷ [])
list_16 = (((refl, refl), ((refl, refl), (refl, refl))), (refl, (refl, (refl, tt))))

list_80 : Ring two_lists 80 (96 ∷ [])
list_80 = (((refl, refl), (refl, refl)), (refl, (refl, tt)))

remove_entry-Removed_example : Removed 48 16 (32 ∷ []) [] two_lists (remove_entry 48 two_lists)
remove_entry-Removed_example = remove_entry-Removed 48 16 (32 ∷ []) [] two_lists list_16

lists_apart : AreApart 16 (32 ∷ 48 ∷ []) 80 (96 ∷ [])
lists_apart q m = ground (arith, m)

list_head_append-Ring_example :
    Ring (list_head_append 16 80 two_lists) 16 (32 ∷ 48 ∷ 96 ∷ [])
    × Ring (list_head_append 16 80 two_lists) 80 []
list_head_append-Ring_example =
    list_head_append-Ring 16 32 (48 ∷ []) 80 96 [] two_lists list_16 list_80 lists_apart

list_head_size-length_example : list_head_size 3 16 two_lists ≡ some 2
list_head_size-length_example =
    list_head_size-length 3 16 (32 ∷ 48 ∷ []) two_lists list_16 (omega arith) (omega arith)
