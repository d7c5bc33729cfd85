-- ===== src/HashMap/Tests.antt =====
-- Runs of the hash table on small tables, and its theorems at such tables.
use hos.Base.{ℕ, ◌≡◌, refl, arith, List, [], ◌∷◌, some, if◌then◌else◌}
use hos.HashMap.{
  HashMap, fault, create, hashmap_set, hashmap_get, hashmap_has, hashmap_remove, chain_set,
  chain_get, chain_remove, remove_behind,
}
use hos.HashMap.Laws.{IsTable, content, hashmap_set-content, RemoveSpec, hashmap_remove-RemoveSpec}
use hos.HashMap.Runs.{
  put, start, by_set, expected, IsTable-create, Leads-expected, or_null, is_some,
}
use hos.HashMap.Keys.{
  int_functions, int_functions-IsLawful, int_hash, int_comp, do_not_duplicate, str_hash, hash_loop,
  sdbm,
}

abbrev empty : HashMap ℕ
empty = create int_functions 4

abbrev one : HashMap ℕ
one = (hashmap_set empty 3 10).1

abbrev two : HashMap ℕ
two = (hashmap_set one 7 20).1

-- "ab" and "abc"
abbrev ab : List ℕ
ab = 97 ∷ 98 ∷ []

abbrev abc : List ℕ
abc = 97 ∷ 98 ∷ 99 ∷ []

get_test : hashmap_get two 7 ≡ 20
unfolding create hashmap_set hashmap_get chain_set chain_get int_functions int_hash int_comp
    do_not_duplicate
get_test = refl

-- A key that shares its chain with one other entry, and is not there, makes a removal fault.
fault_test : hashmap_remove one 7 ≡ fault
unfolding create hashmap_set chain_set hashmap_remove chain_remove remove_behind int_functions
    int_hash int_comp do_not_duplicate
fault_test = refl

str_hash_test : str_hash ab ≡ 6363201
unfolding str_hash hash_loop sdbm
str_hash_test = refl

one-IsTable : IsTable one
one-IsTable =
    (hashmap_set-content empty 3 10
      (IsTable-create int_functions 4 int_functions-IsLawful (omega arith))).0

two-IsTable : IsTable two
two-IsTable = (hashmap_set-content one 7 20 one-IsTable).0

hashmap_set-content_example :
    IsTable two
    × ((hashmap_set one 7 20).0 ≡ hashmap_get one 7)
    × ((j : ℕ) → content two j ≡ (if one.functions.hash_comp 7 j then some 20 else content one j))
hashmap_set-content_example = hashmap_set-content one 7 20 one-IsTable

hashmap_remove-RemoveSpec_example : RemoveSpec two 7 (hashmap_remove two 7)
hashmap_remove-RemoveSpec_example = hashmap_remove-RemoveSpec two 7 two-IsTable

Leads-expected_example :
    (hashmap_get two 7 ≡ or_null (expected int_functions.hash_comp (put 7 20 ∷ put 3 10 ∷ []) 7))
    × (hashmap_has two 7 ≡ is_some (expected int_functions.hash_comp (put 7 20 ∷ put 3 10 ∷ []) 7))
Leads-expected_example =
    Leads-expected int_functions 4 (put 7 20 ∷ put 3 10 ∷ []) two 7 int_functions-IsLawful
      (omega arith) (by_set (put 3 10 ∷ []) one 7 20 (by_set [] empty 3 10 start))
