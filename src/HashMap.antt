-- ===== src/HashMap.antt =====
-- The chained hash table of src/kernel/lib/hashmap.c.
--
-- A chain of `hashmap_entry_t` is the list of its entries; the table owns them, so no pointer to an
-- entry is shared. Values are `void *`: a number, 0 for NULL. The functions of the table are C function
-- pointers, the record `Functions`. `kmalloc` is taken to succeed, as the code does.
pub mod Chain
pub mod Remove
pub mod Laws
pub mod Runs
pub mod Keys
mod Tests
use hos.Base.{
  ℕ, zero, suc, ◌+◌, ◌%◌, ◌≡◌, Bool, true, false, ◌&&◌, if◌then◌else◌, List, [], ◌∷◌, ◌++◌, Option,
  none, some, get_or, set, replicate, length,
}

-- `hashmap_hash_t`, `hashmap_comp_t` and `hashmap_dupe_t`; `hashmap_free_t` gives memory back, and
-- what is given to it is part of a result.
pub record Functions (K : Type 0) : Type 0 where
  pub hash_func : K → ℕ
  pub hash_comp : K → K → Bool
  pub hash_key_dup : K → K

pub record Entry (K : Type 0) : Type 0 where
  pub key : K
  pub value : ℕ

pub record HashMap (K : Type 0) : Type 0 where
  pub functions : Functions K
  pub size : ℕ
  pub entries : List (List (Entry K))

-- The outcome of a removal: the value, the key that is freed, if any, and what is left. `fault` is
-- a read through NULL.
pub data Removal (K A : Type 0) : Type 0 where
  removed : ℕ → Option K → A → Removal K A
  fault : Removal K A

module _ {K : Type 0} where
  pub create : Functions K → ℕ → HashMap K
  create fs size = record { functions = fs; size = size; entries = replicate size [] }

  -- `map->hash_func(key) % map->size`
  abbrev pub slot : HashMap K → K → ℕ
  slot m k = m.functions.hash_func k % m.size

  abbrev pub bucket : HashMap K → K → List (Entry K)
  bucket m k = get_or m.entries (slot m k) []

  -- The walk of `hashmap_set` down a chain: a value is replaced, or an entry put at the end.
  pub chain_set : Functions K → K → ℕ → List (Entry K) → ℕ × List (Entry K)
  chain_set fs k v [] = (0, record { key = fs.hash_key_dup k; value = v } ∷ [])
  chain_set fs k v (x ∷ xs) =
      let (out, rest) = chain_set fs k v xs in
      if fs.hash_comp x.key k then (x.value, record x { value = v } ∷ xs) else (out, x ∷ rest)

  pub hashmap_set : HashMap K → K → ℕ → ℕ × HashMap K
  hashmap_set m k v =
      let (out, chain) = chain_set m.functions k v (bucket m k) in
      (out, record m { entries = set m.entries (slot m k) chain })

  pub chain_get : Functions K → K → List (Entry K) → ℕ
  chain_get fs k [] = 0
  chain_get fs k (x ∷ xs) = if fs.hash_comp x.key k then x.value else chain_get fs k xs

  pub hashmap_get : HashMap K → K → ℕ
  hashmap_get m k = chain_get m.functions k (bucket m k)

  pub chain_has : Functions K → K → List (Entry K) → Bool
  chain_has fs k [] = false
  chain_has fs k (x ∷ xs) = if fs.hash_comp x.key k then true else chain_has fs k xs

  pub hashmap_has : HashMap K → K → Bool
  hashmap_has m k = chain_has m.functions k (bucket m k)

  abbrev behind : Entry K → Removal K (List (Entry K)) → Removal K (List (Entry K))
  behind p (removed out freed rest) = removed out freed (p ∷ rest)
  behind p fault = fault

  -- The `do` loop of `hashmap_remove` from its second round on, at the entries behind `p`.
  pub remove_rest : Functions K → K → List (Entry K) → Removal K (List (Entry K))
  remove_rest fs k [] = removed 0 none []
  remove_rest fs k (x ∷ xs) =
      if fs.hash_comp x.key k
      then removed x.value (some x.key) xs
      else behind x (remove_rest fs k xs)

  -- Its first round reads `x->key` with no test of `x`.
  pub remove_behind : Functions K → K → List (Entry K) → Removal K (List (Entry K))
  remove_behind fs k [] = fault
  remove_behind fs k (x ∷ xs) = remove_rest fs k (x ∷ xs)

  pub chain_remove : Functions K → K → List (Entry K) → Removal K (List (Entry K))
  chain_remove fs k [] = removed 0 none []
  chain_remove fs k (x ∷ xs) =
      if fs.hash_comp x.key k
      then removed x.value (some x.key) xs
      else behind x (remove_behind fs k xs)

  abbrev put_back : HashMap K → ℕ → Removal K (List (Entry K)) → Removal K (HashMap K)
  put_back m i (removed out freed chain) =
      removed out freed (record m { entries = set m.entries i chain })
  put_back m i fault = fault

  pub hashmap_remove : HashMap K → K → Removal K (HashMap K)
  hashmap_remove m k = put_back m (slot m k) (chain_remove m.functions k (bucket m k))

  abbrev is_nil : List (Entry K) → Bool
  is_nil [] = true
  is_nil (x ∷ xs) = false

  pub all_nil : List (List (Entry K)) → Bool
  all_nil [] = true
  all_nil (c ∷ cs) = is_nil c && all_nil cs

  pub hashmap_is_empty : HashMap K → Bool
  unfolding all_nil
  hashmap_is_empty m = all_nil m.entries
