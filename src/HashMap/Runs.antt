-- ===== src/HashMap/Runs.antt =====
-- Whole sequences of calls of src/kernel/lib/hashmap.c against a finite map, and `hashmap_is_empty`.
use mathlib.Core.Path.{subst}
use mathlib.Core.Bool.{false≢true}
use hos.Base.{
  ℕ, zero, suc, ◌<◌, ◌%◌, ◌≡◌, ◌≢◌, refl, sym, ◌∙◌, Bool, true, false, if◌then◌else◌, List, [], ◌∷◌,
  Option, none, some, arith, Bool-cases, inl, inr, get_or, replicate, length-replicate, ◌↔◌,
}
use hos.HashMap.{
  Functions, Entry, HashMap, removed, create, slot, bucket, hashmap_set, hashmap_get, chain_has,
  hashmap_has, hashmap_remove, all_nil, hashmap_is_empty,
}
use hos.HashMap.Chain.{IsLawful, get_of_absent}
use hos.HashMap.Laws.{IsTable, content, hashmap_set-content, RemoveSpec, hashmap_remove-RemoveSpec}

-- What a caller reads back: 0 stands for an absent key as for a value NULL.
abbrev pub or_null : Option ℕ → ℕ
or_null none = 0
or_null (some v) = v

abbrev pub is_some : Option ℕ → Bool
is_some none = false
is_some (some v) = true

pub data Call (K : Type 0) : Type 0 where
  put : K → ℕ → Call K
  drop : K → Call K

module _ {K : Type 0} where
  -- The map that a sequence of calls describes, the last call first.
  abbrev pub expected : (K → K → Bool) → List (Call K) → K → Option ℕ
  expected comp [] j = none
  expected comp (put k v ∷ cs) j = if comp k j then some v else expected comp cs j
  expected comp (drop k ∷ cs) j = if comp k j then none else expected comp cs j

  -- The tables that a sequence of calls on an empty table leads to.
  pub data Leads (fs : Functions K) (size : ℕ) : List (Call K) → HashMap K → Type 0 where
    start : Leads fs size [] (create fs size)
    by_set :
        (cs : List (Call K)) (m : HashMap K) (k : K) (v : ℕ)
        → Leads fs size cs m
        → Leads fs size (put k v ∷ cs) (hashmap_set m k v).1
    by_remove :
        (cs : List (Call K)) (m n : HashMap K) (k : K) (out : ℕ) (freed : Option K)
        → Leads fs size cs m
        → hashmap_remove m k ≡ removed out freed n
        → Leads fs size (drop k ∷ cs) n

  get_or-replicate : (n i : ℕ) → get_or (replicate {A = List (Entry K)} n []) i [] ≡ []
  get_or-replicate zero i = refl
  get_or-replicate (suc n) zero = refl
  get_or-replicate (suc n) (suc i) = get_or-replicate n i

  empty_chain :
      (fs : Functions K) (size i : ℕ) (j : K)
      → chain_has fs j (get_or (replicate size []) i []) ≢ true
  unfolding chain_has
  empty_chain fs size i j = rw (get_or-replicate size i) (ground arith)

  pub IsTable-create :
      (fs : Functions K) (size : ℕ) → IsLawful fs → 0 < size → IsTable (create fs size)
  unfolding create chain_has
  IsTable-create fs size lawful pos = record {
    lawful = lawful;
    not_empty = pos;
    length_entries = length-replicate size [];
    distinct = λ i. rw (get_or-replicate size i) tt;
    placed = λ i j h. absurd (empty_chain fs size i j h);
  }

  content-create : (fs : Functions K) (size : ℕ) (j : K) → content (create fs size) j ≡ none
  unfolding create chain_has content hashmap_has
  content-create fs size j = rw (get_or-replicate size (fs.hash_func j % size)) refl

  if_congr :
      {fs gs : Functions K} {x y : Option ℕ} (f : Functions K → Bool) (v : Option ℕ)
      → fs ≡ gs
      → x ≡ y
      → (if f fs then v else x) ≡ (if f gs then v else y)
  if_congr f v e h = cc

  removal_case :
      (m n : HashMap K) (k : K) (out : ℕ) (freed : Option K)
      → IsTable m
      → hashmap_remove m k ≡ removed out freed n
      → RemoveSpec m k (removed out freed n)
  removal_case m n k out freed t runs =
      subst (RemoveSpec m k) runs (hashmap_remove-RemoveSpec m k t)

  Leads-content :
      (fs : Functions K) (size : ℕ) (cs : List (Call K)) (m : HashMap K)
      → IsLawful fs
      → 0 < size
      → Leads fs size cs m
      → IsTable m × (m.functions ≡ fs) × ((j : K) → content m j ≡ expected fs.hash_comp cs j)
  unfolding create hashmap_set
  Leads-content fs size cs m lawful pos start =
      (IsTable-create fs size lawful pos, refl, content-create fs size)
  Leads-content fs size cs m lawful pos (by_set cs' m' k v l) =
      let (t, same, stored) = Leads-content fs size cs' m' lawful pos l in
      let (t', out, stored') = hashmap_set-content m' k v t in
      (t', same, λ j. stored' j ∙ if_congr (λ g. g.hash_comp k j) (some v) same (stored j))
  Leads-content fs size cs m lawful pos (by_remove cs' m' n k out freed l runs) =
      let (t, same, stored) = Leads-content fs size cs' m' lawful pos l in
      let (t', same', out', stored') = removal_case m' n k out freed t runs in
      (t', same' ∙ same, λ j. stored' j ∙ if_congr (λ g. g.hash_comp k j) none same (stored j))

  nil_of_all_nil : (cs : List (List (Entry K))) (i : ℕ) → all_nil cs ≡ true → get_or cs i [] ≡ []
  unfolding all_nil
  nil_of_all_nil [] i h = refl
  nil_of_all_nil ([] ∷ cs) zero h = refl
  nil_of_all_nil ([] ∷ cs) (suc i) h = nil_of_all_nil cs i h
  nil_of_all_nil ((x ∷ xs) ∷ cs) i h = ground arith

  -- A table that is not empty has a chain with an entry at its front.
  entry_of_not_all_nil :
      (cs : List (List (Entry K)))
      → all_nil cs ≡ false
      → (i : ℕ) × (x : Entry K) × (xs : List (Entry K)) × (get_or cs i [] ≡ x ∷ xs)
  unfolding all_nil
  entry_of_not_all_nil [] h = ground arith
  entry_of_not_all_nil ([] ∷ cs) h =
      let (i, x, xs, e) = entry_of_not_all_nil cs h in (suc i, x, xs, e)
  entry_of_not_all_nil ((x ∷ xs) ∷ cs) h = (0, x, xs, refl)

  found_front :
      (m : HashMap K) (i : ℕ) (x : Entry K) (xs : List (Entry K))
      → IsTable m
      → get_or m.entries i [] ≡ x ∷ xs
      → hashmap_has m x.key ≡ true
  unfolding hashmap_has chain_has
  found_front m i x xs t e =
      let here : chain_has m.functions x.key (get_or m.entries i []) ≡ true =
        rw e (ground (arith, t.lawful.comp_refl x.key)) in
      rw (t.placed i x.key here) here

  none_iff : (m : HashMap K) (j : K) → (content m j ≡ none) ↔ (hashmap_has m j ≡ false)
  unfolding content
  none_iff m j = ground arith

  -- On a table that keeps the invariant `hashmap_is_empty` answers true exactly when nothing is
  -- stored under any key.
  pub hashmap_is_empty-content :
      (m : HashMap K) → IsTable m → (hashmap_is_empty m ≡ true) ↔ ((j : K) → content m j ≡ none)
  unfolding hashmap_is_empty hashmap_has chain_has
  hashmap_is_empty-content m t = (
    λ h j. (none_iff m j).1 (rw (nil_of_all_nil m.entries (slot m j) h) refl),
    λ h. elim (Bool-cases (all_nil m.entries)) [
      | inl empty ↦ empty
      | inr full ↦
          let (i, x, xs, e) = entry_of_not_all_nil m.entries full in
          absurd (false≢true (sym ((none_iff m x.key).0 (h x.key)) ∙ found_front m i x xs t e))
    ],
  )

  reads :
      (m : HashMap K) (j : K)
      → IsTable m
      → (hashmap_get m j ≡ or_null (content m j)) × (hashmap_has m j ≡ is_some (content m j))
  unfolding content hashmap_get hashmap_has
  reads m j t = elim (Bool-cases (chain_has m.functions j (bucket m j))) [
    | inl t ↦ rw t (refl, refl)
    | inr f ↦ rw f (get_of_absent m.functions t.lawful j (bucket m j) f, refl)
  ]

  -- For lawful functions and a size above 0, a table that a sequence of `hashmap_set` calls, and
  -- of `hashmap_remove` calls that return, leads to answers `hashmap_get` and `hashmap_has` as
  -- the map that the sequence describes.
  pub Leads-expected :
      (fs : Functions K) (size : ℕ) (cs : List (Call K)) (m : HashMap K) (j : K)
      → IsLawful fs
      → 0 < size
      → Leads fs size cs m
      → (hashmap_get m j ≡ or_null (expected fs.hash_comp cs j))
        × (hashmap_has m j ≡ is_some (expected fs.hash_comp cs j))
  Leads-expected fs size cs m j lawful pos l =
      let (t, same, stored) = Leads-content fs size cs m lawful pos l in
      rw (sym (stored j)) (reads m j t)
