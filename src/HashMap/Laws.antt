-- ===== src/HashMap/Laws.antt =====
-- The operations of src/kernel/lib/hashmap.c on a whole table, against a map from keys to values.
use hos.Base.{
  ℕ, ◌<◌, ◌%◌, ◌≡◌, ◌≢◌, refl, ap, sym, ◌∙◌, Bool, true, false, if◌then◌else◌, List, [], ◌∷◌,
  Option, none, some, arith, Bool-cases, Nat-cases, ◌⊎◌, inl, inr, length, get_or, set, length-set,
  get_or-set_self, get_or-set_ne,
}
use hos.HashMap.{
  Entry, HashMap, Removal, removed, fault, slot, bucket, chain_set, hashmap_set, chain_get,
  hashmap_get, chain_has, hashmap_has, chain_remove, hashmap_remove, put_back,
}
use hos.HashMap.Chain.{
  IsLawful, Distinct, chain_get-chain_set, chain_has-chain_set, out-chain_set, chain_set-Distinct,
}
use hos.HashMap.Remove.{RemovalSpec, chain_remove-RemovalSpec}

-- The invariant: a key is found in no chain but its own, and in that once.
pub record IsTable {K : Type 0} (m : HashMap K) : Type 0 where
  pub lawful : IsLawful m.functions
  pub not_empty : 0 < m.size
  pub length_entries : length m.entries ≡ m.size
  pub distinct : (i : ℕ) → Distinct m.functions lawful (get_or m.entries i [])
  pub placed :
      (i : ℕ) (j : K)
      → chain_has m.functions j (get_or m.entries i []) ≡ true
      → m.functions.hash_func j % m.size ≡ i

true_of_if : (c x y : Bool) → x ≡ (if c then true else y) → x ≡ true → (c ≡ true) ⊎ (y ≡ true)
true_of_if true x y e h = inl refl
true_of_if false x y e h = inr (sym e ∙ h)

true_under_if : (c x y : Bool) → x ≡ (if c then false else y) → x ≡ true → y ≡ true
true_under_if c x y e h = ground arith

module _ {K : Type 0} where
  -- What a table stores under a key.
  unfoldable pub content : HashMap K → K → Option ℕ
  unfolding hashmap_has hashmap_get
  content m j = if hashmap_has m j then some (hashmap_get m j) else none

  abbrev with_chain : HashMap K → ℕ → List (Entry K) → HashMap K
  with_chain m i c = record m { entries = set m.entries i c }

  slot-lt : (m : HashMap K) (k : K) → IsTable m → slot m k < length m.entries
  slot-lt m k t = let pos = t.not_empty in let le = t.length_entries in omega arith

  chain_same :
      (m : HashMap K) (k : K) (c : List (Entry K)) (i : ℕ)
      → IsTable m
      → slot m k ≡ i
      → get_or (set m.entries (slot m k) c) i [] ≡ c
  chain_same m k c i t e = rw (sym e) (get_or-set_self m.entries (slot m k) c [] (slot-lt m k t))

  chain_other :
      (m : HashMap K) (k : K) (c : List (Entry K)) (i : ℕ)
      → slot m k ≢ i
      → get_or (set m.entries (slot m k) c) i [] ≡ get_or m.entries i []
  chain_other m k c i ne = get_or-set_ne m.entries (slot m k) i c [] ne

  -- A chain is written to the slot of `k`, and finds no key that it did not find before but those
  -- equal to `k`.
  IsTable-with_chain :
      (m : HashMap K) (k : K) (c : List (Entry K)) (t : IsTable m)
      → Distinct m.functions t.lawful c
      → ((j : K)
          → chain_has m.functions j c ≡ true
          → (m.functions.hash_comp k j ≡ true) ⊎ (chain_has m.functions j (bucket m k) ≡ true))
      → IsTable (with_chain m (slot m k) c)
  IsTable-with_chain m k c t d has = record {
    lawful = t.lawful;
    not_empty = t.not_empty;
    length_entries = length-set m.entries (slot m k) c ∙ t.length_entries;
    distinct = λ i. elim (Nat-cases (slot m k) i) [
      | inl same ↦ rw (chain_same m k c i t same) d
      | inr other ↦ rw (chain_other m k c i other) (t.distinct i)
    ];
    placed = λ i j h. elim (Nat-cases (slot m k) i) [
      | inl same ↦
          elim (has j (ap (chain_has m.functions j) (sym (chain_same m k c i t same)) ∙ h)) [
            | inl eq ↦ ap (λ n. n % m.size) (sym (t.lawful.hash_eq k j eq)) ∙ same
            | inr old ↦ t.placed (slot m k) j old ∙ same
          ]
      | inr other ↦
          t.placed i j (ap (chain_has m.functions j) (sym (chain_other m k c i other)) ∙ h)
    ];
  }

  -- A new chain that agrees with the old one but for keys equal to `k`, where it says `o`.
  content-with_chain :
      (m : HashMap K) (k : K) (c : List (Entry K)) (v : ℕ) (b : Bool)
      → IsTable m
      → ((j : K)
          → chain_get m.functions j c
            ≡ (if m.functions.hash_comp k j then v else chain_get m.functions j (bucket m k)))
      → ((j : K)
          → chain_has m.functions j c
            ≡ (if m.functions.hash_comp k j then b else chain_has m.functions j (bucket m k)))
      → (j : K)
      → content (with_chain m (slot m k) c) j
        ≡ (if m.functions.hash_comp k j then (if b then some v else none) else content m j)
  unfolding content hashmap_has hashmap_get
  content-with_chain m k c v b t gets has j = elim (Nat-cases (slot m k) (slot m j)) [
    | inl same ↦ rw (chain_same m k c (slot m j) t same) (rw (gets j) (rw (has j) (ground arith)))
    | inr other ↦
        rw (chain_other m k c (slot m j) other) (elim (Bool-cases (m.functions.hash_comp k j)) [
          | inl eq ↦ absurd (other (ap (λ n. n % m.size) (t.lawful.hash_eq k j eq)))
          | inr f ↦ rw f refl
        ])
  ]

  -- On a table that keeps the invariant `hashmap_set` keeps it, and returns what `hashmap_get` gave: the
  -- old value of a key that is stored, and else NULL. The value is then stored under the keys equal to
  -- `k`, an old value overwritten, and no other key changes.
  pub hashmap_set-content :
      (m : HashMap K) (k : K) (v : ℕ)
      → IsTable m
      → IsTable (hashmap_set m k v).1
        × ((hashmap_set m k v).0 ≡ hashmap_get m k)
        × ((j : K)
            → content (hashmap_set m k v).1 j
              ≡ (if m.functions.hash_comp k j then some v else content m j))
  unfolding hashmap_set hashmap_get
  hashmap_set-content m k v t =
      let fs = m.functions in
      let has = λ (j : K). chain_has-chain_set fs t.lawful k j v (bucket m k) in
      (
        IsTable-with_chain m k (chain_set fs k v (bucket m k)).1 t
            (chain_set-Distinct fs t.lawful k v (bucket m k) (t.distinct (slot m k)))
            (λ j h.
              true_of_if (fs.hash_comp k j) (chain_has fs j (chain_set fs k v (bucket m k)).1)
                (chain_has fs j (bucket m k)) (has j) h),
        out-chain_set fs t.lawful k v (bucket m k),
        content-with_chain m k (chain_set fs k v (bucket m k)).1 v true t
            (λ j. chain_get-chain_set fs t.lawful k j v (bucket m k)) has,
      )

  -- What a removal does to a table that it returns, and where it reads through NULL.
  abbrev pub RemoveSpec : HashMap K → K → Removal K (HashMap K) → Type 0
  RemoveSpec m k (removed out freed n) =
      IsTable n
      × (n.functions ≡ m.functions)
      × (out ≡ hashmap_get m k)
      × ((j : K) → content n j ≡ (if m.functions.hash_comp k j then none else content m j))
  RemoveSpec m k fault =
      (x : Entry K) × (bucket m k ≡ x ∷ []) × (m.functions.hash_comp x.key k ≡ false)

  put_back-RemoveSpec :
      (m : HashMap K) (k : K) (r : Removal K (List (Entry K))) (t : IsTable m)
      → RemovalSpec m.functions t.lawful k (bucket m k) r
      → RemoveSpec m k (put_back m (slot m k) r)
  unfolding hashmap_get
  put_back-RemoveSpec m k fault t r = r
  put_back-RemoveSpec m k (removed out freed c) t r = (
    IsTable-with_chain m k c t r.distinct (λ j h. inr (
        true_under_if (m.functions.hash_comp k j) (chain_has m.functions j c)
          (chain_has m.functions j (bucket m k)) (r.has j) h)),
    refl,
    r.value,
    content-with_chain m k c 0 false t r.gets r.has,
  )

  -- On a table that keeps the invariant `hashmap_remove` returns what was stored under the key,
  -- keeps the invariant and forgets the keys equal to `k` and no other; or it reads through
  -- NULL, and then the chain of `k` is one entry with another key.
  pub hashmap_remove-RemoveSpec :
      (m : HashMap K) (k : K) → IsTable m → RemoveSpec m k (hashmap_remove m k)
  unfolding hashmap_remove
  hashmap_remove-RemoveSpec m k t =
      put_back-RemoveSpec m k (chain_remove m.functions k (bucket m k)) t
        (chain_remove-RemovalSpec m.functions t.lawful k (bucket m k) (t.distinct (slot m k)))
