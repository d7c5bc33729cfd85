-- ===== src/HashMap/Remove.antt =====
-- `hashmap_remove` of src/kernel/lib/hashmap.c on one chain.
use hos.Base.{
  ℕ, ◌≡◌, refl, ap, true, false, if◌then◌else◌, List, [], ◌∷◌, Option, none, some, arith,
  Bool-cases, inl, inr,
}
use hos.HashMap.{
  Functions, Entry, Removal, removed, fault, chain_get, chain_has, chain_remove, remove_behind,
  remove_rest, behind,
}
use hos.HashMap.Chain.{IsLawful, comp-congr, Distinct, chain_has-congr, get_of_absent}

module _ {K : Type 0} (fs : Functions K) (lawful : IsLawful fs) where
  -- What a removal that returns has done to a chain.
  pub record Removed (k : K) (xs : List (Entry K)) (out : ℕ) (ys : List (Entry K)) : Type 0 where
    pub value : out ≡ chain_get fs k xs
    pub gets : (j : K) → chain_get fs j ys ≡ (if fs.hash_comp k j then 0 else chain_get fs j xs)
    pub has : (j : K) → chain_has fs j ys ≡ (if fs.hash_comp k j then false else chain_has fs j xs)
    pub distinct : Distinct fs lawful ys

  abbrev pub RemovalSpec : K → List (Entry K) → Removal K (List (Entry K)) → Type 0
  RemovalSpec k xs (removed out freed ys) = Removed k xs out ys
  RemovalSpec k xs fault = (x : Entry K) × (xs ≡ x ∷ []) × (fs.hash_comp x.key k ≡ false)

  -- Taking the matching entry off the front.
  Removed-front :
      (k : K) (x : Entry K) (xs : List (Entry K))
      → fs.hash_comp x.key k ≡ true
      → Distinct fs lawful (x ∷ xs)
      → Removed k (x ∷ xs) x.value xs
  unfolding chain_get chain_has
  Removed-front k x xs same (apart, d) = record {
    value = rw same refl;
    gets = λ j. ground (
      arith,
      comp-congr fs lawful x.key k j same,
      get_of_absent fs lawful j xs,
      chain_has-congr fs lawful x.key j xs,
      apart,
    );
    has = λ j.
        ground
          (arith, comp-congr fs lawful x.key k j same, chain_has-congr fs lawful x.key j xs, apart);
    distinct = d;
  }

  Removed-behind :
      (k : K) (x : Entry K) (xs : List (Entry K)) (out : ℕ) (ys : List (Entry K))
      → fs.hash_comp x.key k ≡ false
      → chain_has fs x.key xs ≡ false
      → Removed k xs out ys
      → Removed k (x ∷ xs) out (x ∷ ys)
  unfolding chain_get chain_has
  Removed-behind k x xs out ys other apart r = record {
    value = rw other r.value;
    gets = λ j. ground (
      arith,
      r.gets j,
      comp-congr fs lawful k j x.key,
      lawful.comp_sym x.key k,
      lawful.comp_sym x.key j,
      other,
    );
    has = λ j. ground (
      arith,
      r.has j,
      comp-congr fs lawful k j x.key,
      lawful.comp_sym x.key k,
      lawful.comp_sym x.key j,
      other,
    );
    distinct = (ground (arith, r.has x.key, apart), r.distinct);
  }

  Removed-nil : (k : K) → Removed k [] 0 []
  unfolding chain_get chain_has
  Removed-nil k = record {
    value = refl;
    gets = λ j. ground arith;
    has = λ j. ground arith;
    distinct = tt;
  }

  -- From its second round on the loop always returns.
  remove_rest-Removed :
      (k : K) (xs : List (Entry K))
      → Distinct fs lawful xs
      → (out : ℕ) × (freed : Option K) × (ys : List (Entry K)) × (remove_rest fs k xs
          ≡ removed out freed ys)
        × Removed k xs out ys
  unfolding remove_rest
  remove_rest-Removed k [] d = (0, none, [], refl, Removed-nil k)
  remove_rest-Removed k (x ∷ xs) (apart, d) = elim (Bool-cases (fs.hash_comp x.key k)) [
    | inl same ↦ rw same (x.value, some x.key, xs, refl, Removed-front k x xs same (apart, d))
    | inr other ↦
        let (out, freed, ys, runs, r) = remove_rest-Removed k xs d in
        rw other
          (out, freed, x ∷ ys, ap (behind x) runs, Removed-behind k x xs out ys other apart r)
  ]

  pub chain_remove-RemovalSpec :
      (k : K) (xs : List (Entry K))
      → Distinct fs lawful xs
      → RemovalSpec k xs (chain_remove fs k xs)
  unfolding chain_remove remove_behind
  chain_remove-RemovalSpec k [] d = Removed-nil k
  chain_remove-RemovalSpec k (x ∷ []) (apart, d) = elim (Bool-cases (fs.hash_comp x.key k)) [
    | inl same ↦ rw same (Removed-front k x [] same (apart, d))
    | inr other ↦ rw other (x, refl, other)
  ]
  chain_remove-RemovalSpec k (x ∷ y ∷ xs) (apart, d) = elim (Bool-cases (fs.hash_comp x.key k)) [
    | inl same ↦ rw same (Removed-front k x (y ∷ xs) same (apart, d))
    | inr other ↦
        let (out, freed, ys, runs, r) = remove_rest-Removed k (y ∷ xs) d in
        rw other (rw runs (Removed-behind k x (y ∷ xs) out ys other apart r))
  ]
