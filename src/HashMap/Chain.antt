-- ===== src/HashMap/Chain.antt =====
-- One chain of the table as a map from keys to values.
use hos.Base.{
  ℕ, ◌≡◌, refl, sym, ◌∙◌, true, false, if◌then◌else◌, List, [], ◌∷◌, arith, Bool-cases, inl, inr,
}
use hos.HashMap.{Functions, Entry, chain_set, chain_get, chain_has}

-- What the table needs of its functions: the comparison is an equivalence, equal keys have one hash,
-- and a copied key equals the key.
pub record IsLawful {K : Type 0} (fs : Functions K) : Type 0 where
  pub comp_refl : (a : K) → fs.hash_comp a a ≡ true
  pub comp_sym : (a b : K) → fs.hash_comp a b ≡ fs.hash_comp b a
  pub comp_trans :
      (a b c : K) → fs.hash_comp a b ≡ true → fs.hash_comp b c ≡ true → fs.hash_comp a c ≡ true
  pub hash_eq : (a b : K) → fs.hash_comp a b ≡ true → fs.hash_func a ≡ fs.hash_func b
  pub dup_eq : (k : K) → fs.hash_comp (fs.hash_key_dup k) k ≡ true

module _ {K : Type 0} (fs : Functions K) (lawful : IsLawful fs) where
  -- Equal keys compare alike.
  pub comp-congr : (a b c : K) → fs.hash_comp a b ≡ true → fs.hash_comp a c ≡ fs.hash_comp b c
  comp-congr a b c e = elim (Bool-cases (fs.hash_comp b c)) [
    | inl t ↦ lawful.comp_trans a b c e t ∙ sym t
    | inr f ↦ elim (Bool-cases (fs.hash_comp a c)) [
      | inr f' ↦ f' ∙ sym f
      | inl t ↦ cc (lawful.comp_trans b a c (lawful.comp_sym b a ∙ e) t)
    ]
  ]

  pub chain_get-chain_set :
      (k j : K) (v : ℕ) (xs : List (Entry K))
      → chain_get fs j (chain_set fs k v xs).1 ≡ (if fs.hash_comp k j then v else chain_get fs j xs)
  unfolding chain_get chain_set
  chain_get-chain_set k j v [] = rw (comp-congr (fs.hash_key_dup k) k j (lawful.dup_eq k))
  chain_get-chain_set k j v (x ∷ xs) = elim (Bool-cases (fs.hash_comp x.key k)) [
    | inl same ↦ rw same (rw (comp-congr x.key k j same) (ground arith))
    | inr other ↦ elim (Bool-cases (fs.hash_comp k j)) [
      | inr f ↦ ground (arith, other, f, chain_get-chain_set k j v xs)
      | inl t ↦ ground (
        arith,
        other,
        t,
        chain_get-chain_set k j v xs,
        comp-congr k j x.key t,
        lawful.comp_sym x.key k,
        lawful.comp_sym x.key j,
      )
    ]
  ]

  pub out-chain_set :
      (k : K) (v : ℕ) (xs : List (Entry K)) → (chain_set fs k v xs).0 ≡ chain_get fs k xs
  unfolding chain_get chain_set
  out-chain_set k v [] = refl
  out-chain_set k v (x ∷ xs) = ground (arith, out-chain_set k v xs)

  pub chain_has-chain_set :
      (k j : K) (v : ℕ) (xs : List (Entry K))
      → chain_has fs j (chain_set fs k v xs).1
        ≡ (if fs.hash_comp k j then true else chain_has fs j xs)
  unfolding chain_has chain_set
  chain_has-chain_set k j v [] = rw (comp-congr (fs.hash_key_dup k) k j (lawful.dup_eq k))
  chain_has-chain_set k j v (x ∷ xs) = elim (Bool-cases (fs.hash_comp x.key k)) [
    | inl same ↦ rw same (rw (comp-congr x.key k j same) (ground arith))
    | inr other ↦ ground (arith, other, chain_has-chain_set k j v xs)
  ]

  -- No two entries of a chain have equal keys.
  abbrev pub Distinct : List (Entry K) → Type 0
  Distinct [] = Unit
  Distinct (x ∷ xs) = (chain_has fs x.key xs ≡ false) × Distinct xs

  pub chain_set-Distinct :
      (k : K) (v : ℕ) (xs : List (Entry K)) → Distinct xs → Distinct (chain_set fs k v xs).1
  unfolding chain_set chain_has
  chain_set-Distinct k v [] d = (refl, tt)
  chain_set-Distinct k v (x ∷ xs) (apart, d) = elim (Bool-cases (fs.hash_comp x.key k)) [
    | inl same ↦ rw same (apart, d)
    | inr other ↦ rw other (
      ground (arith, chain_has-chain_set k x.key v xs, lawful.comp_sym x.key k, other, apart),
      chain_set-Distinct k v xs d,
    )
  ]

  pub chain_has-congr :
      (a b : K) (xs : List (Entry K))
      → fs.hash_comp a b ≡ true
      → chain_has fs a xs ≡ chain_has fs b xs
  unfolding chain_has
  chain_has-congr a b [] e = refl
  chain_has-congr a b (x ∷ xs) e = ground (
    arith,
    chain_has-congr a b xs e,
    comp-congr a b x.key e,
    lawful.comp_sym x.key a,
    lawful.comp_sym x.key b,
  )

  -- An absent key has no value.
  pub get_of_absent :
      (k : K) (xs : List (Entry K)) → chain_has fs k xs ≡ false → chain_get fs k xs ≡ 0
  unfolding chain_has chain_get
  get_of_absent k [] h = refl
  get_of_absent k (x ∷ xs) h = ground (arith, get_of_absent k xs)
