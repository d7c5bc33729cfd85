-- ===== src/HashMap/Keys.antt =====
-- The key functions of src/kernel/lib/hashmap.c: numbers, and strings with `strcmp` of
-- src/kernel/misc/string.c.
--
-- A string is the list of its bytes, which a zero byte or the list's end terminates; `char` is signed.
use hos.Base.{
  ℕ, ◌+◌, ◌-◌, ◌*◌, ◌^◌, ◌%◌, ◌≡◌, refl, ap, sym, ◌∙◌, Bool, true, false, not, if◌then◌else◌, List,
  [], ◌∷◌, arith, ◌↔◌, ◌==◌, ltb,
}
use hos.HashMap.{Functions}
use hos.HashMap.Chain.{IsLawful}

unfoldable pub int_hash : ℕ → ℕ
int_hash key = key % 2 ^ 32

unfoldable pub int_comp : ℕ → ℕ → Bool
int_comp a b = (a % 2 ^ 32) == (b % 2 ^ 32)

unfoldable pub do_not_duplicate {ℓ} : {K : Type ℓ} → K → K
do_not_duplicate value = value

unfoldable pub int_functions : Functions ℕ
int_functions = record {
  hash_func = int_hash;
  hash_comp = int_comp;
  hash_key_dup = do_not_duplicate;
}

pub int_functions-IsLawful : IsLawful int_functions
unfolding int_functions int_hash int_comp do_not_duplicate
int_functions-IsLawful = record {
  comp_refl = λ a. ground arith;
  comp_sym = λ a b. ground arith;
  comp_trans = λ a b c. ground arith;
  hash_eq = λ a b. ground arith;
  dup_eq = λ k. ground arith;
}

abbrev char : ℕ → ℕ
char c = c % 256

-- A byte read as a signed `char`, moved up by 128.
abbrev order : ℕ → ℕ
order c = (c + 128) % 256

-- The results -1, 0 and 1 of `strcmp`.
pub data Sign : Type 0 where
  negative same positive : Sign

abbrev difference : ℕ → ℕ → Sign
difference x y =
    if order x == order y then same else if ltb (order x) (order y) then negative else positive

pub strcmp : List ℕ → List ℕ → Sign
strcmp [] [] = same
strcmp [] (y ∷ ys) = difference 0 y
strcmp (x ∷ xs) [] = difference x 0
strcmp (x ∷ xs) (y ∷ ys) =
    let rest = strcmp xs ys in
    if not (order x == order y) then difference x y else if char y == 0 then same else rest

abbrev is_same : Sign → Bool
is_same same = true
is_same s = false

pub str_comp : List ℕ → List ℕ → Bool
str_comp a b = is_same (strcmp a b)

-- `c` as an `int` in an unsigned sum.
abbrev sign_extended : ℕ → ℕ
sign_extended c = if ltb (char c) 128 then char c else char c + (2 ^ 32 - 256)

unfoldable pub sdbm : ℕ → ℕ → ℕ
sdbm hash c =
    (sign_extended c + (hash * 2 ^ 6) % 2 ^ 32 + (hash * 2 ^ 16) % 2 ^ 32 + (2 ^ 32 - hash))
    % 2 ^ 32

unfoldable pub hash_loop : ℕ → List ℕ → ℕ
hash_loop hash [] = hash
hash_loop hash (c ∷ cs) = if char c == 0 then hash else hash_loop (sdbm hash c) cs

unfoldable pub str_hash : List ℕ → ℕ
str_hash key = hash_loop 0 key

unfoldable pub str_functions : Functions (List ℕ)
str_functions = record {
  hash_func = str_hash;
  hash_comp = str_comp;
  hash_key_dup = do_not_duplicate;
}

-- The bytes before the terminator.
abbrev pub text : List ℕ → List ℕ
text [] = []
text (c ∷ cs) = if char c == 0 then [] else char c ∷ text cs

-- `hashmap_str_comp` answers true exactly when both strings have the same bytes before their
-- terminators.
pub str_comp_iff : (a b : List ℕ) → (str_comp a b ≡ true) ↔ (text a ≡ text b)
unfolding str_comp strcmp
str_comp_iff [] [] = (λ h. refl, λ h. refl)
str_comp_iff [] (y ∷ ys) = ground arith
str_comp_iff (x ∷ xs) [] = ground arith
str_comp_iff (x ∷ xs) (y ∷ ys) = ground (arith, str_comp_iff xs ys)

hash_loop-text : (h : ℕ) (a : List ℕ) → hash_loop h (text a) ≡ hash_loop h a
unfolding hash_loop sdbm
hash_loop-text h [] = refl
hash_loop-text h (c ∷ cs) = ground (arith, hash_loop-text (sdbm h c) cs)

eq_of_iff :
    {P Q : Type 0} {b c : Bool} → (b ≡ true) ↔ P → (c ≡ true) ↔ Q → (P → Q) → (Q → P) → b ≡ c
eq_of_iff {b = true} (f, g) (f', g') to from = sym (g' (to (f refl)))
eq_of_iff {b = false} {c = true} (f, g) (f', g') to from = g (from (f' refl))
eq_of_iff {b = false} {c = false} (f, g) (f', g') to from = refl

-- The functions for string keys are lawful: the comparison is an equivalence, and equal
-- strings have one hash.
pub str_functions-IsLawful : IsLawful str_functions
unfolding str_functions str_hash do_not_duplicate
str_functions-IsLawful = record {
  comp_refl = λ a. (str_comp_iff a a).1 refl;
  comp_sym = λ a b. eq_of_iff (str_comp_iff a b) (str_comp_iff b a) sym sym;
  comp_trans =
      λ a b c h h'. (str_comp_iff a c).1 ((str_comp_iff a b).0 h ∙ (str_comp_iff b c).0 h');
  hash_eq = λ a b h.
      sym (hash_loop-text 0 a) ∙ ap (hash_loop 0) ((str_comp_iff a b).0 h) ∙ hash_loop-text 0 b;
  dup_eq = λ k. (str_comp_iff k k).1 refl;
}
