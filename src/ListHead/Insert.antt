-- ===== src/ListHead/Insert.antt =====
-- `list_head_insert_after` and `list_head_insert_before` of include/kernel/list_head.h.
use hos.Base.{ℕ, ◌≡◌, ◌≢◌, refl, ap, true, false, List, [], ◌∷◌, ◌++◌, is_in, IsDistinct, arith}
use hos.ListHead.{Links, insert_after, insert_before}
use hos.ListHead.Chain.{Chain, Ring, Chain-frame}

-- A member and a number that is none are not the same.
pub members_apart : (p q : ℕ) (xs : List ℕ) → is_in p xs ≡ true → is_in q xs ≡ false → p ≢ q
members_apart p q xs m n e = cc (m, n, ap (λ c. is_in c xs) e)

-- The first entry is neither the head nor behind itself.
tail_apart :
    (q head x : ℕ) (xs : List ℕ) → is_in q (head ∷ xs) ≡ true → IsDistinct (head ∷ x ∷ xs) → q ≢ x
tail_apart q head x xs m (apart, (apart_x, d)) =
    members_apart q x (head ∷ xs) m (ground (arith, apart, apart_x))

-- A new entry is put in front of a list.
pub insert_after-Ring :
    (new head : ℕ) (xs : List ℕ) (s : Links)
    → Ring s head xs
    → is_in new (head ∷ xs) ≡ false
    → Ring (insert_after new head s) head (new ∷ xs)
unfolding insert_after
insert_after-Ring new head [] s ((n, p), d) apart =
    let ne : head ≢ new = ground (arith, apart) in
    rw n (
      (((ground (arith, ne), ground (arith, ne)), (ground (arith, ne), ground (arith, ne)))),
      ground (arith, apart),
    )
insert_after-Ring new head (x ∷ xs) s (((n, p), rest), d) apart =
    let ne : head ≢ new = ground (arith, apart) in
    let ne_x : x ≢ new = ground (arith, apart) in
    let head_x : head ≢ x = ground (arith, d.0) in
    rw n (
      (
        (ground (arith, ne), ground (arith, ne_x)),
        (
          (ground (arith, ne), ground (arith, ne_x)),
          Chain-frame s (insert_after new head s) x xs head
              (λ q m.
                let one : q ≢ head = members_apart q head (x ∷ xs) m d.0 in
                let two : q ≢ new = members_apart q new (x ∷ xs) m (ground (arith, apart)) in
                ground (arith, one, two))
              (λ q m.
                let one : q ≢ x = tail_apart q head x xs m d in
                let two : q ≢ new = λ e. ground (arith, apart, m, e, ap (λ c. is_in c xs) e) in
                rw n (ground (arith, one, two)))
              rest,
        ),
      ),
      (ground (arith, ne, d.0), (ground (arith, apart), d.1)),
    )

-- The entry in front of the end of a chain is one of the chain.
pub is_in-last :
    (s : Links) (a : ℕ) (xs : List ℕ) (b : ℕ) → Chain s a xs b → is_in (s.prev b) (a ∷ xs) ≡ true
is_in-last s a [] b (n, p) = ground (arith, p)
is_in-last s a (x ∷ xs) b (l, rest) = ground (arith, is_in-last s x xs b rest)

-- A chain to `head`, with the new entry put at its end.
insert_before-Chain :
    (new head a : ℕ) (xs : List ℕ) (s : Links)
    → Chain s a xs head
    → IsDistinct (a ∷ xs)
    → is_in head xs ≡ false
    → is_in new (head ∷ a ∷ xs) ≡ false
    → Chain (insert_before new head s) a (xs ++ (new ∷ [])) head
unfolding insert_before
insert_before-Chain new head a [] s (n, p) d apart fresh =
    let one : head ≢ new = ground (arith, fresh) in
    let two : a ≢ new = ground (arith, fresh) in
    rw p (
      (ground (arith, one, two), ground (arith, one, two)),
      (ground (arith, one, two), ground (arith, one, two)),
    )
insert_before-Chain new head a (x ∷ xs) s ((n, p), rest) d apart fresh =
    let last = is_in-last s x xs head rest in
    let not_last : s.prev head ≢ a = members_apart (s.prev head) a (x ∷ xs) last d.0 in
    let a_new : a ≢ new = ground (arith, fresh) in
    let x_new : x ≢ new = ground (arith, fresh) in
    let x_head : x ≢ head = ground (arith, apart) in
    (
      (ground (arith, n, not_last, a_new), ground (arith, p, x_new, x_head)),
      insert_before-Chain new head x xs s rest d.1 (ground (arith, apart)) (ground (arith, fresh)),
    )

IsDistinct-snoc :
    (xs : List ℕ) (n : ℕ) → IsDistinct xs → is_in n xs ≡ false → IsDistinct (xs ++ (n ∷ []))
IsDistinct-snoc [] n d apart = (refl, tt)
IsDistinct-snoc (x ∷ xs) n (one, d) apart =
    (snoc xs x one (ground (arith, apart)), IsDistinct-snoc xs n d (ground (arith, apart)))
  where
    snoc : (ys : List ℕ) (c : ℕ) → is_in c ys ≡ false → c ≢ n → is_in c (ys ++ (n ∷ [])) ≡ false
    snoc [] c out ne = ground (arith, ne)
    snoc (y ∷ ys) c out ne = ground (arith, out, snoc ys c (ground (arith, out)) ne)

-- A new entry is put at the end of a list.
pub insert_before-Ring :
    (new head : ℕ) (xs : List ℕ) (s : Links)
    → Ring s head xs
    → is_in new (head ∷ xs) ≡ false
    → Ring (insert_before new head s) head (xs ++ (new ∷ []))
insert_before-Ring new head xs s (chain, d) fresh = (
  insert_before-Chain new head head xs s chain d d.0 (ground (arith, fresh)),
  IsDistinct-snoc (head ∷ xs) new d fresh,
)
