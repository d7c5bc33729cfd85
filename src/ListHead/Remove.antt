-- ===== src/ListHead/Remove.antt =====
-- `list_head_remove` and `list_head_pop` of include/kernel/list_head.h.
use hos.Base.{
  ℕ, ◌≡◌, ◌≢◌, refl, ◌∙◌, true, false, ◌||◌, ◌==◌, if◌then◌else◌, List, [], ◌∷◌, ◌++◌, is_in,
  IsDistinct, arith, Option, some, none,
}
use hos.ListHead.{Links, list_head_init, list_head_empty, remove_entry, list_head_pop}
use hos.ListHead.Chain.{Link, Chain, Ring, Chain-frame, Chain-split}
use hos.ListHead.Insert.{members_apart, is_in-last}

-- The entry behind the start of a chain is one of the chain.
is_in-next :
    (s : Links) (a : ℕ) (xs : List ℕ) (b : ℕ) → Chain s a xs b → is_in (s.next a) (b ∷ xs) ≡ true
is_in-next s a [] b (n, p) = ground (arith, n)
is_in-next s a (x ∷ xs) b ((n, p), rest) = ground (arith, n)

pub is_in-append : (c : ℕ) (xs ys : List ℕ) → is_in c (xs ++ ys) ≡ (is_in c xs || is_in c ys)
is_in-append c [] ys = refl
is_in-append c (x ∷ xs) ys = ground (arith, is_in-append c xs ys)

-- An entry of a list without repetitions is not in front of itself, nor behind itself.
once :
    (e : ℕ) (xs ys : List ℕ)
    → IsDistinct (xs ++ (e ∷ ys))
    → (is_in e xs ≡ false) × (is_in e ys ≡ false)
once e [] ys (de, dr) = (refl, de)
once e (x ∷ xs) ys (dx, dr) =
    let (front, back) = once e xs ys dr in
    let e_in : is_in e (xs ++ (e ∷ ys)) ≡ true = ground (arith, is_in-append e xs (e ∷ ys)) in
    let e_x : e ≢ x = members_apart e x (xs ++ (e ∷ ys)) e_in dx in
    (ground (arith, front, e_x), back)

module _ (s : Links) (e : ℕ) (next_apart : s.next e ≢ e) (prev_apart : s.prev e ≢ e) where
  next_removed :
      (q : ℕ)
      → (remove_entry e s).next q
        ≡ (if e == q then e else if s.prev e == q then s.next e else s.next q)
  unfolding remove_entry list_head_init list_head_empty
  next_removed q = ground (arith, next_apart, prev_apart)

  prev_removed :
      (q : ℕ)
      → (remove_entry e s).prev q
        ≡ (if e == q then e else if s.next e == q then s.prev e else s.prev q)
  unfolding remove_entry list_head_init list_head_empty
  prev_removed q = ground (arith, next_apart, prev_apart)

-- The chain behind the entry, when it starts at the one in front of it.
unlink-first :
    (e a : ℕ) (ys : List ℕ) (b : ℕ) (s : Links)
    → Link s a e
    → Chain s e ys b
    → IsDistinct (a ∷ e ∷ ys)
    → is_in b (e ∷ ys) ≡ false
    → Chain (remove_entry e s) a ys b
unlink-first e a [] b s (n, p) (n', p') d out =
    let next_apart : s.next e ≢ e = ground (arith, n', out) in
    let prev_apart : s.prev e ≢ e = ground (arith, p, d.0) in
    (
      next_removed s e next_apart prev_apart a ∙ ground (arith, p, n', prev_apart),
      prev_removed s e next_apart prev_apart b ∙ ground (arith, p, n', next_apart),
    )
unlink-first e a (y ∷ ys) b s (n, p) ((n', p'), rest) (da, (de, (dy, dr))) out =
    let next_apart : s.next e ≢ e = ground (arith, n', de) in
    let prev_apart : s.prev e ≢ e = ground (arith, p, da) in
    (
      (
        next_removed s e next_apart prev_apart a ∙ ground (arith, p, n', prev_apart),
        prev_removed s e next_apart prev_apart y ∙ ground (arith, p, n', next_apart),
      ),
      Chain-frame s (remove_entry e s) y ys b
          (λ q m.
            let one : q ≢ e = members_apart q e (y ∷ ys) m de in
            let two' : q ≢ a = members_apart q a (y ∷ ys) m (ground (arith, da)) in
            let two : q ≢ s.prev e = ground (arith, two', p) in
            next_removed s e next_apart prev_apart q ∙ ground (arith, one, two))
          (λ q m.
            let one : q ≢ e = members_apart q e (b ∷ ys) m (ground (arith, out, de)) in
            let two' : q ≢ y = members_apart q y (b ∷ ys) m (ground (arith, out, dy)) in
            let two : q ≢ s.next e = ground (arith, two', n') in
            prev_removed s e next_apart prev_apart q ∙ ground (arith, one, two))
          rest,
    )

-- The entry leaves the chain that it stands in.
unlink-Chain :
    (e a : ℕ) (xs ys : List ℕ) (b : ℕ) (s : Links)
    → Chain s a (xs ++ (e ∷ ys)) b
    → IsDistinct (a ∷ (xs ++ (e ∷ ys)))
    → is_in b (xs ++ (e ∷ ys)) ≡ false
    → Chain (remove_entry e s) a (xs ++ ys) b
unlink-Chain e a [] ys b s (l, rest) d out = unlink-first e a ys b s l rest d out
unlink-Chain e a (x ∷ xs) ys b s ((n, p), rest) (da, (dx, dr)) out =
    let (front, back) = Chain-split s x xs e ys b rest in
    let last = is_in-last s x xs e front in
    let e_in : is_in e (xs ++ (e ∷ ys)) ≡ true = ground (arith, is_in-append e xs (e ∷ ys)) in
    let e_x : e ≢ x = members_apart e x (xs ++ (e ∷ ys)) e_in dx in
    let a_e : e ≢ a = members_apart e a (xs ++ (e ∷ ys)) e_in (ground (arith, da)) in
    let (e_xs, e_ys) = once e xs ys dr in
    let behind = is_in-next s e ys b back in
    let b_e : e ≢ b = members_apart e b (xs ++ (e ∷ ys)) e_in (ground (arith, out)) in
    let x_b : x ≢ b = ground (arith, out) in
    let prev_e : s.prev e ≢ e =
      members_apart (s.prev e) e (x ∷ xs) last (ground (arith, e_x, e_xs)) in
    let next_e : s.next e ≢ e =
      members_apart (s.next e) e (b ∷ ys) behind (ground (arith, b_e, e_ys)) in
    let prev_a : s.prev e ≢ a =
      members_apart (s.prev e) a (x ∷ xs) last (ground (arith, da, is_in-append a xs (e ∷ ys))) in
    let next_x : s.next e ≢ x =
      members_apart (s.next e) x (b ∷ ys) behind
        (ground (arith, x_b, dx, is_in-append x xs (e ∷ ys))) in
    (
      (
        next_removed s e next_e prev_e a ∙ ground (arith, n, a_e, prev_a),
        prev_removed s e next_e prev_e x ∙ ground (arith, p, e_x, next_x),
      ),
      unlink-Chain e x xs ys b s rest (dx, dr) (ground (arith, out)),
    )

IsDistinct-drop :
    (xs : List ℕ) (e : ℕ) (ys : List ℕ) → IsDistinct (xs ++ (e ∷ ys)) → IsDistinct (xs ++ ys)
IsDistinct-drop [] e ys (de, dr) = dr
IsDistinct-drop (x ∷ xs) e ys (dx, dr) = (
  ground (arith, dx, is_in-append x xs (e ∷ ys), is_in-append x xs ys),
  IsDistinct-drop xs e ys dr,
)

-- What the removal of `e` between `xs` and `ys` does: the list has the others in their order, the entry is
-- a list of its own, and a list that shares nothing with this one stays.
pub record Removed (e head : ℕ) (xs ys : List ℕ) (s s' : Links) : Type 0 where
  pub list : Ring s' head (xs ++ ys)
  pub alone : Ring s' e []
  pub others :
      (head' : ℕ) (zs : List ℕ)
      → ((q : ℕ) → is_in q (head' ∷ zs) ≡ true → is_in q (head ∷ (xs ++ (e ∷ ys))) ≡ false)
      → Ring s head' zs
      → Ring s' head' zs

-- An entry leaves the list it is in, wherever it stands there.
pub remove_entry-Removed :
    (e head : ℕ) (xs ys : List ℕ) (s : Links)
    → Ring s head (xs ++ (e ∷ ys))
    → Removed e head xs ys s (remove_entry e s)
remove_entry-Removed e head xs ys s (chain, (dh, dr)) =
    let (front, back) = Chain-split s head xs e ys head chain in
    let (e_xs, e_ys) = once e xs ys dr in
    let parts = is_in-append head xs (e ∷ ys) in
    let e_head : e ≢ head = ground (arith, dh, parts) in
    let last = is_in-last s head xs e front in
    let behind = is_in-next s e ys head back in
    let prev_e : s.prev e ≢ e =
      members_apart (s.prev e) e (head ∷ xs) last (ground (arith, e_head, e_xs)) in
    let next_e : s.next e ≢ e =
      members_apart (s.next e) e (head ∷ ys) behind (ground (arith, e_head, e_ys)) in
    record {
      list = (
        unlink-Chain e head xs ys head s chain (dh, dr) dh,
        (ground (arith, dh, parts, is_in-append head xs ys), IsDistinct-drop xs e ys dr),
      );
      alone = (
        (
          next_removed s e next_e prev_e e ∙ ground arith,
          prev_removed s e next_e prev_e e ∙ ground arith,
        ),
        (refl, tt),
      );
      others = λ head' zs apart (chain', d'). (
        Chain-frame s (remove_entry e s) head' zs head'
            (λ q m.
              let out = apart q m in
              let all = is_in-append q xs (e ∷ ys) in
              let one : q ≢ e = ground (arith, out, all) in
              let two : s.prev e ≢ q =
                members_apart (s.prev e) q (head ∷ xs) last (ground (arith, out, all)) in
              next_removed s e next_e prev_e q ∙ ground (arith, one, two))
            (λ q m.
              let out = apart q m in
              let all = is_in-append q xs (e ∷ ys) in
              let one : q ≢ e = ground (arith, out, all) in
              let two : s.next e ≢ q =
                members_apart (s.next e) q (head ∷ ys) behind (ground (arith, out, all)) in
              prev_removed s e next_e prev_e q ∙ ground (arith, one, two))
            chain',
        d',
      );
    }

-- What `list_head_pop` gives for a list with the entries `xs`.
abbrev pub PopSpec : ℕ → List ℕ → Links → Option ℕ × Links → Type 0
PopSpec head [] s (value, s') = (value ≡ none) × (s' ≡ s)
PopSpec head (x ∷ xs) s (value, s') = (value ≡ some x) × Removed x head [] xs s s'

-- The first entry is taken off the list and returned, and NULL for an empty list.
pub list_head_pop-PopSpec :
    (head : ℕ) (xs : List ℕ) (s : Links) → Ring s head xs → PopSpec head xs s (list_head_pop head s)
unfolding list_head_pop list_head_empty
list_head_pop-PopSpec head [] s ((n, p), d) =
    let on : (s.next head == head) ≡ true = ground (arith, n) in rw on (refl, refl)
list_head_pop-PopSpec head (x ∷ xs) s (((n, p), rest), d) =
    let off : (s.next head == head) ≡ false = ground (arith, n, d.0) in
    let first : Removed x head [] xs s (remove_entry x s) =
      remove_entry-Removed x head [] xs s (((n, p), rest), d) in
    rw off (rw n (refl, first))
