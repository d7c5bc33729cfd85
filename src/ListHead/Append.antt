-- ===== src/ListHead/Append.antt =====
-- `list_head_append` of include/kernel/list_head.h.
use hos.Base.{
  ℕ, ◌≡◌, ◌≢◌, refl, sym, ap, ◌∙◌, true, false, ◌==◌, if◌then◌else◌, List, [], ◌∷◌, ◌++◌, is_in,
  IsDistinct, arith,
}
use hos.ListHead.{Links, list_head_init, list_head_empty, list_head_append}
use hos.ListHead.Chain.{Chain, Ring, Chain-join}
use hos.ListHead.Insert.{members_apart, is_in-last}
use hos.ListHead.Remove.{is_in-append}

-- A chain that is given another end.
Chain-end :
    (s s' : Links) (a : ℕ) (xs : List ℕ) (b b' : ℕ)
    → IsDistinct (a ∷ xs)
    → ((q : ℕ) → is_in q (a ∷ xs) ≡ true → q ≢ s.prev b → s'.next q ≡ s.next q)
    → ((q : ℕ) → is_in q xs ≡ true → s'.prev q ≡ s.prev q)
    → s'.next (s.prev b) ≡ b'
    → s'.prev b' ≡ s.prev b
    → Chain s a xs b
    → Chain s' a xs b'
Chain-end s s' a [] b b' d same_next same_prev n' p' (n, p) = (ap s'.next (sym p) ∙ n', p' ∙ p)
Chain-end s s' a (x ∷ xs) b b' (da, dx) same_next same_prev n' p' ((n, p), rest) =
    let last = is_in-last s x xs b rest in
    (
      (
        same_next a (ground arith) (λ e. members_apart (s.prev b) a (x ∷ xs) last da (sym e)) ∙ n,
        same_prev x (ground arith) ∙ p,
      ),
      Chain-end s s' x xs b b' dx (λ q m. same_next q (ground (arith, m)))
          (λ q m. same_prev q (ground (arith, m))) n' p' rest,
    )

-- Two lists have no entry and no head in common.
abbrev pub AreApart : ℕ → List ℕ → ℕ → List ℕ → Type 0
AreApart main xs secondary ys =
    (q : ℕ) → is_in q (main ∷ xs) ≡ true → is_in q (secondary ∷ ys) ≡ false

module _ (s : Links) (main sec y : ℕ) (main_sec : main ≢ sec) (main_y : main ≢ y) (y_sec : y ≢ sec)
    (next_main : s.next main ≢ main) (next_sec : s.next sec ≡ y) (prev_main : s.prev main ≢ sec)
    (prev_sec : s.prev sec ≢ sec) where
  next_appended :
      (q : ℕ)
      → (list_head_append main sec s).next q ≡ (
          if sec == q
          then sec
          else if s.prev sec == q
          then main
          else if s.prev main == q
          then y
          else s.next q)
  unfolding list_head_append list_head_init list_head_empty
  next_appended q =
      ground (arith, main_sec, main_y, y_sec, next_main, next_sec, prev_main, prev_sec)

  prev_appended :
      (q : ℕ)
      → (list_head_append main sec s).prev q ≡ (
          if sec == q
          then sec
          else if main == q
          then s.prev sec
          else if y == q
          then s.prev main
          else s.prev q)
  unfolding list_head_append list_head_init list_head_empty
  prev_appended q =
      ground (arith, main_sec, main_y, y_sec, next_main, next_sec, prev_main, prev_sec)

IsDistinct-append :
    (xs ys : List ℕ)
    → IsDistinct xs
    → IsDistinct ys
    → ((q : ℕ) → is_in q xs ≡ true → is_in q ys ≡ false)
    → IsDistinct (xs ++ ys)
IsDistinct-append [] ys d d' apart = d'
IsDistinct-append (x ∷ xs) ys (dx, d) d' apart =
    let out = apart x (ground arith) in
    (
      ground (arith, dx, out, is_in-append x xs ys),
      IsDistinct-append xs ys d d' (λ q m. apart q (ground (arith, m))),
    )

-- The entries of the second list go behind those of the first, where neither is empty, and the second
-- is empty then.
pub list_head_append-Ring :
    (main x : ℕ) (xs : List ℕ) (sec y : ℕ) (ys : List ℕ) (s : Links)
    → Ring s main (x ∷ xs)
    → Ring s sec (y ∷ ys)
    → AreApart main (x ∷ xs) sec (y ∷ ys)
    → Ring (list_head_append main sec s) main ((x ∷ xs) ++ (y ∷ ys))
      × Ring (list_head_append main sec s) sec []
list_head_append-Ring main x xs sec y ys s ((l, chain), (dm, dx)) (((n, p), chain'), (dsec, dy))
      apart =
    let last = is_in-last s x xs main chain in
    let last' = is_in-last s y ys sec chain' in
    let main_out = apart main (ground arith) in
    let last_out = apart (s.prev main) (ground (arith, last)) in
    let main_sec : main ≢ sec = ground (arith, main_out) in
    let main_y : main ≢ y = ground (arith, main_out) in
    let y_sec : y ≢ sec = ground (arith, dsec) in
    let next_main : s.next main ≢ main = ground (arith, l.0, dm) in
    let prev_main : s.prev main ≢ sec = ground (arith, last_out) in
    let prev_sec : s.prev sec ≢ sec = members_apart (s.prev sec) sec (y ∷ ys) last' dsec in
    let ends : s.prev sec ≢ s.prev main =
      members_apart (s.prev sec) (s.prev main) (y ∷ ys) last' (ground (arith, last_out)) in
    let next' = next_appended s main sec y main_sec main_y y_sec next_main n prev_main prev_sec in
    let prev' = prev_appended s main sec y main_sec main_y y_sec next_main n prev_main prev_sec in
    let front : Chain (list_head_append main sec s) main (x ∷ xs) y =
      Chain-end s (list_head_append main sec s) main (x ∷ xs) main y (dm, dx)
        (λ q m ne.
          let out = apart q m in
          let two : q ≢ s.prev sec =
            λ e. members_apart (s.prev sec) q (y ∷ ys) last' (ground (arith, out)) (sym e) in
          next' q ∙ ground (arith, out, ne, two))
        (λ q m.
          let out = apart q (ground (arith, m)) in
          let one : q ≢ main = members_apart q main (x ∷ xs) m dm in
          prev' q ∙ ground (arith, out, one))
        (next' (s.prev main) ∙ ground (arith, prev_main, ends))
        (prev' y ∙ ground (arith, main_y, y_sec)) (l, chain) in
    let back : Chain (list_head_append main sec s) y ys main =
      Chain-end s (list_head_append main sec s) y ys sec main dy
        (λ q m ne.
          let one : q ≢ sec = members_apart q sec (y ∷ ys) m dsec in
          let two : q ≢ s.prev main =
            members_apart q (s.prev main) (y ∷ ys) m (ground (arith, last_out)) in
          next' q ∙ ground (arith, one, two, ne))
        (λ q m.
          let one : q ≢ sec = members_apart q sec ys m (ground (arith, dsec)) in
          let two : q ≢ main = members_apart q main ys m (ground (arith, main_out)) in
          let three : q ≢ y = members_apart q y ys m dy.0 in
          prev' q ∙ ground (arith, one, two, three))
        (next' (s.prev sec) ∙ ground (arith, prev_sec)) (prev' main ∙ ground (arith, main_sec))
        chain' in
    (
      (
        Chain-join (list_head_append main sec s) main (x ∷ xs) y ys main front back,
        IsDistinct-append (main ∷ x ∷ xs) (y ∷ ys) (dm, dx) dy
            (λ q m. let out = apart q m in ground (arith, out)),
      ),
      ((next' sec ∙ ground arith, prev' sec ∙ ground arith), (refl, tt)),
    )
