-- ===== src/Timers/Trigger.antt =====
-- The timers of a list are triggered, in src/arch/i386/timer.c.
use mathlib.Core.Path.{subst}
use hos.Base.{
  ℕ, ◌+◌, ◌%◌, ◌^◌, ◌<◌, ◌≤◌, ◌≡◌, refl, sym, ap, ◌∙◌, false, ◌⊎◌, arith, Nat-cases, inl, inr, List,
  [], ◌∷◌, ◌++◌,
}
use hos.Timers.{Timer, Tvec, find_tvec, add_timer, add_timers, remove_first, trigger}
use hos.Timers.Members.{
  Every, Member, Member-left, Member-snoc, here, there, is_place, Others, Held,
}
use hos.Timers.Placement.{Placed, IsNear, Clocks, clock, find_tvec-Placed, due_later}
use hos.Timers.Cascade.{
  At, add_timer-Others, add_timer-elsewhere, add_timer-Held, remove_first-rest, remove_first-Others,
  remove_first-Held,
}
use hos.Timers.Replenish.{clock_bound}

-- A timer that a function called at tick `k` may add: it expires later, by less than half the range.
abbrev pub Later : ℕ → Timer → Type 0
Later k t = (k < t.expires) × (t.expires < 2 ^ 32) × (t.expires < k + 2 ^ 31)

abbrev pub AddsLater : (ℕ → Timer → List Timer) → Type 0
AddsLater adds = (k : ℕ) → k < 2 ^ 32 → (t : Timer) → Every (Later k) (adds k t)

-- What holds while the list `k % 256` of the first vector is triggered: the tick, the other lists in
-- order, no timer lost, and only timers called that are due.
pub record Triggering (w0 : Tvec) (k : ℕ) (w : Tvec) : Type 0 where
  pub ticks : w.timer_ticks ≡ k
  pub others : Others (At k (clock k 5)) 1 (k % 256) w.vec
  pub kept : (t : Timer) → Held t w0.vec → Held t w.vec ⊎ ((t.expires ≤ k) × Member (k, t) w.calls)
  pub grown : (n : ℕ) (t : Timer) → Member (n, t) w0.calls → Member (n, t) w.calls
  pub called :
      (n : ℕ) (t : Timer)
      → Member (n, t) w.calls
      → Member (n, t) w0.calls ⊎ ((n ≡ k) × (t.expires ≤ k) × Held t w0.vec)

-- The first list is not one that a later timer is added to.
Later-elsewhere :
    (x : Timer) (w : Tvec) (k : ℕ)
    → w.timer_ticks ≡ k
    → k < 2 ^ 32
    → Later k x
    → is_place (find_tvec w x).1 (find_tvec w x).0 1 (k % 256) ≡ false
Later-elsewhere x w k tick bound (lt, e_bound, ahead) =
    let (i, l) = find_tvec w x in
    let near : IsNear k x.expires = record {
      k_bound = bound;
      e_bound = e_bound;
      ahead = ahead;
      behind = omega arith;
    } in
    let place : Placed k (clock k 5) l i x.expires =
      subst (λ n. Placed n (clock k 5) l i x.expires) tick
        (find_tvec-Placed w x (clock k 5) (subst (λ n. IsNear n x.expires) (sym tick) near)
          (subst (λ n. Clocks n (clock k 5)) (sym tick) (clock_bound k 5))) in
    elim (Nat-cases l 1) [
      | inl same ↦
          let apart =
            due_later k i x.expires lt
              (subst (λ n. Placed k (clock k 5) n i x.expires) same place) in
          ground (arith, apart)
      | inr other ↦ ground (arith, other)
    ]

add_timer-ticks : (x : Timer) (w : Tvec) → (add_timer x w).timer_ticks ≡ w.timer_ticks
unfolding add_timer
add_timer-ticks x w = refl

add_timer-calls : (x : Timer) (w : Tvec) → (add_timer x w).calls ≡ w.calls
unfolding add_timer
add_timer-calls x w = refl

-- A function adds a timer.
add-Triggering :
    (w0 : Tvec) (k : ℕ) (x : Timer) (w : Tvec)
    → k < 2 ^ 32
    → Later k x
    → Triggering w0 k w
    → ((add_timer x w).vec 1 (k % 256) ≡ w.vec 1 (k % 256)) × Triggering w0 k (add_timer x w)
add-Triggering w0 k x w bound later j =
    let calls = add_timer-calls x w in
    (
      add_timer-elsewhere x w 1 (k % 256) (Later-elsewhere x w k j.ticks bound later),
      record {
        ticks = add_timer-ticks x w ∙ j.ticks;
        others =
            add_timer-Others x w k (clock k 5) 1 (k % 256) j.ticks (clock_bound k 5)
              (record {
                k_bound = bound;
                e_bound = later.1;
                ahead = later.2;
                behind = omega (arith, later.0);
              })
              j.others;
        kept = λ t h. elim (j.kept t h) [
          | inl held ↦ inl (add_timer-Held t x w held)
          | inr (e, m) ↦ inr (e, subst (Member (k, t)) (sym calls) m)
        ];
        grown = λ n t m. subst (Member (n, t)) (sym calls) (j.grown n t m);
        called = λ n t m. j.called n t (subst (Member (n, t)) calls m);
      },
    )

adds-Triggering :
    (w0 : Tvec) (k : ℕ) (xs : List Timer) (w : Tvec)
    → k < 2 ^ 32
    → Every (Later k) xs
    → Triggering w0 k w
    → ((add_timers xs w).vec 1 (k % 256) ≡ w.vec 1 (k % 256)) × Triggering w0 k (add_timers xs w)
unfolding add_timers
adds-Triggering w0 k [] w bound later j = (refl, j)
adds-Triggering w0 k (x ∷ xs) w bound (later, rest) j =
    let (list, j') = add-Triggering w0 k x w bound later j in
    let (list', j'') = adds-Triggering w0 k xs (add_timer x w) bound rest j' in (list' ∙ list, j'')

adds-calls : (xs : List Timer) (w : Tvec) → (add_timers xs w).calls ≡ w.calls
unfolding add_timers
adds-calls [] w = refl
adds-calls (x ∷ xs) w = adds-calls xs (add_timer x w) ∙ add_timer-calls x w

Member-append-inv :
    {A : Type 0} → (p q : A) (xs : List A) → Member p (xs ++ (q ∷ [])) → Member p xs ⊎ (p ≡ q)
Member-append-inv p q [] (here _) = inr refl
Member-append-inv p q [] (there _ _ m) = elim m [ ]
Member-append-inv p q (x ∷ xs) (here _) = inl (here xs)
Member-append-inv p q (x ∷ xs) (there _ _ m) = elim (Member-append-inv p q xs m) [
  | inl n ↦ inl (there x xs n)
  | inr e ↦ inr e
]

-- The call of a timer that is due.
abbrev called_at : ℕ → Timer → Tvec → Tvec
called_at k x w = record w { calls = w.calls ++ ((k, x) ∷ []) }

call-Triggering :
    (w0 : Tvec) (k : ℕ) (x : Timer) (w : Tvec)
    → (x.expires ≤ k) × Held x w0.vec
    → Triggering w0 k w
    → Triggering w0 k (called_at k x w)
call-Triggering w0 k x w due j = record {
  ticks = j.ticks;
  others = j.others;
  kept = λ t h. elim (j.kept t h) [
    | inl held ↦ inl held
    | inr (e, m) ↦ inr (e, Member-left (k, t) w.calls ((k, x) ∷ []) m)
  ];
  grown = λ n t m. Member-left (n, t) w.calls ((k, x) ∷ []) (j.grown n t m);
  called = λ n t m. elim (Member-append-inv (n, t) (k, x) w.calls m) [
    | inl old ↦ j.called n t old
    | inr new ↦
        let same : t ≡ x = ap (λ (p : ℕ × Timer). p.1) new in
        inr (
          ap (λ (p : ℕ × Timer). p.0) new,
          omega (arith, ap (λ (y : Timer). y.expires) same, due.0),
          subst (λ y. Held y w0.vec) (sym same) due.1,
        )
  ];
}

remove-ticks : (w : Tvec) (tv index : ℕ) → (remove_first tv index w).timer_ticks ≡ w.timer_ticks
unfolding remove_first
remove-ticks w tv index = refl

remove-calls : (w : Tvec) (tv index : ℕ) → (remove_first tv index w).calls ≡ w.calls
unfolding remove_first
remove-calls w tv index = refl

-- The timer that has been called leaves its list.
remove-Triggering :
    (w0 : Tvec) (k : ℕ) (x : Timer) (rest : List Timer) (w : Tvec)
    → w.vec 1 (k % 256) ≡ x ∷ rest
    → Member (k, x) w.calls
    → x.expires ≤ k
    → Triggering w0 k w
    → Triggering w0 k (remove_first 1 (k % 256) w)
remove-Triggering w0 k x rest w list called due j =
    let calls = remove-calls w 1 (k % 256) in
    record {
      ticks = remove-ticks w 1 (k % 256) ∙ j.ticks;
      others = remove_first-Others (At k (clock k 5)) 1 (k % 256) w j.others;
      kept = λ t h. elim (j.kept t h) [
        | inr (e, m) ↦ inr (e, subst (Member (k, t)) (sym calls) m)
        | inl held ↦ elim (remove_first-Held t x rest 1 (k % 256) w list held) [
          | inr left ↦ inl left
          | inl same ↦ inr (
            omega (arith, ap (λ (y : Timer). y.expires) same, due),
            subst (Member (k, t)) (sym calls)
                (subst (λ y. Member (k, y) w.calls) (sym same) called),
          )
        ]
      ];
      grown = λ n t m. subst (Member (n, t)) (sym calls) (j.grown n t m);
      called = λ n t m. j.called n t (subst (Member (n, t)) calls m);
    }

-- One round of the loop that triggers the timers.
pub trigger-Triggering :
    (adds : ℕ → Timer → List Timer) (w0 : Tvec) (k : ℕ) (x : Timer) (rest : List Timer) (w : Tvec)
    → AddsLater adds
    → k < 2 ^ 32
    → (x.expires ≤ k) × Held x w0.vec
    → w.vec 1 (k % 256) ≡ x ∷ rest
    → Triggering w0 k w
    → ((trigger adds (k % 256) x w).vec 1 (k % 256) ≡ rest)
      × Triggering w0 k (trigger adds (k % 256) x w)
unfolding trigger
trigger-Triggering adds w0 k x rest w later bound due list j =
    let w1 = called_at k x w in
    let (same, j2) =
      adds-Triggering w0 k (adds k x) w1 bound (later k bound x) (call-Triggering w0 k x w due j) in
    let w2 = add_timers (adds k x) w1 in
    let called : Member (k, x) w2.calls =
      subst (Member (k, x)) (sym (adds-calls (adds k x) w1)) (Member-snoc (k, x) w.calls) in
    subst
      (λ n.
        ((remove_first 1 (k % 256) (add_timers (adds n x) (called_at n x w))).vec 1 (k % 256)
          ≡ rest)
        × Triggering w0 k (remove_first 1 (k % 256) (add_timers (adds n x) (called_at n x w))))
      (sym j.ticks)
      (
        remove_first-rest x rest 1 (k % 256) w2 (same ∙ list),
        remove-Triggering w0 k x rest w2 (same ∙ list) called due.0 j2,
      )
