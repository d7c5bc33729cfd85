-- ===== src/Timers/Cascade.antt =====
-- `cascate` of src/arch/i386/timer.c moves the timers of a list to where they belong.
use mathlib.Core.Path.{subst}
use hos.Base.{
  ℕ, ◌≡◌, refl, sym, ◌∙◌, true, false, ◌⊎◌, arith, Nat-cases, inl, inr, List, [], ◌∷◌, ◌++◌, some,
}
use hos.Timers.{rest_of, Timer, Tvec, put, find_tvec, add_timer, remove_first, relocate, cascate}
use hos.Timers.Members.{
  Every, Every-snoc, Every-map, is_place, Others, Everywhere, Others-put, Everywhere-Others, Held,
  Held-put, Held-new, Held-rest, Held-put-inv, Held-rest-inv, Held-first,
}
use hos.Timers.Placement.{Placed, IsNear, Clocks, find_tvec-Placed}
use hos.Timers.Walk.{for_each_safe-drains}

-- A timer is where it may be at tick `k` with the clocks `c`.
abbrev pub At : ℕ → (ℕ → ℕ) → ℕ → ℕ → Timer → Type 0
At k c tv index t = Placed k c tv index t.expires × IsNear k t.expires

-- A timer that goes to another list than `tv`, `index`.
pub record Leaves (k : ℕ) (c : ℕ → ℕ) (tv : ℕ) (t : Timer) : Type 0 where
  pub near : IsNear k t.expires
  pub leaves : (index : ℕ) → Placed k c tv index t.expires → ⊥

-- What holds while a list is relocated: its tick and the calls are those of `w0`, the other lists are
-- in order, and no timer has been lost.
record Moving (w0 : Tvec) (c : ℕ → ℕ) (tv index : ℕ) (w : Tvec) : Type 0 where
  ticks : w.timer_ticks ≡ w0.timer_ticks
  calls : w.calls ≡ w0.calls
  others : Others (At w0.timer_ticks c) tv index w.vec
  held : (t : Timer) → Held t w0.vec → Held t w.vec
  back : (t : Timer) → Held t w.vec → Held t w0.vec

-- A timer is added to a list that it may stand in.
pub add_timer-Others :
    (x : Timer) (w : Tvec) (k : ℕ) (c : ℕ → ℕ) (tv index : ℕ)
    → w.timer_ticks ≡ k
    → Clocks k c
    → IsNear k x.expires
    → Others (At k c) tv index w.vec
    → Others (At k c) tv index (add_timer x w).vec
unfolding add_timer
add_timer-Others x w k c tv index ticks clocks near others =
    let (i, l) = find_tvec w x in
    let place : Placed k c l i x.expires =
      subst (λ n. Placed n c l i x.expires) ticks
        (find_tvec-Placed w x c (subst (λ n. IsNear n x.expires) (sym ticks) near)
          (subst (λ n. Clocks n c) (sym ticks) clocks)) in
    Others-put (At k c) tv index w.vec l i (w.vec l i ++ (x ∷ [])) others
      (λ ne. Every-snoc (At k c l i) (w.vec l i) x (others l i ne) (place, near))

pub add_timer-elsewhere :
    (x : Timer) (w : Tvec) (tv index : ℕ)
    → is_place (find_tvec w x).1 (find_tvec w x).0 tv index ≡ false
    → (add_timer x w).vec tv index ≡ w.vec tv index
unfolding add_timer
add_timer-elsewhere x w tv index ne = rw ne refl

pub add_timer-Held : (t x : Timer) (w : Tvec) → Held t w.vec → Held t (add_timer x w).vec
unfolding add_timer
add_timer-Held t x w held = Held-put t x w.vec (find_tvec w x).1 (find_tvec w x).0 held

pub add_timer-new : (x : Timer) (w : Tvec) → Held x (add_timer x w).vec
unfolding add_timer
add_timer-new x w = Held-new x w.vec (find_tvec w x).1 (find_tvec w x).0

pub add_timer-back : (t x : Timer) (w : Tvec) → Held t (add_timer x w).vec → (t ≡ x) ⊎ Held t w.vec
unfolding add_timer
add_timer-back t x w held = Held-put-inv t x w.vec (find_tvec w x).1 (find_tvec w x).0 held

pub remove_first-back :
    (t x : Timer) (rest : List Timer) (tv index : ℕ) (w : Tvec)
    → w.vec tv index ≡ x ∷ rest
    → Held t (remove_first tv index w).vec
    → Held t w.vec
unfolding remove_first
remove_first-back t x rest tv index w list held =
    Held-rest-inv t x rest w.vec tv index list
      (subst (λ l. Held t (put w.vec tv index (rest_of l))) list held)

pub remove_first-rest :
    (x : Timer) (rest : List Timer) (tv index : ℕ) (w : Tvec)
    → w.vec tv index ≡ x ∷ rest
    → (remove_first tv index w).vec tv index ≡ rest
unfolding remove_first
remove_first-rest x rest tv index w list =
    let p : is_place tv index tv index ≡ true = ground arith in rw p (rw list refl)

pub remove_first-Others :
    (P : ℕ → ℕ → Timer → Type 0) (tv index : ℕ) (w : Tvec)
    → Others P tv index w.vec
    → Others P tv index (remove_first tv index w).vec
unfolding remove_first
remove_first-Others P tv index w others a b ne = rw ne (others a b ne)

pub remove_first-Held :
    (t x : Timer) (rest : List Timer) (tv index : ℕ) (w : Tvec)
    → w.vec tv index ≡ x ∷ rest
    → Held t w.vec
    → (t ≡ x) ⊎ Held t (remove_first tv index w).vec
unfolding remove_first
remove_first-Held t x rest tv index w list held =
    subst (λ l. (t ≡ x) ⊎ Held t (put w.vec tv index (rest_of l))) (sym list)
      (Held-rest t x rest w.vec tv index list held)

Leaves-elsewhere :
    (x : Timer) (w : Tvec) (k : ℕ) (c : ℕ → ℕ) (tv index : ℕ)
    → w.timer_ticks ≡ k
    → Clocks k c
    → Leaves k c tv x
    → is_place (find_tvec w x).1 (find_tvec w x).0 tv index ≡ false
Leaves-elsewhere x w k c tv index ticks clocks ok =
    let (i, l) = find_tvec w x in
    let place : Placed k c l i x.expires =
      subst (λ n. Placed n c l i x.expires) ticks
        (find_tvec-Placed w x c (subst (λ n. IsNear n x.expires) (sym ticks) ok.near)
          (subst (λ n. Clocks n c) (sym ticks) clocks)) in
    elim (Nat-cases l tv) [
      | inl same ↦ absurd (ok.leaves i (subst (λ n. Placed k c n i x.expires) same place))
      | inr other ↦ ground (arith, other)
    ]

remove_first-ticks :
    (tv index : ℕ) (w : Tvec) → (remove_first tv index w).timer_ticks ≡ w.timer_ticks
unfolding remove_first
remove_first-ticks tv index w = refl

relocate-ticks :
    (tv index : ℕ) (x : Timer) (w : Tvec) → (relocate tv index x w).timer_ticks ≡ w.timer_ticks
unfolding relocate remove_first add_timer
relocate-ticks tv index x w = refl

relocate-calls : (tv index : ℕ) (x : Timer) (w : Tvec) → (relocate tv index x w).calls ≡ w.calls
unfolding relocate remove_first add_timer
relocate-calls tv index x w = refl

relocate-Moving :
    (w0 : Tvec) (c : ℕ → ℕ) (tv index : ℕ) (x : Timer) (rest : List Timer) (w : Tvec)
    → Clocks w0.timer_ticks c
    → Leaves w0.timer_ticks c tv x
    → w.vec tv index ≡ x ∷ rest
    → Moving w0 c tv index w
    → ((relocate tv index x w).vec tv index ≡ rest) × Moving w0 c tv index (relocate tv index x w)
unfolding relocate
relocate-Moving w0 c tv index x rest w clocks ok list j =
    let w1 = remove_first tv index w in
    let ticks : w1.timer_ticks ≡ w0.timer_ticks = remove_first-ticks tv index w ∙ j.ticks in
    let others =
      add_timer-Others x w1 w0.timer_ticks c tv index ticks clocks ok.near
        (remove_first-Others (At w0.timer_ticks c) tv index w j.others) in
    (
      add_timer-elsewhere x w1 tv index
            (Leaves-elsewhere x w1 w0.timer_ticks c tv index ticks clocks ok)
          ∙ remove_first-rest x rest tv index w list,
      record {
        ticks = relocate-ticks tv index x w ∙ j.ticks;
        calls = relocate-calls tv index x w ∙ j.calls;
        others = others;
        held = λ t held. elim (remove_first-Held t x rest tv index w list (j.held t held)) [
          | inl same ↦ subst (λ y. Held y (add_timer x w1).vec) (sym same) (add_timer-new x w1)
          | inr kept ↦ add_timer-Held t x w1 kept
        ];
        back = λ t held. elim (add_timer-back t x w1 held) [
          | inl same ↦
              j.back t
                (subst (λ y. Held y w.vec) (sym same) (Held-first x rest w.vec tv index list))
          | inr left ↦ j.back t (remove_first-back t x rest tv index w list left)
        ];
      },
    )

-- The wheel `w'` holds the timers of `w`, with the clocks `c`, at the same tick and with the same calls.
pub record Relocated (w : Tvec) (c : ℕ → ℕ) (w' : Tvec) : Type 0 where
  pub ticks : w'.timer_ticks ≡ w.timer_ticks
  pub calls : w'.calls ≡ w.calls
  pub all : Everywhere (At w.timer_ticks c) w'.vec
  pub held : (t : Timer) → Held t w.vec → Held t w'.vec
  pub back : (t : Timer) → Held t w'.vec → Held t w.vec

-- With the timers of a list all leaving its vector, `cascate` ends, and every timer is where it may
-- be with the clock of that vector put forward. The calls are the same, and no timer is lost.
pub cascate-Moving :
    (w : Tvec) (c c' : ℕ → ℕ) (tv index : ℕ)
    → Clocks w.timer_ticks c'
    → Everywhere (At w.timer_ticks c) w.vec
    → ((t : Timer) → At w.timer_ticks c tv index t → Leaves w.timer_ticks c' tv t)
    → ((a b : ℕ) (t : Timer)
        → is_place tv index a b ≡ false
        → At w.timer_ticks c a b t
        → At w.timer_ticks c' a b t)
    → (w' : Tvec) × (cascate tv index w ≡ some w') × Relocated w c' w'
unfolding cascate
cascate-Moving w c c' tv index clocks all leave stay =
    let k = w.timer_ticks in
    let start : Moving w c' tv index w = record {
      ticks = refl;
      calls = refl;
      others =
          λ a b ne. Every-map (At k c a b) (At k c' a b) (w.vec a b) (λ t. stay a b t ne) (all a b);
      held = λ t h. h;
      back = λ t h. h;
    } in
    let (w', runs, empty, j) =
      for_each_safe-drains (relocate tv index) tv index (Leaves k c' tv) (Moving w c' tv index)
        (λ x rest w1 ok list j1. relocate-Moving w c' tv index x rest w1 clocks ok list j1)
        (w.vec tv index) w refl
        (Every-map (At k c tv index) (Leaves k c' tv) (w.vec tv index) leave (all tv index))
        start in
    (
      w',
      runs,
      record {
        ticks = j.ticks;
        calls = j.calls;
        all =
            Everywhere-Others (At k c') tv index w'.vec j.others
              (subst (Every (At k c' tv index)) (sym empty) tt);
        held = j.held;
        back = j.back;
      },
    )
