-- ===== src/Timers/Replenish.antt =====
-- The vectors are replenished when the first one has been used up, in src/arch/i386/timer.c.
use mathlib.Core.Path.{subst}
use hos.Base.{
  ℕ, ◌+◌, ◌/◌, ◌%◌, ◌≤◌, ◌≡◌, refl, sym, ◌∙◌, false, ◌==◌, arith, Bool-cases, inl, inr, Option,
  some,
}
use hos.Timers.{Timer, Tvec, cascate, replenish}
use hos.Timers.Members.{is_place, Every-map, Everywhere}
use hos.Timers.Placement.{
  Placed, Clocks, clock, relocated_2, relocated_3, relocated_4, relocated_5, settled_2, settled_3,
  settled_4,
}
use hos.Timers.Due.{leaves_2, leaves_3, leaves_4, leaves_5}
use hos.Timers.Cascade.{At, Leaves, Relocated, cascate-Moving}

Relocated-join :
    (w w1 w2 : Tvec) (c c' : ℕ → ℕ) → Relocated w c w1 → Relocated w1 c' w2 → Relocated w c' w2
Relocated-join w w1 w2 c c' r r' = record {
  ticks = r'.ticks ∙ r.ticks;
  calls = r'.calls ∙ r.calls;
  all = subst (λ n. Everywhere (At n c') w2.vec) r.ticks r'.all;
  held = λ t h. r'.held t (r.held t h);
  back = λ t h. r.back t (r'.back t h);
}

-- The same wheel, when nothing more is to be relocated.
Relocated-settled :
    (w w1 : Tvec) (c c' : ℕ → ℕ)
    → ((a b : ℕ) (t : Timer)
        → Placed w.timer_ticks c a b t.expires
        → Placed w.timer_ticks c' a b t.expires)
    → Relocated w c w1
    → Relocated w c' w1
Relocated-settled w w1 c c' f r = record {
  ticks = r.ticks;
  calls = r.calls;
  all = λ a b.
      Every-map (At w.timer_ticks c a b) (At w.timer_ticks c' a b) (w1.vec a b)
        (λ t at. (f a b t at.0, at.1)) (r.all a b);
  held = r.held;
  back = r.back;
}

pub clock_bound : (k n tv : ℕ) → clock k n tv ≤ k + 1
clock_bound k n tv = ground arith

-- `cascate` at tick `k`, behind what was relocated before.
relocate_list :
    (w0 w : Tvec) (k : ℕ) (c c' : ℕ → ℕ) (tv index : ℕ)
    → w0.timer_ticks ≡ k
    → Clocks k c'
    → ((t : Timer) → At k c tv index t → Leaves k c' tv t)
    → ((a b : ℕ) (t : Timer) → is_place tv index a b ≡ false → At k c a b t → At k c' a b t)
    → Relocated w0 c w
    → (w' : Tvec) × (cascate tv index w ≡ some w') × Relocated w0 c' w'
relocate_list w0 w k c c' tv index tick clocks leave stay r =
    let back = sym (r.ticks ∙ tick) in
    let (w', runs, r') =
      cascate-Moving w c c' tv index (subst (λ n. Clocks n c') back clocks)
        (subst (λ n. Everywhere (At n c) w.vec) (sym r.ticks) r.all)
        (subst (λ n. (t : Timer) → At n c tv index t → Leaves n c' tv t) back leave)
        (subst
          (λ n.
            (a b : ℕ) (t : Timer) → is_place tv index a b ≡ false → At n c a b t → At n c' a b t)
          back stay) in
    (w', runs, Relocated-join w0 w w' c c' r r')

-- The list of `tv2` that is due.
cascade_2 :
    (w0 w : Tvec) (k : ℕ)
    → w0.timer_ticks ≡ k
    → k % 256 ≡ 0
    → Relocated w0 (clock k 1) w
    → (w' : Tvec) × (cascate 2 (k / 256 % 64) w ≡ some w') × Relocated w0 (clock k 2) w'
cascade_2 w0 w k tick start =
    relocate_list w0 w k (clock k 1) (clock k 2) 2 (k / 256 % 64) tick (clock_bound k 2)
      (λ t at. record { near = at.1; leaves = λ i after. leaves_2 k t.expires i start at.0 after })
      (λ a b t ne at. (relocated_2 k a b t.expires start ne at.0, at.1))

-- The list of `tv3` that is due.
cascade_3 :
    (w0 w : Tvec) (k : ℕ)
    → w0.timer_ticks ≡ k
    → k % 16384 ≡ 0
    → Relocated w0 (clock k 2) w
    → (w' : Tvec) × (cascate 3 (k / 16384 % 64) w ≡ some w') × Relocated w0 (clock k 3) w'
cascade_3 w0 w k tick start =
    relocate_list w0 w k (clock k 2) (clock k 3) 3 (k / 16384 % 64) tick (clock_bound k 3)
      (λ t at. record { near = at.1; leaves = λ i after. leaves_3 k t.expires i start at.0 after })
      (λ a b t ne at. (relocated_3 k a b t.expires start ne at.0, at.1))

-- The list of `tv4` that is due.
cascade_4 :
    (w0 w : Tvec) (k : ℕ)
    → w0.timer_ticks ≡ k
    → k % 1048576 ≡ 0
    → Relocated w0 (clock k 3) w
    → (w' : Tvec) × (cascate 4 (k / 1048576 % 64) w ≡ some w') × Relocated w0 (clock k 4) w'
cascade_4 w0 w k tick start =
    relocate_list w0 w k (clock k 3) (clock k 4) 4 (k / 1048576 % 64) tick (clock_bound k 4)
      (λ t at. record { near = at.1; leaves = λ i after. leaves_4 k t.expires i start at.0 after })
      (λ a b t ne at. (relocated_4 k a b t.expires start ne at.0, at.1))

-- The list of `tv5` that is due.
cascade_5 :
    (w0 w : Tvec) (k : ℕ)
    → w0.timer_ticks ≡ k
    → k % 67108864 ≡ 0
    → Relocated w0 (clock k 4) w
    → (w' : Tvec) × (cascate 5 (k / 67108864 % 64) w ≡ some w') × Relocated w0 (clock k 5) w'
cascade_5 w0 w k tick start =
    relocate_list w0 w k (clock k 4) (clock k 5) 5 (k / 67108864 % 64) tick (clock_bound k 5)
      (λ t at. record { near = at.1; leaves = λ i after. leaves_5 k t.expires i start at.0 after })
      (λ a b t ne at. (relocated_5 k a b t.expires start ne at.0, at.1))

-- All vectors are in order behind `tv2` to `tv5`, as far as they are due.
abbrev pub Replenished : Tvec → Option Tvec → Type 0
Replenished w0 run = (w' : Tvec) × (run ≡ some w') × Relocated w0 (clock w0.timer_ticks 5) w'

pub settle :
    (w0 w : Tvec) (n : ℕ)
    → ((a b e : ℕ)
        → Placed w0.timer_ticks (clock w0.timer_ticks n) a b e
        → Placed w0.timer_ticks (clock w0.timer_ticks 5) a b e)
    → Relocated w0 (clock w0.timer_ticks n) w
    → Replenished w0 (some w)
settle w0 w n f r = (
  w,
  refl,
  Relocated-settled w0 w (clock w0.timer_ticks n) (clock w0.timer_ticks 5)
      (λ a b t. f a b t.expires) r,
)

-- In the tick at which the first vector starts again, the calls of `cascate` end, and then no timer
-- outside the first vector is due at this tick.
pub replenish-Relocated :
    (w : Tvec)
    → w.timer_ticks % 256 ≡ 0
    → Everywhere (At w.timer_ticks (clock w.timer_ticks 1)) w.vec
    → (w' : Tvec) × (replenish w ≡ some w') × Relocated w (clock w.timer_ticks 5) w'
unfolding replenish
replenish-Relocated w start all =
    let k = w.timer_ticks in
    let r1 : Relocated w (clock k 1) w = record {
      ticks = refl;
      calls = refl;
      all = all;
      held = λ t h. h;
      back = λ t h. h;
    } in
    let (w2, runs2, r2) = cascade_2 w w k refl start r1 in
    rw runs2 (elim (Bool-cases (k / 256 % 64 == 0)) [
      | inr f ↦ rw f (settle w w2 2 (λ a b e. settled_2 k a b e (ground (arith, f))) r2)
      | inl t ↦
          let start3 : k % 16384 ≡ 0 = ground (arith, t, start) in
          let (w3, runs3, r3) = cascade_3 w w2 k refl start3 r2 in
          rw t (
            rw runs3 (elim (Bool-cases (k / 16384 % 64 == 0)) [
              | inr f ↦ rw f (settle w w3 3 (λ a b e. settled_3 k a b e (ground (arith, f))) r3)
              | inl t3 ↦
                  let start4 : k % 1048576 ≡ 0 = ground (arith, t3, start3) in
                  let (w4, runs4, r4) = cascade_4 w w3 k refl start4 r3 in
                  rw t3 (
                    rw runs4 (elim (Bool-cases (k / 1048576 % 64 == 0)) [
                      | inr f ↦
                          rw f (settle w w4 4 (λ a b e. settled_4 k a b e (ground (arith, f))) r4)
                      | inl t4 ↦
                          let start5 : k % 67108864 ≡ 0 = ground (arith, t4, start4) in
                          rw t4 (cascade_5 w w4 k refl start5 r4)
                    ]))
            ]))
    ])
