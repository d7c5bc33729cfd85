-- ===== src/Timers/Softirq.antt =====
-- `run_timer_softirq` of src/arch/i386/timer.c: which timers it calls, and when.
use mathlib.Core.Path.{subst}
use hos.Base.{
  ℕ, ◌+◌, ◌%◌, ◌^◌, ◌<◌, ◌≤◌, ◌≡◌, refl, sym, u32, false, ◌⊎◌, ◌==◌, if◌then◌else◌, arith,
  Bool-cases, inl, inr, List, [], some,
}
use hos.Timers.{Timer, Tvec, replenish, trigger, run_tick}
use hos.Timers.Members.{
  Every, Every-map, Every-Member, Every-tabulate, Member, is_place, Everywhere, Everywhere-Others,
  Held,
}
use hos.Timers.Placement.{clock, due_now, next_tick, settled_1}
use hos.Timers.Walk.{for_each_safe-drains}
use hos.Timers.Cascade.{At}
use hos.Timers.Replenish.{Replenished, replenish-Relocated, settle}
use hos.Timers.Trigger.{AddsLater, Triggering, trigger-Triggering}

-- Every timer stands where it may at the tick of the wheel.
abbrev pub IsWheel : Tvec → Type 0
IsWheel w = Everywhere (At w.timer_ticks (clock w.timer_ticks 1)) w.vec

-- What one tick does: the timers held are called if they are due, and are held otherwise.
pub record Ticked (w w' : Tvec) : Type 0 where
  pub ticks : w'.timer_ticks ≡ w.timer_ticks + 1
  pub wheel : IsWheel w'
  pub waiting : (t : Timer) → Held t w'.vec → w.timer_ticks < t.expires
  pub kept :
      (t : Timer)
      → Held t w.vec
      → Held t w'.vec ⊎ ((t.expires ≤ w.timer_ticks) × Member (w.timer_ticks, t) w'.calls)
  pub grown : (n : ℕ) (t : Timer) → Member (n, t) w.calls → Member (n, t) w'.calls
  pub called :
      (n : ℕ) (t : Timer)
      → Member (n, t) w'.calls
      → Member (n, t) w.calls ⊎ ((n ≡ w.timer_ticks) × (t.expires ≤ w.timer_ticks) × Held t w.vec)

-- The vectors behind the first one are in order.
replenished :
    (w : Tvec)
    → IsWheel w
    → Replenished w (if w.timer_ticks % 256 == 0 then replenish w else some w)
replenished w all = elim (Bool-cases (w.timer_ticks % 256 == 0)) [
  | inl t ↦ rw t (replenish-Relocated w (ground (arith, t)) all)
  | inr f ↦ rw f (
      settle w w 1 (λ a b e. settled_1 w.timer_ticks a b e (ground (arith, f)))
        (record { ticks = refl; calls = refl; all = all; held = λ t h. h; back = λ t h. h }))
]

-- The timers that are not in the list that has been triggered, at the next tick.
next-At :
    (k a b : ℕ) (t : Timer)
    → k + 1 < 2 ^ 32
    → is_place 1 (k % 256) a b ≡ false
    → At k (clock k 5) a b t
    → (k < t.expires) × At (k + 1) (clock (k + 1) 1) a b t
next-At k a b t bound ne (place, near) =
    let (lt, place') = next_tick k a b t.expires ne place in
    let e_bound = near.e_bound in
    let ahead = near.ahead in
    (
      lt,
      (
        place',
        record { k_bound = bound; e_bound = e_bound; ahead = omega arith; behind = omega arith },
      ),
    )

-- With the list of this tick drained, the tick is done.
ticked :
    (w w2 : Tvec)
    → w.timer_ticks + 1 < 2 ^ 32
    → w2.vec 1 (w.timer_ticks % 256) ≡ []
    → Triggering w w.timer_ticks w2
    → Ticked w (record w2 { timer_ticks = u32 (w2.timer_ticks + 1) })
ticked w w2 bound empty j =
    let k = w.timer_ticks in
    let next : u32 (w2.timer_ticks + 1) ≡ k + 1 = omega (arith, j.ticks) in
    let both = λ (t : Timer) (a b : ℕ). (k < t.expires) × At (k + 1) (clock (k + 1) 1) a b t in
    let all : Everywhere (λ a b t. both t a b) w2.vec =
      Everywhere-Others (λ a b t. both t a b) 1 (k % 256) w2.vec
        (λ a b ne.
          Every-map (At k (clock k 5) a b) (λ t. both t a b) (w2.vec a b)
            (λ t at. next-At k a b t bound ne at) (j.others a b ne))
        (subst (Every (λ t. both t 1 (k % 256))) (sym empty) tt) in
    record {
      ticks = next;
      wheel =
          subst (λ n. Everywhere (At n (clock n 1)) w2.vec) (sym next)
            (λ a b.
              Every-map (λ t. both t a b) (At (k + 1) (clock (k + 1) 1) a b) (w2.vec a b)
                (λ t p. p.1) (all a b));
      waiting = λ t (a, b, m). (Every-Member (λ t'. both t' a b) t (w2.vec a b) m (all a b)).0;
      kept = j.kept;
      grown = j.grown;
      called = j.called;
    }

-- One round of `run_timer_softirq` ends, and calls the timers that are due and no others.
pub run_tick-Ticked :
    (adds : ℕ → Timer → List Timer) (w : Tvec)
    → AddsLater adds
    → w.timer_ticks + 1 < 2 ^ 32
    → IsWheel w
    → (w' : Tvec) × (run_tick adds w ≡ some w') × Ticked w w'
unfolding run_tick
run_tick-Ticked adds w later bound all =
    let k = w.timer_ticks in
    let (w1, runs1, r) = replenished w all in
    let start : Triggering w k w1 = record {
      ticks = r.ticks;
      others = λ a b ne. r.all a b;
      kept = λ t h. inl (r.held t h);
      grown = λ n t m. subst (Member (n, t)) (sym r.calls) m;
      called = λ n t m. inl (subst (Member (n, t)) r.calls m);
    } in
    let (w2, runs2, empty, j) =
      for_each_safe-drains (trigger adds (k % 256)) 1 (k % 256)
        (λ t. (t.expires ≤ k) × Held t w.vec) (Triggering w k)
        (λ x rest w' ok list j'.
          trigger-Triggering adds w k x rest w' later (omega arith) ok list j')
        (w1.vec 1 (k % 256)) w1 refl
        (Every-tabulate (λ t. (t.expires ≤ k) × Held t w.vec) (w1.vec 1 (k % 256))
          (λ t m. (
            due_now k t.expires
                (Every-Member (At k (clock k 5) 1 (k % 256)) t (w1.vec 1 (k % 256)) m
                  (r.all 1 (k % 256))).0,
            r.back t (1, k % 256, m),
          )))
        start in
    (
      record w2 { timer_ticks = u32 (w2.timer_ticks + 1) },
      rw runs1 (rw runs2 refl),
      ticked w w2 bound empty j,
    )
