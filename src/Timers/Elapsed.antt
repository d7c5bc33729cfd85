-- ===== src/Timers/Elapsed.antt =====
-- Runs of `run_timer_softirq` of src/arch/i386/timer.c, over many ticks.
use mathlib.Core.Path.{subst}
use hos.Base.{
  ℕ, zero, suc, ◌+◌, ◌^◌, ◌<◌, ◌≤◌, ◌≡◌, refl, sym, ◌∙◌, true, false, ◌⊎◌, leb, arith, Nat-cases,
  inl, inr, List, some,
}
use hos.Timers.{Timer, Tvec, run_timer_softirq}
use hos.Timers.Members.{Member, Held}
use hos.Timers.Trigger.{AddsLater}
use hos.Timers.Softirq.{IsWheel, Ticked, run_tick-Ticked}

-- What a run up to tick `current` does: each timer held is called at the tick it expires at, or at the
-- first tick if it should have been called before, or is still held; and no other call is made of
-- the timers held.
pub record Elapsed (w : Tvec) (current : ℕ) (w' : Tvec) : Type 0 where
  pub ticks : w'.timer_ticks ≡ current + 1
  pub wheel : IsWheel w'
  pub waiting : (t : Timer) → Held t w'.vec → current < t.expires
  pub on_time :
      (t : Timer)
      → Held t w.vec
      → w.timer_ticks ≤ t.expires
      → t.expires ≤ current
      → Member (t.expires, t) w'.calls
  pub late :
      (t : Timer) → Held t w.vec → t.expires < w.timer_ticks → Member (w.timer_ticks, t) w'.calls
  pub still : (t : Timer) → Held t w.vec → current < t.expires → Held t w'.vec
  pub grown : (n : ℕ) (t : Timer) → Member (n, t) w.calls → Member (n, t) w'.calls
  pub called :
      (n : ℕ) (t : Timer)
      → Member (n, t) w'.calls
      → Member (n, t) w.calls
        ⊎ ((w.timer_ticks ≤ n)
            × (n ≤ current)
            × ((n ≡ t.expires)
                ⊎ ((n ≡ w.timer_ticks) × (t.expires < w.timer_ticks) × Held t w.vec)))

-- A run of one tick.
Elapsed-one : (w w' : Tvec) → Ticked w w' → Elapsed w w.timer_ticks w'
Elapsed-one w w' d =
    let k = w.timer_ticks in
    record {
      ticks = d.ticks;
      wheel = d.wheel;
      waiting = d.waiting;
      on_time = λ t h low high. elim (d.kept t h) [
        | inl held ↦ absurd (omega (arith, d.waiting t held))
        | inr (e, m) ↦
            let same : k ≡ t.expires = omega arith in subst (λ n. Member (n, t) w'.calls) same m
      ];
      late = λ t h lt. elim (d.kept t h) [
        | inl held ↦ absurd (omega (arith, d.waiting t held))
        | inr (e, m) ↦ m
      ];
      still = λ t h lt. elim (d.kept t h) [ inl held ↦ held | inr (e, m) ↦ absurd (omega arith) ];
      grown = d.grown;
      called = λ n t m. elim (d.called n t m) [
        | inl old ↦ inl old
        | inr (at, e, held) ↦ inr (
          omega (arith, at),
          omega (arith, at),
          elim (Nat-cases t.expires k) [
            | inl same ↦ inl (at ∙ sym same)
            | inr other ↦ inr (at, omega arith, held)
          ],
        )
      ];
    }

-- A tick, and a run from the next tick on.
Elapsed-more :
    (w w1 w' : Tvec) (current : ℕ)
    → w.timer_ticks < current
    → Ticked w w1
    → Elapsed w1 current w'
    → Elapsed w current w'
Elapsed-more w w1 w' current lt d r =
    let k = w.timer_ticks in
    let next : w1.timer_ticks ≡ k + 1 = d.ticks in
    record {
      ticks = r.ticks;
      wheel = r.wheel;
      waiting = r.waiting;
      on_time = λ t h low high. elim (d.kept t h) [
        | inl held ↦ r.on_time t held (omega (arith, d.waiting t held, next)) high
        | inr (e, m) ↦
            let same : k ≡ t.expires = omega arith in
            r.grown t.expires t (subst (λ n. Member (n, t) w1.calls) same m)
      ];
      late = λ t h past. elim (d.kept t h) [
        | inl held ↦ absurd (omega (arith, d.waiting t held))
        | inr (e, m) ↦ r.grown k t m
      ];
      still = λ t h later. elim (d.kept t h) [
        | inl held ↦ r.still t held later
        | inr (e, m) ↦ absurd (omega arith)
      ];
      grown = λ n t m. r.grown n t (d.grown n t m);
      called = λ n t m. elim (r.called n t m) [
        | inr (low, high, inl same) ↦ inr (omega (arith, next), high, inl same)
        | inr (low, high, inr (at, past, held)) ↦ absurd (omega (arith, d.waiting t held, next))
        | inl old ↦ elim (d.called n t old) [
          | inl older ↦ inl older
          | inr (at, e, held) ↦ inr (
            omega (arith, at),
            omega (arith, at),
            elim (Nat-cases t.expires k) [
              | inl same ↦ inl (at ∙ sym same)
              | inr other ↦ inr (at, omega arith, held)
            ],
          )
        ]
      ];
    }

-- A run that has come to tick `current` ends.
run_timer_softirq-ends :
    (fuel : ℕ) (adds : ℕ → Timer → List Timer) (current : ℕ) (w : Tvec)
    → current < w.timer_ticks
    → 0 < fuel
    → run_timer_softirq fuel adds current w ≡ some w
unfolding run_timer_softirq
run_timer_softirq-ends zero adds current w past some_fuel = absurd (omega arith)
run_timer_softirq-ends (suc fuel) adds current w past some_fuel =
    let over : leb w.timer_ticks current ≡ false = ground arith in rw (over, run_timer_softirq) refl

-- On a wheel in order, where the functions of timers add only timers that expire later, by less than
-- 2 ^ 31 ticks, a run to a tick that is not below the wheel's and not the last of 32 bits, with fuel for
-- a round for each tick and one more, ends, and every timer is called on time.
pub run_timer_softirq-Elapsed :
    (fuel : ℕ) (adds : ℕ → Timer → List Timer) (current : ℕ) (w : Tvec)
    → AddsLater adds
    → IsWheel w
    → w.timer_ticks ≤ current
    → current + 1 < 2 ^ 32
    → current + 1 < w.timer_ticks + fuel
    → (w' : Tvec) × (run_timer_softirq fuel adds current w ≡ some w') × Elapsed w current w'
unfolding run_timer_softirq
run_timer_softirq-Elapsed zero adds current w later wheel le bound enough = absurd (omega arith)
run_timer_softirq-Elapsed (suc fuel) adds current w later wheel le bound enough =
    let go : leb w.timer_ticks current ≡ true = ground arith in
    let (w1, runs, d) = run_tick-Ticked adds w later (omega arith) wheel in
    let next = d.ticks in
    rw (go, run_timer_softirq)
      (rw runs (elim (Nat-cases w.timer_ticks current) [
        | inl same ↦ (
          w1,
          run_timer_softirq-ends fuel adds current w1 (omega (arith, next, same))
              (omega (arith, same)),
          subst (λ n. Elapsed w n w1) same (Elapsed-one w w1 d),
        )
        | inr other ↦
            let (w2, runs2, r) =
              run_timer_softirq-Elapsed fuel adds current w1 later d.wheel (omega (arith, next))
                bound (omega (arith, next)) in
            (w2, runs2, Elapsed-more w w1 w2 current (omega arith) d r)
      ]))
