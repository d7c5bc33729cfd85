-- ===== src/Timers/Wheel.antt =====
-- The wheel of src/arch/i386/timer.c from `dynamic_timers_install` on: every operation keeps it in
-- order.
use mathlib.Core.Path.{subst}
use hos.Base.{
  ℕ, suc, ◌+◌, ◌^◌, ◌<◌, ◌≤◌, ◌≡◌, ◌≢◌, refl, sym, ap, ◌∙◌, false, ◌⊎◌, ◌==◌, arith, Bool-cases,
  inl, inr, List, [], ◌∷◌, some, none,
}
use hos.Timers.{
  Timer, Tvec, without, add_timer, del_timer, dynamic_timers_install, run_timer_softirq,
}
use hos.Timers.Members.{Every, Member, here, there, Held}
use hos.Timers.Placement.{IsNear, clock}
use hos.Timers.Cascade.{At, add_timer-Others, add_timer-Held, add_timer-new, add_timer-back}
use hos.Timers.Replenish.{clock_bound}
use hos.Timers.Trigger.{AddsLater}
use hos.Timers.Softirq.{IsWheel}
use hos.Timers.Elapsed.{run_timer_softirq-Elapsed}

-- What `add_timer` does: the wheel is in order, and holds the timer and those it held.
pub record Added (x : Timer) (w w' : Tvec) : Type 0 where
  pub ticks : w'.timer_ticks ≡ w.timer_ticks
  pub calls : w'.calls ≡ w.calls
  pub wheel : IsWheel w'
  pub new : Held x w'.vec
  pub held : (t : Timer) → Held t w.vec → Held t w'.vec
  pub back : (t : Timer) → Held t w'.vec → (t ≡ x) ⊎ Held t w.vec

pub add_timer-Added :
    (x : Timer) (w : Tvec) → IsWheel w → IsNear w.timer_ticks x.expires → Added x w (add_timer x w)
unfolding add_timer
add_timer-Added x w wheel near =
    let k = w.timer_ticks in
    record {
      ticks = refl;
      calls = refl;
      wheel = λ a b.
          add_timer-Others x w k (clock k 1) (suc a) b refl (clock_bound k 1) near
            (λ a' b' ne. wheel a' b') a b (ground arith);
      new = add_timer-new x w;
      held = λ t h. add_timer-Held t x w h;
      back = λ t h. add_timer-back t x w h;
    }

Every-without :
    (P : Timer → Type 0) (address : ℕ) (ts : List Timer) → Every P ts → Every P (without address ts)
unfolding without
Every-without P address [] all = tt
Every-without P address (t ∷ ts) (p, all) = elim (Bool-cases (t.address == address)) [
  | inl same ↦ rw same all
  | inr other ↦ rw other (p, Every-without P address ts all)
]

Member-without :
    (x : Timer) (address : ℕ) (ts : List Timer)
    → x.address ≢ address
    → Member x ts
    → Member x (without address ts)
unfolding without
Member-without x address _ ne (here ts) =
    let other : (x.address == address) ≡ false = ground (arith, ne) in
    rw other (here (without address ts))
Member-without x address _ ne (there t ts m) = elim (Bool-cases (t.address == address)) [
  | inl same ↦ rw same m
  | inr other ↦ rw other (there t (without address ts) (Member-without x address ts ne m))
]

-- A timer is taken off: the wheel is in order, and holds the timers at other addresses.
pub del_timer-IsWheel :
    (x : Timer) (w : Tvec)
    → IsWheel w
    → IsWheel (del_timer x w)
      × ((t : Timer) → t.address ≢ x.address → Held t w.vec → Held t (del_timer x w).vec)
unfolding del_timer
del_timer-IsWheel x w wheel =
    let k = w.timer_ticks in
    (
      (λ a b. Every-without (At k (clock k 1) a b) x.address (w.vec a b) (wheel a b)),
      (λ t ne (a, b, m). (a, b, Member-without t x.address (w.vec a b) ne m)),
    )

-- The wheels that the operations make from that of `dynamic_timers_install`.
pub data Reached (adds : ℕ → Timer → List Timer) : Tvec → Type 0 where
  installed : Reached adds dynamic_timers_install
  added :
      (x : Timer) (w : Tvec)
      → IsNear w.timer_ticks x.expires
      → Reached adds w
      → Reached adds (add_timer x w)
  deleted : (x : Timer) (w : Tvec) → Reached adds w → Reached adds (del_timer x w)
  run :
      (fuel current : ℕ) (w w' : Tvec)
      → w.timer_ticks ≤ current
      → current + 1 < 2 ^ 32
      → current + 1 < w.timer_ticks + fuel
      → run_timer_softirq fuel adds current w ≡ some w'
      → Reached adds w
      → Reached adds w'

some_inj : {A : Type 0} → (x y : A) → some x ≡ some y → x ≡ y
some_inj x y e = ap (λ o. elim o [ none ↦ x | some z ↦ z ]) e

-- Where the functions of timers add only timers that expire later, by less than 2 ^ 31 ticks, every wheel
-- that is reached from the installed one is in order: by any calls of `add_timer` for near ticks, of
-- `del_timer`, and of `run_timer_softirq` to a tick that is not below the wheel's and not the last of
-- 32 bits, with fuel for its rounds.
pub Reached-IsWheel :
    (adds : ℕ → Timer → List Timer) (w : Tvec) → AddsLater adds → Reached adds w → IsWheel w
unfolding dynamic_timers_install
Reached-IsWheel adds _ later installed = λ a b. tt
Reached-IsWheel adds _ later (added x w near r) =
    (add_timer-Added x w (Reached-IsWheel adds w later r) near).wheel
Reached-IsWheel adds _ later (deleted x w r) =
    (del_timer-IsWheel x w (Reached-IsWheel adds w later r)).0
Reached-IsWheel adds _ later (run fuel current w w' le bound enough runs r) =
    let (w2, runs2, done) =
      run_timer_softirq-Elapsed fuel adds current w later (Reached-IsWheel adds w later r) le bound
        enough in
    subst IsWheel (some_inj w2 w' (sym runs2 ∙ runs)) done.wheel
