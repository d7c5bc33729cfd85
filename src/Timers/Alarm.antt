-- ===== src/Timers/Alarm.antt =====
-- `sys_alarm` of src/arch/i386/timer.c: the alarm rings at its tick.
use mathlib.Core.Path.{subst}
use hos.Base.{
  ℕ, ◌+◌, ◌-◌, ◌*◌, ◌/◌, ◌^◌, ◌<◌, ◌≤◌, ◌≡◌, refl, sym, u32, false, ◌==◌, if◌then◌else◌, arith,
  List, Option, some, none,
}
use hos.Timers.{Timer, alarm_timeout, Tvec, add_timer, del_timer, run_timer_softirq}
use hos.Timers.Members.{Member}
use hos.Timers.Placement.{IsNear}
use hos.Timers.Trigger.{AddsLater}
use hos.Timers.Softirq.{IsWheel}
use hos.Timers.Elapsed.{run_timer_softirq-Elapsed}
use hos.Timers.Wheel.{add_timer-Added, del_timer-IsWheel}

-- The fields of a task that are about its timers.
pub record TaskTimers : Type 0 where
  pub pid : ℕ
  pub real_timer : Option Timer
  pub it_real_incr : ℕ
  pub it_real_value : ℕ
  pub it_virt_incr : ℕ
  pub it_virt_value : ℕ
  pub it_prof_incr : ℕ
  pub it_prof_value : ℕ

-- The end of `sys_alarm`: the timer at `address` is set.
pub set_alarm : ℕ → ℕ → ℕ → ℕ → TaskTimers → Tvec → ℕ × TaskTimers × Tvec
set_alarm result ticks address seconds current base =
    let timer : Timer = record {
      address = address;
      expires = u32 (ticks + u32 (1193 * seconds));
      function = alarm_timeout;
      argument = current.pid;
    } in
    (result, record current { real_timer = some timer }, add_timer timer base)

-- `sys_alarm` at tick `ticks`; `fresh` is what `kmalloc` returns.
pub sys_alarm : ℕ → ℕ → ℕ → TaskTimers → Tvec → ℕ × TaskTimers × Tvec
sys_alarm ticks fresh seconds current base = elim current.real_timer [
  | none ↦ if seconds == 0 then (0, current, base) else set_alarm 0 ticks fresh seconds current base
  | some timer ↦
      let base' = del_timer timer base in
      let result = u32 (timer.expires + (2 ^ 32 - ticks)) / 1193 in
      if seconds == 0
      then (result, record current { real_timer = none }, base')
      else set_alarm result ticks timer.address seconds current base'
]

-- A tick to set an alarm at: the wheel is at most one tick ahead, and not far behind.
pub record CanSet (ticks seconds : ℕ) (w : Tvec) : Type 0 where
  pub wheel : IsWheel w
  pub some_seconds : 0 < seconds
  pub few_seconds : 1193 * seconds < 2 ^ 30
  pub in_range : ticks + 1193 * seconds < 2 ^ 32
  pub not_ahead : w.timer_ticks ≤ ticks + 1
  pub not_behind : ticks < w.timer_ticks + 2 ^ 30

-- The alarm is in the call of its function at the tick it was set for.
abbrev pub Rings : ℕ → ℕ → TaskTimers → Tvec → Type 0
Rings ticks seconds task w =
    (t : Timer) × (task.real_timer ≡ some t)
    × (t.function ≡ alarm_timeout)
    × (t.argument ≡ task.pid)
    × Member (ticks + 1193 * seconds, t) w.calls

set_alarm-Rings :
    (fuel : ℕ) (adds : ℕ → Timer → List Timer) (now result ticks address seconds : ℕ)
    (task : TaskTimers) (w : Tvec)
    → AddsLater adds
    → CanSet ticks seconds w
    → ticks + 1193 * seconds ≤ now
    → now + 1 < 2 ^ 32
    → now + 1 < w.timer_ticks + fuel
    → (w' : Tvec) × (run_timer_softirq fuel adds now
          (set_alarm result ticks address seconds task w).2
        ≡ some w')
      × Rings ticks seconds (set_alarm result ticks address seconds task w).1 w'
unfolding set_alarm
set_alarm-Rings fuel adds now result ticks address seconds task w later can due bound enough =
    let some_seconds = can.some_seconds in
    let few = can.few_seconds in
    let in_range = can.in_range in
    let ahead = can.not_ahead in
    let behind = can.not_behind in
    let at : u32 (ticks + u32 (1193 * seconds)) ≡ ticks + 1193 * seconds = omega arith in
    let x : Timer = record {
      address = address;
      expires = u32 (ticks + u32 (1193 * seconds));
      function = alarm_timeout;
      argument = task.pid;
    } in
    let near : IsNear w.timer_ticks x.expires = record {
      k_bound = omega arith;
      e_bound = omega arith;
      ahead = omega arith;
      behind = omega arith;
    } in
    let added = add_timer-Added x w can.wheel near in
    let tick = added.ticks in
    let (w', runs, done) =
      run_timer_softirq-Elapsed fuel adds now (add_timer x w) later added.wheel
        (omega (arith, tick)) bound (omega (arith, tick)) in
    (
      w',
      runs,
      (
        x,
        refl,
        refl,
        refl,
        subst (λ n. Member (n, x) w'.calls) at
            (done.on_time x added.new (omega (arith, tick)) (omega arith)),
      ),
    )

del_timer-ticks : (x : Timer) (w : Tvec) → (del_timer x w).timer_ticks ≡ w.timer_ticks
unfolding del_timer
del_timer-ticks x w = refl

-- The two cases of `sys_alarm`, for some seconds.
alarm_for : ℕ → ℕ → ℕ → Option Timer → TaskTimers → Tvec → ℕ × TaskTimers × Tvec
alarm_for ticks fresh seconds none task w = set_alarm 0 ticks fresh seconds task w
alarm_for ticks fresh seconds (some timer) task w =
    set_alarm (u32 (timer.expires + (2 ^ 32 - ticks)) / 1193) ticks timer.address seconds task
      (del_timer timer w)

sys_alarm_cases :
    (ticks fresh seconds : ℕ) (timer : Option Timer) (task : TaskTimers) (w : Tvec)
    → 0 < seconds
    → task.real_timer ≡ timer
    → sys_alarm ticks fresh seconds task w ≡ alarm_for ticks fresh seconds timer task w
unfolding sys_alarm alarm_for
sys_alarm_cases ticks fresh seconds none task w pos e =
    let set : (seconds == 0) ≡ false = ground arith in rw e (rw set refl)
sys_alarm_cases ticks fresh seconds (some timer) task w pos e =
    let set : (seconds == 0) ≡ false = ground arith in rw e (rw set refl)

-- An alarm rings when `run_timer_softirq` has come to its tick.
abbrev pub RingsBy : ℕ → (ℕ → Timer → List Timer) → ℕ → ℕ → ℕ → ℕ × TaskTimers × Tvec → Type 0
RingsBy fuel adds now ticks seconds (result, task, w) =
    (w' : Tvec) × (run_timer_softirq fuel adds now w ≡ some w') × Rings ticks seconds task w'

alarm_for-Rings :
    (fuel : ℕ) (adds : ℕ → Timer → List Timer) (now ticks fresh seconds : ℕ) (timer : Option Timer)
    (task : TaskTimers) (w : Tvec)
    → AddsLater adds
    → CanSet ticks seconds w
    → ticks + 1193 * seconds ≤ now
    → now + 1 < 2 ^ 32
    → now + 1 < w.timer_ticks + fuel
    → RingsBy fuel adds now ticks seconds (alarm_for ticks fresh seconds timer task w)
unfolding alarm_for
alarm_for-Rings fuel adds now ticks fresh seconds none task w later can due bound enough =
    set_alarm-Rings fuel adds now 0 ticks fresh seconds task w later can due bound enough
alarm_for-Rings fuel adds now ticks fresh seconds (some timer) task w later can due bound enough =
    let same = del_timer-ticks timer w in
    set_alarm-Rings fuel adds now (u32 (timer.expires + (2 ^ 32 - ticks)) / 1193) ticks
      timer.address seconds task (del_timer timer w) later
      (record {
        wheel = (del_timer-IsWheel timer w can.wheel).0;
        some_seconds = can.some_seconds;
        few_seconds = can.few_seconds;
        in_range = can.in_range;
        not_ahead = omega (arith, same, can.not_ahead);
        not_behind = omega (arith, same, can.not_behind);
      })
      due bound (omega (arith, same))

-- Where the functions of timers add only timers that expire later, by less than 2 ^ 31 ticks, an alarm set
-- on a wheel in order for some seconds in range rings at its tick, when `run_timer_softirq` has come to
-- it, be there an earlier alarm or not; the run goes to a tick that is not the last of 32 bits, with
-- fuel for its rounds.
pub sys_alarm-RingsBy :
    (fuel : ℕ) (adds : ℕ → Timer → List Timer) (now ticks fresh seconds : ℕ) (task : TaskTimers)
    (w : Tvec)
    → AddsLater adds
    → CanSet ticks seconds w
    → ticks + 1193 * seconds ≤ now
    → now + 1 < 2 ^ 32
    → now + 1 < w.timer_ticks + fuel
    → RingsBy fuel adds now ticks seconds (sys_alarm ticks fresh seconds task w)
sys_alarm-RingsBy fuel adds now ticks fresh seconds task w later can due bound enough =
    subst (RingsBy fuel adds now ticks seconds)
      (sym (sys_alarm_cases ticks fresh seconds task.real_timer task w can.some_seconds refl))
      (alarm_for-Rings fuel adds now ticks fresh seconds task.real_timer task w later can due bound
        enough)
