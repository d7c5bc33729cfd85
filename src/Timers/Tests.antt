-- ===== src/Timers/Tests.antt =====
-- Runs of the timers of src/arch/i386/timer.c at concrete inputs.
use hos.Base.{
  ℕ, ◌≡◌, refl, arith, inl, inr, ◌+◌, ◌^◌, ltb, Bool-cases, if◌then◌else◌, List, [], ◌∷◌, Option,
  some, none,
}
use hos.Timers.{
  Timer, sleep_timeout, alarm_timeout, Tvec, add_timer, dynamic_timers_install, replenish,
  run_timer_softirq, run_tick, del_timer,
}
use hos.Timers.Placement.{IsNear}
use hos.Timers.Trigger.{AddsLater}
use hos.Timers.Softirq.{IsWheel}
use hos.Timers.Elapsed.{Elapsed, run_timer_softirq-Elapsed}
use hos.Timers.Wheel.{Reached, installed, added, deleted, run, Reached-IsWheel}
use hos.Timers.Alarm.{TaskTimers, CanSet, RingsBy, sys_alarm, sys_alarm-RingsBy}

-- Two timers, one in the first vector and one that is relocated before it is due.
abbrev soon : Timer
soon = record { address = 16; expires = 5; function = sleep_timeout; argument = 1 }

abbrev later : Timer
later = record { address = 48; expires = 300; function = sleep_timeout; argument = 2 }

abbrev two_timers : Tvec
two_timers = add_timer later (add_timer soon dynamic_timers_install)

abbrev no_timers : ℕ → Timer → List Timer
no_timers n t = []

no_timers-AddsLater : AddsLater no_timers
no_timers-AddsLater n bound t = tt

soon-IsNear : IsNear 0 5
soon-IsNear = record {
  k_bound = omega arith;
  e_bound = omega arith;
  ahead = omega arith;
  behind = omega arith;
}

later-IsNear : IsNear 0 300
later-IsNear = record {
  k_bound = omega arith;
  e_bound = omega arith;
  ahead = omega arith;
  behind = omega arith;
}

two_timers-Reached : (adds : ℕ → Timer → List Timer) → Reached adds two_timers
unfolding dynamic_timers_install add_timer
two_timers-Reached adds =
    added later (add_timer soon dynamic_timers_install) later-IsNear
      (added soon dynamic_timers_install soon-IsNear installed)

two_timers-IsWheel : IsWheel two_timers
two_timers-IsWheel =
    Reached-IsWheel no_timers two_timers no_timers-AddsLater (two_timers-Reached no_timers)

-- A function that sets its timer again, seven ticks later.
abbrev again : ℕ → Timer → List Timer
again k t = if ltb (k + 7) (2 ^ 32) then record t { expires = k + 7 } ∷ [] else []

again-AddsLater : AddsLater again
again-AddsLater k bound t = elim (Bool-cases (ltb (k + 7) (2 ^ 32))) [
  | inl in_range ↦ rw in_range ((omega arith, ground (arith, in_range), omega arith), tt)
  | inr over ↦ rw over tt
]

abbrev wheel_of : Option Tvec → Tvec
wheel_of none = dynamic_timers_install
wheel_of (some w) = w

abbrev after_run : Tvec
after_run = wheel_of (run_timer_softirq 32 again 30 two_timers)

after_run-runs : run_timer_softirq 32 again 30 two_timers ≡ some after_run
unfolding dynamic_timers_install add_timer run_timer_softirq run_tick replenish hos.Timers.cascate
    hos.Timers.for_each_safe hos.Timers.find_tvec hos.Timers.trigger hos.Timers.remove_first
    hos.Timers.add_timers hos.Timers.relocate
after_run-runs = refl

-- The first timer is called at four ticks of the run; the other is deleted behind it.
Reached-IsWheel_example : IsWheel (del_timer later after_run)
unfolding dynamic_timers_install add_timer
Reached-IsWheel_example = Reached-IsWheel again (del_timer later after_run) again-AddsLater (
    deleted later after_run (
      run 32 30 two_timers after_run (omega arith) (omega arith) (omega arith) after_run-runs
        (two_timers-Reached again)))

run_timer_softirq-Elapsed_example :
    (w' : Tvec) × (run_timer_softirq 302 again 300 two_timers ≡ some w') × Elapsed two_timers 300 w'
unfolding dynamic_timers_install add_timer
run_timer_softirq-Elapsed_example =
    run_timer_softirq-Elapsed 302 again 300 two_timers again-AddsLater two_timers-IsWheel
      (omega arith) (omega arith) (omega arith)

abbrev calls_of : Option Tvec → List (ℕ × Timer)
calls_of none = []
calls_of (some w) = w.calls

-- Each is called at its tick.
two_timers-run :
    calls_of (run_timer_softirq 302 no_timers 300 two_timers) ≡ (5, soon) ∷ (300, later) ∷ []
unfolding dynamic_timers_install add_timer run_timer_softirq run_tick replenish hos.Timers.cascate
    hos.Timers.for_each_safe hos.Timers.find_tvec hos.Timers.trigger hos.Timers.remove_first
    hos.Timers.add_timers hos.Timers.relocate
two_timers-run = refl

abbrev shell : TaskTimers
shell = record {
  pid = 3;
  real_timer = none;
  it_real_incr = 0;
  it_real_value = 0;
  it_virt_incr = 0;
  it_virt_value = 0;
  it_prof_incr = 0;
  it_prof_value = 0;
}

two_timers-CanSet : CanSet 0 2 two_timers
unfolding dynamic_timers_install add_timer
two_timers-CanSet = record {
  wheel = two_timers-IsWheel;
  some_seconds = omega arith;
  few_seconds = omega arith;
  in_range = omega arith;
  not_ahead = omega arith;
  not_behind = omega arith;
}

sys_alarm-RingsBy_example : RingsBy 3000 again 2500 0 2 (sys_alarm 0 80 2 shell two_timers)
unfolding dynamic_timers_install add_timer
sys_alarm-RingsBy_example =
    sys_alarm-RingsBy 3000 again 2500 0 80 2 shell two_timers again-AddsLater two_timers-CanSet
      (omega arith) (omega arith) (omega arith)
