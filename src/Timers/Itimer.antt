-- ===== src/Timers/Itimer.antt =====
-- The interval timers of src/arch/i386/timer.c.
use hos.Base.{
  ◌>>=◌, ℕ, ◌+◌, ◌-◌, ◌*◌, ◌/◌, ◌^◌, u32, Bool, true, false, ◌||◌, ltb, leb, ◌==◌, if◌then◌else◌,
  Option, some, none,
}
use hos.Timers.{it_real_fn, Tvec, add_timer, del_timer}
use hos.Timers.Alarm.{TaskTimers}

-- `struct timeval`
pub record Timeval : Type 0 where
  pub tv_sec : ℕ
  pub tv_usec : ℕ

-- `struct itimerval`
pub record Itimerval : Type 0 where
  pub it_interval : Timeval
  pub it_value : Timeval

pub calc_itimerval : ℕ → ℕ → Itimerval
calc_itimerval incr value = record {
  it_interval = record { tv_sec = incr / 1193; tv_usec = u32 (incr / 1193 * 1000) };
  it_value = record { tv_sec = value / 1193; tv_usec = u32 (value / 1193 * 1000) };
}

-- The ticks of a time, as `update_task_itimerval` and `sys_setitimer` count them.
pub ticks_of : Timeval → ℕ
ticks_of t = u32 (u32 (t.tv_sec * 1193) + u32 (t.tv_usec * 1193) / 1000)

-- `update_task_itimerval`, for `ITIMER_REAL` 0, `ITIMER_VIRTUAL` 1 and `ITIMER_PROF` 2.
pub update_task_itimerval : ℕ → Itimerval → TaskTimers → TaskTimers
update_task_itimerval which val curr =
    let interval_ticks = ticks_of val.it_interval in
    let value_ticks = ticks_of val.it_value in
    if which == 0
    then record curr { it_real_incr = interval_ticks; it_real_value = value_ticks }
    else if which == 1
    then record curr { it_virt_incr = interval_ticks; it_virt_value = value_ticks }
    else if which == 2
    then record curr { it_prof_incr = interval_ticks; it_prof_value = value_ticks }
    else curr

-- What `sys_getitimer` gives: a result, and what is stored at `curr_value`.
abbrev pub Got : Type 0
Got = ℕ × TaskTimers × Option Itimerval

-- `sys_getitimer`; `none` where it reads through a null `real_timer`.
pub sys_getitimer : ℕ → ℕ → TaskTimers → Option Got
sys_getitimer ticks which curr =
    if leb (2 ^ 31) which || ltb 3 which
    then some (22, curr, none)
    else if which == 0
    then elim curr.real_timer [
      | none ↦ none
      | some timer ↦
          let value = u32 (timer.expires + (2 ^ 32 - ticks)) in
          some (
            0,
            record curr { it_real_value = value },
            some (calc_itimerval curr.it_real_incr value),
          )
    ]
    else if which == 1
    then some (0, curr, some (calc_itimerval curr.it_virt_incr curr.it_virt_value))
    else if which == 2
    then some (0, curr, some (calc_itimerval curr.it_prof_incr curr.it_prof_value))
    else some (0, curr, none)

-- `sys_setitimer` behind what it does for `old_value`.
pub set_itimer : ℕ → ℕ → ℕ → Itimerval → TaskTimers → Tvec → TaskTimers × Tvec
set_itimer ticks fresh which new_value cur base =
    let interval_ticks = ticks_of new_value.it_interval in
    if interval_ticks == 0
    then (
      update_task_itimerval which new_value
          (if which == 0 then record cur { real_timer = none } else cur),
      base,
    )
    else (
      update_task_itimerval which new_value cur,
      if which == 0
          then elim cur.real_timer [
            | none ↦
                add_timer
                  (record {
                    address = fresh;
                    expires = u32 (ticks + interval_ticks);
                    function = it_real_fn;
                    argument = cur.pid;
                  })
                  base
            | some timer ↦
                add_timer
                  (record {
                    address = timer.address;
                    expires = u32 (ticks + interval_ticks);
                    function = it_real_fn;
                    argument = cur.pid;
                  })
                  (del_timer timer base)
          ]
          else base,
    )

-- `sys_setitimer`, with `old_value` null or not: the result, the task, what is stored at `old_value`,
-- and the wheel.
pub sys_setitimer :
    ℕ
    → ℕ
    → ℕ
    → Itimerval
    → Bool
    → TaskTimers
    → Tvec
    → Option (ℕ × TaskTimers × Option Itimerval × Tvec)
sys_setitimer ticks fresh which new_value old cur base =
    if leb (2 ^ 31) which || ltb 3 which
    then some (22, cur, none, base)
    else (if old then sys_getitimer ticks which cur else some (0, cur, none))
      >>= λ (result, cur1, stored).
          let (cur2, base2) = set_itimer ticks fresh which new_value cur1 base in
          some (2 ^ 32 - 1, cur2, stored, base2)

-- `update_process_profiling_timer`: the task, and whether `SIGPROF` is sent.
pub update_process_profiling_timer : ℕ → TaskTimers → TaskTimers × Bool
update_process_profiling_timer exec_runtime proc =
    if proc.it_prof_incr == 0
    then (proc, false)
    else (let value = u32 (proc.it_prof_value + exec_runtime) in
        if leb proc.it_prof_incr value
        then (record proc { it_prof_value = 0 }, true)
        else (record proc { it_prof_value = value }, false))
