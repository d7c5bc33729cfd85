-- ===== src/Timers.antt =====
-- The dynamic timers of src/arch/i386/timer.c, a hierarchical timing wheel.
--
-- A `list_head` list is the sequence of its entries. `calls` stands for the calls of the timers'
-- functions, each with the tick it was made at; such a function may call `add_timer`, so the timers
-- that it adds are an argument, `adds`. A walk by `list_for_each_safe` gives `none` where it does
-- not end after the entries that the list had at its start.
pub mod Members
pub mod Placement
pub mod Due
pub mod Walk
pub mod Cascade
pub mod Replenish
pub mod Trigger
pub mod Softirq
pub mod Elapsed
pub mod Wheel
pub mod Alarm
pub mod Itimer
mod Tests
use hos.Base.{
  ◌>>=◌, ℕ, zero, suc, ◌+◌, ◌-◌, ◌*◌, ◌/◌, ◌%◌, ◌^◌, u32, Bool, true, false, not, ◌&&◌, ◌||◌, ltb,
  leb, ◌==◌, if◌then◌else◌, List, [], ◌∷◌, ◌++◌, length, Option, some, none,
}

-- The functions that the code gives to timers.
pub data TimerFunction : Type 0 where
  sleep_timeout alarm_timeout it_real_fn : TimerFunction

-- `struct timer_list` at `address`.
pub record Timer : Type 0 where
  pub address : ℕ
  pub expires : ℕ
  pub function : TimerFunction
  pub argument : ℕ

-- `tvec_base_t`: the lists by `tv_index` and index, and the calls that have been made.
pub record Tvec : Type 0 where
  pub timer_ticks : ℕ
  pub vec : ℕ → ℕ → List Timer
  pub calls : List (ℕ × Timer)

-- A new list in one place.
abbrev pub put : (ℕ → ℕ → List Timer) → ℕ → ℕ → List Timer → ℕ → ℕ → List Timer
put vec tv index timers a b = if (a == tv) && (b == index) then timers else vec a b

-- `__find_tvec`: the index, and the number of the vector.
pub find_tvec : Tvec → Timer → ℕ × ℕ
find_tvec base timer =
    let ticks = u32 (timer.expires + (2 ^ 32 - base.timer_ticks)) in
    if leb (2 ^ 31) ticks
    then (base.timer_ticks % 256, 1)
    else if ltb ticks 256
    then (timer.expires % 256, 1)
    else if ltb ticks 16384
    then (timer.expires / 256 % 64, 2)
    else if ltb ticks 1048576
    then (timer.expires / 16384 % 64, 3)
    else if ltb ticks 67108864
    then (timer.expires / 1048576 % 64, 4)
    else (timer.expires / 67108864 % 64, 5)

-- `__add_timer_tvec_base`
pub add_timer : Timer → Tvec → Tvec
add_timer timer base =
    let (index, tv) = find_tvec base timer in
    record base { vec = put base.vec tv index (base.vec tv index ++ (timer ∷ [])) }

-- The list without the timer at `address`.
pub without : ℕ → List Timer → List Timer
without address [] = []
without address (t ∷ ts) = if t.address == address then ts else t ∷ without address ts

-- `del_timer`: the entry leaves the list it is in, whichever that is.
pub del_timer : Timer → Tvec → Tvec
del_timer timer base = record base { vec = λ tv index. without timer.address (base.vec tv index) }

-- `dynamic_timers_install`
pub dynamic_timers_install : Tvec
dynamic_timers_install = record { timer_ticks = 0; vec = λ tv index. []; calls = [] }

abbrev pub rest_of : List Timer → List Timer
rest_of [] = []
rest_of (t ∷ ts) = ts

-- `list_head_remove` of the first entry of a list.
pub remove_first : ℕ → ℕ → Tvec → Tvec
remove_first tv index base = record base {
  vec = put base.vec tv index (rest_of (base.vec tv index));
}

-- `list_for_each_safe`, where `body` removes the entry it is called with: the entry behind it is read
-- first, and the walk ends if there is none.
pub for_each_safe : ℕ → (Timer → Tvec → Tvec) → ℕ → ℕ → Tvec → Option Tvec
for_each_safe zero body tv index base = elim (base.vec tv index) [
  | [] ↦ some base
  | it ∷ rest ↦ none
]
for_each_safe (suc n) body tv index base = elim (base.vec tv index) [
  | [] ↦ some base
  | it ∷ rest ↦
      let base' = body it base in
      elim rest [ [] ↦ some base' | next ∷ later ↦ for_each_safe n body tv index base' ]
]

-- The body of the loop of `cascate`.
pub relocate : ℕ → ℕ → Timer → Tvec → Tvec
relocate tv index timer base = add_timer timer (remove_first tv index base)

pub cascate : ℕ → ℕ → Tvec → Option Tvec
cascate tv index base = for_each_safe (length (base.vec tv index)) (relocate tv index) tv index base

-- The calls of `cascate` by `run_timer_softirq`: each at index 0 goes on to the next vector.
pub replenish : Tvec → Option Tvec
replenish base =
    let tv2_index = base.timer_ticks / 256 % 64 in
    let tv3_index = base.timer_ticks / 16384 % 64 in
    let tv4_index = base.timer_ticks / 1048576 % 64 in
    let tv5_index = base.timer_ticks / 67108864 % 64 in
    cascate 2 tv2_index base >>= λ base2.
    if tv2_index == 0
    then (cascate 3 tv3_index base2 >>= λ base3.
        if tv3_index == 0
        then (cascate 4 tv4_index base3 >>= λ base4.
            if tv4_index == 0 then cascate 5 tv5_index base4 else some base4)
        else some base3)
    else some base2

pub add_timers : List Timer → Tvec → Tvec
add_timers [] base = base
add_timers (t ∷ ts) base = add_timers ts (add_timer t base)

-- The body of the loop that triggers the timers of a list.
pub trigger : (ℕ → Timer → List Timer) → ℕ → Timer → Tvec → Tvec
trigger adds index timer base = remove_first 1 index (
    add_timers (adds base.timer_ticks timer)
      (record base { calls = base.calls ++ ((base.timer_ticks, timer) ∷ []) }))

-- One round of the loop of `run_timer_softirq`.
pub run_tick : (ℕ → Timer → List Timer) → Tvec → Option Tvec
run_tick adds base =
    let current_time_index = base.timer_ticks % 256 in
    (if current_time_index == 0 then replenish base else some base) >>= λ base1.
    for_each_safe (length (base1.vec 1 current_time_index)) (trigger adds current_time_index) 1
      current_time_index base1
    >>= λ base2. some (record base2 { timer_ticks = u32 (base2.timer_ticks + 1) })

-- `run_timer_softirq` with fuel for its rounds.
pub run_timer_softirq : ℕ → (ℕ → Timer → List Timer) → ℕ → Tvec → Option Tvec
run_timer_softirq zero adds current_ticks base = none
run_timer_softirq (suc fuel) adds current_ticks base = elim (leb base.timer_ticks current_ticks) [
  | false ↦ some base
  | true ↦ run_tick adds base >>= λ base'. run_timer_softirq fuel adds current_ticks base'
]
