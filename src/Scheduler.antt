-- ===== src/Scheduler.antt =====
-- The run queue and the system calls of src/kernel/process/scheduler.c, with the round robin of
-- src/kernel/process/sched_algo.c, which the build selects where it names no other algorithm.
--
-- Tasks are shared by pointers: a task is an address, and `tasks` the memory behind the addresses. The
-- list of the run queue and a list of children are their addresses in the order of the links, with
-- `list_head_remove` as `remove`, which leaves a node alone that is in no list. An
-- `int` argument is its 32 bits. Registers, page directories and the time statistics are left out.
pub mod Queue
pub mod Pick
pub mod Wait
pub mod Groups
mod Tests
use hos.Base.{
  is_in, remove, ℕ, zero, suc, ◌+◌, ◌-◌, ◌%◌, ◌^◌, Bool, true, false, not, ◌&&◌, ◌||◌, ltb, leb,
  ◌==◌, if◌then◌else◌, Option, none, some, List, [], ◌∷◌, ◌++◌,
}

pub record Task : Type 0 where
  pub pid : ℕ
  pub state : ℕ
  pub uid : ℕ
  pub gid : ℕ
  pub sid : ℕ
  pub pgid : ℕ
  pub prio : ℕ
  pub is_periodic : Bool
  pub is_under_analysis : Bool
  pub children : List ℕ

pub record RunQueue : Type 0 where
  pub tasks : ℕ → Task
  pub queue : List ℕ
  pub curr : Option ℕ
  pub num_active : ℕ
  pub num_periodic : ℕ

-- A write to the task at an address.
abbrev pub write : (ℕ → Task) → ℕ → Task → ℕ → Task
write m a t b = if a == b then t else m b

-- `n - 1` of an unsigned counter.
abbrev pub decrement : ℕ → ℕ
decrement n = (n + (2 ^ 32 - 1)) % 2 ^ 32

abbrev pub task_running : ℕ
task_running = 0

abbrev pub exit_zombie : ℕ
exit_zombie = 16

pub find_pid : (ℕ → Task) → ℕ → List ℕ → Option ℕ
find_pid m pid [] = none
find_pid m pid (x ∷ xs) = if (m x).pid == pid then some x else find_pid m pid xs

pub get_running_process : ℕ → RunQueue → Option ℕ
get_running_process pid r = find_pid r.tasks pid r.queue

pub enqueue_task : ℕ → RunQueue → RunQueue
enqueue_task a r = record r {
  curr = first_curr r.curr;
  queue = r.queue ++ (a ∷ []);
  num_active = (r.num_active + 1) % 2 ^ 32;
}
  where
    first_curr : Option ℕ → Option ℕ
    first_curr none = some a
    first_curr (some c) = some c

pub dequeue_task : ℕ → RunQueue → RunQueue
dequeue_task a r = record r {
  queue = remove a r.queue;
  num_active = decrement r.num_active;
  num_periodic = if (r.tasks a).is_periodic then decrement r.num_periodic else r.num_periodic;
}

-- The tasks behind `c` in the list, and those in front of it.
abbrev pub behind : ℕ → List ℕ → List ℕ
behind c [] = []
behind c (x ∷ xs) = if x == c then xs else behind c xs

abbrev pub in_front : ℕ → List ℕ → List ℕ
in_front c [] = []
in_front c (x ∷ xs) = if x == c then [] else x ∷ in_front c xs

-- The walk of the round robin from the task `c` once around the list, the head skipped. A node that
-- was removed is linked to itself.
abbrev pub around : ℕ → List ℕ → List ℕ
around c q = if is_in c q then behind c q ++ in_front c q else []

abbrev pub is_candidate : Bool → Task → Bool
is_candidate skip_periodic t =
    (t.state == task_running) && not (t.is_periodic && not t.is_under_analysis && skip_periodic)

pub first_candidate : (ℕ → Task) → Bool → List ℕ → Option ℕ
first_candidate m skip [] = none
first_candidate m skip (x ∷ xs) =
    if is_candidate skip (m x) then some x else first_candidate m skip xs

abbrev pub is_nil : List ℕ → Bool
is_nil [] = true
is_nil (x ∷ xs) = false

-- `__scheduler_rr` at the current task `c`: with no other node than the head it is `c` again.
pub scheduler_rr : RunQueue → Bool → ℕ → Option ℕ
scheduler_rr r skip_periodic c =
    if is_nil (around c r.queue)
    then some c
    else first_candidate r.tasks skip_periodic (around c r.queue)

-- `scheduler_run` at a current task that is a zombie: its successor in the ring, and the zombie out of
-- the list. The ring of a list with this task alone leads back to it.
pub run_zombie : RunQueue → ℕ → RunQueue
run_zombie r c = record (dequeue_task c r) { curr = successor (around c r.queue) }
  where
    successor : List ℕ → Option ℕ
    successor [] = some c
    successor (n ∷ ns) = some n

-- The results of the calls: a number, minus an error number, a stop of the kernel, or a read through
-- NULL.
pub data Result : Type 0 where
  value : ℕ → Result
  error : ℕ → Result
  panic fault : Result

-- The first child that `sys_waitpid` may reap.
pub first_reapable : (ℕ → Task) → ℕ → List ℕ → Option ℕ
first_reapable m pid [] = none
first_reapable m pid (x ∷ xs) =
    if not ((m x).state == exit_zombie)
    then first_reapable m pid xs
    else if not (leb (2 ^ 31) pid) && ltb 1 pid && not ((m x).pid == pid)
    then first_reapable m pid xs
    else some x

-- The caller's child `x` leaves its list and the run queue.
pub reap : ℕ → ℕ → RunQueue → RunQueue
reap c x r = dequeue_task x (record r {
  tasks = write r.tasks c (record (r.tasks c) { children = remove x (r.tasks c).children });
})

abbrev pub answer : ℕ → RunQueue → Option ℕ → Result × RunQueue × Option ℕ
answer c r none = (value 0, r, none)
answer c r (some x) = (value (r.tasks x).pid, reap c x r, some x)

-- `sys_waitpid`; the last result is the address that is freed. WNOHANG is 1.
pub sys_waitpid : ℕ → ℕ → RunQueue → Result × RunQueue × Option ℕ
sys_waitpid pid options r = called r.curr
  where
    called : Option ℕ → Result × RunQueue × Option ℕ
    called none = (panic, r, none)
    called (some c) =
        if (leb (2 ^ 31) pid && not (pid == (2 ^ 32 - 1))) || (pid == 0)
        then (error 3, r, none)
        else if pid == (r.tasks c).pid
        then (error 10, r, none)
        else if not (options == 0) && not (options == 1)
        then (error 22, r, none)
        else if is_nil (r.tasks c).children
        then (error 10, r, none)
        else answer c r (first_reapable r.tasks pid (r.tasks c).children)

-- The calls on the identities of the current task.
abbrev pub with_task : ℕ → Task → RunQueue → RunQueue
with_task c t r = record r { tasks = write r.tasks c t }

pub sys_setsid : RunQueue → Result × RunQueue
sys_setsid r = called r.curr
  where
    called : Option ℕ → Result × RunQueue
    called none = (panic, r)
    called (some c) =
        let t = r.tasks c in
        if t.sid == t.pid
        then (error 1, r)
        else (value t.pid, with_task c (record t { sid = t.pid; pgid = t.pid }) r)

pub sys_getsid : ℕ → RunQueue → Result
sys_getsid pid r = called r.curr
  where
    unowned : Option ℕ → Result
    unowned none = error 3
    unowned (some x) = fault

    same_session : ℕ → Option ℕ → Result
    same_session c none = error 3
    same_session c (some x) =
        if not ((r.tasks c).sid == (r.tasks x).sid) then error 1 else value (r.tasks x).sid

    called : Option ℕ → Result
    called none = if pid == 0 then panic else unowned (find_pid r.tasks pid r.queue)
    called (some c) =
        if pid == 0 then value (r.tasks c).sid else same_session c (find_pid r.tasks pid r.queue)

pub sys_setuid : ℕ → RunQueue → Result × RunQueue
sys_setuid uid r = called r.curr
  where
    called : Option ℕ → Result × RunQueue
    called none = (error 1, r)
    called (some c) =
        let t = r.tasks c in
        if t.uid == 0 then (value 0, with_task c (record t { uid = uid }) r) else (error 1, r)

-- The nice value -40 to 40 of an increment, moved up by 40.
abbrev pub clamped : ℕ → ℕ
clamped increment =
    if leb (2 ^ 31) increment
    then (if ltb increment (2 ^ 32 - 40) then 0 else increment - (2 ^ 32 - 40))
    else if ltb 40 increment
    then 80
    else increment + 40

-- `sys_nice` on a priority: 100 to 139 are the nice values -20 to 19.
pub new_prio : ℕ → ℕ → ℕ
new_prio prio increment =
    let moved = prio + clamped increment in
    if ltb moved 140 then 100 else if ltb 179 moved then 139 else moved - 40

-- `sys_nice`; the result is the new nice value moved up by 120.
pub sys_nice : ℕ → RunQueue → Result × RunQueue
sys_nice increment r = called r.curr
  where
    called : Option ℕ → Result × RunQueue
    called none = (panic, r)
    called (some c) =
        let p = new_prio (r.tasks c).prio increment in
        (value p, with_task c (record (r.tasks c) { prio = p }) r)

-- The task that `sys_getpgid` and `sys_setpgid` mean.
abbrev pub meant : ℕ → RunQueue → Option ℕ
meant pid r = if pid == 0 then r.curr else find_pid r.tasks pid r.queue

pub sys_getpgid : ℕ → RunQueue → ℕ
sys_getpgid pid r = group (meant pid r)
  where
    group : Option ℕ → ℕ
    group none = 0
    group (some x) = (r.tasks x).pgid

pub sys_setpgid : ℕ → ℕ → RunQueue → RunQueue
sys_setpgid pid pgid r = moved (meant pid r)
  where
    moved : Option ℕ → RunQueue
    moved none = r
    moved (some x) = with_task x (record (r.tasks x) { pgid = pgid }) r

-- The session of the first task of a group, 0 where there is none.
pub group_session : (ℕ → Task) → ℕ → List ℕ → ℕ
group_session m pgid [] = 0
group_session m pgid (x ∷ xs) = if (m x).pgid == pgid then (m x).sid else group_session m pgid xs

abbrev is_none : Option ℕ → Bool
is_none none = true
is_none (some x) = false

pub is_orphaned_pgrp : ℕ → RunQueue → Bool
is_orphaned_pgrp pgid r = is_none (find_pid r.tasks (group_session r.tasks pgid r.queue) r.queue)
