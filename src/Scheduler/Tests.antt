-- ===== src/Scheduler/Tests.antt =====
-- Runs of the scheduler on three tasks, and its theorems there.
use hos.Base.{
  IsDistinct, ℕ, ◌+◌, ◌≡◌, refl, false, ◌==◌, if◌then◌else◌, arith, List, [], ◌∷◌, some, length,
}
use hos.Scheduler.{
  Task, RunQueue, first_candidate, scheduler_rr, reap, run_zombie, sys_waitpid, first_reapable,
  value,
}
use hos.Scheduler.Pick.{RoundRobin, scheduler_rr-RoundRobin}
use hos.Scheduler.Queue.{IsCounted, num_active-reap}
use hos.Scheduler.Wait.{Waited, sys_waitpid-Waited}

abbrev task : ℕ → ℕ → List ℕ → Task
task pid state children = record {
  pid = pid;
  state = state;
  uid = 0;
  gid = 0;
  sid = 1;
  pgid = 1;
  prio = 120;
  is_periodic = false;
  is_under_analysis = false;
  children = children;
}

-- The tasks with the pids 1, 2 and 3 at the addresses 10, 20 and 30; the last one is a zombie.
abbrev three : RunQueue
three = record {
  tasks = λ a.
      if a == 10 then task 1 0 (20 ∷ 30 ∷ []) else if a == 20 then task 2 0 [] else task 3 16 [];
  queue = 10 ∷ 20 ∷ 30 ∷ [];
  curr = some 10;
  num_active = 3;
  num_periodic = 0;
}

rr_test : scheduler_rr three false 20 ≡ some 10
unfolding scheduler_rr first_candidate
rr_test = refl

wait_test : (sys_waitpid 3 0 three).0 ≡ value 3
unfolding sys_waitpid first_reapable
wait_test = refl

three-IsCounted : IsCounted three
three-IsCounted = (refl, omega arith)

three-IsDistinct : IsDistinct three.queue
three-IsDistinct = (refl, (refl, (refl, tt)))

scheduler_rr-RoundRobin_example : RoundRobin three false 20 (scheduler_rr three false 20)
scheduler_rr-RoundRobin_example = scheduler_rr-RoundRobin three false 20 refl

num_active-reap_example :
    IsCounted (run_zombie three 30)
    × ((reap 10 30 (run_zombie three 30)).num_active + 1
        ≡ length (reap 10 30 (run_zombie three 30)).queue)
num_active-reap_example =
    num_active-reap 30 10 three three-IsCounted three-IsDistinct refl (omega arith)

sys_waitpid-Waited_example :
    Waited 3 0 three 10
      (sys_waitpid 3 0 three).0
      (sys_waitpid 3 0 three).1
      (sys_waitpid 3 0 three).2
sys_waitpid-Waited_example = sys_waitpid-Waited 3 0 10 three refl
