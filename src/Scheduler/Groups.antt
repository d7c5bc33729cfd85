-- ===== src/Scheduler/Groups.antt =====
-- Process groups and sessions in src/kernel/process/scheduler.c.
use hos.Base.{
  ℕ, ◌≡◌, refl, ap, ◌∙◌, inl, inr, Bool-cases, true, ◌==◌, if◌then◌else◌, arith, List, [], ◌∷◌,
  some,
}
use hos.Scheduler.{Task, RunQueue, find_pid, write, with_task, meant, sys_getpgid, sys_setpgid}

-- A change of a task's group does not move what a pid finds.
find_pid-write :
    (m : ℕ → Task) (x pgid pid : ℕ) (q : List ℕ)
    → find_pid (write m x (record (m x) { pgid = pgid })) pid q ≡ find_pid m pid q
unfolding find_pid
find_pid-write m x pgid pid [] = refl
find_pid-write m x pgid pid (y ∷ ys) =
    rw (find_pid-write m x pgid pid ys)
      (ap (λ n. if n == pid then some y else find_pid m pid ys) (same_pid y))
  where
    same_pid : (y : ℕ) → (write m x (record (m x) { pgid = pgid }) y).pid ≡ (m y).pid
    same_pid y = elim (Bool-cases (x == y)) [
      | inl here ↦ rw here (ap (λ a. (m a).pid) (ground (arith, here)))
      | inr other ↦ rw other refl
    ]

own_write : (m : ℕ → Task) (x : ℕ) (t : Task) → write m x t x ≡ t
own_write m x t = let own : (x == x) ≡ true = ground arith in rw own refl

-- Where the pid, or 0 for the current task, means a task, `sys_getpgid` answers the group that
-- `sys_setpgid` has set.
pub sys_getpgid-sys_setpgid :
    (pid pgid x : ℕ) (r : RunQueue)
    → meant pid r ≡ some x
    → sys_getpgid pid (sys_setpgid pid pgid r) ≡ pgid
unfolding sys_getpgid sys_setpgid
sys_getpgid-sys_setpgid pid pgid x r found =
    let again : meant pid (with_task x (record (r.tasks x) { pgid = pgid }) r) ≡ some x =
      ap (λ o. if pid == 0 then r.curr else o) (find_pid-write r.tasks x pgid pid r.queue)
      ∙ found in
    simp found (
      simp again
        (ap (λ (t : Task). t.pgid) (own_write r.tasks x (record (r.tasks x) { pgid = pgid }))))
