-- ===== src/Scheduler/Queue.antt =====
-- The count of active tasks of src/kernel/process/scheduler.c against the run queue.
use hos.Base.{
  is_in, remove, IsDistinct, is_in-remove_self, ℕ, ◌+◌, ◌^◌, ◌<◌, ◌≤◌, ◌≡◌, true, if◌then◌else◌,
  arith, List, [], ◌∷◌, length, length-append,
}
use hos.Scheduler.{RunQueue, enqueue_task, dequeue_task, reap, run_zombie}

-- `num_active` counts the run queue, which is shorter than its range.
abbrev pub IsCounted : RunQueue → Type 0
IsCounted r = (r.num_active ≡ length r.queue) × (length r.queue + 1 < 2 ^ 32)

pub length-remove :
    (a : ℕ) (xs : List ℕ) → length (remove a xs) + (if is_in a xs then 1 else 0) ≡ length xs
unfolding remove
length-remove a [] = omega arith
length-remove a (x ∷ xs) = ground (arith, length-remove a xs)

-- A dequeue keeps the count exactly where the task was in the queue; where it was not, the count is one
-- too low.
pub num_active-dequeue_task :
    (a : ℕ) (r : RunQueue)
    → IsCounted r
    → 0 < length r.queue
    → (dequeue_task a r).num_active + (if is_in a r.queue then 0 else 1)
      ≡ length (dequeue_task a r).queue
unfolding dequeue_task
num_active-dequeue_task a r (count, small) some_task = ground (arith, length-remove a r.queue)

pub num_active-enqueue_task :
    (a : ℕ) (r : RunQueue)
    → IsCounted r
    → (enqueue_task a r).num_active ≡ length (enqueue_task a r).queue
unfolding enqueue_task
num_active-enqueue_task a r (count, small) = omega (arith, count, length-append r.queue (a ∷ []))

-- The zombie `z` leaves the run queue when `scheduler_run` meets it, with the count kept, and its parent
-- `c` takes it out a second time: then the count is one too low.
pub num_active-reap :
    (z c : ℕ) (r : RunQueue)
    → IsCounted r
    → IsDistinct r.queue
    → is_in z r.queue ≡ true
    → 2 ≤ length r.queue
    → IsCounted (run_zombie r z)
      × ((reap c z (run_zombie r z)).num_active + 1 ≡ length (reap c z (run_zombie r z)).queue)
unfolding run_zombie reap dequeue_task
num_active-reap z c r (count, small) d member two =
    let left = length-remove z r.queue in
    let gone = is_in-remove_self z r.queue d in
    let again = length-remove z (remove z r.queue) in ((ground arith, ground arith), ground arith)
