-- ===== src/Signal/Tests.antt =====
-- Runs of the signal code on a small task, and its theorems there.
use hos.Base.{◌≡◌, refl, true, false, ◌==◌, arith, [], ◌∷◌, none, some}
use hos.Signal.{
  SigSet, SigInfo, Pending, plain_info, sigaddset, sigismember, find_from, find_first_non_zero,
  next_signal, collect_loop, collect_signal, dequeue_signal,
}
use hos.Signal.Sets.{IsWords, sigaddset-IsWords}
use hos.Signal.Collect.{is_queued}
use hos.Signal.Tasks.{SigAction, Task, done, Kernel, get_running, sys_kill, sig_is_ignored}
use hos.Signal.Kill.{AllKnown, IsKnown-found, sys_kill-AllKnown, sys_kill-others, sys_kill-delivers}
use hos.Signal.Masks.{Dequeued, dequeue_signal-Dequeued}

abbrev no_signals : SigSet
no_signals = record { sig = λ i. 0 }

-- SIGINT and SIGTERM
abbrev two_signals : SigSet
two_signals = sigaddset (sigaddset no_signals 15) 2

abbrev term_info : SigInfo
term_info = plain_info 15 5 7

abbrev two_pending : Pending
two_pending = record { queue = term_info ∷ plain_info 2 5 7 ∷ []; signal = two_signals }

abbrev default_action : SigAction
default_action = record { sa_handler = 0; sa_mask = no_signals; sa_flags = 0 }

abbrev shell : Task
shell = record {
  pid = 5;
  uid = 7;
  state = 0;
  blocked = no_signals;
  real_blocked = no_signals;
  saved_sigmask = no_signals;
  pending = record { queue = []; signal = no_signals };
  action = λ i. default_action;
  sigreturn_addr = 0;
}

abbrev kernel : Kernel
kernel = record { run_list = shell ∷ []; stopped_queue = [] }

next_test : next_signal two_pending no_signals ≡ 2
unfolding sigaddset next_signal find_first_non_zero find_from
next_test = refl

dequeue_test : (dequeue_signal 5 7 term_info two_pending no_signals).2.queue ≡ term_info ∷ []
unfolding sigaddset next_signal find_first_non_zero find_from dequeue_signal collect_signal
    collect_loop
dequeue_test = refl

no_signals-IsWords : IsWords no_signals
no_signals-IsWords i = omega arith

two_signals-IsWords : IsWords two_signals
two_signals-IsWords =
    sigaddset-IsWords (sigaddset no_signals 15) 2
      (sigaddset-IsWords no_signals 15 no_signals-IsWords)

dequeue_signal-Dequeued_example :
    Dequeued 5 7 term_info two_pending no_signals
      (dequeue_signal 5 7 term_info two_pending no_signals).0
      (dequeue_signal 5 7 term_info two_pending no_signals).1
      (dequeue_signal 5 7 term_info two_pending no_signals).2
dequeue_signal-Dequeued_example =
    dequeue_signal-Dequeued 5 7 term_info two_pending no_signals two_signals-IsWords
      no_signals-IsWords

shell_heard : sig_is_ignored shell 15 ≡ false
unfolding sig_is_ignored sigismember
shell_heard = refl

shell_found : get_running 5 kernel.run_list ≡ some shell
unfolding get_running
shell_found = refl

abbrev editor : Task
editor = record shell { pid = 6 }

-- Two tasks, after a SIGTERM to the first.
abbrev two_tasks : Kernel
two_tasks = record { run_list = shell ∷ editor ∷ []; stopped_queue = [] }

abbrev signalled : Kernel
signalled = (sys_kill (some term_info) two_signals 5 15 two_tasks).1

two_tasks-AllKnown : AllKnown two_tasks
unfolding get_running
two_tasks-AllKnown pid t h =
    IsKnown-found (5 == pid) shell (get_running pid (editor ∷ [])) t h (λ k low q. ground arith)
      (λ e. IsKnown-found (6 == pid) editor none t e (λ k low q. ground arith) (λ e'. ground arith))

signalled-AllKnown : AllKnown signalled
signalled-AllKnown =
    sys_kill-AllKnown (some term_info) two_signals 5 15 two_tasks two_tasks-AllKnown

-- A SIGCONT behind the SIGTERM.
sys_kill-AllKnown_example : AllKnown (sys_kill (some term_info) two_signals 5 18 signalled).1
sys_kill-AllKnown_example =
    sys_kill-AllKnown (some term_info) two_signals 5 18 signalled signalled-AllKnown

sys_kill-others_example :
    get_running 6 (sys_kill (some term_info) two_signals 5 18 signalled).1.run_list
    ≡ get_running 6 signalled.run_list
sys_kill-others_example =
    sys_kill-others (some term_info) two_signals 5 18 6 signalled signalled-AllKnown
      (λ e. omega arith)

sys_kill-delivers_example :
    ((sys_kill (some term_info) two_signals 5 15 kernel).0 ≡ done)
    × ((u : Task) × (get_running 5 (sys_kill (some term_info) two_signals 5 15 kernel).1.run_list
          ≡ some u)
        × (is_queued 15 u.pending.queue ≡ true)
        × (sigismember u.pending.signal 15 ≡ true))
sys_kill-delivers_example =
    sys_kill-delivers term_info two_signals 5 15 kernel shell shell_found (omega arith)
      (omega arith) shell_heard refl
