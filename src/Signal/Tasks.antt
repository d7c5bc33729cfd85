-- ===== src/Signal/Tasks.antt =====
-- What src/kernel/system/signal.c does to a task: sending, and the system calls on signals.
--
-- An `int` argument is its 32 bits. `kmalloc` and the stack are arguments: `memory` is the new queue
-- entry with what it held before, none where the allocation fails, and `stack` is what an
-- uninitialised `sigset_t` holds.
use hos.Base.{
  all_ones, store, ℕ, ◌+◌, ◌-◌, ◌^◌, bit_and, bit_or, Bool, true, false, not, ◌&&◌, ◌||◌, ltb, leb,
  ◌==◌, if◌then◌else◌, Option, none, some, List, [], ◌∷◌, ◌++◌,
}
use hos.Signal.{SigSet, SigInfo, Pending, plain_info, nsig, sigemptyset, sigaddset, sigismember}

pub record SigAction : Type 0 where
  pub sa_handler : ℕ
  pub sa_mask : SigSet
  pub sa_flags : ℕ

-- The part of `task_struct` that signals use. `action` holds `NSIG` entries.
pub record Task : Type 0 where
  pub pid : ℕ
  pub uid : ℕ
  pub state : ℕ
  pub blocked : SigSet
  pub real_blocked : SigSet
  pub saved_sigmask : SigSet
  pub pending : Pending
  pub action : ℕ → SigAction
  pub sigreturn_addr : ℕ

-- A result of type `int`: 0, or minus an error number.
pub data Code : Type 0 where
  done : Code
  error : ℕ → Code

abbrev pub einval : Code
einval = error 22

abbrev pub sigchld : ℕ
sigchld = 18

abbrev pub sigcont : ℕ
sigcont = 25

abbrev pub is_negative : ℕ → Bool
is_negative n = leb (2 ^ 31) n

-- `__sig_is_ignored`; SIG_IGN is 1.
unfoldable pub sig_is_ignored : Task → ℕ → Bool
sig_is_ignored t sig =
    not (sigismember t.blocked sig || sigismember t.real_blocked sig)
    && ((t.action (sig - 1)).sa_handler == 1)
    && not (sig == sigchld)

-- EXIT_ZOMBIE or EXIT_DEAD
abbrev pub is_over : Task → Bool
is_over t = (t.state == 16) || (t.state == 32)

-- An entry at the end of the queue, and its signal in the set.
abbrev pub enqueue : ℕ → SigInfo → Task → Task
enqueue sig info t = record t {
  pending = record {
    queue = t.pending.queue ++ (info ∷ []);
    signal = sigaddset t.pending.signal sig;
  };
}

-- What the entry holds where the caller gives SEND_SIG_NOINFO, or not.
abbrev pub filled : SigInfo → Option SigInfo → SigInfo
filled before none = before
filled before (some info) = info

unfoldable pub send_signal : Option SigInfo → ℕ → Option SigInfo → Task → Code × Task
send_signal memory sig info t =
    if sig_is_ignored t sig then (done, t) else if is_over t then (einval, t) else allocated memory
  where
    allocated : Option SigInfo → Code × Task
    allocated none = (error 11, t)
    allocated (some before) = (done, enqueue sig (filled before info) t)

-- `__rm_from_queue`
unfoldable pub unqueue : SigSet → List SigInfo → List SigInfo
unqueue mask [] = []
unqueue mask (q ∷ qs) =
    let rest = unqueue mask qs in if sigismember mask q.si_signo then rest else q ∷ rest

unfoldable pub rm_from_queue : SigSet → Pending → Pending
rm_from_queue mask p = record p { queue = unqueue mask p.queue }

abbrev pub cont_mask : SigSet → SigSet
cont_mask stack = sigaddset (sigemptyset stack) sigcont

abbrev pub stop_mask : SigSet → SigSet
stop_mask stack = sigaddset (sigaddset (sigaddset (sigaddset (sigemptyset stack) 23) 24) 26) 27

-- SIGSTOP, SIGTSTP, SIGTTIN or SIGTTOU
abbrev pub is_stop : ℕ → Bool
is_stop sig = (sig == 23) || (sig == 24) || (sig == 26) || (sig == 27)

-- The loop over `stopped_queue`, a list of the waiting tasks' pids: the first entry of the task is
-- woken by `default_wake_function`, and removed if that succeeds.
unfoldable pub wake_stopped : Task → List ℕ → Task × List ℕ
wake_stopped t [] = (t, [])
wake_stopped t (e ∷ es) =
    let (woken, rest) = wake_stopped t es in
    if not (e == t.pid)
    then (woken, e ∷ rest)
    else if (t.state == 2) || (t.state == 4)
    then (record t { state = 0 }, es)
    else (t, e ∷ es)

unfoldable pub handle_stop_signal : SigSet → ℕ → Task → List ℕ → Task × List ℕ
handle_stop_signal stack sig t stopped =
    if is_stop sig
    then (record t { pending = rm_from_queue (cont_mask stack) t.pending }, stopped)
    else if sig == sigcont
    then wake_stopped (record t { pending = rm_from_queue (stop_mask stack) t.pending }) stopped
    else (t, stopped)

unfoldable pub send_sig_info :
    Option SigInfo → SigSet → ℕ → SigInfo → Task → List ℕ → Code × Task × List ℕ
send_sig_info memory stack sig info t stopped =
    let (t1, stopped1) = handle_stop_signal stack sig t stopped in
    if is_negative sig || ltb nsig sig
    then (einval, t, stopped)
    else if sig == 0
    then (done, t, stopped)
    else (done, (send_signal memory sig (some info) t1).1, stopped1)

-- The run queue and the queue of stopped tasks.
pub record Kernel : Type 0 where
  pub run_list : List Task
  pub stopped_queue : List ℕ

unfoldable pub get_running : ℕ → List Task → Option Task
get_running pid [] = none
get_running pid (t ∷ ts) = if t.pid == pid then some t else get_running pid ts

unfoldable pub put_running : Task → List Task → List Task
put_running t [] = []
put_running t (u ∷ us) = if u.pid == t.pid then t ∷ us else u ∷ put_running t us

-- The signal that `sys_kill` sends names the receiver as its sender.
unfoldable pub sys_kill : Option SigInfo → SigSet → ℕ → ℕ → Kernel → Code × Kernel
sys_kill memory stack pid sig k = sent (get_running pid k.run_list)
  where
    sent : Option Task → Code × Kernel
    sent none = (error 3, k)
    sent (some t) =
        let (code, t1, stopped) =
          send_sig_info memory stack sig (plain_info sig t.pid t.uid) t k.stopped_queue in
        if is_negative sig || leb nsig sig
        then (einval, k)
        else (code, record { run_list = put_running t1 k.run_list; stopped_queue = stopped })

-- SIG_BLOCK is 0, SIG_UNBLOCK 1 and SIG_SETMASK 2.
abbrev pub masked : ℕ → ℕ → ℕ → ℕ
masked how old new =
    if how == 0
    then bit_or old new
    else if how == 1
    then bit_and old (all_ones - new)
    else if how == 2
    then new
    else old

abbrev pub mask_with : ℕ → SigSet → SigSet → SigSet
mask_with how s set = record {
  sig =
      store (store s.sig 0 (masked how (s.sig 0) (set.sig 0))) 1 (masked how (s.sig 1) (set.sig 1));
}

-- `sys_sigprocmask` where `set` and `oldset` do not overlap; `wants_old` is a non-null `oldset`, and the last result what is written there.
unfoldable pub sys_sigprocmask : ℕ → Option SigSet → Bool → Task → Code × Task × Option SigSet
sys_sigprocmask how none false t = (error 14, t, none)
sys_sigprocmask how none true t =
    if is_negative how || ltb 2 how || (t.pid == 1)
    then (einval, t, none)
    else (done, t, some t.blocked)
sys_sigprocmask how (some set) wants_old t =
    if is_negative how || ltb 2 how || (t.pid == 1) then (einval, t, none) else (
      done,
      record t { blocked = mask_with how t.blocked set },
      if wants_old then some t.blocked else none,
    )

-- `sys_signal` and `sys_sigaction`: a refusal, the old action and the new state, or a write in front
-- of the array `action`.
pub data Action : Type 0 where
  refused : Action
  replaced : SigAction → Task → Action
  outside : Action

abbrev pub with_action : ℕ → SigAction → ℕ → Task → Task
with_action signum act sigreturn_addr t = record t {
  sigreturn_addr = sigreturn_addr;
  action = λ i. if i == (signum - 1) then act else t.action i;
}

unfoldable pub set_action : ℕ → SigAction → ℕ → Task → Action
set_action signum act sigreturn_addr t =
    if is_negative signum || leb nsig signum
    then refused
    else if t.pid == 1
    then refused
    else if signum == 0
    then outside
    else replaced (t.action (signum - 1)) (with_action signum act sigreturn_addr t)

-- The flags are SA_RESETHAND | SA_NODEFER.
abbrev pub plain_action : SigSet → ℕ → SigAction
plain_action stack handler = record {
  sa_handler = handler;
  sa_mask = sigemptyset stack;
  sa_flags = 2 ^ 31 + 2 ^ 30;
}

unfoldable pub sys_signal : SigSet → ℕ → ℕ → ℕ → Task → Action
sys_signal stack signum handler sigreturn_addr t =
    set_action signum (plain_action stack handler) sigreturn_addr t

unfoldable pub sys_sigaction : ℕ → SigAction → ℕ → Task → Action
sys_sigaction signum act sigreturn_addr t = set_action signum act sigreturn_addr t
