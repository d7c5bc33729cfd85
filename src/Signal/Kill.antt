-- ===== src/Signal/Kill.antt =====
-- `sys_kill` of src/kernel/system/signal.c on the tasks of the run queue.
use mathlib.Core.Path.{subst}
use hos.Base.{
  ℕ, ◌<◌, ◌≤◌, ◌≡◌, ◌≢◌, refl, ap, sym, ◌∙◌, Bool, true, false, ◌||◌, ltb, leb, ◌==◌, ==_iff,
  if◌then◌else◌, arith, Bool-cases, Nat-cases, Option-cases, inl, inr, List, [], ◌∷◌, Option, none,
  some,
}
use hos.Signal.{SigSet, SigInfo, plain_info, nsig, sigismember}
use hos.Signal.Sets.{sigismember-sigaddset}
use hos.Signal.Collect.{is_queued, is_queued-append, IsKnown}
use hos.Signal.Tasks.{
  Task, done, sigcont, is_negative, sig_is_ignored, is_over, enqueue, send_signal, rm_from_queue,
  cont_mask, stop_mask, is_stop, wake_stopped, handle_stop_signal, send_sig_info, Kernel,
  get_running, put_running, sys_kill,
}
use hos.Signal.Send.{IsKnown-unqueue, IsKnown-Sent, send_signal-Sent}

-- What sending relies on and the stop handling keeps.
abbrev Keeps : Task → Task → ℕ → Type 0
Keeps t u sig =
    (sig_is_ignored u sig ≡ sig_is_ignored t sig)
    × (is_over t ≡ false → is_over u ≡ false)
    × (u.pid ≡ t.pid)
    × (IsKnown t.pending → IsKnown u.pending)

Keeps-wake_stopped :
    (t : Task) (stopped : List ℕ) (sig : ℕ) → Keeps t (wake_stopped t stopped).0 sig
unfolding wake_stopped sig_is_ignored
Keeps-wake_stopped t [] sig = (refl, λ h. h, refl, λ h. h)
Keeps-wake_stopped t (e ∷ es) sig = elim (Bool-cases (e == t.pid)) [
  | inr other ↦ rw other (Keeps-wake_stopped t es sig)
  | inl same ↦ elim (Bool-cases ((t.state == 2) || (t.state == 4))) [
    | inl sleeping ↦ rw (same, sleeping) (refl, λ h. refl, refl, λ h. h)
    | inr awake ↦ rw (same, awake) (refl, λ h. h, refl, λ h. h)
  ]
]

Keeps-handle_stop_signal :
    (stack : SigSet) (s : ℕ) (t : Task) (stopped : List ℕ) (sig : ℕ)
    → Keeps t (handle_stop_signal stack s t stopped).0 sig
unfolding handle_stop_signal sig_is_ignored
Keeps-handle_stop_signal stack s t stopped sig = elim (Bool-cases (is_stop s)) [
  | inl stop ↦ rw stop (refl, λ h. h, refl, IsKnown-unqueue (cont_mask stack) t.pending)
  | inr other ↦ elim (Bool-cases (s == sigcont)) [
    | inr plain ↦ rw (other, plain) (refl, λ h. h, refl, λ h. h)
    | inl cont ↦
        let (same, over, pid, known) =
          Keeps-wake_stopped (record t { pending = rm_from_queue (stop_mask stack) t.pending })
            stopped sig in
        rw (other, cont)
          (same, over, pid, λ h. known (IsKnown-unqueue (stop_mask stack) t.pending h))
  ]
]

IsKnown-send_sig_info :
    (memory : Option SigInfo) (stack : SigSet) (sig : ℕ) (info : SigInfo) (t : Task)
    (stopped : List ℕ)
    → info.si_signo ≡ sig
    → IsKnown t.pending
    → (IsKnown (send_sig_info memory stack sig info t stopped).1.pending)
      × ((send_sig_info memory stack sig info t stopped).1.pid ≡ t.pid)
unfolding send_sig_info
IsKnown-send_sig_info memory stack sig info t stopped same known =
    elim (Bool-cases (is_negative sig || ltb nsig sig)) [
      | inl bad ↦ rw bad (known, refl)
      | inr good ↦ elim (Bool-cases (sig == 0)) [
        | inl zero_sig ↦ rw (good, zero_sig) (known, refl)
        | inr nonzero ↦
            let t1 = (handle_stop_signal stack sig t stopped).0 in
            let (ig, over, pid, kept) = Keeps-handle_stop_signal stack sig t stopped sig in
            let (known', pid') =
              IsKnown-Sent (send_signal-Sent memory sig info t1) (ground arith) same (kept known) in
            rw (good, nonzero) (known', pid' ∙ pid)
      ]
    ]

get_running-pid : (pid : ℕ) (ts : List Task) (t : Task) → get_running pid ts ≡ some t → t.pid ≡ pid
unfolding get_running
get_running-pid pid [] t h = ground arith
get_running-pid pid (u ∷ us) t h = elim (Bool-cases (u.pid == pid)) [
  | inl same ↦ pid_of (simp same at h) ((==_iff u.pid pid).0 same)
  | inr other ↦ get_running-pid pid us t (simp other at h)
]
  where
    pid_of : some u ≡ some t → u.pid ≡ pid → t.pid ≡ pid
    pid_of e same = cc

-- Putting a task back changes what is found under its own pid alone.
get_running-put_running :
    (t u : Task) (pid : ℕ) (ts : List Task)
    → get_running t.pid ts ≡ some u
    → get_running pid (put_running t ts) ≡ (if t.pid == pid then some t else get_running pid ts)
unfolding get_running put_running
get_running-put_running t u pid [] h = ground arith
get_running-put_running t u pid (v ∷ vs) h = elim (Nat-cases v.pid t.pid) [
  | inl here ↦ ground (arith, here)
  | inr there ↦ ground (arith, there, get_running-put_running t u pid vs)
]

-- Every task of the run queue has the signals of its queue in its set.
abbrev pub AllKnown : Kernel → Type 0
AllKnown k = (pid : ℕ) (t : Task) → get_running pid k.run_list ≡ some t → IsKnown t.pending

-- The receiver after a call that finds it.
abbrev receiver : Option SigInfo → SigSet → ℕ → Task → Kernel → Task
receiver memory stack sig t k =
    (send_sig_info memory stack sig (plain_info sig t.pid t.uid) t k.stopped_queue).1

-- What is found after `sys_kill`: the receiver's new state under its pid, where the signal is one.
found_after :
    (memory : Option SigInfo) (stack : SigSet) (pid sig j : ℕ) (k : Kernel) (t : Task)
    → get_running pid k.run_list ≡ some t
    → (is_negative sig || leb nsig sig) ≡ false
    → (receiver memory stack sig t k).pid ≡ t.pid
    → get_running j (sys_kill memory stack pid sig k).1.run_list
      ≡ (if pid == j then some (receiver memory stack sig t k) else get_running j k.run_list)
unfolding sys_kill
found_after memory stack pid sig j k t found good same =
    let own : t.pid ≡ pid = get_running-pid pid k.run_list t found in
    let at : get_running (receiver memory stack sig t k).pid k.run_list ≡ some t =
      ap (λ n. get_running n k.run_list) (same ∙ own) ∙ found in
    rw (found, good)
      (get_running-put_running (receiver memory stack sig t k) t j k.run_list at
        ∙ ap
            (λ n. if n == j then some (receiver memory stack sig t k) else get_running j k.run_list)
            (same ∙ own))

unchanged_missing :
    (memory : Option SigInfo) (stack : SigSet) (pid sig : ℕ) (k : Kernel)
    → get_running pid k.run_list ≡ none
    → (sys_kill memory stack pid sig k).1 ≡ k
unfolding sys_kill
unchanged_missing memory stack pid sig k missing = rw missing refl

unchanged_bad :
    (memory : Option SigInfo) (stack : SigSet) (pid sig : ℕ) (k : Kernel)
    → (is_negative sig || leb nsig sig) ≡ true
    → (sys_kill memory stack pid sig k).1 ≡ k
unfolding sys_kill
unchanged_bad memory stack pid sig k bad = elim (Option-cases (get_running pid k.run_list)) [
  | inl missing ↦ rw missing refl
  | inr (t, found) ↦ rw (found, bad) refl
]

pub IsKnown-found :
    (b : Bool) (r : Task) (o : Option Task) (u : Task)
    → (if b then some r else o) ≡ some u
    → IsKnown r.pending
    → (o ≡ some u → IsKnown u.pending)
    → IsKnown u.pending
IsKnown-found true r o u h known rest =
    let e : r ≡ u = cc in subst (λ (x : Task). IsKnown x.pending) e known
IsKnown-found false r o u h known rest = rest h

-- What `sys_kill` does to the task under `j`, and to the queues of all.
kill_effects :
    (memory : Option SigInfo) (stack : SigSet) (pid sig j : ℕ) (k : Kernel)
    → AllKnown k
    → AllKnown (sys_kill memory stack pid sig k).1
      × (pid ≢ j
          → get_running j (sys_kill memory stack pid sig k).1.run_list ≡ get_running j k.run_list)
kill_effects memory stack pid sig j k known = elim (Option-cases (get_running pid k.run_list)) [
  | inl missing ↦ rw (unchanged_missing memory stack pid sig k missing) (known, λ ne. refl)
  | inr (t, found) ↦ elim (Bool-cases (is_negative sig || leb nsig sig)) [
    | inl bad ↦ rw (unchanged_bad memory stack pid sig k bad) (known, λ ne. refl)
    | inr good ↦
        let (known', same) =
          IsKnown-send_sig_info memory stack sig (plain_info sig t.pid t.uid) t k.stopped_queue refl
            (known pid t found) in
        (
          λ i u h.
              IsKnown-found (pid == i) (receiver memory stack sig t k) (get_running i k.run_list) u
                (sym (found_after memory stack pid sig i k t found good same) ∙ h) known'
                (known i u),
          λ ne. found_after memory stack pid sig j k t found good same ∙ ground arith,
        )
  ]
]

-- `sys_kill` keeps, for every task of the run queue, each signal of the task's queue in its set.
pub sys_kill-AllKnown :
    (memory : Option SigInfo) (stack : SigSet) (pid sig : ℕ) (k : Kernel)
    → AllKnown k
    → AllKnown (sys_kill memory stack pid sig k).1
sys_kill-AllKnown memory stack pid sig k known = (kill_effects memory stack pid sig pid k known).0

-- Where each signal of a queue is in its set, `sys_kill` changes no task but the one that its pid finds.
pub sys_kill-others :
    (memory : Option SigInfo) (stack : SigSet) (pid sig j : ℕ) (k : Kernel)
    → AllKnown k
    → pid ≢ j
    → get_running j (sys_kill memory stack pid sig k).1.run_list ≡ get_running j k.run_list
sys_kill-others memory stack pid sig j k known ne =
    (kill_effects memory stack pid sig j k known).1 ne

send_signal-heard :
    (before : SigInfo) (sig : ℕ) (info : SigInfo) (t : Task)
    → sig_is_ignored t sig ≡ false
    → is_over t ≡ false
    → (send_signal (some before) sig (some info) t).1 ≡ enqueue sig info t
unfolding send_signal
send_signal-heard before sig info t heard alive = rw (heard, alive) refl

-- The task after a signal that it hears.
heard_after :
    (before : SigInfo) (stack : SigSet) (sig : ℕ) (t : Task) (k : Kernel)
    → 1 ≤ sig
    → sig < 32
    → sig_is_ignored t sig ≡ false
    → is_over t ≡ false
    → (send_sig_info (some before) stack sig (plain_info sig t.pid t.uid) t k.stopped_queue).1
      ≡ enqueue sig (plain_info sig t.pid t.uid) (handle_stop_signal stack sig t k.stopped_queue).0
unfolding send_sig_info
heard_after before stack sig t k low high heard alive =
    let (same, over, pid, kept) = Keeps-handle_stop_signal stack sig t k.stopped_queue sig in
    let good : (is_negative sig || ltb nsig sig) ≡ false = ground arith in
    let nonzero : (sig == 0) ≡ false = ground arith in
    rw (good, nonzero)
      (send_signal-heard before sig (plain_info sig t.pid t.uid)
        (handle_stop_signal stack sig t k.stopped_queue).0 (same ∙ heard) (over alive))

enqueue-has :
    (sig : ℕ) (info : SigInfo) (t : Task)
    → 1 ≤ sig
    → info.si_signo ≡ sig
    → (is_queued sig (enqueue sig info t).pending.queue ≡ true)
      × (sigismember (enqueue sig info t).pending.signal sig ≡ true)
enqueue-has sig info t low same = (
  ground (arith, is_queued-append sig t.pending.queue (info ∷ [])),
  ground (arith, sigismember-sigaddset t.pending.signal sig sig low low),
)

code_after :
    (memory : Option SigInfo) (stack : SigSet) (pid sig : ℕ) (k : Kernel) (t : Task)
    → get_running pid k.run_list ≡ some t
    → sig < 32
    → (sys_kill memory stack pid sig k).0 ≡ done
unfolding sys_kill send_sig_info
code_after memory stack pid sig k t found high =
    let good : (is_negative sig || leb nsig sig) ≡ false = ground arith in
    let fine : (is_negative sig || ltb nsig sig) ≡ false = ground arith in
    rw (found, good, fine) (elim (Bool-cases (sig == 0)) [ inl z ↦ rw z refl | inr n ↦ rw n refl ])

-- A signal from 1 to 31 that the task does not ignore, sent to a task that is not over, with memory for
-- an entry: `sys_kill` answers 0, and the task then has the signal in its set and its queue.
pub sys_kill-delivers :
    (before : SigInfo) (stack : SigSet) (pid sig : ℕ) (k : Kernel) (t : Task)
    → get_running pid k.run_list ≡ some t
    → 1 ≤ sig
    → sig < 32
    → sig_is_ignored t sig ≡ false
    → is_over t ≡ false
    → ((sys_kill (some before) stack pid sig k).0 ≡ done)
      × ((u : Task) × (get_running pid (sys_kill (some before) stack pid sig k).1.run_list ≡ some u)
          × (is_queued sig u.pending.queue ≡ true)
          × (sigismember u.pending.signal sig ≡ true))
sys_kill-delivers before stack pid sig k t found low high heard alive =
    let good : (is_negative sig || leb nsig sig) ≡ false = ground arith in
    let after = heard_after before stack sig t k low high heard alive in
    let (same, over, own, kept) = Keeps-handle_stop_signal stack sig t k.stopped_queue sig in
    let (queued, member) =
      enqueue-has sig (plain_info sig t.pid t.uid)
        (handle_stop_signal stack sig t k.stopped_queue).0 low refl in
    (
      code_after (some before) stack pid sig k t found high,
      (
        enqueue sig (plain_info sig t.pid t.uid) (handle_stop_signal stack sig t k.stopped_queue).0,
        found_after (some before) stack pid sig pid k t found good
              (ap (λ (r : Task). r.pid) after ∙ own)
            ∙ (ground (arith, after)),
        queued,
        member,
      ),
    )
