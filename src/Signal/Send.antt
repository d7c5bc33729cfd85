-- ===== src/Signal/Send.antt =====
-- Sending of src/kernel/system/signal.c: what becomes of the queue and the set of the receiver.
use hos.Base.{
  ℕ, ◌≤◌, ◌≡◌, refl, ap, ◌∙◌, Bool, true, false, not, ◌&&◌, ◌||◌, ◌==◌, arith, Bool-cases,
  Nat-cases, inl, inr, List, [], ◌∷◌, Option, none, some,
}
use hos.Signal.{SigSet, SigInfo, Pending, sigismember, sigaddset, sigemptyset}
use hos.Signal.Sets.{sigismember-sigaddset, sigismember-sigemptyset}
use hos.Signal.Collect.{is_queued, is_queued-append, IsKnown}
use hos.Signal.Tasks.{
  Task, Code, done, error, einval, sigcont, sig_is_ignored, is_over, enqueue, send_signal, unqueue,
  rm_from_queue, cont_mask, stop_mask, is_stop, wake_stopped, handle_stop_signal,
}

pub is_queued-unqueue :
    (mask : SigSet) (k : ℕ) (qs : List SigInfo)
    → is_queued k (unqueue mask qs) ≡ (is_queued k qs && not (sigismember mask k))
unfolding unqueue
is_queued-unqueue mask k [] = refl
is_queued-unqueue mask k (q ∷ qs) = elim (Nat-cases q.si_signo k) [
  | inl same ↦ ground (arith, is_queued-unqueue mask k qs, ap (sigismember mask) same)
  | inr other ↦ ground (arith, is_queued-unqueue mask k qs)
]

pub IsKnown-unqueue : (mask : SigSet) (p : Pending) → IsKnown p → IsKnown (rm_from_queue mask p)
unfolding rm_from_queue
IsKnown-unqueue mask p known k pos h = ground (arith, known k pos, is_queued-unqueue mask k p.queue)

IsKnown-enqueue :
    (sig : ℕ) (info : SigInfo) (t : Task)
    → 1 ≤ sig
    → info.si_signo ≡ sig
    → IsKnown t.pending
    → IsKnown (enqueue sig info t).pending
IsKnown-enqueue sig info t pos same known k k_pos h = ground (
  arith,
  known k k_pos,
  is_queued-append k t.pending.queue (info ∷ []),
  sigismember-sigaddset t.pending.signal sig k pos k_pos,
)

-- What `__send_signal` does on each of its ways.
pub data Sent (memory : Option SigInfo) (sig : ℕ) (info : SigInfo) (t : Task)
    : Code → Task → Type 0 where
  ignored : sig_is_ignored t sig ≡ true → Sent memory sig info t done t
  over : sig_is_ignored t sig ≡ false → is_over t ≡ true → Sent memory sig info t einval t
  out_of_memory :
      sig_is_ignored t sig ≡ false
      → is_over t ≡ false
      → memory ≡ none
      → Sent memory sig info t (error 11) t
  queued :
      sig_is_ignored t sig ≡ false
      → is_over t ≡ false
      → (before : SigInfo) × (memory ≡ some before)
      → Sent memory sig info t done (enqueue sig info t)

alive_case :
    (memory : Option SigInfo) (sig : ℕ) (info : SigInfo) (t : Task)
    → sig_is_ignored t sig ≡ false
    → is_over t ≡ false
    → Sent memory sig info t
        (send_signal memory sig (some info) t).0
        (send_signal memory sig (some info) t).1
unfolding send_signal
alive_case none sig info t heard alive = rw (heard, alive) (out_of_memory heard alive refl)
alive_case (some before) sig info t heard alive =
    rw (heard, alive) (queued heard alive (before, refl))

-- `__send_signal` with information drops an ignored signal, refuses a task that has ended or a lack of
-- memory, and else puts one entry at the end of the queue and the signal in the set.
pub send_signal-Sent :
    (memory : Option SigInfo) (sig : ℕ) (info : SigInfo) (t : Task)
    → Sent memory sig info t
        (send_signal memory sig (some info) t).0
        (send_signal memory sig (some info) t).1
unfolding send_signal
send_signal-Sent memory sig info t = elim (Bool-cases (sig_is_ignored t sig)) [
  | inl yes_ignored ↦ rw yes_ignored (ignored yes_ignored)
  | inr heard ↦ elim (Bool-cases (is_over t)) [
    | inl ended ↦ rw (heard, ended) (over heard ended)
    | inr alive ↦ alive_case memory sig info t heard alive
  ]
]

pub IsKnown-Sent :
    {memory : Option SigInfo} {sig : ℕ} {info : SigInfo} {t : Task} {code : Code} {t' : Task}
    → Sent memory sig info t code t'
    → 1 ≤ sig
    → info.si_signo ≡ sig
    → IsKnown t.pending
    → (IsKnown t'.pending) × (t'.pid ≡ t.pid)
IsKnown-Sent (ignored h) pos same known = (known, refl)
IsKnown-Sent (over h e) pos same known = (known, refl)
IsKnown-Sent (out_of_memory h e m) pos same known = (known, refl)
IsKnown-Sent {sig = sig} {info = info} {t = t} (queued h e m) pos same known =
    (IsKnown-enqueue sig info t pos same known, refl)

-- Waking a task changes its state alone.
pub wake_stopped-pending :
    (t : Task) (stopped : List ℕ)
    → ((wake_stopped t stopped).0.pending ≡ t.pending) × ((wake_stopped t stopped).0.pid ≡ t.pid)
unfolding wake_stopped
wake_stopped-pending t [] = (refl, refl)
wake_stopped-pending t (e ∷ es) = elim (Bool-cases (e == t.pid)) [
  | inr other ↦ rw other (wake_stopped-pending t es)
  | inl same ↦ elim (Bool-cases ((t.state == 2) || (t.state == 4))) [
    | inl sleeping ↦ rw (same, sleeping) (refl, refl)
    | inr awake ↦ rw (same, awake) (refl, refl)
  ]
]

cont_mask-member :
    (stack : SigSet) (k : ℕ) → 1 ≤ k → k ≤ 32 → sigismember (cont_mask stack) k ≡ (sigcont == k)
cont_mask-member stack k p q = ground (
  arith,
  sigismember-sigaddset (sigemptyset stack) sigcont k (omega arith) p,
  sigismember-sigemptyset stack k p,
)

stop_mask-member :
    (stack : SigSet) (k : ℕ) → 1 ≤ k → k ≤ 32 → sigismember (stop_mask stack) k ≡ is_stop k
stop_mask-member stack k p q =
    let s0 = sigemptyset stack in
    let s1 = sigaddset s0 23 in
    let s2 = sigaddset s1 24 in
    let s3 = sigaddset s2 26 in
    ground (
      arith,
      sigismember-sigaddset s0 23 k (omega arith) p,
      sigismember-sigaddset s1 24 k (omega arith) p,
      sigismember-sigaddset s2 26 k (omega arith) p,
      sigismember-sigaddset s3 27 k (omega arith) p,
      sigismember-sigemptyset stack k p,
    )

-- The signals whose entries `sig` takes from the queue.
abbrev pub cancels : ℕ → ℕ → Bool
cancels sig k = (is_stop sig && (k == sigcont)) || ((sig == sigcont) && is_stop k)

-- `handle_stop_signal` takes the entries that `sig` cancels from the queue and no other entry of a
-- signal up to 32; the set of pending signals stays as it was, and so does the pid.
pub handle_stop_signal-queue :
    (stack : SigSet) (sig : ℕ) (t : Task) (stopped : List ℕ) (k : ℕ)
    → 1 ≤ k
    → k ≤ 32
    → (is_queued k (handle_stop_signal stack sig t stopped).0.pending.queue
        ≡ (is_queued k t.pending.queue && not (cancels sig k)))
      × ((handle_stop_signal stack sig t stopped).0.pending.signal ≡ t.pending.signal)
      × ((handle_stop_signal stack sig t stopped).0.pid ≡ t.pid)
unfolding handle_stop_signal rm_from_queue
handle_stop_signal-queue stack sig t stopped k p q = elim (Bool-cases (is_stop sig)) [
  | inl stop ↦ rw stop (
    ground (
      arith,
      is_queued-unqueue (cont_mask stack) k t.pending.queue,
      cont_mask-member stack k p q,
    ),
    refl,
    refl,
  )
  | inr other ↦ elim (Bool-cases (sig == sigcont)) [
    | inr plain ↦ rw (other, plain) (ground arith, refl, refl)
    | inl cont ↦
        let (same_pending, same_pid) =
          wake_stopped-pending (record t { pending = rm_from_queue (stop_mask stack) t.pending })
            stopped in
        rw (other, cont)
          (
            ap (λ (r : Pending). is_queued k r.queue) same_pending
                ∙ ground (
                  arith,
                  is_queued-unqueue (stop_mask stack) k t.pending.queue,
                  stop_mask-member stack k p q,
                ),
            ap (λ (r : Pending). r.signal) same_pending,
            same_pid,
          )
  ]
]
