-- ===== src/Signal/Masks.antt =====
-- `__dequeue_signal`, and the calls that change masks and actions, of src/kernel/system/signal.c.
use hos.Base.{
  all_ones, ℕ, ◌-◌, ◌^◌, ◌<◌, ◌≤◌, ◌≡◌, ◌≢◌, refl, Bool, true, false, not, ◌&&◌, ◌||◌, ltb, leb,
  ◌==◌, if◌then◌else◌, arith, Bool-cases, Nat-cases, inl, inr, ◌⊎◌, none, some,
}
use hos.Base.Bits.{bit, bit-le-one, bit-bit_or, bit-bit_and, bit-complement}
use hos.Signal.{
  SigSet, SigInfo, Pending, nsig, sigismember, word_of, bit_of, next_signal, dequeue_signal,
}
use hos.Signal.Sets.{IsWords, sigismember-bit}
use hos.Signal.Next.{NextSpec, next_signal-NextSpec}
use hos.Signal.Collect.{IsKnown, CollectSpec, collect_signal-CollectSpec, IsKnown-collect}
use hos.Signal.Tasks.{
  Task, done, is_negative, masked, mask_with, sys_sigprocmask, SigAction, Action, refused, replaced,
  outside, with_action, plain_action, set_action, sys_signal,
}

-- The outcome of `__dequeue_signal`.
pub record Dequeued (pid uid : ℕ) (info : SigInfo) (p : Pending) (mask : SigSet) (sig : ℕ)
    (given : SigInfo) (left : Pending) : Type 0 where
  pub lowest : NextSpec p mask sig
  pub taken : 1 ≤ sig → sig < nsig → CollectSpec pid uid sig p given left
  pub untouched : (sig ≡ 0) ⊎ (nsig ≤ sig) → (given ≡ info) × (left ≡ p)
  pub still_known : IsKnown p → IsKnown left

-- With 32-bit words `__dequeue_signal` returns the lowest signal that is pending and not blocked, takes
-- the first entry of it from the queue if it is one of 1 to 31, and keeps the signals of the queue in
-- the set.
pub dequeue_signal-Dequeued :
    (pid uid : ℕ) (info : SigInfo) (p : Pending) (mask : SigSet)
    → IsWords p.signal
    → IsWords mask
    → Dequeued pid uid info p mask
        (dequeue_signal pid uid info p mask).0
        (dequeue_signal pid uid info p mask).1
        (dequeue_signal pid uid info p mask).2
unfolding dequeue_signal
dequeue_signal-Dequeued pid uid info p mask hp hm =
    let sig = next_signal p mask in
    elim (Bool-cases (ltb 0 sig && ltb sig nsig)) [
      | inl valid ↦ rw valid (record {
        lowest = next_signal-NextSpec p mask hp hm;
        taken = λ low high. collect_signal-CollectSpec pid uid sig p;
        untouched = λ h. absurd (invalid sig valid h);
        still_known = IsKnown-collect pid uid sig p (ground arith);
      })
      | inr other ↦ rw other (record {
        lowest = next_signal-NextSpec p mask hp hm;
        taken = λ low high. absurd (ground arith);
        untouched = λ h. (refl, refl);
        still_known = λ h. h;
      })
    ]
  where
    invalid : (s : ℕ) → (ltb 0 s && ltb s nsig) ≡ true → ¬ ((s ≡ 0) ⊎ (nsig ≤ s))
    invalid s v h = ground arith

-- What `how` makes of the membership in the old set and in the argument.
abbrev pub combined : ℕ → Bool → Bool → Bool
combined how old new =
    if how == 0
    then old || new
    else if how == 1
    then old && not new
    else if how == 2
    then new
    else old

bit-masked :
    (how a b j : ℕ)
    → b < 2 ^ 32
    → j < 32
    → (bit (masked how a b) j == 1) ≡ combined how (bit a j == 1) (bit b j == 1)
bit-masked how a b j h p = ground (
  arith,
  bit-bit_or a b j,
  bit-bit_and a (all_ones - b) j,
  bit-complement 32 b j h p,
  bit-le-one a j,
  bit-le-one b j,
)

sigismember-mask_with :
    (how : ℕ) (s set : SigSet) (k : ℕ)
    → IsWords set
    → 1 ≤ k
    → k ≤ 64
    → sigismember (mask_with how s set) k ≡ combined how (sigismember s k) (sigismember set k)
sigismember-mask_with how s set k h low high =
    rw (sigismember-bit (mask_with how s set) k, sigismember-bit s k, sigismember-bit set k)
      (elim (Bool-cases (leb k 32)) [
        | inl first ↦
            let e : word_of k ≡ 0 = ground arith in
            rw e (bit-masked how (s.sig 0) (set.sig 0) (bit_of k) (h 0) (omega arith))
        | inr second ↦
            let e : word_of k ≡ 1 = ground arith in
            rw e (bit-masked how (s.sig 1) (set.sig 1) (bit_of k) (h 1) (omega arith))
      ])

-- For a task other than init, a set of 32-bit words and a `how` of 0, 1 or 2, `sys_sigprocmask` answers 0
-- and leaves the signals 1 to 64 blocked that are so by `how`: the union, the difference or the set; it
-- gives the old set out.
pub sys_sigprocmask-combined :
    (how : ℕ) (set : SigSet) (wants_old : Bool) (t : Task)
    → IsWords set
    → how ≤ 2
    → t.pid ≢ 1
    → ((sys_sigprocmask how (some set) wants_old t).0 ≡ done)
      × ((sys_sigprocmask how (some set) wants_old t).2
          ≡ (if wants_old then some t.blocked else none))
      × ((k : ℕ)
          → 1 ≤ k
          → k ≤ 64
          → sigismember (sys_sigprocmask how (some set) wants_old t).1.blocked k
            ≡ combined how (sigismember t.blocked k) (sigismember set k))
unfolding sys_sigprocmask
sys_sigprocmask-combined how set wants_old t words known user =
    let fine : (is_negative how || ltb 2 how || (t.pid == 1)) ≡ false = ground arith in
    rw fine (refl, refl, λ k low high. sigismember-mask_with how t.blocked set k words low high)

-- The outcomes of `sys_signal`.
pub data Replaced (signum : ℕ) (handler sigreturn_addr : ℕ) (t : Task) : Action → Type 0 where
  no_signal :
      (is_negative signum ≡ true) ⊎ (nsig ≤ signum)
      → Replaced signum handler sigreturn_addr t refused
  no_init : t.pid ≡ 1 → Replaced signum handler sigreturn_addr t refused
  in_front : signum ≡ 0 → t.pid ≢ 1 → Replaced signum handler sigreturn_addr t outside
  stored :
      (u : Task)
      → 1 ≤ signum
      → signum < nsig
      → t.pid ≢ 1
      → ((u.action (signum - 1)).sa_handler ≡ handler)
      → ((i : ℕ) → i ≢ signum - 1 → u.action i ≡ t.action i)
      → u.sigreturn_addr ≡ sigreturn_addr
      → Replaced signum handler sigreturn_addr t (replaced (t.action (signum - 1)) u)

action-other :
    (signum i : ℕ) (act : SigAction) (addr : ℕ) (t : Task)
    → i ≢ signum - 1
    → (with_action signum act addr t).action i ≡ t.action i
action-other signum i act addr t ne = ground arith

-- `sys_signal` refuses a signal number from 32 on or below 0 and refuses init, writes in front of the
-- array of actions exactly for the number 0, and else replaces the action of that signal and of no other.
pub sys_signal-Replaced :
    (stack : SigSet) (signum handler sigreturn_addr : ℕ) (t : Task)
    → Replaced signum handler sigreturn_addr t (sys_signal stack signum handler sigreturn_addr t)
unfolding sys_signal set_action
sys_signal-Replaced stack signum handler sigreturn_addr t =
    elim (Bool-cases (is_negative signum || leb nsig signum)) [
      | inl bad ↦ rw bad (no_signal (ground arith))
      | inr good ↦ elim (Nat-cases t.pid 1) [
        | inl init ↦ let e : (t.pid == 1) ≡ true = ground arith in rw (good, e) (no_init init)
        | inr user ↦ elim (Nat-cases signum 0) [
          | inl z ↦
              let e : (t.pid == 1) ≡ false = ground arith in
              let e' : (signum == 0) ≡ true = ground arith in rw (good, e, e') (in_front z user)
          | inr n ↦
              let e : (t.pid == 1) ≡ false = ground arith in
              let e' : (signum == 0) ≡ false = ground arith in
              let own : ((signum - 1) == (signum - 1)) ≡ true = ground arith in
              rw (good, e, e')
                (stored (with_action signum (plain_action stack handler) sigreturn_addr t)
                  (omega arith) (ground arith) user (rw own refl)
                  (λ i ne. action-other signum i (plain_action stack handler) sigreturn_addr t ne)
                  refl)
        ]
      ]
    ]
