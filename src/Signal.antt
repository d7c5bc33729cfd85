-- ===== src/Signal.antt =====
-- Signals, src/kernel/system/signal.c: signal sets, the queue of pending signals, and sending.
--
-- A `sigset_t` is the memory from its first word on: word 0 and 1 are `sig[0]` and `sig[1]`, what
-- follows lies behind the set. Sets are passed by the address of a field, which is not NULL. Locks
-- and `dprintf` leave the modelled state alone.
pub mod Sets
pub mod Next
pub mod Collect
pub mod Tasks
pub mod Send
pub mod Kill
pub mod Masks
mod Tests
use hos.Base.{
  all_ones, store, ℕ, zero, suc, ◌+◌, ◌-◌, ◌/◌, ◌%◌, ◌^◌, bit_and, bit_or, Bool, true, false, not,
  ◌&&◌, ◌||◌, ltb, leb, ◌==◌, if◌then◌else◌, Option, none, some, List, [], ◌∷◌, ◌++◌, get_or,
}

pub record SigSet : Type 0 where
  pub sig : ℕ → ℕ

-- `signum - 1`, word and bit of which C takes by / and %. For 0 the quotient is 0 and the remainder
-- -1, a shift by which is one by 31 on the x86.
abbrev pub position : ℕ → ℕ
position zero = 31
position (suc n) = n

abbrev pub word_of : ℕ → ℕ
word_of signum = position signum / 2 ^ 5

abbrev pub bit_of : ℕ → ℕ
bit_of signum = position signum % 2 ^ 5

-- `bit_check` of include/kernel/bitops.h, as a condition.
abbrev pub bit_check : ℕ → ℕ → Bool
bit_check v b = not (bit_and v (2 ^ b) == 0)

abbrev pub bitmask_clear : ℕ → ℕ → ℕ
bitmask_clear v m = bit_and v (all_ones - m)

pub sigemptyset : SigSet → SigSet
sigemptyset s = record { sig = store s.sig 0 0 }

pub sigfillset : SigSet → SigSet
sigfillset s = record { sig = store s.sig 0 all_ones }

pub sigaddset : SigSet → ℕ → SigSet
sigaddset s signum = if signum == 0 then s else record {
  sig = store s.sig (word_of signum) (bit_or (s.sig (word_of signum)) (2 ^ bit_of signum));
}

pub sigdelset : SigSet → ℕ → SigSet
sigdelset s signum = record {
  sig =
      store s.sig (word_of signum)
        (bit_and (s.sig (word_of signum)) (all_ones - 2 ^ bit_of signum));
}

pub sigismember : SigSet → ℕ → Bool
sigismember s signum = bit_check (s.sig (word_of signum)) (bit_of signum)

-- The loop of `find_first_non_zero` at bit `i`, with `left` rounds to go.
pub find_from : ℕ → ℕ → ℕ → ℕ
find_from zero i value = 0
find_from (suc left) i value =
    let rest = find_from left (i + 1) value in if bit_check value i then i else rest

pub find_first_non_zero : ℕ → ℕ
find_first_non_zero value = find_from 32 0 value

-- `siginfo_t`, its fields as the machine's numbers.
pub record SigInfo : Type 0 where
  pub si_signo : ℕ
  pub si_code : ℕ
  pub si_value : ℕ
  pub si_errno : ℕ
  pub si_pid : ℕ
  pub si_uid : ℕ
  pub si_addr : ℕ
  pub si_status : ℕ
  pub si_band : ℕ

abbrev pub si_user : ℕ
si_user = 1

-- The information that the code fills in itself.
abbrev pub plain_info : ℕ → ℕ → ℕ → SigInfo
plain_info sig pid uid = record {
  si_signo = sig;
  si_code = si_user;
  si_value = 0;
  si_errno = 0;
  si_pid = pid;
  si_uid = uid;
  si_addr = 0;
  si_status = 0;
  si_band = 0;
}

-- `sigpending_t`: the queue in the order of its links.
pub record Pending : Type 0 where
  pub queue : List SigInfo
  pub signal : SigSet

abbrev pub nsig : ℕ
nsig = 32

pub next_signal : Pending → SigSet → ℕ
next_signal pending mask =
    let x = bitmask_clear (pending.signal.sig 0) (mask.sig 0) in
    let y = bitmask_clear (pending.signal.sig 1) (mask.sig 1) in
    if not (x == 0)
    then 1 + find_first_non_zero x
    else if not (y == 0)
    then 33 + find_first_non_zero y
    else 0

-- The loop of `__collect_signal` from the entry with number `i` on: the entry found, and whether
-- there is another one.
pub collect_loop : ℕ → ℕ → Option ℕ → List SigInfo → Option ℕ × Bool
collect_loop sig i found [] = (found, false)
collect_loop sig i none (q ∷ qs) =
    if q.si_signo == sig
    then collect_loop sig (i + 1) (some i) qs
    else collect_loop sig (i + 1) none qs
collect_loop sig i (some e) (q ∷ qs) =
    let rest = collect_loop sig (i + 1) (some e) qs in
    if q.si_signo == sig then (some e, true) else rest

abbrev pub remove_at : List SigInfo → ℕ → List SigInfo
remove_at [] i = []
remove_at (q ∷ qs) zero = qs
remove_at (q ∷ qs) (suc i) = q ∷ remove_at qs i

-- `__collect_signal` for the running process with the given ids: the information and what is left.
pub collect_signal : ℕ → ℕ → ℕ → Pending → SigInfo × Pending
collect_signal pid uid sig pending =
    let (entry, still_pending) = collect_loop sig 0 none pending.queue in
    let signal = if still_pending then pending.signal else sigdelset pending.signal sig in
    taken entry signal
  where
    taken : Option ℕ → SigSet → SigInfo × Pending
    taken none signal = (plain_info sig pid uid, record pending { signal = signal })
    taken (some i) signal = (
      get_or pending.queue i (plain_info sig pid uid),
      record { queue = remove_at pending.queue i; signal = signal },
    )

-- `__dequeue_signal`; where no signal is collected `info` is left as it was.
pub dequeue_signal : ℕ → ℕ → SigInfo → Pending → SigSet → ℕ × SigInfo × Pending
dequeue_signal pid uid info pending mask =
    let sig = next_signal pending mask in
    let collected = collect_signal pid uid sig pending in
    if ltb 0 sig && ltb sig nsig then (sig, collected.0, collected.1) else (sig, info, pending)
