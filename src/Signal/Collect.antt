-- ===== src/Signal/Collect.antt =====
-- `__collect_signal` and `__dequeue_signal` of src/kernel/system/signal.c: which entry leaves the
-- queue, and when the signal stays pending.
use hos.Base.{
  ℕ, ◌+◌, ◌≤◌, ◌≡◌, refl, ap, sym, ◌∙◌, Bool, true, false, ◌||◌, ◌==◌, if◌then◌else◌, arith,
  Bool-cases, inl, inr, List, [], ◌∷◌, ◌++◌, none, some, length, get_or,
}
use hos.Signal.{
  SigSet, SigInfo, Pending, plain_info, sigismember, sigdelset, collect_loop, remove_at,
  collect_signal,
}
use hos.Signal.Sets.{sigismember-sigdelset}

-- The queue has an entry for the signal.
abbrev pub is_queued : ℕ → List SigInfo → Bool
is_queued sig [] = false
is_queued sig (q ∷ qs) = (q.si_signo == sig) || is_queued sig qs

pub is_queued-append :
    (sig : ℕ) (ps qs : List SigInfo)
    → is_queued sig (ps ++ qs) ≡ (is_queued sig ps || is_queued sig qs)
is_queued-append sig [] qs = refl
is_queued-append sig (p ∷ ps) qs = ground (arith, is_queued-append sig ps qs)

loop_some :
    (sig i e : ℕ) (qs : List SigInfo) → collect_loop sig i (some e) qs ≡ (some e, is_queued sig qs)
unfolding collect_loop
loop_some sig i e [] = refl
loop_some sig i e (q ∷ qs) = ground (arith, loop_some sig (i + 1) e qs)

-- The first entry for the signal, what is before it and what is behind it.
pub record Split (sig : ℕ) (qs : List SigInfo) : Type 0 where
  pub before : List SigInfo
  pub entry : SigInfo
  pub after : List SigInfo
  pub is_split : qs ≡ before ++ (entry ∷ after)
  pub is_entry : entry.si_signo ≡ sig
  pub is_first : is_queued sig before ≡ false

pub data LoopSpec (sig i : ℕ) (qs : List SigInfo) : Type 0 where
  absent : is_queued sig qs ≡ false → collect_loop sig i none qs ≡ (none, false) → LoopSpec sig i qs
  present :
      (s : Split sig qs)
      → collect_loop sig i none qs ≡ (some (i + length s.before), is_queued sig s.after)
      → LoopSpec sig i qs

collect_loop-LoopSpec : (sig i : ℕ) (qs : List SigInfo) → LoopSpec sig i qs
unfolding collect_loop
collect_loop-LoopSpec sig i [] = absent refl refl
collect_loop-LoopSpec sig i (q ∷ qs) = elim (Bool-cases (q.si_signo == sig)) [
  | inl same ↦
      present
        (record {
          before = [];
          entry = q;
          after = qs;
          is_split = refl;
          is_entry = ground arith;
          is_first = refl;
        })
        (rw same (loop_some sig (i + 1) i qs ∙ ap (λ n. (some n, is_queued sig qs)) (omega arith)))
  | inr other ↦ elim (collect_loop-LoopSpec sig (i + 1) qs) [
    | absent unqueued runs ↦ absent (ground arith) (rw other runs)
    | present s runs ↦
        present
          (record {
            before = q ∷ s.before;
            entry = s.entry;
            after = s.after;
            is_split = ap (λ l. q ∷ l) s.is_split;
            is_entry = s.is_entry;
            is_first = ground (arith, s.is_first);
          })
          (rw other (runs ∙ ap (λ n. (some n, is_queued sig s.after)) (omega arith)))
  ]
]

get_or-split :
    (ps : List SigInfo) (q : SigInfo) (qs : List SigInfo) (d : SigInfo)
    → get_or (ps ++ (q ∷ qs)) (length ps) d ≡ q
get_or-split [] q qs d = refl
get_or-split (p ∷ ps) q qs d = get_or-split ps q qs d

remove_at-split :
    (ps : List SigInfo) (q : SigInfo) (qs : List SigInfo)
    → remove_at (ps ++ (q ∷ qs)) (length ps) ≡ ps ++ qs
remove_at-split [] q qs = refl
remove_at-split (p ∷ ps) q qs = ap (λ l. p ∷ l) (remove_at-split ps q qs)

-- What `__collect_signal` gives and leaves.
pub data CollectSpec (pid uid sig : ℕ) (p : Pending) (info : SigInfo) (left : Pending)
    : Type 0 where
  invented :
      is_queued sig p.queue ≡ false
      → info ≡ plain_info sig pid uid
      → left.queue ≡ p.queue
      → left.signal ≡ sigdelset p.signal sig
      → CollectSpec pid uid sig p info left
  collected :
      (s : Split sig p.queue)
      → info ≡ s.entry
      → left.queue ≡ s.before ++ s.after
      → left.signal ≡ (if is_queued sig s.after then p.signal else sigdelset p.signal sig)
      → CollectSpec pid uid sig p info left

pub collect_signal-CollectSpec :
    (pid uid sig : ℕ) (p : Pending)
    → CollectSpec pid uid sig p (collect_signal pid uid sig p).0 (collect_signal pid uid sig p).1
unfolding collect_signal
collect_signal-CollectSpec pid uid sig p = elim (collect_loop-LoopSpec sig 0 p.queue) [
  | absent unqueued runs ↦ rw runs (invented unqueued refl refl refl)
  | present s runs ↦
      let start : 0 + length s.before ≡ length s.before = omega arith in
      rw (runs, start)
        (collected s
          (ap (λ l. get_or l (length s.before) (plain_info sig pid uid)) s.is_split
            ∙ get_or-split s.before s.entry s.after (plain_info sig pid uid))
          (ap (λ l. remove_at l (length s.before)) s.is_split
            ∙ remove_at-split s.before s.entry s.after)
          refl)
]

-- Every entry of the queue has its signal in the set.
abbrev pub IsKnown : Pending → Type 0
IsKnown p = (k : ℕ) → 1 ≤ k → is_queued k p.queue ≡ true → sigismember p.signal k ≡ true

member_if :
    (b : Bool) (s t : SigSet) (k : ℕ)
    → sigismember (if b then s else t) k ≡ (if b then sigismember s k else sigismember t k)
member_if true s t k = refl
member_if false s t k = refl

pub IsKnown-collect :
    (pid uid sig : ℕ) (p : Pending) → 1 ≤ sig → IsKnown p → IsKnown (collect_signal pid uid sig p).1
IsKnown-collect pid uid sig p pos known =
    known_after (collect_signal pid uid sig p).0 (collect_signal pid uid sig p).1
      (collect_signal-CollectSpec pid uid sig p)
  where
    known_after :
        (info : SigInfo) (left : Pending) → CollectSpec pid uid sig p info left → IsKnown left
    known_after info left (invented unqueued given queue signal) k k_pos h =
        let at_most : sigismember left.signal k
            ≡ (if sig == k then false else sigismember p.signal k) =
          ap (λ t. sigismember t k) signal ∙ sigismember-sigdelset p.signal sig k pos k_pos in
        let still : is_queued k p.queue ≡ true = ap (is_queued k) (sym queue) ∙ h in
        ground (
          arith,
          at_most,
          known k k_pos still,
          λ (e : sig ≡ k). ap (λ n. is_queued n p.queue) e,
          unqueued,
          still,
        )
    known_after info left (collected s given queue signal) k k_pos h =
        let at_most =
          ap (λ t. sigismember t k) signal
          ∙ member_if (is_queued sig s.after) p.signal (sigdelset p.signal sig) k in
        let old : is_queued k p.queue
            ≡ (is_queued k s.before || ((s.entry.si_signo == k) || is_queued k s.after)) =
          ap (is_queued k) s.is_split ∙ is_queued-append k s.before (s.entry ∷ s.after) in
        let new = sym (is_queued-append k s.before s.after) ∙ ap (is_queued k) (sym queue) ∙ h in
        ground (
          arith,
          at_most,
          old,
          new,
          sigismember-sigdelset p.signal sig k pos k_pos,
          known k k_pos,
          λ (e : sig ≡ k). ap (λ n. is_queued n s.before) e,
          λ (e : sig ≡ k). ap (λ n. is_queued n s.after) e,
          s.is_first,
        )
