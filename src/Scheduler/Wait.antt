-- ===== src/Scheduler/Wait.antt =====
-- `sys_waitpid` and the calls on identities and priorities of src/kernel/process/scheduler.c.
use mathlib.Core.Bool.{false≢true, true≢false}
use Prim.Native.Nat.{min, max}
use hos.Base.{
  remove, ℕ, ◌+◌, ◌-◌, ◌^◌, ◌%◌, ◌<◌, ◌≤◌, ◌≡◌, ◌≢◌, refl, ap, sym, ◌∙◌, Bool, true, false, not,
  ◌&&◌, ◌||◌, ◌==◌, ltb, leb, arith, Bool-cases, Nat-cases, inl, inr, ◌⊎◌, List, [], ◌∷◌, ◌++◌,
  Option, none, some,
}
use hos.Scheduler.{
  Task, RunQueue, exit_zombie, first_reapable, reap, answer, dequeue_task, sys_waitpid, Result,
  value, error, is_nil, new_prio, sys_nice, sys_setuid,
}

-- The child is a zombie that `pid` stands for: every one for -1 (and for 1), else the one with that pid.
abbrev pub is_reapable : ℕ → Task → Bool
is_reapable pid t =
    (t.state == exit_zombie) && (leb (2 ^ 31) pid || not (ltb 1 pid) || (t.pid == pid))

pub none_reapable : (ℕ → Task) → ℕ → List ℕ → Bool
none_reapable m pid [] = true
none_reapable m pid (x ∷ xs) = not (is_reapable pid (m x)) && none_reapable m pid xs

-- The child that `sys_waitpid` finds.
pub data Found (m : ℕ → Task) (pid : ℕ) (xs : List ℕ) : Option ℕ → Type 0 where
  nobody : none_reapable m pid xs ≡ true → Found m pid xs none
  child :
      (before : List ℕ) (x : ℕ) (after : List ℕ)
      → xs ≡ before ++ (x ∷ after)
      → none_reapable m pid before ≡ true
      → is_reapable pid (m x) ≡ true
      → remove x xs ≡ before ++ after
      → Found m pid xs (some x)

first_reapable-Found :
    (m : ℕ → Task) (pid : ℕ) (xs : List ℕ) → Found m pid xs (first_reapable m pid xs)
unfolding first_reapable none_reapable remove
first_reapable-Found m pid [] = nobody refl
first_reapable-Found m pid (x ∷ xs) = elim (Bool-cases (is_reapable pid (m x))) [
  | inl good ↦
      let here : first_reapable m pid (x ∷ xs) ≡ some x = ground (arith, good) in
      let own : (x == x) ≡ true = ground arith in
      rw here (child [] x xs refl refl good (rw own refl))
  | inr bad ↦
      let skip : first_reapable m pid (x ∷ xs) ≡ first_reapable m pid xs = ground (arith, bad) in
      rw skip (behind_x (first_reapable m pid xs) (first_reapable-Found m pid xs) bad)
]
  where
    apart :
        (y : ℕ) → is_reapable pid (m y) ≡ true → is_reapable pid (m x) ≡ false → (x == y) ≡ false
    apart y c f = elim (Nat-cases x y) [
      | inl same ↦ absurd (false≢true (sym f ∙ ap (λ a. is_reapable pid (m a)) same ∙ c))
      | inr other ↦ ground arith
    ]

    behind_x :
        (o : Option ℕ) → Found m pid xs o → is_reapable pid (m x) ≡ false → Found m pid (x ∷ xs) o
    behind_x none (nobody h) f = nobody (ground arith)
    behind_x (some y) (child before y' after e h c gone) f =
        let ne : (x == y) ≡ false = apart y c f in
        child (x ∷ before) y after (ap (λ l. x ∷ l) e) (ground (arith, h)) c
          (rw ne (ap (λ l. x ∷ l) gone))

-- A `pid` that stands for a process group: below -1, or 0.
abbrev pub IsGroup : ℕ → Type 0
IsGroup pid = (2 ^ 31 ≤ pid) × (pid ≢ 2 ^ 32 - 1) ⊎ (pid ≡ 0)

-- No process group, and not the pid of the caller, the task `t`.
abbrev pub IsOther : ℕ → Task → Type 0
IsOther pid t = ¬ IsGroup pid × (pid ≢ t.pid)

-- Such a `pid`, and options that are 0 or WNOHANG.
abbrev pub IsRequest : ℕ → ℕ → Task → Type 0
IsRequest pid options t = IsOther pid t × (options ≤ 1)

-- The answers of `sys_waitpid` of the task at `c`; no two cases have their conditions together.
pub data Waited (pid options : ℕ) (r : RunQueue) (c : ℕ)
    : Result → RunQueue → Option ℕ → Type 0 where
  group : IsGroup pid → Waited pid options r c (error 3) r none
  myself : ¬ IsGroup pid → pid ≡ (r.tasks c).pid → Waited pid options r c (error 10) r none
  bad_options : IsOther pid (r.tasks c) → 2 ≤ options → Waited pid options r c (error 22) r none
  childless :
      IsRequest pid options (r.tasks c)
      → (r.tasks c).children ≡ []
      → Waited pid options r c (error 10) r none
  no_zombie :
      IsRequest pid options (r.tasks c)
      → (r.tasks c).children ≢ []
      → none_reapable r.tasks pid (r.tasks c).children ≡ true
      → Waited pid options r c (value 0) r none
  reaped :
      IsRequest pid options (r.tasks c)
      → (before : List ℕ) (x : ℕ) (after : List ℕ) → (r.tasks c).children ≡ before ++ (x ∷ after)
      → none_reapable r.tasks pid before ≡ true
      → is_reapable pid (r.tasks x) ≡ true
      → ((reap c x r).tasks c).children ≡ before ++ after
      → (reap c x r).queue ≡ remove x r.queue
      → Waited pid options r c (value (r.tasks x).pid) (reap c x r) (some x)

reap-children :
    (c x : ℕ) (r : RunQueue)
    → (((reap c x r).tasks c).children ≡ remove x (r.tasks c).children)
      × ((reap c x r).queue ≡ remove x r.queue)
unfolding reap dequeue_task
reap-children c x r = let own : (c == c) ≡ true = ground arith in rw own (refl, refl)

-- With a current task, `sys_waitpid` answers -ESRCH to a pid of 0 or below -1, else -ECHILD to the
-- caller's own pid, else -EINVAL to options but 0 and WNOHANG, else -ECHILD to a caller with no
-- children, each without a change. Else it answers 0 at once, with WNOHANG or not, where no child it
-- waits for is a zombie, and takes the first such child out of the caller's children and the run queue
-- and answers its pid where there is one.
pub sys_waitpid-Waited :
    (pid options c : ℕ) (r : RunQueue)
    → r.curr ≡ some c
    → Waited pid options r c
        (sys_waitpid pid options r).0
        (sys_waitpid pid options r).1
        (sys_waitpid pid options r).2
unfolding sys_waitpid
sys_waitpid-Waited pid options c r now =
    simp now (elim (Bool-cases ((leb (2 ^ 31) pid && not (pid == (2 ^ 32 - 1))) || (pid == 0))) [
      | inl bad ↦ rw bad (group (ground arith))
      | inr fine ↦
          let pids = not_group fine in
          elim (Bool-cases (pid == (r.tasks c).pid)) [
            | inl own ↦ rw (fine, own) (myself pids (ground arith))
            | inr other ↦
                let apart : pid ≢ (r.tasks c).pid = ground arith in
                elim (Bool-cases (not (options == 0) && not (options == 1))) [
                  | inl odd ↦ rw (fine, other, odd) (bad_options (pids, apart) (ground arith))
                  | inr plain ↦
                      let request : IsRequest pid options (r.tasks c) =
                        ((pids, apart), plain_options plain) in
                      elim (Bool-cases (is_nil (r.tasks c).children)) [
                        | inl nil ↦
                            rw (fine, other, plain, nil)
                              (childless request (nil_of (r.tasks c).children nil))
                        | inr family ↦
                            rw (fine, other, plain, family)
                              (answered request (not_nil (r.tasks c).children family)
                                (first_reapable r.tasks pid (r.tasks c).children)
                                (first_reapable-Found r.tasks pid (r.tasks c).children))
                      ]
                ]
          ]
    ])
  where
    nil_of : (xs : List ℕ) → is_nil xs ≡ true → xs ≡ []
    nil_of [] h = refl
    nil_of (x ∷ xs) h = ground arith

    not_nil : (xs : List ℕ) → is_nil xs ≡ false → xs ≢ []
    not_nil xs h e = true≢false (sym (ap is_nil e) ∙ h)

    not_group :
        ((leb (2 ^ 31) pid && not (pid == (2 ^ 32 - 1))) || (pid == 0)) ≡ false → ¬ IsGroup pid
    not_group h (inl (high, ne)) = ground arith
    not_group h (inr zero) = ground arith

    plain_options : (not (options == 0) && not (options == 1)) ≡ false → options ≤ 1
    plain_options h = ground arith

    answered :
        IsRequest pid options (r.tasks c)
        → (r.tasks c).children ≢ []
        → (o : Option ℕ) → Found r.tasks pid (r.tasks c).children o
        → Waited pid options r c (answer c r o).0 (answer c r o).1 (answer c r o).2
    answered q kids none (nobody h) = no_zombie q kids h
    answered q kids (some x) (child before x' after e h good gone) =
        let (kin, left) = reap-children c x r in reaped q before x after e h good (kin ∙ gone) left

-- For a priority of 100 to 139, the nice values -20 to 19, `sys_nice` adds an increment `d` and stops at
-- 139, and takes it away for the increment `-d` and stops at 100.
pub sys_nice-clamps :
    (d c : ℕ) (r : RunQueue)
    → r.curr ≡ some c
    → 100 ≤ (r.tasks c).prio
    → (r.tasks c).prio ≤ 139
    → d < 2 ^ 31
    → (((sys_nice d r).1.tasks c).prio ≡ min ((r.tasks c).prio + d) 139)
      × (((sys_nice ((2 ^ 32 - d) % 2 ^ 32) r).1.tasks c).prio ≡ max ((r.tasks c).prio - d) 100)
unfolding sys_nice new_prio
sys_nice-clamps d c r now low high small =
    let own : (c == c) ≡ true = ground arith in simp now (rw own (ground arith, ground arith))

-- `sys_setuid` changes the user of the current task, and only if that is root.
pub sys_setuid-root :
    (uid c : ℕ) (r : RunQueue)
    → r.curr ≡ some c
    → (((r.tasks c).uid ≡ 0)
        × ((sys_setuid uid r).0 ≡ value 0)
        × (((sys_setuid uid r).1.tasks c).uid ≡ uid))
      ⊎ (((r.tasks c).uid ≢ 0) × (sys_setuid uid r ≡ (error 1, r)))
unfolding sys_setuid
sys_setuid-root uid c r now = elim (Nat-cases (r.tasks c).uid 0) [
  | inl root ↦
      let e : ((r.tasks c).uid == 0) ≡ true = ground arith in
      let own : (c == c) ≡ true = ground arith in rw (now, e) (rw own (inl (root, refl, refl)))
  | inr user ↦
      let e : ((r.tasks c).uid == 0) ≡ false = ground arith in rw (now, e) (inr (user, refl))
]
