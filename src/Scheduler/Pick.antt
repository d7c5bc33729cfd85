-- ===== src/Scheduler/Pick.antt =====
-- The round robin of src/kernel/process/sched_algo.c: whom it picks.
use hos.Base.{
  is_in, ℕ, ◌≡◌, refl, ap, ◌∙◌, Bool, true, false, not, ◌&&◌, ◌==◌, arith, Bool-cases, Nat-cases,
  inl, inr, List, [], ◌∷◌, ◌++◌, Option, none, some,
}
use hos.Scheduler.{
  Task, RunQueue, behind, in_front, is_candidate, first_candidate, is_nil, scheduler_rr,
}

-- The tasks of a walk none of which is a candidate.
pub none_of : (ℕ → Task) → Bool → List ℕ → Bool
none_of m skip [] = true
none_of m skip (x ∷ xs) = not (is_candidate skip (m x)) && none_of m skip xs

-- The first candidate of a walk.
pub data First (m : ℕ → Task) (skip : Bool) (walk : List ℕ) : Option ℕ → Type 0 where
  nobody : none_of m skip walk ≡ true → First m skip walk none
  picked :
      (skipped : List ℕ) (x : ℕ) (rest : List ℕ)
      → walk ≡ skipped ++ (x ∷ rest)
      → none_of m skip skipped ≡ true
      → is_candidate skip (m x) ≡ true
      → First m skip walk (some x)

pub first_candidate-First :
    (m : ℕ → Task) (skip : Bool) (walk : List ℕ) → First m skip walk (first_candidate m skip walk)
unfolding first_candidate none_of
first_candidate-First m skip [] = nobody refl
first_candidate-First m skip (x ∷ xs) = elim (Bool-cases (is_candidate skip (m x))) [
  | inl yes_c ↦ rw yes_c (picked [] x xs refl refl yes_c)
  | inr no_c ↦ rw no_c (behind_x (first_candidate m skip xs) (first_candidate-First m skip xs) no_c)
]
  where
    behind_x :
        (o : Option ℕ)
        → First m skip xs o
        → is_candidate skip (m x) ≡ false
        → First m skip (x ∷ xs) o
    behind_x none (nobody h) f = nobody (ground arith)
    behind_x (some y) (picked skipped y' rest e h c) f =
        picked (x ∷ skipped) y rest (ap (λ l. x ∷ l) e) (ground (arith, h)) c

-- The list around one of its tasks.
split_at : (c : ℕ) (q : List ℕ) → is_in c q ≡ true → q ≡ in_front c q ++ (c ∷ behind c q)
split_at c [] h = ground arith
split_at c (x ∷ xs) h = elim (Nat-cases x c) [
  | inl same ↦ let e : (x == c) ≡ true = ground arith in rw (e, same) refl
  | inr other ↦
      let e : (x == c) ≡ false = ground arith in
      rw e (ap (λ l. x ∷ l) (split_at c xs (ground (arith, h))))
]

-- What the round robin picks at the task `c`.
pub data RoundRobin (r : RunQueue) (skip : Bool) (c : ℕ) : Option ℕ → Type 0 where
  alone : r.queue ≡ c ∷ [] → RoundRobin r skip c (some c)
  others :
      (front back : List ℕ) (o : Option ℕ)
      → r.queue ≡ front ++ (c ∷ back)
      → is_nil (back ++ front) ≡ false
      → First r.tasks skip (back ++ front) o
      → RoundRobin r skip c o

nil_append : (xs ys : List ℕ) → is_nil (xs ++ ys) ≡ true → (xs ≡ []) × (ys ≡ [])
nil_append [] [] h = (refl, refl)
nil_append [] (y ∷ ys) h = ground arith
nil_append (x ∷ xs) ys h = ground arith

-- For a task of the run queue `__scheduler_rr` returns the task itself where the queue has no other
-- one, and else the first runnable task that it need not skip on the way from the task's successor
-- around to its predecessor, or NULL where that way has none.
pub scheduler_rr-RoundRobin :
    (r : RunQueue) (skip : Bool) (c : ℕ)
    → is_in c r.queue ≡ true
    → RoundRobin r skip c (scheduler_rr r skip c)
unfolding scheduler_rr
scheduler_rr-RoundRobin r skip c h =
    elim (Bool-cases (is_nil (behind c r.queue ++ in_front c r.queue))) [
      | inl nil ↦
          let (no_back, no_front) = nil_append (behind c r.queue) (in_front c r.queue) nil in
          rw (h, nil)
            (alone (
              split_at c r.queue h
              ∙ ap (λ l. l ++ (c ∷ behind c r.queue)) no_front
              ∙ ap (λ l. c ∷ l) no_back))
      | inr walk ↦
          rw (h, walk)
            (others (in_front c r.queue) (behind c r.queue)
              (first_candidate r.tasks skip (behind c r.queue ++ in_front c r.queue))
              (split_at c r.queue h) walk
              (first_candidate-First r.tasks skip (behind c r.queue ++ in_front c r.queue)))
    ]
