-- ===== src/Timers/Placement.antt =====
-- Where `__find_tvec` of src/arch/i386/timer.c puts a timer, and what its place says of it.
use hos.Base.{
  ℕ, ◌+◌, ◌-◌, ◌/◌, ◌%◌, ◌^◌, ◌<◌, ◌≤◌, ◌≡◌, ◌≢◌, refl, u32, true, false, ◌&&◌, ltb, leb, ◌==◌,
  if◌then◌else◌, arith, Bool-cases, inl, inr,
}
use hos.Timers.{Timer, Tvec, find_tvec}

-- A timer that expires at `e` may stand in list `index` of vector `tv` at tick `k`. The vector `tv`
-- was last relocated before tick `c tv`: its timers expire no sooner than its next relocation.
pub data Placed (k : ℕ) (c : ℕ → ℕ) (tv index e : ℕ) : Type 0 where
  late : tv ≡ 1 → index ≡ k % 256 → e < k → Placed k c tv index e
  in_tv1 : tv ≡ 1 → index ≡ e % 256 → k ≤ e → e < k + 256 → Placed k c tv index e
  in_tv2 :
      tv ≡ 2
      → index ≡ e / 256 % 64
      → (c 2 + 255) / 256 ≤ e / 256
      → e < k + 16384
      → Placed k c tv index e
  in_tv3 :
      tv ≡ 3
      → index ≡ e / 16384 % 64
      → (c 3 + 16383) / 16384 ≤ e / 16384
      → e < k + 1048576
      → Placed k c tv index e
  in_tv4 :
      tv ≡ 4
      → index ≡ e / 1048576 % 64
      → (c 4 + 1048575) / 1048576 ≤ e / 1048576
      → e < k + 67108864
      → Placed k c tv index e
  in_tv5 :
      tv ≡ 5
      → index ≡ e / 67108864 % 64
      → (c 5 + 67108863) / 67108864 ≤ e / 67108864
      → e < k + 2 ^ 32
      → Placed k c tv index e

-- The ticks `k` and `e` are less than half the range of the counter apart.
pub record IsNear (k e : ℕ) : Type 0 where
  pub k_bound : k < 2 ^ 32
  pub e_bound : e < 2 ^ 32
  pub ahead : e < k + 2 ^ 31
  pub behind : k ≤ e + 2 ^ 31

-- The clocks of the vectors are at most one tick ahead.
abbrev pub Clocks : ℕ → (ℕ → ℕ) → Type 0
Clocks k c = (tv : ℕ) → c tv ≤ k + 1

find_tvec-ahead :
    (w : Tvec) (t : Timer) (c : ℕ → ℕ)
    → IsNear w.timer_ticks t.expires
    → Clocks w.timer_ticks c
    → w.timer_ticks ≤ t.expires
    → Placed w.timer_ticks c (find_tvec w t).1 (find_tvec w t).0 t.expires
unfolding find_tvec
find_tvec-ahead w t c near clocks le =
    let k = w.timer_ticks in
    let e = t.expires in
    let near_e = near.e_bound in
    let near_k = near.k_bound in
    let near_a = near.ahead in
    let ticks : u32 (e + (2 ^ 32 - k)) ≡ e - k = omega arith in
    let not_past : leb (2 ^ 31) (e - k) ≡ false = ground arith in
    rw ticks (
      rw not_past (elim (Bool-cases (ltb (e - k) 256)) [
        | inl t1 ↦ rw t1 (in_tv1 refl refl le (ground (arith, t1)))
        | inr f1 ↦ rw f1 (elim (Bool-cases (ltb (e - k) 16384)) [
          | inl t2 ↦ rw t2 (in_tv2 refl refl (ground (arith, f1, clocks 2)) (ground (arith, t2)))
          | inr f2 ↦ rw f2 (elim (Bool-cases (ltb (e - k) 1048576)) [
            | inl t3 ↦ rw t3 (in_tv3 refl refl (ground (arith, f2, clocks 3)) (ground (arith, t3)))
            | inr f3 ↦ rw f3 (elim (Bool-cases (ltb (e - k) 67108864)) [
              | inl t4 ↦
                  rw t4 (in_tv4 refl refl (ground (arith, f3, clocks 4)) (ground (arith, t4)))
              | inr f4 ↦ rw f4 (in_tv5 refl refl (ground (arith, f4, clocks 5)) (omega arith))
            ])
          ])
        ])
      ]))

-- A timer is put where it may stand, be it due or not.
pub find_tvec-Placed :
    (w : Tvec) (t : Timer) (c : ℕ → ℕ)
    → IsNear w.timer_ticks t.expires
    → Clocks w.timer_ticks c
    → Placed w.timer_ticks c (find_tvec w t).1 (find_tvec w t).0 t.expires
unfolding find_tvec
find_tvec-Placed w t c near clocks = elim (Bool-cases (leb w.timer_ticks t.expires)) [
  | inl f ↦ find_tvec-ahead w t c near clocks (ground (arith, f))
  | inr f ↦
      let k = w.timer_ticks in
      let e = t.expires in
      let near_k = near.k_bound in
      let near_b = near.behind in
      let lt : e < k = ground (arith, f) in
      let past : leb (2 ^ 31) (u32 (e + (2 ^ 32 - k))) ≡ true = ground arith in
      rw past (late refl refl lt)
]

-- The clocks when the vectors up to `n` have been relocated at tick `k`.
abbrev pub clock : ℕ → ℕ → ℕ → ℕ
clock k n tv = if leb tv n then k + 1 else k

-- A place stays good when the vectors up to `m` are relocated in place of those up to `n`, if the
-- timers of every vector keep to the new clock.
advance :
    (k n m a b e : ℕ)
    → (a ≡ 2
        → b ≡ e / 256 % 64
        → (clock k n 2 + 255) / 256 ≤ e / 256
        → e < k + 16384
        → (clock k m 2 + 255) / 256 ≤ e / 256)
    → (a ≡ 3
        → b ≡ e / 16384 % 64
        → (clock k n 3 + 16383) / 16384 ≤ e / 16384
        → e < k + 1048576
        → (clock k m 3 + 16383) / 16384 ≤ e / 16384)
    → (a ≡ 4
        → b ≡ e / 1048576 % 64
        → (clock k n 4 + 1048575) / 1048576 ≤ e / 1048576
        → e < k + 67108864
        → (clock k m 4 + 1048575) / 1048576 ≤ e / 1048576)
    → (a ≡ 5
        → b ≡ e / 67108864 % 64
        → (clock k n 5 + 67108863) / 67108864 ≤ e / 67108864
        → e < k + 2 ^ 32
        → (clock k m 5 + 67108863) / 67108864 ≤ e / 67108864)
    → Placed k (clock k n) a b e
    → Placed k (clock k m) a b e
advance k n m a b e h2 h3 h4 h5 (late tv i lt) = late tv i lt
advance k n m a b e h2 h3 h4 h5 (in_tv1 tv i lo hi) = in_tv1 tv i lo hi
advance k n m a b e h2 h3 h4 h5 (in_tv2 tv i lo hi) = in_tv2 tv i (h2 tv i lo hi) hi
advance k n m a b e h2 h3 h4 h5 (in_tv3 tv i lo hi) = in_tv3 tv i (h3 tv i lo hi) hi
advance k n m a b e h2 h3 h4 h5 (in_tv4 tv i lo hi) = in_tv4 tv i (h4 tv i lo hi) hi
advance k n m a b e h2 h3 h4 h5 (in_tv5 tv i lo hi) = in_tv5 tv i (h5 tv i lo hi) hi

-- The other lists when the list of `tv2` that is due has been relocated, and so for `tv3` to `tv5`.
pub relocated_2 :
    (k a b e : ℕ)
    → k % 256 ≡ 0
    → ((a == 2) && (b == k / 256 % 64)) ≡ false
    → Placed k (clock k 1) a b e
    → Placed k (clock k 2) a b e
relocated_2 k a b e start other =
    advance k 1 2 a b e
      (λ tv i lo hi. let ne : b ≢ k / 256 % 64 = ground (arith, other, tv) in omega arith)
      (λ tv i lo hi. lo) (λ tv i lo hi. lo) (λ tv i lo hi. lo)

pub relocated_3 :
    (k a b e : ℕ)
    → k % 16384 ≡ 0
    → ((a == 3) && (b == k / 16384 % 64)) ≡ false
    → Placed k (clock k 2) a b e
    → Placed k (clock k 3) a b e
relocated_3 k a b e start other =
    advance k 2 3 a b e (λ tv i lo hi. lo)
      (λ tv i lo hi. let ne : b ≢ k / 16384 % 64 = ground (arith, other, tv) in omega arith)
      (λ tv i lo hi. lo) (λ tv i lo hi. lo)

pub relocated_4 :
    (k a b e : ℕ)
    → k % 1048576 ≡ 0
    → ((a == 4) && (b == k / 1048576 % 64)) ≡ false
    → Placed k (clock k 3) a b e
    → Placed k (clock k 4) a b e
relocated_4 k a b e start other =
    advance k 3 4 a b e (λ tv i lo hi. lo) (λ tv i lo hi. lo)
      (λ tv i lo hi. let ne : b ≢ k / 1048576 % 64 = ground (arith, other, tv) in omega arith)
      (λ tv i lo hi. lo)

pub relocated_5 :
    (k a b e : ℕ)
    → k % 67108864 ≡ 0
    → ((a == 5) && (b == k / 67108864 % 64)) ≡ false
    → Placed k (clock k 4) a b e
    → Placed k (clock k 5) a b e
relocated_5 k a b e start other =
    advance k 4 5 a b e (λ tv i lo hi. lo) (λ tv i lo hi. lo) (λ tv i lo hi. lo)
      (λ tv i lo hi. let ne : b ≢ k / 67108864 % 64 = ground (arith, other, tv) in omega arith)

-- Between the starts of their lists the vectors need no relocation.
pub settled_1 :
    (k a b e : ℕ) → k % 256 ≢ 0 → Placed k (clock k 1) a b e → Placed k (clock k 5) a b e
settled_1 k a b e inside =
    advance k 1 5 a b e (λ tv i lo hi. omega arith) (λ tv i lo hi. omega arith)
      (λ tv i lo hi. omega arith) (λ tv i lo hi. omega arith)

pub settled_2 :
    (k a b e : ℕ) → k % 16384 ≢ 0 → Placed k (clock k 2) a b e → Placed k (clock k 5) a b e
settled_2 k a b e inside =
    advance k 2 5 a b e (λ tv i lo hi. omega arith) (λ tv i lo hi. omega arith)
      (λ tv i lo hi. omega arith) (λ tv i lo hi. omega arith)

pub settled_3 :
    (k a b e : ℕ) → k % 1048576 ≢ 0 → Placed k (clock k 3) a b e → Placed k (clock k 5) a b e
settled_3 k a b e inside =
    advance k 3 5 a b e (λ tv i lo hi. lo) (λ tv i lo hi. lo) (λ tv i lo hi. omega arith)
      (λ tv i lo hi. omega arith)

pub settled_4 :
    (k a b e : ℕ) → k % 67108864 ≢ 0 → Placed k (clock k 4) a b e → Placed k (clock k 5) a b e
settled_4 k a b e inside =
    advance k 4 5 a b e (λ tv i lo hi. lo) (λ tv i lo hi. lo) (λ tv i lo hi. lo)
      (λ tv i lo hi. omega arith)

-- The timers that are due at tick `k` stand in the list of the first vector that is triggered.
pub due_now : (k e : ℕ) → Placed k (clock k 5) 1 (k % 256) e → e ≤ k
due_now k e (late tv at lt) = omega arith
due_now k e (in_tv1 tv at lo hi) = omega arith
due_now k e (in_tv2 tv at lo hi) = absurd (omega arith)
due_now k e (in_tv3 tv at lo hi) = absurd (omega arith)
due_now k e (in_tv4 tv at lo hi) = absurd (omega arith)
due_now k e (in_tv5 tv at lo hi) = absurd (omega arith)

pub due_later : (k i e : ℕ) → k < e → Placed k (clock k 5) 1 i e → i ≢ k % 256
due_later k i e lt (late tv at past) = absurd (omega arith)
due_later k i e lt (in_tv1 tv at lo hi) = λ same. omega arith
due_later k i e lt (in_tv2 tv at lo hi) = absurd (omega arith)
due_later k i e lt (in_tv3 tv at lo hi) = absurd (omega arith)
due_later k i e lt (in_tv4 tv at lo hi) = absurd (omega arith)
due_later k i e lt (in_tv5 tv at lo hi) = absurd (omega arith)

-- The other timers are due later, and stand where they may at the next tick.
pub next_tick :
    (k a b e : ℕ)
    → ((a == 1) && (b == k % 256)) ≡ false
    → Placed k (clock k 5) a b e
    → (k < e) × Placed (k + 1) (clock (k + 1) 1) a b e
next_tick k a b e other (late tv at past) = absurd (ground (arith, other, tv, at))
next_tick k a b e other (in_tv1 tv at lo hi) =
    let ne : b ≢ k % 256 = ground (arith, other, tv) in
    let lt : k < e = omega arith in (lt, in_tv1 tv at (omega arith) (omega arith))
next_tick k a b e other (in_tv2 tv at lo hi) =
    (omega arith, in_tv2 tv at (omega arith) (omega arith))
next_tick k a b e other (in_tv3 tv at lo hi) =
    (omega arith, in_tv3 tv at (omega arith) (omega arith))
next_tick k a b e other (in_tv4 tv at lo hi) =
    (omega arith, in_tv4 tv at (omega arith) (omega arith))
next_tick k a b e other (in_tv5 tv at lo hi) =
    (omega arith, in_tv5 tv at (omega arith) (omega arith))
