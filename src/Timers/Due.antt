-- ===== src/Timers/Due.antt =====
-- The timers of the list that is due leave its vector, in src/arch/i386/timer.c.
use hos.Base.{ℕ, ◌+◌, ◌/◌, ◌%◌, ◌^◌, ◌<◌, ◌≤◌, ◌≡◌, arith}
use hos.Timers.Placement.{Placed, late, in_tv1, in_tv2, in_tv3, in_tv4, in_tv5, clock}

parts_2 :
    (k : ℕ) (c : ℕ → ℕ) (i e : ℕ)
    → Placed k c 2 i e
    → (i ≡ e / 256 % 64) × ((c 2 + 255) / 256 ≤ e / 256) × (e < k + 16384)
parts_2 k c i e (late tv at lt) = absurd (omega arith)
parts_2 k c i e (in_tv1 tv at lo hi) = absurd (omega arith)
parts_2 k c i e (in_tv2 tv at lo hi) = (at, lo, hi)
parts_2 k c i e (in_tv3 tv at lo hi) = absurd (omega arith)
parts_2 k c i e (in_tv4 tv at lo hi) = absurd (omega arith)
parts_2 k c i e (in_tv5 tv at lo hi) = absurd (omega arith)

-- Where `tv2` is due, the timers of its list go to a vector below it.
pub leaves_2 :
    (k e i : ℕ)
    → k % 256 ≡ 0
    → Placed k (clock k 1) 2 (k / 256 % 64) e
    → Placed k (clock k 2) 2 i e
    → ⊥
leaves_2 k e i start before after =
    let (at, lo, hi) = parts_2 k (clock k 1) (k / 256 % 64) e before in
    let (at', lo', hi') = parts_2 k (clock k 2) i e after in omega arith

parts_3 :
    (k : ℕ) (c : ℕ → ℕ) (i e : ℕ)
    → Placed k c 3 i e
    → (i ≡ e / 16384 % 64) × ((c 3 + 16383) / 16384 ≤ e / 16384) × (e < k + 1048576)
parts_3 k c i e (late tv at lt) = absurd (omega arith)
parts_3 k c i e (in_tv1 tv at lo hi) = absurd (omega arith)
parts_3 k c i e (in_tv2 tv at lo hi) = absurd (omega arith)
parts_3 k c i e (in_tv3 tv at lo hi) = (at, lo, hi)
parts_3 k c i e (in_tv4 tv at lo hi) = absurd (omega arith)
parts_3 k c i e (in_tv5 tv at lo hi) = absurd (omega arith)

-- Where `tv3` is due, the timers of its list go to a vector below it.
pub leaves_3 :
    (k e i : ℕ)
    → k % 16384 ≡ 0
    → Placed k (clock k 2) 3 (k / 16384 % 64) e
    → Placed k (clock k 3) 3 i e
    → ⊥
leaves_3 k e i start before after =
    let (at, lo, hi) = parts_3 k (clock k 2) (k / 16384 % 64) e before in
    let (at', lo', hi') = parts_3 k (clock k 3) i e after in omega arith

parts_4 :
    (k : ℕ) (c : ℕ → ℕ) (i e : ℕ)
    → Placed k c 4 i e
    → (i ≡ e / 1048576 % 64) × ((c 4 + 1048575) / 1048576 ≤ e / 1048576) × (e < k + 67108864)
parts_4 k c i e (late tv at lt) = absurd (omega arith)
parts_4 k c i e (in_tv1 tv at lo hi) = absurd (omega arith)
parts_4 k c i e (in_tv2 tv at lo hi) = absurd (omega arith)
parts_4 k c i e (in_tv3 tv at lo hi) = absurd (omega arith)
parts_4 k c i e (in_tv4 tv at lo hi) = (at, lo, hi)
parts_4 k c i e (in_tv5 tv at lo hi) = absurd (omega arith)

-- Where `tv4` is due, the timers of its list go to a vector below it.
pub leaves_4 :
    (k e i : ℕ)
    → k % 1048576 ≡ 0
    → Placed k (clock k 3) 4 (k / 1048576 % 64) e
    → Placed k (clock k 4) 4 i e
    → ⊥
leaves_4 k e i start before after =
    let (at, lo, hi) = parts_4 k (clock k 3) (k / 1048576 % 64) e before in
    let (at', lo', hi') = parts_4 k (clock k 4) i e after in omega arith

parts_5 :
    (k : ℕ) (c : ℕ → ℕ) (i e : ℕ)
    → Placed k c 5 i e
    → (i ≡ e / 67108864 % 64) × ((c 5 + 67108863) / 67108864 ≤ e / 67108864) × (e < k + 2 ^ 32)
parts_5 k c i e (late tv at lt) = absurd (omega arith)
parts_5 k c i e (in_tv1 tv at lo hi) = absurd (omega arith)
parts_5 k c i e (in_tv2 tv at lo hi) = absurd (omega arith)
parts_5 k c i e (in_tv3 tv at lo hi) = absurd (omega arith)
parts_5 k c i e (in_tv4 tv at lo hi) = absurd (omega arith)
parts_5 k c i e (in_tv5 tv at lo hi) = (at, lo, hi)

-- Where `tv5` is due, the timers of its list go to a vector below it.
pub leaves_5 :
    (k e i : ℕ)
    → k % 67108864 ≡ 0
    → Placed k (clock k 4) 5 (k / 67108864 % 64) e
    → Placed k (clock k 5) 5 i e
    → ⊥
leaves_5 k e i start before after =
    let (at, lo, hi) = parts_5 k (clock k 4) (k / 67108864 % 64) e before in
    let (at', lo', hi') = parts_5 k (clock k 5) i e after in omega arith
