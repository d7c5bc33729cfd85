-- ===== src/Time/Days.antt =====
-- The days of `localtime` and `sys_time` in src/kernel/lib/time.c against the Gregorian calendar.
use mathlib.Core.Path.{subst}
use hos.Base.{
  ℕ, zero, suc, ◌+◌, ◌%◌, ◌<◌, ◌≡◌, refl, Bool, true, false, not, ◌&&◌, ◌||◌, ltb, ◌==◌,
  if◌then◌else◌, arith,
}
use hos.Time.{days_of, day_of_week, date_of}

abbrev pub is_leap_year : ℕ → Bool
is_leap_year y = (y % 4 == 0) && (not (y % 100 == 0) || (y % 400 == 0))

abbrev pub days_in_month : ℕ → ℕ → ℕ
days_in_month y m =
    if m == 2
    then (if is_leap_year y then 29 else 28)
    else if (m == 4) || (m == 6) || (m == 9) || (m == 11)
    then 30
    else 31

-- The day behind a date.
abbrev pub next_day : ℕ × ℕ × ℕ → ℕ × ℕ × ℕ
next_day (y, m, d) =
    if ltb d (days_in_month y m)
    then (y, m, d + 1)
    else if ltb m 12
    then (y, m + 1, 1)
    else (y + 1, 1, 1)

-- The date `n` days behind another.
pub days_after : ℕ → ℕ × ℕ × ℕ → ℕ × ℕ × ℕ
days_after zero date = date
days_after (suc n) date = days_after n (next_day date)

abbrev pub same_date : ℕ × ℕ × ℕ → ℕ × ℕ × ℕ → Bool
same_date (y, m, d) (y', m', d') = (y == y') && (m == m') && (d == d')

-- The day `t` is this date for `localtime`, and back for `sys_time`, and has its day of the week.
abbrev pub is_right : ℕ → ℕ × ℕ × ℕ → Bool
is_right t (y, m, d) =
    same_date (date_of t) (y, m, d)
    && (days_of y m d == t)
    && (day_of_week y m d == (t + 3) % 7 + 1)

-- So are the `n` days from `t` on.
are_right : ℕ → ℕ → ℕ × ℕ × ℕ → Bool
are_right zero t date = true
are_right (suc n) t date = if is_right t date then are_right n (t + 1) (next_day date) else false

are_right-at :
    (n t : ℕ) (date : ℕ × ℕ × ℕ) (i : ℕ)
    → are_right n t date ≡ true
    → i < n
    → is_right (t + i) (days_after i date) ≡ true
unfolding are_right days_after
are_right-at zero t date i all lt = absurd (omega arith)
are_right-at (suc n) t date zero all lt = ground (arith, all)
are_right-at (suc n) t date (suc i) all lt =
    let rest : are_right n (t + 1) (next_day date) ≡ true = ground (arith, all) in
    subst (λ k. is_right k (days_after i (next_day date)) ≡ true) {x = t + 1 + i} {y = t + suc i}
      (omega arith) (are_right-at n (t + 1) (next_day date) i rest (omega arith))

-- All the days that start below 2^32 seconds.
all_right : are_right 49711 0 (1970, 1, 1) ≡ true
unfolding are_right date_of days_of day_of_week
all_right = refl

-- What `date_of` gives for the day `t`.
pub record RightDay (t year mon mday : ℕ) : Type 0 where
  pub date : (date_of t).0 ≡ year
  pub month : (date_of t).1 ≡ mon
  pub day : (date_of t).2 ≡ mday
  pub back : days_of year mon mday ≡ t
  pub weekday : day_of_week year mon mday ≡ (t + 3) % 7 + 1

RightDay-is_right :
    (t year mon mday : ℕ) → is_right t (year, mon, mday) ≡ true → RightDay t year mon mday
RightDay-is_right t year mon mday e = record {
  date = ground (arith, e);
  month = ground (arith, e);
  day = ground (arith, e);
  back = ground (arith, e);
  weekday = ground (arith, e);
}

-- Every day is right.
pub right_day :
    (t : ℕ)
    → t < 49711
    → RightDay t
        (days_after t (1970, 1, 1)).0
        (days_after t (1970, 1, 1)).1
        (days_after t (1970, 1, 1)).2
right_day t lt =
    RightDay-is_right t (days_after t (1970, 1, 1)).0 (days_after t (1970, 1, 1)).1
      (days_after t (1970, 1, 1)).2
      (subst (λ k. is_right k (days_after t (1970, 1, 1)) ≡ true) {x = 0 + t} {y = t} (omega arith)
        (are_right-at 49711 0 (1970, 1, 1) t all_right lt))
