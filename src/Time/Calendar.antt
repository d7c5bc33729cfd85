-- ===== src/Time/Calendar.antt =====
-- `localtime` and `sys_time` of src/kernel/lib/time.c for every number of seconds.
use hos.Base.{
  ℕ, ◌+◌, ◌*◌, ◌/◌, ◌%◌, ◌^◌, ◌<◌, ◌≡◌, refl, ap, ◌∙◌, Bool-cases, inl, inr, ltb, if◌then◌else◌,
  arith,
}
use hos.Time.{Tm, days_of, day_of_week, date_of, localtime, sys_time}
use hos.Time.Days.{days_after, right_day}

-- The date and the time of day at `t` seconds behind 1 January 1970, a Thursday, with the weeks from Monday,
-- 1, to Sunday, 7.
pub record IsAt (t : ℕ) (tm : Tm) : Type 0 where
  pub year : tm.tm_year ≡ (days_after (t / 86400) (1970, 1, 1)).0
  pub month : tm.tm_mon ≡ (days_after (t / 86400) (1970, 1, 1)).1
  pub day : tm.tm_mday ≡ (days_after (t / 86400) (1970, 1, 1)).2
  pub weekday : tm.tm_wday ≡ (t / 86400 + 3) % 7 + 1
  pub seconds : t ≡ t / 86400 * 86400 + 3600 * tm.tm_hour + 60 * tm.tm_min + tm.tm_sec
  pub sec_bound : tm.tm_sec < 60
  pub min_bound : tm.tm_min < 60
  pub hour_bound : tm.tm_hour < 24

-- The seconds that are converted.
abbrev at_least : ℕ → ℕ
at_least time = if ltb time 1 then 0 else time

at_least_same : (time : ℕ) → at_least time ≡ time
at_least_same time = elim (Bool-cases (ltb time 1)) [
  | inl small ↦ rw small (ground (arith, small))
  | inr big ↦ rw big refl
]

-- The date, the day of the week and the time of day are those of the Gregorian calendar.
pub localtime-IsAt : (t : ℕ) → t < 2 ^ 32 → IsAt t (localtime t)
unfolding localtime
localtime-IsAt t bound =
    let same = at_least_same t in
    let day = right_day (t / 86400) (omega arith) in
    let days : at_least t / 60 / 60 / 24 ≡ t / 86400 = omega (arith, same) in
    record {
      year = ap (λ d. (date_of d).0) days ∙ day.date;
      month = ap (λ d. (date_of d).1) days ∙ day.month;
      day = ap (λ d. (date_of d).2) days ∙ day.day;
      weekday =
          ap (λ d. day_of_week (date_of d).0 (date_of d).1 (date_of d).2) days
          ∙ rw day.date (rw day.month (rw day.day day.weekday));
      seconds = omega (arith, same);
      sec_bound = omega arith;
      min_bound = omega arith;
      hour_bound = omega arith;
    }

-- `sys_time` counts the seconds of the time that `localtime` makes of them.
pub sys_time-localtime : (t : ℕ) → t < 2 ^ 32 → sys_time (localtime t) ≡ t
unfolding sys_time
sys_time-localtime t bound =
    let is = localtime-IsAt t bound in
    let day = right_day (t / 86400) (omega arith) in
    let back : days_of (localtime t).tm_year (localtime t).tm_mon (localtime t).tm_mday
        ≡ t / 86400 =
      rw is.year (rw is.month (rw is.day day.back)) in
    omega (arith, back, is.seconds)
