-- ===== src/Time.antt =====
-- The calendar of src/kernel/lib/time.c.
--
-- A `tm_t` has numbers that are not negative, as `gettime` and `localtime` give them; `gettime` is an
-- argument. What is stored at the argument of `sys_time` is its result.
pub mod Calendar
pub mod Days
mod Tests
use hos.Base.{
  ℕ, zero, suc, ◌+◌, ◌-◌, ◌*◌, ◌/◌, ◌%◌, ◌^◌, u32, Bool, true, false, ltb, leb, ◌==◌, if◌then◌else◌,
}

pub record Tm : Type 0 where
  pub tm_sec : ℕ
  pub tm_min : ℕ
  pub tm_hour : ℕ
  pub tm_mday : ℕ
  pub tm_mon : ℕ
  pub tm_year : ℕ
  pub tm_wday : ℕ

-- The days since 1970 that `sys_time` counts.
pub days_of : ℕ → ℕ → ℕ → ℕ
days_of year mon mday =
    let m = if leb mon 2 then mon + 12 else mon in
    let y = if leb mon 2 then year - 1 else year in
    let years = 365 * y + y / 4 - y / 100 + y / 400 in
    let months = 30 * m + 3 * (m + 1) / 5 + mday in u32 (years + months + (2 ^ 32 - 719561))

-- `sys_time`
pub sys_time : Tm → ℕ
sys_time curr_time = u32 (
    u32 (days_of curr_time.tm_year curr_time.tm_mon curr_time.tm_mday * 86400)
    + (3600 * curr_time.tm_hour + 60 * curr_time.tm_min + curr_time.tm_sec))

-- `difftime`
pub difftime : ℕ → ℕ → ℕ
difftime time1 time2 = u32 (time1 + (2 ^ 32 - time2))

pub day_of_week : ℕ → ℕ → ℕ → ℕ
day_of_week year mon d =
    let m = if leb mon 2 then mon + 12 else mon in
    let y = if leb mon 2 then u32 (year + (2 ^ 32 - 1)) else year in
    let j = y / 100 in
    let k = y % 100 in let h = d + 26 * (m + 1) / 10 + k + k / 4 + 5 * j + j / 4 in (h + 5) % 7 + 1

-- The conversion of days to a year, a month and a day in `localtime`.
pub date_of : ℕ → ℕ × ℕ × ℕ
date_of t =
    let a = (4 * t + 102032) / 146097 + 15 in
    let b = t + 2442113 + a - a / 4 in
    let c = (20 * b - 2442) / 7305 in
    let d = b - 365 * c - c / 4 in
    let e = d * 1000 / 30601 in
    let f = d - e * 30 - e * 601 / 1000 in
    if leb e 13 then (c - 4716, e - 1, f) else (c - 4715, e - 13, f)

-- `localtime`
pub localtime : ℕ → Tm
localtime time =
    let t = if ltb time 1 then 0 else time in
    let (year, mon, mday) = date_of (t / 60 / 60 / 24) in
    record {
      tm_sec = t % 60;
      tm_min = t / 60 % 60;
      tm_hour = t / 60 / 60 % 24;
      tm_mday = mday;
      tm_mon = mon;
      tm_year = year;
      tm_wday = day_of_week year mon mday;
    }
