-- ===== src/Time/Tests.antt =====
-- Runs of the calendar of src/kernel/lib/time.c at concrete inputs.
use hos.Base.{◌≡◌, refl, arith}
use hos.Time.{Tm, localtime, sys_time, day_of_week}
use hos.Time.Calendar.{IsAt, localtime-IsAt, sys_time-localtime}

-- 29 February 2024, a Thursday, at 12:34:56.
leap_day : localtime 1709210096 ≡ record {
  tm_sec = 56;
  tm_min = 34;
  tm_hour = 12;
  tm_mday = 29;
  tm_mon = 2;
  tm_year = 2024;
  tm_wday = 4;
}
unfolding localtime hos.Time.date_of day_of_week
leap_day = refl

localtime-IsAt_example : IsAt 1709210096 (localtime 1709210096)
localtime-IsAt_example = localtime-IsAt 1709210096 (omega arith)

sys_time-localtime_example : sys_time (localtime 1709210096) ≡ 1709210096
sys_time-localtime_example = sys_time-localtime 1709210096 (omega arith)

-- A Sunday is day 7, for which there is no name among the seven of the file, which start with Sunday.
sunday : day_of_week 2024 3 3 ≡ 7
unfolding day_of_week
sunday = refl
