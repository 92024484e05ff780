-- ===== src/Time/Seconds.antt =====
-- What `geti` makes of a day number and a time of the day.
use libstappler_common.Common.{ℕ, ◌+◌, ◌-◌, ◌*◌, ◌<◌, ◌≤◌, ◌≡◌, refl, ap, arith, some}
use libstappler_common.Time.Calendar.{dayoffset, count_days, year_days, march_year, geti, TimeExp}
use libstappler_common.Time.Days.{day_number}

day_number-epoch : day_number (record { year = 1970; month = 0; day = 1 }) ≡ some 25509
unfolding count_days year_days march_year dayoffset
day_number-epoch = refl

-- `geti` of a date with the day number `n`, which is not before 1970, and a time of the day gives the microseconds
-- since the day 25509, which is 1 January 1970.
pub geti-day_number :
    (t : TimeExp) (n : ℕ)
    → count_days t.year t.mon t.mday ≡ some n
    → 25509 ≤ n
    → n < 5000000
    → t.hour < 24
    → t.min < 60
    → t.sec < 62
    → t.usec < 1000000
    → geti t ≡ some ((((n - 25509) * 24 + t.hour) * 3600 + t.min * 60 + t.sec) * 1000000 + t.usec)
unfolding geti
geti-day_number t n days lower upper hour min sec usec = rw (days, geti) (ap some (ground arith))
