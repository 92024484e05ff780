-- ===== src/Time/Runs.antt =====
-- Runs of the calendar and of the date formats.
use libstappler_common.Common.{
  ℕ, ◌≡◌, refl, arith, true, List, [], ◌∷◌, some, inr, codes, ◌*◌, ◌+◌, ◌-◌, drop, leb, ◌==◌,
  if◌then◌else◌,
}
use libstappler_common.Common.Int.{pos}
use libstappler_common.Time.Calendar.{
  TimeExp, gmt_local, gmt_set, geti, count_days, year_days, march_year, dayoffset,
}
use libstappler_common.Time.Mask.{
  isdigit, isupper, islower, isxdigit, iswhite, fits, only_stars, checkmask,
}
use libstappler_common.Time.Read.{
  Numbers, read_year, skip_white, until_space, until_digit, read_digits, read_time, no_leap_day,
  is_day_of, s_months, month_from, read_mon,
}
use libstappler_common.Time.Parse.{read, read_gmt, read_asctime, read_named, read_rfc, read_numeric}
use libstappler_common.Time.Days.{Date, day_number, next_day, day_number-next_day}
use libstappler_common.Time.Http.{blank, ltz_geti, from_http, read_compile_time, from_compile_time}
use libstappler_common.Time.FromHttp.{from_http-encode_rfc822}
use libstappler_common.Time.RoundTrip.{read_fields, read-encode_rfc822}
use libstappler_common.Time.Print.{
  encode_rfc822, encode_ctime, encode_iso8601, fraction_of, fraction_chars, rounded,
}

-- Digits of the base 8 behind a 0, up to the first that is none, and else of the base 10.
abbrev octal : ℕ → List ℕ → ℕ
octal n [] = n
octal n (c ∷ r) = if leb 0x38 c then n else octal (n * 8 + (c - 0x30)) r

abbrev decimal : ℕ → List ℕ → ℕ
decimal n [] = n
decimal n (c ∷ r) = decimal (n * 10 + (c - 0x30)) r

abbrev strtoll : List ℕ → ℕ
strtoll [] = 0
strtoll (c ∷ r) = if c == 0x30 then octal 0 r else decimal 0 (c ∷ r)

-- A number without a fraction.
numbers : Numbers
numbers = record { strtoll = strtoll; strtod = λ r. (0, drop 1 r) }

abbrev november : TimeExp
november = record {
  usec = 0;
  sec = 37;
  min = 49;
  hour = 8;
  mday = 6;
  mon = pos 10;
  year = pos 94;
  wday = 0;
  gmtoff = pos 0;
  gmt_type = gmt_set;
}

read_rfc822_run : read numbers blank (codes "Sun, 06 Nov 1994 08:49:37 GMT") ≡ some november
unfolding read skip_white iswhite until_space checkmask fits isupper islower isdigit isxdigit
    only_stars read_asctime read_rfc read_year read_named read_time read_mon month_from s_months
    is_day_of no_leap_day read_gmt read_digits until_digit read_numeric numbers
read_rfc822_run = refl

encode_rfc822_run : encode_rfc822 november ≡ some (codes "Sun, 06 Nov 1994 08:49:37 GMT")
unfolding encode_rfc822
encode_rfc822_run = refl

geti_run : geti november ≡ some (784111777 * 1000000)
unfolding geti count_days year_days march_year dayoffset
geti_run = refl

november-IsDayOf : is_day_of (pos 94) november.mday (pos 10) ≡ true
unfolding is_day_of no_leap_day
november-IsDayOf = refl

read-encode_rfc822_example :
    (text : List ℕ) × (encode_rfc822 november ≡ some text)
    × (read numbers blank text ≡ some (read_fields november blank 10 94))
read-encode_rfc822_example =
    read-encode_rfc822 numbers november blank 94 10 (omega arith) refl refl (omega arith)
      (omega arith) (omega arith, omega arith, omega arith, omega arith, omega arith)
      november-IsDayOf

-- 29 February 2024.
abbrev leap_day : Date
leap_day = record { year = 2024; month = 1; day = 29 }

day_number-next_day_example :
    (n : ℕ) × (day_number leap_day ≡ some n) × (day_number (next_day leap_day) ≡ some (n + 1))
day_number-next_day_example =
    day_number-next_day leap_day (omega arith) (omega arith) (inr (omega arith))
      (omega arith, omega arith, omega arith)

november_days : count_days november.year november.mon november.mday ≡ some 34584
unfolding count_days year_days march_year dayoffset
november_days = refl

from_http-encode_rfc822_example :
    (text : List ℕ) × (encode_rfc822 november ≡ some text)
    × (from_http numbers (pos 10800) text
        ≡ some (
            (((34584 - 25509) * 24 + november.hour) * 3600 + november.min * 60 + november.sec)
            * 1000000))
from_http-encode_rfc822_example =
    from_http-encode_rfc822 numbers (pos 10800) november 94 10 34584 (omega arith) refl refl
      (omega arith) (omega arith) (omega arith, omega arith, omega arith, omega arith, omega arith)
      november-IsDayOf november_days (omega arith) (omega arith)

-- The dates of a compiler are in the local time zone, an hour ahead here.
compile_time_run :
    (from_compile_time (pos 3600) (codes "Nov  6 1994") (codes "08:49:37")
      ≡ some ((784111777 - 3600) * 1000000))
    × (from_compile_time (pos 3600) (codes "Feb 29 2023") (codes "08:49:37") ≡ some 0)
unfolding from_compile_time read_compile_time ltz_geti geti count_days year_days march_year
    dayoffset read_year month_from s_months is_day_of no_leap_day read_time
compile_time_run = (refl, refl)

digits : (isdigit 0x30 ≡ true) × (isdigit 0x39 ≡ true)
unfolding isdigit
digits = (refl, refl)

iso8601_run :
    (encode_iso8601 0 november ≡ some (codes "1994-11-06T08:49:37Z"))
    × (encode_iso8601 3 (record november { usec = 5000 }) ≡ some (codes "1994-11-06T08:49:37.005Z"))
unfolding encode_iso8601 fraction_of fraction_chars rounded
iso8601_run = (refl, refl)

ctime_run :
    (encode_ctime november ≡ some (codes "Sun Nov 06 08:49:37 1994"))
    × (read numbers blank (codes "Sun Nov  6 08:49:37 1994")
        ≡ some (record november { gmt_type = gmt_local }))
unfolding encode_ctime read skip_white iswhite until_space checkmask fits isupper islower isdigit
    isxdigit only_stars read_asctime read_rfc read_year read_named read_time read_mon month_from
    s_months is_day_of no_leap_day read_gmt read_digits until_digit read_numeric numbers
ctime_run = (refl, refl)
