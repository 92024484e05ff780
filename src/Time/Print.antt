-- ===== src/Time/Print.antt =====
-- `encodeRfc822`, `encodeCTime` and `encodeIso8601`: the characters in front of the '\0'. `none` is a name beyond
-- the ends of the tables, or a year before the year 0, whose digits are not modelled.
use libstappler_common.Common.{
  ◌>>=◌, ℕ, zero, suc, ◌+◌, ◌-◌, ◌*◌, ◌/◌, ◌%◌, ◌^◌, ◌&&◌, List, [], ◌∷◌, ◌++◌, Option, none, some,
  ltb, leb, if◌then◌else◌, codes,
}
use libstappler_common.Common.Int.{ℤ, pos, negsuc}
use libstappler_common.Time.Calendar.{TimeExp, element}

abbrev pub sp_day_snames : List (List ℕ)
sp_day_snames =
    codes "Sun"
    ∷ codes "Mon"
    ∷ codes "Tue"
    ∷ codes "Wed"
    ∷ codes "Thu"
    ∷ codes "Fri"
    ∷ codes "Sat"
    ∷ []

abbrev pub sp_month_snames : List (List ℕ)
sp_month_snames =
    codes "Jan"
    ∷ codes "Feb"
    ∷ codes "Mar"
    ∷ codes "Apr"
    ∷ codes "May"
    ∷ codes "Jun"
    ∷ codes "Jul"
    ∷ codes "Aug"
    ∷ codes "Sep"
    ∷ codes "Oct"
    ∷ codes "Nov"
    ∷ codes "Dec"
    ∷ []

abbrev pub month_name : ℤ → Option (List ℕ)
month_name (pos m) = element sp_month_snames m
month_name (negsuc m) = none

-- `1900 + tm_year`
abbrev pub real_year : ℤ → Option ℕ
real_year (pos y) = some (1900 + y)
real_year (negsuc y) = if ltb y 1900 then some (1899 - y) else none

-- The character of a digit, of two digits and of the four digits of a year.
abbrev pub digit_char : ℕ → ℕ
digit_char n = n + 0x30

abbrev pub two_chars : ℕ → List ℕ
two_chars n = digit_char (n / 10) ∷ digit_char (n % 10) ∷ []

abbrev pub year_chars : ℕ → List ℕ
year_chars y =
    digit_char (y / 1000)
    ∷ digit_char (y % 1000 / 100)
    ∷ digit_char (y % 100 / 10)
    ∷ digit_char (y % 10)
    ∷ []

-- "08:49:37"
abbrev pub time_chars : TimeExp → List ℕ
time_chars t = two_chars t.hour ++ codes ":" ++ two_chars t.min ++ codes ":" ++ two_chars t.sec

-- "Sun, 06 Nov 1994 08:49:37 GMT"
unfoldable pub encode_rfc822 : TimeExp → Option (List ℕ)
encode_rfc822 t = element sp_day_snames t.wday >>= λ day. month_name t.mon >>= λ month.
    real_year t.year >>= λ year. some (
      day
      ++ codes ", "
      ++ two_chars t.mday
      ++ codes " "
      ++ month
      ++ codes " "
      ++ year_chars year
      ++ codes " "
      ++ time_chars t
      ++ codes " GMT")

-- "Sun Nov 06 08:49:37 1994"
unfoldable pub encode_ctime : TimeExp → Option (List ℕ)
encode_ctime t = element sp_day_snames t.wday >>= λ day. month_name t.mon >>= λ month.
    real_year t.year >>= λ year. some (
      day
      ++ codes " "
      ++ month
      ++ codes " "
      ++ two_chars t.mday
      ++ codes " "
      ++ time_chars t
      ++ codes " "
      ++ year_chars year)

-- The loop over the digits of the fraction: `val / intpow(10, precision - 1)`, and the remainder.
unfoldable pub fraction_chars : ℕ → ℕ → List ℕ
fraction_chars zero val = []
fraction_chars (suc precision) val =
    (0x30 + val / 10 ^ precision) ∷ fraction_chars precision (val % 10 ^ precision)

-- `std::round(tm_usec / double(desc))`: the quotient rounded to the nearest, halves up. A half is exact.
unfoldable pub rounded : ℕ → ℕ → ℕ
rounded usec desc = (2 * usec + desc) / (2 * desc)

-- The fraction of a second in one to six digits.
unfoldable pub fraction_of : ℕ → ℕ → List ℕ
unfolding fraction_chars rounded
fraction_of usec precision =
    if ltb 0 precision && leb precision 6
    then 0x2e ∷ fraction_chars precision (rounded usec (1000000 / 10 ^ precision))
    else []

-- `tm_mon + 1`, of a month of the year.
abbrev pub month_number : ℤ → Option ℕ
month_number (pos m) = some (m + 1)
month_number (negsuc m) = none

-- "1994-11-06T08:49:37Z"
unfoldable pub encode_iso8601 : ℕ → TimeExp → Option (List ℕ)
unfolding fraction_of
encode_iso8601 precision t = month_number t.mon >>= λ month. real_year t.year >>= λ year. some (
    year_chars year
    ++ codes "-"
    ++ two_chars month
    ++ codes "-"
    ++ two_chars t.mday
    ++ codes "T"
    ++ time_chars t
    ++ fraction_of t.usec precision
    ++ codes "Z")
