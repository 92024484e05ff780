-- ===== src/Time/Digits.antt =====
-- The digits of a time, written and read.
use libstappler_common.Common.{
  ℕ, ◌+◌, ◌<◌, ◌≤◌, ◌≡◌, refl, arith, true, false, List, [], ◌++◌, some, ltb, leb, ◌==◌,
}
use libstappler_common.Common.Int.{pos}
use libstappler_common.Time.Calendar.{TimeExp}
use libstappler_common.Time.Mask.{isdigit}
use libstappler_common.Time.Read.{two_digits, read_year, read_time}
use libstappler_common.Time.Print.{digit_char, two_chars, year_chars, time_chars}

pub isdigit-digit_char : (n : ℕ) → n < 10 → isdigit (digit_char n) ≡ true
unfolding isdigit
isdigit-digit_char n h = ground arith

pub two_digits-two_chars : (n : ℕ) (r : List ℕ) → two_digits (two_chars n ++ r) 0 ≡ n
two_digits-two_chars n r = omega arith

pub read_year-year_chars :
    (y : ℕ) (r : List ℕ) → y < 8100 → read_year (year_chars (1900 + y) ++ r) 0 ≡ some (pos y)
unfolding read_year
read_year-year_chars y r h = ground arith

pub within : (n limit : ℕ) → n ≤ limit → ltb limit n ≡ false
within n limit h = ground arith

pub positive : (n : ℕ) → 0 < n → (n == 0) ≡ false
positive n h = ground arith

pub below : (n limit : ℕ) → n < limit → leb limit n ≡ false
below n limit h = ground arith

pub read_time-time_chars :
    (t s : TimeExp)
    → t.hour < 24
    → t.min < 60
    → t.sec < 62
    → read_time s (time_chars t) ≡ some (record s { hour = t.hour; min = t.min; sec = t.sec })
unfolding read_time
read_time-time_chars t s hour min sec =
    rw
      (
        two_digits-two_chars t.hour [],
        two_digits-two_chars t.min [],
        two_digits-two_chars t.sec [],
        within t.hour 23 (omega arith),
        within t.min 59 (omega arith),
        within t.sec 61 (omega arith),
      )
      refl
