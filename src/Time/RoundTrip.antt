-- ===== src/Time/RoundTrip.antt =====
-- `read` gives back the time that `encodeRfc822` wrote.
use libstappler_common.Common.{
  ℕ, suc, ◌+◌, ◌/◌, ◌%◌, ◌<◌, ◌≡◌, refl, ◌∙◌, arith, true, false, List, [], ◌∷◌, ◌++◌, some, ◌==◌,
  codes, length, drop,
}
use libstappler_common.Common.Int.{pos}
use libstappler_common.Time.Calendar.{TimeExp, gmt_unset, gmt_set}
use libstappler_common.Time.Mask.{isdigit, isupper, islower, iswhite, fits, checkmask}
use libstappler_common.Time.Read.{
  Numbers, skip_white, until_space, until_digit, is_day_of, read_mon, month_from, letters, s_months,
}
use libstappler_common.Time.Parse.{read, read_named, read_rfc}
use libstappler_common.Time.Print.{digit_char, two_chars, year_chars, time_chars, encode_rfc822}
use libstappler_common.Time.Names.{IsName, day_IsName, month_IsName}
use libstappler_common.Time.Digits.{
  isdigit-digit_char, two_digits-two_chars, read_year-year_chars, within, positive, below,
  read_time-time_chars,
}

-- What stands behind the name of the day.
abbrev rfc_rest : TimeExp → ℕ → ℕ → ℕ → ℕ → List ℕ
rfc_rest t y a b c =
    two_chars t.mday
    ++ codes " "
    ++ (a ∷ b ∷ c ∷ [])
    ++ codes " "
    ++ year_chars (1900 + y)
    ++ codes " "
    ++ time_chars t
    ++ codes " GMT"

abbrev pub IsTime : TimeExp → ℕ → Type 0
IsTime t y = (t.mday < 32) × (t.hour < 24) × (t.min < 60) × (t.sec < 62) × (y < 8100)

rfc_mask :
    (t : TimeExp) (y a b c : ℕ)
    → IsTime t y
    → IsName a b c
    → checkmask (rfc_rest t y a b c) (codes "## @$$ #### ##:##:## *") ≡ true
unfolding checkmask fits
rfc_mask t y a b c (mday, hour, min, sec, year) (upper, lower, small) =
    rw
      (
        isdigit-digit_char (t.mday / 10) (omega arith),
        isdigit-digit_char (t.mday % 10) (omega arith),
        upper,
        lower,
        small,
        isdigit-digit_char ((1900 + y) / 1000) (omega arith),
        isdigit-digit_char ((1900 + y) % 1000 / 100) (omega arith),
        isdigit-digit_char ((1900 + y) % 100 / 10) (omega arith),
        isdigit-digit_char ((1900 + y) % 10) (omega arith),
        isdigit-digit_char (t.hour / 10) (omega arith),
        isdigit-digit_char (t.hour % 10) (omega arith),
        isdigit-digit_char (t.min / 10) (omega arith),
        isdigit-digit_char (t.min % 10) (omega arith),
        isdigit-digit_char (t.sec / 10) (omega arith),
        isdigit-digit_char (t.sec % 10) (omega arith),
      )
      refl

read_mon-month :
    (s : TimeExp) (m a b c : ℕ)
    → 0 < s.mday
    → s.mday < 32
    → m < 12
    → is_day_of s.year s.mday (pos m) ≡ true
    → month_from (letters a b c) 0 s_months ≡ m
    → read_mon s (a ∷ b ∷ c ∷ []) ≡ some (record s { mon = pos m })
unfolding read_mon
read_mon-month s m a b c lower upper month day found =
    rw (found, day, positive s.mday lower, within s.mday 31 (omega arith), below m 12 month) refl

-- The fields as they are read.
abbrev pub read_fields : TimeExp → TimeExp → ℕ → ℕ → TimeExp
read_fields t s m y = record s {
  usec = 0;
  sec = t.sec;
  min = t.min;
  hour = t.hour;
  mday = t.mday;
  mon = pos m;
  year = pos y;
  gmtoff = pos 0;
  gmt_type = gmt_set;
}

read_rfc-rest :
    (numbers : Numbers) (t s : TimeExp) (y m a b c : ℕ)
    → IsTime t y
    → 0 < t.mday
    → m < 12
    → is_day_of (pos y) t.mday (pos m) ≡ true
    → IsName a b c
    → month_from (letters a b c) 0 s_months ≡ m
    → read_rfc numbers s (rfc_rest t y a b c) ≡ some (read_fields t s m y)
unfolding read_rfc read_named
read_rfc-rest numbers t s y m a b c time positive_day month day name found =
    let (mday, hour, min, sec, year) = time in
    rw
      (
        rfc_mask t y a b c time name,
        read_year-year_chars y (codes " " ++ time_chars t ++ codes " GMT") year,
        two_digits-two_chars t.mday [],
        read_time-time_chars t (record s { year = pos y; mday = t.mday }) hour min sec,
        read_mon-month
            (record s { year = pos y; mday = t.mday; hour = t.hour; min = t.min; sec = t.sec }) m a
            b c positive_day mday month day found,
      )
      refl

tens : (n : ℕ) → n < 32 → n / 10 < 10
tens n h = omega arith

-- A letter is no white space, no space and no digit.
upper-plain :
    (a : ℕ) → isupper a ≡ true → (iswhite a ≡ false) × ((a == 0x20) ≡ false) × (isdigit a ≡ false)
unfolding isupper iswhite isdigit
upper-plain a h = (ground arith, ground arith, ground arith)

lower-plain : (a : ℕ) → islower a ≡ true → ((a == 0x20) ≡ false) × (isdigit a ≡ false)
unfolding islower isdigit
lower-plain a h = (ground arith, ground arith)

read_named_date :
    (numbers : Numbers) (s : TimeExp) (c d : ℕ) (r space rest : List ℕ)
    → skip_white (c ∷ r) ≡ c ∷ r
    → until_space (c ∷ r) ≡ 0x20 ∷ space
    → checkmask (c ∷ r) (codes "@$$ @$$ ~# ##:##:## *") ≡ false
    → until_digit (c ∷ r) ≡ d ∷ rest
    → read numbers s (c ∷ r) ≡ read_rfc numbers (record s { gmt_type = gmt_unset }) (d ∷ rest)
unfolding read
read_named_date numbers s c d r space rest white spaced mask digit =
    rw (white, positive (suc (length r)) (omega arith), spaced, mask, digit) refl

skip_white-name : (a : ℕ) (r : List ℕ) → iswhite a ≡ false → skip_white (a ∷ r) ≡ a ∷ r
unfolding skip_white
skip_white-name a r h = rw (h) refl

until_space-name :
    (a b c : ℕ) (r : List ℕ)
    → (a == 0x20) ≡ false
    → (b == 0x20) ≡ false
    → (c == 0x20) ≡ false
    → until_space (a ∷ b ∷ c ∷ codes ", " ++ r) ≡ 0x20 ∷ r
unfolding until_space
until_space-name a b c r x y z = rw (x, y, z) refl

until_digit-name :
    (a b c d : ℕ) (r : List ℕ)
    → isdigit a ≡ false
    → isdigit b ≡ false
    → isdigit c ≡ false
    → isdigit d ≡ true
    → until_digit (a ∷ b ∷ c ∷ codes ", " ++ d ∷ r) ≡ d ∷ r
unfolding until_digit
until_digit-name a b c d r x y z digit = rw (x, y, z, digit) refl

checkmask-name :
    (a b c : ℕ) (r : List ℕ)
    → IsName a b c
    → checkmask (a ∷ b ∷ c ∷ codes ", " ++ r) (codes "@$$ @$$ ~# ##:##:## *") ≡ false
unfolding checkmask fits
checkmask-name a b c r (upper, lower, small) = rw (upper, lower, small) refl

read-read_rfc :
    (numbers : Numbers) (s : TimeExp) (a b c d : ℕ) (rest : List ℕ)
    → IsName a b c
    → isdigit d ≡ true
    → read numbers s (a ∷ b ∷ c ∷ codes ", " ++ d ∷ rest)
      ≡ read_rfc numbers (record s { gmt_type = gmt_unset }) (d ∷ rest)
read-read_rfc numbers s a b c d rest (upper, lower, small) digit =
    let (white, space, other) = upper-plain a upper in
    let (space_b, other_b) = lower-plain b lower in
    let (space_c, other_c) = lower-plain c small in
    read_named_date numbers s a d (b ∷ c ∷ codes ", " ++ d ∷ rest) (d ∷ rest) rest
      (skip_white-name a (b ∷ c ∷ codes ", " ++ d ∷ rest) white)
      (until_space-name a b c (d ∷ rest) space space_b space_c)
      (checkmask-name a b c (d ∷ rest) (upper, lower, small))
      (until_digit-name a b c d rest other other_b other_c digit)

-- `encodeRfc822` of a time writes a text that `read` takes, and the fields come back, whatever they held before; the
-- microseconds are cut off, the offset is zero, and the day of the week is not read. The time is a valid date of a
-- year from 1900 to 9999 and a time of the day with at most 61 seconds.
pub read-encode_rfc822 :
    (numbers : Numbers) (t s : TimeExp) (y m : ℕ)
    → t.wday < 7
    → t.mon ≡ pos m
    → t.year ≡ pos y
    → m < 12
    → 0 < t.mday
    → IsTime t y
    → is_day_of (pos y) t.mday (pos m) ≡ true
    → (text : List ℕ) × (encode_rfc822 t ≡ some text)
      × (read numbers s text ≡ some (read_fields t s m y))
unfolding encode_rfc822
read-encode_rfc822 numbers t s y m weekday mon year month positive_day time day =
    let (a, b, c, day_name, day_letters) = day_IsName t.wday weekday in
    let (p, q, r, name, month_letters, found) = month_IsName m month in
    (
      a ∷ b ∷ c ∷ codes ", " ++ rfc_rest t y p q r,
      rw (day_name, mon, name, year) refl,
      read-read_rfc numbers s a b c (digit_char (t.mday / 10)) (drop 1 (rfc_rest t y p q r))
            day_letters (isdigit-digit_char (t.mday / 10) (tens t.mday time.0))
          ∙ read_rfc-rest numbers t (record s { gmt_type = gmt_unset }) y m p q r time positive_day
              month day month_letters found,
    )
