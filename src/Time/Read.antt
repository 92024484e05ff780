-- ===== src/Time/Read.antt =====
-- `sp_time_exp_t::read` and its helpers. A view is the list of its ASCII characters. `none` is the answer false; the
-- fields that a reading left by then are not modelled.
use libstappler_common.Common.{
  ℕ, zero, suc, ◌+◌, ◌-◌, ◌*◌, ◌%◌, ◌<<<◌, bit_or, Bool, false, ◌&&◌, ◌||◌, not, List, [], ◌∷◌,
  Option, none, some, ◌==◌, ltb, leb, if◌then◌else◌,
}
use libstappler_common.Common.Int.{ℤ, pos, negsuc, leb_ℤ}
use libstappler_common.Time.Calendar.{TimeExp, minus_ℤ}
use libstappler_common.Time.Mask.{isdigit, iswhite}

-- The numbers that the C library reads: `strtoll` with the base 0 of a text of digits, and `strtod` of a text that
-- starts with a point, as microseconds, with what is behind the number.
pub record Numbers : Type 0 where
  pub strtoll : List ℕ → ℕ
  pub strtod : List ℕ → ℕ × List ℕ

-- `r[i]`, within the view.
abbrev pub char_at : List ℕ → ℕ → ℕ
char_at [] i = 0
char_at (c ∷ r) zero = c
char_at (c ∷ r) (suc i) = char_at r i

-- `(r[i] - '0') * 10 + (r[i + 1] - '0')`, of two digits.
abbrev pub two_digits : List ℕ → ℕ → ℕ
two_digits r i = (char_at r i - 0x30) * 10 + (char_at r (i + 1) - 0x30)

-- `((r[i] - '0') * 10 + (r[i + 1] - '0') - 19) * 100`, where that is not below 0, and then
-- `((r[i + 2] - '0') * 10) + (r[i + 3] - '0')` on top of it.
unfoldable pub read_year : List ℕ → ℕ → Option ℤ
read_year r i =
    let century = char_at r i * 10 + char_at r (i + 1) in
    if ltb century (0x30 * 11 + 19)
    then none
    else some (
        minus_ℤ (century * 100 + char_at r (i + 2) * 10 + char_at r (i + 3))
          ((0x30 * 11 + 19) * 100 + 0x30 * 11))

-- `skipChars<WhiteSpace>`, `skipUntil<Chars<' '>>` and `skipUntil<CharGroup<Numbers>>`.
unfoldable pub skip_white : List ℕ → List ℕ
unfolding iswhite
skip_white [] = []
skip_white (c ∷ r) = if iswhite c then skip_white r else c ∷ r

unfoldable pub until_space : List ℕ → List ℕ
until_space [] = []
until_space (c ∷ r) = if c == 0x20 then c ∷ r else until_space r

unfoldable pub until_digit : List ℕ → List ℕ
unfolding isdigit
until_digit [] = []
until_digit (c ∷ r) = if isdigit c then c ∷ r else until_digit r

-- `readChars<CharGroup<Numbers>>`: what is read, and what is left.
unfoldable pub read_digits : List ℕ → List ℕ × List ℕ
unfolding isdigit
read_digits [] = ([], [])
read_digits (c ∷ r) =
    let (digits, rest) = read_digits r in if isdigit c then (c ∷ digits, rest) else ([], c ∷ r)

-- `r.is(c)`
abbrev pub starts : ℕ → List ℕ → Bool
starts c [] = false
starts c (d ∷ r) = d == c

-- `sp_time_exp_read_time`
unfoldable pub read_time : TimeExp → List ℕ → Option TimeExp
read_time t r =
    let hour = two_digits r 0 in
    let min = two_digits r 3 in
    let sec = two_digits r 6 in
    if ltb 23 hour || ltb 59 min || ltb 61 sec
    then none
    else some (record t { hour = hour; min = min; sec = sec })

-- `(year & 3) || (((year % 100) == 0) && (((year % 400) != 100)))`
unfoldable pub no_leap_day : ℤ → Bool
no_leap_day (pos y) = not (y % 4 == 0) || ((y % 100 == 0) && not (y % 400 == 100))
no_leap_day (negsuc y) = not ((y + 1) % 4 == 0) || ((y + 1) % 100 == 0)

abbrev pub same_ℤ : ℤ → ℕ → Bool
same_ℤ (pos m) n = m == n
same_ℤ (negsuc m) n = false

-- The tests that `sp_time_exp_check_mon` and `sp_time_exp_read_mon` share.
unfoldable pub is_day_of : ℤ → ℕ → ℤ → Bool
unfolding no_leap_day
is_day_of year mday mon =
    if (mday == 31) && (same_ℤ mon 3 || same_ℤ mon 5 || same_ℤ mon 8 || same_ℤ mon 10)
    then false
    else not (same_ℤ mon 1 && (ltb 29 mday || ((mday == 29) && no_leap_day year)))

-- `sp_time_exp_check_mon`
unfoldable pub check_mon : TimeExp → Bool
unfolding is_day_of
check_mon t =
    if (t.mday == 0) || ltb 31 t.mday
    then false
    else if leb_ℤ (pos 12) t.mon
    then false
    else is_day_of t.year t.mday t.mon

-- `s_months`, and the loop over it.
abbrev pub letters : ℕ → ℕ → ℕ → ℕ
letters a b c = bit_or (bit_or (a <<< 16) (b <<< 8)) c

unfoldable pub s_months : List ℕ
s_months =
    letters 0x4a 0x61 0x6e
    ∷ letters 0x46 0x65 0x62
    ∷ letters 0x4d 0x61 0x72
    ∷ letters 0x41 0x70 0x72
    ∷ letters 0x4d 0x61 0x79
    ∷ letters 0x4a 0x75 0x6e
    ∷ letters 0x4a 0x75 0x6c
    ∷ letters 0x41 0x75 0x67
    ∷ letters 0x53 0x65 0x70
    ∷ letters 0x4f 0x63 0x74
    ∷ letters 0x4e 0x6f 0x76
    ∷ letters 0x44 0x65 0x63
    ∷ []

unfoldable pub month_from : ℕ → ℕ → List ℕ → ℕ
month_from mint mon [] = mon
month_from mint mon (m ∷ months) =
    let later = month_from mint (mon + 1) months in if mint == m then mon else later

-- `sp_time_exp_read_mon`, whose view has three characters.
unfoldable pub read_mon : TimeExp → List ℕ → Option TimeExp
unfolding month_from s_months is_day_of
read_mon t monstr =
    if (t.mday == 0) || ltb 31 t.mday
    then none
    else (let mon =
          month_from (letters (char_at monstr 0) (char_at monstr 1) (char_at monstr 2)) 0
            s_months in
        if leb 12 mon
        then none
        else if is_day_of t.year t.mday (pos mon)
        then some (record t { mon = pos mon })
        else none)
