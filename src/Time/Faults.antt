-- ===== src/Time/Faults.antt =====
-- Where the reading and the writing of dates go wrong.
use libstappler_common.Common.{
  ℕ, suc, ◌+◌, ◌/◌, ◌%◌, ◌<◌, ◌≤◌, ◌≡◌, refl, arith, true, false, List, [], ◌∷◌, ◌++◌, none, some,
  ◌==◌, if◌then◌else◌, codes, Bool-cases, inl, inr, length,
}
use libstappler_common.Common.Int.{pos, negsuc}
use libstappler_common.Time.Calendar.{geti, count_days, dayoffset, TimeExp, gmt_set}
use libstappler_common.Time.Mask.{isdigit, fits, only_stars, checkmask}
use libstappler_common.Time.Read.{Numbers, read_digits, is_day_of, check_mon}
use libstappler_common.Time.Parse.{read_atom_date, read_numeric, read_gmt}
use libstappler_common.Time.Print.{fraction_of, fraction_chars, rounded, two_chars, year_chars}
use libstappler_common.Time.Digits.{
  isdigit-digit_char, read_year-year_chars, two_digits-two_chars, within, positive,
}

longer : (n : ℕ) → (suc (suc (suc n)) == 2) ≡ false
longer n = ground arith

-- An offset whose hours and minutes are parted by a colon, as in "+09:00", is read as no offset: the colon is not
-- skipped in front of the minutes. The kind of time stays what it was but for the sign 'Z'.
pub read_gmt-colon :
    (numbers : Numbers) (t : TimeExp) (sign a b : ℕ) (rest : List ℕ)
    → isdigit a ≡ true
    → isdigit b ≡ true
    → read_gmt numbers t (sign ∷ a ∷ b ∷ 0x3a ∷ rest)
      ≡ record t { gmtoff = pos 0; gmt_type = if sign == 0x5a then gmt_set else t.gmt_type }
unfolding read_gmt read_digits
read_gmt-colon numbers t sign a b rest first second =
    rw (first, second)
      (elim (Bool-cases (sign == 0x47)) [
        | inl y ↦ rw (y, longer (length rest)) refl
        | inr n ↦ rw n refl
      ])

thousand : (usec : ℕ) → 999500 ≤ usec → usec < 1000000 → rounded usec 1000 ≡ 1000
unfolding rounded
thousand usec lower upper = omega arith

-- The digits of a fraction of a second with three of them are ":00" from 999500 microseconds on.
pub fraction_of-carry :
    (usec : ℕ) → 999500 ≤ usec → usec < 1000000 → fraction_of usec 3 ≡ codes ".:00"
unfolding fraction_of fraction_chars
fraction_of-carry usec lower upper = rw (thousand usec lower upper) refl

-- The characters of a date without a time.
abbrev pub date_chars : ℕ → ℕ → ℕ → List ℕ
date_chars y month d =
    year_chars (1900 + y) ++ codes "-" ++ two_chars month ++ codes "-" ++ two_chars d

date_mask :
    (y d : ℕ) → y < 8100 → d < 32 → checkmask (date_chars y 0 d) (codes "####-##-##*") ≡ true
unfolding checkmask fits only_stars
date_mask y d year day =
    rw
      (
        isdigit-digit_char ((1900 + y) / 1000) (omega arith),
        isdigit-digit_char ((1900 + y) % 1000 / 100) (omega arith),
        isdigit-digit_char ((1900 + y) % 100 / 10) (omega arith),
        isdigit-digit_char ((1900 + y) % 10) (omega arith),
        isdigit-digit_char 0 (omega arith),
        isdigit-digit_char (d / 10) (omega arith),
        isdigit-digit_char (d % 10) (omega arith),
      )
      refl

time_mask :
    (y d : ℕ)
    → y < 8100
    → d < 32
    → checkmask (date_chars y 0 d) (codes "####-##-##T##:##:##*") ≡ false
unfolding checkmask fits only_stars
time_mask y d year day =
    rw
      (
        isdigit-digit_char ((1900 + y) / 1000) (omega arith),
        isdigit-digit_char ((1900 + y) % 1000 / 100) (omega arith),
        isdigit-digit_char ((1900 + y) % 100 / 10) (omega arith),
        isdigit-digit_char ((1900 + y) % 10) (omega arith),
        isdigit-digit_char (d / 10) (omega arith),
        isdigit-digit_char (d % 10) (omega arith),
      )
      refl

check_mon-minus_one :
    (t : TimeExp) → t.mon ≡ negsuc 0 → 0 < t.mday → t.mday < 32 → check_mon t ≡ true
unfolding check_mon is_day_of
check_mon-minus_one t mon lower upper =
    rw (mon, positive t.mday lower, within t.mday 31 (omega arith))
      (elim (Bool-cases (t.mday == 31)) [ inl y ↦ rw y refl | inr n ↦ rw n refl ])

-- A date in the month "00" passes the tests, and its month is -1; `geti` reads in front of its table then.
pub read_atom_date-month_zero :
    (numbers : Numbers) (t : TimeExp) (y d : ℕ)
    → y < 8100
    → 0 < d
    → d < 32
    → (u : TimeExp) × (read_numeric numbers t (date_chars y 0 d) ≡ some u)
      × (u.mon ≡ negsuc 0)
      × (geti u ≡ none)
unfolding read_numeric read_atom_date geti count_days dayoffset read_gmt read_digits
read_atom_date-month_zero numbers t y d year positive_day day = (
  record t { year = pos y; mon = negsuc 0; mday = d; gmtoff = pos 0; gmt_type = gmt_set },
  rw
      (
        time_mask y d year day,
        date_mask y d year day,
        read_year-year_chars y (codes "-00-" ++ two_chars d) year,
        two_digits-two_chars d [],
        check_mon-minus_one (record t { year = pos y; mon = negsuc 0; mday = d }) refl positive_day
            day,
      )
      refl,
  refl,
  refl,
)
