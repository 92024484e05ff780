-- ===== src/Time/Days.antt =====
-- The days that `geti` counts follow the Gregorian calendar.
use libstappler_common.Common.{
  ℕ, zero, suc, ◌+◌, ◌-◌, ◌<◌, ◌≤◌, ◌≡◌, ◌⊎◌, inl, inr, refl, sym, ◌∙◌, ap, arith, true, false,
  Option, some, ◌==◌, ltb, if◌then◌else◌, Bool-cases, ◌≢◌,
}
use libstappler_common.Common.Int.{pos}
use libstappler_common.Time.Calendar.{count_days, year_days, march_year}
use libstappler_common.Time.Months.{
  is_leap, month_days, offset_of, dayoffset-offset_of, next_month, offset_of-next_month,
}

-- A date of the Gregorian calendar: the year after Christ, the month from 0 and the day from 1.
pub record Date : Type 0 where
  pub year : ℕ
  pub month : ℕ
  pub day : ℕ

abbrev pub next_day : Date → Date
next_day d =
    if ltb d.day (month_days d.year d.month)
    then record { year = d.year; month = d.month; day = d.day + 1 }
    else (if ltb d.month 11
        then record { year = d.year; month = d.month + 1; day = 1 }
        else record { year = d.year + 1; month = 0; day = 1 })

abbrev pub IsDate : Date → Type 0
IsDate d = (d.month < 12) × (1 ≤ d.day) × (d.day ≤ month_days d.year d.month)

-- The day number of a date.
abbrev pub day_number : Date → Option ℕ
day_number d = count_days (pos (d.year - 1900)) (pos d.month) d.day

year_days-suc :
    (y : ℕ)
    → y < 10000
    → year_days (suc y) ≡ year_days y + (if is_leap (1901 + y) then 366 else 365)
unfolding year_days
year_days-suc y h = ground arith

-- The year that begins with the March before the date, counted from 1900.
abbrev from_march : ℕ → ℕ → ℕ
from_march y m = if ltb m 2 then y - 1901 else y - 1900

march_year-from_march :
    (y m : ℕ)
    → 1900 ≤ y
    → y < 11901
    → (2 ≤ m) ⊎ (1901 ≤ y)
    → march_year (pos (y - 1900)) (pos m) ≡ from_march y m
unfolding march_year
march_year-from_march y m lower upper (inl h) = ground arith
march_year-from_march y m lower upper (inr h) = ground arith

day_number-offset_of :
    (y m d : ℕ)
    → 1900 ≤ y
    → y < 11901
    → (2 ≤ m) ⊎ (1901 ≤ y)
    → m < 12
    → day_number (record { year = y; month = m; day = d })
      ≡ some (year_days (from_march y m) + offset_of m + d)
unfolding count_days
day_number-offset_of y m d lower upper march h =
    rw (dayoffset-offset_of m h, march_year-from_march y m lower upper march) refl

-- The last day of a month, and the first of the next.
last_day : (y m : ℕ) → ((m == 1) ≡ false) → month_days y m ≡ month_days 1900 m
last_day y m h = rw h refl

-- The first day of a month follows the last one of the month before.
same_year :
    (y m : ℕ)
    → 1900 ≤ y
    → m < 12
    → m ≢ 1
    → from_march (if ltb m 11 then y else y + 1) (next_month m) ≡ from_march y m
unfolding next_month
same_year y m lower h other = ground arith

month_end :
    (y m : ℕ)
    → 1900 ≤ y
    → y < 11901
    → m < 12
    → m ≢ 1
    → let y' = if ltb m 11 then y else y + 1 in
      year_days (from_march y' (next_month m)) + offset_of (next_month m)
      ≡ year_days (from_march y m) + offset_of m + month_days y m
unfolding next_month
month_end y m lower upper h other =
    rw (same_year y m lower h other, offset_of-next_month m h other) (ground (arith, last_day y m))

february :
    (k : ℕ)
    → k < 10000
    → year_days (suc k) ≡ year_days k + 337 + (if is_leap (1901 + k) then 29 else 28)
february k h = elim (Bool-cases (is_leap (1901 + k))) [
  | inl y ↦ year_days-suc k h ∙ rw (y) (omega arith)
  | inr n ↦ year_days-suc k h ∙ rw (n) (omega arith)
]

february_end :
    (y : ℕ)
    → 1901 ≤ y
    → y < 11901
    → year_days (from_march y 2) + offset_of 2
      ≡ year_days (from_march y 1) + offset_of 1 + month_days y 1
unfolding offset_of
february_end y lower upper =
    let whole : 1901 + (y - 1901) ≡ y = omega arith in
    let next : y - 1900 ≡ suc (y - 1901) = omega arith in
    rw next (rw⁻¹ whole (ground (arith, february (y - 1901))))

next_month-lt : (m : ℕ) → ltb m 11 ≡ true → next_month m ≡ m + 1
unfolding next_month
next_month-lt m h = rw h refl

next_month-ge : (m : ℕ) → ltb m 11 ≡ false → next_month m ≡ 0
unfolding next_month
next_month-ge m h = rw h refl

month_turn :
    (y m : ℕ)
    → 1900 ≤ y
    → y < 11900
    → (2 ≤ m) ⊎ (1901 ≤ y)
    → m < 12
    → year_days (from_march (if ltb m 11 then y else y + 1) (next_month m))
        + offset_of (next_month m)
      ≡ year_days (from_march y m) + offset_of m + month_days y m
month_turn y zero lower upper march h = month_end y 0 lower (omega arith) h (omega arith)
month_turn y (suc zero) lower upper march h =
    rw (next_month-lt 1 refl) (february_end y (ground arith) (omega arith))
month_turn y (suc (suc m)) lower upper march h =
    month_end y (suc (suc m)) lower (omega arith) h (omega arith)

turned :
    (y m d y' m' : ℕ)
    → next_month m ≡ m'
    → (if ltb m 11 then y else y + 1) ≡ y'
    → d ≡ month_days y m
    → year_days (from_march (if ltb m 11 then y else y + 1) (next_month m))
        + offset_of (next_month m)
      ≡ year_days (from_march y m) + offset_of m + month_days y m
    → year_days (from_march y' m') + offset_of m' + 1
      ≡ year_days (from_march y m) + offset_of m + d + 1
turned y m d y' m' month year day turn = rw (sym month, sym year, day, turn) refl

-- The day number of the next day is the next number: `geti` counts the days of the Gregorian calendar, from
-- 1 March 1900 to the year 11899.
pub day_number-next_day :
    (d : Date)
    → 1900 ≤ d.year
    → d.year < 11900
    → (2 ≤ d.month) ⊎ (1901 ≤ d.year)
    → IsDate d
    → (n : ℕ) × (day_number d ≡ some n) × (day_number (next_day d) ≡ some (n + 1))
day_number-next_day d lower upper march (month, first, last) =
    let n = year_days (from_march d.year d.month) + offset_of d.month + d.day in
    (
      n,
      day_number-offset_of d.year d.month d.day lower (omega arith) march month,
      elim (Bool-cases (ltb d.day (month_days d.year d.month))) [
        | inl y ↦ rw y (
            day_number-offset_of d.year d.month (d.day + 1) lower (omega arith) march month
            ∙ ap some (omega arith))
        | inr y ↦
            let whole : d.day ≡ month_days d.year d.month = ground arith in
            elim (Bool-cases (ltb d.month 11)) [
              | inl z ↦
                  rw (y, z)
                    (day_number-offset_of d.year (d.month + 1) 1 lower (omega arith) (ground arith)
                        (ground arith)
                      ∙ ap some (
                          turned d.year d.month d.day d.year (d.month + 1) (next_month-lt d.month z)
                            (rw z refl) whole (month_turn d.year d.month lower upper march month)))
              | inr z ↦
                  rw (y, z)
                    (day_number-offset_of (d.year + 1) 0 1 (omega arith) (omega arith)
                        (inr (omega arith)) (omega arith)
                      ∙ ap some (
                          turned d.year d.month d.day (d.year + 1) 0 (next_month-ge d.month z)
                            (rw z refl) whole (month_turn d.year d.month lower upper march month)))
            ]
      ],
    )
