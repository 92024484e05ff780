-- ===== src/Time/Months.antt =====
-- The lengths of the months, and the table of `geti`.
use libstappler_common.Common.{
  ℕ, zero, suc, ◌+◌, ◌%◌, ◌<◌, ◌≡◌, refl, arith, Bool, true, ◌&&◌, ◌||◌, not, List, [], ◌∷◌, none,
  some, ◌==◌, ltb, if◌then◌else◌, length, ◌≢◌,
}
use libstappler_common.Common.Int.{pos}
use libstappler_common.Common.Tables.{all_below, all_below_sound}
use libstappler_common.Time.Calendar.{element, offsets, dayoffset}

abbrev pub is_leap : ℕ → Bool
is_leap y = (y % 4 == 0) && (not (y % 100 == 0) || (y % 400 == 0))

abbrev pub month_days : ℕ → ℕ → ℕ
month_days y m =
    if m == 1
    then (if is_leap y then 29 else 28)
    else (if (m == 3) || (m == 5) || (m == 8) || (m == 10) then 30 else 31)

-- The days from 1 March to the first day of a month.
unfoldable pub offset_of : ℕ → ℕ
offset_of m = elim (element offsets m) [ none ↦ 0 | some n ↦ n ]

element-total :
    (xs : List ℕ) (i : ℕ)
    → i < length xs
    → element xs i ≡ some (elim (element xs i) [ none ↦ 0 | some n ↦ n ])
element-total [] i h = absurd (omega arith)
element-total (x ∷ xs) zero h = refl
element-total (x ∷ xs) (suc i) h = element-total xs i (omega arith)

pub dayoffset-offset_of : (m : ℕ) → m < 12 → dayoffset (pos m) ≡ some (offset_of m)
unfolding dayoffset offset_of
dayoffset-offset_of m h = element-total offsets m h

-- The months but February follow each other, whatever the year.
unfoldable pub next_month : ℕ → ℕ
next_month m = if ltb m 11 then m + 1 else 0

follows : ℕ → Bool
follows m = (m == 1) || (offset_of (next_month m) == offset_of m + month_days 1900 m)

follows_all : (m : ℕ) → m < 12 → follows m ≡ true
unfolding follows offset_of next_month all_below
follows_all m h = all_below_sound 12 follows m refl h

pub offset_of-next_month :
    (m : ℕ) → m < 12 → m ≢ 1 → offset_of (next_month m) ≡ offset_of m + month_days 1900 m
unfolding follows
offset_of-next_month m h other = ground (arith, follows_all m h)
