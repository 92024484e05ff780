-- ===== src/Time/Calendar.antt =====
-- The fields of `sp_time_exp_t`, and the microseconds that they stand for.
use libstappler_common.Common.{
  ℕ, zero, suc, ◌+◌, ◌-◌, ◌*◌, ◌/◌, ◌^◌, List, [], ◌∷◌, Option, none, some, ltb, u32, u64,
  if◌then◌else◌,
}
use libstappler_common.Common.Int.{ℤ, pos, negsuc, ltb_ℤ}

-- `tm_gmt_e`
pub data Gmt : Type 0 where
  gmt_unset : Gmt
  gmt_local : Gmt
  gmt_set : Gmt

-- `sp_time_exp_t` but for the day of the year and the daylight saving time, which no function here looks at.
pub record TimeExp : Type 0 where
  pub usec : ℕ
  pub sec : ℕ
  pub min : ℕ
  pub hour : ℕ
  pub mday : ℕ
  pub mon : ℤ
  pub year : ℤ
  pub wday : ℕ
  pub gmtoff : ℤ
  pub gmt_type : Gmt

-- The difference of two natural numbers.
abbrev pub minus_ℤ : ℕ → ℕ → ℤ
minus_ℤ a b = if ltb a b then negsuc (b - a - 1) else pos (a - b)

-- The cast to `uint32_t` and to `uint64_t`.
abbrev pub u32_ℤ : ℤ → ℕ
u32_ℤ (pos n) = u32 n
u32_ℤ (negsuc n) = 2 ^ 32 - 1 - u32 n

abbrev pub u64_ℤ : ℤ → ℕ
u64_ℤ (pos n) = u64 n
u64_ℤ (negsuc n) = 2 ^ 64 - 1 - u64 n

abbrev pub element {ℓ} : {A : Type ℓ} → List A → ℕ → Option A
element [] i = none
element (x ∷ xs) zero = some x
element (x ∷ xs) (suc i) = element xs i

-- `dayoffset`, beyond whose ends nothing is known.
abbrev pub offsets : List ℕ
offsets = 306 ∷ 337 ∷ 0 ∷ 31 ∷ 61 ∷ 92 ∷ 122 ∷ 153 ∷ 184 ∷ 214 ∷ 245 ∷ 275 ∷ []

unfoldable pub dayoffset : ℤ → Option ℕ
dayoffset (pos m) = element offsets m
dayoffset (negsuc m) = none

-- The days from 1 March 1900 to 1 March of a year, in `uint32_t`.
unfoldable pub year_days : ℕ → ℕ
year_days year =
    u32 (u32 (u32 (year * 365) + year / 4 + 2 ^ 32 - year / 100) + (year / 100 + 3) / 4)

-- The `year` of `geti`, which begins in March.
unfoldable pub march_year : ℤ → ℤ → ℕ
march_year year mon = if ltb_ℤ mon (pos 2) then u32 (u32_ℤ year + 2 ^ 32 - 1) else u32_ℤ year

-- `days` of `geti`, without the days before 1970 (25508) and the day of the month that is too many.
unfoldable pub count_days : ℤ → ℤ → ℕ → Option ℕ
unfolding year_days march_year dayoffset
count_days year mon mday = elim (dayoffset mon) [
  | none ↦ none
  | some offset ↦ some (year_days (march_year year mon) + offset + mday)
]

-- `geti`, as the 64 bits of its result.
unfoldable pub geti : TimeExp → Option ℕ
unfolding count_days
geti t = elim (count_days t.year t.mon t.mday) [
  | none ↦ none
  | some days ↦
      let seconds = minus_ℤ (((days * 24 + t.hour) * 60 + t.min) * 60 + t.sec) (25509 * 86400) in
      some (u64 (u64 (u64_ℤ seconds * 1000000) + t.usec))
]

-- `gmt_geti`
unfoldable pub gmt_geti : TimeExp → Option ℕ
unfolding geti
gmt_geti t = elim (geti t) [
  | none ↦ none
  | some n ↦ some (u64 (n + 2 ^ 64 - u64 (u64_ℤ t.gmtoff * 1000000)))
]
