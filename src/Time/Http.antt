-- ===== src/Time/Http.antt =====
-- `Time::fromHttp` and `Time::fromCompileTime`, with `ltz_geti`. A `Time` is its microseconds, and `Time()` is 0. The
-- offset of the local time zone is an argument, which `localtime_r` of the C library gives.
use libstappler_common.Common.{
  ◌>>=◌, ℕ, ◌+◌, ◌-◌, ◌*◌, ◌^◌, ◌||◌, List, Option, none, some, ◌==◌, ltb, u64, if◌then◌else◌,
}
use libstappler_common.Common.Int.{ℤ, pos}
use libstappler_common.Time.Calendar.{TimeExp, gmt_unset, gmt_local, gmt_set, u64_ℤ, geti, gmt_geti}
use libstappler_common.Time.Read.{
  Numbers, char_at, read_year, read_time, is_day_of, letters, s_months, month_from,
}
use libstappler_common.Time.Parse.{read}

-- `sp_time_exp_t()`
abbrev pub blank : TimeExp
blank = record {
  usec = 0;
  sec = 0;
  min = 0;
  hour = 0;
  mday = 0;
  mon = pos 0;
  year = pos 0;
  wday = 0;
  gmtoff = pos 0;
  gmt_type = gmt_unset;
}

unfoldable pub ltz_geti : ℤ → TimeExp → Option ℕ
unfolding geti
ltz_geti zone t = elim (geti t) [
  | none ↦ none
  | some n ↦ some (u64 (n + 2 ^ 64 - u64 (u64_ℤ zone * 1000000)))
]

unfoldable pub from_http : Numbers → ℤ → List ℕ → Option ℕ
unfolding read ltz_geti gmt_geti geti
from_http numbers zone text = elim (read numbers blank text) [
  | none ↦ some 0
  | some t ↦ elim t.gmt_type [
    | gmt_set ↦ gmt_geti t
    | gmt_local ↦ ltz_geti zone t
    | gmt_unset ↦ geti t
  ]
]

-- `((date[4] != ' ') ? ((date[4] - '0') * 10) : 0) + (date[5] - '0')`, where the characters are no less than '0'.
abbrev pub compile_day : List ℕ → ℕ
compile_day date =
    (if char_at date 4 == 0x20 then 0 else (char_at date 4 - 0x30) * 10) + (char_at date 5 - 0x30)

-- The fields that `fromCompileTime` reads, if it gets to its end.
unfoldable pub read_compile_time : List ℕ → List ℕ → Option TimeExp
unfolding read_year month_from s_months is_day_of read_time
read_compile_time date time = read_year date 7 >>= λ year.
    let mday = compile_day date in
    let mon = month_from (letters (char_at date 0) (char_at date 1) (char_at date 2)) 0 s_months in
    if (mon == 12) || (mday == 0) || ltb 31 mday
    then none
    else if is_day_of year mday (pos mon)
    then read_time (record blank { year = year; mday = mday; mon = pos mon }) time
    else none

unfoldable pub from_compile_time : ℤ → List ℕ → List ℕ → Option ℕ
unfolding read_compile_time ltz_geti
from_compile_time zone date time = elim (read_compile_time date time) [
  | none ↦ some 0
  | some t ↦ ltz_geti zone t
]
