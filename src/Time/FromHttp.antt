-- ===== src/Time/FromHttp.antt =====
-- `Time::fromHttp` of a written time.
use libstappler_common.Common.{
  ℕ, ◌+◌, ◌-◌, ◌*◌, ◌<◌, ◌≤◌, ◌≡◌, ◌^◌, refl, ◌∙◌, ap, arith, true, List, some,
}
use libstappler_common.Common.Int.{ℤ, pos}
use libstappler_common.Time.Calendar.{TimeExp, gmt_set, count_days, geti, gmt_geti}
use libstappler_common.Time.Read.{Numbers, is_day_of}
use libstappler_common.Time.Parse.{read}
use libstappler_common.Time.Print.{encode_rfc822}
use libstappler_common.Time.Http.{blank, from_http}
use libstappler_common.Time.Seconds.{geti-day_number}
use libstappler_common.Time.RoundTrip.{IsTime, read_fields, read-encode_rfc822}

gmt_geti-zero :
    (t : TimeExp) (n : ℕ) → t.gmtoff ≡ pos 0 → geti t ≡ some n → n < 2 ^ 64 → gmt_geti t ≡ some n
unfolding gmt_geti
gmt_geti-zero t n zone known small = rw (known, gmt_geti, zone) (ap some (ground arith))

from_http-set :
    (numbers : Numbers) (zone : ℤ) (text : List ℕ) (t : TimeExp)
    → read numbers blank text ≡ some t
    → t.gmt_type ≡ gmt_set
    → from_http numbers zone text ≡ gmt_geti t
unfolding from_http
from_http-set numbers zone text t back set = rw (back, from_http, set) refl

-- `fromHttp` of the text that `encodeRfc822` writes gives the microseconds of its second since 1970, wherever the
-- clock stands. The time is a valid date of a year from 1970 to 9999, whose day number is `n`, and a time of the
-- day with at most 61 seconds.
pub from_http-encode_rfc822 :
    (numbers : Numbers) (zone : ℤ) (t : TimeExp) (y m n : ℕ)
    → t.wday < 7
    → t.mon ≡ pos m
    → t.year ≡ pos y
    → m < 12
    → 0 < t.mday
    → IsTime t y
    → is_day_of (pos y) t.mday (pos m) ≡ true
    → count_days (pos y) (pos m) t.mday ≡ some n
    → 25509 ≤ n
    → n < 5000000
    → (text : List ℕ) × (encode_rfc822 t ≡ some text)
      × (from_http numbers zone text
          ≡ some ((((n - 25509) * 24 + t.hour) * 3600 + t.min * 60 + t.sec) * 1000000))
from_http-encode_rfc822 numbers zone t y m n weekday mon year month positive_day time day number
      lower upper =
    let (text, written, back) =
      read-encode_rfc822 numbers t blank y m weekday mon year month positive_day time day in
    let (mday, hour, min, sec, century) = time in
    let seconds =
      geti-day_number (read_fields t blank m y) n number lower upper hour min sec (omega arith) in
    (
      text,
      written,
      from_http-set numbers zone text (read_fields t blank m y) back refl
          ∙ gmt_geti-zero (read_fields t blank m y) _ refl seconds (omega arith)
          ∙ ap some (omega arith),
    )
