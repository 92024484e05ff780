-- ===== src/Uuid/Clock.antt =====
-- The timestamps of `getCurrentTime`, and where they stand in a UUID.
use libstappler_common.Common.{
  ℕ, ◌+◌, ◌*◌, ◌%◌, ◌^◌, ◌<◌, ◌≡◌, ◌≢◌, ◌⊎◌, inl, inr, refl, arith, u8, bit_and, bit_or, ◌>>>◌,
}
use libstappler_common.Common.Tables.{all_below, table_eq}
use libstappler_common.Uuid.{ClockState, current_time, Bytes16, generate}

-- The clock at an hour before the overflow of the timestamps.
abbrev pub IsEarly : ℕ → ClockState → Type 0
IsEarly micros c = (micros < 2 ^ 59) × (c.time_last < 2 ^ 62) × (c.fudge < 2 ^ 62)

-- The next timestamp is greater than the last one, whatever the clock says, unless calls in the same microsecond
-- ran ahead of the clock and it moved on exactly to the last timestamp; the numbers are far from their bounds.
pub current_time-increases :
    (micros : ℕ) (c : ClockState)
    → IsEarly micros c
    → (c.fudge ≡ 0) ⊎ (micros * 10 + 0x01B21DD213814000 ≢ c.time_last + c.fudge)
    → c.time_last + c.fudge < (current_time micros c).0
unfolding current_time
current_time-increases micros c (early, last, fudge) (inl none_ahead) = ground arith
current_time-increases micros c (early, last, fudge) (inr other) = ground arith

-- Where the clock moves on exactly to a timestamp that calls in the same microsecond ran ahead to, that timestamp
-- is given again.
pub current_time-repeats :
    (micros : ℕ) (c : ClockState)
    → IsEarly micros c
    → 0 < c.fudge
    → micros * 10 + 0x01B21DD213814000 ≡ c.time_last + c.fudge
    → (current_time micros c).0 ≡ c.time_last + c.fudge
unfolding current_time
current_time-repeats micros c (early, last, fudge) ahead same = ground arith

-- The timestamp that a UUID shows: its fields put together, without the version.
abbrev pub timestamp_of : Bytes16 → ℕ
timestamp_of d =
    ((((((bit_and d.d6 0x0F * 256 + d.d7) * 256 + d.d4) * 256 + d.d5) * 256 + d.d0) * 256 + d.d1)
          * 256
        + d.d2)
      * 256
    + d.d3

nibble : (n : ℕ) → n < 256 → bit_and (u8 (bit_or (bit_and n 0x0F) 0x50)) 0x0F ≡ n % 16
unfolding all_below
nibble n h =
    table_eq 256 (λ n. bit_and (u8 (bit_or (bit_and n 0x0F) 0x50)) 0x0F) (λ n. n % 16) refl n h

-- A generated UUID shows the lower 60 bits of its timestamp.
pub timestamp_of-generate :
    (timestamp seqnum : ℕ) (node : ℕ × ℕ × ℕ × ℕ × ℕ × ℕ)
    → timestamp < 2 ^ 64
    → timestamp_of (generate timestamp seqnum node) ≡ timestamp % 2 ^ 60
unfolding generate
timestamp_of-generate timestamp seqnum (n0, n1, n2, n3, n4, n5) h =
    rw (nibble (timestamp >>> 56) (omega arith)) (omega arith)
