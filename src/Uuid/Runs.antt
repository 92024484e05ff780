-- ===== src/Uuid/Runs.antt =====
-- Runs of the UUIDs.
use libstappler_common.Common.{ℕ, ◌+◌, ◌%◌, ◌^◌, ◌<◌, ◌≡◌, refl, arith, inr, some, none, codes}
use libstappler_common.Uuid.{
  Bytes16, ClockState, format, parse, hex_char, valid_from, isxdigit, current_time, generate,
}
use libstappler_common.Uuid.RoundTrip.{parse-format}
use libstappler_common.Uuid.Clock.{
  current_time-increases, current_time-repeats, timestamp_of, timestamp_of-generate,
}

-- A timestamp of 2023.
abbrev timestamp : ℕ
timestamp = 0x1EE12345678ABCD

abbrev example : Bytes16
example = record {
  d0 = 0x56;
  d1 = 0x78;
  d2 = 0xab;
  d3 = 0xcd;
  d4 = 0x12;
  d5 = 0x34;
  d6 = 0x51;
  d7 = 0xee;
  d8 = 0x80;
  d9 = 0;
  d10 = 1;
  d11 = 2;
  d12 = 3;
  d13 = 0xfd;
  d14 = 0xfe;
  d15 = 0xff;
}

format_run : format example ≡ codes "5678abcd-1234-51ee-8000-010203fdfeff"
unfolding format hex_char
format_run = refl

parse_run : parse (codes "5678abcd-1234-51ee-8000+010203fdfeff") ≡ none
unfolding parse valid_from isxdigit
parse_run = refl

parse-format_example : parse (format example) ≡ some example
parse-format_example = parse-format example (
  omega arith,
  omega arith,
  omega arith,
  omega arith,
  omega arith,
  omega arith,
  omega arith,
  omega arith,
  omega arith,
  omega arith,
  omega arith,
  omega arith,
  omega arith,
  omega arith,
  omega arith,
  omega arith,
)

-- Eleven calls in one microsecond, and a call in the next one.
abbrev ahead : ClockState
ahead = record { time_last = 16000000000000000 + 0x01B21DD213814000; fudge = 10 }

current_time-increases_example :
    16000000000000000 + 0x01B21DD213814000 + 10 < (current_time 1600000000000002 ahead).0
current_time-increases_example =
    current_time-increases 1600000000000002 ahead (omega arith, omega arith, omega arith)
      (inr (omega arith))

current_time-repeats_example :
    (current_time 1600000000000001 ahead).0 ≡ 16000000000000000 + 0x01B21DD213814000 + 10
current_time-repeats_example =
    current_time-repeats 1600000000000001 ahead (omega arith, omega arith, omega arith)
      (omega arith) (omega arith)

timestamp_of-generate_example :
    timestamp_of (generate timestamp 0 (1, 2, 3, 4, 5, 6)) ≡ timestamp % 2 ^ 60
timestamp_of-generate_example = timestamp_of-generate timestamp 0 (1, 2, 3, 4, 5, 6) (omega arith)
