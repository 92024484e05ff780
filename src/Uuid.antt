-- ===== src/Uuid.antt =====
-- UUIDs: common/memory/SPMemUuid.cc. The clock and the node, a hash of the process, are arguments.
pub mod RoundTrip
pub mod Clock
pub mod Runs
use libstappler_common.Common.{
  ℕ, zero, suc, ◌+◌, ◌-◌, ◌*◌, ◌/◌, ◌%◌, ◌^◌, ◌<<<◌, ◌>>>◌, bit_and, bit_or, Bool, true, false,
  ◌&&◌, ◌||◌, not, List, [], ◌∷◌, ◌++◌, Option, none, some, ◌==◌, ltb, leb, u8, u64, if◌then◌else◌,
  codes,
}
use libstappler_common.Coding.Base16.{hex_to_char}

-- `uuid_t`
pub record Bytes16 : Type 0 where
  pub d0 : ℕ
  pub d1 : ℕ
  pub d2 : ℕ
  pub d3 : ℕ
  pub d4 : ℕ
  pub d5 : ℕ
  pub d6 : ℕ
  pub d7 : ℕ
  pub d8 : ℕ
  pub d9 : ℕ
  pub d10 : ℕ
  pub d11 : ℕ
  pub d12 : ℕ
  pub d13 : ℕ
  pub d14 : ℕ
  pub d15 : ℕ

-- The two digits of `%02x`.
unfoldable pub hex_char : ℕ → ℕ
hex_char n = if ltb n 10 then n + 0x30 else n + 0x57

abbrev pub hex_chars : ℕ → List ℕ
hex_chars b = hex_char (b / 16) ∷ hex_char (b % 16) ∷ []

-- `format`: the characters in front of the '\0'.
unfoldable pub format : Bytes16 → List ℕ
format d =
    hex_chars d.d0
    ++ hex_chars d.d1
    ++ hex_chars d.d2
    ++ hex_chars d.d3
    ++ codes "-"
    ++ hex_chars d.d4
    ++ hex_chars d.d5
    ++ codes "-"
    ++ hex_chars d.d6
    ++ hex_chars d.d7
    ++ codes "-"
    ++ hex_chars d.d8
    ++ hex_chars d.d9
    ++ codes "-"
    ++ hex_chars d.d10
    ++ hex_chars d.d11
    ++ hex_chars d.d12
    ++ hex_chars d.d13
    ++ hex_chars d.d14
    ++ hex_chars d.d15

-- `isxdigit` of the C library.
unfoldable pub isxdigit : ℕ → Bool
isxdigit c = (leb 0x30 c && leb c 0x39) || (leb 0x41 c && leb c 0x46) || (leb 0x61 c && leb c 0x66)

-- A digit in `parse_hexpair`, of a character that is no less than '0'.
unfoldable pub pair_digit : ℕ → ℕ
pair_digit c =
    let result = c - 0x30 in
    if ltb 48 result then result - 39 else if ltb 16 result then result - 7 else result

unfoldable pub parse_hexpair : ℕ → ℕ → ℕ
unfolding pair_digit
parse_hexpair c d = u8 (bit_or (pair_digit c <<< 4) (pair_digit d))

-- The loop of `parse` over the characters from `i` on, and the test of the '\0' behind them. The text is the
-- characters in front of its first '\0'.
unfoldable pub valid_from : ℕ → ℕ → List ℕ → Bool
unfolding isxdigit
valid_from zero i [] = true
valid_from zero i (c ∷ r) = false
valid_from (suc n) i [] = false
valid_from (suc n) i (c ∷ r) =
    let rest = valid_from n (i + 1) r in
    (isxdigit c || ((c == 0x2d) && ((i == 8) || (i == 13) || (i == 18) || (i == 23)))) && rest

-- `uuid_str[i]`, within the text.
abbrev pub char_at : List ℕ → ℕ → ℕ
char_at [] i = 0
char_at (c ∷ r) zero = c
char_at (c ∷ r) (suc i) = char_at r i

-- `parse`; `none` is the answer false, which leaves the bytes alone.
unfoldable pub parse : List ℕ → Option Bytes16
unfolding valid_from parse_hexpair
parse s =
    if not (valid_from 36 0 s)
    then none
    else some (record {
      d0 = hex_to_char (char_at s 0) (char_at s 1);
      d1 = hex_to_char (char_at s 2) (char_at s 3);
      d2 = hex_to_char (char_at s 4) (char_at s 5);
      d3 = hex_to_char (char_at s 6) (char_at s 7);
      d4 = hex_to_char (char_at s 9) (char_at s 10);
      d5 = hex_to_char (char_at s 11) (char_at s 12);
      d6 = hex_to_char (char_at s 14) (char_at s 15);
      d7 = hex_to_char (char_at s 16) (char_at s 17);
      d8 = hex_to_char (char_at s 19) (char_at s 20);
      d9 = hex_to_char (char_at s 21) (char_at s 22);
      d10 = parse_hexpair (char_at s 24) (char_at s 25);
      d11 = parse_hexpair (char_at s 26) (char_at s 27);
      d12 = parse_hexpair (char_at s 28) (char_at s 29);
      d13 = parse_hexpair (char_at s 30) (char_at s 31);
      d14 = parse_hexpair (char_at s 32) (char_at s 33);
      d15 = parse_hexpair (char_at s 34) (char_at s 35);
    })

-- `time_last` and `fudge` of `getCurrentTime`.
pub record ClockState : Type 0 where
  pub time_last : ℕ
  pub fudge : ℕ

-- `getCurrentTime` with the microseconds of the clock.
unfoldable pub current_time : ℕ → ClockState → ℕ × ClockState
current_time micros c =
    let now = u64 (u64 (micros * 10) + 0x01B21DD213814000) in
    let reached = u64 (c.time_last + c.fudge) in
    let fudge =
      if not (c.time_last == now)
      then (if ltb now reached then u64 (reached + 2 ^ 64 - now + 1) else 0)
      else u64 (c.fudge + 1) in
    (u64 (now + fudge), record { time_last = now; fudge = fudge })

-- `generate` with the timestamp of `getCurrentTime`, `seqnum` and the first six bytes of the node.
unfoldable pub generate : ℕ → ℕ → (ℕ × ℕ × ℕ × ℕ × ℕ × ℕ) → Bytes16
generate timestamp seqnum (n0, n1, n2, n3, n4, n5) = record {
  d0 = u8 (timestamp >>> 24);
  d1 = u8 (timestamp >>> 16);
  d2 = u8 (timestamp >>> 8);
  d3 = u8 timestamp;
  d4 = u8 (timestamp >>> 40);
  d5 = u8 (timestamp >>> 32);
  d6 = u8 (bit_or (bit_and (timestamp >>> 56) 0x0F) 0x50);
  d7 = u8 (timestamp >>> 48);
  d8 = u8 (bit_or (bit_and (seqnum >>> 8) 0x3F) 0x80);
  d9 = u8 seqnum;
  d10 = n0;
  d11 = n1;
  d12 = n2;
  d13 = n3;
  d14 = n4;
  d15 = n5;
}
