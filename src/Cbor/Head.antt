-- ===== src/Cbor/Head.antt =====
-- Initial bytes and unsigned arguments: `_writeInt` and `_readIntValue` of modules/data/SPDataCbor.h.
use libstappler_common.Common.{
  ℕ, ◌^◌, ◌<◌, ◌≡◌, refl, arith, List, [], ◌∷◌, ◌++◌, bit_and, bit_or, leb, ltb, ◌==◌, ◌<<<◌,
  if◌then◌else◌, u8, u16, u32,
}
use libstappler_common.Common.Tables.{all_below, table_eq}
use libstappler_common.Cbor.Reader.{network, read_unsigned, read_wide, read_wide-network}

-- `MajorType`
pub data MajorType : Type 0 where
  unsigned negative byte_string char_string array map tag simple : MajorType

-- `toInt(MajorTypeEncoded)`
unfoldable pub encoded : MajorType → ℕ
encoded unsigned = 0 <<< 5
encoded negative = 1 <<< 5
encoded byte_string = 2 <<< 5
encoded char_string = 3 <<< 5
encoded array = 4 <<< 5
encoded map = 5 <<< 5
encoded tag = 6 <<< 5
encoded simple = 7 <<< 5

-- `type`: the major type of an initial byte.
unfoldable pub major_for : ℕ → MajorType
major_for m =
    if m == 0x00
    then unsigned
    else if m == 0x20
    then negative
    else if m == 0x40
    then byte_string
    else if m == 0x60
    then char_string
    else if m == 0x80
    then array
    else if m == 0xa0
    then map
    else if m == 0xc0
    then tag
    else if m == 0xe0
    then simple
    else unsigned

unfoldable pub type_of : ℕ → MajorType
type_of v = major_for (bit_and v 0b11100000)

-- `data`: the additional information.
unfoldable pub data_of : ℕ → ℕ
data_of v = bit_and v 31

-- `Flags`
abbrev pub max_additional_number : ℕ
max_additional_number = 24

abbrev pub undefined_length : ℕ
undefined_length = 31

-- `_writeNumeric` of a number of `size` bytes.
unfoldable pub write_numeric : ℕ → ℕ → MajorType → ℕ → List ℕ
unfolding encoded network
write_numeric size value m flag = bit_or (encoded m) flag ∷ network size value

-- `_writeInt` of a `uint64_t` and a major type.
unfoldable pub write_int : ℕ → MajorType → List ℕ
unfolding write_numeric
write_int value m =
    if ltb value max_additional_number
    then bit_or (encoded m) (u8 value) ∷ []
    else if leb value 0xff
    then bit_or (encoded m) 24 ∷ u8 value ∷ []
    else if leb value 0xffff
    then write_numeric 2 (u16 value) m 25
    else if leb value 0xffff_ffff
    then write_numeric 4 (u32 value) m 26
    else if leb value 0xffff_ffff_ffff_ffff
    then write_numeric 8 value m 27
    else []

-- `_readIntValue`
unfoldable pub read_int_value : List ℕ → ℕ → ℕ × List ℕ
read_int_value r info =
    if ltb info max_additional_number
    then (info, r)
    else if info == 24
    then read_unsigned r
    else if info == 25
    then read_wide 2 r
    else if info == 26
    then read_wide 4 r
    else if info == 27
    then read_wide 8 r
    else (0, r)

-- The additional information and the bytes that `write_int` chooses.
unfoldable pub info_for : ℕ → ℕ
info_for value =
    if ltb value 24
    then value
    else if leb value 0xff
    then 24
    else if leb value 0xffff
    then 25
    else if leb value 0xffff_ffff
    then 26
    else 27

unfoldable pub argument : ℕ → List ℕ
argument value =
    if ltb value 24
    then []
    else if leb value 0xff
    then value ∷ []
    else if leb value 0xffff
    then network 2 value
    else if leb value 0xffff_ffff
    then network 4 value
    else network 8 value

-- An initial byte is taken apart into what it was put together from.
pub data_of-initial :
    (m : MajorType) (info : ℕ) → info < 32 → data_of (bit_or (encoded m) info) ≡ info
unfolding encoded data_of all_below
data_of-initial unsigned = table_eq 32 (λ i. bit_and (bit_or (0 <<< 5) i) 31) (λ i. i) refl
data_of-initial negative = table_eq 32 (λ i. bit_and (bit_or (1 <<< 5) i) 31) (λ i. i) refl
data_of-initial byte_string = table_eq 32 (λ i. bit_and (bit_or (2 <<< 5) i) 31) (λ i. i) refl
data_of-initial char_string = table_eq 32 (λ i. bit_and (bit_or (3 <<< 5) i) 31) (λ i. i) refl
data_of-initial array = table_eq 32 (λ i. bit_and (bit_or (4 <<< 5) i) 31) (λ i. i) refl
data_of-initial map = table_eq 32 (λ i. bit_and (bit_or (5 <<< 5) i) 31) (λ i. i) refl
data_of-initial tag = table_eq 32 (λ i. bit_and (bit_or (6 <<< 5) i) 31) (λ i. i) refl
data_of-initial simple = table_eq 32 (λ i. bit_and (bit_or (7 <<< 5) i) 31) (λ i. i) refl

high_bits :
    (m : MajorType) (info : ℕ)
    → info < 32
    → bit_and (bit_or (encoded m) info) 0b11100000 ≡ encoded m
unfolding encoded all_below
high_bits unsigned = table_eq 32 (λ i. bit_and (bit_or (0 <<< 5) i) 0xe0) (λ i. 0 <<< 5) refl
high_bits negative = table_eq 32 (λ i. bit_and (bit_or (1 <<< 5) i) 0xe0) (λ i. 1 <<< 5) refl
high_bits byte_string = table_eq 32 (λ i. bit_and (bit_or (2 <<< 5) i) 0xe0) (λ i. 2 <<< 5) refl
high_bits char_string = table_eq 32 (λ i. bit_and (bit_or (3 <<< 5) i) 0xe0) (λ i. 3 <<< 5) refl
high_bits array = table_eq 32 (λ i. bit_and (bit_or (4 <<< 5) i) 0xe0) (λ i. 4 <<< 5) refl
high_bits map = table_eq 32 (λ i. bit_and (bit_or (5 <<< 5) i) 0xe0) (λ i. 5 <<< 5) refl
high_bits tag = table_eq 32 (λ i. bit_and (bit_or (6 <<< 5) i) 0xe0) (λ i. 6 <<< 5) refl
high_bits simple = table_eq 32 (λ i. bit_and (bit_or (7 <<< 5) i) 0xe0) (λ i. 7 <<< 5) refl

major_for-encoded : (m : MajorType) → major_for (encoded m) ≡ m
unfolding major_for encoded
major_for-encoded unsigned = refl
major_for-encoded negative = refl
major_for-encoded byte_string = refl
major_for-encoded char_string = refl
major_for-encoded array = refl
major_for-encoded map = refl
major_for-encoded tag = refl
major_for-encoded simple = refl

pub type_of-initial : (m : MajorType) (info : ℕ) → info < 32 → type_of (bit_or (encoded m) info) ≡ m
unfolding type_of
type_of-initial m info h = rw (high_bits m info h) (major_for-encoded m)

pub write_int-head :
    (value : ℕ) (m : MajorType)
    → value < 2 ^ 64
    → write_int value m ≡ bit_or (encoded m) (info_for value) ∷ argument value
unfolding write_int info_for argument write_numeric
write_int-head value m h = ground arith

pub info_for-lt : (value : ℕ) → info_for value < 28
unfolding info_for
info_for-lt value = ground arith

read_unsigned-cons : (b : ℕ) (rest : List ℕ) → read_unsigned (b ∷ rest) ≡ (b, rest)
unfolding read_unsigned
read_unsigned-cons b rest = refl

-- `_readIntValue` reads back the argument of the head that `_writeInt` wrote, and leaves what follows.
pub read_int_value-argument :
    (value : ℕ) (rest : List ℕ)
    → value < 2 ^ 64
    → read_int_value (argument value ++ rest) (info_for value) ≡ (value, rest)
unfolding read_int_value info_for argument
read_int_value-argument value rest h = ground (
  arith,
  read_unsigned-cons value rest,
  read_wide-network 2 value rest,
  read_wide-network 4 value rest,
  read_wide-network 8 value rest,
)
