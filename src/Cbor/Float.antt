-- ===== src/Cbor/Float.antt =====
-- `_writeFloat` of modules/data/SPDataCbor.h and `halffloat::decode` of common/utils/SPHalfFloat.h,
-- over bit patterns: a double is 64 bits and a float 32.
pub mod Form
pub mod Ieee
pub mod Half
pub mod Returns
pub mod Machine
use libstappler_common.Common.{
  ℕ, ◌+◌, ◌-◌, ◌%◌, ◌^◌, Bool, ◌&&◌, not, List, bit_and, leb, ltb, ◌==◌, ◌<<<◌, ◌>>>◌,
  if◌then◌else◌, u16,
}
use libstappler_common.Common.Int.{ℤ}
use libstappler_common.Cbor.Head.{simple, write_numeric}

-- What the code takes from the compiler and the C++ library.
pub record Host : Type 0 where
  -- the conversions between `double` and `float`
  pub narrow : ℕ → ℕ
  pub widen : ℕ → ℕ
  -- `scaled m e` is `std::ldexp(m, e - 25)`, a double
  pub scaled : ℕ → ℕ → ℕ
  -- `stappler::nan()` as a double
  pub quiet_nan : ℕ
  -- the decimal text of an integer
  pub print_int : ℤ → List ℕ

abbrev pub infinity : ℕ
infinity = 0x7ff0_0000_0000_0000

abbrev pub negative_infinity : ℕ
negative_infinity = 0xfff0_0000_0000_0000

-- `isnan`
unfoldable pub is_nan : ℕ → Bool
is_nan v = bit_and (v >>> 52) 0x7ff == 0x7ff && not (v % 2 ^ 52 == 0)

unfoldable pub write_float16 : ℕ → List ℕ
write_float16 value = write_numeric 2 (u16 value) simple 25

unfoldable pub write_float32 : ℕ → List ℕ
write_float32 value = write_numeric 4 value simple 26

unfoldable pub write_float64 : ℕ → List ℕ
write_float64 value = write_numeric 8 value simple 27

-- The branch of `_writeFloat` for a float whose low 13 bits are clear.
unfoldable pub write_short : ℕ → List ℕ
write_short u =
    let s16 = bit_and (u >>> 16) 0x8000 in
    let exp = bit_and (u >>> 23) 0xff in
    let mant = bit_and u 0x7fffff in
    if exp == 0 && mant == 0
    then write_float16 s16
    else if leb 113 exp && leb exp 142
    then write_float16 (s16 + (((exp - 112) <<< 10) + (mant >>> 13)))
    else if leb 103 exp && ltb exp 113
    then (if bit_and mant ((1 <<< (126 - exp)) - 1) == 0
        then write_float16 (s16 + ((mant + 0x800000) >>> (126 - exp)))
        else write_float32 u)
    else if exp == 255 && mant == 0
    then write_float16 (s16 + 0x7c00)
    else write_float32 u

-- `fvalue == value`: for numbers that are not NaN, a conversion and its source are equal exactly when
-- the patterns are, since a zero keeps its sign.
unfoldable pub write_float : Host → ℕ → List ℕ
write_float host value =
    let fvalue = host.narrow value in
    if is_nan value
    then write_numeric 2 0x7e00 simple 25
    else if value == infinity
    then write_numeric 2 (31 <<< 10) simple 25
    else if value == negative_infinity
    then write_numeric 2 (63 <<< 10) simple 25
    else if host.widen fvalue == value
    then (if bit_and fvalue 0x1fff == 0 then write_short fvalue else write_float32 fvalue)
    else write_float64 value

-- `-val`
unfoldable pub negate : ℕ → ℕ
negate v = (v + 2 ^ 63) % 2 ^ 64

-- `halffloat::decode`; the result is a float, and `(double)` of it is what a value holds.
unfoldable pub half_decode : Host → ℕ → ℕ
half_decode host half =
    let exp = bit_and (half >>> 10) 0x1f in
    let mant = bit_and half 0x3ff in
    let val =
      if exp == 0
      then host.scaled mant 1
      else if not (exp == 31)
      then host.scaled (mant + 1024) exp
      else if mant == 0
      then infinity
      else host.quiet_nan in
    host.narrow (if bit_and half 0x8000 == 0 then val else negate val)
