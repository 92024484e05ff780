-- ===== src/Cbor/Float/Form.antt =====
-- The width that `_writeFloat` of modules/data/SPDataCbor.h chooses for a number.
use libstappler_common.Common.{
  ℕ, ◌+◌, ◌-◌, ◌≡◌, arith, false, ◌&&◌, List, ◌∷◌, bit_and, bit_or, leb, ltb, ◌==◌, ◌<◌, ◌++◌,
  length, length-append, ◌<<<◌, ◌>>>◌, if◌then◌else◌, u16,
}
use libstappler_common.Cbor.Reader.{network, length-network}
use libstappler_common.Cbor.Head.{simple, encoded, write_numeric}
use libstappler_common.Cbor.Float.{
  Host, infinity, negative_infinity, is_nan, write_float16, write_float32, write_float64,
  write_short, write_float,
}

-- The number in 16, 32 or 64 bits.
pub data Form : Type 0 where
  short_float single_float double_float : ℕ → Form

-- For the sign, the exponent and the mantissa of a float.
unfoldable pub parts_form : ℕ → ℕ → ℕ → ℕ → Form
parts_form s16 exp mant u =
    if exp == 0 && mant == 0
    then short_float s16
    else if leb 113 exp && leb exp 142
    then short_float (s16 + (((exp - 112) <<< 10) + (mant >>> 13)))
    else if leb 103 exp && ltb exp 113
    then (if bit_and mant ((1 <<< (126 - exp)) - 1) == 0
        then short_float (s16 + ((mant + 0x800000) >>> (126 - exp)))
        else single_float u)
    else if exp == 255 && mant == 0
    then short_float (s16 + 0x7c00)
    else single_float u

unfoldable pub short_form : ℕ → Form
short_form u =
    parts_form (bit_and (u >>> 16) 0x8000) (bit_and (u >>> 23) 0xff) (bit_and u 0x7fffff) u

unfoldable pub form : Host → ℕ → Form
form host d =
    if d == infinity
    then short_float (31 <<< 10)
    else if d == negative_infinity
    then short_float (63 <<< 10)
    else if host.widen (host.narrow d) == d
    then (if bit_and (host.narrow d) 0x1fff == 0
        then short_form (host.narrow d)
        else single_float (host.narrow d))
    else double_float d

-- The additional information and the bytes behind the head.
unfoldable pub form_info : Form → ℕ
form_info (short_float h) = 25
form_info (single_float f) = 26
form_info (double_float d) = 27

unfoldable pub form_body : Form → List ℕ
form_body (short_float h) = network 2 (u16 h)
form_body (single_float f) = network 4 f
form_body (double_float d) = network 8 d

abbrev pub written : Form → List ℕ
written x = bit_or (encoded simple) (form_info x) ∷ form_body x

write_short-written : (u : ℕ) → write_short u ≡ written (short_form u)
unfolding write_short short_form parts_form write_float16 write_float32 write_numeric form_info
    form_body
write_short-written u = ground arith

-- A number that is not NaN is written in its form.
pub write_float-written :
    (host : Host) (d : ℕ) → is_nan d ≡ false → write_float host d ≡ written (form host d)
unfolding write_float form write_float32 write_float64 write_numeric form_info form_body
write_float-written host d e = ground (arith, e, write_short-written (host.narrow d))

pub form_info-lt : (x : Form) → form_info x < 28
unfolding form_info
form_info-lt (short_float h) = omega arith
form_info-lt (single_float f) = omega arith
form_info-lt (double_float d) = omega arith

pub form_body-left : (x : Form) (r : List ℕ) → 0 < length (form_body x ++ r)
unfolding form_body
form_body-left (short_float h) r =
    omega (arith, length-append (network 2 (u16 h)) r, length-network 2 (u16 h))
form_body-left (single_float f) r = omega (arith, length-append (network 4 f) r, length-network 4 f)
form_body-left (double_float d) r = omega (arith, length-append (network 8 d) r, length-network 8 d)
