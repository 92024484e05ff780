-- ===== src/Cbor/Decode/Runs.antt =====
-- Runs on concrete values.
use libstappler_common.Common.{
  ℕ, ◌*◌, ◌≤◌, ◌≡◌, ◌≢◌, refl, ap, arith, true, List, [], ◌∷◌, ◌++◌, length,
}
use libstappler_common.Common.Int.{pos, negsuc}
use libstappler_common.Cbor.Head.{char_string, write_int, encoded, write_numeric}
use libstappler_common.Cbor.Reader.{network}
use libstappler_common.Cbor.Float.{
  is_nan, write_float, write_float16, write_float32, write_short, half_decode, negate,
}
use libstappler_common.Cbor.Float.Machine.{
  machine, machine-IsIeee, narrow_double, narrow_parts, widen_float, scaled_double, shifted,
}
use libstappler_common.Cbor.Value.{Value, Items, Fields}
use libstappler_common.Cbor.Encode.{
  encode, write, write_signed, write_bool, write_string, write_array_start, write_map_start,
}
use libstappler_common.Cbor.Decode.{
  ok, decode_next, read, key_compare, is_major, decode_undefined_length,
}
use libstappler_common.Cbor.Decode.Header.{IsSound, AllSound, IsDouble}
use libstappler_common.Cbor.Decode.RoundTrip.{decode_next-encode, read-write}
use libstappler_common.Cbor.Decode.Chunks.{
  chunked, joined, decode_undefined_length-chunked, decode_undefined_length-total,
}
use libstappler_common.Cbor.Decode.Ends.{snoc}

abbrev items : Items
items = Items.cons (Value.integer (pos 300)) (
    Items.cons (Value.double 0x3ff0_0000_0000_0000) (
      Items.cons (Value.integer (negsuc 4))
        (Items.cons (Value.charstring (0x68 ∷ 0x69 ∷ [])) Items.nil)))

abbrev sample : Value
sample = Value.dictionary (
    Fields.field (0x61 ∷ []) (Value.array items)
      (Fields.field (0x62 ∷ []) (Value.boolean true) Fields.end))

cons-ne : (x : ℕ) (xs : List ℕ) → (x ∷ xs) ≢ []
cons-ne x xs = λ e. absurd (omega (arith, ap length e))

one-IsDouble : IsDouble 0x3ff0_0000_0000_0000
unfolding is_nan
one-IsDouble = (omega arith, refl)

items-AllSound : AllSound items
items-AllSound = (omega arith, (one-IsDouble, (omega arith, (omega arith, tt))))

sample-IsSound : IsSound sample
unfolding key_compare
sample-IsSound = (
  omega arith,
  (
    cons-ne 0x61 [],
    omega arith,
    (omega arith, cons-ne 0x68 (0x69 ∷ []), items-AllSound),
    (refl, tt),
    (cons-ne 0x62 [], omega arith, tt, tt, tt),
  ),
)

-- The bytes of the sample: 300, the number 1 in 16 bits, -5 and a text of two letters, and a Boolean.
sample_bytes :
    write machine sample
    ≡ 0xd9 ∷ 0xd9 ∷ 0xf7 ∷ 0xa2 ∷ 0x61 ∷ 0x61 ∷ 0x84 ∷ 0x19 ∷ 0x01 ∷ 0x2c ∷ 0xf9 ∷ 0x3c ∷ 0 ∷ 0x24
      ∷ 0x62 ∷ 0x68 ∷ 0x69 ∷ 0x61 ∷ 0x62 ∷ 0xf5 ∷ []
unfolding write encode write_signed write_float write_bool write_string write_array_start
    write_map_start write_int write_numeric network encoded is_nan write_short write_float16
    narrow_double narrow_parts widen_float
sample_bytes = refl

-- Halves, the least of which is 2 to the power -24, floats and a double.
widths :
    (write_float machine 0x3ff0_0000_0000_0000 ≡ 0xf9 ∷ 0x3c ∷ 0 ∷ [])
    × (write_float machine 0xc000_0000_0000_0000 ≡ 0xf9 ∷ 0xc0 ∷ 0 ∷ [])
    × (write_float machine 0x3e70_0000_0000_0000 ≡ 0xf9 ∷ 0 ∷ 1 ∷ [])
    × (write_float machine 0x40f0_0000_0000_0000 ≡ 0xfa ∷ 0x47 ∷ 0x80 ∷ 0 ∷ 0 ∷ [])
    × (half_decode machine 0x3c00 ≡ 0x3f80_0000)
    × (half_decode machine 0x8001 ≡ 0xb380_0000)
unfolding write_float write_short write_float16 write_float32 write_numeric network encoded is_nan
    narrow_double narrow_parts widen_float scaled_double shifted half_decode negate
widths = (refl, refl, refl, refl, refl, refl)

sample_fuel : 5 * length (write machine sample) ≤ 1000
sample_fuel = rw sample_bytes (omega arith)

encode_fuel : 5 * length (encode machine sample) ≤ 1000
unfolding write
encode_fuel = omega (arith, sample_fuel)

decode_next-encode_example :
    decode_next machine 1000 Value.empty (encode machine sample ++ (0x01 ∷ []))
    ≡ ok (sample, 0x01 ∷ [])
decode_next-encode_example =
    decode_next-encode machine machine-IsIeee sample 1000 Value.empty (0x01 ∷ []) sample-IsSound
      encode_fuel

read-write_example : read machine 1000 (write machine sample) ≡ ok (sample, [])
read-write_example = read-write machine machine-IsIeee sample 1000 sample-IsSound sample_fuel

abbrev pair : Items
pair = Items.cons (Value.boolean true) Items.nil

pair_fuel : 5 * length (write machine (Value.array (snoc pair (Value.charstring [])))) ≤ 100
unfolding write encode write_bool write_string write_array_start write_int encoded
pair_fuel = omega arith

abbrev chunks : List (List ℕ)
chunks = (0x68 ∷ 0x69 ∷ []) ∷ [] ∷ (0x21 ∷ []) ∷ []

decode_undefined_length-chunked_example :
    decode_undefined_length char_string (chunked char_string chunks ++ (0x01 ∷ []))
    ≡ ok (joined chunks, 0x01 ∷ [])
decode_undefined_length-chunked_example =
    decode_undefined_length-chunked char_string chunks (0x01 ∷ [])
      (omega arith, (omega arith, (omega arith, tt)))

decode_undefined_length-total_example :
    (out : List ℕ × List ℕ) × (decode_undefined_length char_string (0x62 ∷ 0x68 ∷ []) ≡ ok out)
decode_undefined_length-total_example =
    decode_undefined_length-total char_string (0x62 ∷ 0x68 ∷ []) (unfold is_major encoded in refl)
