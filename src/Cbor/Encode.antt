-- ===== src/Cbor/Encode.antt =====
-- `Encoder` of modules/data/SPDataEncodeCbor.h over the writers of SPDataCbor.h, walked by
-- `ValueTemplate::encode` of SPDataValue.h. A writer appends: what it appends is its result.
use libstappler_common.Common.{
  ℕ, zero, suc, Bool, List, [], ◌∷◌, ◌++◌, bit_or, if◌then◌else◌, length,
}
use libstappler_common.Common.Int.{ℤ, pos, negsuc}
use libstappler_common.Cbor.Head.{
  unsigned, negative, byte_string, char_string, array, map, simple, encoded, write_int,
}
use libstappler_common.Cbor.Float.{Host, write_float}
use libstappler_common.Cbor.Value.{Value, Items, Fields, count, size}

-- `_writeId`
abbrev pub write_id : List ℕ
write_id = 0xd9 ∷ 0xd9 ∷ 0xf7 ∷ []

unfoldable pub write_null : List ℕ
write_null = bit_or (encoded simple) 22 ∷ []

unfoldable pub write_bool : Bool → List ℕ
write_bool value = bit_or (encoded simple) (if value then 21 else 20) ∷ []

-- `_writeInt` of an `int64_t`: `std::abs(value + 1)` of -(n + 1) is n.
unfoldable pub write_signed : ℤ → List ℕ
write_signed (pos zero) = encoded unsigned ∷ []
write_signed (pos (suc n)) = write_int (suc n) unsigned
write_signed (negsuc n) = write_int n negative

unfoldable pub write_string : List ℕ → List ℕ
write_string str = write_int (length str) char_string ++ str

unfoldable pub write_bytes : List ℕ → List ℕ
write_bytes bytes = write_int (length bytes) byte_string ++ bytes

-- `_writeArrayStart` and `_writeMapStart`
unfoldable pub write_array_start : ℕ → List ℕ
write_array_start len = write_int len array

unfoldable pub write_map_start : ℕ → List ℕ
write_map_start len = write_int len map

unfoldable mutual
  pub encode : Host → Value → List ℕ
  encode host Value.empty = write_null
  encode host (Value.integer i) = write_signed i
  encode host (Value.double d) = write_float host d
  encode host (Value.boolean b) = write_bool b
  encode host (Value.charstring s) = write_string s
  encode host (Value.bytestring s) = write_bytes s
  encode host (Value.array vs) = write_array_start (count vs) ++ encode_items host vs
  encode host (Value.dictionary fs) = write_map_start (size fs) ++ encode_fields host fs

  pub encode_items : Host → Items → List ℕ
  encode_items host Items.nil = []
  encode_items host (Items.cons v vs) = encode host v ++ encode_items host vs

  pub encode_fields : Host → Fields → List ℕ
  encode_fields host Fields.end = []
  encode_fields host (Fields.field k v fs) =
      write_string k ++ (encode host v ++ encode_fields host fs)

-- `write`
unfoldable pub write : Host → Value → List ℕ
write host v = write_id ++ encode host v
