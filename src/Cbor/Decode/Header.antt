-- ===== src/Cbor/Decode/Header.antt =====
-- The initial byte of an encoded value, and the bytes behind it.
use libstappler_common.Common.{
  ℕ, zero, suc, ◌<◌, ◌^◌, ◌≡◌, ◌≢◌, refl, arith, false, List, [], ◌∷◌, ◌++◌, bit_or, if◌then◌else◌,
  length,
}
use libstappler_common.Common.Int.{pos, negsuc}
use libstappler_common.Cbor.Head.{
  MajorType, unsigned, negative, byte_string, char_string, array, map, simple, encoded, info_for,
  argument, write_int, write_int-head, info_for-lt, type_of-initial, data_of-initial,
}
use libstappler_common.Cbor.Float.{Host, is_nan}
use libstappler_common.Cbor.Float.Form.{
  form, form_info, form_body, form_info-lt, write_float-written,
}
use libstappler_common.Cbor.Value.{Value, Items, Fields, count, size}
use libstappler_common.Cbor.Encode.{
  write_null, write_bool, write_signed, write_string, write_bytes, write_array_start,
  write_map_start, encode, encode_items, encode_fields,
}
use libstappler_common.Cbor.Decode.{key_compare, read_header}
use Prim.Native.Nat.{Ordering}

-- A number: NaN is written without its payload and its sign.
abbrev pub IsDouble : ℕ → Type 0
IsDouble d = (d < 2 ^ 64) × (is_nan d ≡ false)

-- Every key of the dictionary is behind `k`.
abbrev pub Above : List ℕ → Fields → Type 0
Above k Fields.end = Unit {0}
Above k (Fields.field j v fs) = (key_compare k j ≡ Ordering.lt) × Above k fs

-- A value whose encoding is more than a head that announces nothing.
abbrev pub Solid : Value → Type 0
Solid (Value.charstring s) = s ≢ []
Solid (Value.bytestring s) = s ≢ []
Solid (Value.array vs) = 0 < count vs
Solid (Value.dictionary fs) = 0 < size fs
Solid v = Unit {0}

-- The last element, if there is one, is of that kind.
abbrev pub LastSolid : Items → Type 0
LastSolid Items.nil = Unit {0}
LastSolid (Items.cons v Items.nil) = Solid v
LastSolid (Items.cons v (Items.cons w vs)) = LastSolid (Items.cons w vs)

-- The values that can be written and read back: integers of 64 bits, doubles that are not NaN, lengths that a head can announce,
-- arrays that end in no empty text or collection, keys that are not empty and in the dictionary's order.
abbrev mutual
  pub IsSound : Value → Type 0
  IsSound Value.empty = Unit {0}
  IsSound (Value.integer (pos n)) = n < 2 ^ 63
  IsSound (Value.integer (negsuc n)) = n < 2 ^ 63
  IsSound (Value.double d) = IsDouble d
  IsSound (Value.boolean b) = Unit {0}
  IsSound (Value.charstring s) = length s < 2 ^ 64
  IsSound (Value.bytestring s) = length s < 2 ^ 64
  IsSound (Value.array vs) = (count vs < 2 ^ 64) × LastSolid vs × AllSound vs
  IsSound (Value.dictionary fs) = (size fs < 2 ^ 64) × FieldsSound fs

  pub AllSound : Items → Type 0
  AllSound Items.nil = Unit {0}
  AllSound (Items.cons v vs) = IsSound v × AllSound vs

  pub FieldsSound : Fields → Type 0
  FieldsSound Fields.end = Unit {0}
  FieldsSound (Fields.field k v fs) =
      (k ≢ []) × (length k < 2 ^ 64) × IsSound v × Above k fs × FieldsSound fs

-- The parts of an encoded value.
unfoldable pub major : Value → MajorType
major Value.empty = simple
major (Value.integer (pos n)) = unsigned
major (Value.integer (negsuc n)) = negative
major (Value.double d) = simple
major (Value.boolean b) = simple
major (Value.charstring s) = char_string
major (Value.bytestring s) = byte_string
major (Value.array vs) = array
major (Value.dictionary fs) = map

unfoldable pub info : Host → Value → ℕ
info host Value.empty = 22
info host (Value.integer (pos n)) = info_for n
info host (Value.integer (negsuc n)) = info_for n
info host (Value.double d) = form_info (form host d)
info host (Value.boolean b) = if b then 21 else 20
info host (Value.charstring s) = info_for (length s)
info host (Value.bytestring s) = info_for (length s)
info host (Value.array vs) = info_for (count vs)
info host (Value.dictionary fs) = info_for (size fs)

unfoldable pub body : Host → Value → List ℕ
body host Value.empty = []
body host (Value.integer (pos n)) = argument n
body host (Value.integer (negsuc n)) = argument n
body host (Value.double d) = form_body (form host d)
body host (Value.boolean b) = []
body host (Value.charstring s) = argument (length s) ++ s
body host (Value.bytestring s) = argument (length s) ++ s
body host (Value.array vs) = argument (count vs) ++ encode_items host vs
body host (Value.dictionary fs) = argument (size fs) ++ encode_fields host fs

pub info-lt : (host : Host) (v : Value) → info host v < 28
unfolding info
info-lt host Value.empty = omega arith
info-lt host (Value.integer (pos n)) = info_for-lt n
info-lt host (Value.integer (negsuc n)) = info_for-lt n
info-lt host (Value.double d) = form_info-lt (form host d)
info-lt host (Value.boolean b) = ground arith
info-lt host (Value.charstring s) = info_for-lt (length s)
info-lt host (Value.bytestring s) = info_for-lt (length s)
info-lt host (Value.array vs) = info_for-lt (count vs)
info-lt host (Value.dictionary fs) = info_for-lt (size fs)

abbrev initial : Host → Value → ℕ
initial host v = bit_or (encoded (major v)) (info host v)

write_signed-pos :
    (n : ℕ)
    → n < 2 ^ 64
    → write_signed (pos n) ≡ bit_or (encoded unsigned) (info_for n) ∷ argument n
unfolding write_signed
write_signed-pos zero h = unfold encoded info_for argument in refl
write_signed-pos (suc n) h = write_int-head (suc n) unsigned h

-- With the text behind the head.
head_then :
    (n : ℕ) (m : MajorType) (s : List ℕ)
    → n < 2 ^ 64
    → write_int n m ++ s ≡ bit_or (encoded m) (info_for n) ∷ (argument n ++ s)
head_then n m s h = rw (write_int-head n m h)

pub encode-head :
    (host : Host) (v : Value)
    → IsSound v
    → encode host v ≡ bit_or (encoded (major v)) (info host v) ∷ body host v
unfolding encode major info body write_bool write_null write_string write_bytes write_array_start
    write_map_start
encode-head host Value.empty h = refl
encode-head host (Value.integer (pos n)) h = write_signed-pos n (omega arith)
encode-head host (Value.integer (negsuc n)) h =
    unfold write_signed in write_int-head n negative (omega arith)
encode-head host (Value.double d) h = write_float-written host d h.1
encode-head host (Value.boolean b) h = refl
encode-head host (Value.charstring s) h = head_then (length s) char_string s h
encode-head host (Value.bytestring s) h = head_then (length s) byte_string s h
encode-head host (Value.array vs) h = head_then (count vs) array (encode_items host vs) h.0
encode-head host (Value.dictionary fs) h = head_then (size fs) map (encode_fields host fs) h.0

pub read_header-initial :
    (m : MajorType) (i : ℕ) (rest : List ℕ)
    → i < 32
    → read_header (bit_or (encoded m) i ∷ rest) ≡ (m, i, rest)
unfolding read_header
read_header-initial m i rest h = rw (type_of-initial m i h, data_of-initial m i h)

-- The header that the decoder reads of an encoded value.
pub read_header-encode :
    (host : Host) (v : Value) (rest : List ℕ)
    → IsSound v
    → read_header (encode host v ++ rest) ≡ (major v, info host v, body host v ++ rest)
read_header-encode host v rest h = rw (encode-head host v h) (
    read_header-initial (major v) (info host v) (body host v ++ rest)
      (omega (arith, info-lt host v)))
