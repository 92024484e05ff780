-- ===== src/Cbor/Decode/RoundTrip.antt =====
-- `Decoder::read` on what `Encoder` wrote.
use mathlib.Core.List.{append-nil}
use libstappler_common.Common.{
  ℕ, zero, suc, ◌+◌, ◌*◌, ◌^◌, ◌≤◌, ◌<◌, ◌≡◌, refl, sym, ◌∙◌, ap, arith, true, List, [], ◌∷◌, ◌++◌,
  length, length-append,
}
use libstappler_common.Cbor.Head.{
  MajorType, info_for, info_for-lt, argument, type_of-initial, data_of-initial, read_int_value,
  write_int, write_int-head, read_int_value-argument,
}
use libstappler_common.Cbor.Float.{Host}
use libstappler_common.Cbor.Float.Ieee.{IsIeee}
use libstappler_common.Cbor.Value.{Value, Items, Fields, count, size}
use libstappler_common.Cbor.Encode.{encode, encode_items, encode_fields, write_string, write}
use libstappler_common.Cbor.Decode.{Res, ok, stuck, fault, decode_next, has_id, read, read_header}
use libstappler_common.Cbor.Decode.Header.{
  IsSound, AllSound, FieldsSound, major, info, body, info-lt, encode-head, read_header-initial,
}
use libstappler_common.Cbor.Decode.Left.{encode-nonempty}
use libstappler_common.Cbor.Decode.Fuel.{need, need_items, need_fields}
use libstappler_common.Cbor.Decode.Walk.{decode_value-body}

-- An initial byte and the number behind it.
abbrev pub numbered : List ℕ → MajorType × ℕ × List ℕ
numbered bytes = let (m, i, r) = read_header bytes in let (n, r1) = read_int_value r i in (m, n, r1)

-- `_writeInt` and then the decoder's reading of an initial byte and its argument: the major type, the
-- number and the bytes behind come back, for a number of 64 bits.
pub read-write_int :
    (value : ℕ) (m : MajorType) (rest : List ℕ)
    → value < 2 ^ 64
    → numbered (write_int value m ++ rest) ≡ (m, value, rest)
read-write_int value m rest h =
    rw
      (
        write_int-head value m h,
        read_header-initial m (info_for value) (argument value ++ rest)
            (omega (arith, info_for-lt value)),
        read_int_value-argument value rest h,
      )
      refl

length-encode :
    (host : Host) (v : Value) → IsSound v → length (encode host v) ≡ suc (length (body host v))
length-encode host v hv = rw (encode-head host v hv) refl

mutual
  unfolding need need_items need_fields encode_items encode_fields body

  need-bound : (host : Host) (v : Value) → IsSound v → need v + 3 ≤ 5 * length (encode host v)
  need-bound host (Value.array vs) (fits, last, hs) = omega (
    arith,
    length-encode host (Value.array vs) (fits, last, hs),
    length-append (argument (count vs)) (encode_items host vs),
    need_items-bound host vs hs,
  )
  need-bound host (Value.dictionary fs) (fits, hs) = omega (
    arith,
    length-encode host (Value.dictionary fs) (fits, hs),
    length-append (argument (size fs)) (encode_fields host fs),
    need_fields-bound host fs hs,
  )
  need-bound host v hv = omega (arith, encode-nonempty host v hv)

  pub need_items-bound :
      (host : Host) (vs : Items)
      → AllSound vs
      → need_items vs ≤ 1 + 5 * length (encode_items host vs)
  need_items-bound host Items.nil hs = omega arith
  need_items-bound host (Items.cons v vs) (hv, hs) = omega (
    arith,
    length-append (encode host v) (encode_items host vs),
    need-bound host v hv,
    need_items-bound host vs hs,
  )

  need_fields-bound :
      (host : Host) (fs : Fields)
      → FieldsSound fs
      → need_fields fs ≤ 1 + 5 * length (encode_fields host fs)
  need_fields-bound host Fields.end hs = omega arith
  need_fields-bound host (Fields.field k v fs) (ne, fits, hv, above, hs) = omega (
    arith,
    length-append (write_string k) (encode host v ++ encode_fields host fs),
    length-append (encode host v) (encode_fields host fs),
    need-bound host v hv,
    need_fields-bound host fs hs,
  )

-- `decode` reads back a value that `encode` wrote, whatever stands behind it and whatever the variable held
-- before. The value is sound (`IsSound`): its integers have 64 bits and its doubles are not NaN, its lengths
-- have 64 bits, its arrays end in no empty text or collection, and the keys of its dictionaries are not empty
-- and in order. The host converts floats as IEEE 754 says (`IsIeee`), and the fuel is at least five times
-- the length of the encoding.
pub decode_next-encode :
    (host : Host) (ieee : IsIeee host) (v : Value) (fuel : ℕ) (prev : Value) (rest : List ℕ)
    → IsSound v
    → 5 * length (encode host v) ≤ fuel
    → decode_next host fuel prev (encode host v ++ rest) ≡ ok (v, rest)
unfolding decode_next
decode_next-encode host ieee v zero prev rest hv h =
    absurd (omega (arith, encode-nonempty host v hv))
decode_next-encode host ieee v (suc fuel) prev rest hv h =
    rw
      (
        encode-head host v hv,
        decode_next,
        type_of-initial (major v) (info host v) small,
        data_of-initial (major v) (info host v) small,
      )
      (decode_value-body host ieee v fuel prev rest hv (omega (arith, need-bound host v hv)))
  where
    small : info host v < 32
    small = omega (arith, info-lt host v)

marked : (r : List ℕ) → 0 < length r → has_id (0xd9 ∷ 0xd9 ∷ 0xf7 ∷ r) ≡ true
unfolding has_id
marked [] h = absurd (omega arith)
marked (b ∷ r) h = refl

-- `read` gives back a sound value (`IsSound`) that `write` wrote, and uses up the whole text. In a sound value the
-- integers have 64 bits and the doubles are not NaN, the lengths have 64 bits, the arrays end in no empty text or
-- collection, and the keys of the dictionaries are not empty and in order. The host converts floats as IEEE 754 says
-- (`IsIeee`), and the fuel is at least five times the length of the text.
pub read-write :
    (host : Host) (ieee : IsIeee host) (v : Value) (fuel : ℕ)
    → IsSound v
    → 5 * length (write host v) ≤ fuel
    → read host fuel (write host v) ≡ ok (v, [])
unfolding read write
read-write host ieee v fuel hv h = rw (marked (encode host v) (encode-nonempty host v hv)) (
    ap (decode_next host fuel Value.empty) (sym (append-nil (encode host v)))
    ∙ decode_next-encode host ieee v fuel Value.empty [] hv (omega arith))

abbrev result_or : {A : Type 0} → A → Res A → A
result_or d (ok a) = a
result_or d stuck = d
result_or d fault = d

ok-injective : {A : Type 0} (a b : A) → ok a ≡ ok b → a ≡ b
ok-injective a b e = ap (result_or a) e

-- On a host that converts floats as IEEE 754 says the encoding is unambiguous: two sound values whose encodings,
-- each with some bytes behind it, are the same text are the same value, with the same bytes behind.
pub encode-injective :
    (host : Host) (ieee : IsIeee host) (v w : Value) (r s : List ℕ)
    → IsSound v
    → IsSound w
    → encode host v ++ r ≡ encode host w ++ s
    → ◌≡◌ {A = Value × List ℕ} (v, r) (w, s)
encode-injective host ieee v w r s hv hw e =
    ok-injective (v, r) (w, s)
      (sym (decode_next-encode host ieee v fuel Value.empty r hv (omega arith))
        ∙ ap (decode_next host fuel Value.empty) e
        ∙ decode_next-encode host ieee w fuel Value.empty s hw (omega arith))
  where
    fuel : ℕ
    fuel = 5 * length (encode host v) + 5 * length (encode host w)
