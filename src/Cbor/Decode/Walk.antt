-- ===== src/Cbor/Decode/Walk.antt =====
-- The decoder goes through what the encoder wrote, on as much fuel as the value asks for.
use mathlib.Core.List.{append_assoc}
use libstappler_common.Common.{
  ℕ, zero, suc, ◌+◌, ◌^◌, ◌≤◌, ◌<◌, ◌≡◌, ◌⊎◌, inl, inr, refl, sym, ◌∙◌, ap, arith, true, false,
  List, ◌++◌, length, length-append,
}
use libstappler_common.Common.Int.{pos, negsuc}
use libstappler_common.Cbor.Head.{MajorType, simple, char_string, byte_string, argument}
use libstappler_common.Cbor.Float.{Host}
use libstappler_common.Cbor.Float.Ieee.{IsIeee}
use libstappler_common.Cbor.Value.{Value, Items, Fields, count, size}
use libstappler_common.Cbor.Encode.{encode, encode_items, encode_fields, write_string}
use libstappler_common.Cbor.Decode.{
  ok, decode_value, decode_array, decode_map, decode_simple, goes_on, map_goes_on, next_header,
}
use libstappler_common.Cbor.Decode.Header.{
  IsSound, AllSound, FieldsSound, LastSolid, Solid, major, info, body,
}
use libstappler_common.Cbor.Decode.Body.{
  decode_text-argument, decode_positive-argument, decode_negative-argument, decode_simple-double,
}
use libstappler_common.Cbor.Decode.Fuel.{
  need, need_items, need_fields, need-positive, need_items-positive, need_fields-positive,
}
use libstappler_common.Cbor.Decode.Left.{encode-nonempty}
use libstappler_common.Cbor.Decode.Steps.{
  items_at, fields_at, Stops, announced-argument, items_at-cons, fields_at-field, AllBelow,
  AllBelow-snoc, append, append-snoc, append-end, snoc,
}

AllBelow-end : (fs : Fields) → AllBelow Fields.end fs
AllBelow-end Fields.end = tt
AllBelow-end (Fields.field k v fs) = (tt, AllBelow-end fs)

pub goes_on-zero : (m : MajorType) (i : ℕ) (r : List ℕ) → goes_on 0 m i r ≡ false
unfolding goes_on
goes_on-zero m i r = ground arith

map_goes_on-zero : (m : MajorType) (i : ℕ) (r : List ℕ) → map_goes_on 0 m i r ≡ false
unfolding map_goes_on
map_goes_on-zero m i r = ground arith

-- Behind the last element no header is due.
pub Stops-zero : (host : Host) (rest : List ℕ) → Stops host 0 rest rest
unfolding Stops items_at next_header decode_array
Stops-zero host rest = λ fuel. rw (decode_array, goes_on-zero simple 31 rest) refl

fields_at-zero :
    (host : Host) (fuel : ℕ) (ret : Value) (rest : List ℕ)
    → fields_at host (suc fuel) 0 ret rest ≡ ok (ret, rest)
unfolding fields_at next_header decode_map
fields_at-zero host fuel ret rest = rw (decode_map, map_goes_on-zero simple 31 rest) refl

pub add-zero : (n : ℕ) → n ≡ n + 0
add-zero n = omega arith

zero-add : (n : ℕ) → 0 + n ≡ n
zero-add n = omega arith

pub suc-add : (a n : ℕ) → suc a + n ≡ suc (a + n)
suc-add a n = omega arith

items-rest :
    (host : Host) (vs : Items) (rest : List ℕ) (v : Value)
    → AllSound vs
    → (0 < length rest) ⊎ LastSolid (Items.cons v vs)
    → (0 < length (encode_items host vs ++ rest)) ⊎ Solid v
unfolding encode_items
items-rest host Items.nil rest v hs h = h
items-rest host (Items.cons w ws) rest v hs h = inl (
    omega (
      arith,
      length-append (encode host w ++ encode_items host ws) rest,
      length-append (encode host w) (encode_items host ws),
      encode-nonempty host w hs.0,
    ))

later :
    (rest : List ℕ) (v : Value) (vs : Items)
    → (0 < length rest) ⊎ LastSolid (Items.cons v vs)
    → (0 < length rest) ⊎ LastSolid vs
later rest v vs (inl h) = inl h
later rest v Items.nil (inr h) = inr tt
later rest v (Items.cons w ws) (inr h) = inr h

-- A value that is no collection.
abbrev IsScalar : Value → Type 0
IsScalar (Value.array vs) = ⊥
IsScalar (Value.dictionary fs) = ⊥
IsScalar v = Unit {0}

decode_value-scalar :
    (host : Host) (ieee : IsIeee host) (v : Value) (fuel : ℕ) (prev : Value) (rest : List ℕ)
    → IsSound v
    → IsScalar v
    → decode_value host (suc fuel) (major v) (info host v) prev (body host v ++ rest) ≡ ok (v, rest)
unfolding decode_value major info body
decode_value-scalar host ieee Value.empty fuel prev rest hv s = unfold decode_simple in refl
decode_value-scalar host ieee (Value.integer (pos n)) fuel prev rest hv s =
    ap ok (decode_positive-argument n rest hv)
decode_value-scalar host ieee (Value.integer (negsuc n)) fuel prev rest hv s =
    ap ok (decode_negative-argument n rest hv)
decode_value-scalar host ieee (Value.double d) fuel prev rest hv s =
    ap ok (decode_simple-double host d rest ieee hv)
decode_value-scalar host ieee (Value.boolean true) fuel prev rest hv s =
    unfold decode_simple in refl
decode_value-scalar host ieee (Value.boolean false) fuel prev rest hv s =
    unfold decode_simple in refl
decode_value-scalar host ieee (Value.charstring s) fuel prev rest hv h =
    rw (append_assoc (argument (length s)) s rest, decode_text-argument char_string s rest hv) refl
decode_value-scalar host ieee (Value.bytestring s) fuel prev rest hv h =
    rw (append_assoc (argument (length s)) s rest, decode_text-argument byte_string s rest hv) refl
decode_value-scalar host ieee (Value.array vs) fuel prev rest hv h = absurd h
decode_value-scalar host ieee (Value.dictionary fs) fuel prev rest hv h = absurd h

pub decode_value-array :
    (host : Host) (fuel : ℕ) (prev : Value) (vs ws : Items) (r : List ℕ) (rest : List ℕ)
    → count vs < 2 ^ 64
    → items_at host fuel (count vs) (encode_items host vs ++ r) ≡ ok (ws, rest)
    → decode_value host
        (suc fuel)
        (major (Value.array vs))
        (info host (Value.array vs))
        prev
        (body host (Value.array vs) ++ r)
      ≡ ok (Value.array ws, rest)
unfolding decode_value items_at major info body
decode_value-array host fuel prev vs ws r rest h e =
    rw
      (
        decode_value,
        append_assoc (argument (count vs)) (encode_items host vs) r,
        announced-argument (count vs) (encode_items host vs ++ r) h,
        e,
      )
      refl

decode_value-dictionary :
    (host : Host) (fuel : ℕ) (prev : Value) (fs : Fields) (rest : List ℕ)
    → size fs < 2 ^ 64
    → fields_at host fuel (size fs) (Value.dictionary Fields.end) (encode_fields host fs ++ rest)
      ≡ ok (Value.dictionary fs, rest)
    → decode_value host
        (suc fuel)
        (major (Value.dictionary fs))
        (info host (Value.dictionary fs))
        prev
        (body host (Value.dictionary fs) ++ rest)
      ≡ ok (Value.dictionary fs, rest)
unfolding decode_value fields_at major info body
decode_value-dictionary host fuel prev fs rest h e =
    rw
      (
        decode_value,
        append_assoc (argument (size fs)) (encode_fields host fs) rest,
        announced-argument (size fs) (encode_fields host fs ++ rest) h,
        e,
      )
      refl

mutual
  unfolding need need_items need_fields encode_items encode_fields Stops

  pub decode_value-body :
      (host : Host) (ieee : IsIeee host) (v : Value) (fuel : ℕ) (prev : Value) (rest : List ℕ)
      → IsSound v
      → need v ≤ fuel
      → decode_value host fuel (major v) (info host v) prev (body host v ++ rest) ≡ ok (v, rest)
  decode_value-body host ieee v zero prev rest hv h = absurd (omega (arith, need-positive v))
  decode_value-body host ieee (Value.array vs) (suc fuel) prev rest (fits, last, hs) h =
      decode_value-array host fuel prev vs vs rest rest fits (
        rw (add-zero (count vs)) (
          items_at-encode host ieee vs fuel 0 rest rest hs (omega arith) (inr last)
            (Stops-zero host rest)))
  decode_value-body host ieee (Value.dictionary fs) (suc fuel) prev rest (fits, hs) h =
      decode_value-dictionary host fuel prev fs rest fits
        (fields_at-encode host ieee fs Fields.end fuel rest hs (AllBelow-end fs) (omega arith))
  decode_value-body host ieee v (suc fuel) prev rest hv h =
      decode_value-scalar host ieee v fuel prev rest hv tt

  pub items_at-encode :
      (host : Host) (ieee : IsIeee host) (vs : Items) (fuel n : ℕ) (rest last : List ℕ)
      → AllSound vs
      → need_items vs ≤ fuel
      → (0 < length rest) ⊎ LastSolid vs
      → Stops host n rest last
      → items_at host fuel (count vs + n) (encode_items host vs ++ rest) ≡ ok (vs, last)
  items_at-encode host ieee vs zero n rest last hs h left stops =
      absurd (omega (arith, need_items-positive vs))
  items_at-encode host ieee Items.nil (suc fuel) n rest last hs h left stops =
      rw (zero-add n) (stops fuel)
  items_at-encode host ieee (Items.cons v vs) (suc fuel) n rest last hs h left stops =
      rw
        (
          suc-add (count vs) n,
          append_assoc (encode host v) (encode_items host vs) rest,
          items_at-cons host fuel (count vs + n) v (encode_items host vs ++ rest) hs.0
              (items-rest host vs rest v hs.1 left)
              (decode_value-body host ieee v fuel Value.empty (encode_items host vs ++ rest) hs.0
                (omega arith)),
          items_at-encode host ieee vs fuel n rest last hs.1 (omega arith) (later rest v vs left)
              stops,
        )
        refl

  fields_at-encode :
      (host : Host) (ieee : IsIeee host) (fs acc : Fields) (fuel : ℕ) (rest : List ℕ)
      → FieldsSound fs
      → AllBelow acc fs
      → need_fields fs ≤ fuel
      → fields_at host fuel (size fs) (Value.dictionary acc) (encode_fields host fs ++ rest)
        ≡ ok (Value.dictionary (append acc fs), rest)
  fields_at-encode host ieee fs acc zero rest hs below h =
      absurd (omega (arith, need_fields-positive fs))
  fields_at-encode host ieee Fields.end acc (suc fuel) rest hs below h =
      fields_at-zero host fuel (Value.dictionary acc) rest
      ∙ ap (λ t. ok (Value.dictionary t, rest)) (sym (append-end acc))
  fields_at-encode host ieee (Fields.field k v fs) acc (suc zero) rest hs below h =
      absurd (omega arith)
  fields_at-encode host ieee (Fields.field k v fs) acc (suc (suc fuel)) rest
        (ne, fits, hv, above, hs) (here, below) h =
      rw
        (
          append_assoc (write_string k) (encode host v ++ encode_fields host fs) rest,
          append_assoc (encode host v) (encode_fields host fs) rest,
          fields_at-field host fuel (size fs) k v acc (encode_fields host fs ++ rest) ne fits hv
              here
              (λ p.
                decode_value-body host ieee v fuel p (encode_fields host fs ++ rest) hv
                  (omega arith)),
        )
        (fields_at-encode host ieee fs (snoc acc k v) (suc fuel) rest hs
            (AllBelow-snoc acc fs k v below above) (omega arith)
          ∙ ap (λ t. ok (Value.dictionary t, rest)) (append-snoc acc k v fs))
