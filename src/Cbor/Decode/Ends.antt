-- ===== src/Cbor/Decode/Ends.antt =====
-- What the decoder does at the end of its input, and on lengths that the input does not back.
use mathlib.Core.Path.{subst}
use mathlib.Core.List.{append_assoc, append-nil}
use libstappler_common.Common.{
  ℕ, zero, suc, ◌+◌, ◌*◌, ◌^◌, ◌≤◌, ◌<◌, ◌≡◌, inl, refl, sym, ◌∙◌, ap, arith, true, false, List, [],
  ◌∷◌, ◌++◌, leb, length, length-append, bit_or,
}
use libstappler_common.Common.Int.{pos}
use libstappler_common.Cbor.Head.{
  MajorType, type_of, data_of, major_for, array, encoded, info_for, info_for-lt, argument,
  type_of-initial, data_of-initial, read_int_value, read_int_value-argument, write_int,
  write_int-head,
}
use libstappler_common.Cbor.Float.{Host}
use libstappler_common.Cbor.Float.Ieee.{IsIeee}
use libstappler_common.Cbor.Value.{Value, Items, count}
use libstappler_common.Cbor.Encode.{encode, encode_items, write, write_string, write_array_start}
use libstappler_common.Cbor.Decode.{
  ok, fault, ◌>>=◌, decode_next, decode_value, decode_array, next_header, goes_on, has_id,
  read_header, decode_positive, text_key, read,
}
use libstappler_common.Cbor.Decode.Header.{AllSound}
use libstappler_common.Cbor.Decode.Body.{info_for-not_31}
use libstappler_common.Cbor.Decode.Steps.{items_at, Stops, announced-argument, positive, array_step}
use libstappler_common.Cbor.Decode.RoundTrip.{need_items-bound}
use libstappler_common.Cbor.Decode.Fuel.{need_items}
use libstappler_common.Cbor.Decode.Walk.{items_at-encode, Stops-zero}

-- A key whose head announces more bytes than are left is read out of the view's bounds.
pub text_key-overrun :
    (m : MajorType) (n : ℕ) (rest : List ℕ)
    → n < 2 ^ 64
    → length rest < n
    → text_key m (info_for n) (argument n ++ rest) ≡ fault
unfolding text_key
text_key-overrun m n rest h short =
    rw (read_int_value-argument n rest h, info_for-not_31 n, long) refl
  where
    long : leb n (length rest) ≡ false
    long = ground arith

abbrev pub zeros : ℕ → Items
zeros zero = Items.nil
zeros (suc n) = Items.cons (Value.integer (pos zero)) (zeros n)

goes_on-nothing : (n : ℕ) → goes_on (suc n) MajorType.unsigned 0 [] ≡ true
unfolding goes_on
goes_on-nothing n = ground (arith, positive n)

nothing_due : (n : ℕ) → next_header (suc n) [] ≡ (MajorType.unsigned, 0, [])
unfolding next_header read_header type_of data_of major_for
nothing_due n = rw (positive n) refl

nothing_read :
    (host : Host) (fuel : ℕ)
    → decode_value host (suc fuel) MajorType.unsigned 0 Value.empty []
      ≡ ok (Value.integer (pos zero), [])
unfolding decode_value decode_positive read_int_value
nothing_read host fuel = refl

items_at-nothing :
    (host : Host) (n fuel : ℕ) → n < suc fuel → items_at host (suc fuel) n [] ≡ ok (zeros n, [])
unfolding items_at
items_at-nothing host zero fuel h = unfold Stops in Stops-zero host [] fuel
items_at-nothing host (suc n) zero h = absurd (omega arith)
items_at-nothing host (suc n) (suc fuel) h =
    rw (items_at, nothing_due n)
      (array_step host (suc fuel) n 0 MajorType.unsigned (Value.integer (pos zero)) [] []
          (goes_on-nothing n) (nothing_read host fuel)
        ∙ ap (λ t. t >>= λ (vs, r3). ok (Items.cons (Value.integer (pos zero)) vs, r3))
            (items_at-nothing host n fuel (omega arith)))

decode_array-head :
    (host : Host) (fuel n : ℕ) (prev : Value) (r rest : List ℕ) (vs : Items)
    → n < 2 ^ 64
    → items_at host fuel n r ≡ ok (vs, rest)
    → decode_value host (suc fuel) array (info_for n) prev (argument n ++ r)
      ≡ ok (Value.array vs, rest)
unfolding decode_value items_at
decode_array-head host fuel n prev r rest vs h e =
    rw (decode_value, announced-argument n r h, e) refl

-- An array of `n` elements, n below 2 ^ 64, whose head is the end of the input is decoded as `n` zeros, on
-- fuel above n + 1.
pub decode_array-nothing :
    (host : Host) (n fuel : ℕ) (prev : Value)
    → n < 2 ^ 64
    → n + 1 < fuel
    → decode_value host fuel array (info_for n) prev (argument n) ≡ ok (Value.array (zeros n), [])
decode_array-nothing host n zero prev h enough = absurd (omega arith)
decode_array-nothing host n (suc zero) prev h enough = absurd (omega arith)
decode_array-nothing host n (suc (suc fuel)) prev h enough =
    subst
      (λ t.
        decode_value host (suc (suc fuel)) array (info_for n) prev t
        ≡ ok (Value.array (zeros n), []))
      (append-nil (argument n))
      (decode_array-head host (suc fuel) n prev [] [] (zeros n) h
        (items_at-nothing host n fuel (omega arith)))

abbrev pub snoc : Items → Value → Items
snoc Items.nil v = Items.cons v Items.nil
snoc (Items.cons w ws) v = Items.cons w (snoc ws v)

count-snoc : (vs : Items) (v : Value) → count (snoc vs v) ≡ count vs + 1
count-snoc Items.nil v = omega arith
count-snoc (Items.cons w ws) v = omega (arith, count-snoc ws v)

encode_items-snoc :
    (host : Host) (vs : Items) (v : Value)
    → encode_items host (snoc vs v) ≡ encode_items host vs ++ encode host v
unfolding encode_items
encode_items-snoc host Items.nil v = append-nil (encode host v)
encode_items-snoc host (Items.cons w ws) v =
    ap (λ t. encode host w ++ t) (encode_items-snoc host ws v)
    ∙ sym (append_assoc (encode host w) (encode_items host ws) (encode host v))

-- An empty text is due, and nothing stands behind its header: the loop stops.
encode-empty : (host : Host) → encode host (Value.charstring []) ≡ 0x60 ∷ []
unfolding encode write_string write_int encoded
encode-empty host = refl

Stops-empty : (host : Host) → Stops host 1 (0x60 ∷ []) []
unfolding Stops items_at next_header read_header type_of data_of major_for goes_on decode_array
Stops-empty host = λ fuel. refl

write-last :
    (host : Host) (vs : Items)
    → count vs + 1 < 2 ^ 64
    → write host (Value.array (snoc vs (Value.charstring [])))
      ≡ 0xd9
        ∷ 0xd9
        ∷ 0xf7
        ∷ bit_or (encoded array) (info_for (count vs + 1))
        ∷ (argument (count vs + 1) ++ (encode_items host vs ++ 0x60 ∷ []))
unfolding write encode write_array_start
write-last host vs fits =
    rw
      (
        count-snoc vs (Value.charstring []),
        encode_items-snoc host vs (Value.charstring []),
        write_int-head (count vs + 1) array fits,
        encode-empty host,
      )
      refl

read-byte :
    (host : Host) (fuel b : ℕ) (r : List ℕ)
    → read host (suc fuel) (0xd9 ∷ 0xd9 ∷ 0xf7 ∷ b ∷ r)
      ≡ decode_value host fuel (type_of b) (data_of b) Value.empty r
unfolding read has_id decode_next
read-byte host fuel b r = refl

length-last :
    (n : ℕ) (bytes : List ℕ)
    → length bytes + 5
      ≤ length (
          0xd9
          ∷ 0xd9
          ∷ 0xf7
          ∷ bit_or (encoded array) (info_for n)
          ∷ (argument n ++ (bytes ++ 0x60 ∷ [])))
length-last n bytes =
    omega (arith, length-append (argument n) (bytes ++ 0x60 ∷ []), length-append bytes (0x60 ∷ []))

read-last :
    (host : Host) (ieee : IsIeee host) (vs : Items) (fuel : ℕ)
    → AllSound vs
    → count vs + 1 < 2 ^ 64
    → need_items vs + 2 ≤ fuel
    → read host fuel (
        0xd9
        ∷ 0xd9
        ∷ 0xf7
        ∷ bit_or (encoded array) (info_for (count vs + 1))
        ∷ (argument (count vs + 1) ++ (encode_items host vs ++ 0x60 ∷ [])))
      ≡ ok (Value.array vs, [])
read-last host ieee vs zero hs fits enough = absurd (omega arith)
read-last host ieee vs (suc zero) hs fits enough = absurd (omega arith)
read-last host ieee vs (suc (suc fuel)) hs fits enough =
    read-byte host (suc fuel) (bit_or (encoded array) (info_for (count vs + 1)))
      (argument (count vs + 1) ++ (encode_items host vs ++ 0x60 ∷ []))
    ∙ rw
        (
          type_of-initial array (info_for (count vs + 1)) small,
          data_of-initial array (info_for (count vs + 1)) small,
        )
        (decode_array-head host fuel (count vs + 1) Value.empty (encode_items host vs ++ 0x60 ∷ [])
          [] vs fits
          (items_at-encode host ieee vs fuel 1 (0x60 ∷ []) [] hs (omega arith) (inl (omega arith))
            (Stops-empty host)))
  where
    small : info_for (count vs + 1) < 32
    small = omega (arith, info_for-lt (count vs + 1))

-- `read` gives an array that ends in an empty text back without that text, when `write` wrote it and
-- nothing follows. The host is as `IsIeee` says, the other elements are sound, the array has fewer than 2 ^ 64 elements, and the fuel is
-- at least five times the length of the text.
pub read-drops_last :
    (host : Host) (ieee : IsIeee host) (vs : Items) (fuel : ℕ)
    → AllSound vs
    → count vs + 1 < 2 ^ 64
    → 5 * length (write host (Value.array (snoc vs (Value.charstring [])))) ≤ fuel
    → read host fuel (write host (Value.array (snoc vs (Value.charstring []))))
      ≡ ok (Value.array vs, [])
read-drops_last host ieee vs fuel hs fits enough = rw (write-last host vs fits) (
    read-last host ieee vs fuel hs fits (
      omega (
        arith,
        ap length (write-last host vs fits),
        length-last (count vs + 1) (encode_items host vs),
        need_items-bound host vs hs,
      )))
