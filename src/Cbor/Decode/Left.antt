-- ===== src/Cbor/Decode/Left.antt =====
-- Something is left to read behind the header of a value, where the loops ask for it.
use libstappler_common.Common.{
  ℕ, suc, ◌<◌, ◌≡◌, ◌≢◌, ◌⊎◌, inl, inr, refl, ap, arith, Bool, true, false, ◌&&◌, ◌||◌, List, [],
  ◌∷◌, ◌++◌, ltb, length, Bool-cases, length-append,
}
use libstappler_common.Common.Int.{pos, negsuc}
use libstappler_common.Cbor.Reader.{length-network}
use libstappler_common.Cbor.Head.{unsigned, negative, simple, encoded, info_for, argument}
use libstappler_common.Cbor.Float.{Host}
use libstappler_common.Cbor.Float.Form.{form, form_body-left}
use libstappler_common.Cbor.Value.{Value, Items, Fields, count, size}
use libstappler_common.Cbor.Encode.{encode, encode_items, encode_fields, write_string}
use libstappler_common.Cbor.Decode.{is_major, is_break, goes_on}
use libstappler_common.Cbor.Decode.Header.{
  IsSound, AllSound, Solid, major, info, body, info-lt, encode-head,
}

pub not_break : (host : Host) (v : Value) → is_break (major v) (info host v) ≡ false
unfolding is_break
not_break host v = ground (arith, info-lt host v)

abbrev is_small : Host → Value → Bool
is_small host v =
    (is_major (major v) unsigned || is_major (major v) negative || is_major (major v) simple)
    && ltb (info host v) 24

pub encode-nonempty : (host : Host) (v : Value) → IsSound v → 0 < length (encode host v)
encode-nonempty host v h = rw (encode-head host v h) (omega arith)

pub text-left :
    (n : ℕ) (s r : List ℕ) → (0 < length r) ⊎ (s ≢ []) → 0 < length ((argument n ++ s) ++ r)
text-left n s r (inl h) = omega (arith, length-append (argument n ++ s) r)
text-left n [] r (inr ne) = absurd (ne refl)
text-left n (c ∷ s) r (inr ne) =
    omega (arith, length-append (argument n ++ (c ∷ s)) r, length-append (argument n) (c ∷ s))

ne_nil : (s : List ℕ) → 0 < length s → s ≢ []
ne_nil [] h = absurd (omega arith)
ne_nil (c ∷ s) h = λ e. absurd (omega (arith, ap length e))

items-left : (host : Host) (vs : Items) → 0 < count vs → AllSound vs → encode_items host vs ≢ []
unfolding encode_items
items-left host Items.nil h hs = absurd (omega arith)
items-left host (Items.cons v vs) h hs = ne_nil (encode host v ++ encode_items host vs) (
    omega
      (arith, length-append (encode host v) (encode_items host vs), encode-nonempty host v hs.0))

fields-left :
    (host : Host) (k : List ℕ) (v : Value) (fs : Fields)
    → IsSound v
    → encode_fields host (Fields.field k v fs) ≢ []
unfolding encode_fields
fields-left host k v fs hv = ne_nil (write_string k ++ (encode host v ++ encode_fields host fs)) (
    omega (
      arith,
      length-append (write_string k) (encode host v ++ encode_fields host fs),
      length-append (encode host v) (encode_fields host fs),
      encode-nonempty host v hv,
    ))

argument-left : (n : ℕ) (r : List ℕ) → (0 < length (argument n ++ r)) ⊎ (ltb (info_for n) 24 ≡ true)
unfolding argument info_for
argument-left n r = elim (Bool-cases (ltb n 24)) [
  | inl y ↦ inr (rw (y, y) refl)
  | inr big ↦ inl (
      ground (
        arith,
        length-append (argument n) r,
        length-network 2 n,
        length-network 4 n,
        length-network 8 n,
      ))
]

-- Something is left behind the header, or the value needs nothing.
left_or_small :
    (host : Host) (v : Value) (r : List ℕ)
    → IsSound v
    → (0 < length r) ⊎ Solid v
    → (0 < length (body host v ++ r)) ⊎ (is_small host v ≡ true)
unfolding major info body is_major
left_or_small host Value.empty r hv h = inr (unfold encoded in refl)
left_or_small host (Value.boolean true) r hv h = inr (unfold encoded in refl)
left_or_small host (Value.boolean false) r hv h = inr (unfold encoded in refl)
left_or_small host (Value.integer (pos n)) r hv h = unfold encoded in argument-left n r
left_or_small host (Value.integer (negsuc n)) r hv h = unfold encoded in argument-left n r
left_or_small host (Value.double d) r hv h = inl (form_body-left (form host d) r)
left_or_small host (Value.charstring s) r hv h = inl (text-left (length s) s r h)
left_or_small host (Value.bytestring s) r hv h = inl (text-left (length s) s r h)
left_or_small host (Value.array vs) r hv (inl h) =
    inl (text-left (count vs) (encode_items host vs) r (inl h))
left_or_small host (Value.array vs) r hv (inr h) =
    inl (text-left (count vs) (encode_items host vs) r (inr (items-left host vs h hv.2)))
left_or_small host (Value.dictionary fs) r hv (inl h) =
    inl (text-left (size fs) (encode_fields host fs) r (inl h))
left_or_small host (Value.dictionary Fields.end) r hv (inr h) = absurd (omega arith)
left_or_small host (Value.dictionary (Fields.field k v fs)) r hv (inr h) = inl (
    text-left (size (Fields.field k v fs)) (encode_fields host (Fields.field k v fs)) r
      (inr (fields-left host k v fs hv.1.2)))

pub goes_on-left :
    (n : ℕ) (host : Host) (v : Value) (r : List ℕ)
    → IsSound v
    → (0 < length r) ⊎ Solid v
    → goes_on (suc n) (major v) (info host v) (body host v ++ r) ≡ true
unfolding goes_on
goes_on-left n host v r hv h = elim (left_or_small host v r hv h) [
  | inl y ↦ ground (arith, not_break host v)
  | inr y ↦ ground (arith, not_break host v)
]
