-- ===== src/Cbor/Decode/Steps.antt =====
-- The loops of `decodeArray` and `decodeMap` take one encoded element or field after another.
use Prim.Native.Nat.{Ordering}
use mathlib.Core.List.{append_assoc}
use libstappler_common.Common.{
  ℕ, suc, ◌-◌, ◌^◌, ◌<◌, ◌≡◌, ◌≢◌, ◌⊎◌, inr, refl, ap, arith, true, false, List, [], ◌∷◌, ◌++◌,
  bit_or, ltb, length,
}
use libstappler_common.Cbor.Head.{
  MajorType, char_string, encoded, type_of, data_of, info_for, argument, read_int_value-argument,
  type_of-initial, data_of-initial,
}
use libstappler_common.Cbor.Float.{Host}
use libstappler_common.Cbor.Value.{Value, Items, Fields}
use libstappler_common.Cbor.Encode.{encode, write_string}
use libstappler_common.Cbor.Decode.{
  Res, ok, ◌>>=◌, next_header, is_break, goes_on, map_goes_on, announced, decode_value,
  decode_array, decode_map, decode_key, decode_entry, key_compare, store, entry, fields_of,
}
use libstappler_common.Cbor.Decode.Header.{
  IsSound, Solid, Above, major, info, body, info-lt, encode-head, read_header-encode,
}
use libstappler_common.Cbor.Decode.Body.{info_for-not_31, text_key-argument}
use libstappler_common.Cbor.Decode.Left.{not_break, text-left, goes_on-left}

-- The loop of the decoder, started at the header that is due.
unfoldable pub items_at : Host → ℕ → ℕ → List ℕ → Res (Items × List ℕ)
items_at host fuel n r = let (m, i, r1) = next_header n r in decode_array host fuel n m i r1

-- The keys of `acc` are before `k`, and before every key of the fields.
abbrev pub Below : Fields → List ℕ → Type 0
Below Fields.end k = Unit {0}
Below (Fields.field j w acc) k = (key_compare j k ≡ Ordering.lt) × Below acc k

abbrev pub AllBelow : Fields → Fields → Type 0
AllBelow acc Fields.end = Unit {0}
AllBelow acc (Fields.field k v fs) = Below acc k × AllBelow acc fs

abbrev pub append : Fields → Fields → Fields
append Fields.end fs = fs
append (Fields.field j w acc) fs = Fields.field j w (append acc fs)

abbrev pub snoc : Fields → List ℕ → Value → Fields
snoc acc k v = append acc (Fields.field k v Fields.end)

store-last : (acc : Fields) (k : List ℕ) (v : Value) → Below acc k → store k v acc ≡ snoc acc k v
unfolding store
store-last Fields.end k v h = refl
store-last (Fields.field j w acc) k v (lt, h) =
    rw (store, lt) (ap (λ t. Fields.field j w t) (store-last acc k v h))

pub append-snoc :
    (acc : Fields) (k : List ℕ) (v : Value) (fs : Fields)
    → append (snoc acc k v) fs ≡ append acc (Fields.field k v fs)
append-snoc Fields.end k v fs = refl
append-snoc (Fields.field j w acc) k v fs = ap (λ t. Fields.field j w t) (append-snoc acc k v fs)

pub append-end : (acc : Fields) → append acc Fields.end ≡ acc
append-end Fields.end = refl
append-end (Fields.field j w acc) = ap (λ t. Fields.field j w t) (append-end acc)

Below-snoc :
    (acc : Fields) (j : List ℕ) (w : Value) (k : List ℕ)
    → Below acc k
    → key_compare j k ≡ Ordering.lt
    → Below (snoc acc j w) k
Below-snoc Fields.end j w k h lt = (lt, tt)
Below-snoc (Fields.field i u acc) j w k (first, h) lt = (first, Below-snoc acc j w k h lt)

pub AllBelow-snoc :
    (acc fs : Fields) (j : List ℕ) (w : Value)
    → AllBelow acc fs
    → Above j fs
    → AllBelow (snoc acc j w) fs
AllBelow-snoc acc Fields.end j w h a = tt
AllBelow-snoc acc (Fields.field k v fs) j w (below, h) (lt, a) =
    (Below-snoc acc j w k below lt, AllBelow-snoc acc fs j w h a)

-- The loop over fields, started at the header that is due.
unfoldable pub fields_at : Host → ℕ → ℕ → Value → List ℕ → Res (Value × List ℕ)
fields_at host fuel n ret r = let (m, i, r1) = next_header n r in decode_map host fuel n m i ret r1

-- What the loop of an array does behind the elements: it stops, and leaves `rest`.
unfoldable pub Stops : Host → ℕ → List ℕ → List ℕ → Type 0
Stops host n r rest = (fuel : ℕ) → items_at host (suc fuel) n r ≡ ok (Items.nil, rest)

pub announced-argument :
    (n : ℕ) (rest : List ℕ) → n < 2 ^ 64 → announced (info_for n) (argument n ++ rest) ≡ (n, rest)
unfolding announced
announced-argument n rest h = rw (info_for-not_31 n) (read_int_value-argument n rest h)

pub positive : (n : ℕ) → ltb 0 (suc n) ≡ true
positive n = ground arith

next_header-encode :
    (host : Host) (n : ℕ) (v : Value) (r : List ℕ)
    → IsSound v
    → next_header (suc n) (encode host v ++ r) ≡ (major v, info host v, body host v ++ r)
unfolding next_header
next_header-encode host n v r hv = rw (read_header-encode host v r hv, positive n) refl

pred-suc : (n : ℕ) → suc n - 1 ≡ n
pred-suc n = omega arith

pub array_step :
    (host : Host) (fuel n i : ℕ) (m : MajorType) (v : Value) (r0 r : List ℕ)
    → goes_on (suc n) m i r0 ≡ true
    → decode_value host fuel m i Value.empty r0 ≡ ok (v, r)
    → decode_array host (suc fuel) (suc n) m i r0
      ≡ (items_at host fuel n r >>= λ (vs, r3). ok (Items.cons v vs, r3))
unfolding items_at decode_array
array_step host fuel n i m v r0 r go e = rw (decode_array, go, e, pred-suc n) refl

map_step :
    (host : Host) (fuel n i b : ℕ) (m : MajorType) (k r0 r1 r2 : List ℕ) (ret ret1 : Value)
    → map_goes_on (suc n) m i r0 ≡ true
    → decode_key host fuel m i ret r0 ≡ ok (k, ret, b ∷ r1)
    → is_break (type_of b) (data_of b) ≡ false
    → decode_entry host fuel k (type_of b) (data_of b) ret r1 ≡ ok (ret1, r2)
    → decode_map host (suc fuel) (suc n) m i ret r0 ≡ fields_at host fuel n ret1 r2
unfolding fields_at decode_map
map_step host fuel n i b m k r0 r1 r2 ret ret1 go key more entry =
    rw (decode_map, go, key, ◌>>=◌, more, entry, pred-suc n) refl

-- An element that runs, and then the others.
pub items_at-cons :
    (host : Host) (fuel n : ℕ) (v : Value) (r : List ℕ)
    → IsSound v
    → (0 < length r) ⊎ Solid v
    → decode_value host fuel (major v) (info host v) Value.empty (body host v ++ r) ≡ ok (v, r)
    → items_at host (suc fuel) (suc n) (encode host v ++ r)
      ≡ (items_at host fuel n r >>= λ (vs, r3). ok (Items.cons v vs, r3))
unfolding items_at
items_at-cons host fuel n v r hv h e =
    rw (items_at, next_header-encode host n v r hv)
      (array_step host fuel n (info host v) (major v) v (body host v ++ r) r
        (goes_on-left n host v r hv h) e)

text-runs :
    (host : Host) (n : ℕ) (k r : List ℕ)
    → k ≢ []
    → map_goes_on (suc n) char_string (info_for (length k)) ((argument (length k) ++ k) ++ r) ≡ true
unfolding map_goes_on
text-runs host n k r ne = ground (arith, text-left (length k) k r (inr ne), goes)
  where
    goes : is_break char_string (info_for (length k)) ≡ false
    goes = unfold major info in not_break host (Value.charstring k)

decode_key-text :
    (host : Host) (fuel : ℕ) (ret : Value) (k r : List ℕ)
    → length k < 2 ^ 64
    → decode_key host
        (suc fuel)
        char_string
        (info_for (length k))
        ret
        ((argument (length k) ++ k) ++ r)
      ≡ ok (k, ret, r)
unfolding decode_key
decode_key-text host fuel ret k r h =
    rw (append_assoc (argument (length k)) k r, text_key-argument char_string k r h) refl

decode_entry-field :
    (host : Host) (fuel i : ℕ) (m : MajorType) (k r0 r : List ℕ) (v : Value) (acc : Fields)
    → k ≢ []
    → Below acc k
    → ((prev : Value) → decode_value host fuel m i prev r0 ≡ ok (v, r))
    → decode_entry host (suc fuel) k m i (Value.dictionary acc) r0
      ≡ ok (Value.dictionary (snoc acc k v), r)
unfolding decode_entry fields_of
decode_entry-field host fuel i m [] r0 r v acc ne below e = absurd (ne refl)
decode_entry-field host fuel i m (c ∷ k) r0 r v acc ne below e =
    rw (e (entry (c ∷ k) acc), store-last acc (c ∷ k) v below) refl

-- A field that stands behind all the keys so far.
pub fields_at-field :
    (host : Host) (fuel n : ℕ) (k : List ℕ) (v : Value) (acc : Fields) (r : List ℕ)
    → k ≢ []
    → length k < 2 ^ 64
    → IsSound v
    → Below acc k
    → ((prev : Value)
        → decode_value host fuel (major v) (info host v) prev (body host v ++ r) ≡ ok (v, r))
    → fields_at host
        (suc (suc fuel))
        (suc n)
        (Value.dictionary acc)
        (write_string k ++ (encode host v ++ r))
      ≡ fields_at host (suc fuel) n (Value.dictionary (snoc acc k v)) r
unfolding fields_at
fields_at-field host fuel n k v acc r ne fits hv below e =
    rw (header, encode-head host v hv)
      (map_step host (suc fuel) n (info_for (length k)) b char_string k
        ((argument (length k) ++ k) ++ (b ∷ (body host v ++ r))) (body host v ++ r) r
        (Value.dictionary acc) (Value.dictionary (snoc acc k v))
        (text-runs host n k (b ∷ (body host v ++ r)) ne)
        (decode_key-text host fuel (Value.dictionary acc) k (b ∷ (body host v ++ r)) fits) more
        inner)
  where
    b : ℕ
    b = bit_or (encoded (major v)) (info host v)

    small : info host v < 32
    small = omega (arith, info-lt host v)

    header :
        next_header (suc n) (write_string k ++ (encode host v ++ r))
        ≡ (char_string, info_for (length k), (argument (length k) ++ k) ++ (encode host v ++ r))
    header =
        unfold encode major info body in
        next_header-encode host n (Value.charstring k) (encode host v ++ r) fits

    more : is_break (type_of b) (data_of b) ≡ false
    more =
        rw
          (
            type_of-initial (major v) (info host v) small,
            data_of-initial (major v) (info host v) small,
          )
          (not_break host v)

    inner :
        decode_entry host
          (suc fuel)
          k
          (type_of b)
          (data_of b)
          (Value.dictionary acc)
          (body host v ++ r)
        ≡ ok (Value.dictionary (snoc acc k v), r)
    inner =
        rw
          (
            type_of-initial (major v) (info host v) small,
            data_of-initial (major v) (info host v) small,
          )
          (decode_entry-field host fuel (info host v) (major v) k (body host v ++ r) r v acc ne
            below e)
