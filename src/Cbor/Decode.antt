-- ===== src/Cbor/Decode.antt =====
-- `Decoder` of modules/data/SPDataDecodeCbor.h. The view `r` is passed on and returned.
-- The recursion is on fuel: `stuck` is no answer of the code, and `fault` is undefined behaviour of it:
-- a key longer than the view, or an entry put into a value that is no dictionary.
pub mod Header
pub mod Body
pub mod Left
pub mod Steps
pub mod Fuel
pub mod Walk
pub mod RoundTrip
pub mod Ends
pub mod Chunks
mod Runs
use libstappler_common.Common.{
  ℕ, zero, suc, ◌+◌, ◌-◌, ◌^◌, Bool, true, false, ◌&&◌, ◌||◌, not, List, [], ◌∷◌, ◌++◌, min, leb,
  ltb, ◌==◌, if◌then◌else◌, length, take, drop, u64,
}
use Prim.Native.Nat.{compare, Ordering}
use libstappler_common.Common.Int.{ℤ, pos, negsuc, signed64}
use libstappler_common.Cbor.Reader.{read_unsigned, read_wide}
use libstappler_common.Cbor.Head.{
  MajorType, unsigned, negative, byte_string, char_string, array, map, tag, simple, encoded,
  type_of, data_of, read_int_value,
}
use libstappler_common.Cbor.Float.{Host, half_decode}
use libstappler_common.Cbor.Value
use libstappler_common.Cbor.Value.{Value, Items, Fields}

pub data Res {ℓ} (A : Type ℓ) : Type ℓ where
  ok : A → Res A
  stuck : Res A
  fault : Res A

infixl 5 ◌>>=◌
abbrev pub ◌>>=◌ {ℓ κ} : {A : Type ℓ} {B : Type κ} → Res A → (A → Res B) → Res B
ok a >>= f = f a
stuck >>= f = stuck
fault >>= f = fault

-- An initial byte, taken apart, and the view behind it.
abbrev pub Header : Type 0
Header = MajorType × ℕ × List ℕ

unfoldable pub read_header : List ℕ → Header
unfolding read_unsigned
read_header r = let (b, rest) = read_unsigned r in (type_of b, data_of b, rest)

-- The header of the next element where one is due, and else the one that ends the loops.
unfoldable pub next_header : ℕ → List ℕ → Header
next_header size r = if ltb 0 size then read_header r else (simple, 31, r)

-- `majorType == m`
unfoldable pub is_major : MajorType → MajorType → Bool
unfolding encoded
is_major m n = encoded m == encoded n

unfoldable pub is_break : MajorType → ℕ → Bool
unfolding is_major
is_break m info = is_major m simple && info == 31

-- The loop of `decodeUndefinedLength`; `buf` is what the chunks before have given.
unfoldable pub undefined_from : ℕ → MajorType → List ℕ → List ℕ → Res (List ℕ × List ℕ)
undefined_from zero root buf r = stuck
undefined_from (suc fuel) root buf r =
    let (m, info, r1) = read_header r in
    let (size, r2) = read_int_value r1 info in
    let n = min (length r2) size in
    let buf' = buf ++ take n r2 in
    let more = undefined_from fuel root buf' (drop n r2) in
    if not (is_major m root) && not (is_break m info)
    then ok (buf, r1)
    else if info == 31
    then ok (buf', drop n r2)
    else more

-- Each round takes a byte at least.
unfoldable pub decode_undefined_length : MajorType → List ℕ → Res (List ℕ × List ℕ)
decode_undefined_length root r = undefined_from (suc (length r)) root [] r

-- `decodeByteString` and `decodeCharString`, up to the type of the value that they make.
unfoldable pub decode_text : MajorType → ℕ → List ℕ → Res (List ℕ × List ℕ)
decode_text root info r =
    let (size, r1) = read_int_value r info in
    let n = min (length r1) size in
    if info == 31 then decode_undefined_length root r else ok (take n r1, drop n r1)

unfoldable pub decode_positive : ℕ → List ℕ → Value × List ℕ
decode_positive info r =
    let (value, r1) = read_int_value r info in (Value.integer (signed64 value), r1)

-- `-1 - value`, in `uint64_t`.
unfoldable pub decode_negative : ℕ → List ℕ → Value × List ℕ
decode_negative info r =
    let (value, r1) = read_int_value r info in
    (Value.integer (signed64 (u64 (2 ^ 64 - 1 + 2 ^ 64 - value))), r1)

unfoldable pub decode_simple : Host → ℕ → List ℕ → Value × List ℕ
unfolding read_unsigned half_decode
decode_simple host info r =
    if info == 24
    then (let (b, r1) = read_unsigned r in (Value.integer (pos b), r1))
    else if info == 25
    then (let (h, r1) = read_wide 2 r in (Value.double (host.widen (half_decode host h)), r1))
    else if info == 26
    then (let (f, r1) = read_wide 4 r in (Value.double (host.widen f), r1))
    else if info == 27
    then (let (d, r1) = read_wide 8 r in (Value.double d, r1))
    else if info == 22 || info == 23
    then (Value.empty, r)
    else if info == 21
    then (Value.boolean true, r)
    else if info == 20
    then (Value.boolean false, r)
    else (Value.integer (pos info), r)

-- The order of the keys in a dictionary.
unfoldable pub key_compare : List ℕ → List ℕ → Ordering
key_compare [] [] = Ordering.eq
key_compare [] (y ∷ ys) = Ordering.lt
key_compare (x ∷ xs) [] = Ordering.gt
key_compare (x ∷ xs) (y ∷ ys) = elim (compare x y) [
  | Ordering.lt ↦ Ordering.lt
  | Ordering.eq ↦ key_compare xs ys
  | Ordering.gt ↦ Ordering.gt
]

-- `emplace(key, EMPTY).first->second`: the value that is there, or EMPTY.
unfoldable pub entry : List ℕ → Fields → Value
entry k Fields.end = Value.empty
entry k (Fields.field j w fs) = elim (key_compare j k) [
  | Ordering.lt ↦ entry k fs
  | Ordering.eq ↦ w
  | Ordering.gt ↦ Value.empty
]

-- The dictionary with a value decoded into that place.
unfoldable pub store : List ℕ → Value → Fields → Fields
store k v Fields.end = Fields.field k v Fields.end
store k v (Fields.field j w fs) = elim (key_compare j k) [
  | Ordering.lt ↦ Fields.field j w (store k v fs)
  | Ordering.eq ↦ Fields.field j v fs
  | Ordering.gt ↦ Fields.field k v (Fields.field j w fs)
]

-- `ret.dictVal`
unfoldable pub fields_of : Value → Res Fields
fields_of (Value.dictionary fs) = ok fs
fields_of v = fault

-- The test of the loop of `decodeArray`.
unfoldable pub goes_on : ℕ → MajorType → ℕ → List ℕ → Bool
unfolding is_break is_major
goes_on size m info r =
    (ltb 0 (length r)
      || ((is_major m unsigned || is_major m negative || is_major m simple) && ltb info 24))
    && (ltb 0 size && not (is_break m info))

-- The test of the loop of `decodeMap`.
unfoldable pub map_goes_on : ℕ → MajorType → ℕ → List ℕ → Bool
unfolding is_break
map_goes_on size m info r = ltb 0 (length r) && (ltb 0 size && not (is_break m info))

-- The number of elements that a head announces.
unfoldable pub announced : ℕ → List ℕ → ℕ × List ℕ
announced info r = if info == 31 then (2 ^ 64 - 1, r) else read_int_value r info

-- A key that is a text of announced length.
unfoldable pub text_key : MajorType → ℕ → List ℕ → Res (List ℕ × List ℕ)
text_key root info r =
    let (size, r1) = read_int_value r info in
    if info == 31
    then decode_undefined_length root r
    else if leb size (length r1)
    then ok (take size r1, drop size r1)
    else fault

unfoldable mutual
  -- `decode(majorType, type, ret)`; `prev` is what `ret` holds before.
  pub decode_value : Host → ℕ → MajorType → ℕ → Value → List ℕ → Res (Value × List ℕ)
  decode_value host zero m info prev r = stuck
  decode_value host (suc fuel) unsigned info prev r = ok (decode_positive info r)
  decode_value host (suc fuel) negative info prev r = ok (decode_negative info r)
  decode_value host (suc fuel) byte_string info prev r =
      decode_text byte_string info r >>= λ (s, r1). ok (Value.bytestring s, r1)
  decode_value host (suc fuel) char_string info prev r =
      decode_text char_string info r >>= λ (s, r1). ok (Value.charstring s, r1)
  decode_value host (suc fuel) array info prev r =
      let (size, r1) = announced info r in
      let (m, i, r2) = next_header size r1 in
      decode_array host fuel size m i r2 >>= λ (vs, r3). ok (Value.array vs, r3)
  decode_value host (suc fuel) map info prev r =
      let (size, r1) = announced info r in
      let (m, i, r2) = next_header size r1 in
      decode_map host fuel size m i (Value.dictionary Fields.end) r2
  decode_value host (suc fuel) tag info prev r =
      let (number, r1) = read_int_value r info in decode_next host fuel prev r1
  decode_value host (suc fuel) simple info prev r = ok (decode_simple host info r)

  -- `decode(ret)`
  pub decode_next : Host → ℕ → Value → List ℕ → Res (Value × List ℕ)
  decode_next host zero prev r = stuck
  decode_next host (suc fuel) prev [] = ok (prev, [])
  decode_next host (suc fuel) prev (b ∷ r) = decode_value host fuel (type_of b) (data_of b) prev r

  -- The loop of `decodeArray`, at an element whose header is read.
  pub decode_array : Host → ℕ → ℕ → MajorType → ℕ → List ℕ → Res (Items × List ℕ)
  decode_array host zero size m info r = stuck
  decode_array host (suc fuel) size m info r = elim (goes_on size m info r) [
    | true ↦ decode_value host fuel m info Value.empty r >>= λ (v, r1).
        let (m', info', r2) = next_header (size - 1) r1 in
        decode_array host fuel (size - 1) m' info' r2 >>= λ (vs, r3). ok (Items.cons v vs, r3)
    | false ↦ ok (Items.nil, r)
  ]

  -- The loop of `decodeMap`, at a key whose header is read, with the value `ret` that it fills.
  pub decode_map : Host → ℕ → ℕ → MajorType → ℕ → Value → List ℕ → Res (Value × List ℕ)
  decode_map host zero size m info ret r = stuck
  decode_map host (suc fuel) size m info ret r = elim (map_goes_on size m info r) [
    | true ↦ decode_key host fuel m info ret r >>= λ (key, ret1, r1). elim r1 [
      | [] ↦ ok (ret1, [])
      | b ∷ r2 ↦ elim (is_break (type_of b) (data_of b)) [
        | true ↦ ok (ret1, r2)
        | false ↦ decode_entry host fuel key (type_of b) (data_of b) ret1 r2 >>= λ (ret2, r3).
            let (m', info', r4) = next_header (size - 1) r3 in
            decode_map host fuel (size - 1) m' info' ret2 r4
      ]
    ]
    | false ↦ ok (ret, r)
  ]

  -- The switch on a key's type; a key of another type is decoded into the dictionary itself.
  pub decode_key : Host → ℕ → MajorType → ℕ → Value → List ℕ → Res (List ℕ × Value × List ℕ)
  decode_key host zero m info ret r = stuck
  decode_key host (suc fuel) unsigned info ret r =
      let (value, r1) = read_int_value r info in ok (host.print_int (pos value), ret, r1)
  decode_key host (suc fuel) negative info ret r =
      let (value, r1) = read_int_value r info in
      ok (host.print_int (signed64 (u64 (2 ^ 64 - 1 + 2 ^ 64 - value))), ret, r1)
  decode_key host (suc fuel) byte_string info ret r =
      text_key byte_string info r >>= λ (key, r1). ok (key, ret, r1)
  decode_key host (suc fuel) char_string info ret r =
      text_key char_string info r >>= λ (key, r1). ok (key, ret, r1)
  decode_key host (suc fuel) m info ret r =
      decode_value host fuel m info ret r >>= λ (ret1, r1). ok ([], ret1, r1)

  -- The value behind a key: put into the dictionary, or decoded and dropped if the key is empty.
  pub decode_entry : Host → ℕ → List ℕ → MajorType → ℕ → Value → List ℕ → Res (Value × List ℕ)
  decode_entry host zero key m info ret r = stuck
  decode_entry host (suc fuel) [] m info ret r =
      decode_value host fuel m info Value.empty r >>= λ (v, r1). ok (ret, r1)
  decode_entry host (suc fuel) (k ∷ key) m info ret r = fields_of ret >>= λ fs.
      decode_value host fuel m info (entry (k ∷ key) fs) r >>= λ (v, r1).
      ok (Value.dictionary (store (k ∷ key) v fs), r1)

-- `read`: the three bytes of the tag that marks CBOR, and the value behind them.
unfoldable pub has_id : List ℕ → Bool
has_id (a ∷ b ∷ c ∷ d ∷ rest) = a == 0xd9 && (b == 0xd9 && c == 0xf7)
has_id r = false

unfoldable pub read : Host → ℕ → List ℕ → Res (Value × List ℕ)
unfolding has_id
read host fuel r =
    if has_id r then decode_next host fuel Value.empty (drop 3 r) else ok (Value.empty, r)
