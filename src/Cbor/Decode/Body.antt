-- ===== src/Cbor/Decode/Body.antt =====
-- The decoder on a value that is no collection, behind a header that is read.
use libstappler_common.Common.{
  ℕ, ◌+◌, ◌-◌, ◌^◌, ◌<◌, ◌≡◌, refl, ap, arith, true, false, List, ◌++◌, min, leb, ltb, ◌==◌, length,
  u16, u64, length-append, take-append, drop-append,
}
use libstappler_common.Common.Int.{pos, negsuc, signed64}
use libstappler_common.Cbor.Reader.{read_wide-network}
use libstappler_common.Cbor.Head.{
  MajorType, info_for, argument, read_int_value-argument, info_for-lt,
}
use libstappler_common.Cbor.Float.{Host}
use libstappler_common.Cbor.Float.Form.{
  Form, short_float, single_float, double_float, form, form_info, form_body,
}
use libstappler_common.Cbor.Float.Ieee.{IsIeee}
use libstappler_common.Cbor.Float.Returns.{Returns, form-Returns}
use libstappler_common.Cbor.Value.{Value}
use libstappler_common.Cbor.Decode.{
  ok, decode_text, text_key, decode_positive, decode_negative, decode_simple,
}
use libstappler_common.Cbor.Decode.Header.{IsDouble, info, body}

pub info_for-not_31 : (n : ℕ) → (info_for n == 31) ≡ false
info_for-not_31 n = ground (arith, info_for-lt n)

pub min-length : (s rest : List ℕ) → min (length (s ++ rest)) (length s) ≡ length s
min-length s rest = ground (arith, length-append s rest)

leb-length : (s rest : List ℕ) → leb (length s) (length (s ++ rest)) ≡ true
leb-length s rest = ground (arith, length-append s rest)

-- A text behind its announced length is taken whole.
pub decode_text-argument :
    (m : MajorType) (s rest : List ℕ)
    → length s < 2 ^ 64
    → decode_text m (info_for (length s)) (argument (length s) ++ (s ++ rest)) ≡ ok (s, rest)
unfolding decode_text
decode_text-argument m s rest h =
    rw
      (
        read_int_value-argument (length s) (s ++ rest) h,
        info_for-not_31 (length s),
        min-length s rest,
        take-append s rest,
        drop-append s rest,
      )
      refl

pub text_key-argument :
    (m : MajorType) (s rest : List ℕ)
    → length s < 2 ^ 64
    → text_key m (info_for (length s)) (argument (length s) ++ (s ++ rest)) ≡ ok (s, rest)
unfolding text_key
text_key-argument m s rest h =
    rw
      (
        read_int_value-argument (length s) (s ++ rest) h,
        info_for-not_31 (length s),
        leb-length s rest,
        take-append s rest,
        drop-append s rest,
      )
      refl

pub decode_positive-argument :
    (n : ℕ) (rest : List ℕ)
    → n < 2 ^ 63
    → decode_positive (info_for n) (argument n ++ rest) ≡ (Value.integer (pos n), rest)
unfolding decode_positive
decode_positive-argument n rest h = rw (read_int_value-argument n rest (omega arith), low) refl
  where
    low : ltb n (2 ^ 63) ≡ true
    low = ground arith

wrapped : (n : ℕ) → n < 2 ^ 63 → signed64 (u64 (2 ^ 64 - 1 + 2 ^ 64 - n)) ≡ negsuc n
wrapped n h = rw (reduced, high) (ap negsuc back)
  where
    reduced : u64 (2 ^ 64 - 1 + 2 ^ 64 - n) ≡ 2 ^ 64 - 1 - n
    reduced = omega arith

    high : ltb (2 ^ 64 - 1 - n) (2 ^ 63) ≡ false
    high = ground arith

    back : 2 ^ 64 - (2 ^ 64 - 1 - n) - 1 ≡ n
    back = omega arith

pub decode_negative-argument :
    (n : ℕ) (rest : List ℕ)
    → n < 2 ^ 63
    → decode_negative (info_for n) (argument n ++ rest) ≡ (Value.integer (negsuc n), rest)
unfolding decode_negative
decode_negative-argument n rest h =
    rw (read_int_value-argument n rest (omega arith), wrapped n h) refl

decode_form :
    (host : Host) (d : ℕ) (x : Form) (rest : List ℕ)
    → d < 2 ^ 64
    → Returns host d x
    → decode_simple host (form_info x) (form_body x ++ rest) ≡ (Value.double d, rest)
unfolding decode_simple form_info form_body
decode_form host d (short_float h) rest fits (small, e) =
    let whole : u16 h ≡ h = omega arith in
    rw (whole, read_wide-network 2 h rest (omega arith)) (ap (λ t. (Value.double t, rest)) e)
decode_form host d (single_float f) rest fits (small, e) =
    rw (read_wide-network 4 f rest (omega arith)) (ap (λ t. (Value.double t, rest)) e)
decode_form host d (double_float y) rest fits e =
    rw (read_wide-network 8 y rest (omega (arith, e))) (ap (λ t. (Value.double t, rest)) e)

pub decode_simple-double :
    (host : Host) (d : ℕ) (rest : List ℕ)
    → IsIeee host
    → IsDouble d
    → decode_simple host (info host (Value.double d)) (body host (Value.double d) ++ rest)
      ≡ (Value.double d, rest)
unfolding info body
decode_simple-double host d rest ieee (fits, number) =
    decode_form host d (form host d) rest fits (form-Returns host ieee d)
