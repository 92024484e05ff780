-- ===== src/Cbor/Decode/Chunks.antt =====
-- `decodeUndefinedLength`: texts that come in chunks.
use mathlib.Core.List.{append_assoc, append-nil}
use libstappler_common.Common.{
  ℕ, zero, suc, ◌^◌, ◌≤◌, ◌<◌, ◌≡◌, refl, sym, ◌∙◌, ap, arith, Bool, true, false, ◌&&◌, not, List,
  [], ◌∷◌, ◌++◌, min, ◌==◌, if◌then◌else◌, length, take, drop, All, length-append, length-drop,
  take-append, drop-append,
}
use libstappler_common.Cbor.Reader.{read_unsigned, read_wide}
use libstappler_common.Cbor.Head.{
  MajorType, simple, encoded, info_for, info_for-lt, argument, type_of, data_of, major_for,
  read_int_value, write_int, write_int-head, read_int_value-argument,
}
use libstappler_common.Cbor.Decode.{
  Res, ok, read_header, is_major, is_break, undefined_from, decode_undefined_length,
}
use libstappler_common.Cbor.Decode.Header.{read_header-initial}
use libstappler_common.Cbor.Decode.Body.{info_for-not_31, min-length}

-- Texts of announced lengths, one after another, and the byte that ends them.
abbrev pub chunked : MajorType → List (List ℕ) → List ℕ
chunked root [] = 0xff ∷ []
chunked root (c ∷ cs) = (write_int (length c) root ++ c) ++ chunked root cs

abbrev pub joined : List (List ℕ) → List ℕ
joined [] = []
joined (c ∷ cs) = c ++ joined cs

abbrev pub IsChunk : List ℕ → Type 0
IsChunk c = length c < 2 ^ 64

is_major_refl : (m : MajorType) → is_major m m ≡ true
unfolding is_major
is_major_refl m = ground arith

break_header : (r : List ℕ) → read_header (0xff ∷ r) ≡ (simple, 31, r)
unfolding encoded
break_header r = read_header-initial simple 31 r (omega arith)

is_break-31 : is_break simple 31 ≡ true
unfolding is_break is_major encoded
is_break-31 = refl

-- A round on a chunk, and the round that ends.
chunk_round :
    (root : MajorType) (fuel : ℕ) (c buf r : List ℕ)
    → IsChunk c
    → undefined_from (suc fuel) root buf ((write_int (length c) root ++ c) ++ r)
      ≡ undefined_from fuel root (buf ++ c) r
unfolding undefined_from
chunk_round root fuel c buf r fits =
    rw
      (
        append_assoc (write_int (length c) root) c r,
        write_int-head (length c) root fits,
        undefined_from,
        read_header-initial root (info_for (length c)) (argument (length c) ++ (c ++ r))
            (omega (arith, info_for-lt (length c))),
        is_major_refl root,
        info_for-not_31 (length c),
        read_int_value-argument (length c) (c ++ r) fits,
        min-length c r,
        take-append c r,
        drop-append c r,
      )
      refl

nothing_read : (r : List ℕ) → read_int_value r 31 ≡ (0, r)
unfolding read_int_value
nothing_read r = refl

min-none : (n : ℕ) → min n 0 ≡ 0
min-none n = omega arith

no_stop : (b : Bool) → (not b && not true) ≡ false
no_stop true = refl
no_stop false = refl

break_round :
    (root : MajorType) (fuel : ℕ) (buf r : List ℕ)
    → undefined_from (suc fuel) root buf (0xff ∷ r) ≡ ok (buf, r)
unfolding undefined_from
break_round root fuel buf r =
    rw
      (
        undefined_from,
        break_header r,
        is_break-31,
        no_stop (is_major simple root),
        nothing_read r,
        min-none (length r),
        append-nil buf,
      )
      refl

undefined_from-chunked :
    (root : MajorType) (cs : List (List ℕ)) (fuel : ℕ) (buf r : List ℕ)
    → All IsChunk cs
    → length cs < fuel
    → undefined_from fuel root buf (chunked root cs ++ r) ≡ ok (buf ++ joined cs, r)
undefined_from-chunked root cs zero buf r h enough = absurd (omega arith)
undefined_from-chunked root [] (suc fuel) buf r h enough =
    break_round root fuel buf r ∙ ap (λ t. ok (t, r)) (sym (append-nil buf))
undefined_from-chunked root (c ∷ cs) (suc fuel) buf r h enough =
    rw (append_assoc (write_int (length c) root ++ c) (chunked root cs) r) (
      chunk_round root fuel c buf (chunked root cs ++ r) h.0
      ∙ undefined_from-chunked root cs fuel (buf ++ c) r h.1 (omega arith)
      ∙ ap (λ t. ok (t, r)) (append_assoc buf c (joined cs)))

chunks-short :
    (root : MajorType) (cs : List (List ℕ)) → All IsChunk cs → length cs < length (chunked root cs)
chunks-short root [] h = omega arith
chunks-short root (c ∷ cs) h = omega (
  arith,
  length-append (write_int (length c) root ++ c) (chunked root cs),
  length-append (write_int (length c) root) c,
  ap length (write_int-head (length c) root h.0),
  chunks-short root cs h.1,
)

-- A text of undefined length, in chunks of the same type that are shorter than 2 ^ 64 and with the break byte
-- behind them, is the chunks joined, and what is behind the break byte is left.
pub decode_undefined_length-chunked :
    (root : MajorType) (cs : List (List ℕ)) (r : List ℕ)
    → All IsChunk cs
    → decode_undefined_length root (chunked root cs ++ r) ≡ ok (joined cs, r)
unfolding decode_undefined_length
decode_undefined_length-chunked root cs r h =
    undefined_from-chunked root cs (suc (length (chunked root cs ++ r))) [] r h
      (omega (arith, length-append (chunked root cs) r, chunks-short root cs h))

read_int_value-shorter : (r : List ℕ) (i : ℕ) → length (read_int_value r i).1 ≤ length r
unfolding read_int_value read_wide read_unsigned
read_int_value-shorter [] i = ground arith
read_int_value-shorter (b ∷ r) i =
    ground (arith, length-drop 2 (b ∷ r), length-drop 4 (b ∷ r), length-drop 8 (b ∷ r))

pick_ok :
    {A : Type 0} (stop last : Bool) (x y : A) (more : Res A)
    → (out : A) × (more ≡ ok out)
    → (out : A) × ((if stop then ok x else if last then ok y else more) ≡ ok out)
pick_ok true last x y more h = (x, refl)
pick_ok false true x y more h = (y, refl)
pick_ok false false x y more h = h

end_header : read_header [] ≡ (MajorType.unsigned, 0, [])
unfolding read_header read_unsigned type_of data_of major_for
end_header = refl

end_no_break : is_break MajorType.unsigned 0 ≡ false
unfolding is_break is_major encoded
end_no_break = refl

length-rest : (b : ℕ) (r : List ℕ) → length (read_header (b ∷ r)).2 ≡ length r
unfolding read_header read_unsigned
length-rest b r = refl

-- The loop gives a text on every input.
undefined_from-total :
    (root : MajorType) (fuel : ℕ) (buf r : List ℕ)
    → is_major MajorType.unsigned root ≡ false
    → length r < fuel
    → (out : List ℕ × List ℕ) × (undefined_from fuel root buf r ≡ ok out)
unfolding undefined_from
undefined_from-total root zero buf r m h = absurd (omega arith)
undefined_from-total root (suc fuel) buf [] m h = ((buf, []), rw (end_header, m, end_no_break) refl)
undefined_from-total root (suc fuel) buf (b ∷ r) m h =
    let (size, r2) = read_int_value (read_header (b ∷ r)).2 (read_header (b ∷ r)).1 in
    let n = min (length r2) size in
    pick_ok
      (not (is_major (read_header (b ∷ r)).0 root)
        && not (is_break (read_header (b ∷ r)).0 (read_header (b ∷ r)).1))
      ((read_header (b ∷ r)).1 == 31) (buf, (read_header (b ∷ r)).2) (buf ++ take n r2, drop n r2)
      (undefined_from fuel root (buf ++ take n r2) (drop n r2))
      (undefined_from-total root fuel (buf ++ take n r2) (drop n r2) m (
        omega (
          arith,
          length-drop n r2,
          read_int_value-shorter (read_header (b ∷ r)).2 (read_header (b ∷ r)).1,
          length-rest b r,
        )))

-- `decodeUndefinedLength` ends with a text on every input, for a type of chunk other than the unsigned integers.
pub decode_undefined_length-total :
    (root : MajorType) (r : List ℕ)
    → is_major MajorType.unsigned root ≡ false
    → (out : List ℕ × List ℕ) × (decode_undefined_length root r ≡ ok out)
unfolding decode_undefined_length
decode_undefined_length-total root r m =
    undefined_from-total root (suc (length r)) [] r m (omega arith)
