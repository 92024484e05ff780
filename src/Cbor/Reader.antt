-- ===== src/Cbor/Reader.antt =====
-- `BytesViewTemplate<Endian::Network>` of common/string/SPBytesView.h: the view is the list of the
-- bytes that are left. A read that the view is too short for answers 0 and takes nothing.
use mathlib.Core.Path.{subst}
use native.Mathlib.Nat.{
  mul_comm, pow-suc, one-le-pow, mod-eq_of_lt, div-add-mod, add-mul-mod_self_left,
}
use libstappler_common.Common.{
  ℕ, zero, suc, ◌+◌, ◌*◌, ◌/◌, ◌%◌, ◌^◌, ◌<◌, ◌≡◌, refl, ◌∙◌, ap, arith, true, List, [], ◌∷◌, ◌++◌,
  leb, if◌then◌else◌, length, take, drop, length-append, take-append, drop-append, IsByte, All,
}

-- The `n` low bytes of a number, highest first: `HostToNetwork` and `memcpy`.
unfoldable pub network : ℕ → ℕ → List ℕ
network zero v = []
network (suc n) v = v / 256 ^ n % 256 ∷ network n v

-- The number that bytes stand for in network order: `convert`.
unfoldable pub host_from : ℕ → List ℕ → ℕ
host_from acc [] = acc
host_from acc (b ∷ bs) = host_from (acc * 256 + b) bs

-- `readUnsigned`, and `readUnsigned16`, `readUnsigned32` and `readUnsigned64` for n = 2, 4 and 8.
unfoldable pub read_unsigned : List ℕ → ℕ × List ℕ
read_unsigned [] = (0, [])
read_unsigned (b ∷ bs) = (b, bs)

unfoldable pub read_wide : ℕ → List ℕ → ℕ × List ℕ
unfolding host_from
read_wide n r = if leb n (length r) then (host_from 0 (take n r), drop n r) else (0, r)

pub length-network : (n v : ℕ) → length (network n v) ≡ n
unfolding network
length-network zero v = refl
length-network (suc n) v = ap suc (length-network n v)

pub network-IsByte : (n v : ℕ) → All IsByte (network n v)
unfolding network
network-IsByte zero v = tt
network-IsByte (suc n) v = (omega arith, network-IsByte n v)

digit_fits : (s p r : ℕ) → s < 256 → r < p → s * p + r < 256 * p
digit_fits s p r hs hr = grind arith

-- The remainder by 256 p, by the quotient and the remainder by p.
mod_split : (p v : ℕ) → 0 < p → v % (256 * p) ≡ v / p % 256 * p + v % p
mod_split p v h =
    ap (λ (t : ℕ). t % (256 * p)) whole
    ∙ add-mul-mod_self_left (v / p % 256 * p + v % p) (256 * p) (v / p / 256)
    ∙ mod-eq_of_lt (digit_fits (v / p % 256) p (v % p) (omega arith) (omega arith))
  where
    whole : v ≡ v / p % 256 * p + v % p + 256 * p * (v / p / 256)
    whole = omega (arith, div-add-mod v p, ap (λ (t : ℕ). p * t) (div-add-mod (v / p) 256))

host_from-network : (n v acc : ℕ) → host_from acc (network n v) ≡ acc * 256 ^ n + v % 256 ^ n
unfolding host_from network
host_from-network zero v acc = omega arith
host_from-network (suc n) v acc =
    host_from-network n v (acc * 256 + v / 256 ^ n % 256)
    ∙ omega (
      arith,
      mod_split (256 ^ n) v (one-le-pow n 256 (omega arith)),
      ap (λ (t : ℕ). acc * t) (pow-suc 256 n),
      ap (λ (t : ℕ). v % t) (pow-suc 256 n),
      ap (λ (t : ℕ). v % t) (mul_comm 256 (256 ^ n)),
    )

fits : (n v : ℕ) (rest : List ℕ) → leb n (length (network n v ++ rest)) ≡ true
fits n v rest = ground (arith, length-append (network n v) rest, length-network n v)

front : (n v : ℕ) (rest : List ℕ) → take n (network n v ++ rest) ≡ network n v
front n v rest =
    subst (λ m. take m (network n v ++ rest) ≡ network n v) (length-network n v)
      (take-append (network n v) rest)

back : (n v : ℕ) (rest : List ℕ) → drop n (network n v ++ rest) ≡ rest
back n v rest =
    subst (λ m. drop m (network n v ++ rest) ≡ rest) (length-network n v)
      (drop-append (network n v) rest)

pub read_wide-network :
    (n v : ℕ) (rest : List ℕ) → v < 256 ^ n → read_wide n (network n v ++ rest) ≡ (v, rest)
unfolding read_wide
read_wide-network n v rest h =
    rw (fits n v rest) (cc (front n v rest, back n v rest, host_from-network n v 0, small))
  where
    small : 0 * 256 ^ n + v % 256 ^ n ≡ v
    small = omega (arith, mod-eq_of_lt h)
