-- ===== src/Coding/Base64/Noise.antt =====
-- The decoder passes over every character that is no digit.
use mathlib.Core.Path.{fun_ext}
use libstappler_common.Common.{ℕ, ◌≡◌, refl, ap, List, [], ◌∷◌, ◌++◌, ◌==◌, All, if◌then◌else◌}
use libstappler_common.Coding.Base64.{push_digit, value, xx, decode_from, make_decode}

skip_noise :
    (noise ys acc : List ℕ)
    → All (λ c. value c ≡ xx) noise
    → decode_from (noise ++ ys) acc ≡ decode_from ys acc
unfolding decode_from
skip_noise [] ys acc h = refl
skip_noise (c ∷ noise) ys acc h = rw h.0 (skip_noise noise ys acc h.1)

skip_inner :
    (xs noise ys acc : List ℕ)
    → All (λ c. value c ≡ xx) noise
    → decode_from (xs ++ (noise ++ ys)) acc ≡ decode_from (xs ++ ys) acc
unfolding decode_from value
skip_inner [] noise ys acc h = skip_noise noise ys acc h
skip_inner (c ∷ xs) noise ys acc h =
    let same : decode_from (xs ++ (noise ++ ys)) ≡ decode_from (xs ++ ys) =
      fun_ext (λ a. skip_inner xs noise ys a h) in
    ap (λ next. if value c == xx then next acc else push_digit next acc (value c)) same

-- Characters outside the alphabets, wherever they stand in the text, do not change what is decoded.
pub make_decode_noise :
    (xs noise ys : List ℕ)
    → All (λ c. value c ≡ xx) noise
    → make_decode (xs ++ (noise ++ ys)) ≡ make_decode (xs ++ ys)
unfolding make_decode
make_decode_noise xs noise ys h = skip_inner xs noise ys [] h
