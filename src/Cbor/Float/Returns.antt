-- ===== src/Cbor/Float/Returns.antt =====
-- What `_writeFloat` of modules/data/SPDataCbor.h writes of a double, and what the decoder then makes of it.
use libstappler_common.Common.{
  ℕ, ◌+◌, ◌-◌, ◌*◌, ◌/◌, ◌%◌, ◌^◌, ◌≤◌, ◌<◌, ◌≡◌, arith, ap, ◌∙◌, bit_and, true, ◌==◌, ◌>>>◌, ◌<<<◌,
  leb, ltb, ◌&&◌, inl, inr, Bool-cases, ==_iff, sym, refl,
}
use mathlib.Core.Path.{subst}
use libstappler_common.Common.Bits.{and_mask, and_high}
use libstappler_common.Cbor.Float.{Host, infinity, negative_infinity, half_decode}
use libstappler_common.Cbor.Float.Form.{
  Form, short_float, single_float, double_float, short_form, parts_form, form,
}
use libstappler_common.Cbor.Float.Ieee.{IsIeee}
use libstappler_common.Cbor.Float.Half.{half_zero, half_normal, half_small, half_infinite}

float_parts :
    (u : ℕ)
    → u < 2 ^ 32
    → (bit_and (u >>> 16) 0x8000 ≡ u / 2 ^ 31 * 2 ^ 15)
      × (bit_and (u >>> 23) 0xff ≡ u / 2 ^ 23 % 256)
      × (bit_and u 0x7fffff ≡ u % 2 ^ 23)
float_parts u h = (
  omega (arith, and_high 15 (u / 2 ^ 16) 1, and_mask 1 (u / 2 ^ 16 / 2 ^ 15)),
  and_mask 8 (u / 2 ^ 23),
  and_mask 23 u,
)

module _ (host : Host) (ieee : IsIeee host) where
  -- The float comes back from its form.
  abbrev Reads : ℕ → Form → Type 0
  Reads u (short_float h) = (h < 2 ^ 16) × (half_decode host h ≡ u)
  Reads u (single_float f) = f ≡ u
  Reads u (double_float d) = ⊥

  small-Reads :
      (s e m : ℕ)
      → s < 2
      → 103 ≤ e
      → e < 113
      → m < 2 ^ 23
      → (bit_and m ((1 <<< (126 - e)) - 1) == 0) ≡ true
      → Reads
          (s * 2 ^ 31 + e * 2 ^ 23 + m)
          (short_float (s * 2 ^ 15 + ((m + 0x800000) >>> (126 - e))))
  small-Reads s e m hs low high hm test =
      let shift : 23 - (e - 103) ≡ 126 - e = omega arith in
      let exp : e - 103 + 103 ≡ e = omega arith in
      let one : 1 * 2 ^ (126 - e) ≡ 2 ^ (126 - e) = omega arith in
      let masked : bit_and m ((1 <<< (126 - e)) - 1) ≡ m % 2 ^ (126 - e) =
        ap (λ (t : ℕ). bit_and m (t - 1)) one ∙ and_mask (126 - e) m in
      let even : m % 2 ^ (126 - e) ≡ 0 =
        sym masked ∙ (==_iff (bit_and m ((1 <<< (126 - e)) - 1)) 0).0 test in
      let (fits, decoded) =
        half_small host ieee s (e - 103) m hs (omega arith) hm
          (ap (λ (t : ℕ). m % 2 ^ t) shift ∙ even) in
      (
        omega (arith, ap (λ (t : ℕ). (m + 0x800000) >>> t) shift, fits),
        ap (λ (t : ℕ). half_decode host (s * 2 ^ 15 + ((m + 0x800000) >>> t))) (sym shift)
            ∙ decoded
            ∙ omega (arith, exp),
      )

  parts_form-Reads :
      (s e m : ℕ)
      → s < 2
      → e < 256
      → m < 2 ^ 23
      → m % 2 ^ 13 ≡ 0
      → Reads
          (s * 2 ^ 31 + e * 2 ^ 23 + m)
          (parts_form (s * 2 ^ 15) e m (s * 2 ^ 31 + e * 2 ^ 23 + m))
  unfolding parts_form
  parts_form-Reads s e m hs he hm even = elim (Bool-cases (e == 0 && m == 0)) [
    | inl y ↦
        rw y (omega arith, half_zero host ieee s e m hs (ground (arith, y)) (ground (arith, y)))
    | inr a ↦ elim (Bool-cases (leb 113 e && leb e 142)) [
      | inl y ↦
          rw (a, y)
            (
              ground (arith, y),
              half_normal host ieee s e m hs (ground (arith, y)) (ground (arith, y)) hm even,
            )
      | inr b ↦ elim (Bool-cases (leb 103 e && ltb e 113)) [
        | inl y ↦ elim (Bool-cases (bit_and m ((1 <<< (126 - e)) - 1) == 0)) [
          | inl z ↦
              rw (a, b, y, z) (small-Reads s e m hs (ground (arith, y)) (ground (arith, y)) hm z)
          | inr z ↦ rw (a, b, y, z) refl
        ]
        | inr c ↦ elim (Bool-cases (e == 255 && m == 0)) [
          | inl y ↦
              rw (a, b, c, y)
                (
                  omega arith,
                  half_infinite host ieee s e m hs (ground (arith, y)) (ground (arith, y)),
                )
          | inr d ↦ rw (a, b, c, d) refl
        ]
      ]
    ]
  ]

  short_form-Reads : (u : ℕ) → u < 2 ^ 32 → (bit_and u 0x1fff == 0) ≡ true → Reads u (short_form u)
  unfolding short_form
  short_form-Reads u h test =
      let (ps, pe, pm) = float_parts u h in
      let even : u % 2 ^ 13 ≡ 0 = sym (and_mask 13 u) ∙ (==_iff (bit_and u 0x1fff) 0).0 test in
      let whole : u / 2 ^ 31 * 2 ^ 31 + u / 2 ^ 23 % 256 * 2 ^ 23 + u % 2 ^ 23 ≡ u = omega arith in
      rw (ps, pe, pm)
        (subst
          (λ (t : ℕ). Reads t (parts_form (u / 2 ^ 31 * 2 ^ 15) (u / 2 ^ 23 % 256) (u % 2 ^ 23) t))
          whole
          (parts_form-Reads (u / 2 ^ 31) (u / 2 ^ 23 % 256) (u % 2 ^ 23) (omega arith) (omega arith)
            (omega arith) (omega arith)))

-- The double comes back from its form.
abbrev pub Returns : Host → ℕ → Form → Type 0
Returns host d (short_float h) = (h < 2 ^ 16) × (host.widen (half_decode host h) ≡ d)
Returns host d (single_float f) = (f < 2 ^ 32) × (host.widen f ≡ d)
Returns host d (double_float x) = x ≡ d

module _ (host : Host) (ieee : IsIeee host) where
  Reads-Returns :
      (d u : ℕ) (x : Form) → u < 2 ^ 32 → host.widen u ≡ d → Reads host ieee u x → Returns host d x
  Reads-Returns d u (short_float h) fits e (small, reads) = (small, ap host.widen reads ∙ e)
  Reads-Returns d u (single_float f) fits e reads = (omega (arith, reads), ap host.widen reads ∙ e)
  Reads-Returns d u (double_float x) fits e reads = absurd reads

  pub form-Returns : (d : ℕ) → Returns host d (form host d)
  unfolding form
  form-Returns d = elim (Bool-cases (d == infinity)) [
    | inl y ↦ rw y (
      omega arith,
      ap host.widen (half_infinite host ieee 0 255 0 (omega arith) refl refl)
          ∙ ieee.widen_infinity
          ∙ sym ((==_iff d infinity).0 y),
    )
    | inr a ↦ elim (Bool-cases (d == negative_infinity)) [
      | inl y ↦
          rw (a, y)
            (
              omega arith,
              ap host.widen (half_infinite host ieee 1 255 0 (omega arith) refl refl)
                  ∙ ieee.widen_negative
                  ∙ sym ((==_iff d negative_infinity).0 y),
            )
      | inr b ↦ elim (Bool-cases (host.widen (host.narrow d) == d)) [
        | inl y ↦
            let exact = (==_iff (host.widen (host.narrow d)) d).0 y in
            elim (Bool-cases (bit_and (host.narrow d) 0x1fff == 0)) [
              | inl z ↦
                  rw (a, b, y, z)
                    (Reads-Returns d (host.narrow d) (short_form (host.narrow d))
                      (ieee.float_fits d) exact
                      (short_form-Reads host ieee (host.narrow d) (ieee.float_fits d) z))
              | inr z ↦ rw (a, b, y, z) (ieee.float_fits d, exact)
            ]
        | inr c ↦ rw (a, b, c) refl
      ]
    ]
  ]
