-- ===== src/Text/View/Search.antt =====
-- What `find`, `rfind` and the comparisons answer.
use libstappler_common.Common.{
  ℕ, zero, suc, ◌+◌, ◌≡◌, ◌≢◌, refl, ap, arith, true, false, List, [], ◌∷◌, ◌++◌, none, some, ◌==◌,
  ==_iff, Bool-cases, inl, inr, length, length-append, All, ◌⊎◌,
}
use libstappler_common.Text.View.{find, at, rfind_below, rfind}

-- No `c` in the text.
abbrev pub Lacks : ℕ → List ℕ → Type 0
Lacks c = All (λ x. x ≢ c)

ne→test : (x c : ℕ) → x ≢ c → (x == c) ≡ false
ne→test x c h = ground arith

pub find-eq_none : (c : ℕ) (s : List ℕ) → Lacks c s → find c s ≡ none
unfolding find
find-eq_none c [] h = refl
find-eq_none c (x ∷ xs) h = rw (ne→test x c h.0, find-eq_none c xs h.1)

-- The first `c` is behind a text without `c`.
pub find-first :
    (c : ℕ) (front back : List ℕ) → Lacks c front → find c (front ++ c ∷ back) ≡ some (length front)
unfolding find
find-first c [] back h = ground arith
find-first c (x ∷ xs) back h = rw (ne→test x c h.0, find-first c xs back h.1)

-- Every text lacks `c`, or splits at its first `c`.
pub first_split :
    (c : ℕ) (s : List ℕ)
    → Lacks c s ⊎ ((front : List ℕ) × (back : List ℕ) × (s ≡ front ++ c ∷ back) × Lacks c front)
first_split c [] = inl tt
first_split c (x ∷ xs) = elim (Bool-cases (x == c)) [
  | inl e ↦ inr ([], xs, ap (λ t. t ∷ xs) ((==_iff x c).0 e), tt)
  | inr e ↦ elim (first_split c xs) [
    | inl h ↦ inl (ground arith, h)
    | inr (front, back, p, h) ↦ inr (x ∷ front, back, ap (λ t. x ∷ t) p, (ground arith, h))
  ]
]

-- and at its last `c`.
pub last_split :
    (c : ℕ) (s : List ℕ)
    → Lacks c s ⊎ ((front : List ℕ) × (back : List ℕ) × (s ≡ front ++ c ∷ back) × Lacks c back)
last_split c [] = inl tt
last_split c (x ∷ xs) = elim (last_split c xs) [
  | inr (front, back, p, h) ↦ inr (x ∷ front, back, ap (λ t. x ∷ t) p, h)
  | inl h ↦ elim (Bool-cases (x == c)) [
    | inl e ↦ inr ([], xs, ap (λ t. t ∷ xs) ((==_iff x c).0 e), h)
    | inr e ↦ inl (ground arith, h)
  ]
]

at-Lacks : (c : ℕ) (s : List ℕ) (i : ℕ) → Lacks c s → at s i c ≡ false
unfolding at
at-Lacks c [] i h = refl
at-Lacks c (x ∷ xs) zero h = ne→test x c h.0
at-Lacks c (x ∷ xs) (suc i) h = at-Lacks c xs i h.1

at-front : (c : ℕ) (front back : List ℕ) → at (front ++ c ∷ back) (length front) c ≡ true
unfolding at
at-front c [] back = ground arith
at-front c (x ∷ xs) back = at-front c xs back

at-back :
    (c : ℕ) (front back : List ℕ) (k : ℕ)
    → Lacks c back
    → at (front ++ c ∷ back) (length front + 1 + k) c ≡ false
unfolding at
at-back c [] back k h = let e : 0 + 1 + k ≡ suc k = omega arith in rw e (at-Lacks c back k h)
at-back c (x ∷ xs) back k h =
    let e : suc (length xs) + 1 + k ≡ suc (length xs + 1 + k) = omega arith in
    rw e (at-back c xs back k h)

rfind_below-Lacks : (c k : ℕ) (s : List ℕ) → Lacks c s → rfind_below c k s ≡ none
unfolding rfind_below
rfind_below-Lacks c zero s h = refl
rfind_below-Lacks c (suc k) s h = rw (at-Lacks c s k h, rfind_below-Lacks c k s h)

pub rfind-eq_none : (c : ℕ) (s : List ℕ) → Lacks c s → rfind c s ≡ none
unfolding rfind
rfind-eq_none c s h = rfind_below-Lacks c (length s) s h

rfind_below-last :
    (c : ℕ) (front back : List ℕ) (k : ℕ)
    → Lacks c back
    → rfind_below c (k + suc (length front)) (front ++ c ∷ back) ≡ some (length front)
unfolding rfind_below
rfind_below-last c front back zero h =
    let e : 0 + suc (length front) ≡ suc (length front) = omega arith in
    rw (e, at-front c front back)
rfind_below-last c front back (suc k) h =
    let e : suc k + suc (length front) ≡ suc (length front + 1 + k) = omega arith in
    let e' : length front + 1 + k ≡ k + suc (length front) = omega arith in
    rw (e, at-back c front back k h) (rw e' (rfind_below-last c front back k h))

-- The last `c` is in front of a text without `c`.
pub rfind-last :
    (c : ℕ) (front back : List ℕ) → Lacks c back → rfind c (front ++ c ∷ back) ≡ some (length front)
unfolding rfind
rfind-last c front back h =
    let e : length (front ++ c ∷ back) ≡ length back + suc (length front) =
      omega (arith, length-append front (c ∷ back)) in
    rw e (rfind_below-last c front back (length back) h)
