-- ===== src/PriorityQueue/Order.antt =====
-- Queues in the order of their priorities, and the place of a new entry in them.
use libstappler_common.Common.{
  ℕ, ◌≡◌, ◌≢◌, inl, inr, refl, sym, ◌∙◌, ap, Bool, true, false, not, List, [], ◌∷◌, ◌++◌, some,
  Bool-cases, arith,
}
use libstappler_common.Common.Int.{ℤ, ltb_ℤ, leb_ℤ, leb_ℤ_trans, leb_ℤ_of_ltb, ltb_ℤ-leb_trans}
use libstappler_common.PriorityQueue.Chain.{
  Entry, last_of, NotIn, Distinct, insert, insert-true, insert-false, insert-nil,
}

-- What the new entry goes behind: the lower priorities, and the equal ones unless it is inserted first.
unfoldable pub before : Bool → ℤ → ℤ → Bool
before true p k = ltb_ℤ k p
before false p k = leb_ℤ k p

-- What holds of a priority holds of those below it.
abbrev pub Closed : (ℤ → Bool) → Type 0
Closed test = (j k : ℤ) → leb_ℤ j k ≡ true → test k ≡ true → test j ≡ true

-- `test` tells the priorities up to `p` from those from `p`.
abbrev pub Splits : (ℤ → Bool) → ℤ → Type 0
Splits test p =
    ((k : ℤ) → test k ≡ true → leb_ℤ k p ≡ true) × ((k : ℤ) → test k ≡ false → leb_ℤ p k ≡ true)

pub before-Closed : (insert_first : Bool) (p : ℤ) → Closed (before insert_first p)
unfolding before
before-Closed true p j k h t = ltb_ℤ-leb_trans j k p h t
before-Closed false p j k h t = leb_ℤ_trans j k p h t

pub before-Splits : (insert_first : Bool) (p : ℤ) → Splits (before insert_first p) p
unfolding before
before-Splits true p = (λ k h. leb_ℤ_of_ltb k p h, λ k h. ap not h)
before-Splits false p = (λ k h. h, λ k h. ground (arith, leb_ℤ_of_ltb p k))

module _ {V : Type 0} where
  -- No entry has a priority below the bound.
  abbrev pub From : ℤ → List (Entry V) → Type 0
  From p [] = Unit {0}
  From p (e ∷ es) = (leb_ℤ p e.cell.priority ≡ true) × From p es

  abbrev pub Sorted : List (Entry V) → Type 0
  Sorted [] = Unit {0}
  Sorted (e ∷ es) = From e.cell.priority es × Sorted es

  From-trans : (p q : ℤ) (es : List (Entry V)) → leb_ℤ p q ≡ true → From q es → From p es
  From-trans p q [] h f = tt
  From-trans p q (e ∷ es) h (g, f) = (leb_ℤ_trans p q e.cell.priority h g, From-trans p q es h f)

  From-insert :
      (test : ℤ → Bool) (p : ℤ) (e : Entry V) (es : List (Entry V))
      → leb_ℤ p e.cell.priority ≡ true
      → From p es
      → From p (insert test e es)
  From-insert test p e [] h f = rw (insert-nil test e) (h, tt)
  From-insert test p e (x ∷ xs) h (g, f) = elim (Bool-cases (test x.cell.priority)) [
    | inl y ↦ rw (insert-true test e x xs y) (g, From-insert test p e xs h f)
    | inr n ↦ rw (insert-false test e x xs n) (h, (g, f))
  ]

  pub Sorted-insert :
      (test : ℤ → Bool) (e : Entry V) (es : List (Entry V))
      → Splits test e.cell.priority
      → Sorted es
      → Sorted (insert test e es)
  Sorted-insert test e [] h s = rw (insert-nil test e) (tt, tt)
  Sorted-insert test e (x ∷ xs) (below, above) (f, s) = elim (Bool-cases (test x.cell.priority)) [
    | inl y ↦ rw (insert-true test e x xs y) (
      From-insert test x.cell.priority e xs (below x.cell.priority y) f,
      Sorted-insert test e xs (below, above) s,
    )
    | inr n ↦ rw (insert-false test e x xs n) (
      (
        above x.cell.priority n,
        From-trans e.cell.priority x.cell.priority xs (above x.cell.priority n) f,
      ),
      (f, s),
    )
  ]

  pub NotIn-insert :
      (test : ℤ → Bool) (q : ℕ) (e : Entry V) (es : List (Entry V))
      → q ≢ e.at
      → NotIn q es
      → NotIn q (insert test e es)
  NotIn-insert test q e [] ne h = rw (insert-nil test e) (ne, h)
  NotIn-insert test q e (x ∷ xs) ne (nx, h) = elim (Bool-cases (test x.cell.priority)) [
    | inl y ↦ rw (insert-true test e x xs y) (nx, NotIn-insert test q e xs ne h)
    | inr n ↦ rw (insert-false test e x xs n) (ne, (nx, h))
  ]

  pub Distinct-insert :
      (test : ℤ → Bool) (e : Entry V) (es : List (Entry V))
      → NotIn e.at es
      → Distinct es
      → Distinct (insert test e es)
  Distinct-insert test e [] fresh d = rw (insert-nil test e) (tt, tt)
  Distinct-insert test e (x ∷ xs) (ne, fresh) (out, d) = elim (Bool-cases (test x.cell.priority)) [
    | inl y ↦
        rw (insert-true test e x xs y)
          (NotIn-insert test x.at e xs (λ h. ne (sym h)) out, Distinct-insert test e xs fresh d)
    | inr n ↦ rw (insert-false test e x xs n) ((ne, fresh), (out, d))
  ]

  -- The last entry of a queue, and the place of an entry that goes behind it or in front of it.
  abbrev pub last_entry : Entry V → List (Entry V) → Entry V
  last_entry x [] = x
  last_entry x (y ∷ ys) = last_entry y ys

  pub last_of-last_entry :
      (x : Entry V) (xs : List (Entry V)) → last_of (x ∷ xs) ≡ some (last_entry x xs).at
  last_of-last_entry x [] = refl
  last_of-last_entry x (y ∷ ys) = last_of-last_entry y ys

  last-From :
      (p : ℤ) (x : Entry V) (xs : List (Entry V))
      → From p (x ∷ xs)
      → leb_ℤ p (last_entry x xs).cell.priority ≡ true
  last-From p x [] (h, f) = h
  last-From p x (y ∷ ys) (h, f) = last-From p y ys f

  pub insert_end :
      (test : ℤ → Bool) (e x : Entry V) (xs : List (Entry V))
      → Closed test
      → Sorted (x ∷ xs)
      → test (last_entry x xs).cell.priority ≡ true
      → insert test e (x ∷ xs) ≡ (x ∷ xs) ++ (e ∷ [])
  insert_end test e x [] closed s h =
      insert-true test e x [] h ∙ ap (λ l. x ∷ l) (insert-nil test e)
  insert_end test e x (y ∷ ys) closed (f, s) h =
      insert-true test e x (y ∷ ys) (
        closed x.cell.priority (last_entry y ys).cell.priority (last-From x.cell.priority y ys f) h)
      ∙ ap (λ l. x ∷ l) (insert_end test e y ys closed s h)

  last_of_behind :
      (x y : Entry V) (l rest : List (Entry V)) → l ≡ y ∷ rest → last_of (x ∷ l) ≡ last_of l
  last_of_behind x y l rest h = rw h refl

  pub last_of-insert :
      (test : ℤ → Bool) (e x : Entry V) (xs : List (Entry V))
      → test (last_entry x xs).cell.priority ≡ false
      → last_of (insert test e (x ∷ xs)) ≡ last_of (x ∷ xs)
  last_of-insert test e x [] h = rw (insert-false test e x [] h) refl
  last_of-insert test e x (y ∷ ys) h = elim (Bool-cases (test x.cell.priority)) [
    | inl t ↦ rw (insert-true test e x (y ∷ ys) t) (
        elim (Bool-cases (test y.cell.priority)) [
          | inl u ↦
              last_of_behind x y (insert test e (y ∷ ys)) (insert test e ys)
                (insert-true test e y ys u)
          | inr n ↦
              last_of_behind x e (insert test e (y ∷ ys)) (y ∷ ys) (insert-false test e y ys n)
        ]
        ∙ last_of-insert test e y ys h)
    | inr n ↦ rw (insert-false test e x (y ∷ ys) n) refl
  ]

  pub last_of_end :
      (e x : Entry V) (xs : List (Entry V)) → last_of ((x ∷ xs) ++ (e ∷ [])) ≡ some e.at
  last_of_end e x [] = refl
  last_of_end e x (y ∷ ys) = last_of_end e y ys

  NotIn-end :
      (q : ℕ) (e : Entry V) (es : List (Entry V)) → q ≢ e.at → NotIn q es → NotIn q (es ++ (e ∷ []))
  NotIn-end q e [] ne h = (ne, tt)
  NotIn-end q e (x ∷ xs) ne (nx, h) = (nx, NotIn-end q e xs ne h)

  pub Distinct-end :
      (e : Entry V) (es : List (Entry V)) → NotIn e.at es → Distinct es → Distinct (es ++ (e ∷ []))
  Distinct-end e [] fresh d = (tt, tt)
  Distinct-end e (x ∷ xs) (ne, fresh) (out, d) =
      (NotIn-end x.at e xs (λ h. ne (sym h)) out, Distinct-end e xs fresh d)
