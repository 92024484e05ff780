-- ===== src/PriorityQueue/Chain.antt =====
-- Linked lists in memory: the nodes at given addresses, one behind the other.
use libstappler_common.Common.{
  ◌>>=◌, ℕ, zero, suc, ◌<◌, ◌≡◌, ◌≢◌, inl, inr, refl, sym, ◌∙◌, arith, Bool, true, false, List, [],
  ◌∷◌, Option, none, some, length, Bool-cases,
}
use libstappler_common.Common.Int.{ℤ}
use libstappler_common.PriorityQueue.Nodes.{Cell, Node, Memory, update, set_next}
use libstappler_common.PriorityQueue.Insert.{walk, link}

-- A node, by its address, without its pointer.
pub record Entry (V : Type 0) : Type 0 where
  pub at : ℕ
  pub cell : Cell V

module _ {V : Type 0} where
  -- The address of the first entry and of the last.
  abbrev pub first_of : List (Entry V) → Option ℕ
  first_of [] = none
  first_of (e ∷ es) = some e.at

  abbrev pub last_of : List (Entry V) → Option ℕ
  last_of [] = none
  last_of (e ∷ []) = some e.at
  last_of (e ∷ f ∷ es) = last_of (f ∷ es)

  abbrev pub node_of : Entry V → Option ℕ → Node V
  node_of e next = record { cell = e.cell; next = next }

  -- The entries stand in memory, each pointing to the next and the last one to null.
  abbrev pub Chain : Memory V → List (Entry V) → Type 0
  Chain m [] = Unit {0}
  Chain m (e ∷ es) = (m e.at ≡ some (node_of e (first_of es))) × Chain m es

  abbrev pub NotIn : ℕ → List (Entry V) → Type 0
  NotIn a [] = Unit {0}
  NotIn a (e ∷ es) = (a ≢ e.at) × NotIn a es

  abbrev pub Distinct : List (Entry V) → Type 0
  Distinct [] = Unit {0}
  Distinct (e ∷ es) = NotIn e.at es × Distinct es

  -- Two memories agree at the entries' addresses.
  abbrev pub Agree : Memory V → Memory V → List (Entry V) → Type 0
  Agree m m' [] = Unit {0}
  Agree m m' (e ∷ es) = (m' e.at ≡ m e.at) × Agree m m' es

  -- The new entry in its place: behind the entries that `test` holds of.
  unfoldable pub insert : (ℤ → Bool) → Entry V → List (Entry V) → List (Entry V)
  insert test e [] = e ∷ []
  insert test e (x ∷ xs) = elim (test x.cell.priority) [
    | true ↦ x ∷ insert test e xs
    | false ↦ e ∷ x ∷ xs
  ]

  pub insert-true :
      (test : ℤ → Bool) (e x : Entry V) (xs : List (Entry V))
      → test x.cell.priority ≡ true
      → insert test e (x ∷ xs) ≡ x ∷ insert test e xs
  unfolding insert
  insert-true test e x xs h = rw (h, insert) refl

  pub insert-false :
      (test : ℤ → Bool) (e x : Entry V) (xs : List (Entry V))
      → test x.cell.priority ≡ false
      → insert test e (x ∷ xs) ≡ e ∷ x ∷ xs
  unfolding insert
  insert-false test e x xs h = rw (h, insert) refl

  pub insert-nil : (test : ℤ → Bool) (e : Entry V) → insert test e [] ≡ e ∷ []
  unfolding insert
  insert-nil test e = refl

  pub update-same : (m : Memory V) (a : ℕ) (n : Node V) → update m a n a ≡ some n
  update-same m a n = ground arith

  pub update-other : (m : Memory V) (a b : ℕ) (n : Node V) → a ≢ b → update m a n b ≡ m b
  update-other m a b n h = ground arith

  pub Chain-Agree :
      (m m' : Memory V) (es : List (Entry V)) → Agree m m' es → Chain m es → Chain m' es
  Chain-Agree m m' [] g c = tt
  Chain-Agree m m' (e ∷ es) (same, g) (here, c) = (same ∙ here, Chain-Agree m m' es g c)

  pub Agree-update :
      (m : Memory V) (a : ℕ) (n : Node V) (es : List (Entry V))
      → NotIn a es
      → Agree m (update m a n) es
  Agree-update m a n [] h = tt
  Agree-update m a n (e ∷ es) (ne, h) = (update-other m a e.at n ne, Agree-update m a n es h)

  -- A chain is not touched by a write to another address.
  pub Chain-update :
      (m : Memory V) (a : ℕ) (n : Node V) (es : List (Entry V))
      → NotIn a es
      → Chain m es
      → Chain (update m a n) es
  Chain-update m a n es h = Chain-Agree m (update m a n) es (Agree-update m a n es h)

  -- `node->next = n->next; n->next = node` behind the first entry of a chain.
  -- `e` is the new entry, whose pointer holds anything.
  pub link-first :
      (m : Memory V) (e x : Entry V) (xs : List (Entry V)) (old : Option ℕ)
      → m e.at ≡ some (node_of e old)
      → NotIn e.at (x ∷ xs)
      → Distinct (x ∷ xs)
      → Chain m (x ∷ xs)
      → (m' : Memory V) × (link e.at m x.at ≡ some m')
        × Chain m' (x ∷ e ∷ xs)
        × ((q : ℕ) → NotIn q (x ∷ e ∷ xs) → m' q ≡ m q)
  unfolding link set_next
  link-first m e x xs old node (ne, fresh) (out, others) (here, c) =
      let m₁ = update m e.at (node_of e (first_of xs)) in
      let m₂ = update m₁ x.at (node_of x (some e.at)) in
      (
        m₂,
        rw (here, node, update-other m e.at x.at (node_of e (first_of xs)) ne, here) refl,
        (
          update-same m₁ x.at (node_of x (some e.at)),
          (
            update-other m₁ x.at e.at (node_of x (some e.at)) (λ h. ne (sym h))
                ∙ update-same m e.at (node_of e (first_of xs)),
            Chain-update m₁ x.at (node_of x (some e.at)) xs out
                (Chain-update m e.at (node_of e (first_of xs)) xs fresh c),
          ),
        ),
        λ q (nx, (nexs, nq)).
            update-other m₁ x.at q (node_of x (some e.at)) (λ h. nx (sym h))
            ∙ update-other m e.at q (node_of e (first_of xs)) (λ h. nexs (sym h)),
      )

  -- The loop of `pushNode` and the two assignments behind it.
  pub walk-insert :
      (fuel : ℕ) (test : ℤ → Bool) (m : Memory V) (e x : Entry V) (xs : List (Entry V))
      (old : Option ℕ)
      → length xs < fuel
      → m e.at ≡ some (node_of e old)
      → NotIn e.at (x ∷ xs)
      → Distinct (x ∷ xs)
      → Chain m (x ∷ xs)
      → (m' : Memory V) × ((walk fuel test m x.at >>= link e.at m) ≡ some m')
        × Chain m' (x ∷ insert test e xs)
        × ((q : ℕ) → NotIn q (x ∷ e ∷ xs) → m' q ≡ m q)
  unfolding walk
  walk-insert zero test m e x xs old h node ne d c = absurd (omega arith)
  walk-insert (suc fuel) test m e x [] old h node ne d (here, c) =
      let (m', l, c', frame) = link-first m e x [] old node ne d (here, c) in
      (m', rw (here) l, rw (insert-nil test e) c', frame)
  walk-insert (suc fuel) test m e x (y ∷ ys) old h node (ne, fresh) (out, others)
        (here, (there, c)) =
      elim (Bool-cases (test y.cell.priority)) [
        | inl p ↦
            let (m', l, c', frame) =
              walk-insert fuel test m e y ys old (omega arith) node fresh others (there, c) in
            (
              m',
              rw (here, there, p) l,
              rw (insert-true test e y ys p)
                  (frame x.at (out.0, ((λ h. ne (sym h)), out.1)) ∙ here, c'),
              λ q (a, (b, (c, d))). frame q (c, (b, d)),
            )
        | inr p ↦
            let (m', l, c', frame) =
              link-first m e x (y ∷ ys) old node (ne, fresh) (out, others) (here, (there, c)) in
            (m', rw (here, there, p) l, rw (insert-false test e y ys p) c', frame)
      ]
