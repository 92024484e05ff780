-- ===== src/PriorityQueue/Place.antt =====
-- The three ways in which `pushNode` links a node into a queue that is not empty.
use libstappler_common.Common.{
  ◌>>=◌, ℕ, ◌<◌, ◌≡◌, inl, inr, refl, sym, ◌∙◌, ap, Bool, true, false, not, List, [], ◌∷◌, ◌++◌,
  Option, none, some, length, Bool-cases,
}
use libstappler_common.Common.Int.{ℤ}
use libstappler_common.PriorityQueue.Nodes.{Memory, State, update, set_next, deref}
use libstappler_common.PriorityQueue.Insert.{walk, link, append, place}
use libstappler_common.PriorityQueue.Chain.{
  Entry, first_of, last_of, node_of, Chain, NotIn, Distinct, insert, insert-true, insert-false,
  update-same, update-other, Chain-update, walk-insert,
}
use libstappler_common.PriorityQueue.Order.{
  Sorted, Closed, Distinct-insert, last_entry, last_of-last_entry, insert_end, last_of-insert,
  last_of_end, Distinct-end,
}

-- The entries of the queue, from the first to the last.
pub record IsQueue {V : Type 0} (s : State V) (es : List (Entry V)) : Type 0 where
  pub first : s.queue_first ≡ first_of es
  pub last : s.queue_last ≡ last_of es
  pub chain : Chain s.memory es
  pub distinct : Distinct es

bind_assoc :
    {A B C : Type 0} (o : Option A) (f : A → Option B) (g : B → Option C)
    → (o >>= λ a. f a >>= g) ≡ ((o >>= f) >>= g)
bind_assoc none f g = refl
bind_assoc (some a) f g = refl

module _ {V : Type 0} where
  last_node :
      (m : Memory V) (x : Entry V) (xs : List (Entry V))
      → Chain m (x ∷ xs)
      → m (last_entry x xs).at ≡ some (node_of (last_entry x xs) none)
  last_node m x [] (here, c) = here
  last_node m x (y ∷ ys) (here, c) = last_node m y ys c

  Chain-append :
      (m : Memory V) (e x : Entry V) (xs : List (Entry V))
      → m e.at ≡ some (node_of e none)
      → NotIn e.at (x ∷ xs)
      → Distinct (x ∷ xs)
      → Chain m (x ∷ xs)
      → (m' : Memory V) × (set_next (last_entry x xs).at (some e.at) m ≡ some m')
        × Chain m' ((x ∷ xs) ++ (e ∷ []))
        × ((q : ℕ) → NotIn q (x ∷ xs) → m' q ≡ m q)
  unfolding set_next
  Chain-append m e x [] node (ne, fresh) d (here, c) =
      let n = node_of x (some e.at) in
      (
        update m x.at n,
        rw (here) refl,
        (update-same m x.at n, (update-other m x.at e.at n (λ h. ne (sym h)) ∙ node, tt)),
        λ q (a, b). update-other m x.at q n (λ h. a (sym h)),
      )
  Chain-append m e x (y ∷ ys) node (ne, fresh) (out, d) (here, c) =
      let (m', l, c', frame) = Chain-append m e y ys node fresh d c in
      (m', l, (frame x.at out ∙ here, c'), λ q (a, b). frame q b)

  -- What `pushNode` makes of the state: the entries in their order, and nothing else touched.
  abbrev pub Placed :
      State V → List (Entry V) → Entry V → List (Entry V) → Option (State V) → Type 0
  Placed s es e after result =
      (t : State V) × (result ≡ some t)
      × IsQueue t after
      × ((q : ℕ) → NotIn q (e ∷ es) → t.memory q ≡ s.memory q)
      × (t ≡ record s { memory = t.memory; queue_first = t.queue_first; queue_last = t.queue_last })

  place_in_front :
      (fuel : ℕ) (front back test : ℤ → Bool) (s : State V) (e x : Entry V) (xs : List (Entry V))
      → front x.cell.priority ≡ true
      → s.memory e.at ≡ some (node_of e none)
      → NotIn e.at (x ∷ xs)
      → IsQueue s (x ∷ xs)
      → Placed s (x ∷ xs) e (e ∷ x ∷ xs) (place fuel front back test e.at x.at s)
  unfolding place set_next
  place_in_front fuel front back test s e x xs h node (ne, fresh) queue =
      let n = node_of e (some x.at) in
      let m = update s.memory e.at n in
      (
        record s { memory = m; queue_first = some e.at },
        rw (queue.chain.0, h, node) refl,
        record {
          first = refl;
          last = queue.last;
          chain = (
            update-same s.memory e.at n,
            Chain-update s.memory e.at n (x ∷ xs) (ne, fresh) queue.chain,
          );
          distinct = ((ne, fresh), queue.distinct);
        },
        λ q (a, b). update-other s.memory e.at q n (λ k. a (sym k)),
        refl,
      )

  place_at_end :
      (fuel : ℕ) (front back test : ℤ → Bool) (s : State V) (e x : Entry V) (xs : List (Entry V))
      → front x.cell.priority ≡ false
      → back (last_entry x xs).cell.priority ≡ true
      → s.memory e.at ≡ some (node_of e none)
      → NotIn e.at (x ∷ xs)
      → IsQueue s (x ∷ xs)
      → Placed s (x ∷ xs) e ((x ∷ xs) ++ (e ∷ [])) (place fuel front back test e.at x.at s)
  unfolding place deref
  place_at_end fuel front back test s e x xs h k node fresh queue =
      let (m, l, c, frame) = Chain-append s.memory e x xs node fresh queue.distinct queue.chain in
      (
        record s { memory = m; queue_last = some e.at },
        rw
            (
              queue.chain.0,
              h,
              queue.last,
              last_of-last_entry x xs,
              last_node s.memory x xs queue.chain,
              k,
              append,
              queue.last,
              last_of-last_entry x xs,
              l,
            )
            refl,
        record {
          first = queue.first;
          last = sym (last_of_end e x xs);
          chain = c;
          distinct = Distinct-end e (x ∷ xs) fresh queue.distinct;
        },
        λ q (a, b). frame q b,
        refl,
      )

  place_between :
      (fuel : ℕ) (front back test : ℤ → Bool) (s : State V) (e x : Entry V) (xs : List (Entry V))
      → front x.cell.priority ≡ false
      → back (last_entry x xs).cell.priority ≡ false
      → test x.cell.priority ≡ true
      → test (last_entry x xs).cell.priority ≡ false
      → length xs < fuel
      → s.memory e.at ≡ some (node_of e none)
      → NotIn e.at (x ∷ xs)
      → IsQueue s (x ∷ xs)
      → Placed s (x ∷ xs) e (insert test e (x ∷ xs)) (place fuel front back test e.at x.at s)
  unfolding place deref
  place_between fuel front back test s e x xs h k t l enough node fresh queue =
      let (m, w, c, frame) =
        walk-insert fuel test s.memory e x xs none enough node fresh queue.distinct queue.chain in
      (
        record s { memory = m; queue_last = some (last_entry x xs).at },
        rw
            (
              queue.chain.0,
              h,
              queue.last,
              last_of-last_entry x xs,
              last_node s.memory x xs queue.chain,
              k,
            )
            (bind_assoc (walk fuel test s.memory x.at) (link e.at s.memory)
                (λ m'. some (record s { memory = m' }))
              ∙ rw (w, queue.last, last_of-last_entry x xs) refl),
        record {
          first = rw (insert-true test e x xs t) queue.first;
          last = sym (last_of-insert test e x xs l ∙ last_of-last_entry x xs);
          chain = rw (insert-true test e x xs t) c;
          distinct = Distinct-insert test e (x ∷ xs) fresh queue.distinct;
        },
        λ q (a, (b, f)). frame q (b, (a, f)),
        refl,
      )

  pub place-insert :
      (fuel : ℕ) (front test : ℤ → Bool) (s : State V) (e x : Entry V) (xs : List (Entry V))
      → ((k : ℤ) → front k ≡ not (test k))
      → Closed test
      → Sorted (x ∷ xs)
      → length xs < fuel
      → s.memory e.at ≡ some (node_of e none)
      → NotIn e.at (x ∷ xs)
      → IsQueue s (x ∷ xs)
      → Placed s (x ∷ xs) e (insert test e (x ∷ xs)) (place fuel front test test e.at x.at s)
  place-insert fuel front test s e x xs opposite closed sorted enough node fresh queue =
      elim (Bool-cases (test x.cell.priority)) [
        | inr n ↦ rw (insert-false test e x xs n) (
            place_in_front fuel front test test s e x xs (opposite x.cell.priority ∙ ap not n) node
              fresh queue)
        | inl y ↦
            let front_fails = opposite x.cell.priority ∙ ap not y in
            elim (Bool-cases (test (last_entry x xs).cell.priority)) [
              | inl l ↦
                  rw (insert_end test e x xs closed sorted l)
                    (place_at_end fuel front test test s e x xs front_fails l node fresh queue)
              | inr l ↦
                  place_between fuel front test test s e x xs front_fails l y l enough node fresh
                    queue
            ]
      ]
