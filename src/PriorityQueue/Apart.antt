-- ===== src/PriorityQueue/Apart.antt =====
-- Lists of nodes that share no node.
use libstappler_common.Common.{ℕ, ◌≡◌, sym, inl, inr, ◌∙◌, Bool, List, [], ◌∷◌, Bool-cases}
use libstappler_common.Common.Int.{ℤ}
use libstappler_common.PriorityQueue.Nodes.{Memory, State}
use libstappler_common.PriorityQueue.Chain.{
  Entry, NotIn, Agree, Chain-Agree, insert, insert-true, insert-false, insert-nil,
}
use libstappler_common.PriorityQueue.Place.{IsQueue}
use libstappler_common.PriorityQueue.Pool.{IsPool}

module _ {V : Type 0} where
  abbrev pub Apart : List (Entry V) → List (Entry V) → Type 0
  Apart [] fs = Unit {0}
  Apart (e ∷ es) fs = NotIn e.at fs × Apart es fs

  pub Apart-nil : (es : List (Entry V)) → Apart es []
  Apart-nil [] = tt
  Apart-nil (e ∷ es) = (tt, Apart-nil es)

  pub Apart-head : (f : Entry V) (es fs : List (Entry V)) → Apart es (f ∷ fs) → NotIn f.at es
  Apart-head f [] fs h = tt
  Apart-head f (e ∷ es) fs ((ne, out), h) = ((λ k. ne (sym k)), Apart-head f es fs h)

  pub Apart-tail : (f : Entry V) (es fs : List (Entry V)) → Apart es (f ∷ fs) → Apart es fs
  Apart-tail f [] fs h = tt
  Apart-tail f (e ∷ es) fs ((ne, out), h) = (out, Apart-tail f es fs h)

  pub Apart-cons :
      (f : Entry V) (es fs : List (Entry V)) → NotIn f.at es → Apart es fs → Apart es (f ∷ fs)
  Apart-cons f [] fs n h = tt
  Apart-cons f (e ∷ es) fs (ne, n) (out, h) = (((λ k. ne (sym k)), out), Apart-cons f es fs n h)

  pub Apart-sym : (es fs : List (Entry V)) → Apart es fs → Apart fs es
  Apart-sym [] fs h = Apart-nil fs
  Apart-sym (e ∷ es) fs (out, h) = Apart-cons e fs es out (Apart-sym es fs h)

  pub Apart-insert :
      (test : ℤ → Bool) (e : Entry V) (es fs : List (Entry V))
      → NotIn e.at fs
      → Apart es fs
      → Apart (insert test e es) fs
  Apart-insert test e [] fs out h = rw (insert-nil test e) (out, tt)
  Apart-insert test e (x ∷ xs) fs out (ox, h) = elim (Bool-cases (test x.cell.priority)) [
    | inl y ↦ rw (insert-true test e x xs y) (ox, Apart-insert test e xs fs out h)
    | inr n ↦ rw (insert-false test e x xs n) (out, (ox, h))
  ]

  -- Memories that agree outside some nodes agree on the nodes of a list apart from them.
  pub Agree-Apart :
      (m m' : Memory V) (es fs : List (Entry V))
      → ((q : ℕ) → NotIn q fs → m' q ≡ m q)
      → Apart es fs
      → Agree m m' es
  Agree-Apart m m' [] fs frame h = tt
  Agree-Apart m m' (e ∷ es) fs frame (out, h) = (frame e.at out, Agree-Apart m m' es fs frame h)

  -- A list is kept where its ends and its nodes are.
  pub IsQueue-Agree :
      (s t : State V) (es : List (Entry V))
      → t.queue_first ≡ s.queue_first
      → t.queue_last ≡ s.queue_last
      → Agree s.memory t.memory es
      → IsQueue s es
      → IsQueue t es
  IsQueue-Agree s t es first last same queue = record {
    first = first ∙ queue.first;
    last = last ∙ queue.last;
    chain = Chain-Agree s.memory t.memory es same queue.chain;
    distinct = queue.distinct;
  }

  pub IsPool-Agree :
      (s t : State V) (es : List (Entry V))
      → t.free_first ≡ s.free_first
      → t.free_last ≡ s.free_last
      → Agree s.memory t.memory es
      → IsPool s es
      → IsPool t es
  IsPool-Agree s t es first last same pool = record {
    first = first ∙ pool.first;
    last = last ∙ pool.last;
    chain = Chain-Agree s.memory t.memory es same pool.chain;
    distinct = pool.distinct;
    preallocated = pool.preallocated;
  }
