-- ===== src/Rbtree/Search.antt =====
-- The searches of `Tree` in common/memory/SPMemRbtree.h, over the keys of the nodes and the comparator.
use libstappler_common.Common.{ℕ, zero, suc, Bool, true, false, Option, none, some, if◌then◌else◌}
use libstappler_common.Rbtree.Nodes.{NodeBase}

-- Where a search for the place of a new key ends: at a node with the key, or below a parent, to the left of it or not.
pub data InsertData : Type 0 where
  found : ℕ → InsertData
  below : Option ℕ → Bool → InsertData

module _ {K : Type 0} (lt : K → K → Bool) (key : ℕ → K) (s : NodeBase) where
  unfoldable pub find_from : ℕ → K → Option ℕ → Option (Option ℕ)
  find_from zero x current = none
  find_from (suc fuel) x none = some none
  find_from (suc fuel) x (some a) =
      let to_left = find_from fuel x (s.left a) in
      let to_right = find_from fuel x (s.right a) in
      if lt x (key a) then to_left else if lt (key a) x then to_right else some (some a)

  unfoldable pub find_impl : ℕ → K → ℕ → Option (Option ℕ)
  find_impl fuel x head = find_from fuel x (s.left head)

  unfoldable pub lower_from : ℕ → K → Option ℕ → Option ℕ → Option (Option ℕ)
  lower_from zero x saved current = none
  lower_from (suc fuel) x saved none = some saved
  lower_from (suc fuel) x saved (some a) =
      let to_left = lower_from fuel x (some a) (s.left a) in
      let to_right = lower_from fuel x saved (s.right a) in
      if lt (key a) x then to_right else to_left

  unfoldable pub lower_bound : ℕ → K → ℕ → Option (Option ℕ)
  lower_bound fuel x head = lower_from fuel x none (s.left head)

  unfoldable pub upper_from : ℕ → K → Option ℕ → Option ℕ → Option (Option ℕ)
  upper_from zero x saved current = none
  upper_from (suc fuel) x saved none = some saved
  upper_from (suc fuel) x saved (some a) =
      let to_left = upper_from fuel x (some a) (s.left a) in
      let to_right = upper_from fuel x saved (s.right a) in
      if lt x (key a) then to_left else to_right

  -- The search begins with the root as its result.
  unfoldable pub upper_bound : ℕ → K → ℕ → Option (Option ℕ)
  upper_bound fuel x head = upper_from fuel x (s.left head) (s.left head)

  unfoldable pub position_from : ℕ → K → Option ℕ → Bool → Option ℕ → Option InsertData
  position_from zero x parent is_left current = none
  position_from (suc fuel) x parent is_left none = some (below parent is_left)
  position_from (suc fuel) x parent is_left (some a) =
      let to_left = position_from fuel x (some a) true (s.left a) in
      let to_right = position_from fuel x (some a) false (s.right a) in
      if lt x (key a) then to_left else if lt (key a) x then to_right else some (found a)
