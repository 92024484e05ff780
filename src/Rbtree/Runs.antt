-- ===== src/Rbtree/Runs.antt =====
-- The properties of the red-black tree at a concrete tree.
use libstappler_common.Common.{
  ℕ, ◌+◌, ◌*◌, ◌≤◌, ◌≡◌, refl, arith, true, false, [], ◌∷◌, none, some, ltb, List, sym,
}
use libstappler_common.Rbtree.Nodes.{NodeBase, set}
use libstappler_common.Rbtree.Rotate.{rotate_right, insert}
use libstappler_common.Rbtree.Search.{lower_bound, upper_from, upper_bound}
use libstappler_common.Rbtree.Shape.{Tree, leaf, node, Shows, inorder, Ordered, first_that}
use libstappler_common.Rbtree.Bounds.{
  true-false, IsTransitive, not_before, after, lower_bound-first_that, upper_bound-first_that,
}
use libstappler_common.Rbtree.Place.{one, tally, Frame, in_right, tally_path, Stands, Spares}
use libstappler_common.Rbtree.TurnRight.{rotate_right-Stands}
use libstappler_common.Rbtree.Balance.{Needs, IsRedBlack}
use libstappler_common.Rbtree.Mended.{insert-IsRedBlack}

-- The header is 0, and the nodes have the keys 10, 20 and 30.
abbrev three : NodeBase
three = record {
  parent = set (set (set (set (λ q. none) 0 (some 1)) 2 (some 0)) 1 (some 2)) 3 (some 2);
  left = set (set (λ q. none) 0 (some 2)) 2 (some 1);
  right = set (set (λ q. none) 0 (some 3)) 2 (some 3);
  red = set (λ q. true) 2 false;
}

abbrev three_tree : Tree
three_tree = node 2 false (node 1 true leaf leaf) (node 3 true leaf leaf)

abbrev key : ℕ → ℕ
key a = a * 10

ltb_trans : IsTransitive ltb key
ltb_trans a b c h k = ground arith

three-Shows : Shows three three_tree (some 2) (some 0)
three-Shows = (refl, refl, refl, (refl, refl, refl, refl, refl), (refl, refl, refl, refl, refl))

three-Ordered : Ordered ltb key three_tree
three-Ordered = ((refl, tt), (refl, tt), (tt, tt, tt, tt), (tt, tt, tt, tt))

lower_bound-first_that_example :
    lower_bound ltb key three 3 15 0
    ≡ some (first_that (not_before ltb key 15) none (1 ∷ 2 ∷ 3 ∷ []))
lower_bound-first_that_example =
    lower_bound-first_that ltb key three 15 3 0 three_tree ltb_trans (omega arith) three-Shows
      three-Ordered

-- No key is behind 30.
upper_bound-first_that_example :
    upper_bound ltb key three 3 30 0
    ≡ some (first_that (after ltb key 30) (some 2) (1 ∷ 2 ∷ 3 ∷ []))
upper_bound-first_that_example =
    upper_bound-first_that ltb key three 30 3 0 three_tree ltb_trans (omega arith) three-Shows
      three-Ordered

upper_bound_run : upper_bound ltb key three 3 30 0 ≡ some (some 2)
unfolding upper_bound upper_from
upper_bound_run = refl

three_distinct : (x : ℕ) → one x 0 + (0 + tally x three_tree) ≤ 1
three_distinct x = ground arith

three-Stands : Stands three 0 [] three_tree (some 2) (some 0)
three-Stands = record { on_path = (refl, refl); shows = three-Shows; distinct = three_distinct }

rotate_right-Stands_example :
    (t : NodeBase) × (rotate_right 0 1 2 three ≡ some t)
    × Stands t 0 [] (node 1 true leaf (node 2 false leaf (node 3 true leaf leaf))) (some 1) (some 0)
    × Spares three t 0 [] three_tree
rotate_right-Stands_example =
    rotate_right-Stands three 0 1 2 [] false true leaf leaf (node 3 true leaf leaf) three-Stands

-- The new node 4 is red, and so is its parent 3; the other child 1 of the root is red too.
abbrev four : NodeBase
four = record three { parent = set three.parent 4 (some 3); right = set three.right 3 (some 4) }

abbrev four_path : List Frame
four_path = in_right 3 true leaf ∷ in_right 2 false (node 1 true leaf leaf) ∷ []

four_distinct : (x : ℕ) → one x 0 + (tally_path x four_path + tally x (node 4 true leaf leaf)) ≤ 1
four_distinct x = ground arith

four-Stands : Stands four 0 four_path (node 4 true leaf leaf) (some 4) (some 3)
four-Stands = record {
  on_path =
      (refl, refl, refl, refl, (refl, refl, refl, (refl, refl, refl, refl, refl), (refl, refl)));
  shows = (refl, refl, refl, refl, refl);
  distinct = four_distinct;
}

four-Needs : Needs four_path 0
four-Needs = (
  refl,
  (λ h. (refl, refl)),
  ((0, refl, (λ h. (refl, refl)), refl, refl), (λ h. absurd (true-false (sym h))), tt),
)

insert-IsRedBlack_example :
    (t : NodeBase) × (tree : Tree) × (insert 3 0 4 four ≡ some t)
    × Shows t tree (t.left 0) (some 0)
    × IsRedBlack tree
    × (inorder tree ≡ 1 ∷ 2 ∷ 3 ∷ 4 ∷ [])
insert-IsRedBlack_example =
    insert-IsRedBlack 3 0 four_path four 4 leaf leaf 0 (omega arith) four-Stands
      (0, refl, (λ h. (refl, refl)), refl, refl) four-Needs
