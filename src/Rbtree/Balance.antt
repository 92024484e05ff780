-- ===== src/Rbtree/Balance.antt =====
-- Red-black trees, and trees that lack only one subtree for it.
use libstappler_common.Common.{
  ℕ, suc, ◌≡◌, refl, sym, ap, ◌∙◌, Bool, true, false, List, [], ◌∷◌, ◌++◌,
}
use libstappler_common.Rbtree.Shape.{Tree, leaf, node, inorder}
use libstappler_common.Rbtree.Place.{Frame, in_left, in_right}

abbrev pub color : Tree → Bool
color leaf = false
color (node a red l r) = red

-- The black height of a node above subtrees of the height `k`.
abbrev pub raised : Bool → ℕ → ℕ
raised true k = k
raised false k = suc k

-- `Balanced t k`: each way down meets `k` black nodes, and no red node has a red child.
abbrev pub Balanced : Tree → ℕ → Type 0
Balanced leaf k = k ≡ 0
Balanced (node a red l r) k =
    (j : ℕ) × (k ≡ raised red j)
    × (red ≡ true → (color l ≡ false) × (color r ≡ false))
    × Balanced l j
    × Balanced r j

-- The colour of the node above, where the header counts as red: the root is not.
abbrev pub color_above : List Frame → Bool
color_above [] = true
color_above (in_left a red r ∷ path) = red
color_above (in_right a red l ∷ path) = red

-- The path needs a subtree of the black height `k` below it, a black one where its end is red.
abbrev pub Needs : List Frame → ℕ → Type 0
Needs [] k = Unit {0}
Needs (in_left a red r ∷ path) k =
    Balanced r k
    × (red ≡ true → (color r ≡ false) × (color_above path ≡ false))
    × Needs path (raised red k)
Needs (in_right a red l ∷ path) k =
    Balanced l k
    × (red ≡ true → (color l ≡ false) × (color_above path ≡ false))
    × Needs path (raised red k)

abbrev pub plug : List Frame → Tree → Tree
plug [] t = t
plug (in_left a red r ∷ path) t = plug path (node a red t r)
plug (in_right a red l ∷ path) t = plug path (node a red l t)

-- A whole tree that is balanced and has a black root.
abbrev pub IsRedBlack : Tree → Type 0
IsRedBlack t = (color t ≡ false) × ((k : ℕ) × Balanced t k)

black_below : (above red : Bool) → above ≡ true → (red ≡ true → above ≡ false) → red ≡ false
black_below above true h f = sym h ∙ f refl
black_below above false h f = refl

-- The subtree fits below the path.
pub plug-IsRedBlack :
    (path : List Frame) (t : Tree) (k : ℕ)
    → Needs path k
    → Balanced t k
    → (color_above path ≡ true → color t ≡ false)
    → IsRedBlack (plug path t)
plug-IsRedBlack [] t k needs balanced black = (black refl, (k, balanced))
plug-IsRedBlack (in_left a red r ∷ path) t k (br, both, needs) balanced black =
    plug-IsRedBlack path (node a red t r) (raised red k) needs
      (k, refl, (λ h. (black h, (both h).0)), balanced, br)
      (λ h. black_below (color_above path) red h (λ e. (both e).1))
plug-IsRedBlack (in_right a red l ∷ path) t k (bl, both, needs) balanced black =
    plug-IsRedBlack path (node a red l t) (raised red k) needs
      (k, refl, (λ h. ((both h).0, black h)), bl, balanced)
      (λ h. black_below (color_above path) red h (λ e. (both e).1))

-- The order of the nodes is that of the subtree inside that of the others.
pub inorder-plug :
    (path : List Frame) (t u : Tree)
    → inorder t ≡ inorder u
    → inorder (plug path t) ≡ inorder (plug path u)
inorder-plug [] t u e = e
inorder-plug (in_left a red r ∷ path) t u e =
    inorder-plug path (node a red t r) (node a red u r) (ap (λ x. x ++ a ∷ inorder r) e)
inorder-plug (in_right a red l ∷ path) t u e =
    inorder-plug path (node a red l t) (node a red l u) (ap (λ x. inorder l ++ a ∷ x) e)
