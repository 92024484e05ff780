-- ===== src/Rbtree.antt =====
-- The red-black tree of common/memory/SPMemRbtree.h and SPMemRbtree.cc. A node is a number, a pointer is a number or
-- null (`none`), and the fields of the nodes are functions of them. The header of a tree is a node of its own, whose
-- `left` is the root. The loops recurse on fuel, of which a node takes one unit.
pub mod Nodes
pub mod Rotate
pub mod Search
pub mod Shape
pub mod Bounds
pub mod Place
pub mod Attach
pub mod Turn
pub mod TurnRight
pub mod TurnLeft
pub mod Tint
pub mod Balance
pub mod Focus
pub mod Step
pub mod Black
pub mod Loop
pub mod Rounds
pub mod RoundsRight
pub mod Mended
pub mod Runs
