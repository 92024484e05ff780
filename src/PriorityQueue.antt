-- ===== src/PriorityQueue.antt =====
-- `PriorityQueue` of common/memory/SPMemPriorityQueue.h: two linked lists, the queue and the free nodes, over
-- nodes that are preallocated or stand in blocks. A pointer is an address or null (`none`), and the memory gives
-- each address its node, or nothing for a deleted one, so that `none` is also the result of an access through
-- a null or dangling pointer. Each function is the section that its lock guards.
pub mod Nodes
pub mod Insert
pub mod Allocate
pub mod Access
pub mod Chain
pub mod Order
pub mod Place
pub mod Push
pub mod Pop
pub mod Pool
pub mod Spec
pub mod Apart
pub mod Sound
pub mod Refinement
pub mod Reach
pub mod Faults
pub mod Runs
