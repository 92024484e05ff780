-- ===== src/MemPool.antt =====
-- The memory pools of common/memory/pool: the allocator that keeps free blocks of memory, and the pool that cuts
-- them up. A free list is the list of its nodes from its head on, an address is a number, and `malloc` is a
-- parameter, a function from the size to the address or null.
pub mod Nodes
pub mod Alloc
pub mod Free
pub mod Stored
pub mod Size
pub mod Sound
pub mod Search
pub mod Take
pub mod Serve
pub mod Keep
pub mod Quota
pub mod Account
pub mod Life
pub mod Limit
pub mod Again
pub mod Palloc
pub mod Bytes
pub mod Blocks
pub mod Apart
pub mod Track
pub mod Whole
pub mod PoolLife
pub mod Runs
pub mod PoolRuns
pub mod RingOrder
