-- ===== src/Lib.antt =====
-- libstappler-common: the codecs, the paths, the CBOR data format, the memory pools, the priority queue,
-- the red-black tree, the calendar and the UUIDs.
--
-- The program is a C++ library. The parts here and the files that model them:
--   Coding/Base64, Coding/Base16: common/string/SPBase64.cc. `make_encode`, `make_decode` and the functions of
--     namespace base16 keep their names; the overloads for pools, streams and callbacks collect the same output.
--   Text/View: the operations of common/string/SPBytesReader.h and SPStringView.h that the paths use. A view is
--     the list of its characters, and a position that is not found is `none`.
--   Text/Unicode: common/string/SPUnicode.h and SPUnicode.cc, UTF-8 of code units below 2 ^ 16.
--   Text/Decimal: `_to_decimal` of common/string/SPString.cc.
--   Filepath: modules/filesystem/SPFilepath.h and SPFilepath.cc. isAboveRoot, validatePath and reconstructPath go
--     over the components that `components` gives; `none` is a call of front() or back() on an empty view.
--     Filepath/Canonical takes the directories and the test of a bundled file, which the operating system
--     answers, as the record `Platform`.
--   Cbor: modules/data. Cbor/Reader is `BytesViewTemplate<Endian::Network>`, Cbor/Head the initial bytes and their
--     arguments (SPDataCbor.h), Cbor/Float the doubles (SPDataCbor.h, common/utils/SPHalfFloat.h), with Form the width
--     that is chosen, Ieee what is asked of the host and of the parts of a half, Half and Returns the way back, and
--     Machine a host that meets it, Cbor/Value the values (SPDataValue.h), Cbor/Encode the encoder
--     (SPDataEncodeCbor.h), Cbor/Decode the decoder (SPDataDecodeCbor.h) with one function for each of its methods.
--   MemPool: common/memory/pool. Nodes, Alloc and Free are the allocator (SPMemPoolAllocator.cc), whose free lists
--     are lists of nodes, Palloc the ring of nodes of a pool (SPMemPoolPool.cc). Sound, Stored, Size, Search,
--     Take, Keep and Account are about the free lists, Serve about `alloc`, Quota and Limit about `set_max`, Life
--     about the nodes that callers hold; Bytes, Blocks, RingOrder, Apart, Track and Whole are about the pool, and
--     PoolLife about a pool on an allocator of its own.
--   PriorityQueue: common/memory/SPMemPriorityQueue.h. Nodes is the memory, in which an address without a node and
--     a null pointer have no result, Insert the queue, Allocate the free list and the blocks, Access the public
--     operations. Chain, Order, Place, Push, Pop, Pool and Apart are about linked lists in the memory, and Sound
--     about the states that hold a list of values; Spec is that list with its operations.
--   Rbtree: common/memory/SPMemRbtree.h and SPMemRbtree.cc. Nodes is the fields of the nodes and the walk from node
--     to node, Rotate the rotations and `NodeBase::insert`, Search the searches with the comparator as an
--     argument. Shape is the trees that the pointers stand for, Bounds about the searches, Place, Attach and Turn
--     about a subtree and the path above it, TurnRight and TurnLeft about the rotations, Balance about black
--     heights, and Tint, Focus, Step, Black, Loop, Rounds, RoundsRight and Mended about the loop behind an insertion.
--   Time: common/utils/SPTime.h and SPTime.cc. Calendar is `sp_time_exp_t` with geti, Mask the masks of the
--     formats, Read and Parse the reading, where `none` is the answer false, Print the writing, Http
--     `Time::fromHttp` and `Time::fromCompileTime`, whose local time zone is an argument. The numbers that
--     `strtoll` and `strtod` read are the record `Numbers`, an argument.
--   Uuid: common/memory/SPMemUuid.cc, with the clock and the node as arguments; `none` of `parse` is the answer false.
-- Common holds lists and tests over the native numbers, bit fields and tables checked by evaluation.
--
-- The encoder appends: what it appends is its result. The decoder's view is passed on and returned. Doubles and
-- floats are bit patterns; the conversions between them, `ldexp` and the text of an integer belong to the compiler
-- and the C++ library, and are the record `Host`, an argument; `IsIeee` says that they are exact where they can be.
-- `signed64` is the cast of a `uint64_t`.
--
-- The answer of `malloc` is an argument of the functions that call it. Each call may have another one, and what
-- they rely on is that it gives no memory that is in use (GivesNew, GivesApart).
--
-- Integers are natural numbers with the casts of the source written out (`u8`, `u16`, `u32`, `u64`). The decoder of
-- CBOR recurses on fuel, where `stuck` is no answer of the code and `fault` is undefined behaviour; five times the
-- length of an encoding is enough fuel to read it. `decodeUndefinedLength` has its own fuel, one more than the
-- bytes that are left, since each round takes a byte. The loops of the priority queue take one unit of fuel for a
-- node: eight are enough for the preallocated nodes, and nine where a loop goes on to the end of a list.
--
-- Not modelled: the file, stream and buffer outputs of the encoder, `split` and the merge of a vector of paths,
-- HTML entities, the locks of the priority queue, the clock and the time zone, and the rest of the repository:
-- the mmap region, the cleanups and child pools of the memory pools, the removal from the tree, the other
-- containers, URL and HTML utilities, JSON and the other data formats, bitmaps,
-- cryptography, geometry, network, tesselation, threads and the vendored libraries.
pub mod Common
pub mod Coding
pub mod Text
pub mod Filepath
pub mod Cbor
pub mod MemPool
pub mod PriorityQueue
pub mod Rbtree
pub mod Time
pub mod Uuid
