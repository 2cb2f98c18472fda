-- ===== src/Memory.antt =====
-- util/pool.h, util/pool.cpp, util/allocator.h and util/allocator.cpp: where the program's objects
-- are kept.
pub mod Pool
pub mod Slots
pub mod Allocates
pub mod Fresh
pub mod Interface
pub mod Inline
pub mod Blocks
pub mod Arena
pub mod Chunks
pub mod Cache
pub mod Serves
