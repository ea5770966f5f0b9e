-- ===== src/Cache.antt =====
-- blockscache.h and blockscache.cpp: the class BlocksCache.
pub mod Storage
pub mod Access
pub mod Transfer
pub mod Writer
pub mod Loop
pub mod Locks
pub mod Failure
pub mod Flush
pub mod Eviction
pub mod Cut
pub mod Releasing
pub mod Truncated
pub mod Pieces
pub mod Reading
pub mod PastEnd
pub mod Holes
pub mod Threads
pub mod Lifetimes
pub mod Signature
pub mod Contents
