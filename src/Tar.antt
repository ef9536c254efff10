-- ===== src/Tar.antt =====
-- Package tar: the buffer pool, the publication of paths, and the reading of an archive.
mod Tests
pub mod Pool
pub mod PubSub
pub mod Invariant
pub mod Moves
pub mod Waiters
pub mod Read
pub mod Unpack
pub mod Runs
pub mod Bytes
pub mod Ends
pub mod Emitted
