-- ===== src/Engine/Exchange.antt =====
-- include/trz/engine/internal/node.h, include/trz/engine/internal/parallel.h and
-- src/engine/node.cpp: how one core (the writer) hands its events to another (the reader). For each
-- pair of cores there is a cache that the writer alone uses, and a part that both use in turns,
-- which the flag `isWriteLocked` gives to the one or the other. An event is the number that stands
-- for its address. Chains are lists (ForwardChain shows what the links do); an `assert` that fails
-- is `none`.
mod Shared
mod Pages
pub mod Threads
pub mod Merge
pub mod Allocates
pub mod Inv
pub mod History
pub mod Writes
pub mod Preserves
pub mod Recycles
pub mod Recalls
pub mod Lodged
pub mod Slots
pub mod Reads
pub mod Safety
mod Tests
pub use Shared.*
pub use Pages.*
