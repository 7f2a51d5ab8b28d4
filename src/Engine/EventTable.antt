-- ===== src/Engine/EventTable.antt =====
-- include/trz/engine/internal/node.h (EventTable), src/engine/node.cpp and src/engine/actor.cpp:
-- the arrays in which an actor keeps its event handlers. A block of memory that an array was given
-- is the list of its cells; an array that was not allocated is `none`. Asserts are on: a failed
-- `assert`, or a loop that reads past the end of its block, is `fails`.
mod Low
mod Table
pub mod Pipes
pub mod Entries
pub mod Blocks
pub mod Registers
pub mod Unregisters
pub mod Lookup
pub mod Undelivered
mod Tests
pub use Low.*
pub use Table.*
