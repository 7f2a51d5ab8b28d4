-- ===== src/Engine/EventTable/Lookup.antt =====
-- src/engine/actor.cpp, src/engine/node.cpp and include/trz/engine/internal/node.h: the handler that
-- an event has, and the calls that register, unregister and look it up.
pub mod High
pub mod Handlers
pub mod Unregister
pub mod Events
