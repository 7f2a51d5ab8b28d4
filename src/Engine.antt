-- ===== src/Engine.antt =====
-- include/trz/engine: the parts of the engine that are modelled.
pub mod ForwardChain
pub mod DoubleChain
pub mod EventTable
pub mod Exchange
pub mod RefMapper
