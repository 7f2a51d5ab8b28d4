-- ===== src/Bus.antt =====
-- include/trz/pattern/bus: the bus between two threads.
pub mod Fifo
pub mod RingBuffer
pub mod Channel
