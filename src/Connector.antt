-- ===== src/Connector.antt =====
-- include/trz/connector/tcp: the byte buffers of a TCP client.
pub mod Fifo
pub mod CircularBuffer
pub mod Sender
pub mod Receiver
mod Tests
