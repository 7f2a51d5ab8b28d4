-- ===== src/Connector/CircularBuffer/Contents.antt =====
-- The bytes that a circular buffer holds, oldest first, and what a write and a removal do to them.
use simplx.Base.{◌≡◌, ℕ, List, arith, length, window, length-window}
use simplx.Connector.CircularBuffer.{CircularBuffer}
use simplx.Connector.CircularBuffer.Inv.{IsPlaced}

-- What the buffer holds.
abbrev pub contents : CircularBuffer → List ℕ
contents b = window b.buffer b.reader_index b.content_size

pub length-contents : {b : CircularBuffer} → IsPlaced b → length (contents b) ≡ b.content_size
length-contents {b} v =
    length-window b.buffer b.reader_index b.content_size (omega arith) (omega arith)
