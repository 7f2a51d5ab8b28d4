-- ===== src/Connector/CircularBuffer/Inv.antt =====
-- The invariant of a circular buffer between two calls.
use simplx.Base.{◌+◌, ◌≤◌, ◌<◌, ◌^◌, ◌≡◌, ◌⊎◌, true, false, length}
use simplx.Connector.CircularBuffer.{CircularBuffer}

-- The sizes add up, and the writer stands `content_size` bytes after the reader round the array.
-- The reader may stand one past the end (the last case of `distance` is such a buffer, full). The bound on the capacity keeps the index sums below
-- 2^64 (an object holds fewer than 2^63 bytes).
pub record IsPlaced (b : CircularBuffer) : Type 0 where
  pub some_room : 0 < b.capacity
  pub small : b.capacity < 2 ^ 63
  pub storage : length b.buffer ≡ b.capacity
  pub read_storage : length b.read_buffer ≡ b.capacity
  pub sizes : b.content_size + b.free_space ≡ b.capacity
  pub reader_in : b.reader_index ≤ b.capacity
  pub writer_in : b.writer_index < b.capacity
  pub distance :
      (b.reader_index + b.content_size ≡ b.writer_index)
      ⊎ (b.reader_index + b.content_size ≡ b.writer_index + b.capacity)
      ⊎ ((b.reader_index ≡ b.capacity) × (b.content_size ≡ b.capacity) × (b.writer_index ≡ 0))

-- Between two calls the flag also tells emptiness.
pub record IsValid (b : CircularBuffer) : Type 0 where
  pub placed : IsPlaced b
  pub flag :
      ((b.empty_flag ≡ true) × (b.content_size ≡ 0))
      ⊎ ((b.empty_flag ≡ false) × (0 < b.content_size))
