-- ===== src/Connector/CircularBuffer.antt =====
-- include/trz/connector/tcp/client/circularbuffer.hpp, class `CircularBuffer<_Capacity>`.
-- A failed `assert` is `none`. Indices and sizes are 64-bit words; a byte is any number.
pub mod Inv
pub mod Contents
pub mod Write
pub mod Shift
pub mod Read
pub mod Run
mod Tests
use simplx.Base.{
  ℕ, ◌%◌, min, Bool, true, false, ◌||◌, ◌&&◌, Option, none, some, List, take, drop, replicate,
  arith, ltb, leb, ◌==◌, if◌then◌else◌, add64, sub64, copy_to, slice,
}

-- The members, with the template's `_Capacity` as `capacity`.
pub record CircularBuffer : Type 0 where
  pub capacity : ℕ
  pub buffer : List ℕ
  pub read_buffer : List ℕ
  pub free_space : ℕ
  pub content_size : ℕ
  pub writer_index : ℕ
  pub reader_index : ℕ
  pub empty_flag : Bool
  pub new_data_flag : Bool

-- `assert(test)`, then the rest.
abbrev pub assert {ℓ} : {A : Type ℓ} → Bool → Option A → Option A
assert test rest = if test then rest else none

-- The constructor.
pub empty : ℕ → CircularBuffer
empty capacity = record {
  capacity = capacity;
  buffer = replicate capacity 0;
  read_buffer = replicate capacity 0;
  free_space = capacity;
  content_size = 0;
  writer_index = 0;
  reader_index = 0;
  empty_flag = true;
  new_data_flag = false;
}

abbrev pub size : CircularBuffer → ℕ
size b = b.content_size

abbrev pub max_size : CircularBuffer → ℕ
max_size b = b.capacity

abbrev pub available_space : CircularBuffer → ℕ
available_space b = b.free_space

abbrev pub is_empty : CircularBuffer → Bool
is_empty b = b.empty_flag

-- `clear`.
unfoldable pub clear : CircularBuffer → CircularBuffer
clear b = record b {
  buffer = copy_to b.buffer 0 (replicate b.capacity 0);
  read_buffer = copy_to b.read_buffer 0 (replicate b.capacity 0);
  free_space = b.capacity;
  content_size = 0;
  writer_index = 0;
  reader_index = 0;
  empty_flag = true;
  new_data_flag = true;
}

-- The two assignments that end a successful `writeData`.
abbrev wrote : CircularBuffer → Option (Bool × CircularBuffer)
wrote b = some (true, record b { empty_flag = false; new_data_flag = true })

-- `writeData`, first branch: the free space is one block, from the writer to the reader.
write_block : CircularBuffer → List ℕ → ℕ → Option (Bool × CircularBuffer)
write_block b bytes size = assert (ltb w b.capacity) (
    wrote (record b {
      buffer = copy_to b.buffer b.writer_index (take size bytes);
      writer_index = w;
      content_size = add64 b.content_size size;
      free_space = sub64 b.free_space size;
    }))
  where
    w : ℕ
    w = add64 b.writer_index size % b.capacity

-- The second half of the other branch: what did not fit before the end goes to the start.
-- `at_end` bytes have been written already.
write_at_begin : CircularBuffer → List ℕ → ℕ → Option (Bool × CircularBuffer)
write_at_begin b rest at_begin = assert (ltb w b.capacity) (
    wrote (record b {
      buffer = copy_to b.buffer 0 (take at_begin rest);
      writer_index = w;
      content_size = add64 b.content_size at_begin;
      free_space = sub64 b.free_space at_begin;
    }))
  where
    w : ℕ
    w = at_begin % b.capacity

-- The first half of the other branch: `at_end` bytes from the writer to the end of the array.
write_at_end : CircularBuffer → List ℕ → ℕ → Option CircularBuffer
write_at_end b bytes at_end =
    if ltb 0 at_end
    then assert (leb w b.capacity) (
        assert (leb at_end b.free_space) (
          some (record b {
            buffer = copy_to b.buffer b.writer_index (take at_end bytes);
            writer_index = w;
            content_size = add64 b.content_size at_end;
            free_space = sub64 b.free_space at_end;
          })))
    else some b
  where
    w : ℕ
    w = add64 b.writer_index at_end % b.capacity

-- `writeData`, second branch: the free space begins at the writer and may go on at the start.
write_round : CircularBuffer → List ℕ → ℕ → Option (Bool × CircularBuffer)
unfolding write_at_end write_at_begin
write_round b bytes size =
    assert (leb b.writer_index b.capacity) (elim (write_at_end b bytes at_end) [
      | none ↦ none
      | some b' ↦
          if ltb at_end size
          then write_at_begin b' (drop at_end bytes) (sub64 size at_end)
          else wrote b'
    ])
  where
    at_end : ℕ
    at_end = min size (sub64 b.capacity b.writer_index)

-- `writeData(data, size)`: `bytes` is what lies in memory from the pointer on.
pub write_data : CircularBuffer → List ℕ → ℕ → Option (Bool × CircularBuffer)
unfolding write_block write_round
write_data b bytes size =
    if ltb b.free_space size || ltb size 1
    then some (false, b)
    else if ltb b.writer_index b.reader_index
    then write_block b bytes size
    else write_round b bytes size

-- `copyData(&m_readBuffer[0])`, called by `readData` only.
copy_data : CircularBuffer → Option CircularBuffer
copy_data b =
    if b.empty_flag
    then some b
    else if ltb b.reader_index b.writer_index
    then some (record b {
      read_buffer = copy_to b.read_buffer 0 (slice b.buffer b.reader_index b.content_size);
    })
    else assert (leb b.reader_index b.capacity) (
        if at_end == b.content_size
        then some (record b { read_buffer = first })
        else some (record b {
          read_buffer = copy_to first at_end (slice b.buffer 0 (sub64 b.content_size at_end));
        }))
  where
    at_end : ℕ
    at_end = min b.content_size (sub64 b.capacity b.reader_index)

    first : List ℕ
    first = copy_to b.read_buffer 0 (slice b.buffer b.reader_index at_end)

-- `readData`: the bytes from the returned pointer on, with the returned size.
pub read_data : CircularBuffer → Option ((List ℕ × ℕ) × CircularBuffer)
read_data b =
    if b.new_data_flag
    then elim (copy_data b) [
      | none ↦ none
      | some b' ↦ some ((b'.read_buffer, b'.content_size), record b' { new_data_flag = false })
    ]
    else some ((b.read_buffer, b.content_size), b)

-- `shiftBuffer`, the data is one block. The source clears the first `size` bytes of the array.
shift_block : CircularBuffer → ℕ → Option CircularBuffer
shift_block b size = assert (leb size b.writer_index) (
    assert (leb (add64 b.reader_index size) b.capacity) (
      some (record b {
        buffer = copy_to b.buffer 0 (replicate size 0);
        reader_index = add64 b.reader_index size;
        content_size = sub64 b.content_size size;
        free_space = add64 b.free_space size;
      })))

-- `shiftBuffer`, the data goes on at the start of the array: what is dropped there.
shift_at_begin : CircularBuffer → ℕ → Option CircularBuffer
shift_at_begin b at_begin = assert (leb at_begin b.capacity) (
    some (record b {
      buffer = copy_to b.buffer 0 (replicate at_begin 0);
      reader_index = at_begin;
      content_size = sub64 b.content_size at_begin;
      free_space = add64 b.free_space at_begin;
    }))

-- `shiftBuffer`, the data reaches the end of the array and may go on at the start.
shift_round : CircularBuffer → ℕ → Option CircularBuffer
unfolding shift_at_begin
shift_round b size =
    assert (leb (add64 b.reader_index at_end) b.capacity)
      (if at_end == size then some b' else shift_at_begin b' (sub64 size at_end))
  where
    at_end : ℕ
    at_end = min size (sub64 b.capacity b.reader_index)

    b' : CircularBuffer
    b' = record b {
      buffer = copy_to b.buffer b.reader_index (replicate at_end 0);
      reader_index = add64 b.reader_index at_end;
      content_size = sub64 b.content_size at_end;
      free_space = add64 b.free_space at_end;
    }

-- The end of `shiftBuffer`: the reset when nothing is left, and the stale copy cleared.
shift_finish : CircularBuffer → CircularBuffer
unfolding clear
shift_finish b =
    let b' =
      if b.reader_index == b.writer_index && b.free_space == b.capacity then clear b else b in
    record b' {
      new_data_flag = true;
      read_buffer = copy_to b'.read_buffer 0 (replicate b'.capacity 0);
    }

-- `shiftBuffer(size)`.
pub shift_buffer : CircularBuffer → ℕ → Option CircularBuffer
unfolding shift_block shift_round shift_finish
shift_buffer b size =
    if size == 0 || b.empty_flag
    then some b
    else if size == b.content_size
    then some (clear b)
    else elim (if ltb b.reader_index b.writer_index
        then shift_block b size
        else shift_round b size) [ none ↦ none | some b' ↦ some (shift_finish b') ]
