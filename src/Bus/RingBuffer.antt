-- ===== src/Bus/RingBuffer.antt =====
-- include/trz/pattern/bus/ringbuffer.hpp: the ring between one producer thread and one consumer
-- thread. `internal::ringbuffer<T>` and `ringbuffer<T, _MaxSize>`, whose array has one cell more
-- than the capacity. Each call is cut where it reads or writes the other side's index, so that
-- `Threads` can interleave the two sides; here the pieces follow one another.
pub mod Inv
pub mod Blocks
pub mod Calls
pub mod Threads
pub mod Relies
pub mod Produces
pub mod Steps
pub mod Safety
mod Tests
use simplx.Base.{
  ℕ, zero, suc, ◌+◌, ◌-◌, min, Bool, true, false, List, [], ◌∷◌, ◌++◌, ◌&&◌, Option, none, some,
  get_elem?, take, drop, replicate, set, ltb, leb, ◌==◌, if◌then◌else◌, add64, sub64, copy_to,
  slice,
}

-- `while (ret >= max_size) ret -= max_size;` with a bound on the rounds.
reduce : ℕ → ℕ → ℕ → ℕ
reduce zero max_size ret = ret
reduce (suc fuel) max_size ret =
    let rest = reduce fuel max_size (ret - max_size) in if leb max_size ret then rest else ret

-- `next_index`: `arg + 1` rounds are enough.
unfoldable pub next_index : ℕ → ℕ → ℕ
unfolding reduce
next_index arg max_size = let ret = add64 arg 1 in reduce (suc ret) max_size ret

-- The static `read_available` and `write_available`.
unfoldable pub read_available : ℕ → ℕ → ℕ → ℕ
read_available write_index read_index max_size =
    if leb read_index write_index
    then sub64 write_index read_index
    else sub64 (add64 write_index max_size) read_index

unfoldable pub write_available : ℕ → ℕ → ℕ → ℕ
write_available write_index read_index max_size =
    let ret = sub64 (sub64 read_index write_index) 1 in
    if leb read_index write_index then add64 ret max_size else ret

-- The index after `count` entries from `index` on, as both bulk operations compute it.
unfoldable pub advance : ℕ → ℕ → ℕ → ℕ
advance index count max_size =
    let new_index = add64 index count in
    if ltb max_size (add64 index count)
    then sub64 new_index max_size
    else (if new_index == max_size then 0 else new_index)

-- How many entries the bulk `enqueue<_All>` writes, given the room that it sees; `none` where it
-- returns 0 at once.
unfoldable pub enqueue_count : Bool → ℕ → ℕ → Option ℕ
enqueue_count all avail input_count =
    if all
    then (if ltb avail input_count then none else some input_count)
    else (if avail == 0 then none else some (min input_count avail))

module _ {ℓ} {A : Type ℓ} where
  -- The `memcpy`s of the bulk `enqueue`, of `count` entries.
  unfoldable pub copy_in : List A → ℕ → List A → ℕ → ℕ → List A
  copy_in array write_index input count max_size =
      let count0 = sub64 max_size write_index in
      if ltb max_size (add64 write_index count)
      then copy_to (copy_to array write_index (take count0 input)) 0
          (take (sub64 count count0) (drop count0 input))
      else copy_to array write_index (take count input)

  -- The `memcpy`s of the bulk `dequeue`.
  unfoldable pub copy_out : List A → ℕ → ℕ → ℕ → List A
  copy_out array read_index count max_size =
      let count0 = sub64 max_size read_index in
      if ltb max_size (add64 read_index count)
      then slice array read_index count0 ++ slice array 0 (sub64 count count0)
      else slice array read_index count

-- `write_index_`, `read_index_` and the array, with the `max_size` that each call is given.
pub record RingBuffer {ℓ} (A : Type ℓ) : Type ℓ where
  pub max_size : ℕ
  pub write_index : ℕ
  pub read_index : ℕ
  pub array : List A

module _ {ℓ} {A : Type ℓ} where
  -- `ringbuffer(max_size)`: `new T[max_size + 1]`, each cell `initial`.
  unfoldable pub make : ℕ → A → RingBuffer A
  make capacity initial = record {
    max_size = add64 capacity 1;
    write_index = 0;
    read_index = 0;
    array = replicate (add64 capacity 1) initial;
  }

  -- `empty()`.
  unfoldable pub is_empty : RingBuffer A → Bool
  is_empty r = r.write_index == r.read_index

  -- `front`.
  unfoldable pub front : RingBuffer A → Option A
  front r = get_elem? r.array r.read_index

  -- `enqueue(t)`.
  unfoldable pub enqueue : RingBuffer A → A → Bool × RingBuffer A
  enqueue r t =
      let next = next_index r.write_index r.max_size in
      if next == r.read_index
      then (false, r)
      else (true, record r { array = set r.array r.write_index t; write_index = next })

  -- The rest of the bulk `enqueue`, once it is known how many entries it takes.
  unfoldable pub enqueue_taken : RingBuffer A → List A → Option ℕ → ℕ × RingBuffer A
  enqueue_taken r input none = (0, r)
  enqueue_taken r input (some count) = (
    count,
    record r {
      array = copy_in r.array r.write_index input count r.max_size;
      write_index = advance r.write_index count r.max_size;
    },
  )

  -- The bulk `enqueue<_All>(input, input_count)`.
  unfoldable pub enqueue_bulk : Bool → RingBuffer A → List A → ℕ → ℕ × RingBuffer A
  enqueue_bulk all r input input_count =
      let avail = write_available r.write_index r.read_index r.max_size in
      enqueue_taken r input (enqueue_count all avail input_count)

  -- The bulk `dequeue(output, output_count)`, with what it put into the output.
  unfoldable pub dequeue : RingBuffer A → ℕ → List A × RingBuffer A
  dequeue r output_count =
      let avail = read_available r.write_index r.read_index r.max_size in
      let count = min output_count avail in
      if avail == 0 then ([], r) else (
        copy_out r.array r.read_index count r.max_size,
        record r { read_index = advance r.read_index count r.max_size },
      )
