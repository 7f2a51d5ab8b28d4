-- ===== src/Connector/Receiver.antt =====
-- include/trz/connector/tcp/client/receiver.hpp, class `Receiver`. A pointer is the list of the
-- bytes from it on. The client's `getHeaderSize` and `getDataSize` are parameters of all that uses
-- them; its callbacks are recorded in `log`, in order.
pub mod Frames
pub mod Faults
mod Tests
use simplx.Base.{
  ℕ, zero, suc, ◌+◌, ◌-◌, ◌%◌, ◌^◌, Bool, true, false, not, ◌||◌, Option, none, some, List, [], ◌∷◌,
  ◌++◌, take, drop, ltb, ◌==◌, if◌then◌else◌, add64, sub64,
}
use simplx.Connector.CircularBuffer.{CircularBuffer, write_data, read_data, shift_buffer, clear}

-- A call of the client: `onDataReceived` with the flag that it can ask for meanwhile, or
-- `onOverflowDataReceived`.
pub data Event : Type 0 where
  received : List ℕ → Bool → Event
  overflow : List ℕ → Event

pub record Receiver : Type 0 where
  pub buffer : CircularBuffer
  pub overflow_size : ℕ
  pub header_minimum : ℕ
  pub other_complete : Bool
  pub log : List Event

pub data Origin : Type 0 where
  in_buffer : Origin
  new_message : Origin

abbrev pub get_buffer_content_size : Receiver → ℕ
get_buffer_content_size r = r.buffer.content_size

abbrev pub clear_buffer : Receiver → Receiver
clear_buffer r = record r { buffer = clear r.buffer }

abbrev pub is_previous_incomplete_msg : Receiver → Bool
is_previous_incomplete_msg r = not r.buffer.empty_flag

abbrev pub set_header_size : Receiver → ℕ → Receiver
set_header_size r size = record r { header_minimum = size }

-- How a call ends: it returns the receiver and the size that it was given by reference, an
-- `assert` fails, or the fuel runs out.
pub data Run : Type 0 where
  returned : Receiver → ℕ → Run
  failed : Run
  out_of_fuel : Run

-- `m_buffer.writeData`, its answer left aside.
unfoldable pub store : Receiver → List ℕ → ℕ → (Receiver → Run) → Run
store r bytes size next = elim (write_data r.buffer bytes size) [
  | none ↦ failed
  | some (ok, b) ↦ next (record r { buffer = b })
]

-- `m_buffer.readData`: what follows has the pointer.
unfoldable pub read : Receiver → (Receiver → List ℕ → Run) → Run
read r next = elim (read_data r.buffer) [
  | none ↦ failed
  | some ((p, n), b) ↦ next (record r { buffer = b }) p
]

abbrev pub deliver : Receiver → List ℕ → ℕ → Receiver
deliver r bytes size = record r { log = r.log ++ received (take size bytes) r.other_complete ∷ [] }

-- `std::min` of two `size_t` that are cast to `int64_t`.
abbrev pub signed_min : ℕ → ℕ → ℕ
signed_min a b = if ltb (add64 b (2 ^ 63)) (add64 a (2 ^ 63)) then b else a

-- A `size_t` that goes through an `int`.
abbrev pub through_int : ℕ → ℕ
through_int a = if ltb (a % 2 ^ 32) (2 ^ 31) then a % 2 ^ 32 else a % 2 ^ 32 + (2 ^ 64 - 2 ^ 32)

-- What `dropData` leaves: its answer, the receiver, the pointer and the size.
pub record Dropped : Type 0 where
  pub go_on : Bool
  pub receiver : Receiver
  pub bytes : List ℕ
  pub size : ℕ

unfoldable pub drop_data : Receiver → List ℕ → ℕ → Dropped
drop_data r bytes size = record {
  go_on = left == 0;
  receiver = record r { overflow_size = left; log = r.log ++ overflow (take dropping bytes) ∷ [] };
  bytes = drop dropping bytes;
  size = sub64 size dropping;
}
  where
    dropping : ℕ
    dropping = signed_min size r.overflow_size

    left : ℕ
    left = sub64 r.overflow_size dropping

module _ (get_header_size : List ℕ → ℕ) (get_data_size : List ℕ → ℕ → ℕ) where
  -- Whether the bytes start with a whole message, as `setOtherCompleteMessageFlag` finds out.
  unfoldable pub is_complete : ℕ → List ℕ → ℕ → Bool
  is_complete minimum bytes size =
      if ltb size minimum || minimum == 0
      then false
      else if ltb size h || h == 0
      then false
      else if ltb size (add64 h d) || d == 0
      then false
      else true
    where
      h : ℕ
      h = get_header_size bytes

      d : ℕ
      d = get_data_size bytes h

  unfoldable pub set_other_complete : Receiver → List ℕ → ℕ → Receiver
  unfolding is_complete
  set_other_complete r bytes size = record r {
    other_complete = is_complete r.header_minimum bytes size;
  }

  -- The `while` of `processData`; `again` is the call of `processData` that it may make.
  unfoldable pub process_loop :
      ℕ → (Receiver → List ℕ → ℕ → Run) → Origin → Receiver → List ℕ → ℕ → Run
  unfolding store set_other_complete
  process_loop zero again origin r bytes size = out_of_fuel
  process_loop (suc fuel) again origin r bytes size =
      let h = get_header_size bytes in
      let d = get_data_size bytes h in
      let message = add64 h d in
      let left = sub64 size message in
      let onward =
        process_loop fuel again origin
          (deliver (set_other_complete r (drop message bytes) left) bytes message)
          (drop message bytes) left in
      if ltb size r.header_minimum
      then returned r size
      else if h == 0
      then returned (deliver (record r { other_complete = false }) bytes size) size
      else if ltb size h
      then store r bytes size (λ r'. returned r' size)
      else if d == 0
      then returned (deliver (record r { other_complete = false }) bytes size) size
      else if ltb r.buffer.capacity message
      then again (record r { overflow_size = sub64 message (signed_min size message) }) bytes size
      else if ltb size message
      then elim origin [
        | new_message ↦ store r bytes size (λ r'. returned r' size)
        | in_buffer ↦ returned r size
      ]
      else onward

  -- `processData`.
  unfoldable pub process_data : ℕ → Origin → Receiver → List ℕ → ℕ → Run
  unfolding store drop_data
  process_data zero origin r bytes size = out_of_fuel
  process_data (suc fuel) origin r bytes size =
      let again = process_data fuel origin in
      let dropped =
        if ltb 0 r.overflow_size
        then drop_data r bytes size
        else record { go_on = true; receiver = r; bytes = bytes; size = size } in
      if not dropped.go_on
      then returned dropped.receiver dropped.size
      else if ltb dropped.size dropped.receiver.header_minimum
      then store dropped.receiver dropped.bytes dropped.size (λ r'. returned r' dropped.size)
      else process_loop fuel again origin dropped.receiver dropped.bytes dropped.size

  -- `doCompleteMsg` once the buffer holds the header: the message of which it is the start.
  unfoldable pub complete_message : ℕ → ℕ → Receiver → List ℕ → ℕ → Run
  unfolding process_data store read drop_data set_other_complete
  complete_message fuel h r bytes size = read r λ r p.
      let d = get_data_size p h in
      let message = add64 h d in
      let held = r.buffer.content_size in
      if ltb r.buffer.capacity message
      then read r (λ r q. overflows message (drop_data r q r.buffer.content_size))
      else if ltb (add64 held size) message
      then store r bytes size (λ r'. returned r' size)
      else if ltb size r.buffer.free_space
      then store r bytes size (λ r. read r (λ r q.
        shift_by r.buffer.content_size (process_data fuel in_buffer r q r.buffer.content_size)))
      else let rest = through_int (sub64 d held) in
        store r bytes rest λ r. read r λ r q. from_buffer (drop rest bytes) (sub64 size rest) (
          process_data fuel in_buffer (set_other_complete r (drop rest bytes) (sub64 size rest)) q
            r.buffer.content_size)
    where
      -- The header announces more than the buffer can hold.
      overflows : ℕ → Dropped → Run
      overflows message dropped =
          let r = dropped.receiver in
          if dropped.go_on
          then failed
          else process_data fuel in_buffer
              (record r {
                overflow_size = sub64 message r.buffer.content_size;
                buffer = clear r.buffer;
              })
              bytes size

      -- What `processData` left of the buffer stays in it.
      shift_by : ℕ → Run → Run
      shift_by initial (returned r left) = elim (shift_buffer r.buffer (sub64 initial left)) [
        | none ↦ failed
        | some b ↦ returned (record r { buffer = b }) size
      ]
      shift_by initial failed = failed
      shift_by initial out_of_fuel = out_of_fuel

      -- The buffer has been dealt with; the rest of what came in follows.
      from_buffer : List ℕ → ℕ → Run → Run
      from_buffer bytes' size' (returned r left) =
          process_data fuel new_message (record r { buffer = clear r.buffer }) bytes' size'
      from_buffer bytes' size' failed = failed
      from_buffer bytes' size' out_of_fuel = out_of_fuel

  -- `doCompleteMsg` once the buffer holds the minimum of a header: the header.
  unfoldable pub complete_header : ℕ → Receiver → List ℕ → ℕ → Run
  unfolding complete_message store read
  complete_header fuel r bytes size = read r λ r p.
      let h = get_header_size p in
      let missing = sub64 h r.buffer.content_size in
      if ltb r.buffer.content_size h
      then if ltb missing size
        then store r bytes missing
            (λ r. complete_message fuel h r (drop missing bytes) (sub64 size missing))
        else store r bytes size (λ r'. returned r' size)
      else complete_message fuel h r bytes size

  -- `doCompleteMsg`: the buffer holds the start of a message.
  unfoldable pub do_complete_msg : ℕ → Receiver → List ℕ → ℕ → Run
  unfolding complete_header store
  do_complete_msg fuel r bytes size =
      let missing = sub64 r.header_minimum r.buffer.content_size in
      if ltb r.buffer.content_size r.header_minimum
      then if ltb r.header_minimum (add64 size r.buffer.content_size)
        then store r bytes missing
            (λ r. complete_header fuel r (drop missing bytes) (sub64 size missing))
        else store r bytes size (λ r'. returned r' size)
      else complete_header fuel r bytes size

  -- `onDataReceived`.
  unfoldable pub on_data_received : ℕ → Receiver → List ℕ → ℕ → Run
  unfolding do_complete_msg process_data
  on_data_received fuel r bytes size =
      if size == 0
      then returned r size
      else if r.header_minimum == 0
      then returned (deliver (record r { other_complete = false }) bytes size) size
      else if is_previous_incomplete_msg r
      then do_complete_msg fuel r bytes size
      else process_data fuel new_message r bytes size
