-- ===== src/Connector/Receiver/Tests.antt =====
-- A client whose messages start with one byte, the number of the bytes after it.
use simplx.Base.{ℕ, ◌≡◌, refl, true, false, inr, List, [], ◌∷◌, arith, window}
use simplx.Connector.CircularBuffer.{CircularBuffer}
use simplx.Connector.CircularBuffer.Inv.{IsValid}
use simplx.Connector.CircularBuffer.Read.{IsFresh, read_data_refines}
use simplx.Connector.Receiver.{
  Receiver, received, returned, out_of_fuel, failed, new_message, process_data, on_data_received,
  complete_message,
}
use simplx.Connector.Receiver.Frames.{IsMessage, bytes_of, calls, on_data_received-frames}
use simplx.Connector.Receiver.Faults.{IsLarge, process_data-endless, complete_message-fails}

abbrev header_size : List ℕ → ℕ
header_size bytes = 1

abbrev data_size : List ℕ → ℕ → ℕ
data_size [] h = 0
data_size (x ∷ bytes) h = x

abbrev nothing_kept : CircularBuffer
nothing_kept = record {
  capacity = 4;
  buffer = 0 ∷ 0 ∷ 0 ∷ 0 ∷ [];
  read_buffer = 0 ∷ 0 ∷ 0 ∷ 0 ∷ [];
  free_space = 4;
  content_size = 0;
  writer_index = 0;
  reader_index = 0;
  empty_flag = true;
  new_data_flag = false;
}

abbrev waiting : Receiver
waiting = record {
  buffer = nothing_kept;
  overflow_size = 0;
  header_minimum = 2;
  other_complete = false;
  log = [];
}

abbrev first : List ℕ
first = 2 ∷ 7 ∷ 8 ∷ []

abbrev second : List ℕ
second = 1 ∷ 9 ∷ []

first-IsMessage : IsMessage header_size data_size 2 4 first
first-IsMessage = record {
  header = λ after. refl;
  payload = λ after. refl;
  some_header = omega arith;
  some_payload = omega arith;
  whole = refl;
  enough = omega arith;
  fits = omega arith;
}

second-IsMessage : IsMessage header_size data_size 2 4 second
second-IsMessage = record {
  header = λ after. refl;
  payload = λ after. refl;
  some_header = omega arith;
  some_payload = omega arith;
  whole = refl;
  enough = omega arith;
  fits = omega arith;
}

-- The byte 3 is lost.
on_data_received-frames_example :
    on_data_received header_size data_size 10 waiting (2 ∷ 7 ∷ 8 ∷ 1 ∷ 9 ∷ 3 ∷ []) 6
    ≡ returned (record waiting { log = received first true ∷ received second false ∷ [] }) 1
unfolding bytes_of calls
on_data_received-frames_example =
    on_data_received-frames header_size data_size 9 waiting first (second ∷ []) (3 ∷ [])
      (first-IsMessage, (second-IsMessage, tt)) refl refl (omega arith) (omega arith) (omega arith)
      (omega arith)

abbrev large : List ℕ
large = 4 ∷ 1 ∷ 2 ∷ 3 ∷ 4 ∷ []

large-IsLarge : IsLarge header_size data_size waiting large 5
large-IsLarge = record {
  header_in = omega arith;
  some_header = omega arith;
  some_payload = omega arith;
  whole = omega arith;
  large = omega arith;
  small = omega arith;
}

process_data-endless_example :
    process_data header_size data_size 1000 new_message waiting large 5 ≡ out_of_fuel
process_data-endless_example =
    process_data-endless header_size data_size 1000 new_message waiting large 5 large-IsLarge refl

-- Two bytes are kept, of a message of ten.
abbrev kept : CircularBuffer
kept = record {
  capacity = 4;
  buffer = 9 ∷ 1 ∷ 0 ∷ 0 ∷ [];
  read_buffer = 9 ∷ 1 ∷ 0 ∷ 0 ∷ [];
  free_space = 2;
  content_size = 2;
  writer_index = 2;
  reader_index = 0;
  empty_flag = false;
  new_data_flag = false;
}

kept-IsValid : IsValid kept
kept-IsValid = ground arith

kept-IsFresh : IsFresh kept
unfolding window
kept-IsFresh = inr refl

abbrev ten : List ℕ → ℕ → ℕ
ten bytes h = 9

complete_message-fails_example :
    complete_message header_size ten 10 1 (record waiting { buffer = kept }) (5 ∷ []) 1 ≡ failed
complete_message-fails_example =
    let shown = read_data_refines kept-IsValid kept-IsFresh in
    complete_message-fails header_size ten 10 1 (record waiting { buffer = kept }) (5 ∷ []) 1
      shown.0 shown.1 shown.2 kept-IsValid kept-IsFresh shown.3 (omega (arith, shown.9)) refl
