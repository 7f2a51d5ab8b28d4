-- ===== src/Connector/Tests.antt =====
-- A sender with five bytes to send.
use simplx.Base.{[], ◌∷◌, false, true, arith}
use simplx.Connector.CircularBuffer.Inv.{IsValid}
use simplx.Connector.Sender.{Sender}

abbrev waiting : Sender
waiting = record {
  buffer = record {
    capacity = 6;
    buffer = 3 ∷ 4 ∷ 5 ∷ 0 ∷ 1 ∷ 2 ∷ [];
    read_buffer = 0 ∷ 0 ∷ 0 ∷ 0 ∷ 0 ∷ 0 ∷ [];
    free_space = 1;
    content_size = 5;
    writer_index = 3;
    reader_index = 4;
    empty_flag = false;
    new_data_flag = true;
  };
}

waiting-IsValid : IsValid waiting.buffer
waiting-IsValid = ground arith
