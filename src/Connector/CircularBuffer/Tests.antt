-- ===== src/Connector/CircularBuffer/Tests.antt =====
-- Concrete buffers of eight bytes.
use simplx.Base.{window, ℕ, ◌≡◌, refl, true, false, List, [], ◌∷◌, some, arith, take, copy_to, inl}
use simplx.Connector.Fifo
use simplx.Connector.Fifo.{Call, write, read, shift, Reply}
use simplx.Connector.CircularBuffer.{
  CircularBuffer, empty, write_data, copy_data, read_data, shift_buffer,
}
use simplx.Connector.CircularBuffer.Inv.{IsValid}
use simplx.Connector.CircularBuffer.Contents.{contents}
use simplx.Connector.CircularBuffer.Write.{Holds, write_data_refines}
use simplx.Connector.CircularBuffer.Shift.{Leaves, shift_buffer_refines}
use simplx.Connector.CircularBuffer.Read.{IsFresh, read_data_refines}
use simplx.Connector.CircularBuffer.Run.{run, run_refines}

-- Five bytes, of which two are at the start of the array.
abbrev turned : CircularBuffer
turned = record {
  capacity = 8;
  buffer = 4 ∷ 5 ∷ 0 ∷ 0 ∷ 0 ∷ 1 ∷ 2 ∷ 3 ∷ [];
  read_buffer = 0 ∷ 0 ∷ 0 ∷ 0 ∷ 0 ∷ 0 ∷ 0 ∷ 0 ∷ [];
  free_space = 3;
  content_size = 5;
  writer_index = 2;
  reader_index = 5;
  empty_flag = false;
  new_data_flag = true;
}

abbrev block : List ℕ
block = 6 ∷ 7 ∷ 8 ∷ 9 ∷ []

turned-IsValid : IsValid turned
turned-IsValid = ground arith

contents-turned : contents turned ≡ 1 ∷ 2 ∷ 3 ∷ 4 ∷ 5 ∷ []
unfolding window
contents-turned = refl

abbrev script : List Call
script =
    write (1 ∷ 2 ∷ 3 ∷ 4 ∷ 5 ∷ 6 ∷ []) 6
    ∷ shift 5
    ∷ write block 4
    ∷ read
    ∷ write block 4
    ∷ shift 4
    ∷ read
    ∷ []

-- The second block goes round the end of the array, and the third does not fit.
run-script :
    run (empty 8) script
    ≡ some (
        Reply.wrote true
        ∷ Reply.shifted
        ∷ Reply.wrote true
        ∷ Reply.shown (6 ∷ 6 ∷ 7 ∷ 8 ∷ 9 ∷ [])
        ∷ Reply.wrote false
        ∷ Reply.shifted
        ∷ Reply.shown (9 ∷ [])
        ∷ [])
unfolding run empty write_data read_data copy_data shift_buffer copy_to
run-script = refl

write_data_refines_example :
    Holds turned (Fifo.offer 8 (1 ∷ 2 ∷ 3 ∷ 4 ∷ 5 ∷ []) (6 ∷ 7 ∷ [])) (write_data turned block 2)
unfolding window
write_data_refines_example = write_data_refines block 2 turned-IsValid (omega arith)

shift_buffer_refines_example : Leaves turned (5 ∷ []) (shift_buffer turned 4)
unfolding window
shift_buffer_refines_example = shift_buffer_refines 4 turned-IsValid (omega arith)

read_data_refines_example :
    (p : List ℕ) × (n : ℕ) × (b' : CircularBuffer) × (read_data turned ≡ some ((p, n), b'))
    × (take n p ≡ 1 ∷ 2 ∷ 3 ∷ 4 ∷ 5 ∷ [])
    × (n ≡ 5)
    × IsValid b'
    × IsFresh b'
    × (contents b' ≡ 1 ∷ 2 ∷ 3 ∷ 4 ∷ 5 ∷ [])
    × (b'.capacity ≡ 8)
unfolding window
read_data_refines_example = read_data_refines turned-IsValid (inl refl)

run_refines_example : run (empty 8) script ≡ some (Fifo.run 8 [] script)
unfolding Fifo.offer
run_refines_example = run_refines 8 script (omega arith) (omega arith) (omega arith)
