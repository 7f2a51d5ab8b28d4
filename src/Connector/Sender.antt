-- ===== src/Connector/Sender.antt =====
-- include/trz/connector/tcp/client/sender.hpp: `Sender<_Capacity>`, the send buffer of a TCP client.
use simplx.Base.{
  ℕ, ◌-◌, ◌≤◌, ◌≡◌, ap, Bool, List, Option, none, some, arith, length, length-drop, drop,
}
use simplx.Connector.CircularBuffer.{
  CircularBuffer, size, clear, write_data, read_data, shift_buffer,
}
use simplx.Connector.CircularBuffer.Inv.{IsValid}
use simplx.Connector.CircularBuffer.Contents.{contents, length-contents}
use simplx.Connector.CircularBuffer.Shift.{shift_buffer_refines}

-- The one member, `m_buffer`.
pub record Sender : Type 0 where
  pub buffer : CircularBuffer

abbrev pub get_buffer_content_size : Sender → ℕ
get_buffer_content_size s = size s.buffer

unfoldable pub clear_buffer : Sender → Sender
clear_buffer s = record { buffer = clear s.buffer }

unfoldable pub add_to_buffer : Sender → List ℕ → ℕ → Option (Bool × Sender)
add_to_buffer s bytes data_size = elim (write_data s.buffer bytes data_size) [
  | none ↦ none
  | some (ok, b) ↦ some (ok, record { buffer = b })
]

unfoldable pub get_data_to_send : Sender → Option ((List ℕ × ℕ) × Sender)
get_data_to_send s = elim (read_data s.buffer) [
  | none ↦ none
  | some (shown, b) ↦ some (shown, record { buffer = b })
]

-- `shiftBuffer` answers how much is left.
unfoldable pub shift_buffer_size : Sender → ℕ → Option (ℕ × Sender)
shift_buffer_size s data_size = elim (shift_buffer s.buffer data_size) [
  | none ↦ none
  | some b ↦ some (size b, record { buffer = b })
]

-- `shiftBuffer` answers how many bytes are still to be sent: the size of the contents less what was
-- removed, and these bytes are the rest of what was there. The buffer is valid, before and after,
-- and no more is removed than there is.
pub shift_buffer_size_lem :
    (s : Sender) (n : ℕ)
    → IsValid s.buffer
    → n ≤ length (contents s.buffer)
    → (s' : Sender) × (shift_buffer_size s n ≡ some (get_buffer_content_size s - n, s'))
      × (contents s'.buffer ≡ drop n (contents s.buffer))
      × IsValid s'.buffer
unfolding shift_buffer_size
shift_buffer_size_lem s n v h =
    let (b', ran, v', holds, _) = shift_buffer_refines n v h in
    let left : size b' ≡ size s.buffer - n = omega (
      arith,
      length-contents v'.placed,
      length-contents v.placed,
      ap length holds,
      length-drop n (contents s.buffer),
    ) in
    (record { buffer = b' }, ground (arith, ran, left), holds, v')
