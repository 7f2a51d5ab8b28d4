-- ===== src/Bus/RingBuffer/Tests.antt =====
-- A ring of four cells, which holds three entries.
use simplx.Base.{
  ℕ, ◌<◌, ◌≡◌, ◌≢◌, refl, true, false, List, [], ◌∷◌, ◌++◌, arith, length, copy_to, window,
}
use simplx.Bus.Fifo
use simplx.Bus.RingBuffer.{
  RingBuffer, make, enqueue_bulk, enqueue_taken, enqueue_count, dequeue, copy_in, copy_out, advance,
  read_available, write_available, next_index, reduce,
}
use simplx.Bus.RingBuffer.Inv.{IsValid, contents}
use simplx.Bus.RingBuffer.Calls.{Leaves, enqueue_bulk_refines, dequeue_refines}
use simplx.Bus.RingBuffer.Threads.{
  Producer, Consumer, System, load_read, load_write, begin_enqueue, copy_entries, store_write,
  begin_dequeue, begin_enqueue_one, place_entry, store_next, load_read_one, start, Reach, here,
  next, Alone,
}
use simplx.Bus.RingBuffer.Safety.{received-sent, copies_disjoint, drain, cell}

-- The entries 1 and 2, the second at the start of the array.
abbrev turned : RingBuffer ℕ
turned = record { max_size = 4; write_index = 1; read_index = 3; array = 2 ∷ 0 ∷ 0 ∷ 1 ∷ [] }

turned-IsValid : IsValid turned
turned-IsValid = omega arith

contents-turned : contents turned ≡ 1 ∷ 2 ∷ []
unfolding window
contents-turned = refl

-- Two entries do not fit: `_All` takes none, otherwise one is taken.
enqueue_bulk-turned :
    ((enqueue_bulk true turned (5 ∷ 6 ∷ []) 2).0 ≡ 0)
    × ((enqueue_bulk false turned (5 ∷ 6 ∷ []) 2).0 ≡ 1)
unfolding enqueue_bulk enqueue_taken enqueue_count write_available
enqueue_bulk-turned = (refl, refl)

dequeue-turned : (dequeue turned 3).0 ≡ 1 ∷ 2 ∷ []
unfolding dequeue read_available copy_out
dequeue-turned = refl

enqueue_bulk_refines_example :
    Leaves turned
      (Fifo.offer false 3 (1 ∷ 2 ∷ []) (5 ∷ 6 ∷ []))
      (enqueue_bulk false turned (5 ∷ 6 ∷ []) 2)
unfolding window
enqueue_bulk_refines_example =
    enqueue_bulk_refines false (5 ∷ 6 ∷ []) 2 turned-IsValid (omega arith)

dequeue_refines_example : Leaves turned (Fifo.poll 3 (1 ∷ 2 ∷ [])) (dequeue turned 3)
unfolding window
dequeue_refines_example = dequeue_refines 3 turned-IsValid

-- A producer that has sent 7 and 8, and is about to copy 9, while the consumer is about to copy 7.
abbrev initial : System ℕ
initial = start 3 0

abbrev ring_of : List ℕ → ℕ → RingBuffer ℕ
ring_of array w = record { max_size = 4; write_index = w; read_index = 0; array = array }

abbrev state : RingBuffer ℕ → Producer ℕ → Consumer ℕ → List ℕ → System ℕ
state r p c sent = record { ring = r; producer = p; consumer = c; sent = sent; received = [] }

abbrev two_sent : System ℕ
two_sent = state (ring_of (7 ∷ 8 ∷ 0 ∷ 0 ∷ []) 2) Producer.idle Consumer.idle (7 ∷ 8 ∷ [])

two_sent-Reach : Reach initial two_sent
unfolding start make load_read enqueue_count write_available copy_in copy_to advance
two_sent-Reach =
    next
      (next
        (next here (
          begin_enqueue
            {t = state (ring_of (0 ∷ 0 ∷ 0 ∷ 0 ∷ []) 0) (Producer.counted (7 ∷ 8 ∷ []) 2)
              Consumer.idle []}
            true (7 ∷ 8 ∷ []) 2 refl (omega arith) refl))
        (copy_entries
          {t = state (ring_of (7 ∷ 8 ∷ 0 ∷ 0 ∷ []) 0) (Producer.copied (7 ∷ 8 ∷ []) 2) Consumer.idle
            []}
          refl refl))
      (store_write refl refl)

-- The same of one entry.
one_sent-Reach :
    Reach initial (state (ring_of (7 ∷ 0 ∷ 0 ∷ 0 ∷ []) 1) Producer.idle Consumer.idle (7 ∷ []))
unfolding start make load_read_one next_index reduce
one_sent-Reach =
    next
      (next
        (next here (
          begin_enqueue_one
            {t = state (ring_of (0 ∷ 0 ∷ 0 ∷ 0 ∷ []) 0) (Producer.accepted 7) Consumer.idle []} 7
            refl refl))
        (place_entry
          {t = state (ring_of (7 ∷ 0 ∷ 0 ∷ 0 ∷ []) 0) (Producer.placed 7) Consumer.idle []} refl
          refl))
      (store_next refl refl)

abbrev both_in : System ℕ
both_in =
    state (ring_of (7 ∷ 8 ∷ 0 ∷ 0 ∷ []) 2) (Producer.counted (9 ∷ []) 1) (Consumer.counted 1)
      (7 ∷ 8 ∷ [])

both_in-Reach : Reach initial both_in
unfolding load_read load_write enqueue_count write_available read_available
both_in-Reach =
    next
      (next two_sent-Reach (
        begin_enqueue
          {t = state (ring_of (7 ∷ 8 ∷ 0 ∷ 0 ∷ []) 2) (Producer.counted (9 ∷ []) 1) Consumer.idle
            (7 ∷ 8 ∷ [])}
          true (9 ∷ []) 1 refl (omega arith) refl))
      (begin_dequeue 1 refl refl)

received-sent_example :
    ([] ++ contents two_sent.ring ≡ 7 ∷ 8 ∷ []) × (length (contents two_sent.ring) < 4)
received-sent_example = received-sent 3 0 (omega arith) two_sent-Reach

copies_disjoint_example : cell 2 0 4 ≢ cell 0 0 4
copies_disjoint_example =
    copies_disjoint 3 0 (omega arith) both_in-Reach refl refl 0 0 (omega arith) (omega arith)

drain_example :
    (t : System ℕ) × Alone two_sent t
    × (t.received ≡ 7 ∷ 8 ∷ [])
    × (t.sent ≡ 7 ∷ 8 ∷ [])
    × (t.producer ≡ Producer.idle)
    × (t.consumer ≡ Consumer.idle)
drain_example = drain 3 0 (omega arith) two_sent-Reach refl
