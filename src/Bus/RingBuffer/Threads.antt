-- ===== src/Bus/RingBuffer/Threads.antt =====
-- The ring between its two threads: each call is cut at its loads, copies and stores, and the two
-- sides interleave in any order. A load sees the last store (`memory_order_acquire` on the other
-- side's index, released after the copies); a `memcpy` is one step, since the cells that one side
-- copies are none that the other side may touch (`Safety`).
use simplx.Base.{
  ℕ, ◌≤◌, ◌≡◌, Bool, true, false, List, [], ◌∷◌, ◌++◌, set, none, some, length, take, min, ◌==◌,
  if◌then◌else◌,
}
use simplx.Bus.RingBuffer.{
  RingBuffer, make, read_available, write_available, advance, copy_in, copy_out, enqueue_count,
  next_index,
}

-- Where the producer is in the bulk `enqueue`: outside; with the count that it takes, computed
-- from the index that it loaded; with the entries copied and the index not yet stored. In the
-- `enqueue` of one entry: it has found room; the entry is in its cell and the index not yet stored.
pub data Producer (A : Type 0) : Type 0 where
  idle : Producer A
  accepted : A → Producer A
  placed : A → Producer A
  counted : List A → ℕ → Producer A
  copied : List A → ℕ → Producer A

-- Where the consumer is in the bulk `dequeue`.
pub data Consumer (A : Type 0) : Type 0 where
  idle : Consumer A
  counted : ℕ → Consumer A
  copied : List A → ℕ → Consumer A

-- The shared ring, the two sides, and what has gone in and out so far.
pub record System (A : Type 0) : Type 0 where
  pub ring : RingBuffer A
  pub producer : Producer A
  pub consumer : Consumer A
  pub sent : List A
  pub received : List A

module _ {A : Type 0} where
  -- The producer loads the reader's index and counts.
  unfoldable pub load_read : Bool → System A → List A → ℕ → Producer A
  load_read all s input n =
      let avail = write_available s.ring.write_index s.ring.read_index s.ring.max_size in
      elim (enqueue_count all avail n) [
        | none ↦ Producer.idle
        | some count ↦ Producer.counted input count
      ]

  -- The producer loads the reader's index and compares.
  unfoldable pub load_read_one : System A → A → Producer A
  load_read_one s entry =
      if next_index s.ring.write_index s.ring.max_size == s.ring.read_index
      then Producer.idle
      else Producer.accepted entry

  -- The consumer loads the writer's index and counts.
  unfoldable pub load_write : System A → ℕ → Consumer A
  load_write s n =
      let avail = read_available s.ring.write_index s.ring.read_index s.ring.max_size in
      if avail == 0 then Consumer.idle else Consumer.counted (min n avail)

  pub data Step : System A → System A → Type 0 where
    begin_enqueue :
        {s t : System A} (all : Bool) (input : List A) (n : ℕ)
        → s.producer ≡ Producer.idle
        → n ≤ length input
        → t ≡ record s { producer = load_read all s input n }
        → Step s t
    copy_entries :
        {s t : System A} {input : List A} {count : ℕ}
        → s.producer ≡ Producer.counted input count
        → t ≡ record s {
          producer = Producer.copied input count;
          ring = record (s.ring) {
            array = copy_in s.ring.array s.ring.write_index input count s.ring.max_size;
          };
        }
        → Step s t
    store_write :
        {s t : System A} {input : List A} {count : ℕ}
        → s.producer ≡ Producer.copied input count
        → t ≡ record s {
          producer = Producer.idle;
          ring = record (s.ring) { write_index = advance s.ring.write_index count s.ring.max_size };
          sent = s.sent ++ take count input;
        }
        → Step s t
    begin_enqueue_one :
        {s t : System A} (entry : A)
        → s.producer ≡ Producer.idle
        → t ≡ record s { producer = load_read_one s entry }
        → Step s t
    place_entry :
        {s t : System A} {entry : A}
        → s.producer ≡ Producer.accepted entry
        → t ≡ record s {
          producer = Producer.placed entry;
          ring = record (s.ring) { array = set s.ring.array s.ring.write_index entry };
        }
        → Step s t
    store_next :
        {s t : System A} {entry : A}
        → s.producer ≡ Producer.placed entry
        → t ≡ record s {
          producer = Producer.idle;
          ring = record (s.ring) { write_index = next_index s.ring.write_index s.ring.max_size };
          sent = s.sent ++ entry ∷ [];
        }
        → Step s t
    begin_dequeue :
        {s t : System A} (n : ℕ)
        → s.consumer ≡ Consumer.idle
        → t ≡ record s { consumer = load_write s n }
        → Step s t
    copy_output :
        {s t : System A} {count : ℕ}
        → s.consumer ≡ Consumer.counted count
        → t ≡ record s {
          consumer =
              Consumer.copied (copy_out s.ring.array s.ring.read_index count s.ring.max_size) count;
        }
        → Step s t
    store_read :
        {s t : System A} {output : List A} {count : ℕ}
        → s.consumer ≡ Consumer.copied output count
        → t ≡ record s {
          consumer = Consumer.idle;
          ring = record (s.ring) { read_index = advance s.ring.read_index count s.ring.max_size };
          received = s.received ++ output;
        }
        → Step s t

  -- A new ring of `capacity` entries, both sides outside.
  unfoldable pub start : ℕ → A → System A
  start capacity initial = record {
    ring = make capacity initial;
    producer = Producer.idle;
    consumer = Consumer.idle;
    sent = [];
    received = [];
  }

  pub data Reach (s : System A) : System A → Type 0 where
    here : Reach s s
    next : {t u : System A} → Reach s t → Step t u → Reach s u

  -- Whose step it is.
  abbrev pub is_consumers : {s t : System A} → Step s t → Bool
  is_consumers (begin_enqueue all input n outside fits e) = false
  is_consumers (copy_entries at e) = false
  is_consumers (store_write at e) = false
  is_consumers (begin_enqueue_one entry outside e) = false
  is_consumers (place_entry at e) = false
  is_consumers (store_next at e) = false
  is_consumers (begin_dequeue n outside e) = true
  is_consumers (copy_output at e) = true
  is_consumers (store_read at e) = true

  -- Steps of the consumer alone.
  pub data Alone (s : System A) : System A → Type 0 where
    stay : Alone s s
    go_on : {t u : System A} → Alone s t → (step : Step t u) → is_consumers step ≡ true → Alone s u
