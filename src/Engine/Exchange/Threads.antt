-- ===== src/Engine/Exchange/Threads.antt =====
-- include/trz/engine/internal/parallel.h (Parallel::Node) and src/engine/node.cpp: the two threads
-- of a writer and a reader. Each load, store and compare-and-swap of a flag that both use is a step,
-- and so is each round of the reader's loop; the calls of the writer on the shared part are one step
-- each, since the reader does not touch that part then (`Safety`). The steps of the two interleave in
-- any order; the constructor and the destructor of the reader may come at any time between its
-- rounds. An event loop calls `returnToSender` between the reader's `read` and the barrier.
use simplx.Base.{ℕ, ◌≡◌, Bool, true, false, some, List, [], ◌∷◌, ◌++◌, if◌then◌else◌}
use simplx.Engine.Exchange.Shared.{
  Locked, WriteCache, Shared, new_shared, Wrote, return_event_to_sender, write, write_failed,
  Handling, is_taken, read_one,
}
use simplx.Engine.Exchange.Pages.{Slot, allocated, allocate_event}

-- `ReaderCASEnum`.
pub data ReaderCas : Type 0 where
  cas_idle cas_on cas_off : ReaderCas

-- Where the writer is. `SynchronizeWriteOperator`: it saw the signal and no lock; it saw also whether
-- the reader is active; it wrote what is worth a lock, and the barrier is not passed.
-- `ForEachSynchronizeWriteFailedOperator`: it saw an inactive reader; a lock as well; it has the
-- compare-and-swap; it has given everything back; the lock too.
pub data Writer : Type 0 where
  idle unlocked will_write will_fail wrote : Writer
  inactive stuck owner failed released : Writer

-- Where the reader is: outside; active, and waiting for its compare-and-swap; between rounds; in the
-- loop of `read`, with the events passed and those to come; after it, the barrier not passed; after
-- the compare-and-swap of the destructor, and still active.
pub data Reader : Type 0 where
  away joining ready : Reader
  reading : List ℕ → List ℕ → Reader
  read_done leaving : Reader

-- The shared state, both threads, and what happened so far: the events that were pushed, those that
-- a handler took, those of them that `returnToSender` gave back, and those for which
-- `onUndeliveredEvent` was called, in order. `page_at` is how the memory is laid out: the page in
-- which an address lies.
pub record System : Type 0 where
  pub shared : Shared
  pub is_write_locked : Bool
  pub is_reader_active : Bool
  pub reader_cas : ReaderCas
  pub write_signal : Bool
  pub write_activity : Bool
  pub writer : Writer
  pub reader : Reader
  pub pushed : List ℕ
  pub taken : List ℕ
  pub recalled : List ℕ
  pub returned : List ℕ
  pub page_at : ℕ → ℕ

abbrev pub start : ℕ → (ℕ → ℕ) → System
start page_size page_at = record {
  shared = new_shared page_size;
  is_write_locked = false;
  is_reader_active = false;
  reader_cas = cas_idle;
  write_signal = false;
  write_activity = false;
  writer = Writer.idle;
  reader = Reader.away;
  pushed = [];
  taken = [];
  recalled = [];
  returned = [];
  page_at = page_at;
}

-- A pipe puts an event in the cache, which is `c` after the allocation of the event's memory, and
-- sets the signal.
unfoldable pub push : System → WriteCache → ℕ → System
push s c event = record s {
  shared = record (s.shared) {
    cache = record c { to_be_delivered = c.to_be_delivered ++ event ∷ [] };
  };
  write_signal = true;
  pushed = s.pushed ++ event ∷ [];
}

-- The call of `write`, and whether the node is noted for the barrier.
unfoldable pub do_write : System → System
unfolding write
do_write s =
    let w = write s.shared in
    record s {
      shared = w.shared;
      returned = s.returned ++ w.returned;
      writer = if w.worthy then Writer.wrote else Writer.idle;
      write_activity = if w.worthy then true else s.write_activity;
    }

-- The start of `read`: the events are delivered from here on.
unfoldable pub begin_read : System → System
begin_read s = record s {
  shared = record (s.shared) { locked = record (s.shared.locked) { delivered_events_flag = true } };
  reader = Reader.reading [] s.shared.locked.to_be_delivered;
}

unfoldable pub read_next : System → List ℕ → ℕ → List ℕ → Handling → System
unfolding read_one
read_next s kept event rest h =
    let next = read_one s.shared.locked kept event rest h in
    record s {
      shared = record (s.shared) { locked = next.0 };
      reader = Reader.reading next.1 rest;
      taken = if is_taken h then s.taken ++ event ∷ [] else s.taken;
    }

pub data Step (s : System) (t : System) : Type 0 where
  push_event :
      (event : ℕ) (memory : Bool) (size : ℕ) {c : WriteCache} {slot : Slot}
      → allocate_event memory s.shared.cache size ≡ allocated c slot
      → s.page_at event ≡ slot.page
      → t ≡ push s c event
      → Step s t
  -- More memory for what an event holds.
  allocate :
      (memory : Bool) (size : ℕ) {c : WriteCache} {slot : Slot}
      → allocate_event memory s.shared.cache size ≡ allocated c slot
      → t ≡ record s { shared = record (s.shared) { cache = c } }
      → Step s t
  -- What the writer's own node does as the reader of the other direction: `read` sets the signal,
  -- and `undeliveredEvent` the signal and the flag.
  signal : t ≡ record s { write_signal = true } → Step s t
  note_undelivered :
      t ≡ record s {
        shared = record (s.shared) {
          cache = record (s.shared.cache) { check_undelivered_events_flag = true };
        };
        write_signal = true;
      }
      → Step s t
  -- `SynchronizeWriteOperator::reset` for this reader.
  see_unlocked :
      s.writer ≡ Writer.idle
      → s.write_signal ≡ true
      → s.is_write_locked ≡ false
      → t ≡ record s { writer = Writer.unlocked; write_signal = false }
      → Step s t
  see_reader :
      s.writer ≡ Writer.unlocked
      → t ≡ record s { writer = if s.is_reader_active then Writer.will_write else Writer.will_fail }
      → Step s t
  call_write : s.writer ≡ Writer.will_write → t ≡ do_write s → Step s t
  call_write_failed :
      {w : Wrote}
      → s.writer ≡ Writer.will_fail
      → write_failed s.shared ≡ some w
      → t
        ≡ record s { writer = Writer.idle; shared = w.shared; returned = s.returned ++ w.returned }
      → Step s t
  lock :
      s.writer ≡ Writer.wrote
      → t ≡ record s { writer = Writer.idle; is_write_locked = true }
      → Step s t
  -- `ForEachSynchronizeWriteFailedOperator` for this reader.
  see_inactive :
      s.writer ≡ Writer.idle
      → s.is_reader_active ≡ false
      → t ≡ record s { writer = Writer.inactive }
      → Step s t
  see_lock :
      s.writer ≡ Writer.inactive
      → t ≡ record s {
        writer = if s.is_write_locked then Writer.stuck else Writer.idle;
        write_activity = if s.is_write_locked then s.write_activity else false;
      }
      → Step s t
  swap_off :
      s.writer ≡ Writer.stuck
      → s.reader_cas ≡ cas_idle
      → t ≡ record s { writer = Writer.owner; reader_cas = cas_off }
      → Step s t
  miss_off :
      s.writer ≡ Writer.stuck
      → s.reader_cas ≡ cas_on
      → t ≡ record s { writer = Writer.idle }
      → Step s t
  give_back :
      {w : Wrote}
      → s.writer ≡ Writer.owner
      → write_failed s.shared ≡ some w
      → t ≡ record s {
        writer = Writer.failed;
        shared = w.shared;
        returned = s.returned ++ w.returned;
      }
      → Step s t
  release :
      s.writer ≡ Writer.failed
      → t ≡ record s { writer = Writer.released; is_write_locked = false; write_activity = false }
      → Step s t
  swap_back :
      s.writer ≡ Writer.released
      → t ≡ record s { writer = Writer.idle; reader_cas = cas_idle }
      → Step s t
  -- The constructor of the reader.
  activate :
      s.reader ≡ Reader.away
      → t ≡ record s { reader = Reader.joining; is_reader_active = true }
      → Step s t
  swap_on :
      s.reader ≡ Reader.joining
      → s.reader_cas ≡ cas_idle
      → t ≡ record s { reader = Reader.ready; reader_cas = cas_on }
      → Step s t
  -- Its rounds.
  call_read : s.reader ≡ Reader.ready → s.is_write_locked ≡ true → t ≡ begin_read s → Step s t
  handle :
      {kept rest : List ℕ} {event : ℕ} (h : Handling)
      → s.reader ≡ Reader.reading kept (event ∷ rest)
      → t ≡ read_next s kept event rest h
      → Step s t
  end_read :
      {kept : List ℕ}
      → s.reader ≡ Reader.reading kept []
      → t ≡ record s { reader = Reader.read_done }
      → Step s t
  -- An event loop gives an event back before the barrier; that it finds the event is asserted.
  return_event :
      (event : ℕ) {l : Locked}
      → s.reader ≡ Reader.read_done
      → return_event_to_sender s.shared.locked event ≡ (l, true)
      → t ≡ record s {
        shared = record (s.shared) { locked = l };
        recalled = s.recalled ++ event ∷ [];
      }
      → Step s t
  unlock :
      s.reader ≡ Reader.read_done
      → t ≡ record s { reader = Reader.ready; is_write_locked = false }
      → Step s t
  -- Its destructor.
  swap_idle :
      s.reader ≡ Reader.ready
      → t ≡ record s { reader = Reader.leaving; reader_cas = cas_idle }
      → Step s t
  deactivate :
      s.reader ≡ Reader.leaving
      → t ≡ record s { reader = Reader.away; is_reader_active = false }
      → Step s t

pub data Reach (s : System) : System → Type 0 where
  here : Reach s s
  next : {t u : System} → Reach s t → Step t u → Reach s u
