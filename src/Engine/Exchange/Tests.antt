-- ===== src/Engine/Exchange/Tests.antt =====
-- A reader joins, two events of 24 bytes are pushed, written and locked; the handler of the first
-- refuses it, that of the second takes it, and the event loop gives it back.
use simplx.Base.{
  ℕ, ◌<◌, ◌≤◌, ◌≡◌, ◌≢◌, refl, true, false, ◌&&◌, some, List, [], ◌∷◌, ◌++◌, arith, ltb,
  if◌then◌else◌,
}
use simplx.Engine.Exchange.Shared.{
  WriteCache, Shared, Wrote, new_locked, new_write_cache, new_shared, write, write_clear, write_new,
  write_failed, Handling, handled, refused, read_one, read_loop, erase_event,
  return_event_to_sender,
}
use simplx.Engine.Exchange.Pages.{
  Slot, allocated, new_page, new_event_page, slot_at, allocate_front, allocate_event,
}
use simplx.Engine.Exchange.Threads.{
  cas_on, Writer, Reader, System, start, push, do_write, begin_read, read_next, Reach, push_event,
  see_unlocked, see_reader, call_write, lock, activate, swap_on, call_read, handle, end_read,
  return_event, here, next,
}
use simplx.Engine.Exchange.Merge.{Merge}
use simplx.Engine.Exchange.Inv.{is_reading}
use simplx.Engine.Exchange.Recycles.{count, IsPaged}
use simplx.Engine.Exchange.Safety.{
  pushed-accounted, uses_shared, reading-not-uses_shared, Reach-asserts, pages-apart,
}
use simplx.Engine.Exchange.Slots.{IsFilled, Run, none_yet, more, AreApart, Run-AreApart}
use simplx.Engine.Exchange.Reads.{read_loop-split}

-- Both events are in page 1.
abbrev layout : ℕ → ℕ
layout e = 1

abbrev initial : System
initial = start 64 layout

abbrev cache_at : ℕ → WriteCache
cache_at n = record (new_write_cache 64) { front_used_page_offset = n; total_written_byte_size = n }

abbrev joined : System
joined = record initial { reader = Reader.ready; is_reader_active = true; reader_cas = cas_on }

abbrev one_pushed : System
one_pushed = record joined {
  shared = record {
    cache = record (cache_at 24) { to_be_delivered = 7 ∷ [] };
    locked = new_locked;
  };
  write_signal = true;
  pushed = 7 ∷ [];
}

abbrev two_pushed : System
two_pushed = record joined {
  shared = record {
    cache = record (cache_at 48) { to_be_delivered = 7 ∷ 8 ∷ [] };
    locked = new_locked;
  };
  write_signal = true;
  pushed = 7 ∷ 8 ∷ [];
}

abbrev sent : Shared
sent = record {
  cache = record (new_write_cache 64) {
    total_written_byte_size = 48;
    used_pages = 0 ∷ [];
    free_pages = [];
  };
  locked = record new_locked { to_be_delivered = 7 ∷ 8 ∷ []; used_pages = 1 ∷ [] };
}

abbrev locked : System
locked = record two_pushed {
  shared = sent;
  write_signal = false;
  write_activity = true;
  is_write_locked = true;
}

abbrev half_read : System
half_read = record locked {
  shared = record sent {
    locked = record (sent.locked) {
      delivered_events_flag = true;
      to_be_delivered = 8 ∷ [];
      undelivered = 7 ∷ [];
    };
  };
  reader = Reader.reading [] (8 ∷ []);
}

joined-Reach : Reach initial joined
joined-Reach =
    next
      (next {u = record initial { reader = Reader.joining; is_reader_active = true }} here
        (activate refl refl))
      (swap_on refl refl refl)

two_pushed-Reach : Reach initial two_pushed
unfolding push allocate_event allocate_front slot_at
two_pushed-Reach =
    next
      (next {u = one_pushed} joined-Reach (push_event 7 true 24 {c = cache_at 24} refl refl refl))
      (push_event 8 true 24 {c = record (cache_at 48) { to_be_delivered = 7 ∷ [] }} refl refl refl)

about_to_write-Reach :
    Reach initial (record two_pushed { writer = Writer.will_write; write_signal = false })
about_to_write-Reach =
    next
      (next {u = record two_pushed { writer = Writer.unlocked; write_signal = false }}
        two_pushed-Reach (see_unlocked refl refl refl refl))
      (see_reader refl refl)

locked-Reach : Reach initial locked
unfolding do_write write write_clear write_new
locked-Reach =
    next
      (next {u = record locked { writer = Writer.wrote; is_write_locked = false }}
        about_to_write-Reach (call_write refl refl))
      (lock refl refl)

half_read-Reach : Reach initial half_read
unfolding begin_read read_next read_one
half_read-Reach =
    next
      (next
        {u = record locked {
          shared = record sent { locked = record (sent.locked) { delivered_events_flag = true } };
          reader = Reader.reading [] (7 ∷ 8 ∷ []);
        }}
        locked-Reach (call_read refl refl refl))
      (handle refused refl refl)

abbrev back_shared : Shared
back_shared = record sent {
  locked = record (sent.locked) {
    delivered_events_flag = true;
    to_be_delivered = [];
    undelivered = 7 ∷ 8 ∷ [];
  };
}

abbrev sent_back : System
sent_back = record locked {
  shared = back_shared;
  reader = Reader.read_done;
  taken = 8 ∷ [];
  recalled = 8 ∷ [];
}

sent_back-Reach : Reach initial sent_back
unfolding read_next read_one return_event_to_sender erase_event
sent_back-Reach =
    next
      (next
        (next {u = record half_read { reader = Reader.reading (8 ∷ []) []; taken = 8 ∷ [] }}
          half_read-Reach (handle handled refl refl))
        (end_read refl refl))
      (return_event 8 {l = back_shared.locked} refl refl refl)

pushed-accounted_example :
    (gone : List ℕ) × (refused : List ℕ) × (7 ∷ 8 ∷ [] ≡ gone ++ ([] ++ []))
    × Merge (8 ∷ []) refused gone
    × Merge refused (8 ∷ []) ([] ++ 7 ∷ 8 ∷ [])
    × ((event : ℕ) → count event (8 ∷ []) ≤ count event (8 ∷ []))
pushed-accounted_example = pushed-accounted sent_back-Reach

reading-not-uses_shared_example :
    (is_reading half_read.reader && uses_shared half_read.writer) ≡ false
reading-not-uses_shared_example = reading-not-uses_shared half_read-Reach

Reach-asserts_example :
    ((w : Wrote) × (write_failed locked.shared ≡ some w))
    × (locked.is_write_locked ≡ true
        → locked.reader ≡ Reader.ready
        → locked.shared.locked.delivered_events_flag ≡ false)
Reach-asserts_example = Reach-asserts locked-Reach

-- The next event is given memory in page 0.
next_allocated :
    allocate_event true half_read.shared.cache 24
    ≡ allocated
        (record (sent.cache) { front_used_page_offset = 24; total_written_byte_size = 72 })
        (record { page = 0; offset = 0; size = 24 })
unfolding allocate_event allocate_front slot_at
next_allocated = refl

pages-apart_example :
    (0 < count 1 half_read.shared.locked.used_pages)
    × (count 0 half_read.shared.locked.used_pages ≡ 0)
    × (◌≢◌ {A = ℕ} 0 1)
pages-apart_example = pages-apart half_read-Reach true 24 next_allocated 7 (omega arith)

-- Three events of 30 bytes need two pages of 64.
abbrev three_slots : List Slot
three_slots =
    record { page = 0; offset = 0; size = 30 }
    ∷ record { page = 1; offset = 30; size = 30 }
    ∷ record { page = 1; offset = 0; size = 30 }
    ∷ []

abbrev filled : ℕ → ℕ → WriteCache
filled offset total = record (new_write_cache 64) {
  front_used_page_offset = offset;
  total_written_byte_size = total;
}

abbrev last_cache : WriteCache
last_cache = record (filled 30 90) { used_pages = 0 ∷ 1 ∷ []; free_pages = [] }

three_slots-Run :
    Run (new_shared 64) (record { cache = last_cache; locked = new_locked }) three_slots
unfolding allocate_event allocate_front new_event_page new_page slot_at
three_slots-Run =
    more true 30 {c = last_cache}
      (more true 30 {c = filled 60 60} (more true 30 {c = filled 30 30} none_yet refl) refl) refl

new_shared-IsPaged : IsPaged (new_shared 64)
new_shared-IsPaged = record { once = λ p. ground arith; some_page = omega arith }

new_cache-IsFilled : IsFilled (new_write_cache 64)
new_cache-IsFilled = record { inside = omega arith; bounded = omega arith }

Run-AreApart_example : AreApart 64 three_slots
Run-AreApart_example = Run-AreApart three_slots-Run new_shared-IsPaged new_cache-IsFilled

-- The handlers refuse events below 8.
abbrev from_eight : ℕ → Handling
from_eight e = if ltb e 8 then refused else handled

read_loop-split_example :
    read_loop sent.locked [] (7 ∷ 8 ∷ []) from_eight
    ≡ record (sent.locked) { to_be_delivered = 8 ∷ []; undelivered = 7 ∷ [] }
read_loop-split_example = read_loop-split sent.locked from_eight
