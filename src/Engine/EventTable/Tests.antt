-- ===== src/Engine/EventTable/Tests.antt =====
-- A table whose seven cells of `hfEvent` are taken by the events 1 to 7; event 8 has a handler in
-- the low-frequency array, and event 9 was unregistered there.
use simplx.Base.{
  ℕ, ◌+◌, ◌<◌, ◌≡◌, refl, true, false, Option, some, none, List, [], ◌∷◌, ◌⊎◌, inr, arith, length,
  replicate, length-replicate, sym, ◌∙◌, ap, ◌==◌, if◌then◌else◌,
}
use simplx.Engine.EventTable.Low.{
  max_event_id_count, on_unregistered_event, on_event_of, RegisteredEvent, Allocate, returns,
  throws, register_low,
}
use simplx.Engine.EventTable.Table.{
  EventTable, Call, new_event, register_high, register_undelivered, unregister_event_handler,
  unregister_undelivered, unregister_all, on_event,
}
use simplx.Engine.EventTable.Entries.{unregister_entries}
use simplx.Engine.EventTable.Registers.{IsAllocator, Registered, register_low_lem}
use simplx.Engine.EventTable.Lookup.Handlers.{
  handler_in, handler_of, IsLow, IsHandlers, Set, register_high_lem,
}
use simplx.Engine.EventTable.Lookup.Unregister.{
  unregister_event_handler_lem, unregister_event_handler-fails,
}
use simplx.Engine.EventTable.Lookup.Events.{run_by, on_event-handler_of}
use simplx.Engine.EventTable.Undelivered.{IsCounted}
use simplx.Engine.EventTable.Undelivered.Calls.{
  register_undelivered_lem, unregister_undelivered_lem,
}
use simplx.Engine.EventTable.Undelivered.All.{unregister_all_lem}

abbrev on : ℕ → RegisteredEvent
on id = record { event_id = id; event_handler = 100 + id; static_event_handler = on_event_of 5 }

abbrev off : ℕ → RegisteredEvent
off id = record { event_id = id; event_handler = 0; static_event_handler = on_unregistered_event }

abbrev entries : List RegisteredEvent
entries = on 8 ∷ off 9 ∷ []

abbrev table : EventTable
table = record {
  hf_event = on 1 ∷ on 2 ∷ on 3 ∷ on 4 ∷ on 5 ∷ on 6 ∷ on 7 ∷ [];
  lf_event = some (on 8 ∷ off 9 ∷ new_event ∷ on 6 ∷ on 6 ∷ []);
  undelivered_event = some (on 8 ∷ off 9 ∷ new_event ∷ on 6 ∷ on 6 ∷ []);
  undelivered_event_count = 1;
  on_unreachable_chain = true;
  process_out_pipe_count = 2;
}

allocate : Allocate
allocate n = some (replicate n (on 3))

allocate-IsAllocator : IsAllocator allocate
unfolding allocate
allocate-IsAllocator n b h =
    let given : replicate n (on 3) ≡ b = cc in
    ap (length {A = RegisteredEvent}) (sym given) ∙ length-replicate n (on 3)

entries-IsLow : IsLow table.lf_event entries
entries-IsLow = record {
  holds = record {
    sentinel = new_event;
    rest = on 6 ∷ on 6 ∷ [];
    cells = refl;
    ends = refl;
    below = refl;
    sized = refl;
  };
  good = refl;
}

table-IsHandlers : IsHandlers table entries
table-IsHandlers = record {
  high = refl;
  once = (inr refl, (inr refl, (inr refl, (inr refl, (inr refl, (inr refl, (inr refl, tt)))))));
  low = entries-IsLow;
}

table-IsCounted : IsCounted table entries
table-IsCounted = record {
  low = entries-IsLow;
  counted = refl;
  told = λ k. refl;
  joined = λ k l. refl;
}

-- Event 9, which was unregistered, and event 10, which is new.
register_high_lem_example :
    Set allocate table
      (register_high allocate table 9 50 (on_event_of 4))
      9
      (record { static = on_event_of 4; handler = 50 })
register_high_lem_example =
    register_high_lem table entries table-IsHandlers 9 50 4 (omega arith) refl allocate
      allocate-IsAllocator refl

register_low_lem_example :
    Registered allocate
      (register_low allocate table.lf_event 10 110 (on_event_of 5))
      (on 10)
      entries
register_low_lem_example =
    register_low_lem (on 10) entries allocate table.lf_event allocate-IsAllocator
      entries-IsLow.holds refl (omega arith)

unregister_event_handler_lem_example :
    (t' : EventTable) × (es' : List RegisteredEvent) × (unregister_event_handler table 8 ≡ some t')
    × IsHandlers t' es'
    × ((j : ℕ)
        → j < max_event_id_count
        → handler_of t' j ≡ (if 8 == j then none else handler_of table j))
unregister_event_handler_lem_example =
    unregister_event_handler_lem table entries 8 table-IsHandlers (omega arith) refl

unregister_event_handler-fails_example : unregister_event_handler table 9 ≡ none
unregister_event_handler-fails_example =
    unregister_event_handler-fails table entries 9 table-IsHandlers (omega arith) refl

on_event-handler_of_example :
    (c : Option Call) × (on_event table 8 3 ≡ some (c, elim c [ none ↦ 3 | some k ↦ 3 + 1 ]))
    × (run_by c ≡ handler_of table 8)
on_event-handler_of_example = on_event-handler_of table entries 8 3 table-IsHandlers (omega arith)

register_undelivered_lem_example :
    ((n : ℕ) × (allocate n ≡ none)
      × (t' : EventTable) × (register_undelivered allocate table 9 50 (on_event_of 4) ≡ throws t')
      × IsCounted t' entries
      × ((j : ℕ) → handler_in t'.undelivered_event j ≡ handler_in table.undelivered_event j))
    ⊎ ((t' : EventTable) × (es' : List RegisteredEvent) × (register_undelivered allocate table 9 50
            (on_event_of 4)
          ≡ returns t' tt)
        × IsCounted t' es'
        × ((j : ℕ)
            → handler_in t'.undelivered_event j ≡ (
                if 9 == j
                then some (record { static = on_event_of 4; handler = 50 })
                else handler_in table.undelivered_event j)))
register_undelivered_lem_example =
    register_undelivered_lem table entries table-IsCounted 9 50 4 allocate allocate-IsAllocator
      (omega arith) refl refl

unregister_undelivered_lem_example :
    (t' : EventTable) × (es' : List RegisteredEvent) × (unregister_undelivered table 8 ≡ some t')
    × IsCounted t' es'
    × ((j : ℕ)
        → handler_in t'.undelivered_event j
          ≡ (if 8 == j then none else handler_in table.undelivered_event j))
unregister_undelivered_lem_example =
    unregister_undelivered_lem table entries table-IsCounted 8 (omega arith) refl

unregister_all_lem_example :
    (t' : EventTable) × (unregister_all table ≡ some t')
    × ((j : ℕ)
        → j < max_event_id_count
        → (handler_of t' j ≡ none) × (handler_in t'.undelivered_event j ≡ none))
    × (t'.undelivered_event_count ≡ 0)
    × (t'.on_unreachable_chain ≡ false)
    × IsHandlers t' (unregister_entries entries)
    × IsCounted t' (unregister_entries entries)
unregister_all_lem_example =
    unregister_all_lem table entries entries table-IsHandlers table-IsCounted
