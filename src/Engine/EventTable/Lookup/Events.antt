-- ===== src/Engine/EventTable/Lookup/Events.antt =====
-- include/trz/engine/internal/node.h (onEvent) and src/engine/node.cpp (onLowFrequencyEvent): the
-- search for the handler of an event, and the map of the handlers.
use simplx.Base.{
  ℕ, ◌+◌, ◌<◌, ◌≡◌, refl, sym, ◌∙◌, ap, true, false, Option, some, none, List, ◌∷◌, arith, length,
  get_elem?, ◌==◌, if◌then◌else◌, ◌⊎◌, inl, inr, Option-cases,
}
use simplx.Engine.EventTable.Low.{
  max_event_id_count, RegisteredEvent, Block, is_unregistered, find_slot,
}
use simplx.Engine.EventTable.Table.{
  EventTable, Call, call_of, on_low_frequency_event, on_event, on_undelivered_event,
}
use simplx.Engine.EventTable.Entries.{is_good, entry, position, entry-event_id, entry-is_good}
use simplx.Engine.EventTable.Blocks.{
  IsArray, find_slot_lem, position-none, get_elem?-end, get_elem?-position,
}
use simplx.Engine.EventTable.Lookup.High.{find_high_cases, entry-is_high}
use simplx.Engine.EventTable.Lookup.Handlers.{
  handler, handler_in, handler_in_lem, handler_of, IsLow, IsHandlers,
}

-- The handler that a call runs: `onUnregisteredEvent` runs none.
abbrev pub run_by : Option Call → Option Call
run_by none = none
run_by (some c) = if is_unregistered c.static then none else some c

-- The call of a good entry.
call_of_lem :
    (e : RegisteredEvent)
    → is_good e ≡ true
    → (c : Call) × (call_of e ≡ some (some c)) × (run_by (some c) ≡ handler (some e))
call_of_lem e g = (
  record { static = e.static_event_handler; handler = e.event_handler },
  ground arith,
  ground arith,
)

-- What a search in an array finds.
search_lem :
    (b : Block) (es : List RegisteredEvent) (id : ℕ)
    → IsLow (some b) es
    → id < max_event_id_count
    → (i : ℕ) × (e : RegisteredEvent) × (find_slot id b ≡ some i)
      × (get_elem? b i ≡ some e)
      × (((e.event_id == max_event_id_count) ≡ true) × (handler_in (some b) id ≡ none)
          ⊎ ((e.event_id == max_event_id_count) ≡ false)
            × (is_good e ≡ true)
            × (handler_in (some b) id ≡ handler (some e)))
search_lem b es id low h =
    let a : IsArray b es = low.holds in
    let found : find_slot id b ≡ some (position id es) =
      ap (find_slot id) a.cells ∙ find_slot_lem a.sentinel a.rest a.ends id es a.below in
    let answer = handler_in_lem (some b) es id a in
    elim (Option-cases (entry id es)) [
      | inl out ↦ (
        length es,
        a.sentinel,
        found ∙ ap some (position-none id es out),
        ap (λ (c : Block). get_elem? c (length es)) a.cells ∙ get_elem?-end es a.sentinel a.rest,
        inl (rw a.ends refl, answer ∙ ap handler out),
      )
      | inr (e, there) ↦
          let same = entry-event_id id es e there in
          (
            position id es,
            e,
            found,
            ap (λ (c : Block). get_elem? c (position id es)) a.cells
                ∙ get_elem?-position id e es (a.sentinel ∷ a.rest) there,
            inr (ground arith, entry-is_good id es e there low.good, answer ∙ ap handler there),
          )
    ]

on_low_frequency_event_lem :
    (t : EventTable) (es : List RegisteredEvent) (id counter : ℕ)
    → IsLow t.lf_event es
    → id < max_event_id_count
    → (c : Option Call) × (on_low_frequency_event t id counter
        ≡ some (c, elim c [ none ↦ counter | some k ↦ counter + 1 ]))
      × (run_by c ≡ handler_in t.lf_event id)
unfolding on_low_frequency_event
on_low_frequency_event_lem t es id counter low h = go t.lf_event refl low
  where
    go :
        (array : Option Block)
        → t.lf_event ≡ array
        → IsLow array es
        → (c : Option Call) × (on_low_frequency_event t id counter
            ≡ some (c, elim c [ none ↦ counter | some k ↦ counter + 1 ]))
          × (run_by c ≡ handler_in t.lf_event id)
    go none e low = (none, rw (on_low_frequency_event, e) refl, ap (λ o. handler_in o id) (sym e))
    go (some b) e low =
        let (i, x, at, cell, what) = search_lem b es id low h in
        elim what [
          | inl (ends, out) ↦ (
            none,
            rw (on_low_frequency_event, e, at, cell, ends) refl,
            sym (ap (λ o. handler_in o id) e ∙ out),
          )
          | inr (inner, good, is) ↦
              let (c, called, runs) = call_of_lem x good in
              (
                some c,
                rw (on_low_frequency_event, e, at, cell, inner, called) refl,
                runs ∙ sym (ap (λ o. handler_in o id) e ∙ is),
              )
        ]

-- The search for an event fails no assert and reads within its block, and the handler it calls is
-- the one that the event has: it calls no other, and none where the event has none. The performance
-- counter goes up by one when there is a call, that of onUnregisteredEvent included.
pub on_event-handler_of :
    (t : EventTable) (es : List RegisteredEvent) (id counter : ℕ)
    → IsHandlers t es
    → id < max_event_id_count
    → (c : Option Call) × (on_event t id counter
        ≡ some (c, elim c [ none ↦ counter | some k ↦ counter + 1 ]))
      × (run_by c ≡ handler_of t id)
unfolding on_event
on_event-handler_of t es id counter v h = elim (find_high_cases id t.hf_event) [
  | inl (missed, away) ↦
      let low = on_low_frequency_event_lem t es id counter v.low h in
      (low.0, rw (on_event, missed) low.1, rw (handler_of, away) low.2)
  | inr (i, e, at, cell, there) ↦
      let g = entry-is_high id t.hf_event e there v.high in
      let same = entry-event_id id t.hf_event e there in
      let good : is_good e ≡ true = ground arith in
      let (c, called, runs) = call_of_lem e good in
      (some c, rw (on_event, at, cell, called) refl, rw (handler_of, there) runs)
]

-- The search for the handler of an undelivered event.
pub on_undelivered_event-handler_in :
    (t : EventTable) (es : List RegisteredEvent) (id : ℕ)
    → IsLow t.undelivered_event es
    → id < max_event_id_count
    → (c : Option Call) × (on_undelivered_event t id ≡ some c)
      × (run_by c ≡ handler_in t.undelivered_event id)
unfolding on_undelivered_event
on_undelivered_event-handler_in t es id low h = go t.undelivered_event refl low
  where
    go :
        (array : Option Block)
        → t.undelivered_event ≡ array
        → IsLow array es
        → (c : Option Call) × (on_undelivered_event t id ≡ some c)
          × (run_by c ≡ handler_in t.undelivered_event id)
    go none e low = (none, rw (on_undelivered_event, e) refl, ap (λ o. handler_in o id) (sym e))
    go (some b) e low =
        let (i, x, at, cell, what) = search_lem b es id low h in
        elim what [
          | inl (ends, out) ↦ (
            none,
            rw (on_undelivered_event, e, at, cell, ends) refl,
            sym (ap (λ o. handler_in o id) e ∙ out),
          )
          | inr (inner, good, is) ↦
              let (c, called, runs) = call_of_lem x good in
              (
                some c,
                rw (on_undelivered_event, e, at, cell, inner) called,
                runs ∙ sym (ap (λ o. handler_in o id) e ∙ is),
              )
        ]
