-- ===== src/Engine/EventTable/Undelivered/Calls.antt =====
-- src/engine/actor.cpp: the calls that register and unregister the handlers of undelivered events,
-- and the call that unregisters all handlers.
use simplx.Base.{
  ℕ, ◌+◌, ◌-◌, ◌<◌, ◌≡◌, refl, sym, ◌∙◌, ap, true, false, not, ◌&&◌, ◌||◌, some, none, List, arith,
  ltb, ◌==◌, if◌then◌else◌, ◌⊎◌, inl, inr, Bool-cases, Option-cases,
}
use simplx.Engine.EventTable.Low.{
  max_event_id_count, on_event_of, RegisteredEvent, Allocate, returns, throws, is_unregistered,
}
use simplx.Engine.EventTable.Table.{
  EventTable, is_registered_undelivered_event_handler, register_undelivered, unregister_undelivered,
}
use simplx.Engine.EventTable.Entries.{
  entry, put_entry, put_entry-all_good, live_count, added, live_count-put_entry,
}
use simplx.Engine.EventTable.Registers.{IsAllocator, register_low_lem}
use simplx.Engine.EventTable.Lookup.Handlers.{
  handler, handler_in, handler_in_lem, handler_in-same, handler_in-put_entry, IsLow, is_some,
  is_registered_low_lem,
}
use simplx.Engine.EventTable.Lookup.Unregister.{is_stale, unregister_low_cases}
use simplx.Engine.EventTable.Undelivered.{IsCounted, leave_unreachable_lem, join_unreachable_lem}

added_one : (id : ℕ) (es : List RegisteredEvent) → handler (entry id es) ≡ none → added id es ≡ 1
added_one id es h = elim (Option-cases (entry id es)) [
  | inl out ↦ rw (added, out) refl
  | inr (e, there) ↦ elim (Bool-cases (is_unregistered e.static_event_handler)) [
    | inl dead ↦ rw (added, there, dead) refl
    | inr live ↦
        let clash = sym h ∙ ap handler there in
        let found : handler (some e)
            ≡ some (record { static = e.static_event_handler; handler = e.event_handler }) =
          rw live refl in
        let no_call = clash ∙ found in absurd (cc)
  ]
]

module _ (t : EventTable) (es : List RegisteredEvent) (v : IsCounted t es) where
  -- Registering a handler of undelivered events, for an event id in range that has none, fails no
  -- assert: either an allocation fails, and each event keeps its handler, or the event has the new
  -- handler and the others keep theirs. The count is that of the handlers again, and the actor is
  -- in the chain of those to be told if it has a pipe to another process.
  pub register_undelivered_lem :
      (id object k : ℕ) (allocate : Allocate)
      → IsAllocator allocate
      → id < max_event_id_count
      → (object == 0) ≡ false
      → handler_in t.undelivered_event id ≡ none
      → ((n : ℕ) × (allocate n ≡ none)
          × (t' : EventTable) × (register_undelivered allocate t id object (on_event_of k)
              ≡ throws t')
          × IsCounted t' es
          × ((j : ℕ) → handler_in t'.undelivered_event j ≡ handler_in t.undelivered_event j))
        ⊎ ((t' : EventTable) × (es' : List RegisteredEvent) × (register_undelivered allocate t id
                object
                (on_event_of k)
              ≡ returns t' tt)
            × IsCounted t' es'
            × ((j : ℕ)
                → handler_in t'.undelivered_event j ≡ (
                    if id == j
                    then some (record { static = on_event_of k; handler = object })
                    else handler_in t.undelivered_event j)))
  unfolding register_undelivered is_registered_undelivered_event_handler
  register_undelivered_lem id object k allocate lawful h real out =
      let new : RegisteredEvent = record {
        event_id = id;
        event_handler = object;
        static_event_handler = on_event_of k;
      } in
      let asked : is_registered_undelivered_event_handler t id ≡ some false =
        is_registered_low_lem t.undelivered_event es id v.low h ∙ ap (λ o. some (is_some o)) out in
      let one =
        added_one id es (sym (handler_in_lem t.undelivered_event es id v.low.holds) ∙ out) in
      elim (register_low_lem new es allocate t.undelivered_event lawful v.low.holds v.low.good h) [
        | inl (n, no_memory, array, r, holds) ↦ inl (
          n,
          no_memory,
          record t { undelivered_event = array },
          rw (register_undelivered, asked, r) refl,
          record {
            low = record { holds = holds; good = v.low.good };
            counted = v.counted;
            told = v.told;
            joined = v.joined;
          },
          λ j. handler_in-same t.undelivered_event array es j v.low.holds holds,
        )
        | inr (array, r, holds) ↦
            let grown : live_count (put_entry new es) ≡ live_count es + added id es =
              live_count-put_entry new es refl in
            let t1 : EventTable = record t {
              undelivered_event = array;
              undelivered_event_count = t.undelivered_event_count + added id es;
            } in
            let low1 : IsLow array (put_entry new es) = record {
              holds = holds;
              good = put_entry-all_good new es (ap not real) v.low.good;
            } in
            let counted1 : t.undelivered_event_count + added id es ≡ live_count (put_entry new es) =
              omega (arith, grown, v.counted) in
            let above : (t.undelivered_event_count + added id es == 0) ≡ false =
              ground (arith, one) in
            let (t', joined, same, v') =
              join_unreachable_lem t1 (put_entry new es) low1 counted1 above in
            inr (
              t',
              put_entry new es,
              rw (register_undelivered, asked, r) joined,
              v',
              λ j.
                  ap (λ o. handler_in o j) same
                  ∙ handler_in-put_entry t.undelivered_event array es new j v.low.holds holds,
            )
      ]

  -- Unregistering the handler of an event's undelivered events, for an event id in range whose entry
  -- was not unregistered before, fails no assert: the event has no handler of them afterwards, and
  -- the others have theirs. The count is that of the handlers again, and with the last of them the
  -- actor leaves the chain of those to be told.
  pub unregister_undelivered_lem :
      (id : ℕ)
      → id < max_event_id_count
      → is_stale t.undelivered_event id ≡ false
      → (t' : EventTable) × (es' : List RegisteredEvent) × (unregister_undelivered t id ≡ some t')
        × IsCounted t' es'
        × ((j : ℕ)
            → handler_in t'.undelivered_event j
              ≡ (if id == j then none else handler_in t.undelivered_event j))
  unfolding unregister_undelivered
  unregister_undelivered_lem id h fresh =
      let (array, n, es', done, low, at, counted, one) =
        unregister_low_cases t.undelivered_event es id v.low h fresh in
      let t1 : EventTable = record t {
        undelivered_event = array;
        undelivered_event_count = t.undelivered_event_count - n;
      } in
      let fewer : t.undelivered_event_count - n ≡ live_count es' =
        omega (arith, counted, v.counted) in
      let sum : live_count es' + n ≡ t.undelivered_event_count = counted ∙ sym v.counted in
      let fine : (n == 0 || (n == 1 && ltb 0 t.undelivered_event_count)) ≡ true =
        ground (arith, sum, one) in
      let (t', left, same, v') =
        leave_unreachable_lem t1 es' low fewer (λ k l. v.joined (ground arith) l) in
      (
        t',
        es',
        rw (unregister_undelivered, done, fine) left,
        v',
        λ j. ap (λ o. handler_in o j) same ∙ at j,
      )
