-- ===== src/Engine/EventTable/Lookup/Unregister.antt =====
-- src/engine/actor.cpp: unregistering the handler of an event, in both arrays.
use simplx.Base.{
  ℕ, ◌+◌, ◌||◌, ◌<◌, ◌≡◌, refl, sym, ◌∙◌, ap, Bool, true, false, Option, some, none, List, arith,
  lt→ltb, ◌==◌, if◌then◌else◌, inl, inr, Bool-cases, Option-cases, ==_iff,
}
use simplx.Engine.EventTable.Low.{
  max_event_id_count, RegisteredEvent, Block, is_unregistered, set_event_id, unregistered,
  unregister_low,
}
use simplx.Engine.EventTable.Table.{
  EventTable, Call, unregister_high, unregister_lf, unregister_event_handler,
}
use simplx.Engine.EventTable.Entries.{
  entry, put_entry, put_entry-all_good, entry-event_id, live_count, live_count-unregister,
}
use simplx.Engine.EventTable.Blocks.{entry_in, entry_in_lem, Holds}
use simplx.Engine.EventTable.Unregisters.{unregister_low_lem}
use simplx.Engine.EventTable.Lookup.High.{
  all_high, find_high_cases, Once, entry-free, free-Once, free-all_high,
}
use simplx.Engine.EventTable.Lookup.Handlers.{
  handler, handler_in, handler_in_lem, handler_in-put_entry, chosen, handler_of, IsLow, IsHandlers,
}

-- The array has an entry for the event that was unregistered.
abbrev pub is_stale : Option Block → ℕ → Bool
is_stale none id = false
is_stale (some b) id = elim (entry_in id b) [
  | none ↦ false
  | some e ↦ is_unregistered e.static_event_handler
]

is_stale_lem :
    (array : Option Block) (es : List RegisteredEvent) (id : ℕ) (e : RegisteredEvent)
    → Holds array es
    → entry id es ≡ some e
    → is_stale array id ≡ is_unregistered e.static_event_handler
is_stale_lem none es id e empty there =
    let out : none ≡ some e = ap (entry id) (sym empty) ∙ there in absurd (cc)
is_stale_lem (some b) es id e a there =
    let found : entry_in id b ≡ some e = entry_in_lem id b es a ∙ there in rw (is_stale, found) refl

-- The array after an event in range was unregistered.
pub unregister_low_cases :
    (array : Option Block) (es : List RegisteredEvent) (id : ℕ)
    → IsLow array es
    → id < max_event_id_count
    → is_stale array id ≡ false
    → (array' : Option Block) × (n : ℕ) × (es' : List RegisteredEvent) × (unregister_low array id
        ≡ some (array', n))
      × IsLow array' es'
      × ((j : ℕ) → handler_in array' j ≡ (if id == j then none else handler_in array j))
      × (live_count es' + n ≡ live_count es)
      × ((n == 0 || n == 1) ≡ true)
unregister_low_cases array es id low h fresh =
    let calls = unregister_low_lem array es id low.holds h in
    elim (Option-cases (entry id es)) [
      | inl out ↦ (array, 0, es, calls.0 out, low, λ j. unchanged j out, omega arith, refl)
      | inr (e, there) ↦
          let live : is_unregistered e.static_event_handler ≡ false =
            sym (is_stale_lem array es id e low.holds there) ∙ fresh in
          let done = calls.2 e there live in
          let same = entry-event_id id es e there in
          (
            done.0,
            1,
            put_entry (unregistered e) es,
            done.1,
            record { holds = done.2; good = put_entry-all_good (unregistered e) es refl low.good },
            λ j.
                handler_in-put_entry array done.0 es (unregistered e) j low.holds done.2
                ∙ ap (λ n. if n == j then none else handler_in array j) same,
            omega (arith, live_count-unregister e es (ap (λ n. entry n es) same ∙ there) live),
            refl,
          )
    ]
  where
    unchanged :
        (j : ℕ)
        → entry id es ≡ none
        → handler_in array j ≡ (if id == j then none else handler_in array j)
    unchanged j out = elim (Bool-cases (id == j)) [
      | inl mine ↦
          let e_j : id ≡ j = (==_iff id j).0 mine in
          rw mine (
            handler_in_lem array es j low.holds
            ∙ ap (λ n. handler (entry n es)) (sym e_j)
            ∙ ap handler out)
      | inr other ↦ rw other refl
    ]

-- A cell of `hfEvent` is freed.
unregister_high_lem :
    (t : EventTable) (id : ℕ)
    → all_high t.hf_event ≡ true
    → Once t.hf_event
    → (id == max_event_id_count) ≡ false
    → (hf : List RegisteredEvent) × (unregister_high t id ≡ record t { hf_event = hf })
      × (all_high hf ≡ true)
      × Once hf
      × ((j : ℕ)
          → (j == max_event_id_count) ≡ false
          → entry j hf ≡ (if id == j then none else entry j t.hf_event))
unfolding unregister_high
unregister_high_lem t id high once in_range = elim (find_high_cases id t.hf_event) [
  | inl (missed, away) ↦
      (t.hf_event, rw (unregister_high, missed) refl, high, once, λ j below. unchanged j away)
  | inr (i, e, at, cell, there) ↦ (
    set_event_id t.hf_event i max_event_id_count,
    rw (unregister_high, at) refl,
    free-all_high t.hf_event i high,
    free-Once id in_range t.hf_event i at once,
    λ j below. entry-free id in_range t.hf_event i at once j below,
  )
]
  where
    unchanged :
        (j : ℕ)
        → entry id t.hf_event ≡ none
        → entry j t.hf_event ≡ (if id == j then none else entry j t.hf_event)
    unchanged j away = elim (Bool-cases (id == j)) [
      | inl mine ↦
          let e_j : id ≡ j = (==_iff id j).0 mine in
          rw mine (ap (λ n. entry n t.hf_event) (sym e_j) ∙ away)
      | inr other ↦ rw other refl
    ]

chosen_unset :
    (b : Bool) (o o' : Option RegisteredEvent) (low low' : Option Call)
    → o' ≡ (if b then none else o)
    → low' ≡ (if b then none else low)
    → chosen o' low' ≡ (if b then none else chosen o low)
chosen_unset true o o' low low' e f = ap (λ p. chosen p low') e ∙ f
chosen_unset false o o' low low' e f = ap (λ p. chosen p low') e ∙ ap (chosen o) f

unregister_lf-some :
    (t : EventTable) (id : ℕ) (array : Option Block) (n : ℕ)
    → unregister_low t.lf_event id ≡ some (array, n)
    → unregister_lf t id ≡ some (record t { lf_event = array })
unfolding unregister_lf
unregister_lf-some t id array n e = rw (unregister_lf, e) refl

unregister_lf-none :
    (t : EventTable) (id : ℕ) → unregister_low t.lf_event id ≡ none → unregister_lf t id ≡ none
unfolding unregister_lf
unregister_lf-none t id e = rw (unregister_lf, e) refl

-- Unregistering an event id in range, for which the low-frequency array has no entry that was
-- unregistered before, fails no assert: the event has no handler afterwards, in either array, the
-- others have theirs, and the arrays hold their entries.
pub unregister_event_handler_lem :
    (t : EventTable) (es : List RegisteredEvent) (id : ℕ)
    → IsHandlers t es
    → id < max_event_id_count
    → is_stale t.lf_event id ≡ false
    → (t' : EventTable) × (es' : List RegisteredEvent) × (unregister_event_handler t id ≡ some t')
      × IsHandlers t' es'
      × ((j : ℕ)
          → j < max_event_id_count
          → handler_of t' j ≡ (if id == j then none else handler_of t j))
unfolding unregister_event_handler
unregister_event_handler_lem t es id v h fresh =
    let in_range = lt→ltb id max_event_id_count h in
    let inside : (id == max_event_id_count) ≡ false = ground arith in
    let (hf, cleared, high, once, hf_at) = unregister_high_lem t id v.high v.once inside in
    let (array, n, es', done, low, low_at, counted, one) =
      unregister_low_cases t.lf_event es id v.low h fresh in
    (
      record t { hf_event = hf; lf_event = array },
      es',
      rw (unregister_event_handler, in_range, cleared)
          (unregister_lf-some (record t { hf_event = hf }) id array n done),
      record { high = high; once = once; low = low },
      λ j below.
          let out : (j == max_event_id_count) ≡ false = ground arith in
          chosen_unset (id == j) (entry j t.hf_event) (entry j hf) _ _ (hf_at j out) (low_at j),
    )

-- An event whose low-frequency entry was unregistered before fails the assert of
-- unregisterLowPriorityEventHandler, though the event may have a handler again, in a cell of
-- hfEvent.
pub unregister_event_handler-fails :
    (t : EventTable) (es : List RegisteredEvent) (id : ℕ)
    → IsHandlers t es
    → id < max_event_id_count
    → is_stale t.lf_event id ≡ true
    → unregister_event_handler t id ≡ none
unfolding unregister_event_handler
unregister_event_handler-fails t es id v h stale =
    let in_range = lt→ltb id max_event_id_count h in
    let inside : (id == max_event_id_count) ≡ false = ground arith in
    let (hf, cleared, high, once, hf_at) = unregister_high_lem t id v.high v.once inside in
    let fails = unregister_low_fails t.lf_event es id v.low h stale in
    rw (unregister_event_handler, in_range, cleared)
      (unregister_lf-none (record t { hf_event = hf }) id fails)
  where
    unregister_low_fails :
        (array : Option Block) (es : List RegisteredEvent) (id : ℕ)
        → IsLow array es
        → id < max_event_id_count
        → is_stale array id ≡ true
        → unregister_low array id ≡ none
    unregister_low_fails none es id low h stale = cc
    unregister_low_fails (some b) es id low h stale =
        let found = entry_in_lem id b es low.holds in
        elim (Option-cases (entry id es)) [
          | inl out ↦
              let nothing : entry_in id b ≡ none = found ∙ out in
              let clash : false ≡ true = rw (is_stale, nothing) at stale in cc
          | inr (e, there) ↦
              (unregister_low_lem (some b) es id low.holds h).1 e there
                (sym (is_stale_lem (some b) es id e low.holds there) ∙ stale)
        ]
