-- ===== src/Engine/EventTable/Undelivered/All.antt =====
-- src/engine/actor.cpp: the call that unregisters all handlers.
use simplx.Base.{
  ℕ, ◌<◌, ◌≡◌, refl, sym, ◌∙◌, ap, Bool, true, false, not, Option, some, none, List, [], ◌∷◌, ◌++◌,
  arith, length, length-append, ◌==◌, if◌then◌else◌,
}
use simplx.Engine.EventTable.Low.{
  max_event_id_count, StaticHandler, null, on_unregistered_event, on_event_of, RegisteredEvent,
  Block, is_unregistered, array_size, unregistered, unregister_each, unregister_all_low,
}
use simplx.Engine.EventTable.Table.{
  EventTable, debug_check_undelivered_event_count, clear_high, unregister_all,
}
use simplx.Engine.EventTable.Entries.{
  is_good, all_below, all_good, entry, and_split, live_count, unregister_entries,
  unregister_entries-all_below, unregister_entries-all_good, live_count-unregister_entries,
  length-unregister_entries, entry-unregister_entries,
}
use simplx.Engine.EventTable.Blocks.{IsArray, below_head}
use simplx.Engine.EventTable.Lookup.High.{clear_high_lem}
use simplx.Engine.EventTable.Lookup.Handlers.{
  handler, handler_in, handler_in_lem, chosen, handler_of, IsLow, IsHandlers,
}
use simplx.Engine.EventTable.Undelivered.{IsCounted, debug_check_lem}

abbrev step_of : RegisteredEvent → RegisteredEvent
step_of e = if not (e.event_handler == 0) then unregistered e else e

-- The test of the loop's assert.
abbrev asserted : RegisteredEvent → Bool
asserted e =
    if not (e.event_handler == 0)
    then not (is_unregistered e.static_event_handler)
    else is_unregistered e.static_event_handler

good_step :
    (id object : ℕ) (s : StaticHandler)
    → is_good (record { event_id = id; event_handler = object; static_event_handler = s }) ≡ true
    → (asserted (record { event_id = id; event_handler = object; static_event_handler = s }) ≡ true)
      × (step_of (record { event_id = id; event_handler = object; static_event_handler = s })
          ≡ unregistered
              (record { event_id = id; event_handler = object; static_event_handler = s }))
good_step id object null g = absurd (cc)
good_step id object on_unregistered_event g =
    let nobody : object ≡ 0 = ground arith in
    (
      rw g refl,
      rw g (λ i. record {
        event_id = id;
        event_handler = nobody i;
        static_event_handler = on_unregistered_event;
      }),
    )
good_step id object (on_event_of k) g =
    let real : (object == 0) ≡ false = ground arith in (rw real refl, rw real refl)

unregister_each_lem :
    (s : RegisteredEvent) (rest : Block) (es : List RegisteredEvent)
    → s.event_id ≡ max_event_id_count
    → all_below es ≡ true
    → all_good es ≡ true
    → unregister_each (es ++ s ∷ rest) ≡ some (unregister_entries es ++ s ∷ rest)
unfolding unregister_each
unregister_each_lem s rest [] ends h g =
    let stop : (s.event_id == max_event_id_count) ≡ true = ground arith in
    rw (unregister_each, stop) refl
unregister_each_lem s rest (e ∷ es) ends h g =
    let under = below_head e es h in
    let both = and_split (is_good e) (all_good es) g in
    let ih = unregister_each_lem s rest es ends under.1 both.1 in
    let (fine, step) = good_step e.event_id e.event_handler e.static_event_handler both.0 in
    rw (unregister_each, under.0, fine, ih)
      (λ i. some (step i ∷ (unregister_entries es ++ s ∷ rest)))

unregister_all_low_lem :
    (array : Option Block) (es : List RegisteredEvent)
    → IsLow array es
    → (array' : Option Block) × (unregister_all_low array ≡ some array')
      × IsLow array' (unregister_entries es)
      × ((j : ℕ) → handler_in array' j ≡ none)
unfolding unregister_all_low
unregister_all_low_lem none es low = (
  none,
  refl,
  record { holds = ap unregister_entries low.holds; good = unregister_entries-all_good es },
  λ j. refl,
)
unregister_all_low_lem (some b) es low =
    let a : IsArray b es = low.holds in
    let done : unregister_each b ≡ some (unregister_entries es ++ a.sentinel ∷ a.rest) =
      ap unregister_each a.cells
      ∙ unregister_each_lem a.sentinel a.rest es a.ends a.below low.good in
    let b' : Block = unregister_entries es ++ a.sentinel ∷ a.rest in
    let same_length : length b' ≡ length b = omega (
      arith,
      length-append (unregister_entries es) (a.sentinel ∷ a.rest),
      length-append es (a.sentinel ∷ a.rest),
      length-unregister_entries es,
      ap (length {A = RegisteredEvent}) a.cells,
    ) in
    let array : IsArray b' (unregister_entries es) = record {
      sentinel = a.sentinel;
      rest = a.rest;
      cells = refl;
      ends = a.ends;
      below = unregister_entries-all_below es ∙ a.below;
      sized = same_length ∙ a.sized ∙ ap array_size (sym (length-unregister_entries es));
    } in
    (
      some b',
      rw (unregister_all_low, done) refl,
      record { holds = array; good = unregister_entries-all_good es },
      λ j.
          handler_in_lem (some b') (unregister_entries es) j array
          ∙ ap handler (entry-unregister_entries es j)
          ∙ no_handler (entry j es),
    )
  where
    no_handler :
        (o : Option RegisteredEvent)
        → handler (elim o [ none ↦ none | some e ↦ some (unregistered e) ]) ≡ none
    no_handler none = refl
    no_handler (some e) = refl

-- Unregistering all handlers fails no assert: no event has a handler afterwards, in any of the three
-- arrays, the count is zero, the actor is in no chain, and the arrays hold their entries.
pub unregister_all_lem :
    (t : EventTable) (es un : List RegisteredEvent)
    → IsHandlers t es
    → IsCounted t un
    → (t' : EventTable) × (unregister_all t ≡ some t')
      × ((j : ℕ)
          → j < max_event_id_count
          → (handler_of t' j ≡ none) × (handler_in t'.undelivered_event j ≡ none))
      × (t'.undelivered_event_count ≡ 0)
      × (t'.on_unreachable_chain ≡ false)
      × IsHandlers t' (unregister_entries es)
      × IsCounted t' (unregister_entries un)
unfolding unregister_all
unregister_all_lem t es un v c =
    let (high, once, high_at) = clear_high_lem t.hf_event in
    let (lf, lf_done, lf_low, lf_at) = unregister_all_low_lem t.lf_event es v.low in
    let (ud, ud_done, ud_low, ud_at) = unregister_all_low_lem t.undelivered_event un c.low in
    let t' : EventTable = record t {
      hf_event = clear_high t.hf_event;
      lf_event = lf;
      undelivered_event = ud;
      undelivered_event_count = 0;
      on_unreachable_chain = false;
    } in
    let none_left : 0 ≡ live_count (unregister_entries un) =
      sym (live_count-unregister_entries un) in
    let check : debug_check_undelivered_event_count t' ≡ true =
      debug_check_lem t' ud (unregister_entries un) refl ud_low none_left in
    (
      t',
      rw (unregister_all, lf_done, ud_done, check) refl,
      λ j below.
          let out : (j == max_event_id_count) ≡ false = ground arith in
          (ap (λ o. chosen o (handler_in lf j)) (high_at j out) ∙ lf_at j, ud_at j),
      refl,
      refl,
      record { high = high; once = once; low = lf_low },
      record {
        low = ud_low;
        counted = none_left;
        told = λ k. absurd (cc);
        joined = λ k l. absurd (cc);
      },
    )
