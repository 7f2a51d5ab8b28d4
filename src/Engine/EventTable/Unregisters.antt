-- ===== src/Engine/EventTable/Unregisters.antt =====
-- src/engine/actor.cpp: what unregistering an event does to the entries of an array.
use simplx.Base.{
  ℕ, ◌<◌, ◌≡◌, refl, sym, ◌∙◌, ap, true, false, Option, some, none, List, ◌∷◌, ◌++◌, arith, length,
  get_elem?, set, length-set, lt→ltb, ◌==◌,
}
use simplx.Engine.EventTable.Low.{
  max_event_id_count, RegisteredEvent, Block, is_unregistered, find_slot, array_size, unregistered,
  unregister_low,
}
use simplx.Engine.EventTable.Entries.{
  entry, position, put_entry, put_entry-all_below, length-put_entry, entry-event_id,
}
use simplx.Engine.EventTable.Blocks.{
  Holds, find_slot_lem, position-none, get_elem?-end, get_elem?-position, set-position,
}

pub unregister_low_lem :
    (array : Option Block) (es : List RegisteredEvent) (id : ℕ)
    → Holds array es
    → id < max_event_id_count
    → (entry id es ≡ none → unregister_low array id ≡ some (array, 0))
      × ((e : RegisteredEvent)
          → entry id es ≡ some e
          → is_unregistered e.static_event_handler ≡ true
          → unregister_low array id ≡ none)
      × ((e : RegisteredEvent)
          → entry id es ≡ some e
          → is_unregistered e.static_event_handler ≡ false
          → (array' : Option Block) × (unregister_low array id ≡ some (array', 1))
            × Holds array' (put_entry (unregistered e) es))
unfolding unregister_low
unregister_low_lem none es id empty h =
    let in_range = lt→ltb id max_event_id_count h in
    let nothing : entry id es ≡ none = ap (entry id) empty in
    (
      λ out. rw (unregister_low, in_range) refl,
      λ e there dead. let clash : none ≡ some e = sym nothing ∙ there in cc,
      λ e there live. let clash : none ≡ some e = sym nothing ∙ there in absurd (cc),
    )
unregister_low_lem (some b) es id a h =
    let in_range = lt→ltb id max_event_id_count h in
    let found : find_slot id b ≡ some (position id es) =
      ap (find_slot id) a.cells ∙ find_slot_lem a.sentinel a.rest a.ends id es a.below in
    let cell : (e : RegisteredEvent)
        → entry id es ≡ some e
        → get_elem? b (position id es) ≡ some e =
      λ e there.
        ap (λ (c : Block). get_elem? c (position id es)) a.cells
        ∙ get_elem?-position id e es (a.sentinel ∷ a.rest) there in
    let inner : (e : RegisteredEvent)
        → entry id es ≡ some e
        → (e.event_id == max_event_id_count) ≡ false =
      λ e there. let same = entry-event_id id es e there in ground arith in
    (
      λ out.
          let there : find_slot id b ≡ some (length es) =
            found ∙ ap some (position-none id es out) in
          let end_cell : get_elem? b (length es) ≡ some a.sentinel =
            ap (λ (c : Block). get_elem? c (length es)) a.cells
            ∙ get_elem?-end es a.sentinel a.rest in
          let ends : (a.sentinel.event_id == max_event_id_count) ≡ true = rw a.ends refl in
          rw (unregister_low, in_range, there, end_cell, ends) refl,
      λ e there dead. rw (unregister_low, in_range, found, cell e there, inner e there, dead) refl,
      λ e there live.
          let same = entry-event_id id es e there in
          let e_there : entry e.event_id es ≡ some e = ap (λ n. entry n es) same ∙ there in
          let b' = put_entry (unregistered e) es ++ a.sentinel ∷ a.rest in
          let written : set b (position id es) (unregistered e) ≡ b' =
            ap (λ (c : Block). set c (position id es) (unregistered e)) a.cells
            ∙ set-position id e (unregistered e) es (a.sentinel ∷ a.rest) same there in
          (
            some b',
            rw (unregister_low, in_range, found, cell e there, inner e there, live)
                (λ i. some (some (written i), 1)),
            record {
              sentinel = a.sentinel;
              rest = a.rest;
              cells = refl;
              ends = a.ends;
              below = put_entry-all_below (unregistered e) es (omega (arith, same, h)) a.below;
              sized =
                  ap (length {A = RegisteredEvent}) (sym written)
                  ∙ length-set b (position id es) (unregistered e)
                  ∙ a.sized
                  ∙ ap array_size (sym (length-put_entry (unregistered e) es e e_there));
            },
          ),
    )
