-- ===== src/Engine/EventTable/Lookup/Handlers.antt =====
-- src/engine/actor.cpp: the handlers of a table as a map from event ids, and what registering and
-- unregistering a handler do to it.
use simplx.Base.{
  ℕ, ◌<◌, ◌≡◌, refl, sym, ◌∙◌, ap, Bool, true, false, not, ◌&&◌, Option, some, none, List, ◌∷◌,
  arith, length, get_elem?, lt→ltb, ◌==◌, if◌then◌else◌, ◌⊎◌, inl, inr, Option-cases, ==_iff,
}
use simplx.Engine.EventTable.Low.{
  max_event_id_count, on_event_of, RegisteredEvent, Block, Allocate, Outcome, returns, throws,
  is_unregistered, find_slot, is_registered_low,
}
use simplx.Engine.EventTable.Table.{
  EventTable, Call, find_high, is_registered_high, is_registered_event_handler, register_lf,
  set_high, register_high,
}
use simplx.Engine.EventTable.Entries.{
  is_good, all_good, entry, position, put_entry, entry-put_entry, put_entry-all_good,
  entry-event_id, entry-is_good,
}
use simplx.Engine.EventTable.Blocks.{
  IsArray, Holds, entry_in, entry_in_lem, find_slot_lem, position-none, get_elem?-end,
  get_elem?-position,
}
use simplx.Engine.EventTable.Registers.{IsAllocator, register_low_lem}
use simplx.Engine.EventTable.Lookup.High.{
  all_high, find_high_cases, entry-is_high, entry-set, set-all_high, Once, set-Once,
}

-- The handler of an entry, if it was not unregistered.
abbrev pub handler : Option RegisteredEvent → Option Call
handler none = none
handler (some e) =
    if is_unregistered e.static_event_handler
    then none
    else some (record { static = e.static_event_handler; handler = e.event_handler })

abbrev pub handler_in : Option Block → ℕ → Option Call
handler_in none id = none
handler_in (some b) id = handler (entry_in id b)

-- The handler that an event has.
abbrev pub chosen : Option RegisteredEvent → Option Call → Option Call
chosen none low = low
chosen (some e) low = handler (some e)

abbrev pub handler_of : EventTable → ℕ → Option Call
handler_of t id = chosen (entry id t.hf_event) (handler_in t.lf_event id)

abbrev pub is_some : Option Call → Bool
is_some none = false
is_some (some c) = true

-- The entries of an array, each with a handler or unregistered.
pub record IsLow (array : Option Block) (es : List RegisteredEvent) : Type 0 where
  pub holds : Holds array es
  pub good : all_good es ≡ true

pub record IsHandlers (t : EventTable) (es : List RegisteredEvent) : Type 0 where
  pub high : all_high t.hf_event ≡ true
  pub once : Once t.hf_event
  pub low : IsLow t.lf_event es

pub handler_in_lem :
    (array : Option Block) (es : List RegisteredEvent) (id : ℕ)
    → Holds array es
    → handler_in array id ≡ handler (entry id es)
handler_in_lem none es id empty =
    let out : none ≡ entry id es = ap (entry id) (sym empty) in ap handler out
handler_in_lem (some b) es id a = ap handler (entry_in_lem id b es a)

pub is_registered_low_lem :
    (array : Option Block) (es : List RegisteredEvent) (id : ℕ)
    → IsLow array es
    → id < max_event_id_count
    → is_registered_low array id ≡ some (is_some (handler_in array id))
unfolding is_registered_low
is_registered_low_lem none es id low h = rw (is_registered_low, lt→ltb id max_event_id_count h) refl
is_registered_low_lem (some b) es id low h =
    let in_range = lt→ltb id max_event_id_count h in
    let a : IsArray b es = low.holds in
    let found : find_slot id b ≡ some (position id es) =
      ap (find_slot id) a.cells ∙ find_slot_lem a.sentinel a.rest a.ends id es a.below in
    let answer = handler_in_lem (some b) es id a in
    elim (Option-cases (entry id es)) [
      | inl out ↦
          let there : find_slot id b ≡ some (length es) =
            found ∙ ap some (position-none id es out) in
          let cell : get_elem? b (length es) ≡ some a.sentinel =
            ap (λ (c : Block). get_elem? c (length es)) a.cells
            ∙ get_elem?-end es a.sentinel a.rest in
          let other : (a.sentinel.event_id == id) ≡ false = rw a.ends (ground arith) in
          rw (is_registered_low, in_range, there, cell, other, answer, out) refl
      | inr (e, there) ↦
          let cell : get_elem? b (position id es) ≡ some e =
            ap (λ (c : Block). get_elem? c (position id es)) a.cells
            ∙ get_elem?-position id e es (a.sentinel ∷ a.rest) there in
          let same : (e.event_id == id) ≡ true =
            (==_iff e.event_id id).1 (entry-event_id id es e there) in
          let g = entry-is_good id es e there low.good in
          rw (is_registered_low, in_range, found, cell, same, answer, there) (live_lem e g)
    ]
  where
    live_lem :
        (e : RegisteredEvent)
        → is_good e ≡ true
        → some (not (e.event_handler == 0)) ≡ some (is_some (handler (some e)))
    live_lem e g = ground arith

-- In a table whose arrays hold their entries, an event id in range is registered exactly if it has
-- a handler, and the search for it fails no assert.
pub is_registered_event_handler_lem :
    (t : EventTable) (es : List RegisteredEvent) (id : ℕ)
    → IsHandlers t es
    → id < max_event_id_count
    → is_registered_event_handler t id ≡ some (is_some (handler_of t id))
unfolding is_registered_event_handler is_registered_high
is_registered_event_handler_lem t es id v h = elim (find_high_cases id t.hf_event) [
  | inl (out, away) ↦
      rw (is_registered_event_handler, is_registered_high, out, handler_of, away)
        (is_registered_low_lem t.lf_event es id v.low h)
  | inr (i, e, at, cell, there) ↦
      let g = entry-is_high id t.hf_event e there v.high in
      let same : e.event_id ≡ id = entry-event_id id t.hf_event e there in
      let live : is_unregistered e.static_event_handler ≡ false = ground arith in
      rw (is_registered_event_handler, is_registered_high, at, handler_of, there, live) refl
]

chosen_if :
    (b : Bool) (o : Option RegisteredEvent) (c : Option Call) (low low' : Option Call)
    → (b ≡ true → o ≡ none)
    → low' ≡ (if b then c else low)
    → chosen o low' ≡ (if b then c else chosen o low)
chosen_if true o c low low' out e = ap (λ p. chosen p low') (out refl) ∙ e
chosen_if false o c low low' out e = ap (chosen o) e

chosen_high :
    (b : Bool) (new o : Option RegisteredEvent) (low : Option Call)
    → chosen (if b then new else o) low ≡ (if b then chosen new low else chosen o low)
chosen_high true new o low = refl
chosen_high false new o low = refl

handler_if :
    (b : Bool) (o p : Option RegisteredEvent)
    → handler (if b then o else p) ≡ (if b then handler o else handler p)
handler_if true o p = refl
handler_if false o p = refl

-- An array that holds the same entries, or one more.
pub handler_in-same :
    (array array' : Option Block) (es : List RegisteredEvent) (j : ℕ)
    → Holds array es
    → Holds array' es
    → handler_in array' j ≡ handler_in array j
handler_in-same array array' es j a a' =
    handler_in_lem array' es j a' ∙ sym (handler_in_lem array es j a)

pub handler_in-put_entry :
    (array array' : Option Block) (es : List RegisteredEvent) (e : RegisteredEvent) (j : ℕ)
    → Holds array es
    → Holds array' (put_entry e es)
    → handler_in array' j ≡ (if e.event_id == j then handler (some e) else handler_in array j)
handler_in-put_entry array array' es e j a a' =
    let old = handler_in_lem array es j a in
    rw old (
      handler_in_lem array' (put_entry e es) j a'
      ∙ ap handler (entry-put_entry e es j)
      ∙ handler_if (e.event_id == j) (some e) (entry j es))

-- The outcomes of registering a handler: an allocation failed and each event has the handler it
-- had, or the event has the new one and the others what they had.
abbrev pub Set : Allocate → EventTable → Outcome EventTable (Unit {0}) → ℕ → Call → Type 0
Set allocate t r id c =
    ((n : ℕ) × (allocate n ≡ none)
      × (t' : EventTable) × (es' : List RegisteredEvent) × (r ≡ throws t')
      × IsHandlers t' es'
      × ((j : ℕ) → handler_of t' j ≡ handler_of t j))
    ⊎ ((t' : EventTable) × (es' : List RegisteredEvent) × (r ≡ returns t' tt)
        × IsHandlers t' es'
        × ((j : ℕ)
            → j < max_event_id_count
            → handler_of t' j ≡ (if id == j then some c else handler_of t j)))

module _ (t : EventTable) (es : List RegisteredEvent) (v : IsHandlers t es) (id object k : ℕ)
    (h : id < max_event_id_count) (real : (object == 0) ≡ false) where
  abbrev new : RegisteredEvent
  new = record { event_id = id; event_handler = object; static_event_handler = on_event_of k }

  abbrev call : Call
  call = record { static = on_event_of k; handler = object }

  -- With no cell in `hfEvent`.
  register_lf_lem :
      (allocate : Allocate)
      → IsAllocator allocate
      → entry id t.hf_event ≡ none
      → Set allocate t (register_lf allocate t id object (on_event_of k)) id call
  unfolding register_lf
  register_lf_lem allocate lawful away =
      elim (register_low_lem new es allocate t.lf_event lawful v.low.holds v.low.good h) [
        | inl (n, no_memory, array, r, holds) ↦ inl (
          n,
          no_memory,
          record t { lf_event = array },
          es,
          rw (register_lf, r) refl,
          record {
            high = v.high;
            once = v.once;
            low = record { holds = holds; good = v.low.good };
          },
          λ j.
              ap (chosen (entry j t.hf_event))
                (handler_in-same t.lf_event array es j v.low.holds holds),
        )
        | inr (array, r, holds) ↦ inr (
          record t { lf_event = array },
          put_entry new es,
          rw (register_lf, r) refl,
          record {
            high = v.high;
            once = v.once;
            low = record {
              holds = holds;
              good = put_entry-all_good new es (ap not real) v.low.good;
            };
          },
          λ j below.
              chosen_if (id == j) (entry j t.hf_event) (some call) _ _
                (λ same. ap (λ n. entry n t.hf_event) (sym ((==_iff id j).0 same)) ∙ away)
                (handler_in-put_entry t.lf_event array es new j v.low.holds holds),
        )
      ]

  set_high_lem :
      (allocate : Allocate) (i : ℕ)
      → find_high max_event_id_count t.hf_event ≡ some i
      → entry id t.hf_event ≡ none
      → Set allocate t (returns (set_high t i id object (on_event_of k)) tt) id call
  set_high_lem allocate i at away =
      let used : (id == max_event_id_count) ≡ false = ground arith in
      inr (
        set_high t i id object (on_event_of k),
        es,
        refl,
        record {
          high = set-all_high new t.hf_event i (rw used (ap (λ b. b && true) (ap not real))) v.high;
          once = set-Once new used t.hf_event i at away v.once;
          low = v.low;
        },
        λ j below.
            let here = entry-set new t.hf_event i at away j (ground arith) in
            ap (λ o. chosen o (handler_in t.lf_event j)) here
            ∙ chosen_high (id == j) (some new) (entry j t.hf_event) (handler_in t.lf_event j),
      )

  -- Registering a handler for an event id in range that has none fails no assert, wherever the
  -- handler goes: either an allocation fails, and each event keeps its handler, or the event has
  -- the new handler and the others keep theirs. The arrays hold their entries again.
  pub register_high_lem :
      (allocate : Allocate)
      → IsAllocator allocate
      → handler_of t id ≡ none
      → Set allocate t (register_high allocate t id object (on_event_of k)) id call
  unfolding register_high
  register_high_lem allocate lawful out =
      let asked : is_registered_event_handler t id ≡ some false =
        is_registered_event_handler_lem t es id v h ∙ ap (λ o. some (is_some o)) out in
      elim (find_high_cases id t.hf_event) [
        | inl (missed, away) ↦ elim (Option-cases (find_high max_event_id_count t.hf_event)) [
          | inl full ↦
              rw (register_high, asked, missed, full) (register_lf_lem allocate lawful away)
          | inr (i, at) ↦ rw (register_high, asked, missed, at) (set_high_lem allocate i at away)
        ]
        | inr (i, e, at, cell, there) ↦
            let g = entry-is_high id t.hf_event e there v.high in
            let same : e.event_id ≡ id = entry-event_id id t.hf_event e there in
            let live : is_unregistered e.static_event_handler ≡ false = ground arith in
            let has : handler_of t id
                ≡ some (record { static = e.static_event_handler; handler = e.event_handler }) =
              rw (handler_of, there, live) refl in
            let clash = sym out ∙ has in absurd (cc)
      ]
