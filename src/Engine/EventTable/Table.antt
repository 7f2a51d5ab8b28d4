-- ===== src/Engine/EventTable/Table.antt =====
-- src/engine/actor.cpp, src/engine/node.cpp and include/trz/engine/internal/node.h: the event table
-- of an actor, the calls that register and unregister handlers, and the search for the handler of
-- an event. The chain of the actors to be told of unreachable ones is the actor's membership of it.
use simplx.Base.{
  ℕ, suc, ◌+◌, ◌-◌, Bool, true, false, not, ◌&&◌, ◌||◌, Option, some, none, List, [], ◌∷◌,
  get_elem?, set, ltb, ◌==◌, if◌then◌else◌, replicate,
}
use simplx.Engine.EventTable.Low.{
  max_event_id_count, StaticHandler, null, RegisteredEvent, Block, Allocate, Outcome, returns,
  throws, fails, is_unregistered, later, find_slot, set_event_id, register_low, unregister_low,
  unregister_all_low, is_registered_low,
}

-- `hfEvent` has as many cells as fill the rest of three cache lines.
abbrev pub high_frequency_callback_array_size : ℕ
high_frequency_callback_array_size = 7

-- The arrays of `EventTable`, with the fields of the actor that the calls below use.
pub record EventTable : Type 0 where
  pub hf_event : List RegisteredEvent
  pub lf_event : Option Block
  pub undelivered_event : Option Block
  pub undelivered_event_count : ℕ
  pub on_unreachable_chain : Bool
  pub process_out_pipe_count : ℕ

-- The constructors.
abbrev pub new_event : RegisteredEvent
new_event = record { event_id = max_event_id_count; event_handler = 0; static_event_handler = null }

unfoldable pub make : EventTable
make = record {
  hf_event = replicate high_frequency_callback_array_size new_event;
  lf_event = none;
  undelivered_event = none;
  undelivered_event_count = 0;
  on_unreachable_chain = false;
  process_out_pipe_count = 0;
}

-- The loops over `hfEvent`; `none` is that the index reached the size of the array.
unfoldable pub find_high : ℕ → List RegisteredEvent → Option ℕ
find_high event_id [] = none
find_high event_id (e ∷ es) =
    let rest = later (find_high event_id es) in if e.event_id == event_id then some 0 else rest

unfoldable pub is_registered_high : EventTable → ℕ → Bool
unfolding find_high
is_registered_high t event_id = elim (find_high event_id t.hf_event) [
  | none ↦ false
  | some i ↦ true
]

unfoldable pub is_registered_event_handler : EventTable → ℕ → Option Bool
unfolding is_registered_high is_registered_low
is_registered_event_handler t event_id =
    if is_registered_high t event_id then some true else is_registered_low t.lf_event event_id

unfoldable pub is_registered_undelivered_event_handler : EventTable → ℕ → Option Bool
unfolding is_registered_low
is_registered_undelivered_event_handler t event_id = is_registered_low t.undelivered_event event_id

-- The call in `registerHighPriorityEventHandler` for when `hfEvent` is full.
unfoldable pub register_lf :
    Allocate → EventTable → ℕ → ℕ → StaticHandler → Outcome EventTable (Unit {0})
unfolding register_low
register_lf allocate t event_id handler static =
    elim (register_low allocate t.lf_event event_id handler static) [
      | returns array n ↦ returns (record t { lf_event = array }) tt
      | throws array ↦ throws (record t { lf_event = array })
      | fails ↦ fails
    ]

-- `registerLowPriorityEventHandler(EventId, …)`.
unfoldable pub register_low_priority :
    Allocate → EventTable → ℕ → ℕ → StaticHandler → Outcome EventTable (Unit {0})
unfolding is_registered_event_handler register_lf
register_low_priority allocate t event_id handler static =
    elim (is_registered_event_handler t event_id) [
      | none ↦ fails
      | some true ↦ fails
      | some false ↦ register_lf allocate t event_id handler static
    ]

-- `hfEvent[i]` is set to the event.
abbrev pub set_high : EventTable → ℕ → ℕ → ℕ → StaticHandler → EventTable
set_high t i event_id handler static = record t {
  hf_event =
      set t.hf_event i
        (record { event_id = event_id; event_handler = handler; static_event_handler = static });
}

unfoldable pub register_high :
    Allocate → EventTable → ℕ → ℕ → StaticHandler → Outcome EventTable (Unit {0})
unfolding is_registered_event_handler find_high register_lf
register_high allocate t event_id handler static = elim (is_registered_event_handler t event_id) [
  | none ↦ fails
  | some true ↦ fails
  | some false ↦ elim (find_high event_id t.hf_event) [
    | none ↦ elim (find_high max_event_id_count t.hf_event) [
      | none ↦ register_lf allocate t event_id handler static
      | some i ↦ returns (set_high t i event_id handler static) tt
    ]
    | some i ↦ returns (set_high t i event_id handler static) tt
  ]
]

unfoldable pub unregister_high : EventTable → ℕ → EventTable
unfolding find_high set_event_id
unregister_high t event_id = elim (find_high event_id t.hf_event) [
  | none ↦ t
  | some i ↦ record t { hf_event = set_event_id t.hf_event i max_event_id_count }
]

-- The call of `unregisterLowPriorityEventHandler` for `lfEvent`.
unfoldable pub unregister_lf : EventTable → ℕ → Option EventTable
unfolding unregister_low
unregister_lf t event_id = elim (unregister_low t.lf_event event_id) [
  | none ↦ none
  | some (array, n) ↦ some (record t { lf_event = array })
]

-- The first assert is that of `unregisterHighPriorityEventHandler`.
unfoldable pub unregister_event_handler : EventTable → ℕ → Option EventTable
unfolding unregister_high unregister_lf
unregister_event_handler t event_id =
    if ltb event_id max_event_id_count
    then unregister_lf (unregister_high t event_id) event_id
    else none

-- `debugCheckUndeliveredEventCount`.
unfoldable pub count_undelivered : Block → Option ℕ
count_undelivered [] = none
count_undelivered (e ∷ es) =
    let rest = count_undelivered es in
    let good =
      (not (is_unregistered e.static_event_handler) && not (e.event_handler == 0))
      || (is_unregistered e.static_event_handler && e.event_handler == 0) in
    if e.event_id == max_event_id_count
    then some 0
    else if good
    then elim rest [
      | none ↦ none
      | some n ↦ some (if not (is_unregistered e.static_event_handler) then suc n else n)
    ]
    else none

unfoldable pub debug_check_undelivered_event_count : EventTable → Bool
unfolding count_undelivered
debug_check_undelivered_event_count t = elim t.undelivered_event [
  | none ↦ 0 == t.undelivered_event_count
  | some b ↦ elim (count_undelivered b) [ none ↦ false | some n ↦ n == t.undelivered_event_count ]
]

-- The statements after the call that registers.
unfoldable pub join_unreachable : EventTable → Outcome EventTable (Unit {0})
unfolding debug_check_undelivered_event_count
join_unreachable t =
    if debug_check_undelivered_event_count t && ltb 0 t.undelivered_event_count
    then returns
        (if not (t.process_out_pipe_count == 0) && not t.on_unreachable_chain
          then record t { on_unreachable_chain = true }
          else t)
        tt
    else fails

unfoldable pub register_undelivered :
    Allocate → EventTable → ℕ → ℕ → StaticHandler → Outcome EventTable (Unit {0})
unfolding is_registered_undelivered_event_handler register_low join_unreachable
register_undelivered allocate t event_id handler static =
    elim (is_registered_undelivered_event_handler t event_id) [
      | none ↦ fails
      | some true ↦ fails
      | some false ↦ elim (register_low allocate t.undelivered_event event_id handler static) [
        | returns array n ↦ join_unreachable (record t {
          undelivered_event = array;
          undelivered_event_count = t.undelivered_event_count + n;
        })
        | throws array ↦ throws (record t { undelivered_event = array })
        | fails ↦ fails
      ]
    ]

-- The statements after the call that unregisters.
unfoldable pub leave_unreachable : EventTable → Option EventTable
unfolding debug_check_undelivered_event_count
leave_unreachable t =
    if debug_check_undelivered_event_count t
    then some (
        if t.on_unreachable_chain && t.undelivered_event_count == 0
        then record t { on_unreachable_chain = false }
        else t)
    else none

unfoldable pub unregister_undelivered : EventTable → ℕ → Option EventTable
unfolding unregister_low leave_unreachable
unregister_undelivered t event_id = elim (unregister_low t.undelivered_event event_id) [
  | none ↦ none
  | some (array, n) ↦
      if n == 0 || (n == 1 && ltb 0 t.undelivered_event_count)
      then leave_unreachable (record t {
        undelivered_event = array;
        undelivered_event_count = t.undelivered_event_count - n;
      })
      else none
]

unfoldable pub clear_high : List RegisteredEvent → List RegisteredEvent
clear_high [] = []
clear_high (e ∷ es) = record e { event_id = max_event_id_count } ∷ clear_high es

unfoldable pub unregister_all : EventTable → Option EventTable
unfolding clear_high unregister_all_low debug_check_undelivered_event_count
unregister_all t = elim (unregister_all_low t.lf_event) [
  | none ↦ none
  | some lf ↦ elim (unregister_all_low t.undelivered_event) [
    | none ↦ none
    | some undelivered ↦
        let t' = record t {
          hf_event = clear_high t.hf_event;
          lf_event = lf;
          undelivered_event = undelivered;
          undelivered_event_count = 0;
          on_unreachable_chain = false;
        } in
        if debug_check_undelivered_event_count t' then some t' else none
  ]
]

-- The call `(*staticEventHandler)(eventHandler, event)` that a search ends with, if any.
pub record Call : Type 0 where
  pub static : StaticHandler
  pub handler : ℕ

abbrev pub call_of : RegisteredEvent → Option (Option Call)
call_of e = elim e.static_event_handler [
  | null ↦ none
  | other ↦ some (some (record { static = other; handler = e.event_handler }))
]

-- `onLowFrequencyEvent`: the call that its result is that of, or none where it returns false, and
-- the performance counter.
unfoldable pub on_low_frequency_event : EventTable → ℕ → ℕ → Option (Option Call × ℕ)
unfolding find_slot
on_low_frequency_event t class_id counter = elim t.lf_event [
  | none ↦ some (none, counter)
  | some b ↦ elim (find_slot class_id b) [
    | none ↦ none
    | some i ↦ elim (get_elem? b i) [
      | none ↦ none
      | some e ↦
          if e.event_id == max_event_id_count
          then some (none, counter)
          else elim (call_of e) [ none ↦ none | some c ↦ some (c, counter + 1) ]
    ]
  ]
]

unfoldable pub on_event : EventTable → ℕ → ℕ → Option (Option Call × ℕ)
unfolding find_high on_low_frequency_event
on_event t class_id counter = elim (find_high class_id t.hf_event) [
  | none ↦ on_low_frequency_event t class_id counter
  | some i ↦ elim (get_elem? t.hf_event i) [
    | none ↦ none
    | some e ↦ elim (call_of e) [ none ↦ none | some c ↦ some (c, counter + 1) ]
  ]
]

-- `onUndeliveredEvent`.
unfoldable pub on_undelivered_event : EventTable → ℕ → Option (Option Call)
unfolding find_slot
on_undelivered_event t class_id = elim t.undelivered_event [
  | none ↦ some none
  | some b ↦ elim (find_slot class_id b) [
    | none ↦ none
    | some i ↦ elim (get_elem? b i) [
      | none ↦ none
      | some e ↦ if e.event_id == max_event_id_count then some none else call_of e
    ]
  ]
]
