-- ===== src/Engine/EventTable/Low.antt =====
-- src/engine/actor.cpp and src/engine/node.cpp: an array of registered events that ends with the
-- entry whose id is MAX_EVENT_ID_COUNT, and that grows.
use simplx.Base.{
  ℕ, zero, suc, ◌+◌, ◌*◌, ◌/◌, ◌%◌, Bool, true, false, not, ◌&&◌, ◌||◌, Option, some, none, List,
  [], ◌∷◌, length, get_elem?, set, take, copy_to, ltb, ◌==◌, if◌then◌else◌,
}

abbrev pub max_event_id_count : ℕ
max_event_id_count = 4096

abbrev pub low_frequency_array_alignement : ℕ
low_frequency_array_alignement = 5

-- `staticEventHandler`: null, `onUnregisteredEvent`, or the handler with that address.
pub data StaticHandler : Type 0 where
  null on_unregistered_event : StaticHandler
  on_event_of : ℕ → StaticHandler

-- `eventHandler` is the address of the object whose `onEvent` is called, 0 where there is none.
pub record RegisteredEvent : Type 0 where
  pub event_id : ℕ
  pub event_handler : ℕ
  pub static_event_handler : StaticHandler

abbrev pub Block : Type 0
Block = List RegisteredEvent

-- `nodeAllocator.allocate`, by the number of cells: what they hold is not known. `none` is
-- `std::bad_alloc`.
abbrev pub Allocate : Type 0
Allocate = ℕ → Option Block

-- A call returns a value, throws `std::bad_alloc`, or an `assert` of it fails; the object's state is
-- there after an exception too.
pub data Outcome (S A : Type 0) : Type 0 where
  returns : S → A → Outcome S A
  throws : S → Outcome S A
  fails : Outcome S A

abbrev pub is_unregistered : StaticHandler → Bool
is_unregistered null = false
is_unregistered on_unregistered_event = true
is_unregistered (on_event_of k) = false

-- An index in the rest of an array.
abbrev pub later : Option ℕ → Option ℕ
later none = none
later (some i) = some (suc i)

-- The loops up to the event id, or the end of the array.
unfoldable pub find_slot : ℕ → Block → Option ℕ
find_slot event_id [] = none
find_slot event_id (e ∷ es) =
    let rest = later (find_slot event_id es) in
    if e.event_id == max_event_id_count || e.event_id == event_id then some 0 else rest

-- `lfRegisteredEventArraySize`.
unfoldable pub array_end : Block → Option ℕ
array_end [] = none
array_end (e ∷ es) =
    let rest = later (array_end es) in if e.event_id == max_event_id_count then some 0 else rest

abbrev pub array_size : ℕ → ℕ
array_size i =
    low_frequency_array_alignement
    * ((i + low_frequency_array_alignement) / low_frequency_array_alignement)

unfoldable pub lf_registered_event_array_size : Block → Option ℕ
unfolding array_end
lf_registered_event_array_size b = elim (array_end b) [ none ↦ none | some i ↦ some (array_size i) ]

-- `registeredEventArray[i].eventId = …`.
unfoldable pub set_event_id : Block → ℕ → ℕ → Block
set_event_id [] i event_id = []
set_event_id (e ∷ es) zero event_id = record e { event_id = event_id } ∷ es
set_event_id (e ∷ es) (suc i) event_id = e ∷ set_event_id es i event_id

-- The assignments for a new event at the end.
unfoldable pub put : Block → ℕ → ℕ → ℕ → StaticHandler → Outcome (Option Block) ℕ
unfolding set_event_id
put b i event_id handler static =
    let e : RegisteredEvent = record {
      event_id = event_id;
      event_handler = handler;
      static_event_handler = static;
    } in
    if ltb (i + 1) (length b)
    then returns (some (set_event_id (set b i e) (i + 1) max_event_id_count)) 1
    else fails

-- The branch for an event that has an entry.
unfoldable pub overwrite :
    Block → ℕ → RegisteredEvent → ℕ → StaticHandler → Outcome (Option Block) ℕ
overwrite b i e handler static =
    if not (is_unregistered e.static_event_handler)
      || (is_unregistered e.static_event_handler && e.event_handler == 0)
    then returns
        (some (set b i (record e { event_handler = handler; static_event_handler = static })))
        (if is_unregistered e.static_event_handler then 1 else 0)
    else fails

-- The branch for an event that has none: the array grows when it is full.
unfoldable pub append : Allocate → Block → ℕ → ℕ → ℕ → StaticHandler → Outcome (Option Block) ℕ
unfolding lf_registered_event_array_size put copy_to
append allocate b i event_id handler static = elim (lf_registered_event_array_size b) [
  | none ↦ fails
  | some size ↦
      if i + 1 == size
      then if size % low_frequency_array_alignement == 0
        then elim (allocate (size + low_frequency_array_alignement)) [
          | none ↦ throws (some b)
          | some fresh ↦ put (copy_to fresh 0 (take size b)) i event_id handler static
        ]
        else fails
      else put b i event_id handler static
]

-- The assert in the loop of the search, that an entry which is not the end stands below the number
-- of the entries, is not written out.
unfoldable pub register_in : Allocate → Block → ℕ → ℕ → StaticHandler → Outcome (Option Block) ℕ
unfolding find_slot overwrite append
register_in allocate b event_id handler static = elim (find_slot event_id b) [
  | none ↦ fails
  | some i ↦ elim (get_elem? b i) [
    | none ↦ fails
    | some e ↦
        if e.event_id == event_id
        then overwrite b i e handler static
        else append allocate b i event_id handler static
  ]
]

-- `registerLowPriorityEventHandler(void *, …)`.
unfoldable pub register_low :
    Allocate → Option Block → ℕ → ℕ → StaticHandler → Outcome (Option Block) ℕ
unfolding register_in set_event_id
register_low allocate array event_id handler static =
    if ltb event_id max_event_id_count
    then elim array [
      | none ↦ elim (allocate low_frequency_array_alignement) [
        | none ↦ throws none
        | some fresh ↦
            register_in allocate (set_event_id fresh 0 max_event_id_count) event_id handler static
      ]
      | some b ↦ register_in allocate b event_id handler static
    ]
    else fails

-- What an event is set to when it is unregistered.
abbrev pub unregistered : RegisteredEvent → RegisteredEvent
unregistered e = record e { event_handler = 0; static_event_handler = on_unregistered_event }

-- `unregisterLowPriorityEventHandler`: the array afterwards and the number of events unregistered.
unfoldable pub unregister_low : Option Block → ℕ → Option (Option Block × ℕ)
unfolding find_slot
unregister_low array event_id =
    if ltb event_id max_event_id_count
    then elim array [
      | none ↦ some (none, 0)
      | some b ↦ elim (find_slot event_id b) [
        | none ↦ none
        | some i ↦ elim (get_elem? b i) [
          | none ↦ none
          | some e ↦
              if not (e.event_id == max_event_id_count)
              then if not (is_unregistered e.static_event_handler)
                then some (some (set b i (unregistered e)), 1)
                else none
              else some (some b, 0)
        ]
      ]
    ]
    else none

-- `unregisterLowPriorityEventHandlers`.
unfoldable pub unregister_each : Block → Option Block
unregister_each [] = none
unregister_each (e ∷ es) =
    let rest = unregister_each es in
    let good =
      if not (e.event_handler == 0)
      then not (is_unregistered e.static_event_handler)
      else is_unregistered e.static_event_handler in
    if e.event_id == max_event_id_count
    then some (e ∷ es)
    else if good
    then elim rest [
      | none ↦ none
      | some es' ↦ some ((if not (e.event_handler == 0) then unregistered e else e) ∷ es')
    ]
    else none

unfoldable pub unregister_all_low : Option Block → Option (Option Block)
unfolding unregister_each
unregister_all_low none = some none
unregister_all_low (some b) = elim (unregister_each b) [ none ↦ none | some b' ↦ some (some b') ]

-- `isRegisteredLowPriorityEventHandler`.
unfoldable pub is_registered_low : Option Block → ℕ → Option Bool
unfolding find_slot
is_registered_low array event_id =
    if ltb event_id max_event_id_count
    then elim array [
      | none ↦ some false
      | some b ↦ elim (find_slot event_id b) [
        | none ↦ none
        | some i ↦ elim (get_elem? b i) [
          | none ↦ none
          | some e ↦ some (e.event_id == event_id && not (e.event_handler == 0))
        ]
      ]
    ]
    else none
