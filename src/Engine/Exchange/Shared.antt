-- ===== src/Engine/Exchange/Shared.antt =====
-- include/trz/engine/internal/node.h (AsyncNodesHandle::Shared) and src/engine/node.cpp: the two
-- parts of what a writer and a reader share, and the calls that move events between them.
use simplx.Base.{
  ℕ, ◌-◌, ◌^◌, Bool, true, false, not, ◌||◌, Option, some, none, List, [], ◌∷◌, ◌++◌, ◌==◌,
  if◌then◌else◌, add64,
}

-- `ReadWriteLocked`, without the node ids and the pointer to the reader, which stay as they are. A
-- page of memory for events is its index.
pub record Locked : Type 0 where
  pub delivered_events_flag : Bool
  pub check_undelivered_events_flag : Bool
  pub used_pages : List ℕ
  pub to_be_delivered : List ℕ
  pub to_be_routed : List ℕ
  pub to_be_undelivered_routed : List ℕ
  pub undelivered : List ℕ
  pub unreachable : List ℕ

pub record WriteCache : Type 0 where
  pub check_undelivered_events_flag : Bool
  pub batch_id_increment : ℕ
  pub batch_id : ℕ
  pub total_written_byte_size : ℕ
  pub to_be_delivered : List ℕ
  pub to_be_routed : List ℕ
  pub to_be_undelivered_routed : List ℕ
  pub unreachable : List ℕ
  pub event_allocator_page_size : ℕ
  pub front_used_page_offset : ℕ
  pub used_pages : List ℕ
  pub free_pages : List ℕ
  pub next_page_index : ℕ

pub record Shared : Type 0 where
  pub cache : WriteCache
  pub locked : Locked

-- The constructors: one page is free and one in use.
abbrev pub new_locked : Locked
new_locked = record {
  delivered_events_flag = false;
  check_undelivered_events_flag = false;
  used_pages = [];
  to_be_delivered = [];
  to_be_routed = [];
  to_be_undelivered_routed = [];
  undelivered = [];
  unreachable = [];
}

abbrev pub new_write_cache : ℕ → WriteCache
new_write_cache page_size = record {
  check_undelivered_events_flag = false;
  batch_id_increment = 0;
  batch_id = 0;
  total_written_byte_size = 0;
  to_be_delivered = [];
  to_be_routed = [];
  to_be_undelivered_routed = [];
  unreachable = [];
  event_allocator_page_size = page_size;
  front_used_page_offset = 0;
  used_pages = 1 ∷ [];
  free_pages = 0 ∷ [];
  next_page_index = 2;
}

abbrev pub new_shared : ℕ → Shared
new_shared page_size = record { cache = new_write_cache page_size; locked = new_locked }

abbrev pub is_empty : List ℕ → Bool
is_empty [] = true
is_empty (x ∷ xs) = false

-- `std::numeric_limits<uint64_t>::max()`.
abbrev pub max_batch_id : ℕ
max_batch_id = 2 ^ 64 - 1

-- A call of the writer that dispatches events back to their sources: the state afterwards, the
-- events for which `onUndeliveredEvent` is called, in order, and the result.
pub record Wrote : Type 0 where
  pub shared : Shared
  pub returned : List ℕ
  pub worthy : Bool

-- `write`, up to the test whether there is anything new: what the reader left is cleared.
unfoldable pub write_clear : Shared → Shared
write_clear s = record {
  locked = record (s.locked) {
    delivered_events_flag = false;
    check_undelivered_events_flag = s.cache.check_undelivered_events_flag;
    used_pages = [];
    to_be_delivered = [];
    to_be_routed = [];
    to_be_undelivered_routed = [];
    undelivered = [];
    unreachable = [];
  };
  cache = record (s.cache) {
    check_undelivered_events_flag = false;
    free_pages = s.cache.free_pages ++ s.locked.used_pages;
  };
}

abbrev pub has_new : WriteCache → Bool
has_new c =
    not (is_empty c.to_be_delivered)
    || not (is_empty c.to_be_routed)
    || not (is_empty c.to_be_undelivered_routed)
    || not (is_empty c.unreachable)

-- The first of the free pages is the next in use.
abbrev pub front_page : WriteCache → List ℕ → WriteCache
front_page c [] = c
front_page c (page ∷ pages) = record c { used_pages = page ∷ c.used_pages; free_pages = pages }

-- The cache after its chains were swapped.
abbrev pub swapped : WriteCache → WriteCache
swapped c =
    let same = c.batch_id == max_batch_id in
    record c {
      batch_id = if same then c.batch_id else add64 c.batch_id c.batch_id_increment;
      batch_id_increment = if same then c.batch_id_increment else 0;
      to_be_delivered = [];
      to_be_routed = [];
      to_be_undelivered_routed = [];
      unreachable = [];
      used_pages = [];
      front_used_page_offset = 0;
    }

-- The branch of `write` for when there is: the chains are swapped, those of the reader being empty.
unfoldable pub write_new : Shared → Shared
write_new s = record {
  locked = record (s.locked) {
    to_be_delivered = s.cache.to_be_delivered;
    to_be_routed = s.cache.to_be_routed;
    to_be_undelivered_routed = s.cache.to_be_undelivered_routed;
    unreachable = s.cache.unreachable;
    used_pages = s.cache.used_pages;
  };
  cache = front_page (swapped s.cache) s.cache.free_pages;
}

unfoldable pub write : Shared → Wrote
unfolding write_clear write_new
write s =
    let s' = write_clear s in
    if has_new s.cache
    then record { shared = write_new s'; returned = s.locked.undelivered; worthy = true }
    else record {
      shared = s';
      returned = s.locked.undelivered;
      worthy = s.cache.check_undelivered_events_flag;
    }

-- The pages of `writeFailed`: those of both sides are free, and the first of them is in use again.
unfoldable pub recycle : Shared → Option Shared
recycle s = elim ((s.cache.free_pages ++ s.locked.used_pages) ++ s.cache.used_pages) [
  | [] ↦ none
  | page ∷ pages ↦ some (record {
    locked = record (s.locked) { used_pages = [] };
    cache = record (s.cache) {
      free_pages = pages;
      used_pages = page ∷ [];
      front_used_page_offset = 0;
    };
  })
]

-- `writeFailed`: what was not delivered goes back to its source.
unfoldable pub write_failed : Shared → Option Wrote
unfolding recycle
write_failed s =
    let s' : Shared = record {
      locked = record (s.locked) {
        delivered_events_flag = false;
        check_undelivered_events_flag = false;
        to_be_delivered = [];
        undelivered = [];
      };
      cache = record (s.cache) { check_undelivered_events_flag = false; to_be_delivered = [] };
    } in
    let old =
      if s.locked.delivered_events_flag then s.locked.undelivered else s.locked.to_be_delivered in
    if s.locked.delivered_events_flag || is_empty s.locked.undelivered
    then elim (recycle s') [
      | none ↦ none
      | some s'' ↦
          some (record { shared = s''; returned = old ++ s.cache.to_be_delivered; worthy = false })
    ]
    else none

-- What became of an event at the reader: its destination is gone; its handler took it, or there was
-- none; the handler asked to return it; the handler threw something else.
pub data Handling : Type 0 where
  gone handled refused return_to_sender threw : Handling

-- Whether the event stays in the chain of those delivered.
abbrev pub is_taken : Handling → Bool
is_taken gone = false
is_taken handled = true
is_taken refused = false
is_taken return_to_sender = false
is_taken threw = true

-- One round of the loop of `read`, at the event after those in `kept`.
unfoldable pub read_one : Locked → List ℕ → ℕ → List ℕ → Handling → Locked × List ℕ
read_one r kept event rest h = if is_taken h then (r, kept ++ event ∷ []) else (
  record r { to_be_delivered = kept ++ rest; undelivered = r.undelivered ++ event ∷ [] },
  kept,
)

-- The loop of `read` over the events to be delivered.
unfoldable pub read_loop : Locked → List ℕ → List ℕ → (ℕ → Handling) → Locked
unfolding read_one
read_loop r kept [] handle = r
read_loop r kept (event ∷ rest) handle =
    let next = read_one r kept event rest (handle event) in read_loop next.0 next.1 rest handle

-- The search of `returnToSender`, and the `erase` of what it finds.
unfoldable pub erase_event : List ℕ → ℕ → Option (List ℕ)
erase_event [] event = none
erase_event (x ∷ xs) event =
    let rest : Option (List ℕ) = elim (erase_event xs event) [
      | none ↦ none
      | some ys ↦ some (x ∷ ys)
    ] in
    if x == event then some xs else rest

-- `returnToSender`, by which an event loop gives back an event of the last `read` that its handler
-- took; it answers whether the event was there.
unfoldable pub return_event_to_sender : Locked → ℕ → Locked × Bool
unfolding erase_event
return_event_to_sender r event = elim (erase_event r.to_be_delivered event) [
  | none ↦ (r, false)
  | some rest ↦
      (record r { to_be_delivered = rest; undelivered = r.undelivered ++ event ∷ [] }, true)
]
