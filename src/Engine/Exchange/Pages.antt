-- ===== src/Engine/Exchange/Pages.antt =====
-- src/engine/node.cpp (WriteCache): the memory of the events, in pages that the writer fills and the
-- reader gives back.
use simplx.Base.{
  ℕ, ◌+◌, ◌-◌, ◌^◌, Bool, not, ◌||◌, Option, some, none, List, [], ◌∷◌, ltb, leb, ◌==◌,
  if◌then◌else◌, add64, sub64,
}
use simplx.Engine.Exchange.Shared.{WriteCache, is_empty}

-- A block of memory: its page, where it starts in the page, and its size.
pub record Slot : Type 0 where
  pub page : ℕ
  pub offset : ℕ
  pub size : ℕ

-- An exception, with the cache as it is then; a failed `assert`.
pub data Allocated (A : Type 0) : Type 0 where
  allocated : WriteCache → A → Allocated A
  bad_alloc : WriteCache → Allocated A
  fails : Allocated A

abbrev pub max_page_index : ℕ
max_page_index = 2 ^ 32 - 1

-- `newEventPage`, by the chain of the free pages. `memory` is whether the system has memory for a
-- page. The index plus one, a 32-bit number, is 0 at the last index.
unfoldable pub new_page : Bool → WriteCache → List ℕ → Option WriteCache
new_page memory c [] =
    if c.next_page_index == max_page_index || not memory
    then none
    else some (record c {
      used_pages = c.next_page_index ∷ c.used_pages;
      next_page_index = c.next_page_index + 1;
      front_used_page_offset = 0;
    })
new_page memory c (page ∷ pages) =
    some (record c {
      used_pages = page ∷ c.used_pages;
      free_pages = pages;
      front_used_page_offset = 0;
    })

unfoldable pub new_event_page : Bool → WriteCache → Option WriteCache
unfolding new_page
new_event_page memory c = new_page memory c c.free_pages

-- The block at the front page, by the chain of the pages in use.
unfoldable pub slot_at : WriteCache → List ℕ → ℕ → Allocated Slot
slot_at c [] size = fails
slot_at c (page ∷ pages) size =
    if leb size (sub64 c.event_allocator_page_size c.front_used_page_offset)
    then allocated
        (record c {
          front_used_page_offset = add64 c.front_used_page_offset size;
          total_written_byte_size = add64 c.total_written_byte_size size;
        })
        (record { page = page; offset = c.front_used_page_offset; size = size })
    else fails

unfoldable pub allocate_front : WriteCache → ℕ → Allocated Slot
unfolding slot_at
allocate_front c size = slot_at c c.used_pages size

-- `allocateEvent`, which also tells the page's index and the offset.
unfoldable pub allocate_event : Bool → WriteCache → ℕ → Allocated Slot
unfolding new_event_page allocate_front
allocate_event memory c size =
    if leb c.front_used_page_offset c.event_allocator_page_size
    then if is_empty c.used_pages
        || ltb (sub64 c.event_allocator_page_size c.front_used_page_offset) size
      then if ltb c.event_allocator_page_size size
        then bad_alloc c
        else elim (new_event_page memory c) [
          | none ↦ bad_alloc c
          | some c' ↦ allocate_front c' size
        ]
      else allocate_front c size
    else fails
