-- ===== src/Engine/ForwardChain.antt =====
-- include/trz/engine/internal/mforwardchain.h, class `MultiForwardChain` with one link in each
-- item, as compiled without NDEBUG. A failed `assert` is `none`. A pointer is an address, 0 is
-- null, and the links in memory are a function from the address of a link to its `next`.
pub mod Linked
pub mod Back
pub mod Front
pub mod Walk
pub mod Edit
mod Tests
use simplx.Base.{
  ℕ, zero, suc, ◌+◌, Bool, true, false, not, ◌&&◌, ◌||◌, Option, none, some, List, [], ◌∷◌, ◌==◌,
  if◌then◌else◌,
}

abbrev pub Memory : Type 0
Memory = ℕ → ℕ

-- `LinkAccessor::setNext`.
abbrev pub set_next : Memory → ℕ → ℕ → Memory
set_next memory item next a = if a == item then next else memory a

pub record ForwardChain : Type 0 where
  pub head : ℕ
  pub tail : ℕ

pub record Iterator : Type 0 where
  pub previous : ℕ
  pub current : ℕ

abbrev pub assert {ℓ} : {A : Type ℓ} → Bool → Option A → Option A
assert test rest = if test then rest else none

-- The constructor.
abbrev pub make : ForwardChain
make = record { head = 0; tail = 0 }

abbrev pub is_empty : ForwardChain → Bool
is_empty c = c.head == 0

-- `sizeof` a link, which is one pointer.
abbrev pub link_size : ℕ
link_size = 8

-- `push_front` of an item.
unfoldable pub push_front : Memory → ForwardChain → ℕ → Option (Memory × ForwardChain)
push_front memory c item = assert (memory item == item) (
    if c.head == 0
    then some (marked, record { head = item; tail = item })
    else some (set_next marked item c.head, record c { head = item }))
  where
    marked : Memory
    marked = set_next memory item (item + link_size)

-- `push_back` of an item.
unfoldable pub push_back : Memory → ForwardChain → ℕ → Option (Memory × ForwardChain)
push_back memory c item = assert (memory item == item) (
    if c.head == 0
    then some (marked, record { head = item; tail = item })
    else some (set_next marked c.tail item, record c { tail = item }))
  where
    marked : Memory
    marked = set_next memory item (item + link_size)

abbrev pub swap : ForwardChain → ForwardChain → ForwardChain × ForwardChain
swap c other = (other, c)

-- `push_front` of another chain: the links, this chain and the other one afterwards.
unfoldable pub push_chain_front :
    Memory → ForwardChain → ForwardChain → Memory × (ForwardChain × ForwardChain)
push_chain_front memory c other =
    if is_empty c || is_empty other
    then (memory, if not (is_empty other) then swap c other else (c, other))
    else (
      set_next memory other.tail c.head,
      (record c { head = other.head }, record other { head = 0 }),
    )

-- `push_back` of another chain.
unfoldable pub push_chain_back :
    Memory → ForwardChain → ForwardChain → Memory × (ForwardChain × ForwardChain)
push_chain_back memory c other =
    if is_empty c || is_empty other
    then (memory, if not (is_empty other) then swap c other else (c, other))
    else (
      set_next memory c.tail other.head,
      (record c { tail = other.tail }, record other { head = 0 }),
    )

unfoldable pub pop_front : Memory → ForwardChain → Option (ℕ × (Memory × ForwardChain))
pop_front memory c =
    assert (not (is_empty c)) (some (c.head, (set_next memory c.head c.head, rest)))
  where
    rest : ForwardChain
    rest =
        if c.head == c.tail
        then record { head = 0; tail = 0 }
        else record c { head = memory c.head }

-- The `assert` of `begin` and `end`.
abbrev pub both_or_none : ForwardChain → Bool
both_or_none c = (c.head == 0 && c.tail == 0) || (not (c.head == 0) && not (c.tail == 0))

unfoldable pub begin : Memory → ForwardChain → Option (Memory × Iterator)
begin memory c = assert (both_or_none c) (
    some (
      if c.tail == 0 then memory else set_next memory c.tail 0,
      record { previous = 0; current = c.head },
    ))

unfoldable pub end : ForwardChain → Option Iterator
end c = assert (both_or_none c) (some (record { previous = c.tail; current = 0 }))

-- `operator++` of an iterator.
unfoldable pub increment : Memory → Iterator → Option Iterator
increment memory i =
    assert (not (i.current == 0))
      (some (record { previous = i.current; current = memory i.current }))

-- `operator==` of iterators.
abbrev pub same_position : Iterator → Iterator → Bool
same_position i j = i.current == j.current

-- `insert` before the item that the iterator is at; the links, the chain and an iterator at the item.
unfoldable pub insert :
    Memory → ForwardChain → Iterator → ℕ → Option (Memory × (ForwardChain × Iterator))
insert memory c i item = assert (not (item == 0)) (
    assert (memory item == item) (
      some (
        set_next linked item i.current,
        (
          record {
            head = if i.previous == 0 then item else c.head;
            tail = if i.current == 0 then item else c.tail;
          },
          record { previous = i.previous; current = item },
        ),
      )))
  where
    linked : Memory
    linked = if i.previous == 0 then memory else set_next memory i.previous item

-- `erase` at the iterator; the one that is returned is at the next item.
unfoldable pub erase :
    Memory → ForwardChain → Iterator → Option (Memory × (ForwardChain × Iterator))
erase memory c i = assert (not (is_empty c)) (
    assert (not (i.current == 0)) (
      assert (not (memory i.current == i.current)) (
        some (
          set_next linked i.current i.current,
          (
            record {
              head = if i.previous == 0 then next else c.head;
              tail = if i.current == c.tail then i.previous else c.tail;
            },
            record { previous = i.previous; current = next },
          ),
        ))))
  where
    next : ℕ
    next = memory i.current

    linked : Memory
    linked = if i.previous == 0 then memory else set_next memory i.previous next
