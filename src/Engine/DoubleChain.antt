-- ===== src/Engine/DoubleChain.antt =====
-- include/trz/engine/internal/mdoublechain.h, class `MultiDoubleChain` with one link in each item,
-- as compiled without NDEBUG. A failed `assert` is `none`; a pointer is an address, 0 is null.
pub mod Links
pub mod Relink
pub mod Place
pub mod Ends
pub mod Splice
mod Tests
use simplx.Base.{ℕ, Bool, true, not, ◌&&◌, Option, some, none, ◌==◌, if◌then◌else◌}
use simplx.Engine.ForwardChain.{set_next, assert}

-- The `previous` and the `next` of the link at each address.
pub record Memory : Type 0 where
  pub previous : ℕ → ℕ
  pub next : ℕ → ℕ

pub record DoubleChain : Type 0 where
  pub head : ℕ
  pub tail : ℕ

-- What a call leaves: the links and the chain.
pub record Chained : Type 0 where
  pub memory : Memory
  pub chain : DoubleChain

abbrev pub make : DoubleChain
make = record { head = 0; tail = 0 }

abbrev pub is_empty : DoubleChain → Bool
is_empty c = c.head == 0

-- The two asserts on an item that is put in: its links point to itself.
abbrev pub is_free : Memory → ℕ → Bool
is_free m item = m.previous item == item && m.next item == item

-- The branches `if (p == 0) ... else setNext(p, v)` and the like: what is written at `p`.
abbrev pub set_unless_null : (ℕ → ℕ) → ℕ → ℕ → (ℕ → ℕ)
set_unless_null links p v = if p == 0 then links else set_next links p v

-- `push_front` of an item.
unfoldable pub push_front : Memory → DoubleChain → ℕ → Option Chained
push_front m c item = assert (is_free m item) (
    if c.head == 0
    then assert (c.tail == 0) (
        some (record {
          memory = record { previous = set_next m.previous item 0; next = set_next m.next item 0 };
          chain = record { head = item; tail = item };
        }))
    else some (record {
      memory = record {
        previous = set_next (set_next m.previous c.head item) item 0;
        next = set_next m.next item c.head;
      };
      chain = record c { head = item };
    }))

-- `push_back` of an item.
unfoldable pub push_back : Memory → DoubleChain → ℕ → Option Chained
push_back m c item = assert (is_free m item) (
    if c.head == 0
    then assert (c.tail == 0) (
        some (record {
          memory = record { previous = set_next m.previous item 0; next = set_next m.next item 0 };
          chain = record { head = item; tail = item };
        }))
    else some (record {
      memory = record {
        previous = set_next m.previous item c.tail;
        next = set_next (set_next m.next c.tail item) item 0;
      };
      chain = record c { tail = item };
    }))

-- `insert` before the item that the iterator is at; 0 is the end. The iterator that it returns is
-- at the item.
unfoldable pub insert : Memory → DoubleChain → ℕ → ℕ → Option (Chained × ℕ)
insert m c current item = assert (is_free m item) (
    if current == 0
    then elim (push_back m c item) [ none ↦ none | some r ↦ some (r, item) ]
    else some (inserted, item))
  where
    previous_item : ℕ
    previous_item = m.previous current

    inserted : Chained
    inserted = record {
      memory = record {
        previous = set_next (set_next m.previous current item) item previous_item;
        next = set_next (set_unless_null m.next previous_item item) item current;
      };
      chain = if previous_item == 0 then record c { head = item } else c;
    }

-- What `remove` and `erase` do with the links and the chain.
unfoldable pub unlink : Memory → DoubleChain → ℕ → Option Chained
unlink m c item = assert (if previous_item == 0 then item == c.head else true) (
    assert (if next_item == 0 then item == c.tail else true) (
      some (record {
        memory = record {
          previous = set_next (set_unless_null m.previous next_item previous_item) item item;
          next = set_next (set_unless_null m.next previous_item next_item) item item;
        };
        chain = record {
          head = if previous_item == 0 then next_item else c.head;
          tail = if next_item == 0 then previous_item else c.tail;
        };
      })))
  where
    previous_item : ℕ
    previous_item = m.previous item

    next_item : ℕ
    next_item = m.next item

unfoldable pub remove : Memory → DoubleChain → ℕ → Option Chained
remove m c item =
    assert (not (m.previous item == item) && not (m.next item == item)) (unlink m c item)

-- `erase` at an iterator; the iterator that it returns is at the next item.
unfoldable pub erase : Memory → DoubleChain → ℕ → Option (Chained × ℕ)
erase m c current =
    assert (not (current == 0))
      (elim (unlink m c current) [ none ↦ none | some r ↦ some (r, m.next current) ])

unfoldable pub pop_front : Memory → DoubleChain → Option (ℕ × Chained)
pop_front m c = assert (not (c.head == 0)) (
    some (
      c.head,
      record {
        memory = record {
          previous = set_next (set_unless_null m.previous next_head 0) c.head c.head;
          next = set_next m.next c.head c.head;
        };
        chain = record { head = next_head; tail = if next_head == 0 then 0 else c.tail };
      },
    ))
  where
    next_head : ℕ
    next_head = m.next c.head

unfoldable pub pop_back : Memory → DoubleChain → Option (ℕ × Chained)
pop_back m c = assert (not (c.tail == 0)) (
    some (
      c.tail,
      record {
        memory = record {
          previous = set_next m.previous c.tail c.tail;
          next = set_next (set_unless_null m.next previous_tail 0) c.tail c.tail;
        };
        chain = record { head = if previous_tail == 0 then 0 else c.head; tail = previous_tail };
      },
    ))
  where
    previous_tail : ℕ
    previous_tail = m.previous c.tail

abbrev pub swap : DoubleChain → DoubleChain → DoubleChain × DoubleChain
swap c other = (other, c)

-- `push_front` of another chain: the links, this chain and the other one afterwards.
unfoldable pub push_chain_front :
    Memory → DoubleChain → DoubleChain → Memory × (DoubleChain × DoubleChain)
push_chain_front m c other =
    if not (c.head == 0) && not (other.tail == 0)
    then (
      record {
        previous = set_next m.previous c.head other.tail;
        next = set_next m.next other.tail c.head;
      },
      (record c { head = other.head }, make),
    )
    else (m, if c.head == 0 then swap c other else (c, other))

-- `push_back` of another chain.
unfoldable pub push_chain_back :
    Memory → DoubleChain → DoubleChain → Memory × (DoubleChain × DoubleChain)
push_chain_back m c other =
    if not (c.tail == 0) && not (other.head == 0)
    then (
      record {
        previous = set_next m.previous other.head c.tail;
        next = set_next m.next c.tail other.head;
      },
      (record c { tail = other.tail }, make),
    )
    else (m, if c.tail == 0 then swap c other else (c, other))

-- `operator++` and `operator--` of an iterator over the chain; 0 is the end.
unfoldable pub increment : Memory → ℕ → Option ℕ
increment m current = assert (not (current == 0)) (some (m.next current))

-- `c` is the chain of the iterator. That its pointer is not null, which the code asserts, is not
-- written out.
unfoldable pub decrement : Memory → DoubleChain → ℕ → ℕ
decrement m c current = if current == 0 then c.tail else m.previous current
