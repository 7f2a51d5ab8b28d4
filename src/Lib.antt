-- ===== src/Lib.antt =====
-- Simplx, a C++ framework of actors on several cores: its buffers, its bus between threads, the
-- chains and the event tables of its engine, the exchange of events between its cores, and its
-- timers.
--
-- A TCP client (include/trz/connector/tcp/client) keeps what it sends and receives in a circular
-- buffer of bytes. A bus (include/trz/pattern/bus) connects two threads by a ring of pointers, which
-- one thread fills and the other empties without a lock; a channel wraps the ring with a publisher,
-- which keeps what does not fit, and a subscriber, which hands each datum to a handler and deletes it.
--
-- Base: lists by native index, blocks of memory (`copy_to` is a `memcpy` into an array, `slice` the
--   block at an index), 64-bit words with their wrap-around (`add64`, `sub64`), and `window`, the
--   entries of an array from an index on, going round at its end.
-- Connector/Fifo: the contract of the circular buffer, a bounded queue of bytes.
-- Connector/CircularBuffer: include/trz/connector/tcp/client/circularbuffer.hpp. The members are a
--   record; `writeData`, `readData`, `shiftBuffer`, `clear` and `copyData` are functions on it, one
--   helper for each branch. A failed `assert` is `none`. The template's `_Capacity` is a field.
--   Inv holds the invariant, Contents what the buffer holds, Write, Read and Shift the calls one by
--   one, Run a client's calls in a row.
-- Connector/Sender: include/trz/connector/tcp/client/sender.hpp, the send buffer over it.
-- Connector/Receiver: include/trz/connector/tcp/client/receiver.hpp, the messages found in what
--   arrives. What the client reads in a header are parameters; its callbacks are a log. Frames has
--   a block that arrives with nothing kept, Faults two failures on messages that are too large.
-- Bus/Fifo: the contract of the ring.
-- Bus/RingBuffer: include/trz/pattern/bus/ringbuffer.hpp. Calls has the calls made alone, Threads
--   the calls cut at their loads, copies and stores, with the two threads interleaved in any order,
--   and Safety what every interleaving keeps.
-- Bus/Channel: include/trz/pattern/bus/channel.hpp. Publish and Read have its two ends.
-- Engine/ForwardChain: include/trz/engine/internal/mforwardchain.h, the chains of the engine, whose
--   links stand in the items. Memory is a function from the address of a link to its `next`; the
--   code is that of a build with asserts, where a free link points to itself. Linked says which
--   items a chain holds, Back, Front, Walk and Edit what the operations and a loop do.
-- Engine/DoubleChain: include/trz/engine/internal/mdoublechain.h, the same with links both ways.
--   Links says which items a chain holds and Relink what one write does; Place, Ends and Splice
--   have the operations. The variants with two links in each item are not modelled apart.
-- Engine/EventTable: the handlers of an actor's events, which include/trz/engine/internal/node.h
--   keeps in a fixed array (`hfEvent`) and in two that grow (`lfEvent`, `undeliveredEvent`), with
--   the calls of src/engine/actor.cpp that register and unregister them and those of
--   src/engine/node.cpp that look them up. Low has one array that grows, on its block of memory;
--   Table has the table and all the calls on it. Entries, Blocks, Registers and
--   Unregisters take an array to the list of its entries, Lookup takes the table to the map from
--   events to handlers, Undelivered has the count of the handlers of
--   undelivered events and the chain of the actors to be told, which the pipes
--   out of the process (Pipes) join too.
-- Engine/Exchange: how one core hands its events to another, by include/trz/engine/internal/node.h
--   (AsyncNodesHandle::Shared), src/engine/node.cpp (write, writeFailed, read, the pages of event
--   memory) and include/trz/engine/internal/parallel.h (the flags). Shared has the calls on the two
--   parts, Pages the allocation of events, Threads both threads with a step for each load, store,
--   compare-and-swap and round of the reader's loop. Inv has the flags, History, Writes and Preserves where
--   each event is (Merge: two ways in one order), Recalls what returnToSender (called from
--   src/engine/engine.cpp) gives back, Allocates, Recycles, Slots and Lodged the memory, Reads a
--   whole loop of the reader, Safety what holds in each reachable state.
-- Engine/RefMapper: src/engine/RefMapper.cpp, the actors of one core, live or queued.
-- Timer/Proxy: include/trz/pattern/timer/timerproxy.h and src/pattern/timer/timeractor.cpp, the
--   timers of the actors on one core: a chain of proxies, and the handler that asks the timer
--   service for the next time. Scan has its loops, Fires what a time-out does.
-- Timer/Service: src/pattern/timer/timeractor.cpp, the actor that serves the handlers of all cores.
--   Visit has the loop of its callback, Serves its invariant and its two handlers.
--
-- Bounds. Sizes and indices are 64-bit words; capacities are below 2^63, as the size of an object
-- is, so that no index sum wraps. The loop of `next_index` runs on fuel, one round more than the
-- index: each round takes at least one away. The receiver runs on fuel too: one round for
-- each message of the block, and one more. All other loops are recursions on lists.
--
-- Assumptions. The node's allocator gives blocks of the size asked for, of any content, or throws
-- (`IsAllocator`). A `memcpy` of a block onto itself changes nothing (the parameter `mix` of
-- `publish_all`, which says what a partly copied pointer is). Loads and stores of the two indices
-- take effect in one order, as release and acquire give it for what stands before a store; so do
-- those of the flags between two cores, which the source orders by its memory barriers.
--
-- Not modelled: the text of `displayBuffer`, the template machinery, and the rest of the framework
-- (the engine's event loop, events between engines, the end of a writer, what a handler pushes in
-- the middle of a call of write or writeFailed, a handler that calls returnToSender in the middle of
-- the loop of read, the creation and destruction of actors
-- and of their tables, timers that their own callbacks set or clear, the sockets,
-- the HTTP server).
pub mod Base
pub mod Connector
pub mod Bus
pub mod Engine
pub mod Timer
