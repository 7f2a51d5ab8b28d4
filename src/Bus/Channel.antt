-- ===== src/Bus/Channel.antt =====
-- include/trz/pattern/bus/channel.hpp: `Channel<_MaxSize>`, a ring of data pointers with a publisher
-- at one end and a subscriber at the other. What a call does to the world outside, a handler's
-- `onData` and the `delete` of the data, is a list of effects.
pub mod Publish
pub mod Read
mod Tests
use simplx.Base.{
  ℕ, ◌+◌, ◌-◌, ◌/◌, ◌%◌, Bool, true, false, ◌&&◌, not, List, [], ◌∷◌, ◌++◌, Option, none, some,
  length, take, slice, copy_to, set, get_elem?, ltb, ◌==◌, if◌then◌else◌, sub64,
}
use simplx.Bus.RingBuffer.{RingBuffer, enqueue, enqueue_bulk, dequeue}

-- `Channel` with its publisher's `m_sendBuffer`, which holds any number of pointers.
pub record Channel {ℓ} (P : Type ℓ) : Type ℓ where
  pub ring : RingBuffer P
  pub send_buffer : List P

-- `memcpy` of `bytes` bytes from entry `from` to the front, entries of `width` bytes: the whole
-- entries, and a last one of which only some bytes are copied. `mix new old k` has the first `k`
-- bytes of `new` and the rest of `old`.
unfoldable pub move_front {ℓ} : {P : Type ℓ} → ℕ → (P → P → ℕ → P) → List P → ℕ → ℕ → List P
move_front width mix buffer from bytes =
    let whole = bytes / width in
    let moved = copy_to buffer 0 (slice buffer from whole) in
    if bytes % width == 0 then moved else elim (get_elem? buffer (from + whole)) [
      | none ↦ moved
      | some new ↦ elim (get_elem? buffer whole) [
        | none ↦ moved
        | some old ↦ set moved whole (mix new old (bytes % width))
      ]
    ]

module _ {ℓ} {P : Type ℓ} where
  -- `Publisher::prepare`.
  unfoldable pub prepare : Channel P → P → Channel P
  prepare c p = record c { send_buffer = c.send_buffer ++ (p ∷ []) }

  -- `Publisher::publishOne`.
  unfoldable pub publish_one : Channel P → P → Bool → Bool × Channel P
  publish_one c p store_on_fail =
      let (sent, ring') = enqueue c.ring p in
      let c' = record c { ring = ring' } in
      (sent, if not sent && store_on_fail then prepare c' p else c')

  -- The end of `publishAll`: what is left of `m_sendBuffer` after `sent` entries have gone.
  unfoldable pub unsent : ℕ → (P → P → ℕ → P) → List P → ℕ → List P
  unsent width mix buffer sent =
      let left = sub64 (length buffer) sent in
      take left (if left == 0 then buffer else move_front width mix buffer sent left)

  -- `Publisher::publishAll`, with the width of a pointer.
  unfoldable pub publish_all : ℕ → (P → P → ℕ → P) → Channel P → ℕ × Channel P
  publish_all width mix c =
      let size = length c.send_buffer in
      let (sent, ring') = enqueue_bulk true c.ring c.send_buffer size in
      if size == 0 then (0, c) else (
        sub64 size sent,
        record { ring = ring'; send_buffer = unsent width mix c.send_buffer sent },
      )

-- What the subscriber does to the outside: a call of handler `h`'s `onData`, a `delete`.
pub data Effect {ℓ} (D : Type ℓ) : Type ℓ where
  handled : ℕ → D → Effect D
  deleted : D → Effect D

-- `m_subscribers`: handlers by the identity of a type.
abbrev pub Subscribers : Type 0
Subscribers = List (ℕ × ℕ)

unfoldable pub find : ℕ → Subscribers → Option ℕ
find type [] = none
find type ((t, h) ∷ subs) = if t == type then some h else find type subs

-- `Subscriber::subscribe`: the first handler of a type stays.
unfoldable pub subscribe : Subscribers → ℕ → ℕ → Subscribers
subscribe subs type handler = elim (find type subs) [
  | none ↦ (type, handler) ∷ subs
  | some _ ↦ subs
]

-- The data have a type (`typeid`), and a pointer may be null.
module _ {D : Type 0} (type_of : D → ℕ) where
  -- The body of the loop of `readAll`, and of `readOne`.
  unfoldable pub dispatch : Subscribers → Option D → List (Effect D)
  dispatch subs none = []
  dispatch subs (some d) = elim (find (type_of d) subs) [
    | none ↦ deleted d ∷ []
    | some h ↦ handled h d ∷ deleted d ∷ []
  ]

  unfoldable pub dispatch_all : Subscribers → List (Option D) → List (Effect D)
  dispatch_all subs [] = []
  dispatch_all subs (p ∷ ps) = dispatch subs p ++ dispatch_all subs ps

  -- `Subscriber::readOne`.
  unfoldable pub read_one :
      Subscribers → Channel (Option D) → Bool × List (Effect D) × Channel (Option D)
  read_one subs c =
      let (read, ring') = dequeue c.ring 1 in
      (length read == 1, dispatch_all subs read, record c { ring = ring' })

  -- `Subscriber::readAll`: up to `_MaxSize` pointers.
  unfoldable pub read_all :
      Subscribers → Channel (Option D) → ℕ × List (Effect D) × Channel (Option D)
  read_all subs c =
      let (read, ring') = dequeue c.ring (c.ring.max_size - 1) in
      (length read, dispatch_all subs read, record c { ring = ring' })
