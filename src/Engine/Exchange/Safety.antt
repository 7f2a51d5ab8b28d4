-- ===== src/Engine/Exchange/Safety.antt =====
-- include/trz/engine/internal/parallel.h and src/engine/node.cpp: what holds in each state that the two
-- threads can reach.
use simplx.Base.{
  ℕ, ◌<◌, ◌≤◌, ◌≡◌, ◌≢◌, refl, ◌∙◌, ap, Bool, true, false, ◌&&◌, ◌||◌, some, List, [], ◌∷◌, ◌++◌,
  arith, ltb, if◌then◌else◌, inl, inr, Bool-cases,
}
use simplx.Engine.Exchange.Shared.{WriteCache, Wrote, write_failed}
use simplx.Engine.Exchange.Pages.{Slot, allocated, allocate_event}
use simplx.Engine.Exchange.Threads.{Writer, Reader, System, start, Reach, here, next}
use simplx.Engine.Exchange.Merge.{Merge, nil}
use simplx.Engine.Exchange.Inv.{
  is_reading, has_unlocked, has_swapped, reading_on, IsControlled, Step-IsControlled,
}
use simplx.Engine.Exchange.History.{
  waiting, IsOrdered, all_pages, given_back, write_failed-given_back,
}
use simplx.Engine.Exchange.Preserves.{Step-IsOrdered}
use simplx.Engine.Exchange.Recycles.{
  count, count-append, places, IsPaged, allocate-IsPaged, Step-IsPaged,
}
use simplx.Engine.Exchange.Recalls.{Recalls, Step-Recalls}
use simplx.Engine.Exchange.Lodged.{allocate-used, Lodges, Step-Lodges}

record IsSound (s : System) : Type 0 where
  controlled : IsControlled s
  ordered : IsOrdered s
  paged : IsPaged s.shared
  recalls : Recalls s
  lodged : Lodges s

start-IsSound : (page_size : ℕ) (page_at : ℕ → ℕ) → IsSound (start page_size page_at)
start-IsSound page_size page_at = record {
  controlled = record {
    cas = refl;
    apart = refl;
    read_locked = λ k. absurd (cc);
    write_unlocked = λ k. absurd (cc);
  };
  ordered = record {
    gone = [];
    order = refl;
    refused = [];
    merged = nil;
    back = nil;
    fresh = λ k. refl;
    settled = λ k l. refl;
    unread = λ k l. absurd (cc);
    written = λ k. absurd (cc);
    reading = λ k. absurd (cc);
    emptied = λ k. absurd (cc);
  };
  paged = record { once = λ p. ground arith; some_page = omega arith };
  recalls = record { chain = tt; once = λ e. omega arith };
  lodged = record { cached = λ e h. absurd (omega arith); sent = λ e h. absurd (omega arith) };
}

Reach-IsSound :
    {page_size : ℕ} {page_at : ℕ → ℕ} {s : System} → Reach (start page_size page_at) s → IsSound s
Reach-IsSound {page_size} {page_at} here = start-IsSound page_size page_at
Reach-IsSound (next r step) =
    let i = Reach-IsSound r in
    record {
      controlled = Step-IsControlled step i.controlled;
      ordered = Step-IsOrdered step i.controlled i.ordered;
      paged = Step-IsPaged step i.ordered i.paged;
      recalls = Step-Recalls step i.controlled i.recalls;
      lodged = Step-Lodges step i.ordered i.recalls i.lodged;
    }

-- In each state that the two threads can reach, in whatever order their steps come and whatever the
-- handlers do, the events that were pushed are, in order, those that are gone, those that wait for
-- the reader and those in the cache. Those that are gone were each either taken by a handler or
-- refused, in order both. Those returned to their source, or in the chain of those to be returned,
-- are the refused ones and those that returnToSender gave back, in order both; and an event was
-- given back no more often than handlers took it.
pub pushed-accounted :
    {page_size : ℕ} {page_at : ℕ → ℕ} {s : System}
    → Reach (start page_size page_at) s
    → (gone : List ℕ) × (refused : List ℕ) × (s.pushed
        ≡ gone ++ (waiting s ++ s.shared.cache.to_be_delivered))
      × Merge s.taken refused gone
      × Merge refused s.recalled (s.returned ++ s.shared.locked.undelivered)
      × ((event : ℕ) → count event s.recalled ≤ count event s.taken)
pushed-accounted {s = s} r =
    let i = Reach-IsSound r in
    (
      i.ordered.gone,
      i.ordered.refused,
      i.ordered.order,
      i.ordered.merged,
      i.ordered.back,
      λ e. omega (arith, i.recalls.once e),
    )

-- The steps of the writer that use the part it shares with the reader.
abbrev pub uses_shared : Writer → Bool
uses_shared Writer.will_write = true
uses_shared Writer.will_fail = true
uses_shared Writer.owner = true
uses_shared other = false

uses_cases : (w : Writer) → uses_shared w ≡ true → (has_unlocked w || has_swapped w) ≡ true
uses_cases w h = ground arith

-- In each state that the two threads can reach, while the reader is in a call of read, or between it
-- and the barrier, the writer is not about to call write or writeFailed.
pub reading-not-uses_shared :
    {page_size : ℕ} {page_at : ℕ → ℕ} {s : System}
    → Reach (start page_size page_at) s
    → (is_reading s.reader && uses_shared s.writer) ≡ false
reading-not-uses_shared {s = s} r =
    let c = (Reach-IsSound r).controlled in
    elim (Bool-cases (is_reading s.reader)) [
      | inr free ↦ rw free refl
      | inl busy ↦ elim (Bool-cases (uses_shared s.writer)) [
        | inr other ↦ rw (busy, other) refl
        | inl uses ↦
            let which = uses_cases s.writer uses in
            let held = c.read_locked busy in
            let on = reading_on s.reader busy in
            elim (Bool-cases (has_unlocked s.writer)) [
              | inl unlocked ↦ let free = c.write_unlocked unlocked in absurd (cc)
              | inr swapped ↦ absurd (ground (arith, c.apart))
            ]
      ]
    ]

some_front : (xs : List ℕ) → 0 < count 0 xs → (page : ℕ) × (pages : List ℕ) × (xs ≡ page ∷ pages)
some_front [] h = absurd (omega arith)
some_front (x ∷ xs) h = (x, xs, refl)

-- In each state that the two threads can reach, no assert of the calls fails: writeFailed returns,
-- and where the reader is about to call read, the events are not marked as delivered.
pub Reach-asserts :
    {page_size : ℕ} {page_at : ℕ → ℕ} {s : System}
    → Reach (start page_size page_at) s
    → ((w : Wrote) × (write_failed s.shared ≡ some w))
      × (s.is_write_locked ≡ true
          → s.reader ≡ Reader.ready
          → s.shared.locked.delivered_events_flag ≡ false)
Reach-asserts {s = s} r =
    let i = Reach-IsSound r in
    let h = s.shared in
    let all : count 0 (all_pages h) ≡ places 0 h = omega (
      arith,
      count-append 0 h.cache.free_pages h.locked.used_pages,
      count-append 0 (h.cache.free_pages ++ h.locked.used_pages) h.cache.used_pages,
    ) in
    let first : ltb 0 h.cache.next_page_index ≡ true = let k = i.paged.some_page in ground arith in
    let one : places 0 h ≡ 1 = i.paged.once 0 ∙ ap (λ b. if b then 1 else 0) first in
    let (page, pages, e) = some_front (all_pages h) (omega arith) in
    (
      (given_back h page pages, write_failed-given_back h page pages e i.ordered.fresh),
      λ locked ready. i.ordered.unread locked (ap is_reading ready),
    )

-- In each state that the two threads can reach, an event that is in the chains of the reader (those
-- that it delivers or has delivered, and those to be returned) stands in a page that is with the
-- reader; and the block that an allocation of the writer gives then lies in a page that is not with
-- the reader, so in another one than the event.
pub pages-apart :
    {page_size : ℕ} {page_at : ℕ → ℕ} {s : System}
    → Reach (start page_size page_at) s
    → (memory : Bool) (size : ℕ) {c : WriteCache} {slot : Slot}
    → allocate_event memory s.shared.cache size ≡ allocated c slot
    → (event : ℕ) → 0 < count event (s.shared.locked.to_be_delivered ++ s.shared.locked.undelivered)
    → (0 < count (s.page_at event) s.shared.locked.used_pages)
      × (count slot.page s.shared.locked.used_pages ≡ 0)
      × (slot.page ≢ s.page_at event)
pages-apart {s = s} r memory size {c} {slot} done event h =
    let i = Reach-IsSound r in
    let l = s.shared.locked in
    let there =
      i.lodged.sent event (omega (arith, h, count-append event l.to_be_delivered l.undelivered)) in
    let room = (allocate-used memory s.shared.cache c size slot done).1 in
    let paged = allocate-IsPaged memory s.shared c size slot done i.paged in
    let free : count slot.page l.used_pages ≡ 0 =
      let once = paged.once slot.page in ground (arith, once, room) in
    (
      there,
      free,
      λ same. let k = ap (λ p. count p l.used_pages) same in absurd (omega (arith, k, free, there)),
    )
