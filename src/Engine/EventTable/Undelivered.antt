-- ===== src/Engine/EventTable/Undelivered.antt =====
-- src/engine/actor.cpp and src/engine/node.cpp: the handlers of the undelivered events, their count,
-- and the chain of the actors that are told of those that cannot be reached.
pub mod All
pub mod Calls
pub mod Joins
use simplx.Base.{
  ℕ, zero, suc, ◌+◌, ◌-◌, ◌<◌, ◌≤◌, ◌≡◌, refl, sym, ◌∙◌, ap, Bool, true, false, not, ◌&&◌, ◌||◌,
  Option, some, none, List, [], ◌∷◌, ◌++◌, arith, length, ltb, ◌==◌, if◌then◌else◌, ◌⊎◌, inl, inr,
  Bool-cases, Option-cases, ==_iff,
}
use simplx.Engine.EventTable.Low.{
  max_event_id_count, StaticHandler, null, on_unregistered_event, on_event_of, RegisteredEvent,
  Block, Allocate, Outcome, returns, throws, fails, is_unregistered, array_size, register_low,
  unregistered, unregister_low, unregister_each, unregister_all_low,
}
use simplx.Engine.EventTable.Table.{
  EventTable, Call, count_undelivered, debug_check_undelivered_event_count,
  is_registered_undelivered_event_handler, join_unreachable, register_undelivered,
  leave_unreachable, unregister_undelivered, clear_high, unregister_all,
}
use simplx.Engine.EventTable.Entries.{
  is_good, all_below, all_good, entry, put_entry, put_entry-all_good, and_split, live_count, added,
  live_count-put_entry, unregister_entries, unregister_entries-all_below,
  unregister_entries-all_good, live_count-unregister_entries, length-unregister_entries,
  entry-unregister_entries,
}
use simplx.Engine.EventTable.Blocks.{IsArray, Holds, below_head}
use simplx.Engine.EventTable.Registers.{IsAllocator, Registered, register_low_lem}
use simplx.Engine.EventTable.Lookup.High.{clear_high_lem}
use simplx.Engine.EventTable.Lookup.Handlers.{
  handler, handler_in, handler_in_lem, handler_in-same, handler_in-put_entry, chosen, handler_of,
  IsLow, IsHandlers, is_some, is_registered_low_lem,
}
use simplx.Engine.EventTable.Lookup.Unregister.{is_stale, unregister_low_cases}

-- The count is that of the handlers, an actor in the chain has a handler, and one that has a handler
-- and a pipe to another process is in the chain.
pub record IsCounted (t : EventTable) (es : List RegisteredEvent) : Type 0 where
  pub low : IsLow t.undelivered_event es
  pub counted : t.undelivered_event_count ≡ live_count es
  pub told : t.on_unreachable_chain ≡ true → (t.undelivered_event_count == 0) ≡ false
  pub joined :
      (t.undelivered_event_count == 0) ≡ false
      → (t.process_out_pipe_count == 0) ≡ false
      → t.on_unreachable_chain ≡ true

count_undelivered_lem :
    (s : RegisteredEvent) (rest : Block) (es : List RegisteredEvent)
    → s.event_id ≡ max_event_id_count
    → all_below es ≡ true
    → all_good es ≡ true
    → count_undelivered (es ++ s ∷ rest) ≡ some (live_count es)
unfolding count_undelivered
count_undelivered_lem s rest [] ends h g =
    let stop : (s.event_id == max_event_id_count) ≡ true = ground arith in
    rw (count_undelivered, stop) refl
count_undelivered_lem s rest (e ∷ es) ends h g =
    let under = below_head e es h in
    let both = and_split (is_good e) (all_good es) g in
    let ih = count_undelivered_lem s rest es ends under.1 both.1 in
    rw (count_undelivered, under.0, good_lem e both.0, ih)
      (push_lem (is_unregistered e.static_event_handler) (live_count es))
  where
    good_lem :
        (e : RegisteredEvent)
        → is_good e ≡ true
        → ((not (is_unregistered e.static_event_handler) && not (e.event_handler == 0))
            || (is_unregistered e.static_event_handler && e.event_handler == 0))
          ≡ true
    good_lem e g = ground arith

    push_lem :
        (b : Bool) (n : ℕ) → some (if not b then suc n else n) ≡ some (if b then n else suc n)
    push_lem true n = refl
    push_lem false n = refl

pub debug_check_lem :
    (t : EventTable) (array : Option Block) (es : List RegisteredEvent)
    → t.undelivered_event ≡ array
    → IsLow array es
    → t.undelivered_event_count ≡ live_count es
    → debug_check_undelivered_event_count t ≡ true
unfolding debug_check_undelivered_event_count
debug_check_lem t none es e low counted =
    let zero_count : t.undelivered_event_count ≡ 0 = counted ∙ ap live_count low.holds in
    let test : (0 == t.undelivered_event_count) ≡ true = ground arith in
    rw (debug_check_undelivered_event_count, e) test
debug_check_lem t (some b) es e low counted =
    let a : IsArray b es = low.holds in
    let count : count_undelivered b ≡ some (live_count es) =
      ap count_undelivered a.cells
      ∙ count_undelivered_lem a.sentinel a.rest es a.ends a.below low.good in
    let test : (live_count es == t.undelivered_event_count) ≡ true = ground arith in
    rw (debug_check_undelivered_event_count, e, count) test

module _ (t : EventTable) (es : List RegisteredEvent) (low : IsLow t.undelivered_event es) where
  pub leave_unreachable_lem :
      (counted : t.undelivered_event_count ≡ live_count es)
      → ((t.undelivered_event_count == 0) ≡ false
          → (t.process_out_pipe_count == 0) ≡ false
          → t.on_unreachable_chain ≡ true)
      → (t' : EventTable) × (leave_unreachable t ≡ some t')
        × (t'.undelivered_event ≡ t.undelivered_event)
        × IsCounted t' es
  unfolding leave_unreachable
  leave_unreachable_lem counted joined =
      let check = debug_check_lem t _ es refl low counted in
      elim (Bool-cases (t.on_unreachable_chain && t.undelivered_event_count == 0)) [
        | inl leave ↦
            let nobody : (t.undelivered_event_count == 0) ≡ true = ground arith in
            (
              record t { on_unreachable_chain = false },
              rw (leave_unreachable, check, leave) refl,
              refl,
              record {
                low = low;
                counted = counted;
                told = λ k. absurd (cc);
                joined = λ k l. absurd (cc);
              },
            )
        | inr stay ↦ (
          t,
          rw (leave_unreachable, check, stay) refl,
          refl,
          record { low = low; counted = counted; told = λ k. ground arith; joined = joined },
        )
      ]

  pub join_unreachable_lem :
      (counted : t.undelivered_event_count ≡ live_count es)
      → (t.undelivered_event_count == 0) ≡ false
      → (t' : EventTable) × (join_unreachable t ≡ returns t' tt)
        × (t'.undelivered_event ≡ t.undelivered_event)
        × IsCounted t' es
  unfolding join_unreachable
  join_unreachable_lem counted some_there =
      let check = debug_check_lem t _ es refl low counted in
      let above : ltb 0 t.undelivered_event_count ≡ true = ground arith in
      elim (Bool-cases (not (t.process_out_pipe_count == 0) && not t.on_unreachable_chain)) [
        | inl join ↦ (
          record t { on_unreachable_chain = true },
          rw (join_unreachable, check, above, join) refl,
          refl,
          record { low = low; counted = counted; told = λ k. some_there; joined = λ k l. refl },
        )
        | inr stay ↦ (
          t,
          rw (join_unreachable, check, above, stay) refl,
          refl,
          record {
            low = low;
            counted = counted;
            told = λ k. some_there;
            joined = λ k l. ground arith;
          },
        )
      ]
