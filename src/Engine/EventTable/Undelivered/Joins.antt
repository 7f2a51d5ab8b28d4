-- ===== src/Engine/EventTable/Undelivered/Joins.antt =====
-- include/trz/engine/actor.h and src/engine/actor.cpp (Event::Pipe): an actor is in the chain of
-- those to be told however its pipes and its handlers come and go.
use simplx.Base.{
  ◌-◌, ◌≡◌, refl, Bool, true, false, not, ◌&&◌, some, List, arith, ltb, ◌==◌, inl, inr, Bool-cases,
}
use simplx.Engine.EventTable.Low.{RegisteredEvent}
use simplx.Engine.EventTable.Table.{EventTable}
use simplx.Engine.EventTable.Pipes.{
  register_process_out_pipe, copy_pipe, unregister_process_out_pipe,
}
use simplx.Engine.EventTable.Undelivered.{IsCounted}

module _ (t : EventTable) (es : List RegisteredEvent) (v : IsCounted t es) where
  pub register_process_out_pipe-IsCounted :
      (in_process : Bool) → IsCounted (register_process_out_pipe t in_process) es
  unfolding register_process_out_pipe
  register_process_out_pipe-IsCounted true = v
  register_process_out_pipe-IsCounted false =
      elim (Bool-cases (not t.on_unreachable_chain && not (t.undelivered_event_count == 0))) [
        | inl join ↦
            let some_there : (t.undelivered_event_count == 0) ≡ false = ground arith in
            rw (register_process_out_pipe, join)
              (record {
                low = v.low;
                counted = v.counted;
                told = λ k. some_there;
                joined = λ k l. refl;
              })
        | inr stay ↦
            rw (register_process_out_pipe, stay)
              (record {
                low = v.low;
                counted = v.counted;
                told = v.told;
                joined = λ k l. ground arith;
              })
      ]

  -- The copy of a pipe to a destination outside the process, where the pipe itself is counted.
  pub copy_pipe-IsCounted :
      (t.process_out_pipe_count == 0) ≡ false → IsCounted (copy_pipe t false) es
  unfolding copy_pipe
  copy_pipe-IsCounted open_pipe = record {
    low = v.low;
    counted = v.counted;
    told = v.told;
    joined = λ k l. v.joined k open_pipe;
  }

  pub unregister_process_out_pipe-IsCounted :
      (t.process_out_pipe_count == 0) ≡ false
      → (t' : EventTable) × (unregister_process_out_pipe t false ≡ some t') × IsCounted t' es
  unfolding unregister_process_out_pipe
  unregister_process_out_pipe-IsCounted open_pipe =
      let above : ltb 0 t.process_out_pipe_count ≡ true = ground arith in
      (
        record t { process_out_pipe_count = t.process_out_pipe_count - 1 },
        rw (unregister_process_out_pipe, above) refl,
        record {
          low = v.low;
          counted = v.counted;
          told = v.told;
          joined = λ k l. v.joined k open_pipe;
        },
      )
