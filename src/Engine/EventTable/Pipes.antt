-- ===== src/Engine/EventTable/Pipes.antt =====
-- include/trz/engine/actor.h and src/engine/actor.cpp (Event::Pipe): how the pipes of an actor to
-- destinations outside the process are counted.
use simplx.Base.{◌+◌, ◌-◌, Bool, true, not, ◌&&◌, Option, some, none, ltb, ◌==◌, if◌then◌else◌}
use simplx.Engine.EventTable.Table.{EventTable}

-- `registerProcessOutPipe`, by whether the destination is in the process. The count goes up before
-- the chain is looked at.
unfoldable pub register_process_out_pipe : EventTable → Bool → EventTable
register_process_out_pipe t in_process =
    if not in_process
    then if not t.on_unreachable_chain && not (t.undelivered_event_count == 0)
      then record t {
        process_out_pipe_count = t.process_out_pipe_count + 1;
        on_unreachable_chain = true;
      }
      else record t { process_out_pipe_count = t.process_out_pipe_count + 1 }
    else t

-- The copy constructor of a pipe.
unfoldable pub copy_pipe : EventTable → Bool → EventTable
copy_pipe t in_process =
    if not in_process then record t { process_out_pipe_count = t.process_out_pipe_count + 1 } else t

-- `unregisterProcessOutPipe`.
unfoldable pub unregister_process_out_pipe : EventTable → Bool → Option EventTable
unregister_process_out_pipe t in_process =
    if not in_process
    then if ltb 0 t.process_out_pipe_count
      then some (record t { process_out_pipe_count = t.process_out_pipe_count - 1 })
      else none
    else some t
