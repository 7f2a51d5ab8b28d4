-- ===== src/Bus/RingBuffer/Steps.antt =====
-- Every step of either side keeps what both rely on.
use simplx.Base.{
  ℕ, ◌+◌, ◌^◌, ◌<◌, ◌≡◌, ap, ap₂, sym, subst, ◌∙◌, List, ◌++◌, arith, add64, window, take, drop,
  take-append-drop, append_assoc, length-replicate, window_zero, replicate,
}
use simplx.Bus.RingBuffer.{make, advance, copy_out}
use simplx.Bus.RingBuffer.Inv.{
  IsValid, distance, contents, read_available-distance, distance_lt, advance_lt,
  distance-advance_right,
}
use simplx.Bus.RingBuffer.Blocks.{copy_out-take, window-advance}
use simplx.Bus.RingBuffer.Threads.{
  Consumer, System, load_read_one, load_write, Step, begin_enqueue, copy_entries, store_write,
  begin_enqueue_one, place_entry, store_next, begin_dequeue, copy_output, store_read, start, Reach,
  here, next,
}
use simplx.Bus.RingBuffer.Relies.{gap, ConsumerIsSafe, Inv, less_ProducerIsSafe}
use simplx.Bus.RingBuffer.Produces.{
  load_read-safe, load_read_one-safe, copy_entries-Inv, store_write-Inv, place_entry-Inv,
  store_next-Inv, as_bulk,
}

module _ {A : Type 0} where
  load_write-safe : (s : System A) (n : ℕ) → IsValid s.ring → ConsumerIsSafe s.ring (load_write s n)
  unfolding load_write
  load_write-safe s n v = ground (
    arith,
    read_available-distance s.ring.write_index s.ring.read_index s.ring.max_size v.small v.write_in
        v.read_in,
  )

  copy_output-Inv :
      {s : System A} {n : ℕ}
      → Inv s
      → s.consumer ≡ Consumer.counted n
      → Inv (record s {
        consumer = Consumer.copied (copy_out s.ring.array s.ring.read_index n s.ring.max_size) n;
      })
  copy_output-Inv {s} {n} inv e =
      let v = inv.valid in
      let r = s.ring in
      let safe = subst (ConsumerIsSafe r) e inv.consuming in
      record {
        valid = v;
        history = inv.history;
        producing = inv.producing;
        consuming = (
          safe,
          copy_out-take r.array r.max_size v.small v.storage r.read_index (gap r) n v.read_in
              (distance_lt r.write_index r.read_index r.max_size v.small v.write_in v.read_in) safe,
        );
      }

  store_read-Inv :
      {s : System A} {output : List A} {n : ℕ}
      → Inv s
      → s.consumer ≡ Consumer.copied output n
      → Inv (record s {
        consumer = Consumer.idle;
        ring = record (s.ring) { read_index = advance s.ring.read_index n s.ring.max_size };
        received = s.received ++ output;
      })
  store_read-Inv {s} {output} {n} inv e =
      let v = inv.valid in
      let r = s.ring in
      let safe = subst (ConsumerIsSafe r) e inv.consuming in
      let lt = distance_lt r.write_index r.read_index r.max_size v.small v.write_in v.read_in in
      let moved =
        distance-advance_right r.write_index r.read_index n r.max_size v.small v.write_in v.read_in
          safe.0 in
      let holds : window r.array (advance r.read_index n r.max_size)
            (distance r.write_index (advance r.read_index n r.max_size) r.max_size)
          ≡ drop n (contents r) =
        ap (window r.array (advance r.read_index n r.max_size)) moved
        ∙ window-advance r.array r.max_size v.small v.storage r.read_index (gap r) n v.read_in lt
            safe.0 in
      record {
        valid = record {
          some_room = v.some_room;
          small = v.small;
          storage = v.storage;
          write_in = v.write_in;
          read_in = advance_lt r.read_index n r.max_size v.small v.read_in (omega arith);
        };
        history =
            inv.history
            ∙ ap (λ q. s.received ++ q) (sym (take-append-drop n (contents r)))
            ∙ sym (append_assoc s.received (take n (contents r)) (drop n (contents r)))
            ∙ ap₂ (λ p q. (s.received ++ p) ++ q) (sym safe.1) (sym holds);
        producing = less_ProducerIsSafe s.producer n v moved holds safe.0 inv.producing;
        consuming = tt;
      }

  -- Every step of either side keeps the invariant.
  Step-Inv : {s t : System A} → Step s t → Inv s → Inv t
  Step-Inv {s} (begin_enqueue all input n at le e) inv = subst Inv (sym e) (record {
    valid = inv.valid;
    history = inv.history;
    producing = load_read-safe all s input n inv.valid le;
    consuming = inv.consuming;
  })
  Step-Inv (copy_entries at e) inv = subst Inv (sym e) (copy_entries-Inv inv at)
  Step-Inv (store_write at e) inv = subst Inv (sym e) (store_write-Inv inv at)
  Step-Inv {s} (begin_enqueue_one entry at e) inv =
      subst Inv (sym e) (as_bulk (load_read_one s entry) inv (load_read_one-safe s entry inv.valid))
  Step-Inv (place_entry at e) inv = subst Inv (sym e) (place_entry-Inv inv at)
  Step-Inv (store_next at e) inv = subst Inv (sym e) (store_next-Inv inv at)
  Step-Inv {s} (begin_dequeue n at e) inv = subst Inv (sym e) (record {
    valid = inv.valid;
    history = inv.history;
    producing = inv.producing;
    consuming = load_write-safe s n inv.valid;
  })
  Step-Inv (copy_output at e) inv = subst Inv (sym e) (copy_output-Inv inv at)
  Step-Inv (store_read at e) inv = subst Inv (sym e) (store_read-Inv inv at)

  start-Inv : (capacity : ℕ) (initial : A) → capacity + 1 < 2 ^ 63 → Inv (start capacity initial)
  unfolding start make
  start-Inv capacity initial small = record {
    valid = record {
      some_room = omega arith;
      small = omega arith;
      storage = length-replicate (add64 capacity 1) initial;
      write_in = omega arith;
      read_in = omega arith;
    };
    history = sym (window_zero (replicate (add64 capacity 1) initial) 0);
    producing = tt;
    consuming = tt;
  }

  pub Reach-Inv :
      (capacity : ℕ) (initial : A) {s : System A}
      → capacity + 1 < 2 ^ 63
      → Reach (start capacity initial) s
      → Inv s
  Reach-Inv capacity initial small here = start-Inv capacity initial small
  Reach-Inv capacity initial small (next r st) = Step-Inv st (Reach-Inv capacity initial small r)
