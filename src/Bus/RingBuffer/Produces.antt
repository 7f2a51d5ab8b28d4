-- ===== src/Bus/RingBuffer/Produces.antt =====
-- The steps of the producer keep what both sides rely on.
use simplx.Base.{
  ℕ, ◌+◌, ◌-◌, ◌≤◌, ◌<◌, ◌≡◌, refl, ap, sym, subst, ◌∙◌, Bool, List, [], ◌∷◌, ◌++◌, set, Bool-cases,
  inl, inr, ltb, tests, arith, length, window, take, take-append_of_le, append_assoc, take-window,
  take_all,
}
use simplx.Bus.RingBuffer.{RingBuffer, advance, copy_in, enqueue_count, next_index}
use simplx.Bus.RingBuffer.Inv.{
  IsValid, distance, contents, write_available-distance, distance_lt, distance_next, advance_lt,
  distance-advance, next_index-advance, full_test,
}
use simplx.Bus.RingBuffer.Blocks.{length-copy_in, window-copy_in}
use simplx.Bus.RingBuffer.Calls.{length-contents, set-copy_in}
use simplx.Bus.RingBuffer.Threads.{Producer, System, load_read, load_read_one}
use simplx.Bus.RingBuffer.Relies.{
  gap, ProducerIsSafe, Inv, same_ConsumerIsSafe, more_ConsumerIsSafe,
}

module _ {A : Type 0} where
  pub load_read-safe :
      (all : Bool) (s : System A) (input : List A) (n : ℕ)
      → IsValid s.ring
      → n ≤ length input
      → ProducerIsSafe s.ring (load_read all s input n)
  unfolding load_read enqueue_count
  load_read-safe all s input n v le = ground (
    arith,
    write_available-distance s.ring.write_index s.ring.read_index s.ring.max_size v.small v.write_in
        v.read_in,
    distance_lt s.ring.write_index s.ring.read_index s.ring.max_size v.small v.write_in v.read_in,
  )

  pub load_read_one-safe :
      (s : System A) (entry : A) → IsValid s.ring → ProducerIsSafe s.ring (load_read_one s entry)
  unfolding load_read_one
  load_read_one-safe s entry v =
      let r = s.ring in
      rw
        (
          next_index-advance r.write_index r.max_size v.write_in v.small,
          full_test r.write_index r.read_index r.max_size v.write_in v.read_in v.small,
        )
        (elim (Bool-cases (ltb (gap r) (r.max_size - 1))) [
          | inl fits ↦ let lt : gap r < r.max_size - 1 = omega tests in rw fits (omega arith)
          | inr full ↦ rw full tt
        ])

  abbrev copied_ring : RingBuffer A → List A → ℕ → RingBuffer A
  copied_ring r input n = record r { array = copy_in r.array r.write_index input n r.max_size }

  -- The cells copied by the producer leave the contents as they are.
  module _ (r : RingBuffer A) (input : List A) (n : ℕ) (v : IsValid r)
      (safe : (n ≤ length input) × (gap r + n < r.max_size)) where
    copied-IsValid : IsValid (copied_ring r input n)
    copied-IsValid = record {
      some_room = v.some_room;
      small = v.small;
      storage = length-copy_in r.array r.max_size v.small v.storage r.write_index n input;
      write_in = v.write_in;
      read_in = v.read_in;
    }

    window-copied :
        window (copied_ring r input n).array r.read_index (gap r + n) ≡ contents r ++ take n input
    window-copied =
        window-copy_in r.array r.max_size v.small v.storage r.read_index (gap r) r.write_index n
          input v.read_in v.write_in safe.1 safe.0
          (distance_next r.write_index r.read_index r.max_size v.small v.write_in v.read_in)

    contents-copied : contents (copied_ring r input n) ≡ contents r
    contents-copied =
        sym
          (take-window (copied_ring r input n).array r.read_index (gap r) (gap r + n) (omega arith))
        ∙ ap (take (gap r)) window-copied
        ∙ take-append_of_le (gap r) (contents r) (take n input) (omega (arith, length-contents v))
        ∙ take_all (gap r) (contents r) (omega (arith, length-contents v))

  pub copy_entries-Inv :
      {s : System A} {input : List A} {n : ℕ}
      → Inv s
      → s.producer ≡ Producer.counted input n
      → Inv (record s { producer = Producer.copied input n; ring = copied_ring (s.ring) input n })
  copy_entries-Inv {s} {input} {n} inv e =
      let safe = subst (ProducerIsSafe s.ring) e inv.producing in
      let same = contents-copied (s.ring) input n inv.valid safe in
      record {
        valid = copied-IsValid (s.ring) input n inv.valid safe;
        history = inv.history ∙ ap (λ q. s.received ++ q) (sym same);
        producing = (
          safe.0,
          safe.1,
          window-copied (s.ring) input n inv.valid safe ∙ ap (λ q. q ++ take n input) (sym same),
        );
        consuming = same_ConsumerIsSafe _ _ s.consumer (sym same) refl inv.consuming;
      }

  pub store_write-Inv :
      {s : System A} {input : List A} {n : ℕ}
      → Inv s
      → s.producer ≡ Producer.copied input n
      → Inv (record s {
        producer = Producer.idle;
        ring = record (s.ring) { write_index = advance s.ring.write_index n s.ring.max_size };
        sent = s.sent ++ take n input;
      })
  store_write-Inv {s} {input} {n} inv e =
      let v = inv.valid in
      let r = s.ring in
      let safe = subst (ProducerIsSafe r) e inv.producing in
      let moved =
        distance-advance r.write_index r.read_index n r.max_size v.small v.write_in v.read_in
          safe.1 in
      let holds : window r.array r.read_index
            (distance (advance r.write_index n r.max_size) r.read_index r.max_size)
          ≡ contents r ++ take n input =
        ap (window r.array r.read_index) moved ∙ safe.2 in
      record {
        valid = record {
          some_room = v.some_room;
          small = v.small;
          storage = v.storage;
          write_in = advance_lt r.write_index n r.max_size v.small v.write_in (omega arith);
          read_in = v.read_in;
        };
        history =
            ap (λ q. q ++ take n input) inv.history
            ∙ append_assoc s.received (contents r) (take n input)
            ∙ ap (λ q. s.received ++ q) (sym holds);
        producing = tt;
        consuming =
            more_ConsumerIsSafe _ _ s.consumer n (take n input) moved holds (length-contents v)
              inv.consuming;
      }

  -- The `enqueue` of one entry goes as a bulk of one.
  pub as_bulk :
      {s : System A} (p : Producer A)
      → Inv s
      → ProducerIsSafe s.ring p
      → Inv (record s { producer = p })
  as_bulk p inv safe = record {
    valid = inv.valid;
    history = inv.history;
    producing = safe;
    consuming = inv.consuming;
  }

  pub place_entry-Inv :
      {s : System A} {entry : A}
      → Inv s
      → s.producer ≡ Producer.accepted entry
      → Inv (record s {
        producer = Producer.placed entry;
        ring = record (s.ring) { array = set s.ring.array s.ring.write_index entry };
      })
  place_entry-Inv {s} {entry} inv e =
      let r = s.ring in
      let safe = subst (ProducerIsSafe r) e inv.producing in
      let bulk = as_bulk {s = s} (Producer.counted (entry ∷ []) 1) inv (omega arith, safe) in
      let j =
        copy_entries-Inv {s = record s { producer = Producer.counted (entry ∷ []) 1 }} bulk refl in
      subst
        (λ (a : List A).
          Inv (record s { producer = Producer.placed entry; ring = record r { array = a } }))
        (sym
          (set-copy_in r.array r.write_index r.max_size entry inv.valid.write_in inv.valid.small))
        (record {
          valid = j.valid;
          history = j.history;
          producing = (j.producing.1, j.producing.2);
          consuming = j.consuming;
        })

  pub store_next-Inv :
      {s : System A} {entry : A}
      → Inv s
      → s.producer ≡ Producer.placed entry
      → Inv (record s {
        producer = Producer.idle;
        ring = record (s.ring) { write_index = next_index s.ring.write_index s.ring.max_size };
        sent = s.sent ++ entry ∷ [];
      })
  store_next-Inv {s} {entry} inv e =
      let r = s.ring in
      let safe = subst (ProducerIsSafe r) e inv.producing in
      let bulk =
        as_bulk {s = s} (Producer.copied (entry ∷ []) 1) inv (omega arith, safe.0, safe.1) in
      subst
        (λ w. Inv (record s {
          producer = Producer.idle;
          ring = record r { write_index = w };
          sent = s.sent ++ entry ∷ [];
        }))
        (sym (next_index-advance r.write_index r.max_size inv.valid.write_in inv.valid.small))
        (store_write-Inv {s = record s { producer = Producer.copied (entry ∷ []) 1 }} bulk refl)
