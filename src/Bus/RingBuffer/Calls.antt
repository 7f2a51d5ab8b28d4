-- ===== src/Bus/RingBuffer/Calls.antt =====
-- Each call of the ring, made alone, does what a bounded queue does.
use simplx.Base.{
  ℕ, ◌+◌, ◌-◌, ◌^◌, ◌≤◌, ◌<◌, ◌≡◌, refl, sym, ◌∙◌, min, List, [], ◌∷◌, ◌++◌, arith, length, add64,
  ltb, tests, Bool, Bool-cases, inl, inr, true, false, length-window, take, drop, length-take,
  take-take, take-min, drop-min, set, set-copy_to, append-nil, take_all, drop_all, ◌==◌,
}
use simplx.Bus.Fifo
use simplx.Bus.RingBuffer.{
  RingBuffer, write_available, advance, copy_in, copy_out, enqueue_count, enqueue_taken,
  enqueue_bulk, dequeue, enqueue,
}
use simplx.Bus.RingBuffer.Inv.{
  IsValid, distance, contents, next_index-advance, full_test, read_available-distance,
  write_available-distance, distance_lt, distance_next, advance_lt, distance-advance,
  distance-advance_right,
}
use simplx.Bus.RingBuffer.Blocks.{length-copy_in, window-copy_in, copy_out-take, window-advance}

-- What a ring of `max_size` cells can hold.
abbrev pub capacity : {A : Type 0} → RingBuffer A → ℕ
capacity r = r.max_size - 1

module _ {A : Type 0} where
  pub length-contents :
      {r : RingBuffer A}
      → IsValid r
      → length (contents r) ≡ distance r.write_index r.read_index r.max_size
  length-contents {r} v =
      length-window r.array r.read_index (distance r.write_index r.read_index r.max_size)
        (omega (arith, v.read_in, v.storage))
        (omega (
          arith,
          distance_lt r.write_index r.read_index r.max_size v.small v.write_in v.read_in,
          v.storage,
        ))

  -- `n` entries written as the bulk `enqueue` writes them.
  abbrev written : RingBuffer A → List A → ℕ → RingBuffer A
  written r input n = record r {
    array = copy_in r.array r.write_index input n r.max_size;
    write_index = advance r.write_index n r.max_size;
  }

  written_lem :
      {r : RingBuffer A} (input : List A) (n : ℕ)
      → IsValid r
      → length (contents r) + n ≤ capacity r
      → n ≤ length input
      → IsValid (written r input n) × (contents (written r input n) ≡ contents r ++ take n input)
  written_lem {r} input n v room le =
      let len = length-contents v in
      let fits : distance r.write_index r.read_index r.max_size + n < r.max_size =
        omega (arith, v.some_room) in
      let moved =
        distance-advance r.write_index r.read_index n r.max_size v.small v.write_in v.read_in
          fits in
      (
        record {
          some_room = v.some_room;
          small = v.small;
          storage = length-copy_in r.array r.max_size v.small v.storage r.write_index n input;
          write_in = advance_lt r.write_index n r.max_size v.small v.write_in (omega arith);
          read_in = v.read_in;
        },
        rw moved (
            window-copy_in r.array r.max_size v.small v.storage r.read_index
              (distance r.write_index r.read_index r.max_size) r.write_index n input v.read_in
              v.write_in fits le
              (distance_next r.write_index r.read_index r.max_size v.small v.write_in v.read_in)),
      )

  room-eq :
      {r : RingBuffer A}
      → IsValid r
      → write_available r.write_index r.read_index r.max_size ≡ capacity r - length (contents r)
  room-eq {r} v = omega (
    arith,
    write_available-distance r.write_index r.read_index r.max_size v.small v.write_in v.read_in,
    length-contents v,
  )

  -- A call left a valid ring, with the result and the contents `(x, q)`.
  abbrev pub Leaves {ℓ} : {B : Type ℓ} → RingBuffer A → B × List A → B × RingBuffer A → Type ℓ
  Leaves r (x, q) (x', r') = (x' ≡ x) × (contents r' ≡ q) × IsValid r' × (r'.max_size ≡ r.max_size)

  accepted_lem :
      {r : RingBuffer A} (input : List A) (n : ℕ)
      → IsValid r
      → n ≤ capacity r - length (contents r)
      → n ≤ length input
      → Leaves r (n, contents r ++ take n input) (n, written r input n)
  accepted_lem {r} input n v room le =
      let (valid, holds) =
        written_lem input n v
          (omega (
            arith,
            length-contents v,
            distance_lt r.write_index r.read_index r.max_size v.small v.write_in v.read_in,
          ))
          le in
      (refl, holds, valid, refl)

  -- `n` entries read as the bulk `dequeue` reads them.
  read_lem :
      {r : RingBuffer A} (n : ℕ)
      → IsValid r
      → n ≤ length (contents r)
      → Leaves r
          (take n (contents r), drop n (contents r))
          (
            copy_out r.array r.read_index n r.max_size,
            record r { read_index = advance r.read_index n r.max_size },
          )
  read_lem {r} n v le =
      let d : ℕ = distance r.write_index r.read_index r.max_size in
      let lt : d < r.max_size =
        distance_lt r.write_index r.read_index r.max_size v.small v.write_in v.read_in in
      let le' : n ≤ d = omega (arith, length-contents v) in
      let moved =
        distance-advance_right r.write_index r.read_index n r.max_size v.small v.write_in v.read_in
          le' in
      (
        copy_out-take r.array r.max_size v.small v.storage r.read_index d n v.read_in lt le',
        rw moved
            (window-advance r.array r.max_size v.small v.storage r.read_index d n v.read_in lt le'),
        record {
          some_room = v.some_room;
          small = v.small;
          storage = v.storage;
          write_in = v.write_in;
          read_in = advance_lt r.read_index n r.max_size v.small v.read_in (omega arith);
        },
        refl,
      )

  -- The bulk `enqueue<_All>` takes as many entries as the bounded queue: with `_All` all of them
  -- or none, otherwise as many as there is room for. It puts those behind the contents, in order,
  -- and leaves the ring valid. The ring is valid and the input is in memory.
  pub enqueue_bulk_refines :
      (all : Bool) {r : RingBuffer A} (input : List A) (n : ℕ)
      → IsValid r
      → n ≤ length input
      → Leaves r
          (Fifo.offer all (capacity r) (contents r) (take n input))
          (enqueue_bulk all r input n)
  unfolding enqueue_bulk enqueue_taken enqueue_count Fifo.offer
  enqueue_bulk_refines true {r} input n v le =
      let e : length (take n input) ≡ n = omega (arith, length-take n input) in
      rw (room-eq v, e)
        (elim (Bool-cases (ltb (capacity r - length (contents r)) n)) [
          | inl full ↦ rw full (refl, sym (append-nil (contents r)), v, refl)
          | inr fits ↦
              let room : n ≤ capacity r - length (contents r) = omega tests in
              rw (fits, take-take n n input (omega arith)) (accepted_lem input n v room le)
        ])
  enqueue_bulk_refines false {r} input n v le =
      let e : length (take n input) ≡ n = omega (arith, length-take n input) in
      rw (room-eq v, e)
        (elim (Bool-cases (capacity r - length (contents r) == 0)) [
          | inl full ↦
              let zero_taken : min n (capacity r - length (contents r)) ≡ 0 = ground arith in
              rw (full, zero_taken) (refl, sym (append-nil (contents r)), v, refl)
          | inr some_room ↦
              rw
                (
                  some_room,
                  take-take (min n (capacity r - length (contents r))) n input (omega arith),
                )
                (accepted_lem input (min n (capacity r - length (contents r))) v (omega arith)
                  (omega arith))
        ])

  -- `dequeue` hands out the first entries of the contents, at most as many as it is asked for, in
  -- order, and leaves the rest, and the ring valid. The ring is valid.
  pub dequeue_refines :
      {r : RingBuffer A} (n : ℕ) → IsValid r → Leaves r (Fifo.poll n (contents r)) (dequeue r n)
  unfolding dequeue Fifo.poll
  dequeue_refines {r} n v =
      let avail =
        read_available-distance r.write_index r.read_index r.max_size v.small v.write_in v.read_in
        ∙ sym (length-contents v) in
      rw avail (elim (Bool-cases (length (contents r) == 0)) [
        | inl nothing ↦
            let none_held : length (contents r) ≤ 0 = ground arith in
            let e : contents r ≡ [] = drop_all 0 (contents r) none_held in
            rw nothing (
              sym (take_all n (contents r) (omega arith) ∙ e),
              e ∙ sym (drop_all n (contents r) (omega arith)),
              v,
              refl,
            )
        | inr something ↦
            rw (something, ← take-min n (contents r), ← drop-min n (contents r))
              (read_lem (min n (length (contents r))) v (omega arith))
      ])

  pub set-copy_in :
      (array : List A) (w m : ℕ) (t : A)
      → w < m
      → m < 2 ^ 63
      → set array w t ≡ copy_in array w (t ∷ []) 1 m
  unfolding copy_in
  set-copy_in array w m t h small =
      let one : ltb m (add64 w 1) ≡ false = ground arith in rw one (set-copy_to array w t)

  -- `enqueue(t)` puts one entry behind the contents, or answers false and changes nothing when the
  -- ring is full; the ring stays valid. The ring is valid.
  pub enqueue_refines :
      {r : RingBuffer A} (t : A)
      → IsValid r
      → Leaves r (Fifo.offer_one (capacity r) (contents r) t) (enqueue r t)
  unfolding enqueue Fifo.offer_one
  enqueue_refines {r} t v =
      rw
        (
          next_index-advance r.write_index r.max_size v.write_in v.small,
          full_test r.write_index r.read_index r.max_size v.write_in v.read_in v.small,
          length-contents v,
        )
        (elim (Bool-cases (ltb (distance r.write_index r.read_index r.max_size) (r.max_size - 1))) [
          | inl fits ↦
              let lt : distance r.write_index r.read_index r.max_size < r.max_size - 1 =
                omega tests in
              let (valid, holds) =
                written_lem (t ∷ []) 1 v (omega (arith, length-contents v)) (omega arith) in
              rw (fits, set-copy_in r.array r.write_index r.max_size t v.write_in v.small)
                (refl, holds, valid, refl)
          | inr full ↦ rw full (refl, refl, v, refl)
        ])
