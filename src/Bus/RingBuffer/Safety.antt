-- ===== src/Bus/RingBuffer/Safety.antt =====
-- The two threads of the ring, in any interleaving: nothing is lost, doubled or reordered.
use simplx.Base.{
  ℕ, ◌+◌, ◌-◌, ◌^◌, ◌≤◌, ◌<◌, ◌≡◌, ◌≢◌, refl, ap, sym, subst, ◌∙◌, List, [], ◌++◌, arith, length,
  ltb, if◌then◌else◌, take, append-nil, drop_all, take_all,
}
use native.Mathlib.Decide.{ℕ_discrete}
use simplx.Bus.RingBuffer.{copy_out}
use simplx.Bus.RingBuffer.Inv.{IsValid, distance, contents, read_available-distance, distance_lt}
use simplx.Bus.RingBuffer.Blocks.{copy_out-take}
use simplx.Bus.RingBuffer.Calls.{length-contents}
use simplx.Bus.RingBuffer.Threads.{
  Producer, Consumer, System, load_write, begin_dequeue, copy_output, store_read, start, Reach,
  Alone, stay, go_on,
}
use simplx.Bus.RingBuffer.Relies.{gap, ProducerIsSafe, ConsumerIsSafe}
use simplx.Bus.RingBuffer.Steps.{Reach-Inv}

-- The cell of the array that holds entry `i` of a block that begins at `at`.
abbrev pub cell : ℕ → ℕ → ℕ → ℕ
cell at i max_size = if ltb (at + i) max_size then at + i else at + i - max_size

disjoint :
    (w r m n k i j : ℕ)
    → w < m
    → r < m
    → distance w r m + n < m
    → k ≤ distance w r m
    → i < n
    → j < k
    → cell w i m ≢ cell r j m
disjoint w r m n k i j hw hr room le hi hj = ground arith

module _ {A : Type 0} where
  -- In every state that the two threads reach from a new ring, whatever the order of their steps:
  -- what the consumer has received, followed by what the ring holds, is what the producer's
  -- finished calls have accepted. So nothing is lost, doubled, altered or reordered.
  pub received-sent :
      (capacity : ℕ) (initial : A) {s : System A}
      → capacity + 1 < 2 ^ 63
      → Reach (start capacity initial) s
      → (s.received ++ contents s.ring ≡ s.sent) × (length (contents s.ring) < s.ring.max_size)
  received-sent capacity initial {s} small r =
      let inv = Reach-Inv capacity initial small r in
      let v = inv.valid in
      (
        sym inv.history,
        omega (
          arith,
          length-contents v,
          distance_lt s.ring.write_index s.ring.read_index s.ring.max_size v.small v.write_in
              v.read_in,
        ),
      )

  -- While the producer copies a block into the ring and the consumer copies one out of it, no cell
  -- is in both blocks: in every state that the two threads reach from a new ring, whatever the
  -- order of their steps, their `memcpy`s do not race.
  pub copies_disjoint :
      (capacity : ℕ) (initial : A) {s : System A} {input : List A} {n k : ℕ}
      → capacity + 1 < 2 ^ 63
      → Reach (start capacity initial) s
      → s.producer ≡ Producer.counted input n
      → s.consumer ≡ Consumer.counted k
      → (i j : ℕ) → i < n
      → j < k
      → cell s.ring.write_index i s.ring.max_size ≢ cell s.ring.read_index j s.ring.max_size
  copies_disjoint capacity initial {s} {n = n} {k = k} small r p c i j hi hj =
      let inv = Reach-Inv capacity initial small r in
      let producing = subst (ProducerIsSafe s.ring) p inv.producing in
      let consuming = subst (ConsumerIsSafe s.ring) c inv.consuming in
      disjoint s.ring.write_index s.ring.read_index s.ring.max_size n k i j inv.valid.write_in
        inv.valid.read_in producing.1 consuming hi hj

  load_write_all :
      (s : System A)
      → IsValid s.ring
      → gap s.ring ≢ 0
      → load_write s s.ring.max_size ≡ Consumer.counted (gap s.ring)
  unfolding load_write
  load_write_all s v some_held = ground (
    arith,
    read_available-distance s.ring.write_index s.ring.read_index s.ring.max_size v.small v.write_in
        v.read_in,
    distance_lt s.ring.write_index s.ring.read_index s.ring.max_size v.small v.write_in v.read_in,
  )

  drain_steps :
      {s : System A}
      → IsValid s.ring
      → gap s.ring ≢ 0
      → s.consumer ≡ Consumer.idle
      → (t : System A) × Alone s t
        × (t.received
            ≡ s.received ++ copy_out s.ring.array s.ring.read_index (gap s.ring) s.ring.max_size)
        × (t.sent ≡ s.sent)
        × (t.producer ≡ s.producer)
        × (t.consumer ≡ Consumer.idle)
  drain_steps {s = s} v some_held outside =
      let counted =
        begin_dequeue {s = s} s.ring.max_size outside
          (ap (λ c. record s { consumer = c }) (sym (load_write_all s v some_held))) in
      (
        _,
        go_on (go_on (go_on stay counted refl) (copy_output refl refl) refl) (store_read refl refl)
            refl,
        refl,
        refl,
        refl,
        refl,
      )

  -- Nothing stays behind: from any state that the two threads reach from a new ring and in which
  -- the consumer is outside its call, the steps of the consumer alone lead to a state in which it
  -- has received all that was sent and is outside again; the producer is where it was.
  pub drain :
      (capacity : ℕ) (initial : A) {s : System A}
      → capacity + 1 < 2 ^ 63
      → Reach (start capacity initial) s
      → s.consumer ≡ Consumer.idle
      → (t : System A) × Alone s t
        × (t.received ≡ s.sent)
        × (t.sent ≡ s.sent)
        × (t.producer ≡ s.producer)
        × (t.consumer ≡ Consumer.idle)
  drain capacity initial {s} small r outside =
      let inv = Reach-Inv capacity initial small r in
      let v = inv.valid in
      let lt =
        distance_lt s.ring.write_index s.ring.read_index s.ring.max_size v.small v.write_in
          v.read_in in
      let all : take (gap s.ring) (contents s.ring) ≡ contents s.ring =
        take_all (gap s.ring) (contents s.ring) (omega (arith, length-contents v)) in
      elim (ℕ_discrete (gap s.ring) 0) [
        | yes nothing ↦
            let none_held : contents s.ring ≡ [] =
              drop_all 0 (contents s.ring) (omega (arith, length-contents v)) in
            (
              s,
              stay,
              sym (append-nil s.received)
                  ∙ ap (λ q. s.received ++ q) (sym none_held)
                  ∙ sym inv.history,
              refl,
              refl,
              outside,
            )
        | no some_held ↦
            let (t, run, got, kept, same, out_again) = drain_steps {s = s} v some_held outside in
            let out =
              copy_out-take s.ring.array s.ring.max_size v.small v.storage s.ring.read_index
                (gap s.ring) (gap s.ring) v.read_in lt (omega arith) in
            (
              t,
              run,
              got ∙ ap (λ q. s.received ++ q) (out ∙ all) ∙ sym inv.history,
              kept,
              same,
              out_again,
            )
      ]
