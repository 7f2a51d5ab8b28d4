-- ===== src/Connector/CircularBuffer/Write.antt =====
-- `writeData` appends the whole block, or changes nothing.
use simplx.Base.{
  window-copy_to, ℕ, ◌+◌, ◌-◌, ◌%◌, ◌≤◌, ◌<◌, ◌≡◌, inl, inr, ◌||◌, Bool, true, false, List, ◌++◌,
  Option, some, arith, min, ltb, leb, if◌then◌else◌, length, length-take, length-drop, take, drop,
  length-copy_to, copy_to, add64, sub64, mod_of_le, Bool-cases, append_assoc, ap, sym, subst, ◌^◌,
  refl, ◌∙◌, tests, take_split,
}
use native.Mathlib.Nat.{mod_self}
use simplx.Connector.Fifo.{offer}
use simplx.Connector.CircularBuffer.{
  CircularBuffer, write_block, write_at_begin, write_at_end, write_round, write_data, wrote,
}
use simplx.Connector.CircularBuffer.Inv.{IsPlaced, IsValid}
use simplx.Connector.CircularBuffer.Contents.{contents, length-contents}

-- A block copied at `at`, where the writer stands in the array, with the members brought up to date.
abbrev extended : CircularBuffer → ℕ → List ℕ → ℕ → ℕ → CircularBuffer
extended b at xs n w = record b {
  buffer = copy_to b.buffer at xs;
  writer_index = w;
  content_size = add64 b.content_size n;
  free_space = sub64 b.free_space n;
}

-- Such a block keeps the placement.
extended-IsPlaced :
    {b : CircularBuffer} (at : ℕ) (xs : List ℕ) (n w : ℕ)
    → IsPlaced b
    → at ≡ b.writer_index
    → 0 < n
    → n ≤ b.free_space
    → b.writer_index + n ≤ b.capacity
    → w ≡ (b.writer_index + n) % b.capacity
    → IsPlaced (extended b at xs n w)
extended-IsPlaced {b} at xs n w v here pos free room next =
    ground (arith, mod_of_le (b.writer_index + n) b.capacity, length-copy_to b.buffer at xs)

-- It goes to the end of the contents.
contents-extended :
    {b : CircularBuffer} (at : ℕ) (xs : List ℕ) (n w : ℕ)
    → IsPlaced b
    → at ≡ b.writer_index
    → length xs ≡ n
    → 0 < n
    → n ≤ b.free_space
    → b.writer_index + n ≤ b.capacity
    → contents (extended b at xs n w) ≡ contents b ++ xs
contents-extended {b} at xs n w v here e pos free room =
    let c : add64 b.content_size n ≡ b.content_size + length xs = omega arith in
    rw c (
      window-copy_to b.buffer xs b.reader_index b.content_size at (omega arith) (omega arith)
        (omega arith) (ground arith))

-- What one copied block has done.
record Extends (b b' : CircularBuffer) (xs : List ℕ) : Type 0 where
  placed : IsPlaced b'
  holds : contents b' ≡ contents b ++ xs
  grown : b'.content_size ≡ b.content_size + length xs
  same : b'.capacity ≡ b.capacity

-- The new writer is computed modulo the capacity, on words.
extended_lem :
    {b : CircularBuffer} (at : ℕ) (xs : List ℕ) (n w : ℕ)
    → IsPlaced b
    → at ≡ b.writer_index
    → length xs ≡ n
    → 0 < n
    → n ≤ b.free_space
    → b.writer_index + n ≤ b.capacity
    → w ≡ (b.writer_index + n) % b.capacity
    → Extends b (extended b at xs n w) xs
extended_lem at xs n w v here e pos free room next = record {
  placed = extended-IsPlaced at xs n w v here pos free room next;
  holds = contents-extended at xs n w v here e pos free room;
  grown = omega (arith, v.sizes, v.small);
  same = refl;
}

-- A write succeeded and put `xs` behind what was there.
abbrev Wrote : CircularBuffer → List ℕ → Option (Bool × CircularBuffer) → Type 0
Wrote b xs r =
    (b' : CircularBuffer) × (r ≡ some (true, b'))
    × IsValid b'
    × (contents b' ≡ contents b ++ xs)
    × (b'.capacity ≡ b.capacity)

-- The flags of a written buffer.
wrote-Wrote :
    {b b' : CircularBuffer} {xs : List ℕ} → Extends b b' xs → 0 < length xs → Wrote b xs (wrote b')
wrote-Wrote {b' = b'} x h =
    (record b' { empty_flag = false; new_data_flag = true }, refl, ground arith, x.holds, x.same)

write_block_lem :
    {b : CircularBuffer} (bytes : List ℕ) (size : ℕ)
    → IsPlaced b
    → 0 < size
    → size ≤ b.free_space
    → size ≤ length bytes
    → b.writer_index + size ≤ b.capacity
    → Wrote b (take size bytes) (write_block b bytes size)
unfolding write_block
write_block_lem {b} bytes size v pos free have room =
    let e : length (take size bytes) ≡ size = omega (arith, length-take size bytes) in
    let next : w ≡ (b.writer_index + size) % b.capacity = ap (λ k. k % b.capacity) (omega arith) in
    let x = extended_lem b.writer_index (take size bytes) size w v refl e pos free room next in
    let fits : ltb w b.capacity ≡ true = omega (tests, x.placed.writer_in) in
    rw fits (wrote-Wrote x (omega arith))
  where
    w : ℕ
    w = add64 b.writer_index size % b.capacity

-- The bytes that go to the start of the array, when the writer has come round to it.
write_at_begin_lem :
    {b : CircularBuffer} (rest : List ℕ) (n : ℕ)
    → IsPlaced b
    → b.writer_index ≡ 0
    → 0 < n
    → n ≤ b.free_space
    → n ≤ length rest
    → Wrote b (take n rest) (write_at_begin b rest n)
unfolding write_at_begin
write_at_begin_lem {b} rest n v here pos free have =
    let e : length (take n rest) ≡ n = omega (arith, length-take n rest) in
    let next : n % b.capacity ≡ (b.writer_index + n) % b.capacity =
      ap (λ k. k % b.capacity) (omega arith) in
    let x =
      extended_lem 0 (take n rest) n (n % b.capacity) v (sym here) e pos free
        (omega (arith, v.sizes)) next in
    let fits : ltb (n % b.capacity) b.capacity ≡ true = omega (tests, x.placed.writer_in) in
    rw fits (wrote-Wrote x (omega arith))

-- The bytes that go from the writer to the end of the array.
write_at_end_lem :
    {b : CircularBuffer} (bytes : List ℕ) (n : ℕ)
    → IsPlaced b
    → 0 < n
    → n ≤ b.free_space
    → n ≤ length bytes
    → b.writer_index + n ≤ b.capacity
    → (b' : CircularBuffer) × (write_at_end b bytes n ≡ some b')
      × Extends b b' (take n bytes)
      × (b'.writer_index ≡ (b.writer_index + n) % b.capacity)
unfolding write_at_end
write_at_end_lem {b} bytes n v pos free have room =
    let e : length (take n bytes) ≡ n = omega (arith, length-take n bytes) in
    let next : w ≡ (b.writer_index + n) % b.capacity = ap (λ k. k % b.capacity) (omega arith) in
    let x = extended_lem b.writer_index (take n bytes) n w v refl e pos free room next in
    (extended b b.writer_index (take n bytes) n w, ground (arith, x.placed.writer_in), x, next)
  where
    w : ℕ
    w = add64 b.writer_index n % b.capacity

Extends-Wrote :
    {b b' : CircularBuffer} (xs ys zs : List ℕ) {r : Option (Bool × CircularBuffer)}
    → Extends b b' xs
    → Wrote b' ys r
    → zs ≡ xs ++ ys
    → Wrote b zs r
Extends-Wrote {b} xs ys zs x (b'', ran, valid, holds, same) e =
    (b'', ran, valid, rw (holds, x.holds, e) (append_assoc (contents b) xs ys), same ∙ x.same)

-- What follows the bytes that went to the end: all is written, or the writer stands at 0.
write_rest_lem :
    {b b' : CircularBuffer} (bytes : List ℕ) (size n : ℕ)
    → Extends b b' (take n bytes)
    → length (take n bytes) ≡ n
    → 0 < n
    → n ≤ size
    → size - n ≤ b'.free_space
    → size ≤ length bytes
    → size < 2 ^ 63
    → (n < size → b'.writer_index ≡ 0)
    → Wrote b
        (take size bytes)
        (if ltb n size then write_at_begin b' (drop n bytes) (sub64 size n) else wrote b')
write_rest_lem {b} {b'} bytes size n x e pos le free have small turned =
    elim (Bool-cases (ltb n size)) [
      | inl more ↦
          let less : n < size = omega tests in
          let rest : sub64 size n ≡ size - n = omega arith in
          rw (more, rest)
            (Extends-Wrote _ _ _ x
              (write_at_begin_lem (drop n bytes) (size - n) x.placed (turned less) (omega arith)
                free (omega (arith, length-drop n bytes)))
              (take_split n size bytes le))
      | inr done ↦
          let all : n ≡ size = omega tests in
          rw done (subst (λ k. Wrote b (take k bytes) (wrote b')) all (wrote-Wrote x (omega arith)))
    ]

-- Both halves, when the writer does not stand below the reader.
write_round_lem :
    {b : CircularBuffer} (bytes : List ℕ) (size : ℕ)
    → IsPlaced b
    → b.reader_index ≤ b.writer_index
    → 0 < size
    → size ≤ b.free_space
    → size ≤ length bytes
    → Wrote b (take size bytes) (write_round b bytes size)
unfolding write_round
write_round_lem {b} bytes size v low pos free have =
    let (b', ran, x, w) =
      write_at_end_lem bytes n v (omega (arith, v.writer_in, v.small)) (omega arith) (omega arith)
        (omega (arith, v.writer_in, v.small)) in
    let e : length (take n bytes) ≡ n = omega (arith, length-take n bytes) in
    let test : leb b.writer_index b.capacity ≡ true = omega (tests, v.writer_in) in
    rw (test, ran, write_round)
      (write_rest_lem bytes size n x e (omega (arith, v.writer_in, v.small)) (omega arith)
        (omega (arith, x.placed.sizes, v.sizes, x.same, x.grown)) have
        (omega (arith, v.sizes, v.small))
        (λ less.
          w ∙ ap (λ k. k % b.capacity) (omega (arith, v.small, v.writer_in)) ∙ mod_self b.capacity))
  where
    n : ℕ
    n = min size (sub64 b.capacity b.writer_index)

-- A buffer after a call that returned `ok`, against the queue that it should hold.
abbrev pub Holds : CircularBuffer → Bool × List ℕ → Option (Bool × CircularBuffer) → Type 0
Holds b (ok, q) r =
    (b' : CircularBuffer) × (r ≡ some (ok, b'))
    × IsValid b'
    × (contents b' ≡ q)
    × (b'.capacity ≡ b.capacity)

accepted_lem :
    {b : CircularBuffer} (bytes : List ℕ) (size : ℕ)
    → IsPlaced b
    → 0 < size
    → size ≤ b.free_space
    → size ≤ length bytes
    → Wrote b (take size bytes) (
        if ltb b.writer_index b.reader_index
        then write_block b bytes size
        else write_round b bytes size)
accepted_lem {b} bytes size v pos free have =
    elim (Bool-cases (ltb b.writer_index b.reader_index)) [
      | inl low ↦
          let less : b.writer_index < b.reader_index = omega tests in
          rw low (
            write_block_lem bytes size v pos free have
              (omega (arith, v.distance, v.sizes, v.reader_in)))
      | inr high ↦ rw high (write_round_lem bytes size v (omega tests) pos free have)
    ]

-- `writeData` does what the bounded queue does with the block: it returns the same answer, no
-- `assert` fails, and the buffer holds the queue's new contents and is valid again. The block is
-- in memory (`size` bytes from the pointer on), and the buffer is valid.
pub write_data_refines :
    {b : CircularBuffer} (bytes : List ℕ) (size : ℕ)
    → IsValid b
    → size ≤ length bytes
    → Holds b (offer b.capacity (contents b) (take size bytes)) (write_data b bytes size)
unfolding write_data offer
write_data_refines {b} bytes size v have =
    let n : length (contents b) ≡ b.content_size = length-contents v.placed in
    let e : length (take size bytes) ≡ size = omega (arith, length-take size bytes) in
    let room : b.capacity - b.content_size ≡ b.free_space = omega (arith, v.placed.sizes) in
    rw (n, e, room)
      (elim (Bool-cases (ltb b.free_space size || ltb size 1)) [
        | inl full ↦ rw full (b, refl, v, refl, refl)
        | inr fits ↦ rw fits (accepted_lem bytes size v.placed (ground arith) (ground arith) have)
      ])
