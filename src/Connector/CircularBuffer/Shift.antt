-- ===== src/Connector/CircularBuffer/Shift.antt =====
-- `shiftBuffer` removes bytes from the front, and `clear` all of them.
use simplx.Base.{
  window-drop, window_zero, ℕ, ◌+◌, ◌-◌, ◌≤◌, ◌<◌, ◌≡◌, ◌⊎◌, inl, inr, ◌&&◌, ◌||◌, true, false,
  List, [], Option, some, arith, min, ltb, leb, ◌==◌, if◌then◌else◌, length, drop, length-copy_to,
  copy_to, get_elem?-copy_to, replicate, length-replicate, add64, sub64, Bool-cases, ap, sym, subst,
  ◌^◌, refl, ◌∙◌, ==_iff, drop_all, tests, drop-drop,
}
use simplx.Connector.CircularBuffer.{
  CircularBuffer, clear, shift_block, shift_at_begin, shift_round, shift_finish, shift_buffer,
}
use simplx.Connector.CircularBuffer.Inv.{IsPlaced, IsValid}
use simplx.Connector.CircularBuffer.Contents.{contents, length-contents}

pub clear-IsValid : {b : CircularBuffer} → IsPlaced b → IsValid (clear b)
unfolding clear
clear-IsValid {b} v = ground (
  arith,
  length-copy_to b.buffer 0 (replicate b.capacity 0),
  length-copy_to b.read_buffer 0 (replicate b.capacity 0),
)

pub contents-clear : (b : CircularBuffer) → contents (clear b) ≡ []
unfolding clear
contents-clear b = window_zero _ 0

-- The front of the buffer after a removal of `n` bytes: zeroes at `at`, and the reader at `r`.
abbrev shortened : CircularBuffer → ℕ → ℕ → ℕ → CircularBuffer
shortened b at n r = record b {
  buffer = copy_to b.buffer at (replicate n 0);
  reader_index = r;
  content_size = sub64 b.content_size n;
  free_space = add64 b.free_space n;
}

-- The cleared bytes are none of those that stay.
contents-shortened :
    {b : CircularBuffer} (at n r : ℕ)
    → IsPlaced b
    → n < b.content_size
    → ((r ≡ b.reader_index + n) × (r ≤ b.capacity)) ⊎ ((b.reader_index ≡ b.capacity) × (r ≡ n))
    → ((at ≡ 0)
        × (n ≤ r)
        × ((r + (b.content_size - n) ≤ b.capacity) ⊎ (b.reader_index ≡ b.capacity)))
      ⊎ ((at ≡ b.reader_index) × (r ≡ b.reader_index + n))
    → contents (shortened b at n r) ≡ drop n (contents b)
contents-shortened {b} at n r v some_left moved apart =
    let c : sub64 b.content_size n ≡ b.content_size - n = omega (arith, v.sizes, v.small) in
    rw c (
      window-drop b.buffer (copy_to b.buffer at (replicate n 0)) b.reader_index r b.content_size n
        (omega arith)
        λ i h. ground (
          arith,
          length-copy_to b.buffer at (replicate n 0),
          length-replicate {A = ℕ} n 0,
          get_elem?-copy_to b.buffer at (replicate n 0) (r + i),
          get_elem?-copy_to b.buffer at (replicate n 0) (r + i - length b.buffer),
        ))

shortened-IsPlaced :
    {b : CircularBuffer} (at n r : ℕ)
    → IsPlaced b
    → n < b.content_size
    → ((r ≡ b.reader_index + n) × (r ≤ b.capacity)) ⊎ ((b.reader_index ≡ b.capacity) × (r ≡ n))
    → IsPlaced (shortened b at n r)
shortened-IsPlaced {b} at n r v some_left moved =
    ground (arith, length-copy_to b.buffer at (replicate n 0))

-- A removal of `n` bytes, with some left, has been done.
record Drops (b b' : CircularBuffer) (n : ℕ) : Type 0 where
  placed : IsPlaced b'
  holds : contents b' ≡ drop n (contents b)
  left : b'.content_size + n ≡ b.content_size
  some_left : 0 < b'.content_size
  flag : b'.empty_flag ≡ b.empty_flag
  same : b'.capacity ≡ b.capacity

shortened_lem :
    {b : CircularBuffer} (at n r : ℕ)
    → IsPlaced b
    → n < b.content_size
    → ((r ≡ b.reader_index + n) × (r ≤ b.capacity)) ⊎ ((b.reader_index ≡ b.capacity) × (r ≡ n))
    → ((at ≡ 0)
        × (n ≤ r)
        × ((r + (b.content_size - n) ≤ b.capacity) ⊎ (b.reader_index ≡ b.capacity)))
      ⊎ ((at ≡ b.reader_index) × (r ≡ b.reader_index + n))
    → Drops b (shortened b at n r) n
shortened_lem {b} at n r v some_left moved apart = record {
  placed = shortened-IsPlaced at n r v some_left moved;
  holds = contents-shortened at n r v some_left moved apart;
  left = omega (arith, v.sizes, v.small);
  some_left = omega (arith, v.sizes, v.small);
  flag = refl;
  same = refl;
}

abbrev Dropped : CircularBuffer → ℕ → Option CircularBuffer → Type 0
Dropped b n r = (b' : CircularBuffer) × (r ≡ some b') × Drops b b' n

shift_block_lem :
    {b : CircularBuffer} (size : ℕ)
    → IsPlaced b
    → size < b.content_size
    → b.reader_index < b.writer_index
    → Dropped b size (shift_block b size)
unfolding shift_block
shift_block_lem {b} size v h low = (
  shortened b 0 size (add64 b.reader_index size),
  ground (arith, v.distance),
  shortened_lem 0 size (add64 b.reader_index size) v h (ground (arith, v.distance))
      (ground (arith, v.distance)),
)

Drops-trans :
    {b b' b'' : CircularBuffer} (m n k : ℕ)
    → Drops b b' m
    → Drops b' b'' n
    → m + n ≡ k
    → Drops b b'' k
Drops-trans {b} m n k x y e = record {
  placed = y.placed;
  holds =
      y.holds ∙ ap (drop n) x.holds ∙ drop-drop n m (contents b) ∙ ap (λ i. drop i (contents b)) e;
  left = omega (arith, x.left, y.left);
  some_left = y.some_left;
  flag = y.flag ∙ x.flag;
  same = y.same ∙ x.same;
}

shift_at_begin_lem :
    {b : CircularBuffer} (n : ℕ)
    → IsPlaced b
    → n < b.content_size
    → b.reader_index ≡ b.capacity
    → Dropped b n (shift_at_begin b n)
unfolding shift_at_begin
shift_at_begin_lem {b} n v h last =
    (shortened b 0 n n, ground arith, shortened_lem 0 n n v h (ground arith) (ground arith))

-- What follows the removal up to the end of the array.
shift_rest_lem :
    {b b' : CircularBuffer} (n size : ℕ)
    → Drops b b' n
    → n ≤ size
    → size < b.content_size
    → size < 2 ^ 63
    → (n < size → b'.reader_index ≡ b'.capacity)
    → Dropped b size (if n == size then some b' else shift_at_begin b' (sub64 size n))
shift_rest_lem {b} {b'} n size x le h small turned = elim (Bool-cases (n == size)) [
  | inl e ↦ rw e (b', refl, Drops-trans-zero x ((==_iff n size).0 e))
  | inr ne ↦
      let less : n < size = ground arith in
      let rest : sub64 size n ≡ size - n = omega arith in
      let (b'', ran, y) =
        shift_at_begin_lem (size - n) x.placed (omega (arith, x.left)) (turned less) in
      rw (ne, rest) (b'', ran, Drops-trans n (size - n) size x y (omega arith))
]
  where
    Drops-trans-zero : {b b' : CircularBuffer} {m k : ℕ} → Drops b b' m → m ≡ k → Drops b b' k
    Drops-trans-zero {b} {b'} x e = subst (Drops b b') e x

shift_round_lem :
    {b : CircularBuffer} (size : ℕ)
    → IsPlaced b
    → size < b.content_size
    → b.writer_index ≤ b.reader_index
    → Dropped b size (shift_round b size)
unfolding shift_round
shift_round_lem {b} size v h high =
    let x : Drops b (shortened b b.reader_index n r) n =
      shortened_lem b.reader_index n r v (omega arith) (omega (arith, v.reader_in, v.small))
        (omega (arith, v.reader_in, v.small)) in
    let test : leb r b.capacity ≡ true = omega (tests, x.placed.reader_in) in
    rw test (
      shift_rest_lem n size x (omega arith) h (omega (arith, v.sizes, v.small))
        (λ less. omega (arith, v.reader_in, v.small)))
  where
    n : ℕ
    n = min size (sub64 b.capacity b.reader_index)

    r : ℕ
    r = add64 b.reader_index n

-- The end of a removal that leaves some bytes: the indices stay.
shift_finish_lem :
    {b : CircularBuffer}
    → IsPlaced b
    → 0 < b.content_size
    → b.empty_flag ≡ false
    → IsValid (shift_finish b)
      × (contents (shift_finish b) ≡ contents b)
      × ((shift_finish b).capacity ≡ b.capacity)
unfolding shift_finish
shift_finish_lem {b} v h f =
    let left : (b.reader_index == b.writer_index && b.free_space == b.capacity) ≡ false =
      ground arith in
    rw left (ground (arith, length-copy_to b.read_buffer 0 (replicate b.capacity 0)), refl, refl)

dropped_lem :
    {b : CircularBuffer} (size : ℕ)
    → IsPlaced b
    → size < b.content_size
    → Dropped b size
        (if ltb b.reader_index b.writer_index then shift_block b size else shift_round b size)
dropped_lem {b} size v h = elim (Bool-cases (ltb b.reader_index b.writer_index)) [
  | inl low ↦ rw low (shift_block_lem size v h (omega tests))
  | inr high ↦ rw high (shift_round_lem size v h (omega tests))
]

-- A call returned a valid buffer that holds `q`.
abbrev pub Leaves : CircularBuffer → List ℕ → Option CircularBuffer → Type 0
Leaves b q r =
    (b' : CircularBuffer) × (r ≡ some b')
    × IsValid b'
    × (contents b' ≡ q)
    × (b'.capacity ≡ b.capacity)

finished_lem :
    {b b' : CircularBuffer} (size : ℕ)
    → Drops b b' size
    → b.empty_flag ≡ false
    → Leaves b (drop size (contents b)) (some (shift_finish b'))
finished_lem size x f =
    let (valid, holds, same) = shift_finish_lem x.placed x.some_left (x.flag ∙ f) in
    (_, refl, valid, holds ∙ x.holds, same ∙ x.same)

cleared_lem :
    {b : CircularBuffer} (size : ℕ)
    → IsPlaced b
    → size ≡ b.content_size
    → Leaves b (drop size (contents b)) (some (clear b))
unfolding clear
cleared_lem {b} size v e = (
  clear b,
  refl,
  clear-IsValid v,
  contents-clear b ∙ sym (drop_all size (contents b) (omega (arith, length-contents v))),
  refl,
)

-- `shiftBuffer(size)` drops the first `size` bytes of the contents and no other, no `assert` fails,
-- and the buffer is valid again. The buffer is valid and holds that many bytes.
pub shift_buffer_refines :
    {b : CircularBuffer} (size : ℕ)
    → IsValid b
    → size ≤ length (contents b)
    → Leaves b (drop size (contents b)) (shift_buffer b size)
unfolding shift_buffer
shift_buffer_refines {b} size v h =
    let n : length (contents b) ≡ b.content_size = length-contents v.placed in
    elim (Bool-cases (size == 0 || b.empty_flag)) [
      | inl idle ↦
          let none_gone : 0 ≡ size = ground arith in
          rw idle (b, refl, v, ap (λ k. drop k (contents b)) none_gone, refl)
      | inr busy ↦ rw busy (elim (Bool-cases (size == b.content_size)) [
        | inl all ↦ rw all (cleared_lem size v.placed ((==_iff size b.content_size).0 all))
        | inr some_left ↦
            let (b', ran, x) = dropped_lem size v.placed (ground arith) in
            rw (some_left, ran, shift_buffer) (finished_lem size x (ground arith))
      ])
    ]
