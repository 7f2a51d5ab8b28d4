-- ===== src/Connector/CircularBuffer/Read.antt =====
-- `readData` shows the contents as one block, from a copy that is renewed after each change.
use simplx.Base.{
  get_elem?-window, window_zero, window, ℕ, ◌+◌, ◌-◌, ◌≤◌, ◌<◌, ◌≡◌, ◌⊎◌, inl, inr, true, false,
  List, Option, some, arith, min, ltb, ◌==◌, ==_iff, if◌then◌else◌, length, take, length-copy_to,
  copy_to, get_elem?_ext, get_elem?-take, get_elem?-slice, slice, length-slice, get_elem?-copy_to,
  sub64, Bool-cases, ap, sym, subst, refl, ◌∙◌, tests,
}
use simplx.Connector.CircularBuffer.{CircularBuffer, copy_data, read_data}
use simplx.Connector.CircularBuffer.Inv.{IsPlaced, IsValid}
use simplx.Connector.CircularBuffer.Contents.{contents, length-contents}

-- The copy that `readData` returns is right, or marked as stale.
abbrev pub IsFresh : CircularBuffer → Type 0
IsFresh b = (b.new_data_flag ≡ true) ⊎ (take b.content_size b.read_buffer ≡ contents b)

-- The data is one block.
take-copy_block :
    (buf rb : List ℕ) (at count : ℕ)
    → at + count ≤ length buf
    → count ≤ length rb
    → take count (copy_to rb 0 (slice buf at count)) ≡ window buf at count
take-copy_block buf rb at count h k = get_elem?_ext _ _ λ i. ground (
  arith,
  get_elem?-take count (copy_to rb 0 (slice buf at count)) i,
  length-slice buf at count,
  get_elem?-copy_to rb 0 (slice buf at count) i,
  get_elem?-slice buf at count i,
  get_elem?-window buf at count i,
)

-- The data is two blocks: `n` bytes up to the end of the array, and the rest from its start.
take-copy_blocks :
    (buf rb : List ℕ) (at count n : ℕ)
    → at + n ≡ length buf
    → n ≤ count
    → count ≤ length rb
    → count ≤ length buf
    → take count (copy_to (copy_to rb 0 (slice buf at n)) n (slice buf 0 (count - n)))
      ≡ window buf at count
take-copy_blocks buf rb at count n h k room fits = get_elem?_ext _ _ λ i. ground (
  arith,
  get_elem?-take count (copy_to (copy_to rb 0 (slice buf at n)) n (slice buf 0 (count - n))) i,
  length-slice buf at n,
  length-slice buf 0 (count - n),
  length-copy_to rb 0 (slice buf at n),
  get_elem?-copy_to (copy_to rb 0 (slice buf at n)) n (slice buf 0 (count - n)) i,
  get_elem?-copy_to rb 0 (slice buf at n) i,
  get_elem?-slice buf at n i,
  get_elem?-slice buf 0 (count - n) (i - n),
  get_elem?-window buf at count i,
)

-- `copyData` changes the copy only, and makes it right.
abbrev Copied : CircularBuffer → Option CircularBuffer → Type 0
Copied b r =
    (rb : List ℕ) × (r ≡ some (record b { read_buffer = rb }))
    × (length rb ≡ length b.read_buffer)
    × (take b.content_size rb ≡ contents b)

copy_round_lem :
    {b : CircularBuffer} (n : ℕ)
    → IsPlaced b
    → n ≡ min b.content_size (b.capacity - b.reader_index)
    → 0 < b.content_size
    → b.writer_index ≤ b.reader_index
    → let first = copy_to b.read_buffer 0 (slice b.buffer b.reader_index n) in
      Copied b (
        if n == b.content_size
        then some (record b { read_buffer = first })
        else some (record b {
          read_buffer = copy_to first n (slice b.buffer 0 (sub64 b.content_size n));
        }))
copy_round_lem {b} n v e pos high = elim (Bool-cases (n == b.content_size)) [
  | inl all ↦
      let whole : n ≡ b.content_size = (==_iff _ _).0 all in
      rw all (
        _,
        refl,
        length-copy_to _ _ _,
        subst
            (λ k.
              take b.content_size (copy_to b.read_buffer 0 (slice b.buffer b.reader_index k))
              ≡ contents b)
            (sym whole)
            (take-copy_block b.buffer b.read_buffer b.reader_index b.content_size (omega arith)
              (omega arith)),
      )
  | inr some_left ↦
      let less : n < b.content_size = ground arith in
      let rest : sub64 b.content_size n ≡ b.content_size - n = omega (arith, v.sizes, v.small) in
      rw (some_left, rest)
        (
          _,
          refl,
          length-copy_to _ _ _ ∙ length-copy_to _ _ _,
          take-copy_blocks b.buffer b.read_buffer b.reader_index b.content_size n (omega arith)
              (omega arith) (omega arith) (omega arith),
        )
]

copy_block_lem :
    {b : CircularBuffer}
    → IsPlaced b
    → b.reader_index < b.writer_index
    → Copied b (
        some (record b {
          read_buffer = copy_to b.read_buffer 0 (slice b.buffer b.reader_index b.content_size);
        }))
copy_block_lem {b} v low = (
  _,
  refl,
  length-copy_to _ _ _,
  take-copy_block b.buffer b.read_buffer b.reader_index b.content_size
      (omega (arith, v.distance, v.writer_in, v.storage, v.sizes)) (omega arith),
)

copy_data_lem : {b : CircularBuffer} → IsValid b → Copied b (copy_data b)
unfolding copy_data
copy_data_lem {b} v = elim (Bool-cases b.empty_flag) [
  | inl nothing ↦
      let none_held : b.content_size ≡ 0 = ground arith in
      (
        b.read_buffer,
        ground arith,
        refl,
        subst (λ k. take k b.read_buffer ≡ window b.buffer b.reader_index k) (sym none_held)
            (sym (window_zero b.buffer b.reader_index)),
      )
  | inr held ↦ elim (Bool-cases (ltb b.reader_index b.writer_index)) [
    | inl low ↦
        let (rb, ran, same, right) = copy_block_lem v.placed (omega tests) in
        (rb, ground arith, same, right)
    | inr high ↦
        let room : sub64 b.capacity b.reader_index ≡ b.capacity - b.reader_index =
          omega (arith, v.placed.reader_in, v.placed.small) in
        let (rb, ran, same, right) =
          copy_round_lem (min b.content_size (sub64 b.capacity b.reader_index)) v.placed
            (ap (min b.content_size) room) (ground arith) (omega tests) in
        (rb, ground arith, same, right)
  ]
]

-- `readData` returns the size of the contents, and a pointer to as many bytes that are the
-- contents in order. No `assert` fails; the contents stay, and the buffer stays valid, with its
-- copy right. The buffer is valid, and its copy is right or marked as stale.
pub read_data_refines :
    {b : CircularBuffer}
    → IsValid b
    → IsFresh b
    → (p : List ℕ) × (n : ℕ) × (b' : CircularBuffer) × (read_data b ≡ some ((p, n), b'))
      × (take n p ≡ contents b)
      × (n ≡ length (contents b))
      × IsValid b'
      × IsFresh b'
      × (contents b' ≡ contents b)
      × (b'.capacity ≡ b.capacity)
unfolding read_data
read_data_refines {b} v f =
    let n = sym (length-contents v.placed) in
    elim (Bool-cases b.new_data_flag) [
      | inl changed ↦
          let (rb, ran, same, right) = copy_data_lem v in
          (
            rb,
            b.content_size,
            record b { read_buffer = rb; new_data_flag = false },
            ground (arith, ran),
            right,
            n,
            ground arith,
            inr right,
            refl,
            refl,
          )
      | inr still ↦
          (b.read_buffer, b.content_size, b, ground arith, ground arith, n, v, f, refl, refl)
    ]
