-- ===== src/Bus/RingBuffer/Inv.antt =====
-- The invariant of the ring, what it holds, and the arithmetic of its indices.
use simplx.Base.{
  ℕ, zero, suc, ◌+◌, ◌-◌, ◌%◌, ◌^◌, ◌≤◌, ◌<◌, ◌≡◌, ◌⊎◌, sym, ◌∙◌, List, arith, length, add64, ltb,
  leb, tests, if◌then◌else◌, window, Bool-cases, inl, inr, ◌==◌, not, mod_of_le,
}
use native.Mathlib.Nat.{mod-eq_of_lt, mod-eq-sub-mod}
use simplx.Bus.RingBuffer.{RingBuffer, reduce, next_index, read_available, write_available, advance}

-- Both indices are in the array. An object holds fewer than 2^63 bytes, so no index sum wraps.
pub record IsValid {A : Type 0} (r : RingBuffer A) : Type 0 where
  pub some_room : 0 < r.max_size
  pub small : r.max_size < 2 ^ 63
  pub storage : length r.array ≡ r.max_size
  pub write_in : r.write_index < r.max_size
  pub read_in : r.read_index < r.max_size

-- The distance from one index to another, round the array.
abbrev pub distance : ℕ → ℕ → ℕ → ℕ
distance write_index read_index max_size =
    if leb read_index write_index
    then write_index - read_index
    else write_index + max_size - read_index

abbrev pub contents : {A : Type 0} → RingBuffer A → List A
contents r = window r.array r.read_index (distance r.write_index r.read_index r.max_size)

reduce-mod :
    (fuel max_size ret : ℕ) → 0 < max_size → ret < fuel → reduce fuel max_size ret ≡ ret % max_size
unfolding reduce
reduce-mod zero max_size ret p h = absurd (omega arith)
reduce-mod (suc fuel) max_size ret p h = elim (Bool-cases (leb max_size ret)) [
  | inl big ↦
      let le : max_size ≤ ret = omega tests in
      rw big (reduce-mod fuel max_size (ret - max_size) p (omega arith) ∙ sym (mod-eq-sub-mod le))
  | inr small ↦ rw small (sym (mod-eq_of_lt (ground arith)))
]

-- The loop of `next_index` ends, and its result is the remainder of `arg + 1`.
pub next_index-mod :
    (arg max_size : ℕ) → 0 < max_size → next_index arg max_size ≡ add64 arg 1 % max_size
unfolding next_index
next_index-mod arg max_size h =
    reduce-mod (suc (add64 arg 1)) max_size (add64 arg 1) h (omega arith)

module _ (w r m : ℕ) (small : m < 2 ^ 63) (hw : w < m) (hr : r < m) where
  pub read_available-distance : read_available w r m ≡ distance w r m
  unfolding read_available
  read_available-distance = ground arith

  pub distance_lt : distance w r m < m
  distance_lt = ground arith

  -- One cell stays free.
  pub write_available-distance : write_available w r m ≡ m - 1 - distance w r m
  unfolding write_available
  write_available-distance = ground arith

  -- The writer stands `distance` entries after the reader.
  pub distance_next : (r + distance w r m ≡ w) ⊎ (r + distance w r m ≡ w + m)
  distance_next = ground arith

-- The index after `n` entries.
module _ (i n m : ℕ) (small : m < 2 ^ 63) (hi : i < m) (hn : n < m) where
  pub advance_lem : advance i n m ≡ (if ltb (i + n) m then i + n else i + n - m)
  unfolding advance
  advance_lem = ground arith

  pub advance_lt : advance i n m < m
  advance_lt = ground (arith, advance_lem)

-- Entries written move the writer away from the reader, entries read move the reader towards it.
pub distance-advance :
    (w r n m : ℕ)
    → m < 2 ^ 63
    → w < m
    → r < m
    → distance w r m + n < m
    → distance (advance w n m) r m ≡ distance w r m + n
distance-advance w r n m small hw hr room = ground (arith, advance_lem w n m)

pub distance-advance_right :
    (w r n m : ℕ)
    → m < 2 ^ 63
    → w < m
    → r < m
    → n ≤ distance w r m
    → distance w (advance r n m) m ≡ distance w r m - n
distance-advance_right w r n m small hw hr le = ground (arith, advance_lem r n m)

pub next_index-advance : (w m : ℕ) → w < m → m < 2 ^ 63 → next_index w m ≡ advance w 1 m
unfolding advance
next_index-advance w m h small =
    next_index-mod w m (omega arith) ∙ ground (arith, mod_of_le (w + 1) m)

-- The next index is the reader's exactly when one cell only is free.
pub full_test :
    (w r m : ℕ)
    → w < m
    → r < m
    → m < 2 ^ 63
    → (advance w 1 m == r) ≡ not (ltb (distance w r m) (m - 1))
unfolding advance
full_test w r m hw hr small = ground arith
