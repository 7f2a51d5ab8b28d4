-- ===== src/Bus/RingBuffer/Blocks.antt =====
-- What the `memcpy`s of the ring do to the window that it holds.
use simplx.Base.{
  ℕ, ◌+◌, ◌-◌, ◌^◌, ◌≤◌, ◌<◌, ◌≡◌, ◌⊎◌, ◌∙◌, List, ◌++◌, arith, length, add64, sub64, ltb, tests,
  window, Bool-cases, inl, inr, take, drop, get_elem?_ext, get_elem?-append, get_elem?-take,
  get_elem?-slice, get_elem?-window, window-copy_to, window-copy_to_twice, window-drop, slice,
  length-take, length-slice, length-copy_to, take-take, drop-take,
}
use simplx.Bus.RingBuffer.{advance, copy_in, copy_out}
use simplx.Bus.RingBuffer.Inv.{advance_lem}

module _ {A : Type 0} (array : List A) (m : ℕ) (small : m < 2 ^ 63)
    (storage : length array ≡ m) where
  pub length-copy_in : (w n : ℕ) (xs : List A) → length (copy_in array w xs n m) ≡ m
  unfolding copy_in
  length-copy_in w n xs = elim (Bool-cases (ltb m (add64 w n))) [
    | inl two ↦ rw two (length-copy_to _ _ _ ∙ length-copy_to _ _ _ ∙ storage)
    | inr one ↦ rw one (length-copy_to _ _ _ ∙ storage)
  ]

  -- The entries copied in stand behind a window that ends at the writer.
  pub window-copy_in :
      (at count w n : ℕ) (xs : List A)
      → at < m
      → w < m
      → count + n < m
      → n ≤ length xs
      → (at + count ≡ w) ⊎ (at + count ≡ w + m)
      → window (copy_in array w xs n m) at (count + n) ≡ window array at count ++ take n xs
  unfolding copy_in
  window-copy_in at count w n xs ha hw room le next =
      let e : length (take n xs) ≡ n = omega (arith, length-take n xs) in
      let next' : (at + count ≡ w) ⊎ (at + count ≡ w + length array) = ground arith in
      let c0 : sub64 m w ≡ m - w = omega arith in
      elim (Bool-cases (ltb m (add64 w n))) [
        | inl two ↦
            let over : m < w + n = omega tests in
            let c1 : sub64 n (m - w) ≡ n - (m - w) = omega arith in
            let both =
              window-copy_to_twice array (take n xs) at count w (m - w) (omega arith) (omega arith)
                (omega arith) (omega arith) next' in
            rw (two, c0, c1)
              (rw (take-take (m - w) n xs (omega arith), drop-take (m - w) n xs, e) at both)
        | inr one ↦
            let within : w + n ≤ m = omega tests in
            rw one (
              rw e at (
                window-copy_to array (take n xs) at count w (omega arith) (omega arith)
                  (omega arith) next'))
      ]

  -- The entries copied out are the first of a window that begins at the reader.
  pub copy_out-take :
      (at count n : ℕ)
      → at < m
      → count < m
      → n ≤ count
      → copy_out array at n m ≡ take n (window array at count)
  unfolding copy_out
  copy_out-take at count n ha hc le =
      let c0 : sub64 m at ≡ m - at = omega arith in
      elim (Bool-cases (ltb m (add64 at n))) [
        | inl two ↦
            let over : m < at + n = omega tests in
            let c1 : sub64 n (m - at) ≡ n - (m - at) = omega arith in
            rw (two, c0, c1)
              (get_elem?_ext _ _ λ i. ground (
                arith,
                get_elem?-append (slice array at (m - at)) (slice array 0 (n - (m - at))) i,
                length-slice array at (m - at),
                get_elem?-slice array at (m - at) i,
                get_elem?-slice array 0 (n - (m - at)) (i - (m - at)),
                get_elem?-take n (window array at count) i,
                get_elem?-window array at count i,
              ))
        | inr one ↦
            let within : at + n ≤ m = omega tests in
            rw one (
              get_elem?_ext _ _ λ i. ground (
                arith,
                get_elem?-slice array at n i,
                get_elem?-take n (window array at count) i,
                get_elem?-window array at count i,
              ))
      ]

  -- The window that begins after them is the rest.
  pub window-advance :
      (at count n : ℕ)
      → at < m
      → count < m
      → n ≤ count
      → window array (advance at n m) (count - n) ≡ drop n (window array at count)
  window-advance at count n ha hc le =
      window-drop array array at (advance at n m) count n le
        λ i h. ground (arith, advance_lem at n m small ha (omega arith))
