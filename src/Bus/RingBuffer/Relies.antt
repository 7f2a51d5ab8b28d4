-- ===== src/Bus/RingBuffer/Relies.antt =====
-- What each side of the ring relies on while the other moves on.
use simplx.Base.{
  ℕ, ◌+◌, ◌-◌, ◌≤◌, ◌<◌, ◌≡◌, ap, sym, ◌∙◌, List, [], ◌∷◌, ◌++◌, arith, length, window, take, drop,
  take-append_of_le, drop-append_of_le,
}
use simplx.Bus.RingBuffer.{RingBuffer, advance}
use simplx.Bus.RingBuffer.Inv.{IsValid, distance, contents}
use simplx.Bus.RingBuffer.Blocks.{window-advance}
use simplx.Bus.RingBuffer.Calls.{length-contents}
use simplx.Bus.RingBuffer.Threads.{Producer, Consumer, System}

module _ {A : Type 0} where
  abbrev pub gap : RingBuffer A → ℕ
  gap r = distance r.write_index r.read_index r.max_size

  -- What the producer relies on while the consumer moves on.
  abbrev pub ProducerIsSafe : RingBuffer A → Producer A → Type 0
  ProducerIsSafe r Producer.idle = Unit {0}
  ProducerIsSafe r (Producer.accepted entry) = gap r + 1 < r.max_size
  ProducerIsSafe r (Producer.placed entry) =
      (gap r + 1 < r.max_size)
      × (window r.array r.read_index (gap r + 1) ≡ contents r ++ entry ∷ [])
  ProducerIsSafe r (Producer.counted input n) = (n ≤ length input) × (gap r + n < r.max_size)
  ProducerIsSafe r (Producer.copied input n) =
      (n ≤ length input)
      × (gap r + n < r.max_size)
      × (window r.array r.read_index (gap r + n) ≡ contents r ++ take n input)

  -- What the consumer relies on while the producer moves on.
  abbrev pub ConsumerIsSafe : RingBuffer A → Consumer A → Type 0
  ConsumerIsSafe r Consumer.idle = Unit {0}
  ConsumerIsSafe r (Consumer.counted n) = n ≤ gap r
  ConsumerIsSafe r (Consumer.copied output n) = (n ≤ gap r) × (output ≡ take n (contents r))

  pub record Inv (s : System A) : Type 0 where
    pub valid : IsValid s.ring
    pub history : s.sent ≡ s.received ++ contents s.ring
    pub producing : ProducerIsSafe s.ring s.producer
    pub consuming : ConsumerIsSafe s.ring s.consumer

  pub same_ConsumerIsSafe :
      (r r' : RingBuffer A) (c : Consumer A)
      → contents r ≡ contents r'
      → gap r ≡ gap r'
      → ConsumerIsSafe r c
      → ConsumerIsSafe r' c
  same_ConsumerIsSafe r r' Consumer.idle e g safe = tt
  same_ConsumerIsSafe r r' (Consumer.counted n) e g safe = omega arith
  same_ConsumerIsSafe r r' (Consumer.copied output n) e g safe =
      (omega arith, safe.1 ∙ ap (take n) e)

  -- The producer has stored its index.
  pub more_ConsumerIsSafe :
      (r r' : RingBuffer A) (c : Consumer A) (n : ℕ) (xs : List A)
      → gap r' ≡ gap r + n
      → contents r' ≡ contents r ++ xs
      → length (contents r) ≡ gap r
      → ConsumerIsSafe r c
      → ConsumerIsSafe r' c
  more_ConsumerIsSafe r r' Consumer.idle n xs g e len safe = tt
  more_ConsumerIsSafe r r' (Consumer.counted k) n xs g e len safe = omega arith
  more_ConsumerIsSafe r r' (Consumer.copied output k) n xs g e len safe = (
    omega arith,
    safe.1 ∙ sym (take-append_of_le k (contents r) xs (omega arith)) ∙ ap (take k) (sym e),
  )

  -- The consumer has stored its index: what the producer copied stands behind what is left.
  less_copied :
      {r : RingBuffer A} (input : List A) (k n : ℕ)
      → IsValid r
      → let r' = record r { read_index = advance r.read_index n r.max_size } in
        gap r' ≡ gap r - n
        → contents r' ≡ drop n (contents r)
        → n ≤ gap r
        → gap r + k < r.max_size
        → window r.array r.read_index (gap r + k) ≡ contents r ++ take k input
        → (gap r' + k < r'.max_size)
          × (window r'.array r'.read_index (gap r' + k) ≡ contents r' ++ take k input)
  less_copied {r} input k n v g e le room holds =
      let a = advance r.read_index n r.max_size in
      let size : gap (record r { read_index = a }) + k ≡ gap r + k - n = omega arith in
      (
        omega arith,
        ap (window r.array a) size
            ∙ window-advance r.array r.max_size v.small v.storage r.read_index (gap r + k) n
                v.read_in room (omega arith)
            ∙ ap (drop n) holds
            ∙ drop-append_of_le n (contents r) (take k input) (omega (arith, length-contents v))
            ∙ ap (λ q. q ++ take k input) (sym e),
      )

  pub less_ProducerIsSafe :
      {r : RingBuffer A} (p : Producer A) (n : ℕ)
      → IsValid r
      → let r' = record r { read_index = advance r.read_index n r.max_size } in
        gap r' ≡ gap r - n
        → contents r' ≡ drop n (contents r)
        → n ≤ gap r
        → ProducerIsSafe r p
        → ProducerIsSafe r' p
  less_ProducerIsSafe Producer.idle n v g e le safe = tt
  less_ProducerIsSafe (Producer.accepted entry) n v g e le safe = omega arith
  less_ProducerIsSafe {r} (Producer.placed entry) n v g e le safe =
      less_copied {r = r} (entry ∷ []) 1 n v g e le safe.0 safe.1
  less_ProducerIsSafe (Producer.counted input k) n v g e le safe = (safe.0, omega arith)
  less_ProducerIsSafe {r} (Producer.copied input k) n v g e le safe =
      let (room, holds) = less_copied {r = r} input k n v g e le safe.1 safe.2 in
      (safe.0, room, holds)
