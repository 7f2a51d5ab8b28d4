-- ===== src/Bus/Channel/Publish.antt =====
-- The publisher's side of a channel.
use simplx.Base.{
  ℕ, ◌+◌, ◌-◌, ◌/◌, ◌%◌, ◌^◌, ◌≤◌, ◌<◌, ◌≡◌, ◌⊎◌, drop_all, refl, ap, sym, ◌∙◌, Bool, true, false,
  List, [], ◌∷◌, ◌++◌, arith, length, take, get_elem?, ltb, ◌==◌, if◌then◌else◌, sub64, tests,
  take_all, if_same, copy_to-take_self, set-get_elem?, Bool-cases, Option-cases, inl, inr,
  append-nil,
}
use simplx.Bus.Fifo
use simplx.Bus.RingBuffer.{RingBuffer, enqueue, enqueue_bulk}
use simplx.Bus.RingBuffer.Inv.{IsValid, contents, distance_lt}
use simplx.Bus.RingBuffer.Calls.{length-contents, capacity, enqueue_bulk_refines, enqueue_refines}
use simplx.Bus.Channel.{Channel, move_front, prepare, publish_one, publish_all, unsent}

module _ {P : Type 0} where
  -- Moved onto itself, the buffer stays as it is.
  move_front_self :
      (width : ℕ) (mix : P → P → ℕ → P) (buffer : List P) (bytes : ℕ)
      → ((p : P) (k : ℕ) → mix p p k ≡ p)
      → move_front width mix buffer 0 bytes ≡ buffer
  unfolding move_front
  move_front_self width mix buffer bytes same =
      let whole = bytes / width in
      let at : 0 + whole ≡ whole = omega arith in
      let moved = copy_to-take_self whole buffer in
      elim (Option-cases (get_elem? buffer whole)) [
        | inl out ↦ rw (at, out) (ground (arith, moved))
        | inr (p, e) ↦
            rw (at, e)
              (ground (arith, moved, same p (bytes % width), set-get_elem? buffer whole p e))
      ]

  unsent_none :
      (width : ℕ) (mix : P → P → ℕ → P) (buffer : List P)
      → length buffer < 2 ^ 63
      → unsent width mix buffer (length buffer) ≡ []
  unfolding unsent
  unsent_none width mix buffer few =
      let left : sub64 (length buffer) (length buffer) ≡ 0 = omega arith in rw left

  unsent_all :
      (width : ℕ) (mix : P → P → ℕ → P) (buffer : List P)
      → length buffer < 2 ^ 63
      → ((p : P) (k : ℕ) → mix p p k ≡ p)
      → unsent width mix buffer 0 ≡ buffer
  unfolding unsent
  unsent_all width mix buffer few same =
      let left : sub64 (length buffer) 0 ≡ length buffer = omega arith in
      rw
        (
          left,
          move_front_self width mix buffer (length buffer) same,
          if_same (length buffer == 0) buffer,
        )
        (take_all (length buffer) buffer (omega arith))

  length_le_capacity : {r : RingBuffer P} → IsValid r → length (contents r) ≤ capacity r
  length_le_capacity {r} v = omega (
    arith,
    length-contents v,
    distance_lt r.write_index r.read_index r.max_size v.small v.write_in v.read_in,
  )

  -- The bulk `enqueue<true>` of a whole vector.
  enqueue_all_lem :
      {r : RingBuffer P} (xs : List P)
      → IsValid r
      → ((length (contents r) + length xs ≤ capacity r)
          × ((enqueue_bulk true r xs (length xs)).0 ≡ length xs)
          × (contents (enqueue_bulk true r xs (length xs)).1 ≡ contents r ++ xs)
          × IsValid (enqueue_bulk true r xs (length xs)).1)
        ⊎ ((capacity r < length (contents r) + length xs)
            × ((enqueue_bulk true r xs (length xs)).0 ≡ 0)
            × (contents (enqueue_bulk true r xs (length xs)).1 ≡ contents r)
            × IsValid (enqueue_bulk true r xs (length xs)).1)
  enqueue_all_lem {r} xs v =
      let (got, holds, valid, _) = enqueue_bulk_refines true xs (length xs) v (omega arith) in
      let whole : take (length xs) xs ≡ xs = take_all (length xs) xs (omega arith) in
      let short = length_le_capacity v in
      let offered = ap (Fifo.offer true (capacity r) (contents r)) whole in
      elim (Bool-cases (ltb (capacity r - length (contents r)) (length xs))) [
        | inl full ↦
            let over : capacity r - length (contents r) < length xs = omega tests in
            let none_taken = offered ∙ Fifo.offer_full (capacity r) (contents r) xs full in
            inr
              (omega arith, got ∙ ap (λ p. p.0) none_taken, holds ∙ ap (λ p. p.1) none_taken, valid)
        | inr fits ↦
            let room : length xs ≤ capacity r - length (contents r) = omega tests in
            let all_taken = offered ∙ Fifo.offer_fits (capacity r) (contents r) xs fits in
            inl (omega arith, got ∙ ap (λ p. p.0) all_taken, holds ∙ ap (λ p. p.1) all_taken, valid)
      ]

  -- `publishAll` sends all that waits, or nothing. It sends if the ring has room for the whole of
  -- it: the call then answers 0, and all stands in the ring behind what was there, in order.
  -- Otherwise it answers how many pointers wait, and changes neither the contents of the ring nor
  -- what waits. The ring is valid before and after. Copying a byte block onto itself changes
  -- nothing (`mix`), and fewer than 2^63 pointers wait.
  pub publish_all_lem :
      (width : ℕ) (mix : P → P → ℕ → P) {c : Channel P}
      → IsValid c.ring
      → ((p : P) (k : ℕ) → mix p p k ≡ p)
      → length c.send_buffer < 2 ^ 63
      → let (left, c') = publish_all width mix c in
        IsValid c'.ring
        × (((length (contents c.ring) + length c.send_buffer ≤ capacity c.ring)
              × (left ≡ 0)
              × (contents c'.ring ≡ contents c.ring ++ c.send_buffer)
              × (c'.send_buffer ≡ []))
            ⊎ ((capacity c.ring < length (contents c.ring) + length c.send_buffer)
                × (left ≡ length c.send_buffer)
                × (contents c'.ring ≡ contents c.ring)
                × (c'.send_buffer ≡ c.send_buffer)))
  unfolding publish_all
  publish_all_lem width mix {c} v same few =
      let sent_cases = enqueue_all_lem c.send_buffer v in
      let short = length_le_capacity v in
      elim (Bool-cases (length c.send_buffer == 0)) [
        | inl nothing ↦
            let none_wait : length c.send_buffer ≤ 0 = ground arith in
            let e : c.send_buffer ≡ [] = drop_all 0 c.send_buffer none_wait in
            rw nothing (
              v,
              inl (
                omega arith,
                refl,
                sym (append-nil (contents c.ring)) ∙ ap (λ q. contents c.ring ++ q) (sym e),
                e,
              ),
            )
        | inr some_wait ↦ rw some_wait (elim sent_cases [
          | inl (fits, k, holds, valid) ↦
              let none_left : sub64 (length c.send_buffer) (length c.send_buffer) ≡ 0 =
                omega arith in
              rw (k, none_left, unsent_none width mix c.send_buffer few)
                (valid, inl (fits, refl, holds, refl))
          | inr (full, k, holds, valid) ↦
              let all_left : sub64 (length c.send_buffer) 0 ≡ length c.send_buffer = omega arith in
              rw (k, all_left, unsent_all width mix c.send_buffer few same)
                (valid, inr (full, refl, holds, refl))
        ])
      ]

  refused_lem :
      (c : Channel P) (r : RingBuffer P) (p : P) (store : Bool)
      → IsValid r
      → contents r ≡ contents c.ring
      → let c' = if store then prepare (record c { ring = r }) p else record c { ring = r } in
        IsValid c'.ring
        × (◌≡◌ {A = Bool} false false)
        × (contents c'.ring ≡ contents c.ring)
        × (c'.send_buffer ≡ (if store then c.send_buffer ++ (p ∷ []) else c.send_buffer))
  unfolding prepare
  refused_lem c r p true valid same = (valid, refl, same, refl)
  refused_lem c r p false valid same = (valid, refl, same, refl)

  -- `publishOne` answers whether the ring has room. If it has, the pointer goes into the ring,
  -- behind its contents, whatever waits to be sent, and what waits stays as it is. Otherwise the
  -- ring holds what it held, and the pointer goes behind all that waits if it is to be stored, and
  -- nowhere if not. The ring is valid before and after.
  pub publish_one_lem :
      (c : Channel P) (p : P) (store : Bool)
      → IsValid c.ring
      → let (sent, c') = publish_one c p store in
        IsValid c'.ring
        × (sent ≡ ltb (length (contents c.ring)) (capacity c.ring))
        × (contents c'.ring ≡ (if sent then contents c.ring ++ (p ∷ []) else contents c.ring))
        × (c'.send_buffer ≡ (
            if sent
            then c.send_buffer
            else (if store then c.send_buffer ++ (p ∷ []) else c.send_buffer)))
  unfolding publish_one prepare Fifo.offer_one
  publish_one_lem c p store v =
      let (sent, holds, valid, _) = enqueue_refines p v in
      elim (Bool-cases (ltb (length (contents c.ring)) (capacity c.ring))) [
        | inl fits ↦
            let went : (enqueue c.ring p).0 ≡ true = ground (arith, sent, fits) in
            let behind : contents (enqueue c.ring p).1 ≡ contents c.ring ++ (p ∷ []) =
              ground (arith, holds, fits) in
            rw (went, fits) (valid, refl, behind, refl)
        | inr full ↦
            let stays : (enqueue c.ring p).0 ≡ false = ground (arith, sent, full) in
            let same : contents (enqueue c.ring p).1 ≡ contents c.ring =
              ground (arith, holds, full) in
            rw (stays, full) (refused_lem c (enqueue c.ring p).1 p store valid same)
      ]
