-- ===== src/Connector/Receiver/Faults.antt =====
-- Two ways in which the receiver fails on a message that is larger than its buffer.
use simplx.Base.{
  ℕ, zero, suc, ◌+◌, ◌≤◌, ◌<◌, ◌^◌, ◌≡◌, refl, sym, ◌∙◌, true, false, Option, some, List, arith,
  ltb, ◌==◌, add64, sub64, subst,
}
use simplx.Connector.CircularBuffer.{CircularBuffer, read_data}
use simplx.Connector.CircularBuffer.Inv.{IsValid}
use simplx.Connector.CircularBuffer.Read.{IsFresh, read_data_refines}
use simplx.Connector.Receiver.{
  complete_message, read, Receiver, Origin, Run, out_of_fuel, failed, signed_min, process_loop,
  process_data,
}

read_same :
    (p q : List ℕ) (n k : ℕ) (b c : CircularBuffer)
    → ◌≡◌ {A = Option ((List ℕ × ℕ) × CircularBuffer)} (some ((p, n), b)) (some ((q, k), c))
    → b ≡ c
read_same p q n k b c e = cc

-- With nothing left to drop, `dropData` answers that it is done.
nothing_lem :
    (size left : ℕ) → size < 2 ^ 63 → left ≡ 0 → (sub64 left (signed_min size left) == 0) ≡ true
nothing_lem size left small none_left = ground arith

module _ (get_header_size : List ℕ → ℕ) (get_data_size : List ℕ → ℕ → ℕ) where
  -- A block starts with a whole message, larger than the buffer.
  pub record IsLarge (r : Receiver) (bytes : List ℕ) (size : ℕ) : Type 0 where
    pub header_in : r.header_minimum ≤ size
    pub some_header : 0 < get_header_size bytes
    pub some_payload : 0 < get_data_size bytes (get_header_size bytes)
    pub whole : get_header_size bytes + get_data_size bytes (get_header_size bytes) ≤ size
    pub large :
        r.buffer.capacity < get_header_size bytes + get_data_size bytes (get_header_size bytes)
    pub small : size < 2 ^ 63

  loop_large :
      (fuel : ℕ) (again : Receiver → List ℕ → ℕ → Run) (origin : Origin) (r : Receiver)
      (bytes : List ℕ) (size : ℕ)
      → IsLarge r bytes size
      → process_loop get_header_size get_data_size (suc fuel) again origin r bytes size
        ≡ again (record r { overflow_size = 0 }) bytes size
  unfolding process_loop
  loop_large fuel again origin r bytes size v =
      let h : ℕ = get_header_size bytes in
      let d : ℕ = get_data_size bytes h in
      let c1 : ltb size r.header_minimum ≡ false = let k = v.header_in in ground arith in
      let c2 : (h == 0) ≡ false = let k = v.some_header in ground arith in
      let c3 : ltb size h ≡ false = let k = v.whole in ground arith in
      let c4 : (d == 0) ≡ false = let k = v.some_payload in ground arith in
      let sum : add64 h d ≡ h + d = let k = v.whole in let l = v.small in ground arith in
      let c5 : ltb r.buffer.capacity (h + d) ≡ true = let k = v.large in ground arith in
      let c6 : signed_min size (h + d) ≡ h + d =
        let k = v.whole in let l = v.small in ground arith in
      let c7 : sub64 (h + d) (h + d) ≡ 0 = ground arith in rw (sum, c1, c2, c3, c4, c5, c6, c7)

  loop_none :
      (again : Receiver → List ℕ → ℕ → Run) (origin : Origin) (r : Receiver) (bytes : List ℕ)
      (size : ℕ)
      → process_loop get_header_size get_data_size zero again origin r bytes size ≡ out_of_fuel
  unfolding process_loop
  loop_none again origin r bytes size = refl

  -- A block that starts with a whole message larger than the buffer, and nothing left to drop:
  -- `processData` calls itself with the same arguments for ever. However much fuel it is given, it
  -- runs out of it.
  pub process_data-endless :
      (fuel : ℕ) (origin : Origin) (r : Receiver) (bytes : List ℕ) (size : ℕ)
      → IsLarge r bytes size
      → r.overflow_size ≡ 0
      → process_data get_header_size get_data_size fuel origin r bytes size ≡ out_of_fuel
  unfolding process_data
  process_data-endless zero origin r bytes size v none_left = refl
  process_data-endless (suc zero) origin r bytes size v none_left =
      let c1 : ltb 0 r.overflow_size ≡ false = ground arith in
      let c2 : ltb size r.header_minimum ≡ false = let k = v.header_in in ground arith in
      rw (c1, c2) (loop_none _ origin r bytes size)
  process_data-endless (suc (suc fuel)) origin r bytes size v none_left =
      let c1 : ltb 0 r.overflow_size ≡ false = ground arith in
      let c2 : ltb size r.header_minimum ≡ false = let k = v.header_in in ground arith in
      let v' : IsLarge (record r { overflow_size = 0 }) bytes size = record {
        header_in = v.header_in;
        some_header = v.some_header;
        some_payload = v.some_payload;
        whole = v.whole;
        large = v.large;
        small = v.small;
      } in
      rw (c1, c2)
        (loop_large fuel (process_data get_header_size get_data_size (suc fuel) origin) origin r
            bytes size v
          ∙ process_data-endless (suc fuel) origin (record r { overflow_size = 0 }) bytes size v'
              refl)

  -- Bytes are kept, nothing is left to drop, and the header that they start with announces more
  -- than the buffer can hold: the `assert` of `doCompleteMsg` after `dropData` fails.
  pub complete_message-fails :
      (fuel h : ℕ) (r : Receiver) (bytes : List ℕ) (size : ℕ) (p : List ℕ) (n : ℕ)
      (b : CircularBuffer)
      → IsValid r.buffer
      → IsFresh r.buffer
      → read_data r.buffer ≡ some ((p, n), b)
      → b.capacity < add64 h (get_data_size p h)
      → r.overflow_size ≡ 0
      → complete_message get_header_size get_data_size fuel h r bytes size ≡ failed
  unfolding complete_message
  complete_message-fails fuel h r bytes size p n b v f shown large none_left =
      let known = read_data_refines v f in
      let same : b ≡ known.2 = read_same p known.0 n known.1 b known.2 (sym shown ∙ known.3) in
      let v' = subst IsValid (sym same) known.6 in
      let f' = subst IsFresh (sym same) known.7 in
      let next = read_data_refines v' f' in
      let c1 : ltb b.capacity (add64 h (get_data_size p h)) ≡ true = ground arith in
      rw (
        complete_message,
        read,
        shown,
        c1,
        next.3,
        nothing_lem next.2.content_size r.overflow_size
            (omega (arith, next.6.placed.sizes, next.6.placed.small)) none_left,
      )
