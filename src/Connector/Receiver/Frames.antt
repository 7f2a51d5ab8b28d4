-- ===== src/Connector/Receiver/Frames.antt =====
-- A block that arrives while the buffer is empty: the messages in it.
use simplx.Base.{
  ℕ, zero, suc, ◌+◌, ◌≤◌, ◌<◌, ◌^◌, ◌≡◌, refl, ◌∙◌, ap, Bool, true, false, not, List, [], ◌∷◌, ◌++◌,
  arith, length, length-append, take, drop, ltb, ◌==◌, add64, sub64, append_assoc, append-nil,
}
use simplx.Connector.Receiver.{
  Receiver, Event, received, Origin, Run, returned, is_complete, set_other_complete, process_loop,
  process_data, on_data_received, new_message,
}

-- All the bytes of some messages.
unfoldable pub bytes_of : List (List ℕ) → List ℕ
bytes_of [] = []
bytes_of (x ∷ xs) = x ++ bytes_of xs

module _ (get_header_size : List ℕ → ℕ) (get_data_size : List ℕ → ℕ → ℕ) where
  -- The client reads the sizes in the message: what follows it does not matter.
  pub record IsMessage (minimum capacity : ℕ) (x : List ℕ) : Type 0 where
    pub header : (after : List ℕ) → get_header_size (x ++ after) ≡ get_header_size x
    pub payload :
        (after : List ℕ)
        → get_data_size (x ++ after) (get_header_size x) ≡ get_data_size x (get_header_size x)
    pub some_header : 0 < get_header_size x
    pub some_payload : 0 < get_data_size x (get_header_size x)
    pub whole : get_header_size x + get_data_size x (get_header_size x) ≡ length x
    pub enough : minimum ≤ length x
    pub fits : length x ≤ capacity

  abbrev pub AllMessages : ℕ → ℕ → List (List ℕ) → Type 0
  AllMessages minimum capacity [] = Unit {0}
  AllMessages minimum capacity (x ∷ xs) =
      IsMessage minimum capacity x × AllMessages minimum capacity xs

-- What the client is called with: each message, and whether another one follows.
abbrev pub is_cons : List (List ℕ) → Bool
is_cons [] = false
is_cons (x ∷ xs) = true

unfoldable pub calls : List (List ℕ) → List Event
calls [] = []
calls (x ∷ xs) = received x (is_cons xs) ∷ calls xs

-- The flag when the block is done.
pub last_flag : Bool → List (List ℕ) → Bool
last_flag before [] = before
last_flag before (x ∷ xs) = false

whole_le :
    (x : List ℕ) (xs : List (List ℕ)) (tail : List ℕ)
    → length x ≤ length (bytes_of (x ∷ xs) ++ tail)
unfolding bytes_of
whole_le x xs tail =
    omega (arith, length-append {0} (x ++ bytes_of xs) tail, length-append {0} x (bytes_of xs))

take_whole : (x after : List ℕ) → take (length x) (x ++ after) ≡ x
take_whole [] after = refl
take_whole (a ∷ x) after = ap (λ y. a ∷ y) (take_whole x after)

drop_whole : (x after : List ℕ) → drop (length x) (x ++ after) ≡ after
drop_whole [] after = refl
drop_whole (a ∷ x) after = drop_whole x after

module _ (get_header_size : List ℕ → ℕ) (get_data_size : List ℕ → ℕ → ℕ) where
  abbrev Next : ℕ → ℕ → List ℕ → Type 0
  Next = IsMessage get_header_size get_data_size

  -- The receiver after a message, with the flag that the client saw.
  abbrev delivered : Receiver → List ℕ → Bool → Receiver
  delivered r x flag = record r { other_complete = flag; log = r.log ++ received x flag ∷ [] }

  -- One message at the front of the block is delivered.
  loop_step :
      (fuel : ℕ) (again : Receiver → List ℕ → ℕ → Run) (origin : Origin) (r : Receiver)
      (x after : List ℕ)
      → Next r.header_minimum r.buffer.capacity x
      → length x + length after < 2 ^ 63
      → process_loop get_header_size get_data_size
          (suc fuel)
          again
          origin
          r
          (x ++ after)
          (length x + length after)
        ≡ process_loop get_header_size get_data_size fuel again origin
            (delivered r x
              (is_complete get_header_size get_data_size r.header_minimum after (length after)))
            after
            (length after)
  unfolding process_loop set_other_complete
  loop_step fuel again origin r x after m small =
      let h : ℕ = get_header_size x in
      let d : ℕ = get_data_size x h in
      let n : ℕ = length x + length after in
      let c1 : ltb n r.header_minimum ≡ false = let k = m.enough in ground arith in
      let c2 : (h == 0) ≡ false = let k = m.some_header in ground arith in
      let c3 : ltb n h ≡ false = let k = m.whole in ground arith in
      let c4 : (d == 0) ≡ false = let k = m.some_payload in ground arith in
      let c5 : ltb r.buffer.capacity (length x) ≡ false = let k = m.fits in ground arith in
      let c6 : ltb n (length x) ≡ false = ground arith in
      let sum : add64 h d ≡ length x = let k = m.whole in ground arith in
      let rest : sub64 n (length x) ≡ length after = ground arith in
      rw (
        m.header after,
        m.payload after,
        sum,
        c1,
        c2,
        c3,
        c4,
        c5,
        c6,
        rest,
        drop_whole x after,
        take_whole x after,
      )

  -- The flag tells whether a whole message follows.
  flag_short :
      (minimum : ℕ) (bytes : List ℕ)
      → length bytes < minimum
      → is_complete get_header_size get_data_size minimum bytes (length bytes) ≡ false
  unfolding is_complete
  flag_short minimum bytes h = let c : ltb (length bytes) minimum ≡ true = ground arith in rw c

  flag_message :
      (minimum capacity : ℕ) (x after : List ℕ)
      → Next minimum capacity x
      → 0 < minimum
      → length x + length after < 2 ^ 63
      → is_complete get_header_size get_data_size minimum (x ++ after) (length (x ++ after)) ≡ true
  unfolding is_complete
  flag_message minimum capacity x after m some_minimum small =
      let h : ℕ = get_header_size x in
      let d : ℕ = get_data_size x h in
      let n : ℕ = length x + length after in
      let c1 : ltb n minimum ≡ false = let k = m.enough in ground arith in
      let c0 : (minimum == 0) ≡ false = ground arith in
      let c2 : (h == 0) ≡ false = let k = m.some_header in ground arith in
      let c3 : ltb n h ≡ false = let k = m.whole in ground arith in
      let c4 : (d == 0) ≡ false = let k = m.some_payload in ground arith in
      let c6 : ltb n (length x) ≡ false = ground arith in
      let sum : add64 h d ≡ length x = let k = m.whole in ground arith in
      rw (length-append x after, m.header after, m.payload after, sum, c1, c0, c2, c3, c4, c6)

  abbrev Fits : ℕ → ℕ → List (List ℕ) → Type 0
  Fits = AllMessages get_header_size get_data_size

  flag_lem :
      (minimum capacity : ℕ) (xs : List (List ℕ)) (tail : List ℕ)
      → Fits minimum capacity xs
      → 0 < minimum
      → length tail < minimum
      → length (bytes_of xs ++ tail) < 2 ^ 63
      → is_complete get_header_size get_data_size minimum
          (bytes_of xs ++ tail)
          (length (bytes_of xs ++ tail))
        ≡ is_cons xs
  unfolding bytes_of
  flag_lem minimum capacity [] tail all some_minimum short small = flag_short minimum tail short
  flag_lem minimum capacity (x ∷ xs) tail (m, all) some_minimum short small =
      let e : (x ++ bytes_of xs) ++ tail ≡ x ++ (bytes_of xs ++ tail) =
        append_assoc x (bytes_of xs) tail in
      rw e (
        flag_message minimum capacity x (bytes_of xs ++ tail) m some_minimum
          (omega (arith, ap length e, length-append {0} x (bytes_of xs ++ tail))))

  loop_end :
      (fuel : ℕ) (again : Receiver → List ℕ → ℕ → Run) (origin : Origin) (r : Receiver)
      (tail : List ℕ)
      → length tail < r.header_minimum
      → process_loop get_header_size get_data_size (suc fuel) again origin r tail (length tail)
        ≡ returned r (length tail)
  unfolding process_loop
  loop_end fuel again origin r tail short =
      let c : ltb (length tail) r.header_minimum ≡ true = ground arith in rw c

  no_more : (xs : List (List ℕ)) → last_flag (is_cons xs) xs ≡ false
  unfolding last_flag
  no_more [] = refl
  no_more (x ∷ xs) = refl

  loop_frames :
      (fuel : ℕ) (again : Receiver → List ℕ → ℕ → Run) (origin : Origin) (r : Receiver)
      (xs : List (List ℕ)) (tail : List ℕ)
      → Fits r.header_minimum r.buffer.capacity xs
      → 0 < r.header_minimum
      → length tail < r.header_minimum
      → length (bytes_of xs ++ tail) < 2 ^ 63
      → length xs < fuel
      → process_loop get_header_size get_data_size fuel again origin r
          (bytes_of xs ++ tail)
          (length (bytes_of xs ++ tail))
        ≡ returned
            (record r { other_complete = last_flag r.other_complete xs; log = r.log ++ calls xs })
            (length tail)
  unfolding bytes_of calls last_flag
  loop_frames zero again origin r xs tail all some_minimum short small enough = absurd (omega arith)
  loop_frames (suc fuel) again origin r [] tail all some_minimum short small enough =
      loop_end fuel again origin r tail short ∙ (rw (append-nil r.log))
  loop_frames (suc fuel) again origin r (x ∷ xs) tail (m, all) some_minimum short small enough =
      let e : (x ++ bytes_of xs) ++ tail ≡ x ++ (bytes_of xs ++ tail) =
        append_assoc x (bytes_of xs) tail in
      let small' : length x + length (bytes_of xs ++ tail) < 2 ^ 63 =
        omega (arith, ap length e, length-append {0} x (bytes_of xs ++ tail)) in
      let bytes = bytes_of xs ++ tail in
      let n = length-append x bytes in
      let more = is_cons xs in
      let rest =
        loop_frames fuel again origin (delivered r x more) xs tail all some_minimum short
          (omega arith) (omega arith) in
      rw (e, n)
        (loop_step fuel again origin r x bytes m small'
          ∙ ap
              (λ b.
                process_loop get_header_size get_data_size fuel again origin (delivered r x b) bytes
                  (length bytes))
              (flag_lem r.header_minimum r.buffer.capacity xs tail all some_minimum short
                (omega arith))
          ∙ rest
          ∙ (rw (no_more xs, append_assoc r.log (received x more ∷ []) (calls xs))))

  -- `onDataReceived` of a block that arrives while nothing is kept: whole messages that fit the
  -- buffer, and after them fewer bytes than a header has at least. The client gets each message,
  -- in order, with the flag telling whether another one follows; the call returns, no assert
  -- fails, and the buffer is left as it was, so the bytes after the last message are kept only if
  -- there was no message before them (and lost otherwise).
  pub on_data_received-frames :
      (fuel : ℕ) (r : Receiver) (x : List ℕ) (xs : List (List ℕ)) (tail : List ℕ)
      → Fits r.header_minimum r.buffer.capacity (x ∷ xs)
      → r.buffer.empty_flag ≡ true
      → r.overflow_size ≡ 0
      → 0 < r.header_minimum
      → length tail < r.header_minimum
      → length (bytes_of (x ∷ xs) ++ tail) < 2 ^ 63
      → length (x ∷ xs) < fuel
      → on_data_received get_header_size get_data_size
          (suc fuel)
          r
          (bytes_of (x ∷ xs) ++ tail)
          (length (bytes_of (x ∷ xs) ++ tail))
        ≡ returned
            (record r { other_complete = false; log = r.log ++ calls (x ∷ xs) })
            (length tail)
  unfolding on_data_received process_data last_flag
  on_data_received-frames fuel r x xs tail (m, all) nothing no_overflow some_minimum short small
        enough =
      let n : ℕ = length (bytes_of (x ∷ xs) ++ tail) in
      let long : length x ≤ n = whole_le x xs tail in
      let c0 : (n == 0) ≡ false = let k = m.enough in ground arith in
      let c1 : (r.header_minimum == 0) ≡ false = ground arith in
      let c2 : ltb n r.header_minimum ≡ false = let k = m.enough in ground arith in
      let c3 : ltb 0 r.overflow_size ≡ false = ground arith in
      let c4 : not r.buffer.empty_flag ≡ false = ap not nothing in
      rw (c0, c1, c4, c3, c2)
        (loop_frames fuel (process_data get_header_size get_data_size fuel new_message) new_message
          r (x ∷ xs) tail (m, all) some_minimum short small enough)
