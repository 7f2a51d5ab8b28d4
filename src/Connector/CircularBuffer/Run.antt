-- ===== src/Connector/CircularBuffer/Run.antt =====
-- A client's calls of a circular buffer in order, and what it sees of them.
use simplx.Base.{
  window_zero, ℕ, ◌<◌, ◌^◌, ◌≡◌, ap, refl, sym, ◌∙◌, inr, Bool, List, [], ◌∷◌, Option, none, some,
  arith, take, drop, replicate, length-replicate,
}
use simplx.Connector.Fifo
use simplx.Connector.Fifo.{Call, write, read, shift, Reply, IsFair}
use simplx.Connector.CircularBuffer.{CircularBuffer, empty, write_data, read_data, shift_buffer}
use simplx.Connector.CircularBuffer.Inv.{IsValid}
use simplx.Connector.CircularBuffer.Contents.{contents}
use simplx.Connector.CircularBuffer.Write.{write_data_refines}
use simplx.Connector.CircularBuffer.Shift.{shift_buffer_refines}
use simplx.Connector.CircularBuffer.Read.{IsFresh, read_data_refines}

-- `none`: an `assert` failed.
unfoldable pub run : CircularBuffer → List Call → Option (List Reply)
run b [] = some []
run b (write bytes size ∷ calls) = elim (write_data b bytes size) [
  | none ↦ none
  | some (ok, b') ↦ elim (run b' calls) [ none ↦ none | some rs ↦ some (Reply.wrote ok ∷ rs) ]
]
run b (read ∷ calls) = elim (read_data b) [
  | none ↦ none
  | some ((p, n), b') ↦ elim (run b' calls) [
    | none ↦ none
    | some rs ↦ some (Reply.shown (take n p) ∷ rs)
  ]
]
run b (shift n ∷ calls) = elim (shift_buffer b n) [
  | none ↦ none
  | some b' ↦ elim (run b' calls) [ none ↦ none | some rs ↦ some (Reply.shifted ∷ rs) ]
]

write_data-IsFresh :
    (b : CircularBuffer) (bytes : List ℕ) (size : ℕ) {ok : Bool} {b' : CircularBuffer}
    → IsFresh b
    → write_data b bytes size ≡ some (ok, b')
    → IsFresh b'
unfolding write_data
write_data-IsFresh b bytes size f e = ground arith

shift_buffer-IsFresh :
    (b : CircularBuffer) (n : ℕ) {b' : CircularBuffer}
    → IsFresh b
    → shift_buffer b n ≡ some b'
    → IsFresh b'
unfolding shift_buffer
shift_buffer-IsFresh b n f e = ground arith

empty-IsValid : (capacity : ℕ) → 0 < capacity → capacity < 2 ^ 63 → IsValid (empty capacity)
unfolding empty
empty-IsValid capacity h k = ground (arith, length-replicate {A = ℕ} capacity 0)

empty-IsFresh : (capacity : ℕ) → IsFresh (empty capacity)
unfolding empty
empty-IsFresh capacity = inr (sym (window_zero (replicate capacity 0) 0))

-- From a valid buffer with a right or stale copy.
run_refines_from :
    (calls : List Call) {b : CircularBuffer} (q : List ℕ)
    → IsValid b
    → IsFresh b
    → contents b ≡ q
    → IsFair b.capacity q calls
    → run b calls ≡ some (Fifo.run b.capacity q calls)
unfolding run Fifo.run
run_refines_from [] q v f e h = refl
run_refines_from (write bytes size ∷ calls) {b} q v f e (fits, fair) =
    let o = Fifo.offer b.capacity q (take size bytes) in
    let (b', ran, v', holds, same) = write_data_refines bytes size v fits in
    let holds' : contents b' ≡ o.1 =
      holds ∙ ap (λ k. (Fifo.offer b.capacity k (take size bytes)).1) e in
    let ran' : write_data b bytes size ≡ some (o.0, b') =
      ran ∙ ap (λ k. some ((Fifo.offer b.capacity k (take size bytes)).0, b')) e in
    let rest =
      run_refines_from calls o.1 v' (write_data-IsFresh b bytes size f ran) holds' (rw same fair) in
    ground (arith, ran', rest, same)
run_refines_from (read ∷ calls) {b} q v f e fair =
    let (p, n, b', ran, shown, _, v', f', holds, same) = read_data_refines v f in
    let rest = run_refines_from calls q v' f' (holds ∙ e) (rw same fair) in
    ground (arith, ran, rest, same, shown, e)
run_refines_from (shift n ∷ calls) {b} q v f e (has, fair) =
    let (b', ran, v', holds, same) = shift_buffer_refines n v (rw e has) in
    let rest =
      run_refines_from calls (drop n q) v' (shift_buffer-IsFresh b n f ran) (holds ∙ ap (drop n) e)
        (rw same fair) in
    ground (arith, ran, rest, same)

-- A circular buffer of at least one and fewer than 2^63 bytes, new and empty, answers any
-- sequence of fair calls (each block in memory, no removal beyond the contents) as the bounded
-- queue does, and no `assert` fails on the way: blocks are kept or refused whole, and read and
-- removed in the order in which they were written.
pub run_refines :
    (capacity : ℕ) (calls : List Call)
    → 0 < capacity
    → capacity < 2 ^ 63
    → IsFair capacity [] calls
    → run (empty capacity) calls ≡ some (Fifo.run capacity [] calls)
unfolding empty
run_refines capacity calls h k fair =
    run_refines_from calls [] (empty-IsValid capacity h k) (empty-IsFresh capacity)
      (window_zero (replicate capacity 0) 0) fair
