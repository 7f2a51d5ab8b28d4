-- ===== src/Bus/Channel/Tests.antt =====
-- A channel of three pointers; a datum is a number and its type the remainder by 2.
use simplx.Base.{
  ℕ, ◌%◌, ◌≤◌, ◌<◌, ◌≡◌, ◌⊎◌, refl, true, [], ◌∷◌, ◌++◌, Option, none, some, arith, window,
  if◌then◌else◌,
}
use simplx.Bus.RingBuffer.{dequeue, read_available, copy_out}
use simplx.Bus.RingBuffer.Inv.{IsValid, contents}
use simplx.Bus.Channel.{
  Channel, publish_all, publish_one, handled, deleted, Subscribers, find, read_all, dispatch_all,
  dispatch,
}
use simplx.Bus.Channel.Publish.{publish_all_lem, publish_one_lem}
use simplx.Bus.Channel.Read.{deliveries, deletions, IsPaired, read_all_lem}

abbrev parity : ℕ → ℕ
parity d = d % 2

abbrev keep : Option ℕ → Option ℕ → ℕ → Option ℕ
keep new old k = old

-- Holds 4 and a null pointer; three pointers wait.
abbrev busy : Channel (Option ℕ)
busy = record {
  ring = record {
    max_size = 4;
    write_index = 1;
    read_index = 3;
    array = none ∷ none ∷ none ∷ some 4 ∷ [];
  };
  send_buffer = some 5 ∷ some 6 ∷ some 7 ∷ [];
}

abbrev subs : Subscribers
subs = (0, 70) ∷ []

busy-IsValid : IsValid busy.ring
busy-IsValid = omega arith

read_all-busy : (read_all parity subs busy).1 ≡ handled 70 4 ∷ deleted 4 ∷ []
unfolding read_all dequeue read_available copy_out dispatch_all dispatch find
read_all-busy = refl

publish_all_lem_example :
    let (left, c') = publish_all 8 keep busy in
    IsValid c'.ring
    × (((5 ≤ 3)
          × (left ≡ 0)
          × (contents c'.ring ≡ contents busy.ring ++ busy.send_buffer)
          × (c'.send_buffer ≡ []))
        ⊎ ((3 < 5)
            × (left ≡ 3)
            × (contents c'.ring ≡ contents busy.ring)
            × (c'.send_buffer ≡ busy.send_buffer)))
unfolding window
publish_all_lem_example = publish_all_lem 8 keep {c = busy} busy-IsValid (λ p k. refl) (omega arith)

publish_one_lem_example :
    let (sent, c') = publish_one busy (some 9) true in
    IsValid c'.ring
    × (sent ≡ true)
    × (contents c'.ring ≡ (if sent then some 4 ∷ none ∷ some 9 ∷ [] else some 4 ∷ none ∷ []))
    × (c'.send_buffer
        ≡ (if sent then some 5 ∷ some 6 ∷ some 7 ∷ [] else some 5 ∷ some 6 ∷ some 7 ∷ some 9 ∷ []))
unfolding window
publish_one_lem_example = publish_one_lem busy (some 9) true busy-IsValid

read_all_lem_example :
    let (n, effects, c') = read_all parity subs busy in
    (n ≡ 2)
    × (deliveries effects ≡ (70, 4) ∷ [])
    × (deletions effects ≡ 4 ∷ [])
    × IsPaired effects
    × (contents c'.ring ≡ [])
    × (c'.send_buffer ≡ busy.send_buffer)
    × IsValid c'.ring
unfolding window find
read_all_lem_example = read_all_lem parity subs {c = busy} busy-IsValid
