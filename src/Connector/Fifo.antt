-- ===== src/Connector/Fifo.antt =====
-- What a bounded queue of bytes promises: the contract of the circular buffer's clients.
use simplx.Base.{
  ℕ, ◌-◌, ◌≤◌, Bool, true, false, ◌||◌, List, [], ◌∷◌, ◌++◌, length, take, drop, ltb, if◌then◌else◌,
}

-- A block is accepted whole, behind what is there, or refused: when it is empty, or when it does
-- not fit into what the capacity leaves.
unfoldable pub offer : ℕ → List ℕ → List ℕ → Bool × List ℕ
offer capacity q xs =
    if ltb (capacity - length q) (length xs) || ltb (length xs) 1
    then (false, q)
    else (true, q ++ xs)

-- A call with its arguments: the bytes in memory and a size, nothing, a size.
pub data Call : Type 0 where
  write : List ℕ → ℕ → Call
  read : Call
  shift : ℕ → Call

-- What the caller sees.
pub data Reply : Type 0 where
  wrote : Bool → Reply
  shown : List ℕ → Reply
  shifted : Reply

unfoldable pub run : ℕ → List ℕ → List Call → List Reply
run capacity q [] = []
run capacity q (write bytes size ∷ calls) =
    let (ok, q') = offer capacity q (take size bytes) in Reply.wrote ok ∷ run capacity q' calls
run capacity q (read ∷ calls) = Reply.shown q ∷ run capacity q calls
run capacity q (shift n ∷ calls) = Reply.shifted ∷ run capacity (drop n q) calls

-- The caller writes what it has in memory, and removes no more than there is.
abbrev pub IsFair : ℕ → List ℕ → List Call → Type 0
IsFair capacity q [] = Unit {0}
IsFair capacity q (write bytes size ∷ calls) =
    (size ≤ length bytes) × IsFair capacity (offer capacity q (take size bytes)).1 calls
IsFair capacity q (read ∷ calls) = IsFair capacity q calls
IsFair capacity q (shift n ∷ calls) = (n ≤ length q) × IsFair capacity (drop n q) calls
