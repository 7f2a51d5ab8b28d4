-- ===== src/Engine/ForwardChain/Walk.antt =====
-- What a loop over a chain visits, and what is wrong after two chains were put together.
use simplx.Base.{
  ℕ, zero, suc, ◌≡◌, ◌≢◌, sym, Option, none, some, List, [], ◌∷◌, arith, length, ◌==◌,
  if◌then◌else◌, subst,
}
use simplx.Engine.ForwardChain.{Memory, set_next, ForwardChain, Iterator, begin, push_chain_back}
use simplx.Engine.ForwardChain.Linked.{
  Linked, Holds, Linked-nonzero, Linked-last_nonzero, Linked-last,
}

-- One item before what is visited after it.
abbrev cons : ℕ → Option (List ℕ) → Option (List ℕ)
cons x none = none
cons x (some xs) = some (x ∷ xs)

-- The items that a loop from the iterator to `end` visits, in at most `fuel` tests.
pub visited : ℕ → Memory → Iterator → Option (List ℕ)
visited zero memory i = none
visited (suc fuel) memory i =
    let rest = visited fuel memory (record { previous = i.current; current = memory i.current }) in
    if i.current == 0 then some [] else cons i.current rest

-- What `begin` writes keeps the links of the chain and ends them with null.
closed :
    (memory : Memory) (x : ℕ) (xs : List ℕ) (last : ℕ)
    → Linked memory x xs last
    → Linked (set_next memory last 0) x xs last
unfolding Linked
closed memory x [] last (h, (nz, self)) = (h, (nz, ground arith))
closed memory x (y ∷ ys) last (h, (nz, (once, l))) =
    let there = Linked-last memory y ys last l in
    (ground arith, (nz, (once, closed memory y ys last l)))

visit_one :
    (x : ℕ) (xs : List ℕ) (rest : Option (List ℕ))
    → x ≢ 0
    → rest ≡ some xs
    → (if x == 0 then some [] else cons x rest) ≡ some (x ∷ xs)
visit_one x xs rest nz e = rw e (ground arith)

visited-Linked :
    (memory : Memory) (x : ℕ) (xs : List ℕ) (last previous : ℕ)
    → Linked memory x xs last
    → memory last ≡ 0
    → visited (suc (suc (length xs))) memory (record { previous = previous; current = x })
      ≡ some (x ∷ xs)
unfolding Linked visited
visited-Linked memory x [] last previous (h, (nz, self)) stop =
    let next : memory x ≡ 0 = subst (λ a. memory a ≡ 0) h stop in visit_one x [] _ nz (ground arith)
visited-Linked memory x (y ∷ ys) last previous (h, (nz, (once, l))) stop =
    let rest = visited-Linked memory y ys last x l stop in
    visit_one x (y ∷ ys) _ nz (
      subst
        (λ a.
          visited (suc (suc (length ys))) memory (record { previous = x; current = a })
          ≡ some (y ∷ ys))
        (sym h) rest)

-- On a chain that holds `xs`, `begin` fails no assert and keeps what the chain holds, and a loop
-- from there to `end` visits exactly `xs`, in that order, in one test more than there are items.
pub begin-visited :
    (memory : Memory) (c : ForwardChain) (xs : List ℕ)
    → Holds memory c xs
    → (memory' : Memory) × (i : Iterator) × (begin memory c ≡ some (memory', i))
      × Holds memory' c xs
      × (visited (suc (length xs)) memory' i ≡ some xs)
unfolding Holds begin visited
begin-visited memory c [] (h, t) =
    (memory, record { previous = 0; current = c.head }, ground arith, (h, t), ground arith)
begin-visited memory c (x ∷ xs) (h, l) =
    let first = Linked-nonzero memory x xs c.tail l in
    let second = Linked-last_nonzero memory x xs c.tail l in
    let l' = closed memory x xs c.tail l in
    (
      set_next memory c.tail 0,
      record { previous = 0; current = c.head },
      ground arith,
      (h, l'),
      subst
          (λ a.
            visited (suc (suc (length xs))) (set_next memory c.tail 0)
              (record { previous = 0; current = a })
            ≡ some (x ∷ xs))
          (sym h) (visited-Linked (set_next memory c.tail 0) x xs c.tail 0 l' (ground arith)),
    )

-- When a chain that holds items is put at the back of one that holds items, the other chain is
-- left with a null head and its old tail: the assert of its `begin` then fails.
pub push_chain_back-begin :
    (memory : Memory) (c other : ForwardChain) (x : ℕ) (xs : List ℕ) (y : ℕ) (ys : List ℕ)
    → Holds memory c (x ∷ xs)
    → Holds memory other (y ∷ ys)
    → (memory' : Memory) × (c' : ForwardChain) × (other' : ForwardChain) × (push_chain_back memory c
          other
        ≡ (memory', (c', other')))
      × (begin memory' other' ≡ none)
unfolding Holds push_chain_back begin
push_chain_back-begin memory c other x xs y ys (h, l) (h', m) =
    let first = Linked-nonzero memory x xs c.tail l in
    let second = Linked-nonzero memory y ys other.tail m in
    let end = Linked-last_nonzero memory y ys other.tail m in
    (
      set_next memory c.tail other.head,
      record c { tail = other.tail },
      record other { head = 0 },
      ground arith,
      ground arith,
    )
