-- ===== src/Engine/ForwardChain/Back.antt =====
-- What is put at the back of a chain, and one chain put into another.
use simplx.Base.{
  ℕ, ◌+◌, ◌≡◌, ◌≢◌, refl, sym, ◌∙◌, true, false, some, List, [], ◌∷◌, ◌++◌, arith, ◌==◌, Bool-cases,
  inl, inr, ap, append-nil, subst,
}
use simplx.Engine.ForwardChain.{
  Memory, set_next, ForwardChain, push_back, push_chain_back, push_chain_front, link_size, is_empty,
}
use simplx.Engine.ForwardChain.Linked.{
  mem, Linked, Holds, Disjoint, Linked-fresh, Linked-frame, Linked-nonzero, Linked-join,
}

apart_item : (xs : List ℕ) (item : ℕ) → mem item xs ≡ false → Disjoint xs (item ∷ [])
apart_item xs item away a there = elim (Bool-cases (a == item)) [
  | inl same ↦
      let e : a ≡ item = ground arith in
      let here : mem item xs ≡ true = ap (λ b. mem b xs) (sym e) ∙ there in ground arith
  | inr different ↦ ground arith
]

-- On a chain that holds `xs`, `push_back` of an item whose link is free (it points to itself)
-- fails no assert, and the chain then holds `xs` and after it the item.
pub push_back_refines :
    (memory : Memory) (c : ForwardChain) (xs : List ℕ) (item : ℕ)
    → Holds memory c xs
    → item ≢ 0
    → memory item ≡ item
    → (memory' : Memory) × (c' : ForwardChain) × (push_back memory c item ≡ some (memory', c'))
      × Holds memory' c' (xs ++ item ∷ [])
unfolding Holds Linked push_back
push_back_refines memory c [] item h nz free = (
  set_next memory item (item + link_size),
  record { head = item; tail = item },
  ground arith,
  (refl, (refl, (nz, ground arith))),
)
push_back_refines memory c (x ∷ xs) item (h, l) nz free =
    let away = Linked-fresh memory item x xs c.tail l free in
    let first = Linked-nonzero memory x xs c.tail l in
    let marked = Linked-frame memory item (item + link_size) x xs c.tail l away in
    let memory' : Memory = set_next memory item (item + link_size) in
    (
      set_next memory' c.tail item,
      record c { tail = item },
      ground arith,
      (
        h,
        Linked-join memory' x xs c.tail item [] item marked (refl, (nz, ground arith))
            (apart_item (x ∷ xs) item away),
      ),
    )

-- `push_back` of a chain that holds `ys` to a chain that holds `xs`, with no item in both: this
-- chain then holds `xs` and after it `ys`, and the other one is empty.
pub push_chain_back_refines :
    (memory : Memory) (c other : ForwardChain) (xs ys : List ℕ)
    → Holds memory c xs
    → Holds memory other ys
    → Disjoint xs ys
    → (memory' : Memory) × (c' : ForwardChain) × (other' : ForwardChain) × (push_chain_back memory c
          other
        ≡ (memory', (c', other')))
      × Holds memory' c' (xs ++ ys)
      × (is_empty other' ≡ true)
unfolding Holds Linked push_chain_back
push_chain_back_refines memory c other [] [] (h, t) (h', t') apart =
    (memory, c, other, ground arith, (h, t), ground arith)
push_chain_back_refines memory c other [] (y ∷ ys) (h, t) (h', l) apart =
    let first = Linked-nonzero memory y ys other.tail l in
    (memory, other, c, ground arith, (h', l), ground arith)
push_chain_back_refines memory c other (x ∷ xs) [] (h, l) (h', t') apart =
    let first = Linked-nonzero memory x xs c.tail l in
    (
      memory,
      c,
      other,
      ground arith,
      subst (λ zs. Holds memory c zs) (sym (append-nil (x ∷ xs))) (h, l),
      ground arith,
    )
push_chain_back_refines memory c other (x ∷ xs) (y ∷ ys) (h, l) (h', m) apart =
    let first = Linked-nonzero memory x xs c.tail l in
    let second = Linked-nonzero memory y ys other.tail m in
    (
      set_next memory c.tail other.head,
      record c { tail = other.tail },
      record other { head = 0 },
      ground arith,
      (
        h,
        subst (λ a. Linked (set_next memory c.tail a) x (xs ++ y ∷ ys) other.tail) (sym h')
            (Linked-join memory x xs c.tail y ys other.tail l m apart),
      ),
      ground arith,
    )

-- `push_front` of a chain that holds `ys` to a chain that holds `xs`, with no item in both: this
-- chain then holds `ys` and after it `xs`, and the other one is empty.
pub push_chain_front_refines :
    (memory : Memory) (c other : ForwardChain) (xs ys : List ℕ)
    → Holds memory c xs
    → Holds memory other ys
    → Disjoint ys xs
    → (memory' : Memory) × (c' : ForwardChain) × (other' : ForwardChain) × (push_chain_front memory
          c other
        ≡ (memory', (c', other')))
      × Holds memory' c' (ys ++ xs)
      × (is_empty other' ≡ true)
unfolding Holds Linked push_chain_front
push_chain_front_refines memory c other [] [] (h, t) (h', t') apart =
    (memory, c, other, ground arith, (h, t), ground arith)
push_chain_front_refines memory c other [] (y ∷ ys) (h, t) (h', l) apart =
    let first = Linked-nonzero memory y ys other.tail l in
    (
      memory,
      other,
      c,
      ground arith,
      subst (λ zs. Holds memory other zs) (sym (append-nil (y ∷ ys))) (h', l),
      ground arith,
    )
push_chain_front_refines memory c other (x ∷ xs) [] (h, l) (h', t') apart =
    let first = Linked-nonzero memory x xs c.tail l in
    (memory, c, other, ground arith, (h, l), ground arith)
push_chain_front_refines memory c other (x ∷ xs) (y ∷ ys) (h, l) (h', m) apart =
    let first = Linked-nonzero memory x xs c.tail l in
    let second = Linked-nonzero memory y ys other.tail m in
    (
      set_next memory other.tail c.head,
      record c { head = other.head },
      record other { head = 0 },
      ground arith,
      (
        h',
        subst (λ a. Linked (set_next memory other.tail a) y (ys ++ x ∷ xs) c.tail) (sym h)
            (Linked-join memory y ys other.tail x xs c.tail m l apart),
      ),
      ground arith,
    )
