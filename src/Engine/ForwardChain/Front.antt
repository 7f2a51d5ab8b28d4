-- ===== src/Engine/ForwardChain/Front.antt =====
-- What is put at the front of a chain, and what is taken there.
use simplx.Base.{
  ℕ, ◌≡◌, ◌≢◌, refl, sym, ◌∙◌, true, false, some, List, [], ◌∷◌, arith, ◌==◌, Bool-cases, inl, inr,
  ap, ◌+◌,
}
use simplx.Engine.ForwardChain.{Memory, set_next, ForwardChain, push_front, pop_front, link_size}
use simplx.Engine.ForwardChain.Linked.{
  mem, Linked, Holds, Linked-fresh, Linked-frame, Linked-nonzero, Linked-last,
}

-- On a chain that holds `xs`, `push_front` of an item whose link is free (it points to itself)
-- fails no assert, and the chain then holds the item and after it `xs`.
pub push_front_refines :
    (memory : Memory) (c : ForwardChain) (xs : List ℕ) (item : ℕ)
    → Holds memory c xs
    → item ≢ 0
    → memory item ≡ item
    → (memory' : Memory) × (c' : ForwardChain) × (push_front memory c item ≡ some (memory', c'))
      × Holds memory' c' (item ∷ xs)
unfolding Holds Linked push_front
push_front_refines memory c [] item h nz free = (
  set_next memory item (item + link_size),
  record { head = item; tail = item },
  ground arith,
  (refl, (refl, (nz, ground arith))),
)
push_front_refines memory c (x ∷ xs) item (h, l) nz free =
    let away = Linked-fresh memory item x xs c.tail l free in
    let first = Linked-nonzero memory x xs c.tail l in
    let marked = Linked-frame memory item (item + link_size) x xs c.tail l away in
    (
      set_next (set_next memory item (item + link_size)) item c.head,
      record c { head = item },
      ground arith,
      (
        refl,
        (
          ground arith,
          (
            nz,
            (
              away,
              Linked-frame (set_next memory item (item + link_size)) item c.head x xs c.tail marked
                  away,
            ),
          ),
        ),
      ),
    )

popped :
    (memory : Memory) (c : ForwardChain) (x y : ℕ) (ys : List ℕ)
    → c.head ≡ x
    → x ≢ 0
    → mem x (y ∷ ys) ≡ false
    → mem c.tail (y ∷ ys) ≡ true
    → pop_front memory c
      ≡ some (x, (set_next memory c.head c.head, record c { head = memory c.head }))
unfolding pop_front
popped memory c x y ys h nz once there =
    let other : (c.head == c.tail) ≡ false = elim (Bool-cases (c.head == c.tail)) [
      | inl same ↦
          let e : c.tail ≡ x = ground arith in
          let never : true ≡ false = sym there ∙ ap (λ a. mem a (y ∷ ys)) e ∙ once in ground arith
      | inr different ↦ different
    ] in
    ground arith

-- On a chain that holds `x` and after it `xs`, `pop_front` fails no assert and answers `x`; the
-- chain then holds `xs`, and the link of `x` is free.
pub pop_front_refines :
    (memory : Memory) (c : ForwardChain) (x : ℕ) (xs : List ℕ)
    → Holds memory c (x ∷ xs)
    → (memory' : Memory) × (c' : ForwardChain) × (pop_front memory c ≡ some (x, (memory', c')))
      × Holds memory' c' xs
      × (memory' x ≡ x)
unfolding Holds Linked pop_front
pop_front_refines memory c x [] (h, (e, (nz, self))) = (
  set_next memory c.head c.head,
  record { head = 0; tail = 0 },
  ground arith,
  (refl, refl),
  ground arith,
)
pop_front_refines memory c x (y ∷ ys) (h, (e, (nz, (once, l)))) =
    let there = Linked-last memory y ys c.tail l in
    (
      set_next memory c.head c.head,
      record c { head = memory c.head },
      popped memory c x y ys h nz once there,
      (
        ap memory h ∙ e,
        Linked-frame memory c.head c.head y ys c.tail l (ap (λ a. mem a (y ∷ ys)) h ∙ once),
      ),
      ground arith,
    )
