-- ===== src/Engine/DoubleChain/Splice.antt =====
-- Items taken at the ends, chains put together, and steps of an iterator.
use simplx.Base.{
  ℕ, ◌≡◌, refl, sym, ◌∙◌, ap, false, some, List, [], ◌∷◌, ◌++◌, arith, ◌==◌, if◌then◌else◌, subst,
  append-nil,
}
use simplx.Engine.ForwardChain.{set_next}
use simplx.Engine.ForwardChain.Linked.{Disjoint}
use simplx.Engine.DoubleChain.{
  Memory, DoubleChain, Chained, set_unless_null, pop_front, pop_back, push_chain_front,
  push_chain_back, make, increment, decrement,
}
use simplx.Engine.DoubleChain.Links.{
  first, final, Nexts, Prevs, Distinct, Holds, Nexts-frame, Prevs-frame, Nexts-append, Nexts-split,
  Prevs-append, Prevs-split, Distinct-split, Distinct-append,
}
use simplx.Engine.DoubleChain.Relink.{
  Nexts-final, final-nonzero, final-away, first-away, middle-away, ==_self,
}
use simplx.Engine.DoubleChain.Place.{
  unlinked-Nexts, unlinked-Prevs, first-drop, final-drop, final-append,
}

-- On a chain that holds `x` and after it `xs`, `pop_front` fails no assert and answers `x`; the
-- chain then holds `xs`, and the links of `x` are free.
pub pop_front_lem :
    (m : Memory) (c : DoubleChain) (x : ℕ) (xs : List ℕ)
    → Holds m c (x ∷ xs)
    → (r : Chained) × (pop_front m c ≡ some (x, r))
      × (Holds r.memory r.chain xs × (r.memory.previous x ≡ x) × (r.memory.next x ≡ x))
unfolding pop_front
pop_front_lem m c x xs h =
    let q : ℕ = first xs 0 in
    let e : c.head ≡ x = h.front in
    let n : m.next x ≡ q = h.nexts.0 in
    let other : (x == 0) ≡ false = let nz = h.distinct.0 in ground arith in
    (
      record {
        memory = record {
          previous = set_next (set_unless_null m.previous q 0) x x;
          next = set_next m.next x x;
        };
        chain = record { head = q; tail = if q == 0 then 0 else c.tail };
      },
      rw (e, n, other),
      (
        record {
          front = refl;
          back = (final-drop c.tail [] x xs h.distinct h.back).1;
          nexts = unlinked-Nexts m c [] x xs h;
          prevs = unlinked-Prevs m c [] x xs h;
          distinct = h.distinct.1.1;
        },
        rw (==_self x),
        rw (==_self x),
      ),
    )

-- On a chain that holds `xs` and after it `x`, `pop_back` fails no assert and answers `x`; the
-- chain then holds `xs`, and the links of `x` are free.
pub pop_back_lem :
    (m : Memory) (c : DoubleChain) (xs : List ℕ) (x : ℕ)
    → Holds m c (xs ++ x ∷ [])
    → (r : Chained) × (pop_back m c ≡ some (x, r))
      × (Holds r.memory r.chain xs × (r.memory.previous x ≡ x) × (r.memory.next x ≡ x))
unfolding pop_back
pop_back_lem m c xs x h =
    let p : ℕ = final 0 xs in
    let e : c.tail ≡ x = h.back ∙ final-append 0 xs (x ∷ []) in
    let b : m.previous x ≡ p = (Prevs-split m.previous 0 xs (x ∷ []) h.prevs).1.0 in
    let other : (x == 0) ≡ false = let nz = (middle-away xs x [] h.distinct).0 in ground arith in
    let heads = (first-drop c.head xs x [] h.distinct h.front).1 in
    (
      record {
        memory = record {
          previous = set_next m.previous x x;
          next = set_next (set_unless_null m.next p 0) x x;
        };
        chain = record { head = if p == 0 then 0 else c.head; tail = p };
      },
      rw (e, b, other),
      (
        record {
          front = heads ∙ ap (λ zs. first zs 0) (append-nil xs);
          back = refl;
          nexts =
              subst (λ zs. Nexts (set_next (set_unless_null m.next p 0) x x) zs 0) (append-nil xs)
                (unlinked-Nexts m c xs x [] h);
          prevs =
              subst (λ zs. Prevs (set_next m.previous x x) 0 zs) (append-nil xs)
                (unlinked-Prevs m c xs x [] h);
          distinct = (Distinct-split xs (x ∷ []) h.distinct).0;
        },
        rw (==_self x),
        rw (==_self x),
      ),
    )

-- One chain put after another.
joined :
    (m : Memory) (c d : DoubleChain) (x : ℕ) (xs : List ℕ) (y : ℕ) (ys : List ℕ)
    → Holds m c (x ∷ xs)
    → Holds m d (y ∷ ys)
    → Disjoint (x ∷ xs) (y ∷ ys)
    → Holds
        (record {
          previous = set_next m.previous y (final x xs);
          next = set_next m.next (final x xs) y;
        })
        (record { head = x; tail = final y ys })
        (x ∷ xs ++ y ∷ ys)
joined m c d x xs y ys h k apart =
    let both = Distinct-append (x ∷ xs) (y ∷ ys) h.distinct k.distinct apart in
    record {
      front = refl;
      back = sym (final-append x xs (y ∷ ys));
      nexts =
          Nexts-append (set_next m.next (final x xs) y) (x ∷ xs) (y ∷ ys) 0
            (Nexts-final m.next y x xs 0 h.distinct h.nexts)
            (Nexts-frame m.next (final x xs) y (y ∷ ys) 0 (final-away (x ∷ xs) (y ∷ ys) both)
              k.nexts);
      prevs =
          Prevs-append (set_next m.previous y (final x xs)) 0 (x ∷ xs) (y ∷ ys)
            (Prevs-frame m.previous y (final x xs) 0 (x ∷ xs) (first-away (x ∷ xs) (y ∷ ys) both)
              h.prevs)
            (rw (==_self y), Prevs-frame m.previous y (final x xs) y ys k.distinct.1.0 k.prevs.1);
      distinct = both;
    }

nonzero_head : (x : ℕ) (xs : List ℕ) → Distinct (x ∷ xs) → (x == 0) ≡ false
nonzero_head x xs (nz, d) = ground arith

nonzero_tail : (x : ℕ) (xs : List ℕ) → Distinct (x ∷ xs) → (final x xs == 0) ≡ false
nonzero_tail x xs d = let nz = final-nonzero x xs d in ground arith

-- `push_back` of a chain that holds `ys` to a chain that holds `xs`, with no item in both: this
-- chain then holds `xs` and after it `ys`, and the other one holds nothing.
pub push_chain_back_lem :
    (m : Memory) (c other : DoubleChain) (xs ys : List ℕ)
    → Holds m c xs
    → Holds m other ys
    → Disjoint xs ys
    → (m' : Memory) × (c' : DoubleChain) × (other' : DoubleChain) × (push_chain_back m c other
        ≡ (m', (c', other')))
      × Holds m' c' (xs ++ ys)
      × Holds m' other' []
unfolding push_chain_back
push_chain_back_lem m c other [] ys h k apart =
    let e : c.tail ≡ 0 = h.back in (m, other, c, rw e, k, h)
push_chain_back_lem m c other (x ∷ xs) [] h k apart =
    let e : other.head ≡ 0 = k.front in
    let some_item = nonzero_tail x xs h.distinct in
    (
      m,
      c,
      other,
      rw (e, h.back, some_item),
      subst (λ zs. Holds m c zs) (sym (append-nil (x ∷ xs))) h,
      k,
    )
push_chain_back_lem m c other (x ∷ xs) (y ∷ ys) h k apart = (
  record { previous = set_next m.previous y (final x xs); next = set_next m.next (final x xs) y },
  record { head = x; tail = final y ys },
  make,
  rw (h.back, k.front, h.front, k.back, nonzero_tail x xs h.distinct, nonzero_head y ys k.distinct),
  joined m c other x xs y ys h k apart,
  record { front = refl; back = refl; nexts = tt; prevs = tt; distinct = tt },
)

-- `push_front` of a chain that holds `ys` to a chain that holds `xs`, with no item in both: this
-- chain then holds `ys` and after it `xs`, and the other one holds nothing.
pub push_chain_front_lem :
    (m : Memory) (c other : DoubleChain) (xs ys : List ℕ)
    → Holds m c xs
    → Holds m other ys
    → Disjoint ys xs
    → (m' : Memory) × (c' : DoubleChain) × (other' : DoubleChain) × (push_chain_front m c other
        ≡ (m', (c', other')))
      × Holds m' c' (ys ++ xs)
      × Holds m' other' []
unfolding push_chain_front
push_chain_front_lem m c other [] ys h k apart =
    let e : c.head ≡ 0 = h.front in
    (m, other, c, rw e, subst (λ zs. Holds m other zs) (sym (append-nil ys)) k, h)
push_chain_front_lem m c other (x ∷ xs) [] h k apart =
    let e : other.tail ≡ 0 = k.back in
    let some_item = nonzero_head x xs h.distinct in (m, c, other, rw (e, h.front, some_item), h, k)
push_chain_front_lem m c other (x ∷ xs) (y ∷ ys) h k apart = (
  record { previous = set_next m.previous x (final y ys); next = set_next m.next (final y ys) x },
  record { head = y; tail = final x xs },
  make,
  rw (h.back, k.front, h.front, k.back, nonzero_head x xs h.distinct, nonzero_tail y ys k.distinct),
  joined m other c y ys x xs k h apart,
  record { front = refl; back = refl; nexts = tt; prevs = tt; distinct = tt },
)

-- On a chain that holds `xs`, an item and `ys`, an iterator at the item goes by `++` to the first
-- item of `ys`, or to the end, with no failed assert, and from there by `--` back to the item.
pub decrement-increment :
    (m : Memory) (c : DoubleChain) (xs : List ℕ) (item : ℕ) (ys : List ℕ)
    → Holds m c (xs ++ item ∷ ys)
    → (increment m item ≡ some (first ys 0)) × (decrement m c (first ys 0) ≡ item)
unfolding increment decrement
decrement-increment m c xs item [] h =
    let out = middle-away xs item [] h.distinct in
    let other : (item == 0) ≡ false = let nz = out.0 in ground arith in
    (
      rw other (ap some (Nexts-split m.next xs (item ∷ []) 0 h.nexts).1.0),
      h.back ∙ final-append 0 xs (item ∷ []),
    )
decrement-increment m c xs item (y ∷ ys) h =
    let out = middle-away xs item (y ∷ ys) h.distinct in
    let other : (item == 0) ≡ false = let nz = out.0 in ground arith in
    let other' = nonzero_head y ys (Distinct-split xs (item ∷ y ∷ ys) h.distinct).1.1.1 in
    (
      rw other (ap some (Nexts-split m.next xs (item ∷ y ∷ ys) 0 h.nexts).1.0),
      rw other' (Prevs-split m.previous 0 xs (item ∷ y ∷ ys) h.prevs).1.1.0,
    )
