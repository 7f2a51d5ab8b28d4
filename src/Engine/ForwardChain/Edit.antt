-- ===== src/Engine/ForwardChain/Edit.antt =====
-- `insert` and `erase` at an iterator, while a loop goes over the chain.
use simplx.Base.{
  ℕ, ◌≡◌, ◌≢◌, refl, sym, ◌∙◌, true, false, some, List, [], ◌∷◌, ◌++◌, arith, ◌==◌, if◌then◌else◌,
  subst,
}
use simplx.Engine.ForwardChain.{Memory, set_next, ForwardChain, insert, erase}
use simplx.Engine.ForwardChain.Linked.{mem, Linked, Holds}
use simplx.Engine.DoubleChain.{set_unless_null}
use simplx.Engine.DoubleChain.Links.{
  first, final, Nexts, Distinct, Nexts-frame, Nexts-append, Nexts-split, Distinct-split, mem-final,
  mem-append,
}
use simplx.Engine.DoubleChain.Relink.{
  Nexts-frame_unless, Nexts-relink, final-nonzero, final-away, middle-away, Distinct-drop,
  Distinct-insert, mem_ne, Nexts-unlink, ==_self,
}
use simplx.Engine.DoubleChain.Place.{first-drop, final-append}
use simplx.Engine.DoubleChain.Ends.{Nexts-fresh}

-- A chain that holds `xs` and whose last link is null, as `begin` leaves it.
pub record Begun (memory : Memory) (c : ForwardChain) (xs : List ℕ) : Type 0 where
  pub front : c.head ≡ first xs 0
  pub back : c.tail ≡ final 0 xs
  pub nexts : Nexts memory xs 0
  pub distinct : Distinct xs

Linked-Nexts :
    (memory : Memory) (x : ℕ) (xs : List ℕ) (last : ℕ)
    → Linked memory x xs last
    → memory last ≡ 0
    → (last ≡ final x xs) × Nexts memory (x ∷ xs) 0 × Distinct (x ∷ xs)
unfolding Linked
Linked-Nexts memory x [] last (h, (nz, self)) stop =
    (h, (subst (λ a. memory a ≡ 0) h stop, tt), (nz, (refl, tt)))
Linked-Nexts memory x (y ∷ ys) last (h, (nz, (once, l))) stop =
    let rest = Linked-Nexts memory y ys last l stop in (rest.0, (h, rest.1), (nz, (once, rest.2)))

-- What `begin` is shown to keep gives the stronger statement.
pub Holds-Begun :
    (memory : Memory) (c : ForwardChain) (xs : List ℕ)
    → Holds memory c xs
    → memory c.tail ≡ 0
    → Begun memory c xs
unfolding Holds
Holds-Begun memory c [] (h, t) stop = record { front = h; back = t; nexts = tt; distinct = tt }
Holds-Begun memory c (x ∷ xs) (h, l) stop =
    let parts = Linked-Nexts memory x xs c.tail l stop in
    record { front = h; back = parts.0; nexts = parts.1; distinct = parts.2 }

-- A loop stands between `xs` and `ys` of a chain that holds them, its last link null. `insert` of
-- a free item there fails no assert; the chain then holds `xs`, the item and `ys`, its last link
-- null, and the iterator that is returned stands before the item.
pub insert_lem :
    (memory : Memory) (c : ForwardChain) (xs : List ℕ) (item : ℕ) (ys : List ℕ)
    → Begun memory c (xs ++ ys)
    → item ≢ 0
    → memory item ≡ item
    → (memory' : Memory) × (c' : ForwardChain) × (insert memory c
          (record { previous = final 0 xs; current = first ys 0 })
          item
        ≡ some (memory', (c', record { previous = final 0 xs; current = item })))
      × Begun memory' c' (xs ++ item ∷ ys)
unfolding insert
insert_lem memory c xs item ys h nz free =
    let p : ℕ = final 0 xs in
    let q : ℕ = first ys 0 in
    let d = Distinct-split xs ys h.distinct in
    let parts = Nexts-split memory xs ys 0 h.nexts in
    let all = Nexts-fresh memory item (xs ++ ys) h.distinct h.nexts free in
    let both = mem-append item xs ys in
    let out : mem item xs ≡ false = ground arith in
    let out' : mem item ys ≡ false = ground arith in
    let other : (item == 0) ≡ false = ground arith in
    let self : (memory item == item) ≡ true = ground arith in
    (
      set_next (set_unless_null memory p item) item q,
      record { head = if p == 0 then item else c.head; tail = if q == 0 then item else c.tail },
      rw (other, self),
      record {
        front = front_lem c.head xs item ys d.0 h.front;
        back = back_lem c.tail xs item ys d.1 h.back;
        nexts =
            Nexts-append _ xs (item ∷ ys) 0
              (Nexts-frame _ item q xs item out (Nexts-relink memory item xs q d.0 parts.0))
              (
                rw (==_self item),
                Nexts-frame _ item q ys 0 out'
                    (Nexts-frame_unless memory p item ys 0 (final-away xs ys h.distinct) parts.1),
              );
        distinct = Distinct-insert xs item ys nz out out' h.distinct;
      },
    )
  where
    front_lem :
        (head : ℕ) (xs : List ℕ) (item : ℕ) (ys : List ℕ)
        → Distinct xs
        → head ≡ first (xs ++ ys) 0
        → (if final 0 xs == 0 then item else head) ≡ first (xs ++ item ∷ ys) 0
    front_lem head [] item ys d h = refl
    front_lem head (x ∷ xs) item ys d h =
        let nz = final-nonzero x xs d in
        let other : (final x xs == 0) ≡ false = ground arith in rw other h

    back_lem :
        (tail : ℕ) (xs : List ℕ) (item : ℕ) (ys : List ℕ)
        → Distinct ys
        → tail ≡ final 0 (xs ++ ys)
        → (if first ys 0 == 0 then item else tail) ≡ final 0 (xs ++ item ∷ ys)
    back_lem tail xs item [] d h = sym (final-append 0 xs (item ∷ []))
    back_lem tail xs item (y ∷ ys) d h =
        let other : (y == 0) ≡ false = let y_nz = d.0 in ground arith in
        rw other (h ∙ final-append 0 xs (y ∷ ys) ∙ sym (final-append 0 xs (item ∷ y ∷ ys)))

-- A loop stands at an item of a chain that holds `xs`, the item and `ys`, its last link null.
-- `erase` there fails no assert; the chain then holds `xs` and `ys`, its last link null, the link
-- of the item is free, and the iterator that is returned stands between `xs` and `ys`.
pub erase_lem :
    (memory : Memory) (c : ForwardChain) (xs : List ℕ) (item : ℕ) (ys : List ℕ)
    → Begun memory c (xs ++ item ∷ ys)
    → (memory' : Memory) × (c' : ForwardChain) × (erase memory c
          (record { previous = final 0 xs; current = item })
        ≡ some (memory', (c', record { previous = final 0 xs; current = first ys 0 })))
      × Begun memory' c' (xs ++ ys)
      × (memory' item ≡ item)
unfolding erase
erase_lem memory c xs item ys h =
    let p : ℕ = final 0 xs in
    let q : ℕ = first ys 0 in
    let e : memory item ≡ q = (Nexts-split memory xs (item ∷ ys) 0 h.nexts).1.0 in
    let out = middle-away xs item ys h.distinct in
    let other : (item == 0) ≡ false = let nz = out.0 in ground arith in
    (
      set_next (set_unless_null memory p q) item item,
      record { head = if p == 0 then q else c.head; tail = if item == c.tail then p else c.tail },
      rw (head_lem c.head xs item ys h.distinct h.front, other, e, next_lem item ys out.0 out.2),
      record {
        front = (first-drop c.head xs item ys h.distinct h.front).1;
        back = tail_lem c.tail xs item ys out.2 h.back;
        nexts = Nexts-unlink memory xs item ys h.distinct h.nexts;
        distinct = Distinct-drop xs item ys h.distinct;
      },
      rw (==_self item),
    )
  where
    head_lem :
        (head : ℕ) (xs : List ℕ) (item : ℕ) (ys : List ℕ)
        → Distinct (xs ++ item ∷ ys)
        → head ≡ first (xs ++ item ∷ ys) 0
        → (head == 0) ≡ false
    head_lem head [] item ys (nz, d) h = ground arith
    head_lem head (x ∷ xs) item ys (nz, d) h = ground arith

    next_lem :
        (item : ℕ) (ys : List ℕ) → item ≢ 0 → mem item ys ≡ false → (first ys 0 == item) ≡ false
    next_lem item [] nz away = ground arith
    next_lem item (y ∷ ys) nz away = ground arith

    tail_lem :
        (tail : ℕ) (xs : List ℕ) (item : ℕ) (ys : List ℕ)
        → mem item ys ≡ false
        → tail ≡ final 0 (xs ++ item ∷ ys)
        → (if item == tail then final 0 xs else tail) ≡ final 0 (xs ++ ys)
    tail_lem tail xs item [] away h =
        let e : tail ≡ item = h ∙ final-append 0 xs (item ∷ []) in
        rw (e, ==_self item) (sym (final-append 0 xs []))
    tail_lem tail xs item (y ∷ ys) away h =
        let e : tail ≡ final y ys = h ∙ final-append 0 xs (item ∷ y ∷ ys) in
        let other = mem_ne item (final y ys) (y ∷ ys) away (mem-final y ys) in
        rw (e, other) (sym (final-append 0 xs (y ∷ ys)))
