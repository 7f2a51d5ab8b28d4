-- ===== src/Engine/DoubleChain/Ends.antt =====
-- Items put in and taken out: `push_front`, `push_back`, `insert`, `pop_front` and `pop_back`.
use simplx.Base.{
  ℕ, ◌≡◌, ◌≢◌, refl, sym, ◌∙◌, Bool, true, false, some, List, [], ◌∷◌, ◌++◌, arith, ◌==◌,
  if◌then◌else◌, Bool-cases, inl, inr, subst, append-nil,
}
use simplx.Engine.ForwardChain.{set_next}
use simplx.Engine.ForwardChain.Linked.{mem}
use simplx.Engine.DoubleChain.{
  Memory, DoubleChain, Chained, set_unless_null, push_front, push_back, insert, is_free,
}
use simplx.Engine.DoubleChain.Links.{
  first, final, Nexts, Distinct, Holds, Nexts-frame, Prevs-frame, Nexts-append, Nexts-split,
  Prevs-append, Prevs-split, Distinct-split, mem-append,
}
use simplx.Engine.DoubleChain.Relink.{
  Nexts-frame_unless, Nexts-relink, Nexts-final, final-nonzero, final-away, first-away,
  Distinct-insert, ==_self,
}
use simplx.Engine.DoubleChain.Place.{final-append}

-- An item whose `next` points to itself is in no chain.
pub Nexts-fresh :
    (next : ℕ → ℕ) (item : ℕ) (xs : List ℕ)
    → Distinct xs
    → Nexts next xs 0
    → next item ≡ item
    → mem item xs ≡ false
Nexts-fresh next item [] d n free = refl
Nexts-fresh next item (x ∷ xs) (nz, (once, d)) (h, n) free = elim (Bool-cases (item == x)) [
  | inl same ↦
      let e : item ≡ x = ground arith in
      let self : first xs 0 ≡ x = sym h ∙ subst (λ a. next a ≡ a) e free in
      absurd (first-self x xs nz once self)
  | inr other ↦ let rest = Nexts-fresh next item xs d n free in ground arith
]
  where
    first-self : (a : ℕ) (zs : List ℕ) → a ≢ 0 → mem a zs ≡ false → first zs 0 ≢ a
    first-self a [] nz away e = nz (sym e)
    first-self a (z ∷ zs) nz away e = ground arith

head-insert :
    (c : DoubleChain) (xs : List ℕ) (item : ℕ) (ys : List ℕ)
    → Distinct xs
    → c.head ≡ first (xs ++ ys) 0
    → (if final 0 xs == 0 then record c { head = item } else c).head ≡ first (xs ++ item ∷ ys) 0
head-insert c [] item ys d h = refl
head-insert c (x ∷ xs) item ys d h =
    let nz = final-nonzero x xs d in
    let other : (final x xs == 0) ≡ false = ground arith in rw other h

tail-insert :
    (c : DoubleChain) (b : Bool) (item : ℕ)
    → (if b then record c { head = item } else c).tail ≡ c.tail
tail-insert c true item = refl
tail-insert c false item = refl

abbrev alone : Memory → ℕ → Chained
alone m item = record {
  memory = record { previous = set_next m.previous item 0; next = set_next m.next item 0 };
  chain = record { head = item; tail = item };
}

module _ (m : Memory) (c : DoubleChain) where
  -- On a chain that holds `xs`, `push_front` of a free item fails no assert, and the chain then
  -- holds the item and after it `xs`.
  pub push_front_lem :
      (xs : List ℕ) (item : ℕ)
      → Holds m c xs
      → item ≢ 0
      → is_free m item ≡ true
      → (r : Chained) × (push_front m c item ≡ some r) × Holds r.memory r.chain (item ∷ xs)
  unfolding push_front
  push_front_lem [] item h nz free =
      let e : c.head ≡ 0 = h.front in
      let e' : c.tail ≡ 0 = h.back in
      (
        alone m item,
        rw (free, e, e'),
        record {
          front = refl;
          back = refl;
          nexts = (rw (==_self item), tt);
          prevs = (rw (==_self item), tt);
          distinct = (nz, (refl, tt));
        },
      )
  push_front_lem (x ∷ xs) item h nz free =
      let e : c.head ≡ x = h.front in
      let other : (x == 0) ≡ false = let first_nz = h.distinct.0 in ground arith in
      let out = Nexts-fresh m.next item (x ∷ xs) h.distinct h.nexts (ground arith) in
      (
        record {
          memory = record {
            previous = set_next (set_next m.previous x item) item 0;
            next = set_next m.next item x;
          };
          chain = record c { head = item };
        },
        rw (free, e, other),
        record {
          front = refl;
          back = h.back;
          nexts = (rw (==_self item), Nexts-frame m.next item x (x ∷ xs) 0 out h.nexts);
          prevs = (
            rw (==_self item),
            Prevs-frame _ item 0 item (x ∷ xs) out
                (rw (==_self x), Prevs-frame m.previous x item x xs h.distinct.1.0 h.prevs.1),
          );
          distinct = (nz, (out, h.distinct));
        },
      )

  -- On a chain that holds `xs`, `push_back` of a free item fails no assert, and the chain then
  -- holds `xs` and after it the item.
  pub push_back_lem :
      (xs : List ℕ) (item : ℕ)
      → Holds m c xs
      → item ≢ 0
      → is_free m item ≡ true
      → (r : Chained) × (push_back m c item ≡ some r) × Holds r.memory r.chain (xs ++ item ∷ [])
  unfolding push_back
  push_back_lem [] item h nz free =
      let e : c.head ≡ 0 = h.front in
      let e' : c.tail ≡ 0 = h.back in
      (
        alone m item,
        rw (free, e, e'),
        record {
          front = refl;
          back = refl;
          nexts = (rw (==_self item), tt);
          prevs = (rw (==_self item), tt);
          distinct = (nz, (refl, tt));
        },
      )
  push_back_lem (x ∷ xs) item h nz free =
      let e : c.head ≡ x = h.front in
      let other : (x == 0) ≡ false = let first_nz = h.distinct.0 in ground arith in
      let out = Nexts-fresh m.next item (x ∷ xs) h.distinct h.nexts (ground arith) in
      (
        record {
          memory = record {
            previous = set_next m.previous item (final x xs);
            next = set_next (set_next m.next (final x xs) item) item 0;
          };
          chain = record c { tail = item };
        },
        rw (free, e, other, h.back),
        record {
          front = h.front;
          back = sym (final-append x xs (item ∷ []));
          nexts =
              Nexts-append _ (x ∷ xs) (item ∷ []) 0
                (Nexts-frame _ item 0 (x ∷ xs) item out
                  (Nexts-final m.next item x xs 0 h.distinct h.nexts))
                (rw (==_self item), tt);
          prevs =
              Prevs-append _ 0 (x ∷ xs) (item ∷ [])
                (Prevs-frame m.previous item (final x xs) 0 (x ∷ xs) out h.prevs)
                (rw (==_self item), tt);
          distinct =
              Distinct-insert (x ∷ xs) item [] nz out refl
                (subst Distinct (sym (append-nil (x ∷ xs))) h.distinct);
        },
      )

  -- On a chain that holds `xs` and after it `y` and `ys`, `insert` of a free item at `y` fails no
  -- assert, and the chain then holds `xs`, the item, `y` and `ys`. At the end of a chain that
  -- holds `xs`, it puts the item after `xs`. The iterator that it returns is at the item.
  pub insert_lem :
      (xs : List ℕ) (item : ℕ) (ys : List ℕ)
      → Holds m c (xs ++ ys)
      → item ≢ 0
      → is_free m item ≡ true
      → (r : Chained) × (insert m c (first ys 0) item ≡ some (r, item))
        × Holds r.memory r.chain (xs ++ item ∷ ys)
  unfolding insert
  insert_lem xs item [] h nz free =
      let h' = subst (λ zs. Holds m c zs) (append-nil xs) h in
      let done = push_back_lem xs item h' nz free in (done.0, rw (free, done.1), done.2)
  insert_lem xs item (y ∷ ys) h nz free =
      let d = Distinct-split xs (y ∷ ys) h.distinct in
      let parts = Nexts-split m.next xs (y ∷ ys) 0 h.nexts in
      let prevs = Prevs-split m.previous 0 xs (y ∷ ys) h.prevs in
      let all = Nexts-fresh m.next item (xs ++ y ∷ ys) h.distinct h.nexts (ground arith) in
      let both = mem-append item xs (y ∷ ys) in
      let out : mem item xs ≡ false = ground arith in
      let out' : mem item (y ∷ ys) ≡ false = ground arith in
      let p : ℕ = final 0 xs in
      let e : m.previous y ≡ p = prevs.1.0 in
      let other : (y == 0) ≡ false = let y_nz = d.1.0 in ground arith in
      (
        record {
          memory = record {
            previous = set_next (set_next m.previous y item) item p;
            next = set_next (set_unless_null m.next p item) item y;
          };
          chain = if p == 0 then record c { head = item } else c;
        },
        rw (free, other, e),
        record {
          front = head-insert c xs item (y ∷ ys) d.0 h.front;
          back =
              tail-insert c (p == 0) item
              ∙ h.back
              ∙ final-append 0 xs (y ∷ ys)
              ∙ sym (final-append 0 xs (item ∷ y ∷ ys));
          nexts =
              Nexts-append _ xs (item ∷ y ∷ ys) 0
                (Nexts-frame _ item y xs item out (Nexts-relink m.next item xs y d.0 parts.0))
                (
                  rw (==_self item),
                  Nexts-frame _ item y (y ∷ ys) 0 out' (
                      Nexts-frame_unless m.next p item (y ∷ ys) 0
                        (final-away xs (y ∷ ys) h.distinct) parts.1),
                );
          prevs =
              Prevs-append _ 0 xs (item ∷ y ∷ ys)
                (Prevs-frame _ item p 0 xs out
                  (Prevs-frame m.previous y item 0 xs (first-away xs (y ∷ ys) h.distinct) prevs.0))
                (
                  rw (==_self item),
                  Prevs-frame _ item p item (y ∷ ys) out'
                      (rw (==_self y), Prevs-frame m.previous y item y ys d.1.1.0 prevs.1.1),
                );
          distinct = Distinct-insert xs item (y ∷ ys) nz out out' h.distinct;
        },
      )
