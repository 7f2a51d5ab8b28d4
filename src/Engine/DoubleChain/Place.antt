-- ===== src/Engine/DoubleChain/Place.antt =====
-- `insert`, `remove` and `erase` at a place within a chain.
use simplx.Base.{
  ℕ, ◌≡◌, ◌≢◌, refl, sym, ◌∙◌, ap, true, false, not, ◌&&◌, some, List, [], ◌∷◌, ◌++◌, arith, ◌==◌,
  if◌then◌else◌,
}
use simplx.Engine.ForwardChain.{set_next}
use simplx.Engine.ForwardChain.Linked.{mem}
use simplx.Engine.DoubleChain.{Memory, DoubleChain, Chained, set_unless_null, unlink, remove, erase}
use simplx.Engine.DoubleChain.Links.{
  first, final, Nexts, Prevs, Distinct, Holds, Prevs-frame, Nexts-split, Prevs-append, Prevs-split,
  Distinct-split, mem-final,
}
use simplx.Engine.DoubleChain.Relink.{
  Prevs-frame_unless, Prevs-relink, final-nonzero, first-away, middle-away, Distinct-drop, mem_ne,
  Nexts-unlink,
}

module _ (m : Memory) (c : DoubleChain) (xs : List ℕ) (item : ℕ) (ys : List ℕ) where
  abbrev pub p : ℕ
  p = final 0 xs

  abbrev pub q : ℕ
  q = first ys 0

  -- The links without the item.
  pub unlinked-Nexts :
      Holds m c (xs ++ item ∷ ys)
      → Nexts (set_next (set_unless_null m.next p q) item item) (xs ++ ys) 0
  unlinked-Nexts h = Nexts-unlink m.next xs item ys h.distinct h.nexts

  pub unlinked-Prevs :
      Holds m c (xs ++ item ∷ ys)
      → Prevs (set_next (set_unless_null m.previous q p) item item) 0 (xs ++ ys)
  unlinked-Prevs h =
      let parts = Prevs-split m.previous 0 xs (item ∷ ys) h.prevs in
      let d = Distinct-split xs (item ∷ ys) h.distinct in
      let out = middle-away xs item ys h.distinct in
      let e = Distinct-drop xs item ys h.distinct in
      Prevs-append _ 0 xs ys
        (Prevs-frame _ item item 0 xs out.1
          (Prevs-frame_unless m.previous q p 0 xs (first-away xs ys e) parts.0))
        (Prevs-frame _ item item p ys out.2 (Prevs-relink m.previous p item ys d.1.1.1 parts.1.1))

-- The ends of a chain without one of its items.
pub first-drop :
    (head : ℕ) (xs : List ℕ) (item : ℕ) (ys : List ℕ)
    → Distinct (xs ++ item ∷ ys)
    → head ≡ first (xs ++ item ∷ ys) 0
    → ((if final 0 xs == 0 then item == head else true) ≡ true)
      × ((if final 0 xs == 0 then first ys 0 else head) ≡ first (xs ++ ys) 0)
first-drop head [] item ys d h = (ground arith, refl)
first-drop head (x ∷ xs) item ys d h =
    let nz = final-nonzero x xs (Distinct-split (x ∷ xs) (item ∷ ys) d).0 in
    let other : (final x xs == 0) ≡ false = ground arith in (rw other, rw other h)

pub final-append :
    (before : ℕ) (xs ys : List ℕ) → final before (xs ++ ys) ≡ final (final before xs) ys
final-append before [] ys = refl
final-append before (x ∷ xs) ys = final-append x xs ys

pub final-drop :
    (tail : ℕ) (xs : List ℕ) (item : ℕ) (ys : List ℕ)
    → Distinct (xs ++ item ∷ ys)
    → tail ≡ final 0 (xs ++ item ∷ ys)
    → ((if first ys 0 == 0 then item == tail else true) ≡ true)
      × ((if first ys 0 == 0 then final 0 xs else tail) ≡ final 0 (xs ++ ys))
final-drop tail xs item [] d h =
    let e : tail ≡ item = h ∙ final-append 0 xs (item ∷ []) in
    (ground arith, sym (final-append 0 xs []))
final-drop tail xs item (y ∷ ys) d h =
    let nz = (Distinct-split xs (item ∷ y ∷ ys) d).1.1.1.0 in
    let other : (y == 0) ≡ false = ground arith in
    (rw other, rw other (h ∙ final-append 0 xs (item ∷ y ∷ ys) ∙ sym (final-append 0 xs (y ∷ ys))))

abbrev Removes : Memory → DoubleChain → List ℕ → ℕ → List ℕ → Chained → Type 0
Removes m c xs item ys r =
    Holds r.memory r.chain (xs ++ ys)
    × (r.memory.previous item ≡ item)
    × (r.memory.next item ≡ item)

unlink_eq :
    (m : Memory) (c : DoubleChain) (item p q head tail : ℕ)
    → m.previous item ≡ p
    → m.next item ≡ q
    → (if p == 0 then item == c.head else true) ≡ true
    → (if q == 0 then item == c.tail else true) ≡ true
    → (if p == 0 then q else c.head) ≡ head
    → (if q == 0 then p else c.tail) ≡ tail
    → unlink m c item
      ≡ some (record {
        memory = record {
          previous = set_next (set_unless_null m.previous q p) item item;
          next = set_next (set_unless_null m.next p q) item item;
        };
        chain = record { head = head; tail = tail };
      })
unfolding unlink
unlink_eq m c item p q head tail hp hq ah at hh ht = rw (hp, hq, ah, at, hh, ht)

unlink_lem :
    (m : Memory) (c : DoubleChain) (xs : List ℕ) (item : ℕ) (ys : List ℕ)
    → Holds m c (xs ++ item ∷ ys)
    → (r : Chained) × (unlink m c item ≡ some r) × Removes m c xs item ys r
unlink_lem m c xs item ys h =
    let heads = first-drop c.head xs item ys h.distinct h.front in
    let tails = final-drop c.tail xs item ys h.distinct h.back in
    (
      _,
      unlink_eq m c item (final 0 xs) (first ys 0) (first (xs ++ ys) 0) (final 0 (xs ++ ys))
          (Prevs-split m.previous 0 xs (item ∷ ys) h.prevs).1.0
          (Nexts-split m.next xs (item ∷ ys) 0 h.nexts).1.0 heads.0 tails.0 heads.1 tails.1,
      (
        record {
          front = refl;
          back = refl;
          nexts = unlinked-Nexts m c xs item ys h;
          prevs = unlinked-Prevs m c xs item ys h;
          distinct = Distinct-drop xs item ys h.distinct;
        },
        ground arith,
        ground arith,
      ),
    )

-- The links of an item in a chain do not point to the item.
not-free :
    (m : Memory) (c : DoubleChain) (xs : List ℕ) (item : ℕ) (ys : List ℕ)
    → Holds m c (xs ++ item ∷ ys)
    → (not (m.previous item == item) && not (m.next item == item)) ≡ true
not-free m c xs item ys h =
    let out = middle-away xs item ys h.distinct in
    let e = (Prevs-split m.previous 0 xs (item ∷ ys) h.prevs).1.0 in
    let g = (Nexts-split m.next xs (item ∷ ys) 0 h.nexts).1.0 in
    let before = final-ne item xs out.0 out.1 in
    let after = first-ne item ys out.0 out.2 in rw (e, g, before, after)
  where
    first-ne : (a : ℕ) (zs : List ℕ) → a ≢ 0 → mem a zs ≡ false → (first zs 0 == a) ≡ false
    first-ne a [] nz away = ground arith
    first-ne a (z ∷ zs) nz away = ground arith

    final-ne : (a : ℕ) (zs : List ℕ) → a ≢ 0 → mem a zs ≡ false → (final 0 zs == a) ≡ false
    final-ne a [] nz away = ground arith
    final-ne a (z ∷ zs) nz away =
        let other = mem_ne a (final z zs) (z ∷ zs) away (mem-final z zs) in ground arith

-- On a chain that holds `xs`, an item and `ys`, `remove` of the item fails no assert; the chain
-- then holds `xs` and `ys`, and the links of the item are free.
pub remove_lem :
    (m : Memory) (c : DoubleChain) (xs : List ℕ) (item : ℕ) (ys : List ℕ)
    → Holds m c (xs ++ item ∷ ys)
    → (r : Chained) × (remove m c item ≡ some r)
      × (Holds r.memory r.chain (xs ++ ys)
          × (r.memory.previous item ≡ item)
          × (r.memory.next item ≡ item))
unfolding remove
remove_lem m c xs item ys h =
    let done = unlink_lem m c xs item ys h in
    (done.0, rw (not-free m c xs item ys h) done.1, done.2)

-- On a chain that holds `xs`, an item and `ys`, `erase` at the item fails no assert; the chain
-- then holds `xs` and `ys`, the links of the item are free, and the iterator that is returned is
-- at the first item of `ys`, or at the end.
pub erase_lem :
    (m : Memory) (c : DoubleChain) (xs : List ℕ) (item : ℕ) (ys : List ℕ)
    → Holds m c (xs ++ item ∷ ys)
    → (r : Chained) × (erase m c item ≡ some (r, first ys 0))
      × (Holds r.memory r.chain (xs ++ ys)
          × (r.memory.previous item ≡ item)
          × (r.memory.next item ≡ item))
unfolding erase
erase_lem m c xs item ys h =
    let done = unlink_lem m c xs item ys h in
    let nz = (middle-away xs item ys h.distinct).0 in
    let other : (item == 0) ≡ false = ground arith in
    (
      done.0,
      rw (other, done.1)
          (ap (λ i. some (done.0, i)) (Nexts-split m.next xs (item ∷ ys) 0 h.nexts).1.0),
      done.2,
    )
