-- ===== src/Engine/DoubleChain/Relink.antt =====
-- What one write at the end of a part of a chain does to the links of the parts.
use simplx.Base.{
  ℕ, ◌≡◌, ◌≢◌, sym, ◌∙◌, ap, true, false, List, [], ◌∷◌, ◌++◌, arith, ◌==◌, Bool-cases, inl, inr,
  subst,
}
use simplx.Engine.ForwardChain.{set_next}
use simplx.Engine.ForwardChain.Linked.{mem}
use simplx.Engine.DoubleChain.{set_unless_null}
use simplx.Engine.DoubleChain.Links.{
  first, final, Nexts, Prevs, Distinct, Nexts-frame, Prevs-frame, mem_zero, mem-final,
  Distinct-split, Distinct-append, Nexts-append, Nexts-split,
}

pub Nexts-frame_unless :
    (next : ℕ → ℕ) (a v : ℕ) (xs : List ℕ) (after : ℕ)
    → mem a xs ≡ false
    → Nexts next xs after
    → Nexts (set_unless_null next a v) xs after
Nexts-frame_unless next a v xs after away n = elim (Bool-cases (a == 0)) [
  | inl null ↦ rw null n
  | inr other ↦ rw other (Nexts-frame next a v xs after away n)
]

pub Prevs-frame_unless :
    (previous : ℕ → ℕ) (a v before : ℕ) (xs : List ℕ)
    → mem a xs ≡ false
    → Prevs previous before xs
    → Prevs (set_unless_null previous a v) before xs
Prevs-frame_unless previous a v before xs away p = elim (Bool-cases (a == 0)) [
  | inl null ↦ rw null p
  | inr other ↦ rw other (Prevs-frame previous a v before xs away p)
]

pub ==_self : (a : ℕ) → (a == a) ≡ true
==_self a = ground arith

written : (links : ℕ → ℕ) (a v : ℕ) → a ≢ 0 → set_next links a v ≡ set_unless_null links a v
written links a v nz = let other : (a == 0) ≡ false = ground arith in rw other

pub mem_ne : (a b : ℕ) (xs : List ℕ) → mem a xs ≡ false → mem b xs ≡ true → (a == b) ≡ false
mem_ne a b xs away there = elim (Bool-cases (a == b)) [
  | inl same ↦
      let e : b ≡ a = ground arith in
      let never : true ≡ false = sym there ∙ ap (λ c. mem c xs) e ∙ away in cc
  | inr other ↦ other
]

kept : (links : ℕ → ℕ) (a b v w : ℕ) → (a == b) ≡ false → links a ≡ w → set_next links b v a ≡ w
kept links a b v w other e = ground arith

-- The last `next` is written anew.
pub Nexts-final :
    (next : ℕ → ℕ) (v x : ℕ) (xs : List ℕ) (after : ℕ)
    → Distinct (x ∷ xs)
    → Nexts next (x ∷ xs) after
    → Nexts (set_next next (final x xs) v) (x ∷ xs) v
Nexts-final next v x [] after d n = (ground arith, tt)
Nexts-final next v x (y ∷ ys) after (nz, (once, d)) (h, n) = (
  kept next x (final y ys) v y (mem_ne x (final y ys) (y ∷ ys) once (mem-final y ys)) h,
  Nexts-final next v y ys after d n,
)

pub final-nonzero : (x : ℕ) (xs : List ℕ) → Distinct (x ∷ xs) → final x xs ≢ 0
final-nonzero x [] (nz, d) = nz
final-nonzero x (y ∷ ys) (nz, (once, d)) = final-nonzero y ys d

pub Nexts-relink :
    (next : ℕ → ℕ) (v : ℕ) (xs : List ℕ) (after : ℕ)
    → Distinct xs
    → Nexts next xs after
    → Nexts (set_unless_null next (final 0 xs) v) xs v
Nexts-relink next v [] after d n = tt
Nexts-relink next v (x ∷ xs) after d n =
    subst (λ links. Nexts links (x ∷ xs) v) (written next (final x xs) v (final-nonzero x xs d))
      (Nexts-final next v x xs after d n)

pub Prevs-relink :
    (previous : ℕ → ℕ) (v before : ℕ) (xs : List ℕ)
    → Distinct xs
    → Prevs previous before xs
    → Prevs (set_unless_null previous (first xs 0) v) v xs
Prevs-relink previous v before [] d p = tt
Prevs-relink previous v before (x ∷ xs) (nz, (once, d)) (h, p) =
    subst (λ links. Prevs links v (x ∷ xs)) (written previous x v nz)
      (ground arith, Prevs-frame previous x v x xs once p)

pub final-away : (xs ys : List ℕ) → Distinct (xs ++ ys) → mem (final 0 xs) ys ≡ false
final-away [] ys d = mem_zero ys d
final-away (x ∷ xs) ys d = (Distinct-split (x ∷ xs) ys d).2 (final x xs) (mem-final x xs)

pub first-away : (xs ys : List ℕ) → Distinct (xs ++ ys) → mem (first ys 0) xs ≡ false
first-away xs [] d = mem_zero xs (Distinct-split xs [] d).0
first-away xs (y ∷ ys) d = elim (Bool-cases (mem y xs)) [
  | inl there ↦
      let out : mem y (y ∷ ys) ≡ false = (Distinct-split xs (y ∷ ys) d).2 y there in ground arith
  | inr away ↦ away
]

-- An item of its own between two parts is in neither.
pub middle-away :
    (xs : List ℕ) (item : ℕ) (ys : List ℕ)
    → Distinct (xs ++ item ∷ ys)
    → (item ≢ 0) × (mem item xs ≡ false) × (mem item ys ≡ false)
middle-away xs item ys d =
    let parts = (Distinct-split xs (item ∷ ys) d).1 in
    (parts.0, first-away xs (item ∷ ys) d, parts.1.0)

-- The parts without the item.
pub Distinct-drop :
    (xs : List ℕ) (item : ℕ) (ys : List ℕ) → Distinct (xs ++ item ∷ ys) → Distinct (xs ++ ys)
Distinct-drop xs item ys d =
    let parts = Distinct-split xs (item ∷ ys) d in
    Distinct-append xs ys parts.0 parts.1.1.1 (λ a h. out a (parts.2 a h))
  where
    out : (a : ℕ) → mem a (item ∷ ys) ≡ false → mem a ys ≡ false
    out a h = ground arith

-- A free item, which is not in either part, put between them.
pub Distinct-insert :
    (xs : List ℕ) (item : ℕ) (ys : List ℕ)
    → item ≢ 0
    → mem item xs ≡ false
    → mem item ys ≡ false
    → Distinct (xs ++ ys)
    → Distinct (xs ++ item ∷ ys)
Distinct-insert xs item ys nz out_xs out_ys d =
    let parts = Distinct-split xs ys d in
    Distinct-append xs (item ∷ ys) parts.0 (nz, (out_ys, parts.1)) (apart parts.2)
  where
    apart :
        ((a : ℕ) → mem a xs ≡ true → mem a ys ≡ false)
        → (a : ℕ) → mem a xs ≡ true
        → mem a (item ∷ ys) ≡ false
    apart rest a h = elim (Bool-cases (a == item)) [
      | inl same ↦
          let e : a ≡ item = ground arith in
          let never : true ≡ false = sym h ∙ ap (λ b. mem b xs) e ∙ out_xs in ground arith
      | inr other ↦ let out = rest a h in ground arith
    ]

-- The `next`s when an item is taken out between two parts.
pub Nexts-unlink :
    (next : ℕ → ℕ) (xs : List ℕ) (item : ℕ) (ys : List ℕ)
    → Distinct (xs ++ item ∷ ys)
    → Nexts next (xs ++ item ∷ ys) 0
    → Nexts (set_next (set_unless_null next (final 0 xs) (first ys 0)) item item) (xs ++ ys) 0
Nexts-unlink next xs item ys distinct n =
    let parts = Nexts-split next xs (item ∷ ys) 0 n in
    let d = Distinct-split xs (item ∷ ys) distinct in
    let out = middle-away xs item ys distinct in
    let e = Distinct-drop xs item ys distinct in
    Nexts-append _ xs ys 0
      (Nexts-frame _ item item xs (first ys 0) out.1
        (Nexts-relink next (first ys 0) xs item d.0 parts.0))
      (Nexts-frame _ item item ys 0 out.2
        (Nexts-frame_unless next (final 0 xs) (first ys 0) ys 0 (final-away xs ys e) parts.1.1))
