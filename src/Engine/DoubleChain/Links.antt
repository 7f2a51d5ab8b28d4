-- ===== src/Engine/DoubleChain/Links.antt =====
-- When a double chain holds a list of items, and how the links of a part of it are kept.
use simplx.Base.{
  ℕ, ◌≡◌, ◌≢◌, refl, ◌∙◌, ap, true, false, ◌||◌, List, [], ◌∷◌, ◌++◌, arith, ◌==◌, Bool-cases, inl,
  inr,
}
use simplx.Engine.ForwardChain.{set_next}
use simplx.Engine.ForwardChain.Linked.{mem}
use simplx.Engine.DoubleChain.{Memory, DoubleChain}

-- The first item, or what stands after the list.
abbrev pub first : List ℕ → ℕ → ℕ
first [] after = after
first (x ∷ xs) after = x

-- The last item, or what stands before the list.
abbrev pub final : ℕ → List ℕ → ℕ
final before [] = before
final before (x ∷ xs) = final x xs

-- Each `next` leads to the item after it, the last one to `after`.
abbrev pub Nexts : (ℕ → ℕ) → List ℕ → ℕ → Type 0
Nexts next [] after = Unit {0}
Nexts next (x ∷ xs) after = (next x ≡ first xs after) × Nexts next xs after

-- Each `previous` leads to the item before it, the first one to `before`.
abbrev pub Prevs : (ℕ → ℕ) → ℕ → List ℕ → Type 0
Prevs previous before [] = Unit {0}
Prevs previous before (x ∷ xs) = (previous x ≡ before) × Prevs previous x xs

-- No item is null, and none comes twice.
abbrev pub Distinct : List ℕ → Type 0
Distinct [] = Unit {0}
Distinct (x ∷ xs) = (x ≢ 0) × ((mem x xs ≡ false) × Distinct xs)

pub record Holds (m : Memory) (c : DoubleChain) (xs : List ℕ) : Type 0 where
  pub front : c.head ≡ first xs 0
  pub back : c.tail ≡ final 0 xs
  pub nexts : Nexts m.next xs 0
  pub prevs : Prevs m.previous 0 xs
  pub distinct : Distinct xs

pub mem-append : (a : ℕ) (xs ys : List ℕ) → mem a (xs ++ ys) ≡ (mem a xs || mem a ys)
mem-append a [] ys = refl
mem-append a (x ∷ xs) ys = let rest = mem-append a xs ys in ground arith

pub Nexts-frame :
    (next : ℕ → ℕ) (a v : ℕ) (xs : List ℕ) (after : ℕ)
    → mem a xs ≡ false
    → Nexts next xs after
    → Nexts (set_next next a v) xs after
Nexts-frame next a v [] after away n = n
Nexts-frame next a v (x ∷ xs) after away (h, n) =
    (ground arith, Nexts-frame next a v xs after (ground arith) n)

pub Prevs-frame :
    (previous : ℕ → ℕ) (a v before : ℕ) (xs : List ℕ)
    → mem a xs ≡ false
    → Prevs previous before xs
    → Prevs (set_next previous a v) before xs
Prevs-frame previous a v before [] away p = p
Prevs-frame previous a v before (x ∷ xs) away (h, p) =
    (ground arith, Prevs-frame previous a v x xs (ground arith) p)

pub Nexts-append :
    (next : ℕ → ℕ) (xs ys : List ℕ) (after : ℕ)
    → Nexts next xs (first ys after)
    → Nexts next ys after
    → Nexts next (xs ++ ys) after
Nexts-append next [] ys after n k = k
Nexts-append next (x ∷ []) ys after (h, n) k = (h, k)
Nexts-append next (x ∷ y ∷ xs) ys after (h, n) k = (h, Nexts-append next (y ∷ xs) ys after n k)

pub Nexts-split :
    (next : ℕ → ℕ) (xs ys : List ℕ) (after : ℕ)
    → Nexts next (xs ++ ys) after
    → Nexts next xs (first ys after) × Nexts next ys after
Nexts-split next [] ys after n = (tt, n)
Nexts-split next (x ∷ []) ys after (h, n) = ((h, tt), n)
Nexts-split next (x ∷ y ∷ xs) ys after (h, n) =
    let parts = Nexts-split next (y ∷ xs) ys after n in ((h, parts.0), parts.1)

pub Prevs-append :
    (previous : ℕ → ℕ) (before : ℕ) (xs ys : List ℕ)
    → Prevs previous before xs
    → Prevs previous (final before xs) ys
    → Prevs previous before (xs ++ ys)
Prevs-append previous before [] ys p q = q
Prevs-append previous before (x ∷ xs) ys (h, p) q = (h, Prevs-append previous x xs ys p q)

pub Prevs-split :
    (previous : ℕ → ℕ) (before : ℕ) (xs ys : List ℕ)
    → Prevs previous before (xs ++ ys)
    → Prevs previous before xs × Prevs previous (final before xs) ys
Prevs-split previous before [] ys p = (tt, p)
Prevs-split previous before (x ∷ xs) ys (h, p) =
    let parts = Prevs-split previous x xs ys p in ((h, parts.0), parts.1)

pub mem_zero : (xs : List ℕ) → Distinct xs → mem 0 xs ≡ false
mem_zero [] d = refl
mem_zero (x ∷ xs) (nz, (once, d)) = let rest = mem_zero xs d in ground arith

pub mem-final : (x : ℕ) (xs : List ℕ) → mem (final x xs) (x ∷ xs) ≡ true
mem-final x [] = ground arith
mem-final x (y ∷ ys) = let rest = mem-final y ys in ground arith

pub Distinct-append :
    (xs ys : List ℕ)
    → Distinct xs
    → Distinct ys
    → ((a : ℕ) → mem a xs ≡ true → mem a ys ≡ false)
    → Distinct (xs ++ ys)
Distinct-append [] ys d e apart = e
Distinct-append (x ∷ xs) ys (nz, (once, d)) e apart =
    let here : mem x ys ≡ false = apart x (ground arith) in
    let both = mem-append x xs ys in
    (nz, (ground arith, Distinct-append xs ys d e (λ a h. apart a (ground arith))))

pub Distinct-split :
    (xs ys : List ℕ)
    → Distinct (xs ++ ys)
    → Distinct xs × Distinct ys × ((a : ℕ) → mem a xs ≡ true → mem a ys ≡ false)
Distinct-split [] ys d = (tt, d, λ a h. ground arith)
Distinct-split (x ∷ xs) ys (nz, (once, d)) =
    let rest = Distinct-split xs ys d in
    let both = mem-append x xs ys in
    ((nz, (ground arith, rest.0)), rest.1, apart_cons x xs ys (ground arith) rest.2)
  where
    apart_cons :
        (x : ℕ) (xs ys : List ℕ)
        → mem x ys ≡ false
        → ((a : ℕ) → mem a xs ≡ true → mem a ys ≡ false)
        → (a : ℕ) → mem a (x ∷ xs) ≡ true
        → mem a ys ≡ false
    apart_cons x xs ys out apart a h = elim (Bool-cases (a == x)) [
      | inl same ↦ let e : a ≡ x = ground arith in ap (λ b. mem b ys) e ∙ out
      | inr other ↦ apart a (ground arith)
    ]
