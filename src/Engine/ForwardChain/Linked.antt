-- ===== src/Engine/ForwardChain/Linked.antt =====
-- When a chain holds a list of items, and how that is kept when another link is written.
use simplx.Base.{
  ℕ, ◌≡◌, ◌≢◌, refl, sym, ◌∙◌, Bool, true, false, ◌||◌, List, [], ◌∷◌, ◌++◌, arith, ◌==◌,
  Bool-cases, inl, inr, subst,
}
use simplx.Engine.ForwardChain.{Memory, set_next, ForwardChain}

abbrev pub mem : ℕ → List ℕ → Bool
mem a [] = false
mem a (x ∷ xs) = (a == x) || mem a xs

-- From the item `x`, the links go through the items `xs`, and the last item is `last`. No link
-- points to itself, and no item comes twice; the link of the last item may hold anything else.
unfoldable pub Linked : Memory → ℕ → List ℕ → ℕ → Type 0
Linked memory x [] last = (last ≡ x) × ((x ≢ 0) × (memory x ≢ x))
Linked memory x (y ∷ ys) last =
    (memory x ≡ y) × ((x ≢ 0) × ((mem x (y ∷ ys) ≡ false) × Linked memory y ys last))

unfoldable pub Holds : Memory → ForwardChain → List ℕ → Type 0
Holds memory c [] = (c.head ≡ 0) × (c.tail ≡ 0)
Holds memory c (x ∷ xs) = (c.head ≡ x) × Linked memory x xs c.tail

apart_lem : (memory : Memory) (a x : ℕ) → memory x ≢ x → memory a ≡ a → (a == x) ≡ false
apart_lem memory a x self free = elim (Bool-cases (a == x)) [
  | inl same ↦ let e : a ≡ x = ground arith in absurd (self (subst (λ b. memory b ≡ b) e free))
  | inr different ↦ different
]

y_lem : (x y : ℕ) (ys : List ℕ) → mem x (y ∷ ys) ≡ false → y ≢ x
y_lem x y ys once e = ground arith

-- A link that points to itself is in no chain.
pub Linked-fresh :
    (memory : Memory) (a x : ℕ) (xs : List ℕ) (last : ℕ)
    → Linked memory x xs last
    → memory a ≡ a
    → mem a (x ∷ xs) ≡ false
unfolding Linked
Linked-fresh memory a x [] last (h, (nz, self)) free =
    let other = apart_lem memory a x self free in ground arith
Linked-fresh memory a x (y ∷ ys) last (h, (nz, (once, l))) free =
    let rest = Linked-fresh memory a y ys last l free in
    let self : memory x ≢ x = λ e. y_lem x y ys once (sym h ∙ e) in
    let other = apart_lem memory a x self free in ground arith

pub Linked-frame :
    (memory : Memory) (a v x : ℕ) (xs : List ℕ) (last : ℕ)
    → Linked memory x xs last
    → mem a (x ∷ xs) ≡ false
    → Linked (set_next memory a v) x xs last
unfolding Linked
Linked-frame memory a v x [] last l away = ground arith
Linked-frame memory a v x (y ∷ ys) last (h, (nz, (once, l))) away =
    (ground arith, (nz, (once, Linked-frame memory a v y ys last l (ground arith))))

pub Linked-last :
    (memory : Memory) (x : ℕ) (xs : List ℕ) (last : ℕ)
    → Linked memory x xs last
    → mem last (x ∷ xs) ≡ true
unfolding Linked
Linked-last memory x [] last l = ground arith
Linked-last memory x (y ∷ ys) last (h, (nz, (once, l))) =
    let rest = Linked-last memory y ys last l in ground arith

-- The last item is not null.
pub Linked-last_nonzero :
    (memory : Memory) (x : ℕ) (xs : List ℕ) (last : ℕ) → Linked memory x xs last → last ≢ 0
unfolding Linked
Linked-last_nonzero memory x [] last l = ground arith
Linked-last_nonzero memory x (y ∷ ys) last (h, (nz, (once, l))) =
    Linked-last_nonzero memory y ys last l

-- Nor is the first.
pub Linked-nonzero :
    (memory : Memory) (x : ℕ) (xs : List ℕ) (last : ℕ) → Linked memory x xs last → x ≢ 0
unfolding Linked
Linked-nonzero memory x [] last (h, (nz, self)) = nz
Linked-nonzero memory x (y ∷ ys) last (h, (nz, l)) = nz

abbrev pub Disjoint : List ℕ → List ℕ → Type 0
Disjoint xs ys = (a : ℕ) → mem a xs ≡ true → mem a ys ≡ false

mem-append : (a : ℕ) (xs ys : List ℕ) → mem a (xs ++ ys) ≡ (mem a xs || mem a ys)
mem-append a [] ys = refl
mem-append a (x ∷ xs) ys = let rest = mem-append a xs ys in ground arith

joined_lem :
    (x z : ℕ) (zs ys : List ℕ)
    → mem x (z ∷ zs) ≡ false
    → mem x ys ≡ false
    → mem x (z ∷ (zs ++ ys)) ≡ false
joined_lem x z zs ys once away = let both = mem-append x zs ys in ground arith

-- Two runs of links that share no item become one when the last link of the first is written.
pub Linked-join :
    (memory : Memory) (x : ℕ) (xs : List ℕ) (last y : ℕ) (ys : List ℕ) (end : ℕ)
    → Linked memory x xs last
    → Linked memory y ys end
    → Disjoint (x ∷ xs) (y ∷ ys)
    → Linked (set_next memory last y) x (xs ++ y ∷ ys) end
unfolding Linked
Linked-join memory x [] last y ys end (h, (nz, self)) m apart =
    let away : mem last (y ∷ ys) ≡ false = apart last (ground arith) in
    let once : mem x (y ∷ ys) ≡ false = apart x (ground arith) in
    (ground arith, (nz, (once, Linked-frame memory last y y ys end m away)))
Linked-join memory x (z ∷ zs) last y ys end (h, (nz, (once, l))) m apart =
    let there = Linked-last memory z zs last l in
    let away : mem x (y ∷ ys) ≡ false = apart x (ground arith) in
    let onward : Disjoint (z ∷ zs) (y ∷ ys) = λ a in_z. apart a (ground arith) in
    (
      ground arith,
      (
        nz,
        (joined_lem x z zs (y ∷ ys) once away, Linked-join memory z zs last y ys end l m onward),
      ),
    )
