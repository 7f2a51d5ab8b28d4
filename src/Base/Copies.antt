-- ===== src/Base/Copies.antt =====
-- Blocks of memory: `memcpy` into an array, and the block that starts at an index.
use Prim.Native.Nat.{ℕ, zero, suc, ◌+◌, ◌-◌, ◌≤◌, min}
use mathlib.Core.Path.{◌≡◌, refl, sym, ap, ◌∙◌}
use mathlib.Core.List.{List, [], ◌∷◌, ◌++◌}
use mathlib.Core.Option.{none, some}
use mathlib.Core.Bool.{◌&&◌}
use native.Mathlib.Omega.{arith}
use simplx.Base.Tests.{ltb, leb, if_same, if◌then◌else◌}
use simplx.Base.Lists.{
  drop-nil, length, set, get_elem?, take, drop, length-take, length-drop, get_elem?-take,
  get_elem?-drop,
}

shift_test :
    (at j n : ℕ) → (leb (suc at) (suc j) && ltb (suc j) (suc at + n)) ≡ (leb at j && ltb j (at + n))
shift_test at j n = ground arith

shift_sub : (j at : ℕ) → suc j - suc at ≡ j - at
shift_sub j at = omega arith

start_test : (j n : ℕ) → (leb 0 (suc j) && ltb (suc j) (0 + suc n)) ≡ (leb 0 j && ltb j (0 + n))
start_test j n = ground arith

start_sub : (j : ℕ) → suc j - 0 ≡ suc (j - 0)
start_sub j = omega arith

module _ {ℓ} {A : Type ℓ} where
  take-nil : (n : ℕ) → [] ≡ take {A = A} n []
  take-nil zero = refl
  take-nil (suc n) = refl

  -- `memcpy(dst + at, src, …)` of the whole of `src`. What would fall past the end of `dst` is
  -- dropped: the source never does that, and the theorems ask for room.
  unfoldable pub copy_to : List A → ℕ → List A → List A
  copy_to [] at src = []
  copy_to (d ∷ dst) (suc at) src = d ∷ copy_to dst at src
  copy_to (d ∷ dst) zero [] = d ∷ dst
  copy_to (d ∷ dst) zero (x ∷ src) = x ∷ copy_to dst zero src

  -- The `n` entries from index `at` on.
  abbrev pub slice : List A → ℕ → ℕ → List A
  slice xs at n = take n (drop at xs)

  copy_to-nil : (dst : List A) → copy_to dst 0 [] ≡ dst
  unfolding copy_to
  copy_to-nil [] = refl
  copy_to-nil (d ∷ dst) = refl

  pub length-copy_to :
      (dst : List A) (at : ℕ) (src : List A) → length (copy_to dst at src) ≡ length dst
  unfolding copy_to
  length-copy_to [] at src = refl
  length-copy_to (d ∷ dst) zero [] = refl
  length-copy_to (d ∷ dst) zero (x ∷ src) = ap suc (length-copy_to dst zero src)
  length-copy_to (d ∷ dst) (suc at) src = ap suc (length-copy_to dst at src)

  pub get_elem?-copy_to :
      (dst : List A) (at : ℕ) (src : List A) (j : ℕ)
      → at + length src ≤ length dst
      → get_elem? (copy_to dst at src) j
        ≡ (if leb at j && ltb j (at + length src) then get_elem? src (j - at) else get_elem? dst j)
  unfolding copy_to
  get_elem?-copy_to [] at [] j h = sym (if_same _ none)
  get_elem?-copy_to [] at (x ∷ src) j h = absurd (omega arith)
  get_elem?-copy_to (d ∷ dst) zero [] j h = ground arith
  get_elem?-copy_to (d ∷ dst) zero (x ∷ src) zero h = ground arith
  get_elem?-copy_to (d ∷ dst) zero (x ∷ src) (suc j) h =
      rw (start_test j (length src), start_sub j) (get_elem?-copy_to dst zero src j (omega arith))
  get_elem?-copy_to (d ∷ dst) (suc at) src zero h = ground arith
  get_elem?-copy_to (d ∷ dst) (suc at) src (suc j) h =
      rw (shift_test at j (length src), shift_sub j at)
        (get_elem?-copy_to dst at src j (omega arith))

  pub length-slice : (xs : List A) (at n : ℕ) → at + n ≤ length xs → length (slice xs at n) ≡ n
  length-slice xs at n h = omega (arith, length-take n (drop at xs), length-drop at xs)

  pub get_elem?-slice :
      (xs : List A) (at n i : ℕ)
      → get_elem? (slice xs at n) i ≡ (if ltb i n then get_elem? xs (at + i) else none)
  get_elem?-slice xs at n i =
      ground (arith, get_elem?-take n (drop at xs) i, get_elem?-drop at xs i)

  -- A block is cut in two.
  pub take_split :
      (m n : ℕ) (xs : List A) → m ≤ n → take n xs ≡ take m xs ++ take (n - m) (drop m xs)
  take_split zero n xs h = ap (λ k. take k xs) (omega arith)
  take_split (suc m) zero xs h = absurd (omega arith)
  take_split (suc m) (suc n) [] h = take-nil (suc n - suc m)
  take_split (suc m) (suc n) (x ∷ xs) h =
      let e : suc n - suc m ≡ n - m = omega arith in
      rw e (ap (λ ys. x ∷ ys) (take_split m n xs (omega arith)))

  pub take-take : (m n : ℕ) (xs : List A) → m ≤ n → take m (take n xs) ≡ take m xs
  take-take zero n xs h = refl
  take-take (suc m) zero xs h = absurd (omega arith)
  take-take (suc m) (suc n) [] h = refl
  take-take (suc m) (suc n) (x ∷ xs) h = ap (λ ys. x ∷ ys) (take-take m n xs (omega arith))

  pub drop-take : (m n : ℕ) (xs : List A) → drop m (take n xs) ≡ take (n - m) (drop m xs)
  drop-take zero n xs = ap (λ k. take k xs) (omega arith)
  drop-take (suc m) zero xs = let e : zero - suc m ≡ zero = omega arith in rw e
  drop-take (suc m) (suc n) [] = take-nil (suc n - suc m)
  drop-take (suc m) (suc n) (x ∷ xs) =
      let e : suc n - suc m ≡ n - m = omega arith in rw e (drop-take m n xs)

  -- No more is taken, or dropped, than there is.
  pub take-min : (n : ℕ) (xs : List A) → take (min n (length xs)) xs ≡ take n xs
  take-min n [] = sym (take-nil (min n 0)) ∙ take-nil n
  take-min zero (x ∷ xs) = let e : min 0 (suc (length xs)) ≡ 0 = omega arith in rw e
  take-min (suc n) (x ∷ xs) =
      let e : min (suc n) (suc (length xs)) ≡ suc (min n (length xs)) = omega arith in
      rw e (ap (λ ys. x ∷ ys) (take-min n xs))

  pub drop-min : (n : ℕ) (xs : List A) → drop (min n (length xs)) xs ≡ drop n xs
  drop-min zero [] = drop-nil (min 0 0)
  drop-min (suc n) [] = drop-nil (min (suc n) 0)
  drop-min zero (x ∷ xs) = let e : min 0 (suc (length xs)) ≡ 0 = omega arith in rw e
  drop-min (suc n) (x ∷ xs) =
      let e : min (suc n) (suc (length xs)) ≡ suc (min n (length xs)) = omega arith in
      rw e (drop-min n xs)

  -- One assignment is a block of one entry.
  pub set-copy_to : (xs : List A) (i : ℕ) (v : A) → set xs i v ≡ copy_to xs i (v ∷ [])
  unfolding copy_to
  set-copy_to [] zero v = refl
  set-copy_to [] (suc i) v = refl
  set-copy_to (x ∷ xs) zero v = ap (λ ys. v ∷ ys) (sym (copy_to-nil xs))
  set-copy_to (x ∷ xs) (suc i) v = ap (λ ys. x ∷ ys) (set-copy_to xs i v)

  -- Memory copied onto itself, and an assignment of what is there already.
  pub copy_to-take_self : (n : ℕ) (xs : List A) → copy_to xs 0 (take n xs) ≡ xs
  unfolding copy_to
  copy_to-take_self zero xs = copy_to-nil xs
  copy_to-take_self (suc n) [] = refl
  copy_to-take_self (suc n) (x ∷ xs) = ap (λ ys. x ∷ ys) (copy_to-take_self n xs)

  pub set-get_elem? : (xs : List A) (i : ℕ) (v : A) → get_elem? xs i ≡ some v → set xs i v ≡ xs
  set-get_elem? [] i v h = refl
  set-get_elem? (x ∷ xs) zero v h = ap (λ y. y ∷ xs) (cc)
  set-get_elem? (x ∷ xs) (suc i) v h = ap (λ ys. x ∷ ys) (set-get_elem? xs i v h)
