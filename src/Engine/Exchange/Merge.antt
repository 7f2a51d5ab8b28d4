-- ===== src/Engine/Exchange/Merge.antt =====
-- A sequence of which each entry went one of two ways, in order.
use simplx.Base.{ℕ, List, [], ◌∷◌, ◌++◌}

-- `Merge xs ys zs`: `zs` is `xs` and `ys` interleaved.
pub data Merge : List ℕ → List ℕ → List ℕ → Type 0 where
  nil : Merge [] [] []
  left : {xs ys zs : List ℕ} (x : ℕ) → Merge xs ys zs → Merge (x ∷ xs) ys (x ∷ zs)
  right : {xs ys zs : List ℕ} (y : ℕ) → Merge xs ys zs → Merge xs (y ∷ ys) (y ∷ zs)

all_right : (ws : List ℕ) → Merge [] ws ws
all_right [] = nil
all_right (w ∷ ws) = right w (all_right ws)

-- More entries that all went the second way.
pub Merge-right :
    {xs ys zs : List ℕ} (ws : List ℕ) → Merge xs ys zs → Merge xs (ys ++ ws) (zs ++ ws)
Merge-right ws nil = all_right ws
Merge-right ws (left y m) = left y (Merge-right ws m)
Merge-right ws (right y m) = right y (Merge-right ws m)

all_left : (ws : List ℕ) → Merge ws [] ws
all_left [] = nil
all_left (w ∷ ws) = left w (all_left ws)

pub Merge-lefts :
    {xs ys zs : List ℕ} (ws : List ℕ) → Merge xs ys zs → Merge (xs ++ ws) ys (zs ++ ws)
Merge-lefts ws nil = all_left ws
Merge-lefts ws (left y m) = left y (Merge-lefts ws m)
Merge-lefts ws (right y m) = right y (Merge-lefts ws m)
