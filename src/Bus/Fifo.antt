-- ===== src/Bus/Fifo.antt =====
-- What a bounded queue between a producer and a consumer promises.
use simplx.Base.{
  ◌≡◌, ap, append-nil, take_all, arith, ℕ, ◌-◌, min, Bool, true, false, List, [], ◌∷◌, ◌++◌, length,
  take, drop, ltb, if◌then◌else◌,
}

module _ {ℓ} {A : Type ℓ} where
  -- How many of the entries are accepted: all or none, or as many as there is room for.
  unfoldable pub accepted : Bool → ℕ → List A → List A → ℕ
  accepted all capacity q xs =
      if all
      then (if ltb (capacity - length q) (length xs) then 0 else length xs)
      else min (length xs) (capacity - length q)

  -- The accepted ones, the first of `xs`, go behind what is there.
  unfoldable pub offer : Bool → ℕ → List A → List A → ℕ × List A
  unfolding accepted
  offer all capacity q xs = let n = accepted all capacity q xs in (n, q ++ take n xs)

  -- At most `n` entries are taken from the front.
  unfoldable pub poll : ℕ → List A → List A × List A
  poll n q = (take n q, drop n q)

  -- One entry is accepted unless the queue is full.
  unfoldable pub offer_one : ℕ → List A → A → Bool × List A
  offer_one capacity q x = if ltb (length q) capacity then (true, q ++ (x ∷ [])) else (false, q)

  pub offer_full :
      (capacity : ℕ) (q xs : List A)
      → ltb (capacity - length q) (length xs) ≡ true
      → offer true capacity q xs ≡ (0, q)
  unfolding offer
  offer_full capacity q xs full = rw full (ap (λ p. (0, p)) (append-nil q))

  pub offer_fits :
      (capacity : ℕ) (q xs : List A)
      → ltb (capacity - length q) (length xs) ≡ false
      → offer true capacity q xs ≡ (length xs, q ++ xs)
  unfolding offer
  offer_fits capacity q xs fits =
      rw fits (ap (λ p. (length xs, q ++ p)) (take_all (length xs) xs (omega arith)))
