-- ===== src/Base/Windows.antt =====
-- A window of an array: the entries from an index on, going round at the end.
use Prim.Native.Nat.{ℕ, ◌+◌, ◌-◌, ◌≤◌, ◌<◌}
use mathlib.Core.Path.{◌≡◌, refl, sym, ap, ◌∙◌}
use mathlib.Core.Logic.{◌⊎◌}
use mathlib.Core.List.{List, [], ◌++◌, append_assoc}
use mathlib.Core.Option.{Option, none}
use native.Mathlib.Omega.{arith}
use simplx.Base.Tests.{ltb, if◌then◌else◌}
use simplx.Base.Lists.{
  length, length-append, take-append-drop, length-take, length-drop, take, drop, get_elem?,
  get_elem?_ext, get_elem?-append, get_elem?_beyond, get_elem?-drop,
}
use simplx.Base.Copies.{
  copy_to, slice, get_elem?-copy_to, get_elem?-slice, length-slice, length-copy_to, take-take,
}

module _ {A : Type 0} where
  -- `count` entries from index `at` on, going round at the end of the array.
  unfoldable pub window : List A → ℕ → ℕ → List A
  window buf at count = slice (buf ++ buf) at count

  pub window_zero : (buf : List A) (at : ℕ) → window buf at 0 ≡ []
  unfolding window
  window_zero buf at = refl

  pub length-window :
      (buf : List A) (at count : ℕ)
      → at ≤ length buf
      → count ≤ length buf
      → length (window buf at count) ≡ count
  unfolding window
  length-window buf at count h k =
      length-slice (buf ++ buf) at count (omega (arith, length-append buf buf))

  pub get_elem?-window :
      (buf : List A) (at count i : ℕ)
      → get_elem? (window buf at count) i ≡ (
          if ltb i count
          then if ltb (at + i) (length buf)
            then get_elem? buf (at + i)
            else get_elem? buf (at + i - length buf)
          else none)
  unfolding window
  get_elem?-window buf at count i =
      ground (arith, get_elem?-slice (buf ++ buf) at count i, get_elem?-append buf buf (at + i))

  -- Entries written just past a window extend it.
  pub window-copy_to :
      (buf xs : List A) (at count w : ℕ)
      → at ≤ length buf
      → w + length xs ≤ length buf
      → count + length xs ≤ length buf
      → (at + count ≡ w) ⊎ (at + count ≡ w + length buf)
      → window (copy_to buf w xs) at (count + length xs) ≡ window buf at count ++ xs
  window-copy_to buf xs at count w h k room next = get_elem?_ext _ _ λ i. ground (
    arith,
    get_elem?-window (copy_to buf w xs) at (count + length xs) i,
    length-copy_to buf w xs,
    get_elem?-copy_to buf w xs (at + i),
    get_elem?-copy_to buf w xs (at + i - length buf),
    get_elem?-append (window buf at count) xs i,
    length-window buf at count,
    get_elem?-window buf at count i,
    get_elem?_beyond xs (i - count),
  )

  -- Where a window's entry `i` stands in the array.
  abbrev pub spot : List A → ℕ → ℕ → Option A
  spot buf at i =
      if ltb (at + i) (length buf)
      then get_elem? buf (at + i)
      else get_elem? buf (at + i - length buf)

  -- A window is shortened at its front, if the entries that it keeps stay what they are.
  pub window-drop :
      (buf buf' : List A) (at at' count n : ℕ)
      → n ≤ count
      → ((i : ℕ) → i < count - n → spot buf' at' i ≡ spot buf at (n + i))
      → window buf' at' (count - n) ≡ drop n (window buf at count)
  window-drop buf buf' at at' count n h same = get_elem?_ext _ _ λ i. ground (
    arith,
    get_elem?-window buf' at' (count - n) i,
    get_elem?-drop n (window buf at count) i,
    get_elem?-window buf at count (n + i),
    same i,
  )

  -- The same of entries that are written in two blocks: up to the end of the array, and the rest
  -- at its start.
  pub window-copy_to_twice :
      (buf xs : List A) (at count w n : ℕ)
      → at < length buf
      → w + n ≡ length buf
      → n ≤ length xs
      → count + length xs ≤ length buf
      → (at + count ≡ w) ⊎ (at + count ≡ w + length buf)
      → window (copy_to (copy_to buf w (take n xs)) 0 (drop n xs)) at (count + length xs)
        ≡ window buf at count ++ xs
  window-copy_to_twice buf xs at count w n h end le room next =
      let zn : length (take n xs) ≡ n = omega (arith, length-take n xs) in
      let yn : length (drop n xs) ≡ length xs - n = length-drop n xs in
      let same = length-copy_to buf w (take n xs) in
      let one : window (copy_to buf w (take n xs)) at (count + length (take n xs))
          ≡ window buf at count ++ take n xs =
        window-copy_to buf (take n xs) at count w (omega arith) (omega arith) (omega arith) next in
      let both =
        window-copy_to (copy_to buf w (take n xs)) (drop n xs) at (count + length (take n xs)) 0
          (omega arith) (omega arith) (omega arith) (omega arith) in
      let sizes : count + length (take n xs) + length (drop n xs) ≡ count + length xs =
        omega arith in
      ap (window (copy_to (copy_to buf w (take n xs)) 0 (drop n xs)) at) (sym sizes)
      ∙ both
      ∙ ap (λ ys. ys ++ drop n xs) one
      ∙ append_assoc (window buf at count) (take n xs) (drop n xs)
      ∙ ap (λ ys. window buf at count ++ ys) (take-append-drop n xs)

  -- A window is the front of a longer one.
  pub take-window : (buf : List A) (at m n : ℕ) → m ≤ n → take m (window buf at n) ≡ window buf at m
  unfolding window
  take-window buf at m n h = take-take m n (drop at (buf ++ buf)) h
