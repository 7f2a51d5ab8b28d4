-- ===== src/Base/Words.antt =====
-- 64-bit unsigned words (`size_t`, `uint64_t`): a value is a number, each operation wraps.
use Prim.Native.Nat.{ℕ, ◌+◌, ◌-◌, ◌%◌, ◌^◌, ◌≤◌, ◌<◌}
use mathlib.Core.Path.{◌≡◌}
use native.Mathlib.Nat.{mod-eq_of_lt, mod_self}
use native.Mathlib.Omega.{arith}
use simplx.Base.Tests.{◌==◌, if◌then◌else◌, Bool-cases, ==_iff}
use mathlib.Core.Logic.{inl, inr}

abbrev pub word_mod : ℕ
word_mod = 2 ^ 64

abbrev pub add64 : ℕ → ℕ → ℕ
add64 a b = (a + b) % 2 ^ 64

abbrev pub sub64 : ℕ → ℕ → ℕ
sub64 a b = (a + 2 ^ 64 - b) % 2 ^ 64

-- An index that is at most one past the end, brought back into the range.
pub mod_of_le : (x c : ℕ) → 0 < c → x ≤ c → x % c ≡ (if x == c then 0 else x)
mod_of_le x c p h = elim (Bool-cases (x == c)) [
  | inl e ↦ rw (e, (==_iff x c).0 e) (mod_self c)
  | inr e ↦ rw e (mod-eq_of_lt (ground arith))
]
