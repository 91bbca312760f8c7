-- ===== src/Prelude/Integers.antt =====
-- Python's integers that `int` reads, and the decimal text that `str` gives.
use Prim.Native.Nat.{ℕ, zero, suc, ◌+◌, ◌/◌, ◌%◌}
use mathlib.Core.Bool.{true, false}
use mathlib.Core.List.{[], ◌∷◌}
use panamacompra_collector_b.Prelude.Tests.{ltb}
use panamacompra_collector_b.Prelude.Strings.{Text}

-- n, or -(n + 1).
pub data ℤ : Type 0 where
  pos : ℕ → ℤ
  negsuc : ℕ → ℤ

-- The digits of a number before a text. The fuel is the number of digits that may follow.
unfoldable pub digits_before : ℕ → ℕ → Text → Text
digits_before zero n text = (48 + n % 10) ∷ text
digits_before (suc fuel) n text = elim (ltb n 10) [
  | true ↦ (48 + n) ∷ text
  | false ↦ digits_before fuel (n / 10) ((48 + n % 10) ∷ text)
]

-- `str(n)` of a natural number.
unfoldable pub str : ℕ → Text
unfolding digits_before
str n = digits_before n n []
