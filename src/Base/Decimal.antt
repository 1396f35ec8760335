-- ===== src/Base/Decimal.antt =====
-- `std::to_string` on integers.
use Prim.Native.Nat.{ℕ, zero, suc, ◌+◌, ◌/◌, ◌%◌}
use mathlib.Core.Bool.{true, false}
use mathlib.Core.List.{[], ◌∷◌, ◌++◌}
use uidentity.Base.Tests.{ltb}
use uidentity.Base.Texts.{Bytes}
use uidentity.Base.Int.{ℤ, pos, negsuc}

-- The digits of a number; the fuel bounds how many there are.
unfoldable pub decimal : ℕ → ℕ → Bytes
decimal zero n = []
decimal (suc f) n = elim (ltb n 10) [
  | true ↦ (b'0' + n) ∷ []
  | false ↦ decimal f (n / 10) ++ (b'0' + n % 10) ∷ []
]

-- Twenty digits hold every 64-bit number.
unfoldable pub to_string : ℤ → Bytes
unfolding decimal
to_string (pos n) = decimal 20 n
to_string (negsuc n) = b'-' ∷ decimal 20 (suc n)
