-- ===== src/Base/Decimal.antt =====
-- Decimal numerals, as printf's %lu and %ld write them.
use Prim.Native.Nat.{ℕ, zero, suc, ◌+◌, ◌/◌, ◌%◌}
use mathlib.Core.List.{List, [], ◌∷◌, ◌++◌}
use lexidb.Base.Int.{ℤ, pos, negsuc}
use lexidb.Base.Tests.{ltb, if◌then◌else◌}

-- A number has fewer digits than the fuel of `decimal`.
unfoldable pub digits_of : ℕ → ℕ → List ℕ
digits_of zero n = []
digits_of (suc fuel) n =
    let more = digits_of fuel (n / 10) ++ (48 + n % 10) ∷ [] in
    if ltb n 10 then (48 + n) ∷ [] else more

unfoldable pub decimal : ℕ → List ℕ
unfolding digits_of
decimal n = digits_of (n + 1) n

unfoldable pub decimal_ℤ : ℤ → List ℕ
unfolding decimal
decimal_ℤ (pos n) = decimal n
decimal_ℤ (negsuc n) = b'-' ∷ decimal (n + 1)
