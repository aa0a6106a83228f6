-- ===== src/Prelude/Decimal.antt =====
-- `fmt.Sprintf("%d", n)` of an integer.
use vassago_sdk.Prelude.Texts.{Text}
use vassago_sdk.Prelude.Tests.{ltb, if◌then◌else◌}
use vassago_sdk.Prelude.Int.{ℤ, pos, negsuc}
use Prim.Native.Nat.{ℕ, zero, suc, ◌+◌, ◌/◌, ◌%◌}
use mathlib.Core.List.{[], ◌∷◌, ◌++◌}

-- The decimal digits of `n`, which has at most as many as the fuel.
unfoldable pub digits : ℕ → ℕ → Text
digits zero n = []
digits (suc f) n =
    let rest = digits f (n / 10) in
    if ltb n 10 then (b'0' + n) ∷ [] else rest ++ (b'0' + n % 10) ∷ []

unfoldable pub format_nat : ℕ → Text
unfolding digits
format_nat n = digits (suc n) n

unfoldable pub format_int : ℤ → Text
unfolding format_nat
format_int (pos n) = format_nat n
format_int (negsuc n) = b'-' ∷ format_nat (suc n)
