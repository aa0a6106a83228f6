-- ===== src/Prelude/Trim.antt =====
-- `strings.TrimSpace`.
use vassago_sdk.Prelude.Texts.{Text}
use vassago_sdk.Prelude.Tests.{if◌then◌else◌}
use vassago_sdk.Prelude.Lists.{length, drop, is_nil}
use vassago_sdk.Prelude.Scan.{space_width, starts_line}
use Prim.Native.Nat.{ℕ, zero, suc}
use mathlib.Core.Bool.{Bool, true, false}
use mathlib.Core.List.{[], ◌∷◌}

-- The length of a space at the front, a newline included.
abbrev white_width : Text → ℕ
white_width s = if starts_line s then 1 else space_width s

-- At most as many spaces as the fuel are taken off; a space has at least one byte.
pub trim_left : ℕ → Text → Text
trim_left zero s = s
trim_left (suc fuel) s = elim (white_width s) [ zero ↦ s | suc w ↦ trim_left fuel (drop (suc w) s) ]

abbrev only_spaces : Text → Bool
only_spaces s = is_nil (trim_left (length s) s)

pub trim_right : Text → Text
unfolding trim_left
trim_right [] = []
trim_right (x ∷ xs) = elim (only_spaces (x ∷ xs)) [ true ↦ [] | false ↦ x ∷ trim_right xs ]

unfoldable pub trim_space : Text → Text
unfolding trim_left trim_right
trim_space s = trim_right (trim_left (length s) s)
