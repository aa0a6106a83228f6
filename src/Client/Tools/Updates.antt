-- ===== src/Client/Tools/Updates.antt =====
-- UpdateSavedTool of client/client.go: which updates reach the request.
use vassago_sdk.Prelude.{◌+◌, ◌-◌, ◌%◌, ◌^◌, ◌≡◌, ◌⊎◌, refl, List, some, Text, codes, arith}
use vassago_sdk.Prelude.Int.{ℤ, pos, negsuc, ◌≤ℤ◌, pos_part, neg_part}
use vassago_sdk.Client.Tools.{Value, lookup, to_int32, update_request}

-- Two integers with the same low 32 bits.
abbrev pub SameLow : ℤ → ℤ → Type 0
SameLow a b = (pos_part a + neg_part b) % 2 ^ 32 ≡ (pos_part b + neg_part a) % 2 ^ 32

to_int32_lem :
    (v : ℤ)
    → (negsuc (2 ^ 31 - 1) ≤ℤ to_int32 v)
      × (to_int32 v ≤ℤ pos (2 ^ 31 - 1))
      × SameLow (to_int32 v) v
unfolding to_int32
to_int32_lem (pos n) = (ground arith, ground arith, ground arith)
to_int32_lem (negsuc n) = (ground arith, ground arith, ground arith)

-- A number is kept, or it is outside of 32 bits.
to_int32-keeps : (v : ℤ) → (to_int32 v ≡ v) ⊎ ((v ≤ℤ negsuc (2 ^ 31)) ⊎ (pos (2 ^ 31) ≤ℤ v))
unfolding to_int32
to_int32-keeps (pos n) = ground arith
to_int32-keeps (negsuc n) = ground arith

-- Where the updates hold an `int` under "priority", the request has a priority of 32 bits, a
-- number with the same low 32 bits: it is the `int` itself, unless that is outside of 32 bits.
pub update_request-priority :
    (id : Text) (updates : List (Text × Value)) (v : ℤ)
    → lookup (codes "priority") updates ≡ some (Value.int v)
    → (p : ℤ) × ((update_request id updates).priority ≡ some p)
      × (negsuc (2 ^ 31 - 1) ≤ℤ p)
      × (p ≤ℤ pos (2 ^ 31 - 1))
      × SameLow p v
      × ((p ≡ v) ⊎ ((v ≤ℤ negsuc (2 ^ 31)) ⊎ (pos (2 ^ 31) ≤ℤ v)))
unfolding update_request
update_request-priority id updates v h =
    let (lo, hi, same) = to_int32_lem v in (to_int32 v, rw h refl, lo, hi, same, to_int32-keeps v)
