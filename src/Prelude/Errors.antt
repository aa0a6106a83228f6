-- ===== src/Prelude/Errors.antt =====
-- Go errors, and results of fallible calls.
use Prim.Native.Nat.{ℕ}
use mathlib.Core.Path.{◌≡◌, refl}
use mathlib.Core.Logic.{◌⊎◌, inl, inr}
use mathlib.Core.Option.{Option, none, some}
use mathlib.Core.List.{List}

-- An error value. `status` is what a gRPC call returns, with its code; `wrap_with` has a text behind
-- the error that it wraps too.
pub data Error : Type 0 where
  eof : Error
  status : ℕ → List ℕ → Error
  message : List ℕ → Error
  wrap : List ℕ → Error → Error
  wrap_with : List ℕ → Error → List ℕ → Error

-- `(value, error)`: the value is read only where the error is nil.
pub data Result {ℓ} (A : Type ℓ) : Type ℓ where
  ok : A → Result A
  err : Error → Result A

-- `error` alone: `none` is nil.
abbrev pub from_error {ℓ} : {A : Type ℓ} → A → Option Error → Result A
from_error a none = ok a
from_error a (some e) = err e

-- `fmt.Errorf("label: %w", err)` on the failure of a call.
abbrev pub label_error {ℓ} : {A : Type ℓ} → List ℕ → Result A → Result A
label_error l (ok a) = ok a
label_error l (err e) = err (wrap l e)

pub Result-cases {ℓ} :
    {A : Type ℓ} (r : Result A) → ((a : A) × (r ≡ ok a)) ⊎ ((e : Error) × (r ≡ err e))
Result-cases (ok a) = inl (a, refl)
Result-cases (err e) = inr (e, refl)

abbrev pub map_result {ℓ κ} : {A : Type ℓ} {B : Type κ} → (A → B) → Result A → Result B
map_result f (ok a) = ok (f a)
map_result f (err e) = err e
