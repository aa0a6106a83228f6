-- ===== src/Prelude/Effects.antt =====
-- Calls of the outside world: a log of what was asked, the newest first, and a reply that may
-- depend on all of it.
use vassago_sdk.Prelude.Errors.{Result, ok, err, Error, label_error, from_error}
use vassago_sdk.Prelude.Texts.{Text}
use mathlib.Core.Option.{Option}
use mathlib.Core.List.{List, ◌∷◌}

-- A computation that logs events of type `E` and may fail.
abbrev pub Io : Type 0 → Type 0 → Type 0
Io E A = List E → Result A × List E

abbrev pub bind_result : {E A B : Type 0} → Result A × List E → (A → Io E B) → Result B × List E
bind_result (ok a, log) f = f a log
bind_result (err e, log) f = (err e, log)

infixl 5 ◌>>=◌ ◌>>◌
abbrev pub ◌>>=◌ : {E A B : Type 0} → Io E A → (A → Io E B) → Io E B
◌>>=◌ m f log = bind_result (m log) f

abbrev pub ◌>>◌ : {E B : Type 0} → Io E (Unit {0}) → Io E B → Io E B
m >> k = m >>= λ _. k

abbrev pub return : {E A : Type 0} → A → Io E A
return a log = (ok a, log)

abbrev pub fail : {E A : Type 0} → Error → Io E A
fail e log = (err e, log)

-- One call: it is logged, and the reply decides.
abbrev pub issue : {E : Type 0} → (List E → Option Error) → E → Io E (Unit {0})
issue reply c log = (from_error tt (reply (c ∷ log)), c ∷ log)

-- A call that returns a value.
abbrev pub ask : {E A : Type 0} → (List E → Result A) → E → Io E A
ask reply c log = (reply (c ∷ log), c ∷ log)

-- `fmt.Errorf("label: %w", err)` around a call.
abbrev pub labelled : {E A : Type 0} → Text → Io E A → Io E A
labelled l m log = (label_error l (m log).0, (m log).1)

-- `defer`: the event `c` is logged after `m`, whatever `m` returns.
abbrev pub finally : {E A : Type 0} → E → Io E A → Io E A
finally c m log = ((m log).0, c ∷ (m log).1)
