-- ===== src/Client/Resilient/Interleaved/Sequential.antt =====
-- reconnect of client/reconnect.go as steps of one goroutine: the steps say what the code does.
use vassago_sdk.Prelude.{ℕ, ◌≡◌, ◌∷◌, Option, none, some}
use vassago_sdk.Client.{Daemon, Event}
use vassago_sdk.Client.Resilient.{Floats, Outcome, connect_again}
use vassago_sdk.Client.Resilient.Interleaved.{idle, World, Steps}

-- Goroutine `i` gets from `w` to the client and the log of an outcome, and out of `reconnect`.
abbrev pub Reaches : {F Entry A : Type 0} → Daemon Entry → ℕ → World F → Outcome F A → Type 0
Reaches d i w none = Unit
Reaches {F = F} d i w (some (r, rc, log)) =
    (v : World F) × Steps d w v × (v.client ≡ rc) × (v.log ≡ log) × (v.phases i ≡ idle)

module _ (fl : Floats) {Entry : Type 0} (d : Daemon Entry) (i : ℕ) (w : World fl.Float) (fuel : ℕ)
    (at : w.phases i ≡ idle) where
  -- The branches of `reconnect`, by what the client holds.
  after_lock : Option ℕ → Outcome fl.Float (Unit {0})
  after_lock client = elim client [
    | none ↦ connect_again fl d fuel w.client w.log
    | some c ↦ connect_again fl d fuel (record w.client { client = none }) (Event.close c ∷ w.log)
  ]
