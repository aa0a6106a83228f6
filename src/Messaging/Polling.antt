-- ===== src/Messaging/Polling.antt =====
-- The polling loops of messaging/imessage_adapter.go and messaging/email_adapter.go: what their
-- selects choose from, and what arrives between their polls.
use vassago_sdk.Prelude.{ℕ, zero, suc, List, [], ◌∷◌, ◌++◌}

-- The cases of the `select` in the polling loop of an adapter: the ticker, the end of the context,
-- the closed adapter.
pub data Turn : Type 0 where
  tick cancelled stopped : Turn

-- The polls before the loop ends.
abbrev pub ticks : List Turn → ℕ
ticks [] = 0
ticks (tick ∷ turns) = suc (ticks turns)
ticks (cancelled ∷ turns) = 0
ticks (stopped ∷ turns) = 0

-- What arrives before poll `t`, by what arrives before each poll.
abbrev pub arrived : {A : Type 0} → (ℕ → List A) → ℕ → List A
arrived fresh zero = []
arrived fresh (suc t) = arrived fresh t ++ fresh t
