-- ===== src/Client/Exchange.antt =====
-- One call of the generated client: it is logged, and its reply decides.
use vassago_sdk.Prelude.{ℕ, List, Text, Result, label_error, map_result}
use vassago_sdk.Prelude.Effects.{Io, ask}
use vassago_sdk.Client.{Event, Request}
use vassago_sdk.Client.Wire.{Pb, Rpc, Reply}

-- The replies of the generated clients, each by the log up to its call.
abbrev pub Api : Pb → Type 0
Api pb = (q : Rpc) → List Event → Result (Reply pb q)

module _ {pb : Pb} (api : Api pb) (conn : ℕ) where
  abbrev pub exchange : (q : Rpc) → Io Event (Reply pb q)
  exchange q = ask (api q) (Event.rpc conn (Request.api q))

  -- The error behind its label, or what is made of the reply.
  abbrev pub answered : {A : Type 0} → Text → (q : Rpc) → (Reply pb q → A) → Io Event A
  answered label q f log = (map_result f (label_error label (exchange q log).0), (exchange q log).1)
