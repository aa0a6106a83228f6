-- ===== src/Client/Resilient/Interleaved/Leaks.antt =====
-- Methods of client/reconnect.go that overlap, on a client that holds a connection.
use vassago_sdk.Prelude.{ℕ, ◌==◌, ◌≡◌, false, List, ◌∷◌, none, some, ok}
use vassago_sdk.Client.{Daemon, Event, connect}
use vassago_sdk.Client.Resilient.{close}
use vassago_sdk.Client.Resilient.Balance.{Balanced}
use vassago_sdk.Client.Resilient.Interleaved.{idle, dialing, World, set_phase}

module _ {F Entry : Type 0} (d : Daemon Entry) (w : World F) (held_one : ℕ) (i j : ℕ)
    (apart : (i == j) ≡ false) (live : w.client.closed ≡ false)
    (holds : w.client.client ≡ some held_one) (i_idle : w.phases i ≡ idle)
    (j_idle : w.phases j ≡ idle) (balanced : Balanced d w.client.client w.log)
    (reachable : (log : List Event) → (c : ℕ) × ((connect d w.client.cfg log).0 ≡ ok c)) where
  -- Goroutine `i` has dropped the connection.
  abbrev dropped : World F
  dropped = record {
    client = record w.client { client = none };
    phases = set_phase i dialing w.phases;
    log = Event.close held_one ∷ w.log;
  }

  -- What the next dialling appends to a log.
  abbrev dial : List Event → List Event
  dial log = (connect d w.client.cfg log).1
