-- ===== src/Client/Resilient/Interleaved.antt =====
-- client/reconnect.go with several goroutines: what each does between two locks is one step, and the
-- steps of different goroutines come in any order. `connect` dials without the lock.
pub mod Closing
pub mod Leaks
pub mod Sequential
mod Tests
use vassago_sdk.Prelude.{
  ℕ, ◌==◌, ◌≡◌, refl, arith, false, List, ◌∷◌, none, some, if◌then◌else◌, Error, ok, err,
}
use vassago_sdk.Prelude.Int.{ℤ}
use vassago_sdk.Client.{Daemon, Event, Request, connect}
use vassago_sdk.Client.Resilient.{ResilientClient, close}

-- Where a goroutine is in `reconnect`: not in it, in the loop of `connect`, or behind a
-- `Connect` that has made a connection.
pub data Phase : Type 0 where
  idle dialing : Phase
  dialled : ℕ → Phase

abbrev pub set_phase : ℕ → Phase → (ℕ → Phase) → ℕ → Phase
set_phase i p phases j = if i == j then p else phases j

-- The client that the goroutines share, where each of them is, and the log.
pub record World (F : Type 0) : Type 0 where
  pub client : ResilientClient F
  pub phases : ℕ → Phase
  pub log : List Event

module _ {F : Type 0} (i : ℕ) (w : World F) where
  -- The first lock of `reconnect`, on a client that is not closed.
  pub begin_reconnect : World F
  begin_reconnect = elim w.client.client [
    | none ↦ record w { phases = set_phase i dialing w.phases }
    | some c ↦ record {
      client = record w.client { client = none };
      phases = set_phase i dialing w.phases;
      log = Event.close c ∷ w.log;
    }
  ]

  -- The lock of `connect`, and its return.
  pub store : ℕ → World F
  store c = record w {
    client = record w.client { client = some c };
    phases = set_phase i idle w.phases;
  }

  -- `Close`
  pub close_client : {Entry : Type 0} → Daemon Entry → World F
  close_client d = let r = close d w.client w.log in record w { client = r.1; log = r.2 }

  -- What goroutine `i` may do next. The bound on the attempts is left out: a goroutine may give
  -- up at any time. So is the error of the call that leads to `reconnect`: a goroutine may begin one
  -- at any time while the client is open. So every run of the code is a sequence of these steps.
  pub data Step {Entry : Type 0} (d : Daemon Entry) : World F → Type 0 where
    uses : (c : ℕ) (q : Request) → Step d (record w { log = Event.rpc c q ∷ w.log })
    begins : w.phases i ≡ idle → w.client.closed ≡ false → Step d begin_reconnect
    waits : (t : ℤ) → w.phases i ≡ dialing → Step d (record w { log = Event.wait t ∷ w.log })
    dials :
        (c : ℕ)
        → w.phases i ≡ dialing
        → (connect d w.client.cfg w.log).0 ≡ ok c
        → Step d (record w {
          phases = set_phase i (dialled c) w.phases;
          log = (connect d w.client.cfg w.log).1;
        })
    fails :
        (e : Error)
        → w.phases i ≡ dialing
        → (connect d w.client.cfg w.log).0 ≡ err e
        → Step d (record w { log = (connect d w.client.cfg w.log).1 })
    gives_up : w.phases i ≡ dialing → Step d (record w { phases = set_phase i idle w.phases })
    stores : (c : ℕ) → w.phases i ≡ dialled c → Step d (store c)
    closes_client : w.phases i ≡ idle → Step d (close_client d)

-- A sequence of steps.
pub data Steps {F Entry : Type 0} (d : Daemon Entry) (w : World F) : World F → Type 0 where
  start : Steps d w w
  then_step : {v u : World F} → Steps d w v → (i : ℕ) → Step i v d u → Steps d w u

-- The phases of the other goroutines stay.
pub set_phase-other :
    (i j : ℕ) (p : Phase) (phases : ℕ → Phase)
    → (i == j) ≡ false
    → set_phase i p phases j ≡ phases j
set_phase-other i j p phases h = rw h refl

pub set_phase_lem : (i : ℕ) (p : Phase) (phases : ℕ → Phase) → set_phase i p phases i ≡ p
set_phase_lem i p phases = ground arith
