-- ===== src/Client/Resilient/Interleaved/Closing.antt =====
-- Close of client/reconnect.go among the steps of other goroutines.
use vassago_sdk.Prelude.{
  ℕ, ◌==◌, ==_iff, ◌≡◌, refl, ◌∙◌, inl, inr, true, Bool-cases, List, Option-cases, err, ap,
}
use vassago_sdk.Client.{Daemon, Event}
use vassago_sdk.Client.Resilient.{ResilientClient, get_client, close, closed_error}
use vassago_sdk.Client.Resilient.Interleaved.{
  Phase, idle, dialled, World, set_phase, begin_reconnect, store, close_client, Step, Steps, start,
  then_step, uses, begins, waits, dials, fails, gives_up, stores, closes_client,
}

-- A client that is closed, and no goroutine of those that were idle is in `reconnect`.
abbrev pub Shut : {F : Type 0} → (ℕ → Phase) → World F → Type 0
Shut phases w = (w.client.closed ≡ true) × ((j : ℕ) → phases j ≡ idle → w.phases j ≡ idle)

-- Another phase for a goroutine that is not idle.
set_phase-idle :
    (i j : ℕ) (p : Phase) (phases : ℕ → Phase)
    → ((phases i ≡ idle) → p ≡ idle)
    → phases j ≡ idle
    → set_phase i p phases j ≡ idle
set_phase-idle i j p phases h e = elim (Bool-cases (i == j)) [
  | inl same ↦ rw same (h (ap phases ((==_iff i j).0 same) ∙ e))
  | inr other ↦ rw other e
]

close-closed :
    {F Entry : Type 0} (d : Daemon Entry) (rc : ResilientClient F) (log : List Event)
    → (close d rc log).1.closed ≡ true
unfolding close
close-closed d rc log = elim (Option-cases rc.client) [
  | inl e ↦ rw (e, close) refl
  | inr (c, e) ↦ rw (e, close) refl
]

module _ {F Entry : Type 0} (d : Daemon Entry) (phases : ℕ → Phase) where
  Step-Shut : (i : ℕ) (w v : World F) → Shut phases w → Step i w d v → Shut phases v
  unfolding begin_reconnect store close_client close
  Step-Shut i w v (shut, still) (uses c q) = (shut, still)
  Step-Shut i w v (shut, still) (begins at live) = absurd (cc (shut, live))
  Step-Shut i w v (shut, still) (waits t at) = (shut, still)
  Step-Shut i w v (shut, still) (dials c at made) =
      (shut, λ j e. set_phase-idle i j (dialled c) w.phases (λ e'. cc (at, e')) (still j e))
  Step-Shut i w v (shut, still) (fails e at made) = (shut, still)
  Step-Shut i w v (shut, still) (gives_up at) =
      (shut, λ j e. set_phase-idle i j idle w.phases (λ e'. refl) (still j e))
  Step-Shut i w v (shut, still) (stores c at) =
      (shut, λ j e. set_phase-idle i j idle w.phases (λ e'. refl) (still j e))
  Step-Shut i w v (shut, still) (closes_client at) = (close-closed d w.client w.log, still)

  Steps-Shut : (w v : World F) → Shut phases w → Steps d w v → Shut phases v
  Steps-Shut w v h start = h
  Steps-Shut w v h (then_step {v = u} run i s) = Step-Shut i u v (Steps-Shut w u h run) s

-- Once the client is closed, it stays closed whatever the goroutines do: every method that starts
-- fails with "client is closed", and no goroutine that was not in `reconnect` comes to dial.
pub closed_stays :
    {F Entry : Type 0} (d : Daemon Entry) (w v : World F)
    → w.client.closed ≡ true
    → Steps d w v
    → (v.client.closed ≡ true)
      × (get_client v.client ≡ err closed_error)
      × ((j : ℕ) → w.phases j ≡ idle → v.phases j ≡ idle)
unfolding get_client
closed_stays d w v h run =
    let (shut, still) = Steps-Shut d w.phases w v (h, λ j e. e) run in (shut, rw shut refl, still)
