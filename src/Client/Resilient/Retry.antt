-- ===== src/Client/Resilient/Retry.antt =====
-- When a method reconnects, and what a failed reconnection leaves behind.
use vassago_sdk.Prelude.{
  ℕ, zero, suc, ◌≡◌, ◌⊎◌, refl, subst, ap, ◌∙◌, inl, inr, true, false, List, ◌∷◌, Option, none,
  some, arith, Bool-cases, Option-cases, Result-cases, Error, ok, err, Text, codes, ◌↔◌,
}
use vassago_sdk.Prelude.Int.{ℤ}
use vassago_sdk.Prelude.Effects.{Io}
use vassago_sdk.Client.{Daemon, Event, connect}
use vassago_sdk.Client.Resilient.{
  Floats, StatusReader, ResilientClient, Outcome, within_retries, pause, grown, connect_loop,
  connect_again, reconnect, is_connection_error, with_reconnect,
}

module _ (sr : StatusReader) where
  -- The error of a client call that failed with gRPC status `c` counts as a connection error
  -- exactly for the codes Canceled (1) and Unavailable (14), through the label that the client
  -- puts before it.
  is_connection_error-wrap :
      (l m : Text) (c : ℕ)
      → (is_connection_error sr (Error.wrap l (Error.status c m)) ≡ true) ↔ ((c ≡ 14) ⊎ (c ≡ 1))
  unfolding is_connection_error
  is_connection_error-wrap l m c =
      let e : sr.code_of (Error.wrap l (Error.status c m)) ≡ some c =
        sr.code_of-wrap l (Error.status c m) ∙ sr.code_of-status c m in
      rw (e, is_connection_error) (ground arith)

module _ (fl : Floats) {Entry : Type 0} (d : Daemon Entry) (fuel : ℕ) (sr : StatusReader) where
  -- A loop that failed left the client as it was.
  abbrev Unmoved : ResilientClient fl.Float → Outcome fl.Float (Unit {0}) → Type 0
  Unmoved rc none = Unit
  Unmoved rc (some (ok u, rc', log)) = Unit
  Unmoved rc (some (err e, rc', log)) = rc' ≡ rc

  loop-Unmoved :
      (n a : ℕ) (backoff : ℤ) (last : Option Error) (rc : ResilientClient fl.Float)
      (log : List Event)
      → Unmoved rc (connect_loop fl d n a backoff last rc log)
  unfolding connect_loop
  loop-Unmoved zero a backoff last rc log = tt
  loop-Unmoved (suc n) a backoff last rc log =
      let paused = (pause fl d a backoff log).1 in
      elim (Bool-cases (within_retries a rc.policy.max_retries)) [
        | inr over ↦ rw (over, connect_loop) refl
        | inl inside ↦ elim (Option-cases (pause fl d a backoff log).0) [
          | inr (x, ended) ↦ rw (inside, connect_loop) (rw (ended, connect_loop) refl)
          | inl more ↦ elim (Result-cases (connect d rc.cfg paused).0) [
            | inl (c, got) ↦
                rw (inside, connect_loop) (rw (more, connect_loop) (rw (got, connect_loop) tt))
            | inr (x, failed) ↦
                rw (inside, connect_loop)
                  (rw (more, connect_loop)
                    (rw (failed, connect_loop)
                      (loop-Unmoved n (suc a) (grown fl d a rc.policy backoff) (some x) rc
                        (connect d rc.cfg paused).1)))
          ]
        ]
      ]

  failed-Unmoved :
      (rc rc' : ResilientClient fl.Float) (e : Error) (log log' : List Event)
      → connect_again fl d fuel rc log ≡ some (err e, rc', log')
      → rc' ≡ rc
  unfolding connect_again
  failed-Unmoved rc rc' e log log' h =
      subst (Unmoved rc) h (loop-Unmoved fuel 0 rc.policy.initial_backoff none rc log)

  -- A failed `reconnect` leaves no connection.
  reconnect_failed :
      (rc rc' : ResilientClient fl.Float) (e : Error) (log log' : List Event)
      → rc.closed ≡ false
      → reconnect fl d fuel rc log ≡ some (err e, rc', log')
      → (rc'.client ≡ none) × (rc'.closed ≡ false)
  unfolding reconnect
  reconnect_failed rc rc' e log log' live h = elim (Option-cases rc.client) [
    | inl free ↦
        let same = failed-Unmoved rc rc' e log log' (ground arith) in
        (
          ap (λ (x : ResilientClient fl.Float). x.client) same ∙ free,
          ap (λ (x : ResilientClient fl.Float). x.closed) same ∙ live,
        )
    | inr (c, held) ↦
        let same =
          failed-Unmoved (record rc { client = none }) rc' e (Event.close c ∷ log) log'
            (ground arith) in
        (
          ap (λ (x : ResilientClient fl.Float). x.client) same,
          ap (λ (x : ResilientClient fl.Float). x.closed) same ∙ live,
        )
  ]

  -- After a `reconnect` that failed, every later method fails with "client not connected",
  -- without contacting the daemon and without another attempt to reconnect, for ever.
  pub stuck_after_failed_reconnect :
      (rc rc' : ResilientClient fl.Float) (e : Error) (log log' : List Event)
      → rc.closed ≡ false
      → reconnect fl d fuel rc log ≡ some (err e, rc', log')
      → {A : Type 0} (call : ℕ → Io Event A) (later : List Event)
      → with_reconnect fl d fuel sr call rc' later
        ≡ some (err (Error.message (codes "client not connected")), rc', later)
  unfolding with_reconnect
  stuck_after_failed_reconnect rc rc' e log log' live h call later =
      let (gone, open_still) = reconnect_failed rc rc' e log log' live h in ground arith
