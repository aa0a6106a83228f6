-- ===== src/Client/Resilient/Balance.antt =====
-- No connection is lost: those that were opened and not closed are the one that the client holds.
use vassago_sdk.Prelude.{
  ℕ, zero, suc, ◌+◌, ◌≡◌, refl, ap, inl, inr, false, List, [], ◌∷◌, Option, none, some, arith,
  Bool-cases, Option-cases, Result-cases, Error, Result, ok, err,
}
use vassago_sdk.Prelude.Int.{ℤ}
use vassago_sdk.Prelude.Effects.{Io}
use vassago_sdk.Client.{Daemon, Event, Config, connect}
use vassago_sdk.Client.Resilient.{
  Floats, StatusReader, ResilientClient, Outcome, within_retries, pause, grown, connect_loop,
  connect_again, new_resilient_client, reconnect, get_client, is_connection_error, call_again,
  with_reconnect, ReconnectPolicy,
}

abbrev pub made : Result ℕ → ℕ
made (ok c) = 1
made (err e) = 0

abbrev pub held : Option ℕ → ℕ
held none = 0
held (some c) = 1

abbrev pub closes : List Event → ℕ
closes [] = 0
closes (Event.close c ∷ log) = suc (closes log)
closes (Event.wait t ∷ log) = closes log
closes (Event.load_cert c ∷ log) = closes log
closes (Event.new_client a o ∷ log) = closes log
closes (Event.rpc c r ∷ log) = closes log

module _ {Entry : Type 0} (d : Daemon Entry) where
  -- The dialled connections that the daemon granted.
  abbrev pub opens : List Event → ℕ
  opens [] = 0
  opens (Event.new_client a o ∷ log) = made (d.new_client (Event.new_client a o ∷ log)) + opens log
  opens (Event.close c ∷ log) = opens log
  opens (Event.wait t ∷ log) = opens log
  opens (Event.load_cert c ∷ log) = opens log
  opens (Event.rpc c r ∷ log) = opens log

  -- As many are open as the client holds.
  abbrev pub Balanced : Option ℕ → List Event → Type 0
  Balanced client log = opens log ≡ closes log + held client

  pub connect-balance :
      (cfg : Config) (log : List Event)
      → opens (connect d cfg log).1 + closes log
        ≡ opens log + closes (connect d cfg log).1 + made (connect d cfg log).0
  unfolding connect
  connect-balance cfg log = ground arith

  -- What holds of an outcome that comes with a client and a log.
  abbrev pub Keeps : {F A : Type 0} → Outcome F A → Type 0
  Keeps none = Unit
  Keeps (some (r, rc, log)) = Balanced rc.client log

  module _ (fl : Floats) where
    pause-balance :
        (a : ℕ) (backoff : ℤ) (log : List Event)
        → (opens (pause fl d a backoff log).1 ≡ opens log)
          × (closes (pause fl d a backoff log).1 ≡ closes log)
    unfolding pause
    pause-balance zero backoff log = (refl, refl)
    pause-balance (suc a) backoff log = (refl, refl)

    loop-Keeps :
        (fuel a : ℕ) (backoff : ℤ) (last : Option Error) (rc : ResilientClient fl.Float)
        (log : List Event)
        → rc.client ≡ none
        → Balanced rc.client log
        → Keeps (connect_loop fl d fuel a backoff last rc log)
    unfolding connect_loop
    loop-Keeps zero a backoff last rc log e h = tt
    loop-Keeps (suc fuel) a backoff last rc log e h =
        let paused = (pause fl d a backoff log).1 in
        let same = pause-balance a backoff log in
        let tried = (connect d rc.cfg paused).1 in
        let sum = connect-balance rc.cfg paused in
        let before : opens log ≡ closes log + 0 = rw (← ap held e) h in
        elim (Bool-cases (within_retries a rc.policy.max_retries)) [
          | inr over ↦ rw (over, connect_loop) h
          | inl inside ↦ elim (Option-cases (pause fl d a backoff log).0) [
            | inr (x, ended) ↦
                rw (inside, connect_loop) (rw (ended, connect_loop) (omega (arith, h, same)))
            | inl more ↦ elim (Result-cases (connect d rc.cfg paused).0) [
              | inl (c, got) ↦
                  rw (inside, connect_loop)
                    (rw (more, connect_loop)
                      (rw (got, connect_loop) (omega (arith, before, same, sum, ap made got))))
              | inr (x, failed) ↦
                  let next =
                    loop-Keeps fuel (suc a) (grown fl d a rc.policy backoff) (some x) rc tried e
                      (omega (arith, h, same, sum, ap made failed)) in
                  rw (inside, connect_loop)
                    (rw (more, connect_loop) (rw (failed, connect_loop) next))
            ]
          ]
        ]

    module _ (fuel : ℕ) where
      -- `connect` on a client that holds no connection.
      connect_again-Keeps :
          (rc : ResilientClient fl.Float) (log : List Event)
          → rc.client ≡ none
          → Balanced rc.client log
          → Keeps (connect_again fl d fuel rc log)
      unfolding connect_again
      connect_again-Keeps rc log e h = loop-Keeps fuel 0 rc.policy.initial_backoff none rc log e h

      -- `reconnect` closes the connection that it replaces.
      reconnect-Keeps :
          (rc : ResilientClient fl.Float) (log : List Event)
          → Balanced rc.client log
          → Keeps (reconnect fl d fuel rc log)
      unfolding reconnect
      reconnect-Keeps rc log h = elim (Bool-cases rc.closed) [
        | inl shut ↦ rw (shut, reconnect) h
        | inr live ↦ elim (Option-cases rc.client) [
          | inl e ↦ rw (live, reconnect) (rw (e, reconnect) (connect_again-Keeps rc log e h))
          | inr (c, e) ↦
              rw (live, reconnect)
                (rw (e, reconnect)
                  (connect_again-Keeps (record rc { client = none }) (Event.close c ∷ log) refl
                    (omega (arith, h, ap held e))))
        ]
      ]

      module _ (sr : StatusReader) {A : Type 0} (call : ℕ → Io Event A) where
        -- A call that neither opens nor closes a connection.
        abbrev pub Quiet : Type 0
        Quiet =
            (c : ℕ) (log : List Event)
            → (opens (call c log).1 ≡ opens log) × (closes (call c log).1 ≡ closes log)

        call_again-Keeps :
            (o : Outcome fl.Float (Unit {0}))
            → Quiet
            → Keeps o
            → Keeps (call_again fl d fuel sr call o)
        unfolding call_again
        call_again-Keeps none q h = tt
        call_again-Keeps (some (err e, rc, log)) q h = h
        call_again-Keeps (some (ok u, rc, log)) q h = elim (Result-cases (get_client rc)) [
          | inl (c, got) ↦ rw (got, call_again) (omega (arith, h, q c log))
          | inr (x, refused) ↦ rw (refused, call_again) h
        ]

        -- Every method that runs alone keeps the balance, whatever the daemon replies: the connections that were
        -- opened and not closed are exactly the one that the client holds, also after it failed to
        -- reconnect.
        pub with_reconnect-Keeps :
            (rc : ResilientClient fl.Float) (log : List Event)
            → Quiet
            → Balanced rc.client log
            → Keeps (with_reconnect fl d fuel sr call rc log)
        unfolding with_reconnect
        with_reconnect-Keeps rc log q h = elim (Result-cases (get_client rc)) [
          | inr (x, refused) ↦ rw (refused, with_reconnect) h
          | inl (c, got) ↦
              let first = (call c log).1 in
              let still : Balanced rc.client first = omega (arith, h, q c log) in
              elim (Result-cases (call c log).0) [
                | inl (a, done) ↦ rw (got, with_reconnect) (rw (done, with_reconnect) still)
                | inr (x, failed) ↦ elim (Bool-cases (is_connection_error sr x)) [
                  | inl lost ↦
                      rw (got, with_reconnect)
                        (rw (failed, with_reconnect)
                          (rw (lost, with_reconnect)
                            (call_again-Keeps (reconnect fl d fuel rc first) q
                              (reconnect-Keeps rc first still))))
                  | inr other ↦
                      rw (got, with_reconnect)
                        (rw (failed, with_reconnect) (rw (other, with_reconnect) still))
                ]
              ]
        ]

      -- A new client starts in balance, on a log in which every opened connection was closed.
      new_resilient_client-Keeps :
          (cfg : Config) (policy : ReconnectPolicy fl.Float) (log : List Event)
          → opens log ≡ closes log
          → Keeps (new_resilient_client fl d fuel cfg policy log)
      unfolding new_resilient_client
      new_resilient_client-Keeps cfg policy log h =
          connect_again-Keeps (record { cfg = cfg; policy = policy; client = none; closed = false })
            log refl (omega (arith, h))
