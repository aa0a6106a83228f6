-- ===== src/Client/Resilient/Unlimited.antt =====
-- The loop of `connect` with `MaxRetries` at 0, which has no bound.
use vassago_sdk.Prelude.{
  ℕ, zero, suc, ◌+◌, ◌≤◌, ◌<◌, ◌≡◌, refl, ◌∙◌, inl, inr, true, List, ◌∷◌, none, some, arith,
  Result-cases, Error, ok, err,
}
use vassago_sdk.Prelude.Int.{ℤ, pos}
use vassago_sdk.Client.{Daemon, Event, connect}
use vassago_sdk.Client.Resilient.{
  Floats, ResilientClient, Outcome, within_retries, connect_loop, next_backoff, connect_again,
}
use vassago_sdk.Client.Resilient.Attempts.{waits, waits-connect}

module _ (fl : Floats) {Entry : Type 0} (d : Daemon Entry) (rc : ResilientClient fl.Float) (k : ℕ)
    (unlimited : rc.policy.max_retries ≡ pos 0) (patient : (log : List Event) → d.wait log ≡ none)
    (reachable : (log : List Event)
      → k ≤ waits log
      → (c : ℕ) × ((connect d rc.cfg log).0 ≡ ok c)) where
  -- It ends with a connection, after at most `m` waits more.
  abbrev pub Connects : ℕ → List Event → Outcome fl.Float (Unit {0}) → Type 0
  Connects m log o =
      (c : ℕ) × (log' : List Event) × (o ≡ some (ok tt, record rc { client = some c }, log'))
      × (waits log' ≤ waits log + m)

  always_within : (a : ℕ) → within_retries a rc.policy.max_retries ≡ true
  unfolding within_retries
  always_within a = rw unlimited (ground arith)

  -- A later attempt, by the outcome of its connect.
  attempt_ok :
      (fuel a : ℕ) (backoff : ℤ) (e : Error) (log : List Event) (c : ℕ)
      → let tried = connect d rc.cfg (Event.wait backoff ∷ log) in
        tried.0 ≡ ok c
        → connect_loop fl d (suc fuel) (suc a) backoff (some e) rc log
          ≡ some (ok tt, record rc { client = some c }, tried.1)
  unfolding connect_loop
  attempt_ok fuel a backoff e log c h =
      rw (always_within (suc a), connect_loop)
        (rw (patient (Event.wait backoff ∷ log), connect_loop) (rw (h, connect_loop) refl))

  attempt_err :
      (fuel a : ℕ) (backoff : ℤ) (e x : Error) (log : List Event)
      → let tried = connect d rc.cfg (Event.wait backoff ∷ log) in
        tried.0 ≡ err x
        → connect_loop fl d (suc fuel) (suc a) backoff (some e) rc log
          ≡ connect_loop fl d fuel
              (suc (suc a))
              (next_backoff fl d rc.policy backoff)
              (some x)
              rc
              tried.1
  unfolding connect_loop
  attempt_err fuel a backoff e x log h =
      rw (always_within (suc a), connect_loop)
        (rw (patient (Event.wait backoff ∷ log), connect_loop) (rw (h, connect_loop) refl))

  not_refused :
      (log : List Event) (x : Error) → k ≤ waits log → (connect d rc.cfg log).0 ≡ err x → ⊥
  not_refused log x h e = let (c, e') = reachable log h in cc (e, e')

  succeeds_now :
      (fuel m a : ℕ) (backoff : ℤ) (e : Error) (log : List Event) (c : ℕ)
      → (connect d rc.cfg (Event.wait backoff ∷ log)).0 ≡ ok c
      → Connects (suc m) log (connect_loop fl d (suc fuel) (suc a) backoff (some e) rc log)
  succeeds_now fuel m a backoff e log c h = (
    c,
    (connect d rc.cfg (Event.wait backoff ∷ log)).1,
    attempt_ok fuel a backoff e log c h,
    omega (arith, waits-connect d rc.cfg (Event.wait backoff ∷ log)),
  )

  loop-Connects :
      (fuel m a : ℕ) (backoff : ℤ) (e : Error) (log : List Event)
      → k ≤ suc (waits log + m)
      → m < fuel
      → Connects (suc m) log (connect_loop fl d fuel (suc a) backoff (some e) rc log)
  loop-Connects zero m a backoff e log h enough = absurd (omega arith)
  loop-Connects (suc fuel) zero a backoff e log h enough =
      let paused = Event.wait backoff ∷ log in
      elim (Result-cases (connect d rc.cfg paused).0) [
        | inl (c, e') ↦ succeeds_now fuel zero a backoff e log c e'
        | inr (x, e') ↦ absurd (not_refused paused x (omega (arith, h)) e')
      ]
  loop-Connects (suc fuel) (suc m) a backoff e log h enough =
      let paused = Event.wait backoff ∷ log in
      let tried = connect d rc.cfg paused in
      elim (Result-cases tried.0) [
        | inl (c, e') ↦ succeeds_now fuel (suc m) a backoff e log c e'
        | inr (x, e') ↦
            let (c, log', is, few) =
              loop-Connects fuel m (suc a) (next_backoff fl d rc.policy backoff) x tried.1
                (omega (arith, h, waits-connect d rc.cfg paused)) (omega arith) in
            (
              c,
              log',
              attempt_err fuel a backoff e x log e' ∙ is,
              omega (arith, few, waits-connect d rc.cfg paused),
            )
      ]

  first_ok :
      (fuel : ℕ) (log : List Event) (c : ℕ)
      → (connect d rc.cfg log).0 ≡ ok c
      → connect_again fl d (suc fuel) rc log
        ≡ some (ok tt, record rc { client = some c }, (connect d rc.cfg log).1)
  unfolding connect_again connect_loop
  first_ok fuel log c h = rw (always_within 0, connect_loop) (rw (h, connect_loop) refl)

  first_err :
      (fuel : ℕ) (log : List Event) (x : Error)
      → (connect d rc.cfg log).0 ≡ err x
      → connect_again fl d (suc fuel) rc log
        ≡ connect_loop fl d fuel 1 rc.policy.initial_backoff (some x) rc (connect d rc.cfg log).1
  unfolding connect_again connect_loop
  first_err fuel log x h = rw (always_within 0, connect_loop) (rw (h, connect_loop) refl)

  start-Connects :
      (fuel m : ℕ) (log : List Event)
      → k ≤ waits log + m
      → m < fuel
      → Connects m log (connect_again fl d (suc fuel) rc log)
  start-Connects fuel m log h enough = elim (Result-cases (connect d rc.cfg log).0) [
    | inl (c, e) ↦ (
      c,
      (connect d rc.cfg log).1,
      first_ok fuel log c e,
      omega (arith, waits-connect d rc.cfg log),
    )
    | inr (x, e) ↦ retry m h enough x e
  ]
    where
      retry :
          (m : ℕ)
          → k ≤ waits log + m
          → m < fuel
          → (x : Error) → (connect d rc.cfg log).0 ≡ err x
          → Connects m log (connect_again fl d (suc fuel) rc log)
      retry zero h enough x e = absurd (not_refused log x (omega arith) e)
      retry (suc m) h enough x e =
          let (c, log', is, few) =
            loop-Connects fuel m 0 rc.policy.initial_backoff x (connect d rc.cfg log).1
              (omega (arith, h, waits-connect d rc.cfg log)) (omega arith) in
          (c, log', first_err fuel log x e ∙ is, omega (arith, few, waits-connect d rc.cfg log))

  -- `connect` with `MaxRetries` at 0 and a context that does not end: if the daemon can be
  -- reached once the log holds `k` waits, then the loop ends, on fuel above k + 1, with a
  -- connection, after at most `k` waits.
  pub connect_again-Connects :
      (fuel : ℕ) (log : List Event) → suc k < fuel → Connects k log (connect_again fl d fuel rc log)
  connect_again-Connects zero log enough = absurd (omega arith)
  connect_again-Connects (suc fuel) log enough =
      start-Connects fuel k log (omega arith) (omega arith)
