-- ===== src/Client/Resilient/Attempts.antt =====
-- How the loop of `connect` ends, and behind which attempts and waits.
use vassago_sdk.Prelude.{
  ℕ, zero, suc, ◌+◌, ◌≤◌, ◌<◌, ◌≡◌, refl, inl, inr, true, false, List, [], ◌∷◌, some, arith, leb,
  lt→leb-false, le→leb, Option-cases, Result-cases, Error, ok, err, none, subst, sym, ap, ◌∙◌,
  codes, ◌++◌,
}
use vassago_sdk.Prelude.Decimal.{format_int, format_nat}
use vassago_sdk.Prelude.Int.{ℤ, pos}
use vassago_sdk.Client.{Daemon, Event, Config, connect}
use vassago_sdk.Client.Resilient.{
  Floats, ResilientClient, Outcome, within_retries, given_up, connect_loop, connect_again,
}

-- The waits in a log.
abbrev pub waits : List Event → ℕ
waits [] = 0
waits (Event.wait t ∷ log) = suc (waits log)
waits (Event.load_cert c ∷ log) = waits log
waits (Event.new_client a o ∷ log) = waits log
waits (Event.rpc c r ∷ log) = waits log
waits (Event.close c ∷ log) = waits log

module _ {Entry : Type 0} (d : Daemon Entry) where
  -- One attempt does not wait.
  pub waits-connect : (cfg : Config) (log : List Event) → waits (connect d cfg log).1 ≡ waits log
  unfolding connect
  waits-connect cfg log = ground arith

module _ (fl : Floats) {Entry : Type 0} (d : Daemon Entry) (rc : ResilientClient fl.Float) where
  -- How long the loop waits before attempt number `k + 1`: the initial backoff, which is multiplied
  -- from one wait to the next, up to the maximal one.
  abbrev backoff_at : ℕ → ℤ
  backoff_at zero = rc.policy.initial_backoff
  backoff_at (suc k) = fl.to_duration (
      fl.min (fl.mul (fl.of_duration (backoff_at k)) rc.policy.multiplier)
        (fl.of_duration rc.policy.max_backoff))

  -- Attempts number 0 to `k` from the log `log` on have failed, the last with the error `e`, and
  -- before each but the first the loop has waited; what they leave is the log `mid`.
  pub data Tried (log : List Event) : ℕ → Error → List Event → Type 0 where
    once : {e : Error} → (connect d rc.cfg log).0 ≡ err e → Tried log 0 e (connect d rc.cfg log).1
    again :
        {k : ℕ} {e e' : Error} {mid : List Event}
        → Tried log k e mid
        → d.wait (Event.wait (backoff_at k) ∷ mid) ≡ none
        → (connect d rc.cfg (Event.wait (backoff_at k) ∷ mid)).0 ≡ err e'
        → Tried log (suc k) e' (connect d rc.cfg (Event.wait (backoff_at k) ∷ mid)).1

  -- How a loop ends that may make `n + 2` attempts: the first has a connection; a later one has,
  -- behind attempts that failed; all `n + 2` have failed, and the error of the last is wrapped; or
  -- the context has ended in the wait behind fewer failed attempts.
  pub data Ended (n : ℕ) (log : List Event) : Outcome fl.Float (Unit {0}) → Type 0 where
    at_once :
        {c : ℕ}
        → (connect d rc.cfg log).0 ≡ ok c
        → Ended n log (some (ok tt, record rc { client = some c }, (connect d rc.cfg log).1))
    connected :
        {k c : ℕ} {e : Error} {mid : List Event}
        → k ≤ n
        → Tried log k e mid
        → d.wait (Event.wait (backoff_at k) ∷ mid) ≡ none
        → (connect d rc.cfg (Event.wait (backoff_at k) ∷ mid)).0 ≡ ok c
        → Ended n log (
            some (
              ok tt,
              record rc { client = some c },
              (connect d rc.cfg (Event.wait (backoff_at k) ∷ mid)).1,
            ))
    gave_up :
        {e : Error} {mid : List Event}
        → Tried log (suc n) e mid
        → Ended n log (
            some (
              err (
                  Error.wrap
                    (codes "failed to connect after " ++ (format_nat (suc n) ++ codes " attempts"))
                    e),
              rc,
              mid,
            ))
    cancelled :
        {k : ℕ} {e x : Error} {mid : List Event}
        → k ≤ n
        → Tried log k e mid
        → d.wait (Event.wait (backoff_at k) ∷ mid) ≡ some x
        → Ended n log (some (err x, rc, Event.wait (backoff_at k) ∷ mid))

module _ (fl : Floats) {Entry : Type 0} (d : Daemon Entry) (rc : ResilientClient fl.Float) (n : ℕ)
    (limit : rc.policy.max_retries ≡ pos (suc n)) where
  within_lem : (a : ℕ) → within_retries a (pos (suc n)) ≡ leb a (suc n)
  unfolding within_retries
  within_lem a = ground arith

  loop-Ended :
      (fuel m k : ℕ) (e : Error) (log mid : List Event)
      → Tried fl d rc log k e mid
      → m + k ≡ suc n
      → m < fuel
      → Ended fl d rc n log (connect_loop fl d fuel (suc k) (backoff_at fl d rc k) (some e) rc mid)
  unfolding connect_loop format_int
  loop-Ended zero m k e log mid tried h enough = absurd (omega arith)
  loop-Ended (suc fuel) zero k e log mid tried h enough =
      let outside : within_retries (suc k) rc.policy.max_retries ≡ false =
        rw (limit, within_lem (suc k)) (lt→leb-false (suc k) (suc n) (omega arith)) in
      let gives : connect_loop fl d (suc fuel) (suc k) (backoff_at fl d rc k) (some e) rc mid
          ≡ some (
            err (
                Error.wrap
                  (codes "failed to connect after " ++ (format_nat (suc n) ++ codes " attempts"))
                  e),
            rc,
            mid,
          ) =
        rw (outside, connect_loop) refl
        ∙ ap (λ m. some (err (given_up m (some e)), rc, mid)) limit in
      let all : k ≡ suc n = omega (arith, h) in
      subst (Ended fl d rc n log) (sym gives)
        (gave_up (subst (λ i. Tried fl d rc log i e mid) all tried))
  loop-Ended (suc fuel) (suc m) k e log mid tried h enough =
      let paused = Event.wait (backoff_at fl d rc k) ∷ mid in
      let inside : within_retries (suc k) rc.policy.max_retries ≡ true =
        rw (limit, within_lem (suc k)) (le→leb (suc k) (suc n) (omega arith)) in
      elim (Option-cases (d.wait paused)) [
        | inr (x, ends) ↦
            rw (inside, connect_loop) (rw (ends, connect_loop) (cancelled (omega arith) tried ends))
        | inl goes_on ↦ elim (Result-cases (connect d rc.cfg paused).0) [
          | inl (c, is) ↦
              rw (inside, connect_loop)
                (rw (goes_on, connect_loop)
                  (rw (is, connect_loop) (connected (omega arith) tried goes_on is)))
          | inr (x, is) ↦
              rw (inside, connect_loop)
                (rw (goes_on, connect_loop)
                  (rw (is, connect_loop)
                    (loop-Ended fuel m (suc k) x log (connect d rc.cfg paused).1
                      (again tried goes_on is) (omega arith) (omega arith))))
        ]
      ]

  -- `connect` with `MaxRetries` at n + 1 ends, on fuel above n + 2, in one of these ways: an attempt
  -- has a connection, and it is the first one, or at most number n + 2 behind attempts that all
  -- failed; exactly n + 2 attempts have failed, and the error is that of the last one, wrapped; or
  -- the context ended in a wait behind at most n + 1 failed attempts, and the error is the context's.
  -- Every attempt but the first comes behind a wait of the backoff of its number.
  pub connect_again-Ended :
      (fuel : ℕ) (log : List Event)
      → suc (suc n) < fuel
      → Ended fl d rc n log (connect_again fl d fuel rc log)
  unfolding connect_again connect_loop
  connect_again-Ended zero log enough = absurd (omega arith)
  connect_again-Ended (suc fuel) log enough =
      let inside : within_retries 0 rc.policy.max_retries ≡ true =
        rw (limit, within_lem 0) (le→leb 0 (suc n) (omega arith)) in
      elim (Result-cases (connect d rc.cfg log).0) [
        | inl (c, is) ↦ rw (inside, connect_loop) (rw (is, connect_loop) (at_once is))
        | inr (x, is) ↦
            rw (inside, connect_loop)
              (rw (is, connect_loop)
                (loop-Ended fuel (suc n) 0 x log (connect d rc.cfg log).1 (once is) (omega arith)
                  (omega arith)))
      ]
