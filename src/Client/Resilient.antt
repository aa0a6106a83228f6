-- ===== src/Client/Resilient.antt =====
-- client/reconnect.go: the client that connects again after a connection error. The float
-- arithmetic of the backoff and gRPC's reading of a status are parameters; `none` is a loop that
-- has not ended within its fuel.
pub mod Attempts
pub mod Unlimited
pub mod Interleaved
pub mod Balance
pub mod Retry
pub mod Methods
mod Tests
use vassago_sdk.Prelude.{
  ◌≡◌, ℕ, zero, suc, ◌+◌, Bool, true, false, not, ◌&&◌, ◌||◌, List, [], ◌∷◌, ◌++◌, Option, none,
  some, ◌==◌, if◌then◌else◌, Text, codes, Error, Result, ok, err, label_error,
}
use vassago_sdk.Prelude.Int.{ℤ, pos, ltb_ℤ}
use vassago_sdk.Prelude.Decimal.{format_int}
use vassago_sdk.Prelude.Effects.{Io}
use vassago_sdk.Client.{Config, Daemon, Event, DialOption, insecure, connect}

-- `float64`, with what the backoff uses of it.
pub record Floats : Type 1 where
  pub Float : Type 0
  pub of_duration : ℤ → Float
  pub mul : Float → Float → Float
  pub min : Float → Float → Float
  pub to_duration : Float → ℤ

-- `status.FromError` of gRPC with the code of its result; `none` is false. It finds the status of
-- a wrapped error, and no status in other errors.
pub record StatusReader : Type 0 where
  pub code_of : Error → Option ℕ
  pub code_of-status : (c : ℕ) (m : Text) → code_of (Error.status c m) ≡ some c
  pub code_of-wrap : (l : Text) (e : Error) → code_of (Error.wrap l e) ≡ code_of e
  pub code_of-message : (m : Text) → code_of (Error.message m) ≡ none

-- `codes.Canceled` and `codes.Unavailable`
abbrev pub canceled : ℕ
canceled = 1

abbrev pub unavailable : ℕ
unavailable = 14

-- `ReconnectPolicy`; durations are in nanoseconds.
pub record ReconnectPolicy (Float : Type 0) : Type 0 where
  pub max_retries : ℤ
  pub initial_backoff : ℤ
  pub max_backoff : ℤ
  pub multiplier : Float

-- `DefaultReconnectPolicy`; `two` is the float 2.0.
abbrev pub default_reconnect_policy : {Float : Type 0} → Float → ReconnectPolicy Float
default_reconnect_policy two = record {
  max_retries = pos 10;
  initial_backoff = pos 500000000;
  max_backoff = pos 30000000000;
  multiplier = two;
}

-- `RawConnection`, by what `grpc.NewClient` says of an address and its options.
abbrev pub raw_connection : (Text → List DialOption → Result ℕ) → Text → Result ℕ
raw_connection new address = label_error (codes "dial") (new address (insecure ∷ []))

-- `ResilientClient`
pub record ResilientClient (Float : Type 0) : Type 0 where
  pub cfg : Config
  pub policy : ReconnectPolicy Float
  pub client : Option ℕ
  pub closed : Bool

abbrev is_zero : ℤ → Bool
is_zero (pos zero) = true
is_zero _ = false

-- The condition of the loop in `connect`.
pub within_retries : ℕ → ℤ → Bool
within_retries attempt max_retries = not (ltb_ℤ max_retries (pos attempt)) || is_zero max_retries

-- The error of a loop that gave up; with no attempt at all there is nothing to wrap.
abbrev pub given_up : ℤ → Option Error → Error
given_up max_retries none =
    Error.message (
      codes "failed to connect after " ++ (format_int max_retries ++ codes " attempts: %!w(<nil>)"))
given_up max_retries (some e) =
    Error.wrap (codes "failed to connect after " ++ (format_int max_retries ++ codes " attempts")) e

abbrev pub closed_error : Error
closed_error = Error.message (codes "client is closed")

abbrev pub not_connected : Error
not_connected = Error.message (codes "client not connected")

-- What a method returns: its result, the client and the log.
abbrev pub Outcome : Type 0 → Type 0 → Type 0
Outcome F A = Option (Result A × ResilientClient F × List Event)

-- `getClient`
pub get_client : {F : Type 0} → ResilientClient F → Result ℕ
get_client rc =
    if rc.closed
    then err closed_error
    else elim rc.client [ none ↦ err not_connected | some c ↦ ok c ]

-- `isConnectionError` on an error that is not nil.
pub is_connection_error : StatusReader → Error → Bool
is_connection_error sr e = elim (sr.code_of e) [
  | none ↦ false
  | some c ↦ c == unavailable || c == canceled
]

-- `Close`; the first field is its error.
pub close :
    {F Entry : Type 0}
    → Daemon Entry
    → ResilientClient F
    → List Event
    → Option Error × ResilientClient F × List Event
close d rc log = elim rc.client [
  | none ↦ (none, record rc { closed = true }, log)
  | some c ↦ (d.close (Event.close c ∷ log), record rc { closed = true }, Event.close c ∷ log)
]

module _ (fl : Floats) {Entry : Type 0} (d : Daemon Entry) where
  open fl use {Float}

  -- `min(backoff * multiplier, maxBackoff)`
  abbrev pub next_backoff : ReconnectPolicy Float → ℤ → ℤ
  next_backoff p backoff =
      fl.to_duration
        (fl.min (fl.mul (fl.of_duration backoff) p.multiplier) (fl.of_duration p.max_backoff))

  -- The wait before every attempt but the first.
  pub pause : ℕ → ℤ → List Event → Option Error × List Event
  pause zero backoff log = (none, log)
  pause (suc attempt) backoff log = (d.wait (Event.wait backoff ∷ log), Event.wait backoff ∷ log)

  abbrev pub grown : ℕ → ReconnectPolicy Float → ℤ → ℤ
  grown zero p backoff = backoff
  grown (suc attempt) p backoff = next_backoff p backoff

  -- The loop of `connect` from attempt number `attempt` on.
  pub connect_loop :
      ℕ → ℕ → ℤ → Option Error → ResilientClient Float → List Event → Outcome Float (Unit {0})
  unfolding pause within_retries
  connect_loop zero attempt backoff last rc log = none
  connect_loop (suc fuel) attempt backoff last rc log =
      elim (within_retries attempt rc.policy.max_retries) [
        | false ↦ some (err (given_up rc.policy.max_retries last), rc, log)
        | true ↦
            let paused = pause attempt backoff log in
            elim paused.0 [
              | some e ↦ some (err e, rc, paused.1)
              | none ↦
                  let tried = connect d rc.cfg paused.1 in
                  elim tried.0 [
                    | ok c ↦ some (ok tt, record rc { client = some c }, tried.1)
                    | err e ↦
                        connect_loop fuel (suc attempt) (grown attempt rc.policy backoff) (some e)
                          rc tried.1
                  ]
            ]
      ]

  module _ (fuel : ℕ) where
    -- `connect`
    pub connect_again : ResilientClient Float → List Event → Outcome Float (Unit {0})
    connect_again rc log = connect_loop fuel 0 rc.policy.initial_backoff none rc log

    -- `NewResilientClient`
    pub new_resilient_client :
        Config → ReconnectPolicy Float → List Event → Outcome Float (Unit {0})
    unfolding connect_again
    new_resilient_client cfg policy log =
        connect_again (record { cfg = cfg; policy = policy; client = none; closed = false }) log

    -- `reconnect`
    pub reconnect : ResilientClient Float → List Event → Outcome Float (Unit {0})
    unfolding connect_again
    reconnect rc log = if rc.closed then some (err closed_error, rc, log) else elim rc.client [
      | none ↦ connect_again rc log
      | some c ↦ connect_again (record rc { client = none }) (Event.close c ∷ log)
    ]

    module _ (sr : StatusReader) {A : Type 0} (call : ℕ → Io Event A) where
      -- The second call, on the client of the new connection.
      pub call_again : Outcome Float (Unit {0}) → Outcome Float A
      call_again none = none
      call_again (some (err e, rc, log)) = some (err e, rc, log)
      call_again (some (ok _, rc, log)) = elim (get_client rc) [
        | err e ↦ some (err e, rc, log)
        | ok c ↦ some ((call c log).0, rc, (call c log).1)
      ]

      -- What every method does: the call, and on a connection error one more after reconnecting.
      pub with_reconnect : ResilientClient Float → List Event → Outcome Float A
      unfolding call_again get_client is_connection_error
      with_reconnect rc log = elim (get_client rc) [
        | err e ↦ some (err e, rc, log)
        | ok c ↦
            let first = call c log in
            elim first.0 [
              | ok a ↦ some (ok a, rc, first.1)
              | err e ↦
                  if is_connection_error sr e
                  then call_again (reconnect rc first.1)
                  else some (err e, rc, first.1)
            ]
      ]
