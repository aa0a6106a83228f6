-- ===== src/Client/Resilient/Tests.antt =====
-- The reconnection theorems at a concrete daemon, and runs of the client.
use vassago_sdk.Prelude.{
  ℕ, ◌*◌, ◌≤◌, leb, le→leb, if◌then◌else◌, ◌≡◌, refl, false, List, [], ◌∷◌, Option, none, some,
  arith, Error, Result, ok, err, codes,
}
use vassago_sdk.Prelude.Int.{pos, pos_part}
use vassago_sdk.Client.{Daemon, Event, Config, insecure, connect, Request}
use vassago_sdk.Client.Calls.{get_memory}
use vassago_sdk.Client.Resilient.{
  Floats, StatusReader, ResilientClient, ReconnectPolicy, connect_again, connect_loop, reconnect,
  with_reconnect,
}
use vassago_sdk.Client.Resilient.Unlimited.{Connects, connect_again-Connects}
use vassago_sdk.Client.Resilient.Attempts.{waits, Ended, connect_again-Ended}
use vassago_sdk.Client.Resilient.Balance.{Keeps, with_reconnect-Keeps}
use vassago_sdk.Client.Resilient.Retry.{stuck_after_failed_reconnect}
use vassago_sdk.Prelude.Decimal.{format_int}
use Prim.Native.Nat.{min}

-- Floats that are natural numbers.
abbrev whole : Floats
whole = record {
  Float = ℕ;
  of_duration = pos_part;
  mul = λ a b. a * b;
  min = λ a b. min a b;
  to_duration = pos;
}

abbrev status_code : Error → Option ℕ
status_code Error.eof = none
status_code (Error.status c m) = some c
status_code (Error.message m) = none
status_code (Error.wrap l e) = status_code e
status_code (Error.wrap_with l e t) = status_code e

abbrev reader : StatusReader
reader = record {
  code_of = status_code;
  code_of-status = λ c m. refl;
  code_of-wrap = λ l e. refl;
  code_of-message = λ m. refl;
}

abbrev gone : {A : Type 0} → Result A
gone = err (Error.status 14 (codes "down"))

-- A daemon that can be dialled, as connection 7, and then refuses every call.
abbrev down : Daemon ℕ
down = record {
  load_cert = λ _. none;
  new_client = λ _. ok 7;
  close = λ _. none;
  wait = λ _. none;
  add_memory = λ _. gone;
  get_memory = λ _. gone;
  remove_memory = λ _. gone;
  search = λ _. gone;
  list_memories = λ _. gone;
  get_hot_block = λ _. gone;
  create_session = λ _. gone;
}

abbrev client_cfg : Config
client_cfg = record { address = codes "localhost:50051"; api_key = []; tls_cert = [] }

abbrev one_retry : ReconnectPolicy ℕ
one_retry = record {
  max_retries = pos 1;
  initial_backoff = pos 500;
  max_backoff = pos 3000;
  multiplier = 2;
}

abbrev holding : ResilientClient ℕ
holding = record { cfg = client_cfg; policy = one_retry; client = some 7; closed = false }

-- The log of the dialling of connection 7.
abbrev dialled : List Event
dialled = Event.new_client (codes "localhost:50051") (insecure ∷ []) ∷ []

connect_again-Ended_example :
    Ended whole down
      (record holding { client = none })
      0
      dialled
      (connect_again whole down 3 (record holding { client = none }) dialled)
connect_again-Ended_example =
    connect_again-Ended whole down (record holding { client = none }) 0 refl 3 dialled (omega arith)

with_reconnect-Keeps_example :
    Keeps down
      (with_reconnect whole down 3 reader (λ c. get_memory down c (codes "m1")) holding dialled)
unfolding get_memory
with_reconnect-Keeps_example =
    with_reconnect-Keeps down whole 3 reader (λ c. get_memory down c (codes "m1")) holding dialled
      (λ c log. (refl, refl)) (omega arith)

-- What reconnecting to that daemon does.
abbrev attempt_log : List Event → List Event
attempt_log log =
    Event.close 7
    ∷ Event.rpc 7 (Request.get_hot_block (codes "memory") (codes "health-check") (pos 1) none)
    ∷ Event.new_client (codes "localhost:50051") (insecure ∷ [])
    ∷ log

abbrev failed_log : List Event
failed_log = attempt_log (Event.wait (pos 500) ∷ attempt_log (Event.close 7 ∷ dialled))

abbrev failure : Error
failure =
    Error.wrap (codes "failed to connect after 1 attempts")
      (Error.wrap (codes "health check") (Error.status 14 (codes "down")))

reconnect_fails :
    reconnect whole down 3 holding dialled
    ≡ some (err failure, record holding { client = none }, failed_log)
unfolding reconnect connect_loop connect format_int
reconnect_fails = refl

stuck_after_failed_reconnect_example :
    with_reconnect whole down 3 reader
      (λ c. get_memory down c (codes "m1"))
      (record holding { client = none })
      failed_log
    ≡ some (
      err (Error.message (codes "client not connected")),
      record holding { client = none },
      failed_log,
    )
stuck_after_failed_reconnect_example =
    stuck_after_failed_reconnect whole down 3 reader holding (record holding { client = none })
      failure dialled failed_log refl reconnect_fails (λ c. get_memory down c (codes "m1"))
      failed_log

-- A daemon that cannot be dialled before two waits.
abbrev late : Daemon ℕ
late = record down {
  new_client = λ log. if leb 2 (waits log) then ok 7 else gone;
  get_hot_block = λ _. ok [];
}

late-connects :
    (log : List Event) → 2 ≤ waits log → (c : ℕ) × ((connect late client_cfg log).0 ≡ ok c)
unfolding connect
late-connects log h = (7, rw (le→leb 2 (waits log) h) refl)

abbrev unlimited : ResilientClient ℕ
unlimited = record holding { policy = record one_retry { max_retries = pos 0 }; client = none }

connect_again-Connects_example :
    Connects whole late unlimited 2 refl
      (λ log. refl)
      late-connects
      2
      []
      (connect_again whole late 4 unlimited [])
connect_again-Connects_example =
    connect_again-Connects whole late unlimited 2 refl (λ log. refl) late-connects 4 []
      (omega arith)
