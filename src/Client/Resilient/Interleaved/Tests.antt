-- ===== src/Client/Resilient/Interleaved/Tests.antt =====
-- The theorems about several goroutines at a concrete daemon.
use vassago_sdk.Prelude.{ℕ, ◌*◌, ◌≡◌, refl, true, false, [], ◌∷◌, none, some, ok, err, codes}
use vassago_sdk.Prelude.Int.{pos, pos_part}
use vassago_sdk.Client.{Daemon, Event, insecure}
use vassago_sdk.Client.Resilient.{
  Floats, ResilientClient, ReconnectPolicy, get_client, closed_error,
}
use vassago_sdk.Client.Resilient.Interleaved.{
  idle, World, start, then_step, closes_client, close_client,
}
use vassago_sdk.Client.Resilient.Interleaved.Closing.{closed_stays}
use Prim.Native.Nat.{min}

-- Floats that are natural numbers.
abbrev whole : Floats
whole = record {
  Float = ℕ;
  of_duration = pos_part;
  mul = λ a b. a * b;
  min = λ a b. min a b;
  to_duration = pos;
}

-- A daemon that grants every dialling, as connection 7.
abbrev up : Daemon ℕ
up = record {
  load_cert = λ _. none;
  new_client = λ _. ok 7;
  close = λ _. none;
  wait = λ _. none;
  add_memory = λ _. ok none;
  get_memory = λ _. ok 0;
  remove_memory = λ _. ok tt;
  search = λ _. ok [];
  list_memories = λ _. ok [];
  get_hot_block = λ _. ok [];
  create_session = λ _. ok [];
}

abbrev one_retry : ReconnectPolicy ℕ
one_retry = record {
  max_retries = pos 1;
  initial_backoff = pos 500;
  max_backoff = pos 3000;
  multiplier = 2;
}

abbrev holding : ResilientClient ℕ
holding = record {
  cfg = record { address = codes "localhost:50051"; api_key = []; tls_cert = [] };
  policy = one_retry;
  client = some 7;
  closed = false;
}

abbrev resting : World ℕ
resting = record {
  client = holding;
  phases = λ i. idle;
  log = Event.new_client (codes "localhost:50051") (insecure ∷ []) ∷ [];
}

abbrev shut : World ℕ
shut = record resting { client = record holding { closed = true } }

closed_stays_example :
    let v = close_client 2 shut up in
    (v.client.closed ≡ true)
    × (get_client v.client ≡ err closed_error)
    × ((j : ℕ) → shut.phases j ≡ idle → v.phases j ≡ idle)
closed_stays_example =
    closed_stays up shut (close_client 2 shut up) refl (then_step start 2 (closes_client refl))
