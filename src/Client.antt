-- ===== src/Client.antt =====
-- client/client.go and cauth/bearer.go: connecting to the daemon, and the calls that
-- the reconnecting client repeats. The daemon is a record of replies to the log of events; a
-- connection is the number that the dialling of it returned; memory entries are any type.
pub mod Wire
pub mod Calls
pub mod Exchange
pub mod Agents
pub mod Sessions
pub mod Todos
pub mod Cron
pub mod Skills
pub mod Tools
pub mod Tasks
pub mod Mnemo
pub mod Resilient
pub mod Agent
pub mod Chat
pub mod HotBlock
use vassago_sdk.Prelude.{
  ℕ, Bool, true, false, List, [], ◌∷◌, ◌++◌, Option, none, some, if◌then◌else◌, Text, codes, is_nil,
  Error, Result, ok, err, label_error,
}
use vassago_sdk.Prelude.Int.{ℤ, pos}
use vassago_sdk.Client.Wire.{Rpc}
use vassago_sdk.Prelude.Effects.{Io, bind_result, ◌>>=◌, ◌>>◌, return, issue, ask, labelled}

-- `Config`
pub record Config : Type 0 where
  pub address : Text
  pub api_key : Text
  pub tls_cert : Text

-- `cauth.BearerToken`
pub record BearerToken : Type 0 where
  pub token : Text

-- `cauth.NewBearerToken`
abbrev pub new_bearer_token : Text → BearerToken
new_bearer_token key = record { token = key }

-- `GetRequestMetadata`: the header lines, by name.
pub get_request_metadata : BearerToken → List (Text × Text)
get_request_metadata b =
    if is_nil b.token then [] else (codes "authorization", codes "Bearer " ++ b.token) ∷ []

-- The `grpc.DialOption`s in use.
pub data DialOption : Type 0 where
  insecure : DialOption
  tls : Text → DialOption
  per_rpc : BearerToken → DialOption

-- `pb.HotBlockConfig`
pub record HotBlockConfig : Type 0 where
  pub boost_categories : List Text
  pub suppress_categories : List Text
  pub boost_priority : ℤ

-- The requests, with their fields in the order of the Go calls; those of Client/Wire.antt are `api`.
pub data Request : Type 0 where
  add_memory : Text → Text → Text → Text → ℤ → Text → Request
  get_memory : Text → Request
  remove_memory : Text → Request
  search : Text → Text → Option ℤ → Request
  list_memories : Text → Option Text → Option ℤ → Request
  get_hot_block : Text → Text → ℤ → Option HotBlockConfig → Request
  create_session : Text → Text → Text → Request
  api : Rpc → Request

-- What reaches the outside: a certificate is read, a connection is made, used and closed, a wait.
pub data Event : Type 0 where
  load_cert : Text → Event
  new_client : Text → List DialOption → Event
  rpc : ℕ → Request → Event
  close : ℕ → Event
  wait : ℤ → Event

-- The replies, each by the log up to the call. `wait` replies with the context's error, if that
-- ends before the time does.
pub record Daemon (Entry : Type 0) : Type 0 where
  pub load_cert : List Event → Option Error
  pub new_client : List Event → Result ℕ
  pub close : List Event → Option Error
  pub wait : List Event → Option Error
  pub add_memory : List Event → Result (Option Entry)
  pub get_memory : List Event → Result Entry
  pub remove_memory : List Event → Result (Unit {0})
  pub search : List Event → Result (List Entry)
  pub list_memories : List Event → Result (List Entry)
  pub get_hot_block : List Event → Result Text
  pub create_session : List Event → Result Text

abbrev pub health_request : Request
health_request = Request.get_hot_block (codes "memory") (codes "health-check") (pos 1) none

module _ {Entry : Type 0} (d : Daemon Entry) where
  -- The certificate is read if one is named.
  transport_options : Config → Io Event (List DialOption)
  transport_options cfg = if is_nil cfg.tls_cert then return (insecure ∷ []) else do
    labelled (codes "load TLS cert") (issue d.load_cert (Event.load_cert cfg.tls_cert))
    return (tls cfg.tls_cert ∷ [])

  abbrev with_key : Config → List DialOption → List DialOption
  with_key cfg opts =
      if is_nil cfg.api_key then opts else opts ++ per_rpc (new_bearer_token cfg.api_key) ∷ []

  -- The check of a new connection, which closes it if it fails.
  check_health : ℕ → Io Event ℕ
  check_health conn log = elim (d.get_hot_block (rpc conn health_request ∷ log)) [
    | ok content ↦ (ok conn, rpc conn health_request ∷ log)
    | err e ↦ (
      err (Error.wrap (codes "health check") e),
      Event.close conn ∷ rpc conn health_request ∷ log,
    )
  ]

  -- `Connect`
  unfoldable pub connect : Config → Io Event ℕ
  unfolding transport_options check_health
  connect cfg = do
    opts ← transport_options cfg
    conn ←
        labelled (codes "connect")
          (ask d.new_client (Event.new_client cfg.address (with_key cfg opts)))
    check_health conn
