-- ===== src/Client/Sessions.antt =====
-- client/client.go: the calls for sessions and consolidation.
use vassago_sdk.Prelude.{ℕ, true, List, [], ◌∷◌, map, Option, some, Text, codes}
use vassago_sdk.Prelude.Int.{ℤ}
use vassago_sdk.Prelude.Effects.{Io}
use vassago_sdk.Client.{Event}
use vassago_sdk.Client.Wire.{Pb, WireMessage, Session, ConsolidateResponse, Rpc}
use vassago_sdk.Client.Exchange.{Api, answered}

-- `Message`
pub record Message : Type 0 where
  pub role : Text
  pub content : Text

pub record SessionInfo : Type 0 where
  pub id : Text
  pub title : Text
  pub source : Text
  pub message_count : ℤ
  pub last_active : ℤ

pub record SessionDetail : Type 0 where
  pub id : Text
  pub title : Text
  pub source : Text
  pub message_count : ℤ
  pub created_at : ℤ
  pub last_active_at : ℤ
  pub messages : List Message

-- The loop of `AddMessages`.
abbrev pub wire_messages : List Message → List WireMessage
wire_messages [] = []
wire_messages (m ∷ ms) = record { role = m.role; content = m.content } ∷ wire_messages ms

-- The loop of `GetSession`.
abbrev pub session_messages : List WireMessage → List Message
session_messages [] = []
session_messages (m ∷ ms) = record { role = m.role; content = m.content } ∷ session_messages ms

abbrev pub session_info : Session → SessionInfo
session_info s = record {
  id = s.id;
  title = s.title;
  source = s.source;
  message_count = s.message_count;
  last_active = s.last_active_at;
}

abbrev pub session_detail : Session → SessionDetail
session_detail s = record {
  id = s.id;
  title = s.title;
  source = s.source;
  message_count = s.message_count;
  created_at = s.created_at;
  last_active_at = s.last_active_at;
  messages = session_messages s.messages;
}

module _ {pb : Pb} (api : Api pb) (conn : ℕ) where
  unfoldable pub add_messages : Text → List Message → Io Event (Unit {0})
  add_messages session_id messages =
      answered api conn (codes "AddMessages") (Rpc.add_messages session_id (wire_messages messages))
        (λ r. tt)

  unfoldable pub end_session : Text → Io Event (Unit {0})
  end_session session_id =
      answered api conn (codes "EndSession") (Rpc.end_session session_id) (λ r. tt)

  unfoldable pub consolidate : ℤ → ℤ → Io Event ConsolidateResponse
  consolidate scope batch_size =
      answered api conn (codes "Consolidate") (Rpc.consolidate scope (some batch_size)) (λ r. r)

  unfoldable pub search_sessions : Text → ℤ → Io Event (List SessionInfo)
  search_sessions query limit =
      answered api conn (codes "SearchSessions") (Rpc.search_sessions query (some limit))
        (map session_info)

  unfoldable pub list_recent_sessions : ℤ → Io Event (List SessionInfo)
  list_recent_sessions limit =
      answered api conn (codes "ListSessions") (Rpc.list_sessions (some limit)) (map session_info)

  unfoldable pub get_session : Text → Io Event (Option SessionDetail)
  get_session session_id =
      answered api conn (codes "GetSession") (Rpc.get_session session_id (some true))
        (λ r. some (session_detail r))
