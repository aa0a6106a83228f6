-- ===== src/Messaging/Imessage.antt =====
-- messaging/imessage_adapter.go: the adapter for the Messages database. The database is a record
-- of the replies to the source's queries; the sender takes the text of a script to run.
pub mod Script
pub mod Osascript
pub mod Incoming
pub mod Poll
pub mod Order
pub mod Delivery
pub mod Database
pub mod Sending
mod Tests
use vassago_sdk.Prelude.{
  ℕ, zero, suc, ◌+◌, ◌/◌, ltb, Bool, true, false, not, ◌&&◌, ◌||◌, List, [], ◌∷◌, ◌++◌, Option,
  none, some, if◌then◌else◌, Text, codes, text_eq, has_prefix, length, is_nil, Error, Result, ok,
  err, label_error, map_result,
}
use vassago_sdk.Prelude.Int.{ℤ, pos, negsuc, ltb_ℤ}
use vassago_sdk.Prelude.Decimal.{format_int}
use vassago_sdk.Messaging.{MessageEvent, Channel}
use vassago_sdk.Messaging.Chunks.{Post, Service, send_split}

-- `iMessageRow`
pub record IMessageRow : Type 0 where
  pub rowid : ℤ
  pub text : Text
  pub handle_id : Text
  pub is_from_me : Bool
  pub date : ℤ
  pub room_name : Text
  pub cache_room : Text

-- What a row of the message query holds, a null as `none`.
pub record MessageColumns : Type 0 where
  pub rowid : ℤ
  pub text : Option Text
  pub is_from_me : ℤ
  pub date : ℤ
  pub cache_room : Option Text
  pub handle_id : Option Text

-- What a row of the chat query holds.
pub record ChatColumns : Type 0 where
  pub rowid : ℤ
  pub identifier : Option Text
  pub display_name : Option Text

-- `sql.DB` with the three queries of the source. A row whose scan fails is `none`. What the
-- database holds changes in time, so the message query also depends on the poll's number.
pub record Db : Type 0 where
  pub ping : Option Error
  pub messages : ℕ → ℤ → Result (List (Option MessageColumns))
  pub chats : Result (List (Option ChatColumns))
  pub max_rowid : Result (Option ℤ)
  pub close : Option Error

-- `iMessageQuerier`
pub record IMessageQuerier : Type 0 where
  pub query_messages : ℕ → ℤ → Result (List IMessageRow)
  pub query_chats : Result (List Channel)
  pub last_rowid : Result ℤ

-- The `String` of a nullable string.
abbrev string_of : Option Text → Text
string_of none = []
string_of (some t) = t

abbrev is_zero : ℤ → Bool
is_zero (pos zero) = true
is_zero _ = false

abbrev row_of : MessageColumns → IMessageRow
row_of c = record {
  rowid = c.rowid;
  text = string_of c.text;
  handle_id = string_of c.handle_id;
  is_from_me = not (is_zero c.is_from_me);
  date = c.date;
  room_name = string_of c.cache_room;
  cache_room = string_of c.cache_room;
}

-- The loop of `QueryMessages`.
unfoldable pub scan_messages : List (Option MessageColumns) → List IMessageRow
scan_messages [] = []
scan_messages (none ∷ rows) = scan_messages rows
scan_messages (some c ∷ rows) = row_of c ∷ scan_messages rows

abbrev chat_name : ChatColumns → Text
chat_name c = elim c.display_name [
  | none ↦ string_of c.identifier
  | some name ↦ if not (is_nil name) then name else string_of c.identifier
]

-- The loop of `QueryChats`.
unfoldable pub scan_chats : List (Option ChatColumns) → List Channel
scan_chats [] = []
scan_chats (none ∷ rows) = scan_chats rows
scan_chats (some c ∷ rows) =
    record { id = format_int c.rowid; name = chat_name c; platform = codes "imessage" }
    ∷ scan_chats rows

abbrev or_zero : Option ℤ → ℤ
or_zero none = pos 0
or_zero (some n) = n

-- `chatDBQuerier`
unfoldable pub chat_db_querier : Db → IMessageQuerier
unfolding scan_messages scan_chats
chat_db_querier db = record {
  query_messages = λ t since.
      map_result scan_messages (label_error (codes "query messages") (db.messages t since));
  query_chats = map_result scan_chats (label_error (codes "query chats") db.chats);
  last_rowid = map_result or_zero (label_error (codes "query last rowid") db.max_rowid);
}

pub record IMessageConfig : Type 0 where
  pub enabled : Bool
  pub allowed_recipients : List Text
  pub db_path : Text
  pub poll_interval : ℤ

-- `IMessageAdapter`; `stopped` says that `stopPolling` is closed.
pub record IMessageAdapter : Type 0 where
  pub config : IMessageConfig
  pub sender : Option (Service Text)
  pub querier : Option IMessageQuerier
  pub db : Option Db
  pub last_rowid : ℤ
  pub stopped : Bool
  pub connected : Bool

abbrev pub platform_name : Text
platform_name = codes "imessage"

abbrev default_interval : IMessageConfig → IMessageConfig
default_interval c =
    if is_zero c.poll_interval then record c { poll_interval = pos 5000000000 } else c

-- `home` is what `os.UserHomeDir` says.
abbrev default_path : Text → IMessageConfig → IMessageConfig
default_path home c =
    if is_nil c.db_path then record c { db_path = home ++ codes "/Library/Messages/chat.db" } else c

-- `NewIMessageAdapter` with the sender that it makes.
unfoldable pub new_imessage_adapter : Service Text → Text → IMessageConfig → IMessageAdapter
new_imessage_adapter sender home config = record {
  config = default_path home (default_interval config);
  sender = some sender;
  querier = none;
  db = none;
  last_rowid = pos 0;
  stopped = false;
  connected = false;
}

pub set_sender : IMessageAdapter → Option (Service Text) → IMessageAdapter
set_sender a sender = record a { sender = sender }

unfoldable pub set_querier : IMessageAdapter → Option IMessageQuerier → IMessageAdapter
set_querier a querier = record a { querier = querier }

-- `ListChannels`
pub list_channels : IMessageAdapter → Result (List Channel)
list_channels a = elim a.querier [
  | none ↦ err (Error.message (codes "not connected to iMessage database"))
  | some querier ↦ label_error (codes "list iMessage channels") querier.query_chats
]

-- `Send`
unfoldable pub send :
    IMessageAdapter → Text → Text → List (Post Text) → Option (Result Text × List (Post Text))
send a target message log = elim a.sender [
  | none ↦ some (err (Error.message (codes "not connected to iMessage")), log)
  | some sender ↦
      if is_nil target
      then some (err (Error.message (codes "target cannot be empty")), log)
      else if ltb 4000 (length message)
      then send_split (codes "failed to send iMessage chunk ") sender target (codes "imessage")
          message log
      else some (sender ((target, message) ∷ log), (target, message) ∷ log)
]
