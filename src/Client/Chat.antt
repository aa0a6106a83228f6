-- ===== src/Client/Chat.antt =====
-- client/chat_client.go. The stream of a call is finite: the events that `Recv` returns, and the
-- error that ends it, `io.EOF` as `Error.eof`.
pub mod Reply
pub mod Stream
pub mod Channel
mod Tests
use vassago_sdk.Prelude.{
  ℕ, Bool, true, false, not, ◌&&◌, List, [], ◌∷◌, ◌++◌, map, Option, none, some, if◌then◌else◌,
  Text, codes, is_nil, Error, Result, ok, err, label_error,
}
use vassago_sdk.Prelude.Int.{ℤ, pos}
use vassago_sdk.Client.{DialOption, insecure}

-- `pb.ChatEvent_EventType`; `other` is any number without a name.
pub data EventType : Type 0 where
  text : EventType
  tool_start : EventType
  tool_result : EventType
  done : EventType
  error : EventType
  thinking : EventType
  usage : EventType
  other : ℤ → EventType

-- `pb.ChatEvent`
pub record StreamEvent : Type 0 where
  pub event_type : EventType
  pub text : Text
  pub tool_name : Text
  pub tool_result : Text
  pub session_id : Text
  pub tokens_used : ℤ
  pub turn_number : ℤ

-- `ChatEvent`
pub record ChatEvent : Type 0 where
  pub event_type : Text
  pub text : Text
  pub tool_name : Text
  pub tool_result : Text
  pub session_id : Text
  pub tokens_used : ℤ
  pub turn_number : ℤ

-- The connection of `NewChatClient`; `new` is `grpc.NewClient`.
unfoldable pub new_chat_client : (Text → List DialOption → Result ℕ) → Text → Result ℕ
new_chat_client new address =
    label_error (codes "connect to agent chat") (new address (insecure ∷ []))

-- How the loop of `Chat` ends with the stream.
abbrev at_end : Error → Option Error
at_end Error.eof = none
at_end e = some (Error.wrap (codes "chat stream recv") e)

abbrev next_session : StreamEvent → Text → Text
next_session event session =
    if not (is_nil event.session_id) && is_nil session then event.session_id else session

-- The loop of `Chat`: the text so far, and the session.
pub chat_loop : Error → List StreamEvent → Text → Text → Text × Text × Option Error
chat_loop ending [] response session = (response, session, at_end ending)
chat_loop ending (event ∷ events) response session = elim event.event_type [
  | text ↦ chat_loop ending events (response ++ event.text) (next_session event session)
  | error ↦ (
    response,
    next_session event session,
    some (Error.message (codes "agent error: " ++ event.text)),
  )
  | _ ↦ chat_loop ending events response (next_session event session)
]

-- `Chat`, by the stream that the call opens.
unfoldable pub chat : Result (List StreamEvent × Error) → Text × Text × Option Error
unfolding chat_loop
chat (err e) = ([], [], some (Error.wrap (codes "chat stream") e))
chat (ok (events, ending)) = chat_loop ending events [] []

-- The switch of `processChatEvent`.
abbrev event_type_name : EventType → Text
event_type_name text = codes "text"
event_type_name tool_start = codes "tool_start"
event_type_name tool_result = codes "tool_result"
event_type_name done = codes "done"
event_type_name error = codes "error"
event_type_name thinking = codes "thinking"
event_type_name usage = codes "usage"
event_type_name (other n) = codes "unknown"

unfoldable pub process_chat_event : StreamEvent → ChatEvent
process_chat_event event = record {
  event_type = event_type_name event.event_type;
  text = event.text;
  tool_name = event.tool_name;
  tool_result = event.tool_result;
  session_id = event.session_id;
  tokens_used = event.tokens_used;
  turn_number = event.turn_number;
}

abbrev pub error_event : Text → ChatEvent
error_event t = record {
  event_type = codes "error";
  text = t;
  tool_name = [];
  tool_result = [];
  session_id = [];
  tokens_used = pos 0;
  turn_number = pos 0;
}

-- What comes last on the channel.
abbrev pub last_events : (Error → Text) → Error → List ChatEvent
last_events show Error.eof = []
last_events show e = error_event (show e) ∷ []

-- The goroutine of `ChatStream`: all that it sends before it closes the channel.
pub forwarded : (Error → Text) → List StreamEvent → Error → List ChatEvent
unfolding process_chat_event
forwarded show [] ending = last_events show ending
forwarded show (event ∷ events) ending = process_chat_event event ∷ forwarded show events ending

-- `ChatStream`; `show` is the text of an error.
unfoldable pub chat_stream :
    (Error → Text) → Result (List StreamEvent × Error) → Result (List ChatEvent)
unfolding forwarded
chat_stream show (err e) = err (Error.wrap (codes "chat stream") e)
chat_stream show (ok (events, ending)) = ok (forwarded show events ending)
