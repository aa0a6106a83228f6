-- ===== src/Messaging/Imessage/Tests.antt =====
-- The iMessage theorems at concrete messages, and runs of the adapter.
use vassago_sdk.Prelude.{
  ℕ, zero, suc, sym, subst, ◌∙◌, append-nil, false, true, ◌≡◌, refl, List, [], ◌∷◌, ◌++◌, none,
  some, Text, codes, ok, Error, ◌↔◌, has_prefix, contains, text_eq, if◌then◌else◌, keep_if,
}
use vassago_sdk.Prelude.Int.{ℤ, pos}
use vassago_sdk.Messaging.{MessageEvent}
use vassago_sdk.Messaging.Chunks.{Service, Sent}
use vassago_sdk.Messaging.Imessage.{
  IMessageAdapter, IMessageConfig, IMessageQuerier, IMessageRow, Db, send, new_imessage_adapter,
}
use vassago_sdk.Messaging.Imessage.Script.{build_script, read_literal, build_script_lem}
use vassago_sdk.Messaging.Imessage.Incoming.{poll_for_messages, is_wanted, listen}
use vassago_sdk.Messaging.Imessage.Osascript
use vassago_sdk.Prelude.Trim.{trim_space}
use vassago_sdk.Messaging.Polling.{tick, stopped, arrived}
use vassago_sdk.Messaging.Imessage.Delivery.{events, listen_delivers}
use vassago_sdk.Messaging.Imessage.Poll.{Ascending, newer, HandedOn, poll_for_messages_lem}
use vassago_sdk.Messaging.Imessage.Database.{
  Balanced, Call, run, connecting, closing, databases_balance,
}
use vassago_sdk.Messaging.Imessage.Sending.{imessage_send-Sent}

abbrev service : Service Text
service posts = ok (codes "sent")

abbrev phone : IMessageRow
phone = record {
  rowid = pos 7;
  text = codes "hi";
  handle_id = codes "+1";
  is_from_me = false;
  date = pos 5000000000;
  room_name = [];
  cache_room = [];
}

abbrev reader : IMessageQuerier
reader = record {
  query_messages = λ t since. ok (phone ∷ record phone { rowid = pos 9 } ∷ []);
  query_chats = ok [];
  last_rowid = ok (pos 3);
}

abbrev phone_config : IMessageConfig
phone_config = record {
  enabled = true;
  allowed_recipients = codes "+1" ∷ [];
  db_path = codes "chat.db";
  poll_interval = pos 0;
}

abbrev phones : IMessageAdapter
phones = record {
  config = phone_config;
  sender = some service;
  querier = some reader;
  db = none;
  last_rowid = pos 3;
  stopped = false;
  connected = true;
}

abbrev chat_db : Db
chat_db = record {
  ping = none;
  messages = λ t since. ok [];
  chats = ok [];
  max_rowid = ok none;
  close = none;
}

abbrev quoted : Text
quoted = codes "say \"hi\" \\"

build_script_example :
    (kind rest : Text) × (build_script (codes "a\"b") quoted
      ≡ codes "tell application \"Messages\" to send \"" ++ rest)
    × (read_literal false rest
        ≡ some (quoted, codes " to " ++ (kind ++ (codes " \"" ++ (codes "a\"b" ++ codes "\"")))))
    × (kind ≡ (if has_prefix (codes "a\"b") (codes "chat:") then codes "chat" else codes "buddy"))
    × ((read_literal false (codes "a\"b" ++ codes "\"") ≡ some (codes "a\"b", []))
        ↔ ((contains (codes "a\"b") b'"' ≡ false) × (contains (codes "a\"b") b'\\' ≡ false)))
build_script_example = build_script_lem (codes "a\"b") quoted

poll_for_messages_example :
    (last : ℤ) × (out : List MessageEvent) × (poll_for_messages (λ log. true) 0 phones []
      ≡ (record phones { last_rowid = last }, out))
    × HandedOn
        (λ log. true)
        (keep_if (is_wanted (codes "+1" ∷ [])) (phone ∷ record phone { rowid = pos 9 } ∷ []))
        (pos 3)
        []
        (last, out)
poll_for_messages_example =
    poll_for_messages_lem (λ log. true) 0 phones [] reader
      (phone ∷ record phone { rowid = pos 9 } ∷ []) refl refl (refl, (refl, tt))

-- The file is missing at first; then the database does not answer; then it does, twice.
abbrev calls : List Call
calls =
    connecting (λ path. true) (λ path. ok chat_db)
    ∷ connecting (λ path. false) (λ path. ok (record chat_db { ping = some Error.eof }))
    ∷ connecting (λ path. false) (λ path. ok chat_db)
    ∷ closing
    ∷ connecting (λ path. false) (λ path. ok chat_db)
    ∷ []

databases_balance_example :
    let s = run calls (new_imessage_adapter service (codes "/home") phone_config, []) in
    Balanced s.0 s.1
databases_balance_example = databases_balance service (codes "/home") phone_config calls

imessage_send_example :
    Sent service
      (codes "imessage")
      (codes "+1")
      (codes "hello")
      []
      (send phones (codes "+1") (codes "hello") [])
imessage_send_example = imessage_send-Sent phones service (codes "+1") (codes "hello") [] refl refl

-- A poll hands both rows on and moves the last row id to the second.
poll_moves : (poll_for_messages (λ log. true) 0 phones []).0.last_rowid ≡ pos 9
unfolding poll_for_messages is_wanted text_eq
poll_moves = refl

-- A row arrives before the first poll, and two before the second, of which one is not wanted.
abbrev arriving : ℕ → List IMessageRow
arriving zero = phone ∷ []
arriving (suc zero) =
    record phone { rowid = pos 8; handle_id = codes "+2" } ∷ record phone { rowid = pos 9 } ∷ []
arriving (suc (suc t)) = []

arriving-all : (t : ℕ) → arrived arriving (suc (suc t)) ≡ arrived arriving 2
arriving-all zero = refl
arriving-all (suc t) = append-nil (arrived arriving (suc (suc t))) ∙ arriving-all t

arriving-Ascending : (t : ℕ) → Ascending (pos 3) (arrived arriving t)
arriving-Ascending zero = tt
arriving-Ascending (suc zero) = (refl, tt)
arriving-Ascending (suc (suc t)) =
    subst (Ascending (pos 3)) (sym (arriving-all t)) (refl, (refl, (refl, tt)))

abbrev growing : IMessageQuerier
growing = record reader { query_messages = λ t since. ok (newer since (arrived arriving (suc t))) }

listen_delivers_example :
    let a = record phones { querier = some growing } in
    (a' : IMessageAdapter) × (listen (λ log. true) (tick ∷ tick ∷ stopped ∷ []) a
      ≡ ok (a', events (codes "+1" ∷ []) (arrived arriving 2)))
listen_delivers_example =
    listen_delivers (λ log. true) arriving growing (record phones { querier = some growing })
      (tick ∷ tick ∷ stopped ∷ []) (λ log. refl) arriving-Ascending (λ t since h. refl) refl refl

-- The spaces around the output of the command are taken off.
osascript_runs :
    Osascript.send (λ name args. (codes " \tsent\n", none)) (codes "+1") (codes "hi")
    ≡ ok (codes "sent")
unfolding Osascript.send trim_space
osascript_runs = refl
