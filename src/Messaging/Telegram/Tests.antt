-- ===== src/Messaging/Telegram/Tests.antt =====
-- The Telegram theorems at concrete updates, and a run of the loop.
use vassago_sdk.Prelude.{
  ℕ, false, true, ◌≡◌, ◌↔◌, ◌⊎◌, refl, List, [], ◌∷◌, ◌++◌, none, some, codes, ok, length, Error,
  Result, arith,
}
use vassago_sdk.Prelude.Int.{ℤ, pos, negsuc}
use vassago_sdk.Prelude.Decimal.{format_int}
use vassago_sdk.Prelude.Scan.{scan_int}
use vassago_sdk.Messaging.{MessageEvent}
use vassago_sdk.Messaging.Chunks.{Post, Sent}
use vassago_sdk.Messaging.Telegram.Sending.{service, send, telegram_reply_lem}
use vassago_sdk.Messaging.Telegram.{
  TelegramAdapter, Message, Update, process_updates, incoming, listen,
}
use vassago_sdk.Messaging.Telegram.Filter.{Passed, incoming-Passed}
use vassago_sdk.Messaging.Telegram.Incoming.{events, telegram_listen_lem}

-- A bot is its number.
abbrev chatting : TelegramAdapter ℕ
chatting = record {
  config = record { token = codes "t"; allowed_chats = [] };
  api = some 1;
  bot_id = pos 5;
  stopped = false;
}

abbrev said_by : ℕ → Update
said_by id = some record {
  message_id = pos 1;
  from = some record { id = pos id; user_name = codes "ann"; first_name = codes "Ann" };
  chat = some record { id = negsuc 99; title = [] };
  text = codes "hello";
  time = pos 1;
}

abbrev updates : List Update
updates = said_by 4 ∷ none ∷ said_by 5 ∷ said_by 6 ∷ []

telegram_listen_example :
    (out rest : List MessageEvent) × (listen (λ bot. ok updates) (λ log. true) chatting ≡ ok out)
    × (out ++ rest ≡ events (pos 5) [] updates)
    × ((rest ≡ []) ⊎ (true ≡ false))
telegram_listen_example =
    telegram_listen_lem (λ bot. ok updates) (λ log. true) chatting 1 updates refl refl

-- The bot's own message and the update with no message make no event.
process_updates_runs :
    length (process_updates (λ log. true) (pos 5) (negsuc 99 ∷ []) updates []) ≡ 2
unfolding process_updates incoming
process_updates_runs = refl

incoming_example :
    ((event : MessageEvent) × (incoming (pos 5) (negsuc 99 ∷ []) (said_by 4) ≡ some event))
    ↔ Passed (pos 5) (negsuc 99 ∷ []) (said_by 4)
incoming_example = incoming-Passed (pos 5) (negsuc 99 ∷ []) (said_by 4)

abbrev asked : Message
asked = record {
  message_id = pos 1;
  from = some record { id = pos 4; user_name = codes "ann"; first_name = codes "Ann" };
  chat = some record { id = negsuc 99; title = [] };
  text = codes "hello";
  time = pos 1;
}

abbrev asked_event : MessageEvent
asked_event = record {
  platform = codes "telegram";
  channel_id = codes "-100";
  channel_name = codes "-100";
  sender_id = codes "4";
  sender_name = codes "ann";
  message = codes "hello";
  timestamp = pos 1;
  message_id = codes "1";
}

-- A bot that gives each message the number 8.
abbrev numbering : ℕ → List (Post ℤ) → Result ℤ
numbering api posts = ok (pos 8)

telegram_reply_example :
    Sent
      (service numbering (λ t. Error.eof) 1)
      (codes "telegram")
      (negsuc 99)
      (codes "hi")
      []
      (send numbering (λ t. Error.eof) chatting (codes "-100") (codes "hi") [])
unfolding incoming format_int
telegram_reply_example =
    telegram_reply_lem numbering (λ t. Error.eof) chatting 1 (pos 5) [] asked
      (record { id = negsuc 99; title = [] }) asked_event (codes "hi") [] refl refl (omega arith)
      refl

-- What stands behind the number of a target is not read.
reads_a_prefix : scan_int (codes " 12abc") ≡ some (pos 12)
unfolding scan_int
reads_a_prefix = refl
