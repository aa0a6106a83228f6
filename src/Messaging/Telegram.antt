-- ===== src/Messaging/Telegram.antt =====
-- messaging/telegram_adapter.go: Connect, Close, and the updates that come in. An update holds what
-- the source reads of the bot library's types.
pub mod Incoming
pub mod Closing
pub mod Filter
pub mod Sending
mod Tests
use vassago_sdk.Prelude.{
  ℕ, suc, ◌==◌, Bool, true, false, not, ◌&&◌, ◌||◌, List, [], ◌∷◌, ◌++◌, Option, none, some,
  if◌then◌else◌, Text, codes, is_nil, Error, Result, ok, err, label_error, map_result,
}
use vassago_sdk.Prelude.Int.{ℤ, pos, negsuc}
use vassago_sdk.Prelude.Decimal.{format_int}
use vassago_sdk.Messaging.{MessageEvent, Channel}

pub record TelegramConfig : Type 0 where
  pub token : Text
  pub allowed_chats : List ℤ

pub record User : Type 0 where
  pub id : ℤ
  pub user_name : Text
  pub first_name : Text

pub record Chat : Type 0 where
  pub id : ℤ
  pub title : Text

-- The time is in seconds.
pub record Message : Type 0 where
  pub message_id : ℤ
  pub from : Option User
  pub chat : Option Chat
  pub text : Text
  pub time : ℤ

-- An update, which may hold no message.
abbrev pub Update : Type 0
Update = Option Message

-- `TelegramAdapter`, over any type of bots; `stopped` says that `closeChan` is closed.
pub record TelegramAdapter (Api : Type 0) : Type 0 where
  pub config : TelegramConfig
  pub api : Option Api
  pub bot_id : ℤ
  pub stopped : Bool

abbrev pub platform_name : Text
platform_name = codes "telegram"

module _ {Api : Type 0} where
  unfoldable pub new_telegram_adapter : TelegramConfig → TelegramAdapter Api
  new_telegram_adapter config = record {
    config = config;
    api = none;
    bot_id = pos 0;
    stopped = false;
  }

  pub set_api : TelegramAdapter Api → Option Api → ℤ → TelegramAdapter Api
  set_api ta api bot_id = record ta { api = api; bot_id = bot_id }

  -- `Connect`; `new` is `tgbotapi.NewBotAPI`, with the id of the bot.
  unfoldable pub connect :
      (Text → Result (Api × ℤ)) → TelegramAdapter Api → TelegramAdapter Api × Option Error
  connect new ta = elim ta.api [
    | some api ↦ (ta, none)
    | none ↦ elim (new ta.config.token) [
      | err e ↦ (ta, some (Error.wrap (codes "failed to create Telegram bot") e))
      | ok (bot, id) ↦ (record ta { api = some bot; bot_id = id }, none)
    ]
  ]

  -- `Close`; `none` is the panic of closing a closed channel.
  unfoldable pub close : TelegramAdapter Api → Option (TelegramAdapter Api × Option Error)
  close ta = elim ta.api [
    | none ↦ some (ta, none)
    | some api ↦ if ta.stopped then none else some (record ta { api = none; stopped = true }, none)
  ]

  pub list_channels : TelegramAdapter Api → Result (List Channel)
  list_channels ta = ok []

-- `a == b` on integers.
unfoldable pub same_int : ℤ → ℤ → Bool
same_int (pos n) (pos m) = n == m
same_int (negsuc n) (negsuc m) = n == m
same_int _ _ = false

-- The loop over the allowed chats.
unfoldable pub among : ℤ → List ℤ → Bool
unfolding same_int
among id [] = false
among id (c ∷ cs) = same_int id c || among id cs

abbrev to_event : Message → User → Chat → MessageEvent
to_event m from chat = record {
  platform = codes "telegram";
  channel_id = format_int chat.id;
  channel_name = if is_nil chat.title then format_int chat.id else chat.title;
  sender_id = format_int from.id;
  sender_name = if is_nil from.user_name then from.first_name else from.user_name;
  message = m.text;
  timestamp = m.time;
  message_id = format_int m.message_id;
}

abbrev pub from_user : ℤ → List ℤ → Message → Option User → Option Chat → Option MessageEvent
from_user bot_id allowed m none chat = none
from_user bot_id allowed m (some from) none = none
from_user bot_id allowed m (some from) (some chat) =
    if is_nil m.text
    then none
    else if same_int from.id bot_id
    then none
    else if not (is_nil allowed) && not (among chat.id allowed)
    then none
    else some (to_event m from chat)

-- What the loop makes of an update; `none` is each of its `continue`s.
unfoldable pub incoming : ℤ → List ℤ → Update → Option MessageEvent
unfolding among
incoming bot_id allowed none = none
incoming bot_id allowed (some m) = from_user bot_id allowed m m.from m.chat

-- The loop of `processUpdates` over the updates that come before the channel or the context
-- ends, with the events sent. `accept` is the choice of its inner `select`: true sends, false is
-- the closed adapter or the cancelled context.
module _ (accept : List MessageEvent → Bool) (bot_id : ℤ) (allowed : List ℤ) where
  unfoldable pub process_updates : List Update → List MessageEvent → List MessageEvent
  unfolding incoming
  process_updates [] sent = sent
  process_updates (update ∷ updates) sent = elim (incoming bot_id allowed update) [
    | none ↦ process_updates updates sent
    | some event ↦ elim (accept sent) [
      | true ↦ process_updates updates (sent ++ event ∷ [])
      | false ↦ sent
    ]
  ]

-- `Listen`, with what its goroutine sends; `get_updates` is the bot's `GetUpdatesChan`, with the
-- updates that come.
unfoldable pub listen :
    {Api : Type 0}
    → (Api → Result (List Update))
    → (List MessageEvent → Bool)
    → TelegramAdapter Api
    → Result (List MessageEvent)
unfolding process_updates
listen get_updates accept ta = elim ta.api [
  | none ↦ err (Error.message (codes "not connected to Telegram"))
  | some api ↦
      map_result (λ updates. process_updates accept ta.bot_id ta.config.allowed_chats updates [])
        (label_error (codes "failed to get updates channel") (get_updates api))
]
