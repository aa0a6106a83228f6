-- ===== src/Messaging/Telegram/Sending.antt =====
-- Send and sendSplitMessage of messaging/telegram_adapter.go.
use vassago_sdk.Prelude.{
  text_eq, Bool, true, false, ◌≡◌, refl, inl, inr, Bool-cases, if◌then◌else◌, List, ◌∷◌, ◌++◌,
  Option, none, some, Text, codes, is_nil, ltb, ltb→lt, length, arith, Error, Result, err,
  label_error, map_result,
}
use vassago_sdk.Prelude.Int.{ℤ}
use vassago_sdk.Prelude.Decimal.{format_int}
use vassago_sdk.Prelude.Scan.{scan_int, IsInt64, scan-format_int}
use vassago_sdk.Format.{get_platform_limits, lookup_or}
use vassago_sdk.Messaging.{MessageEvent}
use vassago_sdk.Messaging.Chunks.{Post, Service, Sent, send_split, send_split-Sent, post-Sent}
use vassago_sdk.Messaging.Telegram.{
  TelegramAdapter, Message, Chat, User, incoming, from_user, same_int,
}

-- The channel of an event names the chat of its message.
from_user-channel :
    (bot_id : ℤ) (allowed : List ℤ) (m : Message) (from : Option User) (chat : Chat)
    (event : MessageEvent)
    → from_user bot_id allowed m from (some chat) ≡ some event
    → event.channel_id ≡ format_int chat.id
from_user-channel bot_id allowed m none chat event h = cc
from_user-channel bot_id allowed m (some from) chat event h =
    guarded (is_nil m.text) (same_int from.id bot_id) _ _ refl h
  where
    guarded :
        (a b c : Bool) (e : MessageEvent)
        → e.channel_id ≡ format_int chat.id
        → (if a then none else if b then none else if c then none else some e) ≡ some event
        → event.channel_id ≡ format_int chat.id
    guarded true b c e is h = cc
    guarded false true c e is h = cc
    guarded false false true e is h = cc
    guarded false false false e is h = cc

-- `post` is the bot's `Send`, whose answer is the id of the message, and `scan_error` the error of
-- `Sscanf` on a text that starts with no number of 64 bits.
module _ {Api : Type 0} (post : Api → List (Post ℤ) → Result ℤ) (scan_error : Text → Error) where
  abbrev pub service : Api → Service ℤ
  service api posts = map_result format_int (post api posts)

  abbrev send_to : Api → ℤ → Text → List (Post ℤ) → Option (Result Text × List (Post ℤ))
  send_to api chat_id message log =
      if ltb 4096 (length message)
      then send_split (codes "failed to send Telegram message chunk ") (service api) chat_id
          (codes "telegram") message log
      else some (
        label_error (codes "failed to send Telegram message")
            (service api ((chat_id, message) ∷ log)),
        (chat_id, message) ∷ log,
      )

  -- `Send`
  unfoldable pub send :
      TelegramAdapter Api → Text → Text → List (Post ℤ) → Option (Result Text × List (Post ℤ))
  send ta target message log = elim ta.api [
    | none ↦ some (err (Error.message (codes "not connected to Telegram")), log)
    | some api ↦ elim (scan_int target) [
      | none ↦
          some (
            err (Error.wrap (codes "invalid Telegram chat ID: " ++ target) (scan_error target)),
            log,
          )
      | some chat_id ↦ send_to api chat_id message log
    ]
  ]

  send_to-Sent :
      (api : Api) (chat_id : ℤ) (message : Text) (log : List (Post ℤ))
      → Sent (service api) (codes "telegram") chat_id message log (send_to api chat_id message log)
  unfolding get_platform_limits lookup_or text_eq
  send_to-Sent api chat_id message log = elim (Bool-cases (ltb 4096 (length message))) [
    | inl long ↦ rw long (
        send_split-Sent _ (service api) (codes "telegram") chat_id message log
          (ground (arith, ltb→lt _ _ long)))
    | inr short ↦ rw short (
        post-Sent (service api) (codes "telegram") chat_id message log
          (label_error (codes "failed to send Telegram message")) (λ id. refl)
          (λ x. (_, refl, inr (codes "failed to send Telegram message", refl))) (ground arith))
  ]

  -- A bot that answers an incoming event on the event's channel reaches the chat of the message:
  -- with a chat id of 64 bits, `Send` to that channel does what `Sent` says of the chat: the message
  -- is posted in parts, each only when all before it were taken, up to the first that is refused, and
  -- the answer is the id of the last part, or the error of the refusal, by itself or behind a label.
  pub telegram_reply_lem :
      (ta : TelegramAdapter Api) (api : Api) (bot_id : ℤ) (allowed : List ℤ) (m : Message)
      (chat : Chat) (event : MessageEvent) (message : Text) (log : List (Post ℤ))
      → ta.api ≡ some api
      → m.chat ≡ some chat
      → IsInt64 chat.id
      → incoming bot_id allowed (some m) ≡ some event
      → Sent
          (service api)
          (codes "telegram")
          chat.id
          message
          log
          (send ta event.channel_id message log)
  unfolding send incoming
  telegram_reply_lem ta api bot_id allowed m chat event message log connected has_chat bounded is =
      rw
        (
          connected,
          from_user-channel bot_id allowed m m.from chat event (rw has_chat at is),
          send,
          scan-format_int chat.id bounded,
        )
        (send_to-Sent api chat.id message log)
