-- ===== src/Messaging/Imessage/Incoming.antt =====
-- pollForMessages and Listen of messaging/imessage_adapter.go.
use vassago_sdk.Prelude.{
  Result, Error, ℕ, zero, suc, ◌+◌, ◌/◌, Bool, true, false, not, ◌||◌, List, [], ◌∷◌, ◌++◌, none,
  some, if◌then◌else◌, Text, codes, text_eq, is_nil, ok, err,
}
use vassago_sdk.Prelude.Int.{ℤ, pos, negsuc, ltb_ℤ}
use vassago_sdk.Prelude.Decimal.{format_int}
use vassago_sdk.Messaging.{MessageEvent}
use vassago_sdk.Messaging.Polling.{Turn, tick, cancelled, stopped}
use vassago_sdk.Messaging.Imessage.{IMessageRow, IMessageAdapter}

-- The loop over the allowed recipients.
pub is_recipient : List Text → IMessageRow → Bool
is_recipient [] msg = false
is_recipient (r ∷ rs) msg =
    text_eq r msg.handle_id || text_eq r msg.cache_room || is_recipient rs msg

-- Whether the loop hands a row on.
unfoldable pub is_wanted : List Text → IMessageRow → Bool
unfolding is_recipient
is_wanted allowed msg =
    if is_nil msg.text
    then false
    else if not (is_nil allowed)
    then is_recipient allowed msg
    else true

abbrev channel_id : IMessageRow → Text
channel_id msg = if is_nil msg.cache_room then msg.handle_id else msg.cache_room

-- Seconds since 1970 from nanoseconds since 2001.
abbrev unix_timestamp : ℤ → ℤ
unix_timestamp (pos zero) = pos 0
unix_timestamp (pos (suc n)) = pos (suc n / 1000000000 + 978307200)
unix_timestamp (negsuc n) = pos 0

unfoldable pub to_event : IMessageRow → MessageEvent
to_event msg = record {
  platform = codes "imessage";
  channel_id = channel_id msg;
  channel_name = if is_nil msg.room_name then channel_id msg else msg.room_name;
  sender_id = msg.handle_id;
  sender_name = msg.handle_id;
  message = msg.text;
  timestamp = unix_timestamp msg.date;
  message_id = format_int msg.rowid;
}

-- The loop over the rows of one poll, with the last row id and the events handed on. `accept` is
-- the choice of the `select`: true sends, false is the cancelled context.
module _ (accept : List MessageEvent → Bool) (allowed : List Text) where
  unfoldable pub hand_on : List IMessageRow → ℤ → List MessageEvent → ℤ × List MessageEvent
  hand_on [] last sent = (last, sent)
  hand_on (msg ∷ msgs) last sent = elim (is_wanted allowed msg) [
    | false ↦ hand_on msgs last sent
    | true ↦ elim (accept sent) [
      | true ↦
          hand_on msgs (if ltb_ℤ last msg.rowid then msg.rowid else last)
            (sent ++ to_event msg ∷ [])
      | false ↦ (last, sent)
    ]
  ]

-- `pollForMessages` number `t`.
unfoldable pub poll_for_messages :
    (List MessageEvent → Bool)
    → ℕ
    → IMessageAdapter
    → List MessageEvent
    → IMessageAdapter × List MessageEvent
unfolding hand_on
poll_for_messages accept t a sent = elim a.querier [
  | none ↦ (a, sent)
  | some querier ↦ elim (querier.query_messages t a.last_rowid) [
    | err e ↦ (a, sent)
    | ok messages ↦
        let r = hand_on accept a.config.allowed_recipients messages a.last_rowid sent in
        (record a { last_rowid = r.0 }, r.1)
  ]
]

-- The goroutine of `Listen` from poll number `t` on, by the cases that its `select` takes.
unfoldable pub listen_loop :
    (List MessageEvent → Bool)
    → ℕ
    → List Turn
    → IMessageAdapter
    → List MessageEvent
    → IMessageAdapter × List MessageEvent
unfolding poll_for_messages
listen_loop accept t [] a sent = (a, sent)
listen_loop accept t (tick ∷ turns) a sent =
    let r = poll_for_messages accept t a sent in listen_loop accept (suc t) turns r.0 r.1
listen_loop accept t (cancelled ∷ turns) a sent = (a, sent)
listen_loop accept t (stopped ∷ turns) a sent = (a, sent)

-- `Listen`, with all that its goroutine does.
unfoldable pub listen :
    (List MessageEvent → Bool)
    → List Turn
    → IMessageAdapter
    → Result (IMessageAdapter × List MessageEvent)
unfolding listen_loop
listen accept turns a =
    if not a.connected
    then err (Error.message (codes "not connected to iMessage database"))
    else ok (listen_loop accept 0 turns a [])
