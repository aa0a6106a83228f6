-- ===== src/Messaging/Email/Incoming.antt =====
-- pollOnce, pollEmails and Listen of messaging/email_adapter.go.
use vassago_sdk.Prelude.{
  ℕ, zero, suc, Bool, true, false, not, ◌&&◌, List, [], ◌∷◌, ◌++◌, Option, none, some,
  if◌then◌else◌, Text, codes, member, index, take, is_nil, Error, Result, ok, err,
}
use vassago_sdk.Prelude.Int.{ℤ, ltb_ℤ}
use mathlib.Core.Option
use vassago_sdk.Messaging.{MessageEvent}
use vassago_sdk.Messaging.Polling.{Turn, tick, cancelled, stopped}
use vassago_sdk.Messaging.Email.{EmailMessage, EmailAdapter}

-- Whether `pollOnce` hands a message on.
unfoldable pub is_wanted : List Text → EmailMessage → Bool
is_wanted allowed_from msg =
    if is_nil msg.body && is_nil msg.subject
    then false
    else if not (is_nil allowed_from)
    then member msg.from allowed_from
    else true

abbrev local_part : Option ℕ → Text → Text
local_part none from = from
local_part (some zero) from = from
local_part (some (suc i)) from = take (suc i) from

unfoldable pub to_event : Text → EmailMessage → MessageEvent
to_event folder msg = record {
  platform = codes "email";
  channel_id = codes "email:" ++ folder;
  channel_name = folder;
  sender_id = msg.from;
  sender_name = local_part (index msg.from b'@') msg.from;
  message =
      if not (is_nil msg.subject) then msg.subject ++ (codes "\n\n" ++ msg.body) else msg.body;
  timestamp = msg.date;
  message_id = msg.message_id;
}

-- The loop over the messages of one poll. `accept` is the choice of the `select`, by what was
-- handed on before: true sends, false is the cancelled context. `none` is the panic of `folders[0]`
-- on an empty list; the flag says that the loop came to its end.
module _ (accept : List MessageEvent → Bool) (allowed_from folders : List Text) where
  unfoldable pub hand_on : List EmailMessage → List MessageEvent → Option (Bool × List MessageEvent)
  unfolding is_wanted to_event
  hand_on [] sent = some (true, sent)
  hand_on (msg ∷ msgs) sent = elim (is_wanted allowed_from msg) [
    | false ↦ hand_on msgs sent
    | true ↦ elim folders [
      | [] ↦ none
      | folder ∷ _ ↦ elim (accept sent) [
        | true ↦ hand_on msgs (sent ++ to_event folder msg ∷ [])
        | false ↦ some (false, sent)
      ]
    ]
  ]

-- The loop that finds the largest UID.
unfoldable pub max_uid : ℤ → List EmailMessage → ℤ
max_uid m [] = m
max_uid m (msg ∷ msgs) = max_uid (if ltb_ℤ m msg.uid then msg.uid else m) msgs

abbrev pub finish_poll :
    EmailAdapter → List EmailMessage → Bool × List MessageEvent → EmailAdapter × List MessageEvent
finish_poll a msgs (true, sent) = (
  if not (is_nil msgs) then record a { last_seen_uid = max_uid a.last_seen_uid msgs } else a,
  sent,
)
finish_poll a msgs (false, sent) = (a, sent)

-- `pollOnce` number `t`, behind the events `sent`.
unfoldable pub poll_once :
    (List MessageEvent → Bool)
    → ℕ
    → EmailAdapter
    → List MessageEvent
    → Option (EmailAdapter × List MessageEvent)
unfolding hand_on max_uid
poll_once accept t a sent = elim a.fetcher [
  | none ↦ some (a, sent)
  | some fetcher ↦ elim (fetcher.fetch_new_messages t a.last_seen_uid) [
    | err e ↦ some (a, sent)
    | ok msgs ↦
        Option.map (finish_poll a msgs)
          (hand_on accept a.config.allowed_from a.config.folders msgs sent)
  ]
]

-- `pollEmails` from poll number `t` on, by the cases that its `select` takes.
unfoldable pub poll_emails :
    (List MessageEvent → Bool)
    → ℕ
    → List Turn
    → EmailAdapter
    → List MessageEvent
    → Option (EmailAdapter × List MessageEvent)
unfolding poll_once
poll_emails accept t [] a sent = some (a, sent)
poll_emails accept t (tick ∷ turns) a sent = elim (poll_once accept t a sent) [
  | none ↦ none
  | some (a', sent') ↦ poll_emails accept (suc t) turns a' sent'
]
poll_emails accept t (cancelled ∷ turns) a sent = some (a, sent)
poll_emails accept t (stopped ∷ turns) a sent = some (a, sent)

-- `Listen`, with all that its goroutine does. (The text of its error has a dash that is not ASCII.)
unfoldable pub listen :
    (List MessageEvent → Bool)
    → List Turn
    → EmailAdapter
    → Result (Option (EmailAdapter × List MessageEvent))
unfolding poll_emails
listen accept turns a =
    if not a.connected
    then err (
        Error.message
          (codes "not connected " ++ (0xe2 ∷ 0x80 ∷ 0x94 ∷ codes " call Connect() first")))
    else ok (poll_emails accept 0 turns a [])
