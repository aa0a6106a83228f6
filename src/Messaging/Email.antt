-- ===== src/Messaging/Email.antt =====
-- messaging/email_adapter.go: the adapter's state, its life cycle, and sending. The
-- SMTP session is in Messaging/Smtp.antt; the fetcher and the sender are the source's interfaces, as records
-- of functions.
pub mod Address
pub mod Subject
pub mod Incoming
pub mod Uids
pub mod Wanted
pub mod Poll
pub mod Delivery
mod Tests
use vassago_sdk.Prelude.{
  ℕ, zero, suc, ◌+◌, Bool, true, false, not, ◌&&◌, ◌||◌, List, [], ◌∷◌, ◌++◌, map, Option, none,
  some, ltb, ◌==◌, if◌then◌else◌, Text, codes, text_eq, member, has_prefix, contains, has_last,
  index, length, take, drop, is_nil, Error, Result, ok, err,
}
use vassago_sdk.Prelude.Int.{ℤ, pos, negsuc, ltb_ℤ}
use vassago_sdk.Prelude.Decimal.{format_int}
use mathlib.Core.Option
use vassago_sdk.Messaging.{MessageEvent, Channel}

pub record EmailConfig : Type 0 where
  pub imap_host : Text
  pub smtp_host : Text
  pub username : Text
  pub password : Text
  pub from_address : Text
  pub allowed_from : List Text
  pub folders : List Text
  pub poll_interval : ℤ

-- `date` is the time in seconds, which is all that the source reads of it.
pub record EmailMessage : Type 0 where
  pub uid : ℤ
  pub from : Text
  pub subject : Text
  pub body : Text
  pub date : ℤ
  pub message_id : Text

-- What is handed to `emailSender.SendSMTP`.
pub record Mail : Type 0 where
  pub from : Text
  pub recipients : List Text
  pub subject : Text
  pub body : Text

-- `emailSender.SendSMTP`: its error by all mails that it was handed, the newest first.
abbrev pub EmailSender : Type 0
EmailSender = List Mail → Option Error

-- `emailFetcher`. A mailbox changes between polls, so a fetch also depends on the poll's number.
pub record EmailFetcher : Type 0 where
  pub fetch_new_messages : ℕ → ℤ → Result (List EmailMessage)
  pub mark_seen : ℤ → Option Error
  pub close : Option Error

-- `imapFetcher`, a stub in the source. (Its text has a dash that is not ASCII.)
abbrev pub imap_fetcher : EmailFetcher
imap_fetcher = record {
  fetch_new_messages = λ _ _. err (
      Error.message (
        codes "IMAP fetching not yet implemented "
        ++ (0xe2 ∷ 0x80 ∷ 0x94 ∷ codes " requires IMAP library integration")));
  mark_seen = λ _. none;
  close = none;
}

-- `EmailAdapter`; `stopped` says that `stopChan` is closed.
pub record EmailAdapter : Type 0 where
  pub config : EmailConfig
  pub sender : Option EmailSender
  pub fetcher : Option EmailFetcher
  pub last_seen_uid : ℤ
  pub stopped : Bool
  pub connected : Bool

abbrev pub platform_name : Text
platform_name = codes "email"

abbrev is_zero : ℤ → Bool
is_zero (pos zero) = true
is_zero _ = false

abbrev default_interval : EmailConfig → EmailConfig
default_interval c =
    if is_zero c.poll_interval then record c { poll_interval = pos 30000000000 } else c

abbrev default_folders : EmailConfig → EmailConfig
default_folders c = if is_nil c.folders then record c { folders = codes "INBOX" ∷ [] } else c

-- `NewEmailAdapter`; the sender is made from the hosts and names of the configuration.
pub new_email_adapter : (Text → Text → Text → Text → EmailSender) → EmailConfig → EmailAdapter
new_email_adapter new_sender config =
    let c = default_folders (default_interval config) in
    record {
      config = c;
      sender = some (new_sender c.smtp_host c.username c.password c.from_address);
      fetcher = some imap_fetcher;
      last_seen_uid = pos 0;
      stopped = false;
      connected = false;
    }

pub set_sender : EmailAdapter → Option EmailSender → EmailAdapter
set_sender a sender = record a { sender = sender }

pub set_fetcher : EmailAdapter → Option EmailFetcher → EmailAdapter
set_fetcher a fetcher = record a { fetcher = fetcher }

-- `Connect`; `dial` is what `smtp.Dial` says of a host.
pub connect : (Text → Option Error) → EmailAdapter → EmailAdapter × Option Error
connect dial a =
    if a.connected
    then (a, none)
    else if is_nil a.config.smtp_host
    then (record a { connected = true }, none)
    else elim (dial a.config.smtp_host) [
      | none ↦ (record a { connected = true }, none)
      | some e ↦ (a, some (Error.wrap (codes "failed to connect to SMTP server") e))
    ]

-- `Close`
pub close : EmailAdapter → EmailAdapter × Option Error
close a = if not a.connected then (a, none) else (
  record a { stopped = true; connected = false },
  elim a.fetcher [ none ↦ none | some f ↦ f.close ],
)

-- `ListChannels`
pub list_channels : EmailAdapter → List Channel
list_channels a =
    map
      (λ folder. record { id = codes "email:" ++ folder; name = folder; platform = codes "email" })
      a.config.folders

-- What is said of a domain.
abbrev domain_ok : Text → Bool
domain_ok domain = if not (contains domain b'.') then false else not (has_last domain b'.')

abbrev split_at : Option ℕ → Text → Bool
split_at none email = domain_ok email
split_at (some at_sign) email =
    if at_sign == 0 || suc at_sign == length email
    then false
    else domain_ok (drop (suc at_sign) email)

-- `isValidEmail`
unfoldable pub is_valid_email : Text → Bool
is_valid_email email =
    if not (contains email b'@') || ltb (length email) 5
    then false
    else split_at (index email b'@') email

abbrev default_subject : Text
default_subject = codes "Message from Vassago"

-- The subject and the body of a message that starts with "Subject: ", by its first newline.
abbrev cut_subject : Option ℕ → Text → Text × Text
cut_subject none message = (drop 9 message, [])
cut_subject (some zero) message = (drop 9 message, [])
cut_subject (some (suc i)) message = (drop 9 (take (suc i) message), drop (suc (suc i)) message)

pub parse_subject : Text → Text × Text
parse_subject message =
    if has_prefix message (codes "Subject: ")
    then cut_subject (index message b'\n') message
    else (default_subject, message)

abbrev to_one : Text → Text → Text × Text → Mail
to_one from target (subject, body) = record {
  from = from;
  recipients = target ∷ [];
  subject = subject;
  body = body;
}

-- The call of the sender.
abbrev hand_over : ℤ → EmailSender → List Mail → Result Text × List Mail
hand_over now sender log =
    (elim (sender log) [ none ↦ ok (codes "email-" ++ format_int now) | some e ↦ err e ], log)

-- `Send`, behind the mails `log`; `now` is the clock's time in nanoseconds.
pub send : ℤ → EmailAdapter → Text → Text → List Mail → Result Text × List Mail
unfolding parse_subject
send now a target message log = elim a.sender [
  | none ↦ (err (Error.message (codes "not connected to email")), log)
  | some sender ↦
      if is_nil target
      then (err (Error.message (codes "target email address is required")), log)
      else if not (is_valid_email target)
      then (err (Error.message (codes "invalid email address: " ++ target)), log)
      else hand_over now sender (to_one a.config.from_address target (parse_subject message) ∷ log)
]
