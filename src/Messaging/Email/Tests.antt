-- ===== src/Messaging/Email/Tests.antt =====
-- The email theorems at concrete messages, and runs of the adapter.
use vassago_sdk.Prelude.{
  ℕ, zero, suc, ◌≡◌, ◌↔◌, ◌⊎◌, refl, true, false, List, [], ◌∷◌, ◌++◌, Option, none, some, Error,
  ok, err, Text, codes, contains, has_prefix, index, has_last, text_eq, member, All, length, concat,
  ◌≤◌, ◌<◌,
}
use mathlib.Core.List.{Mem}
use vassago_sdk.Prelude.Int.{pos, ◌≤ℤ◌}
use vassago_sdk.Messaging.{MessageEvent}
use vassago_sdk.Messaging.Smtp.{
  SmtpSender, SmtpEvent, dial, close, send_smtp, smtp_message, body_lines,
}
use vassago_sdk.Messaging.Smtp.Body.{body_lines_lem}
use vassago_sdk.Messaging.Smtp.Session.{script, attempt, is_ok, send_smtp_lem}
use vassago_sdk.Messaging.Email.Address.{IsAddress, is_valid_email_iff}
use vassago_sdk.Messaging.Email.Subject.{answer, send_lem, send_parsed}
use vassago_sdk.Messaging.Email.Poll.{Refused, events, poll_once_lem}
use vassago_sdk.Messaging.Email.Delivery.{newer, Above, email_listen_delivers}
use vassago_sdk.Messaging.Polling.{tick, stopped, arrived}
use vassago_sdk.Messaging.Email.{
  EmailAdapter, EmailConfig, EmailMessage, EmailFetcher, EmailSender, Mail, is_valid_email, send,
}
use vassago_sdk.Messaging.Email.Incoming.{poll_once, listen}

abbrev mail_config : EmailConfig
mail_config = record {
  imap_host = [];
  smtp_host = [];
  username = [];
  password = [];
  from_address = codes "agent@example.com";
  allowed_from = codes "ann@b.org" ∷ [];
  folders = codes "INBOX" ∷ [];
  poll_interval = pos 30000000000;
}

abbrev letter : ℕ → EmailMessage
letter n = record {
  uid = pos n;
  from = codes "ann@b.org";
  subject = codes "hi";
  body = codes "there";
  date = pos 0;
  message_id = [];
}

abbrev sends : EmailSender
sends _ = none

abbrev mailbox : EmailFetcher
mailbox = record {
  fetch_new_messages = λ _ _. ok (letter 4 ∷ letter 3 ∷ []);
  mark_seen = λ _. none;
  close = none;
}

abbrev adapter : EmailAdapter
adapter = record {
  config = mail_config;
  sender = some sends;
  fetcher = some mailbox;
  last_seen_uid = pos 2;
  stopped = false;
  connected = true;
}

abbrev address : Text
address = codes "ann@b.org"

address_is_valid : is_valid_email address ≡ true
unfolding is_valid_email contains index has_last
address_is_valid = refl

poll_test :
    (r : EmailAdapter × List MessageEvent) × (poll_once (λ _. true) 0 adapter [] ≡ some r)
    × (r.0.last_seen_uid ≡ pos 4)
unfolding poll_once member text_eq index
poll_test = (_, refl, refl)

is_valid_email_example : (is_valid_email address ≡ true) ↔ IsAddress address
is_valid_email_example = is_valid_email_iff address

abbrev mail : Text → Text → Mail
mail subject body = record {
  from = codes "agent@example.com";
  recipients = address ∷ [];
  subject = subject;
  body = body;
}

send_example :
    (((adapter.sender ≡ none) ⊎ ¬ IsAddress address)
      × (e : Error) × (send (pos 9) adapter address (codes "Subject: s\nb") [] ≡ (err e, [])))
    ⊎ ((sender : EmailSender) × (subject body : Text) × (adapter.sender ≡ some sender)
        × IsAddress address
        × (contains subject b'\n' ≡ false)
        × (send (pos 9) adapter address (codes "Subject: s\nb") []
            ≡ (answer (pos 9) (sender (mail subject body ∷ [])), mail subject body ∷ [])))
send_example = send_lem (pos 9) adapter address (codes "Subject: s\nb") []

send_parsed_example :
    ((subject body : Text)
      → contains subject b'\n' ≡ false
      → send (pos 9) adapter address (codes "Subject: " ++ (subject ++ b'\n' ∷ body)) []
        ≡ (answer (pos 9) none, mail subject body ∷ []))
    × ((message : Text)
        → has_prefix message (codes "Subject: ") ≡ false
        → send (pos 9) adapter address message []
          ≡ (answer (pos 9) none, mail (codes "Message from Vassago") message ∷ []))
send_parsed_example = send_parsed (pos 9) adapter sends address [] refl address_is_valid

poll_once_example :
    (a' : EmailAdapter) × (new rest : List MessageEvent) × (poll_once (λ _. true) 0 adapter []
      ≡ some (a', new))
    × (new ++ rest ≡ events (address ∷ []) (codes "INBOX") (letter 4 ∷ letter 3 ∷ []))
    × (((log : List MessageEvent) → true ≡ true) → rest ≡ [])
    × (((rest ≡ [])
          × (a' ≡ record adapter { last_seen_uid = a'.last_seen_uid })
          × (pos 2 ≤ℤ a'.last_seen_uid)
          × All (λ msg. msg.uid ≤ℤ a'.last_seen_uid) (letter 4 ∷ letter 3 ∷ [])
          × ((a'.last_seen_uid ≡ pos 2) ⊎ Mem a'.last_seen_uid (pos 4 ∷ pos 3 ∷ [])))
        ⊎ ((a' ≡ adapter) × Refused (λ _. true) new rest))
poll_once_example =
    poll_once_lem (λ _. true) 0 adapter [] mailbox (letter 4 ∷ letter 3 ∷ []) (codes "INBOX") []
      refl refl refl

-- Two letters before the first poll, and two before the second, of which one is not wanted.
abbrev arriving : ℕ → List EmailMessage
arriving zero = letter 4 ∷ letter 3 ∷ []
arriving (suc zero) = record (letter 5) { from = codes "bob@b.org" } ∷ letter 6 ∷ []
arriving (suc (suc t)) = []

arriving-Above : (t : ℕ) → Above (pos 2) (arriving t)
arriving-Above zero = (refl, (refl, tt))
arriving-Above (suc zero) = (refl, (refl, tt))
arriving-Above (suc (suc t)) = tt

none_new : (seen : List EmailMessage) → All (λ old. Above old.uid []) seen
none_new [] = tt
none_new (x ∷ xs) = (tt, none_new xs)

arriving_grows : (t : ℕ) → All (λ old. Above old.uid (arriving t)) (arrived arriving t)
arriving_grows zero = tt
arriving_grows (suc zero) = ((refl, (refl, tt)), ((refl, (refl, tt)), tt))
arriving_grows (suc (suc t)) = none_new (arrived arriving (suc (suc t)))

abbrev growing : EmailFetcher
growing = record mailbox {
  fetch_new_messages = λ t since. ok (newer since (arrived arriving (suc t)));
}

email_listen_delivers_example :
    let a = record adapter { fetcher = some growing } in
    (a' : EmailAdapter) × (listen (λ log. true) (tick ∷ tick ∷ stopped ∷ []) a
      ≡ ok (some (a', events (address ∷ []) (codes "INBOX") (arrived arriving 2))))
email_listen_delivers_example =
    email_listen_delivers (λ log. true) arriving growing (record adapter { fetcher = some growing })
      (codes "INBOX") [] (tick ∷ tick ∷ stopped ∷ []) (λ log. refl) arriving-Above arriving_grows
      (λ t since h. refl) refl refl refl

abbrev smtp_host : SmtpSender
smtp_host = record {
  host = codes "h:25";
  auth = record { username = []; password = []; host = codes "h" };
  from_addr = address;
}

abbrev accepts : List SmtpEvent → Option Error
accepts _ = none

send_smtp_example :
    let dialed = dial (codes "h:25") ∷ [] in
    let session =
      attempt accepts
        (script smtp_host
          (address ∷ [])
          (smtp_message address (address ∷ []) (codes "s") (codes "b")))
        dialed in
    let result = send_smtp accepts smtp_host address (address ∷ []) (codes "s") (codes "b") [] in
    ((e : Error)
      → accepts dialed ≡ some e
      → result ≡ (err (Error.wrap (codes "failed to connect to SMTP server") e), dialed))
    × (accepts dialed ≡ none → (is_ok result.0 ≡ session.0) × (result.1 ≡ close ∷ session.1))
send_smtp_example =
    send_smtp_lem accepts smtp_host address (address ∷ []) (codes "s") (codes "b") []

body_lines_example :
    (concat (body_lines (codes "one line")) ≡ codes "one line")
    × All (λ l. (0 < length l) × (length l ≤ 78)) (body_lines (codes "one line"))
body_lines_example = body_lines_lem (codes "one line")
