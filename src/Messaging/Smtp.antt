-- ===== src/Messaging/Smtp.antt =====
-- The SMTP sender of messaging/email_adapter.go. The connection of net/smtp is a log of commands
-- with a reply to each.
pub mod Body
pub mod Session
use vassago_sdk.Prelude.{
  ℕ, suc, ◌+◌, ◌-◌, ◌<◌, ◌≡◌, Bool, true, false, List, [], ◌∷◌, ◌++◌, Option, none, some, arith,
  Text, codes, last_index, length, take, drop, length-drop, concat, Error,
}
use vassago_sdk.Prelude.Effects.{Io, ◌>>=◌, ◌>>◌, return, issue, labelled, finally}
use mathlib.Core.Logic.{dite}
use mathlib.Core.WellFounded.{Acc, WellFounded}
use native.Mathlib.Decide.{dec_lt}

-- `smtp.PlainAuth` with its identity "".
pub record PlainAuth : Type 0 where
  pub username : Text
  pub password : Text
  pub host : Text

-- `smtpSender`
pub record SmtpSender : Type 0 where
  pub host : Text
  pub auth : PlainAuth
  pub from_addr : Text

abbrev host_without_port : Text → Option ℕ → Text
host_without_port host none = host
host_without_port host (some idx) = take idx host

unfoldable pub new_smtp_sender : Text → Text → Text → Text → SmtpSender
new_smtp_sender host username password from_addr = record {
  host = host;
  auth = record {
    username = username;
    password = password;
    host = host_without_port host (last_index host b':');
  };
  from_addr = from_addr;
}

abbrev pub crlf : Text
crlf = codes "\r\n"

-- The order of the loop over the body: each round leaves a shorter one.
abbrev pub Shorter : Text → Text → Type 0
Shorter s t = length s < length t

pub drop-Shorter : (body : Text) → 78 < length body → Shorter (drop 78 body) body
drop-Shorter body h = omega (arith, length-drop 78 body)

Acc-Shorter : (k : ℕ) (s : Text) → length s < k → Acc Shorter s
Acc-Shorter ℕ.zero s h = absurd (omega arith)
Acc-Shorter (suc k) s h = Acc.intro s (λ t ht. Acc-Shorter k t (omega arith))

unfoldable pub shorter_wf : WellFounded Shorter
unfolding Acc-Shorter
shorter_wf = record { apply = λ s. Acc-Shorter (suc (length s)) s (omega arith) }

-- The lines that the loop over a body that is not empty writes, each with a line end behind it.
pub lines_of : (body : Text) → Acc Shorter body → List Text
lines_of body (Acc.intro _ smaller) =
    dite (dec_lt 78 (length body))
      (λ h. take 78 body ∷ lines_of (drop 78 body) (smaller (drop 78 body) (drop-Shorter body h)))
      (λ _. body ∷ [])

unfoldable pub body_lines : Text → List Text
unfolding lines_of shorter_wf dec_lt
body_lines [] = []
body_lines (c ∷ cs) = lines_of (c ∷ cs) (shorter_wf.apply (c ∷ cs))

abbrev pub ended : List Text → Text
ended [] = []
ended (l ∷ ls) = l ++ (crlf ++ ended ls)

-- `strings.Join`
abbrev pub join : Text → List Text → Text
join sep [] = []
join sep (t ∷ []) = t
join sep (t ∷ u ∷ ts) = t ++ (sep ++ join sep (u ∷ ts))

abbrev pub header_lines : Text → List Text → Text → List Text
header_lines from to subject =
    (codes "From: " ++ from)
    ∷ (codes "To: " ++ join (codes ", ") to)
    ∷ (codes "Subject: " ++ subject)
    ∷ codes "MIME-Version: 1.0"
    ∷ codes "Content-Type: text/plain; charset=UTF-8"
    ∷ codes "Content-Transfer-Encoding: 7bit"
    ∷ []
    ∷ []

-- What is written after DATA.
unfoldable pub smtp_message : Text → List Text → Text → Text → Text
unfolding body_lines
smtp_message from to subject body = ended (header_lines from to subject) ++ ended (body_lines body)

-- The calls of net/smtp.
pub data SmtpEvent : Type 0 where
  dial : Text → SmtpEvent
  auth : PlainAuth → SmtpEvent
  mail : Text → SmtpEvent
  rcpt : Text → SmtpEvent
  begin_data : SmtpEvent
  write : Text → SmtpEvent
  end_data : SmtpEvent
  quit : SmtpEvent
  close : SmtpEvent

-- The server's reply to the latest call; `none` is no error.
module _ (reply : List SmtpEvent → Option Error) where
  call : Text → SmtpEvent → Io SmtpEvent (Unit {0})
  call label c = labelled label (issue reply c)

  set_recipients : List Text → Io SmtpEvent (Unit {0})
  unfolding call
  set_recipients [] = return tt
  set_recipients (r ∷ rs) =
      let rest = set_recipients rs in call (codes "failed to set recipient " ++ r) (rcpt r) >> rest

  -- What `SendSMTP` does with an open connection.
  unfoldable pub deliver : SmtpSender → List Text → Text → Io SmtpEvent (Unit {0})
  unfolding call set_recipients
  deliver s to text = do
    call (codes "SMTP authentication failed") (auth s.auth)
    call (codes "failed to set sender") (mail s.from_addr)
    set_recipients to
    call (codes "failed to start email data") begin_data
    call (codes "failed to write email") (write text)
    call (codes "failed to close email writer") end_data
    issue reply quit

  unfoldable pub send_smtp : SmtpSender → Text → List Text → Text → Text → Io SmtpEvent (Unit {0})
  unfolding deliver
  send_smtp s from to subject body = do
    call (codes "failed to connect to SMTP server") (dial s.host)
    finally close (deliver s to (smtp_message from to subject body))
