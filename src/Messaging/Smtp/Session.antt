-- ===== src/Messaging/Smtp/Session.antt =====
-- `SendSMTP` against a script of commands that is followed up to the first refusal.
use vassago_sdk.Prelude.{
  ◌≡◌, refl, ap, inl, inr, Bool, true, false, List, [], ◌∷◌, ◌++◌, map, Option, none, some,
  Option-cases, Text, codes, Error, Result, ok, err, Error,
}
use vassago_sdk.Prelude.Effects.{Io, ◌>>◌, issue}
use vassago_sdk.Messaging.Smtp.{
  SmtpSender, SmtpEvent, dial, auth, mail, rcpt, begin_data, write, end_data, quit, close, call,
  set_recipients, deliver, send_smtp, smtp_message,
}

abbrev pub is_ok : {A : Type 0} → Result A → Bool
is_ok (ok a) = true
is_ok (err e) = false

-- The session that delivers `text`, in the order of the protocol.
abbrev pub script : SmtpSender → List Text → Text → List SmtpEvent
script s to text =
    auth s.auth
    ∷ mail s.from_addr
    ∷ (map rcpt to ++ (begin_data ∷ write text ∷ end_data ∷ quit ∷ []))

module _ (reply : List SmtpEvent → Option Error) where
  -- The commands are issued in turn until one is refused; whether none was, and the new log.
  abbrev pub attempt : List SmtpEvent → List SmtpEvent → Bool × List SmtpEvent
  attempt [] log = (true, log)
  attempt (c ∷ cs) log = elim (reply (c ∷ log)) [
    | none ↦ attempt cs (c ∷ log)
    | some e ↦ (false, c ∷ log)
  ]

  -- `k` issues these commands up to the first refusal, and succeeds if there is none.
  record Follows (k : Io SmtpEvent (Unit {0})) (cs : List SmtpEvent) : Type 0 where
    runs :
        (log : List SmtpEvent)
        → (is_ok (k log).0 ≡ (attempt cs log).0) × ((k log).1 ≡ (attempt cs log).1)

  call-Follows :
      (l : Text) (c : SmtpEvent) {k : Io SmtpEvent (Unit {0})} {cs : List SmtpEvent}
      → Follows k cs
      → Follows (call reply l c >> k) (c ∷ cs)
  unfolding call
  call-Follows l c h = record {
    runs = λ log. elim (Option-cases (reply (c ∷ log))) [
      | inl e ↦ rw (e, attempt) (h.runs (c ∷ log))
      | inr (x, e) ↦ rw (e, attempt) (refl, refl)
    ];
  }

  quit-Follows : Follows (issue reply quit) (quit ∷ [])
  quit-Follows = record {
    runs = λ log. elim (Option-cases (reply (quit ∷ log))) [
      | inl e ↦ rw (e, attempt) (refl, refl)
      | inr (x, e) ↦ rw (e, attempt) (refl, refl)
    ];
  }

  set_recipients-Follows :
      (rs : List Text) {k : Io SmtpEvent (Unit {0})} {cs : List SmtpEvent}
      → Follows k cs
      → Follows (set_recipients reply rs >> k) (map rcpt rs ++ cs)
  unfolding set_recipients call
  set_recipients-Follows [] h = h
  set_recipients-Follows (r ∷ rs) h =
      let later = set_recipients-Follows rs h in
      record {
        runs = λ log. elim (Option-cases (reply (rcpt r ∷ log))) [
          | inl e ↦ rw (e, attempt) (later.runs (rcpt r ∷ log))
          | inr (x, e) ↦ rw (e, attempt) (refl, refl)
        ];
      }

  deliver-Follows :
      (s : SmtpSender) (to : List Text) (text : Text)
      → Follows (deliver reply s to text) (script s to text)
  unfolding deliver
  deliver-Follows s to text = call-Follows _ _ (
      call-Follows _ _ (
        set_recipients-Follows to
          (call-Follows _ _ (call-Follows _ _ (call-Follows _ _ quit-Follows)))))

  -- `SendSMTP` dials; if that is refused it stops there, with the wrapped error. Otherwise it
  -- issues the commands of the session in their order up to the first refusal, then closes the
  -- connection in every case, and returns no error exactly if none was refused.
  pub send_smtp_lem :
      (s : SmtpSender) (from : Text) (to : List Text) (subject body : Text) (log : List SmtpEvent)
      → let dialed = dial s.host ∷ log in
        let session = attempt (script s to (smtp_message from to subject body)) dialed in
        let result = send_smtp reply s from to subject body log in
        ((e : Error)
          → reply dialed ≡ some e
          → result ≡ (err (Error.wrap (codes "failed to connect to SMTP server") e), dialed))
        × (reply dialed ≡ none → (is_ok result.0 ≡ session.0) × (result.1 ≡ close ∷ session.1))
  unfolding send_smtp call
  send_smtp_lem s from to subject body log =
      let d = (deliver-Follows s to (smtp_message from to subject body)).runs (dial s.host ∷ log) in
      (λ e h. rw h refl, λ h. rw h (d.0, ap (◌∷◌ close) d.1))
