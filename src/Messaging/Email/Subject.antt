-- ===== src/Messaging/Email/Subject.antt =====
-- What `Send` hands to the SMTP sender.
use vassago_sdk.Prelude.{
  List, ◌⊎◌, ◌∙◌, ℕ, zero, suc, ◌≡◌, refl, ap, ap₂, inl, inr, true, false, [], ◌∷◌, ◌++◌, Option,
  none, some, arith, Option-cases, Bool-cases, ◌≢◌, Text, codes, contains, has_prefix,
  has_prefix-append, index, length, take, drop, is_nil, take-append, drop-suc-append, Error, Result,
  ok, err,
}
use vassago_sdk.Prelude.Int.{ℤ}
use vassago_sdk.Prelude.Decimal.{format_int}
use vassago_sdk.Prelude.Search.{index_before, index-append, index-none}
use vassago_sdk.Messaging.Email.Address.{IsAddress, is_valid_email_iff}
use vassago_sdk.Messaging.Email.{
  EmailAdapter, EmailSender, parse_subject, cut_subject, send, is_valid_email, Mail, hand_over,
  to_one,
}

abbrev subject_prefix : Text
subject_prefix = codes "Subject: "

contains-drop : (n : ℕ) (s : Text) → contains s b'\n' ≡ false → contains (drop n s) b'\n' ≡ false
unfolding contains
contains-drop zero s h = h
contains-drop (suc n) [] h = refl
contains-drop (suc n) (x ∷ xs) h = contains-drop n xs (ground arith)

-- A text that starts with the prefix has no newline at its start.
prefix_first :
    (message : Text) → index message b'\n' ≡ some 0 → has_prefix message subject_prefix ≢ true
unfolding index has_prefix
prefix_first [] e = λ p. cc
prefix_first (x ∷ xs) e = λ p. ground arith

cut_subject_free :
    (o : Option ℕ) (message : Text)
    → index message b'\n' ≡ o
    → has_prefix message subject_prefix ≡ true
    → contains (cut_subject o message).0 b'\n' ≡ false
cut_subject_free none message e p = contains-drop 9 message (index-none b'\n' message e)
cut_subject_free (some zero) message e p = absurd (prefix_first message e p)
cut_subject_free (some (suc i)) message e p =
    contains-drop 9 (take (suc i) message) (index_before b'\n' message (suc i) e)

-- The subject that `Send` takes from a message has no newline, whatever the message.
parse_subject_free : (message : Text) → contains (parse_subject message).0 b'\n' ≡ false
unfolding parse_subject contains
parse_subject_free message = elim (Bool-cases (has_prefix message subject_prefix)) [
  | inl h ↦ rw h (cut_subject_free (index message b'\n') message refl h)
  | inr h ↦ rw h refl
]

parse_subject_round :
    (subject body : Text)
    → contains subject b'\n' ≡ false
    → parse_subject (codes "Subject: " ++ (subject ++ b'\n' ∷ body)) ≡ (subject, body)
unfolding parse_subject
parse_subject_round subject body free =
    let line : Text = codes "Subject: " ++ subject in
    let found : index (line ++ b'\n' ∷ body) b'\n' ≡ some (length line) =
      index-append b'\n' line body (unfold contains in ground arith) in
    let starts : has_prefix (line ++ b'\n' ∷ body) (codes "Subject: ") ≡ true =
      has_prefix-append (codes "Subject: ") (subject ++ b'\n' ∷ body) in
    rw (starts, found)
      (ap₂ (λ (s b : Text). (s, b)) (ap (drop 9) (take-append line (b'\n' ∷ body)))
        (drop-suc-append line b'\n' body))

plain_message :
    (message : Text)
    → has_prefix message (codes "Subject: ") ≡ false
    → parse_subject message ≡ (codes "Message from Vassago", message)
unfolding parse_subject
plain_message message h = rw h refl

target_full : (target : Text) → is_valid_email target ≡ true → is_nil target ≡ false
unfolding is_valid_email contains
target_full [] h = cc
target_full (c ∷ cs) h = refl

-- What `Send` returns for what the sender says.
abbrev pub answer : ℤ → Option Error → Result Text
answer now none = ok (codes "email-" ++ format_int now)
answer now (some e) = err e

module _ (now : ℤ) (a : EmailAdapter) (sender : EmailSender) (target : Text)
    (has_sender : a.sender ≡ some sender) where
  send_valid :
      (message : Text) (log : List Mail)
      → is_valid_email target ≡ true
      → let mail : Mail = record {
        from = a.config.from_address;
        recipients = target ∷ [];
        subject = (parse_subject message).0;
        body = (parse_subject message).1;
      } in
        send now a target message log ≡ (answer now (sender (mail ∷ log)), mail ∷ log)
  unfolding send
  send_valid message log valid = rw (has_sender, valid, target_full target valid, send) (answers _)
    where
      answers :
          (mails : List Mail) → hand_over now sender mails ≡ (answer now (sender mails), mails)
      answers mails = elim (Option-cases (sender mails)) [
        | inl e ↦ rw e refl
        | inr (x, e) ↦ rw e refl
      ]

  send_invalid :
      (message : Text) (log : List Mail)
      → is_valid_email target ≡ false
      → (e : Error) × (send now a target message log ≡ (err e, log))
  unfolding send
  send_invalid message log invalid = elim (Bool-cases (is_nil target)) [
    | inl empty ↦ (
      Error.message (codes "target email address is required"),
      rw (has_sender, empty, send) refl,
    )
    | inr full ↦ (
      Error.message (codes "invalid email address: " ++ target),
      rw (has_sender, full, invalid, send) refl,
    )
  ]

send_apart :
    (now : ℤ) (a : EmailAdapter) (target message : Text) (log : List Mail)
    → a.sender ≡ none
    → (e : Error) × (send now a target message log ≡ (err e, log))
unfolding send
send_apart now a target message log h =
    (Error.message (codes "not connected to email"), rw (h, send) refl)

-- `Send` without a sender, or to a target that is no address, fails and hands no mail to the sender.
-- With a sender and to an address it hands over exactly one mail, from the configured address to
-- the target alone and with a subject that has no newline, and its result is the sender's answer.
pub send_lem :
    (now : ℤ) (a : EmailAdapter) (target message : Text) (log : List Mail)
    → (((a.sender ≡ none) ⊎ ¬ IsAddress target)
        × (e : Error) × (send now a target message log ≡ (err e, log)))
      ⊎ ((sender : EmailSender) × (subject body : Text) × (a.sender ≡ some sender)
          × IsAddress target
          × (contains subject b'\n' ≡ false)
          × (let mail : Mail = record {
            from = a.config.from_address;
            recipients = target ∷ [];
            subject = subject;
            body = body;
          } in
              send now a target message log ≡ (answer now (sender (mail ∷ log)), mail ∷ log)))
send_lem now a target message log = elim (Option-cases a.sender) [
  | inl nothing ↦
      let (x, fails) = send_apart now a target message log nothing in inl (inl nothing, x, fails)
  | inr (sender, e) ↦ elim (Bool-cases (is_valid_email target)) [
    | inr invalid ↦
        let (x, fails) = send_invalid now a sender target e message log invalid in
        inl (inr (λ valid. cc ((is_valid_email_iff target).1 valid, invalid)), x, fails)
    | inl valid ↦ inr (
      sender,
      (parse_subject message).0,
      (parse_subject message).1,
      e,
      (is_valid_email_iff target).0 valid,
      parse_subject_free message,
      send_valid now a sender target e message log valid,
    )
  ]
]

-- To an address, a message of the form "Subject: s", newline, b, with no newline in s, is sent with
-- subject s and body b; a message without that prefix is sent whole, under the default subject.
pub send_parsed :
    (now : ℤ) (a : EmailAdapter) (sender : EmailSender) (target : Text) (log : List Mail)
    → a.sender ≡ some sender
    → is_valid_email target ≡ true
    → let mail : Text → Text → Mail = λ subject body. record {
      from = a.config.from_address;
      recipients = target ∷ [];
      subject = subject;
      body = body;
    } in
      ((subject body : Text)
        → contains subject b'\n' ≡ false
        → send now a target (codes "Subject: " ++ (subject ++ b'\n' ∷ body)) log
          ≡ (answer now (sender (mail subject body ∷ log)), mail subject body ∷ log))
      × ((message : Text)
          → has_prefix message (codes "Subject: ") ≡ false
          → send now a target message log ≡ (
            answer now (sender (mail (codes "Message from Vassago") message ∷ log)),
            mail (codes "Message from Vassago") message ∷ log,
          ))
unfolding parse_subject
send_parsed now a sender target log e valid = (
  λ subject body free.
      send_valid now a sender target e (codes "Subject: " ++ (subject ++ b'\n' ∷ body)) log valid
      ∙ ap
          (λ p.
            let mails = to_one a.config.from_address target p ∷ log in
            (answer now (sender mails), mails))
          (parse_subject_round subject body free),
  λ message h.
      send_valid now a sender target e message log valid
      ∙ ap
          (λ p.
            let mails = to_one a.config.from_address target p ∷ log in
            (answer now (sender mails), mails))
          (plain_message message h),
)
