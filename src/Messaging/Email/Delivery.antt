-- ===== src/Messaging/Email/Delivery.antt =====
-- Listen of messaging/email_adapter.go over a mailbox that grows: what its polls hand on together.
use vassago_sdk.Prelude.{
  ℕ, suc, ◌+◌, ◌≡◌, refl, ap, ap₂, sym, ◌∙◌, Bool, true, false, List, [], ◌∷◌, ◌++◌, map, some,
  Text, arith, ok, if◌then◌else◌, keep_if, keep_if-append, All, All-append, All-map,
}
use mathlib.Core.List.{map-append}
use native.Mathlib.Nat.{zero-add}
use vassago_sdk.Prelude.Int.{ℤ, ltb_ℤ, ◌≤ℤ◌}
use vassago_sdk.Messaging.{MessageEvent}
use vassago_sdk.Messaging.Polling.{Turn, tick, cancelled, stopped, ticks, arrived}
use vassago_sdk.Messaging.Email.{EmailMessage, EmailAdapter, EmailFetcher}
use vassago_sdk.Messaging.Email.Incoming.{
  is_wanted, to_event, max_uid, poll_once, poll_emails, listen,
}
use vassago_sdk.Messaging.Email.Poll.{events, moved, moved_lem, poll_all}

-- The messages above a UID.
abbrev pub newer : ℤ → List EmailMessage → List EmailMessage
newer m msgs = keep_if (λ msg. ltb_ℤ m msg.uid) msgs

-- All messages are above a UID, or none is.
abbrev pub Above : ℤ → List EmailMessage → Type 0
Above m msgs = All (λ msg. ltb_ℤ m msg.uid ≡ true) msgs

abbrev pub UpTo : ℤ → List EmailMessage → Type 0
UpTo m msgs = All (λ msg. msg.uid ≤ℤ m) msgs

newer_all : (m : ℤ) (msgs : List EmailMessage) → Above m msgs → newer m msgs ≡ msgs
newer_all m [] h = refl
newer_all m (msg ∷ msgs) h = rw (h.0, keep_if) (ap (◌∷◌ msg) (newer_all m msgs h.1))

newer_none : (m : ℤ) (msgs : List EmailMessage) → UpTo m msgs → newer m msgs ≡ []
newer_none m [] h = refl
newer_none m (msg ∷ msgs) h =
    let old : ltb_ℤ m msg.uid ≡ false = ground (arith, h.0) in
    rw (old, keep_if) (newer_none m msgs h.1)

All-left : {A : Type 0} (P : A → Type 0) (xs ys : List A) → All P (xs ++ ys) → All P xs
All-left P [] ys h = tt
All-left P (x ∷ xs) ys h = (h.0, All-left P xs ys h.1)

All-right : {A : Type 0} (P : A → Type 0) (xs ys : List A) → All P (xs ++ ys) → All P ys
All-right P [] ys h = h
All-right P (x ∷ xs) ys h = All-right P xs ys h.1

-- The largest UID is the one before, or that of a message.
max_uid-one :
    (P : ℤ → Type 0) (m : ℤ) (msgs : List EmailMessage)
    → P m
    → All (λ msg. P msg.uid) msgs
    → P (max_uid m msgs)
unfolding max_uid
max_uid-one P m [] h all = h
max_uid-one P m (msg ∷ msgs) h (p, all) =
    max_uid-one P (if ltb_ℤ m msg.uid then msg.uid else m) msgs (either (ltb_ℤ m msg.uid)) all
  where
    either : (b : Bool) → P (if b then msg.uid else m)
    either true = p
    either false = h

module _ (start : ℤ) where
  -- What holds of the last UID `m` when the messages `seen` have been polled.
  abbrev Caught : List EmailMessage → ℤ → Type 0
  Caught seen m =
      (start ≤ℤ m)
      × UpTo m seen
      × ((msgs : List EmailMessage)
          → Above start msgs
          → All (λ old. Above old.uid msgs) seen
          → Above m msgs)

  Caught-newer :
      (seen fresh : List EmailMessage) (m : ℤ)
      → Caught seen m
      → Above start fresh
      → All (λ old. Above old.uid fresh) seen
      → newer m (seen ++ fresh) ≡ fresh
  Caught-newer seen fresh m (le, old, least) up all =
      keep_if-append (λ msg. ltb_ℤ m msg.uid) seen fresh
      ∙ ap₂ ◌++◌ (newer_none m seen old) (newer_all m fresh (least fresh up all))

  moved-Caught :
      (seen fresh : List EmailMessage) (a : EmailAdapter)
      → Caught seen a.last_seen_uid
      → Caught (seen ++ fresh) (moved a fresh).last_seen_uid
  moved-Caught seen fresh a (le, old, least) =
      let (same, up, all) = moved_lem a fresh in
      (
        omega (arith, le, up),
        All-append _ seen fresh (All-map _ _ seen (λ msg h. omega (arith, h, up)) old) all,
        λ msgs h every.
            moved_one fresh msgs
              (least msgs h (All-left (λ old. Above old.uid msgs) seen fresh every))
              (All-right (λ old. Above old.uid msgs) seen fresh every),
      )
    where
      moved_one :
          (fresh msgs : List EmailMessage)
          → Above a.last_seen_uid msgs
          → All (λ old. Above old.uid msgs) fresh
          → Above (moved a fresh).last_seen_uid msgs
      moved_one [] msgs h all = h
      moved_one (x ∷ xs) msgs h all =
          max_uid-one (λ uid. Above uid msgs) a.last_seen_uid (x ∷ xs) h all

events-append :
    (allowed : List Text) (folder : Text) (xs ys : List EmailMessage)
    → events allowed folder (xs ++ ys) ≡ events allowed folder xs ++ events allowed folder ys
events-append allowed folder xs ys =
    ap (map (to_event folder)) (keep_if-append (is_wanted allowed) xs ys)
    ∙ map-append (to_event folder) (keep_if (is_wanted allowed) xs) (keep_if (is_wanted allowed) ys)

tick_lem :
    (accept : List MessageEvent → Bool) (turns : List Turn) (t : ℕ) (a a' : EmailAdapter)
    (sent sent' : List MessageEvent)
    → poll_once accept t a sent ≡ some (a', sent')
    → poll_emails accept t (tick ∷ turns) a sent ≡ poll_emails accept (suc t) turns a' sent'
unfolding poll_emails
tick_lem accept turns t a a' sent sent' e = rw (e, poll_emails) refl

module _ (accept : List MessageEvent → Bool)
    (takes : (sent : List MessageEvent) → accept sent ≡ true) (start : ℤ)
    (fresh : ℕ → List EmailMessage) (up : (t : ℕ) → Above start (fresh t))
    (grows : (t : ℕ) → All (λ old. Above old.uid (fresh t)) (arrived fresh t))
    (fetcher : EmailFetcher)
    (fetches : (t : ℕ) (since : ℤ)
      → start ≤ℤ since
      → fetcher.fetch_new_messages t since ≡ ok (newer since (arrived fresh (suc t))))
    (folder : Text) (more : List Text) (allowed : List Text) where
  -- From a state in which the messages that arrived are caught up with.
  poll_emails_lem :
      (turns : List Turn) (t : ℕ) (a : EmailAdapter) (sent : List MessageEvent)
      → a.fetcher ≡ some fetcher
      → a.config.folders ≡ folder ∷ more
      → a.config.allowed_from ≡ allowed
      → Caught start (arrived fresh t) a.last_seen_uid
      → sent ≡ events allowed folder (arrived fresh t)
      → (a' : EmailAdapter) × (poll_emails accept t turns a sent
          ≡ some (a', events allowed folder (arrived fresh (ticks turns + t))))
  unfolding poll_emails
  poll_emails_lem [] t a sent ef ed ea h so_far = (a, rw (zero-add, so_far) refl)
  poll_emails_lem (cancelled ∷ turns) t a sent ef ed ea h so_far = (a, rw (zero-add, so_far) refl)
  poll_emails_lem (stopped ∷ turns) t a sent ef ed ea h so_far = (a, rw (zero-add, so_far) refl)
  poll_emails_lem (tick ∷ turns) t a sent ef ed ea h so_far =
      let seen = arrived fresh t in
      let now : sent ++ events a.config.allowed_from folder (fresh t)
          ≡ events allowed folder (arrived fresh (suc t)) =
        ap₂ (λ out from. out ++ events from folder (fresh t)) so_far ea
        ∙ sym (events-append allowed folder seen (fresh t)) in
      let fetched : fetcher.fetch_new_messages t a.last_seen_uid ≡ ok (fresh t) =
        fetches t a.last_seen_uid h.0
        ∙ ap ok (Caught-newer start seen (fresh t) a.last_seen_uid h (up t) (grows t)) in
      let same = (moved_lem a (fresh t)).0 in
      let (a', rest) =
        poll_emails_lem turns (suc t) (moved a (fresh t))
          (sent ++ events a.config.allowed_from folder (fresh t)) (ap (λ b. b.fetcher) same ∙ ef)
          (ap (λ b. b.config.folders) same ∙ ed) (ap (λ b. b.config.allowed_from) same ∙ ea)
          (moved-Caught start seen (fresh t) a h) now in
      (
        a',
        tick_lem accept turns t a (moved a (fresh t)) sent _
              (poll_all accept t a sent fetcher (fresh t) folder more ef fetched ed takes)
            ∙ rest
            ∙ ap (λ n. some (a', events allowed folder (arrived fresh n))) {x = ticks turns + suc t}
                {y = suc (ticks turns) + t} (omega arith),
      )

listening :
    (accept : List MessageEvent → Bool) (turns : List Turn) (a : EmailAdapter)
    → a.connected ≡ true
    → listen accept turns a ≡ ok (poll_emails accept 0 turns a [])
unfolding listen
listening accept turns a on = rw on refl

-- A connected adapter that listens while its reader takes every event, on a mailbox in which new
-- messages have larger UIDs and whose fetch returns the messages above the UID that it is given:
-- each wanted message that has arrived by some poll is handed on by then, once and in order.
pub email_listen_delivers :
    (accept : List MessageEvent → Bool) (fresh : ℕ → List EmailMessage) (fetcher : EmailFetcher)
    (a : EmailAdapter) (folder : Text) (more : List Text) (turns : List Turn)
    → ((sent : List MessageEvent) → accept sent ≡ true)
    → ((t : ℕ) → Above a.last_seen_uid (fresh t))
    → ((t : ℕ) → All (λ old. Above old.uid (fresh t)) (arrived fresh t))
    → ((t : ℕ) (since : ℤ)
        → a.last_seen_uid ≤ℤ since
        → fetcher.fetch_new_messages t since ≡ ok (newer since (arrived fresh (suc t))))
    → a.connected ≡ true
    → a.fetcher ≡ some fetcher
    → a.config.folders ≡ folder ∷ more
    → (a' : EmailAdapter) × (listen accept turns a
        ≡ ok (some (a', events a.config.allowed_from folder (arrived fresh (ticks turns)))))
email_listen_delivers accept fresh fetcher a folder more turns takes up grows fetches on ef ed =
    let (a', e) =
      poll_emails_lem accept takes a.last_seen_uid fresh up grows fetcher fetches folder more
        a.config.allowed_from turns 0 a [] ef ed refl (omega arith, tt, λ msgs h all. h) refl in
    (
      a',
      listening accept turns a on
          ∙ ap ok e
          ∙ ap (λ n. ok (some (a', events a.config.allowed_from folder (arrived fresh n))))
              {x = ticks turns + 0} {y = ticks turns} (omega arith),
    )
