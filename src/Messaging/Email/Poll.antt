-- ===== src/Messaging/Email/Poll.antt =====
-- What one poll hands on, and how it moves the last seen UID.
use vassago_sdk.Prelude.{
  ℕ, ◌≡◌, ◌⊎◌, refl, sym, subst, ap, ◌∙◌, inl, inr, Bool, true, false, List, [], ◌∷◌, ◌++◌, map,
  some, arith, Bool-cases, ok, Text, keep_if, All, append_assoc, append-nil,
}
use vassago_sdk.Prelude.Int.{◌≤ℤ◌}
use vassago_sdk.Messaging.{MessageEvent}
use vassago_sdk.Messaging.Email.{EmailAdapter, EmailMessage, EmailFetcher}
use vassago_sdk.Messaging.Email.Incoming.{
  is_wanted, to_event, hand_on, max_uid, poll_once, finish_poll,
}
use vassago_sdk.Messaging.Email.Uids.{max_uid-Mem, max_uid_lem}
use mathlib.Core.List.{Mem}

-- The events of the wanted messages, in their order.
abbrev pub events : List Text → Text → List EmailMessage → List MessageEvent
events allowed_from folder msgs = map (to_event folder) (keep_if (is_wanted allowed_from) msgs)

-- The `select` behind the events `out` takes the cancelled context, with events left.
abbrev pub Refused : (List MessageEvent → Bool) → List MessageEvent → List MessageEvent → Type 0
Refused accept out rest =
    ((event : MessageEvent) × (later : List MessageEvent) × (rest ≡ event ∷ later))
    × (accept out ≡ false)

module _ (accept : List MessageEvent → Bool) (allowed_from : List Text) (folder : Text)
    (more : List Text) where
  hand_on_lem :
      (msgs : List EmailMessage) (sent : List MessageEvent)
      → (done : Bool) × (new rest : List MessageEvent) × (hand_on accept allowed_from
            (folder ∷ more)
            msgs
            sent
          ≡ some (done, sent ++ new))
        × (new ++ rest ≡ events allowed_from folder msgs)
        × (done ≡ true → rest ≡ [])
        × (done ≡ false → Refused accept (sent ++ new) rest)
        × (((log : List MessageEvent) → accept log ≡ true) → done ≡ true)
  unfolding hand_on
  hand_on_lem [] sent = (true, [], [], rw append-nil refl, refl, (λ e. refl), (λ e. cc), λ a. refl)
  hand_on_lem (msg ∷ msgs) sent = elim (Bool-cases (is_wanted allowed_from msg)) [
    | inr skip ↦ rw (skip, hand_on, keep_if) (hand_on_lem msgs sent)
    | inl wanted ↦ elim (Bool-cases (accept sent)) [
      | inl takes ↦
          let (done, new, rest, e, all, end, refused, always) =
            hand_on_lem msgs (sent ++ to_event folder msg ∷ []) in
          (
            done,
            to_event folder msg ∷ new,
            rest,
            rw (wanted, takes, hand_on) (rw append_assoc at e),
            rw (wanted, keep_if) (ap (◌∷◌ (to_event folder msg)) all),
            end,
            (λ f. let (left, stays) = refused f in (left, rw append_assoc at stays)),
            always,
          )
      | inr gone ↦ (
        false,
        [],
        events allowed_from folder (msg ∷ msgs),
        rw (wanted, gone, hand_on) (rw append-nil refl),
        refl,
        (λ e. cc),
        (λ e. (
          (to_event folder msg, events allowed_from folder msgs, rw (wanted, keep_if) refl),
          rw append-nil gone,
        )),
        λ always. cc (always sent),
      )
    ]
  ]

-- The adapter after a complete poll.
abbrev pub moved : EmailAdapter → List EmailMessage → EmailAdapter
moved a [] = a
moved a (m ∷ ms) = record a { last_seen_uid = max_uid a.last_seen_uid (m ∷ ms) }

pub moved_lem :
    (a : EmailAdapter) (msgs : List EmailMessage)
    → (moved a msgs ≡ record a { last_seen_uid = (moved a msgs).last_seen_uid })
      × (a.last_seen_uid ≤ℤ (moved a msgs).last_seen_uid)
      × All (λ msg. msg.uid ≤ℤ (moved a msgs).last_seen_uid) msgs
moved_lem a [] = (refl, omega arith, tt)
moved_lem a (m ∷ ms) = let (up, all) = max_uid_lem a.last_seen_uid (m ∷ ms) in (refl, up, all)

moved-Mem :
    (a : EmailAdapter) (msgs : List EmailMessage)
    → ((moved a msgs).last_seen_uid ≡ a.last_seen_uid)
      ⊎ Mem (moved a msgs).last_seen_uid (map (λ msg. msg.uid) msgs)
moved-Mem a [] = inl refl
moved-Mem a (m ∷ ms) = max_uid-Mem a.last_seen_uid (m ∷ ms)

finish_poll_lem :
    (a : EmailAdapter) (msgs : List EmailMessage) (out : List MessageEvent)
    → finish_poll a msgs (true, out) ≡ (moved a msgs, out)
finish_poll_lem a [] out = refl
finish_poll_lem a (m ∷ ms) out = refl

module _ (accept : List MessageEvent → Bool) (t : ℕ) (a : EmailAdapter)
    (sent : List MessageEvent) where
  poll_once-finish_poll :
      (fetcher : EmailFetcher) (msgs : List EmailMessage) (folder : Text) (more : List Text)
      (d : Bool) (out : List MessageEvent)
      → a.fetcher ≡ some fetcher
      → fetcher.fetch_new_messages t a.last_seen_uid ≡ ok msgs
      → a.config.folders ≡ folder ∷ more
      → hand_on accept a.config.allowed_from (folder ∷ more) msgs sent ≡ some (d, out)
      → poll_once accept t a sent ≡ some (finish_poll a msgs (d, out))
  unfolding poll_once
  poll_once-finish_poll fetcher msgs folder more d out ef em ed e =
      rw (ef, poll_once) (rw em (rw at_folders refl))
    where
      at_folders : hand_on accept a.config.allowed_from a.config.folders msgs sent ≡ some (d, out)
      at_folders =
          subst (λ fs. hand_on accept a.config.allowed_from fs msgs sent ≡ some (d, out)) (sym ed) e

-- A poll whose reader takes every event hands on the events of all wanted messages.
pub poll_all :
    (accept : List MessageEvent → Bool) (t : ℕ) (a : EmailAdapter) (sent : List MessageEvent)
    (fetcher : EmailFetcher) (msgs : List EmailMessage) (folder : Text) (more : List Text)
    → a.fetcher ≡ some fetcher
    → fetcher.fetch_new_messages t a.last_seen_uid ≡ ok msgs
    → a.config.folders ≡ folder ∷ more
    → ((log : List MessageEvent) → accept log ≡ true)
    → poll_once accept t a sent
      ≡ some (moved a msgs, sent ++ events a.config.allowed_from folder msgs)
poll_all accept t a sent fetcher msgs folder more ef em ed takes =
    let (done, new, rest, e, all, end, refused, always) =
      hand_on_lem accept a.config.allowed_from folder more msgs sent in
    let whole = always takes in
    poll_once-finish_poll accept t a sent fetcher msgs folder more done (sent ++ new) ef em ed e
    ∙ ap (λ b. some (finish_poll a msgs (b, sent ++ new))) whole
    ∙ ap some (finish_poll_lem a msgs (sent ++ new))
    ∙ ap (λ out. some (moved a msgs, sent ++ out))
        (sym (append-nil new) ∙ ap (◌++◌ new) (sym (end whole)) ∙ all)

-- What a poll does where the fetch succeeds: it does not panic; it hands on, in order, events of
-- the wanted messages, all of them if the context is not cancelled. Either it comes to its end, and
-- of the adapter only the UID changes, to the largest of the old one and those of all fetched
-- messages; or the context is cancelled with events left, and the adapter is unchanged.
pub poll_once_lem :
    (accept : List MessageEvent → Bool) (t : ℕ) (a : EmailAdapter) (sent : List MessageEvent)
    (fetcher : EmailFetcher) (msgs : List EmailMessage) (folder : Text) (more : List Text)
    → a.fetcher ≡ some fetcher
    → fetcher.fetch_new_messages t a.last_seen_uid ≡ ok msgs
    → a.config.folders ≡ folder ∷ more
    → (a' : EmailAdapter) × (new rest : List MessageEvent) × (poll_once accept t a sent
        ≡ some (a', sent ++ new))
      × (new ++ rest ≡ events a.config.allowed_from folder msgs)
      × (((log : List MessageEvent) → accept log ≡ true) → rest ≡ [])
      × (((rest ≡ [])
            × (a' ≡ record a { last_seen_uid = a'.last_seen_uid })
            × (a.last_seen_uid ≤ℤ a'.last_seen_uid)
            × All (λ msg. msg.uid ≤ℤ a'.last_seen_uid) msgs
            × ((a'.last_seen_uid ≡ a.last_seen_uid)
                ⊎ Mem a'.last_seen_uid (map (λ msg. msg.uid) msgs)))
          ⊎ ((a' ≡ a) × Refused accept (sent ++ new) rest))
poll_once_lem accept t a sent fetcher msgs folder more ef em ed =
    let (done, new, rest, e, all, end, refused, always) =
      hand_on_lem accept a.config.allowed_from folder more msgs sent in
    let runs =
      poll_once-finish_poll accept t a sent fetcher msgs folder more done (sent ++ new) ef em ed
        e in
    elim (Bool-cases done) [
      | inl whole ↦
          let (parts, up, below) = moved_lem a msgs in
          (
            moved a msgs,
            new,
            rest,
            rw whole at runs ∙ ap some (finish_poll_lem a msgs (sent ++ new)),
            all,
            (λ h. end whole),
            inl (end whole, parts, up, below, moved-Mem a msgs),
          )
      | inr cancelled ↦ (
        a,
        new,
        rest,
        (rw cancelled at runs),
        all,
        (λ h. end (always h)),
        inr (refl, refused cancelled),
      )
    ]
