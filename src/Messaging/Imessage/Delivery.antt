-- ===== src/Messaging/Imessage/Delivery.antt =====
-- Listen of messaging/imessage_adapter.go over a database that grows: what its polls hand on
-- together.
use vassago_sdk.Prelude.{
  ℕ, suc, ◌+◌, ◌≤◌, ◌≡◌, refl, ap, ap₂, sym, subst, ◌∙◌, inl, inr, Bool, true, List, [], ◌∷◌, ◌++◌,
  map, some, Text, arith, ok, err, Error, not, if◌then◌else◌, codes, keep_if, keep_if-append,
  keep_if_comm, take_all, drop_all, length, append_assoc,
}
use mathlib.Core.List.{map-append}
use native.Mathlib.Nat.{zero-add}
use vassago_sdk.Prelude.Int.{ℤ, ltb_ℤ, ◌≤ℤ◌}
use vassago_sdk.Messaging.{MessageEvent}
use vassago_sdk.Messaging.Polling.{Turn, tick, cancelled, stopped, ticks, arrived}
use vassago_sdk.Messaging.Imessage.{IMessageRow, IMessageAdapter, IMessageQuerier}
use vassago_sdk.Messaging.Imessage.Incoming.{
  is_wanted, to_event, hand_on, poll_for_messages, listen_loop, listen,
}
use vassago_sdk.Messaging.Imessage.Poll.{Ascending, newer, newer-all, HandedOn, hand_on-HandedOn}
use vassago_sdk.Messaging.Imessage.Order.{
  Ascending-suffix, newer_self, newer-Ascending, newer-none, hand_on-Ascending,
}

module _ (accept : List MessageEvent → Bool)
    (takes : (sent : List MessageEvent) → accept sent ≡ true) (allowed : List Text)
    (start : ℤ) where
  abbrev wanted : List IMessageRow → List IMessageRow
  wanted = keep_if (is_wanted allowed)

  -- What holds of the last id `m` when the rows `seen` have been polled.
  abbrev Caught : List IMessageRow → ℤ → Type 0
  Caught seen m =
      (start ≤ℤ m)
      × (newer m (wanted seen) ≡ [])
      × ((rest : List IMessageRow) → Ascending start (seen ++ rest) → Ascending m rest)

  module _ (seen fresh : List IMessageRow) (m : ℤ) (sent : List MessageEvent)
      (up : Ascending start (seen ++ fresh)) (caught : Caught seen m) where
    abbrev asked : List IMessageRow
    asked = newer m (seen ++ fresh)

    abbrev after : ℤ × List MessageEvent
    after = hand_on accept allowed asked m sent

    wanted-asked : wanted asked ≡ wanted fresh
    wanted-asked =
        keep_if_comm (is_wanted allowed) (λ msg. ltb_ℤ m msg.rowid) (seen ++ fresh)
        ∙ ap (newer m) (keep_if-append (is_wanted allowed) seen fresh)
        ∙ keep_if-append (λ msg. ltb_ℤ m msg.rowid) (wanted seen) (wanted fresh)
        ∙ ap (λ xs. xs ++ newer m (wanted fresh)) caught.1
        ∙ newer-all (is_wanted allowed) m fresh (caught.2 fresh up)

    handed : HandedOn accept (wanted asked) m sent after
    handed =
        hand_on-HandedOn accept allowed asked m sent (newer-Ascending start m (seen ++ fresh) up)

    handed-all : length (wanted asked) ≤ handed.0
    handed-all = elim handed.4 [
      | inl whole ↦ omega (arith, whole)
      | inr gone ↦ absurd (cc (takes after.1, gone))
    ]

    -- The poll hands on the fresh rows that are wanted.
    poll_sends : after.1 ≡ sent ++ map to_event (wanted fresh)
    poll_sends =
        handed.2
        ∙ ap (λ xs. sent ++ map to_event xs)
            (take_all handed.0 (wanted asked) handed-all ∙ wanted-asked)

    poll-Caught : Caught (seen ++ fresh) after.0
    poll-Caught = (
      omega (arith, caught.0, handed.1),
      ap (newer after.0) (keep_if-append (is_wanted allowed) seen fresh)
          ∙ keep_if-append (λ msg. ltb_ℤ after.0 msg.rowid) (wanted seen) (wanted fresh)
          ∙ ap₂ ◌++◌ (newer-none m after.0 (wanted seen) handed.1 caught.1) (
              ap (newer after.0) (sym wanted-asked)
              ∙ handed.3
              ∙ drop_all handed.0 (wanted asked) handed-all),
      λ rest h. hand_on-Ascending accept allowed asked rest m sent (
          subst (Ascending m) (with_rest rest h)
            (newer-Ascending start m ((seen ++ fresh) ++ rest) h)),
    )
      where
        with_rest :
            (rest : List IMessageRow)
            → Ascending start ((seen ++ fresh) ++ rest)
            → newer m ((seen ++ fresh) ++ rest) ≡ asked ++ rest
        with_rest rest h =
            let on : Ascending start (seen ++ (fresh ++ rest)) = rw append_assoc at h in
            keep_if-append (λ msg. ltb_ℤ m msg.rowid) (seen ++ fresh) rest
            ∙ ap (λ xs. asked ++ xs)
                (newer_self m rest (Ascending-suffix m fresh rest (caught.2 (fresh ++ rest) on)))

-- The events of the wanted rows.
abbrev pub events : List Text → List IMessageRow → List MessageEvent
events allowed rows = map to_event (keep_if (is_wanted allowed) rows)

events-append :
    (allowed : List Text) (xs ys : List IMessageRow)
    → events allowed (xs ++ ys) ≡ events allowed xs ++ events allowed ys
events-append allowed xs ys =
    ap (map to_event) (keep_if-append (is_wanted allowed) xs ys)
    ∙ map-append to_event (keep_if (is_wanted allowed) xs) (keep_if (is_wanted allowed) ys)

at_same :
    (allowed : List Text) (fresh : ℕ → List IMessageRow) (n m : ℕ)
    → n ≡ m
    → events allowed (arrived fresh n) ≡ events allowed (arrived fresh m)
at_same allowed fresh n m e = ap (λ k. events allowed (arrived fresh k)) e

module _ (accept : List MessageEvent → Bool)
    (takes : (sent : List MessageEvent) → accept sent ≡ true) (start : ℤ)
    (fresh : ℕ → List IMessageRow) (up : (t : ℕ) → Ascending start (arrived fresh t))
    (querier : IMessageQuerier)
    (asks : (t : ℕ) (since : ℤ)
      → start ≤ℤ since
      → querier.query_messages t since ≡ ok (newer since (arrived fresh (suc t)))) where
  poll_lem :
      (t : ℕ) (a : IMessageAdapter) (sent : List MessageEvent)
      → a.querier ≡ some querier
      → start ≤ℤ a.last_rowid
      → let r =
          hand_on accept a.config.allowed_recipients
            (newer a.last_rowid (arrived fresh (suc t)))
            a.last_rowid
            sent in
        poll_for_messages accept t a sent ≡ (record a { last_rowid = r.0 }, r.1)
  unfolding poll_for_messages
  poll_lem t a sent e h = rw (e, asks t a.last_rowid h) refl

  -- From a state in which the rows that arrived are caught up with.
  listen_loop_lem :
      (turns : List Turn) (t : ℕ) (a : IMessageAdapter) (sent : List MessageEvent)
      → a.querier ≡ some querier
      → Caught accept takes a.config.allowed_recipients start (arrived fresh t) a.last_rowid
      → sent ≡ events a.config.allowed_recipients (arrived fresh t)
      → (listen_loop accept t turns a sent).1
        ≡ events a.config.allowed_recipients (arrived fresh (ticks turns + t))
  unfolding listen_loop
  listen_loop_lem [] t a sent e h so_far = rw zero-add so_far
  listen_loop_lem (cancelled ∷ turns) t a sent e h so_far = rw zero-add so_far
  listen_loop_lem (stopped ∷ turns) t a sent e h so_far = rw zero-add so_far
  listen_loop_lem (tick ∷ turns) t a sent e h so_far =
      let allowed = a.config.allowed_recipients in
      let seen = arrived fresh t in
      let r = after accept takes allowed start seen (fresh t) a.last_rowid sent (up (suc t)) h in
      let now : r.1 ≡ events allowed (arrived fresh (suc t)) =
        poll_sends accept takes allowed start seen (fresh t) a.last_rowid sent (up (suc t)) h
        ∙ ap (λ xs. xs ++ events allowed (fresh t)) so_far
        ∙ sym (events-append allowed seen (fresh t)) in
      let later : (listen_loop accept (suc t) turns (record a { last_rowid = r.0 }) r.1).1
          ≡ events allowed (arrived fresh (ticks turns + suc t)) =
        listen_loop_lem turns (suc t) (record a { last_rowid = r.0 }) r.1 e
          (poll-Caught accept takes allowed start seen (fresh t) a.last_rowid sent (up (suc t)) h)
          now in
      ap (λ p. (listen_loop accept (suc t) turns p.0 p.1).1) (poll_lem t a sent e h.0)
      ∙ later
      ∙ at_same allowed fresh (ticks turns + suc t) (suc (ticks turns) + t) (omega arith)

listening :
    (accept : List MessageEvent → Bool) (turns : List Turn) (a : IMessageAdapter)
    → a.connected ≡ true
    → listen accept turns a ≡ ok (listen_loop accept 0 turns a [])
unfolding listen
listening accept turns a on =
    ap
      (λ b.
        if not b
        then err (Error.message (codes "not connected to iMessage database"))
        else ok (listen_loop accept 0 turns a []))
      on

-- A connected adapter that listens while its reader takes every event, on a database whose rows
-- ascend by their ids and whose query returns the rows above the id that it is given: each wanted
-- row that has arrived by some poll is handed on by then, once, and in the order of the ids.
pub listen_delivers :
    (accept : List MessageEvent → Bool) (fresh : ℕ → List IMessageRow) (querier : IMessageQuerier)
    (a : IMessageAdapter) (turns : List Turn)
    → ((sent : List MessageEvent) → accept sent ≡ true)
    → ((t : ℕ) → Ascending a.last_rowid (arrived fresh t))
    → ((t : ℕ) (since : ℤ)
        → a.last_rowid ≤ℤ since
        → querier.query_messages t since ≡ ok (newer since (arrived fresh (suc t))))
    → a.connected ≡ true
    → a.querier ≡ some querier
    → (a' : IMessageAdapter) × (listen accept turns a
        ≡ ok (a', events a.config.allowed_recipients (arrived fresh (ticks turns))))
unfolding listen
listen_delivers accept fresh querier a turns takes up asks on e =
    let r = listen_loop accept 0 turns a [] in
    let sent : r.1 ≡ events a.config.allowed_recipients (arrived fresh (ticks turns)) =
      listen_loop_lem accept takes a.last_rowid fresh up querier asks turns 0 a [] e
        (omega arith, refl, λ rest h. h) refl
      ∙ at_same a.config.allowed_recipients fresh (ticks turns + 0) (ticks turns) (omega arith) in
    (r.0, listening accept turns a on ∙ ap (λ out. ok (r.0, out)) sent)
