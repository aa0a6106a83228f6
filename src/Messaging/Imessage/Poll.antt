-- ===== src/Messaging/Imessage/Poll.antt =====
-- What one poll of messaging/imessage_adapter.go does: that it neither loses nor repeats a
-- message.
use vassago_sdk.Prelude.{
  ℕ, suc, ◌≡◌, ◌⊎◌, refl, ap, sym, ◌∙◌, inl, inr, Bool, true, false, Bool-cases, List, [], ◌∷◌,
  ◌++◌, map, some, Text, arith, ok, keep_if, keep_if_yes, keep_if_no, take, drop, length,
  append_assoc, append-nil,
}
use vassago_sdk.Prelude.Int.{ℤ, ltb_ℤ, ◌≤ℤ◌}
use vassago_sdk.Messaging.{MessageEvent}
use vassago_sdk.Messaging.Imessage.Incoming.{is_wanted, to_event, hand_on, poll_for_messages}
use vassago_sdk.Messaging.Imessage.{IMessageRow, IMessageAdapter, IMessageQuerier}

-- Rows in ascending order of their ids, all above `m`, as the source's query orders them.
abbrev pub Ascending : ℤ → List IMessageRow → Type 0
Ascending m [] = Unit
Ascending m (msg ∷ msgs) = (ltb_ℤ m msg.rowid ≡ true) × Ascending msg.rowid msgs

-- The rows above an id.
abbrev pub newer : ℤ → List IMessageRow → List IMessageRow
newer m msgs = keep_if (λ msg. ltb_ℤ m msg.rowid) msgs

pub Ascending-weaken :
    (m n : ℤ) (msgs : List IMessageRow) → m ≤ℤ n → Ascending n msgs → Ascending m msgs
Ascending-weaken m n [] le h = tt
Ascending-weaken m n (msg ∷ msgs) le h = (ground arith, h.1)

-- All the wanted rows of ascending ones are newer.
pub newer-all :
    (p : IMessageRow → Bool) (m : ℤ) (msgs : List IMessageRow)
    → Ascending m msgs
    → newer m (keep_if p msgs) ≡ keep_if p msgs
newer-all p m [] h = refl
newer-all p m (msg ∷ msgs) h = elim (Bool-cases (p msg)) [
  | inl wanted ↦
      rw (wanted, keep_if)
        (rw (h.0, keep_if)
          (ap (◌∷◌ msg)
            (newer-all p m msgs (Ascending-weaken m msg.rowid msgs (ground arith) h.1))))
  | inr other ↦
      rw (other, keep_if)
        (newer-all p m msgs (Ascending-weaken m msg.rowid msgs (ground arith) h.1))
]

-- What a run does with the wanted rows: it hands on the first `n`, in order; the others are those
-- above the last id; and it stops early only if the context is cancelled.
abbrev pub HandedOn :
    (List MessageEvent → Bool)
    → List IMessageRow
    → ℤ
    → List MessageEvent
    → ℤ × List MessageEvent
    → Type 0
HandedOn accept wanted last sent r =
    (n : ℕ) × (last ≤ℤ r.0)
    × (r.1 ≡ sent ++ map to_event (take n wanted))
    × (newer r.0 wanted ≡ drop n wanted)
    × ((n ≡ length wanted) ⊎ (accept r.1 ≡ false))

module _ (accept : List MessageEvent → Bool) (allowed : List Text) where
  at_equal :
      (last : ℤ) (sent : List MessageEvent) (w w' : List IMessageRow) (r r' : ℤ × List MessageEvent)
      → w ≡ w'
      → r ≡ r'
      → HandedOn accept w' last sent r'
      → HandedOn accept w last sent r
  at_equal last sent w w' r r' e e' h = rw (e, e') h

  hand_on_skip :
      (msg : IMessageRow) (msgs : List IMessageRow) (last : ℤ) (sent : List MessageEvent)
      → is_wanted allowed msg ≡ false
      → hand_on accept allowed (msg ∷ msgs) last sent ≡ hand_on accept allowed msgs last sent
  unfolding hand_on
  hand_on_skip msg msgs last sent e = rw (e, hand_on) refl

  hand_on_take :
      (msg : IMessageRow) (msgs : List IMessageRow) (last : ℤ) (sent : List MessageEvent)
      → is_wanted allowed msg ≡ true
      → accept sent ≡ true
      → ltb_ℤ last msg.rowid ≡ true
      → hand_on accept allowed (msg ∷ msgs) last sent
        ≡ hand_on accept allowed msgs msg.rowid (sent ++ to_event msg ∷ [])
  unfolding hand_on
  hand_on_take msg msgs last sent e takes up = rw (e, takes, up, hand_on) refl

  hand_on_stop :
      (msg : IMessageRow) (msgs : List IMessageRow) (last : ℤ) (sent : List MessageEvent)
      → is_wanted allowed msg ≡ true
      → accept sent ≡ false
      → hand_on accept allowed (msg ∷ msgs) last sent ≡ (last, sent)
  unfolding hand_on
  hand_on_stop msg msgs last sent e gone = rw (e, gone, hand_on) refl

  -- One more row in front, which was handed on.
  HandedOn-cons :
      (msg : IMessageRow) (w : List IMessageRow) (last : ℤ) (sent : List MessageEvent)
      (r : ℤ × List MessageEvent)
      → ltb_ℤ last msg.rowid ≡ true
      → HandedOn accept w msg.rowid (sent ++ to_event msg ∷ []) r
      → HandedOn accept (msg ∷ w) last sent r
  HandedOn-cons msg w last sent r up (n, le, e, rest, end) = (
    suc n,
    ground arith,
    e ∙ append_assoc sent (to_event msg ∷ []) (map to_event (take n w)),
    keep_if_no (λ m. ltb_ℤ r.0 m.rowid) msg w (ground arith) ∙ rest,
    elim end [ inl all ↦ inl (ap suc all) | inr gone ↦ inr gone ],
  )

  pub hand_on-HandedOn :
      (msgs : List IMessageRow) (last : ℤ) (sent : List MessageEvent)
      → Ascending last msgs
      → HandedOn accept
          (keep_if (is_wanted allowed) msgs)
          last
          sent
          (hand_on accept allowed msgs last sent)
  unfolding hand_on
  hand_on-HandedOn [] last sent h = (0, omega arith, rw append-nil refl, refl, inl refl)
  hand_on-HandedOn (msg ∷ msgs) last sent h =
      let p = is_wanted allowed in
      elim (Bool-cases (is_wanted allowed msg)) [
        | inr skip ↦
            at_equal last sent _ _ _ _ (keep_if_no p msg msgs skip)
              (hand_on_skip msg msgs last sent skip)
              (hand_on-HandedOn msgs last sent
                (Ascending-weaken last msg.rowid msgs (ground arith) h.1))
        | inl wanted ↦ elim (Bool-cases (accept sent)) [
          | inl takes ↦
              at_equal last sent _ _ _ _ (keep_if_yes p msg msgs wanted)
                (hand_on_take msg msgs last sent wanted takes h.0)
                (HandedOn-cons msg (keep_if p msgs) last sent _ h.0
                  (hand_on-HandedOn msgs msg.rowid (sent ++ to_event msg ∷ []) h.1))
          | inr gone ↦
              at_equal last sent _ _ _ _ refl (hand_on_stop msg msgs last sent wanted gone)
                (0, omega arith, sym (append-nil sent), newer-all p last (msg ∷ msgs) h, inr gone)
        ]
      ]

-- One poll of rows that the query gives in ascending order above the last id: the adapter changes
-- only in that id, which does not fall; the wanted rows are handed on in order, and those that
-- are not, because the context was cancelled, are exactly the wanted rows above the new id, which
-- the next query asks for.
pub poll_for_messages_lem :
    (accept : List MessageEvent → Bool) (t : ℕ) (a : IMessageAdapter) (sent : List MessageEvent)
    (querier : IMessageQuerier) (msgs : List IMessageRow)
    → a.querier ≡ some querier
    → querier.query_messages t a.last_rowid ≡ ok msgs
    → Ascending a.last_rowid msgs
    → (last : ℤ) × (out : List MessageEvent) × (poll_for_messages accept t a sent
        ≡ (record a { last_rowid = last }, out))
      × HandedOn accept
          (keep_if (is_wanted a.config.allowed_recipients) msgs)
          a.last_rowid
          sent
          (last, out)
unfolding poll_for_messages
poll_for_messages_lem accept t a sent querier msgs e rows h =
    let r = hand_on accept a.config.allowed_recipients msgs a.last_rowid sent in
    (
      r.0,
      r.1,
      rw (e, rows) refl,
      hand_on-HandedOn accept a.config.allowed_recipients msgs a.last_rowid sent h,
    )
