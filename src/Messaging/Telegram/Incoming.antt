-- ===== src/Messaging/Telegram/Incoming.antt =====
-- processUpdates of messaging/telegram_adapter.go.
use vassago_sdk.Prelude.{
  ◌≡◌, refl, ap, inl, inr, ◌⊎◌, Bool, false, Bool-cases, List, [], ◌∷◌, ◌++◌, none, some,
  Option-cases, append_assoc, append-nil, Result, ok,
}
use vassago_sdk.Prelude.Int.{ℤ}
use vassago_sdk.Messaging.{MessageEvent}
use vassago_sdk.Messaging.Telegram.{Update, TelegramAdapter, incoming, process_updates, listen}

-- The events of the updates that make one, in their order.
abbrev pub events : ℤ → List ℤ → List Update → List MessageEvent
events bot_id allowed [] = []
events bot_id allowed (u ∷ us) = elim (incoming bot_id allowed u) [
  | none ↦ events bot_id allowed us
  | some e ↦ e ∷ events bot_id allowed us
]

-- The loop hands the events of the updates on in their order, and stops only where the select
-- takes the closed adapter or the cancelled context: if it never does, no event is left out.
process_updates_lem :
    (accept : List MessageEvent → Bool) (bot_id : ℤ) (allowed : List ℤ) (updates : List Update)
    (sent : List MessageEvent)
    → (new rest : List MessageEvent) × (process_updates accept bot_id allowed updates sent
        ≡ sent ++ new)
      × (new ++ rest ≡ events bot_id allowed updates)
      × ((rest ≡ []) ⊎ (accept (sent ++ new) ≡ false))
unfolding process_updates
process_updates_lem accept bot_id allowed [] sent = ([], [], rw append-nil refl, refl, inl refl)
process_updates_lem accept bot_id allowed (u ∷ us) sent =
    elim (Option-cases (incoming bot_id allowed u)) [
      | inl skip ↦
          rw (skip, process_updates, events) (process_updates_lem accept bot_id allowed us sent)
      | inr (event, makes) ↦ elim (Bool-cases (accept sent)) [
        | inl takes ↦
            let (new, rest, e, all, end) =
              process_updates_lem accept bot_id allowed us (sent ++ event ∷ []) in
            (
              event ∷ new,
              rest,
              rw (makes, takes, process_updates) (rw append_assoc at e),
              rw (makes, events) (ap (◌∷◌ event) all),
              elim end [ inl whole ↦ inl whole | inr gone ↦ inr (rw append_assoc at gone) ],
            )
        | inr gone ↦ (
          [],
          events bot_id allowed (u ∷ us),
          rw (makes, gone, process_updates) (rw append-nil refl),
          refl,
          inr (rw append-nil gone),
        )
      ]
    ]

-- `Listen` of a connected adapter whose bot gives a channel of updates: its reader gets the events
-- of the updates in their order; some are missing at the end only if the select took the closed
-- adapter or the cancelled context.
pub telegram_listen_lem :
    {Api : Type 0} (get_updates : Api → Result (List Update)) (accept : List MessageEvent → Bool)
    (ta : TelegramAdapter Api) (api : Api) (updates : List Update)
    → ta.api ≡ some api
    → get_updates api ≡ ok updates
    → (out rest : List MessageEvent) × (listen get_updates accept ta ≡ ok out)
      × (out ++ rest ≡ events ta.bot_id ta.config.allowed_chats updates)
      × ((rest ≡ []) ⊎ (accept out ≡ false))
unfolding listen
telegram_listen_lem get_updates accept ta api updates connected given =
    let (new, rest, e, all, end) =
      process_updates_lem accept ta.bot_id ta.config.allowed_chats updates [] in
    (new, rest, rw (connected, listen) (rw (given, e) refl), all, end)
