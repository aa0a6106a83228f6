-- ===== src/Messaging/Telegram/Closing.antt =====
-- Connect and Close of messaging/telegram_adapter.go, one after the other.
use vassago_sdk.Prelude.{◌≡◌, refl, true, false, none, some, Text, Result, ok}
use vassago_sdk.Prelude.Int.{ℤ}
use vassago_sdk.Messaging.Telegram.{TelegramAdapter, connect, close}

module _ {Api : Type 0} where
  close_first :
      (ta : TelegramAdapter Api) (api : Api)
      → ta.api ≡ some api
      → ta.stopped ≡ false
      → close ta ≡ some (record ta { api = none; stopped = true }, none)
  unfolding close
  close_first ta api on running = rw (on, running, close) refl

  connect_new :
      (new : Text → Result (Api × ℤ)) (ta : TelegramAdapter Api) (bot : Api) (id : ℤ)
      → ta.api ≡ none
      → new ta.config.token ≡ ok (bot, id)
      → connect new ta ≡ (record ta { api = some bot; bot_id = id }, none)
  unfolding connect
  connect_new new ta bot id apart made = rw (apart, made, connect) refl

-- An adapter that is connected and was never closed can be closed, and can connect again; but the
-- Close after that panics.
telegram_close_again :
    {Api : Type 0} (new : Text → Result (Api × ℤ)) (ta : TelegramAdapter Api) (api bot : Api)
    (id : ℤ)
    → ta.api ≡ some api
    → ta.stopped ≡ false
    → new ta.config.token ≡ ok (bot, id)
    → (ta' ta'' : TelegramAdapter Api) × (close ta ≡ some (ta', none))
      × (connect new ta' ≡ (ta'', none))
      × (ta''.api ≡ some bot)
      × (close ta'' ≡ none)
unfolding connect close
telegram_close_again new ta api bot id on running made = (
  record ta { api = none; stopped = true },
  record ta { api = some bot; bot_id = id; stopped = true },
  close_first ta api on running,
  connect_new new (record ta { api = none; stopped = true }) bot id refl made,
  refl,
  refl,
)
