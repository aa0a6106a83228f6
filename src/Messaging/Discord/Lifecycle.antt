-- ===== src/Messaging/Discord/Lifecycle.antt =====
-- Connect and Close of messaging/discord_adapter.go, one after the other.
use vassago_sdk.Prelude.{
  ℕ, suc, ◌≡◌, refl, true, false, none, some, Text, codes, ◌++◌, Error, Result, ok, Option,
}
use vassago_sdk.Messaging.Discord.{DiscordAdapter, DiscordSession, connect, close}

-- What `Connect` answers when the session was told to open.
abbrev pub open_answer : DiscordSession → Option Error
open_answer s = elim s.open_session [
  | none ↦ none
  | some e ↦ some (Error.wrap (codes "failed to open Discord session") e)
]

connect_new :
    (new : Text → Result DiscordSession) (d : DiscordAdapter) (opens : ℕ) (s : DiscordSession)
    → d.session ≡ none
    → new (codes "Bot " ++ d.config.token) ≡ ok s
    → connect new d opens ≡ ((record d { session = some s }, open_answer s), suc opens)
unfolding connect
connect_new new d opens s apart made = rw (apart, made, connect) refl

open_answer-err :
    (s : DiscordSession) (e : Error)
    → s.open_session ≡ some e
    → open_answer s ≡ some (Error.wrap (codes "failed to open Discord session") e)
open_answer-err s e h = rw (h, open_answer) refl

-- If the new session fails to open, the first Connect returns the error and the adapter keeps the
-- session: a second Connect reports success, and opens nothing.
pub connect_after_failed_open :
    (new : Text → Result DiscordSession) (d : DiscordAdapter) (opens : ℕ) (s : DiscordSession)
    (e : Error)
    → d.session ≡ none
    → new (codes "Bot " ++ d.config.token) ≡ ok s
    → s.open_session ≡ some e
    → (d' : DiscordAdapter) × (connect new d opens
        ≡ ((d', some (Error.wrap (codes "failed to open Discord session") e)), suc opens))
      × (connect new d' (suc opens) ≡ ((d', none), suc opens))
unfolding connect
connect_after_failed_open new d opens s e apart made fails = (
  record d { session = some s },
  rw (connect_new new d opens s apart made, open_answer-err s e fails) refl,
  refl,
)

-- An adapter that is connected and was never closed can be closed; when it connects again it opens
-- a session, but the Close after that panics.
close_again :
    (new : Text → Result DiscordSession) (d : DiscordAdapter) (opens : ℕ)
    (session s : DiscordSession)
    → d.session ≡ some session
    → d.stopped ≡ false
    → new (codes "Bot " ++ d.config.token) ≡ ok s
    → (d' d'' : DiscordAdapter) × (close d ≡ some (d', session.close))
      × (connect new d' opens ≡ ((d'', open_answer s), suc opens))
      × (d''.session ≡ some s)
      × (close d'' ≡ none)
unfolding connect close
close_again new d opens session s on running made = (
  record d { session = none; stopped = true },
  record d { session = some s; stopped = true },
  close_first d session on running,
  connect_new new (record d { session = none; stopped = true }) opens s refl made,
  refl,
  refl,
)
  where
    close_first :
        (d : DiscordAdapter) (session : DiscordSession)
        → d.session ≡ some session
        → d.stopped ≡ false
        → close d ≡ some (record d { session = none; stopped = true }, session.close)
    close_first d session on running = rw (on, running, close) refl
