-- ===== src/Messaging/Discord/Tests.antt =====
-- The Discord theorems at concrete messages, and runs of the adapter.
use vassago_sdk.Prelude.{
  false, ◌≡◌, ◌≢◌, ◌↔◌, ◌⊎◌, refl, [], ◌∷◌, Option, none, some, codes, Error, ok,
}
use vassago_sdk.Prelude.Int.{pos}
use vassago_sdk.Messaging.{MessageEvent}
use vassago_sdk.Messaging.Chunks.{Sent}
use vassago_sdk.Messaging.Discord.{
  DiscordAdapter, DiscordConfig, DiscordSession, MessageCreate, message_create, connect, send,
}
use vassago_sdk.Messaging.Discord.Sending.{discord_send-Sent}
use vassago_sdk.Messaging.Discord.Lifecycle.{connect_after_failed_open}
use vassago_sdk.Messaging.Discord.Incoming.{message_create_iff}
use mathlib.Core.List.{Mem}

abbrev opening : Option Error → DiscordSession
opening answer = record {
  channel_message_send = λ posts. ok (codes "17");
  guild = λ id. none;
  guild_channels = λ id. ok [];
  channel = λ id. ok none;
  open_session = answer;
  close = none;
}

abbrev guild_config : DiscordConfig
guild_config = record { token = codes "t"; guilds = []; allowed_channels = codes "c1" ∷ [] }

abbrev apart : DiscordAdapter
apart = record { config = guild_config; session = none; stopped = false }

abbrev online : DiscordAdapter
online = record { config = guild_config; session = some (opening none); stopped = false }

abbrev greeting : MessageCreate
greeting = record {
  id = codes "m1";
  channel_id = codes "c1";
  author_id = codes "u1";
  author_name = codes "ann";
  content = codes "hello";
  timestamp = pos 1;
}

discord_send_example :
    Sent
      (opening none).channel_message_send
      (codes "discord")
      (codes "c1")
      (codes "hello")
      []
      (send online (codes "c1") (codes "hello") [])
discord_send_example = discord_send-Sent online (opening none) (codes "c1") (codes "hello") [] refl

connect_after_failed_open_example :
    (d' : DiscordAdapter) × (connect (λ token. ok (opening (some Error.eof))) apart 0
      ≡ ((d', some (Error.wrap (codes "failed to open Discord session") Error.eof)), 1))
    × (connect (λ token. ok (opening (some Error.eof))) d' 1 ≡ ((d', none), 1))
connect_after_failed_open_example =
    connect_after_failed_open (λ token. ok (opening (some Error.eof))) apart 0
      (opening (some Error.eof)) Error.eof refl refl refl

message_create_example :
    ((event : MessageEvent) × (message_create (some (codes "bot")) online greeting ≡ some event))
    ↔ ((some (codes "bot") ≢ some (codes "u1"))
        × ((codes "c1" ∷ [] ≡ []) ⊎ Mem (codes "c1") (codes "c1" ∷ [])))
message_create_example = message_create_iff (some (codes "bot")) online greeting
