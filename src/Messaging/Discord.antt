-- ===== src/Messaging/Discord.antt =====
-- messaging/discord_adapter.go. A session of discordgo is a record of its replies; the log holds
-- the attempts to open one.
pub mod Lifecycle
pub mod Sending
pub mod Incoming
mod Tests
use vassago_sdk.Prelude.{
  ℕ, suc, ◌==◌, Bool, true, false, not, ◌&&◌, ◌||◌, List, [], ◌∷◌, ◌++◌, Option, none, some, ltb,
  if◌then◌else◌, Text, codes, text_eq, member, length, is_nil, Error, Result, ok, err, label_error,
}
use vassago_sdk.Prelude.Int.{ℤ}
use vassago_sdk.Messaging.{MessageEvent, Channel}
use vassago_sdk.Messaging.Chunks.{Post, Service, send_split}

pub record DiscordConfig : Type 0 where
  pub token : Text
  pub guilds : List Text
  pub allowed_channels : List Text

-- What the source reads of a channel; the kind `ChannelTypeGuildText` is `guild_text`.
pub record DiscordChannel : Type 0 where
  pub id : Text
  pub name : Text
  pub guild_text : Bool

-- `discordSession`; `channel` may succeed with a nil channel.
pub record DiscordSession : Type 0 where
  pub channel_message_send : Service Text
  pub guild : Text → Option Error
  pub guild_channels : Text → Result (List DiscordChannel)
  pub channel : Text → Result (Option DiscordChannel)
  pub open_session : Option Error
  pub close : Option Error

-- `DiscordAdapter`; `stopped` says that `closeChan` is closed.
pub record DiscordAdapter : Type 0 where
  pub config : DiscordConfig
  pub session : Option DiscordSession
  pub stopped : Bool

abbrev pub platform_name : Text
platform_name = codes "discord"

unfoldable pub new_discord_adapter : DiscordConfig → DiscordAdapter
new_discord_adapter config = record { config = config; session = none; stopped = false }

pub set_session : DiscordAdapter → Option DiscordSession → DiscordAdapter
set_session d session = record d { session = session }

-- `Connect`, with the number of sessions that were told to open so far; `new` is `discordgo.New`.
unfoldable pub connect :
    (Text → Result DiscordSession) → DiscordAdapter → ℕ → (DiscordAdapter × Option Error) × ℕ
connect new d opens = elim d.session [
  | some session ↦ ((d, none), opens)
  | none ↦ elim (new (codes "Bot " ++ d.config.token)) [
    | err e ↦ ((d, some (Error.wrap (codes "failed to create Discord session") e)), opens)
    | ok s ↦ (
      (
        record d { session = some s },
        elim s.open_session [
          | none ↦ none
          | some e ↦ some (Error.wrap (codes "failed to open Discord session") e)
        ],
      ),
      suc opens,
    )
  ]
]

-- `Close`; `none` is the panic of closing a closed channel.
unfoldable pub close : DiscordAdapter → Option (DiscordAdapter × Option Error)
close d = elim d.session [
  | none ↦ some (d, none)
  | some session ↦
      if d.stopped then none else some (record d { session = none; stopped = true }, session.close)
]

-- `Send`
unfoldable pub send :
    DiscordAdapter → Text → Text → List (Post Text) → Option (Result Text × List (Post Text))
send d target message log = elim d.session [
  | none ↦ some (err (Error.message (codes "not connected to Discord")), log)
  | some session ↦
      let reply = session.channel_message_send ((target, message) ∷ log) in
      if ltb 2000 (length message)
      then send_split (codes "failed to send Discord message chunk ") session.channel_message_send
          target (codes "discord") message log
      else some
          (label_error (codes "failed to send Discord message") reply, (target, message) ∷ log)
]

-- The loop over the channels of a guild.
text_channels : List DiscordChannel → List Channel
text_channels [] = []
text_channels (c ∷ cs) =
    let rest = text_channels cs in
    if c.guild_text
    then record { id = c.id; name = c.name; platform = codes "discord" } ∷ rest
    else rest

-- The channels of one guild; a guild that fails has none.
abbrev guild_text_channels : DiscordSession → Text → List Channel
guild_text_channels session guild_id = elim (session.guild guild_id) [
  | some e ↦ []
  | none ↦ elim (session.guild_channels guild_id) [ err e ↦ [] | ok cs ↦ text_channels cs ]
]

-- The loop over the guilds.
over_guilds : DiscordSession → List Text → List Channel
over_guilds session [] = []
over_guilds session (g ∷ gs) = guild_text_channels session g ++ over_guilds session gs

-- `ListChannels`
unfoldable pub list_channels : DiscordAdapter → Result (List Channel)
unfolding over_guilds text_channels
list_channels d = elim d.session [
  | none ↦ err (Error.message (codes "not connected to Discord"))
  | some session ↦ ok (over_guilds session d.config.guilds)
]

-- The fields of a message that the source reads; the time is in seconds.
pub record MessageCreate : Type 0 where
  pub id : Text
  pub channel_id : Text
  pub author_id : Text
  pub author_name : Text
  pub content : Text
  pub timestamp : ℤ

unfoldable pub is_allowed_channel : List Text → Text → Bool
is_allowed_channel allowed channel_id = if is_nil allowed then true else member channel_id allowed

-- The name of the channel, its id where the name cannot be had.
abbrev channel_name : Option DiscordSession → Text → Text
channel_name none id = id
channel_name (some session) id = elim (session.channel id) [
  | err e ↦ id
  | ok none ↦ id
  | ok (some c) ↦ c.name
]

abbrev pub from_bot : Option Text → Text → Bool
from_bot none author = false
from_bot (some bot) author = text_eq author bot

-- `messageCreate` up to its `select`: the event, or `none` where the handler returns before. The
-- bot is `s.State.User.ID`, if that is known.
unfoldable pub message_create : Option Text → DiscordAdapter → MessageCreate → Option MessageEvent
unfolding is_allowed_channel
message_create bot d m =
    if from_bot bot m.author_id
    then none
    else if not (is_allowed_channel d.config.allowed_channels m.channel_id)
    then none
    else some record {
      platform = codes "discord";
      channel_id = m.channel_id;
      channel_name = channel_name d.session m.channel_id;
      sender_id = m.author_id;
      sender_name = m.author_name;
      message = m.content;
      timestamp = m.timestamp;
      message_id = m.id;
    }

-- `messageCreate` on the channel of the events sent before; `takes` is the choice of its select:
-- true sends, false is the closed adapter.
pub handle :
    Bool → Option Text → DiscordAdapter → MessageCreate → List MessageEvent → List MessageEvent
unfolding message_create
handle takes bot d m sent = elim (message_create bot d m) [
  | none ↦ sent
  | some event ↦ if takes then sent ++ event ∷ [] else sent
]
