-- ===== src/Messaging/Discord/Incoming.antt =====
-- messageCreate of messaging/discord_adapter.go.
use vassago_sdk.Prelude.{
  ◌≡◌, ◌≢◌, ◌↔◌, ◌⊎◌, refl, sym, ap, inl, inr, Bool, true, false, Bool-cases, List, [], ◌∷◌, Option,
  none, some, Text, text_eq, text_eq_iff, not, if◌then◌else◌, member→Mem, Mem→member,
}
use vassago_sdk.Messaging.{MessageEvent}
use vassago_sdk.Messaging.Discord.{
  DiscordAdapter, MessageCreate, is_allowed_channel, from_bot, message_create,
}
use mathlib.Core.List.{Mem}

is_allowed_channel_iff :
    (allowed : List Text) (id : Text)
    → (is_allowed_channel allowed id ≡ true) ↔ ((allowed ≡ []) ⊎ Mem id allowed)
unfolding is_allowed_channel
is_allowed_channel_iff [] id = (λ h. inl refl, λ h. refl)
is_allowed_channel_iff (a ∷ rest) id = (
  λ h. inr (member→Mem id (a ∷ rest) h),
  λ h. elim h [ inl e ↦ cc | inr m ↦ Mem→member id (a ∷ rest) m ],
)

from_bot_iff :
    (bot : Option Text) (author : Text) → (from_bot bot author ≡ false) ↔ (bot ≢ some author)
from_bot_iff none author = ((λ h e. cc), λ h. refl)
from_bot_iff (some b) author = (
  λ h e. cc ((text_eq_iff author b).1 (some_inj author b (sym e)), h),
  λ n. elim (Bool-cases (text_eq author b)) [
    | inl same ↦ absurd (n (ap some (sym ((text_eq_iff author b).0 same))))
    | inr other ↦ other
  ],
)
  where
    some_inj : (s t : Text) → some s ≡ some t → s ≡ t
    some_inj s t e = cc

-- Two tests in front of a value.
guards_iff :
    (skip pass : Bool) (x : MessageEvent)
    → ((y : MessageEvent) × ((if skip then none else if not pass then none else some x) ≡ some y))
      ↔ ((skip ≡ false) × (pass ≡ true))
guards_iff true pass x = ((λ h. absurd (cc (h.1))), λ h. absurd (cc (h.0)))
guards_iff false false x = ((λ h. absurd (cc (h.1))), λ h. absurd (cc (h.1)))
guards_iff false true x = ((λ h. (refl, refl)), λ h. (x, refl))

-- A message makes an event exactly if it is not known to be the bot's own, and its channel is in
-- the list of allowed channels, or that list is empty.
pub message_create_iff :
    (bot : Option Text) (d : DiscordAdapter) (m : MessageCreate)
    → ((event : MessageEvent) × (message_create bot d m ≡ some event)) ↔ (
        (bot ≢ some m.author_id)
        × ((d.config.allowed_channels ≡ []) ⊎ Mem m.channel_id d.config.allowed_channels))
unfolding message_create
message_create_iff bot d m =
    let allowed = is_allowed_channel_iff d.config.allowed_channels m.channel_id in
    let bots = from_bot_iff bot m.author_id in
    let guards =
      guards_iff (from_bot bot m.author_id)
        (is_allowed_channel d.config.allowed_channels m.channel_id) _ in
    (
      λ h. (bots.0 (guards.0 h).0, allowed.0 (guards.0 h).1),
      λ h. guards.1 (bots.1 h.0, allowed.1 h.1),
    )
