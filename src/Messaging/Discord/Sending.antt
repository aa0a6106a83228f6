-- ===== src/Messaging/Discord/Sending.antt =====
-- Send of messaging/discord_adapter.go.
use vassago_sdk.Prelude.{
  text_eq, ◌≡◌, refl, inl, inr, Bool-cases, List, some, Text, codes, ltb, ltb→lt, length, arith,
  label_error,
}
use vassago_sdk.Format.{get_platform_limits, lookup_or}
use vassago_sdk.Messaging.Chunks.{Post, Sent, send_split-Sent, post-Sent}
use vassago_sdk.Messaging.Discord.{DiscordAdapter, DiscordSession, send}

-- With a session, `Send` of any message does what `Sent` says of the platform "discord": the texts
-- that it posts are the message in parts, each posted only when all before it were taken, up to the
-- first that is refused; its answer is the id of the last part if all were taken, else the error of
-- the refusal, by itself or behind a label.
pub discord_send-Sent :
    (d : DiscordAdapter) (session : DiscordSession) (target message : Text) (log : List (Post Text))
    → d.session ≡ some session
    → Sent session.channel_message_send
        (codes "discord")
        target
        message
        log
        (send d target message log)
unfolding send get_platform_limits lookup_or text_eq
discord_send-Sent d session target message log e = elim (Bool-cases (ltb 2000 (length message))) [
  | inl long ↦
      rw (e, long, send)
        (send_split-Sent _ session.channel_message_send (codes "discord") target message log
          (ground (arith, ltb→lt _ _ long)))
  | inr short ↦
      rw (e, short, send)
        (post-Sent session.channel_message_send (codes "discord") target message log
          (label_error (codes "failed to send Discord message")) (λ id. refl)
          (λ x. (_, refl, inr (codes "failed to send Discord message", refl))) (ground arith))
]
