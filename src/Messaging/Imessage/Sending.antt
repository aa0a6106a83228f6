-- ===== src/Messaging/Imessage/Sending.antt =====
-- Send of messaging/imessage_adapter.go.
use vassago_sdk.Prelude.{
  text_eq, ◌≡◌, refl, inl, inr, Bool-cases, false, List, some, Text, codes, is_nil, ltb, ltb→lt,
  length, arith,
}
use vassago_sdk.Format.{get_platform_limits, lookup_or}
use vassago_sdk.Messaging.Chunks.{Post, Service, Sent, send_split-Sent, post-Sent}
use vassago_sdk.Messaging.Imessage.{IMessageAdapter, send}

-- With a sender, and a target that is not empty, `Send` of any message does what `Sent` says of
-- the platform "imessage": the texts that it posts are the message in parts, each posted only when
-- all before it were taken, up to the first that is refused; its answer is the sender's answer to the
-- last part if all were taken, else the error of the refusal, by itself or behind a label.
pub imessage_send-Sent :
    (a : IMessageAdapter) (sender : Service Text) (target message : Text) (log : List (Post Text))
    → a.sender ≡ some sender
    → is_nil target ≡ false
    → Sent sender (codes "imessage") target message log (send a target message log)
unfolding send get_platform_limits lookup_or text_eq
imessage_send-Sent a sender target message log e h = elim (Bool-cases (ltb 4000 (length message))) [
  | inl long ↦
      rw (e, h, long, send)
        (send_split-Sent _ sender (codes "imessage") target message log
          (ground (arith, ltb→lt _ _ long)))
  | inr short ↦
      rw (e, h, short, send)
        (post-Sent sender (codes "imessage") target message log (λ r. r) (λ id. refl)
          (λ x. (x, refl, inl refl)) (ground arith))
]
