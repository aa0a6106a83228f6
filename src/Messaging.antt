-- ===== src/Messaging.antt =====
-- messaging/: what the adapters of the platforms share. The event and the channel are the
-- messages of proto/messaging.proto that they fill in.
pub mod Smtp
pub mod Email
pub mod Chunks
pub mod Polling
pub mod Imessage
pub mod Discord
pub mod Telegram
use vassago_sdk.Prelude.{Text}
use vassago_sdk.Prelude.Int.{ℤ}

pub record MessageEvent : Type 0 where
  pub platform : Text
  pub channel_id : Text
  pub channel_name : Text
  pub sender_id : Text
  pub sender_name : Text
  pub message : Text
  pub timestamp : ℤ
  pub message_id : Text

pub record Channel : Type 0 where
  pub id : Text
  pub name : Text
  pub platform : Text
