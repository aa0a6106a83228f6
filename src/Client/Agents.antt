-- ===== src/Client/Agents.antt =====
-- client/client.go: the calls for registration, heartbeats, subscriptions, and the messaging service.
use vassago_sdk.Prelude.{ℕ, Bool, List, Text, codes}
use vassago_sdk.Prelude.Effects.{Io}
use vassago_sdk.Messaging.{Channel}
use vassago_sdk.Client.{Event}
use vassago_sdk.Client.Wire.{Pb, Stream, SubscribeRequest, Rpc}
use vassago_sdk.Client.Exchange.{Api, exchange, answered}

module _ {pb : Pb} (api : Api pb) (conn : ℕ) where
  unfoldable pub register_agent : Text → Text → Text → Io Event (Text × Bool)
  register_agent agent_id name role =
      answered api conn (codes "register agent") (Rpc.register_agent agent_id name role)
        (λ r. (r.agent_id, r.is_new))

  unfoldable pub heartbeat : Text → Io Event (Unit {0})
  heartbeat agent_id = exchange api conn (Rpc.heartbeat agent_id)

  unfoldable pub subscribe : SubscribeRequest → Io Event (Stream pb.Update)
  subscribe request = exchange api conn (Rpc.subscribe request)

  unfoldable pub send_message : Text → Text → Text → Io Event Text
  send_message platform target message =
      answered api conn (codes "SendMessage") (Rpc.send_message platform target message) (λ r. r)

  unfoldable pub list_channels : Text → Io Event (List Channel)
  list_channels platform =
      answered api conn (codes "ListChannels") (Rpc.list_channels platform) (λ r. r)

  unfoldable pub subscribe_to_messages : Text → Io Event (Stream pb.Incoming)
  subscribe_to_messages agent_id =
      answered api conn (codes "SubscribeToMessages") (Rpc.subscribe_to_messages agent_id) (λ r. r)
