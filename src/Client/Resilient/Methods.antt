-- ===== src/Client/Resilient/Methods.antt =====
-- client/reconnect.go: the methods, each the client's call with one reconnection.
use vassago_sdk.Prelude.{ℕ, List, Option, Text}
use vassago_sdk.Prelude.Int.{ℤ}
use vassago_sdk.Client.{Daemon, Event}
use vassago_sdk.Client.Calls
use vassago_sdk.Client.Resilient.{Floats, StatusReader, ResilientClient, Outcome, with_reconnect}

module _ (fl : Floats) {Entry : Type 0} (d : Daemon Entry) (fuel : ℕ) (sr : StatusReader)
    (rc : ResilientClient fl.Float) where
  open fl use {Float}

  add_memory : Text → Text → Text → Text → ℤ → Text → List Event → Outcome Float (Option Entry)
  add_memory target category key content priority source_agent =
      with_reconnect fl d fuel sr
        (λ c. Calls.add_memory d c target category key content priority source_agent) rc

  get_memory : Text → List Event → Outcome Float Entry
  get_memory id = with_reconnect fl d fuel sr (λ c. Calls.get_memory d c id) rc

  remove_memory : Text → List Event → Outcome Float (Unit {0})
  remove_memory id = with_reconnect fl d fuel sr (λ c. Calls.remove_memory d c id) rc

  search_memories : Text → Text → ℤ → List Event → Outcome Float (List Entry)
  search_memories query target limit =
      with_reconnect fl d fuel sr (λ c. Calls.search_memories d c query target limit) rc

  list_memories : Text → Option Text → Option ℤ → List Event → Outcome Float (List Entry)
  list_memories target category min_priority =
      with_reconnect fl d fuel sr (λ c. Calls.list_memories d c target category min_priority) rc

  get_hot_block : Text → Text → ℤ → List Text → List Text → ℤ → List Event → Outcome Float Text
  get_hot_block target agent_id char_limit boost suppress boost_priority =
      with_reconnect fl d fuel sr
        (λ c. Calls.get_hot_block d c target agent_id char_limit boost suppress boost_priority) rc

  create_session : Text → Text → Text → List Event → Outcome Float Text
  create_session agent_id source title =
      with_reconnect fl d fuel sr (λ c. Calls.create_session d c agent_id source title) rc

  health_check : List Event → Outcome Float (Unit {0})
  health_check = with_reconnect fl d fuel sr (λ c. Calls.health_check d c) rc
