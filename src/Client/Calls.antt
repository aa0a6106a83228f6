-- ===== src/Client/Calls.antt =====
-- client/client.go: the calls on an open connection. A failed call returns the error of gRPC
-- behind the call's name.
use vassago_sdk.Prelude.{ℕ, List, Option, some, Text, codes}
use vassago_sdk.Prelude.Int.{ℤ}
use vassago_sdk.Prelude.Effects.{Io, ◌>>=◌, return, ask, labelled}
use vassago_sdk.Client.{Daemon, Event, rpc, Request, health_request}

module _ {Entry : Type 0} (d : Daemon Entry) (conn : ℕ) where
  unfoldable pub add_memory : Text → Text → Text → Text → ℤ → Text → Io Event (Option Entry)
  add_memory target category key content priority source_agent = labelled (codes "AddMemory") (
      ask d.add_memory
        (rpc conn (Request.add_memory target category key content priority source_agent)))

  unfoldable pub get_memory : Text → Io Event Entry
  get_memory id = labelled (codes "GetMemory") (ask d.get_memory (rpc conn (Request.get_memory id)))

  unfoldable pub remove_memory : Text → Io Event (Unit {0})
  remove_memory id =
      labelled (codes "RemoveMemory") (ask d.remove_memory (rpc conn (Request.remove_memory id)))

  unfoldable pub search_memories : Text → Text → ℤ → Io Event (List Entry)
  search_memories query target limit =
      labelled (codes "SearchMemories")
        (ask d.search (rpc conn (Request.search query target (some limit))))

  unfoldable pub list_memories : Text → Option Text → Option ℤ → Io Event (List Entry)
  list_memories target category min_priority =
      labelled (codes "ListMemories")
        (ask d.list_memories (rpc conn (Request.list_memories target category min_priority)))

  unfoldable pub get_hot_block : Text → Text → ℤ → List Text → List Text → ℤ → Io Event Text
  get_hot_block target agent_id char_limit boost suppress boost_priority =
      labelled (codes "GetHotBlock") (
        ask d.get_hot_block (
          rpc conn (
            Request.get_hot_block target agent_id char_limit (
              some (record {
                boost_categories = boost;
                suppress_categories = suppress;
                boost_priority = boost_priority;
              })))))

  unfoldable pub create_session : Text → Text → Text → Io Event Text
  create_session agent_id source title =
      labelled (codes "CreateSession")
        (ask d.create_session (rpc conn (Request.create_session agent_id source title)))

  unfoldable pub health_check : Io Event (Unit {0})
  health_check =
      labelled (codes "health check") (ask d.get_hot_block (rpc conn health_request)) >>= λ _.
      return tt
