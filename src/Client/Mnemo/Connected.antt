-- ===== src/Client/Mnemo/Connected.antt =====
-- The connected client of client/client.go as a `MnemoClient`.
use vassago_sdk.Prelude.{ℕ, true}
use vassago_sdk.Prelude.Effects.{Io, issue, ◌>>=◌, return}
use vassago_sdk.Client.{Daemon, Event, Config, connect}
use vassago_sdk.Client.Calls
use vassago_sdk.Client.Agents
use vassago_sdk.Client.Sessions
use vassago_sdk.Client.Todos
use vassago_sdk.Client.Cron
use vassago_sdk.Client.Skills
use vassago_sdk.Client.Tools
use vassago_sdk.Client.Tasks
use vassago_sdk.Client.Wire.{Pb}
use vassago_sdk.Client.Exchange.{Api}
use vassago_sdk.Client.Mnemo.{MnemoClient}

module _ {pb : Pb} {Entry : Type 0} (d : Daemon Entry) (api : Api pb) where
  -- `Close`, with a connection.
  pub close : ℕ → Io Event (Unit {0})
  close conn = issue d.close (Event.close conn)

  -- `Client`
  unfoldable pub client : ℕ → MnemoClient pb Entry
  unfolding close
  client conn = record {
    is_connected = true;
    register_agent = Agents.register_agent api conn;
    heartbeat = Agents.heartbeat api conn;
    subscribe = Agents.subscribe api conn;
    add_memory = Calls.add_memory d conn;
    get_memory = Calls.get_memory d conn;
    remove_memory = Calls.remove_memory d conn;
    search_memories = Calls.search_memories d conn;
    list_memories = Calls.list_memories d conn;
    get_hot_block = Calls.get_hot_block d conn;
    create_session = Calls.create_session d conn;
    health_check = Calls.health_check d conn;
    send_message = Agents.send_message api conn;
    list_channels = Agents.list_channels api conn;
    add_messages = Sessions.add_messages api conn;
    end_session = Sessions.end_session api conn;
    consolidate = Sessions.consolidate api conn;
    search_sessions = Sessions.search_sessions api conn;
    list_recent_sessions = Sessions.list_recent_sessions api conn;
    get_session = Sessions.get_session api conn;
    add_todo = Todos.add_todo api conn;
    list_todos = Todos.list_todos api conn;
    complete_todo = Todos.complete_todo api conn;
    remove_todo = Todos.remove_todo api conn;
    create_cron_job = Cron.create_cron_job api conn;
    list_cron_jobs = Cron.list_cron_jobs api conn;
    update_cron_job = Cron.update_cron_job api conn;
    delete_cron_job = Cron.delete_cron_job api conn;
    add_skill = Skills.add_skill api conn;
    get_skill = Skills.get_skill api conn;
    list_skills = Skills.list_skills api conn;
    remove_skill = Skills.remove_skill api conn;
    search_skills = Skills.search_skills api conn;
    add_saved_tool = Tools.add_saved_tool api conn;
    get_saved_tool = Tools.get_saved_tool api conn;
    list_saved_tools = Tools.list_saved_tools api conn;
    search_saved_tools = Tools.search_saved_tools api conn;
    update_saved_tool = Tools.update_saved_tool api conn;
    remove_saved_tool = Tools.remove_saved_tool api conn;
    add_task = Tasks.add_task api conn;
    get_task = Tasks.get_task api conn;
    claim_task = Tasks.claim_task api conn;
    complete_task = Tasks.complete_task api conn;
    fail_task = Tasks.fail_task api conn;
    find_ready_tasks = Tasks.find_ready_tasks api conn;
    list_tasks_by_status = Tasks.list_tasks_by_status api conn;
    reset_timed_out_tasks = Tasks.reset_timed_out_tasks api conn;
    delete_task = Tasks.delete_task api conn;
    close = close conn;
  }

  -- `ConnectMnemo`
  pub connect_mnemo : Config → Io Event (MnemoClient pb Entry)
  connect_mnemo cfg = do conn ← connect d cfg; return (client conn)
