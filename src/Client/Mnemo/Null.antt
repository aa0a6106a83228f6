-- ===== src/Client/Mnemo/Null.antt =====
-- client/null_client.go: the client for when there is no daemon.
use vassago_sdk.Prelude.{false, [], none, codes, Error}
use vassago_sdk.Prelude.Int.{pos}
use vassago_sdk.Prelude.Effects.{return, fail}
use vassago_sdk.Client.Wire.{Pb}
use vassago_sdk.Client.Mnemo.{MnemoClient}

abbrev pub not_connected : Error
not_connected = Error.message (codes "vassago not connected")

-- `NullMnemo`
unfoldable pub null_mnemo : {pb : Pb} {Entry : Type 0} → MnemoClient pb Entry
null_mnemo = record {
  is_connected = false;
  register_agent = λ _ _ _. return ([], false);
  heartbeat = λ _. return tt;
  subscribe = λ _. return ([], Error.eof);
  add_memory = λ _ _ _ _ _ _. fail not_connected;
  get_memory = λ _. fail not_connected;
  remove_memory = λ _. fail not_connected;
  search_memories = λ _ _ _. return [];
  list_memories = λ _ _ _. return [];
  get_hot_block = λ _ _ _ _ _ _. return [];
  create_session = λ _ _ _. return [];
  health_check = fail not_connected;
  send_message = λ _ _ _. fail not_connected;
  list_channels = λ _. return [];
  add_messages = λ _ _. return tt;
  end_session = λ _. return tt;
  consolidate = λ _ _. return (record { removed = pos 0; merged = pos 0; summary = [] });
  search_sessions = λ _ _. return [];
  list_recent_sessions = λ _. return [];
  get_session = λ _. return none;
  add_todo = λ _ _ _. fail not_connected;
  list_todos = λ _ _. return [];
  complete_todo = λ _. fail not_connected;
  remove_todo = λ _. fail not_connected;
  create_cron_job = λ _ _ _ _ _. fail not_connected;
  list_cron_jobs = λ _ _. return [];
  update_cron_job = λ _ _ _ _ _. fail not_connected;
  delete_cron_job = λ _. fail not_connected;
  add_skill = λ _ _ _ _ _ _ _. fail not_connected;
  get_skill = λ _. fail not_connected;
  list_skills = λ _ _ _. return [];
  remove_skill = λ _. fail not_connected;
  search_skills = λ _ _ _. return [];
  add_saved_tool = λ _ _ _ _ _ _ _ _ _. fail not_connected;
  get_saved_tool = λ _. fail not_connected;
  list_saved_tools = λ _ _ _. return [];
  search_saved_tools = λ _ _ _. return [];
  update_saved_tool = λ _ _. fail not_connected;
  remove_saved_tool = λ _. fail not_connected;
  add_task = λ _ _ _ _ _ _ _. fail not_connected;
  get_task = λ _. fail not_connected;
  claim_task = λ _ _. fail not_connected;
  complete_task = λ _ _. fail not_connected;
  fail_task = λ _. fail not_connected;
  find_ready_tasks = λ _ _. return [];
  list_tasks_by_status = λ _ _. return [];
  reset_timed_out_tasks = return (record { reset_ids = []; count = pos 0 });
  delete_task = λ _. fail not_connected;
  close = return tt;
}
