-- ===== src/Client/Mnemo/Calls.antt =====
-- The calls of the methods of client/vassago_client.go as data, for what holds of every method.
use vassago_sdk.Prelude.{Bool, List, Option, Text}
use vassago_sdk.Prelude.Int.{ℤ}
use vassago_sdk.Prelude.Effects.{Io}
use vassago_sdk.Client.{Event}
use vassago_sdk.Messaging.{Channel}
use vassago_sdk.Client.Wire.{Pb, Stream, SubscribeRequest, ConsolidateResponse}
use vassago_sdk.Client.Sessions.{Message, SessionInfo, SessionDetail}
use vassago_sdk.Client.Todos.{TodoItem}
use vassago_sdk.Client.Cron.{CronJobInfo}
use vassago_sdk.Client.Tools.{Value}
use vassago_sdk.Client.Tasks.{TaskEntry, ResetTimedOutResp}
use vassago_sdk.Client.Mnemo.{MnemoClient}

-- A call of a method that asks something of the daemon.
pub data Call : Type 0 where
  register_agent : Text → Text → Text → Call
  heartbeat : Text → Call
  subscribe : SubscribeRequest → Call
  add_memory : Text → Text → Text → Text → ℤ → Text → Call
  get_memory : Text → Call
  remove_memory : Text → Call
  search_memories : Text → Text → ℤ → Call
  list_memories : Text → Option Text → Option ℤ → Call
  get_hot_block : Text → Text → ℤ → List Text → List Text → ℤ → Call
  create_session : Text → Text → Text → Call
  health_check : Call
  send_message : Text → Text → Text → Call
  list_channels : Text → Call
  add_messages : Text → List Message → Call
  end_session : Text → Call
  consolidate : ℤ → ℤ → Call
  search_sessions : Text → ℤ → Call
  list_recent_sessions : ℤ → Call
  get_session : Text → Call
  add_todo : Text → ℤ → Text → Call
  list_todos : Bool → Text → Call
  complete_todo : Text → Call
  remove_todo : Text → Call
  create_cron_job : Text → Text → Text → Text → Option Bool → Call
  list_cron_jobs : Text → Bool → Call
  update_cron_job : Text → Option Text → Option Text → Option Text → Option Bool → Call
  delete_cron_job : Text → Call
  add_skill : Text → Text → List Text → Text → Text → Text → ℤ → Call
  get_skill : Text → Call
  list_skills : Text → Text → ℤ → Call
  remove_skill : Text → Call
  search_skills : Text → Text → ℤ → Call
  add_saved_tool : Text → Text → Text → Text → Text → Text → List Text → Text → ℤ → Call
  get_saved_tool : Text → Call
  list_saved_tools : Text → Text → ℤ → Call
  search_saved_tools : Text → Text → ℤ → Call
  update_saved_tool : Text → List (Text × Value) → Call
  remove_saved_tool : Text → Call
  add_task : Text → Text → Text → Text → ℤ → ℤ → ℤ → Call
  get_task : Text → Call
  claim_task : Text → Text → Call
  complete_task : Text → Text → Call
  fail_task : Text → Call
  find_ready_tasks : Text → ℤ → Call
  list_tasks_by_status : Text → ℤ → Call
  reset_timed_out_tasks : Call
  delete_task : Text → Call

-- What the method returns beside its error.
abbrev pub Answer : Pb → Type 0 → Call → Type 0
Answer pb Entry (Call.register_agent _ _ _) = Text × Bool
Answer pb Entry (Call.heartbeat _) = Unit {0}
Answer pb Entry (Call.subscribe _) = Stream pb.Update
Answer pb Entry (Call.add_memory _ _ _ _ _ _) = Option Entry
Answer pb Entry (Call.get_memory _) = Entry
Answer pb Entry (Call.remove_memory _) = Unit {0}
Answer pb Entry (Call.search_memories _ _ _) = List Entry
Answer pb Entry (Call.list_memories _ _ _) = List Entry
Answer pb Entry (Call.get_hot_block _ _ _ _ _ _) = Text
Answer pb Entry (Call.create_session _ _ _) = Text
Answer pb Entry Call.health_check = Unit {0}
Answer pb Entry (Call.send_message _ _ _) = Text
Answer pb Entry (Call.list_channels _) = List Channel
Answer pb Entry (Call.add_messages _ _) = Unit {0}
Answer pb Entry (Call.end_session _) = Unit {0}
Answer pb Entry (Call.consolidate _ _) = ConsolidateResponse
Answer pb Entry (Call.search_sessions _ _) = List SessionInfo
Answer pb Entry (Call.list_recent_sessions _) = List SessionInfo
Answer pb Entry (Call.get_session _) = Option SessionDetail
Answer pb Entry (Call.add_todo _ _ _) = Option TodoItem
Answer pb Entry (Call.list_todos _ _) = List TodoItem
Answer pb Entry (Call.complete_todo _) = Option TodoItem
Answer pb Entry (Call.remove_todo _) = Unit {0}
Answer pb Entry (Call.create_cron_job _ _ _ _ _) = CronJobInfo
Answer pb Entry (Call.list_cron_jobs _ _) = List CronJobInfo
Answer pb Entry (Call.update_cron_job _ _ _ _ _) = CronJobInfo
Answer pb Entry (Call.delete_cron_job _) = Unit {0}
Answer pb Entry (Call.add_skill _ _ _ _ _ _ _) = pb.Skill
Answer pb Entry (Call.get_skill _) = pb.Skill
Answer pb Entry (Call.list_skills _ _ _) = List pb.Skill
Answer pb Entry (Call.remove_skill _) = Bool
Answer pb Entry (Call.search_skills _ _ _) = List pb.Skill
Answer pb Entry (Call.add_saved_tool _ _ _ _ _ _ _ _ _) = pb.Tool
Answer pb Entry (Call.get_saved_tool _) = pb.Tool
Answer pb Entry (Call.list_saved_tools _ _ _) = List pb.Tool
Answer pb Entry (Call.search_saved_tools _ _ _) = List pb.Tool
Answer pb Entry (Call.update_saved_tool _ _) = pb.Tool
Answer pb Entry (Call.remove_saved_tool _) = Bool
Answer pb Entry (Call.add_task _ _ _ _ _ _ _) = Option TaskEntry
Answer pb Entry (Call.get_task _) = Option TaskEntry
Answer pb Entry (Call.claim_task _ _) = Option TaskEntry
Answer pb Entry (Call.complete_task _ _) = Option TaskEntry
Answer pb Entry (Call.fail_task _) = Option TaskEntry
Answer pb Entry (Call.find_ready_tasks _ _) = List (Option TaskEntry)
Answer pb Entry (Call.list_tasks_by_status _ _) = List (Option TaskEntry)
Answer pb Entry Call.reset_timed_out_tasks = ResetTimedOutResp
Answer pb Entry (Call.delete_task _) = Bool

module _ {pb : Pb} {Entry : Type 0} (c : MnemoClient pb Entry) where
  -- The call on a client.
  unfoldable pub invoke : (call : Call) → Io Event (Answer pb Entry call)
  invoke (Call.register_agent agent_id name role) = c.register_agent agent_id name role
  invoke (Call.heartbeat agent_id) = c.heartbeat agent_id
  invoke (Call.subscribe request) = c.subscribe request
  invoke (Call.add_memory target category key content priority source_agent) =
      c.add_memory target category key content priority source_agent
  invoke (Call.get_memory id) = c.get_memory id
  invoke (Call.remove_memory id) = c.remove_memory id
  invoke (Call.search_memories query target limit) = c.search_memories query target limit
  invoke (Call.list_memories target category min_priority) =
      c.list_memories target category min_priority
  invoke (Call.get_hot_block target agent_id char_limit boost suppress boost_priority) =
      c.get_hot_block target agent_id char_limit boost suppress boost_priority
  invoke (Call.create_session agent_id source title) = c.create_session agent_id source title
  invoke Call.health_check = c.health_check
  invoke (Call.send_message platform target message) = c.send_message platform target message
  invoke (Call.list_channels platform) = c.list_channels platform
  invoke (Call.add_messages session_id messages) = c.add_messages session_id messages
  invoke (Call.end_session session_id) = c.end_session session_id
  invoke (Call.consolidate scope batch_size) = c.consolidate scope batch_size
  invoke (Call.search_sessions query limit) = c.search_sessions query limit
  invoke (Call.list_recent_sessions limit) = c.list_recent_sessions limit
  invoke (Call.get_session session_id) = c.get_session session_id
  invoke (Call.add_todo content priority source_agent) = c.add_todo content priority source_agent
  invoke (Call.list_todos include_completed source_agent) =
      c.list_todos include_completed source_agent
  invoke (Call.complete_todo id) = c.complete_todo id
  invoke (Call.remove_todo id) = c.remove_todo id
  invoke (Call.create_cron_job name schedule agent_id message enabled) =
      c.create_cron_job name schedule agent_id message enabled
  invoke (Call.list_cron_jobs agent_id include_disabled) =
      c.list_cron_jobs agent_id include_disabled
  invoke (Call.update_cron_job id name schedule message enabled) =
      c.update_cron_job id name schedule message enabled
  invoke (Call.delete_cron_job id) = c.delete_cron_job id
  invoke (Call.add_skill name description triggers category content source_agent priority) =
      c.add_skill name description triggers category content source_agent priority
  invoke (Call.get_skill id) = c.get_skill id
  invoke (Call.list_skills category source_agent limit) = c.list_skills category source_agent limit
  invoke (Call.remove_skill id) = c.remove_skill id
  invoke (Call.search_skills query category limit) = c.search_skills query category limit
  invoke
        (Call.add_saved_tool name description tool_type parameters script category triggers author
          priority) =
      c.add_saved_tool name description tool_type parameters script category triggers author
        priority
  invoke (Call.get_saved_tool id) = c.get_saved_tool id
  invoke (Call.list_saved_tools category author limit) = c.list_saved_tools category author limit
  invoke (Call.search_saved_tools query category limit) = c.search_saved_tools query category limit
  invoke (Call.update_saved_tool id updates) = c.update_saved_tool id updates
  invoke (Call.remove_saved_tool id) = c.remove_saved_tool id
  invoke (Call.add_task id agent_type goal context priority ttl_seconds max_retries) =
      c.add_task id agent_type goal context priority ttl_seconds max_retries
  invoke (Call.get_task id) = c.get_task id
  invoke (Call.claim_task task_id agent_id) = c.claim_task task_id agent_id
  invoke (Call.complete_task task_id result_key) = c.complete_task task_id result_key
  invoke (Call.fail_task task_id) = c.fail_task task_id
  invoke (Call.find_ready_tasks agent_type limit) = c.find_ready_tasks agent_type limit
  invoke (Call.list_tasks_by_status status limit) = c.list_tasks_by_status status limit
  invoke Call.reset_timed_out_tasks = c.reset_timed_out_tasks
  invoke (Call.delete_task id) = c.delete_task id
