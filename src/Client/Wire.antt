-- ===== src/Client/Wire.antt =====
-- The messages of proto/ that client/client.go sends and reads: the requests that are not in
-- Client.antt, by the name of their call, and the type of each reply. `Pb` holds the messages that
-- the client hands on as they are.
use vassago_sdk.Prelude.{Bool, List, Option, Text, Error}
use vassago_sdk.Prelude.Int.{ℤ}
use vassago_sdk.Messaging.{Channel}

pub record Pb : Type 1 where
  pub Update : Type 0
  pub Skill : Type 0
  pub Tool : Type 0
  pub Incoming : Type 0

-- A stream that the server ends: what `Recv` returns, and then its error, `io.EOF` as `Error.eof`.
abbrev pub Stream : Type 0 → Type 0
Stream A = List A × Error

pub record SubscribeRequest : Type 0 where
  pub agent_id : Text
  pub targets : List Text
  pub categories : List Text
  pub key_prefixes : List Text

-- `RegisterAgentResponse`
pub record RegisterReply : Type 0 where
  pub agent_id : Text
  pub is_new : Bool

-- `pb.Message`, with the fields that the client sets and reads.
pub record WireMessage : Type 0 where
  pub role : Text
  pub content : Text

pub record Session : Type 0 where
  pub id : Text
  pub agent_id : Text
  pub source : Text
  pub title : Text
  pub created_at : ℤ
  pub last_active_at : ℤ
  pub message_count : ℤ
  pub messages : List WireMessage

pub record ConsolidateResponse : Type 0 where
  pub removed : ℤ
  pub merged : ℤ
  pub summary : Text

-- `pb.TodoItem`
pub record WireTodo : Type 0 where
  pub id : Text
  pub content : Text
  pub completed : Bool
  pub priority : ℤ
  pub source_agent : Text
  pub created_at : ℤ
  pub updated_at : ℤ
  pub completed_at : ℤ

pub record CronJob : Type 0 where
  pub id : Text
  pub name : Text
  pub schedule : Text
  pub agent_id : Text
  pub message : Text
  pub enabled : Bool
  pub created_at : ℤ
  pub updated_at : ℤ
  pub last_fire_at : ℤ
  pub next_fire_at : ℤ

-- `pb.TaskEntry`
pub record WireTask : Type 0 where
  pub id : Text
  pub parent_ids : Text
  pub status : Text
  pub agent_type : Text
  pub assigned_agent : Text
  pub goal : Text
  pub context : Text
  pub result_key : Text
  pub priority : ℤ
  pub created_at : ℤ
  pub claimed_at : ℤ
  pub completed_at : ℤ
  pub ttl_seconds : ℤ
  pub retry_count : ℤ
  pub max_retries : ℤ

-- `ResetTimedOutTasksResponse`
pub record ResetReply : Type 0 where
  pub reset_ids : List Text
  pub count : ℤ

pub record UpdateSavedToolRequest : Type 0 where
  pub id : Text
  pub name : Option Text
  pub description : Option Text
  pub parameters : Option Text
  pub script : Option Text
  pub category : Option Text
  pub triggers : List Text
  pub priority : Option ℤ
  pub requires_approval_every_call : Option Bool

-- The calls, with the fields of their requests.
pub data Rpc : Type 0 where
  register_agent : Text → Text → Text → Rpc
  heartbeat : Text → Rpc
  subscribe : SubscribeRequest → Rpc
  send_message : Text → Text → Text → Rpc
  list_channels : Text → Rpc
  add_messages : Text → List WireMessage → Rpc
  end_session : Text → Rpc
  consolidate : ℤ → Option ℤ → Rpc
  search_sessions : Text → Option ℤ → Rpc
  list_sessions : Option ℤ → Rpc
  get_session : Text → Option Bool → Rpc
  add_todo : Text → ℤ → Text → Rpc
  list_todos : Bool → Option Text → Rpc
  complete_todo : Text → Rpc
  remove_todo : Text → Rpc
  create_cron_job : Text → Text → Text → Text → Option Bool → Rpc
  list_cron_jobs : Text → Bool → Rpc
  update_cron_job : Text → Option Text → Option Text → Option Text → Option Bool → Rpc
  delete_cron_job : Text → Rpc
  add_skill : Text → Text → List Text → Text → Text → Text → Option ℤ → Rpc
  get_skill : Text → Rpc
  list_skills : Text → Text → Option ℤ → Rpc
  remove_skill : Text → Rpc
  search_skills : Text → Text → Option ℤ → Rpc
  add_saved_tool : Text → Text → Text → Text → Text → Text → List Text → Text → Option ℤ → Rpc
  get_saved_tool : Text → Rpc
  list_saved_tools : Text → Text → Option ℤ → Rpc
  search_saved_tools : Text → Text → Option ℤ → Rpc
  update_saved_tool : UpdateSavedToolRequest → Rpc
  remove_saved_tool : Text → Rpc
  add_task : Text → Text → Text → Text → ℤ → ℤ → ℤ → Rpc
  get_task : Text → Rpc
  claim_task : Text → Text → Rpc
  complete_task : Text → Text → Rpc
  fail_task : Text → Rpc
  find_ready_tasks : Text → ℤ → Rpc
  list_tasks_by_status : Text → ℤ → Rpc
  reset_timed_out_tasks : Rpc
  delete_task : Text → Rpc
  subscribe_to_messages : Text → Rpc

-- What a call replies.
abbrev pub Reply : Pb → Rpc → Type 0
Reply pb (Rpc.register_agent _ _ _) = RegisterReply
Reply pb (Rpc.heartbeat _) = Unit {0}
Reply pb (Rpc.subscribe _) = Stream pb.Update
Reply pb (Rpc.send_message _ _ _) = Text
Reply pb (Rpc.list_channels _) = List Channel
Reply pb (Rpc.add_messages _ _) = Session
Reply pb (Rpc.end_session _) = Unit {0}
Reply pb (Rpc.consolidate _ _) = ConsolidateResponse
Reply pb (Rpc.search_sessions _ _) = List Session
Reply pb (Rpc.list_sessions _) = List Session
Reply pb (Rpc.get_session _ _) = Session
Reply pb (Rpc.add_todo _ _ _) = WireTodo
Reply pb (Rpc.list_todos _ _) = Stream WireTodo
Reply pb (Rpc.complete_todo _) = WireTodo
Reply pb (Rpc.remove_todo _) = Unit {0}
Reply pb (Rpc.create_cron_job _ _ _ _ _) = CronJob
Reply pb (Rpc.list_cron_jobs _ _) = List CronJob
Reply pb (Rpc.update_cron_job _ _ _ _ _) = CronJob
Reply pb (Rpc.delete_cron_job _) = Unit {0}
Reply pb (Rpc.add_skill _ _ _ _ _ _ _) = pb.Skill
Reply pb (Rpc.get_skill _) = pb.Skill
Reply pb (Rpc.list_skills _ _ _) = List pb.Skill
Reply pb (Rpc.remove_skill _) = Bool
Reply pb (Rpc.search_skills _ _ _) = List pb.Skill
Reply pb (Rpc.add_saved_tool _ _ _ _ _ _ _ _ _) = pb.Tool
Reply pb (Rpc.get_saved_tool _) = pb.Tool
Reply pb (Rpc.list_saved_tools _ _ _) = List pb.Tool
Reply pb (Rpc.search_saved_tools _ _ _) = List pb.Tool
Reply pb (Rpc.update_saved_tool _) = pb.Tool
Reply pb (Rpc.remove_saved_tool _) = Bool
Reply pb (Rpc.add_task _ _ _ _ _ _ _) = WireTask
Reply pb (Rpc.get_task _) = WireTask
Reply pb (Rpc.claim_task _ _) = WireTask
Reply pb (Rpc.complete_task _ _) = WireTask
Reply pb (Rpc.fail_task _) = WireTask
Reply pb (Rpc.find_ready_tasks _ _) = List WireTask
Reply pb (Rpc.list_tasks_by_status _ _) = List WireTask
Reply pb Rpc.reset_timed_out_tasks = ResetReply
Reply pb (Rpc.delete_task _) = Bool
Reply pb (Rpc.subscribe_to_messages _) = Stream pb.Incoming
