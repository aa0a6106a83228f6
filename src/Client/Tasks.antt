-- ===== src/Client/Tasks.antt =====
-- client/client.go: the calls for tasks.
use vassago_sdk.Prelude.{ℕ, Bool, List, map, Option, none, some, Text, codes}
use vassago_sdk.Prelude.Int.{ℤ}
use vassago_sdk.Prelude.Effects.{Io}
use vassago_sdk.Client.{Event}
use vassago_sdk.Client.Wire.{Pb, WireTask, Rpc}
use vassago_sdk.Client.Exchange.{Api, answered}

-- `TaskEntry` of client/vassago_client.go
pub record TaskEntry : Type 0 where
  pub id : Text
  pub parent_ids : Text
  pub status : Text
  pub agent_type : Text
  pub assigned_agent : Text
  pub goal : Text
  pub context : Text
  pub result_key : Text
  pub priority : ℤ
  pub created_at : ℤ
  pub claimed_at : ℤ
  pub completed_at : ℤ
  pub ttl_seconds : ℤ
  pub retry_count : ℤ
  pub max_retries : ℤ

pub record ResetTimedOutResp : Type 0 where
  pub reset_ids : List Text
  pub count : ℤ

abbrev pub entry_of : WireTask → TaskEntry
entry_of t = record {
  id = t.id;
  parent_ids = t.parent_ids;
  status = t.status;
  agent_type = t.agent_type;
  assigned_agent = t.assigned_agent;
  goal = t.goal;
  context = t.context;
  result_key = t.result_key;
  priority = t.priority;
  created_at = t.created_at;
  claimed_at = t.claimed_at;
  completed_at = t.completed_at;
  ttl_seconds = t.ttl_seconds;
  retry_count = t.retry_count;
  max_retries = t.max_retries;
}

-- `protoTaskToEntry`; `none` is nil.
abbrev pub proto_task_to_entry : Option WireTask → Option TaskEntry
proto_task_to_entry none = none
proto_task_to_entry (some t) = some (entry_of t)

module _ {pb : Pb} (api : Api pb) (conn : ℕ) where
  unfoldable pub add_task : Text → Text → Text → Text → ℤ → ℤ → ℤ → Io Event (Option TaskEntry)
  add_task id agent_type goal context priority ttl_seconds max_retries =
      answered api conn (codes "AddTask")
        (Rpc.add_task id agent_type goal context priority ttl_seconds max_retries)
        (λ r. proto_task_to_entry (some r))

  unfoldable pub get_task : Text → Io Event (Option TaskEntry)
  get_task id =
      answered api conn (codes "GetTask") (Rpc.get_task id) (λ r. proto_task_to_entry (some r))

  unfoldable pub claim_task : Text → Text → Io Event (Option TaskEntry)
  claim_task task_id agent_id =
      answered api conn (codes "ClaimTask") (Rpc.claim_task task_id agent_id)
        (λ r. proto_task_to_entry (some r))

  unfoldable pub complete_task : Text → Text → Io Event (Option TaskEntry)
  complete_task task_id result_key =
      answered api conn (codes "CompleteTask") (Rpc.complete_task task_id result_key)
        (λ r. proto_task_to_entry (some r))

  unfoldable pub fail_task : Text → Io Event (Option TaskEntry)
  fail_task task_id =
      answered api conn (codes "FailTask") (Rpc.fail_task task_id)
        (λ r. proto_task_to_entry (some r))

  unfoldable pub find_ready_tasks : Text → ℤ → Io Event (List (Option TaskEntry))
  find_ready_tasks agent_type limit =
      answered api conn (codes "FindReadyTasks") (Rpc.find_ready_tasks agent_type limit)
        (map (λ t. proto_task_to_entry (some t)))

  unfoldable pub list_tasks_by_status : Text → ℤ → Io Event (List (Option TaskEntry))
  list_tasks_by_status status limit =
      answered api conn (codes "ListTasksByStatus") (Rpc.list_tasks_by_status status limit)
        (map (λ t. proto_task_to_entry (some t)))

  unfoldable pub reset_timed_out_tasks : Io Event ResetTimedOutResp
  reset_timed_out_tasks =
      answered api conn (codes "ResetTimedOutTasks") Rpc.reset_timed_out_tasks
        (λ r. record { reset_ids = r.reset_ids; count = r.count })

  unfoldable pub delete_task : Text → Io Event Bool
  delete_task id = answered api conn (codes "DeleteTask") (Rpc.delete_task id) (λ r. r)
