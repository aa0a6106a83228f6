-- ===== src/Client/Mnemo.antt =====
-- client/vassago_client.go: the interface that the connected client and the null client implement.
pub mod Calls
pub mod Null
pub mod Connected
pub mod Failing
mod Tests
use vassago_sdk.Prelude.{ℕ, Bool, List, Option, Text}
use vassago_sdk.Prelude.Int.{ℤ}
use vassago_sdk.Prelude.Effects.{Io}
use vassago_sdk.Client.{Event}
use vassago_sdk.Messaging.{Channel}
use vassago_sdk.Client.Wire.{Pb, Stream, SubscribeRequest, ConsolidateResponse}
use vassago_sdk.Client.Sessions.{Message, SessionInfo, SessionDetail}
use vassago_sdk.Client.Todos.{TodoItem}
use vassago_sdk.Client.Cron.{CronJobInfo}
use vassago_sdk.Client.Tools.{Value}
use vassago_sdk.Client.Tasks.{TaskEntry, ResetTimedOutResp}

-- `MnemoClient`
pub record MnemoClient (pb : Pb) (Entry : Type 0) : Type 0 where
  pub is_connected : Bool
  pub register_agent : Text → Text → Text → Io Event (Text × Bool)
  pub heartbeat : Text → Io Event (Unit {0})
  pub subscribe : SubscribeRequest → Io Event (Stream pb.Update)
  pub add_memory : Text → Text → Text → Text → ℤ → Text → Io Event (Option Entry)
  pub get_memory : Text → Io Event Entry
  pub remove_memory : Text → Io Event (Unit {0})
  pub search_memories : Text → Text → ℤ → Io Event (List Entry)
  pub list_memories : Text → Option Text → Option ℤ → Io Event (List Entry)
  pub get_hot_block : Text → Text → ℤ → List Text → List Text → ℤ → Io Event Text
  pub create_session : Text → Text → Text → Io Event Text
  pub health_check : Io Event (Unit {0})
  pub send_message : Text → Text → Text → Io Event Text
  pub list_channels : Text → Io Event (List Channel)
  pub add_messages : Text → List Message → Io Event (Unit {0})
  pub end_session : Text → Io Event (Unit {0})
  pub consolidate : ℤ → ℤ → Io Event ConsolidateResponse
  pub search_sessions : Text → ℤ → Io Event (List SessionInfo)
  pub list_recent_sessions : ℤ → Io Event (List SessionInfo)
  pub get_session : Text → Io Event (Option SessionDetail)
  pub add_todo : Text → ℤ → Text → Io Event (Option TodoItem)
  pub list_todos : Bool → Text → Io Event (List TodoItem)
  pub complete_todo : Text → Io Event (Option TodoItem)
  pub remove_todo : Text → Io Event (Unit {0})
  pub create_cron_job : Text → Text → Text → Text → Option Bool → Io Event CronJobInfo
  pub list_cron_jobs : Text → Bool → Io Event (List CronJobInfo)
  pub update_cron_job :
      Text → Option Text → Option Text → Option Text → Option Bool → Io Event CronJobInfo
  pub delete_cron_job : Text → Io Event (Unit {0})
  pub add_skill : Text → Text → List Text → Text → Text → Text → ℤ → Io Event pb.Skill
  pub get_skill : Text → Io Event pb.Skill
  pub list_skills : Text → Text → ℤ → Io Event (List pb.Skill)
  pub remove_skill : Text → Io Event Bool
  pub search_skills : Text → Text → ℤ → Io Event (List pb.Skill)
  pub add_saved_tool :
      Text → Text → Text → Text → Text → Text → List Text → Text → ℤ → Io Event pb.Tool
  pub get_saved_tool : Text → Io Event pb.Tool
  pub list_saved_tools : Text → Text → ℤ → Io Event (List pb.Tool)
  pub search_saved_tools : Text → Text → ℤ → Io Event (List pb.Tool)
  pub update_saved_tool : Text → List (Text × Value) → Io Event pb.Tool
  pub remove_saved_tool : Text → Io Event Bool
  pub add_task : Text → Text → Text → Text → ℤ → ℤ → ℤ → Io Event (Option TaskEntry)
  pub get_task : Text → Io Event (Option TaskEntry)
  pub claim_task : Text → Text → Io Event (Option TaskEntry)
  pub complete_task : Text → Text → Io Event (Option TaskEntry)
  pub fail_task : Text → Io Event (Option TaskEntry)
  pub find_ready_tasks : Text → ℤ → Io Event (List (Option TaskEntry))
  pub list_tasks_by_status : Text → ℤ → Io Event (List (Option TaskEntry))
  pub reset_timed_out_tasks : Io Event ResetTimedOutResp
  pub delete_task : Text → Io Event Bool
  pub close : Io Event (Unit {0})
