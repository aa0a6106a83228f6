-- ===== src/Client/Mnemo/Failing.antt =====
-- What every method of the connected client does while its calls fail.
use vassago_sdk.Prelude.{codes, ℕ, ◌≡◌, ◌⊎◌, refl, inl, inr, List, ◌∷◌, Text, Error, Result, err}
use vassago_sdk.Prelude.Effects.{ask, labelled}
use vassago_sdk.Client.Calls.{
  add_memory, get_memory, remove_memory, search_memories, list_memories, get_hot_block,
  create_session, health_check,
}
use vassago_sdk.Client.Agents.{register_agent, heartbeat, subscribe, send_message, list_channels}
use vassago_sdk.Client.Sessions.{
  add_messages, end_session, consolidate, search_sessions, list_recent_sessions, get_session,
}
use vassago_sdk.Client.Todos.{optional_string, add_todo, list_todos, complete_todo, remove_todo}
use vassago_sdk.Client.Cron.{create_cron_job, list_cron_jobs, update_cron_job, delete_cron_job}
use vassago_sdk.Client.Skills.{add_skill, get_skill, list_skills, remove_skill, search_skills}
use vassago_sdk.Client.Tools.{
  add_saved_tool, get_saved_tool, list_saved_tools, search_saved_tools, update_saved_tool,
  remove_saved_tool,
}
use vassago_sdk.Client.Tasks.{
  add_task, get_task, claim_task, complete_task, fail_task, find_ready_tasks, list_tasks_by_status,
  reset_timed_out_tasks, delete_task,
}
use vassago_sdk.Client.{Daemon, Event, Request, health_request}
use vassago_sdk.Client.Wire.{Pb, Rpc, Reply}
use vassago_sdk.Client.Exchange.{Api, answered}
use vassago_sdk.Client.Mnemo.Calls.{Call, invoke}
use vassago_sdk.Client.Mnemo.Connected.{client}

-- Every call to the daemon fails with `e`.
pub record Down {pb : Pb} {Entry : Type 0} (d : Daemon Entry) (api : Api pb) (e : Error)
    : Type 0 where
  pub api_fails : (q : Rpc) (log : List Event) → api q log ≡ err e
  pub add_memory_fails : (log : List Event) → d.add_memory log ≡ err e
  pub get_memory_fails : (log : List Event) → d.get_memory log ≡ err e
  pub remove_memory_fails : (log : List Event) → d.remove_memory log ≡ err e
  pub search_fails : (log : List Event) → d.search log ≡ err e
  pub list_memories_fails : (log : List Event) → d.list_memories log ≡ err e
  pub get_hot_block_fails : (log : List Event) → d.get_hot_block log ≡ err e
  pub create_session_fails : (log : List Event) → d.create_session log ≡ err e

-- One call was made, and its error is returned, behind at most one label.
abbrev pub Fails : {A : Type 0} → ℕ → Error → List Event → Result A × List Event → Type 0
Fails conn e log r =
    (q : Request) × (e' : Error) × (r ≡ (err e', Event.rpc conn q ∷ log))
    × ((e' ≡ e) ⊎ ((label : Text) × (e' ≡ Error.wrap label e)))

module _ {pb : Pb} {Entry : Type 0} (d : Daemon Entry) (api : Api pb) (conn : ℕ) (e : Error)
    (down : Down d api e) where
  labelled-Fails :
      {A : Type 0} (label : Text) (reply : List Event → Result A) (q : Request) (log : List Event)
      → ((log : List Event) → reply log ≡ err e)
      → Fails conn e log (labelled label (ask reply (Event.rpc conn q)) log)
  labelled-Fails label reply q log h = (q, Error.wrap label e, rw (h _) refl, inr (label, refl))

  answered-Fails :
      {A : Type 0} (label : Text) (q : Rpc) (f : Reply pb q → A) (log : List Event)
      → Fails conn e log (answered api conn label q f log)
  answered-Fails label q f log =
      (Request.api q, Error.wrap label e, rw (down.api_fails q _) refl, inr (label, refl))

  -- While every call to the daemon fails with the same error, every method makes exactly one call
  -- and fails with that error, behind at most one label.
  pub invoke-Fails :
      (call : Call) (log : List Event) → Fails conn e log (invoke (client d api conn) call log)
  unfolding invoke client register_agent heartbeat subscribe send_message list_channels add_messages
      end_session consolidate search_sessions list_recent_sessions get_session add_todo list_todos
      complete_todo remove_todo create_cron_job list_cron_jobs update_cron_job delete_cron_job
      add_skill get_skill list_skills remove_skill search_skills add_saved_tool get_saved_tool
      list_saved_tools search_saved_tools update_saved_tool remove_saved_tool add_task get_task
      claim_task complete_task fail_task find_ready_tasks list_tasks_by_status reset_timed_out_tasks
      delete_task add_memory get_memory remove_memory search_memories list_memories get_hot_block
      create_session health_check
  invoke-Fails (Call.heartbeat a) log =
      (Request.api (Rpc.heartbeat a), e, rw (down.api_fails _ _) refl, inl refl)
  invoke-Fails (Call.subscribe r) log =
      (Request.api (Rpc.subscribe r), e, rw (down.api_fails _ _) refl, inl refl)
  invoke-Fails (Call.list_todos i a) log = (
    Request.api (Rpc.list_todos i (optional_string a)),
    Error.wrap (codes "ListTodos") e,
    rw (down.api_fails _ _) refl,
    inr (codes "ListTodos", refl),
  )
  invoke-Fails Call.health_check log = (
    health_request,
    Error.wrap (codes "health check") e,
    rw (down.get_hot_block_fails _) refl,
    inr (codes "health check", refl),
  )
  invoke-Fails (Call.add_memory _ _ _ _ _ _) log = labelled-Fails _ _ _ log down.add_memory_fails
  invoke-Fails (Call.get_memory _) log = labelled-Fails _ _ _ log down.get_memory_fails
  invoke-Fails (Call.remove_memory _) log = labelled-Fails _ _ _ log down.remove_memory_fails
  invoke-Fails (Call.search_memories _ _ _) log = labelled-Fails _ _ _ log down.search_fails
  invoke-Fails (Call.list_memories _ _ _) log = labelled-Fails _ _ _ log down.list_memories_fails
  invoke-Fails (Call.get_hot_block _ _ _ _ _ _) log =
      labelled-Fails _ _ _ log down.get_hot_block_fails
  invoke-Fails (Call.create_session _ _ _) log = labelled-Fails _ _ _ log down.create_session_fails
  invoke-Fails _ log = answered-Fails _ _ _ log
