-- ===== src/Client/Agent/Offline.antt =====
-- A session of client/agent.go over the client of client/null_client.go, which stands in for the
-- daemon when there is none.
use vassago_sdk.Prelude.{
  ◌≡◌, ◌≢◌, ◌⊎◌, refl, inl, inr, false, [], none, Text, is_nil, Result, Bool-cases, arith,
  map_result,
}
use vassago_sdk.Prelude.Int.{ℤ}
use vassago_sdk.Client.Wire.{Pb}
use vassago_sdk.Client.Mnemo.Null.{null_mnemo}
use vassago_sdk.Client.Agent.{
  AgentSession, AgentConfig, Step, registers, subscribes, close_starts, beat_exits, wait_ends,
  pass_ends, new_agent_session, register, subscribe, close_start, close_end_waiting,
  close_end_passing, beat_exit, agent_id,
}

module _ (pb : Pb) (Entry : Type 0) where
  -- The id that the null client returns to `Register`.
  abbrev granted : AgentSession → Result Text
  granted s =
      map_result (λ r. r.0)
        ((null_mnemo {pb = pb} {Entry = Entry}).register_agent s.config.id s.config.name
          s.config.role []).0

  -- The replies of the step are those of the null client.
  abbrev pub Answered : {s u : AgentSession} → Step s u → Type 0
  Answered {s} (registers reply h) = reply ≡ granted s
  Answered (subscribes reply h) = reply ≡ none
  Answered (close_starts h) = Unit
  Answered (beat_exits i b h) = Unit
  Answered (wait_ends w d h) = Unit
  Answered (pass_ends p h) = Unit

  -- Runs of a session in which the null client replies.
  pub data RunsOffline (s : AgentSession) : AgentSession → Type 0 where
    no_step : RunsOffline s s
    then_offline :
        {t u : AgentSession} → RunsOffline s t → (st : Step t u) → Answered st → RunsOffline s u

  -- Not registered yet, with the id `id`; or with no id.
  abbrev Nameless : Text → AgentSession → Type 0
  Nameless id s = ((agent_id s ≡ id) × (s.registered ≡ false)) ⊎ (agent_id s ≡ [])

  Step-Nameless :
      (id : Text) {s u : AgentSession} (st : Step s u) → Answered st → Nameless id s → Nameless id u
  unfolding register subscribe close_start close_end_waiting close_end_passing beat_exit agent_id
      null_mnemo
  Step-Nameless id {s} (registers reply h) is v = elim (Bool-cases s.registered) [
    | inl on ↦ elim v [ inl (e, r) ↦ absurd (ground arith) | inr e ↦ rw on (inr e) ]
    | inr off ↦ inr (rw (off, is) refl)
  ]
  Step-Nameless id (subscribes reply h) is (inl (e, r)) = inl (ground arith)
  Step-Nameless id (subscribes reply h) is (inr e) = inr (ground arith)
  Step-Nameless id (close_starts h) is v = v
  Step-Nameless id (beat_exits i b h) is (inl (e, r)) = inl (ground arith)
  Step-Nameless id (beat_exits i b h) is (inr e) = inr (ground arith)
  Step-Nameless id (wait_ends w d h) is (inl (e, r)) = inl (e, refl)
  Step-Nameless id (wait_ends w d h) is (inr e) = inr e
  Step-Nameless id (pass_ends p h) is (inl (e, r)) = inl (e, refl)
  Step-Nameless id (pass_ends p h) is (inr e) = inr e

  Runs-Nameless : (id : Text) {s t : AgentSession} → Nameless id s → RunsOffline s t → Nameless id t
  Runs-Nameless id v no_step = v
  Runs-Nameless id v (then_offline r st is) = Step-Nameless id st is (Runs-Nameless id v r)

  named : (now : ℤ) (config : AgentConfig) → agent_id (new_agent_session now config) ≢ []
  unfolding agent_id new_agent_session
  named now config = elim (Bool-cases (is_nil config.id)) [
    | inl e ↦ rw e (λ h. cc)
    | inr e ↦ rw e (λ h. ground arith)
  ]

  -- A new session has an id that is not empty. Over the null client, however the parts of its
  -- methods and the heartbeat follow one another, either it is not registered and still has that
  -- id, or its id is empty: so no session is registered with the id that it was given.
  pub offline_session :
      (now : ℤ) (config : AgentConfig) {s : AgentSession}
      → RunsOffline (new_agent_session now config) s
      → let id = agent_id (new_agent_session now config) in
        (id ≢ []) × (((agent_id s ≡ id) × (s.registered ≡ false)) ⊎ (agent_id s ≡ []))
  unfolding new_agent_session agent_id
  offline_session now config r = (named now config, Runs-Nameless _ (inl (refl, refl)) r)
