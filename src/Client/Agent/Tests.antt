-- ===== src/Client/Agent/Tests.antt =====
-- The session theorems on concrete runs.
use vassago_sdk.Prelude.{
  ◌≢◌, ℕ, suc, ◌≤◌, ◌≡◌, ◌⊎◌, inl, inr, refl, Bool, true, false, List, [], ◌∷◌, ok, codes, length,
}
use vassago_sdk.Prelude.Int.{pos}
use vassago_sdk.Client.Agent.{
  AgentSession, AgentConfig, Step, new_agent_session, register, registers, close_start,
  close_end_waiting, beat_exit, agent_id,
}
use vassago_sdk.Client.Agent.Events.{
  Turn, IsSubsequence, kept, received, read, forward, forward_lem,
}
use vassago_sdk.Client.Agent.Lifecycle.{Again, start, then_step, registered_once}
use vassago_sdk.Client.Agent.Restart.{Reach, restart_panics}
use vassago_sdk.Client.Agent.Offline.{RunsOffline, no_step, then_offline, offline_session}
use vassago_sdk.Client.Wire.{Pb}
use vassago_sdk.Client.Mnemo.Null.{null_mnemo}

abbrev agent_cfg : AgentConfig
agent_cfg = record { id = codes "a1"; name = []; role = codes "dev" }

abbrev fresh : AgentSession
fresh = new_agent_session (pos 1) agent_cfg

-- Registered, closed, its heartbeat ended.
abbrev stopped_once : AgentSession
stopped_once = close_end_waiting (beat_exit 0 (close_start (register (ok (codes "a1")) fresh).0))

new_is_safe : fresh.panicked ≡ false
unfolding new_agent_session
new_is_safe = refl

abbrev first_step : Step fresh (register (ok (codes "a1")) fresh).0
first_step = registers (ok (codes "a1")) new_is_safe

not-Again : ¬ Again first_step
unfolding new_agent_session
not-Again (free, again) = elim again [ inl some_beat ↦ some_beat refl | inr over ↦ cc ]

registered_once_example :
    let s = (register (ok (codes "a1")) fresh).0 in
    (s.panicked ≡ false) × (length s.beats ≤ 1) × (s.done_closed ≡ true → s.beats ≡ [])
unfolding new_agent_session
registered_once_example = registered_once (pos 1) agent_cfg (then_step start first_step not-Again)

restart_panics_example :
    let t = (register (ok (codes "a1")) stopped_once).0 in
    ((u : AgentSession)
      → Reach t u
      → (u.panicked ≡ true) ⊎ (suc (length stopped_once.beats) ≤ length u.beats))
    × ((u : AgentSession) × Reach t u × (u.panicked ≡ true))
unfolding close_end_waiting beat_exit close_start register new_agent_session
restart_panics_example = restart_panics stopped_once (codes "a1") refl refl refl

-- Messages that are numbers.
abbrev numbers : Pb
numbers = record { Update = ℕ; Skill = ℕ; Tool = ℕ; Incoming = ℕ }

-- The session of the agent a1 is registered with the null client.
registers_offline : RunsOffline numbers ℕ fresh (register (ok []) fresh).0
unfolding null_mnemo
registers_offline = then_offline no_step (registers (ok []) new_is_safe) refl

offline_session_example :
    let s = (register (ok []) fresh).0 in
    (agent_id fresh ≢ [])
    × (((agent_id s ≡ agent_id fresh) × (s.registered ≡ false)) ⊎ (agent_id s ≡ []))
offline_session_example = offline_session numbers ℕ (pos 1) agent_cfg registers_offline

-- Two events come in, the first is read in between.
abbrev turns : List (Turn ℕ)
turns = received 1 ∷ read ∷ received 2 ∷ []

forward_lem_example :
    ((forward true turns).called ≡ 1 ∷ 2 ∷ [])
    × ((callback : Bool) → length (forward callback turns).buffer ≤ 50)
    × ((callback : Bool) → IsSubsequence (kept (forward callback turns)) (1 ∷ 2 ∷ []))
forward_lem_example = forward_lem turns
