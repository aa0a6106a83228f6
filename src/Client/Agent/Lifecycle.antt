-- ===== src/Client/Agent/Lifecycle.antt =====
-- A session that is registered once: no panic, one heartbeat, and a `Close` that waits for it.
use vassago_sdk.Prelude.{
  ℕ, zero, suc, ◌+◌, ◌≤◌, ◌≡◌, ◌≢◌, ◌⊎◌, refl, inl, inr, Bool, true, false, List, [], ◌∷◌, some,
  arith, ok, err, Text, length, Bool-cases,
}
use vassago_sdk.Client.Agent.{
  AgentSession, AgentConfig, Beat, Step, registers, subscribes, close_starts, beat_exits, wait_ends,
  pass_ends, new_agent_session, register, subscribe, close_start, close_end_waiting,
  close_end_passing, beat_exit, beat_at, without, cancel_latest,
}
use vassago_sdk.Prelude.Int.{ℤ}

abbrev closed_count : Bool → ℕ
closed_count true = 1
closed_count false = 0

-- There is one heartbeat at most, and none once `done` is closed.
pub record FirstLife (s : AgentSession) : Type 0 where
  pub safe : s.panicked ≡ false
  pub one : length s.beats + closed_count s.done_closed ≤ 1

-- A registration that the daemon grants, after another one.
abbrev pub Again : {s u : AgentSession} → Step s u → Type 0
Again {s} (registers (ok id) h) = (s.registered ≡ false) × ((s.beats ≢ []) ⊎ (s.done_closed ≡ true))
Again (registers (err e) h) = ⊥
Again (subscribes r h) = ⊥
Again (close_starts h) = ⊥
Again (beat_exits i b h) = ⊥
Again (wait_ends w d h) = ⊥
Again (pass_ends p h) = ⊥

pub length-cancel_latest :
    (ended : Bool) (bs : List Beat) → length (cancel_latest ended bs) ≡ length bs
length-cancel_latest true bs = refl
length-cancel_latest false [] = refl
length-cancel_latest false (b ∷ bs) = refl

length-without :
    (i : ℕ) (bs : List Beat) {b : Beat}
    → beat_at i bs ≡ some b
    → length bs ≡ suc (length (without i bs))
length-without i [] h = cc
length-without zero (x ∷ bs) h = refl
length-without (suc i) (x ∷ bs) h = omega (arith, length-without i bs h)

beats-cases : (bs : List Beat) → (bs ≡ []) ⊎ (bs ≢ [])
beats-cases [] = inl refl
beats-cases (b ∷ bs) = inr (λ e. cc)

register-FirstLife :
    (s : AgentSession) (id : Text)
    → FirstLife s
    → ¬ ((s.registered ≡ false) × ((s.beats ≢ []) ⊎ (s.done_closed ≡ true)))
    → FirstLife (register (ok id) s).0
unfolding register
register-FirstLife s id v n = elim (Bool-cases s.registered) [
  | inl live ↦ ground arith
  | inr free ↦ elim (Bool-cases s.done_closed) [
    | inl over ↦ absurd (n (free, inr over))
    | inr fresh ↦ elim (beats-cases s.beats) [
      | inl e ↦ ground arith
      | inr some_beat ↦ absurd (n (free, inl some_beat))
    ]
  ]
]

Step-FirstLife : {s u : AgentSession} (st : Step s u) → ¬ Again st → FirstLife s → FirstLife u
unfolding register subscribe close_start close_end_waiting close_end_passing beat_exit
Step-FirstLife {s} (registers (ok id) h) n v = register-FirstLife s id v n
Step-FirstLife (registers (err e) h) n v = ground arith
Step-FirstLife (subscribes r h) n v = ground arith
Step-FirstLife {s} (close_starts h) n v = record {
  safe = v.safe;
  one = omega (arith, v.one, length-cancel_latest s.latest_ended s.beats);
}
Step-FirstLife {s} (beat_exits i b h) n v = ground (arith, length-without i s.beats b)
Step-FirstLife (wait_ends w d h) n v = ground arith
Step-FirstLife (pass_ends p h) n v = ground arith

-- Runs of a session in which no registration is granted after another one.
pub data RunsOnce (s : AgentSession) : AgentSession → Type 0 where
  start : RunsOnce s s
  then_step : {t u : AgentSession} → RunsOnce s t → (st : Step t u) → ¬ Again st → RunsOnce s u

RunsOnce-FirstLife : {s t : AgentSession} → FirstLife s → RunsOnce s t → FirstLife t
RunsOnce-FirstLife v start = v
RunsOnce-FirstLife v (then_step r st n) = Step-FirstLife st n (RunsOnce-FirstLife v r)

new-FirstLife : (now : ℤ) (config : AgentConfig) → FirstLife (new_agent_session now config)
unfolding new_agent_session
new-FirstLife now config = ground arith

ended : (s : AgentSession) → FirstLife s → s.done_closed ≡ true → s.beats ≡ []
ended s v d = elim (beats-cases s.beats) [
  | inl e ↦ e
  | inr n ↦ absurd (too_many s.beats n (ground arith))
]
  where
    too_many : (bs : List Beat) → bs ≢ [] → length bs ≤ 0 → ⊥
    too_many [] n h = n refl
    too_many (b ∷ bs) n h = omega arith

-- However the parts of its methods and the heartbeat follow one another, a new session that is
-- registered only once never panics, has at most one heartbeat, and once `done` is closed, for
-- which a waiting `Close` waits, has none.
pub registered_once :
    (now : ℤ) (config : AgentConfig) {s : AgentSession}
    → RunsOnce (new_agent_session now config) s
    → (s.panicked ≡ false) × (length s.beats ≤ 1) × (s.done_closed ≡ true → s.beats ≡ [])
registered_once now config {s} r =
    let v = RunsOnce-FirstLife (new-FirstLife now config) r in
    (v.safe, omega (arith, v.one), ended s v)
