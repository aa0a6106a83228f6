-- ===== src/Client/Agent.antt =====
-- client/agent.go: the life of an agent session. Its methods take the lock for each of their
-- parts, and the heartbeat runs beside them: each part is one operation on the state, and `Step`
-- lets them follow one another in every order.
pub mod Lifecycle
pub mod Restart
pub mod Offline
pub mod Events
mod Tests
use vassago_sdk.Prelude.{
  ℕ, zero, suc, ◌+◌, ◌-◌, ◌≡◌, ◌<◌, Bool, true, false, not, ◌&&◌, List, [], ◌∷◌, ◌++◌, Option, none,
  some, ltb, ◌==◌, if◌then◌else◌, Text, codes, is_nil, length, keep_if, Error, Result, ok, err,
}
use vassago_sdk.Prelude.Int.{ℤ}
use vassago_sdk.Prelude.Decimal.{format_int}

-- `AgentConfig`
pub record AgentConfig : Type 0 where
  pub id : Text
  pub name : Text
  pub role : Text

-- A heartbeat goroutine, by its context.
pub data Beat : Type 0 where
  running cancelled : Beat

-- `AgentSession`. `beats` are the heartbeat goroutines that have not ended, the latest first. The
-- first of them is the one that `cancelHB` stops, unless `latest_ended`: the heartbeat of the last
-- registration has ended, and `cancelHB` does nothing more. `stream_cancel` is the number of the subscription
-- that it cancels, `streams` are those whose context is not cancelled, and `subscribed` counts
-- the calls. `waiting` and `passing` are the calls of `Close` that have cancelled and will, after
-- the wait for `done` or at once, reset `registered`. `panicked` is a second close of `done`.
pub record AgentSession : Type 0 where
  pub config : AgentConfig
  pub registered : Bool
  pub beats : List Beat
  pub latest_ended : Bool
  pub done_closed : Bool
  pub stream_cancel : Option ℕ
  pub streams : List ℕ
  pub subscribed : ℕ
  pub waiting : ℕ
  pub passing : ℕ
  pub panicked : Bool

-- `NewAgentSession`; `now` is the clock's time in nanoseconds.
unfoldable pub new_agent_session : ℤ → AgentConfig → AgentSession
new_agent_session now config = record {
  config =
      if is_nil config.id then record config { id = codes "agent-" ++ format_int now } else config;
  registered = false;
  beats = [];
  latest_ended = false;
  done_closed = false;
  stream_cancel = none;
  streams = [];
  subscribed = 0;
  waiting = 0;
  passing = 0;
  panicked = false;
}

-- `Register`; `reply` is what the daemon answers: the agent's id.
unfoldable pub register : Result Text → AgentSession → AgentSession × Option Error
register reply s =
    if s.registered
    then (s, some (Error.message (codes "agent already registered")))
    else elim reply [
      | err e ↦ (s, some (Error.wrap (codes "register agent") e))
      | ok id ↦ (
        record s {
          config = record s.config { id = id };
          registered = true;
          beats = running ∷ s.beats;
          latest_ended = false;
        },
        none,
      )
    ]

-- `Subscribe`; `reply` is the daemon's error, if any.
pub subscribe : Option Error → AgentSession → AgentSession × Option Error
subscribe reply s =
    if not s.registered
    then (
      s,
      some (
          Error.message
            (codes "agent not registered " ++ (0xe2 ∷ 0x80 ∷ 0x94 ∷ codes " call Register first"))),
    )
    else elim reply [
      | some e ↦ (
        record s { stream_cancel = some s.subscribed; subscribed = suc s.subscribed },
        some (Error.wrap (codes "subscribe") e),
      )
      | none ↦ (
        record s {
          stream_cancel = some s.subscribed;
          streams = s.subscribed ∷ s.streams;
          subscribed = suc s.subscribed;
        },
        none,
      )
    ]

-- `cancelHB()`
abbrev cancel_latest : Bool → List Beat → List Beat
cancel_latest true bs = bs
cancel_latest false [] = []
cancel_latest false (b ∷ bs) = cancelled ∷ bs

-- `streamCancel()`
abbrev cancel_stream : Option ℕ → List ℕ → List ℕ
cancel_stream none streams = streams
cancel_stream (some i) streams = keep_if (λ j. not (j == i)) streams

-- `Close` up to its wait.
unfoldable pub close_start : AgentSession → AgentSession
close_start s = record s {
  beats = cancel_latest s.latest_ended s.beats;
  streams = cancel_stream s.stream_cancel s.streams;
  waiting = if s.registered then suc s.waiting else s.waiting;
  passing = if s.registered then s.passing else suc s.passing;
}

-- `Close` from its wait on, for a call that found the agent registered, and for one that did not.
unfoldable pub close_end_waiting : AgentSession → AgentSession
close_end_waiting s = record s { registered = false; waiting = s.waiting - 1 }

pub close_end_passing : AgentSession → AgentSession
close_end_passing s = record s { registered = false; passing = s.passing - 1 }

abbrev pub beat_at : ℕ → List Beat → Option Beat
beat_at i [] = none
beat_at zero (b ∷ bs) = some b
beat_at (suc i) (b ∷ bs) = beat_at i bs

abbrev without : ℕ → List Beat → List Beat
without i [] = []
without zero (b ∷ bs) = bs
without (suc i) (b ∷ bs) = b ∷ without i bs

-- Whether the heartbeat of the last registration has ended, after number `i` has.
abbrev ended_after : ℕ → Bool → Bool
ended_after zero before = true
ended_after (suc i) before = before

-- Heartbeat goroutine number `i` ends, and closes `done`.
unfoldable pub beat_exit : ℕ → AgentSession → AgentSession
beat_exit i s =
    let rest = record s {
      beats = without i s.beats;
      latest_ended = ended_after i s.latest_ended;
    } in
    if s.done_closed then record rest { panicked = true } else record rest { done_closed = true }

-- What may happen next to a session. A program that panicked does nothing more.
pub data Step (s : AgentSession) : AgentSession → Type 0 where
  registers : (reply : Result Text) → s.panicked ≡ false → Step s (register reply s).0
  subscribes : (reply : Option Error) → s.panicked ≡ false → Step s (subscribe reply s).0
  close_starts : s.panicked ≡ false → Step s (close_start s)
  beat_exits :
      (i : ℕ) → beat_at i s.beats ≡ some cancelled → s.panicked ≡ false → Step s (beat_exit i s)
  wait_ends :
      0 < s.waiting → s.done_closed ≡ true → s.panicked ≡ false → Step s (close_end_waiting s)
  pass_ends : 0 < s.passing → s.panicked ≡ false → Step s (close_end_passing s)

-- `AgentID` and `IsRegistered`
pub agent_id : AgentSession → Text
agent_id s = s.config.id

pub is_registered : AgentSession → Bool
is_registered s = s.registered
