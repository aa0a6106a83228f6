-- ===== src/Client/Agent/Restart.antt =====
-- A session that is registered again after `Close`, and one that subscribes twice.
use vassago_sdk.Prelude.{ℕ, suc, ◌≤◌, ◌≡◌, ◌⊎◌, true, false, arith, ok, err, Text, length}
use vassago_sdk.Client.Agent.{
  AgentSession, Step, registers, subscribes, close_starts, beat_exits, wait_ends, pass_ends,
  register, subscribe, close_start, close_end_waiting, close_end_passing, beat_exit,
}
use vassago_sdk.Client.Agent.Lifecycle.{length-cancel_latest}

-- Any number of steps.
pub data Reach (s : AgentSession) : AgentSession → Type 0 where
  here : Reach s s
  next : {t u : AgentSession} → Reach s t → Step t u → Reach s u

-- `done` is closed, and no heartbeat of at least `n` has ended but by a panic.
record Doomed (n : ℕ) (s : AgentSession) : Type 0 where
  over : s.done_closed ≡ true
  alive : (s.panicked ≡ true) ⊎ (n ≤ length s.beats)

Step-Doomed : {n : ℕ} {s u : AgentSession} → Step s u → Doomed n s → Doomed n u
unfolding register subscribe close_start close_end_waiting close_end_passing beat_exit
Step-Doomed (registers (ok id) h) v = ground arith
Step-Doomed (registers (err e) h) v = ground arith
Step-Doomed (subscribes r h) v = ground arith
Step-Doomed {s} (close_starts h) v = ground (arith, length-cancel_latest s.latest_ended s.beats)
Step-Doomed (beat_exits i b h) v = ground arith
Step-Doomed (wait_ends w d h) v = ground arith
Step-Doomed (pass_ends p h) v = ground arith

Reach-Doomed : {n : ℕ} {s u : AgentSession} → Doomed n s → Reach s u → Doomed n u
Reach-Doomed v here = v
Reach-Doomed v (next r st) = Step-Doomed st (Reach-Doomed v r)

-- A session whose `done` is closed, as after a `Close`, can be registered again; from then on no
-- heartbeat ends but by a panic of the program, and such a panic can be reached by a `Close`.
pub restart_panics :
    (s : AgentSession) (id : Text)
    → s.registered ≡ false
    → s.done_closed ≡ true
    → s.panicked ≡ false
    → let t = (register (ok id) s).0 in
      ((u : AgentSession)
        → Reach t u
        → (u.panicked ≡ true) ⊎ (suc (length s.beats) ≤ length u.beats))
      × ((u : AgentSession) × Reach t u × (u.panicked ≡ true))
unfolding register close_start beat_exit
restart_panics s id free over safe = (
  λ u r. (Reach-Doomed {n = suc (length s.beats)} (ground arith) r).alive,
  (
    beat_exit 0 (close_start (register (ok id) s).0),
    next (next here (close_starts (ground arith))) (beat_exits 0 (ground arith) (ground arith)),
    ground arith,
  ),
)
