-- ===== src/Messaging/Email/Uids.antt =====
-- The largest UID of the messages of a poll, in messaging/email_adapter.go.
use vassago_sdk.Prelude.{
  ◌≡◌, ◌⊎◌, refl, inl, inr, List, [], ◌∷◌, map, arith, Bool-cases, if◌then◌else◌, All,
}
use vassago_sdk.Prelude.Int.{ℤ, ◌≤ℤ◌, ltb_ℤ}
use vassago_sdk.Messaging.Email.{EmailMessage}
use vassago_sdk.Messaging.Email.Incoming.{max_uid}
use mathlib.Core.List.{Mem, mem-cons}
use mathlib.Core.Logic.Or

-- The UID after the loop is the one before it, or that of a message.
pub max_uid-Mem :
    (m : ℤ) (msgs : List EmailMessage)
    → (max_uid m msgs ≡ m) ⊎ Mem (max_uid m msgs) (map (λ msg. msg.uid) msgs)
unfolding max_uid
max_uid-Mem m [] = inl refl
max_uid-Mem m (msg ∷ msgs) = elim (Bool-cases (ltb_ℤ m msg.uid)) [
  | inl up ↦ elim (max_uid-Mem msg.uid msgs) [
    | inl e ↦ inr (mem-cons.1 (Or.inl (rw (up, max_uid) e)))
    | inr among ↦ inr (mem-cons.1 (Or.inr (rw (up, max_uid) among)))
  ]
  | inr same ↦ elim (max_uid-Mem m msgs) [
    | inl e ↦ inl (rw (same, max_uid) e)
    | inr among ↦ inr (mem-cons.1 (Or.inr (rw (same, max_uid) among)))
  ]
]

-- The UID after the loop is at least what it was and at least the UID of every message.
pub max_uid_lem :
    (m : ℤ) (msgs : List EmailMessage)
    → (m ≤ℤ max_uid m msgs) × All (λ msg. msg.uid ≤ℤ max_uid m msgs) msgs
unfolding max_uid
max_uid_lem m [] = (omega arith, tt)
max_uid_lem m (msg ∷ msgs) =
    let next : ℤ = if ltb_ℤ m msg.uid then msg.uid else m in
    let (up, all) = max_uid_lem next msgs in
    let least : (m ≤ℤ next) × (msg.uid ≤ℤ next) = (ground arith, ground arith) in
    (omega (arith, up, least.0), (omega (arith, up, least.1), all))
