-- ===== src/Messaging/Chunks.antt =====
-- The sending of a long message in chunks, which sendSplitMessage of messaging/imessage_adapter.go,
-- messaging/discord_adapter.go and messaging/telegram_adapter.go do in the same way.
use vassago_sdk.Prelude.{
  ℕ, zero, suc, ◌+◌, ◌≤◌, ◌<◌, ◌≡◌, ◌⊎◌, refl, ap, inl, inr, List, [], ◌∷◌, ◌++◌, Option, some,
  arith, Text, Error, Result, ok, err, Result-cases, length, take, concat, All, append-nil,
}
use vassago_sdk.Prelude.Effects.{Io, ◌>>=◌, return, ask, labelled}
use vassago_sdk.Prelude.Decimal.{format_nat}
use vassago_sdk.Format.{split_message_for_platform, get_platform_limits}
use vassago_sdk.Format.Platforms.{unprefixed, split_message_for_platform_lem}
use mathlib.Core.Option

-- One message that was posted: its target, of type `T`, and its text.
abbrev pub Post : Type 0 → Type 0
Post T = T × Text

-- The service that takes the messages: its reply is the id of the newest of all posts.
abbrev pub Service : Type 0 → Type 0
Service T = List (Post T) → Result Text

module _ {T : Type 0} (label : Text) (service : Service T) (target : T) where
  -- The loop over the chunks: its counter, and the id of the last chunk sent.
  pub send_each : ℕ → Text → List Text → Io (Post T) Text
  send_each i last [] = return last
  send_each i last (chunk ∷ chunks) = do
    id ← labelled (label ++ format_nat i) (ask service (target, chunk))
    send_each (suc i) id chunks

  -- The whole of it; `none` is a splitting that has not ended.
  unfoldable pub send_split : Text → Text → List (Post T) → Option (Result Text × List (Post T))
  send_split platform message log =
      Option.map (λ chunks. send_each 0 [] chunks log) (split_message_for_platform platform message)

-- The log after the texts are posted, one after the other.
abbrev pub posts : {T : Type 0} → T → List Text → List (Post T) → List (Post T)
posts target [] log = log
posts target (c ∷ cs) log = posts target cs ((target, c) ∷ log)

-- The error that was met, or that error behind a label.
abbrev Wraps : Error → Error → Type 0
Wraps e e' = (e' ≡ e) ⊎ ((label : Text) × (e' ≡ Error.wrap label e))

-- The service took each of the posts of the texts before the `n`th, when it was made.
abbrev Taken : {T : Type 0} → Service T → T → List Text → List (Post T) → ℕ → Type 0
Taken service target out log n =
    (k : ℕ) → 0 < k → k < n → (id : Text) × (service (posts target (take k out) log) ≡ ok id)

-- Some first part of the texts was posted, at least one, and each of them but the last was taken:
-- all of them, the last with the reply that is returned, or only up to the one that the service
-- refused, whose error is returned, by itself or behind a label.
abbrev pub Outcome :
    {T : Type 0} → Service T → T → List Text → List (Post T) → Result Text × List (Post T) → Type 0
Outcome service target out log (r, log') =
    (n : ℕ) × (0 < n)
    × (n ≤ length out)
    × (log' ≡ posts target (take n out) log)
    × Taken service target out log n
    × (((id : Text) × (r ≡ ok id) × (n ≡ length out) × (service log' ≡ ok id))
        ⊎ ((e e' : Error) × (r ≡ err e') × Wraps e e' × (service log' ≡ err e)))

only_one :
    {T : Type 0} (service : Service T) (target : T) (out : List Text) (log : List (Post T))
    → Taken service target out log 1
only_one service target out log k some_sent before = absurd (omega (arith, some_sent, before))

-- The first post was taken, and so were the posts behind it.
Taken-cons :
    {T : Type 0} (service : Service T) (target : T) (c : Text) (cs : List Text)
    (log : List (Post T)) (n : ℕ) (id : Text)
    → service ((target, c) ∷ log) ≡ ok id
    → Taken service target cs ((target, c) ∷ log) n
    → Taken service target (c ∷ cs) log (suc n)
Taken-cons service target c cs log n id h rest zero some_sent before =
    absurd (omega (arith, some_sent))
Taken-cons service target c cs log n id h rest (suc zero) some_sent before = (id, h)
Taken-cons service target c cs log n id h rest (suc (suc k)) some_sent before =
    rest (suc k) (omega arith) (omega (arith, before))

module _ {T : Type 0} (label : Text) (service : Service T) (target : T) where
  -- The loop over at least one chunk.
  send_each-Outcome :
      (i : ℕ) (last c : Text) (cs : List Text) (log : List (Post T))
      → Outcome service target (c ∷ cs) log (send_each label service target i last (c ∷ cs) log)
  unfolding send_each
  send_each-Outcome i last c [] log = elim (Result-cases (service ((target, c) ∷ log))) [
    | inr (e, h) ↦ rw h (
      1,
      omega arith,
      omega arith,
      refl,
      only_one service target _ log,
      inr (e, _, refl, inr (_, refl), h),
    )
    | inl (id, h) ↦
        rw h (
          1,
          omega arith,
          omega arith,
          refl,
          only_one service target _ log,
          inl (id, refl, refl, h),
        )
  ]
  send_each-Outcome i last c (d ∷ ds) log = elim (Result-cases (service ((target, c) ∷ log))) [
    | inr (e, h) ↦ rw h (
      1,
      omega arith,
      omega arith,
      refl,
      only_one service target _ log,
      inr (e, _, refl, inr (_, refl), h),
    )
    | inl (id, h) ↦
        let (n, some_sent, bound, log_is, taken, rest) =
          send_each-Outcome (suc i) id d ds ((target, c) ∷ log) in
        rw h (
          suc n,
          omega arith,
          omega (arith, bound),
          log_is,
          Taken-cons service target c (d ∷ ds) log n id h taken,
          elim rest [
            | inl (id', r_is, all, answer) ↦ inl (id', r_is, ap suc all, answer)
            | inr failed ↦ inr failed
          ],
        )
  ]

-- What sending promises of a message: it ends; some texts of at most the limit and the prefix,
-- which are the message again once the prefixes are taken off, are posted as `Outcome` says.
abbrev pub Sent :
    {T : Type 0}
    → Service T
    → (platform : Text) (target : T) (message : Text) → List (Post T)
    → Option (Result Text × List (Post T))
    → Type 0
Sent {T = T} service platform target message log answer =
    let l = get_platform_limits platform in
    (out : List Text) × (concat (unprefixed (length l.split_prefix) out) ≡ message)
    × All (λ c. length c ≤ l.max_message_len + length l.split_prefix) out
    × (r : Result Text × List (Post T)) × (answer ≡ some r)
    × Outcome service target out log r

pub send_split-Sent :
    {T : Type 0} (label : Text) (service : Service T) (platform : Text) (target : T)
    (message : Text) (log : List (Post T))
    → 0 < length message
    → Sent service platform target message log
        (send_split label service target platform message log)
unfolding send_split
send_split-Sent label service platform target message log h =
    let (out, e, whole, fits) = split_message_for_platform_lem platform message in
    (out, whole, fits, send_each label service target 0 [] out log, rw e refl, by_length out whole)
  where
    by_length :
        (out : List Text)
        → concat (unprefixed (length (get_platform_limits platform).split_prefix) out) ≡ message
        → Outcome service target out log (send_each label service target 0 [] out log)
    by_length [] e = absurd (omega (arith, h, ap length e))
    by_length (c ∷ cs) e = send_each-Outcome label service target 0 [] c cs log

-- A message that fits is one post; the error of the service may be wrapped.
pub post-Sent :
    {T : Type 0} (service : Service T) (platform : Text) (target : T) (message : Text)
    (log : List (Post T)) (wrapped : Result Text → Result Text)
    → ((id : Text) → wrapped (ok id) ≡ ok id)
    → ((e : Error) → (e' : Error) × (wrapped (err e) ≡ err e') × Wraps e e')
    → length message ≤ (get_platform_limits platform).max_message_len
    → Sent service platform target message log
        (some (wrapped (service ((target, message) ∷ log)), (target, message) ∷ log))
post-Sent service platform target message log wrapped on_ok on_err h = (
  message ∷ [],
  append-nil message,
  (omega (arith, h), tt),
  (wrapped (service ((target, message) ∷ log)), (target, message) ∷ log),
  refl,
  (
    1,
    omega arith,
    omega arith,
    refl,
    only_one service target (message ∷ []) log,
    elim (Result-cases (service ((target, message) ∷ log))) [
      | inl (id, e) ↦ inl (id, rw (e, on_ok id) refl, refl, e)
      | inr (e, is_err) ↦
          let (e', wraps, how) = on_err e in inr (e, e', rw (is_err, wraps) refl, how, is_err)
    ],
  ),
)
