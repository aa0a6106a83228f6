-- ===== src/Messaging/Email/Wanted.antt =====
-- Which messages a poll of messaging/email_adapter.go hands on.
use vassago_sdk.Prelude.{
  ◌≡◌, ◌≢◌, ◌↔◌, ◌⊎◌, refl, inl, inr, true, List, [], ◌∷◌, arith, Text, member→Mem, Mem→member,
}
use vassago_sdk.Messaging.Email.{EmailMessage}
use vassago_sdk.Messaging.Email.Incoming.{is_wanted}
use mathlib.Core.List.{Mem}

-- A message with some text, from a sender of the list, if there is a list.
abbrev Wanted : List Text → EmailMessage → Type 0
Wanted allowed_from msg =
    ((msg.body ≢ []) ⊎ (msg.subject ≢ [])) × ((allowed_from ≡ []) ⊎ Mem msg.from allowed_from)

is_nil-cases : {A : Type 0} (xs : List A) → (xs ≡ []) ⊎ (xs ≢ [])
is_nil-cases [] = inl refl
is_nil-cases (x ∷ xs) = inr (λ e. cc)

-- The test of the loop passes exactly the wanted messages.
is_wanted_iff :
    (allowed_from : List Text) (msg : EmailMessage)
    → (is_wanted allowed_from msg ≡ true) ↔ Wanted allowed_from msg
unfolding is_wanted
is_wanted_iff allowed_from msg = (
  λ h. (
    elim (is_nil-cases msg.body) [ inl e ↦ inr (λ e'. ground arith) | inr n ↦ inl n ],
    elim (is_nil-cases allowed_from) [
      | inl e ↦ inl e
      | inr n ↦ inr (member→Mem msg.from allowed_from (ground arith))
    ],
  ),
  λ (text, from). elim text [
    | inl n ↦ elim from [
      | inl e ↦ ground arith
      | inr m ↦ ground (arith, Mem→member msg.from allowed_from m)
    ]
    | inr n ↦ elim from [
      | inl e ↦ ground arith
      | inr m ↦ ground (arith, Mem→member msg.from allowed_from m)
    ]
  ],
)
