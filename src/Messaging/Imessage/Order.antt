-- ===== src/Messaging/Imessage/Order.antt =====
-- The ascending rows that the polls of messaging/imessage_adapter.go read, and the last row id
-- among them.
use vassago_sdk.Prelude.{
  ◌≡◌, refl, ap, sym, subst, ◌∙◌, inl, inr, Bool, Bool-cases, List, [], ◌∷◌, ◌++◌, Text, arith,
  keep_if_yes, keep_if_no,
}
use vassago_sdk.Prelude.Int.{ℤ, ltb_ℤ, ◌≤ℤ◌}
use vassago_sdk.Messaging.{MessageEvent}
use vassago_sdk.Messaging.Imessage.{IMessageRow}
use vassago_sdk.Messaging.Imessage.Incoming.{is_wanted, to_event, hand_on}
use vassago_sdk.Messaging.Imessage.Poll.{Ascending, Ascending-weaken, newer}

pub Ascending-suffix : (m : ℤ) (xs ys : List IMessageRow) → Ascending m (xs ++ ys) → Ascending m ys
Ascending-suffix m [] ys h = h
Ascending-suffix m (x ∷ xs) ys h =
    Ascending-suffix m xs ys (Ascending-weaken m x.rowid (xs ++ ys) (ground arith) h.1)

pub newer_self : (m : ℤ) (xs : List IMessageRow) → Ascending m xs → newer m xs ≡ xs
newer_self m [] h = refl
newer_self m (x ∷ xs) h =
    keep_if_yes (λ msg. ltb_ℤ m msg.rowid) x xs h.0
    ∙ ap (◌∷◌ x) (newer_self m xs (Ascending-weaken m x.rowid xs (ground arith) h.1))

pub newer-Ascending : (m n : ℤ) (xs : List IMessageRow) → Ascending m xs → Ascending n (newer n xs)
newer-Ascending m n [] h = tt
newer-Ascending m n (x ∷ xs) h = elim (Bool-cases (ltb_ℤ n x.rowid)) [
  | inl e ↦
      subst (Ascending n)
        (sym (
          keep_if_yes (λ msg. ltb_ℤ n msg.rowid) x xs e
          ∙ ap (◌∷◌ x) (newer_self n xs (Ascending-weaken n x.rowid xs (ground arith) h.1))))
        (e, h.1)
  | inr e ↦
      subst (Ascending n) (sym (keep_if_no (λ msg. ltb_ℤ n msg.rowid) x xs e))
        (newer-Ascending x.rowid n xs h.1)
]

-- What is not newer than one id is not newer than a larger one.
pub newer-none : (m n : ℤ) (xs : List IMessageRow) → m ≤ℤ n → newer m xs ≡ [] → newer n xs ≡ []
newer-none m n [] le h = refl
newer-none m n (x ∷ xs) le h = elim (Bool-cases (ltb_ℤ m x.rowid)) [
  | inl e ↦ absurd (cons_nil x _ (sym (keep_if_yes (λ msg. ltb_ℤ m msg.rowid) x xs e) ∙ h))
  | inr e ↦
      keep_if_no (λ msg. ltb_ℤ n msg.rowid) x xs (ground arith)
      ∙ newer-none m n xs le (sym (keep_if_no (λ msg. ltb_ℤ m msg.rowid) x xs e) ∙ h)
]
  where
    cons_nil : (x : IMessageRow) (xs : List IMessageRow) → x ∷ xs ≡ [] → ⊥
    cons_nil x xs e = cc

module _ (accept : List MessageEvent → Bool) (allowed : List Text) where
  -- The last id stays below rows that ascend behind those of the poll.
  pub hand_on-Ascending :
      (msgs rest : List IMessageRow) (last : ℤ) (sent : List MessageEvent)
      → Ascending last (msgs ++ rest)
      → Ascending (hand_on accept allowed msgs last sent).0 rest
  unfolding hand_on
  hand_on-Ascending [] rest last sent h = h
  hand_on-Ascending (msg ∷ msgs) rest last sent h =
      let below = Ascending-weaken last msg.rowid (msgs ++ rest) (ground arith) h.1 in
      elim (Bool-cases (is_wanted allowed msg)) [
        | inr skip ↦ rw (skip, hand_on) (hand_on-Ascending msgs rest last sent below)
        | inl wanted ↦ elim (Bool-cases (accept sent)) [
          | inl takes ↦
              rw (wanted, takes, h.0, hand_on)
                (hand_on-Ascending msgs rest msg.rowid (sent ++ to_event msg ∷ []) h.1)
          | inr gone ↦ rw (wanted, gone, hand_on) (Ascending-suffix last msgs rest below)
        ]
      ]
