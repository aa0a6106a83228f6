-- ===== src/Messaging/Telegram/Filter.antt =====
-- Which updates processUpdates of messaging/telegram_adapter.go passes.
use vassago_sdk.Prelude.{
  ℕ, ==_iff, ◌≡◌, ◌≢◌, ◌↔◌, ◌⊎◌, refl, ◌∙◌, ap, inl, inr, Bool, true, false, not, ◌&&◌, Bool-cases,
  List, [], ◌∷◌, Option, none, some, is_nil, if◌then◌else◌, arith,
}
use vassago_sdk.Prelude.Int.{ℤ, pos, negsuc}
use vassago_sdk.Messaging.{MessageEvent}
use vassago_sdk.Messaging.Telegram.{
  Update, User, Chat, Message, same_int, among, from_user, incoming,
}
use mathlib.Core.List.{Mem, mem-cons, not-mem-nil}
use mathlib.Core.Logic.Or
use mathlib.Core.Bool.{Bool-set}

same_int_iff : (a b : ℤ) → (same_int a b ≡ true) ↔ (a ≡ b)
unfolding same_int
same_int_iff (pos n) (pos m) =
    ((λ h. ap pos ((==_iff n m).0 h)), λ e. (==_iff n m).1 (pos_inj n m e))
  where
    pos_inj : (n m : ℕ) → pos n ≡ pos m → n ≡ m
    pos_inj n m e = cc
same_int_iff (negsuc n) (negsuc m) =
    ((λ h. ap negsuc ((==_iff n m).0 h)), λ e. (==_iff n m).1 (negsuc_inj n m e))
  where
    negsuc_inj : (n m : ℕ) → negsuc n ≡ negsuc m → n ≡ m
    negsuc_inj n m e = cc
same_int_iff (pos n) (negsuc m) = ((λ h. cc), λ e. cc)
same_int_iff (negsuc n) (pos m) = ((λ h. cc), λ e. cc)

among→Mem : (id : ℤ) (cs : List ℤ) → among id cs ≡ true → Mem id cs
unfolding among
among→Mem id [] h = cc
among→Mem id (c ∷ cs) h = elim (Bool-cases (same_int id c)) [
  | inl e ↦ mem-cons.1 (Or.inl ((same_int_iff id c).0 e))
  | inr e ↦ mem-cons.1 (Or.inr (among→Mem id cs (rw e at h)))
]

Mem→among : (id : ℤ) (cs : List ℤ) → Mem id cs → among id cs ≡ true
unfolding among
Mem→among id [] h = absurd (not-mem-nil h)
Mem→among id (c ∷ cs) h =
    Or.elim (λ p q. Bool-set _ _ p q) (mem-cons.0 h) (λ e. ground (arith, same_int_iff id c, e))
      (λ m. ground (arith, Mem→among id cs m))

-- A message with a sender, a chat and a text, not from the bot, in an allowed chat, if there is a
-- list of them.
abbrev pub Passed : ℤ → List ℤ → Update → Type 0
Passed bot_id allowed u =
    (m : Message) × (from : User) × (chat : Chat) × (u ≡ some m)
    × (m.from ≡ some from)
    × (m.chat ≡ some chat)
    × (m.text ≢ [])
    × (from.id ≢ bot_id)
    × ((allowed ≡ []) ⊎ Mem chat.id allowed)

allowed_iff :
    (id : ℤ) (allowed : List ℤ)
    → (not (is_nil allowed) && not (among id allowed) ≡ false) ↔ ((allowed ≡ []) ⊎ Mem id allowed)
allowed_iff id [] = ((λ h. inl refl), λ h. refl)
allowed_iff id (c ∷ cs) = (
  (λ h. inr (among→Mem id (c ∷ cs) (ground arith))),
  λ h. elim h [ inl e ↦ cc | inr m ↦ rw (Mem→among id (c ∷ cs) m) refl ],
)

-- Three tests in front of a value.
guards_iff :
    (a b c : Bool) (x : MessageEvent)
    → ((y : MessageEvent) × ((if a then none else if b then none else if c then none else some x)
          ≡ some y))
      ↔ ((a ≡ false) × (b ≡ false) × (c ≡ false))
guards_iff true b c x = ((λ h. absurd (cc (h.1))), λ h. absurd (cc (h.0)))
guards_iff false true c x = ((λ h. absurd (cc (h.1))), λ h. absurd (cc (h.1)))
guards_iff false false true x = ((λ h. absurd (cc (h.1))), λ h. absurd (cc (h.2)))
guards_iff false false false x = ((λ h. (refl, refl, refl)), λ h. (x, refl))

is_nil_iff : {A : Type 0} (xs : List A) → (is_nil xs ≡ false) ↔ (xs ≢ [])
is_nil_iff [] = ((λ h. cc), λ n. absurd (n refl))
is_nil_iff (x ∷ xs) = ((λ h e. cc), λ n. refl)

other_int_iff : (a b : ℤ) → (same_int a b ≡ false) ↔ (a ≢ b)
other_int_iff a b = (
  λ h e. cc (h, (same_int_iff a b).1 e),
  λ n. elim (Bool-cases (same_int a b)) [
    | inl same ↦ absurd (n ((same_int_iff a b).0 same))
    | inr other ↦ other
  ],
)

module _ (bot_id : ℤ) (allowed : List ℤ) (m : Message) where
  passes :
      (f : Option User) (c : Option Chat)
      → m.from ≡ f
      → m.chat ≡ c
      → ((event : MessageEvent) × (from_user bot_id allowed m f c ≡ some event))
      → Passed bot_id allowed (some m)
  passes none c ef ec h = absurd (cc (h.1))
  passes (some from) none ef ec h = absurd (cc (h.1))
  passes (some from) (some chat) ef ec h =
      let tests : (is_nil m.text ≡ false)
          × (same_int from.id bot_id ≡ false)
          × (not (is_nil allowed) && not (among chat.id allowed) ≡ false) =
        (guards_iff (is_nil m.text) (same_int from.id bot_id)
            (not (is_nil allowed) && not (among chat.id allowed)) _).0
          h in
      (
        m,
        from,
        chat,
        refl,
        ef,
        ec,
        (is_nil_iff m.text).0 tests.0,
        (other_int_iff from.id bot_id).0 tests.1,
        (allowed_iff chat.id allowed).0 tests.2,
      )

  makes :
      (from : User) (chat : Chat)
      → m.text ≢ []
      → from.id ≢ bot_id
      → ((allowed ≡ []) ⊎ Mem chat.id allowed)
      → (event : MessageEvent) × (from_user bot_id allowed m (some from) (some chat) ≡ some event)
  makes from chat t b a =
      (guards_iff (is_nil m.text) (same_int from.id bot_id)
          (not (is_nil allowed) && not (among chat.id allowed)) _).1
        (
          (is_nil_iff m.text).1 t,
          (other_int_iff from.id bot_id).1 b,
          (allowed_iff chat.id allowed).1 a,
        )

incoming→Passed :
    (bot_id : ℤ) (allowed : List ℤ) (u : Update)
    → ((event : MessageEvent) × (incoming bot_id allowed u ≡ some event))
    → Passed bot_id allowed u
unfolding incoming
incoming→Passed bot_id allowed none h = absurd (cc (h.1))
incoming→Passed bot_id allowed (some m) h = passes bot_id allowed m m.from m.chat refl refl h

-- An update makes an event exactly if it passes.
pub incoming-Passed :
    (bot_id : ℤ) (allowed : List ℤ) (u : Update)
    → ((event : MessageEvent) × (incoming bot_id allowed u ≡ some event)) ↔ Passed bot_id allowed u
unfolding incoming
incoming-Passed bot_id allowed u = (
  incoming→Passed bot_id allowed u,
  λ (m, from, chat, eu, ef, ec, t, b, a).
      let (event, e) = makes bot_id allowed m from chat t b a in
      (
        event,
        ap (incoming bot_id allowed) eu
            ∙ ap (λ f. from_user bot_id allowed m f m.chat) ef
            ∙ ap (from_user bot_id allowed m (some from)) ec
            ∙ e,
      ),
)
