-- ===== src/Client/Chat/Reply.antt =====
-- What Chat of client/chat_client.go returns, and how it agrees with the events of ChatStream.
use vassago_sdk.Prelude.{
  ℕ, Bool-cases, ◌≡◌, ◌≢◌, ◌⊎◌, refl, sym, ap, ◌∙◌, inl, inr, List, [], ◌∷◌, ◌++◌, map, Option,
  none, some, Text, codes, is_nil, All, concat, Error, ok, append_assoc, append-nil,
}
use vassago_sdk.Client.Chat.{
  EventType, text, error, tool_start, tool_result, done, thinking, usage, other, StreamEvent,
  at_end, next_session, chat_loop, chat,
}

-- The part of the answer in one event.
abbrev pub piece : StreamEvent → Text
piece event = elim event.event_type [ text ↦ event.text | _ ↦ [] ]

-- The first session that is named.
abbrev pub first_session : List StreamEvent → Text
first_session [] = []
first_session (event ∷ events) = elim event.session_id [
  | [] ↦ first_session events
  | c ∷ cs ↦ c ∷ cs
]

-- What is said of the error that ended the stream: nothing of the end of file, and any other error
-- is wrapped.
abbrev pub StreamEnd : Error → Option Error → Type 0
StreamEnd ending outcome =
    ((ending ≡ Error.eof) × (outcome ≡ none))
    ⊎ ((ending ≢ Error.eof) × (outcome ≡ some (Error.wrap (codes "chat stream recv") ending)))

at_end-StreamEnd : (ending : Error) → StreamEnd ending (at_end ending)
at_end-StreamEnd Error.eof = inl (refl, refl)
at_end-StreamEnd (Error.status c m) = inr ((λ e. cc), refl)
at_end-StreamEnd (Error.message m) = inr ((λ e. cc), refl)
at_end-StreamEnd (Error.wrap l e) = inr ((λ h. cc), refl)
at_end-StreamEnd (Error.wrap_with l e t) = inr ((λ h. cc), refl)

-- The events read, and the outcome: the stream's end behind events without an error, or the
-- first error event.
abbrev pub Reads : List StreamEvent → Error → List StreamEvent → Option Error → Type 0
Reads events ending read outcome =
    ((read ≡ events) × All (λ e. e.event_type ≢ error) events × StreamEnd ending outcome)
    ⊎ ((before after : List StreamEvent) × (e : StreamEvent) × (events ≡ before ++ e ∷ after)
        × All (λ b. b.event_type ≢ error) before
        × (e.event_type ≡ error)
        × (read ≡ before ++ e ∷ [])
        × (outcome ≡ some (Error.message (codes "agent error: " ++ e.text))))

-- The session that is known, or else the first one named.
abbrev or_first : Text → List StreamEvent → Text
or_first [] events = first_session events
or_first (c ∷ cs) events = c ∷ cs

error-cases : (t : EventType) → (t ≡ error) ⊎ (t ≢ error)
error-cases error = inl refl
error-cases text = inr (λ e. cc)
error-cases tool_start = inr (λ e. cc)
error-cases tool_result = inr (λ e. cc)
error-cases done = inr (λ e. cc)
error-cases thinking = inr (λ e. cc)
error-cases usage = inr (λ e. cc)
error-cases (other n) = inr (λ e. cc)

module _ (ending : Error) (event : StreamEvent) (events : List StreamEvent)
    (response session : Text) where
  -- An event that is no error adds its piece.
  chat_loop_on :
      (t : EventType)
      → event.event_type ≡ t
      → t ≢ error
      → chat_loop ending (event ∷ events) response session
        ≡ chat_loop ending events (response ++ piece event) (next_session event session)
  unfolding chat_loop
  chat_loop_on error e n = absurd (n refl)
  chat_loop_on text e n = rw (e, chat_loop) refl
  chat_loop_on tool_start e n = rw (e, chat_loop, append-nil) refl
  chat_loop_on tool_result e n = rw (e, chat_loop, append-nil) refl
  chat_loop_on done e n = rw (e, chat_loop, append-nil) refl
  chat_loop_on thinking e n = rw (e, chat_loop, append-nil) refl
  chat_loop_on usage e n = rw (e, chat_loop, append-nil) refl
  chat_loop_on (other k) e n = rw (e, chat_loop, append-nil) refl

  chat_loop_stops :
      event.event_type ≡ error
      → chat_loop ending (event ∷ events) response session ≡ (
        response,
        next_session event session,
        some (Error.message (codes "agent error: " ++ event.text)),
      )
  unfolding chat_loop
  chat_loop_stops e = rw (e, chat_loop) refl

or_first-nil : (session : Text) → or_first session [] ≡ session
or_first-nil [] = refl
or_first-nil (c ∷ cs) = refl

next_named : (event : StreamEvent) (c : ℕ) (cs : Text) → next_session event (c ∷ cs) ≡ c ∷ cs
next_named event c cs = elim (Bool-cases (is_nil event.session_id)) [
  | inl e ↦ rw e refl
  | inr e ↦ rw e refl
]

triple :
    (a a' b b' : Text) (c : Option Error)
    → a ≡ a'
    → b ≡ b'
    → ◌≡◌ {A = Text × Text × Option Error} (a, b, c) (a', b', c)
triple a a' b b' c e e' = rw (e, e') refl

or_first-next :
    (event : StreamEvent) (session : Text) (read : List StreamEvent)
    → or_first (next_session event session) read ≡ or_first session (event ∷ read)
or_first-next event [] read = by_id event.session_id refl
  where
    by_id :
        (s : Text)
        → event.session_id ≡ s
        → or_first (next_session event []) read ≡ or_first [] (event ∷ read)
    by_id [] e = rw e refl
    by_id (d ∷ ds) e = rw e refl
or_first-next event (c ∷ cs) read = rw (next_named event c cs) refl

piece-error : (event : StreamEvent) → event.event_type ≡ error → piece event ≡ []
piece-error event e = rw (e, piece) refl

-- One more event in front that is no error.
Reads-cons :
    (event : StreamEvent) (events read : List StreamEvent) (ending : Error) (outcome : Option Error)
    → event.event_type ≢ error
    → Reads events ending read outcome
    → Reads (event ∷ events) ending (event ∷ read) outcome
Reads-cons event events read ending outcome n (inl (e, all, end)) =
    inl (ap (◌∷◌ event) e, (n, all), end)
Reads-cons event events read ending outcome n
      (inr (before, after, e, split, all, is_error, reads, end)) =
    inr (
      event ∷ before,
      after,
      e,
      ap (◌∷◌ event) split,
      (n, all),
      is_error,
      ap (◌∷◌ event) reads,
      end,
    )

chat_loop_lem :
    (ending : Error) (events : List StreamEvent) (response session : Text)
    → (read : List StreamEvent) × (outcome : Option Error) × (chat_loop ending events response
          session
        ≡ (response ++ concat (map piece read), or_first session read, outcome))
      × Reads events ending read outcome
unfolding chat_loop
chat_loop_lem ending [] response session = (
  [],
  at_end ending,
  rw (append-nil, or_first-nil session) refl,
  inl (refl, tt, at_end-StreamEnd ending),
)
chat_loop_lem ending (event ∷ events) response session = elim (error-cases event.event_type) [
  | inl is_error ↦ (
    event ∷ [],
    _,
    chat_loop_stops ending event events response session is_error
        ∙ triple response (response ++ (piece event ++ [])) (next_session event session)
            (or_first session (event ∷ [])) _ (rw (piece-error event is_error, append-nil) refl)
            (sym (or_first-nil (next_session event session)) ∙ or_first-next event session []),
    inr ([], events, event, refl, tt, is_error, refl, refl),
  )
  | inr n ↦
      let (read, outcome, e, reads) =
        chat_loop_lem ending events (response ++ piece event) (next_session event session) in
      (
        event ∷ read,
        outcome,
        chat_loop_on ending event events response session event.event_type refl n
            ∙ e
            ∙ triple ((response ++ piece event) ++ concat (map piece read))
                (response ++ (piece event ++ concat (map piece read)))
                (or_first (next_session event session) read) (or_first session (event ∷ read))
                outcome (append_assoc response (piece event) (concat (map piece read)))
                (or_first-next event session read),
        Reads-cons event events read ending outcome n reads,
      )
]

-- `Chat` on a stream: it reads the events up to the first error event, which it includes, or all;
-- it returns their text pieces put together and the first session that one of them names; and its
-- error is the agent's, or the one that ended the stream, wrapped, if that is not the end of file.
pub chat_lem :
    (ending : Error) (events : List StreamEvent)
    → (read : List StreamEvent) × (outcome : Option Error) × (chat (ok (events, ending))
        ≡ (concat (map piece read), first_session read, outcome))
      × Reads events ending read outcome
unfolding chat
chat_lem ending events = chat_loop_lem ending events [] []
