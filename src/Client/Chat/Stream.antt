-- ===== src/Client/Chat/Stream.antt =====
-- How Chat of client/chat_client.go agrees with the events of ChatStream.
use vassago_sdk.Prelude.{
  ◌≡◌, refl, sym, ap, ◌∙◌, inl, inr, List, [], ◌∷◌, ◌++◌, map, Option, none, Text, codes, text_eq,
  keep_if, concat, Error, ok,
}
use vassago_sdk.Client.Chat.{
  EventType, text, error, tool_start, tool_result, done, thinking, usage, other, StreamEvent,
  ChatEvent, chat, process_chat_event, forwarded, chat_stream,
}
use vassago_sdk.Client.Chat.Reply.{StreamEnd, piece, first_session, chat_lem}

-- The texts of the text events, put together.
abbrev pub text_of : List ChatEvent → Text
text_of out = concat (map (λ e. e.text) (keep_if (λ e. text_eq e.event_type (codes "text")) out))

text_of-cons :
    (event : StreamEvent) (rest : List ChatEvent) (t : EventType)
    → event.event_type ≡ t
    → text_of (process_chat_event event ∷ rest) ≡ piece event ++ text_of rest
unfolding process_chat_event text_eq
text_of-cons event rest text e = rw (e, keep_if) refl
text_of-cons event rest error e = rw (e, keep_if) refl
text_of-cons event rest tool_start e = rw (e, keep_if) refl
text_of-cons event rest tool_result e = rw (e, keep_if) refl
text_of-cons event rest done e = rw (e, keep_if) refl
text_of-cons event rest thinking e = rw (e, keep_if) refl
text_of-cons event rest usage e = rw (e, keep_if) refl
text_of-cons event rest (other n) e = rw (e, keep_if) refl

text_of-forwarded :
    (show : Error → Text) (events : List StreamEvent)
    → text_of (forwarded show events Error.eof) ≡ concat (map piece events)
unfolding forwarded
text_of-forwarded show [] = refl
text_of-forwarded show (event ∷ events) =
    text_of-cons event (forwarded show events Error.eof) event.event_type refl
    ∙ ap (◌++◌ (piece event)) (text_of-forwarded show events)

silent_end :
    (ending : Error) (outcome : Option Error)
    → StreamEnd ending outcome
    → outcome ≡ none
    → ending ≡ Error.eof
silent_end ending outcome (inl (eof, is)) h = eof
silent_end ending outcome (inr (unlike, is)) h = cc

-- Where `Chat` ends without an error, its text is that of the text events of `ChatStream` on the
-- same stream, put together in their order.
pub chat_stream_agrees :
    (show : Error → Text) (events : List StreamEvent) (ending : Error) (response session : Text)
    → chat (ok (events, ending)) ≡ (response, session, none)
    → (out : List ChatEvent) × (chat_stream show (ok (events, ending)) ≡ ok out)
      × (response ≡ text_of out)
unfolding chat_stream
chat_stream_agrees show events ending response session h =
    let (read, outcome, e, reads) = chat_lem ending events in
    let same : ◌≡◌ {A = Text × Text × Option Error} (response, session, none)
        (concat (map piece read), first_session read, outcome) =
      sym h ∙ e in
    let response_is : response ≡ concat (map piece read) = ap (λ r. r.0) same in
    let silent : outcome ≡ none = sym (ap (λ r. r.2) same) in
    elim reads [
      | inr (before, after, event, split, all, is_error, read_is, stops) ↦ cc (silent, stops)
      | inl (whole, all, ends) ↦
          let eof : ending ≡ Error.eof = silent_end ending outcome ends silent in
          let text_is : concat (map piece read) ≡ text_of (forwarded show events ending) =
            rw (whole, eof) (sym (text_of-forwarded show events)) in
          (forwarded show events ending, refl, response_is ∙ text_is)
    ]
