-- ===== src/Client/Chat/Tests.antt =====
-- The chat theorem at a concrete stream, and a run of Chat.
use vassago_sdk.Prelude.{
  true, ◌≡◌, ◌⊎◌, ◌+◌, ◌≤◌, ◌++◌, false, length, arith, refl, List, [], ◌∷◌, map, Option, none,
  Text, codes, concat, Error, ok,
}
use vassago_sdk.Prelude.Int.{pos}
use vassago_sdk.Client.Chat.{
  EventType, text, done, StreamEvent, ChatEvent, chat, chat_stream, process_chat_event, error_event,
  forwarded,
}
use vassago_sdk.Client.Chat.Channel.{
  Pipe, Steps, start, then_step, sends, takes, fails, closes, opened, Last, channel_lem,
}
use vassago_sdk.Client.Chat.Reply.{piece, first_session, Reads, chat_lem}
use vassago_sdk.Client.Chat.Stream.{text_of, chat_stream_agrees}

abbrev said : EventType → Text → StreamEvent
said t s = record {
  event_type = t;
  text = s;
  tool_name = [];
  tool_result = [];
  session_id = codes "s1";
  tokens_used = pos 0;
  turn_number = pos 1;
}

abbrev stream : List StreamEvent
stream = said text (codes "he") ∷ said text (codes "llo") ∷ said done [] ∷ []

chat_example :
    (read : List StreamEvent) × (outcome : Option Error) × (chat (ok (stream, Error.eof))
      ≡ (concat (map piece read), first_session read, outcome))
    × Reads stream Error.eof read outcome
chat_example = chat_lem Error.eof stream

-- The texts are put together, and the session is the one named.
chat_runs : chat (ok (stream, Error.eof)) ≡ (codes "hello", codes "s1", none)
unfolding chat
chat_runs = refl

chat_stream_agrees_example :
    (out : List ChatEvent) × (chat_stream (λ e. codes "error") (ok (stream, Error.eof)) ≡ ok out)
    × (codes "hello" ≡ text_of out)
chat_stream_agrees_example =
    chat_stream_agrees (λ e. codes "error") stream Error.eof (codes "hello") (codes "s1") chat_runs

abbrev broken : Error
broken = Error.status 14 (codes "down")

abbrev shown : Error → Text
shown e = codes "error"

-- The reader has taken the only event, and that of the error waits in the closed channel.
abbrev halfway : Pipe
halfway = record {
  incoming = [];
  waiting = error_event (shown broken) ∷ [];
  taken = process_chat_event (said done []) ∷ [];
  returned = true;
  closed = true;
}

reaches_halfway : Steps shown broken (opened (said done [] ∷ [])) halfway
reaches_halfway =
    then_step
      (then_step (then_step (then_step start (sends _ _ refl refl (omega arith))) (takes _ _ refl))
        (fails refl refl (λ e. cc) (omega arith)))
      (closes refl refl)

channel_example :
    (last rest : List ChatEvent) × Last shown broken last
    × (halfway.taken ++ (halfway.waiting ++ rest)
        ≡ map process_chat_event (said done [] ∷ []) ++ last)
    × (map process_chat_event (said done [] ∷ []) ++ last
        ≡ forwarded shown (said done [] ∷ []) broken)
    × (length halfway.waiting ≤ 64)
    × ((true ≡ false)
        ⊎ ((rest ≡ [])
            × (length (map process_chat_event (said done [] ∷ []) ++ last)
                ≤ length halfway.taken + 64)))
channel_example = channel_lem shown (said done [] ∷ []) broken halfway reaches_halfway
