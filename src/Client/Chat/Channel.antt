-- ===== src/Client/Chat/Channel.antt =====
-- The channel of ChatStream of client/chat_client.go, between its goroutine and its reader.
use vassago_sdk.Prelude.{
  ℕ, ◌+◌, ◌≤◌, ◌<◌, ◌≡◌, ◌≢◌, ◌⊎◌, inl, inr, Bool-cases, refl, sym, ap, ◌∙◌, Bool, true, false,
  List, [], ◌∷◌, ◌++◌, map, length, arith, Text, codes, Error, append_assoc, append-nil,
}
use vassago_sdk.Prelude.Int.{pos}
use vassago_sdk.Client.Chat.{
  ChatEvent, StreamEvent, process_chat_event, error_event, last_events, forwarded,
}

-- The capacity of the channel.
abbrev pub capacity : ℕ
capacity = 64

-- What `Recv` has yet to return, before the error that ends the stream; what waits in the channel;
-- what the reader took; whether the loop of the goroutine has returned, and whether the channel is
-- closed, which the goroutine defers to its end.
pub record Pipe : Type 0 where
  pub incoming : List StreamEvent
  pub waiting : List ChatEvent
  pub taken : List ChatEvent
  pub returned : Bool
  pub closed : Bool

abbrev pub opened : List StreamEvent → Pipe
opened stream = record {
  incoming = stream;
  waiting = [];
  taken = [];
  returned = false;
  closed = false;
}

-- One turn of the goroutine or of the reader, by the error that ends the stream; `show` is the text
-- of an error. A send waits until the channel has room.
pub data Step (show : Error → Text) (ending : Error) (p : Pipe) : Pipe → Type 0 where
  sends :
      (event : StreamEvent) (events : List StreamEvent)
      → p.incoming ≡ event ∷ events
      → p.returned ≡ false
      → length p.waiting < capacity
      → Step show ending p
          (record p { incoming = events; waiting = p.waiting ++ process_chat_event event ∷ [] })
  ends :
      p.incoming ≡ []
      → p.returned ≡ false
      → ending ≡ Error.eof
      → Step show ending p (record p { returned = true })
  fails :
      p.incoming ≡ []
      → p.returned ≡ false
      → ending ≢ Error.eof
      → length p.waiting < capacity
      → Step show ending p
          (record p { waiting = p.waiting ++ error_event (show ending) ∷ []; returned = true })
  closes : p.returned ≡ true → p.closed ≡ false → Step show ending p (record p { closed = true })
  takes :
      (e : ChatEvent) (es : List ChatEvent)
      → p.waiting ≡ e ∷ es
      → Step show ending p (record p { waiting = es; taken = p.taken ++ e ∷ [] })

pub data Steps (show : Error → Text) (ending : Error) (p : Pipe) : Pipe → Type 0 where
  start : Steps show ending p p
  then_step : {q r : Pipe} → Steps show ending p q → Step show ending q r → Steps show ending p r

-- What comes on the channel behind the events of the stream: nothing behind the end of file, and
-- behind any other error one event that carries its text.
abbrev pub Last : (Error → Text) → Error → List ChatEvent → Type 0
Last show ending last =
    ((ending ≡ Error.eof) × (last ≡ []))
    ⊎ ((ending ≢ Error.eof)
        × (last
            ≡ record {
              event_type = codes "error";
              text = show ending;
              tool_name = [];
              tool_result = [];
              session_id = [];
              tokens_used = pos 0;
              turn_number = pos 0;
            }
              ∷ []))

last_events-Last :
    (show : Error → Text) (ending : Error) → Last show ending (last_events show ending)
last_events-Last show Error.eof = inl (refl, refl)
last_events-Last show (Error.status c m) = inr ((λ e. cc), refl)
last_events-Last show (Error.message m) = inr ((λ e. cc), refl)
last_events-Last show (Error.wrap l e) = inr ((λ h. cc), refl)
last_events-Last show (Error.wrap_with l e t) = inr ((λ h. cc), refl)

forwarded_parts :
    (show : Error → Text) (stream : List StreamEvent) (ending : Error)
    → forwarded show stream ending ≡ map process_chat_event stream ++ last_events show ending
unfolding forwarded
forwarded_parts show [] ending = refl
forwarded_parts show (event ∷ events) ending =
    ap (◌∷◌ (process_chat_event event)) (forwarded_parts show events ending)

Last-eof :
    (show : Error → Text) (ending : Error) (last : List ChatEvent)
    → Last show ending last
    → ending ≡ Error.eof
    → last ≡ []
Last-eof show ending last (inl (eof, is)) h = is
Last-eof show ending last (inr (unlike, is)) h = absurd (unlike h)

Last-error :
    (show : Error → Text) (ending : Error) (last : List ChatEvent)
    → Last show ending last
    → ending ≢ Error.eof
    → last ≡ error_event (show ending) ∷ []
Last-error show ending last (inl (eof, is)) h = absurd (h eof)
Last-error show ending last (inr (unlike, is)) h = is

length-append : (xs ys : List ChatEvent) → length (xs ++ ys) ≡ length xs + length ys
length-append [] ys = omega arith
length-append (x ∷ xs) ys = omega (arith, length-append xs ys)

module _ (show : Error → Text) (ending : Error) (last : List ChatEvent)
    (is_last : Last show ending last) (events : List ChatEvent) where
  -- What the goroutine has yet to send.
  abbrev pending : Bool → List StreamEvent → List ChatEvent
  pending true incoming = []
  pending false incoming = map process_chat_event incoming ++ last

  -- Nothing is lost or put in another order, and the goroutine ends when it has sent all.
  record Ordered (p : Pipe) : Type 0 where
    all : p.taken ++ (p.waiting ++ pending p.returned p.incoming) ≡ events
    few : length p.waiting ≤ 64
    over : p.closed ≡ true → p.returned ≡ true

  sent :
      (p : Pipe) (e : ChatEvent) (rest : List ChatEvent)
      → Ordered p
      → pending p.returned p.incoming ≡ e ∷ rest
      → p.taken ++ ((p.waiting ++ e ∷ []) ++ rest) ≡ events
  sent p e rest v h =
      ap (λ xs. p.taken ++ xs)
        (append_assoc p.waiting (e ∷ []) rest ∙ ap (λ xs. p.waiting ++ xs) (sym h))
      ∙ v.all

  Step-Ordered : (p q : Pipe) → Ordered p → Step show ending p q → Ordered q
  Step-Ordered p q v (sends event stream h running room) = record {
    all = rw running (
        sent p (process_chat_event event) (map process_chat_event stream ++ last) v
          (rw (running, h) refl));
    few = omega (arith, room, length-append p.waiting (process_chat_event event ∷ []));
    over = v.over;
  }
  Step-Ordered p q v (ends h running eof) = record {
    all =
        ap (λ xs. p.taken ++ (p.waiting ++ xs))
          (sym (rw (running, h) (Last-eof show ending last is_last eof)))
        ∙ v.all;
    few = v.few;
    over = λ c. refl;
  }
  Step-Ordered p q v (fails h running unlike room) = record {
    all =
        sent p (error_event (show ending)) [] v
          (rw (running, h) (Last-error show ending last is_last unlike));
    few = omega (arith, room, length-append p.waiting (error_event (show ending) ∷ []));
    over = λ c. refl;
  }
  Step-Ordered p q v (closes h c) = record { all = v.all; few = v.few; over = λ _. h }
  Step-Ordered p q v (takes e es h) = record {
    all =
        append_assoc p.taken (e ∷ []) (es ++ pending p.returned p.incoming)
        ∙ ap (λ xs. p.taken ++ (xs ++ pending p.returned p.incoming)) (sym h)
        ∙ v.all;
    few = omega (arith, v.few, ap length h);
    over = v.over;
  }

  Steps-Ordered : (p q : Pipe) → Ordered p → Steps show ending p q → Ordered q
  Steps-Ordered p q v start = v
  Steps-Ordered p q v (then_step {q = m} run s) = Step-Ordered m q (Steps-Ordered p m v run) s

-- However the goroutine of `ChatStream` and its reader interleave, what the reader has taken, what
-- waits in the channel and some rest are together the events of the stream, each as
-- `processChatEvent` has it, and behind them, only if the stream did not end with the end of file,
-- one event that carries the error: the events that `forwarded` has. At most 64 events wait. Once the channel is closed there is no
-- rest, and the reader has taken all but at most 64: so the goroutine of a longer stream does not
-- end while its reader takes fewer.
pub channel_lem :
    (show : Error → Text) (stream : List StreamEvent) (ending : Error) (p : Pipe)
    → Steps show ending (opened stream) p
    → (last rest : List ChatEvent) × Last show ending last
      × (p.taken ++ (p.waiting ++ rest) ≡ map process_chat_event stream ++ last)
      × (map process_chat_event stream ++ last ≡ forwarded show stream ending)
      × (length p.waiting ≤ 64)
      × ((p.closed ≡ false)
          ⊎ ((rest ≡ []) × (length (map process_chat_event stream ++ last) ≤ length p.taken + 64)))
channel_lem show stream ending p run =
    let last = last_events show ending in
    let is_last = last_events-Last show ending in
    let events = map process_chat_event stream ++ last in
    let v : Ordered show ending last is_last events p =
      Steps-Ordered show ending last is_last events (opened stream) p
        (record { all = refl; few = omega arith; over = λ c. cc c }) run in
    (
      last,
      pending show ending last is_last events p.returned p.incoming,
      is_last,
      v.all,
      sym (forwarded_parts show stream ending),
      v.few,
      elim (Bool-cases p.closed) [
        | inr live ↦ inl live
        | inl done ↦
            let none_left : pending show ending last is_last events p.returned p.incoming ≡ [] =
              rw (v.over done) refl in
            let whole : p.taken ++ p.waiting ≡ events =
              ap (λ xs. p.taken ++ xs)
                (sym (append-nil p.waiting) ∙ ap (◌++◌ p.waiting) (sym none_left))
              ∙ v.all in
            inr (none_left, omega (arith, v.few, length-append p.taken p.waiting, ap length whole))
      ],
    )
