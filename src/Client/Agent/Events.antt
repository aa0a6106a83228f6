-- ===== src/Client/Agent/Events.antt =====
-- client/agent.go: the goroutine of `Subscribe` that forwards the events of the stream, to the
-- callback and to a channel of 50 places, and the reader of that channel.
use vassago_sdk.Prelude.{
  ℕ, ◌+◌, ◌≤◌, ◌<◌, ◌≡◌, refl, sym, ap, ◌∙◌, inl, inr, Bool, true, false, List, [], ◌∷◌, ◌++◌,
  arith, ltb, ltb→lt, lt→ltb, if◌then◌else◌, length, length-append, append_assoc, append-nil,
  Bool-cases,
}

-- What happens next: the stream yields an event, or the reader takes one from the channel.
pub data Turn (E : Type 0) : Type 0 where
  received : E → Turn E
  read : Turn E

-- `called` are the events that the callback got, `buffer` those in the channel, the oldest first,
-- and `taken` those that the reader got.
pub record Forwarder (E : Type 0) : Type 0 where
  pub called : List E
  pub buffer : List E
  pub taken : List E

abbrev pub capacity : ℕ
capacity = 50

-- `xs` is `ys` with some members left out.
pub data IsSubsequence {E : Type 0} : List E → List E → Type 0 where
  stop : IsSubsequence [] []
  keep : {xs ys : List E} (e : E) → IsSubsequence xs ys → IsSubsequence (e ∷ xs) (e ∷ ys)
  skip : {xs ys : List E} (e : E) → IsSubsequence xs ys → IsSubsequence xs (e ∷ ys)

IsSubsequence-keep :
    {E : Type 0} {xs ys : List E} (e : E)
    → IsSubsequence xs ys
    → IsSubsequence (xs ++ e ∷ []) (ys ++ e ∷ [])
IsSubsequence-keep e stop = keep e stop
IsSubsequence-keep e (keep x h) = keep x (IsSubsequence-keep e h)
IsSubsequence-keep e (skip x h) = skip x (IsSubsequence-keep e h)

IsSubsequence-drop :
    {E : Type 0} {xs ys : List E} (e : E) → IsSubsequence xs ys → IsSubsequence xs (ys ++ e ∷ [])
IsSubsequence-drop e stop = skip e stop
IsSubsequence-drop e (keep x h) = keep x (IsSubsequence-drop e h)
IsSubsequence-drop e (skip x h) = skip x (IsSubsequence-drop e h)

module _ {E : Type 0} where
  -- One round of the goroutine: the callback if it is set, then a send that never blocks.
  pub on_event : Bool → E → Forwarder E → Forwarder E
  on_event callback e f =
      let called = if callback then f.called ++ e ∷ [] else f.called in
      if ltb (length f.buffer) capacity
      then record f { called = called; buffer = f.buffer ++ e ∷ [] }
      else record f { called = called }

  abbrev take_from : List E → Forwarder E → Forwarder E
  take_from [] f = f
  take_from (e ∷ rest) f = record f { buffer = rest; taken = f.taken ++ e ∷ [] }

  unfoldable pub step : Bool → Turn E → Forwarder E → Forwarder E
  unfolding on_event
  step callback (received e) f = on_event callback e f
  step callback read f = take_from f.buffer f

  pub run : Bool → List (Turn E) → Forwarder E → Forwarder E
  unfolding step
  run callback [] f = f
  run callback (t ∷ ts) f = run callback ts (step callback t f)

  -- From the start of a subscription.
  abbrev pub forward : Bool → List (Turn E) → Forwarder E
  forward callback ts = run callback ts (record { called = []; buffer = []; taken = [] })

  -- The events of the stream.
  abbrev pub arrivals : List (Turn E) → List E
  arrivals [] = []
  arrivals (received e ∷ ts) = e ∷ arrivals ts
  arrivals (read ∷ ts) = arrivals ts

  -- What the reader got, and will still get.
  abbrev pub kept : Forwarder E → List E
  kept f = f.taken ++ f.buffer

  take_from-kept : (bs : List E) (f : Forwarder E) → f.buffer ≡ bs → kept (take_from bs f) ≡ kept f
  take_from-kept [] f h = refl
  take_from-kept (e ∷ rest) f h = append_assoc f.taken (e ∷ []) rest ∙ ap (◌++◌ f.taken) (sym h)

  take_from-length :
      (bs : List E) (f : Forwarder E)
      → f.buffer ≡ bs
      → length (take_from bs f).buffer ≤ length f.buffer
  take_from-length [] f h = omega arith
  take_from-length (e ∷ rest) f h = omega (arith, ap length h)

  take_from-called : (bs : List E) (f : Forwarder E) → (take_from bs f).called ≡ f.called
  take_from-called [] f = refl
  take_from-called (e ∷ rest) f = refl

  on_event-called : (e : E) (f : Forwarder E) → (on_event true e f).called ≡ f.called ++ e ∷ []
  unfolding on_event
  on_event-called e f = ground arith

  on_event-length :
      (callback : Bool) (e : E) (f : Forwarder E)
      → length f.buffer ≤ capacity
      → length (on_event callback e f).buffer ≤ capacity
  unfolding on_event
  on_event-length callback e f h = ground (arith, length-append f.buffer (e ∷ []))

  -- With room in the channel the event goes there.
  on_event_room :
      (callback : Bool) (e : E) (f : Forwarder E)
      → length f.buffer < capacity
      → ((on_event callback e f).buffer ≡ f.buffer ++ e ∷ [])
        × (kept (on_event callback e f) ≡ kept f ++ e ∷ [])
  unfolding on_event
  on_event_room callback e f h =
      rw (lt→ltb (length f.buffer) capacity h) (refl, sym (append_assoc f.taken f.buffer (e ∷ [])))

  on_event_full :
      (callback : Bool) (e : E) (f : Forwarder E)
      → ltb (length f.buffer) capacity ≡ false
      → kept (on_event callback e f) ≡ kept f
  unfolding on_event
  on_event_full callback e f h = rw h refl

  on_event-kept :
      (callback : Bool) (e : E) (f : Forwarder E) (before : List E)
      → IsSubsequence (kept f) before
      → IsSubsequence (kept (on_event callback e f)) (before ++ e ∷ [])
  on_event-kept callback e f before h = elim (Bool-cases (ltb (length f.buffer) capacity)) [
    | inl room ↦ rw ((on_event_room callback e f (ltb→lt _ _ room)).1) (IsSubsequence-keep e h)
    | inr full ↦ rw (on_event_full callback e f full) (IsSubsequence-drop e h)
  ]

  run-called :
      (ts : List (Turn E)) (f : Forwarder E) → (run true ts f).called ≡ f.called ++ arrivals ts
  unfolding run
  run-called [] f = sym (append-nil f.called)
  run-called (received e ∷ ts) f =
      run-called ts (on_event true e f)
      ∙ ap (λ c. c ++ arrivals ts) (on_event-called e f)
      ∙ append_assoc f.called (e ∷ []) (arrivals ts)
  run-called (read ∷ ts) f =
      run-called ts (take_from f.buffer f)
      ∙ ap (λ c. c ++ arrivals ts) (take_from-called f.buffer f)

  run-length :
      (callback : Bool) (ts : List (Turn E)) (f : Forwarder E)
      → length f.buffer ≤ capacity
      → length (run callback ts f).buffer ≤ capacity
  unfolding run
  run-length callback [] f h = h
  run-length callback (received e ∷ ts) f h =
      run-length callback ts (on_event callback e f) (on_event-length callback e f h)
  run-length callback (read ∷ ts) f h =
      run-length callback ts (take_from f.buffer f)
        (omega (arith, h, take_from-length f.buffer f refl))

  run-kept :
      (callback : Bool) (ts : List (Turn E)) (f : Forwarder E) (before : List E)
      → IsSubsequence (kept f) before
      → IsSubsequence (kept (run callback ts f)) (before ++ arrivals ts)
  unfolding run
  run-kept callback [] f before h = rw append-nil h
  run-kept callback (received e ∷ ts) f before h =
      rw (append_assoc before (e ∷ []) (arrivals ts)) at (
        run-kept callback ts (on_event callback e f) (before ++ e ∷ [])
          (on_event-kept callback e f before h))
  run-kept callback (read ∷ ts) f before h =
      run-kept callback ts (take_from f.buffer f) before (rw (take_from-kept f.buffer f refl) h)

  run_all :
      (callback : Bool) (ts : List (Turn E)) (f : Forwarder E)
      → length f.buffer + length (arrivals ts) ≤ capacity
      → kept (run callback ts f) ≡ kept f ++ arrivals ts
  unfolding run
  run_all callback [] f h = sym (append-nil (kept f))
  run_all callback (received e ∷ ts) f h =
      let room = on_event_room callback e f (omega (arith, h)) in
      run_all callback ts (on_event callback e f)
        (omega (arith, h, ap length room.0, length-append f.buffer (e ∷ [])))
      ∙ ap (λ k. k ++ arrivals ts) room.1
      ∙ append_assoc (kept f) (e ∷ []) (arrivals ts)
  run_all callback (read ∷ ts) f h =
      run_all callback ts (take_from f.buffer f)
        (omega (arith, h, take_from-length f.buffer f refl))
      ∙ ap (λ k. k ++ arrivals ts) (take_from-kept f.buffer f refl)

  -- However the stream and the reader take turns: the callback, if it is set, gets every event of the
  -- stream, in order; at most 50 events wait in the channel; and what the reader has taken or will
  -- take from it is a subsequence of the events: in order, none twice, with some dropped perhaps.
  pub forward_lem :
      (ts : List (Turn E))
      → ((forward true ts).called ≡ arrivals ts)
        × ((callback : Bool) → length (forward callback ts).buffer ≤ 50)
        × ((callback : Bool) → IsSubsequence (kept (forward callback ts)) (arrivals ts))
  forward_lem ts = (
    run-called ts _,
    (λ callback. run-length callback ts _ (omega arith)),
    λ callback. run-kept callback ts _ [] stop,
  )

  -- A stream of at most 50 events loses none, however late the reader is.
  forward_all :
      (callback : Bool) (ts : List (Turn E))
      → length (arrivals ts) ≤ 50
      → kept (forward callback ts) ≡ arrivals ts
  forward_all callback ts h = run_all callback ts _ (omega (arith, h))
