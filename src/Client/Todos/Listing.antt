-- ===== src/Client/Todos/Listing.antt =====
-- ListTodos of client/client.go: what it returns of the stream.
use vassago_sdk.Prelude.{
  ℕ, ◌≡◌, refl, ap, ◌∙◌, List, [], ◌∷◌, ◌++◌, map, Text, Bool, Error, ok, err, Result, codes, ◌≢◌,
  ◌⊎◌, inl, inr, append_assoc, append-nil,
}
use vassago_sdk.Client.{Event, Request}
use vassago_sdk.Client.Wire.{Pb, Rpc, WireTodo}
use vassago_sdk.Client.Exchange.{Api}
use vassago_sdk.Client.Todos.{TodoItem, item_of, at_end, collect, list_todos, optional_string}

collect_lem :
    (ending : Error) (ts : List WireTodo) (todos : List TodoItem)
    → collect ending ts todos ≡ at_end ending (todos ++ map item_of ts)
unfolding collect
collect_lem ending [] todos = rw append-nil refl
collect_lem ending (t ∷ ts) todos =
    collect_lem ending ts (todos ++ item_of t ∷ [])
    ∙ ap (at_end ending) (append_assoc todos (item_of t ∷ []) (map item_of ts))

-- What is returned of a stream that ended so, with the items `todos`.
abbrev pub Listed : Error → List TodoItem → Result (List TodoItem) → Type 0
Listed ending todos r =
    ((ending ≡ Error.eof) × (r ≡ ok todos))
    ⊎ ((ending ≢ Error.eof) × (r ≡ err (Error.wrap (codes "ListTodos stream") ending)))

at_end-Listed : (ending : Error) (todos : List TodoItem) → Listed ending todos (at_end ending todos)
at_end-Listed Error.eof todos = inl (refl, refl)
at_end-Listed (Error.status c m) todos = inr ((λ e. cc), refl)
at_end-Listed (Error.message m) todos = inr ((λ e. cc), refl)
at_end-Listed (Error.wrap l e) todos = inr ((λ h. cc), refl)
at_end-Listed (Error.wrap_with l e t) todos = inr ((λ h. cc), refl)

-- ListTodos returns all items of a stream that ends well, in their order; of a stream that breaks
-- off it returns none, only the wrapped error; and it makes one call, in which an empty agent is left out.
pub list_todos_lem :
    {pb : Pb} (api : Api pb) (conn : ℕ) (include_completed : Bool) (agent : Text) (log : List Event)
    (ts : List WireTodo) (ending : Error)
    → let q = Rpc.list_todos include_completed (optional_string agent) in
      let log' = Event.rpc conn (Request.api q) ∷ log in
      api q log' ≡ ok (ts, ending)
      → (r : Result (List TodoItem)) × (list_todos api conn include_completed agent log ≡ (r, log'))
        × Listed ending (map item_of ts) r
unfolding list_todos
list_todos_lem api conn include_completed agent log ts ending h =
    (_, rw h (rw (collect_lem ending ts []) refl), at_end-Listed ending (map item_of ts))
