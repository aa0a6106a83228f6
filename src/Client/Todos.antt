-- ===== src/Client/Todos.antt =====
-- client/client.go: the calls for todo items.
pub mod Listing
use vassago_sdk.Prelude.{
  ℕ, Bool, List, [], ◌∷◌, ◌++◌, Option, none, some, if◌then◌else◌, Text, codes, is_nil, Error,
  Result, ok, err,
}
use vassago_sdk.Prelude.Int.{ℤ}
use vassago_sdk.Prelude.Effects.{Io, ◌>>=◌, labelled}
use vassago_sdk.Client.{Event}
use vassago_sdk.Client.Wire.{Pb, WireTodo, Rpc}
use vassago_sdk.Client.Exchange.{Api, exchange, answered}

pub record TodoItem : Type 0 where
  pub id : Text
  pub content : Text
  pub completed : Bool
  pub priority : ℤ
  pub source_agent : Text
  pub created_at : ℤ
  pub updated_at : ℤ
  pub completed_at : ℤ

-- `protoTodoToItem`; `none` is nil.
abbrev pub item_of : WireTodo → TodoItem
item_of t = record {
  id = t.id;
  content = t.content;
  completed = t.completed;
  priority = t.priority;
  source_agent = t.source_agent;
  created_at = t.created_at;
  updated_at = t.updated_at;
  completed_at = t.completed_at;
}

abbrev pub proto_todo_to_item : Option WireTodo → Option TodoItem
proto_todo_to_item none = none
proto_todo_to_item (some t) = some (item_of t)

abbrev pub optional_string : Text → Option Text
optional_string value = if is_nil value then none else some value

abbrev pub at_end : Error → List TodoItem → Result (List TodoItem)
at_end Error.eof todos = ok todos
at_end e todos = err (Error.wrap (codes "ListTodos stream") e)

-- The loop of `ListTodos`, with the items so far.
pub collect : Error → List WireTodo → List TodoItem → Result (List TodoItem)
collect ending [] todos = at_end ending todos
collect ending (t ∷ ts) todos = collect ending ts (todos ++ item_of t ∷ [])

module _ {pb : Pb} (api : Api pb) (conn : ℕ) where
  unfoldable pub add_todo : Text → ℤ → Text → Io Event (Option TodoItem)
  add_todo content priority source_agent =
      answered api conn (codes "AddTodo") (Rpc.add_todo content priority source_agent)
        (λ r. proto_todo_to_item (some r))

  unfoldable pub list_todos : Bool → Text → Io Event (List TodoItem)
  unfolding collect
  list_todos include_completed source_agent =
      labelled (codes "ListTodos")
        (exchange api conn (Rpc.list_todos include_completed (optional_string source_agent)))
      >>= λ stream log. (collect stream.1 stream.0 [], log)

  unfoldable pub complete_todo : Text → Io Event (Option TodoItem)
  complete_todo id =
      answered api conn (codes "CompleteTodo") (Rpc.complete_todo id)
        (λ r. proto_todo_to_item (some r))

  unfoldable pub remove_todo : Text → Io Event (Unit {0})
  remove_todo id = answered api conn (codes "RemoveTodo") (Rpc.remove_todo id) (λ r. tt)
