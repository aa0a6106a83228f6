-- ===== src/Client/Mnemo/Tests.antt =====
-- The theorems about the methods of both clients, at concrete daemons.
use vassago_sdk.Prelude.{
  ℕ, ◌≡◌, ◌⊎◌, refl, true, false, List, [], ◌∷◌, none, some, Error, Result, ok, err, codes, map,
  Text, text_eq,
}
use vassago_sdk.Prelude.Int.{ℤ, pos, negsuc, ◌≤ℤ◌}
use vassago_sdk.Client.{Daemon, Event, Request}
use vassago_sdk.Client.Wire.{Pb, WireTodo, Rpc}
use vassago_sdk.Client.Exchange.{Api}
use vassago_sdk.Client.Todos.{TodoItem, list_todos, item_of}
use vassago_sdk.Client.Todos.Listing.{Listed, list_todos_lem}
use vassago_sdk.Client.Tools.{Value, lookup, update_request}
use vassago_sdk.Client.Tools.Updates.{SameLow, update_request-priority}
use vassago_sdk.Client.Mnemo.Calls.{Call, invoke}
use vassago_sdk.Client.Mnemo.Connected.{client}
use vassago_sdk.Client.Mnemo.Failing.{Down, Fails, invoke-Fails}

-- Messages that are numbers.
abbrev numbers : Pb
numbers = record { Update = ℕ; Skill = ℕ; Tool = ℕ; Incoming = ℕ }

abbrev lost : Error
lost = Error.status 14 (codes "down")

abbrev gone : {A : Type 0} → Result A
gone = err lost

abbrev no_daemon : Daemon ℕ
no_daemon = record {
  load_cert = λ _. none;
  new_client = λ _. gone;
  close = λ _. none;
  wait = λ _. none;
  add_memory = λ _. gone;
  get_memory = λ _. gone;
  remove_memory = λ _. gone;
  search = λ _. gone;
  list_memories = λ _. gone;
  get_hot_block = λ _. gone;
  create_session = λ _. gone;
}

abbrev no_api : Api numbers
no_api q log = gone

abbrev all_down : Down {pb = numbers} no_daemon no_api lost
all_down = record {
  api_fails = λ q log. refl;
  add_memory_fails = λ log. refl;
  get_memory_fails = λ log. refl;
  remove_memory_fails = λ log. refl;
  search_fails = λ log. refl;
  list_memories_fails = λ log. refl;
  get_hot_block_fails = λ log. refl;
  create_session_fails = λ log. refl;
}

invoke-Fails_example :
    Fails 7 lost []
      (invoke (client no_daemon no_api 7) (Call.claim_task (codes "t1") (codes "a1")) [])
invoke-Fails_example =
    invoke-Fails no_daemon no_api 7 lost all_down (Call.claim_task (codes "t1") (codes "a1")) []

abbrev milk : WireTodo
milk = record {
  id = codes "1";
  content = codes "milk";
  completed = false;
  priority = pos 2;
  source_agent = [];
  created_at = pos 1;
  updated_at = pos 1;
  completed_at = pos 0;
}

-- A daemon that holds two items and knows no other call.
abbrev shopping : Api numbers
shopping (Rpc.list_todos _ _) log = ok (milk ∷ record milk { id = codes "2" } ∷ [], Error.eof)
shopping _ log = gone

list_todos_example :
    (r : Result (List TodoItem)) × (list_todos shopping 7 true [] []
      ≡ (r, Event.rpc 7 (Request.api (Rpc.list_todos true none)) ∷ []))
    × Listed Error.eof (map item_of (milk ∷ record milk { id = codes "2" } ∷ [])) r
list_todos_example =
    list_todos_lem shopping 7 true [] [] (milk ∷ record milk { id = codes "2" } ∷ []) Error.eof refl

-- One more than the largest number of 32 bits.
abbrev urgent : List (Text × Value)
urgent = (codes "priority", Value.int (pos 2147483648)) ∷ []

update_request-priority_example :
    (p : ℤ) × ((update_request (codes "t") urgent).priority ≡ some p)
    × (negsuc 2147483647 ≤ℤ p)
    × (p ≤ℤ pos 2147483647)
    × SameLow p (pos 2147483648)
    × ((p ≡ pos 2147483648)
        ⊎ ((pos 2147483648 ≤ℤ negsuc 2147483648) ⊎ (pos 2147483648 ≤ℤ pos 2147483648)))
unfolding lookup text_eq
update_request-priority_example = update_request-priority (codes "t") urgent (pos 2147483648) refl
