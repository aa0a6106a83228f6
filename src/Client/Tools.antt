-- ===== src/Client/Tools.antt =====
-- client/client.go: the calls for saved tools.
pub mod Updates
use vassago_sdk.Prelude.{
  ℕ, ◌-◌, ◌%◌, ◌^◌, Bool, true, false, List, [], ◌∷◌, Option, none, some, ltb, if◌then◌else◌, Text,
  codes, text_eq,
}
use vassago_sdk.Prelude.Int.{ℤ, pos, negsuc}
use vassago_sdk.Prelude.Effects.{Io}
use vassago_sdk.Client.{Event}
use vassago_sdk.Client.Wire.{Pb, UpdateSavedToolRequest, Rpc}
use vassago_sdk.Client.Exchange.{Api, answered}

-- A value of type `interface{}`; `other` is every type that the source does not ask for.
pub data Value : Type 0 where
  string : Text → Value
  strings : List Text → Value
  int : ℤ → Value
  bool : Bool → Value
  other : Value

-- `updates[key]`; a missing key gives nil, which has no type.
unfoldable pub lookup : Text → List (Text × Value) → Option Value
lookup key [] = none
lookup key ((k, v) ∷ updates) = elim (text_eq k key) [ true ↦ some v | false ↦ lookup key updates ]

abbrev pub as_string : Option Value → Option Text
as_string (some (string t)) = some t
as_string _ = none

abbrev pub as_strings : Option Value → List Text
as_strings (some (strings ts)) = ts
as_strings _ = []

abbrev pub as_bool : Option Value → Option Bool
as_bool (some (bool b)) = some b
as_bool _ = none

-- The number that a pattern of 32 bits stands for.
abbrev pub signed32 : ℕ → ℤ
signed32 w = if ltb w (2 ^ 31) then pos w else negsuc (2 ^ 32 - w - 1)

-- `int32(v)` keeps the low 32 bits of `v`.
unfoldable pub to_int32 : ℤ → ℤ
to_int32 (pos n) = signed32 (n % 2 ^ 32)
to_int32 (negsuc n) = signed32 (2 ^ 32 - 1 - n % 2 ^ 32)

abbrev pub as_int32 : Option Value → Option ℤ
as_int32 (some (int v)) = some (to_int32 v)
as_int32 _ = none

-- The request of `UpdateSavedTool`.
unfoldable pub update_request : Text → List (Text × Value) → UpdateSavedToolRequest
update_request id updates = record {
  id = id;
  name = as_string (lookup (codes "name") updates);
  description = as_string (lookup (codes "description") updates);
  parameters = as_string (lookup (codes "parameters") updates);
  script = as_string (lookup (codes "script") updates);
  category = as_string (lookup (codes "category") updates);
  triggers = as_strings (lookup (codes "triggers") updates);
  priority = as_int32 (lookup (codes "priority") updates);
  requires_approval_every_call = as_bool (lookup (codes "requires_approval_every_call") updates);
}

module _ {pb : Pb} (api : Api pb) (conn : ℕ) where
  unfoldable pub add_saved_tool :
      Text → Text → Text → Text → Text → Text → List Text → Text → ℤ → Io Event pb.Tool
  add_saved_tool name description tool_type parameters script category triggers author priority =
      answered api conn (codes "AddSavedTool")
        (Rpc.add_saved_tool name description tool_type parameters script category triggers author
          (some priority))
        (λ r. r)

  unfoldable pub get_saved_tool : Text → Io Event pb.Tool
  get_saved_tool id = answered api conn (codes "GetSavedTool") (Rpc.get_saved_tool id) (λ r. r)

  unfoldable pub list_saved_tools : Text → Text → ℤ → Io Event (List pb.Tool)
  list_saved_tools category author limit =
      answered api conn (codes "ListSavedTools") (Rpc.list_saved_tools category author (some limit))
        (λ r. r)

  unfoldable pub search_saved_tools : Text → Text → ℤ → Io Event (List pb.Tool)
  search_saved_tools query category limit =
      answered api conn (codes "SearchSavedTools")
        (Rpc.search_saved_tools query category (some limit)) (λ r. r)

  unfoldable pub update_saved_tool : Text → List (Text × Value) → Io Event pb.Tool
  update_saved_tool id updates =
      answered api conn (codes "UpdateSavedTool")
        (Rpc.update_saved_tool (update_request id updates)) (λ r. r)

  unfoldable pub remove_saved_tool : Text → Io Event Bool
  remove_saved_tool id =
      answered api conn (codes "RemoveSavedTool") (Rpc.remove_saved_tool id) (λ r. r)
