-- ===== src/Policy/Schemas.antt =====
-- `select_dynamic_tool_schemas` of driftsql/integrations/state_policy.py: the same policy on the
-- messages of a conversation.
use drift_sql.Prelude.{
  false, ℕ, ◌+◌, String, Bool, not, ◌&&◌, Option, none, some, List, [], ◌∷◌, map, ◌==◌,
  if◌then◌else◌, keep, any, contains, minus, single,
}
use drift_sql.Result.{◌>>=◌, map_result, attribute_error, type_error, Result, ok, raised}
use drift_sql.Python.{Python, str_of}
use drift_sql.Python.Values.{null, Json, Fields, get_or, to_list, text, arr, obj, nil, end}
use drift_sql.Policy.Event.{one_shot_tools, post_clarification_set}
use drift_sql.Policy.Recovery.{
  Completed, is_valid, required_contract_recovery_action, has_validated_execution,
}
use drift_sql.Policy.Select.{submit, is_after, restrict_after_ask}

-- A value whose `get` is called.
unfoldable pub dict_of : Json → Result Fields
dict_of (obj d) = ok d
dict_of _ = raised attribute_error

-- A schema with its function's name.
pub record Schema : Type 0 where
  pub name : String
  pub content : Fields

unfoldable pub ask_after : Option ℕ → List Completed → Option ℕ
ask_after found [] = found
ask_after found (c ∷ cs) =
    ask_after (if c.name == "ask_user" && is_valid c then some c.index else found) cs

unfoldable pub is_follow_up : Option ℕ → Completed → Bool
unfolding is_after
is_follow_up ask c = is_after ask c.index && (contains post_clarification_set c.name && is_valid c)

abbrev schema_names : List Schema → List String
schema_names = map (λ s. s.name)

-- `[schema for schema in schemas if name in available]`
unfoldable pub schemas_in : List String → List Schema → List Schema
schemas_in available = keep (λ s. contains available s.name)

unfoldable pub choose_schemas : Bool → List Completed → List Schema → List Schema
unfolding ask_after is_follow_up schemas_in restrict_after_ask
choose_schemas knowledge_first completed schemas =
    let names = schema_names schemas in
    let called = map (λ c. c.name) (keep is_valid completed) in
    let available = minus names (keep (contains called) one_shot_tools) in
    let required = required_contract_recovery_action completed in
    let ask = ask_after none completed in
    let followed = any (is_follow_up ask) completed in
    if contains names required
    then schemas_in (single required) schemas
    else if has_validated_execution completed && contains names submit
    then schemas_in (single submit) schemas
    else schemas_in (restrict_after_ask ask followed knowledge_first available) schemas

abbrev is_role : String → Json → Bool
is_role role (text s) = s == role
is_role role _ = false

abbrev has_role : String → Fields → Bool
has_role role message = is_role role (get_or "role" null message)

module _ (py : Python) where
  -- `value.get("function", {}).get("name", "")` as a text
  unfoldable pub function_name : Json → Result String
  unfolding dict_of
  function_name v = do
    call ← dict_of v
    function ← dict_of (get_or "function" (obj end) call)
    ok (str_of py (get_or "name" (text "") function))

  -- A message with one call names its tool. `tool_calls` is a list here; anything else raises.
  unfoldable pub message_tool_name : Fields → Result String
  unfolding function_name
  message_tool_name message = elim (get_or "tool_calls" (arr nil) message) [
    | arr calls ↦ elim (to_list calls) [
      | [] ↦ ok ""
      | call ∷ rest ↦ elim rest [ [] ↦ function_name call | other ∷ others ↦ ok "" ]
    ]
    | _ ↦ raised type_error
  ]

  unfoldable pub observation_of : Option Json → Result Fields
  unfolding dict_of
  observation_of none = ok end
  observation_of (some v) = dict_of v

  -- The loop over the messages, with the pending tool.
  unfoldable pub completed_messages : ℕ → String → List Fields → Result (List Completed)
  unfolding message_tool_name observation_of
  completed_messages i pending [] = ok []
  completed_messages i pending (m ∷ ms) =
      let asked = (do name ← message_tool_name m; completed_messages (i + 1) name ms) in
      let answered = (do
        observation ← observation_of (py.loads (str_of py (get_or "content" (text "") m)))
        rest ← completed_messages (i + 1) "" ms
        let c : Completed = record { index = i; name = pending; observation = observation }
        ok (c ∷ rest)) in
      let skipped = completed_messages (i + 1) pending ms in
      if has_role "assistant" m
      then asked
      else if has_role "tool" m && not (pending == "")
      then answered
      else skipped

  unfoldable pub named_schema : Fields → Result Schema
  unfolding function_name
  named_schema s = do name ← function_name (obj s); ok (record { name = name; content = s })

  unfoldable pub select_dynamic_tool_schemas :
      List Fields → List Fields → Bool → Result (List Fields)
  unfolding completed_messages choose_schemas named_schema
  select_dynamic_tool_schemas messages schemas knowledge_first = do
    completed ← completed_messages 0 "" messages
    named ← map_result named_schema schemas
    ok (map (λ s. s.content) (choose_schemas knowledge_first completed named))
