-- ===== src/Policy/Event.antt =====
-- The tool sets of state_policy.py, and what it reads from one trajectory event.
use drift_sql.Prelude.{String, Bool, true, false, Option, none, some, List, [], ◌∷◌, if◌then◌else◌}
use drift_sql.Result.{Result, attribute_error, ok, raised}
use drift_sql.Python.{Python, str_of}
use drift_sql.Python.Values.{Json, Fields, get_or, flag, text, obj, end}

abbrev pub retrieval_tools : List String
retrieval_tools =
    "get_schema_version" ∷ "inspect_schema_diff" ∷ "get_schema" ∷ "get_knowledge_definition" ∷ []

abbrev pub one_shot_tools : List String
one_shot_tools = "ask_user" ∷ retrieval_tools

abbrev pub post_clarification_set : List String
post_clarification_set = "get_knowledge_definition" ∷ "execute_sql" ∷ []

-- An event is a dict.
abbrev pub Event : Type 0
Event = Fields

module _ (py : Python) where
  -- `event.get("response", event.get("observation", ""))`
  unfoldable pub event_response : Event → Json
  event_response e = get_or "response" (get_or "observation" (text "") e) e

  unfoldable pub event_name : Event → String
  event_name e = str_of py (get_or "tool" (get_or "tool_name" (text "") e) e)

  -- A dict answers `get`; anything else that `json.loads` gives has no such method.
  unfoldable pub loaded_flag : Option Json → Result Bool
  loaded_flag none = ok false
  loaded_flag (some (obj d)) = ok (flag "action_masked" d)
  loaded_flag (some _) = raised attribute_error

  unfoldable pub metrics_masked : Json → Bool
  metrics_masked (obj d) = flag "action_masked" d
  metrics_masked _ = false

  unfoldable pub event_was_masked : Event → Result Bool
  unfolding loaded_flag metrics_masked event_response
  event_was_masked e =
      if metrics_masked (get_or "metrics" (obj end) e)
      then ok true
      else loaded_flag (py.loads (str_of py (event_response e)))

  -- The dict that a text holds, or the empty one.
  unfoldable pub loaded_dict : Option Json → Fields
  loaded_dict (some (obj d)) = d
  loaded_dict none = end
  loaded_dict (some _) = end

  unfoldable pub dict_or_loaded : Json → Fields
  unfolding loaded_dict
  dict_or_loaded (obj d) = d
  dict_or_loaded v = loaded_dict (py.loads (str_of py v))

  unfoldable pub event_observation : Event → Fields
  unfolding dict_or_loaded event_response
  event_observation e = dict_or_loaded (event_response e)
