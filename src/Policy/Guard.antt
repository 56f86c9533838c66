-- ===== src/Policy/Guard.antt =====
-- The guards of state_policy.py at tool dispatch: masked actions, exact duplicates of a
-- retrieval, and the transition after a clarification.
use drift_sql.Prelude.{
  String, Bool, true, false, not, ◌&&◌, List, [], ◌∷◌, ◌==◌, if◌then◌else◌, any, contains, minus,
  sorted_set,
}
use drift_sql.Result.{value_error, Result, ok, raised}
use drift_sql.Python.{Python}
use drift_sql.Python.Values.{
  Json, Items, Fields, get_or, flag, bool, text, arr, obj, nil, cons, end, field,
}
use drift_sql.Policy.Event.{retrieval_tools, post_clarification_set, Event, event_name}

abbrev texts : List String → Items
texts [] = nil
texts (x ∷ xs) = cons (text x) (texts xs)

-- `hidden_tool_bad_words(available, enabled)`
unfoldable pub hidden_tool_bad_words : List String → List String → List String
hidden_tool_bad_words available enabled = sorted_set (minus enabled available)

unfoldable pub mask_payload : String → List String → Fields
mask_payload tool available = field "action_masked" (bool true) (
    field "tool" (text tool) (
      field "available_tools" (arr (texts (sorted_set available))) (
        field "message"
          (text
            "This tool is no longer valid in the current trajectory state. Use one of the currently available tools and do not repeat completed retrievals.")
          end)))

abbrev pub mask_metrics : Fields
mask_metrics = field "action_masked" (bool true) (field "state_guarded" (bool true) end)

-- The observation, and the metrics.
abbrev pub Response : Type 0
Response = String × Fields

unfoldable pub duplicate_payload : String → Fields
duplicate_payload tool = field "duplicate_retrieval" (bool true) (
    field "tool" (text tool) (
      field "message"
        (text
          "This exact retrieval result is already present in the conversation. Do not retrieve it again; use the existing evidence to execute_sql, or submit_solution if the candidate already executed successfully.")
        end))

abbrev pub duplicate_metrics : Fields
duplicate_metrics = field "duplicate_retrieval" (bool true) (field "state_guarded" (bool true) end)

module _ (py : Python) where
  unfoldable pub dynamic_mask_response : String → List String → Response
  unfolding mask_payload
  dynamic_mask_response tool available =
      (py.dumps (obj (mask_payload tool available)), mask_metrics)

  unfoldable pub duplicate_retrieval_response : String → Response
  unfolding duplicate_payload
  duplicate_retrieval_response tool = (py.dumps (obj (duplicate_payload tool)), duplicate_metrics)

  -- `isinstance(prior, dict) and canonical_arguments(prior) == target`
  unfoldable pub same_arguments : Json → String → Bool
  same_arguments (obj d) target = py.dumps_sorted d == target
  same_arguments _ target = false

  unfoldable pub is_duplicate_of : String → String → Event → Bool
  unfolding same_arguments
  is_duplicate_of tool target e =
      event_name py e == tool
      && (same_arguments (get_or "arguments" (obj end) e) target && not (flag "error" e))

  unfoldable pub is_exact_duplicate_retrieval : List Event → String → Fields → Bool
  unfolding is_duplicate_of
  is_exact_duplicate_retrieval events tool arguments =
      if contains retrieval_tools tool
      then any (is_duplicate_of tool (py.dumps_sorted arguments)) events
      else false

  unfoldable pub clarification_transition_response : String → String → Result Response
  clarification_transition_response user_response required =
      if contains post_clarification_set required
      then ok (
        py.dumps (
            obj (
              field "user_response" (text user_response) (
                field "controller_state"
                  (obj (
                    field "clarification_complete" (bool true) (
                      field "ask_user_available" (bool false)
                        (field "required_next_action" (text required) end))))
                  end))),
        field "clarification_transition" (bool true)
            (field "required_next_action" (text required) (field "state_guarded" (bool true) end)),
      )
      else raised (value_error required)
