-- ===== src/Service/Tools.antt =====
-- driftsql/service/inference/tools.py: one set of tools, one entry for each session. A method
-- gives the state after it, beside what it returns or raises, since what was done before an
-- exception stays done. `load` and the temporary directory are not modelled.
pub mod Admission
pub mod Sessions
mod Tests
use drift_sql.Prelude.{
  ℕ, String, ◌<>◌, Bool, true, false, not, ◌&&◌, ◌||◌, Option, none, some, List, [], ◌∷◌, ◌++◌,
  ◌==◌, if◌then◌else◌, keep, last, contains, minus,
}
use drift_sql.Result.{
  Error, ◌>>=◌, or_raise, attribute_error, value_error, key_error, Result, ok, raised,
}
use drift_sql.Python.{Python, str_of, casefold}
use drift_sql.Python.Values.{
  Json, Fields, get_or, put, flag, pos, null, bool, decimal, text, obj, end, field,
}
use drift_sql.Python.Text.{strip, strip_semicolons}
use drift_sql.Policy.Event.{Event}
use drift_sql.Policy.Select.{select_dynamic_tool_names}
use drift_sql.Policy.Guard.{
  dynamic_mask_response, duplicate_retrieval_response, is_exact_duplicate_retrieval,
}
use drift_sql.Service.Toolbox.{Dict, lookup, remove, set, Toolbox}

-- Milliseconds of the clock are counted whole.
pub record ToolExecution : Type 0 where
  pub observation : String
  pub reward : Json
  pub metrics : Fields
  pub elapsed_ms : ℕ

pub record Runtime (S : Type 0) : Type 0 where
  pub session_tools : Dict (List String)
  pub session_modes : Dict String
  pub tools : S

pub record Sandbox : Type 0 where
  pub sandbox_ref : String
  pub sandbox_isolated : Bool

abbrev pub is_execution_only : Option String → Bool
is_execution_only none = false
is_execution_only (some mode) = mode == "execution_only"

abbrev pub is_empty : List String → Bool
is_empty [] = true
is_empty (n ∷ ns) = false

-- `sorted(tool_names, key=lambda name: name != "execute_sql")`
unfoldable pub executor_first : List String → List String
executor_first names =
    keep (λ n. n == "execute_sql") names ++ keep (λ n. not (n == "execute_sql")) names

-- `value.strip().rstrip(";").casefold()` of the text of an SQL argument.
unfoldable pub sql_of : Python → Fields → String
sql_of py arguments =
    casefold py (strip_semicolons (strip (str_of py (get_or "sql" (text "") arguments))))

-- A value whose `get` is called.
unfoldable pub as_dict : Json → Result Fields
as_dict (obj d) = ok d
as_dict _ = raised attribute_error

abbrev pub is_text : String → Json → Bool
is_text s (text t) = t == s
is_text s _ = false

-- `[event for event in events if event.get("tool") == tool]`
unfoldable pub events_named : String → List Event → List Event
events_named tool = keep (λ e. is_text tool (get_or "tool" null e))

unfoldable pub last_or_empty : Option Event → Event
last_or_empty none = end
last_or_empty (some e) = e

module _ (py : Python) where
  -- The answer to a masked `execute_sql` says also that nothing was run.
  unfoldable pub rejected_execution : Option Json → Result String
  rejected_execution none = raised (value_error "JSONDecodeError")
  rejected_execution (some (obj d)) =
      let message = str_of py (get_or "message" (text "tool unavailable") d) in
      ok (
        py.dumps (
          obj (
            put "rolled_back" (bool true) (
              put "error" (text ("Readonly state policy rejected execute_sql: " <> message))
                (put "success" (bool false) d)))))
  rejected_execution (some _) = raised attribute_error

  unfoldable pub masked_observation : String → String → Result String
  unfolding rejected_execution
  masked_observation name observation =
      if name == "execute_sql" then rejected_execution (py.loads observation) else ok observation

  unfoldable pub masked_call : String → List String → ℕ → Result ToolExecution
  unfolding masked_observation
  masked_call name available elapsed = do
    let (observation, metrics) = dynamic_mask_response py name available
    shown ← masked_observation name observation
    ok (record {
      observation = shown;
      reward = decimal (pos 0) 1;
      metrics = metrics;
      elapsed_ms = elapsed;
    })

  unfoldable pub duplicate_call : String → ℕ → ToolExecution
  duplicate_call name elapsed =
      let (observation, metrics) = duplicate_retrieval_response py name in
      record {
        observation = observation;
        reward = decimal (pos 0) 1;
        metrics = metrics;
        elapsed_ms = elapsed;
      }

  unfoldable pub unsafe_submission : ℕ → ToolExecution
  unsafe_submission elapsed = record {
    observation = py.dumps (
        obj (
          field "action_masked" (bool true) (
            field "tool" (text "submit_solution") (
              field "message"
                (text
                  "Free-query mode may submit only the exact SQL from the latest successful execution.")
                end))));
    reward = decimal (pos 0) 1;
    metrics =
        field "action_masked" (bool true)
          (field "state_guarded" (bool true) (field "submitted" (bool false) end));
    elapsed_ms = elapsed;
  }

  -- Whether the submitted query is the newest execution's, as `sql_of` compares them, and that succeeded. The metrics are
  -- read only when the queries agree.
  unfoldable pub is_safe_submission : Fields → List Event → Result Bool
  unfolding sql_of as_dict events_named last_or_empty
  is_safe_submission arguments events = do
    let newest = last_or_empty (last (events_named "execute_sql" events))
    prior ← as_dict (get_or "arguments" (obj end) newest)
    let executed = sql_of py prior
    let metrics = as_dict (get_or "metrics" (obj end) newest)
    let success = (do d ← metrics; ok (flag "execution_success" d))
    if executed == "" || not (executed == sql_of py arguments) then ok false else success

  -- The early returns of `execute`: a call that they answer reaches no tool.
  unfoldable pub guard_call :
      List String → Bool → String → Fields → List Event → ℕ → Result (Option ToolExecution)
  unfolding masked_call duplicate_call unsafe_submission is_safe_submission
  guard_call configured execution_only name arguments events elapsed = do
    available ← select_dynamic_tool_names py events configured false execution_only
    let masked = (do x ← masked_call name available elapsed; ok (some x))
    let checked = (do
      safe ← is_safe_submission arguments events
      ok (if safe then none else some (unsafe_submission elapsed)))
    let submitted = if name == "submit_solution" && execution_only then checked else ok none
    let unmasked_call =
        if is_exact_duplicate_retrieval py events name arguments
        then ok (some (duplicate_call name elapsed))
        else submitted
    if not (contains configured name) || not (contains available name)
        then masked
        else unmasked_call

  -- What an execution of a free query says about itself.
  unfoldable pub scope_fields : Bool → Fields → Fields
  scope_fields success d =
      put "verification_scope" (text "execution_only")
        (put "semantic_verified" (bool false) (put "validated_for_submit" (bool success) d))

  unfoldable pub scope_payload : Option Json → Result Fields
  scope_payload none = ok end
  scope_payload (some (obj d)) = ok d
  scope_payload (some _) = raised attribute_error

  unfoldable pub scoped : Bool → String → String × Json × Fields → Result (String × Json × Fields)
  unfolding scope_fields scope_payload
  scoped execution_only name (response, reward, metrics) =
      let marked = (do
        payload ← scope_payload (py.loads response)
        let success = flag "success" payload
        ok (py.dumps (obj (scope_fields success payload)), reward, scope_fields success metrics)) in
      if name == "execute_sql" && execution_only then marked else ok (response, reward, metrics)

  -- The names of the schemas that the model is shown.
  unfoldable pub schemas_for : {S : Type 0} → String → List Event → Runtime S → Result (List String)
  schemas_for id events rt = do
    configured ← or_raise (key_error id) (lookup id rt.session_tools)
    let execution_only = is_execution_only (lookup id rt.session_modes)
    allowed ← select_dynamic_tool_names py events configured false execution_only
    ok (keep (contains allowed) configured)

  module _ {S : Type 0} (box : Toolbox S) where
    -- The loop over the tools of a session; an exception ends it.
    unfoldable pub release_all : String → List String → S → S × Option Error
    release_all id [] s = (s, none)
    release_all id (n ∷ ns) s =
        let (s', failure) = box.release n id s in
        let rest = release_all id ns s' in elim failure [ none ↦ rest | some e ↦ (s', some e) ]

    -- The exception of a release takes the place of the one before.
    abbrev pub newest_error : Error → Option Error → Error
    newest_error e none = e
    newest_error e (some e') = e'

    abbrev undo : Error → S × Option Error → S × Option Error
    undo e r = (r.0, some (newest_error e r.1))

    -- The loop of `initialize_session`, with the tools that are initialized.
    unfoldable pub create_all :
        String → String → Fields → List String → List String → S → S × Option Error
    unfolding release_all
    create_all id truth kwargs opened [] s = (s, none)
    create_all id truth kwargs opened (n ∷ ns) s =
        let (s', failure) = box.create n id truth kwargs s in
        let rest = create_all id truth kwargs (n ∷ opened) ns s' in
        elim failure [ none ↦ rest | some e ↦ undo e (release_all id opened s') ]

    -- `_state` of the executor, if the session has one.
    unfoldable pub sandbox_of : String → List String → S → Sandbox
    sandbox_of id tool_names s =
        let known = contains box.names "execute_sql" && contains tool_names "execute_sql" in
        let state = if known then box.executor_state id s else end in
        record {
          sandbox_ref = str_of py (get_or "db_path" (text "") state);
          sandbox_isolated = flag "session_isolated" state;
        }

    -- All tools are created, and the session is registered; or what was created is released.
    unfoldable pub registered :
        String → List String → Fields → Runtime S → S × Option Error → Runtime S × Result Sandbox
    unfolding sandbox_of
    registered id tool_names kwargs rt (s, some e) = (record rt { tools = s }, raised e)
    registered id tool_names kwargs rt (s, none) =
        let mode = str_of py (get_or "verification_mode" (text "result_contract") kwargs) in
        (
          record {
            session_tools = set id tool_names rt.session_tools;
            session_modes = set id mode rt.session_modes;
            tools = s;
          },
          ok (sandbox_of id tool_names s),
        )

    unfoldable pub initialize_session :
        String → List String → Fields → Runtime S → Runtime S × Result Sandbox
    unfolding create_all registered executor_first
    initialize_session id tool_names kwargs rt =
        let truth = str_of py (get_or "ground_truth" (text "") kwargs) in
        let made = create_all id truth kwargs [] (executor_first tool_names) rt.tools in
        if is_empty (minus tool_names box.names)
        then registered id tool_names kwargs rt made
        else (rt, raised (value_error "Unknown configured tools"))

    -- What the tool answered, in the form that `execute` gives it.
    unfoldable pub answered :
        Bool
        → String
        → ℕ
        → Runtime S
        → S × Result (String × Json × Fields)
        → Runtime S × Result ToolExecution
    unfolding scoped
    answered execution_only name elapsed rt (s, outcome) = (
      record rt { tools = s },
      (do
        called ← outcome
        (observation, reward, metrics) ← scoped execution_only name called
        ok (record {
          observation = observation;
          reward = reward;
          metrics = metrics;
          elapsed_ms = elapsed;
        })),
    )

    -- A call that no early return answers goes to the tool.
    unfoldable pub dispatch :
        String
        → Bool
        → String
        → Fields
        → ℕ
        → Runtime S
        → Result (Option ToolExecution)
        → Runtime S × Result ToolExecution
    unfolding answered
    dispatch id execution_only name arguments elapsed rt (raised e) = (rt, raised e)
    dispatch id execution_only name arguments elapsed rt (ok (some x)) = (rt, ok x)
    dispatch id execution_only name arguments elapsed rt (ok none) =
        answered execution_only name elapsed rt (box.run name id arguments rt.tools)

    unfoldable pub execute :
        String → String → Fields → List Event → ℕ → Runtime S → Runtime S × Result ToolExecution
    unfolding dispatch guard_call
    execute id name arguments events elapsed rt =
        let execution_only = is_execution_only (lookup id rt.session_modes) in
        dispatch id execution_only name arguments elapsed rt (do
          configured ← or_raise (key_error id) (lookup id rt.session_tools)
          guard_call configured execution_only name arguments events elapsed)

    unfoldable pub release_session : String → Runtime S → Runtime S × Option Error
    unfolding release_all
    release_session id rt =
        let names : List String = elim (lookup id rt.session_tools) [ none ↦ [] | some ns ↦ ns ] in
        let released = release_all id names rt.tools in
        (
          record {
            session_tools = remove id rt.session_tools;
            session_modes = remove id rt.session_modes;
            tools = released.0;
          },
          released.1,
        )
