-- ===== src/Service/Query.antt =====
-- What a free query earns, and the rows it shows: `_query_reward` and
-- `_latest_query_execution_result` of driftsql/service/inference/orchestrator.py.
pub mod Completed
use drift_sql.Prelude.{
  String, Bool, true, false, not, ◌&&◌, Option, none, some, List, [], ◌∷◌, reverse, ◌==◌,
  if◌then◌else◌, length, any, last,
}
use drift_sql.Result.{◌>>=◌, Result, ok}
use drift_sql.Python.{Python, str_of, float_of, casefold}
use drift_sql.Python.Values.{
  Json, Fields, get_or, flag, to_list, pos, null, bool, int, decimal, text, arr, obj, nil, end,
  field,
}
use drift_sql.Python.Text.{is_space, drop_left}
use drift_sql.Policy.Event.{Event}
use drift_sql.Service.Tools.{sql_of, as_dict, is_text, events_named, last_or_empty}

-- `str(...).lstrip().casefold().startswith(prefix)`
unfoldable pub starts_with : String → String → Bool
starts_with String.[] s = true
starts_with (String.◌∷◌ c cs) String.[] = false
starts_with (String.◌∷◌ c cs) (String.◌∷◌ d ds) =
    String.◌∷◌ c "" == String.◌∷◌ d "" && starts_with cs ds

abbrev pub unsafe_prefixes : List String
unsafe_prefixes =
    "insert " ∷ "update " ∷ "delete " ∷ "create " ∷ "drop " ∷ "alter " ∷ "attach " ∷ "detach " ∷ []

-- What is read of the events of a free query.
pub record Reward : Type 0 where
  pub execution_success : Bool
  pub safe_submit : Bool
  pub unsafe : Bool
  pub query_completed : Bool

-- `event.get(key, {})`, whose `get` is called then.
abbrev pub part : String → Event → Result Fields
part key e = as_dict (get_or key (obj end) e)

module _ (py : Python) where
  unfoldable pub is_unsafe : Fields → Bool
  unfolding starts_with
  is_unsafe arguments =
      let sql = casefold py (drop_left is_space (str_of py (get_or "sql" (text "") arguments))) in
      any (λ p. starts_with p sql) unsafe_prefixes

  -- `any(...)` stops at the first unsafe execution.
  unfoldable pub any_unsafe : List Event → Result Bool
  unfolding is_unsafe
  any_unsafe [] = ok false
  any_unsafe (e ∷ es) =
      let rest = any_unsafe es in
      do arguments ← part "arguments" e; if is_unsafe arguments then ok true else rest

  unfoldable pub query_reward : List Event → Result Reward
  unfolding any_unsafe last_or_empty events_named sql_of
  query_reward events = do
    let executions = events_named "execute_sql" events
    let last_execution = last_or_empty (last executions)
    let last_submission = last_or_empty (last (events_named "submit_solution" events))
    run_metrics ← part "metrics" last_execution
    submit_metrics ← part "metrics" last_submission
    run_arguments ← part "arguments" last_execution
    submit_arguments ← part "arguments" last_submission
    let execution_success = flag "execution_success" run_metrics
    let executed = sql_of py run_arguments
    let exact =
        execution_success
        && (flag "submitted" submit_metrics
            && (not (executed == "") && executed == sql_of py submit_arguments))
    unsafe ← any_unsafe executions
    ok (record {
      execution_success = execution_success;
      safe_submit = exact;
      unsafe = unsafe;
      query_completed = exact && not unsafe;
    })

  -- The dict that `_query_reward` returns.
  unfoldable pub reward_fields : Reward → Fields
  reward_fields r = field "score" (decimal (if r.query_completed then pos 10 else pos 0) 1) (
      field "task_success" (bool false) (
        field "query_completed" (bool r.query_completed) (
          field "execution_success" (bool r.execution_success) (
            field "safe_submit" (bool r.safe_submit) (
              field "semantic_verified" (bool false) (
                field "verification_scope" (text "execution_only")
                  (field "unsafe" (bool r.unsafe) end)))))))

  -- The rows of one observation; `none` where the loop continues.
  unfoldable pub rows_of : Fields → Result (Option Fields)
  unfolding float_of
  rows_of d = elim (get_or "columns" (arr nil) d) as (λ v. Result (Option Fields)) [
    | arr columns ↦ elim (get_or "rows" (arr nil) d) as (λ v. Result (Option Fields)) [
      | arr rows ↦ do
        elapsed ← float_of py (get_or "elapsed_ms" (decimal (pos 0) 1) d)
        ok (
            some (
              field "columns" (arr columns) (
                field "rows" (arr rows) (
                  field "returned_rows" (int (pos (length (to_list rows)))) (
                    field "truncated" (bool (flag "truncated" d))
                      (field "elapsed_ms" elapsed end))))))
      | _ ↦ ok none
    ]
    | _ ↦ ok none
  ]

  unfoldable pub observed_rows : Option Json → Result (Option Fields)
  unfolding rows_of
  observed_rows (some (obj d)) = if flag "success" d then rows_of d else ok none
  observed_rows none = ok none
  observed_rows (some _) = ok none

  abbrev pub or_else : Option Fields → Result (Option Fields) → Result (Option Fields)
  or_else none rest = rest
  or_else (some d) rest = ok (some d)

  -- The loop over the events, the newest first.
  unfoldable pub newest_rows : List Event → Result (Option Fields)
  unfolding observed_rows
  newest_rows [] = ok none
  newest_rows (e ∷ es) =
      let rest = newest_rows es in
      let shown = (do
        rows ← observed_rows (py.loads (str_of py (get_or "response" (text "") e)))
        or_else rows rest) in
      let executed = (do
        metrics ← part "metrics" e
        if flag "execution_success" metrics then shown else rest) in
      if is_text "execute_sql" (get_or "tool" null e) then executed else rest

  unfoldable pub latest_query_execution_result : List Event → Result (Option Fields)
  unfolding newest_rows
  latest_query_execution_result events = newest_rows (reverse events)
