-- ===== src/Verl/Execution.antt =====
-- `execute` of `VersionedSqlExecutorTool` in verl_tools.py: a query on the database of the
-- session, and the check of its result against the expected one.
pub mod Validated
use drift_sql.Prelude.{
  suc, ◌-◌, String, ◌<>◌, Bool, true, false, not, Option, none, some, List, [], map, ltb,
  if◌then◌else◌, length, take,
}
use drift_sql.Result.{Error, ◌>>=◌, or_raise, key_error, Result, ok, raised}
use drift_sql.Python.{Python, str_of, int_of}
use drift_sql.Python.Values.{
  ℤ, Json, Fields, get, get_or, truthy, of_list, pos, negsuc, null, bool, int, decimal, text, arr,
  obj, end, field,
}
use drift_sql.Python.Text.{strip}
use drift_sql.Service.Toolbox.{Dict, lookup}
use drift_sql.Drift.Disk.{Disk, Paths, Sqlite, Hashing}
use drift_sql.Drift.Fingerprint.{fingerprint_query}
use drift_sql.Verl.Terms.{is_blank}
use drift_sql.Verl.Instances.{Answer, no_reward, state_of, next_integer}
use drift_sql.Verl.Executor.{Session, Executor}
use drift_sql.Verl.Contract.{Contract, contract_of, dict_or_empty}

-- What the execution takes from Python and its clock.
pub record Host : Type 0 where
  -- `float(value)`
  pub float_of : Json → Result Json
  -- `round((time.monotonic() - started) * 1000, 3)`
  pub elapsed_ms : Json
  -- `str(error)` and `f"{type(error).__name__}: {error}"`
  pub message : Error → String
  pub named_message : Error → String

-- `len(rows) > z` and `rows[:z]`
unfoldable pub has_more : ℤ → List Json → Bool
has_more (pos n) rows = ltb n (length rows)
has_more (negsuc n) rows = true

unfoldable pub first_rows : ℤ → List Json → List Json
first_rows (pos n) rows = take n rows
first_rows (negsuc n) rows = take (length rows - suc n) rows

-- The result of a query, before its check.
pub record QueryResult : Type 0 where
  pub success : Bool
  pub failure : Option String
  pub columns : List String
  pub rows : List Json
  pub truncated : Bool
  pub rolled_back : Bool
  pub elapsed : Json

abbrev pub failed_result : String → Bool → Json → QueryResult
failed_result message rolled_back elapsed = record {
  success = false;
  failure = some message;
  columns = [];
  rows = [];
  truncated = false;
  rolled_back = rolled_back;
  elapsed = elapsed;
}

module _ (host : Host) where
  -- The rows of the cursor, one more than are shown.
  unfoldable pub fetched_result : ℤ → Result (List String × List Json) → QueryResult
  unfolding has_more first_rows
  fetched_result max_rows (raised e) = failed_result (host.message e) true host.elapsed_ms
  fetched_result max_rows (ok (columns, rows)) = record {
    success = true;
    failure = none;
    columns = columns;
    rows = first_rows max_rows rows;
    truncated = has_more max_rows rows;
    rolled_back = true;
    elapsed = host.elapsed_ms;
  }

  -- `_execute_read_only`
  unfoldable pub execute_read_only :
      {D : Type 0} → Sqlite D → Paths → String → String → Json → ℤ → Disk D → QueryResult
  unfolding fetched_result next_integer strip
  execute_read_only sqlite paths db_path sql timeout_seconds max_rows disk =
      let resolved = paths.resolve db_path in
      if is_blank (strip sql)
      then failed_result "No SQL provided" false (decimal (pos 0) 1)
      else elim (lookup resolved disk.files) as (λ o. QueryResult) [
        | none ↦ failed_result ("Database not found: " <> resolved) false host.elapsed_ms
        | some content ↦
            fetched_result max_rows
              (sqlite.fetch sql timeout_seconds (next_integer max_rows) content)
      ]

-- `x is True` and `x is False`
abbrev pub is_yes : Option Bool → Bool
is_yes none = false
is_yes (some b) = b

abbrev pub is_no : Option Bool → Bool
is_no none = false
is_no (some b) = not b

abbrev pub bool_or_null : Option Bool → Json
bool_or_null none = null
bool_or_null (some b) = bool b

abbrev pub text_or_null : Option String → Json
text_or_null none = null
text_or_null (some s) = text s

abbrev pub result_fields : QueryResult → Fields → Fields
result_fields r more = field "success" (bool r.success) (
    field "error" (text_or_null r.failure) (
      field "columns" (arr (of_list (map text r.columns))) (
        field "rows" (arr (of_list r.rows)) (
          field "truncated" (bool r.truncated)
            (field "rolled_back" (bool r.rolled_back) (field "elapsed_ms" r.elapsed more))))))

-- The keys that a result gets where one is expected.
abbrev pub contract_fields : Fields → Contract → Fields
contract_fields end c = end
contract_fields (field k v rest) c = field "result_contract_checked" (bool c.checked) (
    field "result_contract_match" (bool_or_null c.matches) (
      field "validated_for_submit" (bool (is_yes c.matches))
        (field "requires_schema_recovery" (bool (is_no c.matches)) end)))

module _ (py : Python) (host : Host) where
  abbrev pub failure_text : Option Error → Json
  failure_text none = null
  failure_text (some e) = text (host.named_message e)

  -- The observation and the metrics.
  unfoldable pub execution_answer : Session → Fields → QueryResult → Contract → Answer
  execution_answer s expected r c = (
    py.dumps (obj (result_fields r (contract_fields expected c))),
    no_reward,
    field "execution_success" (bool r.success) (
        field "execution_error" (text_or_null r.failure) (
          field "execution_elapsed_ms" r.elapsed (
            field "session_isolated"
              (bool (truthy (get_or "session_isolated" (bool false) s.fields)))
              (field "rolled_back" (bool r.rolled_back) (
                field "result_contract_checked" (bool c.checked) (
                  field "result_contract_match" (bool_or_null c.matches) (
                    field "validated_for_submit" (bool (is_yes c.matches))
                      (field "result_contract_error" (failure_text c.failure) end)))))))),
  )

  -- `execute`
  unfoldable pub execute_query :
      {D : Type 0}
      → Sqlite D
      → Paths
      → Hashing
      → Fields
      → String
      → Fields
      → Executor D
      → Result Answer
  unfolding execute_read_only contract_of dict_or_empty execution_answer fingerprint_query state_of
  execute_query sqlite paths hashing config id parameters x = do
    s ← state_of id x.instances
    let sql = str_of py (get_or "sql" (text "") parameters)
    timeout_seconds ← host.float_of (get_or "timeout_seconds" (int (pos 30)) config)
    max_rows ← int_of py (get_or "max_rows" (int (pos 100)) config)
    path ← or_raise (key_error "db_path") (get "db_path" s.fields)
    let db_path = str_of py path
    let r = execute_read_only host sqlite paths db_path sql timeout_seconds max_rows x.disk
    expected ← dict_or_empty (get_or "result_fingerprint" (obj end) s.fields)
    contract ←
        contract_of py r.success expected
          (fingerprint_query hashing sqlite paths db_path sql timeout_seconds x.disk)
    ok (execution_answer s expected r contract)

-- `execute` of `SubmitSolutionTool`
unfoldable pub submit_solution : {A : Type 0} → Python → String → Fields → Dict A → Result Answer
unfolding strip
submit_solution py id parameters d = do
  s ← state_of id d
  let sql = strip (str_of py (get_or "sql" (text "") parameters))
  ok (
      if is_blank sql
      then ("Error: No SQL provided in solution.", no_reward, field "submitted" (bool false) end)
      else (
        "Solution submitted. It will be execution-verified.",
        no_reward,
        field "submitted" (bool true) end,
      ))
