-- ===== src/Verl/Inspecting.antt =====
-- `InspectSchemaDiffTool` of verl_tools.py: the audited diff of a trajectory, with the guidance and the
-- plans that follow from it.
use drift_sql.Prelude.{
  String, Bool, true, false, not, ◌||◌, Option, none, some, List, [], ◌∷◌, ◌++◌, ◌==◌,
  if◌then◌else◌, length, keep, any,
}
use drift_sql.Result.{Error, fail_if, ◌>>=◌, ◌>>◌, value_error, file_not_found, Result, ok, raised}
use drift_sql.Python.{Python, str_of, casefold}
use drift_sql.Python.Values.{
  Json, Items, Fields, get_or, put, pos, null, bool, int, text, arr, obj, nil, cons, end, field,
}
use drift_sql.Service.Toolbox.{Dict, lookup, set}
use drift_sql.Policy.Guidance.{schema_diff_recovery_guidance}
use drift_sql.Verl.Terms.{is_blank}
use drift_sql.Verl.Instances.{Answer, no_reward, state_of, copied, items_or_none}
use drift_sql.Planning.{
  ProjectionPlan, Trees, RepairPlan, dicts_of, name_at, is_addition, plan_audited_schema_repair,
}

-- The databases that stand, and what `str` gives for an exception.
pub record Sources : Type 0 where
  pub is_file : String → Bool
  pub ordered_schema : String → Result (Dict (List String))
  pub message : Error → String

-- What the planning of the projection leaves: the observation, the schema and the metrics.
pub record Projected : Type 0 where
  pub observation : Fields
  pub active_schema : Option (Dict (List String))
  pub planned : Bool
  pub failure : Option Error

-- What the planning of the repair leaves.
pub record Inspected : Type 0 where
  pub observation : Fields
  pub planned : Bool
  pub failure : Option Error

-- `except (FileNotFoundError, ValueError)`, and `except ValueError`
unfoldable pub is_value_error : Error → Bool
is_value_error (value_error s) = true
is_value_error _ = false

unfoldable pub is_planner_error : Error → Bool
is_planner_error (file_not_found s) = true
is_planner_error (value_error s) = true
is_planner_error _ = false

unfoldable pub text_items : List String → Items
text_items [] = nil
text_items (s ∷ ss) = cons (text s) (text_items ss)

-- `repair.to_dict()`
abbrev pub repair_dict : RepairPlan → Fields
repair_dict p = field "original_sql" (text p.original_sql) (
    field "repaired_sql" (text p.repaired_sql) (
      field "operations_applied" (arr (text_items p.operations_applied)) (
        field "changed" (bool p.changed)
          (field "source" (text "stale_sql+audited_schema_diff") end))))

module _ (py : Python) where
  -- `table_lookup.get(name.casefold())`: the last table of this name.
  unfoldable pub find_table : String → Dict (List String) → Option String
  find_table name [] = none
  find_table name ((table, columns) ∷ rest) = elim (find_table name rest) as (λ o. Option String) [
    | some t ↦ some t
    | none ↦ if casefold py table == casefold py name then some table else none
  ]

  -- The column is added, unless the table has it.
  unfoldable pub with_column : String → List String → List String
  with_column name columns =
      if any (λ c. casefold py c == casefold py name) columns then columns else columns ++ name ∷ []

  abbrev pub columns_at : String → Dict (List String) → List String
  columns_at table schema = elim (lookup table schema) [ none ↦ [] | some cs ↦ cs ]

  abbrev pub add_to_table :
      String → Dict (List String) → Option String → Result (Dict (List String))
  add_to_table name schema none = raised (value_error "Invalid add-column operation")
  add_to_table name schema (some table) =
      if is_blank table || is_blank name
      then raised (value_error "Invalid add-column operation")
      else ok (set table (with_column name (columns_at table schema)) schema)

  -- The loop over the operations that add a column; the tables are looked up in the source.
  unfoldable pub add_columns :
      Dict (List String) → List Fields → Dict (List String) → Result (Dict (List String))
  unfolding find_table with_column
  add_columns source [] schema = ok schema
  add_columns source (d ∷ ds) schema = do
    next ←
        add_to_table (name_at py "new_name" d) schema
          (find_table (str_of py (get_or "table" (text "") d)) source)
    add_columns source ds next

  module _ (sources : Sources) (trees : Trees) where
    -- `_active_schema_for_projection`, behind the test that the source is there
    unfoldable pub active_schema_for_projection : String → List Fields → Result (Dict (List String))
    unfolding add_columns
    active_schema_for_projection source_db operations = do
      fail_if (not (sources.is_file source_db))
          (file_not_found "source_db is unavailable for projection planning")
      source ← sources.ordered_schema source_db
      add_columns source (keep (is_addition py) operations) source

    abbrev pub settle_plan : Fields → Dict (List String) → Result ProjectionPlan → Result Projected
    settle_plan observation schema (ok p) = ok (record {
      observation = put "projection_contract_plan" (obj p.plan_dict) observation;
      active_schema = some schema;
      planned = true;
      failure = none;
    })
    settle_plan observation schema (raised e) =
        if is_planner_error e
        then ok (record {
          observation = observation;
          active_schema = some schema;
          planned = false;
          failure = some e;
        })
        else raised e

    abbrev pub plan_on : String → Fields → Result (Dict (List String)) → Result Projected
    plan_on stale observation (ok schema) =
        settle_plan observation schema (trees.project stale observation schema)
    plan_on stale observation (raised e) =
        if is_planner_error e
        then ok (record {
          observation = observation;
          active_schema = none;
          planned = false;
          failure = some e;
        })
        else raised e

    -- `if has_add_column:`
    unfoldable pub plan_projection : Fields → Fields → List Fields → Result Projected
    unfolding active_schema_for_projection is_planner_error
    plan_projection s observation operations =
        let planned =
          plan_on (str_of py (get_or "stale_sql" (text "") s)) observation (
            active_schema_for_projection (str_of py (get_or "source_db" (text "") s)) operations) in
        if any (is_addition py) operations
        then planned
        else ok (record {
          observation = observation;
          active_schema = none;
          planned = false;
          failure = none;
        })

    abbrev pub settle_repair : Fields → Result RepairPlan → Result Inspected
    settle_repair observation (ok p) = ok (record {
      observation = put "repair_candidate" (obj (repair_dict p)) observation;
      planned = p.changed;
      failure = none;
    })
    settle_repair observation (raised e) =
        if is_value_error e
        then ok (record { observation = observation; planned = false; failure = some e })
        else raised e

    -- `if operations:`
    unfoldable pub plan_repair : Fields → List Json → Projected → Result Inspected
    unfolding plan_audited_schema_repair is_value_error
    plan_repair s [] p =
        ok (record { observation = p.observation; planned = false; failure = none })
    plan_repair s (v ∷ vs) p = settle_repair p.observation (
        plan_audited_schema_repair py trees (str_of py (get_or "stale_sql" (text "") s))
          p.observation p.active_schema)

    abbrev pub with_guidance : List String → Fields → Fields
    with_guidance [] observation = observation
    with_guidance (g ∷ gs) observation =
        put "recovery_guidance" (arr (text_items (g ∷ gs))) observation

    abbrev pub error_or_null : Option Error → Json
    error_or_null none = null
    error_or_null (some e) = text (sources.message e)

    -- `execute`
    unfoldable pub inspect_schema_diff : String → Dict Fields → Result Answer
    unfolding plan_projection plan_repair schema_diff_recovery_guidance state_of
    inspect_schema_diff id d = do
      s ← state_of id d
      diff ← copied (get_or "schema_diff" (obj (field "operations" (arr nil) end)) s)
      let guidance = schema_diff_recovery_guidance py diff
      let observation = with_guidance guidance diff
      operations ← items_or_none (get_or "operations" (arr nil) observation)
      projected ← plan_projection s observation (dicts_of operations)
      inspected ← plan_repair s operations projected
      ok (
        py.dumps (obj inspected.observation),
        no_reward,
        field "schema_diff_inspected" (bool true) (
            field "recovery_guidance_count" (int (pos (length guidance))) (
              field "projection_contract_planned" (bool projected.planned) (
                field "projection_contract_error" (error_or_null projected.failure) (
                  field "repair_candidate_planned" (bool inspected.planned)
                    (field "repair_candidate_error" (error_or_null inspected.failure) end))))),
      )
