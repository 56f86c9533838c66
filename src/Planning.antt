-- ===== src/Planning.antt =====
-- driftsql/planning/schema_repair.py: the repair of a query by the operations of an audited schema
-- diff.
pub mod Repaired
mod Tests
use drift_sql.Prelude.{
  String, Bool, false, not, ◌||◌, Option, none, some, List, [], ◌∷◌, ◌++◌, ◌==◌, if◌then◌else◌,
  keep,
}
use drift_sql.Result.{fail_if, ◌>>=◌, ◌>>◌, value_error, Result, ok, raised}
use drift_sql.Python.{Python, str_of}
use drift_sql.Python.Values.{Json, Items, Fields, get_or, put, null, text, arr, obj, nil, cons}
use drift_sql.Python.Text.{strip, strip_semicolons}
use drift_sql.Verl.Terms.{is_inside, is_blank}
use drift_sql.Verl.Instances.{items_or_none}
use drift_sql.Service.Toolbox.{Dict}
use drift_sql.Rewrite.{rewrite_sql_identifier}

-- The plan of `plan_projection_contract`: its repaired query, and its `to_dict()`.
pub record ProjectionPlan : Type 0 where
  pub repaired_sql : String
  pub plan_dict : Fields

-- What rests on the syntax trees of sqlglot.
pub record Trees : Type 0 where
  -- `_read_only`: the query parses, and is a query
  pub read_only : String → Bool
  -- `plan_projection_contract(sql, schema_diff, ordered_active_schema)`
  pub project : String → Fields → Dict (List String) → Result ProjectionPlan

pub record RepairPlan : Type 0 where
  pub original_sql : String
  pub repaired_sql : String
  pub operations_applied : List String
  pub changed : Bool

-- `[operation for operation in ... if isinstance(operation, dict)]`
unfoldable pub dicts_of : List Json → List Fields
dicts_of [] = []
dicts_of (obj d ∷ vs) = d ∷ dicts_of vs
dicts_of (_ ∷ vs) = dicts_of vs

unfoldable pub to_objects : List Fields → Items
to_objects [] = nil
to_objects (d ∷ ds) = cons (obj d) (to_objects ds)

module _ (py : Python) where
  abbrev pub operation_type : Fields → String
  operation_type d = str_of py (get_or "type" (text "") d)

  -- `operation_type in {"rename_table", "rename_column", "replace_column"}`
  unfoldable pub is_renaming : String → Bool
  is_renaming t = t == "rename_table" || (t == "rename_column" || t == "replace_column")

  abbrev pub name_at : String → Fields → String
  name_at key d = strip (str_of py (get_or key (text "") d))

  abbrev pub is_incomplete : Fields → Bool
  is_incomplete d = is_blank (name_at "old_name" d) || is_blank (name_at "new_name" d)

  -- The query so far, and the operations that changed it.
  abbrev pub add_applied : String → String → List String → String → String × List String
  add_applied t repaired applied updated =
      if updated == repaired then (repaired, applied) else (updated, applied ++ t ∷ [])

  -- One turn of the loop over the operations.
  unfoldable pub apply_renaming : Fields → String × List String → Result (String × List String)
  unfolding rewrite_sql_identifier is_renaming
  apply_renaming d (repaired, applied) =
      let renamed : Result (String × List String) = (do
        fail_if (is_incomplete d) (value_error "Audited identifier mapping is incomplete")
        updated ← rewrite_sql_identifier py repaired (name_at "old_name" d) (name_at "new_name" d)
        ok (add_applied (operation_type d) repaired applied updated)) in
      if is_renaming (operation_type d) then renamed else ok (repaired, applied)

  unfoldable pub apply_renamings :
      List Fields → String × List String → Result (String × List String)
  unfolding apply_renaming
  apply_renamings [] state = ok state
  apply_renamings (d ∷ ds) state = do next ← apply_renaming d state; apply_renamings ds next

  -- `operation.get("type") == "add_column"`
  abbrev pub is_addition : Fields → Bool
  is_addition d = elim (get_or "type" null d) [ text s ↦ s == "add_column" | _ ↦ false ]

  -- `except ValueError as error`: an explicit projection needs no repair.
  unfoldable pub settle_projection :
      String × List String → Result ProjectionPlan → Result (String × List String)
  unfolding is_inside
  settle_projection (repaired, applied) (ok projected) =
      ok (projected.repaired_sql, applied ++ "add_column_projection_contract" ∷ [])
  settle_projection state (raised (value_error message)) =
      if is_inside "no supported wildcard" message then ok state else raised (value_error message)
  settle_projection state (raised e) = raised e

  unfoldable pub apply_additions :
      Trees
      → Fields
      → List Fields
      → Option (Dict (List String))
      → String × List String
      → Result (String × List String)
  unfolding settle_projection to_objects
  apply_additions trees diff [] schema state = ok state
  apply_additions trees diff (d ∷ ds) none state =
      raised (value_error "Add-column repair requires the ordered active schema")
  apply_additions trees diff (d ∷ ds) (some schema) state =
      settle_projection state
        (trees.project state.0 (put "operations" (arr (to_objects (d ∷ ds))) diff) schema)

  -- `value.rstrip(";").strip()`
  abbrev pub trimmed : String → String
  trimmed s = strip (strip_semicolons s)

  abbrev pub repair_plan : String → String × List String → RepairPlan
  repair_plan stale (repaired, applied) = record {
    original_sql = stale;
    repaired_sql = repaired;
    operations_applied = applied;
    changed = not (trimmed repaired == trimmed stale);
  }

  -- `plan_audited_schema_repair`
  unfoldable pub plan_audited_schema_repair :
      Trees → String → Fields → Option (Dict (List String)) → Result RepairPlan
  unfolding apply_renamings apply_additions dicts_of items_or_none
  plan_audited_schema_repair trees stale diff schema = do
    fail_if (not (trees.read_only stale))
        (value_error "Audited repair requires one read-only SQL query")
    items ← items_or_none (get_or "operations" (arr nil) diff)
    let operations = dicts_of items
    renamed ← apply_renamings operations (stale, [])
    repaired ← apply_additions trees diff (keep is_addition operations) schema renamed
    fail_if (not (trees.read_only repaired.0))
        (value_error "Audited repair produced a non-query expression")
    ok (repair_plan stale repaired)
