-- ===== src/Planning/Tests.antt =====
-- A stale query and a diff that renames a column.
use drift_sql.Prelude.{String, ◌≡◌, refl, true, none, List, [], ◌∷◌, keep}
use drift_sql.Result.{value_error, ok, raised}
use drift_sql.Python.{str_of}
use drift_sql.Python.Sample.{sample}
use drift_sql.Python.Values.{Json, Fields, get_or, to_list, text, arr, obj, nil, cons, end, field}
use drift_sql.Python.Text.{strip, strip_semicolons}
use drift_sql.Verl.Instances.{items_or_none}
use drift_sql.Planning.{Trees, RepairPlan, dicts_of, is_addition, plan_audited_schema_repair}
use drift_sql.Planning.Repaired.{IsRenamed, plan-Repairs}

abbrev trees : Trees
trees = record {
  read_only = λ s. true;
  project = λ s diff schema. raised (value_error "no supported wildcard");
}

abbrev stale : String
stale = "SELECT id, 'id' FROM t"

abbrev renaming : Fields
renaming =
    field "type" (text "rename_column")
      (field "old_name" (text "id") (field "new_name" (text "key") end))

abbrev diff : Fields
diff = field "operations" (arr (cons (obj renaming) nil)) end

abbrev plan : RepairPlan
plan = record {
  original_sql = stale;
  repaired_sql = "SELECT key, 'id' FROM t";
  operations_applied = "rename_column" ∷ [];
  changed = true;
}

stale_repaired : plan_audited_schema_repair sample trees stale diff none ≡ ok plan
unfolding plan_audited_schema_repair get_or to_list str_of strip keep strip_semicolons
stale_repaired = refl

plan-Repairs_example :
    (trees.read_only stale ≡ true)
    × (trees.read_only plan.repaired_sql ≡ true)
    × (plan.original_sql ≡ stale)
    × (items : List Json) × (items_or_none (get_or "operations" (arr nil) diff) ≡ ok items)
    × (keep (is_addition sample) (dicts_of items) ≡ []
        → IsRenamed sample (dicts_of items) stale plan.repaired_sql)
plan-Repairs_example = plan-Repairs sample trees stale diff none stale_repaired
