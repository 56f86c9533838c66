-- ===== src/Policy/Guidance.antt =====
-- `schema_diff_recovery_guidance` of driftsql/integrations/state_policy.py: what an audited drift
-- asks the model to keep in mind.
use drift_sql.Prelude.{String, ◌<>◌, not, ◌&&◌, ◌||◌, List, [], ◌∷◌, ◌++◌, ◌==◌, if◌then◌else◌}
use drift_sql.Python.{Python, str_of}
use drift_sql.Python.Values.{Fields, get_or, truthy, flag, objects, null, text, arr, nil}

module _ (py : Python) where
  -- `str(operation.get(key) or default)`
  unfoldable pub text_or : String → String → Fields → String
  text_or key default d = let v = get_or key null d in if truthy v then str_of py v else default

  unfoldable pub added_column : String → String → String
  added_column table new_name =
      "Column '"
      <> (new_name
          <> ("' was added to "
              <> (table
                  <> (". Preserve the cached result-column contract: if the cached SQL uses SELECT * or alias.*, expand the wildcard to the pre-change columns and exclude '"
                      <> (new_name
                          <> "', unless the analytics request explicitly requires the newly added column.")))))

  unfoldable pub renamed_table : String → String → String
  renamed_table old_name new_name =
      "Replace table identifier '"
      <> (old_name
          <> ("' with audited name '"
              <> (new_name <> "'; preserve the rest of the query semantics.")))

  unfoldable pub renamed_column : String → String → String → String
  renamed_column table old_name new_name =
      "Replace column identifier '"
      <> (old_name
          <> ("' with audited column '"
              <> (new_name
                  <> ("' on "
                      <> (table
                          <> "; preserve aliases, predicates, grouping, and output intent.")))))

  unfoldable pub changed_metric : Fields → String
  unfolding text_or
  changed_metric d =
      let confirmed =
        if flag "requires_clarification" d
        then " after confirming the requested metric version with the user."
        else "." in
      "Metric '"
      <> (text_or "metric_name" "the requested metric" d
          <> ("' changed from '"
              <> (text_or "old_expression" "" d
                  <> ("' to '"
                      <> (text_or "new_expression" "" d
                          <> ("' because "
                              <> (text_or "reason" "the active business definition changed" d
                                  <> (". Use the active definition" <> confirmed))))))))

  -- The line for one operation, if it gives one.
  unfoldable pub operation_guidance : Fields → List String
  unfolding text_or added_column renamed_table renamed_column changed_metric
  operation_guidance d =
      let drift_type = str_of py (get_or "type" (text "") d) in
      let table = text_or "table" "the affected table" d in
      let old_name = text_or "old_name" "" d in
      let new_name = text_or "new_name" "" d in
      if drift_type == "add_column" && not (new_name == "")
      then added_column table new_name ∷ []
      else if drift_type == "rename_table" && (not (old_name == "") && not (new_name == ""))
      then renamed_table old_name new_name ∷ []
      else if (drift_type == "rename_column" || drift_type == "replace_column")
          && (not (old_name == "") && not (new_name == ""))
      then renamed_column table old_name new_name ∷ []
      else if drift_type == "metric_definition_change"
      then changed_metric d ∷ []
      else []

  unfoldable pub guidance_of : List Fields → List String
  unfolding operation_guidance
  guidance_of [] = []
  guidance_of (d ∷ ds) = operation_guidance d ++ guidance_of ds

  -- An item that is not a dict is passed over.
  unfoldable pub schema_diff_recovery_guidance : Fields → List String
  unfolding guidance_of
  schema_diff_recovery_guidance schema_diff =
      guidance_of (objects (get_or "operations" (arr nil) schema_diff))
