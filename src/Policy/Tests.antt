-- ===== src/Policy/Tests.antt =====
-- Runs of the state policy on short trajectories, and its theorems at concrete data.
use drift_sql.Prelude.{
  ℕ, ◌*◌, ◌≤◌, max, String, ◌≡◌, refl, ◌≢◌, ◌↔◌, inl, Bool, true, false, ◌&&◌, some, List, [], ◌∷◌,
  map, arith, keep, any, last, All, Any, LastWith, contains, minus, single, Subset,
}
use drift_sql.Result.{Result, ok}
use drift_sql.Python.{Python, str_of, int_of, casefold}
use drift_sql.Python.Sample.{sample}
use drift_sql.Python.Values.{
  Fields, get_or, flag, is_false, is_true, pos, null, bool, int, text, arr, obj, nil, end, field,
}
use drift_sql.Python.Text.{strip, strip_semicolons}
use drift_sql.Policy.Event.{Event, event_name, event_was_masked, event_observation}
use drift_sql.Policy.Recovery.{
  Completed, is_valid, is_named, is_field_false, is_trigger, positions,
  required_contract_recovery_action, has_validated_execution,
}
use drift_sql.Policy.Recovery.Settled.{Settled, required-eq-empty_iff}
use drift_sql.Policy.Recovery.Discharge.{required-discharged}
use drift_sql.Policy.Select.{
  submit, View, view, completed_from, unmasked, select_dynamic_tool_names,
}
use drift_sql.Policy.Select.Total.{Answers, IsReadable, select-Answers}
use drift_sql.Policy.Select.Laws.{select-Subset}
use drift_sql.Policy.Select.OneShot.{repeats_only_required, submit_only_validated}
use drift_sql.Policy.Select.Forced.{FirstMismatch, mismatch_forces_version}
use drift_sql.Policy.Repair.{normalize, should_apply_audited_repair, Holds, apply_only_stale}
use drift_sql.Policy.Mask.{is_set, count_active, key_action_response_mask}
use drift_sql.Policy.Mask.Bounds.{Selects, mask-Selects, mask_trains}

abbrev all_tools : List String
all_tools =
    "ask_user" ∷ "get_schema" ∷ "get_schema_version" ∷ "inspect_schema_diff" ∷ "execute_sql"
    ∷ "submit_solution" ∷ []

abbrev event : String → Fields → Event
event tool response = field "tool" (text tool) (field "response" (obj response) end)

abbrev schema_event : Event
schema_event = event "get_schema" (field "schema" (text "CREATE TABLE t(a)") end)

abbrev failed_event : Event
failed_event = event "execute_sql" (field "success" (bool false) end)

abbrev version_event : Event
version_event = event "get_schema_version" (field "db_version" (text "v2") end)

abbrev diff_event : Event
diff_event = event "inspect_schema_diff" (field "operations" (arr nil) end)

abbrev validated_event : Event
validated_event =
    event "execute_sql" (field "success" (bool true) (field "validated_for_submit" (bool true) end))

run : List Event → Bool → Result (List String)
unfolding select_dynamic_tool_names event_name event_was_masked event_observation str_of flag
    is_valid is_trigger is_named required_contract_recovery_action has_validated_execution contains
    minus keep any last get_or is_true is_false
run events execution_only = select_dynamic_tool_names sample events all_tools false execution_only

-- A failed execution asks for the version, then for the diff, then for nothing.
recovery_run :
    (run (schema_event ∷ failed_event ∷ []) false ≡ ok (single "get_schema_version"))
    × (run (schema_event ∷ failed_event ∷ version_event ∷ []) false
        ≡ ok (single "inspect_schema_diff"))
    × (run (schema_event ∷ failed_event ∷ version_event ∷ diff_event ∷ []) false
        ≡ ok ("ask_user" ∷ "execute_sql" ∷ "submit_solution" ∷ []))
    × (run (failed_event ∷ version_event ∷ diff_event ∷ validated_event ∷ []) false
        ≡ ok (single "submit_solution"))
unfolding run
recovery_run = (refl, refl, refl, refl)

free_query_run :
    (run [] true ≡ ok (single "get_schema"))
    × (run (schema_event ∷ validated_event ∷ []) true ≡ ok (single "submit_solution"))
unfolding run
free_query_run = (refl, refl)

readable : IsReadable sample (schema_event ∷ failed_event ∷ [])
unfolding event_was_masked str_of flag get_or
readable = ((false, refl), ((false, refl), tt))

abbrev mismatched : List Event
mismatched = schema_event ∷ failed_event ∷ []

select-Subset_example : Subset (single "get_schema_version") all_tools
unfolding run
select-Subset_example = select-Subset sample mismatched all_tools false false refl

select-Answers_example : Answers (select_dynamic_tool_names sample mismatched all_tools false false)
select-Answers_example = select-Answers sample mismatched all_tools false false readable

-- The version was checked before the failure, and is asked for again.
abbrev rechecked : List Event
rechecked = version_event ∷ failed_event ∷ []

repeats_only_required_example :
    required_contract_recovery_action (completed_from 0 (map (view sample) rechecked))
    ≡ "get_schema_version"
unfolding run
repeats_only_required_example =
    repeats_only_required sample rechecked all_tools false "get_schema_version" refl
      (inl (refl, refl)) refl refl

abbrev free_query : List Event
free_query = schema_event ∷ validated_event ∷ []

submit_only_validated_example :
    (completed : List View) × (unmasked (map (view sample) free_query) ≡ ok completed)
    × (single submit ≡ single submit)
    × (e : Completed) × LastWith
        (λ c. is_named "execute_sql" c && is_valid c)
        (completed_from 0 completed)
        e
    × (is_true (get_or "validated_for_submit" null e.observation) ≡ true)
unfolding run
submit_only_validated_example = submit_only_validated sample free_query all_tools false refl refl

first_mismatch : FirstMismatch sample (schema_event ∷ []) failed_event
unfolding run is_field_false
first_mismatch = (refl, refl, refl, ((λ h. cc), tt))

mismatch_forces_version_example :
    select_dynamic_tool_names sample mismatched all_tools false false
    ≡ ok (single "get_schema_version")
unfolding contains
mismatch_forces_version_example =
    mismatch_forces_version sample (schema_event ∷ []) failed_event all_tools false readable
      first_mismatch refl

abbrev at : ℕ → String → Fields → Completed
at i name d = record { index = i; name = name; observation = d }

abbrev failure : Completed
failure = at 0 "execute_sql" (field "success" (bool false) end)

required-eq-empty_example :
    (required_contract_recovery_action (failure ∷ []) ≡ "")
    ↔ All
        (Settled (keep is_valid (failure ∷ [])))
        (positions is_trigger (keep is_valid (failure ∷ [])))
required-eq-empty_example = required-eq-empty_iff (failure ∷ [])

required-discharged_example :
    required_contract_recovery_action
      (failure ∷ at 1 "get_schema_version" end ∷ at 2 "inspect_schema_diff" end ∷ [])
    ≡ ""
unfolding is_valid flag get_or
required-discharged_example =
    required-discharged (failure ∷ []) (at 1 "get_schema_version" end)
      (at 2 "inspect_schema_diff" end) (refl, refl, omega arith) (refl, refl, omega arith)

-- A Python whose JSON reader finds a changed repair candidate.
abbrev repairing : Python
repairing = record sample {
  loads = λ s. some (
      obj (
        field "repair_candidate"
          (obj (field "changed" (bool true) (field "repaired_sql" (text "SELECT b ") end))) end));
}

abbrev repair_event : Event
repair_event = field "tool" (text "inspect_schema_diff") (field "response" (text "...") end)

apply_only_stale_example :
    (normalize repairing "SELECT a;" ≡ normalize repairing "SELECT a")
    × (normalize repairing "SELECT b" ≢ normalize repairing "SELECT a;")
    × Any (Holds repairing "SELECT b") (repair_event ∷ [])
unfolding should_apply_audited_repair normalize event_name event_was_masked str_of flag strip
    casefold strip_semicolons
apply_only_stale_example =
    apply_only_stale repairing (repair_event ∷ []) "SELECT a;" "SELECT a" refl (λ h. cc)

abbrev submitted : Event
submitted =
    field "tool" (text "submit_solution")
      (field "model_token_start" (int (pos 1)) (field "model_token_end" (int (pos 4)) end))

masked_run :
    key_action_response_mask sample (1 ∷ 1 ∷ 0 ∷ 1 ∷ 1 ∷ []) (submitted ∷ []) (pos 2)
    ≡ ok (0 ∷ 0 ∷ 0 ∷ 1 ∷ 0 ∷ [])
unfolding key_action_response_mask event_name event_was_masked str_of int_of flag any
masked_run = refl

mask-Selects_example :
    Selects (1 ∷ 1 ∷ 0 ∷ 1 ∷ 1 ∷ []) (0 ∷ 0 ∷ 0 ∷ 1 ∷ 0 ∷ [])
    × (count_active (0 ∷ 0 ∷ 0 ∷ 1 ∷ 0 ∷ []) ≤ 2 * max 1 1)
mask-Selects_example = mask-Selects sample (1 ∷ 1 ∷ 0 ∷ 1 ∷ 1 ∷ []) (submitted ∷ []) 2 masked_run

mask_trains_example : any is_set (0 ∷ 0 ∷ 0 ∷ 1 ∷ 0 ∷ []) ≡ true
unfolding any
mask_trains_example = mask_trains sample (1 ∷ 1 ∷ 0 ∷ 1 ∷ 1 ∷ []) (submitted ∷ []) 2 masked_run refl
