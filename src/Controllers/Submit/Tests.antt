-- ===== src/Controllers/Submit/Tests.antt =====
-- A trajectory that inspects the diff and then runs one query that matches the contract.
use drift_sql.Prelude.{String, ◌≡◌, refl, true, some, List, [], ◌∷◌}
use drift_sql.Result.{ok}
use drift_sql.Python.{str_of, int_of}
use drift_sql.Python.Sample.{sample}
use drift_sql.Python.Values.{
  Fields, get, get_or, truthy, flag, pos, bool, int, text, obj, end, field,
}
use drift_sql.Python.Text.{is_space, drop_left, drop_right, strip}
use drift_sql.Policy.Event.{Event}
use drift_sql.Service.Tools.{as_dict}
use drift_sql.Controllers.Submit.{
  Sandboxes, Candidate, Contract, dict_or_empty, is_read_only_query, called_tool, is_diff_event,
  first_diff_from, succeeded_flag, candidate_of, candidates_from, is_match, accept, judge,
  read_contract, on_candidates, on_diff, on_database, on_contract,
  find_contract_validated_submission, made,
}
use drift_sql.Controllers.Submit.Accepted.{Accepted, Stored, find-accepted}

abbrev boxes : Sandboxes
boxes = record {
  parse = λ s. some (true ∷ []);
  is_file = λ s. true;
  materialize = λ s d. made "new";
  fingerprint = λ d s. some (3, "hash");
}

abbrev trajectory : List Event
trajectory =
    field "tool" (text "inspect_schema_diff") end
    ∷ field "tool" (text "execute_sql") (
        field "arguments" (obj (field "sql" (text "SELECT 1") end))
          (field "metrics" (obj (field "execution_success" (bool true) end)) end))
    ∷ []

abbrev extra : Fields
extra =
    field "result_fingerprint"
      (obj (field "row_count" (int (pos 3)) (field "value_hash" (text "hash") end)))
      (field "source_db" (text "shop.sqlite") (field "schema_diff" (obj end) end))

abbrev contract : Contract
contract = record { row_count = pos 3; value_hash = "hash" }

abbrev winner : Candidate
winner = record { index = 1; sql = "SELECT 1"; read_only = true; succeeded = true }

decided :
    find_contract_validated_submission sample boxes trajectory extra
    ≡ ok (accept sample boxes "new" contract winner)
unfolding find_contract_validated_submission dict_or_empty read_contract on_contract on_database
    on_diff first_diff_from candidates_from candidate_of called_tool is_diff_event on_candidates
    judge accept is_match strip get get_or str_of int_of flag truthy as_dict is_read_only_query
    succeeded_flag drop_left drop_right is_space
decided = refl

find-accepted_example :
    (kept : Contract) × (source : String) × (diff : Fields) × Stored sample boxes extra kept source
      diff
    × Accepted sample boxes trajectory source diff kept (accept sample boxes "new" contract winner)
unfolding accept
find-accepted_example = find-accepted sample boxes trajectory extra decided refl
