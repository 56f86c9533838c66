-- ===== src/Controllers/Submit.antt =====
-- driftsql/controllers/validated_submit.py: the first executed query behind a schema diff whose
-- result matches the stored contract. The SQL parser, the files and the databases are parameters.
pub mod Accepted
mod Tests
use drift_sql.Prelude.{
  ℕ, ◌+◌, String, ◌<>◌, Bool, true, false, not, ◌&&◌, ◌||◌, Option, none, some, List, [], ◌∷◌, ◌==◌,
  leb, eqb, if◌then◌else◌,
}
use drift_sql.Result.{◌>>=◌, or_raise, type_error, key_error, Result, ok, raised}
use drift_sql.Python.{Python, str_of, int_of}
use drift_sql.Python.Values.{
  ℤ, Json, Fields, get, get_or, truthy, flag, pos, negsuc, null, text, obj, end,
}
use drift_sql.Python.Text.{strip}
use drift_sql.Policy.Event.{Event}
use drift_sql.Service.Tools.{as_dict}

-- A materialized database, or the name of the exception's type.
pub data Materialized : Type 0 where
  made : String → Materialized
  failed : String → Materialized

pub record Sandboxes : Type 0 where
  -- `sqlglot.parse`: for each expression, whether it is a query; `none` if it raises
  pub parse : String → Option (List Bool)
  -- `Path(...).resolve().is_file()`
  pub is_file : String → Bool
  -- `materialize_schema_diff`, from the source database and the diff
  pub materialize : String → Fields → Materialized
  -- `fingerprint_query` of a database and a query: the row count and the hash; `none` if it raises
  pub fingerprint : String → String → Option (ℕ × String)

pub record ContractDecision : Type 0 where
  pub accepted : Bool
  pub reason : String
  pub sql : String
  pub event_index : ℤ
  pub read_only : Bool
  pub diff_inspected_before_execution : Bool
  pub sandbox_execution_succeeded : Bool
  pub fingerprint_match : Bool
  pub expected_row_count : ℤ
  pub actual_row_count : ℤ
  pub expected_value_hash : String
  pub actual_value_hash : String

-- `ContractDecision(False, reason)`
unfoldable pub refuse : String → ContractDecision
refuse reason = record {
  accepted = false;
  reason = reason;
  sql = "";
  event_index = negsuc 0;
  read_only = false;
  diff_inspected_before_execution = false;
  sandbox_execution_succeeded = false;
  fingerprint_match = false;
  expected_row_count = negsuc 0;
  actual_row_count = negsuc 0;
  expected_value_hash = "";
  actual_value_hash = "";
}

pub record Candidate : Type 0 where
  pub index : ℕ
  pub sql : String
  pub read_only : Bool
  pub succeeded : Bool

-- The stored row count and hash.
pub record Contract : Type 0 where
  pub row_count : ℤ
  pub value_hash : String

abbrev pub is_count : ℤ → ℕ → Bool
is_count (pos m) n = eqb m n
is_count (negsuc m) n = false

abbrev is_one_query : Option (List Bool) → Bool
is_one_query none = false
is_one_query (some []) = false
is_one_query (some (q ∷ [])) = q
is_one_query (some (q ∷ r ∷ rs)) = false

-- `dict(value or {})`; a list of pairs is refused here.
unfoldable pub dict_or_empty : Json → Result Fields
dict_or_empty (obj d) = ok d
dict_or_empty v = if truthy v then raised type_error else ok end

-- `parse` is asked only for a text that is not blank.
unfoldable pub is_read_only_query : Sandboxes → String → Bool
is_read_only_query boxes sql = if strip sql == "" then false else is_one_query (boxes.parse sql)

module _ (py : Python) (boxes : Sandboxes) where
  -- `str(event.get("tool_name", event.get("tool", "")))`
  unfoldable pub called_tool : Event → String
  called_tool e = str_of py (get_or "tool_name" (get_or "tool" (text "") e) e)

  unfoldable pub is_diff_event : Event → Bool
  unfolding called_tool
  is_diff_event e = called_tool e == "inspect_schema_diff" && not (flag "error" e)

  -- The position of the first diff, which is the least.
  unfoldable pub first_diff_from : ℕ → List Event → Option ℕ
  unfolding is_diff_event
  first_diff_from i [] = none
  first_diff_from i (e ∷ es) =
      let rest = first_diff_from (i + 1) es in if is_diff_event e then some i else rest

  unfoldable pub succeeded_flag : Fields → Bool
  succeeded_flag metrics = flag "execution_success" metrics || flag "success" metrics

  -- The candidate of one execution behind the diff; a blank text gives none.
  unfoldable pub candidate_of : ℕ → Event → Result (Option Candidate)
  unfolding is_read_only_query succeeded_flag as_dict
  candidate_of i e = do
    arguments ← as_dict (get_or "arguments" (obj end) e)
    let sql = strip (str_of py (get_or "sql" (text "") arguments))
    metrics ← as_dict (get_or "metrics" (obj end) e)
    let candidate : Candidate = record {
      index = i;
      sql = sql;
      read_only = is_read_only_query boxes sql;
      succeeded = succeeded_flag metrics;
    }
    ok (if sql == "" then none else some candidate)

  abbrev pub add_candidate : Option Candidate → List Candidate → List Candidate
  add_candidate none cs = cs
  add_candidate (some c) cs = c ∷ cs

  unfoldable pub candidates_from : ℕ → ℕ → List Event → Result (List Candidate)
  unfolding candidate_of called_tool
  candidates_from first i [] = ok []
  candidates_from first i (e ∷ es) =
      let rest = candidates_from first (i + 1) es in
      if leb i first || not (called_tool e == "execute_sql")
      then rest
      else (do c ← candidate_of i e; cs ← rest; ok (add_candidate c cs))

  unfoldable pub is_match : Contract → Option (ℕ × String) → Bool
  is_match contract none = false
  is_match contract (some (count, hash)) =
      is_count contract.row_count count && hash == contract.value_hash

  abbrev actual_count : Option (ℕ × String) → ℤ
  actual_count none = negsuc 0
  actual_count (some p) = pos p.0

  abbrev actual_hash : Option (ℕ × String) → String
  actual_hash none = ""
  actual_hash (some p) = p.1

  unfoldable pub accept : String → Contract → Candidate → ContractDecision
  accept database contract c = record {
    accepted = true;
    reason = "contract_validated";
    sql = c.sql;
    event_index = pos c.index;
    read_only = true;
    diff_inspected_before_execution = true;
    sandbox_execution_succeeded = c.succeeded;
    fingerprint_match = true;
    expected_row_count = contract.row_count;
    actual_row_count = actual_count (boxes.fingerprint database c.sql);
    expected_value_hash = contract.value_hash;
    actual_value_hash = actual_hash (boxes.fingerprint database c.sql);
  }

  -- No candidate matched.
  unfoldable pub mismatch : Contract → Bool → ContractDecision
  unfolding refuse
  mismatch contract false = refuse "no_safe_successful_post_diff_execution"
  mismatch contract true = record (refuse "result_contract_mismatch") {
    read_only = true;
    diff_inspected_before_execution = true;
    sandbox_execution_succeeded = true;
    expected_row_count = contract.row_count;
    expected_value_hash = contract.value_hash;
  }

  -- The loop over the candidates, with `saw_safe_success`.
  unfoldable pub judge : String → Contract → Bool → List Candidate → ContractDecision
  unfolding mismatch accept is_match refuse
  judge database contract saw [] = mismatch contract saw
  judge database contract saw (c ∷ cs) =
      let unsuccessful = judge database contract saw cs in
      let unmatched = judge database contract true cs in
      if not c.read_only
      then refuse "unsafe_post_diff_candidate"
      else if not c.succeeded
      then unsuccessful
      else if is_match contract (boxes.fingerprint database c.sql)
      then accept database contract c
      else unmatched

  -- The stored contract; any error in reading it means that there is none.
  unfoldable pub read_contract : Fields → Result Contract
  read_contract expected = do
    count ← or_raise (key_error "row_count") (get "row_count" expected)
    n ← int_of py count
    hash ← or_raise (key_error "value_hash") (get "value_hash" expected)
    ok (record { row_count = n; value_hash = str_of py hash })

  -- The candidates are judged on a fresh database that has the new schema.
  unfoldable pub on_candidates : Contract → String → Fields → List Candidate → ContractDecision
  unfolding judge refuse
  on_candidates contract source diff [] = refuse "no_safe_successful_post_diff_execution"
  on_candidates contract source diff (c ∷ cs) = elim (boxes.materialize source diff) [
    | made database ↦ judge database contract false (c ∷ cs)
    | failed name ↦ refuse ("materialization_failed:" <> name)
  ]

  unfoldable pub on_diff :
      Contract → String → Fields → List Event → Option ℕ → Result ContractDecision
  unfolding on_candidates candidates_from
  on_diff contract source diff trajectory none = ok (refuse "schema_diff_not_inspected")
  on_diff contract source diff trajectory (some first) = do
    candidates ← candidates_from first 0 trajectory
    ok (on_candidates contract source diff candidates)

  unfoldable pub on_database : Contract → String → Json → List Event → Result ContractDecision
  unfolding on_diff first_diff_from
  on_database contract source (obj diff) trajectory =
      if boxes.is_file source
      then on_diff contract source diff trajectory (first_diff_from 0 trajectory)
      else ok (refuse "missing_database_or_schema_diff")
  on_database contract source _ trajectory = ok (refuse "missing_database_or_schema_diff")

  unfoldable pub on_contract : Fields → List Event → Result Contract → Result ContractDecision
  unfolding on_database
  on_contract extra trajectory (raised e) = ok (refuse "missing_result_contract")
  on_contract extra trajectory (ok contract) =
      if contract.value_hash == ""
      then ok (refuse "missing_result_contract")
      else on_database contract (str_of py (get_or "source_db" (text "") extra))
          (get_or "schema_diff" null extra) trajectory

  unfoldable pub find_contract_validated_submission : List Event → Fields → Result ContractDecision
  unfolding on_contract read_contract dict_or_empty
  find_contract_validated_submission trajectory extra = do
    expected ← dict_or_empty (get_or "result_fingerprint" (obj end) extra)
    on_contract extra trajectory (read_contract expected)
