-- ===== src/Verl/Tests.antt =====
-- A user with one ambiguity, a schema of two tables, a knowledge base of two entries, and an executor
-- with one database.
use drift_sql.Prelude.{
  ◌+◌, ◌≤◌, String, ◌≡◌, refl, ◌⊎◌, true, false, none, some, List, [], ◌∷◌, arith, keep, contains,
  sorted_set,
}
use drift_sql.Result.{map_result, ok}
use drift_sql.Python.{str_of, int_of, casefold}
use drift_sql.Python.Values.{
  Fields, get, get_or, put, truthy, flag, to_list, pos, null, bool, int, text, arr, obj, nil, cons,
  end, field,
}
use drift_sql.Python.Text.{strip}
use drift_sql.Service.Toolbox.{lookup}
use drift_sql.Verl.Instances.{Files, Answer, no_reward, holds_instance}
use drift_sql.Verl.Asking.{ask}
use drift_sql.Verl.Asking.Published.{IsFixed, Published, ask-Published}
use drift_sql.Verl.Asking.Budget.{IsCounted, ask_all, ask_each, answered_count, ask_all-IsCounted}
use drift_sql.Verl.Schema.{matching_blocks}
use drift_sql.Verl.Schema.Blocks.{IsRetrieved, matching_blocks-IsRetrieved}
use drift_sql.Verl.Knowledge.{create_knowledge}
use drift_sql.Verl.Knowledge.Kept.{create_knowledge-Kept}
use drift_sql.Verl.Executor.{Session, Executor}
use drift_sql.Verl.Executor.Clean.{IsClean}
use drift_sql.Verl.Executor.Owned.{directory_of}
use drift_sql.Verl.Executor.Serve.{Call, serve, serve-IsClean, creates, releases}
use drift_sql.Verl.Execution.{Host, QueryResult, execution_answer, execute_query}
use drift_sql.Verl.Execution.Validated.{IsValidated, execute_query-Validated}
use drift_sql.Drift.Sample.{numbered, sqlite, paths, hashing, paths_new}

abbrev ambiguity : Fields
ambiguity = field "term" (text "region") (field "sql_snippet" (text "SUM") end)

abbrev asking : Fields
asking =
    field "user_query_ambiguity"
      (obj (field "critical_ambiguity" (arr (cons (obj ambiguity) nil)) end))
      (field "_asked_terms" (arr nil) (field "_question_count" (int (pos 0)) end))

abbrev told : Answer
told = (
  "For 'region', the intended business definition is: SUM",
  no_reward,
  field "clarification_matched" (bool true) (
      field "duplicate_question" (bool false)
        (field "term" (text "region") (field "ambiguity_type" null end))),
)

abbrev asked : Fields
asked = (ask numbered end "which region" asking).0

answered : ask numbered end "which region" asking ≡ (asked, ok told)
unfolding ask int_of get_or put map_result to_list keep sorted_set casefold contains strip str_of
answered = refl

ask-Published_example : IsFixed numbered told ⊎ Published numbered "which region" asking told
ask-Published_example = ask-Published numbered end "which region" asking asked told answered

ask_all-IsCounted_example :
    IsCounted
      (0
        + answered_count numbered
            (ask_each numbered end ("which region" ∷ "a" ∷ "b" ∷ "c" ∷ []) asking))
      (ask_all numbered end ("which region" ∷ "a" ∷ "b" ∷ "c" ∷ []) asking)
    × (0
          + answered_count numbered
              (ask_each numbered end ("which region" ∷ "a" ∷ "b" ∷ "c" ∷ []) asking)
        ≤ 3)
unfolding get_or get
ask_all-IsCounted_example =
    ask_all-IsCounted numbered end ("which region" ∷ "a" ∷ "b" ∷ "c" ∷ []) asking 3 0 refl refl
      (omega arith)

abbrev blocks : List String
blocks = "CREATE TABLE sales" ∷ "CREATE TABLE region" ∷ []

matching_blocks-IsRetrieved_example :
    IsRetrieved numbered "region" blocks (matching_blocks numbered "region" blocks)
matching_blocks-IsRetrieved_example = matching_blocks-IsRetrieved numbered "region" blocks refl

abbrev entries : List Fields
entries =
    field "knowledge" (text "revenue") (field "definition" (text "sum of region") end)
    ∷ field "knowledge" (text "region") end
    ∷ []

abbrev no_files : Files
no_files = record { is_file = λ p. false; read_text = λ p. ""; read_lines = λ p. [] }

abbrev unreadable : Fields
unreadable =
    field "db_id" (text "shop") (field "knowledge_entries" (arr (cons (int (pos 1)) nil)) end)

create_knowledge-Kept_example :
    holds_instance "s" (create_knowledge numbered no_files "s" unreadable []).0 ≡ true
unfolding flag truthy get
create_knowledge-Kept_example = create_knowledge-Kept numbered no_files "s" unreadable [] refl

abbrev idle : Executor String
idle = record { instances = []; disk = record { files = ("/db", "data:") ∷ []; temporaries = [] } }

idle-IsClean : IsClean idle
unfolding IsClean contains directory_of lookup
idle-IsClean = record { stands = λ id t h. cc; owner = λ t h. cc; alone = λ i j t h k. cc }

abbrev kwargs : Fields
kwargs = field "db_id" (text "shop") (field "db_path" (text "/db") end)

abbrev calls : List Call
calls = creates "a" kwargs ∷ creates "b" kwargs ∷ creates "c" unreadable ∷ releases "a" ∷ []

serve-IsClean_example : IsClean (serve numbered sqlite paths end calls idle)
serve-IsClean_example = serve-IsClean numbered sqlite paths end paths_new calls idle idle-IsClean

abbrev host : Host
host = record {
  float_of = λ v. ok v;
  elapsed_ms = null;
  message = λ e. "error";
  named_message = λ e. "error";
}

abbrev session : Session
session = record {
  fields = field "db_id" (text "shop") (
      field "db_path" (text "/db") (
        field "result_fingerprint"
          (obj (field "row_count" (int (pos 2)) (field "value_hash" (text "r\nr\n") end))) end));
  temporary = none;
}

abbrev opened : Executor String
opened = record { instances = ("a", session) ∷ []; disk = idle.disk }

abbrev query : Fields
query = field "sql" (text "SELECT total FROM sales") end

abbrev shown : QueryResult
shown = record {
  success = true;
  failure = none;
  columns = "total" ∷ [];
  rows = text "1" ∷ text "2" ∷ [];
  truncated = false;
  rolled_back = true;
  elapsed = null;
}

abbrev expected : Fields
expected = field "row_count" (int (pos 2)) (field "value_hash" (text "r\nr\n") end)

abbrev executed : Answer
executed =
    execution_answer numbered host session expected shown
      (record { checked = true; matches = some true; failure = none })

query_runs : execute_query numbered host sqlite paths hashing end "a" query opened ≡ ok executed
unfolding execute_query lookup int_of get_or str_of
query_runs = refl

execute_query-Validated_example :
    (s : Session) × (lookup "a" opened.instances ≡ some s)
    × IsValidated numbered host hashing sqlite paths "SELECT total FROM sales" s opened
unfolding get str_of get_or execution_answer
execute_query-Validated_example =
    execute_query-Validated numbered host hashing sqlite paths end "a" query opened query_runs refl
