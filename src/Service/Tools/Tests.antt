-- ===== src/Service/Tools/Tests.antt =====
-- A set of tools that keeps a list of its entries and cannot create `broken`.
use drift_sql.Prelude.{
  String, ◌≡◌, refl, ◌⊎◌, inl, inr, Bool, true, not, ◌&&◌, ◌||◌, none, some, List, [], ◌∷◌, arith,
  ◌==◌, eq_iff, if◌then◌else◌, Bool-cases, keep, any, last, contains, minus,
}
use drift_sql.Result.{Error, runtime_error, ok, raised}
use drift_sql.Python.{str_of}
use drift_sql.Python.Sample.{sample}
use drift_sql.Python.Values.{Fields, get, get_or, truthy, flag, null, bool, end, field}
use drift_sql.Policy.Select.{select_dynamic_tool_names}
use drift_sql.Policy.Recovery.{required_contract_recovery_action, has_validated_execution}
use drift_sql.Service.Toolbox.{lookup, set, Toolbox, ReleasesQuietly, IsTracked}
use drift_sql.Service.Tools.{
  Runtime, is_execution_only, executor_first, schemas_for, release_all, create_all, sandbox_of,
  registered, initialize_session, execute, release_session,
}
use drift_sql.Service.Tools.Admission.{IsAdmitted, execute-IsAdmitted, execute_unshown}
use drift_sql.Service.Tools.Sessions.{
  IsFree, initialize_session-raised, release_session-initialize_session,
}

abbrev Entries : Type 0
Entries = List (String × String)

abbrev is_entry : String → String → String × String → Bool
is_entry m j p = p.0 == m && j == p.1

abbrev box : Toolbox Entries
box = record {
  names = "execute_sql" ∷ "get_schema" ∷ "broken" ∷ [];
  create = λ n id truth kwargs s.
      if n == "broken" then (s, some (runtime_error "broken")) else ((n, id) ∷ s, none);
  run = λ n id arguments s. (s, ok ("done", null, end));
  release = λ n id s. (keep (λ p. not (is_entry n id p)) s, none);
  executor_state = λ id s. field "session_isolated" (bool true) end;
}

created_lem :
    (n id truth : String) (kwargs : Fields) (s : Entries)
    → (box.create n id truth kwargs s).1 ≡ none
    → (m j : String)
    → any (is_entry m j) (box.create n id truth kwargs s).0
      ≡ (any (is_entry m j) s || (n == m && j == id))
unfolding any
created_lem n id truth kwargs s h m j = elim (Bool-cases (n == "broken")) [
  | inl y ↦ let bad = rw y at h in cc
  | inr ok_name ↦ rw ok_name (ground arith)
]

refused_lem :
    (n id truth : String) (kwargs : Fields) (s : Entries) (e : Error)
    → (box.create n id truth kwargs s).1 ≡ some e
    → (m j : String) → any (is_entry m j) (box.create n id truth kwargs s).0 ≡ any (is_entry m j) s
unfolding any
refused_lem n id truth kwargs s e h m j = elim (Bool-cases (n == "broken")) [
  | inl y ↦ rw y refl
  | inr ok_name ↦ let bad = rw ok_name at h in cc
]

released_lem :
    (n id : String) (s : Entries) (m j : String)
    → any (is_entry m j) (keep (λ p. not (is_entry n id p)) s)
      ≡ (any (is_entry m j) s && not (n == m && j == id))
unfolding any keep
released_lem n id [] m j = refl
released_lem n id ((k, v) ∷ s) m j = ground (
  arith,
  released_lem n id s m j,
  eq_iff k n,
  eq_iff k m,
  eq_iff n m,
  eq_iff id v,
  eq_iff j v,
  eq_iff j id,
)

abbrev holds : String → String → Entries → Bool
holds m j s = any (is_entry m j) s

abbrev tracked : IsTracked box holds
tracked = record {
  created = created_lem;
  refused = refused_lem;
  released = released_lem;
  ran = λ n id a s m j. refl;
}

quiet : ReleasesQuietly box
quiet n id s = refl

abbrev idle : Runtime Entries
idle = record { session_tools = []; session_modes = []; tools = ("execute_sql", "b") ∷ [] }

abbrev working : Runtime Entries
working = record {
  session_tools = ("a", "get_schema" ∷ "execute_sql" ∷ []) ∷ [];
  session_modes = ("a", "result_contract") ∷ [];
  tools = ("get_schema", "a") ∷ ("execute_sql", "a") ∷ ("execute_sql", "b") ∷ [];
}

free : IsFree sample box holds tracked quiet "a" idle.tools
unfolding any
free m = ground arith

abbrev pair : List String
pair = "get_schema" ∷ "execute_sql" ∷ []

started :
    initialize_session sample box "a" pair end idle
    ≡ (working, ok (record { sandbox_ref = ""; sandbox_isolated = true }))
unfolding initialize_session create_all registered executor_first sandbox_of set str_of get_or get
    minus keep contains flag truthy
started = refl

failed :
    initialize_session sample box "a" ("broken" ∷ "execute_sql" ∷ []) end idle
    ≡ (idle, raised (runtime_error "broken"))
unfolding initialize_session create_all registered executor_first str_of get_or get minus keep
    contains release_all
failed = refl

execute-IsAdmitted_example :
    ((execute sample box "a" "get_schema" end [] 5 working).0 ≡ working)
    ⊎ ((configured : List String) × (lookup "a" working.session_tools ≡ some configured)
        × IsAdmitted sample configured
            (is_execution_only (lookup "a" working.session_modes))
            "get_schema"
            end
            [])
execute-IsAdmitted_example = execute-IsAdmitted sample box "a" "get_schema" end [] 5 working

initialize_session-raised_example :
    ((m j : String) → any (is_entry m j) idle.tools ≡ any (is_entry m j) idle.tools)
    × (idle.session_tools ≡ idle.session_tools)
    × (idle.session_modes ≡ idle.session_modes)
initialize_session-raised_example =
    initialize_session-raised sample box holds tracked quiet "a" ("broken" ∷ "execute_sql" ∷ []) end
      idle free failed

release_session-initialize_session_example :
    ((m j : String)
      → any (is_entry m j) (release_session sample box "a" working).0.tools
        ≡ any (is_entry m j) idle.tools)
    × ((release_session sample box "a" working).1 ≡ none)
    × (lookup "a" (release_session sample box "a" working).0.session_tools ≡ none)
release_session-initialize_session_example =
    release_session-initialize_session sample box holds tracked quiet "a" pair end idle free started

execute_unshown_example : (execute sample box "a" "ask_user" end [] 5 working).0 ≡ working
unfolding schemas_for lookup select_dynamic_tool_names contains keep minus
    required_contract_recovery_action has_validated_execution last
execute_unshown_example =
    execute_unshown sample box "a" "ask_user" end [] 5 working {shown = pair} refl refl
