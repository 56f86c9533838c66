-- ===== src/Service/Orchestrator/Tests.antt =====
-- A run of two turns on the sample store, with a model that calls no tool.
use drift_sql.Prelude.{
  ℕ, ◌+◌, ◌≤◌, String, true, false, none, [], ◌∷◌, arith, ◌==◌, eqb, if◌then◌else◌,
}
use drift_sql.Result.{ok}
use drift_sql.Python.Sample.{sample}
use drift_sql.Python.Values.{Fields, null, bool, end, field}
use drift_sql.Service.Types.{SessionMode, InferenceBudget}
use drift_sql.Service.Toolbox.{Toolbox}
use drift_sql.Service.Sample.{sample_session, two, two-IsWellFormed}
use drift_sql.Service.Orchestrator.{Surroundings, Loop, run_turns, generated}
use drift_sql.Service.Orchestrator.Turns.{run_turns-IsSound}
use drift_sql.Service.Orchestrator.Sound.{Upholds, IsSound}

abbrev box : Toolbox ℕ
box = record {
  names = [];
  create = λ n id truth kwargs s. (s, none);
  run = λ n id arguments s. (s + 1, ok ("done", null, field "submitted" (bool true) end));
  release = λ n id s. (s, none);
  executor_state = λ id s. end;
}

-- The first turn says nothing, the second submits.
abbrev env : Surroundings
env = record {
  is_cancelled = λ turn. false;
  generate = λ turn shown active. generated (record {
    content = if eqb turn 1 then "" else "go";
    prompt_tokens = 3;
    response_tokens = 2;
    elapsed_ms = 1;
  });
  find_tool_calls =
      λ s. if s == "" then [] else record { name = "submit_solution"; arguments = end } ∷ [];
  without_call = λ s call. "";
  now = λ turn. "t2";
  tool_ms = λ turn. 1;
}

abbrev limits : InferenceBudget
limits = record {
  max_turns = 2;
  timeout_ms = 1000;
  max_tool_calls = 2;
  max_new_tokens = 16;
  max_total_tokens = 64;
}

abbrev beginning : Loop ℕ
beginning = record {
  session = sample_session "a";
  db = two;
  runtime = record {
    session_tools = ("a", "submit_solution" ∷ []) ∷ [];
    session_modes = [];
    tools = 0;
  };
  active = record {
    scenario_id = "scn";
    create_kwargs = end;
    messages = [];
    mode = SessionMode.recovery;
    reward_extra_info = end;
    tool_events = [];
    model_outputs = [];
  };
}

ran_once : (n id : String) (arguments : Fields) (s : ℕ) → (box.run n id arguments s).0 ≤ s + 1
ran_once n id arguments s = omega arith

run_turns-IsSound_example :
    Upholds (IsSound (λ s. s) 2 beginning) (run_turns sample box env limits 2 1 beginning)
run_turns-IsSound_example =
    run_turns-IsSound sample box env limits (λ s. s) ran_once 2 1 beginning two-IsWellFormed
