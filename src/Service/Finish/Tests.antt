-- ===== src/Service/Finish/Tests.antt =====
-- A started session on the sample store, whose model submits at once.
use drift_sql.Prelude.{ℕ, ◌+◌, ◌-◌, ◌≡◌, refl, true, false, none, some, [], ◌∷◌}
use drift_sql.Result.{ok}
use drift_sql.Python.Sample.{sample}
use drift_sql.Python.Values.{pos, null, bool, int, end, field}
use drift_sql.Service.Types.{SessionStatus, SessionMode, InferenceBudget, SessionRead}
use drift_sql.Service.Repository.{Db, find_session, update_session, save_session}
use drift_sql.Service.Repository.Invariant.{save_session-IsWellFormed}
use drift_sql.Service.Toolbox.{Toolbox, ReleasesQuietly}
use drift_sql.Service.Sample.{sample_session, two, two-IsWellFormed}
use drift_sql.Service.Orchestrator.{Surroundings, generated}
use drift_sql.Service.Lifecycle.{World}
use drift_sql.Service.Finish.{Closing, run_guarded}
use drift_sql.Service.Finish.Ends.{IsOver, run_guarded-IsOver}

abbrev box : Toolbox ℕ
box = record {
  names = "submit_solution" ∷ [];
  create = λ n id truth kwargs s. (s, none);
  run = λ n id arguments s. (s + 1, ok ("done", null, field "submitted" (bool true) end));
  release = λ n id s. (s - 1, none);
  executor_state = λ id s. end;
}

abbrev env : Surroundings
env = record {
  is_cancelled = λ turn. false;
  generate = λ turn shown active.
      generated (record { content = "go"; prompt_tokens = 3; response_tokens = 2; elapsed_ms = 1 });
  find_tool_calls = λ s. record { name = "submit_solution"; arguments = end } ∷ [];
  without_call = λ s call. "";
  now = λ turn. "t2";
  tool_ms = λ turn. 1;
}

abbrev closing : Closing
closing = record {
  score = λ outputs extra. ok (field "score" (int (pos 1)) (field "task_success" (bool true) end));
  repr = λ e. "error";
  now = "t3";
  is_cancelled = false;
  elapsed_ms = 9;
}

abbrev limits : InferenceBudget
limits = record {
  max_turns = 2;
  timeout_ms = 1000;
  max_tool_calls = 2;
  max_new_tokens = 16;
  max_total_tokens = 64;
}

abbrev queued_session : SessionRead
queued_session = record (sample_session "a") {
  status = SessionStatus.queued;
  budget = some limits;
  updated_at = "t1";
}

abbrev queued_rows : Db
queued_rows = record two {
  sessions = record { key = "a"; created = "t0"; payload = queued_session } ∷ [];
}

queue : save_session "t1" queued_session two ≡ ok (queued_session, queued_rows)
unfolding save_session find_session update_session
queue = refl

abbrev world : World ℕ
world = record {
  db = queued_rows;
  runtime = record {
    session_tools = ("a", "submit_solution" ∷ []) ∷ [];
    session_modes = [];
    tools = 0;
  };
  active =
      (
        "a",
        record {
          scenario_id = "scn";
          create_kwargs = end;
          messages = [];
          mode = SessionMode.recovery;
          reward_extra_info = end;
          tool_events = [];
          model_outputs = [];
        },
      )
      ∷ [];
  cancelled = [];
}

quiet : ReleasesQuietly box
quiet n id s = refl

run_guarded-IsOver_example :
    IsOver sample closing "a" (run_guarded sample closing box env "a" world)
run_guarded-IsOver_example =
    run_guarded-IsOver sample closing box env "a" world quiet
      (save_session-IsWellFormed "t1" queued_session two two-IsWellFormed queue)
