-- ===== src/Service/Create.antt =====
-- driftsql/service/inference/orchestrator.py: `create_session`. The catalog's answers, the file
-- system, the identifier and the clock are parameters.
use drift_sql.Prelude.{
  String, ◌<>◌, Bool, true, false, Option, none, some, List, [], ◌==◌, if◌then◌else◌,
}
use drift_sql.Result.{Error, ◌>>=◌, key_error, runtime_error, file_not_found, Result, ok, raised}
use drift_sql.Python.{Python, str_of}
use drift_sql.Python.Values.{
  Json, Fields, get, get_or, put, pos, null, bool, decimal, text, end, field,
}
use drift_sql.Service.Types.{SessionStatus, SessionMode, EventType, SessionRead}
use drift_sql.Service.Repository.{create_session, append_event}
use drift_sql.Service.Toolbox.{set, Toolbox}
use drift_sql.Service.Tools.{Sandbox, newest_error, initialize_session, release_session}
use drift_sql.Service.Orchestrator.{ActiveSession}
use drift_sql.Service.Lifecycle.{World, status_value, transaction}

-- What the catalog says of a scenario.
pub record Scenario : Type 0 where
  pub db_id : String
  pub question : String
  pub stale_sql : String
  pub drift_type : String
  pub wildcard_profile : Option String
  pub create_kwargs : Fields
  pub tool_names : List String
  pub prompt : List Fields
  pub reward_extra_info : Fields

-- `SessionCreate`
pub record SessionCreate : Type 0 where
  pub scenario_id : String
  pub question : String
  pub labels : Fields

pub record Host : Type 0 where
  pub is_scripted : Bool
  pub is_file : String → Bool
  pub file_sha256 : String → String
  pub model : Json
  pub session_id : String
  pub now : String

abbrev pub or_text : String → String → String
or_text s default = if s == "" then default else s

module _ (py : Python) (host : Host) where
  unfoldable pub kwargs_of : Scenario → Fields
  kwargs_of scenario =
      if host.is_scripted
      then put "sync_io" (bool true) scenario.create_kwargs
      else scenario.create_kwargs

  unfoldable pub new_session : SessionCreate → Scenario → SessionRead
  unfolding kwargs_of
  new_session request scenario =
      let kwargs = kwargs_of scenario in
      record {
        session_id = host.session_id;
        scenario_id = request.scenario_id;
        db_id = scenario.db_id;
        db_version = str_of py (get_or "db_version" (text "unknown") kwargs);
        mode = SessionMode.recovery;
        status = SessionStatus.created;
        question = or_text request.question scenario.question;
        stale_sql = scenario.stale_sql;
        drift_type = scenario.drift_type;
        wildcard_profile = scenario.wildcard_profile;
        created_at = host.now;
        updated_at = host.now;
        started_at = none;
        completed_at = none;
        termination_reason = none;
        final_sql = none;
        success = none;
        cancellation_requested = false;
        sandbox_isolated = true;
        sandbox_ref = "sandbox:" <> host.session_id;
        source_db_sha256 = host.file_sha256 (str_of py (get_or "source_db" null kwargs));
        model = host.model;
        budget = none;
        usage = record {
          model_calls = 0;
          tool_calls = 0;
          prompt_tokens = 0;
          response_tokens = 0;
          elapsed_ms = decimal (pos 0) 1;
        };
        labels = request.labels;
        result =
            field "database_session" (text "isolated-copy")
              (field "sandbox_engine" (text "sqlite") end);
      }

  unfoldable pub session_event : SessionRead → Fields
  unfolding status_value
  session_event s = field "status" (text (status_value s.status)) (
      field "scenario_id" (text s.scenario_id) (
        field "db_id" (text s.db_id) (
          field "db_version" (text s.db_version)
            (field "sandbox_ref" (text s.sandbox_ref) (field "model" s.model end)))))

  unfoldable pub new_active : SessionCreate → Scenario → ActiveSession
  unfolding kwargs_of
  new_active request scenario = record {
    scenario_id = request.scenario_id;
    create_kwargs = kwargs_of scenario;
    messages = scenario.prompt;
    mode = SessionMode.recovery;
    reward_extra_info = scenario.reward_extra_info;
    tool_events = [];
    model_outputs = [];
  }

  module _ {S : Type 0} (box : Toolbox S) where
    -- The tools of the session are released, and the exception goes on.
    unfoldable pub abandon : Error → World S → World S × Result SessionRead
    abandon e w =
        let (runtime, failure) = release_session py box host.session_id w.runtime in
        (record w { runtime = runtime }, raised (newest_error py box e failure))

    -- The session is stored and active; its first event is sent.
    unfoldable pub announce :
        SessionCreate → Scenario → SessionRead → World S → World S × Result SessionRead
    unfolding session_event new_active
    announce request scenario s w =
        let (db, outcome) =
          transaction w.db
            (append_event host.now s.session_id EventType.session (session_event s) w.db) in
        (
          record w { db = db; active = set s.session_id (new_active request scenario) w.active },
          (do _ ← outcome; ok s),
        )

    unfoldable pub on_sandbox :
        SessionCreate → Scenario → World S → Result Sandbox → World S × Result SessionRead
    unfolding abandon announce new_session
    on_sandbox request scenario w (raised e) = (w, raised e)
    on_sandbox request scenario w (ok sandbox) =
        let s = new_session request scenario in
        let stored = elim (create_session s w.db) as (λ r. World S × Result SessionRead) [
          | raised e ↦ abandon e w
          | ok db ↦ announce request scenario s (record w { db = db })
        ] in
        if sandbox.sandbox_isolated
        then stored
        else abandon (runtime_error "Sandbox tool did not create an isolated database session") w

    -- `create_kwargs["source_db"]` must be there, and name a file.
    unfoldable pub on_source :
        SessionCreate → Scenario → World S → Option Json → World S × Result SessionRead
    unfolding on_sandbox kwargs_of
    on_source request scenario w none = (w, raised (key_error "source_db"))
    on_source request scenario w (some v) =
        let (rt, outcome) =
          initialize_session py box host.session_id scenario.tool_names (kwargs_of scenario)
            w.runtime in
        if host.is_file (str_of py v)
        then on_sandbox request scenario (record w { runtime = rt }) outcome
        else (w, raised (file_not_found (str_of py v)))

    unfoldable pub open_session :
        SessionCreate → Result Scenario → World S → World S × Result SessionRead
    unfolding on_source
    open_session request (raised e) w = (w, raised e)
    open_session request (ok scenario) w =
        on_source request scenario w (get "source_db" (kwargs_of scenario))
