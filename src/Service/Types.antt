-- ===== src/Service/Types.antt =====
-- driftsql/service/schemas: the session record, its enumerations and the inference budget.
use drift_sql.Prelude.{ℕ, String, Bool, true, false, Option}
use drift_sql.Python.Values.{Json, Fields}

pub data SessionStatus : Type 0 where
  created queued running completed failed cancelled timed_out budget_exhausted : SessionStatus

pub data SessionMode : Type 0 where
  recovery query : SessionMode

pub data EventType : Type 0 where
  session queued status model tool reward budget error cancelled : EventType

-- `status in TERMINAL_STATUSES`
unfoldable pub is_terminal : SessionStatus → Bool
is_terminal SessionStatus.created = false
is_terminal SessionStatus.queued = false
is_terminal SessionStatus.running = false
is_terminal _ = true

-- The float of seconds is counted in milliseconds.
pub record InferenceBudget : Type 0 where
  pub max_turns : ℕ
  pub timeout_ms : ℕ
  pub max_tool_calls : ℕ
  pub max_new_tokens : ℕ
  pub max_total_tokens : ℕ

pub record UsageMetrics : Type 0 where
  pub model_calls : ℕ
  pub tool_calls : ℕ
  pub prompt_tokens : ℕ
  pub response_tokens : ℕ
  pub elapsed_ms : Json

-- Times are ISO texts.
pub record SessionRead : Type 0 where
  pub session_id : String
  pub scenario_id : String
  pub db_id : String
  pub db_version : String
  pub mode : SessionMode
  pub status : SessionStatus
  pub question : String
  pub stale_sql : String
  pub drift_type : String
  pub wildcard_profile : Option String
  pub created_at : String
  pub updated_at : String
  pub started_at : Option String
  pub completed_at : Option String
  pub termination_reason : Option String
  pub final_sql : Option String
  pub success : Option Bool
  pub cancellation_requested : Bool
  pub sandbox_isolated : Bool
  pub sandbox_ref : String
  pub source_db_sha256 : String
  pub model : Json
  pub budget : Option InferenceBudget
  pub usage : UsageMetrics
  pub labels : Fields
  pub result : Fields

pub record TrajectoryEvent : Type 0 where
  pub session_id : String
  pub sequence : ℕ
  pub event_type : EventType
  pub created_at : String
  pub payload : Fields
