-- ===== src/Service/Sample.antt =====
-- A small store for the tests: one session, and its first two events.
use drift_sql.Prelude.{ℕ, String, ◌≡◌, refl, true, false, none, [], ◌∷◌, keep, any}
use drift_sql.Result.{ok}
use drift_sql.Python.Values.{null, end}
use drift_sql.Service.Types.{SessionStatus, SessionMode, EventType, SessionRead, TrajectoryEvent}
use drift_sql.Service.Repository.{
  Db, find_session, find_trajectory, events_of, max_sequence, create_session, next_event,
  append_event,
}
use drift_sql.Service.Repository.Invariant.{
  IsWellFormed, create_session-IsWellFormed, append_event-IsWellFormed,
}

abbrev pub no_rows : Db
no_rows = record { sessions = []; events = []; trajectories = [] }

abbrev pub no_rows-IsWellFormed : IsWellFormed no_rows
unfolding events_of keep any
no_rows-IsWellFormed = record {
  numbered = λ id. tt;
  owned = tt;
  paired = λ id. refl;
  distinct = tt;
  single = tt;
  keyed = tt;
}

abbrev pub sample_session : String → SessionRead
sample_session id = record {
  session_id = id;
  scenario_id = "scn";
  db_id = "shop";
  db_version = "v1";
  mode = SessionMode.recovery;
  status = SessionStatus.created;
  question = "How many?";
  stale_sql = "SELECT 1";
  drift_type = "rename";
  wildcard_profile = none;
  created_at = "t0";
  updated_at = "t0";
  started_at = none;
  completed_at = none;
  termination_reason = none;
  final_sql = none;
  success = none;
  cancellation_requested = false;
  sandbox_isolated = true;
  sandbox_ref = "sandbox:a";
  source_db_sha256 = "0";
  model = null;
  budget = none;
  usage = record {
    model_calls = 0;
    tool_calls = 0;
    prompt_tokens = 0;
    response_tokens = 0;
    elapsed_ms = null;
  };
  labels = end;
  result = end;
}

abbrev pub event : ℕ → TrajectoryEvent
event n = record {
  session_id = "a";
  sequence = n;
  event_type = EventType.status;
  created_at = "t1";
  payload = end;
}

abbrev pub one : Db
one = record {
  sessions = record { key = "a"; created = "t0"; payload = sample_session "a" } ∷ [];
  events = [];
  trajectories = record { key = "a"; messages = []; reward = end } ∷ [];
}

abbrev pub two : Db
two = record one { events = event 1 ∷ [] }

abbrev pub three : Db
three = record one { events = event 1 ∷ event 2 ∷ [] }

pub make : create_session (sample_session "a") no_rows ≡ ok one
unfolding create_session find_session find_trajectory
make = refl

pub first : append_event "t1" "a" EventType.status end one ≡ ok (event 1, two)
unfolding append_event find_session next_event events_of max_sequence keep
first = refl

pub second : append_event "t1" "a" EventType.status end two ≡ ok (event 2, three)
unfolding append_event find_session next_event events_of max_sequence keep
second = refl

abbrev pub one-IsWellFormed : IsWellFormed one
one-IsWellFormed =
    create_session-IsWellFormed (sample_session "a") no_rows no_rows-IsWellFormed make

abbrev pub two-IsWellFormed : IsWellFormed two
two-IsWellFormed =
    append_event-IsWellFormed "t1" "a" EventType.status end one one-IsWellFormed first

abbrev pub three-IsWellFormed : IsWellFormed three
three-IsWellFormed =
    append_event-IsWellFormed "t1" "a" EventType.status end two two-IsWellFormed second
