-- ===== src/Service/Tests.antt =====
-- A short life of the tables: two sessions, two events, reads and a restart.
use drift_sql.Prelude.{
  ℕ, ◌≡◌, refl, true, false, none, some, List, [], ◌∷◌, arith, keep, any, last, drop, All, LastWith,
}
use drift_sql.Result.{ok}
use drift_sql.Python.{str_of, casefold}
use drift_sql.Python.Sample.{sample}
use drift_sql.Python.Values.{Fields, get, get_or, truthy, flag, bool, text, obj, end, field}
use drift_sql.Python.Text.{is_space, drop_left, drop_right, strip, strip_semicolons}
use drift_sql.Policy.Event.{Event}
use drift_sql.Service.Types.{
  SessionStatus, SessionMode, EventType, is_terminal, InferenceBudget, SessionRead,
}
use drift_sql.Service.Repository.{
  Db, find_session, update_session, events_of, max_sequence, order_events, get_session,
  save_session, next_event, append_event, list_events, count_sessions,
  mark_interrupted_sessions_failed,
}
use drift_sql.Service.Repository.Invariant.{
  IsWellFormed, create_session-IsWellFormed, append_event-IsWellFormed,
}
use drift_sql.Service.Repository.Reading.{list_events-drop, move_cursor, read_again}
use drift_sql.Service.Repository.Restart.{IsFinished, mark_interrupted}
use drift_sql.Service.Toolbox.{lookup}
use drift_sql.Service.Tools.{sql_of, as_dict, events_named, last_or_empty}
use drift_sql.Service.Tools.Admission.{IsSafe}
use drift_sql.Service.Query.{starts_with, Reward, is_unsafe, any_unsafe, query_reward}
use drift_sql.Service.Query.Completed.{is_submission, IsReadOnly, query_reward-completed}
use drift_sql.Service.Orchestrator.{ActiveSession}
use drift_sql.Service.Lifecycle.{
  RunCreate, Settings, or_default, budget_of, World, budget_fields, is_created, startable,
  start_run,
}
use drift_sql.Service.Lifecycle.Start.{
  IsPositive, IsWithin, IsGranted, budget_of-IsWithin, start_run-startable,
}
use drift_sql.Service.Sample.{
  no_rows, no_rows-IsWellFormed, sample_session, event, one, two, three, make, second,
  two-IsWellFormed, three-IsWellFormed,
}
use drift_sql.Service.Repository.Stream.{
  stream_from, event_stream, AreGrowing, WereRead, event_stream-sent,
}

create_session-IsWellFormed_example : IsWellFormed one
create_session-IsWellFormed_example =
    create_session-IsWellFormed (sample_session "a") no_rows no_rows-IsWellFormed make

append_event-IsWellFormed_example : IsWellFormed three
append_event-IsWellFormed_example =
    append_event-IsWellFormed "t1" "a" EventType.status end two two-IsWellFormed second

list_events-drop_example : list_events "a" 1 three ≡ ok (drop 1 (events_of "a" three.events))
unfolding get_session find_session
list_events-drop_example = list_events-drop "a" 1 three three-IsWellFormed refl

read_again_example : list_events "a" (move_cursor 0 (event 1 ∷ [])) three ≡ ok (event 2 ∷ [])
unfolding move_cursor events_of keep get_session find_session list_events order_events
read_again_example =
    read_again "a" 0 two three (event 2 ∷ []) two-IsWellFormed three-IsWellFormed (omega arith) refl
      refl refl refl

growing : AreGrowing "a" [] ((two, two) ∷ (three, three) ∷ [])
unfolding events_of keep get_session find_session
growing = (
  two-IsWellFormed,
  (sample_session "a", refl),
  (event 1 ∷ [], refl),
  (three-IsWellFormed, (sample_session "a", refl), (event 2 ∷ [], refl), tt),
)

streamed : event_stream "a" 0 one ((two, two) ∷ (three, three) ∷ []) ≡ ok (event 1 ∷ event 2 ∷ [])
unfolding event_stream stream_from list_events get_session find_session events_of keep order_events
    move_cursor is_terminal
streamed = refl

event_stream-sent_example :
    WereRead "a" [] ((two, two) ∷ (three, three) ∷ []) (event 1 ∷ event 2 ∷ [])
event_stream-sent_example =
    event_stream-sent "a" [] one ((two, two) ∷ (three, three) ∷ []) growing streamed

mark_interrupted_example :
    (n : ℕ) × (db' : Db) × (mark_interrupted_sessions_failed "t9" three ≡ ok (n, db'))
    × All IsFinished db'.sessions
    × IsWellFormed db'
unfolding count_sessions
mark_interrupted_example = mark_interrupted "t9" three three-IsWellFormed (omega arith)

abbrev settings : Settings
settings = record {
  default_max_turns = 7;
  maximum_max_turns = 12;
  default_timeout_ms = 120000;
  maximum_timeout_ms = 600000;
  default_max_tool_calls = 7;
  default_max_new_tokens = 512;
  default_max_total_tokens = 32768;
}

abbrev request : RunCreate
request = record {
  max_turns = some 5;
  timeout_ms = none;
  max_tool_calls = none;
  max_new_tokens = none;
  max_total_tokens = none;
}

abbrev granted : InferenceBudget
granted = record {
  max_turns = 5;
  timeout_ms = 120000;
  max_tool_calls = 7;
  max_new_tokens = 512;
  max_total_tokens = 32768;
}

abbrev positive : IsPositive settings
positive = (omega arith, omega arith, omega arith, omega arith, omega arith)

budget_of-IsWithin_example : IsWithin settings granted × IsGranted settings request granted
unfolding budget_of or_default
budget_of-IsWithin_example = budget_of-IsWithin settings request positive refl

abbrev waiting : World ℕ
waiting = record {
  db = one;
  runtime = record { session_tools = []; session_modes = []; tools = 0 };
  active =
      (
        "a",
        record {
          scenario_id = "scn";
          create_kwargs = end;
          messages = [];
          mode = SessionMode.recovery;
          reward_extra_info = end;
          tool_events = [];
          model_outputs = [];
        },
      )
      ∷ [];
  cancelled = [];
}

abbrev queued_session : SessionRead
queued_session = record (sample_session "a") {
  status = SessionStatus.queued;
  budget = some granted;
  updated_at = "t1";
}

start_run-startable_example :
    (s : SessionRead) × (get_session "a" waiting.db ≡ ok s)
    × (is_created s.status ≡ true)
    × ((a : ActiveSession) × (lookup "a" waiting.active ≡ some a))
    × (b : InferenceBudget) × IsWithin settings b
    × (queued_session
        ≡ record s { status = SessionStatus.queued; budget = some b; updated_at = "t1" })
    × (get_session queued_session.session_id (start_run settings "t1" "a" request waiting).0.db
        ≡ ok queued_session)
unfolding start_run startable budget_of or_default get_session find_session lookup save_session
    update_session append_event next_event events_of max_sequence keep budget_fields
start_run-startable_example =
    start_run-startable settings "t1" "a" request waiting
      (start_run settings "t1" "a" request waiting).0 positive refl

abbrev finished_query : List Event
finished_query =
    field "tool" (text "execute_sql") (
      field "arguments" (obj (field "sql" (text "select 1;") end))
        (field "metrics" (obj (field "execution_success" (bool true) end)) end))
    ∷ field "tool" (text "submit_solution") (
        field "arguments" (obj (field "sql" (text "select 1") end))
          (field "metrics" (obj (field "submitted" (bool true) end)) end))
    ∷ []

abbrev earned : Reward
earned = record {
  execution_success = true;
  safe_submit = true;
  unsafe = false;
  query_completed = true;
}

query_reward-completed_example :
    (s : Event) × LastWith is_submission finished_query s
    × (metrics : Fields) × (get_or "metrics" (obj end) s ≡ obj metrics)
    × (flag "submitted" metrics ≡ true)
    × (arguments : Fields) × (get_or "arguments" (obj end) s ≡ obj arguments)
    × IsSafe sample arguments finished_query
    × All (IsReadOnly sample) (events_named "execute_sql" finished_query)
unfolding query_reward any_unsafe last_or_empty events_named sql_of as_dict is_unsafe starts_with
    str_of casefold strip strip_semicolons drop_left drop_right is_space get get_or flag truthy keep
    last any
query_reward-completed_example = query_reward-completed sample finished_query {r = earned} refl refl
