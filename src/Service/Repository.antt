-- ===== src/Service/Repository.antt =====
-- driftsql/service/repository/sqlite.py: the tables as lists of rows, each method as one
-- transaction. A `SessionNotFoundError` is a `KeyError`; a refused INSERT is an IntegrityError.
pub mod Run
pub mod Invariant
pub mod Reading
pub mod Stream
pub mod Restart
use Prim.Native.Nat.{Ordering}
use Prim.Native.String.{compare}
use drift_sql.Prelude.{
  ℕ, ◌+◌, max, String, Bool, true, false, Option, none, some, List, [], ◌∷◌, ◌++◌, map, ◌==◌, ltb,
  leb, if◌then◌else◌, length, keep, take, drop,
}
use drift_sql.Result.{
  is_some, or_raise, ◌>>=◌, ◌>>◌, fail_if, integrity_error, key_error, Result, ok,
}
use drift_sql.Python.Values.{Fields, end}
use drift_sql.Service.Types.{SessionStatus, SessionRead, EventType, TrajectoryEvent, is_terminal}

-- A row of `sessions`. The status column repeats the payload's and is never queried.
pub record SessionRow : Type 0 where
  pub key : String
  pub created : String
  pub payload : SessionRead

pub record TrajectoryRow : Type 0 where
  pub key : String
  pub messages : List Fields
  pub reward : Fields

pub record Db : Type 0 where
  pub sessions : List SessionRow
  pub events : List TrajectoryEvent
  pub trajectories : List TrajectoryRow

unfoldable pub find_session : String → List SessionRow → Option SessionRow
find_session id [] = none
find_session id (r ∷ rs) = if r.key == id then some r else find_session id rs

unfoldable pub find_trajectory : String → List TrajectoryRow → Option TrajectoryRow
find_trajectory id [] = none
find_trajectory id (r ∷ rs) = if r.key == id then some r else find_trajectory id rs

-- `UPDATE sessions SET ... WHERE session_id=?`
unfoldable pub update_session : String → SessionRead → List SessionRow → List SessionRow
update_session id s [] = []
update_session id s (r ∷ rs) =
    (if r.key == id then record r { payload = s } else r) ∷ update_session id s rs

unfoldable pub update_trajectory :
    String → List Fields → Fields → List TrajectoryRow → List TrajectoryRow
update_trajectory id messages reward [] = []
update_trajectory id messages reward (r ∷ rs) =
    (if r.key == id then record r { messages = messages; reward = reward } else r)
    ∷ update_trajectory id messages reward rs

abbrev pub is_of : String → TrajectoryEvent → Bool
is_of id e = e.session_id == id

-- `SELECT ... FROM events WHERE session_id=?`
unfoldable pub events_of : String → List TrajectoryEvent → List TrajectoryEvent
events_of id = keep (is_of id)

-- `COALESCE(MAX(sequence),0)`
unfoldable pub max_sequence : List TrajectoryEvent → ℕ
max_sequence [] = 0
max_sequence (e ∷ es) = max e.sequence (max_sequence es)

-- `ORDER BY sequence`
unfoldable pub insert_event : TrajectoryEvent → List TrajectoryEvent → List TrajectoryEvent
insert_event e [] = e ∷ []
insert_event e (f ∷ fs) =
    let rest = insert_event e fs in if leb e.sequence f.sequence then e ∷ f ∷ fs else f ∷ rest

unfoldable pub order_events : List TrajectoryEvent → List TrajectoryEvent
unfolding insert_event
order_events [] = []
order_events (e ∷ es) = insert_event e (order_events es)

-- `ORDER BY created_at DESC`
unfoldable pub is_newer : String → String → Bool
is_newer a b = elim (compare a b) [ Ordering.gt ↦ true | _ ↦ false ]

unfoldable pub insert_row : SessionRow → List SessionRow → List SessionRow
insert_row r [] = r ∷ []
insert_row r (q ∷ qs) =
    let rest = insert_row r qs in if is_newer q.created r.created then q ∷ rest else r ∷ q ∷ qs

unfoldable pub order_rows : List SessionRow → List SessionRow
unfolding insert_row is_newer
order_rows [] = []
order_rows (r ∷ rs) = insert_row r (order_rows rs)

unfoldable pub create_session : SessionRead → Db → Result Db
unfolding find_session find_trajectory
create_session s db = do
  fail_if (is_some (find_session s.session_id db.sessions)) integrity_error
  fail_if (is_some (find_trajectory s.session_id db.trajectories)) integrity_error
  ok (record db {
    sessions =
        db.sessions ++ record { key = s.session_id; created = s.created_at; payload = s } ∷ [];
    trajectories =
        db.trajectories ++ record { key = s.session_id; messages = []; reward = end } ∷ [];
  })

unfoldable pub get_session : String → Db → Result SessionRead
unfolding find_session
get_session id db = do row ← or_raise (key_error id) (find_session id db.sessions); ok row.payload

-- The session that was stored, and the table.
unfoldable pub save_session : String → SessionRead → Db → Result (SessionRead × Db)
unfolding find_session update_session
save_session now s db = do
  _ ← or_raise (key_error s.session_id) (find_session s.session_id db.sessions)
  let s' : SessionRead = record s { updated_at = now }
  ok (s', record db { sessions = update_session s.session_id s' db.sessions })

-- The event that a session gets next.
unfoldable pub next_event :
    String → String → EventType → Fields → List TrajectoryEvent → TrajectoryEvent
unfolding events_of max_sequence
next_event now id event_type payload events = record {
  session_id = id;
  sequence = max_sequence (events_of id events) + 1;
  event_type = event_type;
  created_at = now;
  payload = payload;
}

unfoldable pub append_event :
    String → String → EventType → Fields → Db → Result (TrajectoryEvent × Db)
unfolding find_session next_event
append_event now id event_type payload db = do
  _ ← or_raise (key_error id) (find_session id db.sessions)
  let event = next_event now id event_type payload db.events
  ok (event, record db { events = db.events ++ event ∷ [] })

unfoldable pub list_events : String → ℕ → Db → Result (List TrajectoryEvent)
unfolding get_session order_events events_of
list_events id after_sequence db = do
  s ← get_session id db
  ok (order_events (keep (λ e. ltb after_sequence e.sequence) (events_of id db.events)))

unfoldable pub save_trajectory_state : String → List Fields → Fields → Db → Result Db
unfolding find_trajectory update_trajectory
save_trajectory_state id messages reward db = do
  _ ← or_raise (key_error id) (find_trajectory id db.trajectories)
  ok (record db { trajectories = update_trajectory id messages reward db.trajectories })

-- `get_trajectory`: the session, its events, its messages and its reward.
abbrev pub Trajectory : Type 0
Trajectory = SessionRead × List TrajectoryEvent × List Fields × Fields

unfoldable pub get_trajectory : String → Db → Result Trajectory
unfolding get_session find_trajectory list_events
get_trajectory id db = do
  s ← get_session id db
  row ← or_raise (key_error id) (find_trajectory id db.trajectories)
  events ← list_events id 0 db
  ok (s, events, row.messages, row.reward)

-- `list_sessions(limit=..., offset=...)`
unfoldable pub list_sessions : ℕ → ℕ → Db → List SessionRead
unfolding order_rows
list_sessions limit offset db =
    map (λ r. r.payload) (take limit (drop offset (order_rows db.sessions)))

unfoldable pub count_sessions : Db → ℕ
count_sessions db = length db.sessions

-- The loop over the listed sessions; the number counts those that were changed.
unfoldable pub fail_each : String → List SessionRead → Db → Result (ℕ × Db)
unfolding save_session is_terminal
fail_each now [] db = ok (0, db)
fail_each now (s ∷ ss) db =
    let skipped = fail_each now ss db in
    let failed : SessionRead = record s {
      status = SessionStatus.failed;
      termination_reason = some "service_restart";
      completed_at = some now;
    } in
    let saved = (do
      (_, db') ← save_session now failed db
      (n, db'') ← fail_each now ss db'
      ok (n + 1, db'')) in
    if is_terminal s.status then skipped else saved

unfoldable pub mark_interrupted_sessions_failed : String → Db → Result (ℕ × Db)
unfolding fail_each list_sessions
mark_interrupted_sessions_failed now db = fail_each now (list_sessions 10000 0 db) db
