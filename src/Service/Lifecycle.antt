-- ===== src/Service/Lifecycle.antt =====
-- driftsql/service/inference/orchestrator.py: sessions are created, started, cancelled and ended.
-- The catalog's answers, the backend, the reward of `compute_score` and the clock are parameters.
pub mod Start
use drift_sql.Prelude.{
  ℕ, zero, suc, String, Bool, true, false, not, Option, none, some, List, ◌∷◌, ltb, if◌then◌else◌,
}
use drift_sql.Result.{
  fail_if, ◌>>=◌, ◌>>◌, or_raise, conflict_error, value_error, Result, ok, raised,
}
use drift_sql.Python.Values.{Fields, pos, bool, int, decimal, obj, end, field}
use drift_sql.Service.Types.{SessionStatus, EventType, is_terminal, InferenceBudget, SessionRead}
use drift_sql.Service.Repository.{Db, get_session, save_session, append_event}
use drift_sql.Service.Toolbox.{Dict, lookup}
use drift_sql.Service.Tools.{Runtime}
use drift_sql.Service.Orchestrator.{ActiveSession}

-- `RunCreate`, the float of seconds in milliseconds.
pub record RunCreate : Type 0 where
  pub max_turns : Option ℕ
  pub timeout_ms : Option ℕ
  pub max_tool_calls : Option ℕ
  pub max_new_tokens : Option ℕ
  pub max_total_tokens : Option ℕ

-- The settings that bound a run.
pub record Settings : Type 0 where
  pub default_max_turns : ℕ
  pub maximum_max_turns : ℕ
  pub default_timeout_ms : ℕ
  pub maximum_timeout_ms : ℕ
  pub default_max_tool_calls : ℕ
  pub default_max_new_tokens : ℕ
  pub default_max_total_tokens : ℕ

-- `value or default`
unfoldable pub or_default : Option ℕ → ℕ → ℕ
or_default none d = d
or_default (some zero) d = d
or_default (some (suc n)) d = suc n

unfoldable pub budget_of : Settings → RunCreate → Result InferenceBudget
unfolding or_default
budget_of settings request = do
  let turns = or_default request.max_turns settings.default_max_turns
  let timeout = or_default request.timeout_ms settings.default_timeout_ms
  fail_if (ltb settings.maximum_max_turns turns) (value_error "max_turns exceeds service maximum")
  fail_if (ltb settings.maximum_timeout_ms timeout)
      (value_error "timeout_seconds exceeds service maximum")
  ok (record {
    max_turns = turns;
    timeout_ms = timeout;
    max_tool_calls = or_default request.max_tool_calls settings.default_max_tool_calls;
    max_new_tokens = or_default request.max_new_tokens settings.default_max_new_tokens;
    max_total_tokens = or_default request.max_total_tokens settings.default_max_total_tokens;
  })

-- The orchestrator: the store, the tools, the active sessions and those asked to cancel.
pub record World (S : Type 0) : Type 0 where
  pub db : Db
  pub runtime : Runtime S
  pub active : Dict ActiveSession
  pub cancelled : List String

-- `status.value`
unfoldable pub status_value : SessionStatus → String
status_value SessionStatus.created = "created"
status_value SessionStatus.queued = "queued"
status_value SessionStatus.running = "running"
status_value SessionStatus.completed = "completed"
status_value SessionStatus.failed = "failed"
status_value SessionStatus.cancelled = "cancelled"
status_value SessionStatus.timed_out = "timed_out"
status_value SessionStatus.budget_exhausted = "budget_exhausted"

unfoldable pub budget_fields : InferenceBudget → Fields
budget_fields b = field "max_turns" (int (pos b.max_turns)) (
    field "timeout_seconds" (decimal (pos b.timeout_ms) 3) (
      field "max_tool_calls" (int (pos b.max_tool_calls)) (
        field "max_new_tokens" (int (pos b.max_new_tokens))
          (field "max_total_tokens" (int (pos b.max_total_tokens)) end))))

-- A transaction after another; what the first did stays done when the second raises.
abbrev pub Action : Type 0 → Type 0
Action A = Db → Db × Result A

abbrev pub resume : {A B : Type 0} → Db × Result A → (A → Action B) → Db × Result B
resume (db, ok a) k = k a db
resume (db, raised e) k = (db, raised e)

abbrev pub transaction : {A : Type 0} → Db → Result (A × Db) → Db × Result A
transaction db (ok (a, db')) = (db', ok a)
transaction db (raised e) = (db, raised e)

abbrev pub store : {A : Type 0} → Db → Result A → Db × Result A
store db r = (db, r)

abbrev pub is_created : SessionStatus → Bool
is_created SessionStatus.created = true
is_created _ = false

module _ {S : Type 0} where
  -- Everything that precedes the first change of `start_run`.
  unfoldable pub startable :
      Settings → String → RunCreate → World S → Result (SessionRead × InferenceBudget)
  unfolding budget_of
  startable settings id request w = do
    s ← get_session id w.db
    _ ← or_raise conflict_error (lookup id w.active)
    fail_if (not (is_created s.status)) conflict_error
    limits ← budget_of settings request
    ok (s, limits)

  -- The session is queued; the task that runs it is `run_guarded`.
  unfoldable pub start_run :
      Settings → String → String → RunCreate → World S → World S × Result SessionRead
  unfolding startable budget_fields
  start_run settings now id request w =
      let queue : SessionRead × InferenceBudget → Action SessionRead = λ p db.
        resume
          (transaction db (
            save_session now (record (p.0) { status = SessionStatus.queued; budget = some p.1 })
              db))
          (λ stored db'.
            resume
              (transaction db' (
                append_event now id EventType.queued (field "budget" (obj (budget_fields p.1)) end)
                  db'))
              (λ e db''. (db'', ok stored))) in
      let (db, outcome) = resume (store w.db (startable settings id request w)) queue in
      (record w { db = db }, outcome)

  -- A session that is over stays as it is; another is asked to stop.
  unfoldable pub cancel_session : String → String → World S → World S × Result SessionRead
  cancel_session now id w =
      let asked : SessionRead → Action SessionRead = λ s db.
        resume (transaction db (save_session now (record s { cancellation_requested = true }) db))
          (λ stored db'.
            resume
              (transaction db'
                (append_event now id EventType.cancelled (field "requested" (bool true) end) db'))
              (λ e db''. (db'', ok stored))) in
      let refused : World S × Result SessionRead = (w, raised conflict_error) in
      let found : SessionRead → World S × Result SessionRead = λ s.
        if is_terminal s.status then (w, ok s) else elim (lookup id w.active) [
          | none ↦ refused
          | some a ↦
              let (db, outcome) = asked s w.db in
              (record w { db = db; cancelled = id ∷ w.cancelled }, outcome)
        ] in
      elim (get_session id w.db) [ raised e ↦ (w, raised e) | ok s ↦ found s ]
