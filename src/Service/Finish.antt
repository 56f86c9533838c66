-- ===== src/Service/Finish.antt =====
-- driftsql/service/inference/orchestrator.py: `_run_guarded`, and `_finalize` at its end.
pub mod Ends
mod Tests
use drift_sql.Prelude.{
  ℕ, String, ◌<>◌, Bool, true, false, ◌||◌, Option, none, some, List, [], ◌∷◌, ◌==◌, if◌then◌else◌,
  contains,
}
use drift_sql.Result.{Error, ◌>>=◌, or_raise, assertion_error, key_error, Result, ok, raised}
use drift_sql.Python.{Python}
use drift_sql.Python.Values.{
  Items, Fields, get_or, put, flag, pos, null, bool, int, decimal, text, arr, obj, nil, cons, end,
  field,
}
use drift_sql.Policy.Event.{Event}
use drift_sql.Service.Types.{
  SessionStatus, SessionMode, EventType, InferenceBudget, SessionRead, TrajectoryEvent,
}
use drift_sql.Service.Repository.{
  Db, get_session, save_session, append_event, save_trajectory_state,
}
use drift_sql.Service.Toolbox.{Dict, lookup, remove, set, Toolbox}
use drift_sql.Service.Tools.{release_session}
use drift_sql.Service.Query.{query_reward, reward_fields, latest_query_execution_result}
use drift_sql.Service.Orchestrator.{
  ActiveSession, Surroundings, Loop, Step, run_turns, next, stop, raise, cancel, timeout,
}
use drift_sql.Service.Lifecycle.{World, status_value, Action, resume, transaction}

-- What the end of a session takes from elsewhere: `compute_score` of the model's outputs and the
-- extra information, `repr` of an exception, and the clock.
pub record Closing : Type 0 where
  pub score : String → Fields → Result Fields
  pub repr : Error → String
  pub now : String
  -- whether the client has asked to cancel by the time that the run raises an exception
  pub is_cancelled : Bool
  pub elapsed_ms : ℕ

unfoldable pub is_timeout : SessionStatus → Bool
is_timeout SessionStatus.timed_out = true
is_timeout _ = false

-- `"\n".join(outputs)`
unfoldable pub join_lines : List String → String
join_lines [] = ""
join_lines (x ∷ []) = x
join_lines (x ∷ y ∷ ys) = x <> "\n" <> join_lines (y ∷ ys)

-- `[...]` of the events, each a dict.
unfoldable pub event_items : List Event → Items
event_items [] = nil
event_items (e ∷ es) = cons (obj e) (event_items es)

abbrev pub is_query : SessionMode → Bool
is_query SessionMode.query = true
is_query SessionMode.recovery = false

module _ (py : Python) (closing : Closing) where
  unfoldable pub reward_extra : ActiveSession → SessionRead → SessionStatus → String → Fields
  unfolding event_items is_timeout
  reward_extra a s terminal reason = put "trajectory_turn_limit" (bool (reason == "max_turns")) (
      put "trajectory_timed_out" (bool (is_timeout terminal)) (
        put "response_tokens" (int (pos s.usage.response_tokens))
          (put "environment_events" (arr (event_items a.tool_events)) a.reward_extra_info)))

  -- The `except` around `compute_score`.
  unfoldable pub or_error : Result Fields → Fields
  or_error (ok d) = d
  or_error (raised e) = field "score" (decimal (pos 0) 1) (
      field "task_success" (bool false) (
        field "unsafe" (bool false)
          (field "error" (text ("reward_error: " <> closing.repr e)) end)))

  unfoldable pub final_reward : ActiveSession → SessionRead → SessionStatus → String → Result Fields
  unfolding reward_extra or_error join_lines query_reward reward_fields
  final_reward a s terminal reason =
      let query = (do r ← query_reward py a.tool_events; ok (reward_fields py r)) in
      let scored = closing.score (join_lines a.model_outputs) (reward_extra a s terminal reason) in
      if is_query a.mode then query else ok (or_error scored)

  abbrev pub shown_rows : ActiveSession → Result (Option Fields)
  shown_rows a = if is_query a.mode then latest_query_execution_result py a.tool_events else ok none

  abbrev with_rows : Option Fields → Fields → Fields
  with_rows none d = d
  with_rows (some rows) d = put "execution_result" (obj rows) d

  unfoldable pub final_result : Fields → Option Fields → String → Fields → Fields
  final_result earned rows detail result =
      let scored = put "unsafe" (bool (flag "unsafe" earned)) (
        put "semantic_verified" (bool (flag "semantic_verified" earned)) (
          put "query_completed" (bool (flag "query_completed" earned)) (
            put "task_success" (bool (flag "task_success" earned))
              (put "reward" (get_or "score" null earned) result)))) in
      let shown = with_rows rows scored in
      if detail == "" then shown else put "error" (text detail) shown

  unfoldable pub final_session :
      ActiveSession
      → SessionStatus
      → String
      → String
      → Fields
      → Option Fields
      → SessionRead
      → SessionRead
  unfolding final_result
  final_session a terminal reason detail earned rows s = record s {
    status = terminal;
    termination_reason = some reason;
    completed_at = some closing.now;
    success = some (flag (if is_query a.mode then "query_completed" else "task_success") earned);
    usage = record (s.usage) { elapsed_ms = int (pos closing.elapsed_ms) };
    result = final_result earned rows detail s.result;
  }

  -- What is computed of the session before anything is stored.
  unfoldable pub closed :
      String → ActiveSession → SessionStatus → String → String → Db → Result (SessionRead × Fields)
  unfolding final_reward final_session
  closed id a terminal reason detail db = do
    s ← get_session id db
    earned ← final_reward a s terminal reason
    rows ← shown_rows a
    ok (final_session a terminal reason detail earned rows s, earned)

  unfoldable pub tell_status : String → SessionStatus → String → Action TrajectoryEvent
  unfolding status_value
  tell_status id terminal reason db =
      let status_event : Fields =
        field "status" (text (status_value terminal))
          (field "termination_reason" (text reason) end) in
      transaction db (append_event closing.now id EventType.status status_event db)

  unfoldable pub tell_reward : String → SessionStatus → String → Fields → Action TrajectoryEvent
  unfolding tell_status
  tell_reward id terminal reason earned db =
      resume (transaction db (append_event closing.now id EventType.reward earned db))
        (λ e. tell_status id terminal reason)

  abbrev pub without_value : Result Db → Result (Unit {0} × Db)
  without_value (ok db) = ok (tt, db)
  without_value (raised e) = raised e

  unfoldable pub store_trajectory :
      String → ActiveSession → SessionStatus → String → Fields → Action TrajectoryEvent
  unfolding tell_reward
  store_trajectory id a terminal reason earned db =
      resume (transaction db (without_value (save_trajectory_state id a.messages earned db)))
        (λ u. tell_reward id terminal reason earned)

  -- The statements of `_finalize` that store.
  unfoldable pub store_end :
      String → ActiveSession → SessionStatus → String → SessionRead × Fields → Db → Db
  unfolding store_trajectory
  store_end id a terminal reason p db =
      (resume (transaction db (save_session closing.now p.0 db))
        (λ s. store_trajectory id a terminal reason p.1)).0

  abbrev pub stored_end :
      String → ActiveSession → SessionStatus → String → Db → Result (SessionRead × Fields) → Db
  stored_end id a terminal reason db (raised e) = db
  stored_end id a terminal reason db (ok p) = store_end id a terminal reason p db

  abbrev pub if_released : String → Dict ActiveSession → Option Error → Dict ActiveSession
  if_released id active none = remove id active
  if_released id active (some e) = active

  -- `_finalize`, with its `finally`: where releasing the tools raises, the session stays active.
  unfoldable pub finalize :
      {S : Type 0} → Toolbox S → String → SessionStatus → String → String → World S → World S
  unfolding closed store_end release_session
  finalize box id terminal reason detail w = elim (lookup id w.active) [
    | none ↦ w
    | some a ↦ record {
      db = stored_end id a terminal reason w.db (closed id a terminal reason detail w.db);
      runtime = (release_session py box id w.runtime).0;
      active = if_released id w.active (release_session py box id w.runtime).1;
      cancelled = w.cancelled;
    }
  ]

  module _ {S : Type 0} (box : Toolbox S) (env : Surroundings) where
    -- The world after the agent's run, with how the session ends and the error's text.
    abbrev pub Ending : Type 0
    Ending = World S × SessionStatus × String × String

    abbrev pub internal : String → Error → World S → Ending
    internal id e w =
        let event : Fields = field "error" (text (closing.repr e)) end in
        let failed : World S = record w {
          db = (transaction w.db (append_event closing.now id EventType.error event w.db)).0;
        } in
        if contains w.cancelled id || closing.is_cancelled
        then (w, SessionStatus.cancelled, "cancelled_by_client", "")
        else (failed, SessionStatus.failed, "internal_error", closing.repr e)

    -- The world that a run of the turns leaves.
    abbrev pub left_by : String → World S → Loop S → World S
    left_by id w l = record w { db = l.db; runtime = l.runtime; active = set id l.active w.active }

    -- `run_turns` does not end in `next`.
    unfoldable pub ending_of : String → World S → Step S → Ending
    ending_of id w (stop final reason l) = (left_by id w l, final, reason, "")
    ending_of id w (timeout l) = (left_by id w l, SessionStatus.timed_out, "timeout", "")
    ending_of id w (cancel l) = (left_by id w l, SessionStatus.cancelled, "cancelled_by_client", "")
    ending_of id w (raise e l) = internal id e (left_by id w l)
    ending_of id w (next l) = internal id assertion_error (left_by id w l)

    -- `_agent_loop`, which reads the session anew.
    unfoldable pub agent_loop : String → World S → Ending
    unfolding ending_of run_turns
    agent_loop id w =
        let started : Result (SessionRead × ActiveSession × InferenceBudget) = (do
          s ← get_session id w.db
          a ← or_raise (key_error id) (lookup id w.active)
          limits ← or_raise assertion_error s.budget
          ok (s, a, limits)) in
        elim started [
          | raised e ↦ internal id e w
          | ok p ↦ ending_of id w (
              run_turns py box env p.2 p.2.max_turns 1
                (record { session = p.0; db = w.db; runtime = w.runtime; active = p.1 }))
        ]

    -- The session is marked as running, and the event is sent.
    unfoldable pub mark_running : String → SessionRead → Action TrajectoryEvent
    mark_running id s db =
        resume
          (transaction db (
            save_session closing.now
              (record s { status = SessionStatus.running; started_at = some closing.now }) db))
          (λ _ db'. transaction db' (
            append_event closing.now id EventType.status (field "status" (text "running") end) db'))

    unfoldable pub on_running : String → World S → Result TrajectoryEvent → Ending
    unfolding agent_loop
    on_running id w (raised e) = internal id e w
    on_running id w (ok e) = agent_loop id w

    -- A session that was asked to stop before it began does not begin.
    unfoldable pub on_ready : String → World S → Result SessionRead → Ending
    unfolding mark_running on_running
    on_ready id w (raised e) = internal id e w
    on_ready id w (ok s) =
        let (db, outcome) = mark_running id s w.db in
        if contains w.cancelled id
        then (w, SessionStatus.cancelled, "cancelled_by_client", "")
        else on_running id (record w { db = db }) outcome

    unfoldable pub run_session : String → World S → Ending
    unfolding on_ready
    run_session id w = on_ready id w (do
      s ← get_session id w.db
      _ ← or_raise assertion_error s.budget
      _ ← or_raise (key_error id) (lookup id w.active)
      ok s)

    -- `_run_guarded`
    unfoldable pub run_guarded : String → World S → World S
    unfolding run_session finalize
    run_guarded id w =
        let (w', terminal, reason, detail) = run_session id w in
        finalize box id terminal reason detail w'
