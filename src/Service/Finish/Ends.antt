-- ===== src/Service/Finish/Ends.antt =====
-- `_run_guarded` and `_finalize` of driftsql/service/inference/orchestrator.py, from the start of
-- a session to its end.
use drift_sql.Prelude.{
  String, ◌≡◌, refl, inl, inr, ◌||◌, none, some, List, arith, Bool-cases, Option-cases, contains,
}
use drift_sql.Result.{Error, assertion_error, Result, ok, raised}
use drift_sql.Python.{Python}
use drift_sql.Python.Values.{Fields}
use drift_sql.Service.Types.{
  SessionStatus, EventType, InferenceBudget, SessionRead, TrajectoryEvent,
}
use drift_sql.Service.Repository.{Db, save_session, append_event, save_trajectory_state}
use drift_sql.Service.Repository.Invariant.{
  IsWellFormed, save_session-IsWellFormed, append_event-IsWellFormed,
  save_trajectory_state-IsWellFormed,
}
use drift_sql.Service.Toolbox.{lookup, Toolbox, ReleasesQuietly, lookup-remove}
use drift_sql.Service.Orchestrator.{
  ActiveSession, Surroundings, Loop, Step, run_turns, next, stop, raise, cancel, timeout,
}
use drift_sql.Service.Orchestrator.Sound.{Upholds, Upholds-map, IsSound}
use drift_sql.Service.Orchestrator.Turns.{run_turns-IsSound}
use drift_sql.Service.Lifecycle.{World, Action, resume, transaction}
use drift_sql.Service.Finish.{
  Closing, tell_status, tell_reward, without_value, store_trajectory, store_end, stored_end,
  finalize, Ending, internal, left_by, ending_of, agent_loop, mark_running, on_running, on_ready,
  run_session, run_guarded,
}
use drift_sql.Service.Tools.Sessions.{release_session-quiet}

resume-IsWellFormed :
    {A B : Type 0} (m : Db × Result A) (k : A → Action B)
    → IsWellFormed m.0
    → ((a : A) (db : Db) → IsWellFormed db → IsWellFormed (k a db).0)
    → IsWellFormed (resume m k).0
resume-IsWellFormed (db, ok a) k w h = h a db w
resume-IsWellFormed (db, raised e) k w h = w

transaction-IsWellFormed :
    {A : Type 0} (db : Db) (r : Result (A × Db))
    → IsWellFormed db
    → ((a : A) (db' : Db) → r ≡ ok (a, db') → IsWellFormed db')
    → IsWellFormed (transaction db r).0
transaction-IsWellFormed db (ok (a, db')) w h = h a db' refl
transaction-IsWellFormed db (raised e) w h = w

appended :
    (now id : String) (t : EventType) (payload : Fields) (db : Db)
    → IsWellFormed db
    → IsWellFormed (transaction db (append_event now id t payload db)).0
appended now id t payload db w =
    transaction-IsWellFormed db (append_event now id t payload db) w
      (λ e db' h. append_event-IsWellFormed now id t payload db w h)

saved :
    (now : String) (s : SessionRead) (db : Db)
    → IsWellFormed db
    → IsWellFormed (transaction db (save_session now s db)).0
saved now s db w =
    transaction-IsWellFormed db (save_session now s db) w
      (λ s' db' h. save_session-IsWellFormed now s db w h)

module _ (py : Python) (closing : Closing) where
  tell_reward-IsWellFormed :
      (id : String) (terminal : SessionStatus) (reason : String) (earned : Fields) (db : Db)
      → IsWellFormed db
      → IsWellFormed (tell_reward py closing id terminal reason earned db).0
  unfolding tell_reward tell_status
  tell_reward-IsWellFormed id terminal reason earned db w =
      resume-IsWellFormed (transaction db (append_event closing.now id EventType.reward earned db))
        (λ e. tell_status py closing id terminal reason)
        (appended closing.now id EventType.reward earned db w)
        (λ e db' w'. appended closing.now id EventType.status _ db' w')

  stored-IsWellFormed :
      (id : String) (messages : List Fields) (earned : Fields) (db : Db) (r : Result Db)
      → IsWellFormed db
      → save_trajectory_state id messages earned db ≡ r
      → IsWellFormed (transaction db (without_value py closing r)).0
  stored-IsWellFormed id messages earned db (ok db') w h =
      save_trajectory_state-IsWellFormed id messages earned db w h
  stored-IsWellFormed id messages earned db (raised e) w h = w

  store_end-IsWellFormed :
      (id : String) (a : ActiveSession) (terminal : SessionStatus) (reason : String)
      (p : SessionRead × Fields) (db : Db)
      → IsWellFormed db
      → IsWellFormed (store_end py closing id a terminal reason p db)
  unfolding store_end store_trajectory
  store_end-IsWellFormed id a terminal reason p db w =
      resume-IsWellFormed (transaction db (save_session closing.now p.0 db))
        (λ s. store_trajectory py closing id a terminal reason p.1) (saved closing.now p.0 db w)
        (λ s db' w'.
          resume-IsWellFormed
            (transaction db'
              (without_value py closing (save_trajectory_state id a.messages p.1 db')))
            (λ u. tell_reward py closing id terminal reason p.1)
            (stored-IsWellFormed id a.messages p.1 db' _ w' refl)
            (λ u db'' w''. tell_reward-IsWellFormed id terminal reason p.1 db'' w''))

  stored_end-IsWellFormed :
      (id : String) (a : ActiveSession) (terminal : SessionStatus) (reason : String) (db : Db)
      (r : Result (SessionRead × Fields))
      → IsWellFormed db
      → IsWellFormed (stored_end py closing id a terminal reason db r)
  stored_end-IsWellFormed id a terminal reason db (ok p) w =
      store_end-IsWellFormed id a terminal reason p db w
  stored_end-IsWellFormed id a terminal reason db (raised e) w = w

  -- What is true of the world after a session has ended: the tables are well formed, and the session
  -- is not among the active ones.
  abbrev pub IsOver : {S : Type 0} → String → World S → Type 0
  IsOver id w = IsWellFormed w.db × (lookup id w.active ≡ none)

  finalize-IsOver :
      {S : Type 0} (box : Toolbox S) (quiet : ReleasesQuietly box) (id : String)
      (terminal : SessionStatus) (reason detail : String) (w : World S)
      → IsWellFormed w.db
      → IsOver id (finalize py closing box id terminal reason detail w)
  unfolding finalize
  finalize-IsOver box quiet id terminal reason detail w v =
      elim (Option-cases (lookup id w.active)) [
        | inl gone ↦ rw (gone, finalize) (v, gone)
        | inr (a, found) ↦
            rw (found, finalize)
              (
                stored_end-IsWellFormed id a terminal reason w.db _ v,
                rw (release_session-quiet py box quiet id w.runtime) (lookup-remove id w.active),
              )
      ]

  module _ {S : Type 0} (box : Toolbox S) (env : Surroundings) where
    internal-IsWellFormed :
        (id : String) (e : Error) (w : World S)
        → IsWellFormed w.db
        → IsWellFormed (internal py closing box env id e w).0.db
    internal-IsWellFormed id e w v =
        elim (Bool-cases (contains w.cancelled id || closing.is_cancelled)) [
          | inl y ↦ rw y v
          | inr n ↦ rw n (appended closing.now id EventType.error _ w.db v)
        ]

    ending_of-IsWellFormed :
        (id : String) (w : World S) (s : Step S)
        → Upholds (λ l. IsWellFormed l.db) s
        → IsWellFormed (ending_of py closing box env id w s).0.db
    unfolding ending_of
    ending_of-IsWellFormed id w (next l) h =
        internal-IsWellFormed id assertion_error (left_by py closing box env id w l) h
    ending_of-IsWellFormed id w (stop final reason l) h = h
    ending_of-IsWellFormed id w (raise e l) h =
        internal-IsWellFormed id e (left_by py closing box env id w l) h
    ending_of-IsWellFormed id w (cancel l) h = h
    ending_of-IsWellFormed id w (timeout l) h = h

    agent_loop-IsWellFormed :
        (id : String) (w : World S)
        → IsWellFormed w.db
        → IsWellFormed (agent_loop py closing box env id w).0.db
    unfolding agent_loop
    agent_loop-IsWellFormed id w v = by_start _
      where
        by_start :
            (r : Result (SessionRead × ActiveSession × InferenceBudget))
            → IsWellFormed
                (elim r as (λ r. Ending py closing box env) [
                  | raised e ↦ internal py closing box env id e w
                  | ok p ↦ ending_of py closing box env id w (
                      run_turns py box env p.2 p.2.max_turns 1
                        (record { session = p.0; db = w.db; runtime = w.runtime; active = p.1 }))
                ]).0.db
        by_start (raised e) = internal-IsWellFormed id e w v
        by_start (ok (s, a, limits)) =
            let l : Loop S = record { session = s; db = w.db; runtime = w.runtime; active = a } in
            ending_of-IsWellFormed id w (run_turns py box env limits limits.max_turns 1 l) (
              Upholds-map (IsSound (λ s. 0) limits.max_turns l) (λ l'. IsWellFormed l'.db) _
                (λ l' h. h.tables)
                (run_turns-IsSound py box env limits (λ s. 0) (λ n i a s. omega arith)
                  limits.max_turns 1 l v))

    mark_running-IsWellFormed :
        (id : String) (s : SessionRead) (db : Db)
        → IsWellFormed db
        → IsWellFormed (mark_running py closing box env id s db).0
    unfolding mark_running
    mark_running-IsWellFormed id s db w =
        let begun : SessionRead = record s {
          status = SessionStatus.running;
          started_at = some closing.now;
        } in
        resume-IsWellFormed (transaction db (save_session closing.now begun db)) _
          (saved closing.now begun db w)
          (λ s' db' w'. appended closing.now id EventType.status _ db' w')

    on_running-IsWellFormed :
        (id : String) (w : World S) (r : Result TrajectoryEvent)
        → IsWellFormed w.db
        → IsWellFormed (on_running py closing box env id w r).0.db
    unfolding on_running
    on_running-IsWellFormed id w (raised e) v = internal-IsWellFormed id e w v
    on_running-IsWellFormed id w (ok e) v = agent_loop-IsWellFormed id w v

    on_ready-IsWellFormed :
        (id : String) (w : World S) (r : Result SessionRead)
        → IsWellFormed w.db
        → IsWellFormed (on_ready py closing box env id w r).0.db
    unfolding on_ready
    on_ready-IsWellFormed id w (raised e) v = internal-IsWellFormed id e w v
    on_ready-IsWellFormed id w (ok s) v = elim (Bool-cases (contains w.cancelled id)) [
      | inl y ↦ rw y v
      | inr n ↦ rw n (
          on_running-IsWellFormed id
            (record w { db = (mark_running py closing box env id s w.db).0 }) _
            (mark_running-IsWellFormed id s w.db v))
    ]

    run_session-IsWellFormed :
        (id : String) (w : World S)
        → IsWellFormed w.db
        → IsWellFormed (run_session py closing box env id w).0.db
    unfolding run_session
    run_session-IsWellFormed id w v = on_ready-IsWellFormed id w _ v

    -- From well-formed tables, and with tools whose `release` never raises, the run of a session
    -- leaves well-formed tables and the session not among the active ones, whatever the model
    -- answers, whatever `create` and `execute` of the tools do, and whenever the client cancels.
    pub run_guarded-IsOver :
        (id : String) (w : World S)
        → ReleasesQuietly box
        → IsWellFormed w.db
        → IsOver id (run_guarded py closing box env id w)
    unfolding run_guarded
    run_guarded-IsOver id w quiet v =
        finalize-IsOver box quiet id _ _ _ (run_session py closing box env id w).0
          (run_session-IsWellFormed id w v)
