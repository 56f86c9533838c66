-- ===== src/Service/Orchestrator/Sound.antt =====
-- What is compared of the state before and after a number of turns of `_agent_loop`.
use drift_sql.Prelude.{
  ℕ, suc, ◌+◌, ◌≤◌, String, ◌≡◌, refl, sym, ap, inl, inr, Option, none, some, List, [], ◌∷◌, ◌++◌,
  arith, Bool-cases, length, length-append,
}
use drift_sql.Result.{>>=-eq-ok, ok_injective, or_raise, key_error, Result, ok, raised}
use drift_sql.Python.{Python}
use drift_sql.Python.Values.{Fields}
use drift_sql.Service.Types.{EventType, UsageMetrics, SessionRead, TrajectoryEvent}
use drift_sql.Service.Repository.{Db, find_session, save_session, append_event}
use drift_sql.Service.Repository.Invariant.{IsWellFormed}
use drift_sql.Service.Tools.{ToolExecution, Runtime, is_execution_only, dispatch, execute}
use drift_sql.Service.Orchestrator.{
  ToolCall, Loop, Step, attempt, emit, save, is_submitted, tool_event, count_call, next, stop,
  raise, cancel, timeout,
}
use drift_sql.Policy.Event.{Event}
use drift_sql.Service.Toolbox.{lookup, Toolbox}

-- A property of the state that a step ends in, however it ends.
abbrev pub Upholds : {S : Type 0} → (Loop S → Type 0) → Step S → Type 0
Upholds P (next l) = P l
Upholds P (stop final reason l) = P l
Upholds P (raise e l) = P l
Upholds P (cancel l) = P l
Upholds P (timeout l) = P l

-- From `l` to `l'` at most `n` calls of the model are counted, no more calls of tools than those of
-- the model, and no more events; by the measure `runs` of their state the tools ran at most `n`
-- times; and the tables are well formed.
pub record IsSound {S : Type 0} (runs : S → ℕ) (n : ℕ) (l l' : Loop S) : Type 0 where
  pub few_runs : runs l'.runtime.tools ≤ runs l.runtime.tools + n
  pub tables : IsWellFormed l'.db
  pub few_generations : l'.session.usage.model_calls ≤ l.session.usage.model_calls + n
  pub few_calls :
      l'.session.usage.tool_calls + l.session.usage.model_calls
      ≤ l.session.usage.tool_calls + l'.session.usage.model_calls
  pub few_events :
      length l'.active.tool_events + l.session.usage.model_calls
      ≤ length l.active.tool_events + l'.session.usage.model_calls

module _ {S : Type 0} (P : Loop S → Type 0) where
  pub attempt-Upholds :
      {A : Type 0} (l : Loop S) (m : Result A) (k : A → Step S)
      → P l
      → ((a : A) → m ≡ ok a → Upholds P (k a))
      → Upholds P (attempt l m k)
  attempt-Upholds l (ok a) k p h = h a refl
  attempt-Upholds l (raised e) k p h = p

  pub emit-Upholds :
      (now : String) (t : EventType) (payload : Fields) (l : Loop S) (k : Loop S → Step S)
      → P l
      → ((e : TrajectoryEvent) (db : Db)
          → append_event now l.session.session_id t payload l.db ≡ ok (e, db)
          → Upholds P (k (record l { db = db })))
      → Upholds P (emit now t payload l k)
  unfolding emit
  emit-Upholds now t payload l k p h =
      attempt-Upholds l (append_event now l.session.session_id t payload l.db) _ p
        (λ q e. h q.0 q.1 e)

  pub save-Upholds :
      (now : String) (s : SessionRead) (l : Loop S) (k : Loop S → Step S)
      → P l
      → ((s' : SessionRead) (db : Db)
          → save_session now s l.db ≡ ok (s', db)
          → Upholds P (k (record l { session = s'; db = db })))
      → Upholds P (save now s l k)
  unfolding save
  save-Upholds now s l k p h = attempt-Upholds l (save_session now s l.db) _ p (λ q e. h q.0 q.1 e)

pub stored_usage :
    (now : String) (s : SessionRead) (db : Db) {s' : SessionRead} {db' : Db}
    → save_session now s db ≡ ok (s', db')
    → s'.usage ≡ s.usage
unfolding save_session
stored_usage now s db h =
    let (r, e, h') =
      >>=-eq-ok (or_raise (key_error s.session_id) (find_session s.session_id db.sessions)) _ h in
    sym (ap (λ (p : SessionRead × Db). p.0.usage) (ok_injective h'))

pub count_call-usage :
    (py : Python) (call : ToolCall) (x : ToolExecution) (s : SessionRead)
    → (count_call py call x s).usage ≡ record (s.usage) { tool_calls = s.usage.tool_calls + 1 }
unfolding count_call
count_call-usage py call x s = elim (Bool-cases (is_submitted call x)) [
  | inl y ↦ rw y refl
  | inr n ↦ rw n refl
]

-- Other tables that are well formed as well.
pub with_db :
    {S : Type 0} {runs : S → ℕ} (n : ℕ) (l0 l : Loop S) (db : Db)
    → IsSound runs n l0 l
    → IsWellFormed db
    → IsSound runs n l0 (record l { db = db })
with_db n l0 l db p w = record {
  tables = w;
  few_runs = p.few_runs;
  few_generations = p.few_generations;
  few_calls = p.few_calls;
  few_events = p.few_events;
}

-- One call of the model is counted, and none of a tool yet, which may have run.
pub record Heard {S : Type 0} (runs : S → ℕ) (l0 l : Loop S) : Type 0 where
  pub one_run : runs l.runtime.tools ≤ runs l0.runtime.tools + 1
  pub tables : IsWellFormed l.db
  pub one_generation : l.session.usage.model_calls ≡ l0.session.usage.model_calls + 1
  pub no_calls : l.session.usage.tool_calls ≡ l0.session.usage.tool_calls
  pub no_events : length l.active.tool_events ≡ length l0.active.tool_events

pub heard_Sound :
    {S : Type 0} {runs : S → ℕ} (l0 l : Loop S) → Heard runs l0 l → IsSound runs 1 l0 l
heard_Sound l0 l h = record {
  tables = h.tables;
  few_runs = h.one_run;
  few_generations = omega (arith, h.one_generation);
  few_calls = omega (arith, h.one_generation, h.no_calls);
  few_events = omega (arith, h.one_generation, h.no_events);
}

pub unchanged :
    {S : Type 0} {runs : S → ℕ} (n : ℕ) (l : Loop S) → IsWellFormed l.db → IsSound runs n l l
unchanged n l w = record {
  tables = w;
  few_runs = omega arith;
  few_generations = omega arith;
  few_calls = omega arith;
  few_events = omega arith;
}

-- The turns of a run add up.
pub IsSound_trans :
    {S : Type 0} {runs : S → ℕ} (n : ℕ) (l0 l1 l2 : Loop S)
    → IsSound runs 1 l0 l1
    → IsSound runs n l1 l2
    → IsSound runs (suc n) l0 l2
IsSound_trans n l0 l1 l2 p q = record {
  tables = q.tables;
  few_runs = omega (arith, p.few_runs, q.few_runs);
  few_generations = omega (arith, p.few_generations, q.few_generations);
  few_calls = omega (arith, p.few_calls, q.few_calls);
  few_events = omega (arith, p.few_events, q.few_events);
}

pub Upholds-map :
    {S : Type 0} (P Q : Loop S → Type 0) (s : Step S)
    → ((l : Loop S) → P l → Q l)
    → Upholds P s
    → Upholds Q s
Upholds-map P Q (next l) f h = f l h
Upholds-map P Q (stop final reason l) f h = f l h
Upholds-map P Q (raise e l) f h = f l h
Upholds-map P Q (cancel l) f h = f l h
Upholds-map P Q (timeout l) f h = f l h

-- The tool's event is noted, but not counted yet.
pub heard_event :
    {S : Type 0} {runs : S → ℕ} (turn : ℕ) (call : ToolCall) (x : ToolExecution) (l0 l : Loop S)
    (messages : List Fields)
    → Heard runs l0 l
    → IsSound runs 1 l0 (record l {
      active = record (l.active) {
        tool_events = l.active.tool_events ++ tool_event turn call x ∷ [];
        messages = messages;
      };
    })
heard_event turn call x l0 l messages p = record {
  tables = p.tables;
  few_runs = p.one_run;
  few_generations = omega (arith, p.one_generation);
  few_calls = omega (arith, p.one_generation, p.no_calls);
  few_events =
      rw (length-append l.active.tool_events (tool_event turn call x ∷ []), p.no_events)
        (omega (arith, p.one_generation));
}

-- The call is counted in the stored session.
pub called :
    {S : Type 0} {runs : S → ℕ} (turn : ℕ) (call : ToolCall) (x : ToolExecution) (l0 l : Loop S)
    (messages : List Fields) (s' : SessionRead) (db : Db)
    → Heard runs l0 l
    → IsWellFormed db
    → s'.usage ≡ record (l.session.usage) { tool_calls = l.session.usage.tool_calls + 1 }
    → IsSound runs 1 l0 (record l {
      session = s';
      db = db;
      active = record (l.active) {
        tool_events = l.active.tool_events ++ tool_event turn call x ∷ [];
        messages = messages;
      };
    })
called turn call x l0 l messages s' db p w u =
    let models = ap (λ (m : UsageMetrics). m.model_calls) u in
    let calls = ap (λ (m : UsageMetrics). m.tool_calls) u in
    record {
      tables = w;
      few_runs = p.one_run;
      few_generations = omega (arith, p.one_generation, models);
      few_calls = omega (arith, p.one_generation, p.no_calls, models, calls);
      few_events =
          rw (length-append l.active.tool_events (tool_event turn call x ∷ []), p.no_events)
            (omega (arith, p.one_generation, models));
    }

-- A call of `execute` runs at most one tool, and that once.
pub execute-once :
    (py : Python) {S : Type 0} (box : Toolbox S) (runs : S → ℕ)
    → ((n id : String) (arguments : Fields) (s : S)
        → runs (box.run n id arguments s).0 ≤ runs s + 1)
    → (id name : String) (arguments : Fields) (events : List Event) (elapsed : ℕ) (rt : Runtime S)
    → runs (execute py box id name arguments events elapsed rt).0.tools ≤ runs rt.tools + 1
unfolding execute
execute-once py {S} box runs once id name arguments events elapsed rt = by_gate _
  where
    by_gate :
        (gate : Result (Option ToolExecution))
        → runs
            (dispatch py box id
              (is_execution_only (lookup id rt.session_modes))
              name
              arguments
              elapsed
              rt
              gate).0.tools
          ≤ runs rt.tools + 1
    by_gate (raised e) = unfold dispatch in omega arith
    by_gate (ok (some x)) = unfold dispatch in omega arith
    by_gate (ok none) = unfold dispatch in once name id arguments rt.tools
