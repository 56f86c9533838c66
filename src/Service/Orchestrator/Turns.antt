-- ===== src/Service/Orchestrator/Turns.antt =====
-- `_agent_loop` of driftsql/service/inference/orchestrator.py, stage by stage.
use drift_sql.Prelude.{
  ℕ, zero, suc, ◌+◌, ◌≤◌, String, ◌≡◌, refl, ap, ◌∙◌, inl, inr, not, ◌&&◌, List, [], ◌∷◌, arith,
  ◌==◌, ltb, leb, Bool-cases,
}
use drift_sql.Python.{Python}
use drift_sql.Python.Values.{Fields, pos, int, text, end, field}
use drift_sql.Service.Types.{SessionStatus, EventType, InferenceBudget, UsageMetrics}
use drift_sql.Service.Repository.{save_trajectory_state}
use drift_sql.Service.Repository.Invariant.{
  IsWellFormed, save_session-IsWellFormed, append_event-IsWellFormed,
  save_trajectory_state-IsWellFormed,
}
use drift_sql.Service.Toolbox.{Toolbox}
use drift_sql.Service.Tools.{ToolExecution, schemas_for}
use drift_sql.Service.Orchestrator.{
  Generation, ToolCall, Generated, Surroundings, Loop, Step, emit, exhaust, count_generation,
  is_submitted, tool_payload, count_call, after_call, store_messages, announce_call, record_call,
  call_tool, after_generation, announce_generation, record_generation, on_generated, take_turn,
  run_turns, generated, aborted, too_late, broken, next, stop, raise, cancel, timeout,
}
use drift_sql.Service.Orchestrator.Sound.{
  Upholds, attempt-Upholds, emit-Upholds, save-Upholds, stored_usage, count_call-usage, with_db,
  heard_Sound, unchanged, IsSound_trans, Upholds-map, heard_event, called, execute-once, IsSound,
  Heard,
}

module _ (py : Python) {S : Type 0} (box : Toolbox S) (env : Surroundings)
    (budget : InferenceBudget) (runs : S → ℕ)
    (once : (n id : String) (arguments : Fields) (s : S)
      → runs (box.run n id arguments s).0 ≤ runs s + 1) where
  exhaust-Sound :
      (n : ℕ) (l0 l : Loop S) (now reason : String)
      → IsSound runs n l0 l
      → Upholds (IsSound runs n l0) (exhaust now reason l)
  unfolding exhaust
  exhaust-Sound n l0 l now reason p =
      emit-Upholds (IsSound runs n l0) now EventType.budget _ l
        (stop SessionStatus.budget_exhausted reason) p
        (λ e db h.
          with_db n l0 l db p (append_event-IsWellFormed now _ EventType.budget _ l.db p.tables h))

  after_call-Sound :
      (turn : ℕ) (call : ToolCall) (x : ToolExecution) (l0 l : Loop S)
      → IsSound runs 1 l0 l
      → Upholds (IsSound runs 1 l0) (after_call py box env budget turn call x l)
  unfolding after_call
  after_call-Sound turn call x l0 l p =
      elim (Bool-cases (
        leb budget.max_tool_calls l.session.usage.tool_calls
        && not (call.name == "submit_solution"))) [
          | inl y ↦ rw y (exhaust-Sound 1 l0 l _ _ p)
          | inr n ↦
              rw n (elim (Bool-cases (is_submitted call x)) [ inl y ↦ rw y p | inr k ↦ rw k p ])
        ]

  store_messages-Sound :
      (turn : ℕ) (call : ToolCall) (x : ToolExecution) (l0 l : Loop S)
      → IsSound runs 1 l0 l
      → Upholds (IsSound runs 1 l0) (store_messages py box env budget turn call x l)
  unfolding store_messages
  store_messages-Sound turn call x l0 l p =
      attempt-Upholds (IsSound runs 1 l0) l
        (save_trajectory_state l.session.session_id l.active.messages end l.db)
        (λ db. after_call py box env budget turn call x (record l { db = db })) p
        (λ db h.
          after_call-Sound turn call x l0 _
            (with_db 1 l0 l db p (save_trajectory_state-IsWellFormed _ _ _ l.db p.tables h)))

  announce_call-Sound :
      (turn : ℕ) (call : ToolCall) (x : ToolExecution) (l0 l : Loop S)
      → IsSound runs 1 l0 l
      → Upholds (IsSound runs 1 l0) (announce_call py box env budget turn call x l)
  unfolding announce_call
  announce_call-Sound turn call x l0 l p =
      emit-Upholds (IsSound runs 1 l0) (env.now turn) EventType.tool (tool_payload turn call x) l
        (store_messages py box env budget turn call x) p
        (λ e db h.
          store_messages-Sound turn call x l0 _
            (with_db 1 l0 l db p (append_event-IsWellFormed _ _ _ _ l.db p.tables h)))

  record_call-Sound :
      (turn : ℕ) (call : ToolCall) (x : ToolExecution) (l0 l : Loop S)
      → Heard runs l0 l
      → Upholds (IsSound runs 1 l0) (record_call py box env budget turn call x l)
  unfolding record_call
  record_call-Sound turn call x l0 l p =
      save-Upholds (IsSound runs 1 l0) (env.now turn) (count_call py call x l.session) _
        (announce_call py box env budget turn call x) (heard_event turn call x l0 l _ p)
        (λ s' db h. announce_call-Sound turn call x l0 _ (
          called turn call x l0 l _ s' db p (save_session-IsWellFormed _ _ l.db p.tables h)
            (stored_usage _ _ l.db h ∙ count_call-usage py call x l.session)))

  call_tool-Sound :
      (turn : ℕ) (content : String) (call : ToolCall) (l0 l : Loop S)
      → Heard runs l0 l
      → runs l.runtime.tools ≡ runs l0.runtime.tools
      → Upholds (IsSound runs 1 l0) (call_tool py box env budget turn content call l)
  unfolding call_tool
  call_tool-Sound turn content call l0 l p same =
      let q : Heard runs l0 _ = record {
        tables = p.tables;
        one_generation = p.one_generation;
        no_calls = p.no_calls;
        no_events = p.no_events;
        one_run =
            let ran =
              execute-once py box runs once l.session.session_id call.name call.arguments
                l.active.tool_events (env.tool_ms turn) l.runtime in
            omega (arith, same, ran);
      } in
      attempt-Upholds (IsSound runs 1 l0) _ _ _ (heard_Sound l0 _ q)
        (λ x e. record_call-Sound turn call x l0 _ q)

  after_generation-Sound :
      (turn : ℕ) (g : Generation) (l0 l : Loop S)
      → Heard runs l0 l
      → runs l.runtime.tools ≡ runs l0.runtime.tools
      → Upholds (IsSound runs 1 l0) (after_generation py box env budget turn g l)
  unfolding after_generation
  after_generation-Sound turn g l0 l p same =
      let used = l.session.usage.prompt_tokens + l.session.usage.response_tokens in
      elim (Bool-cases (ltb budget.max_total_tokens used)) [
        | inl y ↦ rw y (exhaust-Sound 1 l0 l (env.now turn) "max_total_tokens" (heard_Sound l0 l p))
        | inr n ↦ rw n (by_calls (env.find_tool_calls g.content))
      ]
    where
      by_calls :
          (calls : List ToolCall)
          → Upholds (IsSound runs 1 l0) (elim calls as (λ calls. Step S) [
            | [] ↦
                emit
                  (env.now turn)
                  EventType.error
                  (field "turn" (int (pos turn)) (field "error" (text "missing_tool_call") end))
                  l
                  next
            | call ∷ calls ↦ call_tool py box env budget turn g.content call l
          ])
      by_calls [] =
          emit-Upholds (IsSound runs 1 l0) (env.now turn) EventType.error _ l next
            (heard_Sound l0 l p)
            (λ e db h.
              with_db 1 l0 l db (heard_Sound l0 l p)
                (append_event-IsWellFormed _ _ _ _ l.db p.tables h))
      by_calls (call ∷ calls) = call_tool-Sound turn g.content call l0 l p same

  announce_generation-Sound :
      (turn : ℕ) (g : Generation) (l0 l : Loop S)
      → Heard runs l0 l
      → runs l.runtime.tools ≡ runs l0.runtime.tools
      → Upholds (IsSound runs 1 l0) (announce_generation py box env budget turn g l)
  unfolding announce_generation
  announce_generation-Sound turn g l0 l p same =
      emit-Upholds (IsSound runs 1 l0) (env.now turn) EventType.model _ l
        (after_generation py box env budget turn g) (heard_Sound l0 l p)
        (λ e db h.
          after_generation-Sound turn g l0 _
            record {
              tables = append_event-IsWellFormed _ _ _ _ l.db p.tables h;
              one_run = p.one_run;
              one_generation = p.one_generation;
              no_calls = p.no_calls;
              no_events = p.no_events;
            }
            same)

  record_generation-Sound :
      (turn : ℕ) (g : Generation) (l : Loop S)
      → IsWellFormed l.db
      → Upholds (IsSound runs 1 l) (record_generation py box env budget turn g l)
  unfolding record_generation count_generation
  record_generation-Sound turn g l w =
      save-Upholds (IsSound runs 1 l) (env.now turn) (count_generation g l.session) _
        (announce_generation py box env budget turn g)
        (record {
          tables = w;
          few_runs = omega arith;
          few_generations = omega arith;
          few_calls = omega arith;
          few_events = omega arith;
        })
        (λ s' db h.
          announce_generation-Sound turn g l _
            (record {
              one_run = omega arith;
              tables = save_session-IsWellFormed _ _ l.db w h;
              one_generation = ap (λ (m : UsageMetrics). m.model_calls) (stored_usage _ _ l.db h);
              no_calls = ap (λ (m : UsageMetrics). m.tool_calls) (stored_usage _ _ l.db h);
              no_events = refl;
            })
            refl)

  take_turn-Sound :
      (turn : ℕ) (l : Loop S)
      → IsWellFormed l.db
      → Upholds (IsSound runs 1 l) (take_turn py box env budget turn l)
  unfolding take_turn on_generated
  take_turn-Sound turn l w = elim (Bool-cases (env.is_cancelled turn)) [
    | inl y ↦ rw y (unchanged 1 l w)
    | inr n ↦ rw n (
        attempt-Upholds (IsSound runs 1 l) l
          (schemas_for py l.session.session_id l.active.tool_events l.runtime)
          (λ shown. on_generated py box env budget turn l (env.generate turn shown l.active))
          (unchanged 1 l w) (λ shown e. answered_Sound (env.generate turn shown l.active)))
  ]
    where
      answered_Sound :
          (r : Generated) → Upholds (IsSound runs 1 l) (on_generated py box env budget turn l r)
      answered_Sound (generated g) = record_generation-Sound turn g l w
      answered_Sound aborted = unchanged 1 l w
      answered_Sound too_late = unchanged 1 l w
      answered_Sound (broken e) = unchanged 1 l w

  -- Let `runs` be any measure of the state of the tools that one `execute` of a tool raises by at
  -- most 1. A run of `n` turns that starts with well-formed tables ends, however it ends, with
  -- well-formed tables, after at most `n` executions of tools by that measure; and in the usage and
  -- the events of the session at most `n` more calls of the model are counted, no more calls of
  -- tools are added than those of the model, and no more events.
  pub run_turns-IsSound :
      (n turn : ℕ) (l : Loop S)
      → IsWellFormed l.db
      → Upholds (IsSound runs n l) (run_turns py box env budget n turn l)
  unfolding run_turns
  run_turns-IsSound zero turn l w =
      exhaust-Sound zero l l (env.now turn) "max_turns" (unchanged zero l w)
  run_turns-IsSound (suc n) turn l w =
      goes_on (λ l' v. run_turns-IsSound n (turn + 1) l' v) (take_turn py box env budget turn l)
        (take_turn-Sound turn l w)
    where
      more : (l' : Loop S) → IsSound runs 1 l l' → IsSound runs (suc n) l l'
      more l' p = IsSound_trans n l l' l' p (unchanged n l' p.tables)

      goes_on :
          ((l' : Loop S)
            → IsWellFormed l'.db
            → Upholds (IsSound runs n l') (run_turns py box env budget n (turn + 1) l'))
          → (s : Step S) → Upholds (IsSound runs 1 l) s
          → Upholds (IsSound runs (suc n) l) (elim s as (λ s. Step S) [
            | next l' ↦ run_turns py box env budget n (turn + 1) l'
            | stop final reason l' ↦ stop final reason l'
            | raise e l' ↦ raise e l'
            | cancel l' ↦ cancel l'
            | timeout l' ↦ timeout l'
          ])
      goes_on rest (next l') p =
          Upholds-map (IsSound runs n l') (IsSound runs (suc n) l) _
            (λ l2 q. IsSound_trans n l l' l2 p q) (rest l' p.tables)
      goes_on rest (stop final reason l') p = more l' p
      goes_on rest (raise e l') p = more l' p
      goes_on rest (cancel l') p = more l' p
      goes_on rest (timeout l') p = more l' p
