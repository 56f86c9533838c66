-- ===== src/Service/Orchestrator.antt =====
-- driftsql/service/inference/orchestrator.py: the turns of one session's agent. A step gives the
-- state after it, also when it raises. The model, the parser of its tool calls and the clock are
-- parameters; so is, at the start of each turn, whether the client has asked to cancel.
pub mod Sound
pub mod Turns
mod Tests
use drift_sql.Prelude.{
  ℕ, zero, suc, ◌+◌, String, Bool, not, ◌&&◌, ◌||◌, some, List, [], ◌∷◌, ◌++◌, ◌==◌, ltb, leb,
  if◌then◌else◌,
}
use drift_sql.Result.{Error, Result, ok, raised}
use drift_sql.Python.{Python, str_of}
use drift_sql.Python.Values.{
  Json, Fields, get_or, flag, pos, null, bool, int, text, arr, obj, nil, cons, end, field,
}
use drift_sql.Policy.Event.{Event}
use drift_sql.Service.Types.{SessionStatus, SessionMode, EventType, InferenceBudget, SessionRead}
use drift_sql.Service.Repository.{Db, save_session, append_event, save_trajectory_state}
use drift_sql.Service.Toolbox.{Toolbox}
use drift_sql.Service.Tools.{ToolExecution, Runtime, schemas_for, execute}

-- `ActiveSession`; the task and the cancel event are not part of it.
pub record ActiveSession : Type 0 where
  pub scenario_id : String
  pub create_kwargs : Fields
  pub messages : List Fields
  pub mode : SessionMode
  pub reward_extra_info : Fields
  pub tool_events : List Event
  pub model_outputs : List String

-- `GenerationResult`
pub record Generation : Type 0 where
  pub content : String
  pub prompt_tokens : ℕ
  pub response_tokens : ℕ
  pub elapsed_ms : ℕ

pub record ToolCall : Type 0 where
  pub name : String
  pub arguments : Fields

pub data Generated : Type 0 where
  generated : Generation → Generated
  aborted too_late : Generated
  broken : Error → Generated

-- What a run meets, turn by turn.
pub record Surroundings : Type 0 where
  pub is_cancelled : ℕ → Bool
  -- `backend.generate` of the turn, with the names of the tools that are shown
  pub generate : ℕ → List String → ActiveSession → Generated
  -- `find_tool_calls`, and `remove_tool_call_payloads` of one call
  pub find_tool_calls : String → List ToolCall
  pub without_call : String → ToolCall → String
  pub now : ℕ → String
  pub tool_ms : ℕ → ℕ

-- The session as the loop holds it, which it read once, and what it shares.
pub record Loop (S : Type 0) : Type 0 where
  pub session : SessionRead
  pub db : Db
  pub runtime : Runtime S
  pub active : ActiveSession

-- How a turn, or the whole run, ends. `raised` is an exception other than the two named ones.
pub data Step (S : Type 0) : Type 0 where
  next : Loop S → Step S
  stop : SessionStatus → String → Loop S → Step S
  raise : Error → Loop S → Step S
  cancel timeout : Loop S → Step S

abbrev number : ℕ → Json
number n = int (pos n)

module _ {S : Type 0} where
  -- A call that may raise, in the state before it.
  abbrev pub attempt {ℓ} : {A : Type ℓ} → Loop S → Result A → (A → Step S) → Step S
  attempt l (ok a) k = k a
  attempt l (raised e) k = raise e l

  -- `_emit` and what follows it.
  unfoldable pub emit : String → EventType → Fields → Loop S → (Loop S → Step S) → Step S
  emit now event_type payload l k =
      attempt l (append_event now l.session.session_id event_type payload l.db)
        (λ p. k (record l { db = p.1 }))

  -- `session = self.repository.save_session(...)`
  unfoldable pub save : String → SessionRead → Loop S → (Loop S → Step S) → Step S
  save now s l k =
      attempt l (save_session now s l.db) (λ p. k (record l { session = p.0; db = p.1 }))

  -- The budget is exhausted.
  unfoldable pub exhaust : String → String → Loop S → Step S
  unfolding emit
  exhaust now reason l =
      emit now EventType.budget (field "exhausted" (text reason) end) l
        (stop SessionStatus.budget_exhausted reason)

unfoldable pub count_generation : Generation → SessionRead → SessionRead
count_generation g s = record s {
  usage = record (s.usage) {
    model_calls = s.usage.model_calls + 1;
    prompt_tokens = s.usage.prompt_tokens + g.prompt_tokens;
    response_tokens = s.usage.response_tokens + g.response_tokens;
  };
}

unfoldable pub is_submitted : ToolCall → ToolExecution → Bool
is_submitted call x = call.name == "submit_solution" && flag "submitted" x.metrics

unfoldable pub first_name : List ToolCall → Json
first_name [] = null
first_name (c ∷ cs) = text c.name

unfoldable pub model_payload : ℕ → Generation → List ToolCall → Fields
unfolding first_name
model_payload turn g calls = field "turn" (number turn) (
    field "content" (text g.content) (
      field "tool_name" (first_name calls) (
        field "prompt_tokens" (number g.prompt_tokens) (
          field "response_tokens" (number g.response_tokens)
            (field "elapsed_ms" (number g.elapsed_ms) end)))))

unfoldable pub tool_event : ℕ → ToolCall → ToolExecution → Event
tool_event turn call x = field "turn" (number turn) (
    field "tool" (text call.name) (
      field "arguments" (obj call.arguments) (
        field "response" (text x.observation)
          (field "metrics" (obj x.metrics) (field "reward" x.reward end)))))

unfoldable pub tool_payload : ℕ → ToolCall → ToolExecution → Fields
tool_payload turn call x =
    let failed =
      flag "execution_error" x.metrics
      || (flag "action_masked" x.metrics || flag "duplicate_retrieval" x.metrics) in
    field "turn" (number turn) (
      field "tool" (text call.name) (
        field "arguments" (obj call.arguments) (
          field "observation" (text x.observation) (
            field "metrics" (obj x.metrics) (
              field "reward" x.reward (
                field "elapsed_ms" (number x.elapsed_ms)
                  (field "success" (bool (not failed)) end)))))))

module _ (py : Python) where
  unfoldable pub assistant_message : String → ToolCall → Fields
  assistant_message content call =
      let function =
        field "name" (text call.name)
          (field "arguments" (text (py.dumps (obj call.arguments))) end) in
      field "role" (text "assistant") (
        field "content" (text content) (
          field "tool_calls"
            (arr (
              cons (obj (field "type" (text "function") (field "function" (obj function) end)))
                nil))
            end))

  unfoldable pub count_call : ToolCall → ToolExecution → SessionRead → SessionRead
  unfolding is_submitted
  count_call call x s =
      let counted : SessionRead = record s {
        usage = record (s.usage) { tool_calls = s.usage.tool_calls + 1 };
      } in
      if is_submitted call x
      then record counted { final_sql = some (str_of py (get_or "sql" (text "") call.arguments)) }
      else counted

  module _ {S : Type 0} (box : Toolbox S) (env : Surroundings) (budget : InferenceBudget) where
    -- After the tool's turn is stored: the budget of calls, the submission, or the next turn.
    unfoldable pub after_call : ℕ → ToolCall → ToolExecution → Loop S → Step S
    unfolding exhaust is_submitted
    after_call turn call x l =
        if leb budget.max_tool_calls l.session.usage.tool_calls
          && not (call.name == "submit_solution")
        then exhaust (env.now turn) "max_tool_calls" l
        else if is_submitted call x
        then stop SessionStatus.completed "submitted" l
        else next l

    unfoldable pub store_messages : ℕ → ToolCall → ToolExecution → Loop S → Step S
    unfolding after_call
    store_messages turn call x l =
        attempt l (save_trajectory_state l.session.session_id l.active.messages end l.db)
          (λ db. after_call turn call x (record l { db = db }))

    unfoldable pub announce_call : ℕ → ToolCall → ToolExecution → Loop S → Step S
    unfolding emit tool_payload store_messages
    announce_call turn call x l =
        emit (env.now turn) EventType.tool (tool_payload turn call x) l (store_messages turn call x)

    -- The tool has answered.
    unfoldable pub record_call : ℕ → ToolCall → ToolExecution → Loop S → Step S
    unfolding save count_call tool_event announce_call
    record_call turn call x l =
        let answer = field "role" (text "tool") (field "content" (text x.observation) end) in
        let kept : Loop S = record l {
          active = record (l.active) {
            tool_events = l.active.tool_events ++ tool_event turn call x ∷ [];
            messages = l.active.messages ++ answer ∷ [];
          };
        } in
        save (env.now turn) (count_call call x l.session) kept (announce_call turn call x)

    unfoldable pub call_tool : ℕ → String → ToolCall → Loop S → Step S
    unfolding assistant_message record_call
    call_tool turn content call l =
        let asked : ActiveSession = record (l.active) {
          messages =
              l.active.messages ++ assistant_message (env.without_call content call) call ∷ [];
        } in
        let (runtime, outcome) =
          execute py box l.session.session_id call.name call.arguments l.active.tool_events
            (env.tool_ms turn) l.runtime in
        let called : Loop S = record l { runtime = runtime; active = asked } in
        attempt called outcome (λ x. record_call turn call x called)

    -- The model's turn is stored: its token budget, and its first call.
    unfoldable pub after_generation : ℕ → Generation → Loop S → Step S
    unfolding exhaust emit call_tool
    after_generation turn g l =
        let missing = field "turn" (number turn) (field "error" (text "missing_tool_call") end) in
        let used = l.session.usage.prompt_tokens + l.session.usage.response_tokens in
        let called = elim (env.find_tool_calls g.content) as (λ calls. Step S) [
          | [] ↦ emit (env.now turn) EventType.error missing l next
          | call ∷ calls ↦ call_tool turn g.content call l
        ] in
        if ltb budget.max_total_tokens used
        then exhaust (env.now turn) "max_total_tokens" l
        else called

    unfoldable pub announce_generation : ℕ → Generation → Loop S → Step S
    unfolding emit model_payload after_generation
    announce_generation turn g l =
        emit (env.now turn) EventType.model (model_payload turn g (env.find_tool_calls g.content)) l
          (after_generation turn g)

    unfoldable pub record_generation : ℕ → Generation → Loop S → Step S
    unfolding save count_generation announce_generation
    record_generation turn g l =
        let heard : Loop S = record l {
          active = record (l.active) { model_outputs = l.active.model_outputs ++ g.content ∷ [] };
        } in
        save (env.now turn) (count_generation g l.session) heard (announce_generation turn g)

    unfoldable pub on_generated : ℕ → Loop S → Generated → Step S
    unfolding record_generation
    on_generated turn l (generated g) = record_generation turn g l
    on_generated turn l aborted = cancel l
    on_generated turn l too_late = timeout l
    on_generated turn l (broken e) = raise e l

    -- The body of the loop over the turns.
    unfoldable pub take_turn : ℕ → Loop S → Step S
    unfolding on_generated schemas_for
    take_turn turn l =
        let asked =
          attempt l (schemas_for py l.session.session_id l.active.tool_events l.runtime)
            (λ shown. on_generated turn l (env.generate turn shown l.active)) in
        if env.is_cancelled turn then cancel l else asked

    -- `for turn in range(first, ...)` with `n` turns to go, and what follows the loop.
    unfoldable pub run_turns : ℕ → ℕ → Loop S → Step S
    unfolding take_turn exhaust
    run_turns zero turn l = exhaust (env.now turn) "max_turns" l
    run_turns (suc n) turn l = elim (take_turn turn l) [
      | next l' ↦ run_turns n (turn + 1) l'
      | stop final reason l' ↦ stop final reason l'
      | raise e l' ↦ raise e l'
      | cancel l' ↦ cancel l'
      | timeout l' ↦ timeout l'
    ]
