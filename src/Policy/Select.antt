-- ===== src/Policy/Select.antt =====
-- `select_dynamic_tool_names` of state_policy.py: the tools that may be called next.
pub mod Laws
pub mod Total
pub mod Forced
pub mod OneShot
use drift_sql.Prelude.{
  ℕ, ◌+◌, String, Bool, true, false, not, ◌&&◌, Option, none, some, List, [], ◌∷◌, map, ◌==◌, ltb,
  if◌then◌else◌, keep, any, contains, minus, single,
}
use drift_sql.Result.{◌>>=◌, Result, ok}
use drift_sql.Python.{Python}
use drift_sql.Python.Values.{Fields, flag}
use drift_sql.Policy.Event.{
  one_shot_tools, post_clarification_set, Event, event_name, event_was_masked, event_observation,
}
use drift_sql.Policy.Recovery.{
  Completed, required_contract_recovery_action, has_validated_execution,
}

abbrev pub submit : String
submit = "submit_solution"

-- What the policy reads of an event. The mask is read lazily, since reading it may raise.
pub record View : Type 0 where
  pub name : String
  pub masked : Result Bool
  pub observation : Fields

unfoldable pub view : Python → Event → View
view py e = record {
  name = event_name py e;
  masked = event_was_masked py e;
  observation = event_observation py e;
}

-- The events with their positions, as `enumerate` gives them.
unfoldable pub completed_from : ℕ → List View → List Completed
completed_from i [] = []
completed_from i (v ∷ vs) =
    record { index = i; name = v.name; observation = v.observation } ∷ completed_from (i + 1) vs

-- `[event for event in events if not _event_was_masked(event)]`
unfoldable pub unmasked : List View → Result (List View)
unmasked [] = ok []
unmasked (v ∷ vs) = do m ← v.masked; rest ← unmasked vs; ok (if m then rest else v ∷ rest)

-- The names of the events that pass a test and are not masked, the test first.
unfoldable pub unmasked_names : (String → Bool) → List View → Result (List String)
unmasked_names p [] = ok []
unmasked_names p (v ∷ vs) =
    let rest = unmasked_names p vs in
    if p v.name
    then (do m ← v.masked; names ← rest; ok (if m then names else v.name ∷ names))
    else rest

unfoldable pub called_one_shot : List View → Result (List String)
unfolding unmasked_names
called_one_shot = unmasked_names (contains one_shot_tools)

-- The position of the last unmasked `ask_user`; `none` is the source's -1.
unfoldable pub last_ask_from : ℕ → Option ℕ → List View → Result (Option ℕ)
last_ask_from i found [] = ok found
last_ask_from i found (v ∷ vs) =
    if v.name == "ask_user"
    then (do m ← v.masked; last_ask_from (i + 1) (if m then found else some i) vs)
    else last_ask_from (i + 1) found vs

unfoldable pub is_after : Option ℕ → ℕ → Bool
is_after none i = true
is_after (some a) i = ltb a i

-- `any(...)` stops at the first event that follows the question up.
unfoldable pub followed_up_from : ℕ → Option ℕ → List View → Result Bool
unfolding is_after
followed_up_from i ask [] = ok false
followed_up_from i ask (v ∷ vs) =
    let rest = followed_up_from (i + 1) ask vs in
    if is_after ask i && contains post_clarification_set v.name
    then (do m ← v.masked; if m then rest else ok true)
    else rest

unfoldable pub post_clarification_tools : List String → Bool → List String
post_clarification_tools available knowledge_first =
    let allowed = keep (contains post_clarification_set) available in
    if not knowledge_first
    then allowed
    else if contains allowed "get_knowledge_definition"
    then single "get_knowledge_definition"
    else keep (contains (single "execute_sql")) allowed

-- `available.intersection_update(post_clarification_tools(available, ...))`
unfoldable pub restrict_after_ask : Option ℕ → Bool → Bool → List String → List String
unfolding post_clarification_tools
restrict_after_ask (some a) false knowledge_first available =
    keep (contains (post_clarification_tools available knowledge_first)) available
restrict_after_ask (some a) true knowledge_first available = available
restrict_after_ask none followed knowledge_first available = available

unfoldable pub has_schema : View → Bool
has_schema v = v.name == "get_schema" && flag "schema" v.observation

-- A schema first, then whatever has not been called, and the submission only when validated.
unfoldable pub execution_only_choice : List String → List View → List String
unfolding completed_from has_schema
execution_only_choice tools completed =
    let called = keep (contains one_shot_tools) (map (λ v. v.name) completed) in
    let available = minus tools called in
    if not (any has_schema completed) && contains tools "get_schema"
    then single "get_schema"
    else if has_validated_execution (completed_from 0 completed)
    then (if contains available submit then single submit else [])
    else minus available (single submit)

unfoldable pub execution_only_names : List String → List View → Result (List String)
unfolding unmasked execution_only_choice
execution_only_names tools views = do
  completed ← unmasked views
  ok (execution_only_choice tools completed)

unfoldable pub clarified_names : Bool → List View → List String → Result (List String)
unfolding last_ask_from followed_up_from restrict_after_ask
clarified_names knowledge_first views available = do
  ask ← last_ask_from 0 none views
  followed ← followed_up_from 0 ask views
  ok (restrict_after_ask ask followed knowledge_first available)

-- Recovery first, then the submission of a validated execution, then the clarification.
unfoldable pub recovery_choice : List String → Bool → List View → List String → Result (List String)
unfolding clarified_names completed_from
recovery_choice tools knowledge_first views available =
    let completed = completed_from 0 views in
    let required = required_contract_recovery_action completed in
    if contains tools required
    then ok (single required)
    else if has_validated_execution completed && contains available submit
    then ok (single submit)
    else clarified_names knowledge_first views available

unfoldable pub recovery_names : List String → Bool → List View → Result (List String)
unfolding called_one_shot recovery_choice
recovery_names tools knowledge_first views = do
  called ← called_one_shot views
  recovery_choice tools knowledge_first views (minus tools called)

-- `select_dynamic_tool_names(events, tool_names, knowledge_first_after_ask=..., execution_only=...)`
unfoldable pub select_dynamic_tool_names :
    Python → List Event → List String → Bool → Bool → Result (List String)
unfolding execution_only_names recovery_names view
select_dynamic_tool_names py events tools knowledge_first execution_only =
    let views = map (view py) events in
    if execution_only
    then execution_only_names tools views
    else recovery_names tools knowledge_first views
