-- ===== src/Verl/Asking.antt =====
-- `AskUserTool` of verl_tools.py: the answers of a simulated user to the questions of the agent.
pub mod Published
pub mod Budget
use drift_sql.Prelude.{
  ℕ, String, ◌<>◌, Bool, true, false, not, ◌&&◌, ◌||◌, List, [], ◌∷◌, ◌++◌, map, ◌==◌, ltb, eqb,
  if◌then◌else◌, keep,
}
use drift_sql.Result.{◌>>=◌, map_result, or_raise, key_error, Result, ok, raised}
use drift_sql.Python.{Python, str_of, int_of, casefold}
use drift_sql.Python.Values.{
  ℤ, Json, Fields, get, get_or, put, of_list, pos, null, bool, int, text, arr, obj, nil, end, field,
}
use drift_sql.Python.Text.{strip}
use drift_sql.Service.Toolbox.{Dict, set}
use drift_sql.Verl.Terms.{terms, overlap, is_inside, is_blank}
use drift_sql.Verl.Instances.{
  Answer, no_reward, state_of, create_instance, update_instance, set_default, at_least,
  next_integer, dict_or_none, copied, items_or_none,
}

-- A candidate with its place in `ranked`.
pub record Ranked : Type 0 where
  pub phrase : Bool
  pub common : ℕ
  pub priority : ℕ
  pub item : Fields

-- `a` is sorted before `b`: the key is greater.
unfoldable pub is_before : Ranked → Ranked → Bool
is_before a b =
    if a.phrase && not b.phrase
    then true
    else if b.phrase && not a.phrase
    then false
    else if eqb a.common b.common
    then ltb a.priority b.priority
    else ltb b.common a.common

-- `ranked.sort(..., reverse=True); ranked[0]`: the first of the greatest.
unfoldable pub best : Ranked → List Ranked → Ranked
unfolding is_before
best a [] = a
best a (b ∷ bs) = best (if is_before b a then b else a) bs

-- `term in state["_asked_terms"]`
unfoldable pub was_asked : String → List Json → Bool
was_asked term [] = false
was_asked term (text s ∷ vs) = s == term || was_asked term vs
was_asked term (_ ∷ vs) = was_asked term vs

module _ (py : Python) where
  -- `create`
  unfoldable pub create_asking : String → Fields → Dict Fields → Result (Dict Fields)
  unfolding create_instance update_instance set_default
  create_asking id kwargs d = do
    made ← create_instance (λ k. k) id kwargs d
    ok (
        update_instance id
          (λ s.
            set_default "_question_count" (int (pos 0)) (set_default "_asked_terms" (arr nil) s))
          made)

  abbrev pub term_of : Fields → String
  term_of item = strip (str_of py (get_or "term" (text "") item))

  -- The candidates under one key, each with its priority.
  unfoldable pub candidates_under : ℕ → String → Fields → Result (List (ℕ × Fields))
  unfolding items_or_none copied
  candidates_under priority key ambiguity = do
    items ← items_or_none (get_or key (arr nil) ambiguity)
    dicts ← map_result copied items
    ok (map (λ d. (priority, d)) dicts)

  unfoldable pub all_candidates : Fields → Result (List (ℕ × Fields))
  unfolding candidates_under
  all_candidates ambiguity = do
    critical ← candidates_under 0 "critical_ambiguity" ambiguity
    others ← candidates_under 1 "non_critical_ambiguity" ambiguity
    ok (critical ++ others)

  unfoldable pub rank : String → ℕ × Fields → Ranked
  unfolding terms overlap is_inside
  rank question (priority, item) =
      let term = term_of item in
      record {
        phrase = not (is_blank term) && is_inside (casefold py term) (casefold py question);
        common = overlap (terms py question) (terms py term);
        priority = priority;
        item = item;
      }

  unfoldable pub is_relevant : Ranked → Bool
  is_relevant r = ltb 0 r.common || r.phrase

  abbrev pub answer_text : String → String → String
  answer_text term definition =
      "For '" <> (term <> ("', the intended business definition is: " <> definition))

  abbrev pub reminder_text : String → String
  reminder_text term = "I already clarified '" <> (term <> "'. Please use that definition.")

  -- The answer to the best candidate, with the terms asked before.
  unfoldable pub answer_best : List Json → Ranked → Answer
  unfolding was_asked
  answer_best asked r =
      let term = term_of r.item in
      let definition = strip (str_of py (get_or "sql_snippet" (text "") r.item)) in
      if was_asked term asked
      then (
        reminder_text term,
        no_reward,
        field "clarification_matched" (bool true)
            (field "duplicate_question" (bool true) (field "term" (text term) end)),
      )
      else (
        answer_text term definition,
        no_reward,
        field "clarification_matched" (bool true) (
            field "duplicate_question" (bool false)
              (field "term" (text term) (field "ambiguity_type" (get_or "type" null r.item) end))),
      )

  -- The term is added to those asked, if it is new.
  unfoldable pub asked_after : List Json → Ranked → List Json
  unfolding was_asked
  asked_after asked r =
      if was_asked (term_of r.item) asked then asked else asked ++ text (term_of r.item) ∷ []

  abbrev pub unanswerable : Answer
  unanswerable = (
    "I cannot answer that from the stated business requirements. Please ask about one ambiguous term in the request.",
    no_reward,
    field "clarification_matched" (bool false) (field "unanswerable_question" (bool true) end),
  )

  abbrev pub exhausted : Answer
  exhausted = (
    "The user has no remaining clarification turns.",
    no_reward,
    field "clarification_matched" (bool false) (field "question_budget_exhausted" (bool true) end),
  )

  abbrev pub invalid : Answer
  invalid = (
    "Please ask one concrete clarification question.",
    no_reward,
    field "clarification_matched" (bool false) (field "invalid_question" (bool true) end),
  )

  -- The answer and the state after it, from the ranked candidates.
  unfoldable pub answer_ranked : Fields → List Ranked → Result (Fields × Answer)
  unfolding answer_best asked_after best items_or_none
  answer_ranked s [] = ok (s, unanswerable)
  answer_ranked s (r ∷ rs) = do
    v ← or_raise (key_error "_asked_terms") (get "_asked_terms" s)
    asked ← items_or_none v
    let chosen = best r rs
    ok (put "_asked_terms" (arr (of_list (asked_after asked chosen))) s, answer_best asked chosen)

  unfoldable pub answer_question : String → Fields → Result (Fields × Answer)
  unfolding answer_ranked all_candidates rank is_relevant dict_or_none
  answer_question question s = do
    ambiguity ← dict_or_none (get_or "user_query_ambiguity" (obj end) s)
    candidates ← all_candidates ambiguity
    answer_ranked s (keep is_relevant (map (rank question) candidates))

  -- An answer keeps the counted question, also when it raises.
  abbrev pub settle : Fields → Result (Fields × Answer) → Fields × Result Answer
  settle s (raised e) = (s, raised e)
  settle s (ok (s', a)) = (s', ok a)

  -- The question is counted, then answered.
  unfoldable pub counted : String → Fields → Result (ℤ × ℤ) → Fields × Result Answer
  unfolding answer_question at_least next_integer
  counted question s (raised e) = (s, raised e)
  counted question s (ok (maximum, count)) =
      let s' = put "_question_count" (int (next_integer count)) s in
      if at_least count maximum then (s, ok exhausted) else settle s' (answer_question question s')

  -- `max_questions` of the configuration, and the questions counted so far.
  unfoldable pub question_limits : Fields → Fields → Result (ℤ × ℤ)
  question_limits config s = do
    maximum ← int_of py (get_or "max_questions" (int (pos 3)) config)
    v ← or_raise (key_error "_question_count") (get "_question_count" s)
    count ← int_of py v
    ok (maximum, count)

  unfoldable pub ask : Fields → String → Fields → Fields × Result Answer
  unfolding counted question_limits
  ask config question s =
      if is_blank question then (s, ok invalid) else counted question s (question_limits config s)

  -- `execute`
  unfoldable pub execute_asking :
      Fields → String → Fields → Dict Fields → Dict Fields × Result Answer
  unfolding ask state_of
  execute_asking config id parameters d =
      let question = strip (str_of py (get_or "question" (text "") parameters)) in
      elim (state_of id d) as (λ r. Dict Fields × Result Answer) [
        | raised e ↦ (d, raised e)
        | ok s ↦ let (s', a) = ask config question s in (set id s' d, a)
      ]
