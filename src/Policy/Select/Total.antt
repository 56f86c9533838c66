-- ===== src/Policy/Select/Total.antt =====
-- What `select_dynamic_tool_names` of state_policy.py raises.
use drift_sql.Prelude.{
  ℕ, ◌+◌, String, ◌≡◌, refl, inl, inr, Bool, true, false, ◌&&◌, Option, none, some, List, [], ◌∷◌,
  map, arith, ◌==◌, if◌then◌else◌, Bool-cases, All, contains, minus, single,
}
use drift_sql.Result.{Result, ok}
use drift_sql.Python.{Python}
use drift_sql.Policy.Event.{one_shot_tools, post_clarification_set, Event, event_was_masked}
use drift_sql.Policy.Select.{
  has_validated_execution, required_contract_recovery_action, submit, View, view, completed_from,
  unmasked, unmasked_names, last_ask_from, is_after, followed_up_from, restrict_after_ask,
  execution_only_choice, execution_only_names, clarified_names, recovery_choice, recovery_names,
  select_dynamic_tool_names,
}

abbrev pub Answers {ℓ} : {A : Type ℓ} → Result A → Type ℓ
Answers {A} m = (a : A) × (m ≡ ok a)

abbrev pub Readable : View → Type 0
Readable v = Answers v.masked

abbrev pub IsReadable : Python → List Event → Type 0
IsReadable py events = All (λ e. Answers (event_was_masked py e)) events

unmasked-Answers : (views : List View) → All Readable views → Answers (unmasked views)
unfolding unmasked
unmasked-Answers [] h = ([], refl)
unmasked-Answers (v ∷ vs) ((m, e), t) =
    let (rest, r) = unmasked-Answers vs t in (if m then rest else v ∷ rest, rw (e, r))

pub unmasked_names-Answers :
    (p : String → Bool) (views : List View) → All Readable views → Answers (unmasked_names p views)
unfolding unmasked_names
unmasked_names-Answers p [] h = ([], refl)
unmasked_names-Answers p (v ∷ vs) ((m, e), t) =
    let (names, r) = unmasked_names-Answers p vs t in
    elim (Bool-cases (p v.name)) [
      | inl y ↦ (if m then names else v.name ∷ names, rw (y, e, r))
      | inr n ↦ (names, rw (n, r))
    ]

last_ask-Answers :
    (i : ℕ) (found : Option ℕ) (views : List View)
    → All Readable views
    → Answers (last_ask_from i found views)
unfolding last_ask_from
last_ask-Answers i found [] h = (found, refl)
last_ask-Answers i found (v ∷ vs) ((m, e), t) = elim (Bool-cases (v.name == "ask_user")) [
  | inl y ↦
      let (ask, r) = last_ask-Answers (i + 1) (if m then found else some i) vs t in
      (ask, rw (y, e, r))
  | inr n ↦ let (ask, r) = last_ask-Answers (i + 1) found vs t in (ask, rw (n, r))
]

followed_up-Answers :
    (i : ℕ) (ask : Option ℕ) (views : List View)
    → All Readable views
    → Answers (followed_up_from i ask views)
unfolding followed_up_from
followed_up-Answers i ask [] h = (false, refl)
followed_up-Answers i ask (v ∷ vs) ((m, e), t) =
    let (rest, r) = followed_up-Answers (i + 1) ask vs t in
    elim (Bool-cases (is_after ask i && contains post_clarification_set v.name)) [
      | inl y ↦ (if m then rest else true, rw (y, e, r) (ground arith))
      | inr n ↦ (rest, rw (n, r))
    ]

clarified-Answers :
    (k : Bool) (views : List View) (available : List String)
    → All Readable views
    → Answers (clarified_names k views available)
unfolding clarified_names
clarified-Answers k views available h =
    let (ask, e) = last_ask-Answers 0 none views h in
    let (followed, e') = followed_up-Answers 0 ask views h in
    (restrict_after_ask ask followed k available, rw (e, e'))

recovery_choice-Answers :
    (tools : List String) (k : Bool) (views : List View) (available : List String)
    → All Readable views
    → Answers (recovery_choice tools k views available)
unfolding recovery_choice
recovery_choice-Answers tools k views available h =
    let completed = completed_from 0 views in
    let required = required_contract_recovery_action completed in
    elim (Bool-cases (contains tools required)) [
      | inl y ↦ (single required, rw y)
      | inr n ↦ elim (Bool-cases (has_validated_execution completed && contains available submit)) [
        | inl y ↦ (single submit, rw (n, y))
        | inr m ↦
            let (allowed, e) = clarified-Answers k views available h in (allowed, rw (n, m, e))
      ]
    ]

select_views-Answers :
    (tools : List String) (k execution_only : Bool) (views : List View)
    → All Readable views
    → Answers
        (if execution_only then execution_only_names tools views else recovery_names tools k views)
unfolding execution_only_names recovery_names
select_views-Answers tools k true views h =
    let (completed, e) = unmasked-Answers views h in (execution_only_choice tools completed, rw e)
select_views-Answers tools k false views h =
    let (called, e) = unmasked_names-Answers (contains one_shot_tools) views h in
    let (allowed, e') = recovery_choice-Answers tools k views (minus tools called) h in
    (allowed, rw (e, e'))

pub views-Readable :
    (py : Python) (events : List Event) → IsReadable py events → All Readable (map (view py) events)
unfolding view
views-Readable py [] h = tt
views-Readable py (e ∷ es) (h, t) = (h, views-Readable py es t)

-- If the mask of every event can be read, the selection raises nothing, in both modes.
pub select-Answers :
    (py : Python) (events : List Event) (tools : List String)
    (knowledge_first execution_only : Bool)
    → IsReadable py events
    → Answers (select_dynamic_tool_names py events tools knowledge_first execution_only)
unfolding select_dynamic_tool_names
select-Answers py events tools k x h =
    select_views-Answers tools k x (map (view py) events) (views-Readable py events h)
