-- ===== src/Policy/Select/OneShot.antt =====
-- `select_dynamic_tool_names` of state_policy.py: the one-shot tools, and the submission of a free
-- query.
use drift_sql.Prelude.{
  last-keep, LastWith, String, ◌≡◌, refl, sym, ◌∙◌, ◌≢◌, inl, inr, Bool, true, false, ◌&&◌, List,
  [], ◌∷◌, map, arith, eq_iff, if◌then◌else◌, Bool-cases, Option-cases, keep, last, Any, contains,
  minus, single, contains-minus,
}
use drift_sql.Result.{>>=-eq-ok, ok_injective, ok}
use drift_sql.Python.{Python}
use drift_sql.Python.Values.{get_or, is_true, null}
use drift_sql.Policy.Event.{one_shot_tools, Event, event_name, event_was_masked}
use drift_sql.Policy.Recovery.{
  Completed, is_valid, is_named, required_contract_recovery_action, has_validated_execution,
}
use drift_sql.Policy.Select.Laws.{clarified-Subset}
use drift_sql.Policy.Select.{
  submit, View, view, completed_from, unmasked, unmasked_names, called_one_shot,
  execution_only_choice, execution_only_names, recovery_choice, recovery_names,
  select_dynamic_tool_names,
}

abbrev Called : String → View → Type 0
Called name v = (v.name ≡ name) × (v.masked ≡ ok false)

-- The trajectory has an unmasked event of the tool.
abbrev pub WasCalled : Python → String → List Event → Type 0
WasCalled py name events =
    Any (λ e. (event_name py e ≡ name) × (event_was_masked py e ≡ ok false)) events

views-Called :
    (py : Python) (name : String) (events : List Event)
    → WasCalled py name events
    → Any (Called name) (map (view py) events)
unfolding view
views-Called py name (e ∷ es) (inl h) = inl h
views-Called py name (e ∷ es) (inr h) = inr (views-Called py name es h)
views-Called py name [] h = absurd h

-- What a passing event adds to the names.
unmasked_names-cons :
    (p : String → Bool) (v : View) (vs : List View) {names : List String}
    → p v.name ≡ true
    → unmasked_names p (v ∷ vs) ≡ ok names
    → (m : Bool) × (rest : List String) × (v.masked ≡ ok m)
      × (unmasked_names p vs ≡ ok rest)
      × ((if m then rest else v.name ∷ rest) ≡ names)
unfolding unmasked_names
unmasked_names-cons p v vs y h =
    let (m, f, h') = >>=-eq-ok v.masked _ (rw y at h) in
    let (rest, r, h'') = >>=-eq-ok (unmasked_names p vs) _ h' in (m, rest, f, r, ok_injective h'')

contains-head : (v name : String) (rest : List String) → v ≡ name → contains (v ∷ rest) name ≡ true
unfolding contains
contains-head v name rest e = ground (arith, eq_iff v name)

contains-tail :
    (v name : String) (rest : List String)
    → contains rest name ≡ true
    → contains (v ∷ rest) name ≡ true
unfolding contains
contains-tail v name rest e = ground arith

unmasked_names-Called :
    (p : String → Bool) (name : String) (views : List View) {names : List String}
    → p name ≡ true
    → Any (Called name) views
    → unmasked_names p views ≡ ok names
    → contains names name ≡ true
unmasked_names-Called p name (v ∷ vs) {names} y (inl (e, f)) h =
    let (m, rest, f', _, n) = unmasked_names-cons p v vs (rw e y) h in
    let head = contains-head v.name name rest e in ground arith
unmasked_names-Called p name (v ∷ vs) {names} y (inr c) h = elim (Bool-cases (p v.name)) [
  | inl z ↦
      let (m, rest, _, r, n) = unmasked_names-cons p v vs z h in
      let old = unmasked_names-Called p name vs y c r in
      let new = contains-tail v.name name rest old in ground arith
  | inr z ↦
      unmasked_names-Called p name vs y c (unfold unmasked_names in rw (z, unmasked_names) at h)
]
unmasked_names-Called p name [] y c h = absurd c

not-contains-minus :
    (xs ys : List String) (a : String) → contains ys a ≡ true → contains (minus xs ys) a ≡ false
not-contains-minus xs ys a h = ground (arith, contains-minus xs ys a)

contains-single : (x a : String) → contains (single x) a ≡ true → x ≡ a
unfolding contains
contains-single x a h = ground (arith, eq_iff x a)

submit_not_one_shot : contains one_shot_tools submit ≡ false
unfolding contains
submit_not_one_shot = refl

submit-ne-one-shot : (name : String) → contains one_shot_tools name ≡ true → submit ≢ name
submit-ne-one-shot name one e = let h = rw (← e) at one in let f = submit_not_one_shot in cc

-- What is left after the first two rules are passed over.
choice-repeats :
    (tools : List String) (k : Bool) (views : List View) (called : List String) (name : String)
    {allowed : List String}
    → contains one_shot_tools name ≡ true
    → contains called name ≡ true
    → recovery_choice tools k views (minus tools called) ≡ ok allowed
    → contains allowed name ≡ true
    → required_contract_recovery_action (completed_from 0 views) ≡ name
unfolding recovery_choice
choice-repeats tools k views called name {allowed} one c h a =
    let completed = completed_from 0 views in
    let available = minus tools called in
    let required = required_contract_recovery_action completed in
    let gone = not-contains-minus tools called name c in
    elim (Bool-cases (contains tools required)) [
      | inl y ↦ let e = ok_injective (rw y at h) in contains-single required name (rw e a)
      | inr n ↦ elim (Bool-cases (has_validated_execution completed && contains available submit)) [
        | inl y ↦
            let e = ok_injective (rw (n, y) at h) in
            absurd (submit-ne-one-shot name one (contains-single submit name (rw e a)))
        | inr m ↦ let inside = clarified-Subset k views available (rw (n, m) at h) name a in cc
      ]
    ]

-- In recovery mode a question or retrieval that was answered is offered again only as the action
-- that the contract recovery requires.
recovery_repeats :
    (tools : List String) (k : Bool) (views : List View) (name : String) {allowed : List String}
    → contains one_shot_tools name ≡ true
    → Any (Called name) views
    → recovery_names tools k views ≡ ok allowed
    → contains allowed name ≡ true
    → required_contract_recovery_action (completed_from 0 views) ≡ name
unfolding recovery_names called_one_shot
recovery_repeats tools k views name one c h a =
    let (called, e, h') = >>=-eq-ok (called_one_shot views) _ h in
    choice-repeats tools k views called name one
      (unmasked_names-Called (contains one_shot_tools) name views one c e) h' a

-- Outside free queries, a retrieval or question that an unmasked event already made is offered
-- again only when it is the mandatory recovery action.
pub repeats_only_required :
    (py : Python) (events : List Event) (tools : List String) (k : Bool) (name : String)
    {allowed : List String}
    → contains one_shot_tools name ≡ true
    → WasCalled py name events
    → select_dynamic_tool_names py events tools k false ≡ ok allowed
    → contains allowed name ≡ true
    → required_contract_recovery_action (completed_from 0 (map (view py) events)) ≡ name
unfolding select_dynamic_tool_names
repeats_only_required py events tools k name one c h a =
    recovery_repeats tools k (map (view py) events) name one (views-Called py name events c) h a

get_schema-ne-submit : contains (single "get_schema") submit ≡ false
unfolding contains
get_schema-ne-submit = refl

single-minus : (xs : List String) (a : String) → contains (minus xs (single a)) a ≡ false
unfolding contains
single-minus xs a = not-contains-minus xs (single a) a (contains-head a a [] refl)

nil_lacks : (a : String) → contains [] a ≡ false
unfolding contains
nil_lacks a = refl

validated_lem :
    (completed : List Completed)
    → has_validated_execution completed ≡ true
    → (e : Completed) × LastWith (λ c. is_named "execute_sql" c && is_valid c) completed e
      × (is_true (get_or "validated_for_submit" null e.observation) ≡ true)
unfolding has_validated_execution
validated_lem completed h =
    elim (Option-cases (last (keep (λ c. is_named "execute_sql" c && is_valid c) completed))) [
      | inl e ↦ let h' = rw e at h in cc
      | inr (c, e) ↦ (c, last-keep _ completed c e, rw e at h)
    ]

choice_submits :
    (tools : List String) (completed : List View)
    → contains (execution_only_choice tools completed) submit ≡ true
    → (execution_only_choice tools completed ≡ single submit)
      × (has_validated_execution (completed_from 0 completed) ≡ true)
unfolding execution_only_choice
choice_submits tools completed =
    let called = keep (contains one_shot_tools) (map (λ v. v.name) completed) in
    ground (arith, get_schema-ne-submit, single-minus (minus tools called) submit, nil_lacks submit)

-- In a free query, `submit_solution` is offered only alone, and only when the newest unmasked
-- execution of the trajectory was validated.
pub submit_only_validated :
    (py : Python) (events : List Event) (tools : List String) (k : Bool) {allowed : List String}
    → select_dynamic_tool_names py events tools k true ≡ ok allowed
    → contains allowed submit ≡ true
    → (completed : List View) × (unmasked (map (view py) events) ≡ ok completed)
      × (allowed ≡ single submit)
      × (e : Completed) × LastWith
          (λ c. is_named "execute_sql" c && is_valid c)
          (completed_from 0 completed)
          e
      × (is_true (get_or "validated_for_submit" null e.observation) ≡ true)
unfolding select_dynamic_tool_names execution_only_names
submit_only_validated py events tools k h a =
    let (completed, u, e) = >>=-eq-ok (unmasked (map (view py) events)) _ h in
    let chosen = ok_injective e in
    let (alone, validated) = choice_submits tools completed (rw chosen a) in
    let (newest, stands, flagged) = validated_lem (completed_from 0 completed) validated in
    (completed, u, sym chosen ∙ alone, newest, stands, flagged)
