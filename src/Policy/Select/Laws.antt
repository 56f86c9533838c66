-- ===== src/Policy/Select/Laws.antt =====
-- The set of tools that `select_dynamic_tool_names` of state_policy.py offers, in both modes.
use drift_sql.Prelude.{
  ℕ, String, ◌≡◌, inl, inr, Bool, true, false, ◌&&◌, Option, none, some, List, [], map, arith,
  Bool-cases, and_right, keep, contains, minus, single, contains-keep, Subset, Subset-minus,
  Subset-single,
}
use drift_sql.Result.{>>=-eq-ok, ok_injective, ok}
use drift_sql.Python.{Python}
use drift_sql.Policy.Event.{one_shot_tools, Event}
use drift_sql.Policy.Recovery.{required_contract_recovery_action, has_validated_execution}
use drift_sql.Policy.Select.{
  submit, execution_only_choice, View, view, completed_from, unmasked, called_one_shot,
  last_ask_from, followed_up_from, restrict_after_ask, execution_only_names, clarified_names,
  recovery_choice, recovery_names, select_dynamic_tool_names,
}

Subset-keep : (p : String → Bool) (xs : List String) → Subset (keep p xs) xs
Subset-keep p xs a h = ground (arith, contains-keep p xs a)

Subset-trans : (xs ys zs : List String) → Subset xs ys → Subset ys zs → Subset xs zs
Subset-trans xs ys zs f g a h = g a (f a h)

Subset-nil : (ys : List String) → Subset [] ys
unfolding contains
Subset-nil ys a h = cc

choice-Subset :
    (tools : List String) (completed : List View)
    → Subset (execution_only_choice tools completed) tools
unfolding execution_only_choice
choice-Subset tools completed a m =
    let called = keep (contains one_shot_tools) (map (λ v. v.name) completed) in
    let available = minus tools called in
    ground (
      arith,
      Subset-minus tools called a,
      Subset-minus available (single submit) a,
      Subset-single "get_schema" tools _ a,
      Subset-single submit available _ a,
      Subset-nil tools a,
    )

execution_only-Subset :
    (tools : List String) (views : List View) {allowed : List String}
    → execution_only_names tools views ≡ ok allowed
    → Subset allowed tools
unfolding execution_only_names
execution_only-Subset tools views {allowed} h =
    let (completed, _, e) = >>=-eq-ok (unmasked views) _ h in
    rw (← ok_injective e) (choice-Subset tools completed)

restrict-Subset :
    (ask : Option ℕ) (followed knowledge_first : Bool) (available : List String)
    → Subset (restrict_after_ask ask followed knowledge_first available) available
unfolding restrict_after_ask
restrict-Subset (some i) false k available = Subset-keep _ available
restrict-Subset (some i) true k available = λ a h. h
restrict-Subset none followed k available = λ a h. h

pub clarified-Subset :
    (knowledge_first : Bool) (views : List View) (available : List String) {allowed : List String}
    → clarified_names knowledge_first views available ≡ ok allowed
    → Subset allowed available
unfolding clarified_names
clarified-Subset k views available h =
    let (ask, _, h') = >>=-eq-ok (last_ask_from 0 none views) _ h in
    let (followed, _, e) = >>=-eq-ok (followed_up_from 0 ask views) _ h' in
    rw (← ok_injective e) (restrict-Subset ask followed k available)

recovery_choice-Subset :
    (tools : List String) (k : Bool) (views : List View) (available : List String)
    {allowed : List String}
    → Subset available tools
    → recovery_choice tools k views available ≡ ok allowed
    → Subset allowed tools
unfolding recovery_choice
recovery_choice-Subset tools k views available {allowed} inside h =
    let completed = completed_from 0 views in
    let required = required_contract_recovery_action completed in
    elim (Bool-cases (contains tools required)) [
      | inl e ↦ let h' = rw e at h in rw (← ok_injective h') (Subset-single required tools e)
      | inr n ↦ elim (Bool-cases (has_validated_execution completed && contains available submit)) [
        | inl e ↦
            let h' = rw (n, e) at h in
            rw (← ok_injective h') (
              Subset-trans (single submit) available tools
                (Subset-single submit available (and_right _ _ e)) inside)
        | inr m ↦
            Subset-trans allowed available tools
              (clarified-Subset k views available (rw (n, m) at h)) inside
      ]
    ]

recovery-Subset :
    (tools : List String) (k : Bool) (views : List View) {allowed : List String}
    → recovery_names tools k views ≡ ok allowed
    → Subset allowed tools
unfolding recovery_names
recovery-Subset tools k views h =
    let (called, _, h') = >>=-eq-ok (called_one_shot views) _ h in
    recovery_choice-Subset tools k views (minus tools called) (Subset-minus tools called) h'

-- In both modes only configured tools are offered.
pub select-Subset :
    (py : Python) (events : List Event) (tools : List String)
    (knowledge_first execution_only : Bool) {allowed : List String}
    → select_dynamic_tool_names py events tools knowledge_first execution_only ≡ ok allowed
    → Subset allowed tools
unfolding select_dynamic_tool_names
select-Subset py events tools k true h = execution_only-Subset tools (map (view py) events) h
select-Subset py events tools k false h = recovery-Subset tools k (map (view py) events) h
