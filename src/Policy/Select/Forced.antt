-- ===== src/Policy/Select/Forced.antt =====
-- `select_dynamic_tool_names` of state_policy.py, behind the first execution that mismatches.
use mathlib.Core.List.{reverse-append, map-append}
use drift_sql.Prelude.{
  any-eq-false, keep-append_true, ℕ, suc, ◌+◌, ◌≤◌, ◌<◌, String, ◌≡◌, refl, ◌≢◌, Bool, true, false,
  ◌||◌, List, [], ◌∷◌, ◌++◌, map, reverse, arith, eq_iff, length, keep, any, All, All-map,
  All-append, All-keep, contains, single,
}
use drift_sql.Result.{ok}
use drift_sql.Python.{Python}
use drift_sql.Python.Values.{flag}
use drift_sql.Policy.Event.{one_shot_tools, Event, event_name, event_observation}
use drift_sql.Policy.Recovery.{
  Completed, is_valid, is_named, is_field_false, is_trigger, positions, is_version_before,
  is_version_after, is_diff_between, already_recovered, after_mismatch, recovery_scan,
  required_contract_recovery_action,
}
use drift_sql.Policy.Select.{
  View, view, completed_from, unmasked, called_one_shot, recovery_choice, recovery_names,
  select_dynamic_tool_names,
}
use drift_sql.Policy.Select.Total.{views-Readable, unmasked_names-Answers, IsReadable}

positions-append_trigger :
    (xs : List Completed) (c : Completed)
    → is_trigger c ≡ true
    → reverse (positions is_trigger (xs ++ c ∷ [])) ≡ c.index ∷ reverse (positions is_trigger xs)
unfolding positions
positions-append_trigger xs c h =
    rw (keep-append_true is_trigger xs c h, map-append, reverse-append)

no_version_after :
    (xs : List Completed) (m : ℕ)
    → All (λ b. b.index ≤ m) xs
    → positions (is_version_after m) xs ≡ []
unfolding positions keep
no_version_after [] m h = refl
no_version_after (x ∷ xs) m (h, t) = ground (arith, no_version_after xs m t)

-- If the newest event is a failed or mismatching execution, and no version check with a diff
-- behind it came before, the version check is mandatory.
required-eq-version :
    (completed : List Completed) (c : Completed)
    → is_valid c ≡ true
    → is_trigger c ≡ true
    → All (λ b. b.index < c.index) completed
    → already_recovered (keep is_valid (completed ++ c ∷ [])) c.index ≡ false
    → required_contract_recovery_action (completed ++ c ∷ []) ≡ "get_schema_version"
unfolding required_contract_recovery_action recovery_scan
required-eq-version completed c v t behind first = rw (keep-append_true is_valid completed c v) (
    rw (positions-append_trigger (keep is_valid completed) c t) (
      rw (rw (keep-append_true is_valid completed c v) at first) (
        rw (no_version_after (keep is_valid completed ++ c ∷ []) c.index at_most)
          (unfold after_mismatch in refl))))
  where
    at_most : All (λ b. b.index ≤ c.index) (keep is_valid completed ++ c ∷ [])
    at_most =
        All-append _ (keep is_valid completed) (c ∷ [])
          (All-keep _ is_valid completed (All-map completed (λ b h. omega arith) behind))
          (omega arith)

no_recovery_without_diff :
    (valid : List Completed) (m : ℕ)
    → All (λ c. is_named "inspect_schema_diff" c ≡ false) valid
    → already_recovered valid m ≡ false
unfolding already_recovered
no_recovery_without_diff valid m h =
    any-eq-false _ _ (every (positions (is_version_before m) valid))
  where
    none_between : (v : ℕ) → any (is_diff_between v m) valid ≡ false
    none_between v = any-eq-false _ valid (All-map valid (λ c e. ground arith) h)

    every : (vs : List ℕ) → All (λ v. any (is_diff_between v m) valid ≡ false) vs
    every [] = tt
    every (v ∷ vs) = (none_between v, every vs)

abbrev completed_at : ℕ → View → Completed
completed_at i v = record { index = i; name = v.name; observation = v.observation }

completed_from-append :
    (i : ℕ) (vs : List View) (v : View)
    → completed_from i (vs ++ v ∷ []) ≡ completed_from i vs ++ completed_at (i + length vs) v ∷ []
unfolding completed_from
completed_from-append i [] v = ground arith
completed_from-append i (w ∷ ws) v =
    rw (completed_from-append (i + 1) ws v)
      (let e : i + 1 + length ws ≡ i + suc (length ws) = omega arith in rw e)

completed_from-lt :
    (i : ℕ) (vs : List View) → All (λ c. c.index < i + length vs) (completed_from i vs)
unfolding completed_from
completed_from-lt i [] = tt
completed_from-lt i (v ∷ vs) =
    (omega arith, All-map _ (λ c h. omega arith) (completed_from-lt (i + 1) vs))

-- The newest event is a failed or mismatching execution, and no diff was inspected before it.
abbrev pub FirstMismatch : Python → List Event → Event → Type 0
FirstMismatch py events e =
    (event_name py e ≡ "execute_sql")
    × (flag "action_masked" (event_observation py e) ≡ false)
    × ((is_field_false "success" (event_observation py e)
          || is_field_false "result_contract_match" (event_observation py e))
        ≡ true)
    × All (λ b. event_name py b ≢ "inspect_schema_diff") events

no_diff_from :
    (py : Python) (i : ℕ) (events : List Event)
    → All (λ b. event_name py b ≢ "inspect_schema_diff") events
    → All (λ c. is_named "inspect_schema_diff" c ≡ false) (completed_from i (map (view py) events))
unfolding completed_from view is_named
no_diff_from py i [] h = tt
no_diff_from py i (e ∷ es) (h, t) =
    (ground (arith, eq_iff (event_name py e) "inspect_schema_diff"), no_diff_from py (i + 1) es t)

execute_is_not_diff :
    (c : Completed) → c.name ≡ "execute_sql" → is_named "inspect_schema_diff" c ≡ false
unfolding is_named
execute_is_not_diff c e = rw e

required_after_mismatch :
    (py : Python) (events : List Event) (e : Event)
    → FirstMismatch py events e
    → required_contract_recovery_action (completed_from 0 (map (view py) (events ++ e ∷ [])))
      ≡ "get_schema_version"
required_after_mismatch py events e (execution, unmasked, failed, no_diff) =
    rw (map-append, completed_from-append)
      (required-eq-version before newest valid trigger (completed_from-lt 0 views) (
        no_recovery_without_diff _ newest.index (
          All-keep _ is_valid (before ++ newest ∷ []) (
            All-append _ before (newest ∷ []) (no_diff_from py 0 events no_diff)
              (execute_is_not_diff newest named, tt)))))
  where
    views : List View
    views = map (view py) events

    before : List Completed
    before = completed_from 0 views

    newest : Completed
    newest = completed_at (0 + length views) (view py e)

    named : newest.name ≡ "execute_sql"
    named = unfold view in execution

    valid : is_valid newest ≡ true
    valid = unfold view is_valid in rw unmasked

    trigger : is_trigger newest ≡ true
    trigger = unfold view is_trigger in ground (arith, eq_iff (event_name py e) "execute_sql")

-- When every event's mask can be read, the newest event is an unmasked execution that failed or
-- broke its result contract, no diff was inspected before, and the version check is configured,
-- then outside free queries the version check is the only tool that is offered.
pub mismatch_forces_version :
    (py : Python) (events : List Event) (e : Event) (tools : List String) (k : Bool)
    → IsReadable py (events ++ e ∷ [])
    → FirstMismatch py events e
    → contains tools "get_schema_version" ≡ true
    → select_dynamic_tool_names py (events ++ e ∷ []) tools k false
      ≡ ok (single "get_schema_version")
unfolding select_dynamic_tool_names recovery_names recovery_choice called_one_shot
mismatch_forces_version py events e tools k readable mismatch offered =
    let views = map (view py) (events ++ e ∷ []) in
    let (called, c) =
      unmasked_names-Answers (contains one_shot_tools) views (views-Readable py _ readable) in
    rw (c, required_after_mismatch py events e mismatch, offered)
