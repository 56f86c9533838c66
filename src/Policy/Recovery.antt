-- ===== src/Policy/Recovery.antt =====
-- The mandatory action after a result-contract mismatch, and the newest validated execution:
-- `_required_contract_recovery_action` and `_has_validated_execution` of state_policy.py.
pub mod Settled
pub mod Discharge
use drift_sql.Prelude.{
  ℕ, min, String, Bool, false, not, ◌&&◌, ◌||◌, Option, none, some, List, [], ◌∷◌, map, reverse,
  ◌==◌, ltb, if◌then◌else◌, keep, any, last,
}
use drift_sql.Python.Values.{Fields, get_or, flag, is_false, is_true, null}

-- A completed event: its position, its tool's name and its observation.
pub record Completed : Type 0 where
  pub index : ℕ
  pub name : String
  pub observation : Fields

unfoldable pub is_valid : Completed → Bool
is_valid c = not (flag "action_masked" c.observation)

unfoldable pub is_named : String → Completed → Bool
is_named name c = c.name == name

unfoldable pub is_field_false : String → Fields → Bool
is_field_false key d = is_false (get_or key null d)

unfoldable pub is_trigger : Completed → Bool
unfolding is_named is_field_false
is_trigger c =
    is_named "execute_sql" c
    && (is_field_false "success" c.observation
        || is_field_false "result_contract_match" c.observation)

abbrev index_of : Completed → ℕ
index_of c = c.index

-- The positions of the events that pass a test.
unfoldable pub positions : (Completed → Bool) → List Completed → List ℕ
positions p valid = map (λ c. c.index) (keep p valid)

abbrev pub is_version_before : ℕ → Completed → Bool
is_version_before m c = is_named "get_schema_version" c && ltb c.index m

abbrev pub is_version_after : ℕ → Completed → Bool
is_version_after m c = is_named "get_schema_version" c && ltb m c.index

abbrev pub is_diff_between : ℕ → ℕ → Completed → Bool
is_diff_between v m c = is_named "inspect_schema_diff" c && (ltb v c.index && ltb c.index m)

abbrev pub is_diff_after : ℕ → Completed → Bool
is_diff_after v c = ltb v c.index && is_named "inspect_schema_diff" c

unfoldable pub already_recovered : List Completed → ℕ → Bool
unfolding positions
already_recovered valid m =
    any (λ v. any (is_diff_between v m) valid) (positions (is_version_before m) valid)

-- `min` of a list that is not empty
unfoldable pub minimum : ℕ → List ℕ → ℕ
minimum a [] = a
minimum a (b ∷ bs) = minimum (min a b) bs

-- What the first mismatch that is not yet recovered asks for; `rest` is what the others ask for.
unfoldable pub after_mismatch : List Completed → List ℕ → String → String
unfolding minimum
after_mismatch valid [] rest = "get_schema_version"
after_mismatch valid (v ∷ vs) rest =
    if any (is_diff_after (minimum v vs)) valid then rest else "inspect_schema_diff"

unfoldable pub recovery_scan : List Completed → List ℕ → String
unfolding already_recovered after_mismatch positions
recovery_scan valid [] = ""
recovery_scan valid (m ∷ ms) =
    let rest = recovery_scan valid ms in
    if already_recovered valid m
    then rest
    else after_mismatch valid (positions (is_version_after m) valid) rest

unfoldable pub required_contract_recovery_action : List Completed → String
unfolding recovery_scan positions
required_contract_recovery_action completed =
    let valid = keep is_valid completed in
    recovery_scan valid (reverse (positions is_trigger valid))

unfoldable pub is_validated : Option Completed → Bool
is_validated none = false
is_validated (some c) = is_true (get_or "validated_for_submit" null c.observation)

unfoldable pub has_validated_execution : List Completed → Bool
unfolding is_validated
has_validated_execution completed =
    is_validated (last (keep (λ c. is_named "execute_sql" c && is_valid c) completed))
