-- ===== src/Policy/Mask.antt =====
-- `key_action_response_mask` of state_policy.py: the mask of the generated tokens of a trajectory.
pub mod Bounds
use drift_sql.Prelude.{
  ℕ, zero, suc, ◌+◌, ◌-◌, min, max, String, Bool, true, false, not, ◌&&◌, ◌||◌, List, [], ◌∷◌, ◌==◌,
  ltb, leb, if◌then◌else◌, length, any,
}
use drift_sql.Result.{◌>>=◌, value_error, Result, ok, raised}
use drift_sql.Python.{Python, int_of}
use drift_sql.Python.Values.{ℤ, get_or, pos, negsuc, int}
use drift_sql.Policy.Event.{Event, event_name, event_was_masked}

-- `bool(value)` of a number
abbrev pub is_set : ℕ → Bool
is_set zero = false
is_set (suc n) = true

-- `max(0, z)`. A negative end gives an empty range, and so does 0.
unfoldable pub at_least_zero : ℤ → ℕ
at_least_zero (pos n) = n
at_least_zero (negsuc n) = 0

-- `for index in range(start, stop): if response_mask[index]: output[index] = 1`, where the first
-- elements of the two lists stand at position `i`.
unfoldable pub mark_span : ℕ → ℕ → ℕ → List ℕ → List ℕ → List ℕ
mark_span i start stop [] output = output
mark_span i start stop (m ∷ ms) [] = []
mark_span i start stop (m ∷ ms) (o ∷ output) =
    (if leb start i && ltb i stop && is_set m then 1 else o)
    ∷ mark_span (i + 1) start stop ms output

-- `[0] * len(response_mask)`
unfoldable pub zeros : List ℕ → List ℕ
zeros [] = []
zeros (m ∷ ms) = 0 ∷ zeros ms

unfoldable pub count_active : List ℕ → ℕ
count_active [] = 0
count_active (m ∷ ms) = (if is_set m then 1 else 0) + count_active ms

-- The active positions but for the first `skip` of them.
unfoldable pub mark_tail : ℕ → List ℕ → List ℕ
mark_tail skip [] = []
mark_tail skip (zero ∷ ms) = 0 ∷ mark_tail skip ms
mark_tail zero (suc m ∷ ms) = 1 ∷ mark_tail zero ms
mark_tail (suc skip) (suc m ∷ ms) = 0 ∷ mark_tail skip ms

unfoldable pub is_key_action : String → Bool → Bool → Bool
is_key_action name post_diff masked =
    (name == "ask_user" || name == "submit_solution")
    || ((post_diff && not masked) || (name == "execute_sql" && not masked))

-- If no token is kept, the last active ones are.
unfoldable pub with_fallback : List ℕ → ℕ → List ℕ → List ℕ
unfolding mark_tail count_active
with_fallback response_mask suffix output =
    if any is_set output
    then output
    else mark_tail (count_active response_mask - suffix) response_mask

module _ (py : Python) where
  -- The span of an event: its last `suffix` tokens.
  unfoldable pub mark_event : List ℕ → ℕ → Event → List ℕ → Result (List ℕ)
  unfolding at_least_zero mark_span
  mark_event response_mask suffix e output = do
    first ← int_of py (get_or "model_token_start" (int (pos 0)) e)
    behind ← int_of py (get_or "model_token_end" (int (pos 0)) e)
    let stop = min (length response_mask) (at_least_zero behind)
    let start = max (at_least_zero first) (stop - suffix)
    ok (mark_span 0 start stop response_mask output)

  unfoldable pub mark_events : List ℕ → ℕ → Bool → List Event → List ℕ → Result (List ℕ)
  unfolding mark_event is_key_action
  mark_events response_mask suffix saw_diff [] output = ok output
  mark_events response_mask suffix saw_diff (e ∷ es) output = do
    masked ← event_was_masked py e
    let name = event_name py e
    marked ←
        (if is_key_action name saw_diff masked
          then mark_event response_mask suffix e output
          else ok output)
    mark_events response_mask suffix (saw_diff || (name == "inspect_schema_diff" && not masked)) es
        marked

  unfoldable pub key_action_response_mask : List ℕ → List Event → ℤ → Result (List ℕ)
  unfolding mark_events with_fallback zeros
  key_action_response_mask response_mask events (pos (suc n)) = do
    output ← mark_events response_mask (suc n) false events (zeros response_mask)
    ok (with_fallback response_mask (suc n) output)
  key_action_response_mask response_mask events (pos zero) =
      raised (value_error "suffix_tokens must be positive")
  key_action_response_mask response_mask events (negsuc n) =
      raised (value_error "suffix_tokens must be positive")
