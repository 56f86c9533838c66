-- ===== src/Policy/Mask/Bounds.antt =====
-- The tokens that `key_action_response_mask` of state_policy.py selects.
use drift_sql.Prelude.{
  ℕ, zero, suc, ◌+◌, ◌-◌, ◌*◌, ◌≤◌, ◌<◌, min, max, ◌≡◌, refl, ◌⊎◌, inl, inr, Bool, true, false, not,
  ◌&&◌, ◌||◌, List, [], ◌∷◌, arith, ◌==◌, ltb, leb, if◌then◌else◌, Bool-cases, and_right, length,
  any,
}
use drift_sql.Result.{>>=-eq-ok, ok_injective, ok}
use drift_sql.Python.{Python, int_of}
use drift_sql.Python.Values.{get_or, pos, int}
use drift_sql.Policy.Event.{Event, event_name, event_was_masked}
use drift_sql.Policy.Mask.{
  is_set, at_least_zero, mark_span, zeros, count_active, mark_tail, is_key_action, mark_event,
  mark_events, with_fallback, key_action_response_mask,
}

-- The output has the mask's length, its entries are 0 and 1, and a 1 stands on an active token.
abbrev pub Selects : List ℕ → List ℕ → Type 0
Selects [] [] = Unit
Selects [] (o ∷ os) = ⊥
Selects (m ∷ ms) [] = ⊥
Selects (m ∷ ms) (o ∷ os) = ((o ≡ 0) ⊎ ((o ≡ 1) × (is_set m ≡ true))) × Selects ms os

Selects-zeros : (ms : List ℕ) → Selects ms (zeros ms)
unfolding zeros
Selects-zeros [] = tt
Selects-zeros (m ∷ ms) = (inl refl, Selects-zeros ms)

mark_span-Selects :
    (i start stop : ℕ) (ms os : List ℕ) → Selects ms os → Selects ms (mark_span i start stop ms os)
unfolding mark_span
mark_span-Selects i start stop [] [] h = tt
mark_span-Selects i start stop [] (o ∷ os) h = absurd h
mark_span-Selects i start stop (m ∷ ms) [] h = absurd h
mark_span-Selects i start stop (m ∷ ms) (o ∷ os) (h, t) =
    (entry, mark_span-Selects (i + 1) start stop ms os t)
  where
    entry :
        ((if leb start i && ltb i stop && is_set m then 1 else o) ≡ 0)
        ⊎ (((if leb start i && ltb i stop && is_set m then 1 else o) ≡ 1) × (is_set m ≡ true))
    entry = elim (Bool-cases (leb start i && ltb i stop && is_set m)) [
      | inl y ↦ rw y (inr (refl, and_right _ _ y))
      | inr n ↦ rw n h
    ]

mark_tail-Selects : (skip : ℕ) (ms : List ℕ) → Selects ms (mark_tail skip ms)
unfolding mark_tail
mark_tail-Selects skip [] = tt
mark_tail-Selects skip (zero ∷ ms) = (inl refl, mark_tail-Selects skip ms)
mark_tail-Selects zero (suc m ∷ ms) = (inr (refl, refl), mark_tail-Selects zero ms)
mark_tail-Selects (suc skip) (suc m ∷ ms) = (inl refl, mark_tail-Selects skip ms)

-- Some active token is left: what is skipped is less than what is active.
mark_tail_keeps :
    (skip : ℕ) (ms : List ℕ) → skip < count_active ms → any is_set (mark_tail skip ms) ≡ true
unfolding mark_tail count_active any
mark_tail_keeps skip [] h = absurd (omega arith)
mark_tail_keeps skip (zero ∷ ms) h = mark_tail_keeps skip ms (omega arith)
mark_tail_keeps zero (suc m ∷ ms) h = refl
mark_tail_keeps (suc skip) (suc m ∷ ms) h = mark_tail_keeps skip ms (omega arith)

count_active_pos : (ms : List ℕ) → any is_set ms ≡ true → 0 < count_active ms
unfolding count_active any
count_active_pos [] h = cc
count_active_pos (zero ∷ ms) h = omega (arith, count_active_pos ms h)
count_active_pos (suc m ∷ ms) h = omega arith

-- How many tokens are kept.
count_tail : (skip : ℕ) (ms : List ℕ) → count_active (mark_tail skip ms) ≡ count_active ms - skip
unfolding mark_tail count_active
count_tail skip [] = omega arith
count_tail skip (zero ∷ ms) = omega (arith, count_tail skip ms)
count_tail zero (suc m ∷ ms) = omega (arith, count_tail zero ms)
count_tail (suc skip) (suc m ∷ ms) = omega (arith, count_tail skip ms)

count_span :
    (i start stop : ℕ) (ms os : List ℕ)
    → Selects ms os
    → count_active (mark_span i start stop ms os) ≤ count_active os + (stop - max i start)
unfolding mark_span count_active
count_span i start stop [] os h = omega arith
count_span i start stop (m ∷ ms) [] h = absurd h
count_span i start stop (m ∷ ms) (o ∷ os) h =
    ground (arith, count_span (i + 1) start stop ms os h.1)

module _ (py : Python) (ms : List ℕ) (suffix : ℕ) where
  abbrev Kept : ℕ → List ℕ → Type 0
  Kept n os = Selects ms os × (count_active os ≤ n)

  mark_event-Kept :
      (e : Event) (n : ℕ) (os : List ℕ) {out : List ℕ}
      → Kept n os
      → mark_event py ms suffix e os ≡ ok out
      → Kept (n + suffix) out
  unfolding mark_event
  mark_event-Kept e n os (chosen, few) k =
      let (a, _, k') = >>=-eq-ok (int_of py (get_or "model_token_start" (int (pos 0)) e)) _ k in
      let (b, _, k'') = >>=-eq-ok (int_of py (get_or "model_token_end" (int (pos 0)) e)) _ k' in
      let stop = min (length ms) (at_least_zero b) in
      let start = max (at_least_zero a) (stop - suffix) in
      let span = count_span 0 start stop ms os chosen in
      rw (← ok_injective k'') (mark_span-Selects 0 start stop ms os chosen, omega arith)

  step :
      (key : Bool) (e : Event) (n : ℕ) (os : List ℕ) {out : List ℕ}
      → Kept n os
      → (if key then mark_event py ms suffix e os else ok os) ≡ ok out
      → Kept (n + suffix) out
  step true e n os kept k = mark_event-Kept e n os kept k
  step false e n os (chosen, few) k = rw (← ok_injective k) (chosen, omega arith)

  mark_events-Kept :
      (saw : Bool) (events : List Event) (n : ℕ) (os : List ℕ) {out : List ℕ}
      → Kept n os
      → mark_events py ms suffix saw events os ≡ ok out
      → Kept (n + suffix * length events) out
  unfolding mark_events
  mark_events-Kept saw [] n os (chosen, few) k = rw (← ok_injective k) (chosen, omega arith)
  mark_events-Kept saw (e ∷ es) n os kept k =
      let name = event_name py e in
      let (masked, _, k') = >>=-eq-ok (event_was_masked py e) _ k in
      let key = is_key_action name saw masked in
      let (marked, s, k'') = >>=-eq-ok (if key then mark_event py ms suffix e os else ok os) _ k' in
      let saw' = saw || (name == "inspect_schema_diff" && not masked) in
      let now : Kept (n + suffix) marked = step key e n os kept s in
      let (chosen, few) = mark_events-Kept saw' es (n + suffix) marked now k'' in
      (chosen, omega arith)

count_zeros : (ms : List ℕ) → count_active (zeros ms) ≡ 0
unfolding count_active zeros
count_zeros [] = refl
count_zeros (m ∷ ms) = omega (arith, count_zeros ms)

with_fallback-Kept :
    (ms : List ℕ) (suffix n : ℕ) (os : List ℕ)
    → suffix ≤ n
    → Selects ms os × (count_active os ≤ n)
    → Selects ms (with_fallback ms suffix os) × (count_active (with_fallback ms suffix os) ≤ n)
unfolding with_fallback
with_fallback-Kept ms suffix n os room kept = elim (Bool-cases (any is_set os)) [
  | inl y ↦ rw y kept
  | inr f ↦
      let skip = count_active ms - suffix in
      rw f (mark_tail-Selects skip ms, omega (arith, count_tail skip ms))
]

mul-max_one : (a b : ℕ) → (a ≤ a * max 1 b) × (a * b ≤ a * max 1 b)
mul-max_one a zero = omega arith
mul-max_one a (suc b) =
    let e : max 1 (suc b) ≡ suc b = omega arith in rw e (omega arith, omega arith)

-- The loss mask has the length of the response mask, its ones stand on active tokens, and there
-- are at most `n` of them for each event (`n` in all, if there is no event).
pub mask-Selects :
    (py : Python) (ms : List ℕ) (events : List Event) (n : ℕ) {out : List ℕ}
    → key_action_response_mask py ms events (pos n) ≡ ok out
    → Selects ms out × (count_active out ≤ n * max 1 (length events))
unfolding key_action_response_mask
mask-Selects py ms events zero h = cc
mask-Selects py ms events (suc n) h =
    let (os, k, e) = >>=-eq-ok (mark_events py ms (suc n) false events (zeros ms)) _ h in
    let start : Selects ms (zeros ms) × (count_active (zeros ms) ≤ 0) =
      (Selects-zeros ms, omega (arith, count_zeros ms)) in
    let (chosen, few) = mark_events-Kept py ms (suc n) false events 0 (zeros ms) start k in
    let (alone, room) = mul-max_one (suc n) (length events) in
    rw (← ok_injective e)
      (with_fallback-Kept ms (suc n) (suc n * max 1 (length events)) os alone (chosen, omega arith))

-- If the mask is computed and some token is active, then some token is trained on.
pub mask_trains :
    (py : Python) (ms : List ℕ) (events : List Event) (n : ℕ) {out : List ℕ}
    → key_action_response_mask py ms events (pos n) ≡ ok out
    → any is_set ms ≡ true
    → any is_set out ≡ true
unfolding key_action_response_mask with_fallback
mask_trains py ms events zero h active = cc
mask_trains py ms events (suc n) h active =
    let (os, _, e) = >>=-eq-ok (mark_events py ms (suc n) false events (zeros ms)) _ h in
    let here = count_active_pos ms active in
    elim (Bool-cases (any is_set os)) [
      | inl y ↦ let e' = ok_injective (rw y at e) in rw (← e') y
      | inr f ↦
          let e' = ok_injective (rw f at e) in
          rw (← e') (mark_tail_keeps (count_active ms - suc n) ms (omega arith))
    ]
