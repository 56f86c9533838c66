-- ===== src/Policy/Repair.antt =====
-- `audited_repair_candidate` and `should_apply_audited_repair` of state_policy.py.
use drift_sql.Prelude.{
  Any-reverse_inv, String, ◌≡◌, sym, ap, ◌∙◌, ◌≢◌, ◌⊎◌, inl, inr, Bool, true, false, not, ◌&&◌,
  ◌||◌, Option, none, some, List, [], ◌∷◌, reverse, arith, ◌==◌, eq_iff, if◌then◌else◌, Bool-cases,
  Any,
}
use drift_sql.Result.{◌>>=◌, >>=-eq-ok, ok_injective, attribute_error, Result, ok, raised}
use drift_sql.Python.{Python, str_of, casefold}
use drift_sql.Python.Values.{Json, get_or, flag, text, obj, end}
use drift_sql.Python.Text.{strip, strip_semicolons}
use drift_sql.Policy.Event.{Event, event_response, event_name, event_was_masked}

module _ (py : Python) where
  -- `candidate.get("repaired_sql", "")` of a changed candidate, stripped; "" if there is none.
  unfoldable pub candidate_sql : Json → String
  candidate_sql (obj d) =
      if flag "changed" d then strip (str_of py (get_or "repaired_sql" (text "") d)) else ""
  candidate_sql _ = ""

  unfoldable pub loaded_repair : Option Json → Result String
  unfolding candidate_sql
  loaded_repair none = ok ""
  loaded_repair (some (obj d)) = ok (candidate_sql (get_or "repair_candidate" (obj end) d))
  loaded_repair (some _) = raised attribute_error

  -- The repair of one event that was not masked.
  unfoldable pub event_repair : Event → Result String
  unfolding loaded_repair
  event_repair e = loaded_repair (py.loads (str_of py (event_response py e)))

  -- The loop over the events, the newest first.
  unfoldable pub newest_repair : List Event → Result String
  unfolding event_repair
  newest_repair [] = ok ""
  newest_repair (e ∷ es) =
      let rest = newest_repair es in
      let repaired = (do sql ← event_repair e; if sql == "" then rest else ok sql) in
      if event_name py e == "inspect_schema_diff"
      then (do m ← event_was_masked py e; if m then rest else repaired)
      else rest

  unfoldable pub audited_repair_candidate : List Event → Result String
  unfolding newest_repair
  audited_repair_candidate events = newest_repair (reverse events)

  -- `value.rstrip(";").strip().casefold()`
  unfoldable pub normalize : String → String
  normalize value = casefold py (strip (strip_semicolons value))

  unfoldable pub should_apply_audited_repair : List Event → String → String → Result String
  unfolding audited_repair_candidate
  should_apply_audited_repair events proposed stale =
      let candidates = (do
        candidate ← audited_repair_candidate events
        ok (
            if not (candidate == "") && not (normalize candidate == normalize proposed)
            then candidate
            else "")) in
      if normalize proposed == "" || not (normalize proposed == normalize stale)
      then ok ""
      else candidates

  -- The event is an inspected diff that was not masked, and holds this repair.
  abbrev pub Holds : String → Event → Type 0
  Holds sql e =
      (event_name py e ≡ "inspect_schema_diff")
      × (event_was_masked py e ≡ ok false)
      × (event_repair e ≡ ok sql)

  -- What an unmasked diff adds: its own repair, or what older events hold.
  repaired-Holds :
      (e : Event) (older : Result String) (P : Type 0) (sql : String)
      → (older ≡ ok sql → P)
      → (do found ← event_repair e; if found == "" then older else ok found) ≡ ok sql
      → (event_repair e ≡ ok sql) ⊎ P
  repaired-Holds e older P sql rest h =
      let (found, r, h') = >>=-eq-ok (event_repair e) _ h in
      elim (Bool-cases (found == "")) [
        | inl y ↦ inr (rest (rw y at h'))
        | inr n ↦ let same = ok_injective (rw n at h') in inl (r ∙ ap ok same)
      ]

  masked_case :
      (e : Event) (es : List Event) (sql : String)
      → event_name py e ≡ "inspect_schema_diff"
      → (m : Bool) → event_was_masked py e ≡ ok m
      → (newest_repair es ≡ ok sql → Any (Holds sql) es)
      → (if m
          then newest_repair es
          else (do found ← event_repair e; if found == "" then newest_repair es else ok found))
        ≡ ok sql
      → Any (Holds sql) (e ∷ es)
  masked_case e es sql name true f rest h = inr (rest h)
  masked_case e es sql name false f rest h =
      elim (repaired-Holds e (newest_repair es) (Any (Holds sql) es) sql rest h) [
        | inl r ↦ inl (name, f, r)
        | inr older ↦ inr older
      ]

  newest_repair-Holds :
      (events : List Event) (sql : String)
      → sql ≢ ""
      → newest_repair events ≡ ok sql
      → Any (Holds sql) events
  unfolding newest_repair
  newest_repair-Holds [] sql ne h = absurd (ne (sym (ok_injective h)))
  newest_repair-Holds (e ∷ es) sql ne h =
      elim (Bool-cases (event_name py e == "inspect_schema_diff")) [
        | inr n ↦ inr (newest_repair-Holds es sql ne (rw n at h))
        | inl y ↦
            let (m, f, h') = >>=-eq-ok (event_was_masked py e) _ (rw y at h) in
            masked_case e es sql ((eq_iff _ _).0 y) m f (newest_repair-Holds es sql ne) h'
      ]

  held :
      (events : List Event) (sql : String)
      → sql ≢ ""
      → audited_repair_candidate events ≡ ok sql
      → Any (Holds sql) events
  unfolding audited_repair_candidate
  held events sql ne h = Any-reverse_inv _ events (newest_repair-Holds (reverse events) sql ne h)

  chosen_lem :
      (candidate proposed : String) {sql : String}
      → (if not (candidate == "") && not (normalize candidate == normalize proposed)
          then candidate
          else "")
        ≡ sql
      → sql ≢ ""
      → (candidate ≡ sql) × (normalize candidate ≢ normalize proposed)
  chosen_lem candidate proposed h ne =
      ground (arith, eq_iff (normalize candidate) (normalize proposed))

  -- A repair replaces the proposed query only if, when trimmed and casefolded, the proposed query
  -- equals the stale one and the repair differs from both, and an unmasked diff of the trajectory
  -- holds the repair. Queries that differ in the case of a literal count as equal here.
  pub apply_only_stale :
      (events : List Event) (proposed stale : String) {sql : String}
      → should_apply_audited_repair events proposed stale ≡ ok sql
      → sql ≢ ""
      → (normalize proposed ≡ normalize stale)
        × (normalize sql ≢ normalize proposed)
        × Any (Holds sql) events
  unfolding should_apply_audited_repair
  apply_only_stale events proposed stale {sql} h ne =
      elim (Bool-cases (normalize proposed == "" || not (normalize proposed == normalize stale))) [
        | inl y ↦ absurd (ne (sym (ok_injective (rw y at h))))
        | inr n ↦
            let (candidate, c, e) = >>=-eq-ok (audited_repair_candidate events) _ (rw n at h) in
            let (same, differs) = chosen_lem candidate proposed (ok_injective e) ne in
            (
              ground (arith, eq_iff (normalize proposed) (normalize stale)),
              rw (← same) differs,
              held events sql ne (c ∙ ap ok same),
            )
      ]
