-- ===== src/Planning/Repaired.antt =====
-- The plans of driftsql/planning/schema_repair.py, and the renamings that they carry out.
use drift_sql.Prelude.{
  String, ◌≡◌, refl, sym, ap, ◌∙◌, inl, inr, Bool, true, false, not, Option, List, [], ◌∷◌, arith,
  ◌==◌, eq_iff, Bool-cases, keep,
}
use drift_sql.Result.{fail_if, >>=-eq-ok, ok_injective, fail_if-eq-ok, value_error, ok}
use drift_sql.Python.{Python}
use drift_sql.Python.Values.{Json, Fields, get_or, arr, nil}
use drift_sql.Verl.Instances.{items_or_none}
use drift_sql.Service.Toolbox.{Dict}
use drift_sql.Rewrite.{rewrite_sql_identifier}
use drift_sql.Planning.{
  Trees, RepairPlan, dicts_of, operation_type, is_renaming, name_at, is_incomplete, add_applied,
  apply_renaming, apply_renamings, is_addition, apply_additions, plan_audited_schema_repair,
}

module _ (py : Python) where
  -- One operation takes the query to the next one: a renaming is carried out, with both names
  -- given, and any other operation leaves the query.
  abbrev Turn : Bool → Fields → String → String → Type 0
  Turn true d s t =
      (is_incomplete py d ≡ false)
      × (rewrite_sql_identifier py s (name_at py "old_name" d) (name_at py "new_name" d) ≡ ok t)
  Turn false d s t = s ≡ t

  abbrev pub IsRenamed : List Fields → String → String → Type 0
  IsRenamed [] s t = s ≡ t
  IsRenamed (d ∷ ds) s t =
      (u : String) × Turn (is_renaming py (operation_type py d)) d s u × IsRenamed ds u t

  -- The query is the rewritten one also where it stays as it is.
  added : (t s : String) (applied : List String) (u : String) → (add_applied py t s applied u).0 ≡ u
  added t s applied u = elim (Bool-cases (u == s)) [
    | inl y ↦ rw y (sym ((eq_iff u s).0 y))
    | inr n ↦ rw n refl
  ]

  apply_renaming-Turn :
      (d : Fields) (state : String × List String) {next : String × List String}
      → apply_renaming py d state ≡ ok next
      → Turn (is_renaming py (operation_type py d)) d state.0 next.0
  unfolding apply_renaming
  apply_renaming-Turn d (s, applied) h = elim (Bool-cases (is_renaming py (operation_type py d))) [
    | inr n ↦ rw n (ap (λ (p : String × List String). p.0) (ok_injective (rw n at h)))
    | inl y ↦
        let (u, e, h1) =
          >>=-eq-ok
            (fail_if (is_incomplete py d) (value_error "Audited identifier mapping is incomplete"))
            _ (rw y at h) in
        let (updated, r, h2) =
          >>=-eq-ok
            (rewrite_sql_identifier py s (name_at py "old_name" d) (name_at py "new_name" d)) _
            h1 in
        rw y (
          fail_if-eq-ok (is_incomplete py d) _ e,
          r
              ∙ ap ok (
                  sym (added (operation_type py d) s applied updated)
                  ∙ ap (λ (p : String × List String). p.0) (ok_injective h2)),
        )
  ]

  apply_renamings-IsRenamed :
      (ds : List Fields) (state : String × List String) {next : String × List String}
      → apply_renamings py ds state ≡ ok next
      → IsRenamed ds state.0 next.0
  unfolding apply_renamings
  apply_renamings-IsRenamed [] state h = ap (λ (p : String × List String). p.0) (ok_injective h)
  apply_renamings-IsRenamed (d ∷ ds) state h =
      let (middle, e, h1) = >>=-eq-ok (apply_renaming py d state) _ h in
      (middle.0, apply_renaming-Turn d state e, apply_renamings-IsRenamed ds middle h1)

  no_additions :
      (trees : Trees) (diff : Fields) (additions : List Fields)
      (schema : Option (Dict (List String))) (state : String × List String)
      {next : String × List String}
      → additions ≡ []
      → apply_additions py trees diff additions schema state ≡ ok next
      → state.0 ≡ next.0
  unfolding apply_additions
  no_additions trees diff [] schema state e h =
      ap (λ (p : String × List String). p.0) (ok_injective h)
  no_additions trees diff (d ∷ ds) schema state e h = cc

  unnegated : (b : Bool) → not b ≡ false → b ≡ true
  unnegated b h = ground arith

  -- A repair plan starts from a query that only reads and ends in one that only reads; where no
  -- column is added, its query is the stale one with the renamings of the audited diff carried out
  -- one after another, and nothing else.
  pub plan-Repairs :
      (trees : Trees) (stale : String) (diff : Fields) (schema : Option (Dict (List String)))
      {plan : RepairPlan}
      → plan_audited_schema_repair py trees stale diff schema ≡ ok plan
      → (trees.read_only stale ≡ true)
        × (trees.read_only plan.repaired_sql ≡ true)
        × (plan.original_sql ≡ stale)
        × (items : List Json) × (items_or_none (get_or "operations" (arr nil) diff) ≡ ok items)
        × (keep (is_addition py) (dicts_of items) ≡ []
            → IsRenamed (dicts_of items) stale plan.repaired_sql)
  unfolding plan_audited_schema_repair
  plan-Repairs trees stale diff schema {plan} h =
      let (u, e1, h1) =
        >>=-eq-ok
          (fail_if (not (trees.read_only stale))
            (value_error "Audited repair requires one read-only SQL query"))
          _ h in
      let (items, e2, h2) = >>=-eq-ok (items_or_none (get_or "operations" (arr nil) diff)) _ h1 in
      let (renamed, e3, h3) = >>=-eq-ok (apply_renamings py (dicts_of items) (stale, [])) _ h2 in
      let (repaired, e4, h4) =
        >>=-eq-ok
          (apply_additions py trees diff (keep (is_addition py) (dicts_of items)) schema renamed) _
          h3 in
      let (v, e5, h5) =
        >>=-eq-ok
          (fail_if (not (trees.read_only repaired.0))
            (value_error "Audited repair produced a non-query expression"))
          _ h4 in
      let same : repaired.0 ≡ plan.repaired_sql =
        ap (λ (p : RepairPlan). p.repaired_sql) (ok_injective h5) in
      (
        unnegated (trees.read_only stale) (fail_if-eq-ok (not (trees.read_only stale)) _ e1),
        rw (← same) (
            unnegated (trees.read_only repaired.0)
              (fail_if-eq-ok (not (trees.read_only repaired.0)) _ e5)),
        sym (ap (λ (p : RepairPlan). p.original_sql) (ok_injective h5)),
        items,
        e2,
        (λ none_added.
            rw (← same, ← no_additions trees diff _ schema renamed none_added e4)
              (apply_renamings-IsRenamed (dicts_of items) (stale, []) e3)),
      )
