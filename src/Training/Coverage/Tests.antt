-- ===== src/Training/Coverage/Tests.antt =====
-- A plan for ten rows in batches of four.
use drift_sql.Prelude.{ℕ, suc, ◌≡◌, refl, false, [], ◌∷◌}
use drift_sql.Result.{ok}
use drift_sql.Python.Values.{ℤ, pos}
use drift_sql.Training.Coverage.{
  CoveragePlan, positive, plan_of, coverage_plan, group_rows, primaries, repeats, sort_rows,
  is_range, unique_first_order, IsPlan, coverage_plan-IsPlan,
}

abbrev plan : CoveragePlan
plan = record {
  train_rows = 10;
  train_batch_size = 4;
  steps_per_epoch = 2;
  covered_rows_per_epoch = 8;
  dropped_rows_per_epoch = 2;
  planned_steps = 5;
  planned_prompt_slots = 20;
  full_row_coverage = false;
}

coverage_plan-IsPlan_example :
    ((p : CoveragePlan)
      → coverage_plan (pos 10) (pos 4) (pos 5) ≡ ok p
      → IsPlan (pos 10) (pos 4) (pos 5) p)
    × ((r b s : ℕ)
        → ◌≡◌ {A = ℤ} (pos 10) (pos (suc r))
        → ◌≡◌ {A = ℤ} (pos 4) (pos (suc b))
        → ◌≡◌ {A = ℤ} (pos 5) (pos (suc s))
        → (p : CoveragePlan) × (coverage_plan (pos 10) (pos 4) (pos 5) ≡ ok p))
coverage_plan-IsPlan_example = coverage_plan-IsPlan (pos 10) (pos 4) (pos 5)

planned : coverage_plan (pos 10) (pos 4) (pos 5) ≡ ok plan
unfolding coverage_plan positive plan_of
planned = refl

-- Rows 0 and 2 are of one task.
ordered : unique_first_order (λ l. l) (λ l. l) ("a" ∷ "b" ∷ "a" ∷ []) ≡ ok (0 ∷ 1 ∷ 2 ∷ [])
unfolding unique_first_order group_rows primaries repeats sort_rows is_range
ordered = refl
