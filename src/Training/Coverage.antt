-- ===== src/Training/Coverage.antt =====
-- driftsql/training/grpo_coverage.py: how much of the training rows a number of steps covers, and
-- `unique_first_order`. The shuffle is a parameter.
mod Tests
use drift_sql.Prelude.{
  ℕ, zero, suc, ◌+◌, ◌-◌, ◌*◌, ◌/◌, ◌%◌, ◌≤◌, ◌<◌, String, ◌<>◌, ◌≡◌, refl, ap, ◌↔◌, Bool, true,
  false, not, ◌&&◌, List, [], ◌∷◌, ◌++◌, arith, ◌==◌, leb, eqb, if◌then◌else◌,
}
use drift_sql.Result.{
  fail_if, ◌>>=◌, ◌>>◌, >>=-eq-ok, ok_injective, value_error, runtime_error, Result, ok, raised,
}
use drift_sql.Python.Values.{ℤ, pos, negsuc}
use native.Mathlib.Nat.{div-add-mod', mod-lt}

pub record CoveragePlan : Type 0 where
  pub train_rows : ℕ
  pub train_batch_size : ℕ
  pub steps_per_epoch : ℕ
  pub covered_rows_per_epoch : ℕ
  pub dropped_rows_per_epoch : ℕ
  pub planned_steps : ℕ
  pub planned_prompt_slots : ℕ
  pub full_row_coverage : Bool

-- An integer that must be positive.
unfoldable pub positive : String → ℤ → Result ℕ
positive what (pos (suc n)) = ok (suc n)
positive what _ = raised (value_error (what <> " must be positive"))

unfoldable pub plan_of : ℕ → ℕ → ℕ → CoveragePlan
plan_of rows batch steps =
    let per_epoch = rows / batch in
    let covered = per_epoch * batch in
    record {
      train_rows = rows;
      train_batch_size = batch;
      steps_per_epoch = per_epoch;
      covered_rows_per_epoch = covered;
      dropped_rows_per_epoch = rows - covered;
      planned_steps = steps;
      planned_prompt_slots = steps * batch;
      full_row_coverage = eqb (rows - covered) 0 && leb per_epoch steps;
    }

unfoldable pub coverage_plan : ℤ → ℤ → ℤ → Result CoveragePlan
unfolding positive plan_of
coverage_plan train_rows train_batch_size planned_steps = do
  rows ← positive "train_rows" train_rows
  batch ← positive "train_batch_size" train_batch_size
  steps ← positive "planned_steps" planned_steps
  ok (plan_of rows batch steps)

-- The rows of each task, the tasks in the order of their first rows.
abbrev pub Groups : Type 0
Groups = List (String × List ℕ)

-- `grouped.setdefault(instance_id, []).append(index)`
unfoldable pub add_row : String → ℕ → Groups → Groups
add_row id i [] = (id, i ∷ []) ∷ []
add_row id i ((k, rows) ∷ rest) =
    let others = add_row id i rest in
    if k == id then (k, rows ++ i ∷ []) ∷ rest else (k, rows) ∷ others

unfoldable pub group_rows : ℕ → List String → Groups → Result Groups
unfolding add_row
group_rows i [] groups = ok groups
group_rows i (id ∷ ids) groups =
    let rest = group_rows (i + 1) ids (add_row id i groups) in
    if id == "" then raised (value_error "empty instance_id") else rest

unfoldable pub primaries : Groups → List ℕ
primaries [] = []
primaries ((k, []) ∷ rest) = primaries rest
primaries ((k, i ∷ rows) ∷ rest) = i ∷ primaries rest

unfoldable pub repeats : Groups → List ℕ
repeats [] = []
repeats ((k, []) ∷ rest) = repeats rest
repeats ((k, i ∷ rows) ∷ rest) = rows ++ repeats rest

-- `sorted(order)`
unfoldable pub insert_row_number : ℕ → List ℕ → List ℕ
insert_row_number n [] = n ∷ []
insert_row_number n (m ∷ ms) =
    let rest = insert_row_number n ms in if leb n m then n ∷ m ∷ ms else m ∷ rest

unfoldable pub sort_rows : List ℕ → List ℕ
unfolding insert_row_number
sort_rows [] = []
sort_rows (n ∷ ns) = insert_row_number n (sort_rows ns)

-- `... == list(range(i, ...))`
unfoldable pub is_range : ℕ → List ℕ → Bool
is_range i [] = true
is_range i (n ∷ ns) = eqb n i && is_range (i + 1) ns

abbrev pub is_nil : Groups → Bool
is_nil [] = true
is_nil (g ∷ gs) = false

-- The two shuffles of one seeded generator: the first row of each task, then the repeats.
unfoldable pub unique_first_order :
    (List ℕ → List ℕ) → (List ℕ → List ℕ) → List String → Result (List ℕ)
unfolding group_rows primaries repeats sort_rows is_range
unique_first_order shuffle shuffle_again ids = do
  groups ← group_rows 0 ids []
  fail_if (is_nil groups) (value_error "instance_ids must not be empty")
  let order = shuffle (primaries groups) ++ shuffle_again (repeats groups)
  fail_if (not (is_range 0 (sort_rows order)))
      (runtime_error "coverage ordering lost or duplicated source rows")
  ok order

positive_lem : (what : String) (z : ℤ) {n : ℕ} → positive what z ≡ ok n → (z ≡ pos n) × (1 ≤ n)
unfolding positive
positive_lem what (pos zero) h = cc
positive_lem what (pos (suc n)) h = (ap pos (ok_injective h), rw (← ok_injective h) (omega arith))
positive_lem what (negsuc n) h = cc

-- The plan is for these rows, this batch size and these steps, which are positive; and what it says
-- of an epoch and of the coverage is so.
pub record IsPlan (rows batch steps : ℤ) (p : CoveragePlan) : Type 0 where
  pub for_rows : (rows ≡ pos p.train_rows) × (1 ≤ p.train_rows)
  pub for_batch : (batch ≡ pos p.train_batch_size) × (1 ≤ p.train_batch_size)
  pub for_steps : (steps ≡ pos p.planned_steps) × (1 ≤ p.planned_steps)
  pub slots : p.planned_prompt_slots ≡ p.planned_steps * p.train_batch_size
  pub parted : p.covered_rows_per_epoch + p.dropped_rows_per_epoch ≡ p.train_rows
  pub few_dropped : p.dropped_rows_per_epoch < p.train_batch_size
  pub whole_batches : p.covered_rows_per_epoch ≡ p.steps_per_epoch * p.train_batch_size
  pub full :
      (p.full_row_coverage ≡ true)
      ↔ ((p.covered_rows_per_epoch ≡ p.train_rows) × (p.steps_per_epoch ≤ p.planned_steps))

full_lem : (c r q s : ℕ) → c ≤ r → ((eqb (r - c) 0 && leb q s) ≡ true) ↔ ((c ≡ r) × (q ≤ s))
full_lem c r q s le = (λ k. (ground arith, ground arith), λ (a, b). ground arith)

plan_of-IsPlan :
    {zr zb zs : ℤ} (rows batch steps : ℕ) {p : CoveragePlan}
    → (zr ≡ pos rows) × (1 ≤ rows)
    → (zb ≡ pos batch) × (1 ≤ batch)
    → (zs ≡ pos steps) × (1 ≤ steps)
    → plan_of rows batch steps ≡ p
    → IsPlan zr zb zs p
unfolding plan_of
plan_of-IsPlan rows batch steps r (b, h) s same =
    let parts = div-add-mod' rows batch in
    let small : rows % batch < batch = mod-lt rows h in
    rw (← same) record {
      for_rows = r;
      for_batch = (b, h);
      for_steps = s;
      slots = refl;
      parted = omega (arith, parts);
      few_dropped = omega (arith, parts, small);
      whole_batches = refl;
      full = full_lem (rows / batch * batch) rows (rows / batch) steps (omega (arith, parts));
    }

-- A plan that is made is for the given rows, batch size and steps, all of which are positive: every
-- epoch's rows are covered in whole batches or dropped, fewer are dropped than a batch holds, and
-- full coverage is claimed exactly when all rows are covered and the planned steps reach the end of
-- an epoch; and a plan is made for all positive numbers.
pub coverage_plan-IsPlan :
    (rows batch steps : ℤ)
    → ((p : CoveragePlan) → coverage_plan rows batch steps ≡ ok p → IsPlan rows batch steps p)
      × ((r b s : ℕ)
          → rows ≡ pos (suc r)
          → batch ≡ pos (suc b)
          → steps ≡ pos (suc s)
          → (p : CoveragePlan) × (coverage_plan rows batch steps ≡ ok p))
unfolding coverage_plan positive
coverage_plan-IsPlan rows batch steps = (
  λ p h.
      let (r, is_rows, h1) = >>=-eq-ok (positive "train_rows" rows) _ h in
      let (b, is_batch, h2) = >>=-eq-ok (positive "train_batch_size" batch) _ h1 in
      let (s, is_steps, h3) = >>=-eq-ok (positive "planned_steps" steps) _ h2 in
      plan_of-IsPlan r b s (positive_lem "train_rows" rows is_rows)
        (positive_lem "train_batch_size" batch is_batch)
        (positive_lem "planned_steps" steps is_steps) (ok_injective h3),
  λ r b s re be se. rw (re, be, se) (plan_of (suc r) (suc b) (suc s), refl),
)
