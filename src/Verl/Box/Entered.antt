-- ===== src/Verl/Box/Entered.antt =====
-- What `create` of each tool of verl_tools.py does to the entries of the tools.
use drift_sql.Prelude.{
  String, ◌≡◌, refl, sym, ap, ◌∙◌, inl, inr, true, false, not, ◌&&◌, ◌||◌, Option, none, some,
  arith, ◌==◌, eq_iff, eq_refl, Bool-cases, Option-cases,
}
use drift_sql.Result.{Error, >>=-eq-ok, ok_injective, Result, ok, raised}
use drift_sql.Python.{Python}
use drift_sql.Python.Values.{Fields, get_or, truthy, flag, null, bool}
use drift_sql.Service.Toolbox.{Dict, lookup, set}
use drift_sql.Drift.Disk.{Disk, Paths, Sqlite, exists}
use drift_sql.Verl.Instances.{
  holds_instance, create_instance, update_instance, holds-set, holds-remove,
}
use drift_sql.Verl.Asking.{create_asking}
use drift_sql.Verl.Executor.{
  new_session, Executor, with_instances, forget, ready, settle_directory, text_at, in_new_directory,
  use_existing, use_source, prepare, create_executor,
}
use drift_sql.Verl.Box.{created_as}

module _ {A : Type 0} where
  -- What a `create` for `id` leaves of the entries `d`.
  abbrev pub IsEntered : String → Dict A → Dict A → Option Error → Type 0
  IsEntered id d later none =
      (j : String) → holds_instance j later ≡ (holds_instance j d || id == j)
  IsEntered id d later (some e) = (j : String) → holds_instance j later ≡ holds_instance j d

  held_already : (id : String) (d : Dict A) → holds_instance id d ≡ true → IsEntered id d d none
  held_already id d h j = elim (Bool-cases (id == j)) [
    | inl y ↦
        let here : holds_instance j d ≡ true =
          ap (λ k. holds_instance k d) (sym ((eq_iff id j).0 y)) ∙ h in
        rw (y, here) refl
    | inr n ↦ rw n (ground arith)
  ]

  update-holds :
      (id : String) (change : A → A) (d : Dict A)
      → holds_instance id d ≡ true
      → (j : String) → holds_instance j (update_instance id change d) ≡ holds_instance j d
  unfolding update_instance
  update-holds id change d h j = elim (Option-cases (lookup id d)) [
    | inl e ↦ rw (update_instance, e) refl
    | inr (v, e) ↦
        rw (update_instance, e) (holds-set id j (change v) d ∙ sym (held_already id d h j))
  ]

pub create_instance-IsEntered :
    {A : Type 0} (init : Fields → A) (id : String) (kwargs : Fields) (d : Dict A) {made : Dict A}
    → create_instance init id kwargs d ≡ ok made
    → IsEntered id d made none
unfolding create_instance
create_instance-IsEntered init id kwargs d h = elim (Bool-cases (holds_instance id d)) [
  | inl y ↦ rw (← ok_injective (rw y at h)) (held_already id d y)
  | inr n ↦ elim (Bool-cases (flag "db_id" kwargs)) [
    | inl y ↦ rw (← ok_injective (rw (n, y) at h)) (λ j. holds-set id j (init kwargs) d)
    | inr m ↦ absurd (raised_not_ok (rw (n, m) at h))
  ]
]
  where
    raised_not_ok : {A : Type 0} {e : Error} {a : A} → ¬ (raised e ≡ ok a)
    raised_not_ok k = cc

-- The two parts of a call's outcome.
abbrev pub Entered : {A : Type 0} → String → Dict A → Dict A × Option Error → Type 0
Entered id d r = IsEntered id d r.0 r.1

pub created_as-Entered :
    (id : String) (d : Dict Fields) (r : Result (Dict Fields))
    → ((made : Dict Fields) → r ≡ ok made → IsEntered id d made none)
    → Entered id d (created_as d r)
created_as-Entered id d (raised e) h = λ j. refl
created_as-Entered id d (ok made) h = h made refl

module _ (py : Python) where
  pub create_asking-IsEntered :
      (id : String) (kwargs : Fields) (d : Dict Fields) {made : Dict Fields}
      → create_asking py id kwargs d ≡ ok made
      → IsEntered id d made none
  unfolding create_asking
  create_asking-IsEntered id kwargs d h j =
      let (first, e, h1) = >>=-eq-ok (create_instance (λ k. k) id kwargs d) _ h in
      let entered = create_instance-IsEntered (λ k. k) id kwargs d e in
      let here : holds_instance id first ≡ true = entered id ∙ rw (eq_refl id) (ground arith) in
      rw (← ok_injective h1) (update-holds id _ first here j ∙ entered j)

module _ {D : Type 0} where
  -- What the preparation of a session that is there leaves: the session, or nothing of it.
  abbrev pub IsPrepared : String → Executor D → Executor D × Option Error → Type 0
  IsPrepared id x (y, none) =
      (j : String) → holds_instance j y.instances ≡ (holds_instance j x.instances || id == j)
  IsPrepared id x (y, some e) =
      (j : String) → holds_instance j y.instances ≡ (holds_instance j x.instances && not (id == j))

  settle_directory-IsPrepared :
      (id t : String) (fields : Fields) (x : Executor D) (r : Disk D × Option Error)
      → IsPrepared id x (settle_directory id t fields x r)
  unfolding settle_directory ready forget
  settle_directory-IsPrepared id t fields x (disk, none) = λ j. holds-set id j _ x.instances
  settle_directory-IsPrepared id t fields x (disk, some e) = λ j. holds-remove id j x.instances

module _ (py : Python) {D : Type 0} (sqlite : Sqlite D) (paths : Paths) where
  existing-IsPrepared :
      (config : Fields) (existing : String) (fields : Fields) (id : String) (x : Executor D)
      → IsPrepared id x (use_existing py sqlite paths config existing fields id x)
  unfolding use_existing in_new_directory ready
  existing-IsPrepared config existing fields id x =
      elim (Bool-cases
        (truthy (get_or "isolate_db" (get_or "isolate_existing_db" (bool true) config) fields))) [
          | inl y ↦ rw y (settle_directory-IsPrepared id _ _ x _)
          | inr n ↦ rw n (λ j. holds-set id j _ x.instances)
        ]

  source-IsPrepared :
      (fields : Fields) (id : String) (x : Executor D)
      → IsPrepared id x (use_source py sqlite paths fields id x)
  unfolding use_source in_new_directory forget
  source-IsPrepared fields id x =
      let source = paths.resolve (text_at py sqlite paths "source_db" fields) in
      elim (Bool-cases (exists source x.disk)) [
        | inr n ↦ rw n (λ j. holds-remove id j x.instances)
        | inl y ↦ elim (Bool-cases (truthy (get_or "schema_diff" null fields))) [
          | inr n ↦ rw (y, n) (λ j. holds-remove id j x.instances)
          | inl z ↦ rw (y, z) (settle_directory-IsPrepared id _ _ x _)
        ]
      ]

  prepare-IsPrepared :
      (config fields : Fields) (id : String) (x : Executor D)
      → IsPrepared id x (prepare py sqlite paths config fields id x)
  unfolding prepare
  prepare-IsPrepared config fields id x =
      elim (Bool-cases (exists (paths.resolve (text_at py sqlite paths "db_path" fields)) x.disk)) [
        | inl y ↦ rw y (existing-IsPrepared config _ fields id x)
        | inr n ↦ rw n (source-IsPrepared fields id x)
      ]

  -- The session was not there before it was made.
  prepared_new :
      (id : String) (kwargs : Fields) (x : Executor D) (r : Executor D × Option Error)
      → holds_instance id x.instances ≡ false
      → IsPrepared id (with_instances (set id (new_session kwargs) x.instances) x) r
      → IsEntered id x.instances r.0.instances r.1
  prepared_new id kwargs x (y, none) n h =
      λ j. h j ∙ rw (holds-set id j (new_session kwargs) x.instances) (ground arith)
  prepared_new id kwargs x (y, some e) n h = λ j.
      h j
      ∙ rw (holds-set id j (new_session kwargs) x.instances) (elim (Bool-cases (id == j)) [
        | inl same ↦
            let away : holds_instance j x.instances ≡ false =
              ap (λ k. holds_instance k x.instances) (sym ((eq_iff id j).0 same)) ∙ n in
            rw (same, away) refl
        | inr other ↦ rw other (ground arith)
      ])

  pub create_executor-Entered :
      (config : Fields) (id : String) (kwargs : Fields) (x : Executor D)
      → IsEntered id x.instances
          (create_executor py sqlite paths config id kwargs x).0.instances
          (create_executor py sqlite paths config id kwargs x).1
  unfolding create_executor
  create_executor-Entered config id kwargs x = elim (Bool-cases (holds_instance id x.instances)) [
    | inl y ↦ rw y (held_already id x.instances y)
    | inr n ↦ elim (Bool-cases (flag "db_id" kwargs)) [
      | inr m ↦ rw (n, m) (λ j. refl)
      | inl z ↦
          let made = with_instances (set id (new_session kwargs) x.instances) x in
          rw (n, z)
            (prepared_new id kwargs x (prepare py sqlite paths config kwargs id made) n
              (prepare-IsPrepared config kwargs id made))
    ]
  ]
