-- ===== src/Verl/Executor/Clean.antt =====
-- The temporary directories of `VersionedSqlExecutorTool`, through `create` and `release`.
use drift_sql.Prelude.{
  String, ◌≡◌, refl, sym, ap, ◌∙◌, inl, inr, true, false, Option, none, some, List, [], ◌∷◌, arith,
  ◌==◌, eq_iff, eq_refl, if◌then◌else◌, Bool-cases, Option-cases, contains,
}
use drift_sql.Result.{Error, Result, ok, raised}
use drift_sql.Python.{Python}
use drift_sql.Python.Values.{Fields, get_or, truthy, flag, null, bool}
use drift_sql.Service.Toolbox.{Dict, lookup, remove, set, lookup-set, lookup-remove}
use drift_sql.Drift.Disk.{
  Disk, Paths, Sqlite, exists, make_directory, remove_directory, lookup-set_other,
}
use drift_sql.Drift.Materialize.{materialize_schema_diff}
use drift_sql.Drift.Materialize.Directories.{keep_new, materialize_keeps}
use drift_sql.Verl.Instances.{holds_instance}
use drift_sql.Verl.Executor.{
  Session, new_session, temporary_of, Executor, with_instances, forget, ready, settle_directory,
  cleaned, release_executor, backed_up, backup_sqlite, text_at, in_new_directory, isolated_at,
  shared_at, use_existing, materialized_at, use_source, prepare, create_executor,
}
use drift_sql.Verl.Executor.Owned.{directory_of, IsOwned, given, taken, untouched}

directory_of-set :
    (id j : String) (s : Session) (d : Dict Session)
    → directory_of j (set id s d) ≡ (if id == j then s.temporary else directory_of j d)
unfolding directory_of
directory_of-set id j s d = elim (Bool-cases (id == j)) [
  | inl y ↦
      ap temporary_of
        (ap (λ k. lookup k (set id s d)) (sym ((eq_iff id j).0 y)) ∙ lookup-set id s d)
      ∙ rw y refl
  | inr n ↦ ap temporary_of (lookup-set_other id j s d n) ∙ rw n refl
]

lookup-remove_other :
    {A : Type 0} (key other : String) (d : Dict A)
    → (key == other) ≡ false
    → lookup other (remove key d) ≡ lookup other d
unfolding lookup remove
lookup-remove_other key other [] h = refl
lookup-remove_other key other ((k, v) ∷ rest) h =
    ground (arith, lookup-remove_other key other rest h, eq_iff k key, eq_iff k other)

directory_of-remove :
    (id j : String) (d : Dict Session)
    → directory_of j (remove id d) ≡ (if id == j then none else directory_of j d)
unfolding directory_of
directory_of-remove id j d = elim (Bool-cases (id == j)) [
  | inl y ↦
      ap temporary_of
        (ap (λ k. lookup k (remove id d)) (sym ((eq_iff id j).0 y)) ∙ lookup-remove id d)
      ∙ rw y refl
  | inr n ↦ ap temporary_of (lookup-remove_other id j d n) ∙ rw n refl
]

-- The temporary directories of the disk are those of the sessions, each that of one.
unfoldable pub IsClean : {D : Type 0} → Executor D → Type 0
IsClean x = IsOwned x.disk.temporaries (λ id. directory_of id x.instances)

module _ {D : Type 0} where
  -- The session gets no directory.
  ready-IsClean :
      (id : String) (fields : Fields) (x : Executor D)
      → directory_of id x.instances ≡ none
      → IsClean x
      → IsClean (ready id fields none x)
  unfolding IsClean ready
  ready-IsClean id fields x free clean =
      untouched x.disk.temporaries _ _ id free
        (λ j. directory_of-set id j (record { fields = fields; temporary = none }) x.instances)
        clean

  forget-IsClean :
      (id : String) (x : Executor D)
      → directory_of id x.instances ≡ none
      → IsClean x
      → IsClean (forget id x)
  unfolding IsClean forget
  forget-IsClean id x free clean =
      untouched x.disk.temporaries _ _ id free (λ j. directory_of-remove id j x.instances) clean

  -- The directory is the session's, or it is gone again.
  settle_directory-IsClean :
      (id t : String) (fields : Fields) (x : Executor D) (r : Disk D × Option Error)
      → r.0.temporaries ≡ t ∷ x.disk.temporaries
      → contains x.disk.temporaries t ≡ false
      → directory_of id x.instances ≡ none
      → IsClean x
      → IsClean (settle_directory id t fields x r).0
  unfolding IsClean settle_directory ready forget remove_directory
  settle_directory-IsClean id t fields x (disk, none) e new free clean = rw e (
      given x.disk.temporaries _ _ id t new
        (λ j. directory_of-set id j (record { fields = fields; temporary = some t }) x.instances)
        free clean)
  settle_directory-IsClean id t fields x (disk, some error) e new free clean =
      rw (e, keep_new t x.disk.temporaries new)
        (untouched x.disk.temporaries _ _ id free (λ j. directory_of-remove id j x.instances) clean)

module _ (py : Python) {D : Type 0} (sqlite : Sqlite D) (paths : Paths)
    (new : (p d : String) (ts : List String) → contains ts (paths.fresh p d ts) ≡ false) where
  backed_keeps :
      (target : String) (disk : Disk D) (r : Result D)
      → (backed_up py sqlite paths target disk r).0.temporaries ≡ disk.temporaries
  backed_keeps target disk (raised e) = refl
  backed_keeps target disk (ok content) = refl

  backup_keeps :
      (source target : String) (disk : Disk D)
      → (backup_sqlite py sqlite paths source target disk).0.temporaries ≡ disk.temporaries
  unfolding backup_sqlite
  backup_keeps source target disk = elim (Option-cases (lookup source disk.files)) [
    | inl e ↦ rw (backup_sqlite, e) refl
    | inr (content, e) ↦ rw (backup_sqlite, e) (backed_keeps target disk (sqlite.backup content))
  ]

  in_new_directory-IsClean :
      (prefix suffix : String) (fields : Fields) (finished : String → Fields → Fields)
      (produce : String → Disk D → Disk D × Option Error) (id : String) (x : Executor D)
      → ((t : String) (disk : Disk D) → (produce t disk).0.temporaries ≡ disk.temporaries)
      → directory_of id x.instances ≡ none
      → IsClean x
      → IsClean (in_new_directory py sqlite paths prefix suffix fields finished produce id x).0
  unfolding in_new_directory make_directory
  in_new_directory-IsClean prefix suffix fields finished produce id x keeps free clean =
      settle_directory-IsClean id (paths.fresh prefix paths.tmpdir x.disk.temporaries) _ x _
        (keeps _ _) (new prefix paths.tmpdir x.disk.temporaries) free clean

  existing-IsClean :
      (config : Fields) (existing : String) (fields : Fields) (id : String) (x : Executor D)
      → directory_of id x.instances ≡ none
      → IsClean x
      → IsClean (use_existing py sqlite paths config existing fields id x).0
  unfolding use_existing
  existing-IsClean config existing fields id x free clean =
      elim (Bool-cases
        (truthy (get_or "isolate_db" (get_or "isolate_existing_db" (bool true) config) fields))) [
          | inl y ↦ rw y (
              in_new_directory-IsClean _ _ fields (isolated_at py sqlite paths existing)
                (backup_sqlite py sqlite paths existing) id x (backup_keeps existing) free clean)
          | inr n ↦ rw n (ready-IsClean id (shared_at py sqlite paths existing fields) x free clean)
        ]

  source-IsClean :
      (fields : Fields) (id : String) (x : Executor D)
      → directory_of id x.instances ≡ none
      → IsClean x
      → IsClean (use_source py sqlite paths fields id x).0
  unfolding use_source
  source-IsClean fields id x free clean =
      let source = paths.resolve (text_at py sqlite paths "source_db" fields) in
      let diff = get_or "schema_diff" null fields in
      let gone = forget-IsClean id x free clean in
      elim (Bool-cases (exists source x.disk)) [
        | inr n ↦ rw n gone
        | inl y ↦ elim (Bool-cases (truthy diff)) [
          | inr n ↦ rw (y, n) gone
          | inl z ↦
              rw (y, z)
                (in_new_directory-IsClean _ _ fields (materialized_at py sqlite paths)
                  (λ target disk. materialize_schema_diff py sqlite paths source target diff disk)
                  id x
                  (λ target disk. materialize_keeps py sqlite paths new source target diff disk)
                  free clean)
        ]
      ]

  prepare-IsClean :
      (config fields : Fields) (id : String) (x : Executor D)
      → directory_of id x.instances ≡ none
      → IsClean x
      → IsClean (prepare py sqlite paths config fields id x).0
  unfolding prepare
  prepare-IsClean config fields id x free clean =
      elim (Bool-cases (exists (paths.resolve (text_at py sqlite paths "db_path" fields)) x.disk)) [
        | inl y ↦ rw y (existing-IsClean config _ fields id x free clean)
        | inr n ↦ rw n (source-IsClean fields id x free clean)
      ]

  absent : (id : String) (d : Dict Session) → holds_instance id d ≡ false → directory_of id d ≡ none
  unfolding directory_of
  absent id d h = elim (Option-cases (lookup id d)) [
    | inl e ↦ ap temporary_of e
    | inr (s, e) ↦ absurd (unequal (rw e at h))
  ]
    where
      unequal : ¬ (true ≡ false)
      unequal k = cc

  -- However a `create` of the executor ends, the temporary directories on the disk are those of the
  -- sessions that it keeps, each that of one: one that fails leaves none behind.
  pub create_executor-IsClean :
      (config : Fields) (id : String) (kwargs : Fields) (x : Executor D)
      → IsClean x
      → IsClean (create_executor py sqlite paths config id kwargs x).0
  unfolding create_executor
  create_executor-IsClean config id kwargs x clean =
      elim (Bool-cases (holds_instance id x.instances)) [
        | inl y ↦ rw y clean
        | inr n ↦ elim (Bool-cases (flag "db_id" kwargs)) [
          | inr m ↦ rw (n, m) clean
          | inl z ↦
              rw (n, z)
                (prepare-IsClean config kwargs id
                  (with_instances (set id (new_session kwargs) x.instances) x)
                  (directory_of-set id id (new_session kwargs) x.instances ∙ rw (eq_refl id) refl)
                  (ready-IsClean id kwargs x (absent id x.instances n) clean))
        ]
      ]

cleaned-IsClean :
    {D : Type 0} (id : String) (x : Executor D) (o : Option String)
    → directory_of id x.instances ≡ o
    → IsClean x
    → IsClean (cleaned o (forget id x))
unfolding IsClean cleaned forget remove_directory
cleaned-IsClean id x none e clean =
    untouched x.disk.temporaries _ _ id e (λ j. directory_of-remove id j x.instances) clean
cleaned-IsClean id x (some t) e clean =
    taken x.disk.temporaries _ _ id t e (λ j. directory_of-remove id j x.instances) clean

-- When a session ends, its temporary directory goes with it, and no other one.
pub release_executor-IsClean :
    {D : Type 0} (id : String) (x : Executor D) → IsClean x → IsClean (release_executor id x)
unfolding release_executor directory_of
release_executor-IsClean id x clean =
    cleaned-IsClean id x (temporary_of (lookup id x.instances)) refl clean
