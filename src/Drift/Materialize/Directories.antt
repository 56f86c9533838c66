-- ===== src/Drift/Materialize/Directories.antt =====
-- The temporary directories of `materialize_schema_diff` of factory.py.
use drift_sql.Prelude.{
  ℕ, suc, String, ◌≡◌, refl, ap, ◌∙◌, inl, inr, true, false, not, Option, none, some, List, [], ◌∷◌,
  ◌==◌, eq_refl, Bool-cases, Option-cases, keep, contains,
}
use drift_sql.Result.{Error, Result-cases, Result, ok, raised}
use drift_sql.Python.{Python}
use drift_sql.Python.Values.{Json}
use drift_sql.Service.Toolbox.{lookup}
use drift_sql.Drift.Requests.{
  Request, request_of, column_rename, table_rename, column_replacement, column_addition,
  definition_change,
}
use drift_sql.Drift.Disk.{
  Disk, Paths, Sqlite, after, exists, make_directory, remove_directory, copy_database,
}
use drift_sql.Drift.Materialize.{
  destination, connect_to, alter_copy, materialize_column_rename, materialize_table_rename,
  materialize_column_replacement, materialize_column_addition, plain_copy, carry_out,
  carry_out_read, materialize_operation, chain, materialize_operations, operations_of,
  materialize_schema_diff,
}

module _ {D : Type 0} where
  after_keeps :
      (r : Disk D × Option Error) (f : Disk D → Disk D × Option Error) (ts : List String)
      → r.0.temporaries ≡ ts
      → ((d : Disk D) → d.temporaries ≡ ts → (f d).0.temporaries ≡ ts)
      → (after r f).0.temporaries ≡ ts
  unfolding after
  after_keeps (d, some e) f ts h k = h
  after_keeps (d, none) f ts h k = k d h

  copy_keeps :
      (source target : String) (disk : Disk D)
      → (copy_database source target disk).0.temporaries ≡ disk.temporaries
  unfolding copy_database
  copy_keeps source target disk = elim (Option-cases (lookup source disk.files)) [
    | inl e ↦ rw (copy_database, e) refl
    | inr (v, e) ↦ rw (copy_database, e) refl
  ]

keep_others :
    (t : String) (us : List String) → contains us t ≡ false → keep (λ u. not (u == t)) us ≡ us
unfolding keep contains
keep_others t [] h = refl
keep_others t (u ∷ us) h = elim (Bool-cases (u == t)) [
  | inl y ↦ absurd (true_not_false (rw y at h))
  | inr n ↦ rw n (ap (λ vs. u ∷ vs) (keep_others t us (rw n at h)))
]
  where
    true_not_false : ¬ (true ≡ false)
    true_not_false k = cc

-- A directory that was new is made and removed.
pub keep_new :
    (t : String) (ts : List String) → contains ts t ≡ false → keep (λ u. not (u == t)) (t ∷ ts) ≡ ts
unfolding keep
keep_new t ts h = rw (eq_refl t) (keep_others t ts h)

module _ (py : Python) {D : Type 0} (sqlite : Sqlite D) where
  connect_keeps :
      (target : String) (statements : D → List (Result String)) (disk : Disk D)
      → (connect_to py sqlite target statements disk).0.temporaries ≡ disk.temporaries
  unfolding connect_to
  connect_keeps target statements disk = elim (Option-cases (lookup target disk.files)) [
    | inl e ↦ rw (connect_to, e) refl
    | inr (v, e) ↦ rw (connect_to, e) refl
  ]

  alter_keeps :
      (source target : String) (statements : D → List (Result String)) (disk : Disk D)
      → (alter_copy py sqlite source target statements disk).0.temporaries ≡ disk.temporaries
  unfolding alter_copy
  alter_keeps source target statements disk = elim (Bool-cases (exists target disk)) [
    | inl y ↦ rw y refl
    | inr n ↦ rw n (
        after_keeps (copy_database source target disk) (connect_to py sqlite target statements)
          disk.temporaries (copy_keeps source target disk)
          (λ d k. connect_keeps target statements d ∙ k))
  ]

  plain_keeps :
      (source target : String) (disk : Disk D)
      → (plain_copy py sqlite source target disk).0.temporaries ≡ disk.temporaries
  unfolding plain_copy
  plain_keeps source target disk = elim (Bool-cases (exists target disk)) [
    | inl y ↦ rw y refl
    | inr n ↦ rw n (copy_keeps source target disk)
  ]

  carry_out_keeps :
      (source target : String) (request : Request) (disk : Disk D)
      → (carry_out py sqlite source target request disk).0.temporaries ≡ disk.temporaries
  unfolding carry_out materialize_column_rename materialize_table_rename
      materialize_column_replacement materialize_column_addition
  carry_out_keeps source target (column_rename table old_name new_name) disk =
      alter_keeps source target _ disk
  carry_out_keeps source target (table_rename old_name new_name) disk =
      alter_keeps source target _ disk
  carry_out_keeps source target (column_replacement table old_name new_name kind) disk =
      alter_keeps source target _ disk
  carry_out_keeps source target (column_addition table new_name kind default) disk =
      alter_keeps source target _ disk
  carry_out_keeps source target definition_change disk = plain_keeps source target disk

  read_keeps :
      (source target : String) (r : Result Request) (disk : Disk D)
      → (carry_out_read py sqlite source target r disk).0.temporaries ≡ disk.temporaries
  read_keeps source target (raised e) disk = refl
  read_keeps source target (ok request) disk = carry_out_keeps source target request disk

  operation_keeps :
      (source target : String) (operation : Json) (disk : Disk D)
      → (materialize_operation py sqlite source target operation disk).0.temporaries
        ≡ disk.temporaries
  unfolding materialize_operation
  operation_keeps source target operation disk =
      read_keeps source target (request_of py operation) disk

  chain_keeps :
      (directory target : String) (operations : List Json) (index : ℕ) (current : String)
      (disk : Disk D)
      → (chain py sqlite directory target operations index current disk).0.temporaries
        ≡ disk.temporaries
  unfolding chain
  chain_keeps directory target [] index current disk = refl
  chain_keeps directory target (operation ∷ later) index current disk =
      let next = destination py directory target index later in
      after_keeps (materialize_operation py sqlite current next operation disk)
        (chain py sqlite directory target later (suc index) next) disk.temporaries
        (operation_keeps current next operation disk)
        (λ d k. chain_keeps directory target later (suc index) next d ∙ k)

  module _ (paths : Paths)
      (new : (p d : String) (ts : List String) → contains ts (paths.fresh p d ts) ≡ false) where
    operations_keep :
        (operations : List Json) (source target : String) (disk : Disk D)
        → (materialize_operations py sqlite paths source target operations disk).0.temporaries
          ≡ disk.temporaries
    unfolding materialize_operations make_directory remove_directory
    operations_keep [] source target disk = plain_keeps source target disk
    operations_keep (operation ∷ []) source target disk =
        operation_keeps source target operation disk
    operations_keep (operation ∷ second ∷ later) source target disk =
        let prefix : String = "driftsql-schema-chain-" in
        let name = paths.fresh prefix (paths.parent target) disk.temporaries in
        ap (keep (λ t. not (t == name))) (
          chain_keeps name target (operation ∷ second ∷ later) 0 source
            (make_directory paths prefix (paths.parent target) disk).1)
        ∙ keep_new name disk.temporaries (new prefix (paths.parent target) disk.temporaries)

    pub materialize_keeps :
        (source target : String) (diff : Json) (disk : Disk D)
        → (materialize_schema_diff py sqlite paths source target diff disk).0.temporaries
          ≡ disk.temporaries
    unfolding materialize_schema_diff
    materialize_keeps source target diff disk = elim (Result-cases (operations_of diff)) [
      | inl (operations, e) ↦
          rw (materialize_schema_diff, e)
            (operations_keep operations (paths.resolve source) (paths.resolve target) disk)
      | inr (x, e) ↦ rw (materialize_schema_diff, e) refl
    ]
