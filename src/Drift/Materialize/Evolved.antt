-- ===== src/Drift/Materialize/Evolved.antt =====
-- The specification of a schema diff: the databases that its operations lead to.
use drift_sql.Prelude.{String, ◌<>◌, ◌≡◌, refl, ◌∙◌, false, Option, none, some, List, [], ◌∷◌, ◌==◌}
use drift_sql.Result.{Error, ◌>>=◌, Result, ok, raised}
use drift_sql.Python.{Python}
use drift_sql.Python.Values.{Json}
use drift_sql.Service.Toolbox.{lookup, set, lookup-set}
use drift_sql.Drift.Requests.{
  Request, journal_mode, rename_column_sql, rename_table_sql, add_column_sql, request_of,
  column_rename, table_rename, column_replacement, column_addition, definition_change,
}
use drift_sql.Drift.Disk.{Disk, Sqlite, after, write_file, copy_database, lookup-set_other}
use drift_sql.Drift.Materialize.{
  connect_to, alter_copy, replacement_sql, materialize_column_rename, materialize_table_rename,
  materialize_column_replacement, materialize_column_addition, plain_copy, carry_out,
  carry_out_read, materialize_operation,
}

abbrev settled : {D : Type 0} → D × Option Error → Result D
settled (d, none) = ok d
settled (d, some e) = raised e

module _ {S : Type 0} where
  pub after-none :
      (r : S × Option Error) (f : S → S × Option Error) → r.1 ≡ none → after r f ≡ f r.0
  unfolding after
  after-none (s, none) f h = refl
  after-none (s, some e) f h = cc

  pub after-some :
      (r : S × Option Error) (f : S → S × Option Error) {e : Error}
      → r.1 ≡ some e
      → after r f ≡ (r.0, some e)
  unfolding after
  after-some (s, none) f h = cc
  after-some (s, some e) f h = rw h refl

module _ {D : Type 0} where
  -- The file at the target holds the result, or the exception is the same.
  abbrev pub Matches : String → Result D → Disk D × Option Error → Type 0
  Matches target (ok d) r = (r.1 ≡ none) × (lookup target r.0.files ≡ some d)
  Matches target (raised e) r = r.1 ≡ some e

  abbrev pub Unchanged : String → Disk D → Disk D → Type 0
  Unchanged target before later =
      (p : String) → (target == p) ≡ false → lookup p later.files ≡ lookup p before.files

module _ (py : Python) {D : Type 0} (sqlite : Sqlite D) where
  -- What an operation makes of a database.
  unfoldable pub apply : Request → D → Result D
  unfolding rename_column_sql rename_table_sql add_column_sql replacement_sql
  apply (column_rename table old_name new_name) d =
      settled (sqlite.session (journal_mode ∷ rename_column_sql table old_name new_name ∷ []) d)
  apply (table_rename old_name new_name) d =
      settled (sqlite.session (journal_mode ∷ rename_table_sql old_name new_name ∷ []) d)
  apply (column_replacement table old_name new_name declared_type) d =
      settled (sqlite.session (replacement_sql py sqlite table old_name new_name declared_type d) d)
  apply (column_addition table new_name declared_type default_sql) d = settled (
      sqlite.session
        (journal_mode
          ∷ add_column_sql table new_name (declared_type <> (" NOT NULL DEFAULT " <> default_sql))
          ∷ [])
        d)
  apply definition_change d = ok d

  abbrev pub evolve_one : Json → D → Result D
  evolve_one operation d = request_of py operation >>= (λ r. apply r d)

  -- What the operations make of a database, without any files: the specification.
  unfoldable pub evolve : List Json → D → Result D
  unfolding apply request_of
  evolve [] d = ok d
  evolve (operation ∷ later) d = evolve_one operation d >>= evolve later

  -- One copy, with its session.
  session-Matches :
      (target : String) (d : D) (disk : Disk D) (r : D × Option Error)
      → Matches target (settled r) (write_file target r.0 (write_file target d disk), r.1)
  session-Matches target d disk (d', none) = (refl, lookup-set target d' (set target d disk.files))
  session-Matches target d disk (d', some e) = refl

  written_twice :
      (target : String) (d d' : D) (disk : Disk D)
      → Unchanged target disk (write_file target d' (write_file target d disk))
  written_twice target d d' disk p h =
      lookup-set_other target p d' (set target d disk.files) h
      ∙ lookup-set_other target p d disk.files h

  copied :
      (source target : String) (disk : Disk D) (d : D)
      → lookup source disk.files ≡ some d
      → copy_database source target disk ≡ (write_file target d disk, none)
  unfolding copy_database
  copied source target disk d h = rw (copy_database, h) refl

  connected :
      (target : String) (statements : D → List (Result String)) (disk : Disk D) (d : D)
      → lookup target disk.files ≡ some d
      → connect_to py sqlite target statements disk ≡ (
        write_file target (sqlite.session (statements d) d).0 disk,
        (sqlite.session (statements d) d).1,
      )
  unfolding connect_to
  connected target statements disk d h = rw (connect_to, h) refl

  alter_copy-Matches :
      (source target : String) (statements : D → List (Result String)) (disk : Disk D) (d : D)
      → lookup source disk.files ≡ some d
      → lookup target disk.files ≡ none
      → Matches target
          (settled (sqlite.session (statements d) d))
          (alter_copy py sqlite source target statements disk)
        × Unchanged target disk (alter_copy py sqlite source target statements disk).0
  unfolding alter_copy after
  alter_copy-Matches source target statements disk d h k =
      rw
        (
          k,
          copied source target disk d h,
          connected target statements (write_file target d disk) d (lookup-set target d disk.files),
        )
        (
          session-Matches target d disk (sqlite.session (statements d) d),
          written_twice target d (sqlite.session (statements d) d).0 disk,
        )

  pub plain_copy-Matches :
      (source target : String) (disk : Disk D) (d : D)
      → lookup source disk.files ≡ some d
      → lookup target disk.files ≡ none
      → Matches target (ok d) (plain_copy py sqlite source target disk)
        × Unchanged target disk (plain_copy py sqlite source target disk).0
  unfolding plain_copy
  plain_copy-Matches source target disk d h k =
      rw (k, copied source target disk d h)
        ((refl, lookup-set target d disk.files), (λ p n. lookup-set_other target p d disk.files n))

  carry_out-Matches :
      (source target : String) (request : Request) (disk : Disk D) (d : D)
      → lookup source disk.files ≡ some d
      → lookup target disk.files ≡ none
      → Matches target (apply request d) (carry_out py sqlite source target request disk)
        × Unchanged target disk (carry_out py sqlite source target request disk).0
  unfolding carry_out apply materialize_column_rename materialize_table_rename
      materialize_column_replacement materialize_column_addition
  carry_out-Matches source target (column_rename table old_name new_name) disk d h k =
      alter_copy-Matches source target _ disk d h k
  carry_out-Matches source target (table_rename old_name new_name) disk d h k =
      alter_copy-Matches source target _ disk d h k
  carry_out-Matches source target (column_replacement table old_name new_name kind) disk d h k =
      alter_copy-Matches source target _ disk d h k
  carry_out-Matches source target (column_addition table new_name kind default) disk d h k =
      alter_copy-Matches source target _ disk d h k
  carry_out-Matches source target definition_change disk d h k =
      plain_copy-Matches source target disk d h k

  read-Matches :
      (source target : String) (r : Result Request) (disk : Disk D) (d : D)
      → lookup source disk.files ≡ some d
      → lookup target disk.files ≡ none
      → Matches target
          (r >>= (λ request. apply request d))
          (carry_out_read py sqlite source target r disk)
        × Unchanged target disk (carry_out_read py sqlite source target r disk).0
  read-Matches source target (raised e) disk d h k = (refl, (λ p n. refl))
  read-Matches source target (ok request) disk d h k =
      carry_out-Matches source target request disk d h k

  pub materialize_operation-Matches :
      (source target : String) (operation : Json) (disk : Disk D) (d : D)
      → lookup source disk.files ≡ some d
      → lookup target disk.files ≡ none
      → Matches target
          (evolve_one operation d)
          (materialize_operation py sqlite source target operation disk)
        × Unchanged target disk (materialize_operation py sqlite source target operation disk).0
  unfolding materialize_operation
  materialize_operation-Matches source target operation disk d h k =
      read-Matches source target (request_of py operation) disk d h k
