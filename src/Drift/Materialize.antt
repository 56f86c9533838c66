-- ===== src/Drift/Materialize.antt =====
-- `materialize_schema_diff` of factory.py and what it calls: the operations of a schema diff, carried
-- out one after another on copies of a database.
pub mod Evolved
pub mod Chain
pub mod Refined
pub mod Directories
use drift_sql.Prelude.{ℕ, suc, String, ◌<>◌, Option, none, some, List, [], ◌∷◌, if◌then◌else◌}
use drift_sql.Result.{
  Error, attribute_error, type_error, file_not_found, file_exists, Result, ok, raised,
}
use drift_sql.Python.{Python, str_of}
use drift_sql.Python.Values.{
  Json, Fields, get_or, to_list, pos, int, text, arr, obj, nil, end, field,
}
use drift_sql.Service.Toolbox.{lookup}
use drift_sql.Drift.Requests.{
  Request, journal_mode, rename_column_sql, rename_table_sql, add_column_sql, copy_column_sql,
  drop_column_sql, declared_as, is_same_type, request_of, column_rename, table_rename,
  column_replacement, column_addition, definition_change,
}
use drift_sql.Drift.Disk.{
  Disk, Paths, Sqlite, after, inside, exists, write_file, make_directory, remove_directory,
  copy_database,
}

module _ (py : Python) where
  -- `Path(directory) / f"operation-{index}.sqlite"`
  abbrev pub intermediate : String → ℕ → String
  intermediate directory index =
      inside directory ("operation-" <> (str_of py (int (pos index)) <> ".sqlite"))

  -- The target is written by the last operation.
  abbrev pub destination : String → String → ℕ → List Json → String
  destination directory target index [] = target
  destination directory target index (later ∷ others) = intermediate directory index

module _ (py : Python) {D : Type 0} (sqlite : Sqlite D) where
  -- The connection to the file of a copy: its statements may depend on what it holds.
  unfoldable pub connect_to : String → (D → List (Result String)) → Disk D → Disk D × Option Error
  connect_to target statements disk =
      elim (lookup target disk.files) as (λ o. Disk D × Option Error) [
        | none ↦ (disk, some (file_not_found target))
        | some content ↦
            let (changed, failure) = sqlite.session (statements content) content in
            (write_file target changed disk, failure)
      ]

  -- `if target.exists(): raise`, then the copy, then the statements.
  unfoldable pub alter_copy :
      String → String → (D → List (Result String)) → Disk D → Disk D × Option Error
  unfolding copy_database connect_to after
  alter_copy source target statements disk =
      let changed = after (copy_database source target disk) (connect_to target statements) in
      if exists target disk then (disk, some (file_exists target)) else changed

  -- The statements of a replacement: a new name where the declared type stays.
  unfoldable pub replacement_sql : String → String → String → String → D → List (Result String)
  unfolding rename_column_sql add_column_sql copy_column_sql drop_column_sql
  replacement_sql table old_name new_name declared_type content =
      if is_same_type py declared_type (declared_as py old_name (sqlite.table_info table content))
      then journal_mode ∷ rename_column_sql table old_name new_name ∷ []
      else journal_mode
        ∷ add_column_sql table new_name declared_type
        ∷ copy_column_sql table old_name new_name
        ∷ drop_column_sql table old_name
        ∷ []

  unfoldable pub materialize_column_rename :
      String → String → String → String → String → Disk D → Disk D × Option Error
  unfolding alter_copy rename_column_sql
  materialize_column_rename source target table old_name new_name =
      alter_copy source target
        (λ content. journal_mode ∷ rename_column_sql table old_name new_name ∷ [])

  unfoldable pub materialize_table_rename :
      String → String → String → String → Disk D → Disk D × Option Error
  unfolding alter_copy rename_table_sql
  materialize_table_rename source target old_name new_name =
      alter_copy source target (λ content. journal_mode ∷ rename_table_sql old_name new_name ∷ [])

  unfoldable pub materialize_column_replacement :
      String → String → String → String → String → String → Disk D → Disk D × Option Error
  unfolding alter_copy replacement_sql
  materialize_column_replacement source target table old_name new_name declared_type =
      alter_copy source target (replacement_sql table old_name new_name declared_type)

  unfoldable pub materialize_column_addition :
      String → String → String → String → String → String → Disk D → Disk D × Option Error
  unfolding alter_copy add_column_sql
  materialize_column_addition source target table new_name declared_type default_sql =
      alter_copy source target (λ content.
        journal_mode
        ∷ add_column_sql table new_name (declared_type <> (" NOT NULL DEFAULT " <> default_sql))
        ∷ [])

  -- A copy that nothing changes.
  unfoldable pub plain_copy : String → String → Disk D → Disk D × Option Error
  unfolding copy_database
  plain_copy source target disk =
      let copied = copy_database source target disk in
      if exists target disk then (disk, some (file_exists target)) else copied

  unfoldable pub carry_out : String → String → Request → Disk D → Disk D × Option Error
  unfolding materialize_column_rename materialize_table_rename materialize_column_replacement
  carry_out source target (column_rename table old_name new_name) =
      materialize_column_rename source target table old_name new_name
  carry_out source target (table_rename old_name new_name) =
      materialize_table_rename source target old_name new_name
  carry_out source target (column_replacement table old_name new_name declared_type) =
      materialize_column_replacement source target table old_name new_name declared_type
  carry_out source target (column_addition table new_name declared_type default_sql) =
      materialize_column_addition source target table new_name declared_type default_sql
  carry_out source target definition_change = plain_copy source target

  abbrev pub carry_out_read : String → String → Result Request → Disk D → Disk D × Option Error
  carry_out_read source target (raised e) disk = (disk, some e)
  carry_out_read source target (ok request) disk = carry_out source target request disk

  -- `_materialize_schema_operation`
  unfoldable pub materialize_operation : String → String → Json → Disk D → Disk D × Option Error
  unfolding request_of carry_out
  materialize_operation source target operation =
      carry_out_read source target (request_of py operation)

  -- The loop over the operations.
  unfoldable pub chain : String → String → List Json → ℕ → String → Disk D → Disk D × Option Error
  unfolding materialize_operation after
  chain directory target [] index current disk = (disk, none)
  chain directory target (operation ∷ later) index current disk =
      let next = destination py directory target index later in
      after (materialize_operation current next operation disk)
        (chain directory target later (suc index) next)

  unfoldable pub materialize_operations :
      Paths → String → String → List Json → Disk D → Disk D × Option Error
  unfolding chain make_directory remove_directory plain_copy
  materialize_operations paths source target [] disk = plain_copy source target disk
  materialize_operations paths source target (operation ∷ []) disk =
      materialize_operation source target operation disk
  materialize_operations paths source target (operation ∷ second ∷ later) disk =
      let (directory, made) =
        make_directory paths "driftsql-schema-chain-" (paths.parent target) disk in
      let (changed, failure) = chain directory target (operation ∷ second ∷ later) 0 source made in
      (remove_directory directory changed, failure)

-- `tuple(value)`
unfoldable pub tuple_of : Json → Result (List Json)
tuple_of (arr items) = ok (to_list items)
tuple_of (obj d) = ok (keys d)
  where
    keys : Fields → List Json
    keys end = []
    keys (field k v rest) = text k ∷ keys rest
tuple_of (text s) = ok (characters s)
  where
    characters : String → List Json
    characters String.[] = []
    characters (String.◌∷◌ c s) = text (String.◌∷◌ c "") ∷ characters s
tuple_of _ = raised type_error

unfoldable pub operations_of : Json → Result (List Json)
unfolding tuple_of
operations_of (obj diff) = tuple_of (get_or "operations" (arr nil) diff)
operations_of _ = raised attribute_error

-- `materialize_schema_diff` of a diff that is a dict
unfoldable pub materialize_schema_diff :
    {D : Type 0}
    → Python
    → Sqlite D
    → Paths
    → String
    → String
    → Json
    → Disk D
    → Disk D × Option Error
unfolding materialize_operations operations_of
materialize_schema_diff {D} py sqlite paths source target diff disk =
    elim (operations_of diff) as (λ r. Disk D × Option Error) [
      | raised e ↦ (disk, some e)
      | ok operations ↦
          materialize_operations py sqlite paths (paths.resolve source) (paths.resolve target)
            operations disk
    ]
