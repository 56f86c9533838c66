-- ===== src/Drift/Requests.antt =====
-- The operations of a schema diff, as `_materialize_schema_operation` of factory.py reads them, and
-- the statements that each one takes.
use drift_sql.Prelude.{
  String, ◌<>◌, Bool, false, Option, none, some, List, [], ◌∷◌, ◌==◌, if◌then◌else◌,
}
use drift_sql.Result.{
  ◌>>=◌, or_raise, attribute_error, key_error, not_implemented, Result, ok, raised,
}
use drift_sql.Python.{Python, str_of, casefold}
use drift_sql.Python.Values.{Json, Fields, get, get_or, null, text, obj}
use drift_sql.Python.Text.{strip}
use drift_sql.Drift.Identifiers.{quote_identifier}

-- An operation of a schema diff, with the arguments that its type takes.
pub data Request : Type 0 where
  -- the table, the old and the new name
  column_rename : String → String → String → Request
  -- the old and the new name
  table_rename : String → String → Request
  -- the table, the old and the new name, and the declared type
  column_replacement : String → String → String → String → Request
  -- the table, the new name, the declared type and the default
  column_addition : String → String → String → String → Request
  definition_change : Request

abbrev pub journal_mode : Result String
journal_mode = ok "PRAGMA journal_mode = DELETE"

-- The statements of each kind, whose f-strings raise where an identifier cannot be quoted.
unfoldable pub rename_column_sql : String → String → String → Result String
rename_column_sql table old_name new_name = do
  t ← quote_identifier table
  o ← quote_identifier old_name
  n ← quote_identifier new_name
  ok ("ALTER TABLE " <> (t <> (" RENAME COLUMN " <> (o <> (" TO " <> n)))))

unfoldable pub rename_table_sql : String → String → Result String
rename_table_sql old_name new_name = do
  o ← quote_identifier old_name
  n ← quote_identifier new_name
  ok ("ALTER TABLE " <> (o <> (" RENAME TO " <> n)))

unfoldable pub add_column_sql : String → String → String → Result String
add_column_sql table new_name definition = do
  t ← quote_identifier table
  n ← quote_identifier new_name
  ok ("ALTER TABLE " <> (t <> (" ADD COLUMN " <> (n <> (" " <> definition)))))

unfoldable pub copy_column_sql : String → String → String → Result String
copy_column_sql table old_name new_name = do
  t ← quote_identifier table
  n ← quote_identifier new_name
  o ← quote_identifier old_name
  ok ("UPDATE " <> (t <> (" SET " <> (n <> (" = " <> o)))))

unfoldable pub drop_column_sql : String → String → Result String
drop_column_sql table old_name = do
  t ← quote_identifier table
  o ← quote_identifier old_name
  ok ("ALTER TABLE " <> (t <> (" DROP COLUMN " <> o)))

module _ (py : Python) where
  -- `next((type for each row if its name matches), None)`
  unfoldable pub declared_as : String → List (String × String) → Option String
  declared_as name [] = none
  declared_as name ((column, kind) ∷ rows) =
      let others = declared_as name rows in
      if casefold py column == casefold py name then some (casefold py (strip kind)) else others

  -- `source_type == declared_type.strip().casefold()`
  unfoldable pub is_same_type : String → Option String → Bool
  is_same_type kind none = false
  is_same_type kind (some known) = known == casefold py (strip kind)

  abbrev argument : String → Fields → Result String
  argument key d = do v ← or_raise (key_error key) (get key d); ok (str_of py v)

  abbrev is_type : String → Fields → Bool
  is_type name d = elim (get_or "type" null d) [ text s ↦ s == name | _ ↦ false ]

  -- The dispatch of `_materialize_schema_operation` on the type.
  unfoldable pub request_of : Json → Result Request
  request_of (obj d) =
      if is_type "rename_column" d
      then (do
        table ← argument "table" d
        old_name ← argument "old_name" d
        new_name ← argument "new_name" d
        ok (column_rename table old_name new_name))
      else if is_type "rename_table" d
      then (do
        old_name ← argument "old_name" d
        new_name ← argument "new_name" d
        ok (table_rename old_name new_name))
      else if is_type "replace_column" d
      then (do
        table ← argument "table" d
        old_name ← argument "old_name" d
        new_name ← argument "new_name" d
        ok (
            column_replacement table old_name new_name
              (str_of py (get_or "declared_type" (text "TEXT") d))))
      else if is_type "add_column" d
      then (do
        table ← argument "table" d
        new_name ← argument "new_name" d
        ok (
            column_addition table new_name (str_of py (get_or "declared_type" (text "INTEGER") d))
              (str_of py (get_or "default_sql" (text "0") d))))
      else if is_type "metric_definition_change" d
      then ok definition_change
      else raised (not_implemented (str_of py (get_or "type" null d)))
  request_of _ = raised attribute_error
