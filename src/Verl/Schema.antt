-- ===== src/Verl/Schema.antt =====
-- `GetSchemaVersionTool` and `GetSchemaTool` of verl_tools.py: the versions of the active database,
-- and the tables of its schema that a query asks for.
pub mod Blocks
use drift_sql.Prelude.{
  ℕ, zero, suc, ◌-◌, String, ◌<>◌, Bool, true, false, not, ◌&&◌, Option, none, some, List, [], ◌∷◌,
  map, ltb, eqb, if◌then◌else◌, keep, ranked,
}
use drift_sql.Result.{◌>>=◌, or_raise, key_error, Result, ok}
use drift_sql.Python.{Python, str_of, int_of}
use drift_sql.Python.Values.{
  ℤ, Fields, get, get_or, pos, negsuc, null, bool, int, text, obj, end, field,
}
use drift_sql.Python.Text.{is_space, strip, text_length, text_take}
use drift_sql.Service.Toolbox.{Dict}
use drift_sql.Verl.Terms.{terms, overlap, is_prefix, is_blank}
use drift_sql.Verl.Instances.{Files, Answer, no_reward, state_of}
use Prim.Native.Char.{Char, code}

-- `s[:z]` of a text
unfoldable pub text_slice : ℤ → String → String
unfolding text_length text_take
text_slice (pos n) s = text_take n s
text_slice (negsuc n) s = text_take (text_length s - suc n) s

-- `len(s) > z`
unfoldable pub is_longer : ℤ → String → Bool
unfolding text_length
is_longer (pos n) s = ltb n (text_length s)
is_longer (negsuc n) s = true

-- The length of the white space that starts here, if it ends in a newline and a table follows:
-- `\s*\n(?=CREATE TABLE)`, of which `seen` characters have been read.
unfoldable pub gap_length : ℕ → Bool → String → Option ℕ
unfolding is_prefix is_space
gap_length seen newline String.[] = none
gap_length seen newline (String.◌∷◌ c s) =
    let longer = gap_length (suc seen) (eqb (code c) b'\n') s in
    if is_space c
    then longer
    else if newline && is_prefix "CREATE TABLE" (String.◌∷◌ c s)
    then some seen
    else none

-- Where a gap starts, at a newline.
unfoldable pub gap_at : Char → String → Option ℕ
unfolding gap_length
gap_at c s = if eqb (code c) b'\n' then gap_length 0 false s else none

-- `re.split(r"\n\s*\n(?=CREATE TABLE)", schema)`: so many characters of a gap are still to skip, and
-- `run` is the block that is open.
unfoldable pub split_from : ℕ → String → String → List String
unfolding gap_at
split_from (suc skip) run String.[] = run ∷ []
split_from (suc skip) run (String.◌∷◌ c s) = split_from skip run s
split_from zero run String.[] = run ∷ []
split_from zero run (String.◌∷◌ c s) =
    let same = split_from zero (run <> String.◌∷◌ c "") s in
    elim (gap_at c s) [ none ↦ same | some n ↦ run ∷ split_from n "" s ]

-- The blocks of a schema, trimmed, without the blank ones.
unfoldable pub blocks_of : String → List String
unfolding split_from strip
blocks_of schema = map strip (keep (λ b. not (is_blank (strip b))) (split_from 0 "" schema))

-- `"\n\n".join(blocks)`
unfoldable pub join_blocks : List String → String
join_blocks [] = ""
join_blocks (b ∷ []) = b
join_blocks (b ∷ c ∷ bs) = b <> ("\n\n" <> join_blocks (c ∷ bs))

module _ (py : Python) where
  -- `execute` of `GetSchemaVersionTool`
  unfoldable pub show_version : String → Dict Fields → Result Answer
  unfolding state_of
  show_version id d = do
    s ← state_of id d
    db ← or_raise (key_error "db_id") (get "db_id" s)
    ok (
      py.dumps (
          obj (
            field "db_id" db (
              field "db_version" (get_or "db_version" null s)
                (field "metric_version" (get_or "metric_version" null s) end)))),
      no_reward,
      field "schema_version_checked" (bool true) end,
    )

  abbrev pub common_terms : String → String → ℕ
  common_terms query block = overlap (terms py query) (terms py block)

  abbrev pub shares_more : String → String → String → Bool
  shares_more query a b = ltb (common_terms query b) (common_terms query a)

  -- The blocks in the order of the terms that they share with the query; those that share none
  -- only where all share none.
  unfoldable pub matching_blocks : String → List String → List String
  unfolding terms overlap ranked
  matching_blocks query blocks =
      let order = ranked (shares_more query) blocks in
      let positive = keep (λ b. ltb 0 (common_terms query b)) order in
      if is_blank query
      then blocks
      else elim positive as (λ p. List String) [ [] ↦ order | b ∷ bs ↦ positive ]

  abbrev pub no_schema : Answer
  no_schema = (
    "No schema asset is available for this trajectory.",
    no_reward,
    field "schema_retrieved" (bool false) end,
  )

  abbrev pub schema_answer : String → ℤ → String → Answer
  schema_answer query maximum selected = (
    py.dumps (
        obj (
          field "query" (text query) (
            field "schema" (text (text_slice maximum selected))
              (field "truncated" (bool (is_longer maximum selected)) end)))),
    no_reward,
    field "schema_retrieved" (bool true) (
        field "schema_query_used" (bool (not (is_blank query)))
          (field "schema_truncated" (bool (is_longer maximum selected)) end)),
  )

  unfoldable pub select_schema : Fields → Fields → String → Result Answer
  unfolding matching_blocks blocks_of join_blocks text_slice is_longer
  select_schema config parameters schema = do
    let query = strip (str_of py (get_or "query" (text "") parameters))
    maximum ← int_of py (get_or "max_chars" (int (pos 12000)) config)
    ok (schema_answer query maximum (join_blocks (matching_blocks query (blocks_of schema))))

module _ (py : Python) (files : Files) where
  -- The schema of the state, or else that of its file.
  unfoldable pub schema_text : Fields → String
  schema_text s =
      let inline = str_of py (get_or "schema" (text "") s) in
      let path = str_of py (get_or "schema_path" (text "") s) in
      if is_blank inline
      then if files.is_file path then files.read_text path else inline
      else inline

  -- `execute` of `GetSchemaTool`
  unfoldable pub show_schema : Fields → String → Fields → Dict Fields → Result Answer
  unfolding state_of schema_text select_schema
  show_schema config id parameters d = do
    s ← state_of id d
    let schema = schema_text s
    if is_blank schema then ok (no_schema py) else select_schema py config parameters schema
