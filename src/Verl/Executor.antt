-- ===== src/Verl/Executor.antt =====
-- `VersionedSqlExecutorTool` of verl_tools.py: the database that each trajectory queries, and its
-- temporary directory.
pub mod Owned
pub mod Clean
pub mod Serve
use drift_sql.Prelude.{String, ◌<>◌, true, false, not, Option, none, some, if◌then◌else◌}
use drift_sql.Result.{Error, value_error, file_not_found, sql_error, Result, ok, raised}
use drift_sql.Python.{Python, str_of}
use drift_sql.Python.Values.{Fields, get_or, put, truthy, flag, null, bool, text}
use drift_sql.Service.Toolbox.{Dict, lookup, remove, set}
use drift_sql.Drift.Disk.{
  Disk, Paths, Sqlite, inside, exists, write_file, make_directory, remove_directory,
}
use drift_sql.Drift.Materialize.{materialize_schema_diff}
use drift_sql.Verl.Instances.{holds_instance}

-- An instance: its dict, and the `TemporaryDirectory` that is kept under "_temporary".
pub record Session : Type 0 where
  pub fields : Fields
  pub temporary : Option String

-- The instance that the arguments make, with nothing temporary.
abbrev pub new_session : Fields → Session
new_session kwargs = record { fields = kwargs; temporary = none }

abbrev pub temporary_of : Option Session → Option String
temporary_of none = none
temporary_of (some s) = s.temporary

-- The instances of the tool, and the disk that it works on.
pub record Executor (D : Type 0) : Type 0 where
  pub instances : Dict Session
  pub disk : Disk D

module _ {D : Type 0} where
  abbrev pub with_instances : Dict Session → Executor D → Executor D
  with_instances d x = record { instances = d; disk = x.disk }

  abbrev pub with_disk : Disk D → Executor D → Executor D
  with_disk disk x = record { instances = x.instances; disk = disk }

  -- The instance is dropped: `super().release(instance_id)`.
  unfoldable pub forget : String → Executor D → Executor D
  unfolding remove
  forget id x = with_instances (remove id x.instances) x

  -- What the session is to be when its database is ready.
  unfoldable pub ready : String → Fields → Option String → Executor D → Executor D
  unfolding set
  ready id fields temporary x =
      with_instances (set id (record { fields = fields; temporary = temporary }) x.instances) x

  -- A database was put into a new directory; if that failed, neither the directory nor the instance
  -- stays.
  unfoldable pub settle_directory :
      String → String → Fields → Executor D → Disk D × Option Error → Executor D × Option Error
  unfolding forget ready remove_directory
  settle_directory id directory fields x (disk, none) =
      (ready id fields (some directory) (with_disk disk x), none)
  settle_directory id directory fields x (disk, some e) =
      (forget id (with_disk (remove_directory directory disk) x), some e)

  -- `if state and state.get("_temporary"): ...cleanup()`
  unfoldable pub cleaned : Option String → Executor D → Executor D
  unfolding remove_directory
  cleaned none x = x
  cleaned (some t) x = with_disk (remove_directory t x.disk) x

  -- `release`: the directory of the session goes with it.
  unfoldable pub release_executor : String → Executor D → Executor D
  unfolding forget cleaned
  release_executor id x = cleaned (temporary_of (lookup id x.instances)) (forget id x)

module _ (py : Python) {D : Type 0} (sqlite : Sqlite D) (paths : Paths) where
  -- `_backup_sqlite`
  abbrev pub backed_up : String → Disk D → Result D → Disk D × Option Error
  backed_up target disk (raised e) = (disk, some e)
  backed_up target disk (ok content) = (write_file target content disk, none)

  unfoldable pub backup_sqlite : String → String → Disk D → Disk D × Option Error
  backup_sqlite source target disk =
      elim (lookup source disk.files) as (λ o. Disk D × Option Error) [
        | none ↦ (disk, some (sql_error "unable to open database file"))
        | some content ↦ backed_up target disk (sqlite.backup content)
      ]

  abbrev pub text_at : String → Fields → String
  text_at key fields = str_of py (get_or key (text "") fields)

  -- A new directory, and in it the database of this name.
  unfoldable pub in_new_directory :
      String
      → String
      → Fields
      → (String → Fields → Fields)
      → (String → Disk D → Disk D × Option Error)
      → String
      → Executor D
      → Executor D × Option Error
  unfolding settle_directory make_directory
  in_new_directory prefix suffix fields finished produce id x =
      let (directory, made) = make_directory paths prefix paths.tmpdir x.disk in
      let target = inside directory (str_of py (get_or "db_id" null fields) <> suffix) in
      settle_directory id directory (finished target fields) x (produce target made)

  abbrev pub isolated_at : String → String → Fields → Fields
  isolated_at source target fields =
      put "session_isolated" (bool true)
        (put "db_path" (text target) (put "source_db_path" (text source) fields))

  abbrev pub shared_at : String → Fields → Fields
  shared_at source fields = put "session_isolated" (bool false) (put "db_path" (text source) fields)

  -- The database is there: a copy of it, or the database itself.
  unfoldable pub use_existing :
      Fields → String → Fields → String → Executor D → Executor D × Option Error
  unfolding in_new_directory backup_sqlite ready
  use_existing config existing fields id x =
      let isolate =
        truthy (get_or "isolate_db" (get_or "isolate_existing_db" (bool true) config) fields) in
      if isolate
      then in_new_directory "driftsql-session-" "__session.sqlite" fields (isolated_at existing)
          (backup_sqlite existing) id x
      else (ready id (shared_at existing fields) none x, none)

  abbrev pub materialized_at : String → Fields → Fields
  materialized_at target fields =
      put "session_isolated" (bool true) (put "db_path" (text target) fields)

  -- The database is made from its source and the schema diff.
  unfoldable pub use_source : Fields → String → Executor D → Executor D × Option Error
  unfolding in_new_directory materialize_schema_diff forget
  use_source fields id x =
      let source = paths.resolve (text_at "source_db" fields) in
      let diff = get_or "schema_diff" null fields in
      if not (exists source x.disk)
      then (forget id x, some (file_not_found source))
      else if not (truthy diff)
      then (forget id x, some (value_error "schema_diff is required in create_kwargs"))
      else in_new_directory "driftsql-rollout-" "__v2.sqlite" fields materialized_at
          (λ target disk. materialize_schema_diff py sqlite paths source target diff disk) id x

  unfoldable pub prepare : Fields → Fields → String → Executor D → Executor D × Option Error
  unfolding use_existing use_source
  prepare config fields id x =
      let existing = paths.resolve (text_at "db_path" fields) in
      if exists existing x.disk
      then use_existing config existing fields id x
      else use_source fields id x

  -- `create`
  unfoldable pub create_executor : Fields → String → Fields → Executor D → Executor D × Option Error
  unfolding prepare
  create_executor config id kwargs x =
      let made : Executor D × Option Error =
        prepare config kwargs id (with_instances (set id (new_session kwargs) x.instances) x) in
      if holds_instance id x.instances
      then (x, none)
      else if flag "db_id" kwargs
      then made
      else (x, some (value_error "db_id is required in create_kwargs"))
