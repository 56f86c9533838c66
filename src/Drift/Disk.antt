-- ===== src/Drift/Disk.antt =====
-- The files and the temporary directories that factory.py and verl_tools.py make and remove, and
-- what they take from the operating system and from SQLite.
use drift_sql.Prelude.{
  String, ◌<>◌, ◌≡◌, refl, inl, inr, Bool, false, not, Option, none, some, List, [], ◌∷◌, arith,
  ◌==◌, eq_iff, Bool-cases, keep,
}
use drift_sql.Result.{Error, is_some, file_not_found, Result}
use drift_sql.Python.Values.{ℤ, Json}
use drift_sql.Service.Toolbox.{Dict, lookup, set}
use drift_sql.Verl.Terms.{is_prefix}

-- The database files by their resolved paths, and the temporary directories that stand.
pub record Disk (D : Type 0) : Type 0 where
  pub files : Dict D
  pub temporaries : List String

pub record Paths : Type 0 where
  -- `Path(path).resolve()` and `path.parent`
  pub resolve : String → String
  pub parent : String → String
  -- the resolved name that `TemporaryDirectory(prefix=..., dir=...)` finds next to those that stand
  pub fresh : String → String → List String → String
  -- `os.environ.get("DRIFTSQL_TMPDIR")`, or else the system's directory
  pub tmpdir : String

pub record Sqlite (D : Type 0) : Type 0 where
  -- `with sqlite3.connect(path) as connection:` and these statements, where one that raises ends the
  -- session: what the file holds after it
  pub session : List (Result String) → D → D × Option Error
  -- the name and the declared type of each column, by `PRAGMA table_info("table")`
  pub table_info : String → D → List (String × String)
  -- `_ordered_sqlite_schema(database)`: the columns of the tables, in order
  pub tables : D → Dict (List String)
  -- what `source_connection.backup(target_connection)` writes
  pub backup : D → Result D
  -- every row of a query on a connection that only reads, within so many seconds
  pub stream : String → Json → D → Result (List Json)
  -- the columns and the rows of `fetchmany`, where the authorizer denies every change
  pub fetch : String → Json → ℤ → D → Result (List String × List Json)

-- `hashlib.sha256(...).hexdigest()`, and `repr(tuple(row))`
pub record Hashing : Type 0 where
  pub sha256 : String → String
  pub repr_row : Json → String

-- One step after another, the first exception ends them; what was changed stays changed.
unfoldable pub after : {S : Type 0} → S × Option Error → (S → S × Option Error) → S × Option Error
after (s, some e) next = (s, some e)
after (s, none) next = next s

-- `a / b`
abbrev pub inside : String → String → String
inside dir name = dir <> ("/" <> name)

module _ {D : Type 0} where
  -- `path.exists()`
  abbrev pub exists : String → Disk D → Bool
  exists path disk = is_some (lookup path disk.files)

  abbrev pub write_file : String → D → Disk D → Disk D
  write_file path content disk = record {
    files = set path content disk.files;
    temporaries = disk.temporaries;
  }

  -- `TemporaryDirectory(prefix=prefix, dir=dir)`
  unfoldable pub make_directory : Paths → String → String → Disk D → String × Disk D
  make_directory paths prefix dir disk =
      let name = paths.fresh prefix dir disk.temporaries in
      (name, record { files = disk.files; temporaries = name ∷ disk.temporaries })

  -- `temporary.cleanup()`: the directory, and the files under it.
  unfoldable pub remove_directory : String → Disk D → Disk D
  unfolding is_prefix
  remove_directory dir disk = record {
    files = keep (λ (f : String × D). not (is_prefix (dir <> "/") f.0)) disk.files;
    temporaries = keep (λ t. not (t == dir)) disk.temporaries;
  }

  -- `_copy_database`
  unfoldable pub copy_database : String → String → Disk D → Disk D × Option Error
  copy_database source target disk =
      elim (lookup source disk.files) as (λ o. Disk D × Option Error) [
        | none ↦ (disk, some (file_not_found source))
        | some content ↦ (write_file target content disk, none)
      ]

pub lookup-set_other :
    {A : Type 0} (key other : String) (value : A) (d : Dict A)
    → (key == other) ≡ false
    → lookup other (set key value d) ≡ lookup other d
unfolding lookup set
lookup-set_other key other value [] h = rw h refl
lookup-set_other key other value ((k, v) ∷ rest) h = elim (Bool-cases (k == key)) [
  | inl y ↦ rw y (ground (arith, eq_iff k key, eq_iff k other))
  | inr n ↦ rw n (ground (arith, lookup-set_other key other value rest h))
]
