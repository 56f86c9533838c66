-- ===== src/Verl/Box.antt =====
-- The tools of verl_tools.py together, as driftsql/service/inference/tools.py calls them by their names:
-- an instance of the interface of the tool runtime.
pub mod Entered
pub mod Ran
pub mod Tracked
mod Tests
use drift_sql.Prelude.{String, Bool, false, Option, none, some, [], map}
use drift_sql.Result.{Error, ◌>>=◌, or_raise, key_error, sql_error, Result, ok, raised}
use drift_sql.Python.{Python}
use drift_sql.Python.Values.{Fields, end}
use drift_sql.Service.Toolbox.{Dict, lookup, remove, set, Toolbox}
use drift_sql.Drift.Disk.{Disk, Paths, Sqlite, Hashing, exists}
use drift_sql.Verl.Instances.{Files, Answer, holds_instance, create_instance}
use drift_sql.Verl.Asking.{create_asking, execute_asking}
use drift_sql.Verl.Schema.{show_version, show_schema}
use drift_sql.Verl.Knowledge.{create_knowledge, show_knowledge}
use drift_sql.Verl.Inspecting.{Sources, inspect_schema_diff}
use drift_sql.Verl.Executor.{Session, Executor, release_executor, create_executor}
use drift_sql.Verl.Execution.{Host, execute_query, submit_solution}
use drift_sql.Planning.{Trees}

-- The classes of the tools.
pub data Kind : Type 0 where
  gets_version gets_schema inspects asks knows executes submits : Kind

-- A tool: its class, and its configuration.
pub record Tool : Type 0 where
  pub kind : Kind
  pub config : Fields

-- The instances of each tool, by its name, and the disk that they share.
pub record Shelf (D : Type 0) : Type 0 where
  pub plain : Dict (Dict Fields)
  pub sessions : Dict (Dict Session)
  pub disk : Disk D

unfoldable pub instances_at : {A : Type 0} → String → Dict (Dict A) → Dict A
unfolding lookup
instances_at name d = elim (lookup name d) [ none ↦ [] | some instances ↦ instances ]

module _ {D : Type 0} where
  abbrev pub executor_at : String → Shelf D → Executor D
  executor_at name s = record { instances = instances_at name s.sessions; disk = s.disk }

  abbrev pub with_executor : String → Executor D → Shelf D → Shelf D
  with_executor name x s = record {
    plain = s.plain;
    sessions = set name x.instances s.sessions;
    disk = x.disk;
  }

  abbrev pub with_plain : String → Dict Fields → Shelf D → Shelf D
  with_plain name d s = record { plain = set name d s.plain; sessions = s.sessions; disk = s.disk }

  abbrev pub holds_kind : Kind → String → String → Shelf D → Bool
  holds_kind executes name id s = holds_instance id (instances_at name s.sessions)
  holds_kind _ name id s = holds_instance id (instances_at name s.plain)

  -- `release` of a tool of this class
  unfoldable pub release_kind : Kind → String → String → Shelf D → Shelf D
  unfolding release_executor remove
  release_kind executes name id s = with_executor name (release_executor id (executor_at name s)) s
  release_kind _ name id s = with_plain name (remove id (instances_at name s.plain)) s

-- What a `create` that changes nothing when it raises leaves.
abbrev pub created_as : Dict Fields → Result (Dict Fields) → Dict Fields × Option Error
created_as d (raised e) = (d, some e)
created_as d (ok made) = (made, none)

-- What the tools take from the machine.
pub record Machine (D : Type 0) : Type 0 where
  pub sqlite : Sqlite D
  pub paths : Paths
  pub hashing : Hashing
  pub host : Host
  pub files : Files
  pub trees : Trees

module _ (py : Python) {D : Type 0} (machine : Machine D) where
  -- `create` of a tool of this class
  unfoldable pub create_by : Kind → String → Fields → Dict Fields → Dict Fields × Option Error
  unfolding create_instance create_asking create_knowledge
  create_by asks id kwargs d = created_as d (create_asking py id kwargs d)
  create_by knows id kwargs d = create_knowledge py machine.files id kwargs d
  create_by _ id kwargs d = created_as d (create_instance (λ k. k) id kwargs d)

  unfoldable pub create_kind :
      Kind → Fields → String → String → Fields → Shelf D → Shelf D × Option Error
  unfolding create_by create_executor
  create_kind executes config name id kwargs s =
      let (x, failure) =
        create_executor py machine.sqlite machine.paths config id kwargs (executor_at name s) in
      (with_executor name x s, failure)
  create_kind kind config name id kwargs s =
      let (d, failure) = create_by kind id kwargs (instances_at name s.plain) in
      (with_plain name d s, failure)

  -- The databases that stand on the disk.
  abbrev pub sources_of : Disk D → Sources
  sources_of disk = record {
    is_file = λ p. exists (machine.paths.resolve p) disk;
    ordered_schema = λ p. do
      content ←
          or_raise (sql_error "unable to open database file")
            (lookup (machine.paths.resolve p) disk.files)
      ok (machine.sqlite.tables content);
    message = machine.host.message;
  }

  -- `execute` of a tool of this class; only the one that asks changes its instances.
  unfoldable pub run_kind :
      Kind → Fields → String → String → Fields → Shelf D → Shelf D × Result Answer
  unfolding show_version show_schema inspect_schema_diff execute_asking show_knowledge execute_query
  run_kind gets_version config name id parameters s =
      (s, show_version py id (instances_at name s.plain))
  run_kind gets_schema config name id parameters s =
      (s, show_schema py machine.files config id parameters (instances_at name s.plain))
  run_kind inspects config name id parameters s =
      (s, inspect_schema_diff py (sources_of s.disk) machine.trees id (instances_at name s.plain))
  run_kind asks config name id parameters s =
      let (d, answer) = execute_asking py config id parameters (instances_at name s.plain) in
      (with_plain name d s, answer)
  run_kind knows config name id parameters s =
      (s, show_knowledge py config id parameters (instances_at name s.plain))
  run_kind executes config name id parameters s = (
    s,
    execute_query py machine.host machine.sqlite machine.paths machine.hashing config id parameters
        (executor_at name s),
  )
  run_kind submits config name id parameters s =
      (s, submit_solution py id parameters (instances_at name s.plain))

  -- A call of a tool by its name; a name that no tool has raises.
  abbrev pub create_found :
      Option Tool → String → String → Fields → Shelf D → Shelf D × Option Error
  create_found none name id kwargs s = (s, some (key_error name))
  create_found (some t) name id kwargs s = create_kind t.kind t.config name id kwargs s

  abbrev pub run_found : Option Tool → String → String → Fields → Shelf D → Shelf D × Result Answer
  run_found none name id parameters s = (s, raised (key_error name))
  run_found (some t) name id parameters s = run_kind t.kind t.config name id parameters s

  abbrev pub release_found : Option Tool → String → String → Shelf D → Shelf D
  release_found none name id s = s
  release_found (some t) name id s = release_kind t.kind name id s

  abbrev pub holds_found : Option Tool → String → String → Shelf D → Bool
  holds_found none name id s = false
  holds_found (some t) name id s = holds_kind t.kind name id s

  -- `_state(instance_id)` of the executor
  abbrev pub session_fields : Option Session → Fields
  session_fields none = end
  session_fields (some session) = session.fields

  module _ (tools : Dict Tool) where
    abbrev pub holds_tool : String → String → Shelf D → Bool
    holds_tool name id s = holds_found (lookup name tools) name id s

    -- The tools as the runtime calls them.
    unfoldable pub tool_box : Toolbox (Shelf D)
    unfolding create_kind run_kind release_kind
    tool_box = record {
      names = map (λ (p : String × Tool). p.0) tools;
      create = λ name id truth kwargs s. create_found (lookup name tools) name id kwargs s;
      run = λ name id parameters s. run_found (lookup name tools) name id parameters s;
      release = λ name id s. (release_found (lookup name tools) name id s, none);
      executor_state = λ id s. session_fields (lookup id (instances_at "execute_sql" s.sessions));
    }
