-- ===== src/Verl/Knowledge/Kept.antt =====
-- `create` of `GetKnowledgeDefinitionTool` in verl_tools.py, and the instance that it makes.
use drift_sql.Prelude.{String, ◌≡◌, refl, inl, inr, true, Option, some, eq_refl, Bool-cases}
use drift_sql.Result.{Error, Result, ok, raised}
use drift_sql.Python.{Python}
use drift_sql.Python.Values.{Fields, flag}
use drift_sql.Service.Toolbox.{Dict, set}
use drift_sql.Verl.Instances.{Files, holds_instance, state_of, create_instance, holds-set}
use drift_sql.Verl.Knowledge.{with_entries, settle_entries, create_knowledge}

module _ (py : Python) (files : Files) where
  settled_holds :
      (id : String) (d : Dict Fields) (r : Result Fields)
      → holds_instance id d ≡ true
      → holds_instance id (settle_entries py id d r).0 ≡ true
  settled_holds id d (raised e) h = h
  settled_holds id d (ok s) h = rw (holds-set id id s d, h) refl

  loaded_holds :
      (id : String) (made : Dict Fields) (r : Result Fields)
      → holds_instance id made ≡ true
      → state_of id made ≡ r
      → holds_instance id
          (elim r as (λ r. Dict Fields × Option Error) [
            | raised e ↦ (made, some e)
            | ok s ↦ settle_entries py id made (with_entries py files s)
          ]).0
        ≡ true
  loaded_holds id made (raised e) h k = h
  loaded_holds id made (ok s) h k = settled_holds id made (with_entries py files s) h

  -- A `create` of the knowledge tool with a database's identifier leaves an instance behind, also
  -- when it raises because the entries cannot be loaded.
  pub create_knowledge-Kept :
      (id : String) (kwargs : Fields) (d : Dict Fields)
      → flag "db_id" kwargs ≡ true
      → holds_instance id (create_knowledge py files id kwargs d).0 ≡ true
  unfolding create_knowledge create_instance
  create_knowledge-Kept id kwargs d h = elim (Bool-cases (holds_instance id d)) [
    | inl y ↦ rw y (loaded_holds id d (state_of id d) y refl)
    | inr n ↦
        rw (n, h)
          (loaded_holds id (set id kwargs d) (state_of id (set id kwargs d))
            (rw (holds-set id id kwargs d, n, eq_refl id) refl) refl)
  ]
