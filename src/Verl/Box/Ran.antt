-- ===== src/Verl/Box/Ran.antt =====
-- What `execute` of each tool of verl_tools.py does to the entries of the tools.
use drift_sql.Prelude.{
  String, ◌≡◌, refl, ap, ◌∙◌, inl, inr, Bool, true, false, ◌||◌, Option, none, some, [], arith,
  ◌==◌, eq_iff, Bool-cases,
}
use drift_sql.Result.{or_raise-eq-ok, Result, ok, raised}
use drift_sql.Python.{Python, str_of}
use drift_sql.Python.Values.{Fields, get_or, text}
use drift_sql.Python.Text.{strip}
use drift_sql.Service.Toolbox.{Dict, lookup, set, lookup-set}
use drift_sql.Drift.Disk.{lookup-set_other}
use drift_sql.Verl.Instances.{Answer, holds_instance, state_of, holds-set}
use drift_sql.Verl.Asking.{ask, execute_asking}
use drift_sql.Verl.Box.{
  Kind, Tool, Shelf, instances_at, with_plain, holds_kind, Machine, run_kind, run_found,
  holds_found, holds_tool, tool_box, gets_version, gets_schema, inspects, asks, knows, executes,
  submits,
}

module _ {A : Type 0} where
  pub instances_at-set :
      (n : String) (v : Dict A) (d : Dict (Dict A)) → instances_at n (set n v d) ≡ v
  unfolding instances_at
  instances_at-set n v d =
      ap (λ o. elim o as (λ o. Dict A) [ none ↦ [] | some x ↦ x ]) (lookup-set n v d)

  pub instances_at-set_other :
      (n m : String) (v : Dict A) (d : Dict (Dict A))
      → (n == m) ≡ false
      → instances_at m (set n v d) ≡ instances_at m d
  unfolding instances_at
  instances_at-set_other n m v d h =
      ap (λ o. elim o as (λ o. Dict A) [ none ↦ [] | some x ↦ x ]) (lookup-set_other n m v d h)

module _ (py : Python) where
  holds-set_held :
      (id j : String) (s s' : Fields) (d : Dict Fields)
      → state_of id d ≡ ok s
      → holds_instance j (set id s' d) ≡ holds_instance j d
  unfolding state_of
  holds-set_held id j s s' d h =
      let there : holds_instance id d ≡ true = rw (or_raise-eq-ok _ _ h) refl in
      holds-set id j s' d
      ∙ absorbed (id == j) (holds_instance j d) (λ e. rw (← (eq_iff id j).0 e) there)
    where
      absorbed : (b x : Bool) → (b ≡ true → x ≡ true) → (x || b) ≡ x
      absorbed true x h' = rw (h' refl) refl
      absorbed false x h' = ground arith

  -- A question changes the state of its instance, and which instances there are not at all.
  execute_asking-holds :
      (config : Fields) (id j : String) (parameters : Fields) (d : Dict Fields)
      → holds_instance j (execute_asking py config id parameters d).0 ≡ holds_instance j d
  unfolding execute_asking
  execute_asking-holds config id j parameters d = by_state (state_of id d) refl
    where
      question : String
      question = strip (str_of py (get_or "question" (text "") parameters))

      by_state :
          (r : Result Fields)
          → state_of id d ≡ r
          → holds_instance j
              (elim r as (λ r. Dict Fields × Result Answer) [
                | raised e ↦ (d, raised e)
                | ok s ↦ let (s', a) = ask py config question s in (set id s' d, a)
              ]).0
            ≡ holds_instance j d
      by_state (raised e) h = refl
      by_state (ok s) h = holds-set_held id j s (ask py config question s).0 d h

module _ (py : Python) {D : Type 0} (machine : Machine D) where
  -- Every class of tools holds the same instances under every name.
  run_kind-holds :
      (k l : Kind) (config : Fields) (n id m j : String) (arguments : Fields) (s : Shelf D)
      → holds_kind l m j (run_kind py machine k config n id arguments s).0 ≡ holds_kind l m j s
  unfolding run_kind
  run_kind-holds gets_version l config n id m j arguments s = refl
  run_kind-holds gets_schema l config n id m j arguments s = refl
  run_kind-holds inspects l config n id m j arguments s = refl
  run_kind-holds knows l config n id m j arguments s = refl
  run_kind-holds executes l config n id m j arguments s = refl
  run_kind-holds submits l config n id m j arguments s = refl
  run_kind-holds asks l config n id m j arguments s = by_kind l
    where
      later : Dict Fields
      later = (execute_asking py config id arguments (instances_at n s.plain)).0

      plain :
          holds_instance j (instances_at m (set n later s.plain))
          ≡ holds_instance j (instances_at m s.plain)
      plain = elim (Bool-cases (n == m)) [
        | inl same ↦ rw (← (eq_iff n m).0 same) (
            ap (holds_instance j) (instances_at-set n later s.plain)
            ∙ execute_asking-holds py config id j arguments (instances_at n s.plain))
        | inr other ↦ ap (holds_instance j) (instances_at-set_other n m later s.plain other)
      ]

      by_kind : (l : Kind) → holds_kind l m j (with_plain n later s) ≡ holds_kind l m j s
      by_kind gets_version = plain
      by_kind gets_schema = plain
      by_kind inspects = plain
      by_kind asks = plain
      by_kind knows = plain
      by_kind executes = refl
      by_kind submits = plain

  run_found-holds :
      (o p : Option Tool) (n id m j : String) (arguments : Fields) (s : Shelf D)
      → holds_found py machine p m j (run_found py machine o n id arguments s).0
        ≡ holds_found py machine p m j s
  run_found-holds o none n id m j arguments s = refl
  run_found-holds none (some t) n id m j arguments s = refl
  run_found-holds (some u) (some t) n id m j arguments s =
      run_kind-holds u.kind t.kind u.config n id m j arguments s

  pub tool_box_ran :
      (tools : Dict Tool) (n id : String) (arguments : Fields) (s : Shelf D) (m j : String)
      → holds_tool py machine tools m j ((tool_box py machine tools).run n id arguments s).0
        ≡ holds_tool py machine tools m j s
  unfolding tool_box
  tool_box_ran tools n id arguments s m j =
      run_found-holds (lookup n tools) (lookup m tools) n id m j arguments s
