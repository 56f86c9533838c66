-- ===== src/Verl/Box/Tracked.antt =====
-- The tools of verl_tools.py, and the interface Service.Toolbox.IsTracked.
use drift_sql.Prelude.{
  String, ◌≡◌, refl, ap, ◌∙◌, inl, inr, Bool, true, false, not, ◌&&◌, ◌||◌, Option, none, some,
  arith, ◌==◌, eq_iff, eq_refl, Bool-cases,
}
use drift_sql.Result.{Error}
use drift_sql.Python.{Python}
use drift_sql.Python.Values.{Fields}
use drift_sql.Service.Toolbox.{Dict, lookup, remove, set, IsTracked}
use drift_sql.Verl.Instances.{holds_instance, holds-remove}
use drift_sql.Verl.Executor.{
  temporary_of, Executor, forget, cleaned, release_executor, create_executor,
}
use drift_sql.Verl.Box.{
  Kind, Tool, Shelf, instances_at, executor_at, with_executor, with_plain, holds_kind, release_kind,
  Machine, create_by, create_kind, create_found, release_found, holds_found, holds_tool, tool_box,
  gets_version, gets_schema, inspects, asks, knows, executes, submits,
}
use drift_sql.Verl.Box.Entered.{
  IsEntered, create_instance-IsEntered, Entered, created_as-Entered, create_asking-IsEntered,
  create_executor-Entered,
}
use drift_sql.Verl.Box.Ran.{instances_at-set, instances_at-set_other, tool_box_ran}

unfoldable pub is_knowing : Kind → Bool
is_knowing knows = true
is_knowing _ = false

-- An entry is added, or the call raised and none is.
abbrev IsAdded : String → (String → Bool) → (String → Bool) → Option Error → Type 0
IsAdded id before later none = (j : String) → later j ≡ (before j || id == j)
IsAdded id before later (some e) = (j : String) → later j ≡ before j

entered-IsAdded :
    {A : Type 0} (id : String) (o : Option Error) (d e : Dict A) (later : String → Bool)
    → ((j : String) → later j ≡ holds_instance j e)
    → IsEntered id d e o
    → IsAdded id (λ j. holds_instance j d) later o
entered-IsAdded id none d e later same h = λ j. same j ∙ h j
entered-IsAdded id (some x) d e later same h = λ j. same j ∙ h j

module _ (py : Python) {D : Type 0} (machine : Machine D) where
  create_by-Entered :
      (k : Kind) (id : String) (kwargs : Fields) (d : Dict Fields)
      → is_knowing k ≡ false
      → Entered id d (create_by py machine k id kwargs d)
  unfolding create_by is_knowing
  create_by-Entered gets_version id kwargs d h =
      created_as-Entered id d _ (λ made e. create_instance-IsEntered (λ k. k) id kwargs d e)
  create_by-Entered gets_schema id kwargs d h =
      created_as-Entered id d _ (λ made e. create_instance-IsEntered (λ k. k) id kwargs d e)
  create_by-Entered inspects id kwargs d h =
      created_as-Entered id d _ (λ made e. create_instance-IsEntered (λ k. k) id kwargs d e)
  create_by-Entered asks id kwargs d h =
      created_as-Entered id d _ (λ made e. create_asking-IsEntered py id kwargs d e)
  create_by-Entered knows id kwargs d h = cc
  create_by-Entered executes id kwargs d h =
      created_as-Entered id d _ (λ made e. create_instance-IsEntered (λ k. k) id kwargs d e)
  create_by-Entered submits id kwargs d h =
      created_as-Entered id d _ (λ made e. create_instance-IsEntered (λ k. k) id kwargs d e)

  plain-IsAdded :
      (name id : String) (s : Shelf D) (r : Dict Fields × Option Error)
      → Entered id (instances_at name s.plain) r
      → IsAdded id
          (λ j. holds_instance j (instances_at name s.plain))
          (λ j. holds_instance j (instances_at name (set name r.0 s.plain)))
          r.1
  plain-IsAdded name id s r h =
      entered-IsAdded id r.1 (instances_at name s.plain) r.0 _
        (λ j. ap (holds_instance j) (instances_at-set name r.0 s.plain)) h

  create_kind-IsAdded :
      (k : Kind) (config : Fields) (name id : String) (kwargs : Fields) (s : Shelf D)
      → is_knowing k ≡ false
      → IsAdded id
          (λ j. holds_kind k name j s)
          (λ j. holds_kind k name j (create_kind py machine k config name id kwargs s).0)
          (create_kind py machine k config name id kwargs s).1
  unfolding create_kind
  create_kind-IsAdded gets_version config name id kwargs s h =
      plain-IsAdded name id s _ (create_by-Entered gets_version id kwargs _ h)
  create_kind-IsAdded gets_schema config name id kwargs s h =
      plain-IsAdded name id s _ (create_by-Entered gets_schema id kwargs _ h)
  create_kind-IsAdded inspects config name id kwargs s h =
      plain-IsAdded name id s _ (create_by-Entered inspects id kwargs _ h)
  create_kind-IsAdded asks config name id kwargs s h =
      plain-IsAdded name id s _ (create_by-Entered asks id kwargs _ h)
  create_kind-IsAdded knows config name id kwargs s h =
      plain-IsAdded name id s _ (create_by-Entered knows id kwargs _ h)
  create_kind-IsAdded submits config name id kwargs s h =
      plain-IsAdded name id s _ (create_by-Entered submits id kwargs _ h)
  create_kind-IsAdded executes config name id kwargs s h =
      let r =
        create_executor py machine.sqlite machine.paths config id kwargs (executor_at name s) in
      entered-IsAdded id r.1 (instances_at name s.sessions) r.0.instances _
        (λ j. ap (holds_instance j) (instances_at-set name r.0.instances s.sessions))
        (create_executor-Entered py machine.sqlite machine.paths config id kwargs
          (executor_at name s))

module _ {D : Type 0} where
  -- The entries of the other tools are as they were.
  abbrev AreApart : String → Shelf D → Shelf D → Type 0
  AreApart name s later =
      (m : String)
      → (name == m) ≡ false
      → (instances_at m later.plain ≡ instances_at m s.plain)
        × (instances_at m later.sessions ≡ instances_at m s.sessions)

  others_kept :
      (k : Kind) (name m j : String) (s later : Shelf D)
      → AreApart name s later
      → (name == m) ≡ false
      → holds_kind k m j later ≡ holds_kind k m j s
  others_kept executes name m j s later h n = ap (holds_instance j) (h m n).1
  others_kept gets_version name m j s later h n = ap (holds_instance j) (h m n).0
  others_kept gets_schema name m j s later h n = ap (holds_instance j) (h m n).0
  others_kept inspects name m j s later h n = ap (holds_instance j) (h m n).0
  others_kept asks name m j s later h n = ap (holds_instance j) (h m n).0
  others_kept knows name m j s later h n = ap (holds_instance j) (h m n).0
  others_kept submits name m j s later h n = ap (holds_instance j) (h m n).0

  plain-AreApart :
      (name : String) (d : Dict Fields) (s : Shelf D) → AreApart name s (with_plain name d s)
  plain-AreApart name d s m n = (instances_at-set_other name m d s.plain n, refl)

  executor-AreApart :
      (name : String) (x : Executor D) (s : Shelf D) → AreApart name s (with_executor name x s)
  executor-AreApart name x s m n = (refl, instances_at-set_other name m x.instances s.sessions n)

  release_kind-AreApart :
      (k : Kind) (name id : String) (s : Shelf D) → AreApart name s (release_kind k name id s)
  unfolding release_kind
  release_kind-AreApart executes name id s =
      executor-AreApart name (release_executor id (executor_at name s)) s
  release_kind-AreApart gets_version name id s = plain-AreApart name _ s
  release_kind-AreApart gets_schema name id s = plain-AreApart name _ s
  release_kind-AreApart inspects name id s = plain-AreApart name _ s
  release_kind-AreApart asks name id s = plain-AreApart name _ s
  release_kind-AreApart knows name id s = plain-AreApart name _ s
  release_kind-AreApart submits name id s = plain-AreApart name _ s

  plain_released :
      (name id j : String) (s : Shelf D)
      → holds_instance j
          (instances_at name (set name (remove id (instances_at name s.plain)) s.plain))
        ≡ (holds_instance j (instances_at name s.plain) && not (id == j))
  plain_released name id j s =
      ap (holds_instance j) (instances_at-set name (remove id (instances_at name s.plain)) s.plain)
      ∙ holds-remove id j (instances_at name s.plain)

  cleaned_instances : (o : Option String) (x : Executor D) → (cleaned o x).instances ≡ x.instances
  unfolding cleaned
  cleaned_instances none x = refl
  cleaned_instances (some t) x = refl

  release_kind-holds :
      (k : Kind) (name id j : String) (s : Shelf D)
      → holds_kind k name j (release_kind k name id s) ≡ (holds_kind k name j s && not (id == j))
  unfolding release_kind release_executor forget
  release_kind-holds executes name id j s =
      let x = executor_at name s in
      ap (holds_instance j) (
        instances_at-set name (release_executor id x).instances s.sessions
        ∙ cleaned_instances (temporary_of (lookup id x.instances)) (forget id x))
      ∙ holds-remove id j x.instances
  release_kind-holds gets_version name id j s = plain_released name id j s
  release_kind-holds gets_schema name id j s = plain_released name id j s
  release_kind-holds inspects name id j s = plain_released name id j s
  release_kind-holds asks name id j s = plain_released name id j s
  release_kind-holds knows name id j s = plain_released name id j s
  release_kind-holds submits name id j s = plain_released name id j s

module _ (py : Python) {D : Type 0} (machine : Machine D) where
  create_kind-AreApart :
      (k : Kind) (config : Fields) (name id : String) (kwargs : Fields) (s : Shelf D)
      → AreApart name s (create_kind py machine k config name id kwargs s).0
  unfolding create_kind
  create_kind-AreApart executes config name id kwargs s =
      executor-AreApart name
        (create_executor py machine.sqlite machine.paths config id kwargs (executor_at name s)).0 s
  create_kind-AreApart gets_version config name id kwargs s = plain-AreApart name _ s
  create_kind-AreApart gets_schema config name id kwargs s = plain-AreApart name _ s
  create_kind-AreApart inspects config name id kwargs s = plain-AreApart name _ s
  create_kind-AreApart asks config name id kwargs s = plain-AreApart name _ s
  create_kind-AreApart knows config name id kwargs s = plain-AreApart name _ s
  create_kind-AreApart submits config name id kwargs s = plain-AreApart name _ s

  added_one :
      (id j : String) (before later : String → Bool) (o : Option Error)
      → o ≡ none
      → IsAdded id before later o
      → later j ≡ (before j || id == j)
  added_one id j before later none e h = h j
  added_one id j before later (some x) e h = cc

  added_nothing :
      (id j : String) (before later : String → Bool) (o : Option Error) (e : Error)
      → o ≡ some e
      → IsAdded id before later o
      → later j ≡ before j
  added_nothing id j before later none e k h = cc
  added_nothing id j before later (some x) e k h = h j

  swapped : (a b : String) → (a == b) ≡ (b == a)
  swapped a b = ground (arith, eq_iff a b, eq_iff b a)

  -- A call of another tool changes no entry of this one.
  create_found-others :
      (o p : Option Tool) (n m id j : String) (kwargs : Fields) (s : Shelf D)
      → (n == m) ≡ false
      → holds_found py machine p m j (create_found py machine o n id kwargs s).0
        ≡ holds_found py machine p m j s
  create_found-others o none n m id j kwargs s h = refl
  create_found-others none (some u) n m id j kwargs s h = refl
  create_found-others (some t) (some u) n m id j kwargs s h =
      others_kept u.kind n m j s _ (create_kind-AreApart t.kind t.config n id kwargs s) h

  release_found-others :
      (o p : Option Tool) (n m id j : String) (s : Shelf D)
      → (n == m) ≡ false
      → holds_found py machine p m j (release_found py machine o n id s)
        ≡ holds_found py machine p m j s
  release_found-others o none n m id j s h = refl
  release_found-others none (some u) n m id j s h = refl
  release_found-others (some t) (some u) n m id j s h =
      others_kept u.kind n m j s _ (release_kind-AreApart t.kind n id s) h

  create_found-IsAdded :
      (o : Option Tool) (n id : String) (kwargs : Fields) (s : Shelf D)
      → ((t : Tool) → o ≡ some t → is_knowing t.kind ≡ false)
      → IsAdded id
          (λ j. holds_found py machine o n j s)
          (λ j. holds_found py machine o n j (create_found py machine o n id kwargs s).0)
          (create_found py machine o n id kwargs s).1
  create_found-IsAdded none n id kwargs s h = λ j. refl
  create_found-IsAdded (some t) n id kwargs s h =
      create_kind-IsAdded py machine t.kind t.config n id kwargs s (h t refl)

  release_found-holds :
      (o : Option Tool) (n id j : String) (s : Shelf D)
      → holds_found py machine o n j (release_found py machine o n id s)
        ≡ (holds_found py machine o n j s && not (id == j))
  release_found-holds none n id j s = refl
  release_found-holds (some t) n id j s = release_kind-holds t.kind n id j s

  module _ (tools : Dict Tool)
      (ignorant : (n : String) (t : Tool)
        → lookup n tools ≡ some t
        → is_knowing t.kind ≡ false) where
    box_created :
        (n id truth : String) (kwargs : Fields) (s : Shelf D)
        → ((tool_box py machine tools).create n id truth kwargs s).1 ≡ none
        → (m j : String)
        → holds_tool py machine tools m j ((tool_box py machine tools).create n id truth kwargs s).0
          ≡ (holds_tool py machine tools m j s || (n == m && j == id))
    unfolding tool_box
    box_created n id truth kwargs s h m j = elim (Bool-cases (n == m)) [
      | inr other ↦ rw other (
          create_found-others (lookup n tools) (lookup m tools) n m id j kwargs s other
          ∙ ground arith)
      | inl same ↦
          rw (← (eq_iff n m).0 same, eq_refl n, swapped j id)
            (added_one id j _ _ _ h
              (create_found-IsAdded (lookup n tools) n id kwargs s (ignorant n)))
    ]

    box_refused :
        (n id truth : String) (kwargs : Fields) (s : Shelf D) (e : Error)
        → ((tool_box py machine tools).create n id truth kwargs s).1 ≡ some e
        → (m j : String)
        → holds_tool py machine tools m j ((tool_box py machine tools).create n id truth kwargs s).0
          ≡ holds_tool py machine tools m j s
    unfolding tool_box
    box_refused n id truth kwargs s e h m j = elim (Bool-cases (n == m)) [
      | inr other ↦ create_found-others (lookup n tools) (lookup m tools) n m id j kwargs s other
      | inl same ↦ rw (← (eq_iff n m).0 same) (
          added_nothing id j _ _ _ e h
            (create_found-IsAdded (lookup n tools) n id kwargs s (ignorant n)))
    ]

    box_released :
        (n id : String) (s : Shelf D) (m j : String)
        → holds_tool py machine tools m j ((tool_box py machine tools).release n id s).0
          ≡ (holds_tool py machine tools m j s && not (n == m && j == id))
    unfolding tool_box
    box_released n id s m j = elim (Bool-cases (n == m)) [
      | inr other ↦
          rw other
            (release_found-others (lookup n tools) (lookup m tools) n m id j s other ∙ ground arith)
      | inl same ↦
          rw (← (eq_iff n m).0 same, eq_refl n, swapped j id)
            (release_found-holds (lookup n tools) n id j s)
    ]

    -- The tools keep what the tool runtime relies on, if none of them is the knowledge tool: a
    -- `create` of a tool for a session that does not raise adds the entry of that tool for that
    -- session and changes no other, one that raises changes none, no `execute` changes any, and a
    -- `release` takes away the entry of that tool for that session and no other.
    pub tool_box-IsTracked : IsTracked (tool_box py machine tools) (holds_tool py machine tools)
    tool_box-IsTracked = record {
      created = box_created;
      refused = box_refused;
      released = box_released;
      ran = λ n id arguments s m j. tool_box_ran py machine tools n id arguments s m j;
    }
