-- ===== src/Verl/Instances.antt =====
-- `_TrajectoryStateTool` of verl_tools.py, and what the tools take from the machine.
use drift_sql.Prelude.{
  zero, suc, ◌+◌, String, ◌≡◌, refl, inl, inr, Bool, true, false, not, ◌&&◌, ◌||◌, none, some, List,
  [], ◌∷◌, arith, ◌==◌, eq_iff, leb, if◌then◌else◌, Bool-cases,
}
use drift_sql.Result.{
  or_raise, is_some, attribute_error, type_error, value_error, key_error, Result, ok, raised,
}
use drift_sql.Python.Values.{
  ℤ, Json, Fields, get, put, truthy, flag, to_list, pos, negsuc, decimal, arr, obj, end,
}
use drift_sql.Service.Toolbox.{Dict, lookup, remove, set}

pub record Files : Type 0 where
  -- `Path(path).is_file()`
  pub is_file : String → Bool
  -- `path.read_text(...)`
  pub read_text : String → String
  -- the lines of the file, in order
  pub read_lines : String → List String

-- What every `execute` of a tool returns: the text, the reward and the metrics.
abbrev pub Answer : Type 0
Answer = String × Json × Fields

-- No tool gives a reward.
abbrev pub no_reward : Json
no_reward = decimal (pos 0) 1

-- The instances of a tool. What a tool keeps for an instance is mostly the arguments of its `create`.
module _ {A : Type 0} where
  abbrev pub holds_instance : String → Dict A → Bool
  holds_instance id d = is_some (lookup id d)

  -- `_state`
  unfoldable pub state_of : String → Dict A → Result A
  state_of id d = or_raise (key_error id) (lookup id d)

  -- `create`: an instance that is there is used again.
  unfoldable pub create_instance : (Fields → A) → String → Fields → Dict A → Result (Dict A)
  create_instance init id kwargs d =
      let made : Result (Dict A) =
        if flag "db_id" kwargs
        then ok (set id (init kwargs) d)
        else raised (value_error "db_id is required in create_kwargs") in
      if holds_instance id d then ok d else made

  -- A later change of an instance's state.
  unfoldable pub update_instance : String → (A → A) → Dict A → Dict A
  update_instance id change d = elim (lookup id d) [
    | none ↦ d
    | some state ↦ set id (change state) d
  ]

  pub holds-set :
      (id j : String) (state : A) (d : Dict A)
      → holds_instance j (set id state d) ≡ (holds_instance j d || id == j)
  unfolding lookup set
  holds-set id j state [] = elim (Bool-cases (id == j)) [ inl y ↦ rw y refl | inr n ↦ rw n refl ]
  holds-set id j state ((k, v) ∷ rest) = elim (Bool-cases (k == id)) [
    | inl y ↦ rw y (ground (arith, eq_iff k id, eq_iff k j))
    | inr n ↦ rw n (ground (arith, holds-set id j state rest))
  ]

  pub holds-remove :
      (id j : String) (d : Dict A)
      → holds_instance j (remove id d) ≡ (holds_instance j d && not (id == j))
  unfolding lookup remove
  holds-remove id j [] = refl
  holds-remove id j ((k, v) ∷ rest) =
      ground (arith, holds-remove id j rest, eq_iff k id, eq_iff k j, eq_iff id j)

-- `state.setdefault(key, value)`
unfoldable pub set_default : String → Json → Fields → Fields
set_default key value d = elim (get key d) [ none ↦ put key value d | some v ↦ d ]

-- `m >= n` and `n + 1` of integers
unfoldable pub at_least : ℤ → ℤ → Bool
at_least (pos m) (pos n) = leb n m
at_least (pos m) (negsuc n) = true
at_least (negsuc m) (pos n) = false
at_least (negsuc m) (negsuc n) = leb m n

unfoldable pub next_integer : ℤ → ℤ
next_integer (pos n) = pos (n + 1)
next_integer (negsuc zero) = pos 0
next_integer (negsuc (suc n)) = negsuc n

-- `value or {}`, whose `get` is called
unfoldable pub dict_or_none : Json → Result Fields
dict_or_none (obj d) = ok d
dict_or_none v = if truthy v then raised attribute_error else ok end

-- `dict(item)` of an item that is a dict; of any other item it raises
unfoldable pub copied : Json → Result Fields
copied (obj d) = ok d
copied _ = raised type_error

-- The items of `value or []`, where a value that is no list raises
unfoldable pub items_or_none : Json → Result (List Json)
items_or_none (arr items) = ok (to_list items)
items_or_none v = if truthy v then raised type_error else ok []
