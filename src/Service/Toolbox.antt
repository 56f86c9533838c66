-- ===== src/Service/Toolbox.antt =====
-- What the tool runtime asks of the tools that its configuration names (driftsql/integrations/
-- verl_tools.py holds them, the configuration chooses them by their class name), and the
-- dictionaries that the runtime keeps.
use drift_sql.Prelude.{
  String, ◌≡◌, refl, Bool, not, ◌&&◌, ◌||◌, Option, none, some, List, [], ◌∷◌, arith, ◌==◌, eq_refl,
  if◌then◌else◌,
}
use drift_sql.Result.{Error, Result}
use drift_sql.Python.Values.{Json, Fields}

-- A `dict` with text keys.
abbrev pub Dict : Type 0 → Type 0
Dict A = List (String × A)

module _ {A : Type 0} where
  -- `d.get(key)`
  unfoldable pub lookup : String → Dict A → Option A
  lookup key [] = none
  lookup key ((k, v) ∷ rest) = if k == key then some v else lookup key rest

  -- `d.pop(key, None)`
  unfoldable pub remove : String → Dict A → Dict A
  remove key [] = []
  remove key ((k, v) ∷ rest) =
      let others = remove key rest in if k == key then others else (k, v) ∷ others

  -- `d[key] = value`
  unfoldable pub set : String → A → Dict A → Dict A
  set key value [] = (key, value) ∷ []
  set key value ((k, v) ∷ rest) =
      let others = set key value rest in if k == key then (k, value) ∷ rest else (k, v) ∷ others

  pub lookup-set :
      (key : String) (value : A) (d : Dict A) → lookup key (set key value d) ≡ some value
  unfolding lookup set
  lookup-set key value [] = rw (eq_refl key) refl
  lookup-set key value ((k, v) ∷ rest) = ground (arith, lookup-set key value rest)

-- The tools, with the state `S` that they share. A call that raises may have changed the state.
pub record Toolbox (S : Type 0) : Type 1 where
  -- the keys of `_tools`
  pub names : List String
  -- `create(instance_id=..., ground_truth=..., create_kwargs=...)` of the named tool
  pub create : String → String → String → Fields → S → S × Option Error
  -- `execute(instance_id=..., parameters=...)`: the text, the reward and the metrics
  pub run : String → String → Fields → S → S × Result (String × Json × Fields)
  -- `release(instance_id)`
  pub release : String → String → S → S × Option Error
  -- `_state(instance_id)` of the executor
  pub executor_state : String → S → Fields

-- No `release` raises.
abbrev pub ReleasesQuietly : {S : Type 0} → Toolbox S → Type 0
ReleasesQuietly {S} box = (n id : String) (s : S) → (box.release n id s).1 ≡ none

-- The tools keep one entry for each session: whether the named tool holds one for this session is
-- changed by its own `create` and `release` alone, not by `execute`, and a `create` that raises adds
-- none.
pub record IsTracked {S : Type 0} (box : Toolbox S) (holds : String → String → S → Bool)
    : Type 0 where
  pub created :
      (n id truth : String) (kwargs : Fields) (s : S)
      → (box.create n id truth kwargs s).1 ≡ none
      → (m j : String)
      → holds m j (box.create n id truth kwargs s).0 ≡ (holds m j s || (n == m && j == id))
  pub refused :
      (n id truth : String) (kwargs : Fields) (s : S) (e : Error)
      → (box.create n id truth kwargs s).1 ≡ some e
      → (m j : String) → holds m j (box.create n id truth kwargs s).0 ≡ holds m j s
  pub released :
      (n id : String) (s : S) (m j : String)
      → holds m j (box.release n id s).0 ≡ (holds m j s && not (n == m && j == id))
  pub ran :
      (n id : String) (arguments : Fields) (s : S) (m j : String)
      → holds m j (box.run n id arguments s).0 ≡ holds m j s

pub lookup-remove : {A : Type 0} (key : String) (d : Dict A) → lookup key (remove key d) ≡ none
unfolding lookup remove
lookup-remove key [] = refl
lookup-remove key ((k, v) ∷ rest) = ground (arith, lookup-remove key rest)
