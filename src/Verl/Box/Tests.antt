-- ===== src/Verl/Box/Tests.antt =====
-- Three tools: the executor, the user and the one that inspects the diff.
use drift_sql.Prelude.{
  String, ◌≡◌, refl, inl, inr, true, false, some, [], ◌∷◌, ◌==◌, Bool-cases, All,
}
use drift_sql.Result.{value_error, ok, raised}
use drift_sql.Python.Values.{null, end}
use drift_sql.Service.Toolbox.{Dict, lookup, IsTracked}
use drift_sql.Drift.Sample.{numbered, sqlite, paths, hashing}
use drift_sql.Verl.Box.{Tool, Machine, holds_tool, tool_box, inspects, asks, executes}
use drift_sql.Verl.Box.Tracked.{is_knowing, tool_box-IsTracked}

abbrev machine : Machine String
machine = record {
  sqlite = sqlite;
  paths = paths;
  hashing = hashing;
  host = record {
    float_of = λ v. ok v;
    elapsed_ms = null;
    message = λ e. "error";
    named_message = λ e. "error";
  };
  files = record { is_file = λ p. false; read_text = λ p. ""; read_lines = λ p. [] };
  trees = record {
    read_only = λ s. true;
    project = λ s diff schema. raised (value_error "no supported wildcard");
  };
}

abbrev tools : Dict Tool
tools =
    ("execute_sql", record { kind = executes; config = end })
    ∷ ("ask_user", record { kind = asks; config = end })
    ∷ ("inspect_schema_diff", record { kind = inspects; config = end })
    ∷ []

lookup-All :
    {A : Type 0} (P : A → Type 0) (key : String) (d : Dict A) {a : A}
    → All (λ (p : String × A). P p.1) d
    → lookup key d ≡ some a
    → P a
unfolding lookup
lookup-All P key [] all h = cc
lookup-All P key ((k, v) ∷ rest) (p, all) h = elim (Bool-cases (k == key)) [
  | inl y ↦ rw (← some_injective (rw y at h)) p
  | inr n ↦ lookup-All P key rest all (rw n at h)
]
  where
    some_injective : {B : Type 0} {x y : B} → some x ≡ some y → x ≡ y
    some_injective k = cc

tool_box-IsTracked_example :
    IsTracked (tool_box numbered machine tools) (holds_tool numbered machine tools)
unfolding is_knowing
tool_box-IsTracked_example =
    tool_box-IsTracked numbered machine tools (λ n t.
      lookup-All (λ (t : Tool). is_knowing t.kind ≡ false) n tools (refl, (refl, (refl, tt))))
