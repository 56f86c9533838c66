-- ===== src/Python/Sample.antt =====
-- A concrete Python for the tests: ASCII letters, and a JSON reader that refuses every text, so
-- that the events of the tests carry their observations as dicts.
use Prim.Native.Char.{code}
use drift_sql.Prelude.{ℕ, String, Bool, ◌&&◌, ◌||◌, none, leb}
use drift_sql.Result.{type_error, raised}
use drift_sql.Python.{Python}

abbrev lower : ℕ → Bool
lower n = leb b'a' n && leb n b'z'

abbrev upper : ℕ → Bool
upper n = leb b'A' n && leb n b'Z'

abbrev pub sample : Python
sample = record {
  loads = λ s. none;
  dumps = λ v. "{}";
  dumps_sorted = λ d. "{}";
  show = λ v. "{...}";
  to_int = λ v. raised type_error;
  to_float = λ v. raised type_error;
  fold = λ c. String.◌∷◌ c "";
  is_alpha = λ c. lower (code c) || upper (code c);
  is_alnum = λ c. lower (code c) || upper (code c) || (leb b'0' (code c) && leb (code c) b'9');
}
