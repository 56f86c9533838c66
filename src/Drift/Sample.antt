-- ===== src/Drift/Sample.antt =====
-- A concrete machine for the tests: a database is the text of the statements that made it, and a new
-- directory has a longer name than those that stand.
use drift_sql.Prelude.{
  ℕ, zero, suc, ◌+◌, ◌≤◌, String, ◌<>◌, ◌≡◌, refl, ap, inl, inr, true, false, Option, none, some,
  List, [], ◌∷◌, arith, ◌==◌, eq_iff, Bool-cases, contains,
}
use drift_sql.Result.{Error, type_error, Result, ok, raised}
use drift_sql.Python.{Python}
use drift_sql.Python.Values.{pos, negsuc, int, text}
use drift_sql.Drift.Disk.{Paths, Sqlite, Hashing}
use drift_sql.Python.Text.{text_length}
use Prim.Native.String.append

abbrev pub marks : ℕ → String
marks zero = ""
marks (suc n) = String.◌∷◌ "x" (marks n)

abbrev pub total : List String → ℕ
total [] = 0
total (t ∷ ts) = text_length t + total ts

abbrev run_statements : List (Result String) → String → String × Option Error
run_statements [] d = (d, none)
run_statements (raised e ∷ rest) d = (d, some e)
run_statements (ok s ∷ rest) d = run_statements rest (d <> (s <> ";"))

abbrev pub numbered : Python
numbered = record {
  loads = λ s. none;
  dumps = λ v. "{}";
  dumps_sorted = λ d. "{}";
  show = λ v. elim v [ int z ↦ elim z [ pos n ↦ marks n | negsuc n ↦ "-" ] | _ ↦ "{}" ];
  to_int = λ v. raised type_error;
  to_float = λ v. raised type_error;
  fold = λ c. String.◌∷◌ c "";
  is_alpha = λ c. true;
  is_alnum = λ c. true;
}

abbrev pub sqlite : Sqlite String
sqlite = record {
  session = run_statements;
  table_info = λ table d. ("total", "REAL") ∷ [];
  tables = λ d. ("sales", "total" ∷ []) ∷ [];
  backup = λ d. ok d;
  stream = λ sql seconds d. ok (text "1" ∷ text "2" ∷ []);
  fetch = λ sql seconds n d. ok ("total" ∷ [], text "1" ∷ text "2" ∷ []);
}

abbrev pub paths : Paths
paths = record {
  resolve = λ p. p;
  parent = λ p. "/tmp";
  fresh = λ prefix dir standing. marks (suc (total standing));
  tmpdir = "/tmp";
}

abbrev pub hashing : Hashing
hashing = record { sha256 = λ s. s; repr_row = λ v. "r" }

pub text_length-marks : (n : ℕ) → text_length (marks n) ≡ n
unfolding text_length
text_length-marks zero = refl
text_length-marks (suc n) = ap suc (text_length-marks n)

pub text_length-append : (a b : String) → text_length (a <> b) ≡ text_length a + text_length b
unfolding text_length
text_length-append String.[] b = rw (append.nil b) (omega arith)
text_length-append (String.◌∷◌ c a) b = rw (append.cons c a b, text_length-append a b) (omega arith)

standing_short : (ts : List String) (t : String) → contains ts t ≡ true → text_length t ≤ total ts
unfolding contains
standing_short [] t h = cc
standing_short (u ∷ ts) t h = elim (Bool-cases (u == t)) [
  | inl y ↦ rw (← (eq_iff u t).0 y) (omega arith)
  | inr n ↦ let rest : text_length t ≤ total ts = standing_short ts t (rw n at h) in omega arith
]

-- The new name is none that stands.
pub paths_new : (p d : String) (ts : List String) → contains ts (paths.fresh p d ts) ≡ false
paths_new p d ts = elim (Bool-cases (contains ts (marks (suc (total ts))))) [
  | inl y ↦
      let short : text_length (marks (suc (total ts))) ≤ total ts = standing_short ts _ y in
      let size = text_length-marks (suc (total ts)) in absurd (omega arith)
  | inr n ↦ n
]
