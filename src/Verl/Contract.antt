-- ===== src/Verl/Contract.antt =====
-- The check in `VersionedSqlExecutorTool.execute` of a query's result against the expected one.
use drift_sql.Prelude.{
  ℕ, String, Bool, true, false, ◌&&◌, Option, none, some, ◌==◌, eqb, if◌then◌else◌,
}
use drift_sql.Result.{
  Error, fail_if, ◌>>=◌, ◌>>◌, or_raise, type_error, integrity_error, value_error, key_error,
  sql_error, Result, ok, raised,
}
use drift_sql.Python.{Python, str_of, int_of}
use drift_sql.Python.Values.{ℤ, Json, Fields, get, truthy, pos, negsuc, obj, end, field}
use drift_sql.Drift.Fingerprint.{QueryFingerprint}
use drift_sql.Verl.Terms.{is_blank}

-- What the check of the result contract found.
pub record Contract : Type 0 where
  pub checked : Bool
  pub matches : Option Bool
  pub failure : Option Error

abbrev pub unchecked : Contract
unchecked = record { checked = false; matches = none; failure = none }

-- `except (KeyError, TypeError, ValueError, sqlite3.Error)`
unfoldable pub is_caught : Error → Bool
is_caught (key_error s) = true
is_caught type_error = true
is_caught (value_error s) = true
is_caught (sql_error s) = true
is_caught integrity_error = true
is_caught _ = false

-- `actual.row_count == expected_count`
unfoldable pub is_count : ℕ → ℤ → Bool
is_count n (pos m) = eqb n m
is_count n (negsuc m) = false

unfoldable pub compare_fingerprints : QueryFingerprint → ℤ → String → Contract
unfolding is_count
compare_fingerprints actual count hash = record {
  checked = true;
  matches = some (is_count actual.row_count count && actual.value_hash == hash);
  failure = none;
}

abbrev pub caught : Result Contract → Result Contract
caught (ok c) = ok c
caught (raised e) =
    if is_caught e
    then ok (record { checked = false; matches = none; failure = some e })
    else raised e

module _ (py : Python) where
  -- The body of the `try`: what is expected, then what is there.
  unfoldable pub checked_contract : Fields → Result QueryFingerprint → Result Contract
  unfolding compare_fingerprints
  checked_contract expected actual = do
    v ← or_raise (key_error "row_count") (get "row_count" expected)
    count ← int_of py v
    h ← or_raise (key_error "value_hash") (get "value_hash" expected)
    fail_if (is_blank (str_of py h)) (value_error "empty expected result fingerprint")
    found ← actual
    ok (compare_fingerprints found count (str_of py h))

  -- The check of a query that succeeded, where a result is expected.
  unfoldable pub contract_of : Bool → Fields → Result QueryFingerprint → Result Contract
  unfolding checked_contract is_caught
  contract_of success end actual = ok unchecked
  contract_of success (field k v rest) actual =
      if success then caught (checked_contract (field k v rest) actual) else ok unchecked

-- `dict(value or {})`
unfoldable pub dict_or_empty : Json → Result Fields
dict_or_empty (obj d) = ok d
dict_or_empty v = if truthy v then raised type_error else ok end
