-- ===== src/Verl/Execution/Validated.antt =====
-- The metrics of `execute` of `VersionedSqlExecutorTool`, and the result that they are about.
use drift_sql.Prelude.{
  ℕ, String, ◌≡◌, refl, sym, ap, ◌∙◌, inl, inr, Bool, true, false, ◌&&◌, some, List, arith, ◌==◌,
  eq_iff, Bool-cases, and_left, and_right, length,
}
use drift_sql.Result.{
  Error, fail_if, >>=-eq-ok, ok_injective, or_raise, or_raise-eq-ok, value_error, key_error,
  sql_error, Result, ok, raised,
}
use drift_sql.Python.{Python, str_of, int_of}
use drift_sql.Python.Values.{
  ℤ, Json, Fields, get, get_or, pos, negsuc, bool, int, text, obj, end, field,
}
use drift_sql.Service.Toolbox.{lookup}
use drift_sql.Drift.Disk.{Disk, Paths, Sqlite, Hashing}
use drift_sql.Drift.Fingerprint.{
  QueryFingerprint, digest_rows, fingerprint_query, fingerprint_rows-Complete,
}
use drift_sql.Verl.Terms.{is_blank}
use drift_sql.Verl.Instances.{Answer, state_of}
use drift_sql.Verl.Executor.{Session, Executor}
use drift_sql.Verl.Contract.{
  Contract, is_caught, is_count, compare_fingerprints, caught, checked_contract, contract_of,
  dict_or_empty,
}
use drift_sql.Verl.Execution.{
  Host, QueryResult, execute_read_only, is_yes, execution_answer, execute_query,
}

true_not_false : ¬ (true ≡ false)
true_not_false h = cc

-- An error leaves no match.
caught-matches :
    (r : Result Contract) {c : Contract} → caught r ≡ ok c → is_yes c.matches ≡ true → r ≡ ok c
caught-matches (ok c) h k = h
caught-matches (raised e) h k = elim (Bool-cases (is_caught e)) [
  | inl y ↦
      absurd (true_not_false (sym k ∙ sym (ap (λ c. is_yes c.matches) (ok_injective (rw y at h)))))
  | inr n ↦ absurd (raised_not_ok (rw n at h))
]
  where
    raised_not_ok : {x : Error} {c : Contract} → ¬ (raised x ≡ ok c)
    raised_not_ok j = cc

module _ (py : Python) where
  contract_of-matches :
      (success : Bool) (expected : Fields) (actual : Result QueryFingerprint) {c : Contract}
      → contract_of py success expected actual ≡ ok c
      → is_yes c.matches ≡ true
      → (success ≡ true) × (checked_contract py expected actual ≡ ok c)
  unfolding contract_of
  contract_of-matches success end actual h k =
      absurd (true_not_false (sym k ∙ sym (ap (λ c. is_yes c.matches) (ok_injective h))))
  contract_of-matches true (field key v rest) actual h k =
      (refl, caught-matches (checked_contract py (field key v rest) actual) h k)
  contract_of-matches false (field key v rest) actual h k =
      absurd (true_not_false (sym k ∙ sym (ap (λ c. is_yes c.matches) (ok_injective h))))

  is_count-eq : (n : ℕ) (z : ℤ) → is_count n z ≡ true → z ≡ pos n
  unfolding is_count
  is_count-eq n (pos m) h = ap pos (ground arith)
  is_count-eq n (negsuc m) h = absurd (true_not_false (sym h))

  -- The fingerprint is that which is expected.
  pub record IsExpected (expected : Fields) (actual : QueryFingerprint) : Type 0 where
    pub count :
        (v : Json) × (get "row_count" expected ≡ some v) × (int_of py v ≡ ok (pos actual.row_count))
    pub hash : (v : Json) × (get "value_hash" expected ≡ some v) × (str_of py v ≡ actual.value_hash)

  checked-IsExpected :
      (expected : Fields) (actual : Result QueryFingerprint) {c : Contract}
      → checked_contract py expected actual ≡ ok c
      → is_yes c.matches ≡ true
      → (f : QueryFingerprint) × (actual ≡ ok f) × IsExpected expected f
  unfolding checked_contract compare_fingerprints
  checked-IsExpected expected actual h k =
      let (v, ev, h1) =
        >>=-eq-ok (or_raise (key_error "row_count") (get "row_count" expected)) _ h in
      let (count, ec, h2) = >>=-eq-ok (int_of py v) _ h1 in
      let (w, ew, h3) =
        >>=-eq-ok (or_raise (key_error "value_hash") (get "value_hash" expected)) _ h2 in
      let (u, eu, h4) =
        >>=-eq-ok
          (fail_if (is_blank (str_of py w)) (value_error "empty expected result fingerprint")) _
          h3 in
      let (found, ef, h5) = >>=-eq-ok actual _ h4 in
      let both : (is_count found.row_count count && found.value_hash == str_of py w) ≡ true =
        ap (λ (c : Contract). is_yes c.matches) (ok_injective h5) ∙ k in
      (
        found,
        ef,
        record {
          count = (
            v,
            or_raise-eq-ok (key_error "row_count") _ ev,
            ec ∙ ap ok (is_count-eq found.row_count count (and_left _ _ both)),
          );
          hash = (
            w,
            or_raise-eq-ok (key_error "value_hash") _ ew,
            sym ((eq_iff found.value_hash (str_of py w)).0 (and_right _ _ both)),
          );
        },
      )

  module _ (host : Host) (hashing : Hashing) {D : Type 0} (sqlite : Sqlite D) (paths : Paths) where
    -- The complete result of the query in the session's database, every row of it, is the expected
    -- one: the number of its rows, and the hash of their lines.
    pub record IsValidated (sql : String) (s : Session) (x : Executor D) : Type 0 where
      pub path : Json
      pub timeout_seconds : Json
      pub content : D
      pub rows : List Json
      pub expected : Fields
      pub database :
          (get "db_path" s.fields ≡ some path)
          × (lookup (paths.resolve (str_of py path)) x.disk.files ≡ some content)
      pub result : sqlite.stream sql timeout_seconds content ≡ ok rows
      pub contract : dict_or_empty (get_or "result_fingerprint" (obj end) s.fields) ≡ ok expected
      pub matching : IsExpected expected (record {
        row_count = length rows;
        value_hash = hashing.sha256 (digest_rows hashing rows "");
      })

    -- The fingerprint of a query is that of all its rows.
    fingerprint_rows_of :
        (db_path sql : String) (timeout_seconds : Json) (disk : Disk D) {f : QueryFingerprint}
        → fingerprint_query hashing sqlite paths db_path sql timeout_seconds disk ≡ ok f
        → (content : D) × (rows : List Json) × (lookup (paths.resolve db_path) disk.files
            ≡ some content)
          × (sqlite.stream sql timeout_seconds content ≡ ok rows)
          × (f ≡ record {
            row_count = length rows;
            value_hash = hashing.sha256 (digest_rows hashing rows "");
          })
    unfolding fingerprint_query
    fingerprint_rows_of db_path sql timeout_seconds disk h =
        let (content, e, h1) =
          >>=-eq-ok
            (or_raise (sql_error "unable to open database file")
              (lookup (paths.resolve db_path) disk.files))
            _ h in
        let (rows, e1, h2) = >>=-eq-ok (sqlite.stream sql timeout_seconds content) _ h1 in
        (
          content,
          rows,
          or_raise-eq-ok (sql_error "unable to open database file") _ e,
          e1,
          sym (ok_injective (rw (fingerprint_rows-Complete hashing rows) at h2)),
        )

    told_by :
        (s : Session) (expected : Fields) (r : QueryResult) (c : Contract)
        → get "validated_for_submit" (execution_answer py host s expected r c).2 ≡ some (bool true)
        → is_yes c.matches ≡ true
    unfolding execution_answer get
    told_by s expected r c h = bool_injective (is_yes c.matches) h
      where
        bool_injective : (b : Bool) → some (bool b) ≡ some (bool true) → b ≡ true
        bool_injective b k = cc

    -- An execution that tells that its query may be submitted has checked the complete result of
    -- the query, also the rows that it does not show: in the session's database, the number of the
    -- rows and the hash of their lines are the expected ones.
    pub execute_query-Validated :
        (config : Fields) (id : String) (parameters : Fields) (x : Executor D) {a : Answer}
        → execute_query py host sqlite paths hashing config id parameters x ≡ ok a
        → get "validated_for_submit" a.2 ≡ some (bool true)
        → (s : Session) × (lookup id x.instances ≡ some s)
          × IsValidated (str_of py (get_or "sql" (text "") parameters)) s x
    unfolding execute_query state_of
    execute_query-Validated config id parameters x h k =
        let sql = str_of py (get_or "sql" (text "") parameters) in
        let (s, es, h1) = >>=-eq-ok (or_raise (key_error id) (lookup id x.instances)) _ h in
        let (limit, et, h2) =
          >>=-eq-ok (host.float_of (get_or "timeout_seconds" (int (pos 30)) config)) _ h1 in
        let (max_rows, em, h3) =
          >>=-eq-ok (int_of py (get_or "max_rows" (int (pos 100)) config)) _ h2 in
        let (path, ep, h4) =
          >>=-eq-ok (or_raise (key_error "db_path") (get "db_path" s.fields)) _ h3 in
        let db_path = str_of py path in
        let (expected, ee, h5) =
          >>=-eq-ok (dict_or_empty (get_or "result_fingerprint" (obj end) s.fields)) _ h4 in
        let actual = fingerprint_query hashing sqlite paths db_path sql limit x.disk in
        let r = execute_read_only host sqlite paths db_path sql limit max_rows x.disk in
        let (c, ec, h6) = >>=-eq-ok (contract_of py r.success expected actual) _ h5 in
        let told : is_yes c.matches ≡ true =
          told_by s expected r c
            (ap (λ (a : Answer). get "validated_for_submit" a.2) (ok_injective h6) ∙ k) in
        let (successful, checked) = contract_of-matches r.success expected actual ec told in
        let (f, ef, matching) = checked-IsExpected expected actual checked told in
        let (content, rows, database, result, same) =
          fingerprint_rows_of db_path sql limit x.disk ef in
        (
          s,
          or_raise-eq-ok (key_error id) _ es,
          record {
            path = path;
            timeout_seconds = limit;
            content = content;
            rows = rows;
            expected = expected;
            database = (or_raise-eq-ok (key_error "db_path") _ ep, database);
            result = result;
            contract = ee;
            matching = rw (← same) matching;
          },
        )
