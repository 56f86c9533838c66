-- ===== src/Drift/Tests.antt =====
-- Two operations on a database, an identifier with a quote, and the fingerprint of two rows.
use drift_sql.Prelude.{
  ℕ, ◌+◌, String, ◌<>◌, ◌≡◌, refl, sym, ap, ◌≢◌, ◌⊎◌, inl, inr, true, false, some, List, [], ◌∷◌,
  arith, ◌==◌, eq_iff, Bool-cases,
}
use drift_sql.Result.{value_error, ok, raised}
use drift_sql.Python.{str_of}
use drift_sql.Python.Values.{Json, get_or, to_list, of_list, text, arr, obj, end, field}
use drift_sql.Service.Toolbox.{lookup}
use drift_sql.Verl.Terms.{is_prefix}
use drift_sql.Python.Text.{text_length}
use drift_sql.Drift.Disk.{Disk}
use drift_sql.Drift.Identifiers.{has_nul, quote_identifier, read_identifier, quote-read}
use drift_sql.Drift.Fingerprint.{digest_rows, fingerprint_rows, fingerprint_rows-Complete}
use drift_sql.Drift.Materialize.{intermediate, operations_of, materialize_schema_diff}
use drift_sql.Drift.Materialize.Evolved.{Matches, Unchanged, evolve}
use drift_sql.Drift.Materialize.Refined.{IsNew, materialize_schema_diff-Refined}
use drift_sql.Drift.Sample.{
  marks, numbered, sqlite, paths, hashing, text_length-marks, text_length-append,
}

abbrev rename : Json
rename = obj (
    field "type" (text "rename_table")
      (field "old_name" (text "sales") (field "new_name" (text "orders") end)))

abbrev addition : Json
addition = obj (
    field "type" (text "add_column")
      (field "table" (text "orders") (field "new_name" (text "region") end)))

abbrev operations : List Json
operations = rename ∷ addition ∷ []

abbrev diff : Json
diff = obj (field "operations" (arr (of_list operations)) end)

abbrev disk : Disk String
disk = record { files = ("/db", "data:") ∷ []; temporaries = [] }

-- The name of an intermediate file is as long as its index is large.
text_length-intermediate :
    (directory : String) (i : ℕ)
    → text_length (intermediate numbered directory i) ≡ text_length directory + (18 + i)
unfolding str_of text_length
text_length-intermediate directory i =
    rw
      (
        text_length-append directory ("/" <> ("operation-" <> (marks i <> ".sqlite"))),
        text_length-append "/" ("operation-" <> (marks i <> ".sqlite")),
        text_length-append "operation-" (marks i <> ".sqlite"),
        text_length-append (marks i) ".sqlite",
        text_length-marks i,
      )
      (omega arith)

-- The indices are told apart by their lengths.
named_apart :
    (directory : String) (i j : ℕ)
    → i ≢ j
    → (intermediate numbered directory i == intermediate numbered directory j) ≡ false
named_apart directory i j h =
    elim (Bool-cases (intermediate numbered directory i == intermediate numbered directory j)) [
      | inl y ↦
          let same = ap text_length (
            (eq_iff (intermediate numbered directory i) (intermediate numbered directory j)).0 y) in
          let a = text_length-intermediate directory i in
          let b = text_length-intermediate directory j in absurd (h (omega arith))
      | inr n ↦ n
    ]

directory-IsNew : IsNew numbered sqlite paths "/tmp/v2" disk
unfolding is_prefix lookup
directory-IsNew = record {
  empty = λ p h. elim (Bool-cases ("/db" == p)) [
    | inl y ↦ absurd (unequal (sym (rw (← (eq_iff "/db" p).0 y) at h)))
    | inr n ↦ rw n refl
  ];
  elsewhere = refl;
  indices = λ i j h. named_apart _ i j h;
}
  where
    unequal : ¬ (true ≡ false)
    unequal h = cc

abbrev start : String
start = "data:"

quote-read_example :
    (has_nul "a\"b" ≡ true)
      × (quote_identifier "a\"b" ≡ raised (value_error "SQLite identifiers cannot contain NUL"))
    ⊎ (q : String) × (quote_identifier "a\"b" ≡ ok q)
      × (read_identifier (q <> " ADD") ≡ some ("a\"b", " ADD"))
quote-read_example = quote-read "a\"b" " ADD" refl

fingerprint_rows-Complete_example :
    fingerprint_rows hashing (text "1" ∷ text "2" ∷ [])
    ≡ some
        (record { row_count = 2; value_hash = digest_rows hashing (text "1" ∷ text "2" ∷ []) "" })
fingerprint_rows-Complete_example = fingerprint_rows-Complete hashing (text "1" ∷ text "2" ∷ [])

materialize_schema_diff-Refined_example :
    Matches "/tmp/v2"
      (evolve numbered sqlite operations start)
      (materialize_schema_diff numbered sqlite paths "/db" "/tmp/v2" diff disk)
    × Unchanged "/tmp/v2" disk
        (materialize_schema_diff numbered sqlite paths "/db" "/tmp/v2" diff disk).0
unfolding operations_of get_or to_list of_list lookup
materialize_schema_diff-Refined_example =
    materialize_schema_diff-Refined numbered sqlite paths diff operations "/db" "/tmp/v2" disk start
      refl refl refl directory-IsNew
