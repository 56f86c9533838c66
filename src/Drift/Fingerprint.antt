-- ===== src/Drift/Fingerprint.antt =====
-- `fingerprint_query` of factory.py: the number and the hash of the rows of a query, read in batches.
use drift_sql.Prelude.{
  ℕ, zero, suc, ◌+◌, ◌-◌, ◌<◌, min, String, ◌<>◌, ◌≡◌, refl, ap, ◌∙◌, Option, none, some, List, [],
  ◌∷◌, ◌++◌, arith, length, take, drop, length-take,
}
use drift_sql.Result.{◌>>=◌, or_raise, runtime_error, sql_error, Result}
use drift_sql.Python.Values.{Json}
use drift_sql.Service.Toolbox.{lookup}
use drift_sql.Drift.Disk.{Disk, Paths, Sqlite, Hashing}

pub record QueryFingerprint : Type 0 where
  pub row_count : ℕ
  pub value_hash : String

module _ (hashing : Hashing) where
  -- `digest.update(...)` of a row and of the end of its line: what has been hashed so far.
  unfoldable pub digest_rows : List Json → String → String
  digest_rows [] digest = digest
  digest_rows (row ∷ rows) digest = digest_rows rows ((digest <> hashing.repr_row row) <> "\n")

  -- The loop, with the rows that the cursor has not given yet.
  unfoldable pub fingerprint_loop : ℕ → List Json → String → ℕ → Option (String × ℕ)
  unfolding digest_rows
  fingerprint_loop zero rows digest row_count = none
  fingerprint_loop (suc fuel) [] digest row_count = some (digest, row_count)
  fingerprint_loop (suc fuel) (row ∷ rows) digest row_count =
      let batch = take 1000 (row ∷ rows) in
      fingerprint_loop fuel (drop 1000 (row ∷ rows)) (digest_rows batch digest)
        (row_count + length batch)

  unfoldable pub fingerprint_rows : List Json → Option QueryFingerprint
  unfolding fingerprint_loop
  fingerprint_rows rows =
      elim (fingerprint_loop (suc (length rows)) rows "" 0) as (λ o. Option QueryFingerprint) [
        | none ↦ none
        | some (digest, row_count) ↦
            some (record { row_count = row_count; value_hash = hashing.sha256 digest })
      ]

  -- `fingerprint_query`
  unfoldable pub fingerprint_query :
      {D : Type 0} → Sqlite D → Paths → String → String → Json → Disk D → Result QueryFingerprint
  unfolding fingerprint_rows
  fingerprint_query sqlite paths database sql timeout_seconds disk = do
    content ←
        or_raise (sql_error "unable to open database file")
          (lookup (paths.resolve database) disk.files)
    rows ← sqlite.stream sql timeout_seconds content
    or_raise (runtime_error "out of fuel") (fingerprint_rows rows)

  digest_rows-append :
      (xs ys : List Json) (digest : String)
      → digest_rows ys (digest_rows xs digest) ≡ digest_rows (xs ++ ys) digest
  unfolding digest_rows
  digest_rows-append [] ys digest = refl
  digest_rows-append (x ∷ xs) ys digest =
      digest_rows-append xs ys ((digest <> hashing.repr_row x) <> "\n")

  take-drop : (n : ℕ) (xs : List Json) → (take n xs ++ drop n xs) ≡ xs
  take-drop zero xs = refl
  take-drop (suc n) [] = refl
  take-drop (suc n) (x ∷ xs) = ap (λ ys. x ∷ ys) (take-drop n xs)

  length-drop : (n : ℕ) (xs : List Json) → length (drop n xs) ≡ length xs - n
  length-drop zero xs = omega arith
  length-drop (suc n) [] = omega arith
  length-drop (suc n) (x ∷ xs) = length-drop n xs ∙ omega arith

  abbrev outcome : String → ℕ → Option (String × ℕ)
  outcome digest row_count = some (digest, row_count)

  -- A batch and what comes behind it.
  batched :
      (n : ℕ) (rows : List Json) (digest : String) (row_count : ℕ)
      → outcome
          (digest_rows (drop n rows) (digest_rows (take n rows) digest))
          ((row_count + length (take n rows)) + length (drop n rows))
        ≡ outcome (digest_rows rows digest) (row_count + length rows)
  batched n rows digest row_count =
      let counted : (row_count + min n (length rows)) + (length rows - n)
          ≡ row_count + length rows =
        omega arith in
      rw
        (
          digest_rows-append (take n rows) (drop n rows) digest,
          take-drop n rows,
          length-take n rows,
          length-drop n rows,
          counted,
        )
        refl

  fingerprint_loop-enough :
      (fuel : ℕ) (rows : List Json) (digest : String) (row_count : ℕ)
      → length rows < fuel
      → fingerprint_loop fuel rows digest row_count
        ≡ some (digest_rows rows digest, row_count + length rows)
  unfolding fingerprint_loop digest_rows
  fingerprint_loop-enough zero rows digest row_count h = absurd (omega arith)
  fingerprint_loop-enough (suc fuel) [] digest row_count h = ap (outcome digest) (omega arith)
  fingerprint_loop-enough (suc fuel) (row ∷ rows) digest row_count h =
      fingerprint_loop-enough fuel (drop 1000 (row ∷ rows))
        (digest_rows (take 1000 (row ∷ rows)) digest) (row_count + length (take 1000 (row ∷ rows)))
        (rw (length-drop 1000 (row ∷ rows)) (omega arith))
      ∙ batched 1000 (row ∷ rows) digest row_count

  -- The fingerprint of a query is that of all its rows in order, whatever the batches in which they
  -- are read: their number, and the hash of their lines one after another.
  pub fingerprint_rows-Complete :
      (rows : List Json)
      → fingerprint_rows rows
        ≡ some
            (record { row_count = length rows; value_hash = hashing.sha256 (digest_rows rows "") })
  unfolding fingerprint_rows
  fingerprint_rows-Complete rows =
      let all : 0 + length rows ≡ length rows = omega arith in
      rw
        (fingerprint_rows, fingerprint_loop-enough (suc (length rows)) rows "" 0 (omega arith), all)
        refl
