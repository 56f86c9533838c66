-- ===== src/Drift/Materialize/Refined.antt =====
-- `materialize_schema_diff` of factory.py, and its specification by `evolve`.
use drift_sql.Prelude.{
  ℕ, String, ◌<>◌, ◌≡◌, refl, sym, ◌∙◌, ◌≢◌, inl, inr, Bool, true, false, not, Option, none, some,
  List, [], ◌∷◌, ◌==◌, eq_iff, eq_refl, if◌then◌else◌, Bool-cases, keep,
}
use drift_sql.Result.{Error, ◌>>=◌, Result, ok, raised}
use drift_sql.Python.{Python, str_of}
use drift_sql.Python.Values.{Json, pos, int, text}
use drift_sql.Service.Toolbox.{Dict, lookup}
use drift_sql.Verl.Terms.{is_prefix}
use drift_sql.Drift.Disk.{Disk, Paths, Sqlite, make_directory, remove_directory}
use drift_sql.Drift.Materialize.{
  intermediate, chain, materialize_operations, operations_of, materialize_schema_diff,
}
use drift_sql.Drift.Materialize.Evolved.{
  Matches, Unchanged, evolve_one, evolve, plain_copy-Matches, materialize_operation-Matches,
}
use drift_sql.Drift.Materialize.Chain.{AreApart, OthersKept, chain-Matches}
use Prim.Native.String.append
use package.text.Mathlib.TextLemmas.{append_assoc}

prefix_append : (p s : String) → is_prefix p (p <> s) ≡ true
unfolding is_prefix
prefix_append String.[] s = refl
prefix_append (String.◌∷◌ c p) s =
    rw (append.cons c p s, eq_refl (String.◌∷◌ c ""), prefix_append p s) refl

lookup-keep_keys :
    {A : Type 0} (p : String → Bool) (key : String) (d : Dict A)
    → lookup key (keep (λ (f : String × A). p f.0) d) ≡ (if p key then lookup key d else none)
unfolding lookup keep
lookup-keep_keys p key [] = elim (Bool-cases (p key)) [ inl y ↦ rw y refl | inr n ↦ rw n refl ]
lookup-keep_keys p key ((k, v) ∷ rest) = elim (Bool-cases (p k)) [
  | inl y ↦
      rw (y, lookup-keep_keys p key rest)
        (elim (Bool-cases (k == key)) [
          | inl e ↦ rw (e, ← (eq_iff k key).0 e, y) refl
          | inr n ↦ rw n refl
        ])
  | inr y ↦
      rw (y, lookup-keep_keys p key rest)
        (elim (Bool-cases (k == key)) [
          | inl e ↦ rw (e, ← (eq_iff k key).0 e, y) refl
          | inr n ↦ rw n refl
        ])
]

module _ {D : Type 0} where
  -- What is not in the directory stays, and what is in it goes.
  lookup-remove_directory :
      (directory p : String) (disk : Disk D)
      → lookup p (remove_directory directory disk).files
        ≡ (if not (is_prefix (directory <> "/") p) then lookup p disk.files else none)
  unfolding remove_directory
  lookup-remove_directory directory p disk =
      lookup-keep_keys (λ k. not (is_prefix (directory <> "/") k)) p disk.files

  -- The result of the chain, when its directory is gone.
  removed-Matches :
      (directory target : String) (expected : Result D) (r : Disk D × Option Error)
      → is_prefix (directory <> "/") target ≡ false
      → Matches target expected r
      → Matches target expected (remove_directory directory r.0, r.1)
  removed-Matches directory target (raised e) r h m = m
  removed-Matches directory target (ok d) r h (n, l) =
      (n, rw (lookup-remove_directory directory target r.0, h) l)

module _ (py : Python) {D : Type 0} (sqlite : Sqlite D) (paths : Paths) where
  -- The temporary directory is new: nothing is in it, and the target is elsewhere. `str` tells
  -- the indices apart.
  pub record IsNew (target : String) (disk : Disk D) : Type 0 where
    pub empty :
        (p : String)
        → is_prefix
            (paths.fresh "driftsql-schema-chain-" (paths.parent target) disk.temporaries <> "/")
            p
          ≡ true
        → lookup p disk.files ≡ none
    pub elsewhere :
        is_prefix
          (paths.fresh "driftsql-schema-chain-" (paths.parent target) disk.temporaries <> "/")
          target
        ≡ false
    pub indices :
        (i j : ℕ)
        → i ≢ j
        → (intermediate py
              (paths.fresh "driftsql-schema-chain-" (paths.parent target) disk.temporaries)
              i
            == intermediate py
                (paths.fresh "driftsql-schema-chain-" (paths.parent target) disk.temporaries)
                j)
          ≡ false

  in_directory :
      (directory : String) (i : ℕ)
      → is_prefix (directory <> "/") (intermediate py directory i) ≡ true
  in_directory directory i =
      let file = "operation-" <> (str_of py (int (pos i)) <> ".sqlite") in
      rw (← append_assoc directory "/" file) (prefix_append (directory <> "/") file)

  unequal : ¬ (true ≡ false)
  unequal h = cc

  apart_of :
      (target : String) (disk : Disk D)
      → IsNew target disk
      → AreApart py sqlite
          (paths.fresh "driftsql-schema-chain-" (paths.parent target) disk.temporaries)
          target
  apart_of target disk new =
      let directory = paths.fresh "driftsql-schema-chain-" (paths.parent target) disk.temporaries in
      record {
        steps = new.indices;
        end = λ i. elim (Bool-cases (target == intermediate py directory i)) [
          | inl y ↦ absurd (
              unequal (
                sym (
                  rw (← (eq_iff target (intermediate py directory i)).0 y) at
                    (in_directory directory i))
                ∙ new.elsewhere))
          | inr n ↦ n
        ];
      }

  then_ok : (r : Result D) → (r >>= (λ d. ok d)) ≡ r
  then_ok (raised e) = refl
  then_ok (ok d) = refl

  -- The other files, when the directory is gone.
  removed-Unchanged :
      (target : String) (disk later : Disk D)
      → IsNew target disk
      → OthersKept py sqlite
          (paths.fresh "driftsql-schema-chain-" (paths.parent target) disk.temporaries)
          target
          (make_directory paths "driftsql-schema-chain-" (paths.parent target) disk).1
          later
      → Unchanged target disk (
          remove_directory
            (paths.fresh "driftsql-schema-chain-" (paths.parent target) disk.temporaries)
            later)
  unfolding make_directory
  removed-Unchanged target disk later new u p a =
      let directory = paths.fresh "driftsql-schema-chain-" (paths.parent target) disk.temporaries in
      elim (Bool-cases (is_prefix (directory <> "/") p)) [
        | inl y ↦ rw (lookup-remove_directory directory p later, y, new.empty p y) refl
        | inr n ↦
            rw (lookup-remove_directory directory p later, n)
              (u p a (λ j. elim (Bool-cases (intermediate py directory j == p)) [
                | inl y ↦ absurd (
                    unequal (
                      sym (
                        rw ((eq_iff (intermediate py directory j) p).0 y) at
                          (in_directory directory j))
                      ∙ n))
                | inr m ↦ m
              ]))
      ]

  -- What the whole routine leaves: the chain's result, and every other file as it was.
  materialize_operations-Matches :
      (operations : List Json) (source target : String) (disk : Disk D) (d : D)
      → lookup source disk.files ≡ some d
      → lookup target disk.files ≡ none
      → IsNew target disk
      → Matches target
          (evolve py sqlite operations d)
          (materialize_operations py sqlite paths source target operations disk)
        × Unchanged target disk
            (materialize_operations py sqlite paths source target operations disk).0
  unfolding materialize_operations evolve make_directory
  materialize_operations-Matches [] source target disk d h k new =
      plain_copy-Matches py sqlite source target disk d h k
  materialize_operations-Matches (operation ∷ []) source target disk d h k new =
      rw (then_ok (evolve_one py sqlite operation d))
        (materialize_operation-Matches py sqlite source target operation disk d h k)
  materialize_operations-Matches (operation ∷ second ∷ later) source target disk d h k new =
      let directory = paths.fresh "driftsql-schema-chain-" (paths.parent target) disk.temporaries in
      let made = (make_directory paths "driftsql-schema-chain-" (paths.parent target) disk).1 in
      let reached =
        (chain py sqlite directory target (operation ∷ second ∷ later) 0 source made).0 in
      let (m, u) =
        chain-Matches py sqlite directory target (apart_of target disk new) operation
          (second ∷ later) 0 source made d h
          (k, (λ j le. new.empty _ (in_directory directory j))) in
      (
        removed-Matches directory target _ _ new.elsewhere m,
        removed-Unchanged target disk reached new u,
      )

  -- Carrying out a schema diff on files does what its operations, taken one after another, do to the
  -- database: if they succeed, the target file holds their result, if one fails, its exception is
  -- raised; and no other file is changed, added or left behind. The source is there, the target is
  -- not, and the temporary directory is new.
  pub materialize_schema_diff-Refined :
      (diff : Json) (operations : List Json) (source target : String) (disk : Disk D) (d : D)
      → operations_of diff ≡ ok operations
      → lookup (paths.resolve source) disk.files ≡ some d
      → lookup (paths.resolve target) disk.files ≡ none
      → IsNew (paths.resolve target) disk
      → Matches
          (paths.resolve target)
          (evolve py sqlite operations d)
          (materialize_schema_diff py sqlite paths source target diff disk)
        × Unchanged
            (paths.resolve target)
            disk
            (materialize_schema_diff py sqlite paths source target diff disk).0
  unfolding materialize_schema_diff
  materialize_schema_diff-Refined diff operations source target disk d r h k new =
      rw (materialize_schema_diff, r)
        (materialize_operations-Matches operations (paths.resolve source) (paths.resolve target)
          disk d h k new)
