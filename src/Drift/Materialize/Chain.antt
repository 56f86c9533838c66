-- ===== src/Drift/Materialize/Chain.antt =====
-- The chain of copies in `materialize_schema_diff` of factory.py.
use drift_sql.Prelude.{
  ℕ, suc, ◌≤◌, String, ◌≡◌, refl, ◌∙◌, ◌≢◌, inl, inr, false, none, some, List, [], ◌∷◌, arith, ◌==◌,
  eq_iff,
}
use drift_sql.Result.{Result-cases}
use drift_sql.Python.{Python}
use drift_sql.Python.Values.{Json}
use drift_sql.Service.Toolbox.{lookup}
use drift_sql.Drift.Disk.{Disk, Sqlite}
use drift_sql.Drift.Materialize.{intermediate, materialize_operation, chain}
use drift_sql.Drift.Materialize.Evolved.{
  after-none, after-some, Matches, Unchanged, evolve_one, evolve, materialize_operation-Matches,
}

module _ (py : Python) {D : Type 0} (sqlite : Sqlite D) (directory target : String) where
  abbrev step : ℕ → String
  step = intermediate py directory

  -- The names of the files are all different: `str` tells the indices apart, and the target is not
  -- in the temporary directory.
  pub record AreApart : Type 0 where
    pub steps : (i j : ℕ) → i ≢ j → (step i == step j) ≡ false
    pub end : (i : ℕ) → (target == step i) ≡ false

  -- What the chain needs of the disk: the steps from `index` on, and the target, are not there.
  abbrev IsFree : ℕ → Disk D → Type 0
  IsFree index disk =
      (lookup target disk.files ≡ none) × ((j : ℕ) → index ≤ j → lookup (step j) disk.files ≡ none)

  -- Every other file is as it was.
  abbrev pub OthersKept : Disk D → Disk D → Type 0
  OthersKept before later =
      (p : String)
      → (target == p) ≡ false
      → ((j : ℕ) → (step j == p) ≡ false)
      → lookup p later.files ≡ lookup p before.files

  module _ (apart : AreApart) where
    later-IsFree :
        (index : ℕ) (before later : Disk D)
        → IsFree index before
        → Unchanged (step index) before later
        → IsFree (suc index) later
    later-IsFree index before later (t, s) u = (
      u target (differs target (step index) (apart.end index)) ∙ t,
      (λ j le. u (step j) (apart.steps index j (ground arith)) ∙ s j (omega arith)),
    )
      where
        differs : (a b : String) → (a == b) ≡ false → (b == a) ≡ false
        differs a b h = ground (arith, eq_iff a b, eq_iff b a)

    -- The chain follows the specification.
    pub chain-Matches :
        (first : Json) (later : List Json) (index : ℕ) (current : String) (disk : Disk D) (d : D)
        → lookup current disk.files ≡ some d
        → IsFree index disk
        → Matches target
            (evolve py sqlite (first ∷ later) d)
            (chain py sqlite directory target (first ∷ later) index current disk)
          × OthersKept disk (chain py sqlite directory target (first ∷ later) index current disk).0
    unfolding chain evolve
    chain-Matches first [] index current disk d h (t, s) =
        let r = materialize_operation py sqlite current target first disk in
        let (m, u) = materialize_operation-Matches py sqlite current target first disk d h t in
        elim (Result-cases (evolve_one py sqlite first d)) [
          | inl (d', e) ↦
              let (n, l) = (rw e at m) in
              rw (e, after-none r (chain py sqlite directory target [] (suc index) target) n)
                ((refl, l), (λ p a b. u p a))
          | inr (x, e) ↦
              rw
                (
                  e,
                  after-some r (chain py sqlite directory target [] (suc index) target) (rw e at m),
                )
                (refl, (λ p a b. u p a))
        ]
    chain-Matches first (second ∷ later) index current disk d h (t, s) =
        let next = step index in
        let r = materialize_operation py sqlite current next first disk in
        let (m, u) =
          materialize_operation-Matches py sqlite current next first disk d h
            (s index (omega arith)) in
        let rest = chain py sqlite directory target (second ∷ later) (suc index) next in
        elim (Result-cases (evolve_one py sqlite first d)) [
          | inl (d', e) ↦
              let (n, l) = (rw e at m) in
              let (m', k) =
                chain-Matches second later (suc index) next r.0 d' l
                  (later-IsFree index disk r.0 (t, s) u) in
              rw (e, after-none r rest n) (m', (λ p a b. k p a b ∙ u p (b index)))
          | inr (x, e) ↦ rw (e, after-some r rest (rw e at m)) (refl, (λ p a b. u p (b index)))
        ]
