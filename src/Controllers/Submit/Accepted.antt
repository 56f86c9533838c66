-- ===== src/Controllers/Submit/Accepted.antt =====
-- The decisions of driftsql/controllers/validated_submit.py that accept a submission.
use drift_sql.Prelude.{
  ℕ, ◌+◌, ◌<◌, String, ◌<>◌, ◌≡◌, refl, ap, ◌∙◌, ◌≢◌, ◌⊎◌, inl, inr, Bool, true, false, not, ◌||◌,
  Option, none, some, List, [], ◌∷◌, arith, ◌==◌, eq_iff, leb, if◌then◌else◌, Bool-cases, All,
  All-map,
}
use drift_sql.Result.{>>=-eq-ok, ok_injective, Result, ok, raised}
use drift_sql.Python.{Python, str_of}
use drift_sql.Python.Values.{Json, Fields, get_or, null, text, obj, end}
use drift_sql.Python.Text.{strip}
use drift_sql.Policy.Event.{Event}
use drift_sql.Service.Tools.{as_dict}
use drift_sql.Service.Tools.Admission.{as_dict-eq-ok}
use drift_sql.Controllers.Submit.{
  Materialized, Sandboxes, ContractDecision, refuse, Candidate, Contract, dict_or_empty,
  is_read_only_query, called_tool, first_diff_from, succeeded_flag, candidate_of, add_candidate,
  candidates_from, is_match, accept, mismatch, judge, read_contract, on_candidates, on_diff,
  on_database, on_contract, find_contract_validated_submission, made, failed,
}

refuse-accepted : (reason : String) → (refuse reason).accepted ≢ true
unfolding refuse
refuse-accepted reason h = cc

not_refused :
    (reason : String) {d : ContractDecision} → ok (refuse reason) ≡ ok d → d.accepted ≢ true
not_refused reason h k =
    refuse-accepted reason (ap (λ (x : ContractDecision). x.accepted) (ok_injective h) ∙ k)

module _ (py : Python) (boxes : Sandboxes) where
  -- The event is the execution that a candidate stands for.
  abbrev pub Ran : Candidate → Event → Type 0
  Ran c e =
      (called_tool py boxes e ≡ "execute_sql")
      × (arguments : Fields) × (get_or "arguments" (obj end) e ≡ obj arguments)
      × (strip (str_of py (get_or "sql" (text "") arguments)) ≡ c.sql)
      × (metrics : Fields) × (get_or "metrics" (obj end) e ≡ obj metrics)
      × (succeeded_flag py boxes metrics ≡ c.succeeded)

  -- The event at position `n`, where the first one stands at `i`, has this property.
  abbrev pub At : (Event → Type 0) → ℕ → ℕ → List Event → Type 0
  At P n i [] = ⊥
  At P n i (e ∷ es) = ((n ≡ i) × P e) ⊎ At P n (i + 1) es

  -- Behind the first diff, the execution at the position of the candidate ran its query. The events
  -- are those from position `i` on.
  abbrev pub IsCandidate : ℕ → ℕ → List Event → Candidate → Type 0
  IsCandidate first i es c =
      (first < c.index) × (c.read_only ≡ is_read_only_query boxes c.sql) × At (Ran c) c.index i es

  candidate_of-Ran :
      (first i : ℕ) (e : Event) (c : Candidate)
      → called_tool py boxes e ≡ "execute_sql"
      → candidate_of py boxes i e ≡ ok (some c)
      → (c.index ≡ i) × (c.read_only ≡ is_read_only_query boxes c.sql) × Ran c e
  unfolding candidate_of
  candidate_of-Ran first i e c named h =
      let (arguments, a, h1) = >>=-eq-ok (as_dict (get_or "arguments" (obj end) e)) _ h in
      let (metrics, m, h2) = >>=-eq-ok (as_dict (get_or "metrics" (obj end) e)) _ h1 in
      let same =
        chosen (strip (str_of py (get_or "sql" (text "") arguments))) _ c (ok_injective h2) in
      rw (← same)
        (refl, refl, (named, arguments, as_dict-eq-ok _ a, refl, metrics, as_dict-eq-ok _ m, refl))
    where
      chosen :
          (sql : String) (c c' : Candidate)
          → (if sql == "" then none else some c) ≡ some c'
          → c ≡ c'
      chosen sql c c' k = elim (Bool-cases (sql == "")) [
        | inl y ↦ let bad = rw y at k in cc
        | inr n ↦ let good = rw n at k in cc
      ]

  candidates_from-All :
      (first i : ℕ) (es : List Event) (cs : List Candidate)
      → candidates_from py boxes first i es ≡ ok cs
      → All (IsCandidate first i es) cs
  unfolding candidates_from
  candidates_from-All first i [] cs h = rw (← ok_injective h) tt
  candidates_from-All first i (e ∷ es) cs h =
      elim (Bool-cases (leb i first || not (called_tool py boxes e == "execute_sql"))) [
        | inl y ↦ later cs (candidates_from-All first (i + 1) es cs (rw y at h))
        | inr n ↦
            let (c, one, h1) = >>=-eq-ok (candidate_of py boxes i e) _ (rw n at h) in
            let (rest, more, h2) = >>=-eq-ok (candidates_from py boxes first (i + 1) es) _ h1 in
            let named : called_tool py boxes e ≡ "execute_sql" =
              ground (arith, eq_iff (called_tool py boxes e) "execute_sql") in
            rw (← ok_injective h2) (
              added c rest (ground arith) named one
                (later rest (candidates_from-All first (i + 1) es rest more)))
      ]
    where
      later :
          (cs : List Candidate)
          → All (IsCandidate first (i + 1) es) cs
          → All (IsCandidate first i (e ∷ es)) cs
      later cs h = All-map cs (λ c (p, r, a). (p, r, inr a)) h

      added :
          (c : Option Candidate) (rest : List Candidate)
          → first < i
          → called_tool py boxes e ≡ "execute_sql"
          → candidate_of py boxes i e ≡ ok c
          → All (IsCandidate first i (e ∷ es)) rest
          → All (IsCandidate first i (e ∷ es)) (add_candidate py boxes c rest)
      added none rest lt named h t = t
      added (some c) rest lt named h t =
          let (at, read, ran) = candidate_of-Ran first i e c named h in
          ((rw at lt, read, inl (at, ran)), t)

  -- A candidate that is accepted, with the database on which it was judged.
  abbrev pub IsAccepted : String → Contract → Candidate → ContractDecision → Type 0
  IsAccepted database contract c d =
      (d ≡ accept py boxes database contract c)
      × (c.read_only ≡ true)
      × (c.succeeded ≡ true)
      × (is_match py boxes contract (boxes.fingerprint database c.sql) ≡ true)

  judge-accepted :
      (P : Candidate → Type 0) (database : String) (contract : Contract) (saw : Bool)
      (cs : List Candidate)
      → All P cs
      → (judge py boxes database contract saw cs).accepted ≡ true
      → (c : Candidate) × P c
        × IsAccepted database contract c (judge py boxes database contract saw cs)
  unfolding judge mismatch refuse
  judge-accepted P database contract true [] h k = cc
  judge-accepted P database contract false [] h k = cc
  judge-accepted P database contract saw (c ∷ cs) (p, t) k = elim (Bool-cases c.read_only) [
    | inr n ↦ let bad = rw n at k in cc
    | inl r ↦ elim (Bool-cases c.succeeded) [
      | inr n ↦ rw (r, n) (judge-accepted P database contract saw cs t (rw (r, n) at k))
      | inl s ↦ elim (Bool-cases (is_match py boxes contract (boxes.fingerprint database c.sql))) [
        | inl m ↦ (c, p, (rw (r, s, m) refl, r, s, m))
        | inr n ↦ rw (r, s, n) (judge-accepted P database contract true cs t (rw (r, s, n) at k))
      ]
    ]
  ]

  -- The first inspected diff, the database that the schema diff makes of the source database, and
  -- the accepted candidate.
  abbrev pub Accepted : List Event → String → Fields → Contract → ContractDecision → Type 0
  Accepted trajectory source diff contract d =
      (first : ℕ) × (first_diff_from py boxes 0 trajectory ≡ some first)
      × (database : String) × (boxes.materialize source diff ≡ made database)
      × (c : Candidate) × IsCandidate first 0 trajectory c
      × IsAccepted database contract c d

  -- What the extra information names: the contract, the source database and the schema diff.
  abbrev pub Stored : Fields → Contract → String → Fields → Type 0
  Stored extra contract source diff =
      ((expected : Fields) × (dict_or_empty (get_or "result_fingerprint" (obj end) extra)
          ≡ ok expected)
        × (read_contract py boxes expected ≡ ok contract))
      × ((contract.value_hash == "") ≡ false)
      × (str_of py (get_or "source_db" (text "") extra) ≡ source)
      × (boxes.is_file source ≡ true)
      × (get_or "schema_diff" null extra ≡ obj diff)

  on_candidates-accepted :
      (P : Candidate → Type 0) (contract : Contract) (source : String) (diff : Fields)
      (cs : List Candidate)
      → All P cs
      → (on_candidates py boxes contract source diff cs).accepted ≡ true
      → (database : String) × (boxes.materialize source diff ≡ made database)
        × (c : Candidate) × P c
        × IsAccepted database contract c (on_candidates py boxes contract source diff cs)
  unfolding on_candidates
  on_candidates-accepted P contract source diff [] t k =
      absurd (refuse-accepted "no_safe_successful_post_diff_execution" k)
  on_candidates-accepted P contract source diff (c ∷ cs) t k =
      by_result (boxes.materialize source diff) k
    where
      by_result :
          (m : Materialized)
          → (elim m as (λ m. ContractDecision) [
            | made database ↦ judge py boxes database contract false (c ∷ cs)
            | failed name ↦ refuse ("materialization_failed:" <> name)
          ]).accepted
            ≡ true
          → (database : String) × (m ≡ made database)
            × (c' : Candidate) × P c'
            × IsAccepted database contract c' (elim m as (λ m. ContractDecision) [
              | made database ↦ judge py boxes database contract false (c ∷ cs)
              | failed name ↦ refuse ("materialization_failed:" <> name)
            ])
      by_result (made database) k' =
          let (c', p, taken) = judge-accepted P database contract false (c ∷ cs) t k' in
          (database, refl, c', p, taken)
      by_result (failed name) k' = absurd (refuse-accepted ("materialization_failed:" <> name) k')

  on_diff-accepted :
      (trajectory : List Event) (contract : Contract) (source : String) (diff : Fields)
      (o : Option ℕ) {d : ContractDecision}
      → first_diff_from py boxes 0 trajectory ≡ o
      → on_diff py boxes contract source diff trajectory o ≡ ok d
      → d.accepted ≡ true
      → Accepted trajectory source diff contract d
  unfolding on_diff
  on_diff-accepted trajectory contract source diff none f h k =
      absurd (not_refused "schema_diff_not_inspected" h k)
  on_diff-accepted trajectory contract source diff (some first) f h k =
      let (cs, e, h1) = >>=-eq-ok (candidates_from py boxes first 0 trajectory) _ h in
      let same = ok_injective h1 in
      let (database, m, c, p, taken) =
        on_candidates-accepted (IsCandidate first 0 trajectory) contract source diff cs
          (candidates_from-All first 0 trajectory cs e)
          (ap (λ (x : ContractDecision). x.accepted) same ∙ k) in
      rw (← same) (first, f, database, m, c, p, taken)

  on_database-accepted :
      (trajectory : List Event) (contract : Contract) (source : String) (v : Json)
      {d : ContractDecision}
      → on_database py boxes contract source v trajectory ≡ ok d
      → d.accepted ≡ true
      → (boxes.is_file source ≡ true)
        × (diff : Fields) × (v ≡ obj diff)
        × Accepted trajectory source diff contract d
  unfolding on_database
  on_database-accepted trajectory contract source (obj diff) h k =
      elim (Bool-cases (boxes.is_file source)) [
        | inl y ↦
            (y, diff, refl, on_diff-accepted trajectory contract source diff _ refl (rw y at h) k)
        | inr n ↦ absurd (not_refused "missing_database_or_schema_diff" (rw n at h) k)
      ]
  on_database-accepted trajectory contract source null h k =
      absurd (not_refused "missing_database_or_schema_diff" h k)
  on_database-accepted trajectory contract source _ h k =
      absurd (not_refused "missing_database_or_schema_diff" h k)

  on_contract-accepted :
      (trajectory : List Event) (extra : Fields) (r : Result Contract) {d : ContractDecision}
      → on_contract py boxes extra trajectory r ≡ ok d
      → d.accepted ≡ true
      → (contract : Contract) × (r ≡ ok contract)
        × ((contract.value_hash == "") ≡ false)
        × (boxes.is_file (str_of py (get_or "source_db" (text "") extra)) ≡ true)
        × (diff : Fields) × (get_or "schema_diff" null extra ≡ obj diff)
        × Accepted trajectory (str_of py (get_or "source_db" (text "") extra)) diff contract d
  unfolding on_contract
  on_contract-accepted trajectory extra (raised e) h k =
      absurd (not_refused "missing_result_contract" h k)
  on_contract-accepted trajectory extra (ok contract) h k =
      elim (Bool-cases (contract.value_hash == "")) [
        | inl y ↦ absurd (not_refused "missing_result_contract" (rw y at h) k)
        | inr n ↦
            let (file, diff, v, taken) =
              on_database-accepted trajectory contract _ _ (rw n at h) k in
            (contract, refl, n, file, diff, v, taken)
      ]

  -- A submission is accepted only if the stored fingerprint of the extra information can be read as
  -- a contract that names a hash, the source database is a file, the schema diff makes a database of
  -- it, and an inspected diff is in the trajectory; and, on that database, the read-only query of an
  -- execution behind the first such diff, which succeeded in the trajectory at the position that the
  -- decision names, gives the row count and the hash of this contract. That query is what is
  -- submitted.
  pub find-accepted :
      (trajectory : List Event) (extra : Fields) {d : ContractDecision}
      → find_contract_validated_submission py boxes trajectory extra ≡ ok d
      → d.accepted ≡ true
      → (contract : Contract) × (source : String) × (diff : Fields) × Stored extra contract source
          diff
        × Accepted trajectory source diff contract d
  unfolding find_contract_validated_submission
  find-accepted trajectory extra {d} h k =
      let (expected, e, h1) =
        >>=-eq-ok (dict_or_empty (get_or "result_fingerprint" (obj end) extra)) _ h in
      let (contract, r, n, file, diff, v, taken) =
        on_contract-accepted trajectory extra (read_contract py boxes expected) h1 k in
      (
        contract,
        str_of py (get_or "source_db" (text "") extra),
        diff,
        ((expected, e, r), n, refl, file, v),
        taken,
      )
