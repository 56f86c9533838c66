-- ===== src/Policy/Recovery/Discharge.antt =====
-- `_required_contract_recovery_action` of state_policy.py, behind a version check and a diff.
use drift_sql.Prelude.{
  ℕ, ◌<◌, String, ◌≡◌, sym, ◌∙◌, ◌≢◌, inl, inr, Bool, true, false, List, [], ◌∷◌, ◌++◌, arith,
  eq_iff, Bool-cases, keep, All, All-map, Any-append_right, All-keep, All-append_inv,
}
use drift_sql.Policy.Recovery.{
  Completed, is_valid, is_trigger, positions, required_contract_recovery_action,
}
use drift_sql.Policy.Recovery.Settled.{Settled, required-eq-empty_iff}

-- What may be appended: an unmasked event of the given name, behind all others.
abbrev pub Fresh : String → List Completed → Completed → Type 0
Fresh name completed c =
    (c.name ≡ name) × (is_valid c ≡ true) × All (λ b. b.index < c.index) completed

no_trigger : (c : Completed) → is_trigger c ≡ true → c.name ≡ "execute_sql"
unfolding is_trigger
no_trigger c h = ground (arith, eq_iff c.name "execute_sql")

version_ne_execute : ¬ (◌≡◌ {A = String} "get_schema_version" "execute_sql")
version_ne_execute h = cc

diff_ne_execute : ¬ (◌≡◌ {A = String} "inspect_schema_diff" "execute_sql")
diff_ne_execute h = cc

not_trigger :
    (name : String) (c : Completed) → c.name ≡ name → name ≢ "execute_sql" → is_trigger c ≡ false
not_trigger name c e ne = elim (Bool-cases (is_trigger c)) [
  | inl t ↦ absurd (ne (sym e ∙ no_trigger c t))
  | inr f ↦ f
]

All-positions :
    (p : Completed → Bool) (P : ℕ → Type 0) (xs : List Completed)
    → All (λ c. P c.index) xs
    → All P (positions p xs)
unfolding positions keep
All-positions p P [] h = tt
All-positions p P (x ∷ xs) (h, t) = elim (Bool-cases (p x)) [
  | inl e ↦ rw e (h, All-positions p P xs t)
  | inr e ↦ rw e (All-positions p P xs t)
]

keep-two :
    (p : Completed → Bool) (xs : List Completed) (v d : Completed)
    → p v ≡ true
    → p d ≡ true
    → keep p (xs ++ v ∷ d ∷ []) ≡ keep p xs ++ v ∷ d ∷ []
unfolding keep
keep-two p [] v d hv hd = rw (hv, hd)
keep-two p (x ∷ xs) v d hv hd = ground (arith, keep-two p xs v d hv hd)

keep-neither :
    (p : Completed → Bool) (xs : List Completed) (v d : Completed)
    → p v ≡ false
    → p d ≡ false
    → keep p (xs ++ v ∷ d ∷ []) ≡ keep p xs
unfolding keep
keep-neither p [] v d hv hd = rw (hv, hd)
keep-neither p (x ∷ xs) v d hv hd = ground (arith, keep-neither p xs v d hv hd)

-- After a version check and a diff, both unmasked and behind every other event, nothing is
-- mandatory, whatever happened before.
pub required-discharged :
    (completed : List Completed) (v d : Completed)
    → Fresh "get_schema_version" completed v
    → Fresh "inspect_schema_diff" (completed ++ v ∷ []) d
    → required_contract_recovery_action (completed ++ v ∷ d ∷ []) ≡ ""
unfolding positions
required-discharged completed v d version diff =
    (required-eq-empty_iff (completed ++ v ∷ d ∷ [])).1 (
      rw (keep-two is_valid completed v d version.1 diff.1) (
        rw (keep-neither is_trigger valid v d v_silent d_silent)
          (All-positions is_trigger _ valid (All-map valid settle before))))
  where
    valid : List Completed
    valid = keep is_valid completed

    v_silent : is_trigger v ≡ false
    v_silent = not_trigger "get_schema_version" v version.0 version_ne_execute

    d_silent : is_trigger d ≡ false
    d_silent = not_trigger "inspect_schema_diff" d diff.0 diff_ne_execute

    ordered : v.index < d.index
    ordered = (All-append_inv (λ b. b.index < d.index) completed (v ∷ []) diff.2).1.0

    before : All (λ c. c.index < v.index) valid
    before = All-keep (λ c. c.index < v.index) is_valid completed version.2

    settle : (c : Completed) → c.index < v.index → Settled (valid ++ v ∷ d ∷ []) c.index
    settle c h = Any-append_right _ valid (v ∷ d ∷ []) (
        inl (Any-append_right _ valid (v ∷ d ∷ []) (inr (inl (version.0, diff.0, ordered, inr h)))))
