-- ===== src/Policy/Recovery/Settled.antt =====
-- `_required_contract_recovery_action` of state_policy.py, and the mismatches that it reads.
use drift_sql.Prelude.{
  any-and, All-reverse, any-congr, any-or, All-reverse_inv, any_iff, ℕ, ◌<◌, min, String, ◌≡◌, refl,
  ◌≢◌, ◌↔◌, ◌⊎◌, inl, inr, Bool, true, false, ◌&&◌, ◌||◌, List, [], ◌∷◌, reverse, arith, eq_iff,
  ltb, Bool-cases, keep, any, All, Any, All-map,
}
use drift_sql.Policy.Recovery.{
  Completed, is_valid, is_named, is_trigger, positions, is_version_before, is_version_after,
  is_diff_between, is_diff_after, already_recovered, minimum, after_mismatch, recovery_scan,
  required_contract_recovery_action,
}

-- The version `v` and the diff `d` settle the mismatch at `m`.
abbrev pub Settles : ℕ → Completed → Completed → Type 0
Settles m v d =
    (v.name ≡ "get_schema_version")
    × (d.name ≡ "inspect_schema_diff")
    × (v.index < d.index)
    × ((d.index < m) ⊎ (m < v.index))

-- `m` is settled by a version and a diff in this order, both before it or both behind it.
abbrev pub Settled : List Completed → ℕ → Type 0
Settled valid m = Any (λ v. Any (λ d. Settles m v d) valid) valid

-- The same as the code computes it.
settled : List Completed → ℕ → Bool
settled valid m =
    already_recovered valid m
    || any (λ v. any (is_diff_after v) valid) (positions (is_version_after m) valid)

any-positions :
    (p : Completed → Bool) (q : ℕ → Bool) (xs : List Completed)
    → any q (positions p xs) ≡ any (λ c. p c && q c.index) xs
unfolding any positions keep
any-positions p q [] = refl
any-positions p q (x ∷ xs) = ground (arith, any-positions p q xs)

any-diff-min :
    (a b : ℕ) (xs : List Completed)
    → any (is_diff_after (min a b)) xs ≡ (any (is_diff_after a) xs || any (is_diff_after b) xs)
unfolding any
any-diff-min a b [] = refl
any-diff-min a b (x ∷ xs) = ground (arith, any-diff-min a b xs)

any-diff-minimum :
    (valid : List Completed) (v : ℕ) (vs : List ℕ)
    → any (is_diff_after (minimum v vs)) valid ≡ any (λ u. any (is_diff_after u) valid) (v ∷ vs)
unfolding minimum any
any-diff-minimum valid v [] = ground arith
any-diff-minimum valid v (u ∷ us) =
    ground (arith, any-diff-minimum valid (min v u) us, any-diff-min v u valid)

version_ne_empty : ¬ (◌≡◌ {A = String} "get_schema_version" "")
version_ne_empty h = cc

diff_ne_empty : ¬ (◌≡◌ {A = String} "inspect_schema_diff" "")
diff_ne_empty h = cc

after_mismatch-settled :
    (valid : List Completed) (vs : List ℕ) (rest : String)
    → any (λ v. any (is_diff_after v) valid) vs ≡ true
    → after_mismatch valid vs rest ≡ rest
unfolding after_mismatch any
after_mismatch-settled valid [] rest h = cc
after_mismatch-settled valid (v ∷ vs) rest h = rw (any-diff-minimum, h)

after_mismatch-open :
    (valid : List Completed) (vs : List ℕ) (rest : String)
    → any (λ v. any (is_diff_after v) valid) vs ≡ false
    → after_mismatch valid vs rest ≢ ""
unfolding after_mismatch
after_mismatch-open valid [] rest h = version_ne_empty
after_mismatch-open valid (v ∷ vs) rest h = rw (any-diff-minimum, h) diff_ne_empty

scan_step :
    (valid : List Completed) (m : ℕ) (ms : List ℕ)
    → (recovery_scan valid (m ∷ ms) ≡ "")
      ↔ ((settled valid m ≡ true) × (recovery_scan valid ms ≡ ""))
unfolding recovery_scan settled
scan_step valid m ms = elim (Bool-cases (already_recovered valid m)) [
  | inl e ↦ rw e (λ h. (refl, h), λ h. h.1)
  | inr e ↦
      let later = positions (is_version_after m) valid in
      elim (Bool-cases (any (λ v. any (is_diff_after v) valid) later)) [
        | inl t ↦
            rw (e, t, after_mismatch-settled valid later (recovery_scan valid ms) t)
              (λ h. (refl, h), λ h. h.1)
        | inr f ↦
            rw (e, f)
              (λ h. absurd (after_mismatch-open valid later (recovery_scan valid ms) f h), λ h. cc)
      ]
]

scan-settled :
    (valid : List Completed) (ms : List ℕ)
    → (recovery_scan valid ms ≡ "") ↔ All (λ m. settled valid m ≡ true) ms
unfolding recovery_scan
scan-settled valid [] = (λ _. tt, λ _. refl)
scan-settled valid (m ∷ ms) =
    let step = scan_step valid m ms in
    let rest = scan-settled valid ms in
    (λ h. let (a, b) = step.0 h in (a, rest.0 b), λ h. step.1 (h.0, rest.1 h.1))

-- One version `v` and one diff `d` that settle `m`.
settles : ℕ → Completed → Completed → Bool
settles m v d =
    is_named "get_schema_version" v
    && (is_named "inspect_schema_diff" d
        && (ltb v.index d.index && (ltb d.index m || ltb m v.index)))

settles_cases :
    (m : ℕ) (v d : Completed)
    → ((is_version_before m v && is_diff_between v.index m d)
        || (is_version_after m v && is_diff_after v.index d))
      ≡ settles m v d
unfolding settles
settles_cases m v d = ground arith

settled-any :
    (valid : List Completed) (m : ℕ) → settled valid m ≡ any (λ v. any (settles m v) valid) valid
unfolding settled already_recovered
settled-any valid m =
    rw (any-positions, any-positions, any-or)
      (any-congr _ _ valid
        λ v. rw (any-and, any-and, any-or) (any-congr _ _ valid λ d. settles_cases m v d))

settles_iff : (m : ℕ) (v d : Completed) → (settles m v d ≡ true) ↔ Settles m v d
unfolding settles is_named
settles_iff m v d =
    ground (arith, eq_iff v.name "get_schema_version", eq_iff d.name "inspect_schema_diff")

settled_iff : (valid : List Completed) (m : ℕ) → (settled valid m ≡ true) ↔ Settled valid m
settled_iff valid m = rw settled-any (any_iff _ _ valid λ v. any_iff _ _ valid (settles_iff m v))

-- Nothing is mandatory exactly when every unmasked execution that failed or mismatched is settled:
-- a version check and a later diff stand both before it or both behind it.
pub required-eq-empty_iff :
    (completed : List Completed)
    → let valid = keep is_valid completed in
      (required_contract_recovery_action completed ≡ "")
      ↔ All (Settled valid) (positions is_trigger valid)
unfolding required_contract_recovery_action
required-eq-empty_iff completed =
    let valid = keep is_valid completed in
    let ms = positions is_trigger valid in
    let scan = scan-settled valid (reverse ms) in
    (
      λ h. All-map ms (λ m. (settled_iff valid m).0) (All-reverse_inv _ ms (scan.0 h)),
      λ h. scan.1 (All-reverse _ ms (All-map ms (λ m. (settled_iff valid m).1) h)),
    )
