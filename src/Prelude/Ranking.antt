-- ===== src/Prelude/Ranking.antt =====
-- `sorted(..., reverse=True)` and `list.sort(reverse=True)`: the greatest first, equal ones in their
-- order. `above x y` says that the key of `x` is greater than that of `y`.
use Prim.Native.Nat.{ℕ, zero, suc}
use mathlib.Core.Path.{◌≡◌, refl, ap, ◌∙◌}
use native.Mathlib.Omega.{arith}
use mathlib.Core.Logic.{◌⊎◌, inl, inr}
use mathlib.Core.Bool.{Bool, true, false}
use mathlib.Core.List.{List, [], ◌∷◌}
use drift_sql.Prelude.Tests.{if◌then◌else◌, Bool-cases}
use drift_sql.Prelude.Lists.{All, Any, All-keep, All-map, keep, length, take}

module _ {A : Type 0} (above : A → A → Bool) where
  unfoldable pub rank_in : A → List A → List A
  rank_in x [] = x ∷ []
  rank_in x (y ∷ ys) = let rest = rank_in x ys in if above y x then y ∷ rest else x ∷ y ∷ ys

  unfoldable pub ranked : List A → List A
  unfolding rank_in
  ranked [] = []
  ranked (x ∷ xs) = rank_in x (ranked xs)

  -- Nothing that stands later has a greater key.
  abbrev pub IsRanked : List A → Type 0
  IsRanked [] = Unit
  IsRanked (x ∷ xs) = All (λ y. above y x ≡ false) xs × IsRanked xs

  pub All-rank_in : (P : A → Type 0) (x : A) (ys : List A) → P x → All P ys → All P (rank_in x ys)
  unfolding rank_in
  All-rank_in P x [] p all = (p, all)
  All-rank_in P x (y ∷ ys) p (q, all) = elim (Bool-cases (above y x)) [
    | inl e ↦ rw e (q, All-rank_in P x ys p all)
    | inr e ↦ rw e (p, (q, all))
  ]

  pub All-rank_in_inv :
      (P : A → Type 0) (x : A) (ys : List A) → All P (rank_in x ys) → P x × All P ys
  unfolding rank_in
  All-rank_in_inv P x [] all = all
  All-rank_in_inv P x (y ∷ ys) all = split (above y x) (All-rank_in_inv P x ys) all
    where
      split :
          (b : Bool)
          → (All P (rank_in x ys) → P x × All P ys)
          → All P (if b then y ∷ rank_in x ys else x ∷ y ∷ ys)
          → P x × All P (y ∷ ys)
      split true inverse (q, rest) = let (p, others) = inverse rest in (p, (q, others))
      split false inverse h = h

  pub All-ranked : (P : A → Type 0) (xs : List A) → All P xs → All P (ranked xs)
  unfolding ranked
  All-ranked P [] all = all
  All-ranked P (x ∷ xs) (p, all) = All-rank_in P x (ranked xs) p (All-ranked P xs all)

  pub All-ranked_inv : (P : A → Type 0) (xs : List A) → All P (ranked xs) → All P xs
  unfolding ranked
  All-ranked_inv P [] all = all
  All-ranked_inv P (x ∷ xs) all =
      let (p, rest) = All-rank_in_inv P x (ranked xs) all in (p, All-ranked_inv P xs rest)

  length-rank_in : (x : A) (ys : List A) → length (rank_in x ys) ≡ suc (length ys)
  unfolding rank_in
  length-rank_in x [] = refl
  length-rank_in x (y ∷ ys) = ground (arith, length-rank_in x ys)

  pub length-ranked : (xs : List A) → length (ranked xs) ≡ length xs
  unfolding ranked
  length-ranked [] = refl
  length-ranked (x ∷ xs) = length-rank_in x (ranked xs) ∙ ap suc (length-ranked xs)

  module _ (exclusive : (x y : A) → above x y ≡ true → above y x ≡ false)
      (chained : (x y z : A) → above x y ≡ false → above y z ≡ false → above x z ≡ false) where
    rank_in-IsRanked : (x : A) (ys : List A) → IsRanked ys → IsRanked (rank_in x ys)
    unfolding rank_in
    rank_in-IsRanked x [] h = (tt, h)
    rank_in-IsRanked x (y ∷ ys) (all, h) = elim (Bool-cases (above y x)) [
      | inl e ↦
          rw e (
            All-rank_in (λ z. above z y ≡ false) x ys (exclusive y x e) all,
            rank_in-IsRanked x ys h,
          )
      | inr e ↦ rw e ((e, All-map ys (λ z k. chained z y x k e) all), (all, h))
    ]

    pub ranked-IsRanked : (xs : List A) → IsRanked (ranked xs)
    unfolding ranked
    ranked-IsRanked [] = tt
    ranked-IsRanked (x ∷ xs) = rank_in-IsRanked x (ranked xs) (ranked-IsRanked xs)

  -- What a prefix of a ranked list leaves out is above nothing in the prefix.
  pub take-best :
      (n : ℕ) (xs : List A)
      → IsRanked xs
      → All (λ y. Any (λ x. x ≡ y) (take n xs) ⊎ All (λ x. above y x ≡ false) (take n xs)) xs
  take-best zero [] h = tt
  take-best zero (x ∷ xs) (all, h) = (inr tt, take-best zero xs h)
  take-best (suc n) [] h = tt
  take-best (suc n) (x ∷ xs) (all, h) = (inl (inl refl), later xs all (take-best n xs h))
    where
      later :
          (ys : List A)
          → All (λ y. above y x ≡ false) ys
          → All (λ y. Any (λ z. z ≡ y) (take n xs) ⊎ All (λ z. above y z ≡ false) (take n xs)) ys
          → All
              (λ y. Any (λ z. z ≡ y) (x ∷ take n xs) ⊎ All (λ z. above y z ≡ false) (x ∷ take n xs))
              ys
      later [] a b = tt
      later (y ∷ ys) (e, a) (inl found, b) = (inl (inr found), later ys a b)
      later (y ∷ ys) (e, a) (inr none_above, b) = (inr (e, none_above), later ys a b)

  pub keep-IsRanked : (p : A → Bool) (xs : List A) → IsRanked xs → IsRanked (keep p xs)
  unfolding keep
  keep-IsRanked p [] h = tt
  keep-IsRanked p (x ∷ xs) (all, h) = elim (Bool-cases (p x)) [
    | inl e ↦ rw e (All-keep (λ y. above y x ≡ false) p xs all, keep-IsRanked p xs h)
    | inr e ↦ rw e (keep-IsRanked p xs h)
  ]

module _ {A : Type 0} where
  pub All-self : (xs : List A) → All (λ x. Any (λ y. y ≡ x) xs) xs
  All-self [] = tt
  All-self (x ∷ xs) = (inl refl, All-map xs (λ y found. inr found) (All-self xs))

  cons_not_empty : {x : A} {xs : List A} → ¬ (x ∷ xs ≡ [])
  cons_not_empty h = cc

  pub All-keep_empty : (p : A → Bool) (xs : List A) → keep p xs ≡ [] → All (λ x. p x ≡ false) xs
  unfolding keep
  All-keep_empty p [] h = tt
  All-keep_empty p (x ∷ xs) h = elim (Bool-cases (p x)) [
    | inl e ↦ absurd (cons_not_empty (rw e at h))
    | inr e ↦ (e, All-keep_empty p xs (rw e at h))
  ]

  -- What passes the test is kept.
  pub All-kept :
      (p : A → Bool) (xs : List A) → All (λ x. p x ≡ true → Any (λ y. y ≡ x) (keep p xs)) xs
  unfolding keep
  All-kept p [] = tt
  All-kept p (x ∷ xs) = (
    (λ e. rw e (inl refl)),
    All-map xs (λ y f e. elim (Bool-cases (p x)) [ inl k ↦ rw k (inr (f e)) | inr k ↦ rw k (f e) ])
        (All-kept p xs),
  )

  pub All-and : (P Q : A → Type 0) (xs : List A) → All P xs → All Q xs → All (λ x. P x × Q x) xs
  All-and P Q [] ps qs = tt
  All-and P Q (x ∷ xs) (p, ps) (q, qs) = ((p, q), All-and P Q xs ps qs)

  pub All-take : (P : A → Type 0) (n : ℕ) (xs : List A) → All P xs → All P (take n xs)
  All-take P zero xs all = tt
  All-take P (suc n) [] all = tt
  All-take P (suc n) (x ∷ xs) (p, all) = (p, All-take P n xs all)

  pub take-IsRanked :
      (above : A → A → Bool) (n : ℕ) (xs : List A) → IsRanked above xs → IsRanked above (take n xs)
  take-IsRanked above zero xs h = tt
  take-IsRanked above (suc n) [] h = tt
  take-IsRanked above (suc n) (x ∷ xs) (all, h) =
      (All-take (λ y. above y x ≡ false) n xs all, take-IsRanked above n xs h)
