-- ===== src/Prelude/Newest.antt =====
-- The last element that passes a test.
use mathlib.Core.Path.{subst, ◌≡◌, refl, ap}
use mathlib.Core.Logic.{◌⊎◌, ◌≢◌, inl, inr}
use mathlib.Core.Bool.{Bool, true, false}
use mathlib.Core.Option.{some-injective, some}
use mathlib.Core.List.{List, [], ◌∷◌, ◌++◌, reverse, reverse-cons}
use native.Mathlib.Omega.{arith}
use drift_sql.Prelude.Tests.{Bool-cases}
use drift_sql.Prelude.Lists.{All, Any, any, keep, last}

-- The last element that passes a test, and what stands before and behind it.
abbrev pub LastWith {ℓ} : {A : Type ℓ} → (A → Bool) → List A → A → Type ℓ
LastWith {A} p xs x =
    (before : List A) × (after : List A) × (xs ≡ before ++ x ∷ after)
    × (p x ≡ true)
    × All (λ y. p y ≡ false) after

module _ {ℓ} {A : Type ℓ} where
  List-cases : (xs : List A) → (xs ≡ []) ⊎ (xs ≢ [])
  List-cases [] = inl refl
  List-cases (x ∷ xs) = inr (λ h. cc)

  keep-eq-nil : (p : A → Bool) (xs : List A) → keep p xs ≡ [] → All (λ y. p y ≡ false) xs
  unfolding keep
  keep-eq-nil p [] h = tt
  keep-eq-nil p (x ∷ xs) h = elim (Bool-cases (p x)) [
    | inl e ↦ let h' = rw e at h in cc
    | inr e ↦ (e, keep-eq-nil p xs (rw e at h))
  ]

  last-cons : (x : A) (xs : List A) {y : A} → last (x ∷ xs) ≡ some y → (xs ≢ []) → last xs ≡ some y
  unfolding last
  last-cons x [] h ne = absurd (ne refl)
  last-cons x (z ∷ zs) h ne = h

  LastWith-cons :
      (p : A → Bool) (z : A) (xs : List A) (x : A) → LastWith p xs x → LastWith p (z ∷ xs) x
  LastWith-cons p z xs x (before, after, e, y, rest) =
      (z ∷ before, after, ap (λ l. z ∷ l) e, y, rest)

  pub last-keep : (p : A → Bool) (xs : List A) (x : A) → last (keep p xs) ≡ some x → LastWith p xs x
  unfolding keep last
  last-keep p [] x h = cc
  last-keep p (z ∷ zs) x h = elim (Bool-cases (p z)) [
    | inr e ↦ LastWith-cons p z zs x (last-keep p zs x (rw e at h))
    | inl e ↦ elim (List-cases (keep p zs)) [
      | inl nothing ↦
          let h' : some z ≡ some x = rw (nothing) at (rw e at h) in
          subst (LastWith p (z ∷ zs)) (some-injective z x h')
            ([], zs, refl, e, keep-eq-nil p zs nothing)
      | inr more ↦
          LastWith-cons p z zs x (last-keep p zs x (last-cons z (keep p zs) (rw e at h) more))
    ]
  ]

module _ {ℓ} {A : Type ℓ} where
  pub keep-append_true :
      (p : A → Bool) (xs : List A) (x : A)
      → p x ≡ true
      → keep p (xs ++ x ∷ []) ≡ keep p xs ++ x ∷ []
  unfolding keep
  keep-append_true p [] x h = rw h
  keep-append_true p (y ∷ ys) x h = ground (arith, keep-append_true p ys x h)

  pub keep-append_false :
      (p : A → Bool) (xs : List A) (x : A) → p x ≡ false → keep p (xs ++ x ∷ []) ≡ keep p xs
  unfolding keep
  keep-append_false p [] x h = rw h
  keep-append_false p (y ∷ ys) x h = ground (arith, keep-append_false p ys x h)

  pub any-eq-false : (p : A → Bool) (xs : List A) → All (λ x. p x ≡ false) xs → any p xs ≡ false
  unfolding any
  any-eq-false p [] h = refl
  any-eq-false p (x ∷ xs) (h, t) = ground (arith, any-eq-false p xs t)

  pub Any-append_inv : (P : A → Type 0) (xs ys : List A) → Any P (xs ++ ys) → Any P xs ⊎ Any P ys
  Any-append_inv P [] ys h = inr h
  Any-append_inv P (x ∷ xs) ys (inl h) = inl (inl h)
  Any-append_inv P (x ∷ xs) ys (inr h) = elim (Any-append_inv P xs ys h) [
    | inl t ↦ inl (inr t)
    | inr t ↦ inr t
  ]

  pub Any-reverse_inv : (P : A → Type 0) (xs : List A) → Any P (reverse xs) → Any P xs
  Any-reverse_inv P [] h = h
  Any-reverse_inv P (x ∷ xs) h =
      elim (Any-append_inv P (reverse xs) (x ∷ []) (rw reverse-cons at h)) [
        | inl t ↦ inr (Any-reverse_inv P xs t)
        | inr (inl t) ↦ inl t
        | inr (inr t) ↦ absurd t
      ]
