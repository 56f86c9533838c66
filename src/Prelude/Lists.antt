-- ===== src/Prelude/Lists.antt =====
-- Lists: Boolean filters and tests, predicates by recursion, and positions by native numbers.
use Prim.Native.Nat.{ℕ, zero, suc, ◌+◌, ◌≤◌, min}
use mathlib.Core.Path.{◌≡◌, refl, ap, fun_ext}
use mathlib.Core.Logic.{◌⊎◌, ◌↔◌, inl, inr}
use mathlib.Core.Bool.{◌&&◌, Bool, true, false, ◌||◌}
use mathlib.Core.Option.{Option, none, some}
use mathlib.Core.List.{List, [], ◌∷◌, ◌++◌, reverse, reverse-cons}
use native.Mathlib.Omega.{arith}
use drift_sql.Prelude.Tests.{if◌then◌else◌, Bool-cases}

module _ {ℓ} {A : Type ℓ} where
  abbrev pub length : List A → ℕ
  length [] = 0
  length (x ∷ xs) = suc (length xs)

  -- `[x for x in xs if p(x)]`
  unfoldable pub keep : (A → Bool) → List A → List A
  keep p [] = []
  keep p (x ∷ xs) = let rest = keep p xs in if p x then x ∷ rest else rest

  -- `any(p(x) for x in xs)`
  unfoldable pub any : (A → Bool) → List A → Bool
  any p [] = false
  any p (x ∷ xs) = p x || any p xs

  -- `xs[-1]`, if there is one
  unfoldable pub last : List A → Option A
  last [] = none
  last (x ∷ []) = some x
  last (x ∷ y ∷ ys) = last (y ∷ ys)

  abbrev pub take : ℕ → List A → List A
  take zero xs = []
  take (suc n) [] = []
  take (suc n) (x ∷ xs) = x ∷ take n xs

  abbrev pub drop : ℕ → List A → List A
  drop zero xs = xs
  drop (suc n) [] = []
  drop (suc n) (x ∷ xs) = drop n xs

module _ {ℓ} {A : Type ℓ} where
  abbrev pub All : (A → Type 0) → List A → Type 0
  All P [] = Unit
  All P (x ∷ xs) = P x × All P xs

  abbrev pub Any : (A → Type 0) → List A → Type 0
  Any P [] = ⊥
  Any P (x ∷ xs) = P x ⊎ Any P xs

  -- An `any` is an existence.
  pub any_sound : (p : A → Bool) (xs : List A) → any p xs ≡ true → Any (λ x. p x ≡ true) xs
  unfolding any
  any_sound p (x ∷ xs) h = elim (Bool-cases (p x)) [
    | inl e ↦ inl e
    | inr e ↦ inr (any_sound p xs (ground arith))
  ]
  any_sound p [] h = cc

  pub any_complete : (p : A → Bool) (xs : List A) → Any (λ x. p x ≡ true) xs → any p xs ≡ true
  unfolding any
  any_complete p (x ∷ xs) (inl e) = rw e
  any_complete p (x ∷ xs) (inr h) = ground (arith, any_complete p xs h)
  any_complete p [] h = absurd h

  pub Any-map : {P Q : A → Type 0} (xs : List A) → ((x : A) → P x → Q x) → Any P xs → Any Q xs
  Any-map (x ∷ xs) f (inl h) = inl (f x h)
  Any-map (x ∷ xs) f (inr h) = inr (Any-map xs f h)
  Any-map [] f h = absurd h

  pub All-map : {P Q : A → Type 0} (xs : List A) → ((x : A) → P x → Q x) → All P xs → All Q xs
  All-map (x ∷ xs) f (h, t) = (f x h, All-map xs f t)
  All-map [] f h = tt

  pub Any-append_left : (P : A → Type 0) (xs ys : List A) → Any P xs → Any P (xs ++ ys)
  Any-append_left P (x ∷ xs) ys (inl h) = inl h
  Any-append_left P (x ∷ xs) ys (inr h) = inr (Any-append_left P xs ys h)
  Any-append_left P [] ys h = absurd h

  pub Any-append_right : (P : A → Type 0) (xs ys : List A) → Any P ys → Any P (xs ++ ys)
  Any-append_right P (x ∷ xs) ys h = inr (Any-append_right P xs ys h)
  Any-append_right P [] ys h = h

  pub All-append : (P : A → Type 0) (xs ys : List A) → All P xs → All P ys → All P (xs ++ ys)
  All-append P (x ∷ xs) ys (h, t) k = (h, All-append P xs ys t k)
  All-append P [] ys h k = k

  -- What holds of all holds of the one that there is.
  pub Any-meets-All :
      (P Q : A → Type 0) (xs : List A) → Any P xs → All Q xs → Any (λ x. P x × Q x) xs
  Any-meets-All P Q (x ∷ xs) (inl h) (q, _) = inl (h, q)
  Any-meets-All P Q (x ∷ xs) (inr h) (_, t) = inr (Any-meets-All P Q xs h t)
  Any-meets-All P Q [] h k = absurd h

  pub All-keep : (P : A → Type 0) (p : A → Bool) (xs : List A) → All P xs → All P (keep p xs)
  unfolding keep
  All-keep P p [] h = tt
  All-keep P p (x ∷ xs) (h, t) = elim (Bool-cases (p x)) [
    | inl e ↦ rw e (h, All-keep P p xs t)
    | inr e ↦ rw e (All-keep P p xs t)
  ]

  -- Every kept element passes the test.
  pub keep_sound : (p : A → Bool) (xs : List A) → All (λ x. p x ≡ true) (keep p xs)
  unfolding keep
  keep_sound p [] = tt
  keep_sound p (x ∷ xs) = elim (Bool-cases (p x)) [
    | inl e ↦ rw e (e, keep_sound p xs)
    | inr e ↦ rw e (keep_sound p xs)
  ]

  pub Any-keep :
      (P : A → Type 0) (p : A → Bool) (xs : List A)
      → Any (λ x. P x × (p x ≡ true)) xs
      → Any P (keep p xs)
  unfolding keep
  Any-keep P p (x ∷ xs) (inl (h, e)) = rw e (inl h)
  Any-keep P p (x ∷ xs) (inr h) = elim (Bool-cases (p x)) [
    | inl e ↦ rw e (inr (Any-keep P p xs h))
    | inr e ↦ rw e (Any-keep P p xs h)
  ]
  Any-keep P p [] h = absurd h

  pub Any-keep_inv :
      (P : A → Type 0) (p : A → Bool) (xs : List A)
      → Any P (keep p xs)
      → Any (λ x. P x × (p x ≡ true)) xs
  unfolding keep
  Any-keep_inv P p (x ∷ xs) h = elim (Bool-cases (p x)) [
    | inl e ↦ elim (rw e at h) [ inl k ↦ inl (k, e) | inr k ↦ inr (Any-keep_inv P p xs k) ]
    | inr e ↦ inr (Any-keep_inv P p xs (rw e at h))
  ]
  Any-keep_inv P p [] h = absurd h

  pub keep-append : (p : A → Bool) (xs ys : List A) → keep p (xs ++ ys) ≡ keep p xs ++ keep p ys
  unfolding keep
  keep-append p [] ys = refl
  keep-append p (x ∷ xs) ys = ground (arith, keep-append p xs ys)

  pub length-keep : (p : A → Bool) (xs : List A) → length (keep p xs) ≤ length xs
  unfolding keep
  length-keep p [] = omega arith
  length-keep p (x ∷ xs) = ground (arith, length-keep p xs)

  pub length-append : (xs ys : List A) → length (xs ++ ys) ≡ length xs + length ys
  length-append [] ys = omega arith
  length-append (x ∷ xs) ys = omega (arith, length-append xs ys)

  pub length-take : (n : ℕ) (xs : List A) → length (take n xs) ≡ min n (length xs)
  length-take zero xs = omega arith
  length-take (suc n) [] = omega arith
  length-take (suc n) (x ∷ xs) = omega (arith, length-take n xs)

  pub last-append : (xs : List A) (x : A) → last (xs ++ x ∷ []) ≡ some x
  unfolding last
  last-append [] x = refl
  last-append (y ∷ []) x = refl
  last-append (y ∷ z ∷ zs) x = last-append (z ∷ zs) x

  pub any_iff :
      (p : A → Bool) (P : A → Type 0) (xs : List A)
      → ((x : A) → (p x ≡ true) ↔ P x)
      → (any p xs ≡ true) ↔ Any P xs
  any_iff p P xs h = (
    λ t. Any-map xs (λ x e. (h x).0 e) (any_sound p xs t),
    λ t. any_complete p xs (Any-map xs (λ x e. (h x).1 e) t),
  )

  pub any-congr : (p q : A → Bool) (xs : List A) → ((x : A) → p x ≡ q x) → any p xs ≡ any q xs
  any-congr p q xs h = ap (λ (r : A → Bool). any r xs) (fun_ext h)

  pub any-or : (p q : A → Bool) (xs : List A) → (any p xs || any q xs) ≡ any (λ x. p x || q x) xs
  unfolding any
  any-or p q [] = refl
  any-or p q (x ∷ xs) = ground (arith, any-or p q xs)

  pub any-and : (b : Bool) (p : A → Bool) (xs : List A) → (b && any p xs) ≡ any (λ x. b && p x) xs
  unfolding any
  any-and b p [] = ground arith
  any-and b p (x ∷ xs) = ground (arith, any-and b p xs)

  pub any-append : (p : A → Bool) (xs ys : List A) → any p (xs ++ ys) ≡ (any p xs || any p ys)
  unfolding any
  any-append p [] ys = refl
  any-append p (x ∷ xs) ys = ground (arith, any-append p xs ys)

  pub All-append_inv : (P : A → Type 0) (xs ys : List A) → All P (xs ++ ys) → All P xs × All P ys
  All-append_inv P [] ys h = (tt, h)
  All-append_inv P (x ∷ xs) ys (h, t) = let (a, b) = All-append_inv P xs ys t in ((h, a), b)

  pub All-reverse : (P : A → Type 0) (xs : List A) → All P xs → All P (reverse xs)
  All-reverse P [] h = tt
  All-reverse P (x ∷ xs) (h, t) =
      rw reverse-cons (All-append P (reverse xs) (x ∷ []) (All-reverse P xs t) (h, tt))

  pub All-reverse_inv : (P : A → Type 0) (xs : List A) → All P (reverse xs) → All P xs
  All-reverse_inv P [] h = tt
  All-reverse_inv P (x ∷ xs) h =
      let (a, b) = All-append_inv P (reverse xs) (x ∷ []) (rw reverse-cons at h) in
      (b.0, All-reverse_inv P xs a)
