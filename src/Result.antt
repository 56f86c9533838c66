-- ===== src/Result.antt =====
-- Python's exceptions as values: what a call returns, or the exception that it raises.
use drift_sql.Prelude.{
  Option, none, some, some, Option, String, ◌≡◌, refl, ◌⊎◌, inl, inr, Bool, true, false, List, [],
  ◌∷◌,
}

-- The exceptions that the modelled code raises, those with a text that matters last.
pub data Error : Type 0 where
  attribute_error type_error conflict_error assertion_error integrity_error : Error
  value_error key_error runtime_error file_not_found file_exists not_implemented sql_error :
      String → Error

pub data Result {ℓ} (A : Type ℓ) : Type ℓ where
  ok : A → Result A
  raised : Error → Result A

-- `if test: raise error`
abbrev pub fail_if : Bool → Error → Result (Unit {0})
fail_if true e = raised e
fail_if false e = ok tt

-- Statements run in order; the first exception ends the sequence.
module _ {ℓ κ} {A : Type ℓ} {B : Type κ} where
  infixl 5 ◌>>=◌
  abbrev pub ◌>>=◌ : Result A → (A → Result B) → Result B
  raised stop >>= rest = raised stop
  ok value >>= rest = rest value

-- A statement without a value.
infixl 5 ◌>>◌
abbrev pub ◌>>◌ {ℓ} : {B : Type ℓ} → Result (Unit {0}) → Result B → Result B
check >> rest = check >>= (λ done. rest)

module _ {ℓ κ} {A : Type ℓ} {B : Type κ} where
  -- A comprehension whose body may raise.
  unfoldable pub map_result : (A → Result B) → List A → Result (List B)
  map_result f [] = ok []
  map_result f (x ∷ xs) = do y ← f x; ys ← map_result f xs; ok (y ∷ ys)

  -- A sequence that returned went through every step.
  pub >>=-eq-ok :
      (first : Result A) (rest : A → Result B) {result : B}
      → (first >>= rest) ≡ ok result
      → (value : A) × (first ≡ ok value) × (rest value ≡ ok result)
  >>=-eq-ok (raised stop) rest h = cc
  >>=-eq-ok (ok value) rest h = (value, refl, h)

pub ok_injective {ℓ} : {A : Type ℓ} {a b : A} → ok a ≡ ok b → a ≡ b
ok_injective h = cc

pub Result-cases {ℓ} :
    {A : Type ℓ} (m : Result A) → ((a : A) × (m ≡ ok a)) ⊎ ((e : Error) × (m ≡ raised e))
Result-cases (ok a) = inl (a, refl)
Result-cases (raised e) = inr (e, refl)

-- A missing value raises.
abbrev pub or_raise {ℓ} : {A : Type ℓ} → Error → Option A → Result A
or_raise e none = raised e
or_raise e (some a) = ok a

pub or_raise-eq-ok {ℓ} :
    {A : Type ℓ} (e : Error) (o : Option A) {a : A} → or_raise e o ≡ ok a → o ≡ some a
or_raise-eq-ok e none h = cc
or_raise-eq-ok e (some b) h = cc

abbrev pub is_some {ℓ} : {A : Type ℓ} → Option A → Bool
is_some none = false
is_some (some a) = true

pub fail_if-eq-ok : (b : Bool) (e : Error) {u : Unit} → fail_if b e ≡ ok u → b ≡ false
fail_if-eq-ok true e h = cc
fail_if-eq-ok false e h = refl
