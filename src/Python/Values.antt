-- ===== src/Python/Values.antt =====
-- The values that cross the JSON boundary: objects are Python's dicts with text keys.
use drift_sql.Prelude.{
  ℕ, zero, suc, String, ◌≡◌, refl, Bool, true, false, not, Option, none, some, List, [], ◌∷◌, arith,
  ◌==◌, eq_iff, if◌then◌else◌,
}

-- `negsuc n` is -(n + 1).
pub data ℤ : Type 0 where
  pos : ℕ → ℤ
  negsuc : ℕ → ℤ

mutual
  pub data Json : Type 0 where
    null : Json
    bool : Bool → Json
    int : ℤ → Json
    decimal : ℤ → ℕ → Json
    text : String → Json
    arr : Items → Json
    obj : Fields → Json

  pub data Items : Type 0 where
    nil : Items
    cons : Json → Items → Items

  pub data Fields : Type 0 where
    end : Fields
    field : String → Json → Fields → Fields

-- `d.get(key)`
unfoldable pub get : String → Fields → Option Json
get key end = none
get key (field k v rest) = if k == key then some v else get key rest

-- `d.get(key, default)`
unfoldable pub get_or : String → Json → Fields → Json
unfolding get
get_or key default d = elim (get key d) [ none ↦ default | some v ↦ v ]

-- `d[key] = value`
unfoldable pub put : String → Json → Fields → Fields
put key value end = field key value end
put key value (field k v rest) =
    if k == key then field k value rest else field k v (put key value rest)

-- `bool(value)`
unfoldable pub truthy : Json → Bool
truthy null = false
truthy (bool b) = b
truthy (int (pos zero)) = false
truthy (int (pos (suc n))) = true
truthy (int (negsuc n)) = true
truthy (decimal (pos zero) k) = false
truthy (decimal (pos (suc n)) k) = true
truthy (decimal (negsuc n) k) = true
truthy (text s) = not (s == "")
truthy (arr nil) = false
truthy (arr (cons v vs)) = true
truthy (obj end) = false
truthy (obj (field k v d)) = true

-- `bool(d.get(key))`
unfoldable pub flag : String → Fields → Bool
unfolding get_or truthy
flag key d = truthy (get_or key null d)

-- `value is False`, `value is True`
unfoldable pub is_false : Json → Bool
is_false (bool b) = not b
is_false null = false
is_false _ = false

unfoldable pub is_true : Json → Bool
is_true (bool b) = b
is_true null = false
is_true _ = false

unfoldable pub to_list : Items → List Json
to_list nil = []
to_list (cons v vs) = v ∷ to_list vs

unfoldable pub of_list : List Json → Items
of_list [] = nil
of_list (v ∷ vs) = cons v (of_list vs)

-- `[item for item in (value or []) if isinstance(item, dict)]`
unfoldable pub objects : Json → List Fields
objects (arr nil) = []
objects (arr (cons (obj d) vs)) = d ∷ objects (arr vs)
objects (arr (cons v vs)) = objects (arr vs)
objects _ = []

pub get-put :
    (key j : String) (value : Json) (d : Fields)
    → get j (put key value d) ≡ (if key == j then some value else get j d)
unfolding get put
get-put key j value end = refl
get-put key j value (field k v d) =
    ground (arith, get-put key j value d, eq_iff k key, eq_iff k j, eq_iff key j)
