-- ===== src/Prelude/Names.antt =====
-- Sets of texts, as lists: membership, difference, sorting.
use Prim.Native.Nat.{Ordering}
use Prim.Native.String.{String, compare}
use mathlib.Core.Path.{◌∙◌, ◌≡◌, refl}
use mathlib.Core.Bool.{Bool, true, false, not, ◌&&◌, ◌||◌}
use mathlib.Core.List.{List, [], ◌∷◌}
use native.Mathlib.Omega.{arith}
use text.Mathlib.Text.{◌==◌}
use text.Mathlib.TextEquality.{path_by_compare, eq_iff}
use drift_sql.Prelude.Lists.{keep}

-- `x in xs`
unfoldable pub contains : List String → String → Bool
contains [] a = false
contains (x ∷ xs) a = x == a || contains xs a

-- `xs - ys`
unfoldable pub minus : List String → List String → List String
minus xs ys = keep (λ x. not (contains ys x)) xs

-- `{x for x in xs} == {a}`: a set of one text
abbrev pub single : String → List String
single a = a ∷ []

contains_iff : (xs : List String) (a : String) → contains xs a ≡ true → contains (a ∷ xs) a ≡ true
unfolding contains
contains_iff xs a h = ground (arith, eq_iff a a)

pub contains-keep :
    (p : String → Bool) (xs : List String) (a : String)
    → contains (keep p xs) a ≡ (contains xs a && p a)
unfolding contains keep
contains-keep p [] a = refl
contains-keep p (x ∷ xs) a = ground (arith, contains-keep p xs a, eq_iff x a)

pub contains-minus :
    (xs ys : List String) (a : String)
    → contains (minus xs ys) a ≡ (contains xs a && not (contains ys a))
unfolding minus
contains-minus xs ys a = contains-keep (λ x. not (contains ys x)) xs a

-- Every member of the one is a member of the other.
abbrev pub Subset : List String → List String → Type 0
Subset xs ys = (a : String) → contains xs a ≡ true → contains ys a ≡ true

pub Subset-minus : (xs ys : List String) → Subset (minus xs ys) xs
Subset-minus xs ys a h = ground (arith, contains-minus xs ys a)

pub Subset-single : (x : String) (ys : List String) → contains ys x ≡ true → Subset (single x) ys
unfolding contains
Subset-single x ys h a k = ground (arith, eq_iff x a)

-- `sorted(xs)` of a set: in order of code points, each text once.
unfoldable pub place : String → String → List String → List String → Ordering → List String
place a x xs rest Ordering.lt = a ∷ x ∷ xs
place a x xs rest Ordering.eq = x ∷ xs
place a x xs rest Ordering.gt = x ∷ rest

unfoldable pub insert_sorted : String → List String → List String
unfolding place
insert_sorted a [] = a ∷ []
insert_sorted a (x ∷ xs) = place a x xs (insert_sorted a xs) (compare a x)

unfoldable pub sorted_set : List String → List String
unfolding insert_sorted
sorted_set [] = []
sorted_set (x ∷ xs) = insert_sorted x (sorted_set xs)

contains-place :
    (a b x : String) (xs rest : List String) (o : Ordering)
    → compare a x ≡ o
    → contains rest b ≡ (a == b || contains xs b)
    → contains (place a x xs rest o) b ≡ (a == b || (x == b || contains xs b))
unfolding contains place
contains-place a b x xs rest Ordering.lt e h = refl
contains-place a b x xs rest Ordering.eq e h = rw (path_by_compare a x e) (ground arith)
contains-place a b x xs rest Ordering.gt e h = ground arith

contains-insert_sorted :
    (a b : String) (xs : List String) → contains (insert_sorted a xs) b ≡ (a == b || contains xs b)
unfolding contains insert_sorted
contains-insert_sorted a b [] = refl
contains-insert_sorted a b (x ∷ xs) =
    contains-place a b x xs (insert_sorted a xs) (compare a x) refl (contains-insert_sorted a b xs)

-- Sorting keeps the members.
pub contains-sorted_set :
    (xs : List String) (b : String) → contains (sorted_set xs) b ≡ contains xs b
unfolding contains sorted_set
contains-sorted_set [] b = refl
contains-sorted_set (x ∷ xs) b =
    contains-insert_sorted x b (sorted_set xs) ∙ rw (contains-sorted_set xs b)
