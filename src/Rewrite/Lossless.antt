-- ===== src/Rewrite/Lossless.antt =====
-- The pieces that `rewrite_sql_identifier` of sql_rewrite.py reads in a query.
use drift_sql.Prelude.{◌≤◌, String, ◌<>◌, ◌≡◌, ◌⊎◌, Bool, true, false, List, [], ◌∷◌, map}
use drift_sql.Python.{Python}
use drift_sql.Python.Text.{text_length}
use drift_sql.Rewrite.{
  is_apostrophe, opens_quoted, without_last, Piece, piece_text, join_texts, starts_word,
  is_same_name, literal, quoted, word, other,
}
use Prim.Native.Char.{Char}
use Prim.Native.String.append

-- The two parts make up the text, and the second one is no longer.
record IsSplit (s : String) (p : String × String) : Type 0 where
  whole : (p.0 <> p.1) ≡ s
  shorter : text_length p.1 ≤ text_length s

-- What is behind the opening quote of a string literal goes to the quote that closes it: a quote
-- that no second one follows at once.
abbrev pub Closed : String → Type 0
Closed String.[] = ⊥
Closed (String.◌∷◌ c String.[]) = is_apostrophe c ≡ true
Closed (String.◌∷◌ c (String.◌∷◌ d s)) =
    ((is_apostrophe c ≡ true) × (is_apostrophe d ≡ true) × Closed s)
    ⊎ ((is_apostrophe c ≡ false) × Closed (String.◌∷◌ d s))

module _ (py : Python) where
  -- The next piece and what is behind it make up the text, and less is left.
  record IsNext (c : Char) (s : String) (p : Piece × String) : Type 0 where
    whole : (piece_text p.0 <> p.1) ≡ String.◌∷◌ c s
    shorter : text_length p.1 ≤ text_length s

  -- What a piece is, by its first character, where this text follows: a string literal starts with
  -- an apostrophe and is closed, or nothing follows; and no other piece starts with an apostrophe.
  abbrev pub IsPiece : Piece → String → Type 0
  IsPiece (literal s) rest =
      (c : Char) × (body : String) × (s ≡ String.◌∷◌ c body)
      × (is_apostrophe c ≡ true)
      × (Closed body ⊎ (rest ≡ ""))
  IsPiece (quoted c s) rest = (is_apostrophe c ≡ false) × (opens_quoted c ≡ true)
  IsPiece (word s) rest =
      (c : Char) × (more : String) × (s ≡ String.◌∷◌ c more)
      × (is_apostrophe c ≡ false)
      × (opens_quoted c ≡ false)
      × (starts_word py c ≡ true)
  IsPiece (other c) rest =
      (is_apostrophe c ≡ false) × (opens_quoted c ≡ false) × (starts_word py c ≡ false)

  abbrev pub ArePieces : List Piece → Type 0
  ArePieces [] = Unit
  ArePieces (p ∷ ps) = IsPiece p (join_texts (map piece_text ps)) × ArePieces ps

  -- A piece that the name is read in: never a string literal.
  abbrev pub is_named : String → Piece → Bool
  is_named name (literal s) = false
  is_named name (quoted c s) = is_same_name py name (without_last s)
  is_named name (word s) = is_same_name py name s
  is_named name (other c) = false
