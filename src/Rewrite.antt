-- ===== src/Rewrite.antt =====
-- driftsql/sql_rewrite.py: the replacement of one identifier in a query.
pub mod Lossless
mod Tests
use drift_sql.Prelude.{
  ℕ, zero, suc, String, ◌<>◌, Bool, true, false, not, ◌&&◌, ◌||◌, Option, none, some, List, [], ◌∷◌,
  map, ◌==◌, leb, eqb, if◌then◌else◌,
}
use drift_sql.Result.{Error, or_raise, value_error, runtime_error, Result, ok, raised}
use drift_sql.Python.{Python, casefold}
use drift_sql.Python.Text.{text_length}
use drift_sql.Verl.Terms.{is_word_char}
use Prim.Native.Char.{Char, code}

abbrev pub is_apostrophe : Char → Bool
is_apostrophe c = eqb (code c) 39

-- `char in ('"', "`", "[")`
abbrev pub opens_quoted : Char → Bool
opens_quoted c = eqb (code c) 34 || (eqb (code c) 96 || eqb (code c) 91)

-- The code of `"]" if char == "[" else char`.
abbrev pub closing_code : Char → ℕ
closing_code c = if eqb (code c) 91 then 93 else code c

-- `"]" if char == "[" else char`
abbrev pub closing_text : Char → String
closing_text c = if eqb (code c) 91 then "]" else String.◌∷◌ c ""

abbrev add_char : Char → String × String → String × String
add_char c (a, b) = (String.◌∷◌ c a, b)

-- The loop behind the opening quote of a string literal: what it reads, and what is left. Two quotes
-- are read over, one ends the literal.
unfoldable pub split_literal : String → String × String
split_literal String.[] = ("", "")
split_literal (String.◌∷◌ c String.[]) = (String.◌∷◌ c "", "")
split_literal (String.◌∷◌ c (String.◌∷◌ d s)) =
    let behind_two = add_char c (add_char d (split_literal s)) in
    let behind_one = add_char c (split_literal (String.◌∷◌ d s)) in
    if is_apostrophe c
    then if is_apostrophe d then behind_two else (String.◌∷◌ c "", String.◌∷◌ d s)
    else behind_one

-- The loop behind the opening quote of a quoted identifier.
unfoldable pub split_quoted : ℕ → String → String × String
split_quoted closing String.[] = ("", "")
split_quoted closing (String.◌∷◌ c s) =
    let more = add_char c (split_quoted closing s) in
    if eqb (code c) closing then (String.◌∷◌ c "", s) else more

-- `quoted[:-1]`
unfoldable pub without_last : String → String
without_last String.[] = ""
without_last (String.◌∷◌ c String.[]) = ""
without_last (String.◌∷◌ c (String.◌∷◌ d s)) = String.◌∷◌ c (without_last (String.◌∷◌ d s))

-- A part of the query: a string literal, an identifier in quotes with its first character apart, a
-- word, or another character.
pub data Piece : Type 0 where
  literal : String → Piece
  quoted : Char → String → Piece
  word : String → Piece
  other : Char → Piece

-- The text of a piece, as it stands in the query.
abbrev pub piece_text : Piece → String
piece_text (literal s) = s
piece_text (quoted c s) = String.◌∷◌ c s
piece_text (word s) = s
piece_text (other c) = String.◌∷◌ c ""

-- `"".join(output)`
unfoldable pub join_texts : List String → String
join_texts [] = ""
join_texts (s ∷ ss) = s <> join_texts ss

-- `_IDENTIFIER.fullmatch(name)`
abbrev pub is_digit : Char → Bool
is_digit c = leb b'0' (code c) && leb (code c) b'9'

unfoldable pub all_word_chars : String → Bool
unfolding is_word_char
all_word_chars String.[] = true
all_word_chars (String.◌∷◌ c s) = is_word_char c && all_word_chars s

unfoldable pub is_identifier : String → Bool
unfolding is_word_char all_word_chars
is_identifier String.[] = false
is_identifier (String.◌∷◌ c s) = is_word_char c && not (is_digit c) && all_word_chars s

module _ (py : Python) where
  -- `char.isalpha() or char == "_"`, and the characters that a word goes on with
  abbrev pub starts_word : Char → Bool
  starts_word c = py.is_alpha c || eqb (code c) b'_'

  abbrev pub in_word : Char → Bool
  in_word c = py.is_alnum c || eqb (code c) b'_'

  unfoldable pub split_word : String → String × String
  split_word String.[] = ("", "")
  split_word (String.◌∷◌ c s) =
      let more = add_char c (split_word s) in if in_word c then more else ("", String.◌∷◌ c s)

  -- The piece that starts with this character, and what is left behind it.
  unfoldable pub next_piece : Char → String → Piece × String
  unfolding split_literal split_quoted split_word
  next_piece c s =
      if is_apostrophe c
      then (literal (String.◌∷◌ c (split_literal s).0), (split_literal s).1)
      else if opens_quoted c
      then (quoted c (split_quoted (closing_code c) s).0, (split_quoted (closing_code c) s).1)
      else if starts_word c
      then (word (String.◌∷◌ c (split_word s).0), (split_word s).1)
      else (other c, s)

  abbrev add_piece : Piece → Option (List Piece) → Option (List Piece)
  add_piece p none = none
  add_piece p (some ps) = some (p ∷ ps)

  -- The loop over the query, on fuel.
  unfoldable pub pieces_from : ℕ → String → Option (List Piece)
  unfolding next_piece
  pieces_from zero s = none
  pieces_from (suc fuel) String.[] = some []
  pieces_from (suc fuel) (String.◌∷◌ c s) =
      add_piece (next_piece c s).0 (pieces_from fuel (next_piece c s).1)

  -- `content.casefold() == old_name.casefold()`
  abbrev pub is_same_name : String → String → Bool
  is_same_name old_name content = casefold py content == casefold py old_name

  -- What is put out for a piece.
  unfoldable pub rewritten : String → String → Piece → String
  unfolding casefold without_last
  rewritten old_name new_name (literal s) = s
  rewritten old_name new_name (quoted c s) =
      if is_same_name old_name (without_last s)
      then String.◌∷◌ c (new_name <> closing_text c)
      else String.◌∷◌ c s
  rewritten old_name new_name (word s) = if is_same_name old_name s then new_name else s
  rewritten old_name new_name (other c) = String.◌∷◌ c ""

  abbrev put_out : (List Piece → String) → Result (List Piece) → Result String
  put_out f (raised e) = raised e
  put_out f (ok ps) = ok (f ps)

  abbrev unsafe_mapping : Error
  unsafe_mapping = value_error "Unsafe SQL identifier mapping"

  -- `rewrite_sql_identifier`
  unfoldable pub rewrite_sql_identifier : String → String → String → Result String
  unfolding pieces_from rewritten join_texts is_identifier text_length
  rewrite_sql_identifier sql old_name new_name =
      let output : Result (List Piece) =
        or_raise (runtime_error "out of fuel") (pieces_from (suc (text_length sql)) sql) in
      if is_identifier old_name && is_identifier new_name
      then put_out (λ ps. join_texts (map (rewritten old_name new_name) ps)) output
      else raised unsafe_mapping
