-- ===== src/Drift/Identifiers.antt =====
-- `_quote_identifier` of factory.py, and a reader of quoted identifiers.
use drift_sql.Prelude.{
  String, ◌<>◌, ◌≡◌, refl, ap, ◌∙◌, ◌⊎◌, inl, inr, Bool, true, false, ◌||◌, Option, none, some, eqb,
  if◌then◌else◌, Bool-cases,
}
use drift_sql.Result.{value_error, Result, ok, raised}
use Prim.Native.Char.{Char, code}
use Prim.Native.String.append
use text.Mathlib.TextLemmas.{append_assoc}

abbrev pub is_quote : Char → Bool
is_quote c = eqb (code c) 34

-- `"\x00" in identifier`
unfoldable pub has_nul : String → Bool
has_nul String.[] = false
has_nul (String.◌∷◌ c s) = eqb (code c) 0 || has_nul s

-- `identifier.replace('"', '""')`
unfoldable pub doubled : String → String
doubled String.[] = ""
doubled (String.◌∷◌ c s) =
    let rest = doubled s in
    if is_quote c then String.◌∷◌ c (String.◌∷◌ c rest) else String.◌∷◌ c rest

-- `_quote_identifier`
unfoldable pub quote_identifier : String → Result String
unfolding has_nul doubled
quote_identifier s =
    if has_nul s
    then raised (value_error "SQLite identifiers cannot contain NUL")
    else ok ("\"" <> (doubled s <> "\""))

-- One more character of the identifier.
abbrev read_more : Char → Option (String × String) → Option (String × String)
read_more c none = none
read_more c (some (name, rest)) = some (String.◌∷◌ c name, rest)

-- How SQL reads a quoted identifier behind its first quote: two quotes are one, and a single quote
-- ends it. What is returned is the identifier, and the text behind it.
unfoldable pub read_quoted : String → Option (String × String)
read_quoted String.[] = none
read_quoted (String.◌∷◌ c String.[]) = if is_quote c then some ("", "") else none
read_quoted (String.◌∷◌ c (String.◌∷◌ d s)) =
    let doubled_quote = read_more d (read_quoted s) in
    let other = read_more c (read_quoted (String.◌∷◌ d s)) in
    if is_quote c then if is_quote d then doubled_quote else some ("", String.◌∷◌ d s) else other

-- A quoted identifier at the start of a text.
unfoldable pub read_identifier : String → Option (String × String)
unfolding read_quoted
read_identifier String.[] = none
read_identifier (String.◌∷◌ c s) = if is_quote c then read_quoted s else none

-- The text does not go on with a quote.
abbrev pub starts_quoted : String → Bool
starts_quoted String.[] = false
starts_quoted (String.◌∷◌ c s) = is_quote c

behind_quote : (rest : String) → ("\"" <> rest) ≡ String.◌∷◌ "\"" rest
behind_quote rest = append.cons "\"" "" rest ∙ ap (String.◌∷◌ "\"") (append.nil rest)

read_end :
    (rest : String)
    → starts_quoted rest ≡ false
    → read_quoted (String.◌∷◌ "\"" rest) ≡ some ("", rest)
unfolding read_quoted
read_end String.[] h = refl
read_end (String.◌∷◌ c s) h = rw h refl

-- A character that is no quote is read as it is.
read_plain :
    (c : Char) (s : String) {name rest : String}
    → is_quote c ≡ false
    → read_quoted s ≡ some (name, rest)
    → read_quoted (String.◌∷◌ c s) ≡ some (String.◌∷◌ c name, rest)
unfolding read_quoted
read_plain c String.[] h k = cc
read_plain c (String.◌∷◌ d s) h k = rw (h, k) refl

-- Two quotes are read as one.
read_pair :
    (c : Char) (s : String) {name rest : String}
    → is_quote c ≡ true
    → read_quoted s ≡ some (name, rest)
    → read_quoted (String.◌∷◌ c (String.◌∷◌ c s)) ≡ some (String.◌∷◌ c name, rest)
unfolding read_quoted
read_pair c s h k = rw (h, k) refl

read_doubled :
    (s rest : String)
    → starts_quoted rest ≡ false
    → read_quoted (doubled s <> ("\"" <> rest)) ≡ some (s, rest)
unfolding doubled
read_doubled String.[] rest h = rw (append.nil ("\"" <> rest), behind_quote rest) (read_end rest h)
read_doubled (String.◌∷◌ c s) rest h =
    let end = "\"" <> rest in
    elim (Bool-cases (is_quote c)) [
      | inl y ↦
          rw (y, append.cons c (String.◌∷◌ c (doubled s)) end, append.cons c (doubled s) end)
            (read_pair c (doubled s <> end) y (read_doubled s rest h))
      | inr n ↦
          rw (n, append.cons c (doubled s) end)
            (read_plain c (doubled s <> end) n (read_doubled s rest h))
    ]

-- Whatever an identifier contains, its quoted form is read back as this identifier and nothing
-- more: what follows it in a statement is left as it is. Only an identifier with a NUL is refused.
pub quote-read :
    (s rest : String)
    → starts_quoted rest ≡ false
    → (has_nul s ≡ true)
        × (quote_identifier s ≡ raised (value_error "SQLite identifiers cannot contain NUL"))
      ⊎ (q : String) × (quote_identifier s ≡ ok q) × (read_identifier (q <> rest) ≡ some (s, rest))
unfolding quote_identifier read_identifier
quote-read s rest h = elim (Bool-cases (has_nul s)) [
  | inl y ↦ inl (y, rw y refl)
  | inr n ↦ inr (
    "\"" <> (doubled s <> "\""),
    rw n refl,
    rw
        (
          behind_quote (doubled s <> "\""),
          append.cons "\"" (doubled s <> "\"") rest,
          append_assoc (doubled s) "\"" rest,
        )
        (read_doubled s rest h),
  )
]
