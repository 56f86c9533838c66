-- ===== src/Verl/Terms.antt =====
-- The words of a text, and texts inside texts, as the tools of verl_tools.py compare them.
use drift_sql.Prelude.{
  ℕ, String, ◌<>◌, Bool, true, false, ◌&&◌, ◌||◌, List, [], ◌∷◌, map, ◌==◌, leb, eqb, if◌then◌else◌,
  length, keep, contains, sorted_set,
}
use drift_sql.Python.{Python, casefold}
use Prim.Native.Char.{Char, code}

abbrev between : ℕ → ℕ → ℕ → Bool
between a b n = leb a n && leb n b

-- `[A-Za-z0-9_]`
unfoldable pub is_word_char : Char → Bool
is_word_char c =
    let n = code c in
    between b'A' b'Z' n || (between b'a' b'z' n || (between b'0' b'9' n || eqb n b'_'))

-- A finished run, if there is one.
abbrev flush : String → List String → List String
flush String.[] words = words
flush (String.◌∷◌ c s) words = String.◌∷◌ c s ∷ words

-- `re.findall(r"[A-Za-z0-9_]+", text)`, with the run that is open.
unfoldable pub words_from : String → String → List String
unfolding is_word_char
words_from run String.[] = flush run []
words_from run (String.◌∷◌ c s) =
    let longer = words_from (run <> String.◌∷◌ c "") s in
    let ended = words_from "" s in if is_word_char c then longer else flush run ended

-- `len(term) > 1`
abbrev is_long : String → Bool
is_long String.[] = false
is_long (String.◌∷◌ c String.[]) = false
is_long (String.◌∷◌ c (String.◌∷◌ d s)) = true

-- The set of the words of a text, in order.
unfoldable pub terms : Python → String → List String
unfolding words_from
terms py s = sorted_set (map (casefold py) (keep is_long (words_from "" s)))

-- `len(a & b)` of two sets
unfoldable pub overlap : List String → List String → ℕ
overlap a b = length (keep (contains b) a)

-- `s.startswith(p)`
unfoldable pub is_prefix : String → String → Bool
is_prefix String.[] s = true
is_prefix (String.◌∷◌ c cs) String.[] = false
is_prefix (String.◌∷◌ c cs) (String.◌∷◌ d ds) =
    String.◌∷◌ c "" == String.◌∷◌ d "" && is_prefix cs ds

-- `p in s`
unfoldable pub is_inside : String → String → Bool
unfolding is_prefix
is_inside p String.[] = is_prefix p ""
is_inside p (String.◌∷◌ c s) = is_prefix p (String.◌∷◌ c s) || is_inside p s

-- `not s`
abbrev pub is_blank : String → Bool
is_blank s = s == ""
