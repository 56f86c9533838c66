-- ===== src/Python/Text.antt =====
-- The methods of `str` that trim, `strip`, `lstrip`, `rstrip` and `rstrip(";")`, and its length.
use drift_sql.Prelude.{ℕ, zero, suc, String, Bool, ◌&&◌, ◌||◌, ◌==◌, leb, eqb, if◌then◌else◌}
use Prim.Native.Char.{Char, code}

-- The characters that `str.strip()` removes: those of `str.isspace()`.
unfoldable pub is_space : Char → Bool
is_space c =
    let n = code c in
    (leb 9 n && leb n 13)
    || (leb 28 n && leb n 32)
    || eqb n 133
    || eqb n 160
    || eqb n 5760
    || (leb 8192 n && leb n 8202)
    || eqb n 8232
    || eqb n 8233
    || eqb n 8239
    || eqb n 8287
    || eqb n 12288

unfoldable pub drop_left : (Char → Bool) → String → String
drop_left p String.[] = ""
drop_left p (String.◌∷◌ c s) = let rest = drop_left p s in if p c then rest else String.◌∷◌ c s

-- A character survives if something kept stands behind it, or if it is not to be trimmed.
unfoldable pub drop_right : (Char → Bool) → String → String
drop_right p String.[] = ""
drop_right p (String.◌∷◌ c s) =
    let rest = drop_right p s in
    if rest == "" then (if p c then "" else String.◌∷◌ c "") else String.◌∷◌ c rest

-- `value.strip()`
unfoldable pub strip : String → String
unfolding drop_left drop_right is_space
strip s = drop_right is_space (drop_left is_space s)

-- `value.rstrip(";")`
unfoldable pub strip_semicolons : String → String
unfolding drop_right
strip_semicolons = drop_right (λ c. eqb (code c) b';')

-- `len(s)` and `s[:n]` of a text
unfoldable pub text_length : String → ℕ
text_length String.[] = 0
text_length (String.◌∷◌ c s) = suc (text_length s)

unfoldable pub text_take : ℕ → String → String
text_take zero s = ""
text_take (suc n) String.[] = ""
text_take (suc n) (String.◌∷◌ c s) = String.◌∷◌ c (text_take n s)
