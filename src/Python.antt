-- ===== src/Python.antt =====
-- What the program takes from Python and its JSON library: one record of functions, so that no
-- definition is made up for code that is not in the repository.
pub mod Values
pub mod Text
pub mod Sample
use drift_sql.Prelude.{
  ℕ, zero, suc, ◌+◌, ◌-◌, ◌*◌, ◌/◌, ◌%◌, ◌≤◌, ◌<◌, min, max, String, ◌<>◌, ◌≡◌, refl, sym, ap, ◌∙◌,
  ◌≢◌, ◌↔◌, ◌⊎◌, inl, inr, Bool, true, false, not, ◌&&◌, ◌||◌, Option, none, some, List, [], ◌∷◌,
  ◌++◌, map, reverse, arith, ◌==◌, eq_iff, eq_refl, ltb, leb, eqb, if◌then◌else◌, ltb→lt, lt→ltb,
  Bool-cases, Option-cases, and_left, and_right, length, keep, any, last, take, drop, All, Any,
  any_sound, any_complete, Any-map, All-map, Any-append_left, Any-append_right, All-append,
  Any-meets-All, All-keep, keep_sound, Any-keep, Any-keep_inv, keep-append, length-keep,
  length-append, length-take, last-append, any_iff, any-congr, any-or, any-and, any-append,
  All-append_inv, All-reverse, All-reverse_inv, LastWith, last-keep, keep-append_true,
  keep-append_false, any-eq-false, Any-append_inv, Any-reverse_inv, contains, minus, single,
  contains-keep, contains-minus, Subset, Subset-minus, Subset-single, place, insert_sorted,
  sorted_set, contains-sorted_set, rank_in, ranked, IsRanked, All-rank_in, All-rank_in_inv,
  All-ranked, All-ranked_inv, length-ranked, ranked-IsRanked, take-best, keep-IsRanked, All-self,
  All-keep_empty, All-kept, All-and, All-take, take-IsRanked,
}
use drift_sql.Result.{
  Error, fail_if, ◌>>=◌, ◌>>◌, map_result, >>=-eq-ok, ok_injective, Result-cases, or_raise,
  or_raise-eq-ok, is_some, fail_if-eq-ok, attribute_error, type_error, conflict_error,
  assertion_error, integrity_error, value_error, key_error, runtime_error, file_not_found,
  file_exists, not_implemented, sql_error, Result, ok, raised,
}
use drift_sql.Python.Values.{
  ℤ, Json, Items, Fields, get, get_or, put, truthy, flag, is_false, is_true, to_list, of_list,
  objects, get-put, pos, negsuc, null, bool, int, decimal, text, arr, obj, nil, cons, end, field,
}
use Prim.Native.Char.{Char}

pub record Python : Type 0 where
  -- `json.loads`; `none` is a `JSONDecodeError`
  pub loads : String → Option Json
  -- `json.dumps(value, ensure_ascii=False, default=str)`
  pub dumps : Json → String
  -- `json.dumps(arguments, ensure_ascii=False, sort_keys=True, separators=(",", ":"))`
  pub dumps_sorted : Fields → String
  -- `str(value)` of a value that is not a text
  pub show : Json → String
  -- `int(value)` of a value that is not an integer
  pub to_int : Json → Result ℤ
  -- `float(value)` of a value that is not a float
  pub to_float : Json → Result Json
  -- Unicode: case folding of a character, and the classes of `str.isalpha` and `str.isalnum`
  pub fold : Char → String
  pub is_alpha : Char → Bool
  pub is_alnum : Char → Bool

module _ (py : Python) where
  -- `str(value)`
  unfoldable pub str_of : Json → String
  str_of (text s) = s
  str_of v = py.show v

  -- `int(value)`
  unfoldable pub int_of : Json → Result ℤ
  int_of (int z) = ok z
  int_of v = py.to_int v

  -- `float(value)`
  unfoldable pub float_of : Json → Result Json
  float_of (decimal z k) = ok (decimal z k)
  float_of v = py.to_float v

  -- `value.casefold()`
  unfoldable pub casefold : String → String
  casefold String.[] = ""
  casefold (String.◌∷◌ c s) = py.fold c <> casefold s
