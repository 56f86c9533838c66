-- ===== src/Verl/Knowledge.antt =====
-- `GetKnowledgeDefinitionTool` of verl_tools.py: the entries of a knowledge base that a query names.
pub mod Ranked
pub mod Kept
use drift_sql.Prelude.{
  ℕ, suc, ◌-◌, String, ◌<>◌, Bool, true, false, not, ◌&&◌, ◌||◌, Option, none, some, List, [], map,
  ltb, if◌then◌else◌, length, keep, take, ranked,
}
use drift_sql.Result.{
  Error, ◌>>=◌, map_result, or_raise, attribute_error, type_error, value_error, Result, ok, raised,
}
use drift_sql.Python.{Python, str_of, int_of, casefold}
use drift_sql.Python.Values.{
  ℤ, Json, Fields, get, get_or, put, to_list, of_list, pos, negsuc, null, bool, int, text, arr, obj,
  nil, end, field,
}
use drift_sql.Python.Text.{strip}
use drift_sql.Service.Toolbox.{Dict, set}
use drift_sql.Verl.Terms.{terms, overlap, is_inside, is_blank}
use drift_sql.Verl.Instances.{Files, Answer, no_reward, state_of, create_instance, copied}

-- An entry with its place in `ranked`.
pub record Hit : Type 0 where
  pub phrase : Bool
  pub common : ℕ
  pub entry : Fields

-- `a` has the greater key.
abbrev pub is_better : Hit → Hit → Bool
is_better a b =
    if a.phrase && not b.phrase
    then true
    else if b.phrase && not a.phrase
    then false
    else ltb b.common a.common

-- `phrase_match or overlap`
abbrev pub is_hit : Hit → Bool
is_hit h = h.phrase || ltb 0 h.common

-- `xs[:z]`
unfoldable pub slice : {A : Type 0} → ℤ → List A → List A
slice (pos n) xs = take n xs
slice (negsuc n) xs = take (length xs - suc n) xs

-- The entries of the state, each of which is asked for its keys.
unfoldable pub dict_of : Json → Result Fields
dict_of (obj d) = ok d
dict_of _ = raised attribute_error

unfoldable pub entries_of : Json → Result (List Fields)
unfolding dict_of
entries_of (arr items) = map_result dict_of (to_list items)
entries_of (text s) = if is_blank s then ok [] else raised attribute_error
entries_of (obj end) = ok []
entries_of (obj d) = raised attribute_error
entries_of _ = raised type_error

module _ (py : Python) where
  -- `_load_jsonl(path)`: a line that is no JSON raises.
  unfoldable pub load_jsonl : Files → String → Result (List Json)
  unfolding strip
  load_jsonl files path =
      let lines = keep (λ l. not (is_blank (strip l))) (files.read_lines path) in
      if files.is_file path
      then map_result (λ l. or_raise (value_error l) (py.loads l)) lines
      else ok []

  -- `[dict(entry) for entry in inline]`, where the inline entries are a list, and otherwise the lines
  -- of the file.
  unfoldable pub load_entries : Files → String → Json → Result (List Json)
  unfolding copied load_jsonl
  load_entries files path (arr items) = do
    dicts ← map_result copied (to_list items)
    ok (map obj dicts)
  load_entries files path _ = load_jsonl files path

  -- The entries are loaded into a state that has none.
  unfoldable pub with_entries : Files → Fields → Result Fields
  unfolding load_entries
  with_entries files s = elim (get "_knowledge_entries" s) as (λ o. Result Fields) [
    | some v ↦ ok s
    | none ↦ do
      loaded ←
          load_entries files (str_of py (get_or "knowledge_base_path" (text "") s))
            (get_or "knowledge_entries" null s)
      ok (put "_knowledge_entries" (arr (of_list loaded)) s)
  ]

  -- The instance is there also when the entries cannot be loaded.
  abbrev pub settle_entries : String → Dict Fields → Result Fields → Dict Fields × Option Error
  settle_entries id d (raised e) = (d, some e)
  settle_entries id d (ok s) = (set id s d, none)

  abbrev pub load_instance :
      Files → String → Dict Fields → Result (Dict Fields) → Dict Fields × Option Error
  load_instance files id d (raised e) = (d, some e)
  load_instance files id d (ok made) =
      elim (state_of id made) as (λ r. Dict Fields × Option Error) [
        | raised e ↦ (made, some e)
        | ok s ↦ settle_entries id made (with_entries files s)
      ]

  -- `create`
  unfoldable pub create_knowledge :
      Files → String → Fields → Dict Fields → Dict Fields × Option Error
  unfolding create_instance state_of with_entries
  create_knowledge files id kwargs d =
      load_instance files id d (create_instance (λ k. k) id kwargs d)

  abbrev pub value_text : String → Fields → String
  value_text key entry = str_of py (get_or key (text "") entry)

  abbrev pub searchable : Fields → String
  searchable entry =
      value_text "knowledge" entry
      <> (" "
          <> (value_text "description" entry
              <> (" " <> (value_text "definition" entry <> (" " <> value_text "type" entry)))))

  unfoldable pub hit : String → Fields → Hit
  unfolding terms overlap is_inside
  hit query entry =
      let name = casefold py (value_text "knowledge" entry) in
      record {
        phrase = is_inside (casefold py query) name || is_inside name (casefold py query);
        common = overlap (terms py query) (terms py (searchable entry));
        entry = entry;
      }

  -- `ranked[:limit]`
  unfoldable pub best_hits : ℤ → String → List Fields → List Hit
  unfolding slice ranked hit
  best_hits limit query entries =
      slice limit (ranked is_better (keep is_hit (map (hit query) entries)))

  abbrev pub no_query : Answer
  no_query = (
    "A knowledge name or search query is required.",
    no_reward,
    field "knowledge_retrieved" (bool false) (field "invalid_query" (bool true) end),
  )

  abbrev pub knowledge_answer : String → List Hit → Answer
  knowledge_answer query hits = (
    py.dumps (
        obj (
          field "query" (text query)
            (field "matches" (arr (of_list (map (λ (h : Hit). obj h.entry) hits))) end))),
    no_reward,
    field "knowledge_retrieved" (bool (ltb 0 (length hits)))
        (field "knowledge_matches" (int (pos (length hits))) end),
  )

  unfoldable pub search_entries : Fields → String → Fields → Result Answer
  unfolding best_hits entries_of
  search_entries config query s = do
    entries ← entries_of (get_or "_knowledge_entries" (arr nil) s)
    limit ← int_of py (get_or "max_results" (int (pos 3)) config)
    ok (knowledge_answer query (best_hits limit query entries))

  -- `execute`
  unfoldable pub show_knowledge : Fields → String → Fields → Dict Fields → Result Answer
  unfolding search_entries state_of
  show_knowledge config id parameters d = do
    s ← state_of id d
    let query = strip (str_of py (get_or "name" (get_or "query" (text "") parameters) parameters))
    if is_blank query then ok no_query else search_entries config query s
