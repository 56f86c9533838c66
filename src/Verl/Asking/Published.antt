-- ===== src/Verl/Asking/Published.antt =====
-- The texts that `AskUserTool` of verl_tools.py answers with.
use drift_sql.Prelude.{
  ℕ, String, ◌≡◌, refl, sym, ap, ◌∙◌, ◌⊎◌, inl, inr, true, false, none, some, List, [], ◌∷◌, map,
  ◌==◌, Bool-cases, keep, All, Any, Any-map, All-map,
}
use drift_sql.Result.{>>=-eq-ok, ok_injective, or_raise, key_error, Result, ok, raised}
use drift_sql.Python.{Python, str_of}
use drift_sql.Python.Values.{ℤ, Json, Fields, get, get_or, put, get-put, int, text, obj, end}
use drift_sql.Python.Text.{strip}
use drift_sql.Verl.Terms.{is_blank}
use drift_sql.Verl.Instances.{Answer, at_least, next_integer, dict_or_none, items_or_none}
use drift_sql.Verl.Asking.{
  Ranked, is_before, best, was_asked, term_of, all_candidates, rank, is_relevant, answer_text,
  reminder_text, answer_best, unanswerable, exhausted, invalid, answer_ranked, answer_question,
  settle, counted, question_limits, ask,
}
use mathlib.Core.Path.{subst}

best-Any : (P : Ranked → Type 0) (a : Ranked) (bs : List Ranked) → P a → All P bs → P (best a bs)
unfolding best
best-Any P a [] p h = p
best-Any P a (b ∷ bs) p (q, h) = elim (Bool-cases (is_before b a)) [
  | inl y ↦ rw y (best-Any P b bs q h)
  | inr n ↦ rw n (best-Any P a bs p h)
]

get_or-put :
    (key j : String) (value default : Json) (d : Fields)
    → (key == j) ≡ false
    → get_or j default (put key value d) ≡ get_or j default d
unfolding get_or
get_or-put key j value default d h =
    let found : get j (put key value d) ≡ get j d = get-put key j value d ∙ rw h refl in
    ap (λ o. elim o as (λ o. Json) [ none ↦ default | some v ↦ v ]) found

different : ("_question_count" == "user_query_ambiguity") ≡ false
different = refl

module _ (py : Python) where
  abbrev pub definition_of : Fields → String
  definition_of item = strip (str_of py (get_or "sql_snippet" (text "") item))

  -- The text of the answer tells the term and the definition of this ambiguity, or reminds of its
  -- term.
  abbrev pub IsText : Answer → Fields → Type 0
  IsText a item =
      (a.0 ≡ answer_text py (term_of py item) (definition_of item))
      ⊎ (a.0 ≡ reminder_text py (term_of py item))

  -- A published ambiguity that the question is about, and whose text the answer is.
  abbrev pub Tells : String → Answer → ℕ × Fields → Type 0
  Tells question a c = (is_relevant py (rank py question c) ≡ true) × IsText a c.1

  -- One of the three answers that tell nothing of the task.
  abbrev pub IsFixed : Answer → Type 0
  IsFixed a = (a ≡ invalid py) ⊎ ((a ≡ exhausted py) ⊎ (a ≡ unanswerable py))

  -- The candidate that a ranked entry came from.
  abbrev Relevant : String → List (ℕ × Fields) → Ranked → Type 0
  Relevant question cs r =
      Any (λ c. (is_relevant py (rank py question c) ≡ true) × (c.1 ≡ r.item)) cs

  hits-Relevant :
      (question : String) (cs : List (ℕ × Fields))
      → All (Relevant question cs) (keep (is_relevant py) (map (rank py question) cs))
  unfolding keep rank
  hits-Relevant question [] = tt
  hits-Relevant question (c ∷ cs) =
      let later =
        All-map (keep (is_relevant py) (map (rank py question) cs)) (λ r h. inr h)
          (hits-Relevant question cs) in
      elim (Bool-cases (is_relevant py (rank py question c))) [
        | inl y ↦ rw y (inl (y, refl), later)
        | inr n ↦ rw n later
      ]

  answer_best-IsText : (asked : List Json) (r : Ranked) → IsText (answer_best py asked r) r.item
  unfolding answer_best
  answer_best-IsText asked r = elim (Bool-cases (was_asked (term_of py r.item) asked)) [
    | inl y ↦ rw y (inr refl)
    | inr n ↦ rw n (inl refl)
  ]

  -- What is published of the task, and one of it that the answer tells.
  abbrev pub Published : String → Fields → Answer → Type 0
  Published question s a =
      (ambiguity : Fields) × (dict_or_none (get_or "user_query_ambiguity" (obj end) s)
        ≡ ok ambiguity)
      × (cs : List (ℕ × Fields)) × (all_candidates py ambiguity ≡ ok cs)
      × Any (Tells question a) cs

  told :
      (question : String) (cs : List (ℕ × Fields)) (a : Answer) (r : Ranked)
      → Relevant question cs r
      → IsText a r.item
      → Any (Tells question a) cs
  told question cs a r h e = Any-map cs (λ c (p, same). (p, rw same e)) h

  answer_ranked-tells :
      (question : String) (cs : List (ℕ × Fields)) (s s' : Fields) (rs : List Ranked) (a : Answer)
      → All (Relevant question cs) rs
      → answer_ranked py s rs ≡ ok (s', a)
      → (a ≡ unanswerable py) ⊎ Any (Tells question a) cs
  unfolding answer_ranked
  answer_ranked-tells question cs s s' [] a h e =
      inl (sym (ap (λ (p : Fields × Answer). p.1) (ok_injective e)))
  answer_ranked-tells question cs s s' (r ∷ rs) a (p, h) e =
      let (v, _, e1) = >>=-eq-ok (or_raise (key_error "_asked_terms") (get "_asked_terms" s)) _ e in
      let (asked, _, e2) = >>=-eq-ok (items_or_none v) _ e1 in
      let same = ap (λ (q : Fields × Answer). q.1) (ok_injective e2) in
      inr (
        told question cs a (best r rs) (best-Any (Relevant question cs) r rs p h) (
          subst (λ (b : Answer). IsText b (best r rs).item) same
            (answer_best-IsText asked (best r rs))))

  answered :
      (question : String) (s now s' : Fields) (a : Answer)
      → get_or "user_query_ambiguity" (obj end) now ≡ get_or "user_query_ambiguity" (obj end) s
      → answer_question py question now ≡ ok (s', a)
      → IsFixed a ⊎ Published question s a
  unfolding answer_question
  answered question s now s' a same h =
      let (ambiguity, g, h1) =
        >>=-eq-ok (dict_or_none (get_or "user_query_ambiguity" (obj end) now)) _ h in
      let (cs, c, h2) = >>=-eq-ok (all_candidates py ambiguity) _ h1 in
      elim (answer_ranked-tells question cs now s' _ a (hits-Relevant question cs) h2) [
        | inl nothing ↦ inl (inr (inr nothing))
        | inr tells ↦ inr (ambiguity, ap dict_or_none (sym same) ∙ g, cs, c, tells)
      ]

  counted-tells :
      (question : String) (s s' : Fields) (limits : Result (ℤ × ℤ)) (a : Answer)
      → counted py question s limits ≡ (s', ok a)
      → IsFixed a ⊎ Published question s a
  unfolding counted
  counted-tells question s s' (raised e) a h =
      let bad = ap (λ (p : Fields × Result Answer). p.1) h in cc
  counted-tells question s s' (ok (maximum, count)) a h =
      elim (Bool-cases (at_least count maximum)) [
        | inl y ↦
            inl (
              inr (inl (sym (ok_injective (ap (λ (p : Fields × Result Answer). p.1) (rw y at h))))))
        | inr n ↦ settled (answer_question py question now) refl (rw n at h)
      ]
    where
      now : Fields
      now = put "_question_count" (int (next_integer count)) s

      settled :
          (r : Result (Fields × Answer))
          → answer_question py question now ≡ r
          → settle py now r ≡ (s', ok a)
          → IsFixed a ⊎ Published question s a
      settled (raised e) k h' = let bad = ap (λ (p : Fields × Result Answer). p.1) h' in cc
      settled (ok (s'', b)) k h' =
          let same = ok_injective (ap (λ (p : Fields × Result Answer). p.1) h') in
          rw (← same) (
            answered question s now s'' b
              (get_or-put "_question_count" "user_query_ambiguity" _ _ s different) k)

  -- Every answer is one of the three fixed ones, which tell nothing of the task, or its text tells
  -- the term and the definition, or reminds of the term, of an ambiguity that the task publishes and
  -- that the question is about.
  pub ask-Published :
      (config : Fields) (question : String) (s s' : Fields) (a : Answer)
      → ask py config question s ≡ (s', ok a)
      → IsFixed a ⊎ Published question s a
  unfolding ask
  ask-Published config question s s' a h = elim (Bool-cases (is_blank question)) [
    | inl y ↦ inl (inl (sym (ok_injective (ap (λ (p : Fields × Result Answer). p.1) (rw y at h)))))
    | inr n ↦ counted-tells question s s' (question_limits py config s) a (rw n at h)
  ]
