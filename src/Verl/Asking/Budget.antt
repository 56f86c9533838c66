-- ===== src/Verl/Asking/Budget.antt =====
-- The counter of `AskUserTool` in verl_tools.py, over a sequence of questions.
use drift_sql.Prelude.{
  ℕ, ◌+◌, ◌≤◌, String, ◌≡◌, refl, ap, ◌∙◌, inl, inr, Bool, true, false, not, ◌||◌, some, List, [],
  ◌∷◌, arith, leb, if◌then◌else◌, Bool-cases, length, keep,
}
use drift_sql.Result.{>>=-eq-ok, ok_injective, or_raise, key_error, Result, ok, raised}
use drift_sql.Python.{Python, int_of}
use drift_sql.Python.Values.{
  Json, Fields, get, get_or, put, truthy, flag, get-put, pos, int, obj, end,
}
use drift_sql.Verl.Terms.{is_blank}
use drift_sql.Verl.Instances.{Answer, at_least, next_integer, dict_or_none, items_or_none}
use drift_sql.Verl.Asking.{
  Ranked, best, was_asked, term_of, all_candidates, answer_best, unanswerable, exhausted, invalid,
  answer_ranked, answer_question, settle, counted, question_limits, ask,
}
use native.Mathlib.Nat.{add-zero}

-- So many questions were counted.
abbrev pub IsCounted : ℕ → Fields → Type 0
IsCounted n s = get "_question_count" s ≡ some (int (pos n))

module _ (py : Python) where
  -- The state after each of these questions.
  unfoldable pub ask_all : Fields → List String → Fields → Fields
  unfolding ask
  ask_all config [] s = s
  ask_all config (q ∷ qs) s = ask_all config qs (ask py config q s).0

  -- The answers to these questions, one after another.
  unfoldable pub ask_each : Fields → List String → Fields → List (Result Answer)
  unfolding ask
  ask_each config [] s = []
  ask_each config (q ∷ qs) s = (ask py config q s).1 ∷ ask_each config qs (ask py config q s).0

  -- The question was neither blank nor over the budget; answering it may have raised.
  unfoldable pub is_answered : Result Answer → Bool
  is_answered (raised e) = true
  is_answered (ok a) = not (flag "invalid_question" a.2 || flag "question_budget_exhausted" a.2)

  abbrev pub answered_count : List (Result Answer) → ℕ
  answered_count answers = length (keep is_answered answers)

  answer_best-answered :
      (asked : List Json) (r : Ranked) → is_answered (ok (answer_best py asked r)) ≡ true
  unfolding is_answered answer_best flag get_or get truthy
  answer_best-answered asked r = elim (Bool-cases (was_asked (term_of py r.item) asked)) [
    | inl y ↦ rw y refl
    | inr n ↦ rw n refl
  ]

  unanswerable_answered : is_answered (ok (unanswerable py)) ≡ true
  unfolding is_answered flag get_or get truthy
  unanswerable_answered = refl

  exhausted_refused : is_answered (ok (exhausted py)) ≡ false
  unfolding is_answered flag get_or get truthy
  exhausted_refused = refl

  invalid_refused : is_answered (ok (invalid py)) ≡ false
  unfolding is_answered flag get_or get truthy
  invalid_refused = refl

  answer_ranked-answered :
      (s : Fields) (rs : List Ranked) {s' : Fields} {a : Answer}
      → answer_ranked py s rs ≡ ok (s', a)
      → is_answered (ok a) ≡ true
  unfolding answer_ranked
  answer_ranked-answered s [] e =
      let same = ap (λ (p : Fields × Answer). p.1) (ok_injective e) in
      rw (← same) unanswerable_answered
  answer_ranked-answered s (r ∷ rs) e =
      let (v, _, e1) = >>=-eq-ok (or_raise (key_error "_asked_terms") (get "_asked_terms" s)) _ e in
      let (asked, _, e2) = >>=-eq-ok (items_or_none v) _ e1 in
      let same = ap (λ (p : Fields × Answer). p.1) (ok_injective e2) in
      rw (← same) (answer_best-answered asked (best r rs))

  settle-answered :
      (question : String) (s : Fields) (r : Result (Fields × Answer))
      → answer_question py question s ≡ r
      → is_answered (settle py s r).1 ≡ true
  unfolding answer_question is_answered
  settle-answered question s (raised e) k = refl
  settle-answered question s (ok (s', a)) k =
      let (ambiguity, _, e1) =
        >>=-eq-ok (dict_or_none (get_or "user_query_ambiguity" (obj end) s)) _ k in
      let (cs, _, e2) = >>=-eq-ok (all_candidates py ambiguity) _ e1 in
      answer_ranked-answered s _ e2

  -- One more question is counted exactly where this one was answered.
  abbrev pub counts_one : Result Answer → ℕ
  counts_one r = if is_answered r then 1 else 0

  put-IsCounted :
      (n : ℕ) (v : Json) (s : Fields) → IsCounted n s → IsCounted n (put "_asked_terms" v s)
  put-IsCounted n v s h = get-put "_asked_terms" "_question_count" v s ∙ h

  answer_ranked-IsCounted :
      (n : ℕ) (s : Fields) (rs : List Ranked) {s' : Fields} {a : Answer}
      → IsCounted n s
      → answer_ranked py s rs ≡ ok (s', a)
      → IsCounted n s'
  unfolding answer_ranked
  answer_ranked-IsCounted n s [] h e = rw (← ap (λ (p : Fields × Answer). p.0) (ok_injective e)) h
  answer_ranked-IsCounted n s (r ∷ rs) h e =
      let (v, _, e1) = >>=-eq-ok (or_raise (key_error "_asked_terms") (get "_asked_terms" s)) _ e in
      let (asked, _, e2) = >>=-eq-ok (items_or_none v) _ e1 in
      rw (← ap (λ (p : Fields × Answer). p.0) (ok_injective e2)) (put-IsCounted n _ s h)

  answer_question-IsCounted :
      (n : ℕ) (question : String) (s : Fields) {s' : Fields} {a : Answer}
      → IsCounted n s
      → answer_question py question s ≡ ok (s', a)
      → IsCounted n s'
  unfolding answer_question
  answer_question-IsCounted n question s h e =
      let (ambiguity, _, e1) =
        >>=-eq-ok (dict_or_none (get_or "user_query_ambiguity" (obj end) s)) _ e in
      let (cs, _, e2) = >>=-eq-ok (all_candidates py ambiguity) _ e1 in
      answer_ranked-IsCounted n s _ h e2

  settle-IsCounted :
      (n : ℕ) (question : String) (s : Fields) (r : Result (Fields × Answer))
      → IsCounted n s
      → answer_question py question s ≡ r
      → IsCounted n (settle py s r).0
  settle-IsCounted n question s (raised e) h k = h
  settle-IsCounted n question s (ok (s', a)) h k = answer_question-IsCounted n question s h k

  -- The limits are natural numbers, with the count of the state.
  limits_of :
      (config s : Fields) (m n : ℕ)
      → get_or "max_questions" (int (pos 3)) config ≡ int (pos m)
      → IsCounted n s
      → question_limits py config s ≡ ok (pos m, pos n)
  unfolding question_limits int_of
  limits_of config s m n h k = rw (h, k) refl

  ask-IsCounted :
      (config : Fields) (question : String) (s : Fields) (m n : ℕ)
      → get_or "max_questions" (int (pos 3)) config ≡ int (pos m)
      → IsCounted n s
      → n ≤ m
      → let (s', r) = ask py config question s in
        IsCounted (n + counts_one r) s' × (n + counts_one r ≤ m)
  unfolding ask counted at_least next_integer
  ask-IsCounted config question s m n h c le = elim (Bool-cases (is_blank question)) [
    | inl y ↦ rw (y, invalid_refused) (rw add-zero c, rw add-zero le)
    | inr b ↦
        rw (b, limits_of config s m n h c)
          (elim (Bool-cases (leb m n)) [
            | inl y ↦ rw (y, exhausted_refused) (rw add-zero c, rw add-zero le)
            | inr more ↦
                let now = put "_question_count" (int (pos (n + 1))) s in
                rw (more, settle-answered question now (answer_question py question now) refl)
                  (
                    settle-IsCounted (n + 1) question now (answer_question py question now)
                        (get-put "_question_count" "_question_count" (int (pos (n + 1))) s) refl,
                    ground arith,
                  )
          ])
  ]

  count_more :
      (r : Result Answer) (rs : List (Result Answer))
      → answered_count (r ∷ rs) ≡ counts_one r + answered_count rs
  unfolding keep
  count_more r rs = elim (Bool-cases (is_answered r)) [
    | inl y ↦ rw y (omega arith)
    | inr n ↦ rw n (omega arith)
  ]

  -- From a state that has counted `n` questions, at most the maximum of the configuration: whatever
  -- is asked, the questions that are neither blank nor answered with the exhausted budget are all
  -- counted, and with those `n` they never exceed the maximum.
  pub ask_all-IsCounted :
      (config : Fields) (questions : List String) (s : Fields) (m n : ℕ)
      → get_or "max_questions" (int (pos 3)) config ≡ int (pos m)
      → IsCounted n s
      → n ≤ m
      → IsCounted (n + answered_count (ask_each config questions s)) (ask_all config questions s)
        × (n + answered_count (ask_each config questions s) ≤ m)
  unfolding ask_all ask_each get keep
  ask_all-IsCounted config [] s m n h c le = (rw add-zero c, rw add-zero le)
  ask_all-IsCounted config (q ∷ qs) s m n h c le =
      let (s', r) = ask py config q s in
      let (c', le') = ask-IsCounted config q s m n h c le in
      let total : n + answered_count (r ∷ ask_each config qs s')
          ≡ n + counts_one r + answered_count (ask_each config qs s') =
        omega (arith, count_more r (ask_each config qs s')) in
      rw total (ask_all-IsCounted config qs s' m (n + counts_one r) h c' le')
