-- ===== src/Service/Tools/Admission.antt =====
-- `ToolRuntime.execute` of driftsql/service/inference/tools.py: which calls reach a tool.
use drift_sql.Prelude.{
  contains-keep, ◌∙◌, sym, sym, ℕ, String, ◌≡◌, refl, ap, ◌≢◌, ◌⊎◌, inl, inr, Bool, true, false,
  not, ◌&&◌, ◌||◌, Option, none, some, List, arith, ◌==◌, eq_iff, if◌then◌else◌, Bool-cases,
  Option-cases, keep, last, LastWith, last-keep, contains,
}
use drift_sql.Result.{
  ◌>>=◌, >>=-eq-ok, ok_injective, or_raise, or_raise-eq-ok, key_error, Result, ok, raised,
}
use drift_sql.Python.{Python, str_of, casefold}
use drift_sql.Python.Values.{Json, Fields, get, get_or, flag, null, obj, end}
use drift_sql.Python.Text.{drop_left, drop_right, strip, strip_semicolons}
use drift_sql.Policy.Event.{Event}
use drift_sql.Policy.Select.{select_dynamic_tool_names}
use drift_sql.Policy.Guard.{is_exact_duplicate_retrieval}
use drift_sql.Service.Toolbox.{lookup, Toolbox}
use drift_sql.Service.Tools.{
  schemas_for, ToolExecution, Runtime, is_execution_only, sql_of, as_dict, is_text, events_named,
  last_or_empty, is_safe_submission, guard_call, dispatch, execute,
}

abbrev pub is_execution : Event → Bool
is_execution e = is_text "execute_sql" (get_or "tool" null e)

-- The newest execution succeeded, and its query is this one as `sql_of` compares them.
abbrev pub IsSafe : Python → Fields → List Event → Type 0
IsSafe py arguments events =
    (e : Event) × LastWith is_execution events e
    × (prior : Fields) × (get_or "arguments" (obj end) e ≡ obj prior)
    × (sql_of py prior ≡ sql_of py arguments)
    × (metrics : Fields) × (get_or "metrics" (obj end) e ≡ obj metrics)
    × (flag "execution_success" metrics ≡ true)

pub as_dict-eq-ok : (v : Json) {d : Fields} → as_dict v ≡ ok d → v ≡ obj d
unfolding as_dict
as_dict-eq-ok (obj c) h = ap obj (ok_injective h)
as_dict-eq-ok null h = cc
as_dict-eq-ok _ h = cc

no_arguments : as_dict (get_or "arguments" (obj end) end) ≡ ok end
unfolding as_dict get_or get
no_arguments = refl

pub no_sql : (py : Python) → sql_of py end ≡ ""
unfolding sql_of casefold str_of strip_semicolons strip get_or get drop_left drop_right
no_sql py = refl

compared :
    (executed submitted : String) (success : Result Bool)
    → (if executed == "" || not (executed == submitted) then ok false else success) ≡ ok true
    → ((executed == "") ≡ false) × (executed ≡ submitted) × (success ≡ ok true)
compared executed submitted success h =
    elim (Bool-cases (executed == "" || not (executed == submitted))) [
      | inl y ↦ let bad = rw y at h in cc
      | inr n ↦ (ground arith, ground (arith, eq_iff executed submitted), rw n at h)
    ]

pub is_safe_submission-IsSafe :
    (py : Python) (arguments : Fields) (events : List Event)
    → is_safe_submission py arguments events ≡ ok true
    → IsSafe py arguments events
unfolding is_safe_submission events_named last_or_empty
is_safe_submission-IsSafe py arguments events h =
    elim (Option-cases (last (keep is_execution events))) [
      | inl none_run ↦ absurd (lacks_sql (rw none_run at h))
      | inr (e, newest) ↦
          let (prior, p, h') =
            >>=-eq-ok (as_dict (get_or "arguments" (obj end) e)) _ (rw newest at h) in
          let (nonempty, same, success) = compared (sql_of py prior) (sql_of py arguments) _ h' in
          let (metrics, m, s) = >>=-eq-ok (as_dict (get_or "metrics" (obj end) e)) _ success in
          (
            e,
            last-keep is_execution events e newest,
            prior,
            as_dict-eq-ok _ p,
            same,
            metrics,
            as_dict-eq-ok _ m,
            ok_injective s,
          )
    ]
  where
    lacks_sql : ¬ (
        (do
          prior ← as_dict (get_or "arguments" (obj end) end)
          let executed = sql_of py prior
          let success = (do
            d ← as_dict (get_or "metrics" (obj end) end)
            ok (flag "execution_success" d))
          if executed == "" || not (executed == sql_of py arguments) then ok false else success)
        ≡ ok true)
    lacks_sql k = let k' = rw (no_sql py) at (rw no_arguments at k) in cc

-- The call may reach the tool: the session has it, the policy offers it in this state, it is no
-- repeated retrieval, and a submission of a free query is safe.
abbrev pub IsAdmitted : Python → List String → Bool → String → Fields → List Event → Type 0
IsAdmitted py configured execution_only name arguments events =
    (contains configured name ≡ true)
    × ((available : List String) × (select_dynamic_tool_names py events configured false
            execution_only
          ≡ ok available)
        × (contains available name ≡ true))
    × (is_exact_duplicate_retrieval py events name arguments ≡ false)
    × (((name == "submit_solution" && execution_only) ≡ false) ⊎ IsSafe py arguments events)

answered_early : (m : Result ToolExecution) → (do x ← m; ok (some x)) ≢ ok none
answered_early (ok x) h = cc
answered_early (raised e) h = cc

passed_check :
    (m : Result Bool) (x : ToolExecution)
    → (do safe ← m; ok (if safe then none else some x)) ≡ ok none
    → m ≡ ok true
passed_check (ok true) x h = refl
passed_check (ok false) x h = cc
passed_check (raised e) x h = cc

-- Of the early returns, the conditions that let a call through.
passed :
    (masked_test duplicate submits : Bool) (m : Result ToolExecution) (d x : ToolExecution)
    (safe : Result Bool)
    → (if masked_test
        then (do y ← m; ok (some y))
        else if duplicate
        then ok (some d)
        else if submits
        then (do s ← safe; ok (if s then none else some x))
        else ok none)
      ≡ ok none
    → (masked_test ≡ false) × (duplicate ≡ false) × ((submits ≡ false) ⊎ (safe ≡ ok true))
passed true duplicate submits m d x safe h = absurd (answered_early m h)
passed false true submits m d x safe h = cc
passed false false true m d x safe h = (refl, refl, inr (passed_check safe x h))
passed false false false m d x safe h = (refl, refl, inl refl)

-- A guard that lets the call through.
pub guard_call-IsAdmitted :
    (py : Python) (configured : List String) (execution_only : Bool) (name : String)
    (arguments : Fields) (events : List Event) (elapsed : ℕ)
    → guard_call py configured execution_only name arguments events elapsed ≡ ok none
    → IsAdmitted py configured execution_only name arguments events
unfolding guard_call
guard_call-IsAdmitted py configured x name arguments events elapsed h =
    let (available, sel, h') =
      >>=-eq-ok (select_dynamic_tool_names py events configured false x) _ h in
    let (offered, fresh, submits) =
      passed (not (contains configured name) || not (contains available name)) _ _ _ _ _ _ h' in
    (
      ground arith,
      (available, sel, ground arith),
      fresh,
      elim submits [
        | inl n ↦ inl n
        | inr s ↦ inr (is_safe_submission-IsSafe py arguments events s)
      ],
    )

module _ (py : Python) {S : Type 0} (box : Toolbox S) where
  dispatch-cases :
      (id : String) (x : Bool) (name : String) (arguments : Fields) (elapsed : ℕ) (rt : Runtime S)
      (gate : Result (Option ToolExecution))
      → ((dispatch py box id x name arguments elapsed rt gate).0 ≡ rt) ⊎ (gate ≡ ok none)
  unfolding dispatch
  dispatch-cases id x name arguments elapsed rt (raised e) = inl refl
  dispatch-cases id x name arguments elapsed rt (ok (some y)) = inl refl
  dispatch-cases id x name arguments elapsed rt (ok none) = inr refl

  -- A call either leaves the tools and the sessions as they are, or it is admitted: the session
  -- has the tool, the state policy offers it, it repeats no retrieval, and in a free query the
  -- newest execution succeeded and its query is the submitted one, where blanks and semicolons at
  -- the ends and the case of letters are not compared, not even inside string literals.
  pub execute-IsAdmitted :
      (id name : String) (arguments : Fields) (events : List Event) (elapsed : ℕ) (rt : Runtime S)
      → ((execute py box id name arguments events elapsed rt).0 ≡ rt)
        ⊎ ((configured : List String) × (lookup id rt.session_tools ≡ some configured)
            × IsAdmitted py configured
                (is_execution_only (lookup id rt.session_modes))
                name
                arguments
                events)
  unfolding execute
  execute-IsAdmitted id name arguments events elapsed rt =
      let x = is_execution_only (lookup id rt.session_modes) in
      elim (dispatch-cases id x name arguments elapsed rt (do
        configured ← or_raise (key_error id) (lookup id rt.session_tools)
        guard_call py configured x name arguments events elapsed)) [
          | inl same ↦ inl same
          | inr through ↦
              let (configured, c, g) =
                >>=-eq-ok (or_raise (key_error id) (lookup id rt.session_tools)) _ through in
              inr (
                configured,
                or_raise-eq-ok _ _ c,
                guard_call-IsAdmitted py configured x name arguments events elapsed g,
              )
        ]

  -- A call of a tool whose schema the model is not shown in this state changes nothing: what is
  -- shown is what is dispatched.
  pub execute_unshown :
      (id name : String) (arguments : Fields) (events : List Event) (elapsed : ℕ) (rt : Runtime S)
      {shown : List String}
      → schemas_for py id events rt ≡ ok shown
      → contains shown name ≡ false
      → (execute py box id name arguments events elapsed rt).0 ≡ rt
  unfolding schemas_for
  execute_unshown id name arguments events elapsed rt {shown} h absent =
      elim (execute-IsAdmitted id name arguments events elapsed rt) [
        | inl same ↦ same
        | inr (configured, c, (known, (available, sel, offered), fresh, safe)) ↦
            let listed : schemas_for py id events rt ≡ ok (keep (contains available) configured) =
              rw (c, sel) refl in
            let same = ok_injective (sym h ∙ listed) in
            let both = contains-keep (contains available) configured name in
            let holds : contains shown name ≡ true = rw (same, both, known, offered) refl in cc
      ]
