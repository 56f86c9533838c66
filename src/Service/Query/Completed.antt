-- ===== src/Service/Query/Completed.antt =====
-- `_query_reward` of driftsql/service/inference/orchestrator.py, where it counts a query as
-- completed.
use drift_sql.Prelude.{
  String, ◌≡◌, refl, sym, ap, ◌∙◌, ◌≢◌, inl, inr, Bool, true, false, not, ◌&&◌, List, [], ◌∷◌,
  arith, eq_iff, Bool-cases, Option-cases, keep, last, All, LastWith, last-keep,
}
use drift_sql.Result.{>>=-eq-ok, ok_injective, ok}
use drift_sql.Python.{Python}
use drift_sql.Python.Values.{Fields, get, get_or, truthy, flag, null, obj, end}
use drift_sql.Policy.Event.{Event}
use drift_sql.Service.Tools.{as_dict, is_text, events_named, last_or_empty}
use drift_sql.Service.Tools.Admission.{IsSafe, as_dict-eq-ok}
use drift_sql.Service.Query.{Reward, part, is_unsafe, any_unsafe, query_reward}

abbrev pub is_submission : Event → Bool
is_submission e = is_text "submit_solution" (get_or "tool" null e)

-- No execution starts with a statement that writes.
abbrev pub IsReadOnly : Python → Event → Type 0
IsReadOnly py e =
    (arguments : Fields) × (get_or "arguments" (obj end) e ≡ obj arguments)
    × (is_unsafe py arguments ≡ false)

any_unsafe-IsReadOnly :
    (py : Python) (es : List Event) → any_unsafe py es ≡ ok false → All (IsReadOnly py) es
unfolding any_unsafe
any_unsafe-IsReadOnly py [] h = tt
any_unsafe-IsReadOnly py (e ∷ es) h =
    let (arguments, a, h') = >>=-eq-ok (part "arguments" e) _ h in
    elim (Bool-cases (is_unsafe py arguments)) [
      | inl y ↦ let bad = rw y at h' in cc
      | inr n ↦ ((arguments, as_dict-eq-ok _ a, n), any_unsafe-IsReadOnly py es (rw n at h'))
    ]

no_metrics : part "metrics" end ≡ ok end
unfolding as_dict get_or get
no_metrics = refl

no_flag : (key : String) → flag key end ≡ false
unfolding flag get_or get truthy
no_flag key = refl

-- The newest event of a tool, if its metrics are not empty.
newest_named :
    (tool key : String) (events : List Event) (metrics : Fields)
    → part "metrics" (last_or_empty (last (events_named tool events))) ≡ ok metrics
    → flag key metrics ≡ true
    → (e : Event) × LastWith (λ e. is_text tool (get_or "tool" null e)) events e
      × (last_or_empty (last (events_named tool events)) ≡ e)
unfolding events_named last_or_empty
newest_named tool key events metrics h f =
    elim (Option-cases (last (keep (λ e. is_text tool (get_or "tool" null e)) events))) [
      | inl nothing ↦ absurd (empty_flag key metrics (rw nothing at h) f)
      | inr (e, newest) ↦ (e, last-keep _ events e newest, rw newest refl)
    ]
  where
    empty_flag :
        (key : String) (metrics : Fields)
        → part "metrics" end ≡ ok metrics
        → flag key metrics ≢ true
    empty_flag key metrics k g =
        let same = ok_injective (sym no_metrics ∙ k) in
        let none_set = no_flag key in let bad : flag key end ≡ true = rw same g in cc

part_of :
    (key : String) (x e : Event) (d : Fields)
    → x ≡ e
    → part key x ≡ ok d
    → get_or key (obj end) e ≡ obj d
part_of key x e d p h = as_dict-eq-ok _ (ap (part key) (sym p) ∙ h)

all_of :
    (success submitted nonempty same unsafe : Bool)
    → ((success && (submitted && (nonempty && same))) && not unsafe) ≡ true
    → (success ≡ true) × (submitted ≡ true) × (same ≡ true) × (unsafe ≡ false)
all_of success submitted nonempty same unsafe h =
    (ground arith, ground arith, ground arith, ground arith)

-- A free query is completed only when the newest submission says in its metrics that it was
-- submitted, the newest execution succeeded with the same query, where blanks and semicolons at the
-- ends and the case of letters are not compared, and no execution begins with one of the listed
-- writing statements.
pub query_reward-completed :
    (py : Python) (events : List Event) {r : Reward}
    → query_reward py events ≡ ok r
    → r.query_completed ≡ true
    → (s : Event) × LastWith is_submission events s
      × (metrics : Fields) × (get_or "metrics" (obj end) s ≡ obj metrics)
      × (flag "submitted" metrics ≡ true)
      × (arguments : Fields) × (get_or "arguments" (obj end) s ≡ obj arguments)
      × IsSafe py arguments events
      × All (IsReadOnly py) (events_named "execute_sql" events)
unfolding query_reward
query_reward-completed py events {r} h done =
    let run = last_or_empty (last (events_named "execute_sql" events)) in
    let sent = last_or_empty (last (events_named "submit_solution" events)) in
    let (rm, rm_eq, h1) = >>=-eq-ok (part "metrics" run) _ h in
    let (sm, sm_eq, h2) = >>=-eq-ok (part "metrics" sent) _ h1 in
    let (ra, ra_eq, h3) = >>=-eq-ok (part "arguments" run) _ h2 in
    let (sa, sa_eq, h4) = >>=-eq-ok (part "arguments" sent) _ h3 in
    let (unsafe, u_eq, h5) = >>=-eq-ok (any_unsafe py (events_named "execute_sql" events)) _ h4 in
    let (success, submitted, same, readonly) =
      all_of _ _ _ _ _ (ap (λ (q : Reward). q.query_completed) (ok_injective h5) ∙ done) in
    let (e, e_last, e_eq) =
      newest_named "execute_sql" "execution_success" events rm rm_eq success in
    let (s, s_last, s_eq) = newest_named "submit_solution" "submitted" events sm sm_eq submitted in
    (
      s,
      s_last,
      sm,
      part_of "metrics" sent s sm s_eq sm_eq,
      submitted,
      sa,
      part_of "arguments" sent s sa s_eq sa_eq,
      (
        e,
        e_last,
        ra,
        part_of "arguments" run e ra e_eq ra_eq,
        (eq_iff _ _).0 same,
        rm,
        part_of "metrics" run e rm e_eq rm_eq,
        success,
      ),
      any_unsafe-IsReadOnly py _ (u_eq ∙ ap ok readonly),
    )
