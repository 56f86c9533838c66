-- ===== src/Service/Lifecycle/Start.antt =====
-- `start_run` of driftsql/service/inference/orchestrator.py, and the budget that it grants.
use drift_sql.Prelude.{
  ℕ, zero, suc, ◌≤◌, String, ◌≡◌, refl, sym, ap, ◌∙◌, ◌⊎◌, inl, inr, true, not, Option, none, some,
  List, [], ◌∷◌, arith, ◌==◌, ltb, Bool-cases, Option-cases,
}
use drift_sql.Result.{
  fail_if, >>=-eq-ok, ok_injective, or_raise, or_raise-eq-ok, fail_if-eq-ok, conflict_error,
  key_error, Result, ok, raised,
}
use drift_sql.Service.Types.{SessionStatus, EventType, InferenceBudget, SessionRead}
use drift_sql.Service.Repository.{
  SessionRow, Db, find_session, update_session, get_session, save_session, append_event,
}
use drift_sql.Service.Toolbox.{lookup}
use drift_sql.Service.Orchestrator.{ActiveSession}
use drift_sql.Service.Lifecycle.{
  Fields, RunCreate, Settings, or_default, budget_of, World, Action, resume, transaction, store,
  is_created, startable, start_run,
}
use mathlib.Core.Path.{subst}

-- The defaults that the settings require to be positive.
abbrev pub IsPositive : Settings → Type 0
IsPositive settings =
    (1 ≤ settings.default_max_turns)
    × (1 ≤ settings.default_timeout_ms)
    × (1 ≤ settings.default_max_tool_calls)
    × (1 ≤ settings.default_max_new_tokens)
    × (1 ≤ settings.default_max_total_tokens)

abbrev pub IsWithin : Settings → InferenceBudget → Type 0
IsWithin settings b =
    (1 ≤ b.max_turns)
    × (b.max_turns ≤ settings.maximum_max_turns)
    × (1 ≤ b.timeout_ms)
    × (b.timeout_ms ≤ settings.maximum_timeout_ms)
    × (1 ≤ b.max_tool_calls)
    × (1 ≤ b.max_new_tokens)
    × (1 ≤ b.max_total_tokens)

-- What the request asks for, or else the default.
abbrev pub IsAsked : Option ℕ → ℕ → ℕ → Type 0
IsAsked asked default granted =
    ((n : ℕ) × (asked ≡ some (suc n)) × (granted ≡ suc n))
    ⊎ (((asked ≡ none) ⊎ (asked ≡ some 0)) × (granted ≡ default))

or_default-IsAsked : (o : Option ℕ) (d : ℕ) → IsAsked o d (or_default o d)
unfolding or_default
or_default-IsAsked none d = inr (inl refl, refl)
or_default-IsAsked (some zero) d = inr (inr refl, refl)
or_default-IsAsked (some (suc n)) d = inl (n, refl, refl)

-- Each limit of a budget is the one that is asked for, or else the default.
abbrev pub IsGranted : Settings → RunCreate → InferenceBudget → Type 0
IsGranted settings request b =
    IsAsked request.max_turns settings.default_max_turns b.max_turns
    × IsAsked request.timeout_ms settings.default_timeout_ms b.timeout_ms
    × IsAsked request.max_tool_calls settings.default_max_tool_calls b.max_tool_calls
    × IsAsked request.max_new_tokens settings.default_max_new_tokens b.max_new_tokens
    × IsAsked request.max_total_tokens settings.default_max_total_tokens b.max_total_tokens

or_default_pos : (o : Option ℕ) (d : ℕ) → 1 ≤ d → 1 ≤ or_default o d
unfolding or_default
or_default_pos none d h = h
or_default_pos (some zero) d h = h
or_default_pos (some (suc n)) d h = omega arith

-- Where the defaults of the settings are positive, the five limits of a budget that is granted are
-- positive, its turns and its time are within the maxima of the service, and each limit is the one
-- that the request asks for, or the default where it asks for none or for 0.
pub budget_of-IsWithin :
    (settings : Settings) (request : RunCreate) {b : InferenceBudget}
    → IsPositive settings
    → budget_of settings request ≡ ok b
    → IsWithin settings b × IsGranted settings request b
unfolding budget_of
budget_of-IsWithin settings request (turns, time, calls, new, total) h =
    let (_, t, h') =
      >>=-eq-ok
        (fail_if
          (ltb settings.maximum_max_turns (or_default request.max_turns settings.default_max_turns))
          _)
        _ h in
    let (_, s, h'') =
      >>=-eq-ok
        (fail_if
          (ltb settings.maximum_timeout_ms
            (or_default request.timeout_ms settings.default_timeout_ms))
          _)
        _ h' in
    let few = fail_if-eq-ok _ _ t in
    let short = fail_if-eq-ok _ _ s in
    rw (← ok_injective h'') (
      (
        or_default_pos request.max_turns settings.default_max_turns turns,
        ground arith,
        or_default_pos request.timeout_ms settings.default_timeout_ms time,
        ground arith,
        or_default_pos request.max_tool_calls settings.default_max_tool_calls calls,
        or_default_pos request.max_new_tokens settings.default_max_new_tokens new,
        or_default_pos request.max_total_tokens settings.default_max_total_tokens total,
      ),
      (
        or_default-IsAsked request.max_turns settings.default_max_turns,
        or_default-IsAsked request.timeout_ms settings.default_timeout_ms,
        or_default-IsAsked request.max_tool_calls settings.default_max_tool_calls,
        or_default-IsAsked request.max_new_tokens settings.default_max_new_tokens,
        or_default-IsAsked request.max_total_tokens settings.default_max_total_tokens,
      ),
    )

resume-eq-ok :
    {A B : Type 0} (m : Db × Result A) (k : A → Action B) {b : B}
    → (resume m k).1 ≡ ok b
    → (a : A) × (m.1 ≡ ok a) × ((k a m.0).1 ≡ ok b)
resume-eq-ok (db, ok a) k h = (a, refl, h)
resume-eq-ok (db, raised e) k h = cc

transaction-eq-ok :
    {A : Type 0} (db : Db) (r : Result (A × Db)) {a : A}
    → (transaction db r).1 ≡ ok a
    → (db' : Db) × (r ≡ ok (a, db'))
transaction-eq-ok db (ok (x, db')) h = (db', ap (λ x. ok (x, db')) (ok_injective h))
transaction-eq-ok db (raised e) h = cc

stored_session :
    (now : String) (s : SessionRead) (db db' : Db) {s' : SessionRead}
    → save_session now s db ≡ ok (s', db')
    → s' ≡ record s { updated_at = now }
unfolding save_session
stored_session now s db db' h =
    let (r, e, h') =
      >>=-eq-ok (or_raise (key_error s.session_id) (find_session s.session_id db.sessions)) _ h in
    sym (ap (λ (p : SessionRead × Db). p.0) (ok_injective h'))

resume_runs :
    {A B : Type 0} (m : Db × Result A) (k : A → Action B) {a : A}
    → m.1 ≡ ok a
    → resume m k ≡ k a m.0
resume_runs (db, ok x) k h = ap (λ a. k a db) (ok_injective h)
resume_runs (db, raised e) k h = cc

transaction_runs :
    {A : Type 0} (db : Db) (r : Result (A × Db)) {a : A} {db' : Db}
    → r ≡ ok (a, db')
    → transaction db r ≡ (db', ok a)
transaction_runs db r h = rw h refl

find_session-update :
    (id : String) (s : SessionRead) (rs : List SessionRow) {r : SessionRow}
    → find_session id rs ≡ some r
    → (q : SessionRow) × (find_session id (update_session id s rs) ≡ some q) × (q.payload ≡ s)
unfolding find_session update_session
find_session-update id s [] h = cc
find_session-update id s (r ∷ rs) h = elim (Bool-cases (r.key == id)) [
  | inl y ↦ rw (y, find_session, y) (record r { payload = s }, refl, refl)
  | inr n ↦ rw (n, find_session, n) (find_session-update id s rs (rw n at h))
]

-- What was stored is read.
get_session-save_session :
    (now : String) (s : SessionRead) (db db' : Db) {s' : SessionRead}
    → save_session now s db ≡ ok (s', db')
    → get_session s.session_id db' ≡ ok s'
unfolding save_session get_session
get_session-save_session now s db db' h =
    let (r, e, h') =
      >>=-eq-ok (or_raise (key_error s.session_id) (find_session s.session_id db.sessions)) _ h in
    let found : SessionRead = record s { updated_at = now } in
    let (q, at, same) = find_session-update s.session_id found db.sessions (or_raise-eq-ok _ _ e) in
    rw (← ap (λ (p : SessionRead × Db). p.1) (ok_injective h'))
      (rw at (ap ok (same ∙ ap (λ (p : SessionRead × Db). p.0) (ok_injective h'))))

-- An event that is appended changes no session.
get_session-append_event :
    (now id j : String) (t : EventType) (payload : Fields) (db : Db)
    → get_session j (transaction db (append_event now id t payload db)).0 ≡ get_session j db
unfolding append_event get_session
get_session-append_event now id j t payload db = elim (Option-cases (find_session id db.sessions)) [
  | inl gone ↦ rw gone refl
  | inr (r, found) ↦ rw found refl
]

moved :
    {kept stored : SessionRead} {db db' : Db}
    → kept ≡ stored
    → db' ≡ db
    → get_session kept.session_id db ≡ ok kept
    → get_session stored.session_id db' ≡ ok stored
moved {kept} {stored} {db} {db'} same e h =
    ap (get_session stored.session_id) e
    ∙ subst (λ (x : SessionRead). get_session x.session_id db ≡ ok x) same h

module _ {S : Type 0} where
  -- Where the defaults of the settings are positive, a run starts only for a stored session that is
  -- active here and has the status `created`, and with a positive budget within the maxima; what is
  -- returned is this session, queued with this budget, and the tables then hold it under its
  -- identifier.
  pub start_run-startable :
      (settings : Settings) (now id : String) (request : RunCreate) (w w' : World S)
      {stored : SessionRead}
      → IsPositive settings
      → start_run settings now id request w ≡ (w', ok stored)
      → (s : SessionRead) × (get_session id w.db ≡ ok s)
        × (is_created s.status ≡ true)
        × ((a : ActiveSession) × (lookup id w.active ≡ some a))
        × (b : InferenceBudget) × IsWithin settings b
        × (stored ≡ record s { status = SessionStatus.queued; budget = some b; updated_at = now })
        × (get_session stored.session_id w'.db ≡ ok stored)
  unfolding start_run startable
  start_run-startable settings now id request w w' {stored} p h =
      let ((s, b), began, h1) =
        resume-eq-ok (store w.db (startable settings id request w)) _
          (ap (λ (q : World S × Result SessionRead). q.1) h) in
      let (kept, saved, h2) = resume-eq-ok (transaction w.db (save_session now _ w.db)) _ h1 in
      let (e, told, h3) = resume-eq-ok (transaction _ (append_event now id _ _ _)) _ h2 in
      let (db', saved') = transaction-eq-ok w.db _ saved in
      let (s0, g, k1) = >>=-eq-ok (get_session id w.db) _ began in
      let (a, act, k2) = >>=-eq-ok (or_raise conflict_error (lookup id w.active)) _ k1 in
      let (_, new, k3) = >>=-eq-ok (fail_if (not (is_created s0.status)) conflict_error) _ k2 in
      let (b0, granted, k4) = >>=-eq-ok (budget_of settings request) _ k3 in
      let same = ok_injective k4 in
      let runs =
        resume_runs (store w.db (startable settings id request w)) _ began
        ∙ resume_runs (transaction w.db (save_session now _ w.db)) _ saved
        ∙ resume_runs (transaction _ (append_event now id _ _ _)) _ told in
      let left =
        sym (ap (λ (q : World S × Result SessionRead). q.0.db) h)
        ∙ ap (λ (q : Db × Result SessionRead). q.0) runs in
      let key = ap (λ (x : SessionRead). x.session_id) (stored_session now _ w.db db' saved') in
      let there : get_session stored.session_id w'.db ≡ ok stored = moved (ok_injective h3) left (
        get_session-append_event now id _ EventType.queued _ _
        ∙ ap (λ (d : Db). get_session kept.session_id d)
            (ap (λ (q : Db × Result SessionRead). q.0) (transaction_runs w.db _ saved'))
        ∙ ap (λ (i : String). get_session i db') key
        ∙ get_session-save_session now _ w.db db' saved') in
      (
        s0,
        g,
        ground (arith, fail_if-eq-ok _ _ new),
        (a, or_raise-eq-ok _ _ act),
        b0,
        (budget_of-IsWithin settings request p granted).0,
        sym (ok_injective h3)
            ∙ stored_session now _ w.db db' saved'
            ∙ ap
                (λ (q : SessionRead × InferenceBudget). record (q.0) {
                  status = SessionStatus.queued;
                  budget = some q.1;
                  updated_at = now;
                })
                (sym same),
        there,
      )
