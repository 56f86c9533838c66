-- ===== src/Service/Repository/Restart.antt =====
-- `mark_interrupted_sessions_failed` of driftsql/service/repository/sqlite.py, and the order of
-- the rows that it lists.
use drift_sql.Prelude.{
  ℕ, zero, suc, ◌+◌, ◌≤◌, String, ◌≡◌, refl, ap, ◌∙◌, ◌⊎◌, inl, inr, Bool, true, not, ◌&&◌, ◌||◌,
  some, List, [], ◌∷◌, map, arith, ◌==◌, eq_iff, eq_refl, if◌then◌else◌, Bool-cases, length, any,
  take, All, All-map,
}
use drift_sql.Result.{ok}
use drift_sql.Service.Types.{SessionStatus, SessionRead, is_terminal}
use drift_sql.Service.Repository.{
  SessionRow, Db, find_session, update_session, is_newer, insert_row, order_rows, save_session,
  list_sessions, count_sessions, fail_each, mark_interrupted_sessions_failed,
}
use drift_sql.Service.Repository.Invariant.{
  has_key, is_stored, IsWellFormed, any-update, save_session-IsWellFormed,
}

abbrev pub IsFinished : SessionRow → Type 0
IsFinished r = is_terminal r.payload.status ≡ true

-- Some listed session of this key is still active.
abbrev is_pending : String → SessionRead → Bool
is_pending key s = s.session_id == key && not (is_terminal s.status)

abbrev Covered : List SessionRead → SessionRow → Type 0
Covered ss r = IsFinished r ⊎ (any (is_pending r.key) ss ≡ true)

failed_session : String → SessionRead → SessionRead
failed_session now s = record s {
  status = SessionStatus.failed;
  termination_reason = some "service_restart";
  completed_at = some now;
}

Covered-update :
    (s s' : SessionRead) (ss : List SessionRead) (rs : List SessionRow)
    → is_terminal s'.status ≡ true
    → All (Covered (s ∷ ss)) rs
    → All (Covered ss) (update_session s.session_id s' rs)
unfolding update_session any
Covered-update s s' ss [] done h = tt
Covered-update s s' ss (r ∷ rs) done (h, t) = (here h, Covered-update s s' ss rs done t)
  where
    here :
        Covered (s ∷ ss) r
        → Covered ss (if r.key == s.session_id then record r { payload = s' } else r)
    here c = elim (Bool-cases (r.key == s.session_id)) [
      | inl y ↦ rw y (inl done)
      | inr n ↦ rw n (elim c [
        | inl f ↦ inl f
        | inr p ↦ inr (ground (arith, eq_iff r.key s.session_id, eq_iff s.session_id r.key))
      ])
    ]

Covered-skip :
    (s : SessionRead) (ss : List SessionRead) (r : SessionRow)
    → is_terminal s.status ≡ true
    → Covered (s ∷ ss) r
    → Covered ss r
unfolding any
Covered-skip s ss r done (inl f) = inl f
Covered-skip s ss r done (inr p) = inr (ground arith)

Covered-nil : (r : SessionRow) → Covered [] r → IsFinished r
unfolding any
Covered-nil r (inl f) = f
Covered-nil r (inr p) = cc

abbrev Stored : Db → SessionRead → Type 0
Stored db s = is_stored s.session_id db ≡ true

found :
    (id : String) (rs : List SessionRow)
    → any (has_key id) rs ≡ true
    → (r : SessionRow) × (find_session id rs ≡ some r)
unfolding any find_session
found id [] h = cc
found id (r ∷ rs) h = elim (Bool-cases (r.key == id)) [
  | inl y ↦ (r, rw y)
  | inr n ↦ let (q, e) = found id rs (ground arith) in (q, rw (n, e))
]

save_found :
    (now : String) (s : SessionRead) (db : Db) (r : SessionRow)
    → find_session s.session_id db.sessions ≡ some r
    → let s' : SessionRead = record (failed_session now s) { updated_at = now } in
      save_session now (failed_session now s) db
      ≡ ok (s', record db { sessions = update_session s.session_id s' db.sessions })
unfolding save_session failed_session
save_found now s db r e = rw e

fail_each_lem :
    (now : String) (ss : List SessionRead) (db : Db)
    → IsWellFormed db
    → All (Stored db) ss
    → All (Covered ss) db.sessions
    → (n : ℕ) × (db' : Db) × (fail_each now ss db ≡ ok (n, db'))
      × All IsFinished db'.sessions
      × IsWellFormed db'
unfolding fail_each failed_session
fail_each_lem now [] db w stored h = (0, db, refl, All-map db.sessions Covered-nil h, w)
fail_each_lem now (s ∷ ss) db w (at, stored) h = elim (Bool-cases (is_terminal s.status)) [
  | inl y ↦
      let (n, db', e, done, w') =
        fail_each_lem now ss db w stored (All-map db.sessions (λ r. Covered-skip s ss r y) h) in
      (n, db', rw (y, e), done, w')
  | inr active ↦
      let (r, kept) = found s.session_id db.sessions at in
      let s' : SessionRead = record (failed_session now s) { updated_at = now } in
      let db1 : Db = record db { sessions = update_session s.session_id s' db.sessions } in
      let saved = save_found now s db r kept in
      let w1 = save_session-IsWellFormed now (failed_session now s) db w saved in
      let (n, db', e, done, w') =
        fail_each_lem now ss db1 w1 (All-map ss (λ t k. rw any-update k) stored)
          (Covered-update s s' ss db.sessions refl h) in
      (n + 1, db', rw (active, saved, e), done, w')
]

any-insert_row :
    (p : SessionRow → Bool) (r : SessionRow) (rs : List SessionRow)
    → any p (insert_row r rs) ≡ (p r || any p rs)
unfolding any insert_row
any-insert_row p r [] = refl
any-insert_row p r (q ∷ qs) = ground (arith, any-insert_row p r qs)

any-order_rows : (p : SessionRow → Bool) (rs : List SessionRow) → any p (order_rows rs) ≡ any p rs
unfolding any order_rows
any-order_rows p [] = refl
any-order_rows p (r ∷ rs) = any-insert_row p r (order_rows rs) ∙ rw (any-order_rows p rs)

length-insert_row :
    (r : SessionRow) (rs : List SessionRow) → length (insert_row r rs) ≡ suc (length rs)
unfolding insert_row
length-insert_row r [] = refl
length-insert_row r (q ∷ qs) = ground (arith, length-insert_row r qs)

length-order_rows : (rs : List SessionRow) → length (order_rows rs) ≡ length rs
unfolding order_rows
length-order_rows [] = refl
length-order_rows (r ∷ rs) = length-insert_row r (order_rows rs) ∙ ap suc (length-order_rows rs)

take_all : (n : ℕ) (rs : List SessionRow) → length rs ≤ n → take n rs ≡ rs
take_all zero [] h = refl
take_all zero (r ∷ rs) h = absurd (omega arith)
take_all (suc n) [] h = refl
take_all (suc n) (r ∷ rs) h = ap (λ l. r ∷ l) (take_all n rs (omega arith))

any-payload :
    (p : SessionRead → Bool) (rs : List SessionRow)
    → any p (map (λ r. r.payload) rs) ≡ any (λ r. p r.payload) rs
unfolding any
any-payload p [] = refl
any-payload p (r ∷ rs) = rw (any-payload p rs)

-- A page that is large enough lists every stored session.
any-listed :
    (p : SessionRead → Bool) (limit : ℕ) (db : Db)
    → count_sessions db ≤ limit
    → any p (list_sessions limit 0 db) ≡ any (λ r. p r.payload) db.sessions
unfolding list_sessions count_sessions
any-listed p limit db few =
    let all = take_all limit (order_rows db.sessions) (rw (length-order_rows db.sessions) few) in
    rw (all, any-payload p (order_rows db.sessions), any-order_rows (λ r. p r.payload) db.sessions)

All-insert_row :
    (P : SessionRow → Type 0) (r : SessionRow) (rs : List SessionRow)
    → P r
    → All P rs
    → All P (insert_row r rs)
unfolding insert_row
All-insert_row P r [] p h = (p, tt)
All-insert_row P r (q ∷ qs) p (h, t) = elim (Bool-cases (is_newer q.created r.created)) [
  | inl y ↦ rw y (h, All-insert_row P r qs p t)
  | inr n ↦ rw n (p, (h, t))
]

All-order_rows : (P : SessionRow → Type 0) (rs : List SessionRow) → All P rs → All P (order_rows rs)
unfolding order_rows
All-order_rows P [] h = tt
All-order_rows P (r ∷ rs) (h, t) = All-insert_row P r (order_rows rs) h (All-order_rows P rs t)

All-payload :
    (P : SessionRead → Type 0) (rs : List SessionRow)
    → All (λ r. P r.payload) rs
    → All P (map (λ r. r.payload) rs)
All-payload P [] h = tt
All-payload P (r ∷ rs) (h, t) = (h, All-payload P rs t)

All-listed :
    (P : SessionRead → Type 0) (limit : ℕ) (db : Db)
    → count_sessions db ≤ limit
    → All (λ r. P r.payload) db.sessions
    → All P (list_sessions limit 0 db)
unfolding list_sessions count_sessions
All-listed P limit db few h =
    let all = take_all limit (order_rows db.sessions) (rw (length-order_rows db.sessions) few) in
    let ordered = All-order_rows (λ r. P r.payload) db.sessions h in
    rw all (All-payload P (order_rows db.sessions) ordered)

Covered-each :
    (rs rest : List SessionRow)
    → ((p : SessionRow → Bool) → any p rest ≡ true → any p rs ≡ true)
    → All (λ r. r.payload.session_id ≡ r.key) rest
    → All (λ r. IsFinished r ⊎ (any (λ q. is_pending r.key q.payload) rs ≡ true)) rest
unfolding any
Covered-each rs [] within h = tt
Covered-each rs (r ∷ rest) within (h, t) = (
  elim (Bool-cases (is_terminal r.payload.status)) [
    | inl y ↦ inl y
    | inr n ↦ inr (within (λ q. is_pending r.key q.payload) (rw (h, eq_refl r.key, n) refl))
  ],
  Covered-each rs rest (λ p k. within p (any_later p r rest k)) t,
)
  where
    any_later :
        (p : SessionRow → Bool) (r : SessionRow) (rest : List SessionRow)
        → any p rest ≡ true
        → any p (r ∷ rest) ≡ true
    any_later p r rest k = ground arith

Stored-each :
    (db : Db) (rs : List SessionRow)
    → ((p : SessionRow → Bool) → any p rs ≡ true → any p db.sessions ≡ true)
    → All (λ r. r.payload.session_id ≡ r.key) rs
    → All (λ r. Stored db r.payload) rs
unfolding any
Stored-each db [] within h = tt
Stored-each db (r ∷ rs) within (h, t) = (
  within (has_key r.payload.session_id) (rw (h, eq_refl r.key) refl),
  Stored-each db rs (λ p k. within p (any_later p r rs k)) t,
)
  where
    any_later :
        (p : SessionRow → Bool) (r : SessionRow) (rest : List SessionRow)
        → any p rest ≡ true
        → any p (r ∷ rest) ≡ true
    any_later p r rest k = ground arith

fail_listed :
    (now : String) (limit : ℕ) (db : Db)
    → IsWellFormed db
    → count_sessions db ≤ limit
    → (n : ℕ) × (db' : Db) × (fail_each now (list_sessions limit 0 db) db ≡ ok (n, db'))
      × All IsFinished db'.sessions
      × IsWellFormed db'
fail_listed now limit db w few =
    let kept =
      All-listed (Stored db) limit db few (Stored-each db db.sessions (λ p k. k) w.keyed) in
    let covered =
      All-map db.sessions
        (λ r c. elim c [
          | inl f ↦ inl f
          | inr p ↦ inr (any-listed (is_pending r.key) limit db few ∙ p)
        ])
        (Covered-each db.sessions db.sessions (λ p k. k) w.keyed) in
    fail_each_lem now (list_sessions limit 0 db) db w kept covered

-- With at most 10000 stored sessions the restart succeeds, and afterwards every stored session
-- has a terminal status and the tables are well formed.
pub mark_interrupted :
    (now : String) (db : Db)
    → IsWellFormed db
    → count_sessions db ≤ 10000
    → (n : ℕ) × (db' : Db) × (mark_interrupted_sessions_failed now db ≡ ok (n, db'))
      × All IsFinished db'.sessions
      × IsWellFormed db'
unfolding mark_interrupted_sessions_failed
mark_interrupted now db w few = fail_listed now 10000 db w few
