-- ===== src/Service/Repository/Invariant.antt =====
-- The invariant of the tables of driftsql/service/repository/sqlite.py, and the methods that
-- change them.
use drift_sql.Prelude.{
  ◌+◌, String, ◌≡◌, refl, sym, ap, ◌∙◌, inl, inr, Bool, true, false, Option, none, some, List, [],
  ◌∷◌, ◌++◌, arith, ◌==◌, eq_iff, Bool-cases, length, any, All, All-map, All-append, any-append,
  keep-append_true, keep-append_false,
}
use drift_sql.Result.{
  fail_if, >>=-eq-ok, ok_injective, or_raise, or_raise-eq-ok, is_some, fail_if-eq-ok, ok,
}
use drift_sql.Python.Values.{Fields, end}
use drift_sql.Service.Types.{EventType, SessionRead, TrajectoryEvent}
use drift_sql.Service.Repository.{
  SessionRow, TrajectoryRow, Db, find_session, find_trajectory, update_session, update_trajectory,
  is_of, events_of, create_session, save_session, next_event, append_event, save_trajectory_state,
}
use drift_sql.Service.Repository.Run.{IsRun, IsRun-append, max_sequence-run}

abbrev pub has_key : String → SessionRow → Bool
has_key id r = r.key == id

abbrev pub has_trajectory_key : String → TrajectoryRow → Bool
has_trajectory_key id r = r.key == id

abbrev pub is_stored : String → Db → Bool
is_stored id db = any (has_key id) db.sessions

abbrev pub has_trajectory : String → Db → Bool
has_trajectory id db = any (has_trajectory_key id) db.trajectories

-- No key stands twice among the sessions, or among the trajectories.
abbrev pub Distinct : List SessionRow → Type 0
Distinct [] = Unit
Distinct (r ∷ rs) = (any (has_key r.key) rs ≡ false) × Distinct rs

abbrev pub DistinctTrajectories : List TrajectoryRow → Type 0
DistinctTrajectories [] = Unit
DistinctTrajectories (r ∷ rs) =
    (any (has_trajectory_key r.key) rs ≡ false) × DistinctTrajectories rs

pub record IsWellFormed (db : Db) : Type 0 where
  pub numbered : (id : String) → IsRun 1 (events_of id db.events)
  pub owned : All (λ e. is_stored e.session_id db ≡ true) db.events
  pub paired : (id : String) → is_stored id db ≡ has_trajectory id db
  pub distinct : Distinct db.sessions
  pub single : DistinctTrajectories db.trajectories
  pub keyed : All (λ r. r.payload.session_id ≡ r.key) db.sessions

pub find_some :
    (id : String) (rs : List SessionRow) (r : SessionRow)
    → find_session id rs ≡ some r
    → any (has_key id) rs ≡ true
unfolding find_session any
find_some id [] r h = cc
find_some id (q ∷ qs) r h = ground (arith, find_some id qs r)

pub find_none :
    (id : String) (rs : List SessionRow) → find_session id rs ≡ none → any (has_key id) rs ≡ false
unfolding find_session any
find_none id [] h = refl
find_none id (q ∷ qs) h = ground (arith, find_none id qs)

find_trajectory-none :
    (id : String) (rs : List TrajectoryRow)
    → find_trajectory id rs ≡ none
    → any (has_trajectory_key id) rs ≡ false
unfolding find_trajectory any
find_trajectory-none id [] h = refl
find_trajectory-none id (q ∷ qs) h = ground (arith, find_trajectory-none id qs)

-- An update changes no key.
pub any-update :
    (id j : String) (s : SessionRead) (rs : List SessionRow)
    → any (has_key j) (update_session id s rs) ≡ any (has_key j) rs
unfolding update_session any
any-update id j s [] = refl
any-update id j s (r ∷ rs) = ground (arith, any-update id j s rs)

any-update_trajectory :
    (id j : String) (messages : List Fields) (reward : Fields) (rs : List TrajectoryRow)
    → any (has_trajectory_key j) (update_trajectory id messages reward rs)
      ≡ any (has_trajectory_key j) rs
unfolding update_trajectory any
any-update_trajectory id j m w [] = refl
any-update_trajectory id j m w (r ∷ rs) = ground (arith, any-update_trajectory id j m w rs)

Distinct-update :
    (id : String) (s : SessionRead) (rs : List SessionRow)
    → Distinct rs
    → Distinct (update_session id s rs)
unfolding update_session
Distinct-update id s [] h = tt
Distinct-update id s (r ∷ rs) (h, t) =
    (ground (arith, any-update id r.key s rs), Distinct-update id s rs t)

keyed-update :
    (id : String) (s : SessionRead) (rs : List SessionRow)
    → s.session_id ≡ id
    → All (λ r. r.payload.session_id ≡ r.key) rs
    → All (λ r. r.payload.session_id ≡ r.key) (update_session id s rs)
unfolding update_session
keyed-update id s [] e h = tt
keyed-update id s (r ∷ rs) e (h, t) = (ground (arith, eq_iff r.key id), keyed-update id s rs e t)

Distinct-append :
    (rs : List SessionRow) (r : SessionRow)
    → any (has_key r.key) rs ≡ false
    → Distinct rs
    → Distinct (rs ++ r ∷ [])
unfolding any
Distinct-append [] r h d = (refl, tt)
Distinct-append (q ∷ qs) r h (d, t) = (
  rw any-append (ground (arith, eq_iff r.key q.key, eq_iff q.key r.key)),
  Distinct-append qs r (ground arith) t,
)

single-update :
    (id : String) (messages : List Fields) (reward : Fields) (rs : List TrajectoryRow)
    → DistinctTrajectories rs
    → DistinctTrajectories (update_trajectory id messages reward rs)
unfolding update_trajectory
single-update id m w [] h = tt
single-update id m w (r ∷ rs) (h, t) =
    (ground (arith, any-update_trajectory id r.key m w rs), single-update id m w rs t)

single-append :
    (rs : List TrajectoryRow) (r : TrajectoryRow)
    → any (has_trajectory_key r.key) rs ≡ false
    → DistinctTrajectories rs
    → DistinctTrajectories (rs ++ r ∷ [])
unfolding any
single-append [] r h d = (refl, tt)
single-append (q ∷ qs) r h (d, t) = (
  rw any-append (ground (arith, eq_iff r.key q.key, eq_iff q.key r.key)),
  single-append qs r (ground arith) t,
)

events-other :
    (id : String) (es : List TrajectoryEvent) (e : TrajectoryEvent)
    → is_of id e ≡ false
    → events_of id (es ++ e ∷ []) ≡ events_of id es
unfolding events_of
events-other id es e h = keep-append_false (is_of id) es e h

pub events-own :
    (id : String) (es : List TrajectoryEvent) (e : TrajectoryEvent)
    → is_of id e ≡ true
    → events_of id (es ++ e ∷ []) ≡ events_of id es ++ e ∷ []
unfolding events_of
events-own id es e h = keep-append_true (is_of id) es e h

-- More sessions keep what is owned.
owned-more :
    (es : List TrajectoryEvent) (rs more : List SessionRow)
    → All (λ e. any (has_key e.session_id) rs ≡ true) es
    → All (λ e. any (has_key e.session_id) (rs ++ more) ≡ true) es
owned-more es rs more = All-map es (λ e h. rw any-append (rw h))

is_some-eq-false {ℓ} : {A : Type ℓ} (o : Option A) → is_some o ≡ false → o ≡ none
is_some-eq-false none h = refl
is_some-eq-false (some a) h = cc

created :
    (s : SessionRead) (db : Db)
    → IsWellFormed db
    → any (has_key s.session_id) db.sessions ≡ false
    → any (has_trajectory_key s.session_id) db.trajectories ≡ false
    → IsWellFormed (record db {
      sessions =
          db.sessions ++ record { key = s.session_id; created = s.created_at; payload = s } ∷ [];
      trajectories =
          db.trajectories ++ record { key = s.session_id; messages = []; reward = end } ∷ [];
    })
unfolding any
created s db w new free =
    let row : SessionRow = record { key = s.session_id; created = s.created_at; payload = s } in
    record {
      numbered = w.numbered;
      owned = owned-more db.events db.sessions (row ∷ []) w.owned;
      paired = λ id. rw (any-append, any-append) (ground (arith, w.paired id));
      distinct = Distinct-append db.sessions row new w.distinct;
      single =
          single-append db.trajectories (record { key = s.session_id; messages = []; reward = end })
            free w.single;
      keyed = All-append _ db.sessions (row ∷ []) w.keyed (refl, tt);
    }

-- A session that is created in well-formed tables leaves them well formed: no key stands twice among
-- the sessions or among the trajectories, a key is among the sessions exactly when it is among the
-- trajectories, and the events keep their numbers and their sessions.
pub create_session-IsWellFormed :
    (s : SessionRead) (db : Db) {db' : Db}
    → IsWellFormed db
    → create_session s db ≡ ok db'
    → IsWellFormed db'
unfolding create_session
create_session-IsWellFormed s db w h =
    let (u, e, h') = >>=-eq-ok (fail_if (is_some (find_session s.session_id db.sessions)) _) _ h in
    let (u', f, h'') =
      >>=-eq-ok (fail_if (is_some (find_trajectory s.session_id db.trajectories)) _) _ h' in
    rw (← ok_injective h'') (
      created s db w (find_none _ _ (is_some-eq-false _ (fail_if-eq-ok _ _ e)))
        (find_trajectory-none _ _ (is_some-eq-false _ (fail_if-eq-ok _ _ f))))

pub save_session-IsWellFormed :
    (now : String) (s : SessionRead) (db : Db) {s' : SessionRead} {db' : Db}
    → IsWellFormed db
    → save_session now s db ≡ ok (s', db')
    → IsWellFormed db'
unfolding save_session
save_session-IsWellFormed now s db w h =
    let (r, e, h') = >>=-eq-ok (or_raise _ (find_session s.session_id db.sessions)) _ h in
    rw (← ap (λ (p : SessionRead × Db). p.1) (ok_injective h')) record {
      numbered = w.numbered;
      owned = All-map db.events (λ v k. rw any-update k) w.owned;
      paired = λ id. rw any-update (w.paired id);
      distinct = Distinct-update s.session_id _ db.sessions w.distinct;
      single = w.single;
      keyed = keyed-update s.session_id _ db.sessions refl w.keyed;
    }

next_sequence :
    (now id : String) (t : EventType) (payload : Fields) (db : Db)
    → IsWellFormed db
    → (next_event now id t payload db.events).sequence ≡ 1 + length (events_of id db.events)
unfolding next_event
next_sequence now id t payload db w =
    omega (arith, max_sequence-run 0 (events_of id db.events) (w.numbered id))

own_id :
    (now id : String) (t : EventType) (payload : Fields) (db : Db) (j : String)
    → is_of j (next_event now id t payload db.events) ≡ true
    → id ≡ j
unfolding next_event
own_id now id t payload db j h = (eq_iff id j).0 h

numbered-next :
    (now id : String) (t : EventType) (payload : Fields) (db : Db)
    → IsWellFormed db
    → (j : String) → IsRun 1 (events_of j (db.events ++ next_event now id t payload db.events ∷ []))
numbered-next now id t payload db w j =
    let event = next_event now id t payload db.events in
    elim (Bool-cases (is_of j event)) [
      | inl y ↦ rw (events-own j db.events event y) (
          IsRun-append 1 (events_of j db.events) event (w.numbered j)
            (rw (← own_id now id t payload db j y) (next_sequence now id t payload db w)))
      | inr n ↦ rw (events-other j db.events event n) (w.numbered j)
    ]

-- An event that is appended to well-formed tables leaves them well formed: the events of each
-- session stay numbered 1, 2, ... in the order of the table, and each belongs to a stored session.
pub append_event-IsWellFormed :
    (now id : String) (t : EventType) (payload : Fields) (db : Db) {event : TrajectoryEvent}
    {db' : Db}
    → IsWellFormed db
    → append_event now id t payload db ≡ ok (event, db')
    → IsWellFormed db'
unfolding append_event
append_event-IsWellFormed now id t payload db w h =
    let (r, e, h') = >>=-eq-ok (or_raise _ (find_session id db.sessions)) _ h in
    rw (← ap (λ (p : TrajectoryEvent × Db). p.1) (ok_injective h')) record {
      numbered = numbered-next now id t payload db w;
      owned =
          All-append _ db.events _ w.owned (find_some id db.sessions r (or_raise-eq-ok _ _ e), tt);
      paired = w.paired;
      distinct = w.distinct;
      single = w.single;
      keyed = w.keyed;
    }

pub save_trajectory_state-IsWellFormed :
    (id : String) (messages : List Fields) (reward : Fields) (db : Db) {db' : Db}
    → IsWellFormed db
    → save_trajectory_state id messages reward db ≡ ok db'
    → IsWellFormed db'
unfolding save_trajectory_state
save_trajectory_state-IsWellFormed id m w db v h =
    let (r, e, h') = >>=-eq-ok (or_raise _ (find_trajectory id db.trajectories)) _ h in
    rw (← ok_injective h') record {
      numbered = v.numbered;
      owned = v.owned;
      paired = λ j. v.paired j ∙ sym (any-update_trajectory id j m w db.trajectories);
      distinct = v.distinct;
      single = single-update id m w db.trajectories v.single;
      keyed = v.keyed;
    }
