-- ===== src/Service/Repository/Reading.antt =====
-- `list_events` of driftsql/service/repository/sqlite.py, and the cursor of `event_stream` of
-- orchestrator.py.
use drift_sql.Prelude.{
  ℕ, zero, suc, ◌+◌, ◌-◌, ◌≤◌, String, ◌≡◌, refl, sym, ◌∙◌, List, [], ◌∷◌, ◌++◌, arith, ltb, length,
  keep, drop,
}
use drift_sql.Result.{ok_injective, ok}
use drift_sql.Service.Types.{SessionRead, TrajectoryEvent}
use drift_sql.Service.Repository.{Db, events_of, get_session, list_events}
use drift_sql.Service.Repository.Run.{IsRun, keep-run, IsRun-drop, order-run}
use drift_sql.Service.Repository.Invariant.{IsWellFormed}
use mathlib.Core.Path.{subst}

behind :
    (after : ℕ) (es : List TrajectoryEvent)
    → IsRun 1 es
    → keep (λ e. ltb after e.sequence) es ≡ drop after es
behind after es run =
    let over : 0 + after ≡ after = omega arith in
    subst (λ n. keep (λ e. ltb n e.sequence) es ≡ drop after es) over (keep-run 0 after es run)

-- A read gives the events behind the cursor, in the order in which they were appended.
pub list_events-drop :
    (id : String) (after : ℕ) (db : Db) {s : SessionRead}
    → IsWellFormed db
    → get_session id db ≡ ok s
    → list_events id after db ≡ ok (drop after (events_of id db.events))
unfolding list_events
list_events-drop id after db w h =
    let es = events_of id db.events in
    let run = w.numbered id in
    let later = behind after es run in
    rw (h, later, order-run (1 + after) (drop after es) (IsRun-drop 1 after es run))

-- `for event in events: cursor = event.sequence`
unfoldable pub move_cursor : ℕ → List TrajectoryEvent → ℕ
move_cursor cursor [] = cursor
move_cursor cursor (e ∷ es) = move_cursor e.sequence es

pub move_cursor-run :
    (i : ℕ) (es : List TrajectoryEvent) → IsRun (suc i) es → move_cursor i es ≡ i + length es
unfolding move_cursor
move_cursor-run i [] h = omega arith
move_cursor-run i (e ∷ es) (h, t) = rw h (omega (arith, move_cursor-run (suc i) es t))

length-drop : (n : ℕ) (es : List TrajectoryEvent) → length (drop n es) ≡ length es - n
length-drop zero es = omega arith
length-drop (suc n) [] = omega arith
length-drop (suc n) (e ∷ es) = omega (arith, length-drop n es)

pub drop-append : (es new : List TrajectoryEvent) → drop (length es) (es ++ new) ≡ new
drop-append [] new = refl
drop-append (e ∷ es) new = drop-append es new

-- Of well-formed tables, after a read behind a cursor that is no greater than the number of the
-- session's events, a second read behind the cursor that the first one leaves gives exactly the
-- events of the session that were appended in between.
pub read_again :
    (id : String) (cursor : ℕ) (db later : Db) (new : List TrajectoryEvent) {s t : SessionRead}
    {batch : List TrajectoryEvent}
    → IsWellFormed db
    → IsWellFormed later
    → cursor ≤ length (events_of id db.events)
    → get_session id db ≡ ok s
    → get_session id later ≡ ok t
    → events_of id later.events ≡ events_of id db.events ++ new
    → list_events id cursor db ≡ ok batch
    → list_events id (move_cursor cursor batch) later ≡ ok new
read_again id cursor db later new w w' below h h' grown read =
    let es = events_of id db.events in
    let same = ok_injective (sym (list_events-drop id cursor db w h) ∙ read) in
    let one : 1 + cursor ≡ suc cursor = omega arith in
    let rest = subst (λ n. IsRun n (drop cursor es)) one (IsRun-drop 1 cursor es (w.numbered id)) in
    let moved = move_cursor-run cursor (drop cursor es) rest in
    let stands : cursor + length (drop cursor es) ≡ length es =
      omega (arith, length-drop cursor es) in
    list_events-drop id _ later w' h' ∙ rw (grown, ← same, moved, stands, drop-append es new)
