-- ===== src/Service/Repository/Stream.antt =====
-- `event_stream` of driftsql/service/inference/orchestrator.py: its passes over the stored events.
-- A pass reads the tables twice, for the events and then for the status. Waiting for a change and
-- the heartbeats are not modelled: after a pass comes the next one, or none where the client goes.
use drift_sql.Prelude.{
  ℕ, suc, ◌+◌, String, ◌≡◌, refl, sym, ap, ◌∙◌, ◌⊎◌, inl, inr, List, [], ◌∷◌, ◌++◌, arith,
  if◌then◌else◌, Bool-cases, length, drop, Any, Any-map, length-append,
}
use drift_sql.Result.{◌>>=◌, >>=-eq-ok, ok_injective, Result, ok}
use drift_sql.Service.Types.{is_terminal, SessionRead, TrajectoryEvent}
use drift_sql.Service.Repository.{Db, events_of, get_session, list_events}
use drift_sql.Service.Repository.Run.{IsRun, IsRun-drop}
use drift_sql.Service.Repository.Invariant.{IsWellFormed}
use drift_sql.Service.Repository.Reading.{
  list_events-drop, move_cursor, move_cursor-run, drop-append,
}
use mathlib.Core.List.{append-nil, append_assoc}
use mathlib.Core.Path.{subst}

-- The events that the passes from this cursor on send.
unfoldable pub stream_from : String → ℕ → List (Db × Db) → Result (List TrajectoryEvent)
unfolding list_events get_session is_terminal move_cursor
stream_from id cursor [] = ok []
stream_from id cursor ((db, later) ∷ passes) = do
  events ← list_events id cursor db
  s ← get_session id later
  let more = stream_from id (move_cursor cursor events) passes
  let next = (do sent ← more; ok (events ++ sent))
  if is_terminal s.status then ok events else next

-- `event_stream`, of a session that the tables hold at the start.
unfoldable pub event_stream : String → ℕ → Db → List (Db × Db) → Result (List TrajectoryEvent)
unfolding stream_from get_session
event_stream id after_sequence db passes = do
  _ ← get_session id db
  stream_from id after_sequence passes

-- From these events on, each pass reads well-formed tables that hold the session, and the events of
-- the session that the pass before read, with new ones behind them.
abbrev pub AreGrowing : String → List TrajectoryEvent → List (Db × Db) → Type 0
AreGrowing id es [] = Unit
AreGrowing id es ((db, later) ∷ passes) =
    IsWellFormed db
    × ((s : SessionRead) × (get_session id db ≡ ok s))
    × ((new : List TrajectoryEvent) × (events_of id db.events ≡ es ++ new))
    × AreGrowing id (events_of id db.events) passes

-- These events were there at the start, or one of the passes read them.
abbrev pub WereRead : String → List TrajectoryEvent → List (Db × Db) → List TrajectoryEvent → Type 0
WereRead id es passes all =
    (all ≡ es) ⊎ Any (λ (p : Db × Db). all ≡ events_of id (p.0).events) passes

read_new :
    (id : String) (es new : List TrajectoryEvent) (db : Db) {s : SessionRead}
    → IsWellFormed db
    → get_session id db ≡ ok s
    → events_of id db.events ≡ es ++ new
    → (list_events id (length es) db ≡ ok new)
      × (move_cursor (length es) new ≡ length (events_of id db.events))
read_new id es new db w h grown =
    let all = events_of id db.events in
    let left : drop (length es) all ≡ new = rw (grown, drop-append es new) refl in
    let one : 1 + length es ≡ suc (length es) = omega arith in
    let run =
      subst (λ n. IsRun n (drop (length es) all)) one
        (IsRun-drop 1 (length es) all (w.numbered id)) in
    (
      list_events-drop id (length es) db w h ∙ ap ok left,
      move_cursor-run (length es) new (subst (IsRun (suc (length es))) left run)
          ∙ sym (ap length grown ∙ length-append es new),
    )

stream_from-sent :
    (id : String) (es : List TrajectoryEvent) (passes : List (Db × Db))
    {sent : List TrajectoryEvent}
    → AreGrowing id es passes
    → stream_from id (length es) passes ≡ ok sent
    → WereRead id es passes (es ++ sent)
unfolding stream_from
stream_from-sent id es [] g h = inl (rw (← ok_injective h) (append-nil es))
stream_from-sent id es ((db, later) ∷ passes) {sent} (w, (s, at), (new, grown), g) h =
    let (read, moved) = read_new id es new db w at grown in
    let (events, e1, h1) = >>=-eq-ok (list_events id (length es) db) _ h in
    let (t, e2, h2) = >>=-eq-ok (get_session id later) _ h1 in
    let same : events ≡ new = ok_injective (sym e1 ∙ read) in
    elim (Bool-cases (is_terminal t.status)) [
      | inl y ↦
          let all : events ≡ sent = ok_injective (rw y at h2) in
          inr (inl (ap (λ l. es ++ l) (sym all ∙ same) ∙ sym grown))
      | inr n ↦
          let (rest, e3, h3) =
            >>=-eq-ok (stream_from id (move_cursor (length es) events) passes) _ (rw n at h2) in
          let on = ap (λ (l : List TrajectoryEvent). move_cursor (length es) l) same ∙ moved in
          let further =
            stream_from-sent id (events_of id db.events) passes {sent = rest} g
              (ap (λ (c : ℕ). stream_from id c passes) (sym on) ∙ e3) in
          let whole : es ++ sent ≡ events_of id db.events ++ rest =
            ap (λ l. es ++ l) (sym (ok_injective h3))
            ∙ ap (λ l. es ++ (l ++ rest)) same
            ∙ sym (append_assoc es new rest)
            ∙ ap (λ l. l ++ rest) (sym grown) in
          inr (elim further [
            | inl stays ↦ inl (whole ∙ stays)
            | inr later_read ↦ inr (Any-map passes (λ p k. whole ∙ k) later_read)
          ])
    ]

-- Where the client has seen the events `es` of a session, the first ones in the order of their
-- numbers, and each pass of the stream reads well-formed tables in which new events of the session
-- stand at most behind the older ones: what the stream sends in all, behind the cursor that counts
-- `es`, is exactly what follows `es` among the events of the session that one of its passes read, in
-- their order, each once, or it is nothing.
pub event_stream-sent :
    (id : String) (es : List TrajectoryEvent) (db : Db) (passes : List (Db × Db))
    {sent : List TrajectoryEvent}
    → AreGrowing id es passes
    → event_stream id (length es) db passes ≡ ok sent
    → WereRead id es passes (es ++ sent)
unfolding event_stream
event_stream-sent id es db passes g h =
    let (s, at, h1) = >>=-eq-ok (get_session id db) _ h in stream_from-sent id es passes g h1
