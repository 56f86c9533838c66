-- ===== src/Service/Repository/Run.antt =====
-- Events that are numbered one after the other.
use drift_sql.Prelude.{
  ℕ, zero, suc, ◌+◌, ◌≤◌, max, ◌≡◌, refl, false, List, [], ◌∷◌, ◌++◌, arith, ltb, length, keep,
  drop,
}
use mathlib.Core.Path.{subst}
use drift_sql.Service.Types.{TrajectoryEvent}
use drift_sql.Service.Repository.{max_sequence, insert_event, order_events}

-- The first event has the number `i`, and each has one more than the event before it.
abbrev pub IsRun : ℕ → List TrajectoryEvent → Type 0
IsRun i [] = Unit
IsRun i (e ∷ es) = (e.sequence ≡ i) × IsRun (suc i) es

pub IsRun-append :
    (i : ℕ) (es : List TrajectoryEvent) (e : TrajectoryEvent)
    → IsRun i es
    → e.sequence ≡ i + length es
    → IsRun i (es ++ e ∷ [])
IsRun-append i [] e h k = (omega arith, tt)
IsRun-append i (f ∷ fs) e (h, t) k = (h, IsRun-append (suc i) fs e t (omega arith))

pub max_sequence-run :
    (i : ℕ) (es : List TrajectoryEvent) → IsRun (suc i) es → max i (max_sequence es) ≡ i + length es
unfolding max_sequence
max_sequence-run i [] h = omega arith
max_sequence-run i (e ∷ es) (h, t) = omega (arith, max_sequence-run (suc i) es t)

keep_above :
    (j i : ℕ) (es : List TrajectoryEvent)
    → j ≤ i
    → IsRun (suc i) es
    → keep (λ e. ltb j e.sequence) es ≡ es
unfolding keep
keep_above j i [] le h = refl
keep_above j i (e ∷ es) le (h, t) = ground (arith, keep_above j (suc i) es (omega arith) t)

-- Reading behind a number leaves out exactly the events up to it.
pub keep-run :
    (i after : ℕ) (es : List TrajectoryEvent)
    → IsRun (suc i) es
    → keep (λ e. ltb (i + after) e.sequence) es ≡ drop after es
unfolding keep
keep-run i zero es h = keep_above (i + 0) i es (omega arith) h
keep-run i (suc after) [] h = refl
keep-run i (suc after) (e ∷ es) (h, t) =
    let shift : suc i + after ≡ i + suc after = omega arith in
    let here : ltb (suc i + after) e.sequence ≡ false = ground arith in
    subst (λ n. keep (λ x. ltb n x.sequence) (e ∷ es) ≡ drop after es) shift
      (rw here (keep-run (suc i) after es t))

pub IsRun-drop : (i n : ℕ) (es : List TrajectoryEvent) → IsRun i es → IsRun (i + n) (drop n es)
IsRun-drop i zero es h = let e : i + 0 ≡ i = omega arith in rw e h
IsRun-drop i (suc n) [] h = tt
IsRun-drop i (suc n) (x ∷ es) (h, t) =
    let e : i + suc n ≡ suc i + n = omega arith in rw e (IsRun-drop (suc i) n es t)

insert-run :
    (i : ℕ) (e : TrajectoryEvent) (es : List TrajectoryEvent)
    → e.sequence ≡ i
    → IsRun (suc i) es
    → insert_event e es ≡ e ∷ es
unfolding insert_event
insert-run i e [] h t = refl
insert-run i e (f ∷ fs) h (k, t) = ground arith

pub order-run : (i : ℕ) (es : List TrajectoryEvent) → IsRun i es → order_events es ≡ es
unfolding order_events
order-run i [] h = refl
order-run i (e ∷ es) (h, t) = rw (order-run (suc i) es t) (insert-run i e es h t)
