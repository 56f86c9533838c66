-- ===== src/Service/Tools/Sessions.antt =====
-- `initialize_session` and `release_session` of driftsql/service/inference/tools.py, for tools
-- that keep the interface IsTracked.
use drift_sql.Prelude.{
  String, ◌≡◌, refl, sym, ap, ◌∙◌, ◌⊎◌, inl, inr, Bool, true, false, not, ◌&&◌, ◌||◌, Option, none,
  some, List, [], ◌∷◌, ◌++◌, arith, ◌==◌, eq_iff, Bool-cases, Option-cases, keep, any, contains,
  minus, contains-keep,
}
use drift_sql.Result.{Error, Result, ok, raised}
use drift_sql.Python.{Python, str_of}
use drift_sql.Python.Values.{Fields, get_or, text}
use drift_sql.Service.Toolbox.{
  lookup, set, lookup-set, Toolbox, ReleasesQuietly, lookup-remove, IsTracked,
}
use drift_sql.Service.Tools.{
  Runtime, Sandbox, is_empty, executor_first, release_all, create_all, registered,
  initialize_session, release_session,
}

-- Whether a tool is one of these, of this session.
abbrev is_among : List String → String → String → String → Bool
is_among ns id m j = contains ns m && j == id

contains-append :
    (xs ys : List String) (a : String) → contains (xs ++ ys) a ≡ (contains xs a || contains ys a)
unfolding contains
contains-append [] ys a = refl
contains-append (x ∷ xs) ys a = rw (contains-append xs ys a) (ground arith)

-- An entry that was made and released is as it was.
undone_lem : (h o j : Bool) → (j ≡ true → h ≡ false) → ((h || (o && j)) && not (o && j)) ≡ h
undone_lem true o true free = absurd (let bad = free refl in cc)
undone_lem true o false free = ground arith
undone_lem false o j free = ground arith

release_all-quiet :
    (py : Python) {S : Type 0} (box : Toolbox S)
    → ReleasesQuietly box
    → (id : String) (ns : List String) (s : S) → (release_all py box id ns s).1 ≡ none
unfolding release_all
release_all-quiet py box quiet id [] s = refl
release_all-quiet py box quiet id (n ∷ ns) s =
    rw (quiet n id s, release_all) (release_all-quiet py box quiet id ns (box.release n id s).0)

pub release_session-quiet :
    (py : Python) {S : Type 0} (box : Toolbox S)
    → ReleasesQuietly box
    → (id : String) (rt : Runtime S) → (release_session py box id rt).1 ≡ none
unfolding release_session
release_session-quiet py box quiet id rt = release_all-quiet py box quiet id _ rt.tools

module _ (py : Python) {S : Type 0} (box : Toolbox S) (holds : String → String → S → Bool)
    (t : IsTracked box holds) (quiet : ReleasesQuietly box) where
  -- No tool has an entry for the session.
  abbrev pub IsFree : String → S → Type 0
  IsFree id s = (m : String) → holds m id s ≡ false

  release_all-holds :
      (id : String) (ns : List String) (s : S) (m j : String)
      → holds m j (release_all py box id ns s).0 ≡ (holds m j s && not (is_among ns id m j))
  unfolding release_all contains any
  release_all-holds id [] s m j = ground arith
  release_all-holds id (n ∷ ns) s m j =
      rw (quiet n id s, release_all)
        (release_all-holds id ns (box.release n id s).0 m j
          ∙ rw (t.released n id s m j) (ground arith))

  -- What the tools hold once `opened` are created for `id`, after they held what `s0` does.
  abbrev Opened : String → List String → S → S → Type 0
  Opened id opened s0 s = (m j : String) → holds m j s ≡ (holds m j s0 || is_among opened id m j)

  start-Opened : (id : String) (s : S) → Opened id [] s s
  unfolding contains
  start-Opened id s m j = ground arith

  create-Opened :
      (id truth : String) (kwargs : Fields) (opened : List String) (n : String) (s0 s : S)
      → Opened id opened s0 s
      → (box.create n id truth kwargs s).1 ≡ none
      → Opened id (n ∷ opened) s0 (box.create n id truth kwargs s).0
  unfolding contains
  create-Opened id truth kwargs opened n s0 s h c m j =
      t.created n id truth kwargs s c m j ∙ rw (h m j) (ground arith)

  undone :
      (id truth : String) (kwargs : Fields) (opened : List String) (n : String) (s0 s : S)
      (e : Error)
      → IsFree id s0
      → Opened id opened s0 s
      → (box.create n id truth kwargs s).1 ≡ some e
      → (m j : String)
      → holds m j (release_all py box id opened (box.create n id truth kwargs s).0).0 ≡ holds m j s0
  undone id truth kwargs opened n s0 s e free h c m j =
      release_all-holds id opened (box.create n id truth kwargs s).0 m j
      ∙ rw (t.refused n id truth kwargs s e c m j, h m j)
          (undone_lem (holds m j s0) (contains opened m) (j == id)
            (λ k. rw ((eq_iff j id).0 k) (free m)))

  -- Either every tool is created, or everything is as before.
  create_all-cases :
      (id truth : String) (kwargs : Fields) (opened ns : List String) (s0 s : S)
      → IsFree id s0
      → Opened id opened s0 s
      → let (s', failure) = create_all py box id truth kwargs opened ns s in
        ((failure ≡ none) × Opened id ns s s')
        ⊎ ((e : Error) × (failure ≡ some e) × ((m j : String) → holds m j s' ≡ holds m j s0))
  unfolding create_all contains
  create_all-cases id truth kwargs opened [] s0 s free h = inl (refl, λ m j. ground arith)
  create_all-cases id truth kwargs opened (n ∷ ns) s0 s free h =
      elim (Option-cases (box.create n id truth kwargs s).1) [
        | inl made ↦
            rw (made, create_all)
              (elim (create_all-cases id truth kwargs (n ∷ opened) ns s0
                (box.create n id truth kwargs s).0 free
                (create-Opened id truth kwargs opened n s0 s h made)) [
                  | inl (done, held) ↦ inl (
                    done,
                    λ m j. held m j ∙ rw (t.created n id truth kwargs s made m j) (ground arith),
                  )
                  | inr undo ↦ inr undo
                ])
        | inr (e, failed) ↦
            rw (failed, create_all)
              (inr (_, refl, undone id truth kwargs opened n s0 s e free h failed))
      ]

  create_all-Opened :
      (id truth : String) (kwargs : Fields) (ns : List String) (s : S)
      → IsFree id s
      → (create_all py box id truth kwargs [] ns s).1 ≡ none
      → Opened id ns s (create_all py box id truth kwargs [] ns s).0
  create_all-Opened id truth kwargs ns s free done =
      elim (create_all-cases id truth kwargs [] ns s s free (start-Opened id s)) [
        | inl (made, held) ↦ held
        | inr (e, failed, before) ↦ absurd (let bad = sym done ∙ failed in cc)
      ]

  -- The order in which the tools are created does not matter.
  executor_first-Opened :
      (id : String) (names : List String) (s s' : S)
      → Opened id (executor_first names) s s'
      → Opened id names s s'
  unfolding executor_first
  executor_first-Opened id names s s' h m j =
      h m j
      ∙ rw
          (
            contains-append (keep (λ n. n == "execute_sql") names)
                (keep (λ n. not (n == "execute_sql")) names) m,
            contains-keep (λ n. n == "execute_sql") names m,
            contains-keep (λ n. not (n == "execute_sql")) names m,
          )
          (ground arith)

  registered-raised :
      (id : String) (names : List String) (kwargs : Fields) (rt rt' : Runtime S)
      (made : S × Option Error) (e : Error)
      → registered py box id names kwargs rt made ≡ (rt', raised e)
      → (made.1 ≡ some e) × (record rt { tools = made.0 } ≡ rt')
  unfolding registered
  registered-raised id names kwargs rt rt' (s, some e') e h =
      (cc, ap (λ (p : Runtime S × Result Sandbox). p.0) h)
  registered-raised id names kwargs rt rt' (s, none) e h = cc

  registered-ok :
      (id : String) (names : List String) (kwargs : Fields) (rt rt' : Runtime S)
      (made : S × Option Error) (sandbox : Sandbox)
      → registered py box id names kwargs rt made ≡ (rt', ok sandbox)
      → (made.1 ≡ none) × (rt'.tools ≡ made.0) × (rt'.session_tools ≡ set id names rt.session_tools)
  unfolding registered
  registered-ok id names kwargs rt rt' (s, some e') b h = cc
  registered-ok id names kwargs rt rt' (s, none) b h =
      let first = ap (λ (p : Runtime S × Result Sandbox). p.0) h in
      (
        refl,
        sym (ap (λ (r : Runtime S). r.tools) first),
        sym (ap (λ (r : Runtime S). r.session_tools) first),
      )

  -- For tools whose `release` never raises and that keep IsTracked, which the knowledge tool does
  -- not: where initializing a session
  -- that no tool knows raises, which tool holds an entry for which session, and the registered
  -- sessions, are as they were.
  pub initialize_session-raised :
      (id : String) (names : List String) (kwargs : Fields) (rt : Runtime S) {rt' : Runtime S}
      {e : Error}
      → IsFree id rt.tools
      → initialize_session py box id names kwargs rt ≡ (rt', raised e)
      → ((m j : String) → holds m j rt'.tools ≡ holds m j rt.tools)
        × (rt'.session_tools ≡ rt.session_tools)
        × (rt'.session_modes ≡ rt.session_modes)
  unfolding initialize_session
  initialize_session-raised id names kwargs rt {rt'} {e} free h =
      elim (Bool-cases (is_empty (minus names box.names))) [
        | inr unknown ↦
            let same = ap (λ (p : Runtime S × Result Sandbox). p.0) (rw unknown at h) in
            rw (← same) (λ m j. refl, refl, refl)
        | inl known ↦
            let truth = str_of py (get_or "ground_truth" (text "") kwargs) in
            let made = create_all py box id truth kwargs [] (executor_first names) rt.tools in
            let (failed, same) = registered-raised id names kwargs rt rt' made e (rw known at h) in
            rw (← same)
              (elim (create_all-cases id truth kwargs [] (executor_first names) rt.tools rt.tools
                free (start-Opened id rt.tools)) [
                  | inl (done, held) ↦ absurd (let bad = sym done ∙ failed in cc)
                  | inr (e', failed', before) ↦ (before, refl, refl)
                ])
      ]

  -- For tools whose `release` never raises and that keep IsTracked, which the knowledge tool does
  -- not: initializing a session that
  -- no tool knows, where it succeeds, and then releasing it raises nothing, leaves which tool holds an entry for
  -- which session as it was, and forgets the session.
  pub release_session-initialize_session :
      (id : String) (names : List String) (kwargs : Fields) (rt : Runtime S) {rt' : Runtime S}
      {sandbox : Sandbox}
      → IsFree id rt.tools
      → initialize_session py box id names kwargs rt ≡ (rt', ok sandbox)
      → ((m j : String) → holds m j (release_session py box id rt').0.tools ≡ holds m j rt.tools)
        × ((release_session py box id rt').1 ≡ none)
        × (lookup id (release_session py box id rt').0.session_tools ≡ none)
  unfolding initialize_session release_session
  release_session-initialize_session id names kwargs rt {rt'} {sandbox} free h =
      elim (Bool-cases (is_empty (minus names box.names))) [
        | inr unknown ↦ let bad = rw unknown at h in cc
        | inl known ↦
            let truth = str_of py (get_or "ground_truth" (text "") kwargs) in
            let made = create_all py box id truth kwargs [] (executor_first names) rt.tools in
            let (done, tools, kept) =
              registered-ok id names kwargs rt rt' made sandbox (rw known at h) in
            (
              λ m j.
                  rw (kept, lookup-set id names rt.session_tools, tools)
                    (release_all-holds id names made.0 m j
                      ∙ rw
                          (executor_first-Opened id names rt.tools made.0
                            (create_all-Opened id truth kwargs (executor_first names) rt.tools free
                              done)
                            m j)
                          (undone_lem (holds m j rt.tools) (contains names m) (j == id)
                            (λ k. rw ((eq_iff j id).0 k) (free m)))),
              release_session-quiet py box quiet id rt',
              lookup-remove id rt'.session_tools,
            )
      ]
