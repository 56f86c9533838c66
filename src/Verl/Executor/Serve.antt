-- ===== src/Verl/Executor/Serve.antt =====
-- Sessions that come and go.
use drift_sql.Prelude.{String, ◌≡◌, false, List, [], ◌∷◌, contains}
use drift_sql.Python.{Python}
use drift_sql.Python.Values.{Fields}
use drift_sql.Drift.Disk.{Paths, Sqlite}
use drift_sql.Verl.Executor.{Executor, release_executor, create_executor}
use drift_sql.Verl.Executor.Clean.{IsClean, create_executor-IsClean, release_executor-IsClean}

-- The calls that change the sessions of the executor.
pub data Call : Type 0 where
  creates : (id : String) → Fields → Call
  releases : (id : String) → Call

module _ (py : Python) {D : Type 0} (sqlite : Sqlite D) (paths : Paths) (config : Fields) where
  unfoldable pub serve : List Call → Executor D → Executor D
  unfolding create_executor release_executor
  serve [] x = x
  serve (creates id kwargs ∷ calls) x =
      serve calls (create_executor py sqlite paths config id kwargs x).0
  serve (releases id ∷ calls) x = serve calls (release_executor id x)

  -- Whatever sessions are created and released, and however their creation ends, the temporary
  -- directories that stand are those of the sessions that are kept, each that of one: no directory
  -- is left behind, and none is removed under a session. Each new directory is none that stands.
  pub serve-IsClean :
      ((p d : String) (ts : List String) → contains ts (paths.fresh p d ts) ≡ false)
      → (calls : List Call) (x : Executor D) → IsClean x
      → IsClean (serve calls x)
  unfolding serve
  serve-IsClean new [] x clean = clean
  serve-IsClean new (creates id kwargs ∷ calls) x clean =
      serve-IsClean new calls (create_executor py sqlite paths config id kwargs x).0
        (create_executor-IsClean py sqlite paths new config id kwargs x clean)
  serve-IsClean new (releases id ∷ calls) x clean =
      serve-IsClean new calls (release_executor id x) (release_executor-IsClean id x clean)
