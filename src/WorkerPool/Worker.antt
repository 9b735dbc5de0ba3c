-- ===== src/WorkerPool/Worker.antt =====
-- internal/worker/worker.go: one embedded PHP worker.
use maboo.Base.{ℕ, ◌+◌, Bool, ◌&&◌, String, List, ltb, leb}
use maboo.Base.Results.{Result, ok, err, ◌>>=◌}
use maboo.Engine.{Engine, Response, EngineError, new_engine, startup, shutdown, execute}

pub data WorkerState : Type 0 where
  idle busy stopped : WorkerState

pub record Worker : Type 0 where
  pub id : ℕ
  pub engine : Engine
  pub state : WorkerState
  pub jobs : ℕ
  pub max_jobs : ℕ

-- `version` is the result of `SelectVersion`. A zero `atomic.Int32` is `StateIdle`.
unfoldable pub new_worker : ℕ → String → ℕ → Result EngineError Worker
new_worker id version max_jobs = do
  engine ← new_engine version
  ok (record { id = id; engine = engine; state = idle; jobs = 0; max_jobs = max_jobs })

unfoldable pub start : Worker → Worker
unfolding startup
start w = record w { state = idle; engine = startup w.engine }

unfoldable pub stop : Worker → Worker
unfolding shutdown
stop w = record w { state = stopped; engine = shutdown w.engine }

-- The worker while `Exec` runs: `w.state.Store(StateBusy)`.
unfoldable pub begin : Worker → Worker
begin w = record w { state = busy }

-- The rest of `Exec`: the deferred store of `StateIdle` happens on both paths, the count of jobs
-- grows on success only.
unfoldable pub finish : (String → List ℕ) → Worker → Worker × Result EngineError Response
unfolding execute
finish page w =
    let w' = record w { state = idle } in
    elim (execute page w.engine) [
      | ok resp ↦ (record w' { jobs = w.jobs + 1 }, ok resp)
      | err e ↦ (w', err e)
    ]

unfoldable pub exec : (String → List ℕ) → Worker → Worker × Result EngineError Response
unfolding begin finish
exec page w = finish page (begin w)

unfoldable pub needs_recycle : Worker → Bool
needs_recycle w = ltb 0 w.max_jobs && leb w.max_jobs w.jobs
