-- ===== src/WorkerPool/System.antt =====
-- The goroutines of internal/worker/pool.go as interleaved steps: requests in `Exec`, the goroutines
-- of `replaceWorker`, the watchdog's `autoScale`, and `Stop`. `Reload` is not among the steps.
use maboo.Base.{
  ℕ, ◌+◌, ◌-◌, ◌<◌, ◌≡◌, Bool, true, List, [], ◌∷◌, some, if◌then◌else◌, length, String,
}
use maboo.Base.Results.{ok, err}
use maboo.Engine.{EngineError}
use maboo.WorkerPool.Ids.{mem, remove}
use maboo.WorkerPool.Pool.{
  Pool, Wake, received, got, failed, PoolError, replace, done, arrive, select, count_busy,
  uncount_busy, run_worker, release, spawn_worker, send, reap, stop_worker,
}
use maboo.WorkerPool.Upkeep.{replace_begin, is_busy, scale_down, reap_worker}

-- Where the workers are that are not in the channel: with a request that has yet to run, with one
-- that has run, with a `replaceWorker` that has yet to stop its worker, with a goroutine of
-- `autoScale` that has yet to stop its worker, and made but not yet sent. `respawning` counts the
-- `replaceWorker` goroutines that have yet to spawn, `waiting` the requests before their `select`.
pub record System : Type 0 where
  pub pool : Pool
  pub waiting : ℕ
  pub holding : List ℕ
  pub finished : List ℕ
  pub retiring : List ℕ
  pub stopping : List ℕ
  pub arriving : List ℕ
  pub respawning : ℕ

-- A pool with no goroutine running.
abbrev pub at_rest : Pool → System
at_rest p = record {
  pool = p;
  waiting = 0;
  holding = [];
  finished = [];
  retiring = [];
  stopping = [];
  arriving = [];
  respawning = 0;
}

pub data Step (page : String → List ℕ) : System → System → Type 0 where
  request : (s : System) → Step page s (record s { pool = arrive s.pool; waiting = s.waiting + 1 })
  give_up :
      (s : System) (wake : Wake) (e : PoolError) (q : Pool)
      → 0 < s.waiting
      → select wake s.pool ≡ some (q, failed e)
      → Step page s (record s { pool = q; waiting = s.waiting - 1 })
  take_worker :
      (s : System) (w : ℕ) (q : Pool)
      → 0 < s.waiting
      → select received s.pool ≡ some (q, got w)
      → Step page s
          (record s { pool = count_busy q; waiting = s.waiting - 1; holding = w ∷ s.holding })
  run :
      (s : System) (w : ℕ)
      → mem w s.holding ≡ true
      → Step page s (record s {
        pool = (run_worker page w s.pool).0;
        holding = remove w s.holding;
        finished = w ∷ s.finished;
      })
  give_back :
      (s : System) (w : ℕ) (q : Pool)
      → mem w s.finished ≡ true
      → release w s.pool ≡ done q []
      → Step page s (record s { pool = uncount_busy q; finished = remove w s.finished })
  wear_out :
      (s : System) (w : ℕ) (q : Pool)
      → mem w s.finished ≡ true
      → release w s.pool ≡ done q (replace w ∷ [])
      → Step page s (record s {
        pool = uncount_busy q;
        finished = remove w s.finished;
        retiring = w ∷ s.retiring;
      })
  retire :
      (s : System) (w : ℕ) (q : Pool) (go_on : Bool)
      → mem w s.retiring ≡ true
      → replace_begin w s.pool ≡ (q, go_on)
      → Step page s (record s {
        pool = q;
        retiring = remove w s.retiring;
        respawning = (if go_on then 1 else 0) + s.respawning;
      })
  respawn :
      (s : System) (w : ℕ) (q : Pool)
      → 0 < s.respawning
      → spawn_worker s.pool ≡ (q, ok w)
      → Step page s
          (record s { pool = q; arriving = w ∷ s.arriving; respawning = s.respawning - 1 })
  respawn_fails :
      (s : System) (e : EngineError) (q : Pool)
      → 0 < s.respawning
      → spawn_worker s.pool ≡ (q, err e)
      → Step page s (record s { pool = q; respawning = s.respawning - 1 })
  deliver :
      (s : System) (w : ℕ) (q : Pool)
      → mem w s.arriving ≡ true
      → send w s.pool ≡ done q tt
      → Step page s (record s { pool = q; arriving = remove w s.arriving })
  grow :
      (s : System) (w : ℕ) (q : Pool)
      → 0 < length s.pool.workers
      → is_busy s.pool.busy_workers (length s.pool.workers) ≡ true
      → length s.pool.workers < s.pool.cfg.max_workers
      → spawn_worker s.pool ≡ (q, ok w)
      → Step page s (record s { pool = q; arriving = w ∷ s.arriving })
  grow_fails :
      (s : System) (e : EngineError) (q : Pool)
      → spawn_worker s.pool ≡ (q, err e)
      → Step page s (record s { pool = q })
  shrink :
      (s : System) (w : ℕ) (q : Pool)
      → scale_down s.pool.busy_workers (length s.pool.workers) s.pool ≡ (q, reap w ∷ [])
      → Step page s (record s { pool = q; stopping = w ∷ s.stopping })
  reap_idle :
      (s : System) (w : ℕ)
      → mem w s.stopping ≡ true
      → Step page s (record s { pool = reap_worker w s.pool; stopping = remove w s.stopping })
  cancel : (s : System) → Step page s (record s { pool = record s.pool { cancelled = true } })
  halt :
      (s : System) (w : ℕ)
      → mem w s.pool.workers ≡ true
      → s.pool.cancelled ≡ true
      → Step page s (record s { pool = stop_worker w s.pool })
  close :
      (s : System)
      → s.pool.cancelled ≡ true
      → Step page s (record s { pool = record s.pool { closed = true } })

pub data Reach (page : String → List ℕ) (s : System) : System → Type 0 where
  here : Reach page s s
  next : {t u : System} → Reach page s t → Step page t u → Reach page s u
