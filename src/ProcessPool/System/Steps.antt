-- ===== src/ProcessPool/System/Steps.antt =====
-- The steps of the goroutines of internal/pool/pool.go. A panic or a wait is no step.
use maboo.Base.{ℕ, suc, ◌++◌, ◌+◌, ◌-◌, ◌<◌, ◌≡◌, true, false, List, [], ◌∷◌, some, length}
use maboo.Base.Results.{Result, ok, err}
use maboo.Protocol.Wire.{Frame, WriteError}
use maboo.WorkerPool.Ids.{mem, remove}
use maboo.WorkerPool.Upkeep.{is_busy}
use maboo.ProcessPool.Worker
use maboo.ProcessPool.Worker.{Worker, WorkerError, Io, returned}
use maboo.ProcessPool.Pool.{
  Pool, World, reap, done, store, send, register, needs_recycle, remove_worker, count_busy,
  uncount_busy, stop_worker,
}
use maboo.ProcessPool.Serve.{Wake, received, PoolError, got, failed, select, arrive, read_ready}
use maboo.ProcessPool.Upkeep.{is_in_use, check_workers, scale_down}
use maboo.ProcessPool.System.{
  no_reload, making, spawning, sending, called, begun, ended, set_call, System, replaced,
}

-- `nextID.Add(1)`, with which `spawnWorker` begins.
unfoldable pub take_id : Pool → Pool
take_id p = record p { next_id = p.next_id + 1 }

pub data Step (world : World) : System → System → Type 0 where
  request : (s : System) → Step world s (record s { pool = arrive s.pool; waiting = s.waiting + 1 })
  give_up :
      (s : System) (wake : Wake) (e : PoolError) (q : Pool)
      → 0 < s.waiting
      → select wake s.pool ≡ some (q, failed e)
      → Step world s (record s { pool = q; waiting = s.waiting - 1 })
  take_worker :
      (s : System) (w : ℕ) (q : Pool) (req : Frame)
      → 0 < s.waiting
      → select received s.pool ≡ some (q, got w)
      → Step world s (record s {
        pool = count_busy q;
        calls = set_call w (called req) s.calls;
        waiting = s.waiting - 1;
        holding = w ∷ s.holding;
      })
  exec_begins :
      (s : System) (w : ℕ) (req : Frame)
      → s.calls w ≡ called req
      → Step world s (record s {
        pool = store w (Worker.begin (world.php w) world.buffer req (s.pool.heap w)).0 s.pool;
        calls =
            set_call w
              (begun req (Worker.begin (world.php w) world.buffer req (s.pool.heap w)).1)
              s.calls;
      })
  exec_returns :
      (s : System) (w : ℕ) (req : Frame) (sent : Result WriteError (Unit {0})) (worker : Worker)
      (r : Result WorkerError Frame)
      → s.calls w ≡ begun req sent
      → Worker.await (world.php w) (s.pool.heap w, sent) ≡ returned worker r
      → Step world s
          (record s { pool = store w worker s.pool; calls = set_call w (ended req r) s.calls })
  exec_fails :
      (s : System) (w : ℕ) (req : Frame) (e : WorkerError)
      → mem w s.holding ≡ true
      → s.calls w ≡ ended req (err e)
      → Step world s (record s {
        pool = uncount_busy s.pool;
        holding = remove w s.holding;
        retiring = w ∷ s.retiring;
      })
  wear_out :
      (s : System) (w : ℕ) (req resp : Frame)
      → mem w s.holding ≡ true
      → s.calls w ≡ ended req (ok resp)
      → needs_recycle s.pool (s.pool.heap w) ≡ true
      → Step world s (record s {
        pool = uncount_busy s.pool;
        holding = remove w s.holding;
        retiring = w ∷ s.retiring;
      })
  answer :
      (s : System) (w : ℕ) (req resp : Frame)
      → mem w s.holding ≡ true
      → s.calls w ≡ ended req (ok resp)
      → needs_recycle s.pool (s.pool.heap w) ≡ false
      → Step world s (record s { holding = remove w s.holding; answered = w ∷ s.answered })
  time_out :
      (s : System) (w : ℕ)
      → mem w s.holding ≡ true
      → s.pool.cfg.has_request_timeout ≡ true
      → Step world s (record s {
        pool = uncount_busy s.pool;
        holding = remove w s.holding;
        retiring = w ∷ s.retiring;
      })
  drop_worker :
      (s : System) (w : ℕ)
      → mem w s.holding ≡ true
      → s.pool.cfg.has_request_timeout ≡ true
      → s.pool.cancelled ≡ true
      → Step world s
          (record s { pool = uncount_busy s.pool; holding = remove w s.holding; lost = w ∷ s.lost })
  get_ready :
      (s : System) (w : ℕ) (worker : Worker)
      → mem w s.answered ≡ true
      → read_ready world w (s.pool.heap w) ≡ returned worker (ok tt)
      → Step world s (record s {
        pool = store w worker s.pool;
        answered = remove w s.answered;
        returning = w ∷ s.returning;
      })
  miss_ready :
      (s : System) (w : ℕ) (worker : Worker) (e : WorkerError)
      → mem w s.answered ≡ true
      → read_ready world w (s.pool.heap w) ≡ returned worker (err e)
      → Step world s (record s {
        pool = uncount_busy (store w worker s.pool);
        answered = remove w s.answered;
        retiring = w ∷ s.retiring;
      })
  give_back :
      (s : System) (w : ℕ) (q : Pool)
      → mem w s.returning ≡ true
      → send w s.pool ≡ done q tt
      → Step world s (record s { pool = uncount_busy q; returning = remove w s.returning })
  stop_old :
      (s : System) (w : ℕ)
      → mem w s.retiring ≡ true
      → Step world s (record s {
        pool = stop_worker world w s.pool;
        retiring = remove w s.retiring;
        removing = w ∷ s.removing;
      })
  remove_old :
      (s : System) (w : ℕ)
      → mem w s.removing ≡ true
      → Step world s (record s {
        pool = remove_worker w s.pool;
        removing = remove w s.removing;
        removed = s.removed + 1;
      })
  snapshot : (s : System) → s.checking ≡ [] → Step world s (record s { checking = s.pool.workers })
  inspect :
      (s : System) (w : ℕ) (rest : List ℕ)
      → s.checking ≡ w ∷ rest
      → Step world s (record s {
        checking = rest;
        condemned = replaced (check_workers s.pool (w ∷ [])) s.condemned;
      })
  stop_dead :
      (s : System) (w : ℕ)
      → mem w s.condemned ≡ true
      → Step world s (record s {
        pool = stop_worker world w s.pool;
        condemned = remove w s.condemned;
        discarding = w ∷ s.discarding;
      })
  remove_dead :
      (s : System) (w : ℕ)
      → mem w s.discarding ≡ true
      → Step world s (record s {
        pool = remove_worker w s.pool;
        discarding = remove w s.discarding;
        removed = s.removed + 1;
      })
  go_on :
      (s : System)
      → 0 < s.removed
      → s.pool.cancelled ≡ false
      → Step world s (record s { removed = s.removed - 1; respawning = s.respawning + 1 })
  go_home :
      (s : System)
      → 0 < s.removed
      → s.pool.cancelled ≡ true
      → Step world s (record s { removed = s.removed - 1 })
  respawn :
      (s : System)
      → 0 < s.respawning
      → Step world s (record s {
        pool = take_id s.pool;
        respawning = s.respawning - 1;
        launching = (s.pool.next_id + 1) ∷ s.launching;
      })
  grow :
      (s : System)
      → 0 < length s.pool.workers
      → is_busy s.pool.busy_workers (length s.pool.workers) ≡ true
      → length s.pool.workers < s.pool.cfg.max_workers
      → Step world s
          (record s { pool = take_id s.pool; launching = (s.pool.next_id + 1) ∷ s.launching })
  join :
      (s : System) (id : ℕ) (worker : Worker)
      → mem id s.launching ≡ true
      → Worker.new_worker (world.php id) (world.launch id) id ≡ returned worker (ok tt)
      → Step world s (record s {
        pool = register id worker s.pool;
        launching = remove id s.launching;
        arriving = id ∷ s.arriving;
      })
  join_fails :
      (s : System) (id : ℕ) (worker : Worker) (e : WorkerError)
      → mem id s.launching ≡ true
      → Worker.new_worker (world.php id) (world.launch id) id ≡ returned worker (err e)
      → Step world s (record s { launching = remove id s.launching })
  deliver :
      (s : System) (w : ℕ) (q : Pool)
      → mem w s.arriving ≡ true
      → send w s.pool ≡ done q tt
      → Step world s (record s { pool = q; arriving = remove w s.arriving })
  shrink :
      (s : System) (w : ℕ) (q : Pool)
      → scale_down s.pool.busy_workers (length s.pool.workers) s.pool ≡ done q (reap w ∷ [])
      → Step world s (record s { pool = q; stopping = w ∷ s.stopping })
  stop_idle :
      (s : System) (w : ℕ)
      → mem w s.stopping ≡ true
      → Step world s (record s {
        pool = stop_worker world w s.pool;
        stopping = remove w s.stopping;
        unlisting = w ∷ s.unlisting;
      })
  remove_idle :
      (s : System) (w : ℕ)
      → mem w s.unlisting ≡ true
      → Step world s (record s { pool = remove_worker w s.pool; unlisting = remove w s.unlisting })
  begin_reload :
      (s : System)
      → s.reload ≡ no_reload
      → s.failing ≡ []
      → Step world s (record s { reload = making s.pool.cfg.min_workers s.pool.workers [] })
  reload_spawns :
      (s : System) (n : ℕ) (old made : List ℕ)
      → s.reload ≡ making (suc n) old made
      → Step world s
          (record s { pool = take_id s.pool; reload = spawning (s.pool.next_id + 1) n old made })
  reload_joins :
      (s : System) (id n : ℕ) (old made : List ℕ) (worker : Worker)
      → s.reload ≡ spawning id n old made
      → Worker.new_worker (world.php id) (world.launch id) id ≡ returned worker (ok tt)
      → Step world s (record s {
        pool = register id worker s.pool;
        reload = sending id n old (made ++ id ∷ []);
      })
  reload_fails :
      (s : System) (id n : ℕ) (old made : List ℕ) (worker : Worker) (e : WorkerError)
      → s.reload ≡ spawning id n old made
      → Worker.new_worker (world.php id) (world.launch id) id ≡ returned worker (err e)
      → Step world s (record s { reload = no_reload; failing = made ++ s.failing })
  reload_sends :
      (s : System) (id n : ℕ) (old made : List ℕ) (q : Pool)
      → s.reload ≡ sending id n old made
      → send id s.pool ≡ done q tt
      → Step world s (record s { pool = q; reload = making n old made })
  reload_drains :
      (s : System) (old made : List ℕ)
      → s.reload ≡ making 0 old made
      → Step world s (record s { reload = no_reload; draining = old ++ s.draining })
  stop_made :
      (s : System) (w : ℕ)
      → mem w s.failing ≡ true
      → Step world s (record s {
        pool = stop_worker world w s.pool;
        failing = remove w s.failing;
        reloaded = true;
      })
  stop_drained :
      (s : System) (w : ℕ)
      → mem w s.draining ≡ true
      → is_in_use (s.pool.heap w).state ≡ false
      → Step world s (record s {
        pool = stop_worker world w s.pool;
        draining = remove w s.draining;
        drained = w ∷ s.drained;
        reloaded = true;
      })
  remove_drained :
      (s : System) (w : ℕ)
      → mem w s.drained ≡ true
      → Step world s (record s {
        pool = remove_worker w s.pool;
        drained = remove w s.drained;
        reloaded = true;
      })
  cancel : (s : System) → Step world s (record s { pool = record s.pool { cancelled = true } })
  halt :
      (s : System) (w : ℕ)
      → s.pool.cancelled ≡ true
      → Step world s (record s { pool = stop_worker world w s.pool })
  close :
      (s : System)
      → s.pool.cancelled ≡ true
      → Step world s (record s { pool = record s.pool { closed = true } })

pub data Reach (world : World) (s : System) : System → Type 0 where
  here : Reach world s s
  next : {t u : System} → Reach world s t → Step world t u → Reach world s u
