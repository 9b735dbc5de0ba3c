-- ===== src/WorkerPool/Tests.antt =====
-- Examples for internal/worker.
use maboo.Base.{
  ℕ, ◌+◌, ◌≤◌, ◌<◌, ◌≡◌, ◌⊎◌, refl, String, Bool, true, false, some, List, [], ◌∷◌, ◌++◌, length,
  arith, All,
}
use maboo.Base.Results.{ok, err}
use maboo.Base.Paths.{codes, ext, ext_from, lower, is_one_of}
use maboo.Config.{default_config}
use maboo.Server.Http.{Request, client_gets}
use maboo.Server.Router.{Site, is_health_path, is_static_file}
use maboo.Server.Stack.{Env, handle}
use maboo.Server.Site.{IsPhp, site_serves}
use maboo.Engine.{EngineError, not_started, contains, new_engine, startup}
use maboo.WorkerPool.Worker
use maboo.WorkerPool.Worker.{WorkerState}
use maboo.WorkerPool.Ids.{mem, remove, count}
use maboo.WorkerPool.Pool.{
  Settings, Pool, done, no_worker, update, new_pool, start, start_loop, spawn_send, spawn_worker,
  register, send, arrive, count_busy, run_worker, received, select, drain, Task, exec,
  worker_failed,
}
use maboo.WorkerPool.Upkeep.{stats, reload, drain_workers}
use maboo.WorkerPool.System.{System, at_rest, Reach, here, next, request, take_worker, run}
use maboo.WorkerPool.Ownership.Reached.{
  Started, started, Started-Inv, held_alone, stats-Started, send_never_blocks,
}
use maboo.WorkerPool.Ownership.Bound.{promised, Races, Step-promised, scale_up_race}
use maboo.WorkerPool.Reload.{reload_lem, reload_breaks_exec}
use maboo.WorkerPool.RequestMode.{request_mode_fails}

page : String → List ℕ
page version = 60 ∷ []

abbrev small : String → Settings
small mode = record { mode = mode; version = "8.3"; min_workers = 1; max_workers = 2; max_jobs = 0 }

abbrev first : Bool → Worker.Worker
first running = record {
  id = 1;
  engine = record { version = "8.3"; started = running };
  state = WorkerState.idle;
  jobs = 0;
  max_jobs = 0;
}

-- The pool of one worker that `Start` makes in this mode.
abbrev ready : String → Bool → Pool
ready mode running = record {
  cfg = small mode;
  heap = update (λ _. no_worker) 1 (first running);
  workers = 1 ∷ [];
  available = 1 ∷ [];
  closed = false;
  next_id = 1;
  cancelled = false;
  total_requests = 0;
  active_workers = 1;
  busy_workers = 0;
}

start_worker_mode : start (new_pool (small "worker")) ≡ done (ready "worker" true) (ok tt)
unfolding start start_loop spawn_send spawn_worker register send update new_pool Worker.new_worker
    Worker.start startup contains new_engine
start_worker_mode = refl

start_request_mode : start (new_pool (small "request")) ≡ done (ready "request" false) (ok tt)
unfolding start start_loop spawn_send spawn_worker register send update new_pool Worker.new_worker
    contains new_engine
start_request_mode = refl

-- A request arrives, takes the worker and runs on it.
abbrev asking : System
asking = record (at_rest (ready "worker" true)) { pool = arrive (ready "worker" true); waiting = 1 }

abbrev serving : System
serving = record asking {
  pool = count_busy (record (arrive (ready "worker" true)) { available = [] });
  waiting = 0;
  holding = 1 ∷ [];
}

abbrev served : System
served = record serving {
  pool = (run_worker page 1 serving.pool).0;
  holding = [];
  finished = 1 ∷ [];
}

Reach-serving : Reach page (at_rest (ready "worker" true)) serving
unfolding arrive select
Reach-serving = next (next here (request (at_rest (ready "worker" true)))) (
    take_worker asking 1 (record (arrive (ready "worker" true)) { available = [] }) (omega arith)
      refl)

serving-Started : Started page (small "worker") serving
serving-Started = started (ready "worker" true) (ok tt) start_worker_mode Reach-serving

served-Started : Started page (small "worker") served
unfolding arrive count_busy run_worker mem remove
served-Started =
    started (ready "worker" true) (ok tt) start_worker_mode
      (next Reach-serving (run serving 1 refl))

held_alone_example :
    (count 1 serving.holding + count 1 serving.finished ≡ 1)
    × (count 1 serving.pool.available ≡ 0)
    × (count 1 serving.retiring + count 1 serving.stopping ≡ 0)
    × (mem 1 serving.pool.workers ≡ true)
unfolding count
held_alone_example = held_alone page (small "worker") serving 1 serving-Started (omega arith)

stats-Started_example :
    ((stats serving.pool).active_workers ≡ (stats serving.pool).total_workers)
    × ((stats serving.pool).busy_workers ≡ length serving.holding + length serving.finished)
    × ((stats serving.pool).busy_workers + (stats serving.pool).idle_workers
        ≡ (stats serving.pool).total_workers)
    × ((stats serving.pool).idle_workers
        ≡ length serving.pool.available
          + length serving.retiring
          + length serving.stopping
          + length serving.arriving)
stats-Started_example = stats-Started page (small "worker") serving serving-Started

send_never_blocks_example :
    send 1 served.pool
    ≡ done (record served.pool { available = served.pool.available ++ 1 ∷ [] }) tt
unfolding count arrive count_busy run_worker
send_never_blocks_example =
    send_never_blocks page (small "worker") served 1 served-Started refl (omega arith) (omega arith)

abbrev site : Site EngineError
site = record {
  join = λ root name. name;
  exists = λ path name. true;
  exec = λ ctx script. (run_worker page 1 serving.pool).1;
  describe = λ e. [];
  stats = stats serving.pool;
  serve_file = λ req. [];
  render = λ health. [];
}

abbrev home : Request
home = record {
  method = "GET";
  path = "/";
  raw_query = "";
  host = "localhost";
  remote_addr = "10.0.0.1:4711";
  has_tls = false;
  headers = [];
  query = [];
  post_form = [];
  cookies = [];
}

abbrev env : Env
env = record {
  fresh_id = "0123456789abcdef";
  metrics_text = [];
  written = λ b. (length b, false);
  gzip_result = λ b. (length b, false);
}

home-IsPhp : IsPhp default_config "/"
unfolding is_health_path is_one_of codes ext ext_from lower is_static_file default_config
home-IsPhp = record { not_health = refl; not_static = refl; not_metrics = refl }

site_serves_example :
    client_gets home (handle env default_config site home)
    ≡ record { is_sent = true; code = 200; content = 60 ∷ []; is_gzip = false; panicked = false }
unfolding arrive count_busy mem page
site_serves_example =
    site_serves page (small "worker") serving 1 env default_config site home refl serving-Started
      refl refl (λ ctx script. refl) home-IsPhp

request_mode_fails_example : (run_worker page 1 (ready "request" false)).1 ≡ err not_started
request_mode_fails_example =
    request_mode_fails page (small "request") (at_rest (ready "request" false)) 1 refl
      (started (ready "request" false) (ok tt) start_request_mode here)

Step-promised_example : (promised asking ≤ 2) ⊎ Races (at_rest (ready "worker" true)) asking
unfolding arrive
Step-promised_example =
    Step-promised page
      (Started-Inv page (small "worker") (at_rest (ready "worker" true))
        (started (ready "worker" true) (ok tt) start_worker_mode here))
      (request (at_rest (ready "worker" true))) (omega arith)

-- One worker is busy, and a `replaceWorker` has yet to make the other.
abbrev racing : System
racing = record (at_rest (record (ready "worker" true) { available = []; busy_workers = 1 })) {
  holding = 1 ∷ [];
  respawning = 1;
}

scale_up_race_example :
    (t : System) × Reach page racing t × (t.pool.cfg.max_workers < length t.pool.workers)
unfolding contains
scale_up_race_example = scale_up_race page racing refl refl refl (omega arith) refl

reload_lem_example :
    (q : Pool) × (news : List ℕ) × (reload (ready "worker" true)
      ≡ done q (ok tt, drain (1 ∷ []) ∷ []))
    × (length news ≡ 1)
    × All (λ x. 1 < x) news
    × ((drain_workers (1 ∷ []) q).workers ≡ news)
unfolding contains
reload_lem_example = reload_lem (ready "worker" true) refl refl (omega arith)

reload_breaks_exec_example :
    (q : Pool) × (t : Pool) × (tasks : List Task) × (reload (ready "worker" true)
      ≡ done q (ok tt, drain (1 ∷ []) ∷ []))
    × (exec page received (drain_workers (1 ∷ []) q)
        ≡ some (done t (err (worker_failed not_started), tasks)))
unfolding contains mem
reload_breaks_exec_example =
    reload_breaks_exec page (ready "worker" true) 1 [] refl refl (omega arith) refl refl
