-- ===== src/WorkerPool/Pool.antt =====
-- internal/worker/pool.go: `Pool` and its methods, each cut where it waits.
-- A `*Worker` is its id: ids come from one counter, and the heap gives the worker that an id names.
-- The counters do not wrap, and the limits are those of a validated config, hence natural numbers.
-- `activeWorkers` and `busyWorkers` are only taken down after they were counted up.
use maboo.Base.{
  ℕ, zero, suc, ◌+◌, ◌-◌, Bool, false, String, List, [], ◌∷◌, ◌++◌, Option, none, some, ltb, ◌==◌,
  str_eq, if◌then◌else◌, length,
}
use maboo.Base.Results.{Result, ok, err}
use maboo.WorkerPool.Ids.{mem, remove}
use maboo.Engine.{EngineError, Response}
use maboo.WorkerPool.Worker
use maboo.WorkerPool.Worker.{Worker, WorkerState}

-- What the pool reads of the config; `version` is the result of `SelectVersion`.
pub record Settings : Type 0 where
  pub mode : String
  pub version : String
  pub min_workers : ℕ
  pub max_workers : ℕ
  pub max_jobs : ℕ

-- `available` is the content of the channel, whose capacity is `max_workers`.
pub record Pool : Type 0 where
  pub cfg : Settings
  pub heap : ℕ → Worker
  pub workers : List ℕ
  pub available : List ℕ
  pub closed : Bool
  pub next_id : ℕ
  pub cancelled : Bool
  pub total_requests : ℕ
  pub active_workers : ℕ
  pub busy_workers : ℕ

-- A goroutine step returns, waits for ever on a full channel, or panics.
pub data Run (A : Type 0) : Type 0 where
  done : Pool → A → Run A
  blocked : Run A
  panicked : Run A

infixl 5 ◌>>=◌
abbrev pub ◌>>=◌ : {A B : Type 0} → Run A → (Pool → A → Run B) → Run B
done p a >>= f = f p a
blocked >>= f = blocked
panicked >>= f = panicked

-- Goroutines that a method starts.
pub data Task : Type 0 where
  replace : ℕ → Task
  reap : ℕ → Task
  drain : List ℕ → Task

-- What the heap holds at an id that no worker has yet.
abbrev pub no_worker : Worker
no_worker = record {
  id = 0;
  engine = record { version = ""; started = false };
  state = WorkerState.idle;
  jobs = 0;
  max_jobs = 0;
}

unfoldable pub new_pool : Settings → Pool
new_pool cfg = record {
  cfg = cfg;
  heap = λ _. no_worker;
  workers = [];
  available = [];
  closed = false;
  next_id = 0;
  cancelled = false;
  total_requests = 0;
  active_workers = 0;
  busy_workers = 0;
}

unfoldable pub update : (ℕ → Worker) → ℕ → Worker → ℕ → Worker
update heap i w j = if i == j then w else heap j

-- `p.available <- w`
unfoldable pub send : ℕ → Pool → Run (Unit {0})
send w p =
    if p.closed
    then panicked
    else if ltb (length p.available) p.cfg.max_workers
    then done (record p { available = p.available ++ w ∷ [] }) tt
    else blocked

-- `workers = append(workers, w)` for a worker that was made.
unfoldable pub register : Worker → Pool → Pool
unfolding update
register w p =
    let w' = if str_eq p.cfg.mode "worker" then Worker.start w else w in
    record p {
      heap = update p.heap w.id w';
      workers = p.workers ++ w.id ∷ [];
      active_workers = p.active_workers + 1;
    }

unfoldable pub spawn_worker : Pool → Pool × Result EngineError ℕ
unfolding register
spawn_worker p =
    let id = p.next_id + 1 in
    let p' = record p { next_id = id } in
    elim (Worker.new_worker id p.cfg.version p.cfg.max_jobs) [
      | ok w ↦ (register w p', ok id)
      | err e ↦ (p', err e)
    ]

unfoldable pub remove_worker : ℕ → Pool → Pool
unfolding mem remove
remove_worker w p =
    if mem w p.workers
    then record p { workers = remove w p.workers; active_workers = p.active_workers - 1 }
    else p

unfoldable pub stop_worker : ℕ → Pool → Pool
unfolding update
stop_worker w p = record p { heap = update p.heap w (Worker.stop (p.heap w)) }

-- One round of the loops of `Start` and `Reload`, then the rest of the loop.
unfoldable pub spawn_send :
    Pool → (Pool → Run (Result EngineError (Unit {0}))) → Run (Result EngineError (Unit {0}))
unfolding spawn_worker send
spawn_send p rest =
    let (p', r) = spawn_worker p in
    elim r [ ok w ↦ send w p' >>= λ q _. rest q | err e ↦ done p' (err e) ]

-- `Start`: the loop over the initial workers. The watchdog's rounds are `auto_scale`.
unfoldable pub start_loop : ℕ → Pool → Run (Result EngineError (Unit {0}))
start_loop zero p = done p (ok tt)
start_loop (suc n) p = spawn_send p (start_loop n)

unfoldable pub start : Pool → Run (Result EngineError (Unit {0}))
unfolding start_loop
start p = start_loop p.cfg.min_workers p

pub data PoolError : Type 0 where
  no_available_worker shutting_down : PoolError
  worker_failed : EngineError → PoolError

-- Which case of the `select` in `Exec` is taken.
pub data Wake : Type 0 where
  received timed_out ctx_done : Wake

-- What the `select` leaves `Exec` with: a worker, a nil worker from a closed channel, or an error.
pub data Acquired : Type 0 where
  got : ℕ → Acquired
  got_nil : Acquired
  failed : PoolError → Acquired

abbrev pub receive : Pool → List ℕ → Option (Pool × Acquired)
receive p [] = if p.closed then some (p, got_nil) else none
receive p (w ∷ rest) = some (record p { available = rest }, got w)

-- The `select`; `none` where that case is not ready.
unfoldable pub select : Wake → Pool → Option (Pool × Acquired)
select received p = receive p p.available
select timed_out p = some (p, failed no_available_worker)
select ctx_done p = if p.cancelled then some (p, failed shutting_down) else none

unfoldable pub arrive : Pool → Pool
arrive p = record p { total_requests = p.total_requests + 1 }

unfoldable pub count_busy : Pool → Pool
count_busy p = record p { busy_workers = p.busy_workers + 1 }

unfoldable pub uncount_busy : Pool → Pool
uncount_busy p = record p { busy_workers = p.busy_workers - 1 }

-- `w.Exec(reqCtx, script)`
unfoldable pub run_worker : (String → List ℕ) → ℕ → Pool → Pool × Result EngineError Response
unfolding update
run_worker page w p =
    let (w', r) = Worker.exec page (p.heap w) in (record p { heap = update p.heap w w' }, r)

-- After the run: a worn out worker is handed to a `replaceWorker` goroutine, another goes back to
-- the channel.
unfoldable pub release : ℕ → Pool → Run (List Task)
unfolding send
release w p =
    if Worker.needs_recycle (p.heap w)
    then done p (replace w ∷ [])
    else (send w p >>= λ q _. done q [])

abbrev pub lift_error : {A : Type 0} → Result EngineError A → Result PoolError A
lift_error (ok a) = ok a
lift_error (err e) = err (worker_failed e)

-- `Exec` on a worker that was received.
unfoldable pub serve : (String → List ℕ) → ℕ → Pool → Run (Result PoolError Response × List Task)
unfolding count_busy run_worker release uncount_busy
serve page w p =
    let (p', r) = run_worker page w (count_busy p) in
    release w p' >>= λ q tasks. done (uncount_busy q) (lift_error r, tasks)

unfoldable pub after_select :
    (String → List ℕ)
    → Option (Pool × Acquired)
    → Option (Run (Result PoolError Response × List Task))
unfolding serve
after_select page none = none
after_select page (some (p, got w)) = some (serve page w p)
after_select page (some (p, got_nil)) = some panicked
after_select page (some (p, failed e)) = some (done p (err e, []))

-- The whole of `Exec`, with nothing else running; `none` where the chosen case is not ready.
unfoldable pub exec :
    (String → List ℕ) → Wake → Pool → Option (Run (Result PoolError Response × List Task))
unfolding arrive select after_select
exec page wake p = after_select page (select wake (arrive p))
