-- ===== src/ProcessPool/Pool.antt =====
-- internal/pool/pool.go: `Pool` and its methods, each cut where it starts a goroutine.
-- A `*Worker` is its id, which the heap resolves. The counters do not wrap, and the limits are those
-- of a validated config. The elapse of a timeout is an argument.
use maboo.Base.{
  ℕ, zero, suc, ◌+◌, ◌-◌, Bool, false, ◌&&◌, List, [], ◌∷◌, ◌++◌, Option, ltb, leb, ◌==◌,
  if◌then◌else◌, length, String,
}
use maboo.Base.Dict.{Dict}
use Prim.Native.String.{◌++◌ as ◌<>◌}
use maboo.Base.Results.{Result, ok, err}
use maboo.Protocol.Wire.{Writer}
use maboo.WorkerPool.Ids.{mem, remove}
use maboo.ProcessPool.Worker
use maboo.ProcessPool.Worker.{Worker, WorkerState, WorkerError, Php, Io, returned, waits}

pub record Settings : Type 0 where
  pub min_workers : ℕ
  pub max_workers : ℕ
  pub max_jobs : ℕ
  pub has_request_timeout : Bool

-- The processes: what exec gives for the worker of an id, what that process does, whether it ends
-- within five seconds of its stop, and the buffer at hand for a write.
pub record World : Type 0 where
  pub launch : ℕ → Option Writer
  pub php : ℕ → Php
  pub ends : ℕ → Bool
  pub buffer : List ℕ

-- `available` is the content of the channel, whose capacity is `max_workers`.
pub record Pool : Type 0 where
  pub cfg : Settings
  pub heap : ℕ → Worker
  pub workers : List ℕ
  pub available : List ℕ
  pub closed : Bool
  pub next_id : ℕ
  pub cancelled : Bool
  pub total_requests : ℕ
  pub active_workers : ℕ
  pub busy_workers : ℕ

-- A method ends, or it waits for ever, for room in the channel or for a process that keeps silent.
pub data Run (A : Type 0) : Type 0 where
  done : Pool → A → Run A
  blocked : Run A
  silent : ℕ → Run A
  panicked : Run A

infixl 5 ◌>>=◌
abbrev pub ◌>>=◌ : {A B : Type 0} → Run A → (Pool → A → Run B) → Run B
done p a >>= f = f p a
blocked >>= f = blocked
silent w >>= f = silent w
panicked >>= f = panicked

-- Goroutines that a method starts.
pub data Task : Type 0 where
  replace : ℕ → Task
  reap : ℕ → Task
  drain : List ℕ → Task

-- What the heap holds at an id that no worker has yet.
abbrev pub no_worker : Worker
no_worker = record {
  id = 0;
  stdin = record { written = []; room = 0 };
  stdout = [];
  reaped = false;
  state = WorkerState.stopped;
  jobs = 0;
}

unfoldable pub new_pool : Settings → Pool
new_pool cfg = record {
  cfg = cfg;
  heap = λ _. no_worker;
  workers = [];
  available = [];
  closed = false;
  next_id = 0;
  cancelled = false;
  total_requests = 0;
  active_workers = 0;
  busy_workers = 0;
}

unfoldable pub store : ℕ → Worker → Pool → Pool
store w worker p = record p { heap = λ j. if w == j then worker else p.heap j }

-- `p.available <- w`
unfoldable pub send : ℕ → Pool → Run (Unit {0})
send w p =
    if p.closed
    then panicked
    else if ltb (length p.available) p.cfg.max_workers
    then done (record p { available = p.available ++ w ∷ [] }) tt
    else blocked

unfoldable pub register : ℕ → Worker → Pool → Pool
unfolding store
register id worker p = record (store id worker p) {
  workers = p.workers ++ id ∷ [];
  active_workers = p.active_workers + 1;
}

unfoldable pub needs_recycle : Pool → Worker → Bool
needs_recycle p w = ltb 0 p.cfg.max_jobs && leb p.cfg.max_jobs w.jobs

unfoldable pub remove_worker : ℕ → Pool → Pool
unfolding mem remove
remove_worker w p =
    if mem w p.workers
    then record p { workers = remove w p.workers; active_workers = p.active_workers - 1 }
    else p

unfoldable pub count_busy : Pool → Pool
count_busy p = record p { busy_workers = p.busy_workers + 1 }

unfoldable pub uncount_busy : Pool → Pool
uncount_busy p = record p { busy_workers = p.busy_workers - 1 }

pub record Stats : Type 0 where
  pub total_workers : ℕ
  pub active_workers : ℕ
  pub busy_workers : ℕ
  pub idle_workers : ℕ
  pub total_requests : ℕ
  pub queue_depth : ℕ

unfoldable pub stats : Pool → Stats
stats p = record {
  total_workers = length p.workers;
  active_workers = p.active_workers;
  busy_workers = p.busy_workers;
  idle_workers = length p.workers - p.busy_workers;
  total_requests = p.total_requests;
  queue_depth = length p.available;
}

-- After `NewWorker`.
abbrev pub spawned : ℕ → Pool → Io (Result WorkerError (Unit {0})) → Run (Result WorkerError ℕ)
spawned id p waits = silent id
spawned id p (returned worker (ok u)) = done (register id worker p) (ok id)
spawned id p (returned worker (err e)) = done p (err e)

-- What follows a spawn that went well.
abbrev pub then_send :
    (Pool → Run (Result WorkerError (Unit {0})))
    → Pool
    → Result WorkerError ℕ
    → Run (Result WorkerError (Unit {0}))
then_send rest p (ok w) = send w p >>= λ q _. rest q
then_send rest p (err e) = done p (err e)

-- What follows a spawn in `replaceWorker`; one that failed is only logged.
abbrev pub deliver : Pool → Result WorkerError ℕ → Run (Unit {0})
deliver p (ok w) = send w p
deliver p (err e) = done p tt

-- The environment of a process. The settings come in the order in which Go runs through the map.
unfoldable pub ini_env : Dict String → List String
ini_env [] = []
ini_env ((k, v) ∷ ini) = ("PHP_INI_" <> (k <> ("=" <> v))) ∷ ini_env ini

unfoldable pub build_env : (ℕ → String) → Settings → Dict String → List String
unfolding ini_env
build_env decimal cfg ini =
    if ltb 0 cfg.max_jobs
    then ("MAX_REQUESTS=" <> decimal cfg.max_jobs) ∷ ini_env ini
    else ini_env ini

module _ (world : World) where
  unfoldable pub spawn_worker : Pool → Run (Result WorkerError ℕ)
  unfolding register
  spawn_worker p =
      let id = p.next_id + 1 in
      spawned id (record p { next_id = id }) (Worker.new_worker (world.php id) (world.launch id) id)

  -- The loops of `Start` and of `Reload` over the workers to make.
  unfoldable pub start_loop : ℕ → Pool → Run (Result WorkerError (Unit {0}))
  unfolding spawn_worker send
  start_loop zero p = done p (ok tt)
  start_loop (suc n) p = spawn_worker p >>= then_send (start_loop n)

  -- The watchdog's rounds are `check_health`, then `auto_scale`.
  unfoldable pub start : Pool → Run (Result WorkerError (Unit {0}))
  unfolding start_loop
  start p = start_loop p.cfg.min_workers p

  unfoldable pub stop_worker : ℕ → Pool → Pool
  unfolding store
  stop_worker w p = store w (Worker.stop (world.php w) world.buffer (world.ends w) (p.heap w)) p

  -- `replaceWorker` once the old worker is gone.
  unfoldable pub refill : Pool → Run (Unit {0})
  unfolding spawn_worker send
  refill q = if q.cancelled then done q tt else spawn_worker q >>= deliver

  unfoldable pub replace_worker : ℕ → Pool → Run (Unit {0})
  unfolding stop_worker remove_worker refill
  replace_worker old p = refill (remove_worker old (stop_worker old p))
