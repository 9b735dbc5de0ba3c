-- ===== src/ProcessPool/System.antt =====
-- The goroutines of internal/pool/pool.go, side by side: requests in `Exec` with the calls of the
-- worker's own `Exec` that they start, the goroutines of `replaceWorker`, the watchdog with
-- `checkHealth` and `autoScale`, `Reload` with the goroutine that it leaves, and `Stop`. One call of
-- `Reload` makes its workers at a time.
pub mod Steps
use maboo.Base.{
  ℕ, ◌+◌, ◌-◌, ◌<◌, ◌≡◌, true, false, List, [], ◌∷◌, some, ◌==◌, Bool, false, if◌then◌else◌, length,
}
use maboo.Base.Results.{Result, ok, err}
use maboo.Protocol.Wire.{Frame, WriteError}
use maboo.WorkerPool.Ids.{mem, remove}
use maboo.WorkerPool.Upkeep.{is_busy}
use maboo.ProcessPool.Worker
use maboo.ProcessPool.Worker.{Worker, WorkerError, Io, returned}
use maboo.ProcessPool.Pool.{
  Pool, World, Task, replace, reap, drain, done, store, send, register, needs_recycle,
  remove_worker, count_busy, uncount_busy, stop_worker,
}
use maboo.ProcessPool.Serve.{Wake, received, PoolError, got, failed, select, arrive, read_ready}
use maboo.ProcessPool.Upkeep.{check_workers, scale_down}

-- How far the latest call of a worker's `Exec` is: before its write, after it, and returned. Each has
-- the request.
pub data Call : Type 0 where
  uncalled : Call
  called : Frame → Call
  begun : Frame → Result WriteError (Unit {0}) → Call
  ended : Frame → Result WorkerError Frame → Call

abbrev pub set_call : ℕ → Call → (ℕ → Call) → ℕ → Call
set_call w c calls j = if w == j then c else calls j

-- How far a `Reload` is: before a spawn, at the `NewWorker` of an id, before the send of a worker. It
-- has so many workers left to make, the old ones, and those that it has made.
pub data Reload : Type 0 where
  no_reload : Reload
  making : (left : ℕ) (old made : List ℕ) → Reload
  spawning : (id left : ℕ) (old made : List ℕ) → Reload
  sending : (id left : ℕ) (old made : List ℕ) → Reload

abbrev pub spawned_by : Reload → List ℕ
spawned_by no_reload = []
spawned_by (making left old made) = []
spawned_by (spawning id left old made) = id ∷ []
spawned_by (sending id left old made) = []

abbrev pub sent_by : Reload → List ℕ
sent_by no_reload = []
sent_by (making left old made) = []
sent_by (spawning id left old made) = []
sent_by (sending id left old made) = id ∷ []

-- Where the workers are that are not in the channel. With a request: `holding` until the worker's
-- `Exec` has returned, `answered` until its READY, `returning` until it is sent. With a
-- `replaceWorker`: `retiring` before its stop, `removing` after it; `condemned` and `discarding` are
-- the same for one that `checkHealth` started. With a goroutine of `autoScale`: `stopping` and
-- `unlisting`. `launching` are ids whose `NewWorker` runs, `arriving` workers made and not yet sent,
-- `lost` those that a request dropped on shutdown. `checking` is what is left of the snapshot of
-- `checkHealth`. `waiting` counts the requests before their `select`, `removed` the `replaceWorker`
-- goroutines before they look at the context, `respawning` those after it. Of a `Reload` the goroutine
-- that it leaves has yet to stop those in `draining` and to take those in `drained` off the list; those
-- in `failing` it stops because it failed. `reloaded` tells whether one of these was stopped.
pub record System : Type 0 where
  pub pool : Pool
  pub calls : ℕ → Call
  pub waiting : ℕ
  pub holding : List ℕ
  pub answered : List ℕ
  pub returning : List ℕ
  pub retiring : List ℕ
  pub removing : List ℕ
  pub condemned : List ℕ
  pub discarding : List ℕ
  pub stopping : List ℕ
  pub unlisting : List ℕ
  pub launching : List ℕ
  pub arriving : List ℕ
  pub lost : List ℕ
  pub checking : List ℕ
  pub removed : ℕ
  pub respawning : ℕ
  pub reload : Reload
  pub draining : List ℕ
  pub drained : List ℕ
  pub failing : List ℕ
  pub reloaded : Bool

-- A pool with no goroutine running.
abbrev pub at_rest : Pool → System
at_rest p = record {
  pool = p;
  calls = λ _. uncalled;
  waiting = 0;
  holding = [];
  answered = [];
  returning = [];
  retiring = [];
  removing = [];
  condemned = [];
  discarding = [];
  stopping = [];
  unlisting = [];
  launching = [];
  arriving = [];
  lost = [];
  checking = [];
  removed = 0;
  respawning = 0;
  reload = no_reload;
  draining = [];
  drained = [];
  failing = [];
  reloaded = false;
}

-- The workers that tasks replace, before others.
abbrev pub replaced : List Task → List ℕ → List ℕ
replaced [] ws = ws
replaced (replace w ∷ tasks) ws = w ∷ replaced tasks ws
replaced (reap w ∷ tasks) ws = replaced tasks ws
replaced (drain old ∷ tasks) ws = replaced tasks ws
