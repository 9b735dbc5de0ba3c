-- ===== src/ProcessPool/Serve.antt =====
-- internal/pool/pool.go: `Exec`.
use maboo.Base.{ℕ, ◌+◌, ◌&&◌, List, [], ◌∷◌, Option, none, some, if◌then◌else◌}
use maboo.Base.Results.{Result, ok, err}
use maboo.Protocol.Wire.{Frame, type_worker_ready}
use maboo.ProcessPool.Worker
use maboo.ProcessPool.Worker.{Worker, WorkerState, WorkerError, Php, Io, returned, waits}
use maboo.ProcessPool.Pool.{
  World, Pool, Run, ◌>>=◌, Task, store, send, needs_recycle, count_busy, uncount_busy, done, silent,
  panicked, replace,
}

pub data PoolError : Type 0 where
  no_available_worker shutting_down request_timeout : PoolError
  exec_failed : WorkerError → PoolError

-- Which case of the first `select` of `Exec` is taken, and of the second.
pub data Wake : Type 0 where
  received timed_out ctx_done : Wake

pub data Finish : Type 0 where
  completed too_late cancelled : Finish

-- What the first `select` leaves: a worker, a nil worker from a closed channel, or an error.
pub data Acquired : Type 0 where
  got : ℕ → Acquired
  got_nil : Acquired
  failed : PoolError → Acquired

abbrev pub receive : Pool → List ℕ → Option (Pool × Acquired)
receive p [] = if p.closed then some (p, got_nil) else none
receive p (w ∷ rest) = some (record p { available = rest }, got w)

-- `none` where that case is not ready.
unfoldable pub select : Wake → Pool → Option (Pool × Acquired)
select received p = receive p p.available
select timed_out p = some (p, failed no_available_worker)
select ctx_done p = if p.cancelled then some (p, failed shutting_down) else none

unfoldable pub arrive : Pool → Pool
arrive p = record p { total_requests = p.total_requests + 1 }

-- What `Exec` returns, with the goroutine that it leaves behind.
abbrev pub Answer : Type 0
Answer = Result PoolError Frame × List Task

module _ (world : World) where
  -- The end of `Exec` on a worker that is not to be recycled: its READY, then back to the channel.
  abbrev pub after_ready : ℕ → Frame → Pool → Io (Result WorkerError (Unit {0})) → Run Answer
  after_ready w resp p waits = silent w
  after_ready w resp p (returned worker (ok u)) =
      send w (store w worker p) >>= λ q _. done (uncount_busy q) (ok resp, [])
  after_ready w resp p (returned worker (err e)) =
      done (uncount_busy (store w worker p)) (ok resp, replace w ∷ [])

  -- `w.ReadFrame()`, and the test of its type.
  unfoldable pub read_ready : ℕ → Worker → Io (Result WorkerError (Unit {0}))
  unfolding Worker.receive_frame
  read_ready w worker = elim (Worker.receive_frame (world.php w) worker) [
    | waits ↦ waits
    | returned worker' r ↦ returned worker' (Worker.expect type_worker_ready (Worker.lift_read r))
  ]

  -- `Exec` once the worker's own `Exec` has returned.
  unfoldable pub after_exec : ℕ → Pool → Worker → Result WorkerError Frame → Run Answer
  unfolding store uncount_busy needs_recycle read_ready send
  after_exec w p worker (err e) =
      done (uncount_busy (store w worker p)) (err (exec_failed e), replace w ∷ [])
  after_exec w p worker (ok resp) =
      let waited = after_ready w resp p (read_ready w worker) in
      if needs_recycle p worker
      then done (uncount_busy (store w worker p)) (ok resp, replace w ∷ [])
      else waited

  abbrev pub completes : ℕ → Pool → Io (Result WorkerError Frame) → Option (Run Answer)
  completes w p waits = none
  completes w p (returned worker r) = some (after_exec w p worker r)

  -- The second `select`, on a worker that was received; `none` where that case is not ready. On a
  -- timeout the worker's `Exec` is left at its read.
  unfoldable pub serve : Finish → Frame → ℕ → Pool → Option (Run Answer)
  unfolding count_busy uncount_busy store Worker.begin Worker.await after_exec
  serve completed req w p =
      let sent = Worker.begin (world.php w) world.buffer req (p.heap w) in
      completes w (count_busy p) (Worker.await (world.php w) sent)
  serve too_late req w p =
      let sent = Worker.begin (world.php w) world.buffer req (p.heap w) in
      if p.cfg.has_request_timeout
      then some (
          done (uncount_busy (store w sent.0 (count_busy p))) (err request_timeout, replace w ∷ []))
      else none
  serve cancelled req w p =
      let sent = Worker.begin (world.php w) world.buffer req (p.heap w) in
      if p.cfg.has_request_timeout && p.cancelled
      then some (done (uncount_busy (store w sent.0 (count_busy p))) (err shutting_down, []))
      else none

  unfoldable pub after_select : Finish → Frame → Option (Pool × Acquired) → Option (Run Answer)
  unfolding serve
  after_select finish req none = none
  after_select finish req (some (p, got w)) = serve finish req w p
  after_select finish req (some (p, got_nil)) = some panicked
  after_select finish req (some (p, failed e)) = some (done p (err e, []))

  -- The whole of `Exec`, with nothing else running; `none` where a chosen case is not ready.
  unfoldable pub exec : Wake → Finish → Frame → Pool → Option (Run Answer)
  unfolding arrive select after_select
  exec wake finish req p = after_select finish req (select wake (arrive p))
