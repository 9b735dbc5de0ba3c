-- ===== src/ProcessPool/Upkeep.antt =====
-- internal/pool/pool.go: the watchdog's rounds, `Reload` and `Stop`.
use maboo.Base.{
  ℕ, zero, suc, Bool, true, false, not, ◌&&◌, List, [], ◌∷◌, ◌++◌, ltb, if◌then◌else◌, length,
}
use maboo.Base.Results.{Result, ok, err}
use maboo.WorkerPool.Upkeep.{is_busy, is_quiet}
use maboo.ProcessPool.Worker
use maboo.ProcessPool.Worker.{Worker, WorkerState, WorkerError}
use maboo.ProcessPool.Pool.{
  Pool, World, Run, done, ◌>>=◌, Task, replace, reap, drain, spawn_worker, send, stop_worker,
  remove_worker,
}

abbrev pub is_in_use : WorkerState → Bool
is_in_use WorkerState.busy = true
is_in_use s = false

-- The loop of `checkHealth`: the dead workers that are not in use are handed to goroutines.
unfoldable pub check_workers : Pool → List ℕ → List Task
check_workers p [] = []
check_workers p (w ∷ ws) =
    let rest = check_workers p ws in
    if is_in_use (p.heap w).state
    then rest
    else if not (Worker.is_alive (p.heap w))
    then replace w ∷ rest
    else rest

unfoldable pub check_health : Pool → List Task
unfolding check_workers
check_health p = check_workers p p.workers

-- The scale-down part of `autoScale`: an idle worker, if there is one, is handed to a goroutine.
abbrev pub take_idle : Pool → List ℕ → Run (List Task)
take_idle p [] = done p []
take_idle p (w ∷ rest) = done (record p { available = rest }) (reap w ∷ [])

unfoldable pub scale_down : ℕ → ℕ → Pool → Run (List Task)
scale_down busy total p =
    if is_quiet busy total && ltb p.cfg.min_workers total
    then take_idle p p.available
    else done p []

-- `Reload` that fails stops the workers that it made; they stay registered and in the channel.
unfoldable pub stop_list : World → List ℕ → Pool → Pool
unfolding stop_worker
stop_list world [] p = p
stop_list world (w ∷ ws) p = stop_list world ws (stop_worker world w p)

pub data Wakeup : Type 0 where
  tick shut_down : Wakeup

module _ (world : World) where
  -- After the spawn of a scale-up: an error ends `autoScale`.
  abbrev pub scaled : ℕ → ℕ → Pool → Result WorkerError ℕ → Run (List Task)
  scaled busy total p (ok w) = send w p >>= λ q _. scale_down busy total q
  scaled busy total p (err e) = done p []

  -- `autoScale`: both tests look at the numbers of its beginning.
  unfoldable pub auto_scale : Pool → Run (List Task)
  unfolding scale_down spawn_worker send
  auto_scale p =
      let busy = p.busy_workers in
      let total = length p.workers in
      if ltb 0 total
      then (if is_busy busy total && ltb total p.cfg.max_workers
          then (spawn_worker world p >>= scaled busy total)
          else scale_down busy total p)
      else done p []

  -- The watchdog, at each tick or as the context is done, with the goroutines that it starts.
  unfoldable pub watchdog : List Wakeup → Pool → Run (List Task)
  unfolding check_health auto_scale
  watchdog [] p = done p []
  watchdog (shut_down ∷ wakeups) p = done p []
  watchdog (tick ∷ wakeups) p = auto_scale p >>= λ q scaling.
      watchdog wakeups q >>= λ r later. done r (check_health p ++ scaling ++ later)

  -- The goroutine that `autoScale` starts, and a round of the one that `Reload` starts.
  unfoldable pub reap_worker : ℕ → Pool → Pool
  unfolding stop_worker remove_worker
  reap_worker w p = remove_worker w (stop_worker world w p)

  -- The goroutine of `Reload`. It waits while an old worker is busy: run to its end, it is a loop.
  unfoldable pub drain_workers : List ℕ → Pool → Pool
  unfolding reap_worker
  drain_workers [] p = p
  drain_workers (w ∷ ws) p = drain_workers ws (reap_worker w p)

  -- The loop of `Reload` that makes new workers; `made` are those it has made.
  abbrev pub then_make :
      (Pool → List ℕ → Run (Result WorkerError (Unit {0})))
      → List ℕ
      → Pool
      → Result WorkerError ℕ
      → Run (Result WorkerError (Unit {0}))
  then_make rest made p (ok w) = send w p >>= λ q _. rest q (made ++ w ∷ [])
  then_make rest made p (err e) = done (stop_list world made p) (err e)

  unfoldable pub make_workers : ℕ → Pool → List ℕ → Run (Result WorkerError (Unit {0}))
  unfolding spawn_worker send stop_list
  make_workers zero p made = done p (ok tt)
  make_workers (suc n) p made = spawn_worker world p >>= then_make (make_workers n) made

  abbrev pub then_drain :
      List ℕ
      → Pool
      → Result WorkerError (Unit {0})
      → Run (Result WorkerError (Unit {0}) × List Task)
  then_drain old p (ok u) = done p (ok tt, drain old ∷ [])
  then_drain old p (err e) = done p (err e, [])

  unfoldable pub reload : Pool → Run (Result WorkerError (Unit {0}) × List Task)
  unfolding make_workers
  reload p = make_workers p.cfg.min_workers p [] >>= then_drain p.workers

  unfoldable pub stop : Pool → Pool
  unfolding stop_list
  stop p = record (stop_list world p.workers (record p { cancelled = true })) { closed = true }
