-- ===== src/WorkerPool/Upkeep.antt =====
-- internal/worker/pool.go: replacing workers, the watchdog's rounds, `Reload` and `Stop`.
use maboo.Base.{ℕ, ◌-◌, ◌*◌, Bool, true, not, ◌&&◌, List, [], ◌∷◌, ltb, leb, if◌then◌else◌, length}
use maboo.Base.Results.{Result, ok, err}
use maboo.Engine.{EngineError}
use maboo.WorkerPool.Pool.{
  Pool, Run, ◌>>=◌, Task, send, spawn_worker, remove_worker, stop_worker, start_loop, done, reap,
  drain,
}

-- `replaceWorker` up to its look at the context: whether it goes on to spawn.
unfoldable pub replace_begin : ℕ → Pool → Pool × Bool
unfolding stop_worker remove_worker
replace_begin old p = let q = remove_worker old (stop_worker old p) in (q, not q.cancelled)

-- The rest of `replaceWorker`; a failed spawn is only logged.
unfoldable pub replace_end : Pool → Run (Unit {0})
unfolding spawn_worker send
replace_end p = let (p', r) = spawn_worker p in elim r [ ok w ↦ send w p' | err e ↦ done p' tt ]

unfoldable pub replace_worker : ℕ → Pool → Run (Unit {0})
unfolding replace_begin replace_end
replace_worker old p =
    let (p', go_on) = replace_begin old p in if go_on then replace_end p' else done p' tt

pub record Stats : Type 0 where
  pub total_workers : ℕ
  pub active_workers : ℕ
  pub busy_workers : ℕ
  pub idle_workers : ℕ
  pub total_requests : ℕ

unfoldable pub stats : Pool → Stats
stats p = record {
  total_workers = length p.workers;
  active_workers = p.active_workers;
  busy_workers = p.busy_workers;
  idle_workers = length p.workers - p.busy_workers;
  total_requests = p.total_requests;
}

-- `busyPct >= 80` and `busyPct <= 20` for `busyPct = busy / total * 100` in floats: no rounding
-- crosses the two bounds, since a quotient that is not 4/5 or 1/5 is far from it.
abbrev pub is_busy : ℕ → ℕ → Bool
is_busy busy total = leb (80 * total) (busy * 100)

abbrev pub is_quiet : ℕ → ℕ → Bool
is_quiet busy total = leb (busy * 100) (20 * total)

-- The scale-up part of `autoScale`; a failed spawn is passed over.
unfoldable pub scale_up : ℕ → ℕ → Pool → Run (Unit {0})
unfolding replace_end
scale_up busy total p =
    if is_busy busy total && ltb total p.cfg.max_workers then replace_end p else done p tt

abbrev pub take_idle : Pool → List ℕ → Pool × List Task
take_idle p [] = (p, [])
take_idle p (w ∷ rest) = (record p { available = rest }, reap w ∷ [])

-- The scale-down part: an idle worker, if there is one, is handed to a goroutine.
unfoldable pub scale_down : ℕ → ℕ → Pool → Pool × List Task
scale_down busy total p =
    if is_quiet busy total && ltb p.cfg.min_workers total then take_idle p p.available else (p, [])

-- `autoScale`: both tests look at the numbers of its beginning.
unfoldable pub auto_scale : Pool → Run (List Task)
unfolding scale_up scale_down
auto_scale p =
    let busy = p.busy_workers in
    let total = length p.workers in
    if ltb 0 total
    then (scale_up busy total p >>= λ q _.
        (let (q', tasks) = scale_down busy total q in done q' tasks))
    else done p []

-- The goroutine that `autoScale` starts, and a round of the one that `Reload` starts.
unfoldable pub reap_worker : ℕ → Pool → Pool
unfolding stop_worker remove_worker
reap_worker w p = remove_worker w (stop_worker w p)

-- The goroutine of `Reload`. It waits while an old worker is busy: run to its end, it is a loop.
unfoldable pub drain_workers : List ℕ → Pool → Pool
unfolding reap_worker
drain_workers [] p = p
drain_workers (w ∷ ws) p = drain_workers ws (reap_worker w p)

-- `Reload`: `min_workers` new workers, then a goroutine for those that were there.
unfoldable pub reload : Pool → Run (Result EngineError (Unit {0}) × List Task)
unfolding start_loop
reload p = start_loop p.cfg.min_workers p >>= λ q r. elim r [
  | ok _ ↦ done q (ok tt, drain p.workers ∷ [])
  | err e ↦ done q (err e, [])
]

stop_all : List ℕ → Pool → Pool
unfolding stop_worker
stop_all [] p = p
stop_all (w ∷ ws) p = stop_all ws (stop_worker w p)

-- `Stop`
unfoldable pub stop : Pool → Pool
unfolding stop_all
stop p = let q = stop_all p.workers (record p { cancelled = true }) in record q { closed = true }
