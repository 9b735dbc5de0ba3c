-- ===== src/WorkerPool/Reload.antt =====
-- `Reload` of internal/worker/pool.go, and the goroutine that it starts.
use maboo.Base.{
  ℕ, ◌+◌, ◌≤◌, ◌<◌, ◌≡◌, ◌⊎◌, refl, ap, ◌∙◌, inl, inr, true, false, List, [], ◌∷◌, ◌++◌, some,
  length, String, arith, length-append, Bool-cases, All,
}
use maboo.Base.Results.{ok, err}
use maboo.Engine.{not_started, shutdown, execute, contains, valid_versions}
use maboo.WorkerPool.Worker
use maboo.WorkerPool.Ids.{mem, remove}
use maboo.WorkerPool.Pool.{
  Settings, Pool, done, update, remove_worker, stop_worker, Task, drain, received, worker_failed,
  exec, serve, receive, release, run_worker, arrive, count_busy, uncount_busy, after_select,
  replace,
}
use maboo.WorkerPool.Upkeep.{reap_worker, drain_workers, reload}
use maboo.WorkerPool.Ownership.Start.{start_loop-fills}

drain_workers-available : (ws : List ℕ) (p : Pool) → (drain_workers ws p).available ≡ p.available
unfolding drain_workers remove_worker stop_worker
drain_workers-available [] p = refl
drain_workers-available (w ∷ ws) p = drain_workers-available ws (reap_worker w p) ∙ ground arith

drain_workers-cfg :
    (ws : List ℕ) (p : Pool)
    → ((drain_workers ws p).cfg ≡ p.cfg) × ((drain_workers ws p).closed ≡ p.closed)
unfolding drain_workers remove_worker stop_worker
drain_workers-cfg [] p = (refl, refl)
drain_workers-cfg (w ∷ ws) p =
    let (a, b) = drain_workers-cfg ws (reap_worker w p) in (a ∙ ground arith, b ∙ ground arith)

-- Each old worker is the first of the list when its turn comes.
drain_workers-workers :
    (ws news : List ℕ) (p : Pool) → p.workers ≡ ws ++ news → (drain_workers ws p).workers ≡ news
unfolding drain_workers remove_worker stop_worker
drain_workers-workers [] news p e = e
drain_workers-workers (w ∷ ws) news p e =
    drain_workers-workers ws news (reap_worker w p) (unfold mem remove in ground arith)

-- A worker that is off stays off, and a drained one is off.
drain_workers-off :
    (x : ℕ) (ws : List ℕ) (p : Pool)
    → (mem x ws ≡ true) ⊎ ((p.heap x).engine.started ≡ false)
    → ((drain_workers ws p).heap x).engine.started ≡ false
unfolding drain_workers remove_worker stop_worker update Worker.stop shutdown mem
drain_workers-off x [] p (inl h) = cc
drain_workers-off x [] p (inr h) = h
drain_workers-off x (w ∷ ws) p h = drain_workers-off x ws (reap_worker w p) (ground arith)

-- `Reload` of an open pool, with a supported PHP version and room for the new workers, returns
-- without an error: `min_workers` new workers are made, and once its goroutine has run, those and no
-- others are registered.
pub reload_lem :
    (p : Pool)
    → contains p.cfg.version valid_versions ≡ true
    → p.closed ≡ false
    → length p.available + p.cfg.min_workers ≤ p.cfg.max_workers
    → (q : Pool) × (news : List ℕ) × (reload p ≡ done q (ok tt, drain p.workers ∷ []))
      × (length news ≡ p.cfg.min_workers)
      × All (λ x. p.next_id < x) news
      × ((drain_workers p.workers q).workers ≡ news)
unfolding reload
reload_lem p v open' room =
    let (q, news, runs, size, f) = start_loop-fills p.cfg.min_workers p v open' room in
    (q, news, rw runs refl, size, f.new, drain_workers-workers p.workers news q f.kept)

exec-received :
    (page : String → List ℕ) (p : Pool) (w : ℕ) (rest : List ℕ)
    → p.available ≡ w ∷ rest
    → exec page received p ≡ some (serve page w (record (arrive p) { available = rest }))
unfolding exec
exec-received page p w rest e = ap (λ l. after_select page (receive (arrive p) l)) e

release_returns :
    (w : ℕ) (p : Pool)
    → p.closed ≡ false
    → length p.available < p.cfg.max_workers
    → (t : Pool) × (tasks : List Task) × (release w p ≡ done t tasks)
unfolding release
release_returns w p open' room = elim (Bool-cases (Worker.needs_recycle (p.heap w))) [
  | inl e ↦ (p, replace w ∷ [], ground arith)
  | inr e ↦ (record p { available = p.available ++ w ∷ [] }, [], ground arith)
]

run_worker-off :
    (page : String → List ℕ) (w : ℕ) (p : Pool)
    → (p.heap w).engine.started ≡ false
    → (run_worker page w p).1 ≡ err not_started
unfolding run_worker Worker.exec execute
run_worker-off page w p off = ground arith

serve-off :
    (page : String → List ℕ) (w : ℕ) (p : Pool)
    → p.closed ≡ false
    → length p.available < p.cfg.max_workers
    → (p.heap w).engine.started ≡ false
    → (t : Pool) × (tasks : List Task) × (serve page w p
        ≡ done t (err (worker_failed not_started), tasks))
unfolding serve
serve-off page w p open' room off =
    let ran : Pool = (run_worker page w (count_busy p)).0 in
    let (t, tasks, e) = release_returns w ran open' room in
    (uncount_busy t, tasks, rw (e, run_worker-off page w (count_busy p) off) refl)

-- One request on a worker whose engine is off.
exec-off :
    (page : String → List ℕ) (p : Pool) (w : ℕ) (rest : List ℕ)
    → p.available ≡ w ∷ rest
    → p.closed ≡ false
    → length p.available ≤ p.cfg.max_workers
    → (p.heap w).engine.started ≡ false
    → (t : Pool) × (tasks : List Task) × (exec page received p
        ≡ some (done t (err (worker_failed not_started), tasks)))
unfolding exec
exec-off page p w rest e open' room off =
    let p' : Pool = record (arrive p) { available = rest } in
    let (t, tasks, fails) = serve-off page w p' open' (omega (arith, ap length e)) off in
    (t, tasks, exec-received page p w rest e ∙ ap some fails)

-- The pool after a `Reload` and its goroutine still hands out the old workers: where one was in the
-- channel, the next request gets it and fails with `engine not started`.
pub reload_breaks_exec :
    (page : String → List ℕ) (p : Pool) (w : ℕ) (rest : List ℕ)
    → contains p.cfg.version valid_versions ≡ true
    → p.closed ≡ false
    → length p.available + p.cfg.min_workers ≤ p.cfg.max_workers
    → p.available ≡ w ∷ rest
    → mem w p.workers ≡ true
    → (q : Pool) × (t : Pool) × (tasks : List Task) × (reload p
        ≡ done q (ok tt, drain p.workers ∷ []))
      × (exec page received (drain_workers p.workers q)
          ≡ some (done t (err (worker_failed not_started), tasks)))
unfolding reload
reload_breaks_exec page p w rest v open' room e m =
    let (q, news, runs, size, f) = start_loop-fills p.cfg.min_workers p v open' room in
    let d : Pool = drain_workers p.workers q in
    let (cfg, closed) = drain_workers-cfg p.workers q in
    let line : d.available ≡ p.available ++ news = drain_workers-available p.workers q ∙ f.sent in
    let (t, tasks, fails) =
      exec-off page d w (rest ++ news) (line ∙ ap (λ l. l ++ news) e)
        (closed ∙ f.closed_same ∙ open')
        (omega (
          arith,
          ap length line,
          length-append p.available news,
          size,
          ap (λ (c : Settings). c.max_workers) (cfg ∙ f.cfg_same),
        ))
        (drain_workers-off w p.workers q (inl m)) in
    (q, t, tasks, rw runs refl, fails)
