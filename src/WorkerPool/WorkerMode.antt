-- ===== src/WorkerPool/WorkerMode.antt =====
-- internal/worker/pool.go in worker mode: requests reach a started engine.
use maboo.Base.{
  ℕ, zero, suc, ◌+◌, ◌≤◌, ◌<◌, ◌≡◌, refl, sym, ap, inl, inr, Bool, true, false, List, [], ◌∷◌,
  String, arith, subst, str_eq,
}
use maboo.Base.Results.{Result, ok, err}
use maboo.Engine.{EngineError, Response, startup, execute, new_engine}
use maboo.WorkerPool.Worker
use maboo.WorkerPool.Worker.{Worker, new_worker}
use maboo.WorkerPool.Ids.{mem, count, count-mem, mem-count, count_last, count-nil, count-remove}
use maboo.WorkerPool.Pool.{
  Settings, Pool, done, register, update, remove_worker, stop_worker, spawn_worker, run_worker,
  arrive, count_busy, uncount_busy, new_pool, start, start_loop,
}
use maboo.WorkerPool.Upkeep.{replace_begin, reap_worker}
use maboo.WorkerPool.System.{
  System, at_rest, Step, request, give_up, take_worker, run, give_back, wear_out, retire, respawn,
  respawn_fails, deliver, grow, grow_fails, shrink, reap_idle, cancel, halt, close, Reach, here,
  next,
}
use maboo.WorkerPool.Ownership.{
  Inv, Same, select-got, select-failed, release-back, release-worn, send-done, scale_down-reap,
}
use maboo.WorkerPool.Ownership.Start.{spawn_send-Round, start_loop-Inv, new_pool-Inv}
use maboo.WorkerPool.Ownership.Reached.{Started, started, Reach-Inv}

abbrev has_started : Pool → ℕ → Bool
has_started p x = (p.heap x).engine.started

-- In worker mode, until the pool is cancelled, every registered worker has a started engine.
pub record IsHot (p : Pool) : Type 0 where
  pub worker_mode : str_eq p.cfg.mode "worker" ≡ true
  pub hot : (x : ℕ) → p.cancelled ≡ false → 0 < count x p.workers → has_started p x ≡ true

spawn-IsHot : (p q : Pool) (r : Result EngineError ℕ) → spawn_worker p ≡ (q, r) → IsHot p → IsHot q
unfolding spawn_worker new_worker new_engine register update Worker.start startup
spawn-IsHot p q r h c = record {
  worker_mode = ground (arith, c.worker_mode);
  hot = λ x k m. ground (arith, c.worker_mode, c.hot x, count_last x (p.next_id + 1) p.workers);
}

Same-IsHot : (p q : Pool) → Same p q → IsHot p → IsHot q
Same-IsHot p q s c = record {
  worker_mode = ground (arith, s, c.worker_mode);
  hot = λ x k m. ground (arith, s, c.hot x);
}

-- Stopping a worker and taking it off the list leaves the others as they are.
drop-IsHot :
    (w : ℕ) (p : Pool)
    → mem w p.workers ≡ true
    → count w p.workers ≤ 1
    → IsHot p
    → IsHot (remove_worker w (stop_worker w p))
unfolding remove_worker stop_worker update
drop-IsHot w p m one c = record {
  worker_mode = ground (arith, c.worker_mode);
  hot = λ x k h. ground (arith, m, c.hot x, count-remove x w p.workers, count-remove w w p.workers);
}

run-IsHot : (page : String → List ℕ) (w : ℕ) (p : Pool) → IsHot p → IsHot (run_worker page w p).0
unfolding run_worker update Worker.exec execute
run-IsHot page w p c = record {
  worker_mode = c.worker_mode;
  hot = λ x k m. ground (arith, c.hot x, c.hot w);
}

-- What the steps need besides: a worker that is registered is registered once.
Step-IsHot :
    (page : String → List ℕ) {s t : System} → Inv s → Step page s t → IsHot s.pool → IsHot t.pool
unfolding arrive count_busy uncount_busy replace_begin reap_worker stop_worker
Step-IsHot page v (request s) c = record { worker_mode = c.worker_mode; hot = c.hot }
Step-IsHot page v (give_up s wake e q k f) c = subst IsHot (sym (select-failed s.pool q wake e f)) c
Step-IsHot page v (take_worker s w q k f) c =
    let d = Same-IsHot s.pool q (select-got s.pool q w f).1 c in
    record { worker_mode = d.worker_mode; hot = d.hot }
Step-IsHot page v (run s w m) c = run-IsHot page w s.pool c
Step-IsHot page v (give_back s w q m e) c =
    let d = Same-IsHot s.pool q (release-back s.pool q w e).1 c in
    record { worker_mode = d.worker_mode; hot = d.hot }
Step-IsHot page v (wear_out s w q m e) c =
    let d = subst IsHot (sym (release-worn s.pool q w e)) c in
    record { worker_mode = d.worker_mode; hot = d.hot }
Step-IsHot page v (retire s w q go_on m e) c =
    let here = mem-count w s.pool.workers (omega (arith, v.owned w, count-mem w s.retiring m)) in
    subst IsHot (ap (λ r. r.0) e) (drop-IsHot w s.pool here (v.unique w) c)
Step-IsHot page v (respawn s w q k e) c = spawn-IsHot s.pool q (ok w) e c
Step-IsHot page v (respawn_fails s e q k f) c = spawn-IsHot s.pool q (err e) f c
Step-IsHot page v (deliver s w q m e) c = Same-IsHot s.pool q (send-done s.pool q w e).1 c
Step-IsHot page v (grow s w q k b l e) c = spawn-IsHot s.pool q (ok w) e c
Step-IsHot page v (grow_fails s e q f) c = spawn-IsHot s.pool q (err e) f c
Step-IsHot page v (shrink s w q e) c = Same-IsHot s.pool q (scale_down-reap s.pool q w _ _ e).1 c
Step-IsHot page v (reap_idle s w m) c =
    let here = mem-count w s.pool.workers (omega (arith, v.owned w, count-mem w s.stopping m)) in
    drop-IsHot w s.pool here (v.unique w) c
Step-IsHot page v (cancel s) c = record { worker_mode = c.worker_mode; hot = λ x k m. cc }
Step-IsHot page v (halt s w m k) c = record { worker_mode = c.worker_mode; hot = λ x j h. cc }
Step-IsHot page v (close s k) c = record { worker_mode = c.worker_mode; hot = c.hot }

Reach-IsHot :
    (page : String → List ℕ) {s t : System} → Inv s → IsHot s.pool → Reach page s t → IsHot t.pool
Reach-IsHot page v c here = c
Reach-IsHot page v c (next r st) = Step-IsHot page (Reach-Inv page v r) st (Reach-IsHot page v c r)

start_loop-IsHot :
    (n : ℕ) (p q : Pool) (r : Result EngineError (Unit {0}))
    → start_loop n p ≡ done q r
    → IsHot p
    → IsHot q
unfolding start_loop
start_loop-IsHot zero p q r h c = subst IsHot (ground arith) c
start_loop-IsHot (suc n) p q r h c = elim (spawn_send-Round p q (start_loop n) r h) [
  | inl (e, made, _) ↦ spawn-IsHot p q (err e) made c
  | inr (w, p', p'', made, sent, rest) ↦
      start_loop-IsHot n p'' q r rest
        (Same-IsHot p' p'' (send-done p' p'' w sent).1 (spawn-IsHot p p' (ok w) made c))
]

-- In worker mode, in every state that a started pool reaches before it is cancelled (without a
-- `Reload`), the run of a worker that a request holds succeeds, with status 200.
pub worker_mode_serves :
    (page : String → List ℕ) (cfg : Settings) (s : System) (w : ℕ)
    → cfg.mode ≡ "worker"
    → Started page cfg s
    → s.pool.cancelled ≡ false
    → mem w s.holding ≡ true
    → (resp : Response) × ((run_worker page w s.pool).1 ≡ ok resp) × (resp.status ≡ 200)
unfolding start new_pool run_worker Worker.exec execute
worker_mode_serves page cfg s w mode (started q r e h) running m =
    let v : Inv (at_rest q) = start_loop-Inv _ (new_pool cfg) q r e (new_pool-Inv cfg) in
    let c : IsHot s.pool =
      Reach-IsHot page v
        (start_loop-IsHot _ (new_pool cfg) q r e (record {
          worker_mode = rw mode refl;
          hot = λ x k n. absurd (omega (arith, count-nil x));
        }))
        h in
    let up : has_started s.pool w ≡ true =
      c.hot w running (omega (arith, (Reach-Inv page v h).owned w, count-mem w s.holding m)) in
    (
      record {
        status = 200;
        headers = ("Content-Type", "text/html; charset=utf-8") ∷ [];
        body = page (s.pool.heap w).engine.version;
      },
      ground (arith, up),
      refl,
    )
