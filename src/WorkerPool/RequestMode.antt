-- ===== src/WorkerPool/RequestMode.antt =====
-- internal/worker/pool.go in request mode: `spawnWorker` does not start the engine.
use maboo.Base.{
  ℕ, zero, suc, ◌≡◌, refl, sym, ap, inl, inr, Bool, false, List, String, arith, subst, str_eq,
}
use maboo.Base.Results.{Result, ok, err}
use maboo.Engine.{EngineError, not_started, shutdown, execute, new_engine}
use maboo.WorkerPool.Worker
use maboo.WorkerPool.Worker.{Worker, new_worker}
use maboo.WorkerPool.Pool.{
  Settings, Pool, done, register, update, remove_worker, stop_worker, spawn_worker, run_worker,
  arrive, count_busy, uncount_busy, new_pool, start, start_loop,
}
use maboo.WorkerPool.Upkeep.{replace_begin, reap_worker}
use maboo.WorkerPool.System.{
  System, Step, request, give_up, take_worker, run, give_back, wear_out, retire, respawn,
  respawn_fails, deliver, grow, grow_fails, shrink, reap_idle, cancel, halt, close, Reach, here,
  next,
}
use maboo.WorkerPool.Ownership.{
  Same, select-got, select-failed, release-back, release-worn, send-done, scale_down-reap,
}
use maboo.WorkerPool.Ownership.Start.{spawn_send-Round}
use maboo.WorkerPool.Ownership.Reached.{Started, started}

abbrev has_started : Pool → ℕ → Bool
has_started p x = (p.heap x).engine.started

-- In request mode no engine is ever started.
pub record IsCold (p : Pool) : Type 0 where
  pub request_mode : str_eq p.cfg.mode "worker" ≡ false
  pub cold : (x : ℕ) → has_started p x ≡ false

spawn-IsCold :
    (p q : Pool) (r : Result EngineError ℕ) → spawn_worker p ≡ (q, r) → IsCold p → IsCold q
unfolding spawn_worker new_worker new_engine register update
spawn-IsCold p q r h c = record {
  request_mode = ground (arith, c.request_mode);
  cold = λ x. ground (arith, c.request_mode, c.cold x);
}

Same-IsCold : (p q : Pool) → Same p q → IsCold p → IsCold q
Same-IsCold p q s c = record {
  request_mode = ground (arith, s, c.request_mode);
  cold = λ x. ground (arith, s, c.cold x);
}

stop-IsCold : (w : ℕ) (p : Pool) → IsCold p → IsCold (stop_worker w p)
unfolding stop_worker update Worker.stop shutdown
stop-IsCold w p c = record {
  request_mode = c.request_mode;
  cold = λ x. ground (arith, c.cold x, c.cold w);
}

remove-IsCold : (w : ℕ) (p : Pool) → IsCold p → IsCold (remove_worker w p)
unfolding remove_worker
remove-IsCold w p c = record {
  request_mode = ground (arith, c.request_mode);
  cold = λ x. ground (arith, c.cold x);
}

run-IsCold : (page : String → List ℕ) (w : ℕ) (p : Pool) → IsCold p → IsCold (run_worker page w p).0
unfolding run_worker update Worker.exec execute
run-IsCold page w p c = record {
  request_mode = c.request_mode;
  cold = λ x. ground (arith, c.cold x, c.cold w);
}

unchanged-IsCold : (p q : Pool) → q ≡ p → IsCold p → IsCold q
unchanged-IsCold p q e c = subst IsCold (sym e) c

Step-IsCold :
    (page : String → List ℕ) {s t : System} → Step page s t → IsCold s.pool → IsCold t.pool
unfolding arrive count_busy uncount_busy replace_begin reap_worker
Step-IsCold page (request s) c = record { request_mode = c.request_mode; cold = c.cold }
Step-IsCold page (give_up s wake e q k f) c =
    unchanged-IsCold s.pool q (select-failed s.pool q wake e f) c
Step-IsCold page (take_worker s w q k f) c =
    let d = Same-IsCold s.pool q (select-got s.pool q w f).1 c in
    record { request_mode = d.request_mode; cold = d.cold }
Step-IsCold page (run s w m) c = run-IsCold page w s.pool c
Step-IsCold page (give_back s w q m e) c =
    let d = Same-IsCold s.pool q (release-back s.pool q w e).1 c in
    record { request_mode = d.request_mode; cold = d.cold }
Step-IsCold page (wear_out s w q m e) c =
    let d = unchanged-IsCold s.pool q (release-worn s.pool q w e) c in
    record { request_mode = d.request_mode; cold = d.cold }
Step-IsCold page (retire s w q go_on m e) c =
    unchanged-IsCold _ q (sym (ap (λ r. r.0) e)) (remove-IsCold w _ (stop-IsCold w s.pool c))
Step-IsCold page (respawn s w q k e) c = spawn-IsCold s.pool q (ok w) e c
Step-IsCold page (respawn_fails s e q k f) c = spawn-IsCold s.pool q (err e) f c
Step-IsCold page (deliver s w q m e) c = Same-IsCold s.pool q (send-done s.pool q w e).1 c
Step-IsCold page (grow s w q k b l e) c = spawn-IsCold s.pool q (ok w) e c
Step-IsCold page (grow_fails s e q f) c = spawn-IsCold s.pool q (err e) f c
Step-IsCold page (shrink s w q e) c = Same-IsCold s.pool q (scale_down-reap s.pool q w _ _ e).1 c
Step-IsCold page (reap_idle s w m) c = remove-IsCold w _ (stop-IsCold w s.pool c)
Step-IsCold page (cancel s) c = record { request_mode = c.request_mode; cold = c.cold }
Step-IsCold page (halt s w m k) c = stop-IsCold w s.pool c
Step-IsCold page (close s k) c = record { request_mode = c.request_mode; cold = c.cold }

Reach-IsCold :
    (page : String → List ℕ) {s t : System} → IsCold s.pool → Reach page s t → IsCold t.pool
Reach-IsCold page c here = c
Reach-IsCold page c (next r st) = Step-IsCold page st (Reach-IsCold page c r)

start_loop-IsCold :
    (n : ℕ) (p q : Pool) (r : Result EngineError (Unit {0}))
    → start_loop n p ≡ done q r
    → IsCold p
    → IsCold q
unfolding start_loop
start_loop-IsCold zero p q r h c = unchanged-IsCold p q (ground arith) c
start_loop-IsCold (suc n) p q r h c = elim (spawn_send-Round p q (start_loop n) r h) [
  | inl (e, made, _) ↦ spawn-IsCold p q (err e) made c
  | inr (w, p', p'', made, sent, rest) ↦
      start_loop-IsCold n p'' q r rest
        (Same-IsCold p' p'' (send-done p' p'' w sent).1 (spawn-IsCold p p' (ok w) made c))
]

-- In request mode no request is ever served: in every state that a started pool reaches (without a
-- `Reload`), the run of any worker fails with `engine not started`.
pub request_mode_fails :
    (page : String → List ℕ) (cfg : Settings) (s : System) (w : ℕ)
    → cfg.mode ≡ "request"
    → Started page cfg s
    → (run_worker page w s.pool).1 ≡ err not_started
unfolding start new_pool run_worker Worker.exec execute
request_mode_fails page cfg s w mode (started q r e h) =
    let c : IsCold s.pool =
      Reach-IsCold page
        (start_loop-IsCold _ (new_pool cfg) q r e
          (record { request_mode = rw mode refl; cold = λ x. refl }))
        h in
    ground (arith, c.cold w)
