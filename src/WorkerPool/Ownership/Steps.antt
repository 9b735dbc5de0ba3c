-- ===== src/WorkerPool/Ownership/Steps.antt =====
-- Each step of internal/worker/pool.go keeps the ownership of workers.
use maboo.Base.{
  ℕ, ◌-◌, ◌≡◌, sym, Bool, true, List, [], ◌∷◌, length, String, arith, length-append, subst,
}
use maboo.Base.Results.{ok, err}
use maboo.Engine.{EngineError}
use maboo.WorkerPool.Ids.{
  mem, remove, count-cons, count_last, count-mem, mem-count, count-remove, length-remove,
}
use maboo.WorkerPool.Pool.{Pool, done, arrive, spawn_worker, send, reap, remove_worker, stop_worker}
use maboo.WorkerPool.Upkeep.{replace_begin, scale_down, reap_worker}
use maboo.WorkerPool.System.{
  System, Step, request, give_up, take_worker, run, give_back, wear_out, retire, respawn,
  respawn_fails, deliver, grow, grow_fails, shrink, reap_idle, cancel, halt, close,
}
use maboo.WorkerPool.Ownership.{
  Inv, spawn_worker-ok, spawn_worker-err, select-failed, send-done, scale_down-reap,
}
use maboo.WorkerPool.Ownership.Served.{take_worker-Inv, run-Inv, give_back-Inv, wear_out-Inv}

module _ (s : System) (w : ℕ) (q : Pool) (v : Inv s) where
  retire-Inv :
      (go_on : Bool) (n : ℕ)
      → mem w s.retiring ≡ true
      → replace_begin w s.pool ≡ (q, go_on)
      → Inv (record s { pool = q; retiring = remove w s.retiring; respawning = n })
  unfolding replace_begin remove_worker
  retire-Inv go_on n m e =
      let here = mem-count w s.pool.workers (omega (arith, v.owned w, count-mem w s.retiring m)) in
      record {
        owned = λ x.
            ground (
              arith,
              here,
              v.owned x,
              count-remove x w s.retiring,
              count-remove x w s.pool.workers,
            );
        unique = λ x. ground (arith, here, v.unique x, count-remove x w s.pool.workers);
        fresh = λ x h. ground (arith, here, v.fresh x, count-remove x w s.pool.workers);
        size =
            ground
              (arith, here, v.size, length-remove w s.retiring, length-remove w s.pool.workers);
        active = ground (arith, here, v.active, length-remove w s.pool.workers);
        busy = ground (arith, here, v.busy);
      }

  reap_idle-Inv :
      mem w s.stopping ≡ true
      → Inv (record s { pool = reap_worker w s.pool; stopping = remove w s.stopping })
  unfolding reap_worker remove_worker
  reap_idle-Inv m =
      let here = mem-count w s.pool.workers (omega (arith, v.owned w, count-mem w s.stopping m)) in
      record {
        owned = λ x.
            ground (
              arith,
              here,
              v.owned x,
              count-remove x w s.stopping,
              count-remove x w s.pool.workers,
            );
        unique = λ x. ground (arith, here, v.unique x, count-remove x w s.pool.workers);
        fresh = λ x h. ground (arith, here, v.fresh x, count-remove x w s.pool.workers);
        size =
            ground
              (arith, here, v.size, length-remove w s.stopping, length-remove w s.pool.workers);
        active = ground (arith, here, v.active, length-remove w s.pool.workers);
        busy = ground (arith, here, v.busy);
      }

  pub spawn-Inv :
      (n : ℕ)
      → spawn_worker s.pool ≡ (q, ok w)
      → Inv (record s { pool = q; arriving = w ∷ s.arriving; respawning = n })
  spawn-Inv n e =
      let (new, id, workers, available, active, busy) = spawn_worker-ok s.pool q w e in
      record {
        owned = λ x. ground (
          arith,
          workers,
          available,
          v.owned x,
          count_last x w s.pool.workers,
          count-cons x w s.arriving,
        );
        unique =
            λ x. ground (arith, new, workers, v.unique x, v.fresh x, count_last x w s.pool.workers);
        fresh = λ x h. ground (arith, new, id, workers, v.fresh x, count_last x w s.pool.workers);
        size = ground (arith, workers, available, v.size, length-append s.pool.workers (w ∷ []));
        active = ground (arith, active, workers, v.active, length-append s.pool.workers (w ∷ []));
        busy = ground (arith, busy, v.busy);
      }

  pub deliver-Inv :
      mem w s.arriving ≡ true
      → send w s.pool ≡ done q tt
      → Inv (record s { pool = q; arriving = remove w s.arriving })
  deliver-Inv m e =
      let (back, same) = send-done s.pool q w e in
      record {
        owned = λ x. ground (
          arith,
          back,
          same,
          v.owned x,
          count-remove x w s.arriving,
          count_last x w s.pool.available,
        );
        unique = λ x. ground (arith, same, v.unique x);
        fresh = λ x h. ground (arith, same, v.fresh x);
        size = ground (
          arith,
          back,
          same,
          v.size,
          length-remove w s.arriving,
          length-append s.pool.available (w ∷ []),
        );
        active = ground (arith, same, v.active);
        busy = ground (arith, same, v.busy);
      }

  shrink-Inv :
      scale_down s.pool.busy_workers (length s.pool.workers) s.pool ≡ (q, reap w ∷ [])
      → Inv (record s { pool = q; stopping = w ∷ s.stopping })
  shrink-Inv e =
      let (front, same) = scale_down-reap s.pool q w _ _ e in
      record {
        owned = λ x.
            ground (
              arith,
              front,
              same,
              v.owned x,
              count-cons x w q.available,
              count-cons x w s.stopping,
            );
        unique = λ x. ground (arith, same, v.unique x);
        fresh = λ x h. ground (arith, same, v.fresh x);
        size = ground (arith, front, same, v.size);
        active = ground (arith, same, v.active);
        busy = ground (arith, same, v.busy);
      }

pub spawn_fails-Inv :
    (s : System) (q : Pool) (e : EngineError) (n : ℕ)
    → spawn_worker s.pool ≡ (q, err e)
    → Inv s
    → Inv (record s { pool = q; respawning = n })
spawn_fails-Inv s q e n h v =
    let (id, workers, available, active, busy) = spawn_worker-err s.pool q e h in
    record {
      owned = λ x. ground (arith, workers, available, v.owned x);
      unique = λ x. ground (arith, workers, v.unique x);
      fresh = λ x k. ground (arith, id, workers, v.fresh x);
      size = ground (arith, workers, available, v.size);
      active = ground (arith, active, workers, v.active);
      busy = ground (arith, busy, v.busy);
    }

-- Every step keeps the ownership of workers.
pub Step-Inv : (page : String → List ℕ) {s t : System} → Step page s t → Inv s → Inv t
unfolding arrive stop_worker
Step-Inv page (request s) v = record {
  owned = v.owned;
  unique = v.unique;
  fresh = v.fresh;
  size = v.size;
  active = v.active;
  busy = v.busy;
}
Step-Inv page (give_up s wake e q h k) v =
    let same = select-failed s.pool q wake e k in
    subst (λ p. Inv (record s { pool = p; waiting = s.waiting - 1 })) (sym same)
      (record {
        owned = v.owned;
        unique = v.unique;
        fresh = v.fresh;
        size = v.size;
        active = v.active;
        busy = v.busy;
      })
Step-Inv page (take_worker s w q h k) v = take_worker-Inv s w q v k
Step-Inv page (run s w m) v = run-Inv s w s.pool v page m
Step-Inv page (give_back s w q m e) v = give_back-Inv s w q v m e
Step-Inv page (wear_out s w q m e) v = wear_out-Inv s w q v m e
Step-Inv page (retire s w q go_on m e) v = retire-Inv s w q v go_on _ m e
Step-Inv page (respawn s w q h e) v = spawn-Inv s w q v _ e
Step-Inv page (respawn_fails s e q h k) v = spawn_fails-Inv s q e _ k v
Step-Inv page (deliver s w q m e) v = deliver-Inv s w q v m e
Step-Inv page (grow s w q h b l e) v = spawn-Inv s w q v s.respawning e
Step-Inv page (grow_fails s e q k) v = spawn_fails-Inv s q e s.respawning k v
Step-Inv page (shrink s w q e) v = shrink-Inv s w q v e
Step-Inv page (reap_idle s w m) v = reap_idle-Inv s w s.pool v m
Step-Inv page (cancel s) v = record {
  owned = v.owned;
  unique = v.unique;
  fresh = v.fresh;
  size = v.size;
  active = v.active;
  busy = v.busy;
}
Step-Inv page (halt s w m c) v = record {
  owned = v.owned;
  unique = v.unique;
  fresh = v.fresh;
  size = v.size;
  active = v.active;
  busy = v.busy;
}
Step-Inv page (close s c) v = record {
  owned = v.owned;
  unique = v.unique;
  fresh = v.fresh;
  size = v.size;
  active = v.active;
  busy = v.busy;
}
