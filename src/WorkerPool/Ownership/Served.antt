-- ===== src/WorkerPool/Ownership/Served.antt =====
-- A request of internal/worker/pool.go, step by step, keeps the ownership of workers.
use maboo.Base.{ℕ, ◌-◌, ◌≡◌, true, List, [], ◌∷◌, some, String, arith, length-append}
use maboo.WorkerPool.Ids.{mem, remove, count-cons, count_last, count-remove, length-remove}
use maboo.WorkerPool.Pool.{
  Pool, got, replace, done, select, count_busy, received, uncount_busy, run_worker, release,
}
use maboo.WorkerPool.System.{System}
use maboo.WorkerPool.Ownership.{Inv, select-got, release-back, release-worn}

module _ (s : System) (w : ℕ) (q : Pool) (v : Inv s) where
  pub take_worker-Inv :
      select received s.pool ≡ some (q, got w)
      → Inv (record s { pool = count_busy q; waiting = s.waiting - 1; holding = w ∷ s.holding })
  unfolding count_busy
  take_worker-Inv e =
      let (front, same) = select-got s.pool q w e in
      record {
        owned = λ x.
            ground
              (arith, front, same, v.owned x, count-cons x w q.available, count-cons x w s.holding);
        unique = λ x. ground (arith, same, v.unique x);
        fresh = λ x h. ground (arith, same, v.fresh x);
        size = ground (arith, front, same, v.size);
        active = ground (arith, same, v.active);
        busy = ground (arith, same, v.busy);
      }

  pub run-Inv :
      (page : String → List ℕ)
      → mem w s.holding ≡ true
      → Inv (record s {
        pool = (run_worker page w s.pool).0;
        holding = remove w s.holding;
        finished = w ∷ s.finished;
      })
  unfolding run_worker
  run-Inv page m = record {
    owned = λ x. ground (arith, v.owned x, count-remove x w s.holding, count-cons x w s.finished);
    unique = v.unique;
    fresh = v.fresh;
    size = omega (arith, v.size, length-remove w s.holding m);
    active = v.active;
    busy = omega (arith, v.busy, length-remove w s.holding m);
  }

  pub give_back-Inv :
      mem w s.finished ≡ true
      → release w s.pool ≡ done q []
      → Inv (record s { pool = uncount_busy q; finished = remove w s.finished })
  unfolding uncount_busy
  give_back-Inv m e =
      let (back, same) = release-back s.pool q w e in
      record {
        owned = λ x. ground (
          arith,
          back,
          same,
          v.owned x,
          count-remove x w s.finished,
          count_last x w s.pool.available,
        );
        unique = λ x. ground (arith, same, v.unique x);
        fresh = λ x h. ground (arith, same, v.fresh x);
        size = ground (
          arith,
          back,
          same,
          v.size,
          length-remove w s.finished,
          length-append s.pool.available (w ∷ []),
        );
        active = ground (arith, same, v.active);
        busy = ground (arith, same, v.busy, length-remove w s.finished);
      }

  pub wear_out-Inv :
      mem w s.finished ≡ true
      → release w s.pool ≡ done q (replace w ∷ [])
      → Inv (record s {
        pool = uncount_busy q;
        finished = remove w s.finished;
        retiring = w ∷ s.retiring;
      })
  unfolding uncount_busy
  wear_out-Inv m e =
      let same = release-worn s.pool q w e in
      record {
        owned = λ x.
            ground (arith, same, v.owned x, count-remove x w s.finished, count-cons x w s.retiring);
        unique = λ x. ground (arith, same, v.unique x);
        fresh = λ x h. ground (arith, same, v.fresh x);
        size = ground (arith, same, v.size, length-remove w s.finished);
        active = ground (arith, same, v.active);
        busy = ground (arith, same, v.busy, length-remove w s.finished);
      }
