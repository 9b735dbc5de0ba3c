-- ===== src/ProcessPool/Ownership/Moves.antt =====
-- internal/pool/pool.go: the steps that move a worker that nobody has stopped.
use maboo.Base.{ℕ, ◌+◌, ◌-◌, ◌≡◌, refl, sym, ap, ◌∙◌, true, List, [], ◌∷◌, ◌++◌, some, arith, subst}
use maboo.Base.Results.{Result, ok, err}
use maboo.Protocol.Wire.{Frame, WriteError}
use maboo.WorkerPool.Ids.{mem, remove, count-cons, count_last, count-remove, length-remove}
use maboo.ProcessPool.Worker
use maboo.ProcessPool.Worker.{Worker, WorkerError, Php, Io, returned, waits}
use maboo.ProcessPool.Pool.{Pool, World, reap, done, store, send, count_busy, uncount_busy}
use maboo.ProcessPool.Serve.{Wake, received, PoolError, got, failed, select, arrive, read_ready}
use maboo.ProcessPool.Upkeep.{scale_down}
use maboo.ProcessPool.System.{System, Call}
use maboo.ProcessPool.Ownership.{Inv, Same, moved-Inv, lives, deads, marks, launches, in_use}
use maboo.ProcessPool.Ownership.Pieces.{
  counted-Same, select-got, select-failed, send-done, scale_down-reap, begin-reaped, await-reaped,
  read_ready-reaped, store-Same,
}

module _ (s : System) (v : Inv s) where
  -- Nothing but the channel and the number of busy workers changes in the pool.
  pub recounted-Inv :
      (t : System) (available : List ℕ) (n total : ℕ)
      → t.pool ≡ record s.pool { available = available; busy_workers = n; total_requests = total }
      → ((x : ℕ) → lives x t ≡ lives x s)
      → ((x : ℕ) → deads x t ≡ deads x s)
      → ((x : ℕ) → launches x t ≡ launches x s)
      → ((x : ℕ) → marks x t ≡ marks x s)
      → t.checking ≡ s.checking
      → t.reloaded ≡ s.reloaded
      → n ≡ in_use t
      → Inv t
  recounted-Inv t available n total e l d i m c f b =
      moved-Inv s t v (subst (Same s.pool) (sym e) (counted-Same s.pool available n total)) l d i m
        c f (λ _. ap (λ (p : Pool). p.busy_workers) e ∙ b)

  pub arrive-Inv : (n : ℕ) → Inv (record s { pool = arrive s.pool; waiting = n })
  unfolding arrive
  arrive-Inv n =
      recounted-Inv _ s.pool.available s.pool.busy_workers _ refl (λ x. refl) (λ x. refl)
        (λ x. refl) (λ x. refl) refl refl v.busy

  pub give_up-Inv :
      (k : Wake) (e : PoolError) (q : Pool) (n : ℕ)
      → select k s.pool ≡ some (q, failed e)
      → Inv (record s { pool = q; waiting = n })
  give_up-Inv k e q n h =
      let same = select-failed s.pool q k e h in
      recounted-Inv _ s.pool.available s.pool.busy_workers _ same (λ x. ground (arith, same))
        (λ x. refl) (λ x. refl) (λ x. refl) refl refl v.busy

  pub take_worker-Inv :
      (w n : ℕ) (q : Pool) (calls : ℕ → Call)
      → select received s.pool ≡ some (q, got w)
      → Inv (record s { pool = count_busy q; calls = calls; waiting = n; holding = w ∷ s.holding })
  unfolding count_busy
  take_worker-Inv w n q calls e =
      let (same, front) = select-got s.pool q w e in
      recounted-Inv _ q.available (s.pool.busy_workers + 1) s.pool.total_requests
        (ap (λ (p : Pool). record p { busy_workers = p.busy_workers + 1 }) same)
        (λ x. ground (arith, front, count-cons x w s.holding, count-cons x w q.available))
        (λ x. refl) (λ x. refl) (λ x. refl) refl refl (omega (arith, v.busy))

  -- A request leaves its worker, by an error, a limit or a timeout, to `replaceWorker`.
  pub leave-Inv :
      (w : ℕ)
      → mem w s.holding ≡ true
      → Inv (record s {
        pool = uncount_busy s.pool;
        holding = remove w s.holding;
        retiring = w ∷ s.retiring;
      })
  unfolding uncount_busy
  leave-Inv w m =
      recounted-Inv _ s.pool.available (s.pool.busy_workers - 1) s.pool.total_requests refl
        (λ x. ground (arith, count-cons x w s.retiring, count-remove x w s.holding m)) (λ x. refl)
        (λ x. refl) (λ x. refl) refl refl (omega (arith, v.busy, length-remove w s.holding m))

  pub drop-Inv :
      (w : ℕ)
      → mem w s.holding ≡ true
      → Inv
          (record s { pool = uncount_busy s.pool; holding = remove w s.holding; lost = w ∷ s.lost })
  unfolding uncount_busy
  drop-Inv w m =
      recounted-Inv _ s.pool.available (s.pool.busy_workers - 1) s.pool.total_requests refl
        (λ x. ground (arith, count-cons x w s.lost, count-remove x w s.holding m)) (λ x. refl)
        (λ x. refl) (λ x. refl) refl refl (omega (arith, v.busy, length-remove w s.holding m))

  pub answer-Inv :
      (w : ℕ)
      → mem w s.holding ≡ true
      → Inv (record s { holding = remove w s.holding; answered = w ∷ s.answered })
  answer-Inv w m =
      recounted-Inv _ s.pool.available s.pool.busy_workers s.pool.total_requests refl
        (λ x. ground (arith, count-cons x w s.answered, count-remove x w s.holding m)) (λ x. refl)
        (λ x. refl) (λ x. refl) refl refl (omega (arith, v.busy, length-remove w s.holding m))

  pub give_back-Inv :
      (w : ℕ) (q : Pool)
      → mem w s.returning ≡ true
      → send w s.pool ≡ done q tt
      → Inv (record s { pool = uncount_busy q; returning = remove w s.returning })
  unfolding uncount_busy
  give_back-Inv w q m e =
      let same = send-done s.pool q w e in
      recounted-Inv _ (s.pool.available ++ w ∷ []) (s.pool.busy_workers - 1) s.pool.total_requests
        (ap (λ (p : Pool). record p { busy_workers = p.busy_workers - 1 }) same)
        (λ x. ground (arith, same, count_last x w s.pool.available, count-remove x w s.returning m))
        (λ x. refl) (λ x. refl) (λ x. refl) refl refl
        (omega (arith, v.busy, length-remove w s.returning m))

  pub deliver-Inv :
      (w : ℕ) (q : Pool)
      → mem w s.arriving ≡ true
      → send w s.pool ≡ done q tt
      → Inv (record s { pool = q; arriving = remove w s.arriving })
  deliver-Inv w q m e =
      let same = send-done s.pool q w e in
      recounted-Inv _ (s.pool.available ++ w ∷ []) s.pool.busy_workers s.pool.total_requests same
        (λ x. ground (arith, same, count_last x w s.pool.available, count-remove x w s.arriving m))
        (λ x. refl) (λ x. refl) (λ x. refl) refl refl v.busy

  pub shrink-Inv :
      (w busy total : ℕ) (q : Pool)
      → scale_down busy total s.pool ≡ done q (reap w ∷ [])
      → Inv (record s { pool = q; stopping = w ∷ s.stopping })
  shrink-Inv w busy total q e =
      let (same, front) = scale_down-reap s.pool q w busy total e in
      recounted-Inv _ q.available s.pool.busy_workers s.pool.total_requests same
        (λ x. ground (arith, front, count-cons x w s.stopping, count-cons x w q.available))
        (λ x. refl) (λ x. refl) (λ x. refl) refl refl v.busy

  -- A call of the worker's own `Exec` goes on.
  pub exec_begins-Inv :
      (world : World) (w : ℕ) (req : Frame) (calls : ℕ → Call)
      → Inv (record s {
        pool = store w (Worker.begin (world.php w) world.buffer req (s.pool.heap w)).0 s.pool;
        calls = calls;
      })
  unfolding store
  exec_begins-Inv world w req calls =
      moved-Inv s _ v (store-Same s.pool w _ (begin-reaped (world.php w) world.buffer req _))
        (λ x. refl) (λ x. refl) (λ x. refl) (λ x. refl) refl refl (λ b. b)

  pub exec_returns-Inv :
      (world : World) (w : ℕ) (sent : Result WriteError (Unit {0})) (worker : Worker)
      (r : Result WorkerError Frame) (calls : ℕ → Call)
      → Worker.await (world.php w) (s.pool.heap w, sent) ≡ returned worker r
      → Inv (record s { pool = store w worker s.pool; calls = calls })
  unfolding store
  exec_returns-Inv world w sent worker r calls e =
      moved-Inv s _ v (store-Same s.pool w worker (await-reaped (world.php w) _ worker sent r e))
        (λ x. refl) (λ x. refl) (λ x. refl) (λ x. refl) refl refl (λ b. b)

  pub get_ready-Inv :
      (world : World) (w : ℕ) (worker : Worker)
      → mem w s.answered ≡ true
      → read_ready world w (s.pool.heap w) ≡ returned worker (ok tt)
      → Inv (record s {
        pool = store w worker s.pool;
        answered = remove w s.answered;
        returning = w ∷ s.returning;
      })
  unfolding store
  get_ready-Inv world w worker m e =
      moved-Inv s _ v (store-Same s.pool w worker (read_ready-reaped world w _ worker _ e))
        (λ x. ground (arith, count-cons x w s.returning, count-remove x w s.answered m)) (λ x. refl)
        (λ x. refl) (λ x. refl) refl refl (λ b. omega (arith, b, length-remove w s.answered m))

  pub miss_ready-Inv :
      (world : World) (w : ℕ) (worker : Worker) (e : WorkerError)
      → mem w s.answered ≡ true
      → read_ready world w (s.pool.heap w) ≡ returned worker (err e)
      → Inv (record s {
        pool = uncount_busy (store w worker s.pool);
        answered = remove w s.answered;
        retiring = w ∷ s.retiring;
      })
  unfolding store uncount_busy
  miss_ready-Inv world w worker e m h =
      let stored = store-Same s.pool w worker (read_ready-reaped world w _ worker _ h) in
      moved-Inv s _ v
        (record {
          same_workers = refl;
          same_id = refl;
          same_active = refl;
          same_closed = refl;
          same_cancelled = refl;
          same_reaped = stored.same_reaped;
        })
        (λ x. ground (arith, count-cons x w s.retiring, count-remove x w s.answered m)) (λ x. refl)
        (λ x. refl) (λ x. refl) refl refl (λ b. omega (arith, b, length-remove w s.answered m))
