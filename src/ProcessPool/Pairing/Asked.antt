-- ===== src/ProcessPool/Pairing/Asked.antt =====
-- internal/pool/pool.go with processes of the protocol: a worker that gets a
-- request, and its call.
use maboo.Base.{ℕ, ◌≡◌, ap, ◌∙◌, inr, ◌∷◌, arith, sym, subst, some}
use maboo.Protocol.Wire.{Frame, WriteError}
use maboo.WorkerPool.Ids.{count, count-cons}
use maboo.ProcessPool.Worker
use maboo.ProcessPool.Pool.{count_busy, Pool, World, store}
use maboo.ProcessPool.Serve.{received, select, got}
use maboo.ProcessPool.System.{System, called, begun, ended, set_call}
use maboo.ProcessPool.Ownership.{Inv}
use maboo.ProcessPool.Ownership.Pieces.{select-got}
use maboo.ProcessPool.Pairing.{Obeys, SyncedAt, Owed, Returned}
use maboo.ProcessPool.Pairing.Calls.{await-sent, begin-Owed, await-Returned}
use maboo.Base.Results.{Result, ok}
use maboo.ProcessPool.Sequential.Calls.{store-heap}
use maboo.ProcessPool.Worker.{Worker, WorkerError, Io, returned}
use maboo.ProcessPool.Pairing.Moved.{by_worker, moved-SyncedAt}

module _ (world : World) (answer : ℕ → Frame → Frame) (s : System) (v : Inv s)
    (y : (x : ℕ) → SyncedAt world answer x s) where
  -- A worker goes from the channel to a request.
  pub take_worker-Synced :
      (w : ℕ) (q : Pool) (req : Frame) (n : ℕ)
      → select received s.pool ≡ some (q, got w)
      → (x : ℕ)
      → SyncedAt world answer x (record s {
        pool = count_busy q;
        calls = set_call w (called req) s.calls;
        waiting = n;
        holding = w ∷ s.holding;
      })
  unfolding count_busy
  take_worker-Synced w q req n e =
      let (same, front) = select-got s.pool q w e in
      let t : System = record s {
        pool = count_busy q;
        calls = set_call w (called req) s.calls;
        waiting = n;
        holding = w ∷ s.holding;
      } in
      let p = v.each w in
      by_worker (λ x. SyncedAt world answer x t) w
        (record {
          no_call = λ k. absurd (
              ground (
                arith,
                ap (count w) front,
                count-cons w w q.available,
                count-cons w w s.holding,
                same,
                p.alone,
                p.nowhere,
              ));
          read_out = λ k. absurd (
              ground (
                arith,
                ap (count w) front,
                count-cons w w q.available,
                count-cons w w s.holding,
                p.alone,
              ));
          unsent = λ r k c.
              ap (λ (u : Pool). (u.heap w).stdout) same
              ∙ (y w).read_out (
                  ground (
                    arith,
                    ap (count w) front,
                    count-cons w w q.available,
                    count-cons w w s.holding,
                  ));
          owed = λ r k c. absurd (ground (arith, c));
          paired = λ r resp k c. absurd (ground (arith, c));
          pending = λ k. absurd (
              ground (
                arith,
                ap (count w) front,
                count-cons w w q.available,
                count-cons w w s.holding,
                p.alone,
              ));
        })
        (λ x other.
          moved-SyncedAt world answer x s t (ground (arith, same))
            (ground (
              arith,
              other,
              ap (count x) front,
              count-cons x w q.available,
              count-cons x w s.holding,
            ))
            (ground (
              arith,
              other,
              ap (count x) front,
              count-cons x w q.available,
              count-cons x w s.holding,
            ))
            (omega arith) (omega arith) (λ k. ap (λ (u : Pool). (u.heap x).stdout) same)
            (ground (arith, other)) (y x))

  pub exec_begins-Synced :
      (o : (x : ℕ) → Obeys (world.php x) (answer x)) (w : ℕ) (req : Frame)
      → s.calls w ≡ called req
      → (x : ℕ)
      → SyncedAt world answer x (record s {
        pool = store w (Worker.begin (world.php w) world.buffer req (s.pool.heap w)).0 s.pool;
        calls =
            set_call w
              (begun req (Worker.begin (world.php w) world.buffer req (s.pool.heap w)).1)
              s.calls;
      })
  unfolding store
  exec_begins-Synced o w req e =
      let sent = Worker.begin (world.php w) world.buffer req (s.pool.heap w) in
      let t : System = record s {
        pool = store w sent.0 s.pool;
        calls = set_call w (begun req sent.1) s.calls;
      } in
      let z = y w in
      by_worker (λ x. SyncedAt world answer x t) w
        (record {
          no_call = λ k. absurd ((z.no_call k).0 req e);
          read_out = λ k. absurd ((z.no_call (inr (omega arith))).0 req e);
          unsent = λ r k c. absurd (ground (arith, c));
          owed = λ r k c.
              let (asked, done_ok) : (req ≡ r) × (sent.1 ≡ ok tt) =
                (ground (arith, c), ground (arith, c)) in
              subst (λ f. Owed (answer w) f (t.pool.heap w).stdout) asked
                (subst (Owed (answer w) req)
                  (ap (λ (u : Worker). u.stdout) (sym (store-heap w sent.0 s.pool)))
                  (begin-Owed (world.php w) world.buffer (answer w) req (s.pool.heap w) (o w)
                    (z.unsent req k e) done_ok));
          paired = λ r resp k c. absurd (ground (arith, c));
          pending = λ k. absurd ((z.no_call (inr (omega arith))).0 req e);
        })
        (λ x other.
          moved-SyncedAt world answer x s t (omega arith) (omega arith) (omega arith) (omega arith)
            (omega arith) (λ k. ground (arith, other)) (ground (arith, other)) (y x))

  pub exec_returns-Synced :
      (o : (x : ℕ) → Obeys (world.php x) (answer x)) (w : ℕ) (req : Frame)
      (sent : Result WriteError (Unit {0})) (worker : Worker) (r : Result WorkerError Frame)
      → s.calls w ≡ begun req sent
      → Worker.await (world.php w) (s.pool.heap w, sent) ≡ returned worker r
      → (x : ℕ)
      → SyncedAt world answer x
          (record s { pool = store w worker s.pool; calls = set_call w (ended req r) s.calls })
  unfolding store
  exec_returns-Synced o w req sent worker r e h =
      let t : System = record s {
        pool = store w worker s.pool;
        calls = set_call w (ended req r) s.calls;
      } in
      let z = y w in
      let went : (resp : Frame) → r ≡ ok resp → sent ≡ ok tt = λ resp c.
        await-sent (world.php w) (s.pool.heap w) worker sent resp (h ∙ ap (returned worker) c) in
      by_worker (λ x. SyncedAt world answer x t) w
        (record {
          no_call = λ k. absurd ((z.no_call k).1 req sent e);
          read_out = λ k. absurd ((z.no_call (inr (omega arith))).1 req sent e);
          unsent = λ f k c. absurd (ground (arith, c));
          owed = λ f k c. absurd (ground (arith, c));
          paired = λ f resp k c.
              let (asked, came) : (req ≡ f) × (r ≡ ok resp) =
                (ground (arith, c), ground (arith, c)) in
              subst (λ f. Returned (answer w) f resp (t.pool.heap w).stdout) asked
                (subst (Returned (answer w) req resp)
                  (ap (λ (u : Worker). u.stdout) (sym (store-heap w worker s.pool)))
                  (await-Returned (world.php w) (answer w) req resp (s.pool.heap w) worker (o w)
                    (z.owed req k (e ∙ ap (begun req) (went resp came)))
                    (ap (λ b. Worker.await (world.php w) (s.pool.heap w, b)) (sym (went resp came))
                      ∙ h
                      ∙ ap (returned worker) came)));
          pending = λ k. absurd ((z.no_call (inr (omega arith))).1 req sent e);
        })
        (λ x other.
          moved-SyncedAt world answer x s t (omega arith) (omega arith) (omega arith) (omega arith)
            (omega arith) (λ k. ground (arith, other)) (ground (arith, other)) (y x))
