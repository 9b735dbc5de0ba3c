-- ===== src/ProcessPool/Ownership/Pieces.antt =====
-- internal/pool/pool.go: what the calls of a step leave of the pool.
use maboo.Base.{ℕ, ◌≡◌, refl, List, [], ◌∷◌, ◌++◌, some, arith}
use maboo.Base.Results.{Result, ok, err}
use maboo.Protocol.Wire.{Frame, WriteError}
use maboo.ProcessPool.Worker
use maboo.ProcessPool.Worker.{Worker, WorkerError, Php, Io, returned, waits}
use maboo.ProcessPool.Pool.{Pool, World, reap, done, store, send}
use maboo.ProcessPool.Serve.{
  Wake, received, timed_out, ctx_done, PoolError, got, failed, select, read_ready,
}
use maboo.ProcessPool.Upkeep.{scale_down}
use maboo.ProcessPool.Ownership.{Same}

-- All but the channel and the counters of requests.
pub counted-Same :
    (p : Pool) (available : List ℕ) (busy total : ℕ)
    → Same p (record p { available = available; busy_workers = busy; total_requests = total })
counted-Same p available busy total = record {
  same_workers = refl;
  same_id = refl;
  same_active = refl;
  same_closed = refl;
  same_cancelled = refl;
  same_reaped = λ x. refl;
}

pub select-got :
    (p q : Pool) (w : ℕ)
    → select received p ≡ some (q, got w)
    → q ≡ record p { available = q.available } × (p.available ≡ w ∷ q.available)
unfolding select
select-got p q w h = ground arith

pub select-failed :
    (p q : Pool) (k : Wake) (e : PoolError) → select k p ≡ some (q, failed e) → q ≡ p
unfolding select
select-failed p q received e h = ground arith
select-failed p q timed_out e h = ground arith
select-failed p q ctx_done e h = ground arith

pub send-done :
    (p q : Pool) (w : ℕ) → send w p ≡ done q tt → q ≡ record p { available = p.available ++ w ∷ [] }
unfolding send
send-done p q w h = ground arith

pub scale_down-reap :
    (p q : Pool) (w busy total : ℕ)
    → scale_down busy total p ≡ done q (reap w ∷ [])
    → q ≡ record p { available = q.available } × (p.available ≡ w ∷ q.available)
unfolding scale_down
scale_down-reap p q w busy total h = ground arith

pub begin-reaped :
    (php : Php) (buffer : List ℕ) (req : Frame) (w : Worker)
    → (Worker.begin php buffer req w).0.reaped ≡ w.reaped
unfolding Worker.begin Worker.send_frame
begin-reaped php buffer req w = refl

receive_frame-reaped :
    (php : Php) (w worker : Worker) (r : Result _ Frame)
    → Worker.receive_frame php w ≡ returned worker r
    → worker.reaped ≡ w.reaped
unfolding Worker.receive_frame
receive_frame-reaped php w worker r h = ground arith

pub await-reaped :
    (php : Php) (w worker : Worker) (sent : Result WriteError (Unit {0}))
    (r : Result WorkerError Frame)
    → Worker.await php (w, sent) ≡ returned worker r
    → worker.reaped ≡ w.reaped
unfolding Worker.await Worker.receive_frame Worker.finish
await-reaped php w worker (err e) r h = ground arith
await-reaped php w worker (ok u) r h = ground arith

pub read_ready-reaped :
    (world : World) (w : ℕ) (worker worker' : Worker) (r : Result WorkerError (Unit {0}))
    → read_ready world w worker ≡ returned worker' r
    → worker'.reaped ≡ worker.reaped
unfolding read_ready Worker.receive_frame
read_ready-reaped world w worker worker' r h = ground arith

pub store-Same :
    (p : Pool) (w : ℕ) (worker : Worker)
    → worker.reaped ≡ (p.heap w).reaped
    → Same p (store w worker p)
unfolding store
store-Same p w worker h = record {
  same_workers = refl;
  same_id = refl;
  same_active = refl;
  same_closed = refl;
  same_cancelled = refl;
  same_reaped = λ x. ground (arith, h);
}
