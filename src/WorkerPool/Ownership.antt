-- ===== src/WorkerPool/Ownership.antt =====
-- Who owns the workers of internal/worker/pool.go, in every interleaving without a `Reload`.
mod Served
pub mod Steps
pub mod Start
pub mod Reached
pub mod Bound
use maboo.Base.{
  ℕ, zero, suc, ◌+◌, ◌-◌, ◌≤◌, ◌<◌, ◌≡◌, ◌≢◌, refl, sym, ap, ◌∙◌, inl, inr, Bool, true, false, List,
  [], ◌∷◌, ◌++◌, some, ltb, ◌==◌, if◌then◌else◌, length, String, arith, length-append, Bool-cases,
}
use maboo.Base.Results.{ok, err}
use maboo.WorkerPool.Ids.{
  mem, remove, count, count-cons, count-nil, count_last, count-mem, mem-count, count-remove,
  length-remove,
}
use maboo.WorkerPool.Pool.{
  Pool, Wake, PoolError, got, failed, replace, done, arrive, select, count_busy, received,
  timed_out, ctx_done, receive, got_nil, uncount_busy, run_worker, release, spawn_worker, send,
  reap, remove_worker, register, stop_worker,
}
use maboo.WorkerPool.Upkeep.{replace_begin, scale_down, reap_worker, take_idle}
use maboo.Engine.{EngineError}
use maboo.WorkerPool.Worker.{Worker, new_worker}
use maboo.WorkerPool.System.{
  System, Step, request, give_up, take_worker, run, give_back, wear_out, retire, respawn,
  respawn_fails, deliver, grow, grow_fails, shrink, reap_idle, cancel, halt, close,
}

-- The places of a worker in flight.
abbrev pub placed : ℕ → System → ℕ
placed x s =
    count x s.pool.available
    + count x s.holding
    + count x s.finished
    + count x s.retiring
    + count x s.stopping
    + count x s.arriving

abbrev pub sizes : System → ℕ
sizes s =
    length s.pool.available
    + length s.holding
    + length s.finished
    + length s.retiring
    + length s.stopping
    + length s.arriving

-- Every registered worker is in exactly one place and no other worker is anywhere; ids are new; the
-- counters that `Stats` reads are right.
pub record Inv (s : System) : Type 0 where
  pub owned : (x : ℕ) → count x s.pool.workers ≡ placed x s
  pub unique : (x : ℕ) → count x s.pool.workers ≤ 1
  pub fresh : (x : ℕ) → s.pool.next_id < x → count x s.pool.workers ≡ 0
  pub size : length s.pool.workers ≡ sizes s
  pub active : s.pool.active_workers ≡ length s.pool.workers
  pub busy : s.pool.busy_workers ≡ length s.holding + length s.finished

-- What each method does to the parts of the pool that the invariant reads.
pub record Same (p q : Pool) : Type 0 where
  pub same_workers : q.workers ≡ p.workers
  pub same_id : q.next_id ≡ p.next_id
  pub same_active : q.active_workers ≡ p.active_workers
  pub same_cfg : q.cfg ≡ p.cfg
  pub same_closed : q.closed ≡ p.closed
  pub same_heap : q.heap ≡ p.heap
  pub same_cancelled : q.cancelled ≡ p.cancelled
  pub same_busy : q.busy_workers ≡ p.busy_workers

pub spawn_worker-ok :
    (p q : Pool) (w : ℕ)
    → spawn_worker p ≡ (q, ok w)
    → (w ≡ p.next_id + 1)
      × (q.next_id ≡ w)
      × (q.workers ≡ p.workers ++ w ∷ [])
      × (q.available ≡ p.available)
      × (q.active_workers ≡ p.active_workers + 1)
      × (q.busy_workers ≡ p.busy_workers)
unfolding spawn_worker new_worker
spawn_worker-ok p q w h = ground arith

pub spawn_worker-err :
    (p q : Pool) (e : EngineError)
    → spawn_worker p ≡ (q, err e)
    → (q.next_id ≡ p.next_id + 1)
      × (q.workers ≡ p.workers)
      × (q.available ≡ p.available)
      × (q.active_workers ≡ p.active_workers)
      × (q.busy_workers ≡ p.busy_workers)
unfolding spawn_worker
spawn_worker-err p q e h = ground arith

pub select-got :
    (p q : Pool) (w : ℕ)
    → select received p ≡ some (q, got w)
    → (p.available ≡ w ∷ q.available) × Same p q
unfolding select
select-got p q w h = ground arith

pub select-failed :
    (p q : Pool) (k : Wake) (e : PoolError) → select k p ≡ some (q, failed e) → q ≡ p
unfolding select
select-failed p q received e h = ground arith
select-failed p q timed_out e h = ground arith
select-failed p q ctx_done e h = ground arith

pub release-back :
    (p q : Pool) (w : ℕ)
    → release w p ≡ done q []
    → (q.available ≡ p.available ++ w ∷ []) × Same p q
unfolding release
release-back p q w h = ground arith

pub release-worn : (p q : Pool) (w : ℕ) → release w p ≡ done q (replace w ∷ []) → q ≡ p
unfolding release
release-worn p q w h = ground arith

pub send-done :
    (p q : Pool) (w : ℕ) → send w p ≡ done q tt → (q.available ≡ p.available ++ w ∷ []) × Same p q
unfolding send
send-done p q w h = ground arith

pub scale_down-reap :
    (p q : Pool) (w busy total : ℕ)
    → scale_down busy total p ≡ (q, reap w ∷ [])
    → (p.available ≡ w ∷ q.available) × Same p q
unfolding scale_down
scale_down-reap p q w busy total h = ground arith
