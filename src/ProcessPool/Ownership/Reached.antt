-- ===== src/ProcessPool/Ownership/Reached.antt =====
-- What the ownership of workers gives a pool of internal/pool/pool.go that was started, whatever its
-- goroutines have done since.
use maboo.Base.{
  ℕ, ◌+◌, ◌≤◌, ◌<◌, ◌≡◌, true, false, List, [], ◌∷◌, ◌++◌, length, arith, length-append,
}
use maboo.Base.Results.{Result}
use maboo.WorkerPool.Ids.{
  mem, remove, count, count-cons, count-append, mem-count, count-remove, length-remove,
}
use maboo.ProcessPool.Worker.{WorkerError}
use maboo.ProcessPool.Pool.{Settings, Pool, World, done, new_pool, start, send, stats}
use maboo.ProcessPool.System.{System, at_rest}
use maboo.ProcessPool.System.Steps.{Reach}
use maboo.ProcessPool.Ownership.{disturbed, Inv, marks, in_use}
use maboo.ProcessPool.Ownership.Steps.{Reach-Inv, new_pool-Inv, start_loop-Inv}

-- A pool that `Start` has returned, and any history of its goroutines since.
pub data Running (world : World) (cfg : Settings) (s : System) : Type 0 where
  running :
      (q : Pool) (r : Result WorkerError (Unit {0}))
      → start world (new_pool cfg) ≡ done q r
      → Reach world (at_rest q) s
      → Running world cfg s

pub Running-Inv : (world : World) (cfg : Settings) (s : System) → Running world cfg s → Inv s
unfolding start
Running-Inv world cfg s (running q r e h) =
    Reach-Inv world (start_loop-Inv world _ (new_pool cfg) q r e (new_pool-Inv cfg)) h

-- Where every id occurs at least as often, the list is as long.
count-length : (xs ys : List ℕ) → ((x : ℕ) → count x xs ≤ count x ys) → length xs ≤ length ys
unfolding count
count-length [] ys h = omega arith
count-length (w ∷ ws) ys h =
    let here : mem w ys ≡ true = mem-count w ys (ground (arith, h w)) in
    omega (
      arith,
      length-remove w ys here,
      count-length ws (remove w ys) (λ x. ground (arith, h x, count-remove x w ys here)),
    )

-- The requests that hold this worker.
abbrev pub users : ℕ → System → ℕ
users x s = count x s.holding + count x s.answered + count x s.returning

-- In every state that a started pool reaches (health checks, `Reload` and `Stop` included) a worker
-- that a request holds is held by that request alone: no other request holds it, it is not in the
-- channel, and none of the goroutines that requests and `autoScale` start is about to stop it or to
-- take it off the list. Until a `Reload` stops a worker, or the shutdown, no goroutine of
-- `checkHealth` is either, and the worker is registered and not reaped.
pub served_alone :
    (world : World) (cfg : Settings) (s : System) (w : ℕ)
    → Running world cfg s
    → 0 < users w s
    → (users w s ≡ 1)
      × (count w s.pool.available ≡ 0)
      × (count w s.retiring + count w s.removing + count w s.stopping + count w s.unlisting ≡ 0)
      × (disturbed s ≡ false
          → (marks w s ≡ 0) × (mem w s.pool.workers ≡ true) × ((s.pool.heap w).reaped ≡ false))
served_alone world cfg s w r h =
    let v = (Running-Inv world cfg s r).each w in
    (
      omega (arith, v.alone),
      omega (arith, v.alone),
      omega (arith, v.alone),
      λ c. (
        ground (arith, v.spared c),
        mem-count w s.pool.workers (omega (arith, v.kept c)),
        v.fit c (omega arith),
      ),
    )

-- In every state that a started pool reaches before the shutdown, and before a `Reload` stops a
-- worker, with at most `max_workers` registered workers, a send of a worker that a request is done with, or that was just
-- made, neither waits nor panics: it succeeds at once.
pub returned_at_once :
    (world : World) (cfg : Settings) (s : System) (w : ℕ)
    → Running world cfg s
    → disturbed s ≡ false
    → length s.pool.workers ≤ s.pool.cfg.max_workers
    → 0 < count w s.returning + count w s.arriving
    → send w s.pool ≡ done (record s.pool { available = s.pool.available ++ w ∷ [] }) tt
unfolding send
returned_at_once world cfg s w r c few h =
    let v = Running-Inv world cfg s r in
    let fits : length (w ∷ s.pool.available) ≤ length s.pool.workers =
      count-length (w ∷ s.pool.available) s.pool.workers
        (λ x. ground (arith, (v.each x).kept c, count-cons x w s.pool.available, h)) in
    ground (arith, v.open_until (ground (arith, c)), fits)

-- Until a `Reload` or the shutdown the channel and the requests have no more workers than there are.
users_fit :
    (s : System)
    → Inv s
    → disturbed s ≡ false
    → length s.pool.available + in_use s ≤ length s.pool.workers
users_fit s v c =
    let served = s.answered ++ s.returning in
    let taken = s.holding ++ served in
    omega (
      arith,
      length-append s.pool.available taken,
      length-append s.holding served,
      length-append s.answered s.returning,
      count-length (s.pool.available ++ taken) s.pool.workers (λ x. omega (
        arith,
        (v.each x).kept c,
        count-append x s.pool.available taken,
        count-append x s.holding served,
        count-append x s.answered s.returning,
      )),
    )

-- In every state that a started pool reaches `Stats` counts as active just the registered workers and
-- as busy just the requests that hold one; until a `Reload` stops a worker, or the shutdown, the busy
-- and the idle ones make up the total, and the channel has no more workers than are idle.
pub stats-Running :
    (world : World) (cfg : Settings) (s : System)
    → Running world cfg s
    → let t = stats s.pool in
      (t.active_workers ≡ t.total_workers)
      × (t.busy_workers ≡ in_use s)
      × (disturbed s ≡ false
          → (t.busy_workers + t.idle_workers ≡ t.total_workers) × (t.queue_depth ≤ t.idle_workers))
unfolding stats
stats-Running world cfg s r =
    let v = Running-Inv world cfg s r in
    let b : s.pool.busy_workers ≡ in_use s = v.busy in
    (v.active, b, λ c. (omega (arith, b, users_fit s v c), omega (arith, b, users_fit s v c)))
