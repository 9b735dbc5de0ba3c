-- ===== src/WorkerPool/Ownership/Reached.antt =====
-- What the ownership of workers gives a pool of internal/worker/pool.go that was started, whatever
-- its goroutines have done since.
use maboo.Base.{ℕ, ◌+◌, ◌≤◌, ◌<◌, ◌≡◌, true, false, List, [], ◌∷◌, ◌++◌, length, String, arith}
use maboo.Base.Results.{Result}
use maboo.Engine.{EngineError}
use maboo.WorkerPool.Ids.{mem, count, mem-count, count-le-length}
use maboo.WorkerPool.Pool.{Settings, Pool, done, new_pool, start, send}
use maboo.WorkerPool.Upkeep.{stats}
use maboo.WorkerPool.System.{System, at_rest, Reach, here, next}
use maboo.WorkerPool.Ownership.{Inv}
use maboo.WorkerPool.Ownership.Start.{new_pool-Inv, start_loop-Inv}
use maboo.WorkerPool.Ownership.Steps.{Step-Inv}

pub Reach-Inv : (page : String → List ℕ) {s t : System} → Inv s → Reach page s t → Inv t
Reach-Inv page v here = v
Reach-Inv page v (next r st) = Step-Inv page st (Reach-Inv page v r)

-- A pool that `Start` has returned, and any history of its goroutines since.
pub data Started (page : String → List ℕ) (cfg : Settings) (s : System) : Type 0 where
  started :
      (q : Pool) (r : Result EngineError (Unit {0}))
      → start (new_pool cfg) ≡ done q r
      → Reach page (at_rest q) s
      → Started page cfg s

pub Started-Inv :
    (page : String → List ℕ) (cfg : Settings) (s : System) → Started page cfg s → Inv s
unfolding start
Started-Inv page cfg s (started q r e h) =
    Reach-Inv page (start_loop-Inv _ (new_pool cfg) q r e (new_pool-Inv cfg)) h

-- In every state that a started pool reaches (without a `Reload`) a worker that a request holds is
-- held by that request alone: no other request holds it, it is not in the channel, no goroutine is
-- about to stop it, and it is registered.
pub held_alone :
    (page : String → List ℕ) (cfg : Settings) (s : System) (w : ℕ)
    → Started page cfg s
    → 0 < count w s.holding + count w s.finished
    → (count w s.holding + count w s.finished ≡ 1)
      × (count w s.pool.available ≡ 0)
      × (count w s.retiring + count w s.stopping ≡ 0)
      × (mem w s.pool.workers ≡ true)
held_alone page cfg s w r h =
    let v = Started-Inv page cfg s r in
    let o = v.owned w in
    let u = v.unique w in
    (omega arith, omega arith, omega arith, mem-count w s.pool.workers (omega arith))

-- In every state that a started pool reaches (without a `Reload`) `Stats` is right: the active
-- workers are the registered ones, the busy workers are the requests that hold one, and busy and
-- idle workers make up the total.
pub stats-Started :
    (page : String → List ℕ) (cfg : Settings) (s : System)
    → Started page cfg s
    → let t = stats s.pool in
      (t.active_workers ≡ t.total_workers)
      × (t.busy_workers ≡ length s.holding + length s.finished)
      × (t.busy_workers + t.idle_workers ≡ t.total_workers)
      × (t.idle_workers
          ≡ length s.pool.available + length s.retiring + length s.stopping + length s.arriving)
unfolding stats
stats-Started page cfg s r =
    let v = Started-Inv page cfg s r in
    let b = v.busy in let z = v.size in (v.active, b, omega arith, omega arith)

-- In every state that a started pool reaches (without a `Reload`) with at most `max_workers`
-- registered workers, and the channel not yet closed, a send of a worker that a request has run or
-- that was just made does not wait: it succeeds at once.
pub send_never_blocks :
    (page : String → List ℕ) (cfg : Settings) (s : System) (w : ℕ)
    → Started page cfg s
    → s.pool.closed ≡ false
    → length s.pool.workers ≤ s.pool.cfg.max_workers
    → 0 < count w s.finished + count w s.arriving
    → send w s.pool ≡ done (record s.pool { available = s.pool.available ++ w ∷ [] }) tt
unfolding send
send_never_blocks page cfg s w r open' few h =
    let z = (Started-Inv page cfg s r).size in
    ground (arith, z, count-le-length w s.finished, count-le-length w s.arriving)
