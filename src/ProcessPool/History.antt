-- ===== src/ProcessPool/History.antt =====
-- internal/pool/pool.go from its start on, one request after the other.
use maboo.Base.{ℕ, zero, suc, ◌+◌, ◌≤◌, ◌≡◌, refl, ap, subst, [], ◌∷◌, ◌++◌, some, length, arith}
use maboo.Base.Results.{Result, ok, err}
use maboo.Protocol.Wire.{Frame}
use maboo.WorkerPool.Ids.{count-nil}
use maboo.ProcessPool.Worker.{WorkerError}
use maboo.ProcessPool.Pool.{
  Settings, Pool, World, Run, done, new_pool, start_loop, start, spawn_worker, then_send,
}
use maboo.ProcessPool.Serve.{PoolError, Wake, Finish}
use maboo.ProcessPool.Balance.{Balanced, Ends, Ends-bind, Ends-map, Lent-send}
use maboo.ProcessPool.Spawning.{Spawned, spawn_worker-Ends}
use maboo.ProcessPool.Requests.{round, round-Ends, History, nothing, then_round}

new_pool-Balanced : (cfg : Settings) → Balanced (new_pool cfg)
unfolding new_pool
new_pool-Balanced cfg = record {
  same = λ x. refl;
  unique = λ x. omega (arith, count-nil x);
  known = λ x h. omega (arith, count-nil x);
  sizes = refl;
  few = omega arith;
  no_busy = refl;
  active = refl;
  opened = refl;
  running = refl;
}

-- In balance, and with `n` workers if all were made.
abbrev Filled : ℕ → Pool → Result WorkerError (Unit {0}) → Type 0
Filled n q (ok u) = Balanced q × (length q.workers ≡ n)
Filled n q (err e) = Balanced q

start_loop-Ends :
    (world : World) (n : ℕ) (p : Pool)
    → Balanced p
    → length p.workers + n ≤ p.cfg.max_workers
    → Ends world (Filled (length p.workers + n)) (start_loop world n p)
unfolding start_loop Spawned
start_loop-Ends world zero p b room = (b, omega arith)
start_loop-Ends world (suc n) p b room =
    Ends-bind world (Spawned p) (Filled (length p.workers + suc n)) (spawn_worker world p)
      (then_send (start_loop world n)) (spawn_worker-Ends world p b (omega arith))
      (λ t r s.
        elim r
            as (λ r.
              Spawned p t r
              → Ends world (Filled (length p.workers + suc n))
                  (then_send (start_loop world n) t r)) [
                    | ok w ↦ λ s.
                        let (sent, balanced) = Lent-send w t s.0 in
                        let room' = ap (λ (c : Settings). c.max_workers) s.2 in
                        rw sent (
                          subst
                            (λ k.
                              Ends world (Filled k) (
                                start_loop world n
                                  (record t { available = t.available ++ w ∷ [] })))
                            (omega (arith, s.1))
                            (start_loop-Ends world n
                              (record t { available = t.available ++ w ∷ [] }) balanced
                              (omega (arith, s.1, room'))))
                    | err e ↦ λ s. s.0
                  ]
          s)

pub started-Balanced :
    (world : World) (cfg : Settings) (p : Pool)
    → start world (new_pool cfg) ≡ done p (ok tt)
    → cfg.min_workers ≤ cfg.max_workers
    → Balanced p × (length p.workers ≡ cfg.min_workers)
unfolding start new_pool
started-Balanced world cfg p h room =
    let (b, size) = subst (Ends world (Filled (0 + cfg.min_workers))) {y = done p (ok tt)} h (
      start_loop-Ends world cfg.min_workers (new_pool cfg) (new_pool-Balanced cfg) (omega arith)) in
    (b, omega (arith, size))

pub History-Balanced :
    (world : World) (p q : Pool)
    → History world p q
    → Balanced p
    → Balanced q × (length q.workers ≤ length p.workers)
History-Balanced world p q nothing b = (b, omega arith)
History-Balanced world p q (then_round {q = r} wake finish req a hist e) b =
    let (c, few) = History-Balanced world p r hist b in
    let (d, fewer) = round-Ends world wake finish req r (done q a) c e in (d, omega arith)

-- After a start that went well and any requests, each with the goroutine that it left, one more
-- request neither panics nor waits for room in the channel, and unless it waits for a process that
-- keeps silent, it leaves the channel holding just the registered workers, each once, none counted
-- busy and at most `min_workers` in all.
pub requests_keep_workers :
    (world : World) (cfg : Settings) (p q : Pool) (wake : Wake) (finish : Finish) (req : Frame)
    (r : Run (Result PoolError Frame))
    → start world (new_pool cfg) ≡ done p (ok tt)
    → cfg.min_workers ≤ cfg.max_workers
    → History world p q
    → round world wake finish req q ≡ some r
    → Ends world
        (λ t (a : Result PoolError Frame). Balanced t × (length t.workers ≤ cfg.min_workers))
        r
requests_keep_workers world cfg p q wake finish req r h room hist e =
    let (b, size) = started-Balanced world cfg p h room in
    let (c, few) = History-Balanced world p q hist b in
    Ends-map world _ _ r (round-Ends world wake finish req q r c e)
      (λ t a k. (k.0, omega (arith, k.1, few, size)))
