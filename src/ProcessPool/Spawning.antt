-- ===== src/ProcessPool/Spawning.antt =====
-- internal/pool/pool.go: `spawnWorker` and `replaceWorker` keep the balance.
use maboo.Base.{
  ℕ, ◌+◌, ◌≤◌, ◌<◌, ◌≡◌, refl, inl, inr, false, [], ◌∷◌, length, length-append, arith, Option-cases,
}
use maboo.Base.Results.{Result, ok, err}
use maboo.WorkerPool.Ids.{count, count_last}
use maboo.ProcessPool.Worker
use maboo.ProcessPool.Worker.{Worker, WorkerError, Php, Io, returned, waits}
use maboo.ProcessPool.Pool.{
  Pool, World, store, register, spawn_worker, stop_worker, remove_worker, refill, replace_worker,
  deliver,
}
use maboo.ProcessPool.Balance.{
  Balanced, Lent, Silent, Ends, Ends-bind, Ends-map, Ends-if, Lent-send, Lent-remove, Io-cases,
  Result-cases,
}

-- `NewWorker` waits for ever on a silent process only.
new_worker-waits :
    (world : World) (id : ℕ)
    → Worker.new_worker (world.php id) (world.launch id) id ≡ waits
    → Silent world id
unfolding Worker.new_worker
new_worker-waits world id h = elim (Option-cases (world.launch id)) [
  | inl e ↦ absurd (ground (arith, e, h))
  | inr (stdin, e) ↦
      let w : Worker = record {
        id = id;
        stdin = stdin;
        stdout = (world.php id).emits [] [];
        reaped = false;
        state = Worker.idle;
        jobs = 0;
      } in
      elim (Io-cases (Worker.receive_frame (world.php id) w)) [
        | inl f ↦ (w, f)
        | inr (w', r, f) ↦ absurd (ground (arith, e, f, h))
      ]
]

-- A new worker is registered, or nothing but the counter has changed.
unfoldable pub Spawned : Pool → Pool → Result WorkerError ℕ → Type 0
Spawned p q (ok w) = Lent w q × (length q.workers ≡ length p.workers + 1) × (q.cfg ≡ p.cfg)
Spawned p q (err e) = Balanced q × (length q.workers ≡ length p.workers)

register-Lent :
    (worker : Worker) (p : Pool)
    → Balanced p
    → length p.workers < p.cfg.max_workers
    → Lent (p.next_id + 1) (register (p.next_id + 1) worker (record p { next_id = p.next_id + 1 }))
unfolding register store
register-Lent worker p b room =
    let id = p.next_id + 1 in
    let fresh : count id p.workers ≡ 0 = ground (arith, b.known id) in
    record {
      others = λ x. omega (arith, count_last x id p.workers, b.same x);
      unique = λ x. ground (arith, count_last x id p.workers, b.unique x, fresh);
      known = λ x h. ground (arith, count_last x id p.workers, b.known x);
      sizes = omega (arith, length-append p.workers (id ∷ []), b.sizes);
      few = omega (arith, length-append p.workers (id ∷ []));
      no_busy = b.no_busy;
      active = omega (arith, length-append p.workers (id ∷ []), b.active);
      opened = b.opened;
      running = b.running;
    }

Balanced-next_id : (p : Pool) → Balanced p → Balanced (record p { next_id = p.next_id + 1 })
Balanced-next_id p b = record {
  same = b.same;
  unique = b.unique;
  known = λ x h. omega (arith, b.known x h);
  sizes = b.sizes;
  few = b.few;
  no_busy = b.no_busy;
  active = b.active;
  opened = b.opened;
  running = b.running;
}

pub spawn_worker-Ends :
    (world : World) (p : Pool)
    → Balanced p
    → length p.workers < p.cfg.max_workers
    → Ends world (Spawned p) (spawn_worker world p)
unfolding spawn_worker Spawned
spawn_worker-Ends world p b room =
    let id = p.next_id + 1 in
    let made = Worker.new_worker (world.php id) (world.launch id) id in
    elim (Io-cases made) [
      | inl e ↦ rw e (new_worker-waits world id e)
      | inr (worker, r, e) ↦ elim (Result-cases r) [
        | inl (u, f) ↦
            rw (e, f)
              (
                register-Lent worker p b room,
                unfold register in omega (arith, length-append p.workers (id ∷ [])),
                unfold register in refl,
              )
        | inr (x, f) ↦ rw (e, f) (Balanced-next_id p b, refl)
      ]
    ]

-- In balance, with at most `n` workers.
abbrev pub Within : ℕ → Pool → Unit {0} → Type 0
Within n q u = Balanced q × (length q.workers ≤ n)

refill-Ends :
    (world : World) (q : Pool)
    → Balanced q
    → length q.workers < q.cfg.max_workers
    → Ends world (Within (length q.workers + 1)) (refill world q)
unfolding refill Spawned
refill-Ends world q b room =
    Ends-if world (Within (length q.workers + 1)) q.cancelled _ _ (b, omega arith)
      (Ends-bind world (Spawned q) (Within (length q.workers + 1)) (spawn_worker world q) deliver
        (spawn_worker-Ends world q b room)
        (λ t r s.
          elim r
              as (λ r. Spawned q t r → Ends world (Within (length q.workers + 1)) (deliver t r)) [
                | ok w ↦ λ s. rw ((Lent-send w t s.0).0) ((Lent-send w t s.0).1, omega (arith, s.1))
                | err e ↦ λ s. (s.0, omega (arith, s.1))
              ]
            s))

-- `replaceWorker` on a worker that a request gives up.
pub replace_worker-Ends :
    (world : World) (w : ℕ) (p : Pool)
    → Lent w p
    → Ends world (Within (length p.workers)) (replace_worker world w p)
unfolding replace_worker
replace_worker-Ends world w p l =
    let (b, size, room) = Lent-remove world w p l in
    Ends-map world (Within _) (Within (length p.workers))
      (refill world (remove_worker w (stop_worker world w p)))
      (refill-Ends world (remove_worker w (stop_worker world w p)) b room)
      (λ q u h. (h.0, omega (arith, h.1, size)))
