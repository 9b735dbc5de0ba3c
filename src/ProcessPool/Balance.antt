-- ===== src/ProcessPool/Balance.antt =====
-- internal/pool/pool.go, one request after the other: where the workers are.
use maboo.Base.{
  ℕ, ◌+◌, ◌≤◌, ◌<◌, ◌≡◌, ◌⊎◌, refl, inl, inr, Bool, true, false, List, [], ◌∷◌, ◌++◌, ◌==◌,
  if◌then◌else◌, length, length-append, arith,
}
use maboo.Base.Results.{Result, ok, err}
use maboo.WorkerPool.Ids.{mem, count, count_last, count-remove, length-remove, mem-count}
use maboo.ProcessPool.Worker
use maboo.ProcessPool.Worker.{Worker, WorkerError, Php, Io, returned, waits}
use maboo.ProcessPool.Pool.{
  Pool, World, Run, done, blocked, silent, panicked, ◌>>=◌, Task, replace, send, store, stop_worker,
  remove_worker,
}
use maboo.ProcessPool.Serve.{Answer}

-- The pool, not shut down, with no request running: the channel holds just the registered workers, each once.
pub record Balanced (p : Pool) : Type 0 where
  pub same : (x : ℕ) → count x p.available ≡ count x p.workers
  pub unique : (x : ℕ) → count x p.workers ≤ 1
  pub known : (x : ℕ) → 0 < count x p.workers → x ≤ p.next_id
  pub sizes : length p.available ≡ length p.workers
  pub few : length p.workers ≤ p.cfg.max_workers
  pub no_busy : p.busy_workers ≡ 0
  pub active : p.active_workers ≡ length p.workers
  pub opened : p.closed ≡ false
  pub running : p.cancelled ≡ false

-- The same but for the worker `w`, which is registered and not in the channel.
pub record Lent (w : ℕ) (p : Pool) : Type 0 where
  pub others : (x : ℕ) → (if w == x then 1 else 0) + count x p.available ≡ count x p.workers
  pub unique : (x : ℕ) → count x p.workers ≤ 1
  pub known : (x : ℕ) → 0 < count x p.workers → x ≤ p.next_id
  pub sizes : length p.available + 1 ≡ length p.workers
  pub few : length p.workers ≤ p.cfg.max_workers
  pub no_busy : p.busy_workers ≡ 0
  pub active : p.active_workers ≡ length p.workers
  pub opened : p.closed ≡ false
  pub running : p.cancelled ≡ false

-- What holds of the result of a run, where it does not wait for a process that is silent when it is
-- read from; it does not panic, nor wait for the channel.
abbrev pub Silent : World → ℕ → Type 0
Silent world id = (w : Worker) × (Worker.receive_frame (world.php id) w ≡ waits)

abbrev pub Ends : {A : Type 0} → World → (Pool → A → Type 0) → Run A → Type 0
Ends world P (done p a) = P p a
Ends world P blocked = ⊥
Ends world P (silent w) = Silent world w
Ends world P panicked = ⊥

pub Ends-bind :
    {A B : Type 0} (world : World) (P : Pool → A → Type 0) (Q : Pool → B → Type 0) (r : Run A)
    (f : Pool → A → Run B)
    → Ends world P r
    → ((p : Pool) (a : A) → P p a → Ends world Q (f p a))
    → Ends world Q (r >>= f)
Ends-bind world P Q (done p a) f h k = k p a h
Ends-bind world P Q blocked f h k = absurd h
Ends-bind world P Q (silent w) f h k = h
Ends-bind world P Q panicked f h k = h

pub Ends-map :
    {A : Type 0} (world : World) (P Q : Pool → A → Type 0) (r : Run A)
    → Ends world P r
    → ((p : Pool) (a : A) → P p a → Q p a)
    → Ends world Q r
Ends-map world P Q (done p a) h k = k p a h
Ends-map world P Q blocked h k = absurd h
Ends-map world P Q (silent w) h k = h
Ends-map world P Q panicked h k = h

pub Ends-if :
    {A : Type 0} (world : World) (P : Pool → A → Type 0) (b : Bool) (r t : Run A)
    → Ends world P r
    → Ends world P t
    → Ends world P (if b then r else t)
Ends-if world P true r t h k = h
Ends-if world P false r t h k = k

-- The worker goes back.
pub Lent-send :
    (w : ℕ) (p : Pool)
    → Lent w p
    → (send w p ≡ done (record p { available = p.available ++ w ∷ [] }) tt)
      × Balanced (record p { available = p.available ++ w ∷ [] })
unfolding send
Lent-send w p l = (
  ground (arith, l.opened, l.sizes, l.few),
  record {
    same = λ x. omega (arith, count_last x w p.available, l.others x);
    unique = l.unique;
    known = l.known;
    sizes = omega (arith, length-append p.available (w ∷ []), l.sizes);
    few = l.few;
    no_busy = l.no_busy;
    active = l.active;
    opened = l.opened;
    running = l.running;
  },
)

-- The worker is stopped and taken off the list.
pub Lent-remove :
    (world : World) (w : ℕ) (p : Pool)
    → Lent w p
    → Balanced (remove_worker w (stop_worker world w p))
      × (length (remove_worker w (stop_worker world w p)).workers + 1 ≡ length p.workers)
      × (length (remove_worker w (stop_worker world w p)).workers
          < (remove_worker w (stop_worker world w p)).cfg.max_workers)
unfolding remove_worker stop_worker store
Lent-remove world w p l =
    let here : mem w p.workers ≡ true = mem-count w p.workers (ground (arith, l.others w)) in
    let size = length-remove w p.workers here in
    (
      record {
        same = λ x. ground (arith, here, count-remove x w p.workers here, l.others x);
        unique = λ x. ground (arith, here, count-remove x w p.workers here, l.unique x);
        known = λ x h. ground (arith, here, count-remove x w p.workers here, l.known x);
        sizes = ground (arith, here, size, l.sizes);
        few = ground (arith, here, size, l.few);
        no_busy = ground (arith, here, l.no_busy);
        active = ground (arith, here, size, l.active);
        opened = ground (arith, here, l.opened);
        running = ground (arith, here, l.running);
      },
      ground (arith, here, size),
      ground (arith, here, size, l.few),
    )

pub Io-cases : {A : Type 0} (r : Io A) → (r ≡ waits) ⊎ ((w : Worker) × (a : A) × (r ≡ returned w a))
Io-cases (returned w a) = inr (w, a, refl)
Io-cases waits = inl refl

pub Result-cases :
    {E A : Type 0} (r : Result E A) → ((a : A) × (r ≡ ok a)) ⊎ ((e : E) × (r ≡ err e))
Result-cases (ok a) = inl (a, refl)
Result-cases (err e) = inr (e, refl)

-- What a request leaves: no goroutine and the pool in balance, or a goroutine that replaces the
-- worker that it had.
abbrev pub Settled : Pool → List Task → Type 0
Settled q [] = Balanced q
Settled q (replace w ∷ []) = Lent w q
Settled q tasks = ⊥

abbrev pub Left : ℕ → Pool → Answer → Type 0
Left n q (r, tasks) = Settled q tasks × (length q.workers ≡ n)

pub Lent-store : (w : ℕ) (worker : Worker) (v : ℕ) (p : Pool) → Lent w p → Lent w (store v worker p)
unfolding store
Lent-store w worker v p l = record {
  others = l.others;
  unique = l.unique;
  known = l.known;
  sizes = l.sizes;
  few = l.few;
  no_busy = l.no_busy;
  active = l.active;
  opened = l.opened;
  running = l.running;
}
