-- ===== src/ProcessPool/Requests.antt =====
-- `Exec` of internal/pool/pool.go, on every path, and the goroutine that it leaves.
use maboo.Base.{
  some_inj, ℕ, ◌≤◌, ◌≡◌, refl, ap, subst, inl, inr, List, [], ◌∷◌, ◌++◌, Option, none, some, length,
  arith, Option-cases,
}
use maboo.Base.Results.{Result, ok, err}
use maboo.Protocol.Wire.{Frame}
use maboo.WorkerPool.Ids.{count, count-cons}
use maboo.ProcessPool.Worker
use maboo.ProcessPool.Worker.{Worker, WorkerError, Php, Io, returned, waits}
use maboo.ProcessPool.Pool.{
  Pool, World, Run, done, ◌>>=◌, Task, replace, reap, drain, send, store, replace_worker,
  count_busy, uncount_busy, needs_recycle,
}
use maboo.ProcessPool.Serve.{
  PoolError, request_timeout, Wake, received, timed_out, ctx_done, Finish, completed, too_late,
  cancelled, exec, after_select, serve, after_exec, read_ready, Answer, arrive, select, receive,
}
use maboo.ProcessPool.Balance.{
  Balanced, Lent, Silent, Ends, Ends-bind, Ends-if, Lent-send, Lent-store, Left, Io-cases,
  Result-cases,
}
use maboo.ProcessPool.Spawning.{replace_worker-Ends, Within}

abbrev pub map_some : {A B : Type 0} → (A → B) → Option A → Option B
map_some f none = none
map_some f (some a) = some (f a)

-- The worker that a request runs on, while the request is counted.
abbrev Held : ℕ → Pool → Type 0
Held w p = Lent w (uncount_busy p)

Held-store : (w : ℕ) (worker : Worker) (p : Pool) → Held w p → Held w (store w worker p)
unfolding uncount_busy store
Held-store w worker p l = Lent-store w worker w (uncount_busy p) l

Held-send :
    (w : ℕ) (p : Pool)
    → Held w p
    → (send w p ≡ done (record p { available = p.available ++ w ∷ [] }) tt)
      × Balanced (uncount_busy (record p { available = p.available ++ w ∷ [] }))
unfolding send uncount_busy
Held-send w p l = (ground (arith, l.opened, l.sizes, l.few), (Lent-send w (uncount_busy p) l).1)

read_ready-waits :
    (world : World) (w : ℕ) (worker : Worker) → read_ready world w worker ≡ waits → Silent world w
unfolding read_ready
read_ready-waits world w worker h = elim (Io-cases (Worker.receive_frame (world.php w) worker)) [
  | inl e ↦ (worker, e)
  | inr (worker', r, e) ↦ absurd (ground (arith, e, h))
]

after_exec-Ends :
    (world : World) (w : ℕ) (p : Pool) (worker : Worker) (r : Result WorkerError Frame)
    → Held w p
    → Ends world (Left (length p.workers)) (after_exec world w p worker r)
unfolding after_exec store uncount_busy
after_exec-Ends world w p worker (err e) l = (Held-store w worker p l, refl)
after_exec-Ends world w p worker (ok resp) l =
    Ends-if world (Left (length p.workers)) (needs_recycle p worker) _ _
      (Held-store w worker p l, refl)
      (elim (Io-cases (read_ready world w worker)) [
        | inl e ↦ rw e (read_ready-waits world w worker e)
        | inr (worker', r, e) ↦ elim (Result-cases r) [
          | inl (u, f) ↦
              let h = Held-store w worker' p l in
              rw (e, f, (Held-send w (store w worker' p) h).0)
                ((Held-send w (store w worker' p) h).1, refl)
          | inr (x, f) ↦ rw (e, f) (Held-store w worker' p l, refl)
        ]
      ])

-- The received worker is held.
receive-Held :
    (p : Pool) (w : ℕ) (rest : List ℕ)
    → Balanced p
    → p.available ≡ w ∷ rest
    → Held w (count_busy (record (arrive p) { available = rest }))
unfolding arrive count_busy uncount_busy
receive-Held p w rest b e = record {
  others = λ x. omega (arith, b.same x, ap (count x) e, count-cons x w rest);
  unique = b.unique;
  known = b.known;
  sizes = omega (arith, b.sizes, ap length e);
  few = b.few;
  no_busy = omega (arith, b.no_busy);
  active = b.active;
  opened = b.opened;
  running = b.running;
}

Balanced-arrive : (p : Pool) → Balanced p → Balanced (arrive p)
unfolding arrive
Balanced-arrive p b = record {
  same = b.same;
  unique = b.unique;
  known = b.known;
  sizes = b.sizes;
  few = b.few;
  no_busy = b.no_busy;
  active = b.active;
  opened = b.opened;
  running = b.running;
}

serve-Ends :
    (world : World) (finish : Finish) (req : Frame) (w : ℕ) (p : Pool) (r : Run Answer)
    → Held w (count_busy p)
    → serve world finish req w p ≡ some r
    → Ends world (Left (length p.workers)) r
unfolding serve count_busy uncount_busy store
serve-Ends world completed req w p r l h =
    let sent = Worker.begin (world.php w) world.buffer req (p.heap w) in
    elim (Io-cases (Worker.await (world.php w) sent)) [
      | inl e ↦ absurd (ground (arith, e, h))
      | inr (worker, x, e) ↦
          subst (Ends world (Left (length p.workers))) (ground (arith, e, h))
            (after_exec-Ends world w (count_busy p) worker x l)
    ]
serve-Ends world too_late req w p r l h =
    let sent = Worker.begin (world.php w) world.buffer req (p.heap w) in
    subst (Ends world (Left (length p.workers)))
      {x = done (uncount_busy (store w sent.0 (count_busy p)))
        (err request_timeout, replace w ∷ [])}
      (ground (arith, h)) (Held-store w sent.0 (count_busy p) l, refl)
serve-Ends world cancelled req w p r l h = absurd (ground (arith, h, l.running))

received-Ends :
    (world : World) (finish : Finish) (req : Frame) (p : Pool) (xs : List ℕ) (r : Run Answer)
    → Balanced p
    → p.available ≡ xs
    → after_select world finish req (receive (arrive p) xs) ≡ some r
    → Ends world (Left (length p.workers)) r
unfolding after_select arrive
received-Ends world finish req p [] r b e h = absurd (ground (arith, h, b.opened))
received-Ends world finish req p (w ∷ rest) r b e h =
    serve-Ends world finish req w (record (arrive p) { available = rest }) r
      (receive-Held p w rest b e) h

exec-Ends :
    (world : World) (wake : Wake) (finish : Finish) (req : Frame) (p : Pool) (r : Run Answer)
    → Balanced p
    → exec world wake finish req p ≡ some r
    → Ends world (Left (length p.workers)) r
unfolding exec after_select select arrive
exec-Ends world timed_out finish req p r b h =
    subst (Ends world (Left (length p.workers))) (some_inj _ _ h) (Balanced-arrive p b, refl)
exec-Ends world ctx_done finish req p r b h = absurd (ground (arith, h, b.running))
exec-Ends world received finish req p r b h =
    received-Ends world finish req p p.available r b refl h

-- A request, then the goroutine that it left, to its end.
abbrev pub run_task : World → List Task → Pool → Run (Unit {0})
run_task world (replace w ∷ []) q = replace_worker world w q
run_task world tasks q = done q tt

unfoldable pub round : World → Wake → Finish → Frame → Pool → Option (Run (Result PoolError Frame))
round world wake finish req p =
    map_some (λ r. r >>= λ q a. run_task world a.1 q >>= λ t _. done t a.0)
      (exec world wake finish req p)

-- Requests one after the other, each on a case of its `select` that is ready, and each with its goroutine.
pub data History (world : World) (p : Pool) : Pool → Type 0 where
  nothing : History world p p
  then_round :
      {q t : Pool} (wake : Wake) (finish : Finish) (req : Frame) (a : Result PoolError Frame)
      → History world p q
      → round world wake finish req q ≡ some (done t a)
      → History world p t

Left-settles :
    (world : World) (n : ℕ) (q : Pool) (a : Answer)
    → Left n q a
    → Ends world
        (λ t (b : Result PoolError Frame). Balanced t × (length t.workers ≤ n))
        (run_task world a.1 q >>= λ t _. done t a.0)
Left-settles world n q (r, []) l = (l.0, omega (arith, l.1))
Left-settles world n q (r, replace w ∷ []) l =
    Ends-bind world (Within (length q.workers)) _ (replace_worker world w q) (λ t _. done t r)
      (replace_worker-Ends world w q l.0) (λ t u k. (k.0, omega (arith, k.1, l.1)))
Left-settles world n q (r, replace w ∷ (t ∷ ts)) l = absurd l.0
Left-settles world n q (r, reap w ∷ ts) l = absurd l.0
Left-settles world n q (r, drain ws ∷ ts) l = absurd l.0

pub round-Ends :
    (world : World) (wake : Wake) (finish : Finish) (req : Frame) (p : Pool)
    (r : Run (Result PoolError Frame))
    → Balanced p
    → round world wake finish req p ≡ some r
    → Ends world
        (λ t (b : Result PoolError Frame). Balanced t × (length t.workers ≤ length p.workers))
        r
unfolding round
round-Ends world wake finish req p r b h = elim (Option-cases (exec world wake finish req p)) [
  | inl e ↦ absurd (ground (arith, e, h))
  | inr (x, e) ↦
      subst
        (Ends world
          (λ t (b : Result PoolError Frame). Balanced t × (length t.workers ≤ length p.workers)))
        (ground (arith, e, h))
        (Ends-bind world (Left (length p.workers)) _ x
          (λ q a. run_task world a.1 q >>= λ t _. done t a.0)
          (exec-Ends world wake finish req p x b e)
          (λ q a l. Left-settles world (length p.workers) q a l))
]
