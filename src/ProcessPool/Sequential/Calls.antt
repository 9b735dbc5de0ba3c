-- ===== src/ProcessPool/Sequential/Calls.antt =====
-- internal/pool/pool.go: histories of the interleaved steps, and one for the worker's own `Exec`.
use maboo.Base.{ℕ, ◌≡◌, ◌⊎◌, ap, subst, ◌∙◌, true, List, [], ◌∷◌, arith}
use maboo.Base.Results.{Result}
use maboo.Protocol.Wire.{Frame}
use maboo.WorkerPool.Ids.{mem}
use maboo.ProcessPool.Worker
use maboo.ProcessPool.Worker.{Worker, WorkerError, Io, returned, waits}
use maboo.ProcessPool.Pool.{Pool, World, Task, replace, store}
use maboo.ProcessPool.System.{System, Call, called, begun, ended, set_call}
use maboo.ProcessPool.System.Steps.{Reach, here, next, exec_begins, exec_returns}

pub Reach-trans :
    (world : World) {s t u : System} → Reach world s t → Reach world t u → Reach world s u
Reach-trans world r here = r
Reach-trans world r (next q st) = next (Reach-trans world r q) st

pub store-store : (w : ℕ) (a b : Worker) (p : Pool) → store w a (store w b p) ≡ store w a p
unfolding store
store-store w a b p = ap (λ (heap : ℕ → Worker). record p { heap = heap }) (λ i j. same_at j i)
  where
    same_at : (j : ℕ) → (store w a (store w b p)).heap j ≡ (store w a p).heap j
    same_at j = ground arith

pub store-heap : (w : ℕ) (a : Worker) (p : Pool) → (store w a p).heap w ≡ a
unfolding store
store-heap w a p = ground arith

pub set_call-same : (w : ℕ) (c : Call) (calls : ℕ → Call) → set_call w c calls w ≡ c
set_call-same w c calls = ground arith

-- A history from here to a state with this pool, in which no `Reload` stops a worker.
abbrev pub Gets : World → System → Pool → Type 0
Gets world s p = (t : System) × Reach world s t × (t.pool ≡ p) × (t.reloaded ≡ s.reloaded)

-- The worker's own `Exec`, from its start to its end.
pub exec_runs :
    (world : World) (s : System) (w : ℕ) (req : Frame) (worker : Worker)
    (r : Result WorkerError Frame)
    → s.calls w ≡ called req
    → Worker.await (world.php w) (Worker.begin (world.php w) world.buffer req (s.pool.heap w))
      ≡ returned worker r
    → (calls : ℕ → Call) × (calls w ≡ ended req r)
      × Reach world s (record s { pool = store w worker s.pool; calls = calls })
exec_runs world s w req worker r c e =
    let sent = Worker.begin (world.php w) world.buffer req (s.pool.heap w) in
    let written : System = record s {
      pool = store w sent.0 s.pool;
      calls = set_call w (begun req sent.1) s.calls;
    } in
    let calls : ℕ → Call = set_call w (ended req r) written.calls in
    (
      calls,
      set_call-same w (ended req r) written.calls,
      subst (λ p. Reach world s (record s { pool = p; calls = calls }))
          (store-store w worker sent.0 s.pool)
          (next (next here (exec_begins s w req c)) (
            exec_returns written w req sent.1 worker r (set_call-same w (begun req sent.1) s.calls)
              (ap (λ x. Worker.await (world.php w) (x, sent.1)) (store-heap w sent.0 s.pool) ∙ e))),
    )

-- What a request leaves: no goroutine, or one that is to replace a worker.
abbrev pub Leaves : World → System → Pool → List Task → Type 0
Leaves world s p tasks =
    (t : System) × Reach world s t
    × (t.pool ≡ p)
    × (t.reloaded ≡ s.reloaded)
    × ((tasks ≡ []) ⊎ ((w : ℕ) × (tasks ≡ replace w ∷ []) × (mem w t.retiring ≡ true)))

pub Leaves-after :
    (world : World) {s t : System} {p : Pool} {tasks : List Task}
    → Reach world s t
    → t.reloaded ≡ s.reloaded
    → Leaves world t p tasks
    → Leaves world s p tasks
Leaves-after world r k (u, q, e, m, l) = (u, Reach-trans world r q, e, m ∙ k, l)
