-- ===== src/WorkerPool/Ownership/Start.antt =====
-- `Start` of internal/worker/pool.go, and the loop that `Reload` shares with it.
use maboo.Base.{
  All, List, sym, ap, ℕ, zero, suc, ◌+◌, ◌≤◌, ◌<◌, ◌≡◌, ◌⊎◌, refl, ap, ◌∙◌, inl, inr, true, false,
  [], ◌∷◌, ◌++◌, length, arith, length-append, subst,
}
use mathlib.Core.List.{append-nil, append_assoc}
use maboo.Base.Results.{Result, ok, err}
use maboo.Engine.{EngineError, contains, valid_versions, new_engine}
use maboo.WorkerPool.Worker.{Worker, WorkerState, new_worker}
use maboo.WorkerPool.Ids.{remove, count, count-nil}
use maboo.WorkerPool.Pool.{
  Settings, Pool, Run, done, blocked, panicked, ◌>>=◌, new_pool, spawn_worker, send, register,
  spawn_send, start_loop, start,
}
use maboo.WorkerPool.System.{at_rest}
use maboo.WorkerPool.Ownership.{Inv}
use maboo.WorkerPool.Ownership.Steps.{spawn-Inv, spawn_fails-Inv, deliver-Inv}

pub new_pool-Inv : (cfg : Settings) → Inv (at_rest (new_pool cfg))
unfolding new_pool
new_pool-Inv cfg = record {
  owned = λ x. omega (arith, count-nil x);
  unique = λ x. omega (arith, count-nil x);
  fresh = λ x h. count-nil x;
  size = refl;
  active = refl;
  busy = refl;
}

remove_only : (w : ℕ) → remove w (w ∷ []) ≡ []
unfolding remove
remove_only w = ground arith

-- One worker more, made and sent.
added-Inv :
    (p q r : Pool) (w : ℕ)
    → spawn_worker p ≡ (q, ok w)
    → send w q ≡ done r tt
    → Inv (at_rest p)
    → Inv (at_rest r)
added-Inv p q r w made sent v =
    let arrived =
      deliver-Inv (record (at_rest q) { arriving = w ∷ [] }) w r
        (spawn-Inv (at_rest p) w q v 0 made) (unfold maboo.WorkerPool.Ids.mem in ground arith)
        sent in
    subst (λ l. Inv (record (at_rest r) { arriving = l })) (remove_only w) arrived

abbrev Rest : Type 0
Rest = Pool → Run (Result EngineError (Unit {0}))

-- A round that returns either ends the loop on a failed spawn, or sends one worker and goes on.
abbrev pub Round : Pool → Rest → Pool → Result EngineError (Unit {0}) → Type 0
Round p rest q r =
    ((e : EngineError) × (spawn_worker p ≡ (q, err e)) × (r ≡ err e))
    ⊎ ((w : ℕ) × (p' : Pool) × (p'' : Pool) × (spawn_worker p ≡ (p', ok w))
        × (send w p' ≡ done p'' tt)
        × (rest p'' ≡ done q r))

sent-Round :
    (p q : Pool) (rest : Rest) (r : Result EngineError (Unit {0})) (w : ℕ) (x : Run (Unit {0}))
    → (spawn_worker p).1 ≡ ok w
    → send w (spawn_worker p).0 ≡ x
    → (x >>= λ t _. rest t) ≡ done q r
    → Round p rest q r
sent-Round p q rest r w (done p'' u) e f h =
    inr (w, (spawn_worker p).0, p'', ap (λ t. ((spawn_worker p).0, t)) e, f, h)
sent-Round p q rest r w blocked e f h = cc
sent-Round p q rest r w panicked e f h = cc

made-Round :
    (p q : Pool) (rest : Rest) (r : Result EngineError (Unit {0})) (x : Result EngineError ℕ)
    → (spawn_worker p).1 ≡ x
    → spawn_send p rest ≡ done q r
    → Round p rest q r
unfolding spawn_send
made-Round p q rest r (ok w) e h =
    sent-Round p q rest r w (send w (spawn_worker p).0) e refl (rw (e, spawn_send) at h)
made-Round p q rest r (err x) e h =
    let k : ◌≡◌ {A = Run (Result EngineError (Unit {0}))} (done (spawn_worker p).0 (err x))
        (done q r) =
      rw (e, spawn_send) at h in
    inl (x, ground arith, ground arith)

pub spawn_send-Round :
    (p q : Pool) (rest : Rest) (r : Result EngineError (Unit {0}))
    → spawn_send p rest ≡ done q r
    → Round p rest q r
spawn_send-Round p q rest r h = made-Round p q rest r (spawn_worker p).1 refl h

pub start_loop-Inv :
    (n : ℕ) (p q : Pool) (r : Result EngineError (Unit {0}))
    → start_loop n p ≡ done q r
    → Inv (at_rest p)
    → Inv (at_rest q)
unfolding start_loop
start_loop-Inv zero p q r h v = subst (λ t. Inv (at_rest t)) (ground arith) v
start_loop-Inv (suc n) p q r h v = elim (spawn_send-Round p q (start_loop n) r h) [
  | inl (e, made, _) ↦ spawn_fails-Inv (at_rest p) q e 0 made v
  | inr (w, p', p'', made, sent, rest) ↦
      start_loop-Inv n p'' q r rest (added-Inv p p' p'' w made sent v)
]

-- The worker that `spawnWorker` makes for a version that `NewEngine` takes.
abbrev pub made : Pool → Worker
made p = record {
  id = p.next_id + 1;
  engine = record { version = p.cfg.version; started = false };
  state = WorkerState.idle;
  jobs = 0;
  max_jobs = p.cfg.max_jobs;
}

-- The pool with one worker more, made and sent.
abbrev pub added : Pool → Pool
added p =
    let q = register (made p) (record p { next_id = p.next_id + 1 }) in
    record q { available = q.available ++ (p.next_id + 1) ∷ [] }

pub spawn_worker-made :
    (p : Pool)
    → contains p.cfg.version valid_versions ≡ true
    → spawn_worker p
      ≡ (register (made p) (record p { next_id = p.next_id + 1 }), ok (p.next_id + 1))
unfolding spawn_worker new_worker new_engine
spawn_worker-made p v = ground arith

pub spawn_send-added :
    (p : Pool) (rest : Rest)
    → contains p.cfg.version valid_versions ≡ true
    → p.closed ≡ false
    → length p.available < p.cfg.max_workers
    → spawn_send p rest ≡ rest (added p)
unfolding spawn_send new_worker new_engine
spawn_send-added p rest v open' room = ground arith

-- `q` is `p` with the workers `news` made and sent.
pub record Filled (p q : Pool) (news : List ℕ) : Type 0 where
  pub sent : q.available ≡ p.available ++ news
  pub kept : q.workers ≡ p.workers ++ news
  pub new : All (λ x. p.next_id < x) news
  pub cfg_same : q.cfg ≡ p.cfg
  pub closed_same : q.closed ≡ p.closed

All-lt-weaken : (m n : ℕ) (xs : List ℕ) → m ≤ n → All (λ x. n < x) xs → All (λ x. m < x) xs
All-lt-weaken m n [] h a = tt
All-lt-weaken m n (x ∷ xs) h a = (omega arith, All-lt-weaken m n xs h a.1)

Filled-added :
    (p q : Pool) (news : List ℕ) → Filled (added p) q news → Filled p q ((p.next_id + 1) ∷ news)
unfolding register
Filled-added p q news f = record {
  sent = f.sent ∙ append_assoc p.available ((p.next_id + 1) ∷ []) news;
  kept = f.kept ∙ append_assoc p.workers ((p.next_id + 1) ∷ []) news;
  new = (omega arith, All-lt-weaken p.next_id (p.next_id + 1) news (omega arith) f.new);
  cfg_same = f.cfg_same;
  closed_same = f.closed_same;
}

-- With a supported version and room for `n` workers, the loop makes and sends `n`.
pub start_loop-fills :
    (n : ℕ) (p : Pool)
    → contains p.cfg.version valid_versions ≡ true
    → p.closed ≡ false
    → length p.available + n ≤ p.cfg.max_workers
    → (q : Pool) × (news : List ℕ) × (start_loop n p ≡ done q (ok tt))
      × (length news ≡ n)
      × Filled p q news
unfolding start_loop register
start_loop-fills zero p v open' room = (
  p,
  [],
  refl,
  refl,
  record {
    sent = sym (append-nil p.available);
    kept = sym (append-nil p.workers);
    new = tt;
    cfg_same = refl;
    closed_same = refl;
  },
)
start_loop-fills (suc n) p v open' room =
    let (q, news, runs, size, f) =
      start_loop-fills n (added p) v open'
        (omega (arith, length-append p.available ((p.next_id + 1) ∷ []))) in
    (
      q,
      (p.next_id + 1) ∷ news,
      spawn_send-added p (start_loop n) v open' (omega arith) ∙ runs,
      ap suc size,
      Filled-added p q news f,
    )

-- `Start` of a new pool, with a supported PHP version and limits in order, returns with exactly
-- `min_workers` workers, all of them in the channel, and the ownership of workers in order.
pub start_lem :
    (cfg : Settings)
    → contains cfg.version valid_versions ≡ true
    → cfg.min_workers ≤ cfg.max_workers
    → (q : Pool) × (start (new_pool cfg) ≡ done q (ok tt))
      × (length q.workers ≡ cfg.min_workers)
      × (q.available ≡ q.workers)
      × Inv (at_rest q)
unfolding start new_pool
start_lem cfg v h =
    let (q, news, runs, size, f) =
      start_loop-fills cfg.min_workers (new_pool cfg) v refl (omega arith) in
    (
      q,
      runs,
      ap length f.kept ∙ size,
      f.sent ∙ sym f.kept,
      start_loop-Inv cfg.min_workers (new_pool cfg) q (ok tt) runs (new_pool-Inv cfg),
    )
