-- ===== src/WorkerPool/Ownership/Bound.antt =====
-- The number of workers of internal/worker/pool.go against `max_workers`.
use maboo.Base.{
  ℕ, ◌+◌, ◌-◌, ◌≤◌, ◌<◌, ◌≡◌, ◌⊎◌, ap, inl, inr, Bool, true, List, [], ◌∷◌, ltb, if◌then◌else◌,
  length, String, arith, length-append, Bool-cases,
}
use maboo.Base.Results.{Result, ok, err}
use maboo.Engine.{EngineError, contains, valid_versions}
use maboo.WorkerPool.Worker.{new_worker}
use maboo.WorkerPool.Ids.{mem, count-mem, mem-count, length-remove}
use maboo.WorkerPool.Pool.{
  Settings, Pool, register, remove_worker, stop_worker, spawn_worker, run_worker, arrive,
  count_busy, uncount_busy,
}
use maboo.WorkerPool.Upkeep.{is_busy, replace_begin, reap_worker}
use maboo.WorkerPool.System.{
  System, Step, request, give_up, take_worker, run, give_back, wear_out, retire, respawn,
  respawn_fails, deliver, grow, grow_fails, shrink, reap_idle, cancel, halt, close, Reach, here,
  next,
}
use maboo.WorkerPool.Ownership.{
  Inv, spawn_worker-ok, spawn_worker-err, select-got, select-failed, release-back, release-worn,
  send-done, scale_down-reap,
}
use maboo.WorkerPool.Ownership.Start.{made, spawn_worker-made}

-- Workers that are registered or that a `replaceWorker` is about to make.
abbrev pub promised : System → ℕ
promised s = length s.pool.workers + s.respawning

-- A scale-up while some `replaceWorker` has removed its old worker and not yet made the new one.
abbrev pub Races : System → System → Type 0
Races s t =
    (0 < s.respawning)
    × (length s.pool.workers < s.pool.cfg.max_workers)
    × (length t.pool.workers ≡ length s.pool.workers + 1)

abbrev Within : System → Type 0
Within s = promised s ≤ s.pool.cfg.max_workers

spawn_worker-cfg : (p q : Pool) (r : Result EngineError ℕ) → spawn_worker p ≡ (q, r) → q.cfg ≡ p.cfg
unfolding spawn_worker new_worker
spawn_worker-cfg p q r h = ground arith

retire-Within :
    (s : System) (w : ℕ) (q : Pool) (go_on : Bool)
    → Inv s
    → mem w s.retiring ≡ true
    → replace_begin w s.pool ≡ (q, go_on)
    → Within s
    → length q.workers + ((if go_on then 1 else 0) + s.respawning) ≤ q.cfg.max_workers
unfolding replace_begin remove_worker
retire-Within s w q go_on v m e h =
    let here = mem-count w s.pool.workers (omega (arith, v.owned w, count-mem w s.retiring m)) in
    ground (arith, here, length-remove w s.pool.workers)

reap-Within :
    (s : System) (w : ℕ)
    → Within s
    → length (reap_worker w s.pool).workers + s.respawning ≤ (reap_worker w s.pool).cfg.max_workers
unfolding reap_worker remove_worker
reap-Within s w h = ground (arith, length-remove w s.pool.workers)

spawn-sizes :
    (p q : Pool) (w : ℕ)
    → spawn_worker p ≡ (q, ok w)
    → (length q.workers ≡ length p.workers + 1) × (q.cfg.max_workers ≡ p.cfg.max_workers)
spawn-sizes p q w e =
    let (_, _, workers, _, _, _) = spawn_worker-ok p q w e in
    (
      omega (arith, ap length workers, length-append p.workers (w ∷ [])),
      ap (λ (c : Settings). c.max_workers) (spawn_worker-cfg p q (ok w) e),
    )

grow-Within :
    (s : System) (w : ℕ) (q : Pool)
    → length s.pool.workers < s.pool.cfg.max_workers
    → spawn_worker s.pool ≡ (q, ok w)
    → (length q.workers + s.respawning ≤ q.cfg.max_workers) ⊎ Races s (record s { pool = q })
grow-Within s w q few e =
    let sizes = spawn-sizes s.pool q w e in
    elim (Bool-cases (ltb 0 s.respawning)) [
      | inl h ↦ inr (ground arith, few, sizes.0)
      | inr h ↦ inl (ground (arith, sizes))
    ]

-- No step takes the registered workers, and those that a replacement has promised, above
-- `max_workers`, but for one: a scale-up while a replacement is between its removal and its spawn.
pub Step-promised :
    (page : String → List ℕ) {s t : System}
    → Inv s
    → Step page s t
    → promised s ≤ s.pool.cfg.max_workers
    → (promised t ≤ t.pool.cfg.max_workers) ⊎ Races s t
unfolding arrive count_busy uncount_busy run_worker stop_worker
Step-promised page v (request s) h = inl h
Step-promised page v (give_up s wake e q k f) h =
    let same = select-failed s.pool q wake e f in inl (ground (arith, same))
Step-promised page v (take_worker s w q k f) h =
    let same = select-got s.pool q w f in inl (ground (arith, same))
Step-promised page v (run s w m) h = inl h
Step-promised page v (give_back s w q m e) h =
    let same = release-back s.pool q w e in inl (ground (arith, same))
Step-promised page v (wear_out s w q m e) h =
    let same = release-worn s.pool q w e in inl (ground (arith, same))
Step-promised page v (retire s w q go_on m e) h = inl (retire-Within s w q go_on v m e h)
Step-promised page v (respawn s w q k e) h =
    let sizes = spawn-sizes s.pool q w e in inl (ground (arith, sizes))
Step-promised page v (respawn_fails s e q k f) h =
    let same = spawn_worker-err s.pool q e f in
    inl (ground (arith, same, spawn_worker-cfg s.pool q (err e) f))
Step-promised page v (deliver s w q m e) h =
    let same = send-done s.pool q w e in inl (ground (arith, same))
Step-promised page v (grow s w q k b l e) h = grow-Within s w q l e
Step-promised page v (grow_fails s e q f) h =
    let same = spawn_worker-err s.pool q e f in
    inl (ground (arith, same, spawn_worker-cfg s.pool q (err e) f))
Step-promised page v (shrink s w q e) h =
    let same = scale_down-reap s.pool q w _ _ e in inl (ground (arith, same))
Step-promised page v (reap_idle s w m) h = inl (reap-Within s w h)
Step-promised page v (cancel s) h = inl h
Step-promised page v (halt s w m c) h = inl h
Step-promised page v (close s c) h = inl h

-- The pool after a successful spawn.
abbrev spawned : Pool → Pool
spawned p = register (made p) (record p { next_id = p.next_id + 1 })

-- With a supported PHP version, from any state whose registered workers and one pending replacement
-- just make up `max_workers`, busy enough for a scale-up, a history leads to more than `max_workers`.
pub scale_up_race :
    (page : String → List ℕ) (s : System)
    → contains s.pool.cfg.version valid_versions ≡ true
    → s.respawning ≡ 1
    → promised s ≡ s.pool.cfg.max_workers
    → 0 < length s.pool.workers
    → is_busy s.pool.busy_workers (length s.pool.workers) ≡ true
    → (t : System) × Reach page s t × (t.pool.cfg.max_workers < length t.pool.workers)
unfolding register
scale_up_race page s valid one full some' busy =
    let grown : System = record s {
      pool = spawned s.pool;
      arriving = (s.pool.next_id + 1) ∷ s.arriving;
    } in
    let id : ℕ = grown.pool.next_id + 1 in
    let t : System = record grown {
      pool = spawned grown.pool;
      arriving = id ∷ grown.arriving;
      respawning = grown.respawning - 1;
    } in
    (
      t,
      next
          (next here (
            grow s (s.pool.next_id + 1) _ some' busy (omega arith)
              (spawn_worker-made s.pool valid)))
          (respawn grown id _ (omega arith) (spawn_worker-made grown.pool valid)),
      omega (
        arith,
        length-append s.pool.workers ((s.pool.next_id + 1) ∷ []),
        length-append grown.pool.workers (id ∷ []),
      ),
    )
