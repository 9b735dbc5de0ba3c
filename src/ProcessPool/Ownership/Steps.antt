-- ===== src/ProcessPool/Ownership/Steps.antt =====
-- internal/pool/pool.go: every step keeps the ownership of workers, and `Start` sets it up.
use maboo.Base.{
  ℕ, zero, suc, ◌+◌, ◌≡◌, ◌⊎◌, refl, sym, ap, inl, inr, Bool, true, false, [], ◌∷◌, ◌++◌, arith,
  subst,
}
use maboo.Base.Results.{Result}
use maboo.WorkerPool.Ids.{mem-here, remove, count}
use maboo.ProcessPool.Worker
use maboo.ProcessPool.Worker.{Worker, WorkerError, Io, returned, waits}
use maboo.ProcessPool.Pool.{
  Settings, Pool, World, done, blocked, panicked, new_pool, register, send, stop_worker, store,
  spawn_worker, start_loop,
}
use maboo.ProcessPool.Balance.{Io-cases, Result-cases}
use maboo.ProcessPool.System.{no_reload, spawned_by, sent_by, System, at_rest}
use maboo.ProcessPool.System.Steps.{
  take_id, Step, Reach, here, next, request, give_up, take_worker, exec_begins, exec_returns,
  exec_fails, wear_out, answer, time_out, drop_worker, begin_reload, reload_spawns, reload_joins,
  reload_fails, reload_sends, reload_drains, stop_made, stop_drained, remove_drained, get_ready,
  miss_ready, give_back, stop_old, remove_old, snapshot, inspect, stop_dead, remove_dead, go_on,
  go_home, respawn, grow, join, join_fails, deliver, shrink, stop_idle, remove_idle, cancel, halt,
  close,
}
use maboo.ProcessPool.Ownership.{Inv}
use maboo.ProcessPool.Ownership.Moves.{
  arrive-Inv, give_up-Inv, take_worker-Inv, exec_begins-Inv, exec_returns-Inv, leave-Inv, drop-Inv,
  answer-Inv, get_ready-Inv, miss_ready-Inv, give_back-Inv, deliver-Inv, shrink-Inv,
}
use maboo.ProcessPool.Ownership.Stops.{
  stop_old-Inv, remove_old-Inv, stop_dead-Inv, remove_dead-Inv, stop_idle-Inv, remove_idle-Inv,
}
use maboo.ProcessPool.Ownership.Reloads.{
  paused-Inv, reload_spawns-Inv, reload_joins-Inv, reload_fails-Inv, reload_sends-Inv,
  reload_stops-Inv, remove_drained-Inv,
}
use maboo.ProcessPool.Ownership.Workers.{
  new_worker-fresh, launch-Inv, join-Inv, join_fails-Inv, snapshot-Inv, inspect-Inv, shut_down-Inv,
}

counters-Inv : (s : System) (m n : ℕ) → Inv s → Inv (record s { removed = m; respawning = n })
counters-Inv s m n v = record {
  each = v.each;
  active = v.active;
  busy = v.busy;
  open_until = v.open_until;
}

stays_shut-Inv :
    (s : System) (heap : ℕ → Worker) (closed : Bool)
    → Inv s
    → s.pool.cancelled ≡ true
    → Inv (record s { pool = record s.pool { heap = heap; closed = closed } })
stays_shut-Inv s heap closed v c =
    subst
      (λ b. Inv (record s { pool = record s.pool { heap = heap; closed = closed; cancelled = b } }))
      (sym c) (shut_down-Inv s v heap closed)

pub Step-Inv : (world : World) {s t : System} → Step world s t → Inv s → Inv t
unfolding stop_worker store
Step-Inv world (request s) v = arrive-Inv s v _
Step-Inv world (give_up s wake e q h k) v = give_up-Inv s v wake e q _ k
Step-Inv world (take_worker s w q req h k) v = take_worker-Inv s v w _ q _ k
Step-Inv world (exec_begins s w req h) v = exec_begins-Inv s v world w req _
Step-Inv world (exec_returns s w req sent worker r h k) v =
    exec_returns-Inv s v world w sent worker r _ k
Step-Inv world (exec_fails s w req e m h) v = leave-Inv s v w m
Step-Inv world (wear_out s w req resp m h k) v = leave-Inv s v w m
Step-Inv world (answer s w req resp m h k) v = answer-Inv s v w m
Step-Inv world (time_out s w m h) v = leave-Inv s v w m
Step-Inv world (drop_worker s w m h k) v = drop-Inv s v w m
Step-Inv world (get_ready s w worker m h) v = get_ready-Inv s v world w worker m h
Step-Inv world (miss_ready s w worker e m h) v = miss_ready-Inv s v world w worker e m h
Step-Inv world (give_back s w q m h) v = give_back-Inv s v w q m h
Step-Inv world (stop_old s w m) v = stop_old-Inv world s v w m
Step-Inv world (remove_old s w m) v = remove_old-Inv world s v w _ m
Step-Inv world (snapshot s h) v = snapshot-Inv s v
Step-Inv world (inspect s w rest h) v = inspect-Inv s v w rest h
Step-Inv world (stop_dead s w m) v = stop_dead-Inv world s v w m
Step-Inv world (remove_dead s w m) v = remove_dead-Inv world s v w _ m
Step-Inv world (go_on s h k) v = counters-Inv s _ _ v
Step-Inv world (go_home s h k) v = counters-Inv s _ _ v
Step-Inv world (respawn s h) v = launch-Inv s v _
Step-Inv world (grow s h b l) v = launch-Inv s v _
Step-Inv world (join s id worker m h) v =
    join-Inv s v id worker m (new_worker-fresh (world.php id) id worker _ h)
Step-Inv world (join_fails s id worker e m h) v = join_fails-Inv s v id m
Step-Inv world (deliver s w q m h) v = deliver-Inv s v w q m h
Step-Inv world (shrink s w q h) v = shrink-Inv s v w _ _ q h
Step-Inv world (stop_idle s w m) v = stop_idle-Inv world s v w m
Step-Inv world (remove_idle s w m) v = remove_idle-Inv world s v w m
Step-Inv world (begin_reload s h f) v =
    paused-Inv s v _ s.draining (ap spawned_by (sym h)) (ap sent_by (sym h))
Step-Inv world (reload_spawns s n old made h) v = reload_spawns-Inv s v n old made h
Step-Inv world (reload_joins s id n old made worker h k) v =
    reload_joins-Inv s v id n old made _ worker h
      (new_worker-fresh (world.php id) id worker (world.launch id) k)
Step-Inv world (reload_fails s id n old made worker e h k) v =
    reload_fails-Inv s v id n old made _ h
Step-Inv world (reload_sends s id n old made q h k) v = reload_sends-Inv s v id n old made q h k
Step-Inv world (reload_drains s old made h) v =
    paused-Inv s v no_reload _ (ap spawned_by (sym h)) (ap sent_by (sym h))
Step-Inv world (stop_made s w m) v = reload_stops-Inv s v world w _ s.draining s.drained
Step-Inv world (stop_drained s w m b) v = reload_stops-Inv s v world w s.failing _ _
Step-Inv world (remove_drained s w m) v = remove_drained-Inv s v w _
Step-Inv world (cancel s) v = shut_down-Inv s v s.pool.heap s.pool.closed
Step-Inv world (halt s w c) v = stays_shut-Inv s (stop_worker world w s.pool).heap s.pool.closed v c
Step-Inv world (close s c) v = stays_shut-Inv s s.pool.heap true v c

pub Reach-Inv : (world : World) {s t : System} → Inv s → Reach world s t → Inv t
Reach-Inv world v here = v
Reach-Inv world v (next r st) = Step-Inv world st (Reach-Inv world v r)

pub new_pool-Inv : (cfg : Settings) → Inv (at_rest (new_pool cfg))
unfolding new_pool count
new_pool-Inv cfg = record {
  each = λ x. record {
    alone = omega arith;
    listed_once = omega arith;
    nowhere = λ h. refl;
    unmarked = λ h. refl;
    kept = λ c. omega arith;
    fit = λ c h. refl;
    spared = λ c h. refl;
  };
  active = refl;
  busy = refl;
  open_until = λ h. refl;
}

remove-only : (w : ℕ) → remove w (w ∷ []) ≡ []
unfolding remove
remove-only w = ground arith

pub send-cases :
    (w : ℕ) (p : Pool)
    → (send w p ≡ done (record p { available = p.available ++ w ∷ [] }) tt)
      ⊎ ((send w p ≡ blocked) ⊎ (send w p ≡ panicked))
unfolding send
send-cases w p = ground arith

-- A worker that the loop of `Start` has made and sent.
pub added-Inv :
    (p q : Pool) (worker : Worker)
    → worker.reaped ≡ false
    → send (p.next_id + 1) (register (p.next_id + 1) worker (take_id p)) ≡ done q tt
    → Inv (at_rest p)
    → Inv (at_rest q)
unfolding register store
added-Inv p q worker fresh sent v =
    let id = p.next_id + 1 in
    let s = at_rest p in
    let launched : System = record s { pool = take_id p; launching = id ∷ [] } in
    let joined : System = record s {
      pool = register id worker (take_id p);
      launching = remove id (id ∷ []);
      arriving = id ∷ [];
    } in
    let first : Inv launched = launch-Inv s v 0 in
    let second : Inv joined = join-Inv launched first id worker (mem-here id []) fresh in
    subst (λ ids. Inv (record s { pool = q; launching = ids; arriving = ids })) (remove-only id)
      (deliver-Inv joined second id q (mem-here id []) sent)

unlaunched-Inv : (p : Pool) → Inv (at_rest p) → Inv (at_rest (take_id p))
unlaunched-Inv p v =
    let id = p.next_id + 1 in
    let s = at_rest p in
    let launched : System = record s { pool = take_id p; launching = id ∷ [] } in
    subst (λ ids. Inv (record s { pool = take_id p; launching = ids })) (remove-only id)
      (join_fails-Inv launched (launch-Inv s v 0) id (mem-here id []))

pub start_loop-Inv :
    (world : World) (n : ℕ) (p q : Pool) (r : Result WorkerError (Unit {0}))
    → start_loop world n p ≡ done q r
    → Inv (at_rest p)
    → Inv (at_rest q)
unfolding start_loop spawn_worker take_id
start_loop-Inv world zero p q r h v = subst (λ t. Inv (at_rest t)) (ground arith) v
start_loop-Inv world (suc n) p q r h v =
    let id = p.next_id + 1 in
    elim (Io-cases (Worker.new_worker (world.php id) (world.launch id) id)) [
      | inl e ↦ absurd (ground (arith, e, h))
      | inr (worker, a, e) ↦ elim (Result-cases a) [
        | inl (u, f) ↦ elim (send-cases id (register id worker (take_id p))) [
          | inl sent ↦ start_loop-Inv world n _ q r (ground (arith, e, f, sent, h)) (
              added-Inv p _ worker
                (new_worker-fresh (world.php id) id worker (world.launch id) (ground (arith, e, f)))
                sent v)
          | inr (inl stuck) ↦ absurd (ground (arith, e, f, stuck, h))
          | inr (inr fault) ↦ absurd (ground (arith, e, f, fault, h))
        ]
        | inr (x, f) ↦ subst (λ t. Inv (at_rest t)) (ground (arith, e, f, h)) (unlaunched-Inv p v)
      ]
    ]
