-- ===== src/ProcessPool/Pairing/Kept.antt =====
-- internal/pool/pool.go with processes of the protocol: every step keeps what is
-- left to read.
use maboo.Base.{ℕ, ◌+◌, ◌-◌, ◌≡◌, refl, ap, false, [], ◌∷◌, ◌++◌, arith}
use maboo.Protocol.Wire.{Frame}
use maboo.WorkerPool.Ids.{remove, count, count-cons, count-nil, count-remove, count-mem}
use maboo.ProcessPool.Pool.{count_busy, uncount_busy, Pool, World, store, register, stop_worker}
use maboo.ProcessPool.Serve.{arrive}
use maboo.ProcessPool.System.{no_reload, making, System, sent_by, spawned_by, sending}
use maboo.ProcessPool.System.Steps.{
  take_id, Step, request, give_up, take_worker, exec_begins, exec_returns, exec_fails, wear_out,
  answer, time_out, drop_worker, begin_reload, reload_spawns, reload_joins, reload_fails,
  reload_sends, reload_drains, stop_made, stop_drained, remove_drained, get_ready, miss_ready,
  give_back, stop_old, remove_old, snapshot, inspect, stop_dead, remove_dead, go_on, go_home,
  respawn, grow, join, join_fails, deliver, shrink, stop_idle, remove_idle, cancel, halt, close,
}
use maboo.ProcessPool.Ownership.{Inv, disturbed}
use maboo.ProcessPool.Ownership.Pieces.{select-failed, scale_down-reap}
use maboo.ProcessPool.Pairing.{Obeys, Paired}
use maboo.ProcessPool.Pairing.Calls.{new_worker-empties}
use maboo.ProcessPool.Pairing.Moved.{leave-Synced, touched-Synced, launched-Synced, no_more}
use maboo.ProcessPool.Pairing.Settled.{
  let_go-Synced, stopped-Synced, removed-Synced, spawns-Synced, between-Synced, sent-Synced,
}
use maboo.ProcessPool.Pairing.Asked.{take_worker-Synced, exec_begins-Synced, exec_returns-Synced}
use maboo.ProcessPool.Pairing.Readied.{answer-Synced, get_ready-Synced, joined-Synced}

pub Step-Synced :
    (world : World) (reply : ℕ → Frame → Frame)
    → ((x : ℕ) → Obeys (world.php x) (reply x))
    → {s t : System} → Step world s t
    → disturbed t ≡ false
    → Inv s
    → Paired world reply s
    → Paired world reply t
unfolding arrive count_busy uncount_busy stop_worker take_id store register
Step-Synced world reply o (request s) c v y =
    leave-Synced world reply s y.at_each _ refl refl refl (λ x. no_more x s)
Step-Synced world reply o (give_up s wake e q h k) c v y =
    let same = select-failed s.pool q wake e k in
    leave-Synced world reply s y.at_each _ (ap (λ (p : Pool). p.next_id) same)
      (ap (λ (p : Pool). p.heap) same) refl
      (λ x. (
        omega (arith, ap (λ (p : Pool). count x p.available) same),
        omega arith,
        omega arith,
        omega arith,
      ))
Step-Synced world reply o (take_worker s w q req h k) c v y = record {
  at_each = take_worker-Synced world reply s v y.at_each w q req (s.waiting - 1) k;
}
Step-Synced world reply o (exec_begins s w req h) c v y = record {
  at_each = exec_begins-Synced world reply s v y.at_each o w req h;
}
Step-Synced world reply o (exec_returns s w req sent worker r h k) c v y = record {
  at_each = exec_returns-Synced world reply s v y.at_each o w req sent worker r h k;
}
Step-Synced world reply o (exec_fails s w req e m h) c v y = record {
  at_each = (let_go-Synced world reply s y.at_each w m).at_each;
}
Step-Synced world reply o (wear_out s w req resp m h k) c v y = record {
  at_each = (let_go-Synced world reply s y.at_each w m).at_each;
}
Step-Synced world reply o (answer s w req resp m h k) c v y = record {
  at_each = answer-Synced world reply s v y.at_each w req resp m h;
}
Step-Synced world reply o (time_out s w m h) c v y = record {
  at_each = (let_go-Synced world reply s y.at_each w m).at_each;
}
Step-Synced world reply o (drop_worker s w m h k) c v y = absurd (ground (arith, c, k))
Step-Synced world reply o (get_ready s w worker m h) c v y = record {
  at_each = get_ready-Synced world reply s v y.at_each w worker m h;
}
Step-Synced world reply o (miss_ready s w worker e m h) c v y =
    touched-Synced world reply s y.at_each w worker _
      (ground (arith, count-remove w w s.answered m, (v.each w).alone)) refl refl refl
      (λ x. (omega arith, omega arith, omega (arith, count-remove x w s.answered m), omega arith))
Step-Synced world reply o (give_back s w q m h) c v y =
    sent-Synced world reply s y.at_each w q _ h refl refl refl (λ x e.
      (omega (arith, e, count-remove x w s.returning m), omega arith, omega arith, omega arith))
Step-Synced world reply o (stop_old s w m) c v y = record {
  at_each =
      (stopped-Synced world reply s y.at_each w
        (omega (arith, count-mem w s.retiring m, (v.each w).alone))).at_each;
}
Step-Synced world reply o (remove_old s w m) c v y = record {
  at_each = (removed-Synced world reply s y.at_each w).at_each;
}
Step-Synced world reply o (snapshot s h) c v y =
    leave-Synced world reply s y.at_each _ refl refl refl (λ x. no_more x s)
Step-Synced world reply o (inspect s w rest h) c v y =
    leave-Synced world reply s y.at_each _ refl refl refl (λ x. no_more x s)
Step-Synced world reply o (stop_dead s w m) c v y = record {
  at_each =
      (stopped-Synced world reply s y.at_each w
        (omega (arith, (v.each w).spared c (omega (arith, count-mem w s.condemned m))))).at_each;
}
Step-Synced world reply o (remove_dead s w m) c v y = record {
  at_each = (removed-Synced world reply s y.at_each w).at_each;
}
Step-Synced world reply o (go_on s h k) c v y =
    leave-Synced world reply s y.at_each _ refl refl refl (λ x. no_more x s)
Step-Synced world reply o (go_home s h k) c v y =
    leave-Synced world reply s y.at_each _ refl refl refl (λ x. no_more x s)
Step-Synced world reply o (respawn s h) c v y = record {
  at_each = (spawns-Synced world reply s y.at_each).at_each;
}
Step-Synced world reply o (grow s h b l) c v y = record {
  at_each = (spawns-Synced world reply s y.at_each).at_each;
}
Step-Synced world reply o (join s id worker m h) c v y = record {
  at_each =
      joined-Synced world reply s v y.at_each id worker
        (record s {
          pool = register id worker s.pool;
          launching = remove id s.launching;
          arriving = id ∷ s.arriving;
        })
        (omega (arith, count-mem id s.launching m))
        (new_worker-empties (world.php id) (reply id) (world.launch id) id worker (o id) h) refl
        refl refl refl
        (λ x other. (
          ground (arith, other, count-cons x id s.arriving),
          omega (arith, count-remove x id s.launching m),
        ));
}
Step-Synced world reply o (join_fails s id worker e m h) c v y =
    leave-Synced world reply s y.at_each _ refl refl refl
      (λ x. (omega arith, omega arith, omega arith, omega (arith, count-remove x id s.launching m)))
Step-Synced world reply o (deliver s w q m h) c v y =
    sent-Synced world reply s y.at_each w q _ h refl refl refl (λ x e.
      (omega (arith, e, count-remove x w s.arriving m), omega arith, omega arith, omega arith))
Step-Synced world reply o (shrink s w q h) c v y =
    let (same, front) = scale_down-reap s.pool q w _ _ h in
    leave-Synced world reply s y.at_each _ (ap (λ (p : Pool). p.next_id) same)
      (ap (λ (p : Pool). p.heap) same) refl
      (λ x. (
        ground (arith, ap (count x) front, count-cons x w q.available),
        omega arith,
        omega arith,
        omega arith,
      ))
Step-Synced world reply o (stop_idle s w m) c v y = record {
  at_each =
      (stopped-Synced world reply s y.at_each w
        (omega (arith, count-mem w s.stopping m, (v.each w).alone))).at_each;
}
Step-Synced world reply o (remove_idle s w m) c v y = record {
  at_each = (removed-Synced world reply s y.at_each w).at_each;
}
Step-Synced world reply o (begin_reload s h k) c v y = record {
  at_each =
      (between-Synced world reply s y.at_each (making s.pool.cfg.min_workers s.pool.workers []) refl
        refl).at_each;
}
Step-Synced world reply o (reload_spawns s n old made h) c v y =
    launched-Synced world reply s y.at_each _ refl refl refl (λ x. (
      omega (arith, ap (λ r. count x (sent_by r)) h, count-nil x),
      omega arith,
      omega arith,
      omega (
        arith,
        ap (λ r. count x (spawned_by r)) h,
        count-nil x,
        count-cons x (s.pool.next_id + 1) [],
      ),
    ))
Step-Synced world reply o (reload_joins s id n old made worker h k) c v y = record {
  at_each =
      joined-Synced world reply s v y.at_each id worker
        (record s { pool = register id worker s.pool; reload = sending id n old (made ++ id ∷ []) })
        (ground (arith, ap (λ r. count id (spawned_by r)) h, count-cons id id []))
        (new_worker-empties (world.php id) (reply id) (world.launch id) id worker (o id) k) refl
        refl refl refl
        (λ x other. (
          ground (arith, other, count-cons x id [], count-nil x),
          omega (arith, ap (λ r. count x (spawned_by r)) h, count-nil x),
        ));
}
Step-Synced world reply o (reload_fails s id n old made worker e h k) c v y = record {
  at_each = (between-Synced world reply s y.at_each no_reload refl refl).at_each;
}
Step-Synced world reply o (reload_sends s id n old made q h k) c v y =
    sent-Synced world reply s y.at_each id q _ k refl refl refl (λ x e. (
      omega (arith, e, ap (λ r. count x (sent_by r)) h, count-nil x, count-cons x id []),
      omega arith,
      omega arith,
      omega (arith, ap (λ r. count x (spawned_by r)) h, count-nil x),
    ))
Step-Synced world reply o (reload_drains s old made h) c v y = record {
  at_each = (between-Synced world reply s y.at_each no_reload refl refl).at_each;
}
Step-Synced world reply o (stop_made s w m) c v y = absurd (ground (arith, c))
Step-Synced world reply o (stop_drained s w m b) c v y = absurd (ground (arith, c))
Step-Synced world reply o (remove_drained s w m) c v y = absurd (ground (arith, c))
Step-Synced world reply o (cancel s) c v y = absurd (ground (arith, c))
Step-Synced world reply o (halt s w k) c v y = absurd (ground (arith, c, k))
Step-Synced world reply o (close s k) c v y = absurd (ground (arith, c, k))
