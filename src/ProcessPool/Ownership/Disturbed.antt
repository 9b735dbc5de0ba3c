-- ===== src/ProcessPool/Ownership/Disturbed.antt =====
-- internal/pool/pool.go: no step undoes a `Reload` or the shutdown.
use maboo.Base.{◌≡◌, ap, false, arith}
use maboo.ProcessPool.Pool.{count_busy, uncount_busy, Pool, World, store, register, stop_worker}
use maboo.ProcessPool.Serve.{arrive}
use maboo.ProcessPool.System.{System}
use maboo.ProcessPool.System.Steps.{
  take_id, Step, request, give_up, take_worker, exec_begins, exec_returns, exec_fails, wear_out,
  answer, time_out, drop_worker, begin_reload, reload_spawns, reload_joins, reload_fails,
  reload_sends, reload_drains, stop_made, stop_drained, remove_drained, get_ready, miss_ready,
  give_back, stop_old, remove_old, snapshot, inspect, stop_dead, remove_dead, go_on, go_home,
  respawn, grow, join, join_fails, deliver, shrink, stop_idle, remove_idle, cancel, halt, close,
}
use maboo.ProcessPool.Ownership.{disturbed}
use maboo.ProcessPool.Ownership.Pieces.{select-got, select-failed, send-done, scale_down-reap}
use maboo.ProcessPool.Ownership.Stops.{remove_worker-relisted}

pub Step-disturbed :
    (world : World) {s t : System} → Step world s t → disturbed t ≡ false → disturbed s ≡ false
unfolding arrive count_busy uncount_busy stop_worker take_id store register
Step-disturbed world (request s) c = c
Step-disturbed world (give_up s wake e q h k) c =
    ground (arith, ap (λ (p : Pool). p.cancelled) (select-failed s.pool q wake e k), c)
Step-disturbed world (take_worker s w q req h k) c =
    ground (arith, ap (λ (p : Pool). p.cancelled) (select-got s.pool q w k).0, c)
Step-disturbed world (exec_begins s w req h) c = c
Step-disturbed world (exec_returns s w req sent worker r h k) c = c
Step-disturbed world (exec_fails s w req e m h) c = c
Step-disturbed world (wear_out s w req resp m h k) c = c
Step-disturbed world (answer s w req resp m h k) c = c
Step-disturbed world (time_out s w m h) c = c
Step-disturbed world (drop_worker s w m h k) c = c
Step-disturbed world (get_ready s w worker m h) c = c
Step-disturbed world (miss_ready s w worker e m h) c = c
Step-disturbed world (give_back s w q m h) c =
    ground (arith, ap (λ (p : Pool). p.cancelled) (send-done s.pool q w h), c)
Step-disturbed world (stop_old s w m) c = c
Step-disturbed world (remove_old s w m) c =
    ground (arith, ap (λ (p : Pool). p.cancelled) (remove_worker-relisted w s.pool), c)
Step-disturbed world (snapshot s h) c = c
Step-disturbed world (inspect s w rest h) c = c
Step-disturbed world (stop_dead s w m) c = c
Step-disturbed world (remove_dead s w m) c =
    ground (arith, ap (λ (p : Pool). p.cancelled) (remove_worker-relisted w s.pool), c)
Step-disturbed world (go_on s h k) c = c
Step-disturbed world (go_home s h k) c = c
Step-disturbed world (respawn s h) c = c
Step-disturbed world (grow s h b l) c = c
Step-disturbed world (join s id worker m h) c = c
Step-disturbed world (join_fails s id worker e m h) c = c
Step-disturbed world (deliver s w q m h) c =
    ground (arith, ap (λ (p : Pool). p.cancelled) (send-done s.pool q w h), c)
Step-disturbed world (shrink s w q h) c =
    ground (arith, ap (λ (p : Pool). p.cancelled) (scale_down-reap s.pool q w _ _ h).0, c)
Step-disturbed world (stop_idle s w m) c = c
Step-disturbed world (remove_idle s w m) c =
    ground (arith, ap (λ (p : Pool). p.cancelled) (remove_worker-relisted w s.pool), c)
Step-disturbed world (begin_reload s h k) c = c
Step-disturbed world (reload_spawns s n old made h) c = c
Step-disturbed world (reload_joins s id n old made worker h k) c = c
Step-disturbed world (reload_fails s id n old made worker e h k) c = c
Step-disturbed world (reload_sends s id n old made q h k) c =
    ground (arith, ap (λ (p : Pool). p.cancelled) (send-done s.pool q id k), c)
Step-disturbed world (reload_drains s old made h) c = c
Step-disturbed world (stop_made s w m) c = absurd (ground (arith, c))
Step-disturbed world (stop_drained s w m b) c = absurd (ground (arith, c))
Step-disturbed world (remove_drained s w m) c = absurd (ground (arith, c))
Step-disturbed world (cancel s) c = absurd (ground (arith, c))
Step-disturbed world (halt s w k) c = c
Step-disturbed world (close s k) c = c
