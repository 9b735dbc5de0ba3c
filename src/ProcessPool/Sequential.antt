-- ===== src/ProcessPool/Sequential.antt =====
-- internal/pool/pool.go: requests that run one after the other are one of the interleavings.
pub mod Calls
pub mod Replaced
pub mod Served
use maboo.Base.{
  ℕ, ◌++◌, ◌+◌, ◌-◌, ◌<◌, ◌≡◌, ◌⊎◌, refl, ap, subst, ◌∙◌, inl, inr, true, List, [], ◌∷◌, some,
  arith, Bool-cases, Option-cases,
}
use maboo.Base.Results.{Result, ok, err}
use maboo.Protocol.Wire.{Frame}
use maboo.WorkerPool.Ids.{mem, mem-here, remove}
use maboo.ProcessPool.Worker
use maboo.ProcessPool.Worker.{Worker, WorkerError, Io, returned, waits}
use maboo.ProcessPool.Pool.{
  start, new_pool, Settings, Pool, World, Run, done, blocked, silent, panicked, Task, replace,
  store, send, register, needs_recycle, remove_worker, count_busy, uncount_busy, stop_worker,
  refill, replace_worker, spawn_worker,
}
use maboo.ProcessPool.Serve.{
  Wake, received, timed_out, ctx_done, exec, after_select, receive, select, arrive,
  no_available_worker, shutting_down, PoolError, Finish, completed, too_late, cancelled, serve,
  after_exec, Answer, after_ready, read_ready,
}
use maboo.ProcessPool.Balance.{Io-cases, Result-cases}
use maboo.ProcessPool.Requests.{round, History, nothing, then_round}
use maboo.ProcessPool.Ownership.Reached.{Running, running}
use maboo.ProcessPool.Ownership.Steps.{send-cases}
use maboo.ProcessPool.System.{at_rest, System, Call, called, begun, ended, set_call}
use maboo.ProcessPool.System.Steps.{
  take_id, Reach, here, next, exec_fails, wear_out, answer, time_out, drop_worker, request, give_up,
  take_worker, get_ready, miss_ready, give_back, exec_begins, exec_returns, stop_old, remove_old,
  go_on, go_home, respawn, join, join_fails, deliver,
}
use maboo.ProcessPool.Sequential.Calls.{
  Reach-trans, Gets, Leaves, Leaves-after, store-store, store-heap, set_call-same, exec_runs,
}
use maboo.ProcessPool.Sequential.Replaced.{replace_worker-Reach}
use maboo.ProcessPool.Sequential.Served.{exec-Reach}

pub Run-cases :
    {A : Type 0} (r : Run A)
    → ((q : Pool) × (a : A) × (r ≡ done q a))
      ⊎ ((r ≡ blocked) ⊎ (((w : ℕ) × (r ≡ silent w)) ⊎ (r ≡ panicked)))
Run-cases (done q a) = inl (q, a, refl)
Run-cases blocked = inr (inl refl)
Run-cases (silent w) = inr (inr (inl (w, refl)))
Run-cases panicked = inr (inr (inr refl))

round-Reach :
    (world : World) (wake : Wake) (finish : Finish) (req : Frame) (s : System) (t : Pool)
    (b : Result PoolError Frame)
    → round world wake finish req s.pool ≡ some (done t b)
    → Gets world s t
unfolding round
round-Reach world wake finish req s t b h =
    elim (Option-cases (exec world wake finish req s.pool)) [
      | inl e ↦ absurd (ground (arith, e, h))
      | inr (r, e) ↦ elim (Run-cases r) [
        | inl (q, (x, tasks), f) ↦
            let (u, to_u, same, kept, left) =
              exec-Reach world wake finish req s q (x, tasks) (e ∙ ap some f) in
            elim left [
              | inl no_task ↦ (u, to_u, same ∙ ground (arith, e, f, no_task, h), kept)
              | inr (w, task, m) ↦ elim (Run-cases (replace_worker world w q)) [
                | inl (t', unit, g) ↦
                    let (v, to_v, same', kept') =
                      replace_worker-Reach world u w t' m (ap (replace_worker world w) same ∙ g) in
                    (
                      v,
                      Reach-trans world to_u to_v,
                      same' ∙ ground (arith, e, f, task, g, h),
                      kept' ∙ kept,
                    )
                | inr g ↦ absurd (ground (arith, e, f, task, g, h))
              ]
            ]
        | inr f ↦ absurd (ground (arith, e, f, h))
      ]
    ]

-- Any requests from a state on, one after the other and each with the goroutine that it left, are a run
-- of the interleaved steps, in which no `Reload` stops a worker.
pub History-Reach :
    (world : World) (s : System) (q : Pool) → History world s.pool q → Gets world s q
History-Reach world s q nothing = (s, here, refl, refl)
History-Reach world s q (then_round {q = p} wake finish req a hist e) =
    let (t, to_t, same, kept) = History-Reach world s p hist in
    let (u, to_u, done_u, kept') =
      round-Reach world wake finish req t q a (ap (round world wake finish req) same ∙ e) in
    (u, Reach-trans world to_t to_u, done_u, kept' ∙ kept)
